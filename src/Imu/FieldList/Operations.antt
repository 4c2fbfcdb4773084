-- ===== src/Imu/FieldList/Operations.antt =====
-- What getAtPos, remove and clear of MipFieldList.cpp do with a list of fields.
use guillemot_core.Prelude.{
  ℕ, zero, suc, ◌+◌, ◌-◌, ◌≤◌, ◌<◌, ◌≡◌, refl, ◌∙◌, List, [], ◌∷◌, Option, none, some, ltb, arith,
  length, get_elem?, Bool-cases, inl, inr,
}
use guillemot_core.Prelude.Int.{ℤ, pos, negsuc}
use guillemot_core.Prelude.Run.{Run, done, fault, ◌>>=◌}
use guillemot_core.Imu.Field.DataField.{Field}
use guillemot_core.Imu.FieldList.{
  Heap, MipFieldList, write, add, remove, get_loop, get_at_pos, clear_loop, clear,
}
use guillemot_core.Imu.FieldList.Contents.{
  first, last, last_from, Linked, Rising, IsList, Linked-agree,
}

get_loop_lem :
    (h : Heap) (ns : List ℕ) (fs : List Field) (p : ℕ) (ret : Option Field)
    → Linked h ns fs
    → p < length fs
    → get_loop (suc p) ret (first ns) h ≡ done (get_elem? fs p)
unfolding get_loop
get_loop_lem h (a ∷ ns) (f ∷ fs) zero ret (l0, l) b = rw l0
get_loop_lem h (a ∷ ns) (f ∷ fs) (suc p) ret (l0, l) b =
    rw l0 (get_loop_lem h ns fs p (some f) l (omega arith))
get_loop_lem h [] [] p ret l b = absurd (omega arith)
get_loop_lem h [] (f ∷ fs) p ret l b = absurd l
get_loop_lem h (a ∷ ns) [] p ret l b = absurd l

get_elem?-ge : (fs : List Field) (p : ℕ) → length fs ≤ p → get_elem? fs p ≡ none
get_elem?-ge [] p h = refl
get_elem?-ge (f ∷ fs) zero h = absurd (omega arith)
get_elem?-ge (f ∷ fs) (suc p) h = get_elem?-ge fs p (omega arith)

-- What the caller of getAtPos expects: the field at the position, and `NULL` for a position that is
-- negative or past the end.
abbrev pub field_at : List Field → ℤ → Option Field
field_at fs (pos p) = get_elem? fs p
field_at fs (negsuc p) = none

-- At every position getAtPos returns the field that stands there in the list, or `NULL` if none
-- does, and touches no memory but the list's own.
pub get_at_pos_lem :
    (l : MipFieldList) (h : Heap) (fs : List Field) (p : ℤ)
    → IsList l h fs
    → get_at_pos l p h ≡ done (field_at fs p)
unfolding get_at_pos
get_at_pos_lem l h fs (negsuc p) v = refl
get_at_pos_lem l h fs (pos p) v = elim (Bool-cases (ltb p l.count)) [
  | inl inside ↦
      let b : p < length fs = ground (arith, v.count_eq) in
      let plus : p + 1 ≡ suc p = omega arith in
      rw (inside, plus, v.head_eq) (get_loop_lem h v.nodes fs p none v.linked b)
  | inr outside ↦
      let b : length fs ≤ p = ground (arith, v.count_eq) in rw (outside, get_elem?-ge fs p b)
]

-- What the code's remove returns and keeps of a list: the field behind the first one, which stays
-- in the list, and a null dereference where there is none behind it.
abbrev pub Removes : List Field → Heap → Run (Option Field × MipFieldList) → Type 0
Removes [] h r = (l : MipFieldList) × (r ≡ done (none, l)) × IsList l h []
Removes (f ∷ []) h r = r ≡ fault
Removes (f ∷ g ∷ fs) h r = (l : MipFieldList) × (r ≡ done (some g, l)) × IsList l h (g ∷ fs)

-- remove on an empty list returns `NULL`. On a list of one field it dereferences `NULL`. On a longer
-- list it unlinks the first field, but returns the second one, which is still in the list.
pub remove-Removes :
    (l : MipFieldList) (h : Heap) (fs : List Field) → IsList l h fs → Removes fs h (remove l h)
unfolding remove
remove-Removes l h fs v = go v.nodes fs v.head_eq v.tail_eq v.count_eq v.linked v.rising
  where
    go :
        (ns : List ℕ) (fs : List Field)
        → l.head ≡ first ns
        → l.tail ≡ last ns
        → l.count ≡ length fs
        → Linked h ns fs
        → Rising 0 ns h.fresh
        → Removes fs h (remove l h)
    go [] [] e t c lk r = (
      l,
      rw e,
      record { nodes = []; head_eq = e; tail_eq = t; count_eq = c; linked = tt; rising = tt },
    )
    go (a ∷ []) (f ∷ []) e t c (l0, lk) r = rw (e, l0)
    go (a ∷ b ∷ ns) (f ∷ g ∷ fs) e t c (l0, (l1, lk)) (r0, r1, (r2, r3, r)) = (
      record l { head = some b; count = l.count - 1 },
      rw (e, l0, l1),
      record {
        nodes = b ∷ ns;
        head_eq = refl;
        tail_eq = t;
        count_eq = omega arith;
        linked = (l1, lk);
        rising = (omega arith, r3, r);
      },
    )
    go [] (f ∷ fs) e t c lk r = absurd lk
    go (a ∷ ns) [] e t c lk r = absurd lk
    go (a ∷ []) (f ∷ g ∷ fs) e t c lk r = absurd lk.1
    go (a ∷ b ∷ ns) (f ∷ []) e t c lk r = absurd lk.1

-- Every cell at the addresses is free.
abbrev pub Freed : Heap → List ℕ → Type 0
Freed k [] = Unit
Freed k (a ∷ ns) = (k.cell a ≡ none) × Freed k ns

clear_loop_lem :
    (h : Heap) (ns : List ℕ) (fs : List Field) (lo hi fuel : ℕ)
    → Linked h ns fs
    → Rising lo ns hi
    → length ns < fuel
    → (k : Heap) × (clear_loop fuel (first ns) h ≡ done k)
      × Freed k ns
      × (k.fresh ≡ h.fresh)
      × ((c : ℕ) → c < lo → k.cell c ≡ h.cell c)
unfolding clear_loop
clear_loop_lem h [] [] lo hi (suc fuel) l r b = (h, refl, tt, refl, λ c p. refl)
clear_loop_lem h (a ∷ ns) (f ∷ fs) lo hi (suc fuel) (l0, l) (r0, r1, r) b =
    let w = write h a none in
    let l' = Linked-agree h w ns fs (a + 1) hi (λ c p q. ground arith) r l in
    let (k, e, fr, ke, keep) = clear_loop_lem w ns fs (a + 1) hi fuel l' r (omega arith) in
    (
      k,
      rw l0 e,
      (keep a (omega arith) ∙ ground arith, fr),
      ke,
      λ c p. keep c (omega arith) ∙ ground arith,
    )
clear_loop_lem h [] (f ∷ fs) lo hi fuel l r b = absurd l
clear_loop_lem h (a ∷ ns) [] lo hi fuel l r b = absurd l
clear_loop_lem h ns fs lo hi zero l r b = absurd (omega arith)

pub Rising-length : (lo : ℕ) (ns : List ℕ) (hi : ℕ) → Rising lo ns hi → length ns ≤ hi - lo
Rising-length lo [] hi r = omega arith
Rising-length lo (a ∷ ns) hi (r0, r1, r) = omega (arith, Rising-length (a + 1) ns hi r)

-- clear returns, deletes every node of the list, and makes the list object's head `NULL`; the rounds
-- that the model gives the loop are enough.
pub clear_frees :
    (l : MipFieldList) (h : Heap) (fs : List Field) (v : IsList l h fs)
    → (k : Heap) × (clear l h ≡ done (record l { head = none }, k))
      × Freed k v.nodes
      × (k.fresh ≡ h.fresh)
unfolding clear
clear_frees l h fs v =
    let enough = Rising-length 0 v.nodes h.fresh v.rising in
    let (k, e, fr, same, _) =
      clear_loop_lem h v.nodes fs 0 h.fresh (h.fresh + 1) v.linked v.rising (omega arith) in
    (k, rw (v.head_eq, e), fr, same)

Freed-last : (k : Heap) (a : ℕ) (ns : List ℕ) → Freed k (a ∷ ns) → k.cell (last_from a ns) ≡ none
Freed-last k a [] fr = fr.0
Freed-last k a (b ∷ ns) fr = Freed-last k b ns fr.1

Rising-last : (lo a : ℕ) (ns : List ℕ) (hi : ℕ) → Rising lo (a ∷ ns) hi → last_from a ns < hi
Rising-last lo a [] hi r = r.1
Rising-last lo a (b ∷ ns) hi r = Rising-last (a + 1) b ns hi r.2

-- After a list that is not empty has been cleared, its tail still points to a deleted node: the next
-- add writes to that node, which is a fault.
pub clear-add :
    (l : MipFieldList) (h : Heap) (f g : Field) (fs : List Field)
    → IsList l h (f ∷ fs)
    → (clear l h >>= λ s. add s.0 g s.1) ≡ fault
unfolding add
clear-add l h f g fs v =
    let (k, e, fr, same) = clear_frees l h (f ∷ fs) v in
    rw e (go v.nodes v.tail_eq v.linked v.rising k fr same)
  where
    go :
        (ns : List ℕ)
        → l.tail ≡ last ns
        → Linked h ns (f ∷ fs)
        → Rising 0 ns h.fresh
        → (k : Heap) → Freed k ns
        → k.fresh ≡ h.fresh
        → add (record l { head = none }) g k ≡ fault
    go [] t lk r k fr same = absurd lk
    go (a ∷ ns) t lk r k fr same =
        rw t (ground (arith, Freed-last k a ns fr, Rising-last 0 a ns h.fresh r))
