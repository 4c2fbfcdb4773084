-- ===== src/Imu/FieldList/Contents.antt =====
-- The list of fields that a linked list stands for, and that `add` appends to it.
use guillemot_core.Prelude.{
  ℕ, ◌+◌, ◌≤◌, ◌<◌, ◌≡◌, refl, ap, sym, ◌∙◌, List, [], ◌∷◌, ◌++◌, none, some, arith, length,
  length-append,
}
use guillemot_core.Prelude.Run.{done}
use guillemot_core.Imu.Field.DataField.{Field}
use guillemot_core.Imu.FieldList.{
  Ptr, MipFieldNode, Heap, MipFieldList, init, write, new_node, link_tail, add,
}

abbrev pub first : List ℕ → Ptr
first [] = none
first (a ∷ ns) = some a

abbrev pub last_from : ℕ → List ℕ → ℕ
last_from a [] = a
last_from a (b ∷ ns) = last_from b ns

abbrev pub last : List ℕ → Ptr
last [] = none
last (a ∷ ns) = some (last_from a ns)

abbrev pub node : Field → Ptr → MipFieldNode
node f p = record { data' = some f; next = p }

-- The nodes at the addresses hold the fields, each pointing to the next one.
abbrev pub Linked : Heap → List ℕ → List Field → Type 0
Linked h [] [] = Unit
Linked h (a ∷ ns) (f ∷ fs) = (h.cell a ≡ some (node f (first ns))) × Linked h ns fs
Linked h _ _ = ⊥

-- The addresses rise, from `lo` on and below `hi`.
abbrev pub Rising : ℕ → List ℕ → ℕ → Type 0
Rising lo [] hi = Unit
Rising lo (a ∷ ns) hi = (lo ≤ a) × (a < hi) × Rising (a + 1) ns hi

-- A list object in a heap stands for a list of fields.
pub record IsList (l : MipFieldList) (h : Heap) (fs : List Field) : Type 0 where
  pub nodes : List ℕ
  pub head_eq : l.head ≡ first nodes
  pub tail_eq : l.tail ≡ last nodes
  pub count_eq : l.count ≡ length fs
  pub linked : Linked h nodes fs
  pub rising : Rising 0 nodes h.fresh

pub init-IsList : (h : Heap) → IsList init h []
unfolding init
init-IsList h = record {
  nodes = [];
  head_eq = refl;
  tail_eq = refl;
  count_eq = refl;
  linked = tt;
  rising = tt;
}

-- Cells that agree on the nodes from `lo` on carry the list over.
pub Linked-agree :
    (h k : Heap) (ns : List ℕ) (fs : List Field) (lo hi : ℕ)
    → ((c : ℕ) → lo ≤ c → c < hi → k.cell c ≡ h.cell c)
    → Rising lo ns hi
    → Linked h ns fs
    → Linked k ns fs
Linked-agree h k [] [] lo hi e r l = tt
Linked-agree h k (a ∷ ns) (f ∷ fs) lo hi e (r0, r1, r) (l0, l) =
    (e a r0 r1 ∙ l0, Linked-agree h k ns fs (a + 1) hi (λ c p q. e c (omega arith) q) r l)
Linked-agree h k [] (f ∷ fs) lo hi e r l = l
Linked-agree h k (a ∷ ns) [] lo hi e r l = l

Rising-append :
    (ns : List ℕ) (lo hi : ℕ) → lo ≤ hi → Rising lo ns hi → Rising lo (ns ++ hi ∷ []) (hi + 1)
Rising-append [] lo hi h r = (h, omega arith, tt)
Rising-append (a ∷ ns) lo hi h (r0, r1, r) =
    (r0, omega arith, Rising-append ns (a + 1) hi (omega arith) r)

last_from-append : (a b : ℕ) (ns : List ℕ) → last_from a (ns ++ b ∷ []) ≡ b
last_from-append a b [] = refl
last_from-append a b (c ∷ ns) = last_from-append c b ns

last-append : (b : ℕ) (ns : List ℕ) → last (ns ++ b ∷ []) ≡ some b
last-append b [] = refl
last-append b (a ∷ ns) = ap some (last_from-append a b ns)

-- What the heap is after the new node has been linked behind a list.
record IsLinked (h k : Heap) (lo : ℕ) (ns : List ℕ) (fs : List Field) (f : Field) : Type 0 where
  cells : Linked k (ns ++ h.fresh ∷ []) (fs ++ f ∷ [])
  fresh_eq : k.fresh ≡ h.fresh + 1
  below : (c : ℕ) → c < lo → k.cell c ≡ h.cell c

link_tail_lem :
    (h : Heap) (f : Field) (a : ℕ) (ns : List ℕ) (fs : List Field)
    → Linked h (a ∷ ns) fs
    → Rising a (a ∷ ns) h.fresh
    → (k : Heap) × (link_tail (last (a ∷ ns)) (new_node h f) h.fresh ≡ done k)
      × IsLinked h k a (a ∷ ns) fs f
link_tail_lem h f a [] (g ∷ []) (l0, l) (r0, r1, r) = (
  write (new_node h f) a (some (node g (some h.fresh))),
  ground arith,
  record {
    cells = (ground arith, (ground arith, tt));
    fresh_eq = refl;
    below = λ c p. ground arith;
  },
)
link_tail_lem h f a (b ∷ ns) (g ∷ fs) (l0, l) (r0, r1, r) =
    let (k, e, v) = link_tail_lem h f b ns fs l (omega arith, r.1, r.2) in
    (
      k,
      e,
      record {
        cells = (v.below a (omega arith) ∙ l0, v.cells);
        fresh_eq = v.fresh_eq;
        below = λ c p. v.below c (omega arith);
      },
    )
link_tail_lem h f a [] (g ∷ g' ∷ fs) (l0, l) r = absurd l
link_tail_lem h f a ns [] l r = absurd l

-- Adding a field to an object that stands for a list returns an object that stands for the list with
-- the field at its end; no memory but the list's own is touched.
pub add-IsList :
    (l : MipFieldList) (h : Heap) (fs : List Field) (f : Field)
    → IsList l h fs
    → (l' : MipFieldList) × (h' : Heap) × (add l f h ≡ done (l', h')) × IsList l' h' (fs ++ f ∷ [])
unfolding add
add-IsList l h fs f v = go v.nodes fs v.head_eq v.tail_eq v.count_eq v.linked v.rising
  where
    go :
        (ns : List ℕ) (fs : List Field)
        → l.head ≡ first ns
        → l.tail ≡ last ns
        → l.count ≡ length fs
        → Linked h ns fs
        → Rising 0 ns h.fresh
        → (l' : MipFieldList) × (h' : Heap) × (add l f h ≡ done (l', h'))
          × IsList l' h' (fs ++ f ∷ [])
    go [] [] e t c lk r = (
      record { head = some h.fresh; tail = some h.fresh; count = l.count + 1 },
      new_node h f,
      ground arith,
      record {
        nodes = h.fresh ∷ [];
        head_eq = refl;
        tail_eq = refl;
        count_eq = omega arith;
        linked = (ground arith, tt);
        rising = (omega arith, omega arith, tt);
      },
    )
    go (a ∷ ns) (g ∷ fs) e t c lk (r0, r1, r) =
        let (k, le, w) = link_tail_lem h f a ns (g ∷ fs) lk (omega arith, r1, r) in
        (
          record { head = some a; tail = some h.fresh; count = l.count + 1 },
          k,
          rw (t, e, le),
          record {
            nodes = (a ∷ ns) ++ h.fresh ∷ [];
            head_eq = refl;
            tail_eq = sym (last-append h.fresh (a ∷ ns));
            count_eq = omega (arith, length-append fs (f ∷ []));
            linked = w.cells;
            rising = rw w.fresh_eq (Rising-append (a ∷ ns) 0 h.fresh (omega arith) (r0, r1, r));
          },
        )
    go [] (g ∷ fs) e t c lk r = absurd lk
    go (a ∷ ns) [] e t c lk r = absurd lk
