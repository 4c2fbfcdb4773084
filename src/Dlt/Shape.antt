-- ===== src/Dlt/Shape.antt =====
-- The shape of the trees that DLT/DLT.cpp trains, and how they are saved and read.
use guillemot_core.Prelude.{
  ℕ, zero, suc, ◌≤◌, ◌<◌, ◌≡◌, refl, sym, ap, ◌∙◌, arith, Bool, true, false, Bool-cases, inl, inr,
  if◌then◌else◌, List, [],
}
use guillemot_core.Prelude.Int.{ℤ, pos, negsuc, leb_ℤ}
use guillemot_core.Prelude.Float.{Floats}
use guillemot_core.Prelude.Node.{elim-P_both}
use guillemot_core.Prelude.Run.{done}
use mathlib.Core.List.{append-nil}
use guillemot_core.Dlt.{
  Sample, Dlt, null, node, classify, Token, save, read, IsComplete, leaf, branch, height,
}
use guillemot_core.Dlt.Counts.{leaf_type}
use guillemot_core.Dlt.RoundTrip.{stream, read-save}
use guillemot_core.Dlt.Training.{
  split_on, build_leaf, no_split, get_best_split, calc_entropy, epsilon, train,
}
use guillemot_core.Dlt.Splits.{get_best_split-P}

-- A tree of a depth whose branches ask attributes below `attr`.
pub data IsShallow (attr : ℕ) : ℕ → Dlt → Type 0 where
  end : (d v : ℕ) → IsShallow attr d (node (negsuc 0) (pos v) null null)
  fork :
      {d : ℕ} (i v : ℕ) {low high : Dlt}
      → i < attr
      → IsShallow attr d low
      → IsShallow attr d high
      → IsShallow attr (suc d) (node (pos i) (pos v) low high)

IsShallow-IsComplete : {attr d : ℕ} {t : Dlt} → IsShallow attr d t → IsComplete t
IsShallow-IsComplete (end d v) = leaf (pos v)
IsShallow-IsComplete (fork i v lt l h) =
    branch (ground arith) (IsShallow-IsComplete l) (IsShallow-IsComplete h)

height-le : {attr d : ℕ} {t : Dlt} → IsShallow attr d t → height t ≤ suc d
height-le (end d v) = omega arith
height-le (fork i v lt l h) = omega (arith, height-le l, height-le h)

pub classify_branch :
    (n : ℕ) (value : ℤ) (low high : Dlt) (s : Sample)
    → classify (node (pos n) value low high) s
      ≡ (if leb_ℤ (s.i_attr (pos n)) value then classify low s else classify high s)
unfolding classify
classify_branch n value low high s = ground arith

-- A tree of this shape answers every sample with a type, and follows no pointer that is NULL.
classify_answers :
    {attr d : ℕ} {t : Dlt}
    → IsShallow attr d t
    → (s : Sample) → (v : ℕ) × (classify t s ≡ done (pos v))
unfolding classify
classify_answers (end d v) s = (v, refl)
classify_answers (fork i v {low} {high} lt cl ch) s =
    rw (classify_branch i (pos v) low high s)
      (elim (Bool-cases (leb_ℤ (s.i_attr (pos i)) (pos v))) [
        | inl h ↦ rw h (classify_answers cl s)
        | inr h ↦ rw h (classify_answers ch s)
      ])

module _ {F : Type 0} (f : Floats F) (log : F → F) (attr : ℕ) (some_attr : 0 < attr) where
  id_below : (samples : List Sample) → (get_best_split f log samples attr).id < attr
  unfolding no_split
  id_below samples = get_best_split-P f log samples (λ s. s.id < attr) attr some_attr (λ i v h. h)

  train-IsShallow :
      (samples : List Sample) (depth : ℕ) → IsShallow attr depth (train f log attr samples depth)
  unfolding train build_leaf
  train-IsShallow samples zero = end zero (leaf_type samples)
  train-IsShallow samples (suc depth) =
      let s = get_best_split f log samples attr in
      let side : Bool → List Sample = split_on samples (pos s.id) (pos s.value) in
      elim-P_both (IsShallow attr (suc depth)) (f.lt (calc_entropy f log samples) (epsilon f log)) _
        _ (λ _. end (suc depth) (leaf_type samples))
        (λ _.
          fork s.id s.value (id_below samples) (train-IsShallow (side false) depth)
            (train-IsShallow (side true) depth))

  -- A trained tree is no deeper than it is allowed to be, each of its branches asks for one of the
  -- `attr` attributes, and it answers every sample with a type, without following NULL.
  pub train_bounded :
      (samples : List Sample) (depth : ℕ)
      → IsShallow attr depth (train f log attr samples depth)
        × ((s : Sample) → (v : ℕ) × (classify (train f log attr samples depth) s ≡ done (pos v)))
  train_bounded samples depth =
      (train-IsShallow samples depth, classify_answers (train-IsShallow samples depth))

  -- A trained tree can be saved, and what is written is read back as the same tree, to the end.
  pub train_reloads :
      (unset : ℤ) (samples : List Sample) (depth : ℕ)
      → (tokens : List Token) × (save (train f log attr samples depth) ≡ done tokens)
        × (read unset (suc depth) (stream tokens)
            ≡ done (train f log attr samples depth, stream []))
  train_reloads unset samples depth =
      let shallow = train-IsShallow samples depth in
      let r = read-save unset (IsShallow-IsComplete shallow) in
      (
        r.tokens,
        r.saved,
        ap (λ ts. read unset (suc depth) (stream ts)) (sym (append-nil r.tokens))
            ∙ r.reads (suc depth) [] (height-le shallow),
      )
