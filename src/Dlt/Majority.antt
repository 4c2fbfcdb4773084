-- ===== src/Dlt/Majority.antt =====
-- How well a tree that DLT/DLT.cpp trains classifies the samples that it was trained on.
use guillemot_core.Prelude.{
  ℕ, zero, suc, ◌+◌, ◌≤◌, ◌≡◌, refl, arith, Bool, true, false, List, [], ◌∷◌, Bool-cases, inl, inr,
}
use guillemot_core.Prelude.Int.{ℤ, pos, negsuc, leb_ℤ, ◌==ℤ◌}
use guillemot_core.Prelude.Float.{Floats}
use guillemot_core.Prelude.Run.{Run, done, fault, hang}
use guillemot_core.Prelude.Node.{elim-P_both}
use guillemot_core.Dlt.{Sample, Dlt, null, node, classify}
use guillemot_core.Dlt.Shape.{classify_branch}
use guillemot_core.Dlt.Counts.{leaf_type, one_if, occurrences, occurrences-leaf_type}
use guillemot_core.Dlt.Training.{split_on, get_best_split, build_leaf, calc_entropy, epsilon, train}

-- Whether an answer is a type.
abbrev pub says : Run ℤ → ℕ → Bool
says (done v) type = v ==ℤ pos type
says fault type = false
says hang type = false

-- How many of the samples a tree gives their type.
abbrev pub hits : Dlt → List Sample → ℕ
hits t [] = 0
hits t (s ∷ samples) = one_if (says (classify t s) s.type) + hits t samples

hits_leaf :
    (v : ℕ) (low high : Dlt) (samples : List Sample)
    → hits (node (negsuc 0) (pos v) low high) samples ≡ occurrences v samples
unfolding classify
hits_leaf v low high [] = refl
hits_leaf v low high (s ∷ samples) = ground (arith, hits_leaf v low high samples)

occurrences-split_on :
    (v : ℕ) (id value : ℤ) (samples : List Sample)
    → occurrences v samples
      ≡ occurrences v (split_on samples id value false)
        + occurrences v (split_on samples id value true)
unfolding split_on
occurrences-split_on v id value [] = refl
occurrences-split_on v id value (s ∷ samples) = elim (Bool-cases (leb_ℤ (s.i_attr id) value)) [
  | inl h ↦ rw h (omega (arith, occurrences-split_on v id value samples))
  | inr h ↦ rw h (omega (arith, occurrences-split_on v id value samples))
]

hits-split_on :
    (n : ℕ) (value : ℤ) (low high : Dlt) (samples : List Sample)
    → hits (node (pos n) value low high) samples
      ≡ hits low (split_on samples (pos n) value false)
        + hits high (split_on samples (pos n) value true)
unfolding split_on
hits-split_on n value low high [] = refl
hits-split_on n value low high (s ∷ samples) =
    let ih = hits-split_on n value low high samples in
    rw (classify_branch n value low high s) (elim (Bool-cases (leb_ℤ (s.i_attr (pos n)) value)) [
      | inl h ↦ rw h (omega (arith, ih))
      | inr h ↦ rw h (omega (arith, ih))
    ])

fits_leaf :
    (samples : List Sample) (v : ℕ) → occurrences v samples ≤ hits (build_leaf samples) samples
unfolding build_leaf
fits_leaf samples v =
    omega (arith, hits_leaf (leaf_type samples) null null samples, occurrences-leaf_type samples v)

module _ {F : Type 0} (f : Floats F) (log : F → F) where
  -- Whatever the floats and the logarithm are, a tree gives at least as many of the samples that it
  -- was trained on their type as any one type would.
  pub train_fits :
      (attr : ℕ) (samples : List Sample) (depth v : ℕ)
      → occurrences v samples ≤ hits (train f log attr samples depth) samples
  unfolding train
  train_fits attr samples zero v = fits_leaf samples v
  train_fits attr samples (suc depth) v =
      let s = get_best_split f log samples attr in
      let side : Bool → List Sample = split_on samples (pos s.id) (pos s.value) in
      elim-P_both (λ t. occurrences v samples ≤ hits t samples)
        (f.lt (calc_entropy f log samples) (epsilon f log)) _ _ (λ _. fits_leaf samples v)
        (λ _. omega (
          arith,
          hits-split_on s.id (pos s.value) (train f log attr (side false) depth)
              (train f log attr (side true) depth) samples,
          occurrences-split_on v (pos s.id) (pos s.value) samples,
          train_fits attr (side false) depth v,
          train_fits attr (side true) depth v,
        ))
