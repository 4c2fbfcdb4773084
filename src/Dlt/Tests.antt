-- ===== src/Dlt/Tests.antt =====
-- A decision tree on small samples in millionths, and the witnesses of its theorems.
use guillemot_core.Prelude.{
  ℕ, zero, suc, ◌<◌, ◌≤◌, if◌then◌else◌, ◌≡◌, refl, arith, true, false, Bool-cases, inl, inr, List,
  [], ◌∷◌, take,
}
use guillemot_core.Prelude.Int.{ℤ, pos, negsuc, ◌+ℤ◌, ◌-ℤ◌, ◌*ℤ◌, ltb_ℤ, ◌==ℤ◌}
use guillemot_core.Prelude.Millionths.{quot, millionths}
use guillemot_core.Prelude.Run.{done, hang}
use guillemot_core.Dlt.{
  Sample, Dlt, null, node, classify, Token, leaf_word, branch_word, number, save, read_is_leaf,
  read_int, read_leaf, read, IsComplete, leaf, branch,
}
use guillemot_core.Dlt.Counts.{count_type, count_types, most_counted, leaf_type, occurrences}
use guillemot_core.Dlt.RoundTrip.{stream}
use guillemot_core.Dlt.Training.{
  split_on, tally, biggest_value, entropy_sum, calc_entropy, split_entropy, no_split, infinite,
  try_values, try_third, lowest_of, try_attribute, try_attributes, get_best_split, epsilon,
  build_leaf, train,
}
use guillemot_core.Dlt.Majority.{hits, train_fits}
use guillemot_core.Dlt.Shape.{IsShallow, train_bounded, train_reloads}
use guillemot_core.Dlt.Splits.{few_values_win}
use guillemot_core.Dlt.Truncated.{read_truncated}

-- A line near the logarithm, right at 1.
abbrev line : ℤ → ℤ
line x = x -ℤ pos 1_000_000

abbrev flat : ℕ → ℕ → Sample
flat value type = record { i_attr = λ i. pos value; type = type }

-- The second type lies above 5.
abbrev apart : List Sample
apart = flat 3 0 ∷ flat 4 0 ∷ flat 8 1 ∷ flat 9 1 ∷ []

abbrev apart_tree : Dlt
apart_tree =
    node (pos 0) (pos 4) (node (negsuc 0) (pos 0) null null) (node (negsuc 0) (pos 1) null null)

train-apart : train millionths line 1 apart 3 ≡ apart_tree
unfolding train get_best_split try_attributes try_attribute try_third try_values lowest_of
    split_entropy calc_entropy entropy_sum tally biggest_value split_on build_leaf leaf_type
    most_counted count_types count_type no_split infinite epsilon quot ◌+ℤ◌ ◌-ℤ◌ ◌*ℤ◌
train-apart = refl

classify_apart : classify apart_tree (flat 7 0) ≡ done (pos 1)
unfolding classify
classify_apart = refl

abbrev apart_tokens : List Token
apart_tokens =
    branch_word
    ∷ number (pos 0)
    ∷ number (pos 4)
    ∷ leaf_word
    ∷ number (pos 0)
    ∷ leaf_word
    ∷ number (pos 1)
    ∷ []

save_apart : save apart_tree ≡ done apart_tokens
unfolding save
save_apart = refl

-- The last number is missing: the leaf keeps what its memory held.
read_without_last :
    read (pos 99) 5 (stream (take 6 apart_tokens))
    ≡ done (
      node (pos 0) (pos 4) (node (negsuc 0) (pos 0) null null) (node (negsuc 0) (pos 99) null null),
      record { tokens = []; failed = true },
    )
unfolding read read_leaf read_is_leaf read_int
read_without_last = refl

apart-IsComplete : IsComplete apart_tree
apart-IsComplete = branch refl (leaf (pos 0)) (leaf (pos 1))

read_truncated_example : read (pos 99) 7 (stream (take 5 apart_tokens)) ≡ hang
read_truncated_example =
    read_truncated (pos 99) apart_tokens 7 5 apart-IsComplete save_apart (omega arith) (omega arith)

train_fits_example : occurrences 1 apart ≤ hits (train millionths line 1 apart 3) apart
train_fits_example = train_fits millionths line 1 apart 3 1

train_bounded_example :
    IsShallow 1 3 (train millionths line 1 apart 3)
    × ((s : Sample) → (v : ℕ) × (classify (train millionths line 1 apart 3) s ≡ done (pos v)))
train_bounded_example = train_bounded millionths line 1 (omega arith) apart 3

train_reloads_example :
    (tokens : List Token) × (save (train millionths line 1 apart 3) ≡ done tokens)
    × (read (pos 99) 4 (stream tokens) ≡ done (train millionths line 1 apart 3, stream []))
train_reloads_example = train_reloads millionths line 1 (omega arith) (pos 99) apart 3

-- Two samples that are alike, whose second attribute is 1.
abbrev pair : ℤ → ℤ
pair i = if i ==ℤ pos 0 then pos 4 else pos 1

abbrev alike : List Sample
alike = record { i_attr = pair; type = 0 } ∷ record { i_attr = pair; type = 1 } ∷ []

alike_not_below : (i v : ℕ) → ltb_ℤ (split_entropy millionths line alike i v) (pos 0) ≡ false
unfolding split_entropy entropy_sum tally count_type quot ◌+ℤ◌ ◌-ℤ◌ ◌*ℤ◌
alike_not_below i v = elim (Bool-cases (ltb_ℤ (pos v) (pair (pos i)))) [
  | inl h ↦ rw h refl
  | inr h ↦ rw h refl
]

alike_before :
    (j : ℕ) → j < 1 → ltb_ℤ (pos 0) (try_attribute millionths line alike j).entropy ≡ true
unfolding try_attribute try_third try_values lowest_of split_entropy entropy_sum tally count_type
    biggest_value no_split infinite quot ◌+ℤ◌ ◌-ℤ◌ ◌*ℤ◌
alike_before zero h = refl
alike_before (suc j) h = absurd (omega arith)

few_values_win_example : get_best_split millionths line alike 2 ≡ no_split millionths line
unfolding infinite biggest_value ◌*ℤ◌
few_values_win_example =
    few_values_win millionths line alike alike_not_below refl refl 2 1 (omega arith) (omega arith)
      alike_before
