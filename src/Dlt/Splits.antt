-- ===== src/Dlt/Splits.antt =====
-- The split that getBestSplit of DLT/DLT.cpp chooses, and what holds of all that it may choose.
use guillemot_core.Prelude.{
  ℕ, zero, suc, ◌+◌, ◌-◌, ◌*◌, ◌/◌, ◌≤◌, ◌<◌, ◌≡◌, refl, ap, ◌∙◌, arith, dec_lt, true, false, List,
  [], ◌∷◌,
}
use guillemot_core.Prelude.Int.{pos}
use guillemot_core.Prelude.Float.{Floats}
use guillemot_core.Prelude.Node.{All, if-P_both}
use guillemot_core.Dlt.{Sample}
use guillemot_core.Dlt.Training.{
  Split, no_split, infinite, split_entropy, try_values, try_third, lowest_of, biggest_value,
  try_attribute, try_attributes, get_best_split,
}

module _ {F : Type 0} (f : Floats F) (log : F → F) (samples : List Sample) where
  module _ (P : Split F → Type 0) where
    lowest_of-P :
        (xs : List (Split F)) (ent : F) (ret : Split F)
        → All P xs
        → P ret
        → P (lowest_of f log xs ent ret)
    unfolding lowest_of
    lowest_of-P [] ent ret hs h = h
    lowest_of-P (s ∷ xs) ent ret (hs, rest) h =
        lowest_of-P xs _ _ rest (if-P_both P (f.lt s.entropy ent) s ret (λ _. hs) (λ _. h))

    -- What holds of no split and of each that is tried holds of an attribute's answer.
    module _ (none_lem : P (no_split f log)) (i : ℕ)
        (each : (v : ℕ)
          → P (record {
            entropy = f.to_float (split_entropy f log samples i v);
            id = i;
            value = v;
          })) where
      try_values-P :
          (left value : ℕ) (lowest : F) (ret : Split F)
          → P ret
          → P (try_values f log samples i left value lowest ret)
      unfolding try_values
      try_values-P zero value lowest ret h = h
      try_values-P (suc left) value lowest ret h = try_values-P left (suc value) _ _ (
          if-P_both P (f.lt (split_entropy f log samples i value) lowest) _ ret (λ _. each value)
            (λ _. h))

      try_third-P : (b j : ℕ) → P (try_third f log samples i b j)
      unfolding try_third
      try_third-P b j = try_values-P _ _ _ _ none_lem

      try_attribute-P : P (try_attribute f log samples i)
      unfolding try_attribute
      try_attribute-P =
          let b = biggest_value samples (pos i) 0 in
          lowest_of-P _ _ _ (try_third-P b 0, (try_third-P b 1, (try_third-P b 2, tt))) none_lem

    module _ (attr : ℕ) (none_lem : P (no_split f log))
        (each : (i v : ℕ)
          → i < attr
          → P (record {
            entropy = f.to_float (split_entropy f log samples i v);
            id = i;
            value = v;
          })) where
      try_attributes-P : (n i : ℕ) → i + n ≤ attr → All P (try_attributes f log samples n i)
      unfolding try_attributes
      try_attributes-P zero i h = tt
      try_attributes-P (suc n) i h = (
        try_attribute-P none_lem i (λ v. each i v (omega arith)),
        try_attributes-P n (suc i) (omega arith),
      )

      pub get_best_split-P : P (get_best_split f log samples attr)
      unfolding get_best_split
      get_best_split-P = lowest_of-P _ _ _ (try_attributes-P attr 0 (omega arith)) none_lem

  abbrev nil : F
  nil = f.of_int (pos 0)

  abbrev NotBelow : Split F → Type 0
  NotBelow s = f.lt s.entropy nil ≡ false

  lowest_of_keeps :
      (xs : List (Split F)) (ret : Split F) → All NotBelow xs → lowest_of f log xs nil ret ≡ ret
  unfolding lowest_of
  lowest_of_keeps [] ret h = refl
  lowest_of_keeps (s ∷ xs) ret (hs, rest) = rw hs (lowest_of_keeps xs ret rest)

  module _ (not_below : (i v : ℕ) → f.lt (f.to_float (split_entropy f log samples i v)) nil ≡ false)
      (nil_itself : f.lt nil nil ≡ false) (nil_low : f.lt nil (infinite f log) ≡ true) where
    third-NotBelow : (i b j : ℕ) → NotBelow (try_third f log samples i b j)
    unfolding no_split
    third-NotBelow i b j = try_third-P NotBelow nil_itself i (not_below i) b j

    attribute-NotBelow : (i : ℕ) → NotBelow (try_attribute f log samples i)
    unfolding no_split
    attribute-NotBelow i = try_attribute-P NotBelow nil_itself i (not_below i)

    attributes-NotBelow : (n i : ℕ) → All NotBelow (try_attributes f log samples n i)
    unfolding try_attributes
    attributes-NotBelow zero i = tt
    attributes-NotBelow (suc n) i = (attribute-NotBelow i, attributes-NotBelow n (suc i))

    lowest_of_none :
        (ent : F) (ret : Split F) (xs : List (Split F))
        → f.lt nil ent ≡ true
        → All NotBelow xs
        → lowest_of f log (no_split f log ∷ xs) ent ret ≡ no_split f log
    unfolding lowest_of no_split
    lowest_of_none ent ret xs low h = rw low (lowest_of_keeps xs (no_split f log) h)

    first_third : (i b : ℕ) → b < 3 → try_third f log samples i b 0 ≡ no_split f log
    unfolding try_third try_values
    first_third i b few =
        let none_left : (0 + 1) * b / 3 - 0 * b / 3 ≡ 0 = omega arith in
        ap (λ left. try_values f log samples i left (0 * b / 3) (infinite f log) (no_split f log))
          none_left

    -- An attribute that has no value to try in its first third.
    few_values :
        (i : ℕ)
        → biggest_value samples (pos i) 0 < 3
        → try_attribute f log samples i ≡ no_split f log
    unfolding try_attribute
    few_values i few =
        let b = biggest_value samples (pos i) 0 in
        ap
          (λ s.
            lowest_of f log (s ∷ try_third f log samples i b 1 ∷ try_third f log samples i b 2 ∷ [])
              (infinite f log) (no_split f log))
          (first_third i b few)
        ∙ lowest_of_none (infinite f log) (no_split f log) _ nil_low
            (third-NotBelow i b 1, (third-NotBelow i b 2, tt))

    lowest_of_later :
        (i : ℕ) (xs : List (Split F)) (ent : F) (ret : Split F)
        → f.lt nil ent ≡ true
        → f.lt nil (try_attribute f log samples i).entropy ≡ true
        → ((ent : F) (ret : Split F)
            → f.lt nil ent ≡ true
            → lowest_of f log xs ent ret ≡ no_split f log)
        → lowest_of f log (try_attribute f log samples i ∷ xs) ent ret ≡ no_split f log
    unfolding lowest_of
    lowest_of_later i xs ent ret low high rest =
        let s = try_attribute f log samples i in
        rest _ _ (
          if-P_both (λ e. f.lt nil e ≡ true) (f.lt s.entropy ent) s.entropy ent (λ _. high)
            (λ _. low))

    takes_no_split :
        (n i k : ℕ) (ent : F) (ret : Split F)
        → i ≤ k
        → k < i + n
        → ((j : ℕ) → j < k → f.lt nil (try_attribute f log samples j).entropy ≡ true)
        → try_attribute f log samples k ≡ no_split f log
        → f.lt nil ent ≡ true
        → lowest_of f log (try_attributes f log samples n i) ent ret ≡ no_split f log
    unfolding try_attributes
    takes_no_split zero i k ent ret le lt before here low = absurd (omega arith)
    takes_no_split (suc n) i k ent ret le lt before here low = elim (dec_lt i k) [
      | yes early ↦
          lowest_of_later i (try_attributes f log samples n (suc i)) ent ret low (before i early)
            (λ ent ret. takes_no_split n (suc i) k ent ret early (omega arith) before here)
      | no late ↦
          ap (λ s. lowest_of f log (s ∷ try_attributes f log samples n (suc i)) ent ret)
            (ap (try_attribute f log samples) (omega arith) ∙ here)
          ∙ lowest_of_none ent ret _ low (attributes-NotBelow n (suc i))
    ]

    -- Where an attribute has no value to try in its first third, and none before it splits the samples
    -- into sides without entropy, no split is taken for a split at value 0 of attribute 0.
    pub few_values_win :
        (attr k : ℕ)
        → k < attr
        → biggest_value samples (pos k) 0 < 3
        → ((j : ℕ) → j < k → f.lt nil (try_attribute f log samples j).entropy ≡ true)
        → get_best_split f log samples attr ≡ no_split f log
    unfolding get_best_split
    few_values_win attr k lt few before =
        takes_no_split attr 0 k (infinite f log) (no_split f log) (omega arith) (omega arith) before
          (few_values k few) nil_low
