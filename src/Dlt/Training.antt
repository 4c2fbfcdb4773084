-- ===== src/Dlt/Training.antt =====
-- Training in DLT/DLT.cpp: the entropies, the split that is chosen, the samples that go to each side,
-- and the constructor that builds the tree. The futures only run the tests at once: they read what
-- no one writes, and their answers are taken in order.
use guillemot_core.Prelude.{
  ℕ, zero, suc, ◌+◌, ◌-◌, ◌*◌, ◌/◌, Bool, true, false, not, List, [], ◌∷◌, length, if◌then◌else◌,
}
use guillemot_core.Prelude.Int.{ℤ, pos, negsuc, pos_part, ltb_ℤ, leb_ℤ}
use guillemot_core.Prelude.Float.{Floats}
use guillemot_core.Dlt.{Sample, Dlt, null, node}
use guillemot_core.Dlt.Counts.{count_type, count_types, leaf_type}

-- `(i_attr[id] <= value) ^ greater`
abbrev pub goes : Sample → ℤ → ℤ → Bool → Bool
goes s id value greater =
    if greater then not (leb_ℤ (s.i_attr id) value) else leb_ℤ (s.i_attr id) value

unfoldable pub split_on : List Sample → ℤ → ℤ → Bool → List Sample
split_on [] id value greater = []
split_on (s ∷ samples) id value greater =
    let rest = split_on samples id value greater in
    if goes s id value greater then s ∷ rest else rest

-- The counts of the types on both sides of a split, and the sizes of the sides.
pub record Tally : Type 0 where
  pub low_count : List ℕ
  pub high_count : List ℕ
  pub low_size : ℕ
  pub high_size : ℕ

unfoldable pub tally : List Sample → ℤ → ℤ → Tally → Tally
tally [] split_id split_val t = t
tally (s ∷ samples) split_id split_val t = tally samples split_id split_val (
    if ltb_ℤ split_val (s.i_attr split_id)
    then record t { high_count = count_type s.type t.high_count; high_size = suc t.high_size }
    else record t { low_count = count_type s.type t.low_count; low_size = suc t.low_size })

-- The greatest value of an attribute, at least 0.
unfoldable pub biggest_value : List Sample → ℤ → ℕ → ℕ
biggest_value [] id biggest = biggest
biggest_value (s ∷ samples) id biggest =
    biggest_value samples id
      (if ltb_ℤ (pos biggest) (s.i_attr id) then pos_part (s.i_attr id) else biggest)

unfoldable pub build_leaf : List Sample → Dlt
build_leaf samples = node (negsuc 0) (pos (leaf_type samples)) null null

-- tuple<float, int, int>
pub record Split (F : Type 0) : Type 0 where
  pub entropy : F
  pub id : ℕ
  pub value : ℕ

module _ {F : Type 0} (f : Floats F) (log : F → F) where
  open f use {lit, of_int, to_float, add, sub, mul, div, lt}

  unfoldable pub entropy_sum : List ℕ → ℕ → F → F
  entropy_sum [] count entropy = entropy
  entropy_sum (c ∷ counts) count entropy =
      let prob = div (of_int (pos c)) (of_int (pos count)) in
      entropy_sum counts count (
        if lt (of_int (pos 0)) prob
        then sub entropy (div (mul prob (log prob)) (log (of_int (pos 2))))
        else entropy)

  -- CalcEntropy(data, count)
  unfoldable pub calc_entropy : List Sample → F
  calc_entropy samples = entropy_sum (count_types samples []) (length samples) (of_int (pos 0))

  -- CalcEntropy(data, count, splitId, splitVal)
  unfoldable pub split_entropy : List Sample → ℕ → ℕ → F
  split_entropy samples split_id split_val =
      let count = of_int (pos (length samples)) in
      let t =
        tally samples (pos split_id) (pos split_val)
          (record { low_count = []; high_count = []; low_size = 0; high_size = 0 }) in
      let high_entropy = entropy_sum t.high_count (length samples) (of_int (pos 0)) in
      let low_entropy = entropy_sum t.low_count (length samples) (of_int (pos 0)) in
      add (div (mul high_entropy (of_int (pos t.high_size))) count)
        (div (mul low_entropy (of_int (pos t.low_size))) count)

  -- A tuple that nothing was assigned to.
  unfoldable pub no_split : Split F
  no_split = record { entropy = of_int (pos 0); id = 0; value = 0 }

  unfoldable pub infinite : F
  infinite = of_int (pos 1_000_000)

  -- The values from `value` on, `left` of them.
  unfoldable pub try_values : List Sample → ℕ → ℕ → ℕ → F → Split F → Split F
  try_values samples i zero value lowest ret = ret
  try_values samples i (suc left) value lowest ret =
      let entropy = split_entropy samples i value in
      let better = lt entropy lowest in
      try_values samples i left (suc value) (if better then entropy else lowest)
        (if better then record { entropy = to_float entropy; id = i; value = value } else ret)

  -- The j-th third of the values below the greatest. (3 * biggestValue fits in an int.)
  unfoldable pub try_third : List Sample → ℕ → ℕ → ℕ → Split F
  try_third samples i biggest j =
      let first = j * biggest / 3 in
      try_values samples i ((j + 1) * biggest / 3 - first) first infinite no_split

  -- The loops over the answers of the futures: the first of the lowest.
  unfoldable pub lowest_of : List (Split F) → F → Split F → Split F
  lowest_of [] ent ret = ret
  lowest_of (s ∷ splits) ent ret =
      let better = lt s.entropy ent in
      lowest_of splits (if better then s.entropy else ent) (if better then s else ret)

  unfoldable pub try_attribute : List Sample → ℕ → Split F
  try_attribute samples i =
      let third = try_third samples i (biggest_value samples (pos i) 0) in
      lowest_of (third 0 ∷ third 1 ∷ third 2 ∷ []) infinite no_split

  -- The futures of the attributes from `i` on, `left` of them.
  unfoldable pub try_attributes : List Sample → ℕ → ℕ → List (Split F)
  try_attributes samples zero i = []
  try_attributes samples (suc left) i =
      try_attribute samples i ∷ try_attributes samples left (suc i)

  unfoldable pub get_best_split : List Sample → ℕ → Split F
  get_best_split samples attr = lowest_of (try_attributes samples attr 0) infinite no_split

  -- .0001
  unfoldable pub epsilon : F
  epsilon = lit (pos 1) 4

  -- The constructor that trains; a depth below 0 is as good as 0.
  unfoldable pub train : ℕ → List Sample → ℕ → Dlt
  train attr samples zero = build_leaf samples
  train attr samples (suc depth) = elim (lt (calc_entropy samples) epsilon) [
    | true ↦ build_leaf samples
    | false ↦
        let s = get_best_split samples attr in
        let side : Bool → Dlt =
          λ greater. train attr (split_on samples (pos s.id) (pos s.value) greater) depth in
        node (pos s.id) (pos s.value) (side false) (side true)
  ]
