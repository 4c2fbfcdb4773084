-- ===== src/Dlt/Counts.antt =====
-- The counts of the types among the samples in DLT/DLT.cpp, and the type that a leaf takes.
use guillemot_core.Prelude.{
  ℕ, zero, suc, ◌+◌, ◌-◌, ◌≤◌, ◌<◌, ◌≡◌, refl, ap, ◌∙◌, arith, Bool, true, false, List, [], ◌∷◌,
  ◌++◌, length, get_or, set, replicate, length-append, length-replicate, if◌then◌else◌, ltb, leb,
  ◌==◌, Bool-cases, inl, inr, leb→le, tests,
}
use guillemot_core.Dlt.{Sample}

-- `counts[type]`, which counts up in a vector that grows where it is too short.
unfoldable pub count_type : ℕ → List ℕ → List ℕ
count_type type counts =
    let grown =
      if leb (length counts) type
      then counts ++ replicate (suc type - length counts) 0
      else counts in
    set grown type (suc (get_or grown type 0))

unfoldable pub count_types : List Sample → List ℕ → List ℕ
count_types [] counts = counts
count_types (s ∷ data') counts = count_types data' (count_type s.type counts)

-- From index `i` on, with `left` counts to go: the first of those that are counted most often.
unfoldable pub most_counted : ℕ → ℕ → List ℕ → ℕ → ℕ
most_counted zero i counts max_count = max_count
most_counted (suc left) i counts max_count =
    most_counted left (suc i) counts
      (if ltb (get_or counts max_count 0) (get_or counts i 0) then i else max_count)

unfoldable pub leaf_type : List Sample → ℕ
leaf_type data' = let counts = count_types data' [] in most_counted (length counts) 0 counts 0

abbrev pub one_if : Bool → ℕ
one_if true = 1
one_if false = 0

-- How many of the samples have a type.
abbrev pub occurrences : ℕ → List Sample → ℕ
occurrences v [] = 0
occurrences v (s ∷ data') = one_if (s.type == v) + occurrences v data'

get_or-append_zeros : (xs : List ℕ) (n i : ℕ) → get_or (xs ++ replicate n 0) i 0 ≡ get_or xs i 0
get_or-append_zeros [] zero i = refl
get_or-append_zeros [] (suc n) zero = refl
get_or-append_zeros [] (suc n) (suc i) = get_or-append_zeros [] n i
get_or-append_zeros (x ∷ xs) n zero = refl
get_or-append_zeros (x ∷ xs) n (suc i) = get_or-append_zeros xs n i

-- Set to one more, a count is one more.
get_or-bump :
    (xs : List ℕ) (i v : ℕ)
    → i < length xs
    → get_or (set xs i (suc (get_or xs i 0))) v 0 ≡ one_if (i == v) + get_or xs v 0
get_or-bump [] i v h = absurd (omega arith)
get_or-bump (x ∷ xs) zero zero h = omega arith
get_or-bump (x ∷ xs) zero (suc v) h = ground arith
get_or-bump (x ∷ xs) (suc i) zero h = ground arith
get_or-bump (x ∷ xs) (suc i) (suc v) h = ground (arith, get_or-bump xs i v (omega arith))

long_enough : (xs : List ℕ) (i : ℕ) → leb (length xs) i ≡ false → i < length xs
long_enough xs i h = ground arith

get_or-count_type :
    (xs : List ℕ) (i v : ℕ) → get_or (count_type i xs) v 0 ≡ one_if (i == v) + get_or xs v 0
unfolding count_type
get_or-count_type xs i v = elim (Bool-cases (leb (length xs) i)) [
  | inl short ↦ rw short (
      get_or-bump (xs ++ replicate (suc i - length xs) 0) i v (
        omega (
          tests,
          short,
          length-append {A = ℕ} xs (replicate (suc i - length xs) 0),
          length-replicate {A = ℕ} (suc i - length xs) 0,
        ))
      ∙ ap (λ n. one_if (i == v) + n) (get_or-append_zeros xs (suc i - length xs) v))
  | inr long ↦ rw long (get_or-bump xs i v (long_enough xs i long))
]

get_or-count_types :
    (data' : List Sample) (xs : List ℕ) (v : ℕ)
    → get_or (count_types data' xs) v 0 ≡ occurrences v data' + get_or xs v 0
unfolding count_types
get_or-count_types [] xs v = omega arith
get_or-count_types (s ∷ data') xs v =
    omega (arith, get_or-count_types data' (count_type s.type xs) v, get_or-count_type xs s.type v)

get_or-beyond : (xs : List ℕ) (i : ℕ) → length xs ≤ i → get_or xs i 0 ≡ 0
get_or-beyond [] i h = refl
get_or-beyond (x ∷ xs) zero h = absurd (omega arith)
get_or-beyond (x ∷ xs) (suc i) h = get_or-beyond xs i (omega arith)

most_counted-le :
    (left i : ℕ) (xs : List ℕ) (m v : ℕ)
    → (v < i → get_or xs v 0 ≤ get_or xs m 0)
    → v < i + left
    → get_or xs v 0 ≤ get_or xs (most_counted left i xs m) 0
unfolding most_counted
most_counted-le zero i xs m v h lt = h (omega arith)
most_counted-le (suc left) i xs m v h lt =
    most_counted-le left (suc i) xs _ v (λ w. ground (arith, h)) (omega arith)

most_counted-le_all :
    (xs : List ℕ) (v : ℕ) → get_or xs v 0 ≤ get_or xs (most_counted (length xs) 0 xs 0) 0
most_counted-le_all xs v = elim (Bool-cases (leb (length xs) v)) [
  | inl beyond ↦ omega (tests, get_or-beyond xs v (leb→le (length xs) v beyond))
  | inr within ↦
      most_counted-le (length xs) 0 xs 0 v (λ w. absurd (omega arith))
        (omega (arith, long_enough xs v within))
]

-- No type is more frequent than the one that a leaf takes.
pub occurrences-leaf_type :
    (data' : List Sample) (v : ℕ) → occurrences v data' ≤ occurrences (leaf_type data') data'
unfolding leaf_type
occurrences-leaf_type data' v =
    let counts = count_types data' [] in
    omega (
      arith,
      most_counted-le_all counts v,
      get_or-count_types data' [] v,
      get_or-count_types data' [] (leaf_type data'),
    )
