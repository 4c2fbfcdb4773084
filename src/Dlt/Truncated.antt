-- ===== src/Dlt/Truncated.antt =====
-- The reading constructor of DLT.cpp on a file that breaks off.
use guillemot_core.Prelude.{
  ℕ, zero, suc, ◌+◌, ◌-◌, ◌≤◌, ◌<◌, ◌≡◌, refl, sym, ap, ◌∙◌, arith, dec_lt, true, ◌⊎◌, inl, inr,
  List, [], ◌∷◌, ◌++◌, length, take, length-append,
}
use guillemot_core.Prelude.Int.{ℤ, negsuc}
use guillemot_core.Prelude.Run.{done, fault, hang}
use guillemot_core.Dlt.{
  Dlt, null, node, Token, leaf_word, branch_word, number, save, Stream, read_is_leaf, read_int,
  read_leaf, read, IsComplete, leaf, branch, height,
}
use guillemot_core.Dlt.RoundTrip.{ReadsBack, stream, leaf_back, branch_back}

take_within : (m : ℕ) (xs ys : List Token) → m ≤ length xs → take m (xs ++ ys) ≡ take m xs
take_within zero xs ys h = refl
take_within (suc m) [] ys h = absurd (omega arith)
take_within (suc m) (x ∷ xs) ys h = ap (λ ts. x ∷ ts) (take_within m xs ys (omega arith))

take_beyond :
    (m : ℕ) (xs ys : List Token) → length xs ≤ m → take m (xs ++ ys) ≡ xs ++ take (m - length xs) ys
take_beyond m [] ys h = ap (λ n. take n ys) (omega arith)
take_beyond zero (x ∷ xs) ys h = absurd (omega arith)
take_beyond (suc m) (x ∷ xs) ys h =
    ap (λ ts. x ∷ ts) (take_beyond m xs ys (omega arith) ∙ ap (λ n. xs ++ take n ys) (omega arith))

-- A stream that has failed.
abbrev failed_stream : Stream
failed_stream = record { tokens = []; failed = true }

module _ (unset : ℤ) where
  read_failed : (n : ℕ) → read unset n failed_stream ≡ hang
  unfolding read read_is_leaf read_int
  read_failed zero = refl
  read_failed (suc n) = rw (read_failed n)

  -- Reading the first `k` words does not end, or it ends as the stream fails at the last.
  abbrev Breaks : ℕ → ℕ → List Token → Type 0
  Breaks n k tokens =
      (read unset n (stream (take k tokens)) ≡ hang)
      ⊎ ((t : Dlt) × (read unset n (stream (take k tokens)) ≡ done (t, failed_stream))
          × (suc k ≡ length tokens))

  cut_leaf : (v : ℤ) (n k : ℕ) → k < 2 → Breaks n k (leaf_word ∷ number v ∷ [])
  unfolding read read_is_leaf read_int read_leaf
  cut_leaf v zero k h = inl refl
  cut_leaf v (suc n) zero h = inl (rw (read_failed n))
  cut_leaf v (suc n) (suc zero) h = inr (node (negsuc 0) unset null null, refl, refl)
  cut_leaf v (suc n) (suc (suc k)) h = absurd (omega arith)

  module _ (i v : ℤ) {low high : Dlt} (l : ReadsBack unset low) (r : ReadsBack unset high) where
    abbrev branch_tokens : List Token
    branch_tokens = branch_word ∷ number i ∷ number v ∷ l.tokens ++ r.tokens

    -- What is left behind the branch's own words.
    cut_sides :
        (n m : ℕ)
        → height low ≤ n
        → m < length l.tokens + length r.tokens
        → (m < length l.tokens → Breaks n m l.tokens)
        → (m - length l.tokens < length r.tokens → Breaks n (m - length l.tokens) r.tokens)
        → Breaks (suc n) (suc (suc (suc m))) branch_tokens
    unfolding read read_is_leaf read_int
    cut_sides n m tall lt cl cr = elim (dec_lt m (length l.tokens)) [
      | yes within ↦
          rw (take_within m l.tokens r.tokens (omega arith)) (elim (cl within) [
            | inl h ↦ inl (rw h)
            | inr (t, h, last) ↦ inl (rw (h, read_failed n))
          ])
      | no beyond ↦
          rw
            (
              take_beyond m l.tokens r.tokens (omega arith),
              l.reads n (take (m - length l.tokens) r.tokens) tall,
            )
            (elim (cr (omega arith)) [
              | inl h ↦ inl (rw h)
              | inr (t, h, last) ↦
                  inr (node i v low t, rw h refl, omega (arith, length-append l.tokens r.tokens))
            ])
    ]

    cut_branch :
        (n k : ℕ)
        → height (node i v low high) ≤ n
        → k < 3 + length l.tokens + length r.tokens
        → ((n k : ℕ) → height low ≤ n → k < length l.tokens → Breaks n k l.tokens)
        → ((n k : ℕ) → height high ≤ n → k < length r.tokens → Breaks n k r.tokens)
        → Breaks n k branch_tokens
    unfolding read read_is_leaf read_int
    cut_branch zero k tall lt cl cr = absurd (omega arith)
    cut_branch (suc n) zero tall lt cl cr = inl (rw (read_failed n))
    cut_branch (suc n) (suc zero) tall lt cl cr = inl (rw (read_failed n))
    cut_branch (suc n) (suc (suc zero)) tall lt cl cr = inl (rw (read_failed n))
    cut_branch (suc n) (suc (suc (suc m))) tall lt cl cr =
        cut_sides n m (omega arith) (omega arith) (cl n m (omega arith))
          (cr n (m - length l.tokens) (omega arith))

  -- What a tree is written as, whole and cut.
  record Cuts (t : Dlt) : Type 0 where
    whole : ReadsBack unset t
    cut : (n k : ℕ) → height t ≤ n → k < length whole.tokens → Breaks n k whole.tokens

  cuts : {t : Dlt} → IsComplete t → Cuts t
  cuts (leaf v) = record { whole = leaf_back unset v; cut = λ n k tall lt. cut_leaf v n k lt }
  cuts (branch {i} {v} ne cl ch) =
      let l = cuts cl in
      let r = cuts ch in
      record {
        whole = branch_back unset i v ne l.whole r.whole;
        cut = λ n k tall lt.
            cut_branch i v l.whole r.whole n k tall
              (omega (arith, lt, length-append l.whole.tokens r.whole.tokens)) l.cut r.cut;
      }

  saved_once : {ts us : List Token} → done ts ≡ done us → ts ≡ us
  saved_once h = ap (λ r. elim r [ done ts ↦ ts | fault ↦ [] | hang ↦ [] ]) h

  -- Where a saved tree breaks off with two words or more to come, however deep the recursion may go
  -- from the height of the tree on, reading it does not end.
  pub read_truncated :
      {t : Dlt} (tokens : List Token) (n k : ℕ)
      → IsComplete t
      → save t ≡ done tokens
      → height t ≤ n
      → k + 2 ≤ length tokens
      → read unset n (stream (take k tokens)) ≡ hang
  read_truncated tokens n k complete saved tall short =
      let c = cuts complete in
      let same : c.whole.tokens ≡ tokens = saved_once (sym c.whole.saved ∙ saved) in
      let same_length : length c.whole.tokens ≡ length tokens = ap length same in
      ap (λ ts. read unset n (stream (take k ts))) (sym same)
      ∙ elim (c.cut n k tall (omega arith)) [ inl h ↦ h | inr (t', h, last) ↦ absurd (omega arith) ]
