-- ===== src/Dlt/RoundTrip.antt =====
-- A tree that `Save` writes and the reading constructor of DLT.cpp reads.
use guillemot_core.Prelude.{ℕ, zero, suc, ◌≤◌, ◌≡◌, refl, arith, false, List, [], ◌∷◌, ◌++◌}
use guillemot_core.Prelude.Int.{ℤ, negsuc, ◌==ℤ◌}
use mathlib.Core.List.{append_assoc}
use guillemot_core.Prelude.Run.{done}
use guillemot_core.Dlt.{
  Dlt, null, node, Token, leaf_word, branch_word, number, save, Stream, read_is_leaf, read_int,
  read_leaf, read, IsComplete, leaf, branch, height,
}

abbrev pub stream : List Token → Stream
stream ts = record { tokens = ts; failed = false }

module _ (unset : ℤ) where
  -- What a tree is written as, and what is read where that comes first.
  pub record ReadsBack (t : Dlt) : Type 0 where
    pub tokens : List Token
    pub saved : save t ≡ done tokens
    pub reads :
        (n : ℕ) (rest : List Token)
        → height t ≤ n
        → read unset n (stream (tokens ++ rest)) ≡ done (t, stream rest)

  pub reads_leaf :
      (v : ℤ) (n : ℕ) (rest : List Token)
      → 1 ≤ n
      → read unset n (stream (leaf_word ∷ number v ∷ rest))
        ≡ done (node (negsuc 0) v null null, stream rest)
  unfolding read read_is_leaf read_int read_leaf
  reads_leaf v zero rest h = absurd (omega arith)
  reads_leaf v (suc n) rest h = refl

  pub reads_branch :
      (i v : ℤ) {low high : Dlt} (l : ReadsBack low) (r : ReadsBack high) (n : ℕ)
      (rest : List Token)
      → height (node i v low high) ≤ n
      → read unset n (stream (branch_word ∷ number i ∷ number v ∷ l.tokens ++ r.tokens ++ rest))
        ≡ done (node i v low high, stream rest)
  unfolding read read_is_leaf read_int
  reads_branch i v l r zero rest h = absurd (omega arith)
  reads_branch i v {low} {high} l r (suc n) rest h = rw (
    append_assoc l.tokens r.tokens rest,
    l.reads n (r.tokens ++ rest) (omega arith),
    r.reads n rest (omega arith),
  )

  pub saves_branch :
      (i v : ℤ) {low high : Dlt} (l : ReadsBack low) (r : ReadsBack high)
      → (i ==ℤ negsuc 0) ≡ false
      → save (node i v low high) ≡ done (branch_word ∷ number i ∷ number v ∷ l.tokens ++ r.tokens)
  unfolding save
  saves_branch i v l r ne = rw (ne, l.saved, r.saved)

  pub leaf_saved : (v : ℤ) → save (node (negsuc 0) v null null) ≡ done (leaf_word ∷ number v ∷ [])
  unfolding save
  leaf_saved v = refl

  abbrev pub leaf_back : (v : ℤ) → ReadsBack (node (negsuc 0) v null null)
  leaf_back v = record {
    tokens = leaf_word ∷ number v ∷ [];
    saved = leaf_saved v;
    reads = reads_leaf v;
  }

  abbrev pub branch_back :
      (i v : ℤ) {low high : Dlt}
      → (i ==ℤ negsuc 0) ≡ false
      → ReadsBack low
      → ReadsBack high
      → ReadsBack (node i v low high)
  branch_back i v ne l r = record {
    tokens = branch_word ∷ number i ∷ number v ∷ l.tokens ++ r.tokens;
    saved = saves_branch i v l r ne;
    reads = reads_branch i v l r;
  }

  pub read-save : {t : Dlt} → IsComplete t → ReadsBack t
  read-save (leaf v) = leaf_back v
  read-save (branch {i} {v} ne low high) = branch_back i v ne (read-save low) (read-save high)
