-- ===== src/Dlt.antt =====
-- The decision tree of DLT/DLT.cpp, and the copy of its reader in SubImageRecognition/src/DLT.cpp:
-- classifying a sample, writing a tree to a stream and reading it back.
use guillemot_core.Prelude.{
  ℕ, zero, suc, ◌<◌, ◌≡◌, ◌≢◌, Bool, true, false, if◌then◌else◌, List, [], ◌∷◌, ◌++◌,
}
use guillemot_core.Prelude.Int.{ℤ, pos, negsuc, ltb_ℤ, ◌==ℤ◌}
use guillemot_core.Prelude.Run.{Run, done, fault, hang, ◌>>=◌}
use Prim.Native.Nat.{max}
pub mod Counts
pub mod Training
pub mod RoundTrip
pub mod Truncated
pub mod Majority
pub mod Splits
pub mod Shape
pub mod Tests

-- `i_attr` is what the array holds at an index, the memory beside it included. A type counts from 0.
pub record Sample : Type 0 where
  pub i_attr : ℤ → ℤ
  pub type : ℕ

-- A pointer to a DLT: NULL, or `splitId`, `splitVal`, `lowSide` and `highSide`.
pub data Dlt : Type 0 where
  null : Dlt
  node : ℤ → ℤ → Dlt → Dlt → Dlt

-- A fault where the code follows NULL.
unfoldable pub classify : Dlt → Sample → Run ℤ
classify null s = fault
classify (node split_id split_val low high) s =
    if ltb_ℤ split_id (pos 0)
    then done split_val
    else if ltb_ℤ split_val (s.i_attr split_id)
    then classify high s
    else classify low s

-- The words of a stream, white space apart.
pub data Token : Type 0 where
  leaf_word branch_word other_word : Token
  number : ℤ → Token

-- A fault where the code follows NULL.
unfoldable pub save : Dlt → Run (List Token)
save null = fault
save (node split_id split_val low high) =
    if split_id ==ℤ negsuc 0 then done (leaf_word ∷ number split_val ∷ []) else do
      first ← save low
      second ← save high
      done (branch_word ∷ number split_id ∷ number split_val ∷ first ++ second)

-- What is left of a stream, and its failbit, with which it gives nothing more.
pub record Stream : Type 0 where
  pub tokens : List Token
  pub failed : Bool

-- `fin >> type`, and whether it is "Leaf".
abbrev next_is_leaf : List Token → Bool × Stream
next_is_leaf [] = (false, record { tokens = []; failed = true })
next_is_leaf (leaf_word ∷ ts) = (true, record { tokens = ts; failed = false })
next_is_leaf (t ∷ ts) = (false, record { tokens = ts; failed = false })

unfoldable pub read_is_leaf : Stream → Bool × Stream
read_is_leaf s = if s.failed then (false, s) else next_is_leaf s.tokens

-- `fin >> n`: a word that is no number gives 0, and no word at all leaves `n` as it was.
abbrev next_int : ℤ → List Token → ℤ × Stream
next_int old [] = (old, record { tokens = []; failed = true })
next_int old (number n ∷ ts) = (n, record { tokens = ts; failed = false })
next_int old (t ∷ ts) = (pos 0, record { tokens = t ∷ ts; failed = true })

unfoldable pub read_int : ℤ → Stream → ℤ × Stream
read_int old s = if s.failed then (old, s) else next_int old s.tokens

module _ (unset : ℤ) where
  -- A leaf has no sides that are ever followed.
  unfoldable pub read_leaf : Stream → Run (Dlt × Stream)
  read_leaf s = let v = read_int unset s in done (node (negsuc 0) v.0 null null, v.1)

  -- The constructor that reads; `unset` is what a member holds before it is assigned, and the first
  -- argument the depth of the recursion that is left.
  unfoldable pub read : ℕ → Stream → Run (Dlt × Stream)
  read zero s = hang
  read (suc n) s =
      let w = read_is_leaf s in
      elim w.0 [
        | true ↦ read_leaf w.1
        | false ↦
            let i = read_int unset w.1 in
            let v = read_int unset i.1 in
            do (low, s) ← read n v.1; (high, s) ← read n s; done (node i.0 v.0 low high, s)
      ]

-- A tree whose leaves have no sides and whose branches have both.
pub data IsComplete : Dlt → Type 0 where
  leaf : (v : ℤ) → IsComplete (node (negsuc 0) v null null)
  branch :
      {i v : ℤ} {low high : Dlt}
      → (i ==ℤ negsuc 0) ≡ false
      → IsComplete low
      → IsComplete high
      → IsComplete (node i v low high)

abbrev pub height : Dlt → ℕ
height null = 0
height (node i v low high) = suc (max (height low) (height high))
