-- ===== src/Imu/Buffer.antt =====
-- common/BufferUtils.cpp of SubImuController: numbers in byte buffers.
-- A pointer `UInt8* pBuf` is the list of the bytes from it to the end of its allocation, and
-- `&pBuf[k]` is what `drop k` leaves (to read) or what `at k` works on (to write). A byte outside
-- the allocation is a fault. The host is little-endian: byte k of a number's object is
-- `data / 256 ^ k % 256`. A float is the bit pattern of its object.
use guillemot_core.Prelude.{ℕ, zero, suc, ◌+◌, ◌*◌, ◌/◌, ◌%◌, ◌^◌, List, [], ◌∷◌, get_elem?}
use guillemot_core.Prelude.Run.{Run, done, fault, ◌>>=◌, or_fault, map_run}
pub mod RoundTrip

abbrev pub Bytes : Type 0
Bytes = List ℕ

-- Byte k of the object that holds the number.
abbrev pub byte_at : ℕ → ℕ → ℕ
byte_at data' k = data' / 256 ^ k % 256

abbrev pub load : Bytes → ℕ → Run ℕ
load buf k = or_fault (get_elem? buf k)

abbrev pub store : Bytes → ℕ → ℕ → Run Bytes
store [] k v = fault
store (x ∷ xs) zero v = done (v ∷ xs)
store (x ∷ xs) (suc k) v = map_run (◌∷◌ x) (store xs k v)

-- Runs a writer on `&pBuf[k]`.
abbrev pub at : ℕ → (Bytes → Run Bytes) → Bytes → Run Bytes
at zero f buf = f buf
at (suc k) f [] = fault
at (suc k) f (x ∷ xs) = map_run (◌∷◌ x) (at k f xs)

unfoldable pub put_uint8 : Bytes → ℕ → Run Bytes
put_uint8 buf data' = store buf 0 data'

unfoldable pub get_uint8 : Bytes → Run ℕ
get_uint8 buf = load buf 0

unfoldable pub put_uint16 : Bytes → ℕ → Run Bytes
put_uint16 buf data' = do buf ← store buf 0 (byte_at data' 0); store buf 1 (byte_at data' 1)

unfoldable pub get_uint16 : Bytes → Run ℕ
get_uint16 buf = do b0 ← load buf 0; b1 ← load buf 1; done (b0 * 256 + b1)

unfoldable pub put_uint32 : Bytes → ℕ → Run Bytes
put_uint32 buf data' = do
  buf ← store buf 0 (byte_at data' 0)
  buf ← store buf 1 (byte_at data' 1)
  buf ← store buf 2 (byte_at data' 2)
  store buf 3 (byte_at data' 3)

unfoldable pub get_uint32 : Bytes → Run ℕ
get_uint32 buf = do
  b0 ← load buf 0
  b1 ← load buf 1
  b2 ← load buf 2
  b3 ← load buf 3
  done (b0 * 2 ^ 24 + b1 * 2 ^ 16 + b2 * 2 ^ 8 + b3)

unfoldable pub put_float32 : Bytes → ℕ → Run Bytes
put_float32 buf data' = do
  buf ← store buf 0 (byte_at data' 3)
  buf ← store buf 1 (byte_at data' 2)
  buf ← store buf 2 (byte_at data' 1)
  store buf 3 (byte_at data' 0)

unfoldable pub get_float32 : Bytes → Run ℕ
get_float32 buf = do
  f3 ← load buf 0
  f2 ← load buf 1
  f1 ← load buf 2
  f0 ← load buf 3
  done (f0 + f1 * 256 + f2 * 256 ^ 2 + f3 * 256 ^ 3)

-- The second four stores go to the bytes of the first four, as the code has it.
unfoldable pub put_float64 : Bytes → ℕ → Run Bytes
put_float64 buf data' = do
  buf ← store buf 0 (byte_at data' 7)
  buf ← store buf 1 (byte_at data' 6)
  buf ← store buf 2 (byte_at data' 5)
  buf ← store buf 3 (byte_at data' 4)
  buf ← store buf 0 (byte_at data' 3)
  buf ← store buf 1 (byte_at data' 2)
  buf ← store buf 2 (byte_at data' 1)
  store buf 3 (byte_at data' 0)

unfoldable pub get_float64 : Bytes → Run ℕ
get_float64 buf = do
  f7 ← load buf 0
  f6 ← load buf 1
  f5 ← load buf 2
  f4 ← load buf 3
  f3 ← load buf 4
  f2 ← load buf 5
  f1 ← load buf 6
  f0 ← load buf 7
  done (
      f0
      + f1 * 256
      + f2 * 256 ^ 2
      + f3 * 256 ^ 3
      + f4 * 256 ^ 4
      + f5 * 256 ^ 5
      + f6 * 256 ^ 6
      + f7 * 256 ^ 7)
