-- ===== src/Imu/Packet/Checksum.antt =====
-- The checksum of calculateChecksum: its closed form, and the errors that it detects.
use guillemot_core.Prelude.{
  ℕ, suc, ◌+◌, ◌*◌, ◌%◌, ◌≡◌, ◌≢◌, ◌<◌, sym, ◌∙◌, [], ◌∷◌, ◌++◌, arith, length, length-append,
}
use mathlib.Core.List.{append-nil}
use guillemot_core.Prelude.Run.{Run, done}
use guillemot_core.Imu.Buffer.{Bytes}
use guillemot_core.Imu.Packet.{checksum_loop, calculate_checksum}

abbrev pub sum : Bytes → ℕ
sum [] = 0
sum (x ∷ xs) = x + sum xs

-- Each byte counted once for itself and once for each byte behind it.
abbrev pub weighted : Bytes → ℕ
weighted [] = 0
weighted (x ∷ xs) = x * (length xs + 1) + weighted xs

abbrev pub fletcher : Bytes → ℕ
fletcher xs = sum xs % 256 * 256 + weighted xs % 256

checksum_loop_lem :
    (xs rest : Bytes) (a b : ℕ)
    → checksum_loop (length xs) (xs ++ rest) (a % 256) (b % 256)
      ≡ done ((a + sum xs) % 256, (b + a * length xs + weighted xs) % 256)
unfolding checksum_loop
checksum_loop_lem [] rest a b = ground arith
checksum_loop_lem (x ∷ xs) rest a b =
    let e1 : (a % 256 + x) % 256 ≡ (a + x) % 256 = omega arith in
    let e2 : (b % 256 + (a + x) % 256) % 256 ≡ (b + a + x) % 256 = omega arith in
    let r1 : a + x + sum xs ≡ a + (x + sum xs) = omega arith in
    let r2 : b + a + x + (a + x) * length xs + weighted xs
        ≡ b + a * suc (length xs) + (x * (length xs + 1) + weighted xs) =
      omega arith in
    rw (e1, e2, checksum_loop_lem xs rest (a + x) (b + a + x), r1, r2)

-- The loop computes, in bytes that wrap around, the sum of the bytes and the sum weighted by the
-- distance from the end; it reads `size` bytes and no more.
pub calculate_checksum_lem :
    (xs rest : Bytes) → calculate_checksum (xs ++ rest) (length xs) ≡ done (fletcher xs)
unfolding calculate_checksum
calculate_checksum_lem xs rest = rw (checksum_loop_lem xs rest 0 0) (ground arith)

sum-append : (xs ys : Bytes) → sum (xs ++ ys) ≡ sum xs + sum ys
sum-append [] ys = omega arith
sum-append (x ∷ xs) ys = omega (arith, sum-append xs ys)

weighted-append :
    (xs ys : Bytes) → weighted (xs ++ ys) ≡ weighted xs + sum xs * length ys + weighted ys
weighted-append [] ys = omega arith
weighted-append (x ∷ xs) ys = rw (length-append xs ys) (omega (arith, weighted-append xs ys))

pub checksum_of : (xs : Bytes) → calculate_checksum xs (length xs) ≡ done (fletcher xs)
checksum_of xs = rw append-nil at (calculate_checksum_lem xs [])

done_inj : (a b : ℕ) → ◌≡◌ {A = Run ℕ} (done a) (done b) → a ≡ b
done_inj a b e = cc

abbrev pub checksum : Bytes → Run ℕ
checksum xs = calculate_checksum xs (length xs)

fletcher-eq : (xs ys : Bytes) → checksum xs ≡ checksum ys → fletcher xs ≡ fletcher ys
fletcher-eq xs ys e = done_inj _ _ (sym (checksum_of xs) ∙ e ∙ checksum_of ys)

-- Two messages that differ in exactly one byte have different checksums.
pub detects_one_byte :
    (xs ys : Bytes) (a b : ℕ)
    → a < 256
    → b < 256
    → a ≢ b
    → checksum (xs ++ a ∷ ys) ≢ checksum (xs ++ b ∷ ys)
detects_one_byte xs ys a b ha hb ne e =
    let same = fletcher-eq (xs ++ a ∷ ys) (xs ++ b ∷ ys) e in
    omega (arith, sum-append xs (a ∷ ys), sum-append xs (b ∷ ys))

-- Exchanging two neighbouring bytes that are different changes the checksum.
pub detects_swap :
    (xs ys : Bytes) (a b : ℕ)
    → a < 256
    → b < 256
    → a ≢ b
    → checksum (xs ++ a ∷ b ∷ ys) ≢ checksum (xs ++ b ∷ a ∷ ys)
detects_swap xs ys a b ha hb ne e =
    let same = fletcher-eq (xs ++ a ∷ b ∷ ys) (xs ++ b ∷ a ∷ ys) e in
    omega (arith, weighted-append xs (a ∷ b ∷ ys), weighted-append xs (b ∷ a ∷ ys))
