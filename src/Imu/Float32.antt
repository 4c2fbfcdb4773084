-- ===== src/Imu/Float32.antt =====
-- The language's conversion of a UInt32 to a Float32 (IEEE 754 single precision, round to nearest,
-- ties to even), as the bit pattern of the result.
use guillemot_core.Prelude.{
  ℕ, zero, suc, ◌+◌, ◌-◌, ◌*◌, ◌/◌, ◌%◌, ◌^◌, ◌≤◌, ◌<◌, ◌≢◌, ◌≡◌, refl, ap, ◌∙◌, Bool, true, false,
  ◌&&◌, ◌||◌, arith, ltb, leb, ◌==◌, if◌then◌else◌, Bool-cases, inl, inr,
}
use native.Mathlib.Nat.{le_refl, pow-suc, mul-le-mul}

-- The position of the highest bit that is set; `fuel` bits are looked at.
log2 : (fuel n : ℕ) → ℕ
log2 zero n = 0
log2 (suc fuel) n = elim (ltb n 2) [ true ↦ 0 | false ↦ suc (log2 fuel (n / 2)) ]

-- Whether the part that is cut off rounds the kept part up.
rounds_up : (kept cut half : ℕ) → Bool
rounds_up kept cut half = ltb half cut || (cut == half && kept % 2 == 1)

-- The bits of a number whose highest bit is at `e`. A carry out of the fraction raises the exponent.
float32_at : (n e : ℕ) → ℕ
unfolding rounds_up
float32_at n e =
    if leb e 23
    then (127 + e) * 2 ^ 23 + (n - 2 ^ e) * 2 ^ (23 - e)
    else (let kept = n / 2 ^ (e - 23) in
        let up = if rounds_up kept (n % 2 ^ (e - 23)) (2 ^ (e - 24)) then 1 else 0 in
        (127 + e) * 2 ^ 23 + (kept - 2 ^ 23 + up))

unfoldable pub float32_of_uint32 : ℕ → ℕ
unfolding log2 float32_at
float32_of_uint32 n = if n == 0 then 0 else float32_at n (log2 32 n)

float32_at-ge : (n e : ℕ) → 127 * 2 ^ 23 ≤ float32_at n e
unfolding float32_at
float32_at-ge n e = ground arith

-- The pattern of a number that is not 0 is at least that of 1.0.
pub float32_of_uint32-ge : (n : ℕ) → n ≢ 0 → 127 * 2 ^ 23 ≤ float32_of_uint32 n
unfolding float32_of_uint32
float32_of_uint32-ge n h = ground (arith, float32_at-ge n (log2 32 n))

one : float32_of_uint32 1 ≡ 0x3f800000
unfolding float32_of_uint32
one = refl

-- 16777217 = 2^24 + 1 is a tie, and goes to the even neighbour 2^24; the largest UInt32 goes to 2^32.
ties : float32_of_uint32 16777217 ≡ 0x4b800000
unfolding float32_of_uint32
ties = refl

carries : float32_of_uint32 0xffffffff ≡ 0x4f800000
unfolding float32_of_uint32
carries = refl

log2-lt : (fuel n : ℕ) → n < 2 ^ fuel → n < 2 ^ suc (log2 fuel n)
unfolding log2
log2-lt zero n h = omega arith
log2-lt (suc fuel) n h = elim (Bool-cases (ltb n 2)) [
  | inl small ↦ rw (small, log2) (ground arith)
  | inr large ↦
      rw (large, log2)
        (omega (
          arith,
          log2-lt fuel (n / 2) (omega (arith, pow-suc 2 fuel)),
          pow-suc 2 (suc (log2 fuel (n / 2))),
        ))
]

log2-le : (k fuel n : ℕ) → n < 2 ^ suc k → log2 fuel n ≤ k
unfolding log2
log2-le k zero n h = omega arith
log2-le zero (suc fuel) n h = ground (arith, pow-suc 2 0)
log2-le (suc k) (suc fuel) n h = elim (Bool-cases (ltb n 2)) [
  | inl small ↦ rw (small, log2) (omega arith)
  | inr large ↦
      rw (large, log2) (omega (arith, log2-le k fuel (n / 2) (omega (arith, pow-suc 2 (suc k)))))
]

pow-split : (a b : ℕ) → 2 ^ a * 2 ^ b ≡ 2 ^ (a + b)
pow-split zero b = let same : zero + b ≡ b = omega arith in rw same (omega arith)
pow-split (suc a) b =
    let next : suc a + b ≡ suc (a + b) = omega arith in
    rw (next, pow-suc 2 a, pow-suc 2 (a + b)) (omega (arith, pow-split a b))

-- Below 2^24 a number is represented exactly, and its pattern is that of a finite float.
float32_at-lt : (n e : ℕ) → e ≤ 23 → n < 2 ^ suc e → float32_at n e < 2 ^ 32
unfolding float32_at
float32_at-lt n e h b =
    let low : n - 2 ^ e ≤ 2 ^ e = omega (arith, pow-suc 2 e) in
    let cut = mul-le-mul low (le_refl (2 ^ (23 - e))) in
    let whole : e + (23 - e) ≡ 23 = omega arith in
    let all : 2 ^ e * 2 ^ (23 - e) ≡ 2 ^ 23 = pow-split e (23 - e) ∙ ap (λ k. 2 ^ k) whole in
    ground (arith, cut, all)

pub float32_of_uint32-lt : (n : ℕ) → n < 2 ^ 24 → float32_of_uint32 n < 2 ^ 32
unfolding float32_of_uint32
float32_of_uint32-lt n h =
    let top = log2-le 23 32 n h in
    ground (arith, float32_at-lt n (log2 32 n) top (log2-lt 32 n (omega arith)))
