-- ===== src/Motor/Time.antt =====
-- The clock readings of motorController.cpp: `timeval`, and getMilliSecsBetween.
use guillemot_core.Prelude.{
  ℕ, suc, ◌+◌, ◌-◌, ◌*◌, ◌/◌, ◌%◌, ◌^◌, ◌≤◌, ◌<◌, ◌≡◌, arith, ltb, if◌then◌else◌,
}
use guillemot_core.Prelude.Int.{ℤ, pos, negsuc, sub_ℕ, pos_part, neg_part, ◌+ℤ◌}

pub record Time : Type 0 where
  pub sec : ℕ
  pub usec : ℕ

abbrev pub million : ℕ
million = 1_000_000

-- What gettimeofday returns.
pub record IsTime (t : Time) : Type 0 where
  pub usec_lt : t.usec < million

-- Division of C: the quotient is cut off towards 0.
unfoldable pub quotient : ℤ → ℕ → ℤ
quotient (pos n) k = pos (n / k)
quotient (negsuc n) k = sub_ℕ 0 (suc n / k)

-- The value that an `int` takes of a wider number.
unfoldable pub narrow_int : ℤ → ℤ
narrow_int (pos n) = let m = n % 2 ^ 32 in if ltb m (2 ^ 31) then pos m else negsuc (2 ^ 32 - m - 1)
narrow_int (negsuc n) =
    let m = n % 2 ^ 32 in if ltb m (2 ^ 31) then negsuc m else pos (2 ^ 32 - m - 1)

unfoldable pub get_milli_secs_between : Time → Time → ℤ
unfolding quotient narrow_int ◌+ℤ◌
get_milli_secs_between start end =
    let seconds = sub_ℕ (end.sec * 1000) (start.sec * 1000) in
    narrow_int (narrow_int seconds +ℤ quotient (sub_ℕ end.usec start.usec) 1000)

abbrev pub micros : Time → ℕ
micros t = t.sec * million + t.usec

-- Between two readings, the later at most 2147482 seconds after the earlier, the result is the whole
-- number of milliseconds that have passed, or one more.
pub get_milli_secs_between_lem :
    (start end : Time)
    → IsTime start
    → IsTime end
    → micros start ≤ micros end
    → end.sec ≤ start.sec + 2_147_482
    → let elapsed = get_milli_secs_between start end in
      (neg_part elapsed ≡ 0)
      × (pos_part elapsed * 1000 < micros end - micros start + 1000)
      × (micros end - micros start < pos_part elapsed * 1000 + 1000)
unfolding get_milli_secs_between
get_milli_secs_between_lem start end vs ve le near = ground arith
