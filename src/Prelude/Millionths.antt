-- ===== src/Prelude/Millionths.antt =====
-- The floating-point interface filled by whole millionths, for the tests and the witnesses.
use guillemot_core.Prelude.{ℕ, ◌+◌, ◌^◌, ◌/◌, ◌%◌, ◌≡◌, true, false, arith, if◌then◌else◌}
use guillemot_core.Prelude.Int.{
  ℤ, pos, negsuc, pos_part, neg_part, sub_ℕ, ◌+ℤ◌, ◌-ℤ◌, ◌*ℤ◌, ltb_ℤ, leb_ℤ, ◌==ℤ◌, abs,
}
use guillemot_core.Prelude.Float.{Floats, FloatLaws}

unfoldable pub negate : ℤ → ℤ
negate a = sub_ℕ (neg_part a) (pos_part a)

-- The quotient, truncated towards 0.
unfoldable pub quot : ℤ → ℕ → ℤ
quot a n = sub_ℕ (pos_part a / n) (neg_part a / n)

abbrev magnitude : ℤ → ℕ
magnitude a = pos_part a + neg_part a

abbrev sign_of : ℤ → ℤ
sign_of a = if ltb_ℤ a (pos 0) then negsuc 0 else pos 1

abbrev pub millionths : Floats ℤ
millionths = record {
  lit = λ n k. quot (n *ℤ pos 1_000_000) (10 ^ k);
  of_int = λ n. n *ℤ pos 1_000_000;
  to_float = λ a. a;
  add = λ a b. a +ℤ b;
  sub = λ a b. a -ℤ b;
  mul = λ a b. quot (a *ℤ b) 1_000_000;
  div = λ a b. quot (a *ℤ pos 1_000_000 *ℤ sign_of b) (magnitude b);
  fmod = λ a b. sub_ℕ (pos_part a % magnitude b) (neg_part a % magnitude b);
  neg = negate;
  abs = abs;
  lt = ltb_ℤ;
  le = leb_ℤ;
  eq = λ a b. a ==ℤ b;
}

ltb_irrefl : (a : ℤ) → ltb_ℤ a a ≡ false
ltb_irrefl a = ground arith

ltb_asym : (a b : ℤ) → ltb_ℤ a b ≡ true → ltb_ℤ b a ≡ false
ltb_asym a b h = ground arith

ltb-negate : (a b : ℤ) → ltb_ℤ (negate a) (negate b) ≡ ltb_ℤ b a
unfolding negate
ltb-negate a b = ground arith

negate-negate : (a : ℤ) → negate (negate a) ≡ a
unfolding negate
negate-negate a = ground arith

pub millionths_laws : FloatLaws millionths
millionths_laws = record {
  lt_irrefl = ltb_irrefl;
  lt_asym = ltb_asym;
  lt-neg = ltb-negate;
  neg-neg = negate-negate;
}
