-- ===== src/Prelude/Ring/Integers.antt =====
-- The integers are a commutative ring, for the tests and the witnesses.
use guillemot_core.Prelude.{ℕ, suc, ◌+◌, ◌*◌, ◌≡◌, ap, arith}
use guillemot_core.Prelude.Int.{
  ℤ, pos, negsuc, pos_part, neg_part, sub_ℕ, ◌+ℤ◌, ◌-ℤ◌, ◌*ℤ◌, +ℤ_comm, +ℤ_assoc, eq_of_parts,
  +ℤ_parts,
}
use guillemot_core.Prelude.Ring.{Arithmetic, IsRing}

unfoldable pub opposite_ℤ : ℤ → ℤ
opposite_ℤ a = sub_ℕ (neg_part a) (pos_part a)

abbrev pub integers : Arithmetic ℤ
integers = record {
  whole = λ n. n;
  add = λ x y. x +ℤ y;
  sub = λ x y. x -ℤ y;
  mul = λ x y. x *ℤ y;
  neg = opposite_ℤ;
}

zero-+ℤ : (x : ℤ) → pos 0 +ℤ x ≡ x
unfolding ◌+ℤ◌
zero-+ℤ x = ground arith

+ℤ-opposite : (x : ℤ) → x +ℤ opposite_ℤ x ≡ pos 0
unfolding ◌+ℤ◌ opposite_ℤ
+ℤ-opposite x = ground arith

-ℤ_lem : (x y : ℤ) → x -ℤ y ≡ x +ℤ opposite_ℤ y
unfolding ◌+ℤ◌ ◌-ℤ◌ opposite_ℤ
-ℤ_lem x y = ground arith

one-*ℤ : (x : ℤ) → pos 1 *ℤ x ≡ x
unfolding ◌*ℤ◌
one-*ℤ x = ground arith

*ℤ_comm : (x y : ℤ) → x *ℤ y ≡ y *ℤ x
unfolding ◌*ℤ◌
*ℤ_comm x y = ground arith

*ℤ_parts :
    (x y : ℤ)
    → pos_part (x *ℤ y) + (pos_part x * neg_part y + neg_part x * pos_part y)
      ≡ neg_part (x *ℤ y) + (pos_part x * pos_part y + neg_part x * neg_part y)
unfolding ◌*ℤ◌
*ℤ_parts x y = ground arith

*ℤ-+ℤ : (x y z : ℤ) → x *ℤ (y +ℤ z) ≡ x *ℤ y +ℤ x *ℤ z
*ℤ-+ℤ x y z = eq_of_parts _ _ (
    omega (
      arith,
      *ℤ_parts x (y +ℤ z),
      *ℤ_parts x y,
      *ℤ_parts x z,
      +ℤ_parts (x *ℤ y) (x *ℤ z),
      ap (λ k. pos_part x * k) (+ℤ_parts y z),
      ap (λ k. neg_part x * k) (+ℤ_parts y z),
    ))

*ℤ_assoc : (x y z : ℤ) → x *ℤ y *ℤ z ≡ x *ℤ (y *ℤ z)
*ℤ_assoc x y z = eq_of_parts _ _ (
    omega (
      arith,
      *ℤ_parts (x *ℤ y) z,
      *ℤ_parts x (y *ℤ z),
      ap (λ k. k * pos_part z) (*ℤ_parts x y),
      ap (λ k. k * neg_part z) (*ℤ_parts x y),
      ap (λ k. pos_part x * k) (*ℤ_parts y z),
      ap (λ k. neg_part x * k) (*ℤ_parts y z),
    ))

whole-suc : (n : ℕ) → pos (suc n) ≡ pos 1 +ℤ pos n
unfolding ◌+ℤ◌
whole-suc n = ground arith

whole-negsuc : (n : ℕ) → negsuc n ≡ opposite_ℤ (pos (suc n))
unfolding opposite_ℤ
whole-negsuc n = ground arith

pub integers-IsRing : IsRing integers
integers-IsRing = record {
  zero-add = zero-+ℤ;
  add_comm = +ℤ_comm;
  add_assoc = +ℤ_assoc;
  add-neg = +ℤ-opposite;
  sub_lem = -ℤ_lem;
  one-mul = one-*ℤ;
  mul_comm = *ℤ_comm;
  mul_assoc = *ℤ_assoc;
  mul-add = *ℤ-+ℤ;
  whole-suc = whole-suc;
  whole-negsuc = whole-negsuc;
}
