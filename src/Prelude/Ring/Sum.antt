-- ===== src/Prelude/Ring/Sum.antt =====
-- The sum that a list of terms stands for, and what expanding does to it.
use guillemot_core.Prelude.{
  ℕ, zero, suc, ◌≡◌, refl, sym, ap, ◌∙◌, Bool, true, false, not, leb, List, [], ◌∷◌, ◌++◌, map,
  replicate, get_or,
}
use guillemot_core.Prelude.Int.{pos, negsuc}
use guillemot_core.Prelude.Node.{elim-P_both}
use guillemot_core.Prelude.Ring.{
  Arithmetic, IsRing, Expr, var, number, plus, minus, times, opposite, Term, flip, insert,
  insert_all, xor, times_term, product, expand, value,
}

module _ {F : Type 0} (a : Arithmetic F) (r : IsRing a) where
  open a use {add, sub, mul, neg, whole}

  abbrev pub zero_r : F
  zero_r = whole (pos 0)

  abbrev one_r : F
  one_r = whole (pos 1)

  add-zero : (x : F) → add x zero_r ≡ x
  add-zero x = r.add_comm x zero_r ∙ r.zero-add x

  pub interchange : (x y z w : F) → add (add x y) (add z w) ≡ add (add x z) (add y w)
  interchange x y z w =
      r.add_assoc x y (add z w)
      ∙ ap (add x)
          (sym (r.add_assoc y z w) ∙ ap (λ u. add u w) (r.add_comm y z) ∙ r.add_assoc z y w)
      ∙ sym (r.add_assoc x z (add y w))

  -- The opposite is the only one.
  neg_unique : (x y : F) → add x y ≡ zero_r → y ≡ neg x
  neg_unique x y h =
      sym (r.zero-add y)
      ∙ ap (λ u. add u y) (sym (r.add_comm (neg x) x ∙ r.add-neg x))
      ∙ r.add_assoc (neg x) x y
      ∙ ap (add (neg x)) h
      ∙ add-zero (neg x)

  neg-neg : (x : F) → neg (neg x) ≡ x
  neg-neg x = sym (neg_unique (neg x) x (r.add_comm (neg x) x ∙ r.add-neg x))

  pub equal_of_difference : (x y : F) → add x (neg y) ≡ zero_r → x ≡ y
  equal_of_difference x y h = sym (neg-neg x) ∙ ap neg (sym (neg_unique x (neg y) h)) ∙ neg-neg y

  neg-zero : neg zero_r ≡ zero_r
  neg-zero = sym (neg_unique zero_r zero_r (r.zero-add zero_r))

  neg-add : (x y : F) → neg (add x y) ≡ add (neg x) (neg y)
  neg-add x y = sym (
      neg_unique (add x y) (add (neg x) (neg y)) (
        interchange x y (neg x) (neg y)
        ∙ ap (add (add x (neg x))) (r.add-neg y)
        ∙ add-zero (add x (neg x))
        ∙ r.add-neg x))

  mul-zero : (x : F) → mul x zero_r ≡ zero_r
  mul-zero x =
      sym (r.zero-add (mul x zero_r))
      ∙ ap (λ u. add u (mul x zero_r))
          (sym (r.add_comm (neg (mul x zero_r)) (mul x zero_r) ∙ r.add-neg (mul x zero_r)))
      ∙ r.add_assoc (neg (mul x zero_r)) (mul x zero_r) (mul x zero_r)
      ∙ ap (add (neg (mul x zero_r)))
          (sym (r.mul-add x zero_r zero_r) ∙ ap (mul x) (r.zero-add zero_r))
      ∙ r.add_comm (neg (mul x zero_r)) (mul x zero_r)
      ∙ r.add-neg (mul x zero_r)

  mul-neg : (x y : F) → mul x (neg y) ≡ neg (mul x y)
  mul-neg x y =
      neg_unique (mul x y) (mul x (neg y))
        (sym (r.mul-add x y (neg y)) ∙ ap (mul x) (r.add-neg y) ∙ mul-zero x)

  neg-mul : (x y : F) → mul (neg x) y ≡ neg (mul x y)
  neg-mul x y = r.mul_comm (neg x) y ∙ mul-neg y x ∙ ap neg (r.mul_comm y x)

  add-mul : (x y z : F) → mul (add x y) z ≡ add (mul x z) (mul y z)
  add-mul x y z =
      r.mul_comm (add x y) z
      ∙ r.mul-add z x y
      ∙ ap (add (mul z x)) (r.mul_comm z y)
      ∙ ap (λ u. add u (mul y z)) (r.mul_comm z x)

  zero-mul : (x : F) → mul zero_r x ≡ zero_r
  zero-mul x = r.mul_comm zero_r x ∙ mul-zero x

  abbrev pub signed : Bool → F → F
  signed true x = neg x
  signed false x = x

  pub signed-not : (s : Bool) (x : F) → signed (not s) x ≡ neg (signed s x)
  signed-not true x = sym (neg-neg x)
  signed-not false x = refl

  signed-xor : (s t : Bool) (x y : F) → signed (xor s t) (mul x y) ≡ mul (signed s x) (signed t y)
  signed-xor true true x y = sym (neg-mul x (neg y) ∙ ap neg (mul-neg x y) ∙ neg-neg (mul x y))
  signed-xor true false x y = sym (neg-mul x y)
  signed-xor false true x y = sym (mul-neg x y)
  signed-xor false false x y = refl

  module _ (env : List F) where
    abbrev pub product_of : List ℕ → F
    product_of [] = one_r
    product_of (v ∷ vs) = mul (get_or env v zero_r) (product_of vs)

    abbrev pub term_value : Term → F
    term_value t = signed t.negative (product_of t.vars)

    abbrev pub sum_of : List Term → F
    sum_of [] = zero_r
    sum_of (t ∷ ts) = add (term_value t) (sum_of ts)

    sum_of-append : (ts us : List Term) → sum_of (ts ++ us) ≡ add (sum_of ts) (sum_of us)
    sum_of-append [] us = sym (r.zero-add (sum_of us))
    sum_of-append (t ∷ ts) us =
        ap (add (term_value t)) (sum_of-append ts us) ∙ sym (r.add_assoc _ _ _)

    sum_of-flip : (ts : List Term) → sum_of (map flip ts) ≡ neg (sum_of ts)
    sum_of-flip [] = sym neg-zero
    sum_of-flip (t ∷ ts) =
        ap (add (term_value (flip t))) (sum_of-flip ts)
        ∙ ap (λ u. add u (neg (sum_of ts))) (signed-not t.negative (product_of t.vars))
        ∙ sym (neg-add (term_value t) (sum_of ts))

    swap : (x y z : F) → mul x (mul y z) ≡ mul y (mul x z)
    swap x y z = sym (r.mul_assoc x y z) ∙ ap (λ u. mul u z) (r.mul_comm x y) ∙ r.mul_assoc y x z

    product_of-insert : (v : ℕ) (ws : List ℕ) → product_of (insert v ws) ≡ product_of (v ∷ ws)
    unfolding insert
    product_of-insert v [] = refl
    product_of-insert v (w ∷ ws) =
        elim-P_both (λ us. product_of us ≡ product_of (v ∷ w ∷ ws)) (leb v w) _ _ (λ _. refl)
          (λ _. ap (mul (get_or env w zero_r)) (product_of-insert v ws) ∙ swap _ _ _)

    product_of-insert_all :
        (vs ws : List ℕ) → product_of (insert_all vs ws) ≡ mul (product_of vs) (product_of ws)
    unfolding insert_all
    product_of-insert_all [] ws = sym (r.one-mul (product_of ws))
    product_of-insert_all (v ∷ vs) ws =
        product_of-insert v (insert_all vs ws)
        ∙ ap (mul (get_or env v zero_r)) (product_of-insert_all vs ws)
        ∙ sym (r.mul_assoc _ _ _)

    term_value-times_term :
        (t u : Term) → term_value (times_term t u) ≡ mul (term_value t) (term_value u)
    unfolding times_term
    term_value-times_term t u =
        ap (signed (xor t.negative u.negative)) (product_of-insert_all t.vars u.vars)
        ∙ signed-xor t.negative u.negative (product_of t.vars) (product_of u.vars)

    sum_of-times_term :
        (t : Term) (us : List Term)
        → sum_of (map (times_term t) us) ≡ mul (term_value t) (sum_of us)
    sum_of-times_term t [] = sym (mul-zero (term_value t))
    sum_of-times_term t (u ∷ us) =
        ap (add (term_value (times_term t u))) (sum_of-times_term t us)
        ∙ ap (λ x. add x (mul (term_value t) (sum_of us))) (term_value-times_term t u)
        ∙ sym (r.mul-add (term_value t) (term_value u) (sum_of us))

    sum_of-product : (ts us : List Term) → sum_of (product ts us) ≡ mul (sum_of ts) (sum_of us)
    unfolding product
    sum_of-product [] us = sym (zero-mul (sum_of us))
    sum_of-product (t ∷ ts) us =
        sum_of-append (map (times_term t) us) (product ts us)
        ∙ ap (add (sum_of (map (times_term t) us))) (sum_of-product ts us)
        ∙ ap (λ x. add x (mul (sum_of ts) (sum_of us))) (sum_of-times_term t us)
        ∙ sym (add-mul (term_value t) (sum_of ts) (sum_of us))

    sum_of-ones :
        (n : ℕ) → sum_of (replicate n (record { negative = false; vars = [] })) ≡ whole (pos n)
    sum_of-ones zero = refl
    sum_of-ones (suc n) = ap (add one_r) (sum_of-ones n) ∙ sym (r.whole-suc n)

    sum_of-minus_ones :
        (n : ℕ) → sum_of (replicate n (record { negative = true; vars = [] })) ≡ neg (whole (pos n))
    sum_of-minus_ones zero = sym neg-zero
    sum_of-minus_ones (suc n) =
        ap (add (neg one_r)) (sum_of-minus_ones n)
        ∙ sym (neg-add one_r (whole (pos n)))
        ∙ ap neg (sym (r.whole-suc n))

    -- The terms of an expression stand for its value.
    pub sum_of-expand : (e : Expr) → sum_of (expand e) ≡ value a env e
    unfolding expand
    sum_of-expand (var i) = add-zero _ ∙ r.mul_comm (get_or env i zero_r) one_r ∙ r.one-mul _
    sum_of-expand (number (pos n)) = sum_of-ones n
    sum_of-expand (number (negsuc n)) = sum_of-minus_ones (suc n) ∙ sym (r.whole-negsuc n)
    sum_of-expand (plus e d) =
        sum_of-append (expand e) (expand d)
        ∙ ap (λ x. add x (sum_of (expand d))) (sum_of-expand e)
        ∙ ap (add (value a env e)) (sum_of-expand d)
    sum_of-expand (minus e d) =
        sum_of-append (expand e) (map flip (expand d))
        ∙ ap (λ x. add x (sum_of (map flip (expand d)))) (sum_of-expand e)
        ∙ ap (add (value a env e)) (sum_of-flip (expand d) ∙ ap neg (sum_of-expand d))
        ∙ sym (r.sub_lem (value a env e) (value a env d))
    sum_of-expand (times e d) =
        sum_of-product (expand e) (expand d)
        ∙ ap (λ x. mul x (sum_of (expand d))) (sum_of-expand e)
        ∙ ap (mul (value a env e)) (sum_of-expand d)
    sum_of-expand (opposite e) = sum_of-flip (expand e) ∙ ap neg (sum_of-expand e)
