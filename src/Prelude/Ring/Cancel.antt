-- ===== src/Prelude/Ring/Cancel.antt =====
-- Expressions whose difference cancels are equal in every commutative ring.
use guillemot_core.Prelude.{
  ℕ, zero, suc, ◌≡◌, refl, sym, ap, ◌∙◌, arith, Bool, true, false, not, ◌&&◌, ◌==◌, Option, none,
  some, List, [], ◌∷◌,
}
use guillemot_core.Prelude.Node.{elim-P_both}
use guillemot_core.Prelude.Ring.{
  Arithmetic, IsRing, Expr, minus, Term, flip, xor, same, same_vars, take_out, cancels, agree,
  value,
}
use guillemot_core.Prelude.Ring.Sum.{
  zero_r, equal_of_difference, signed, signed-not, product_of, term_value, sum_of, sum_of-expand,
}

same_vars_lem : (vs ws : List ℕ) → same_vars vs ws ≡ true → vs ≡ ws
same_vars_lem [] [] h = refl
same_vars_lem [] (w ∷ ws) h = absurd (ground arith)
same_vars_lem (v ∷ vs) [] h = absurd (ground arith)
same_vars_lem (v ∷ vs) (w ∷ ws) h =
    ap (λ x. x ∷ vs) (first (same_vars vs ws) h)
    ∙ ap (◌∷◌ w) (same_vars_lem vs ws (second (same_vars vs ws) h))
  where
    first : (b : Bool) → (v == w && b) ≡ true → v ≡ w
    first b e = ground arith

    second : (b : Bool) → (v == w && b) ≡ true → b ≡ true
    second b e = ground arith

-- The terms are one.
one_term : (t u : Term) → same t u ≡ true → (t.negative ≡ u.negative) × (t.vars ≡ u.vars)
one_term t u h = (
  sign t.negative u.negative (same_vars t.vars u.vars) h,
  same_vars_lem t.vars u.vars (rest t.negative u.negative (same_vars t.vars u.vars) h),
)
  where
    sign : (x y b : Bool) → (not (xor x y) && b) ≡ true → x ≡ y
    sign x y b e = ground arith

    rest : (x y b : Bool) → (not (xor x y) && b) ≡ true → b ≡ true
    rest x y b e = ground arith

module _ {F : Type 0} (a : Arithmetic F) (r : IsRing a) (env : List F) where
  open a use {add, sub, mul, neg, whole}

  abbrev Same : Term → Term → Type 0
  Same t u = term_value a r env t ≡ term_value a r env u

  same-Same : (t u : Term) → same t u ≡ true → Same t u
  same-Same t u h =
      let (e, d) = one_term t u h in
      ap (λ s. signed a r s (product_of a r env t.vars)) e
      ∙ ap (λ vs. signed a r u.negative (product_of a r env vs)) d

  abbrev TakenOut : Term → List Term → Option (List Term) → Type 0
  TakenOut t us none = Unit {0}
  TakenOut t us (some rest) = sum_of a r env us ≡ add (term_value a r env t) (sum_of a r env rest)

  behind :
      (t u : Term) (us : List Term) (o : Option (List Term))
      → TakenOut t us o
      → TakenOut t (u ∷ us) (elim o [ none ↦ none | some rest ↦ some (u ∷ rest) ])
  behind t u us none h = tt
  behind t u us (some rest) h =
      ap (add (term_value a r env u)) h
      ∙ sym (r.add_assoc _ _ _)
      ∙ ap (λ x. add x (sum_of a r env rest)) (r.add_comm _ _)
      ∙ r.add_assoc _ _ _

  take_out-TakenOut : (t : Term) (us : List Term) → TakenOut t us (take_out t us)
  unfolding take_out
  take_out-TakenOut t [] = tt
  take_out-TakenOut t (u ∷ us) =
      elim-P_both (TakenOut t (u ∷ us)) (same t u) _ _
        (λ e. ap (λ x. add x (sum_of a r env us)) (sym (same-Same t u e)))
        (λ _. behind t u us (take_out t us) (take_out-TakenOut t us))

  add-flip : (t : Term) → add (term_value a r env t) (term_value a r env (flip t)) ≡ zero_r a r
  add-flip t =
      ap (add (term_value a r env t)) (signed-not a r t.negative (product_of a r env t.vars))
      ∙ r.add-neg _

  abbrev CancelsToZero : ℕ → List Term → Type 0
  CancelsToZero n ts = cancels n ts ≡ true → sum_of a r env ts ≡ zero_r a r

  after_take_out :
      (n : ℕ) (t : Term) (ts : List Term) (o : Option (List Term))
      → ((rest : List Term) → CancelsToZero n rest)
      → TakenOut (flip t) ts o
      → elim o [ none ↦ false | some rest ↦ cancels n rest ] ≡ true
      → add (term_value a r env t) (sum_of a r env ts) ≡ zero_r a r
  after_take_out n t ts none ih k e = absurd (ground arith)
  after_take_out n t ts (some rest) ih k e =
      ap (add (term_value a r env t)) k
      ∙ sym (r.add_assoc _ _ _)
      ∙ ap (λ x. add x (sum_of a r env rest)) (add-flip t)
      ∙ r.zero-add _
      ∙ ih rest e

  cancels-zero : (n : ℕ) (ts : List Term) → CancelsToZero n ts
  unfolding cancels
  cancels-zero n [] h = refl
  cancels-zero zero (t ∷ ts) h = absurd (ground arith)
  cancels-zero (suc n) (t ∷ ts) h =
      after_take_out n t ts (take_out (flip t) ts) (cancels-zero n) (take_out-TakenOut (flip t) ts)
        h

  -- Two expressions that agree have one value.
  pub solve : (e d : Expr) → agree e d ≡ true → value a env e ≡ value a env d
  solve e d h = equal_of_difference a r _ _ (
      sym (r.sub_lem (value a env e) (value a env d))
      ∙ sym (sum_of-expand a r env (minus e d))
      ∙ cancels-zero _ _ h)
