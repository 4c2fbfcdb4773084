-- ===== src/Prelude/Ring.antt =====
-- Arithmetic without division, and what makes it exact: a commutative ring. Its equations are decided
-- by multiplying out: an expression is a list of signed products of variables, and two are equal if
-- their difference cancels.
use guillemot_core.Prelude.{
  ℕ, zero, suc, ◌≡◌, refl, sym, ap, ◌∙◌, Bool, true, false, not, ◌&&◌, leb, ◌==◌, Option, none,
  some, List, [], ◌∷◌, ◌++◌, map, length, replicate, get_or,
}
use guillemot_core.Prelude.Int.{ℤ, pos, negsuc}
pub mod Sum
pub mod Cancel
pub mod Integers

pub record Arithmetic (F : Type 0) : Type 0 where
  -- a whole number
  pub whole : ℤ → F
  pub add : F → F → F
  pub sub : F → F → F
  pub mul : F → F → F
  pub neg : F → F

pub record IsRing {F : Type 0} (a : Arithmetic F) : Type 0 where
  pub zero-add : (x : F) → a.add (a.whole (pos 0)) x ≡ x
  pub add_comm : (x y : F) → a.add x y ≡ a.add y x
  pub add_assoc : (x y z : F) → a.add (a.add x y) z ≡ a.add x (a.add y z)
  pub add-neg : (x : F) → a.add x (a.neg x) ≡ a.whole (pos 0)
  pub sub_lem : (x y : F) → a.sub x y ≡ a.add x (a.neg y)
  pub one-mul : (x : F) → a.mul (a.whole (pos 1)) x ≡ x
  pub mul_comm : (x y : F) → a.mul x y ≡ a.mul y x
  pub mul_assoc : (x y z : F) → a.mul (a.mul x y) z ≡ a.mul x (a.mul y z)
  pub mul-add : (x y z : F) → a.mul x (a.add y z) ≡ a.add (a.mul x y) (a.mul x z)
  pub whole-suc : (n : ℕ) → a.whole (pos (suc n)) ≡ a.add (a.whole (pos 1)) (a.whole (pos n))
  pub whole-negsuc : (n : ℕ) → a.whole (negsuc n) ≡ a.neg (a.whole (pos (suc n)))

pub data Expr : Type 0 where
  var : ℕ → Expr
  number : ℤ → Expr
  plus minus times : Expr → Expr → Expr
  opposite : Expr → Expr

-- Code that computes with any arithmetic computes with expressions, too.
abbrev pub symbolic : Arithmetic Expr
symbolic = record { whole = number; add = plus; sub = minus; mul = times; neg = opposite }

pub record Term : Type 0 where
  pub negative : Bool
  pub vars : List ℕ

abbrev pub flip : Term → Term
flip t = record t { negative = not t.negative }

-- Keeps the variables in order.
unfoldable pub insert : ℕ → List ℕ → List ℕ
insert v [] = v ∷ []
insert v (w ∷ ws) = elim (leb v w) [ true ↦ v ∷ w ∷ ws | false ↦ w ∷ insert v ws ]

unfoldable pub insert_all : List ℕ → List ℕ → List ℕ
insert_all [] ws = ws
insert_all (v ∷ vs) ws = insert v (insert_all vs ws)

abbrev pub xor : Bool → Bool → Bool
xor true b = not b
xor false b = b

unfoldable pub times_term : Term → Term → Term
times_term t u = record { negative = xor t.negative u.negative; vars = insert_all t.vars u.vars }

unfoldable pub product : List Term → List Term → List Term
product [] us = []
product (t ∷ ts) us = map (times_term t) us ++ product ts us

unfoldable pub expand : Expr → List Term
expand (var i) = record { negative = false; vars = i ∷ [] } ∷ []
expand (number (pos n)) = replicate n (record { negative = false; vars = [] })
expand (number (negsuc n)) = replicate (suc n) (record { negative = true; vars = [] })
expand (plus e d) = expand e ++ expand d
expand (minus e d) = expand e ++ map flip (expand d)
expand (times e d) = product (expand e) (expand d)
expand (opposite e) = map flip (expand e)

abbrev pub same_vars : List ℕ → List ℕ → Bool
same_vars [] [] = true
same_vars (v ∷ vs) (w ∷ ws) = v == w && same_vars vs ws
same_vars _ _ = false

abbrev pub same : Term → Term → Bool
same t u = not (xor t.negative u.negative) && same_vars t.vars u.vars

-- The terms without one that is `t`.
unfoldable pub take_out : Term → List Term → Option (List Term)
take_out t [] = none
take_out t (u ∷ us) = elim (same t u) [
  | true ↦ some us
  | false ↦ elim (take_out t us) [ none ↦ none | some rest ↦ some (u ∷ rest) ]
]

-- Do the terms cancel, each against another one?
unfoldable pub cancels : ℕ → List Term → Bool
cancels n [] = true
cancels zero (t ∷ ts) = false
cancels (suc n) (t ∷ ts) = elim (take_out (flip t) ts) [ none ↦ false | some rest ↦ cancels n rest ]

abbrev pub agree : Expr → Expr → Bool
agree e d = let ts = expand (minus e d) in cancels (length ts) ts

module _ {F : Type 0} (a : Arithmetic F) (env : List F) where
  abbrev pub value : Expr → F
  value (var i) = get_or env i (a.whole (pos 0))
  value (number n) = a.whole n
  value (plus e d) = a.add (value e) (value d)
  value (minus e d) = a.sub (value e) (value d)
  value (times e d) = a.mul (value e) (value d)
  value (opposite e) = a.neg (value e)
