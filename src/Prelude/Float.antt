-- ===== src/Prelude/Float.antt =====
-- Floating-point numbers as an interface: the code's arithmetic is kept as it is written, and what is
-- used of it are the facts about comparisons and signs that IEEE 754 gives, NaN included.
use guillemot_core.Prelude.{ℕ, ◌≡◌, Bool, true, false, sym, ap, ◌∙◌, if◌then◌else◌}
use guillemot_core.Prelude.Ring.{Arithmetic}
use guillemot_core.Prelude.Node.{if-P}
use guillemot_core.Prelude.Int.{ℤ}

pub record Floats (F : Type 0) : Type 0 where
  -- the literal n / 10 ^ k
  pub lit : ℤ → ℕ → F
  pub of_int : ℤ → F
  -- a `double` stored in a `float`
  pub to_float : F → F
  pub add : F → F → F
  pub sub : F → F → F
  pub mul : F → F → F
  pub div : F → F → F
  pub fmod : F → F → F
  pub neg : F → F
  pub abs : F → F
  pub lt : F → F → Bool
  pub le : F → F → Bool
  pub eq : F → F → Bool

-- The operations that a ring has.
abbrev pub arithmetic : {F : Type 0} → Floats F → Arithmetic F
arithmetic f = record { whole = λ n. f.lit n 0; add = f.add; sub = f.sub; mul = f.mul; neg = f.neg }

pub record FloatLaws {F : Type 0} (f : Floats F) : Type 0 where
  pub lt_irrefl : (a : F) → f.lt a a ≡ false
  pub lt_asym : (a b : F) → f.lt a b ≡ true → f.lt b a ≡ false
  pub lt-neg : (a b : F) → f.lt (f.neg a) (f.neg b) ≡ f.lt b a
  pub neg-neg : (a : F) → f.neg (f.neg a) ≡ a

-- `v` is not below `-m` and not above `m`; NaN is neither.
pub record IsWithin {F : Type 0} (f : Floats F) (m v : F) : Type 0 where
  pub not_above : f.lt m v ≡ false
  pub not_below : f.lt v (f.neg m) ≡ false

module _ {F : Type 0} (f : Floats F) (laws : FloatLaws f) (m : F)
    (m_pos : f.lt (f.neg m) m ≡ true) where
  not_above_m : f.lt m (f.neg m) ≡ false
  not_above_m = laws.lt_asym _ _ m_pos

  -- What is limited to `m` and turned round is within `m`.
  pub neg-clamp :
      (v : F)
      → IsWithin f m (f.neg (if f.lt m v then m else if f.lt v (f.neg m) then f.neg m else v))
  neg-clamp v =
      let Ok : F → Type 0 = λ s. IsWithin f m (f.neg s) in
      if-P Ok (f.lt m v) _ _
        (record { not_above = not_above_m; not_below = laws.lt_irrefl (f.neg m) })
        (λ small.
          if-P Ok (f.lt v (f.neg m)) _ _
            (record {
              not_above = ap (f.lt m) (laws.neg-neg m) ∙ laws.lt_irrefl m;
              not_below = laws.lt-neg (f.neg m) m ∙ not_above_m;
            })
            (λ large. record {
              not_above =
                  ap (λ u. f.lt u (f.neg v)) (sym (laws.neg-neg m))
                  ∙ laws.lt-neg (f.neg m) v
                  ∙ large;
              not_below = laws.lt-neg v m ∙ small;
            }))
