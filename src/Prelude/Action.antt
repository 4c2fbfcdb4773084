-- ===== src/Prelude/Action.antt =====
-- Code that changes a state and returns, or does not return: `none` stands for a call that uses up
-- the depth of nesting that it is given.
use guillemot_core.Prelude.{
  ◌≡◌, refl, ◌∙◌, ap, Bool, true, false, Option, none, some, if◌then◌else◌,
}

abbrev pub Action : Type 0 → Type 0 → Type 0
Action S A = S → Option (A × S)

module _ {S A : Type 0} where
  unfoldable pub pure : A → Action S A
  pure a s = some (a, s)

  -- Reads the state.
  unfoldable pub gets : (S → A) → Action S A
  gets f s = some (f s, s)

unfoldable pub modify : {S : Type 0} → (S → S) → Action S (Unit {0})
modify f s = some (tt, f s)

module _ {S A B : Type 0} where
  abbrev proceed : Option (A × S) → (A → Action S B) → Option (B × S)
  proceed none f = none
  proceed (some (a, s)) f = f a s

  infixl 5 ◌>>=◌ ◌>>◌
  unfoldable pub ◌>>=◌ : Action S A → (A → Action S B) → Action S B
  ◌>>=◌ m f s = proceed (m s) f

  abbrev pub ◌>>◌ : Action S A → Action S B → Action S B
  m >> k = m >>= λ _. k

  pub >>=-some :
      (m : Action S A) (f : A → Action S B) (a : A) (s s' : S)
      → m s ≡ some (a, s')
      → (m >>= f) s ≡ f a s'
  unfolding ◌>>=◌
  >>=-some m f a s s' e = ap (λ o. proceed o f) e

-- From a state with `P` the action returns, with a result and a state for which `Q` holds.
pub record Ensures {S A : Type 0} (P : S → Type 0) (m : Action S A) (Q : A → S → Type 0)
    : Type 0 where
  pub at : (s : S) → P s → (a : A) × (s' : S) × (m s ≡ some (a, s')) × Q a s'

module _ {S A : Type 0} {P : S → Type 0} {Q : A → S → Type 0} where
  pub Ensures-pure : (a : A) → ((s : S) → P s → Q a s) → Ensures P (pure a) Q
  unfolding pure
  Ensures-pure a h = record { at = λ s p. (a, s, refl, h s p) }

  pub Ensures-gets : (f : S → A) → ((s : S) → P s → Q (f s) s) → Ensures P (gets f) Q
  unfolding gets
  Ensures-gets f h = record { at = λ s p. (f s, s, refl, h s p) }

  pub Ensures-if :
      (b : Bool) (m n : Action S A)
      → (b ≡ true → Ensures P m Q)
      → (b ≡ false → Ensures P n Q)
      → Ensures P (if b then m else n) Q
  Ensures-if true m n hm hn = hm refl
  Ensures-if false m n hm hn = hn refl

  -- A condition that follows may be put in place of a condition, on either side.
  pub Ensures-mono :
      {P' : S → Type 0} {Q' : A → S → Type 0} (m : Action S A)
      → Ensures P m Q
      → ((s : S) → P' s → P s)
      → ((a : A) (s : S) → Q a s → Q' a s)
      → Ensures P' m Q'
  Ensures-mono m h before after = record {
    at = λ s p. let (a, s', e, q) = h.at s (before s p) in (a, s', e, after a s' q);
  }

pub Ensures-modify :
    {S : Type 0} {P : S → Type 0} {Q : Unit {0} → S → Type 0} (f : S → S)
    → ((s : S) → P s → Q tt (f s))
    → Ensures P (modify f) Q
unfolding modify
Ensures-modify f h = record { at = λ s p. (tt, f s, refl, h s p) }

module _ {S A B : Type 0} {P : S → Type 0} {Q : A → S → Type 0} {R : B → S → Type 0} where
  pub Ensures-bind :
      (m : Action S A) (f : A → Action S B)
      → Ensures P m Q
      → ((a : A) → Ensures (Q a) (f a) R)
      → Ensures P (m >>= f) R
  Ensures-bind m f hm hf = record {
    at = λ s p.
        let (a, s', e, q) = hm.at s p in
        let (b, s'', e', r) = (hf a).at s' q in (b, s'', >>=-some m f a s s' e ∙ e', r);
  }

-- The action returns, and keeps `P`.
pub record Keeps {S A : Type 0} (P : S → Type 0) (m : Action S A) : Type 0 where
  pub at : (s : S) → P s → (a : A) × (s' : S) × (m s ≡ some (a, s')) × P s'

module _ {S A B : Type 0} {P : S → Type 0} {Q : A → S → Type 0} {R : B → S → Type 0} where
  infixr 3 ◌▸◌
  pub ◌▸◌ :
      {m : Action S A} {f : A → Action S B}
      → Ensures P m Q
      → ((a : A) → Ensures (Q a) (f a) R)
      → Ensures P (m >>= f) R
  hm ▸ hf = Ensures-bind _ _ hm hf

module _ {S A : Type 0} {P : S → Type 0} where
  pub Ensures-Keeps : (m : Action S A) → Keeps P m → Ensures P m (λ _ s. P s)
  Ensures-Keeps m h = record { at = h.at }

  pub Keeps-Ensures : (m : Action S A) → Ensures P m (λ _ s. P s) → Keeps P m
  Keeps-Ensures m h = record { at = h.at }

  pub Keeps-pure : (a : A) → Keeps P (pure a)
  unfolding pure
  Keeps-pure a = record { at = λ s p. (a, s, refl, p) }

  pub Keeps-gets : (f : S → A) → Keeps P (gets f)
  unfolding gets
  Keeps-gets f = record { at = λ s p. (f s, s, refl, p) }

  pub Keeps-if :
      (b : Bool) (m n : Action S A)
      → (b ≡ true → Keeps P m)
      → (b ≡ false → Keeps P n)
      → Keeps P (if b then m else n)
  Keeps-if true m n hm hn = hm refl
  Keeps-if false m n hm hn = hn refl

pub Keeps-modify :
    {S : Type 0} {P : S → Type 0} (f : S → S) → ((s : S) → P s → P (f s)) → Keeps P (modify f)
unfolding modify
Keeps-modify f h = record { at = λ s p. (tt, f s, refl, h s p) }

module _ {S A B : Type 0} {P : S → Type 0} where
  pub Keeps-bind :
      (m : Action S A) (f : A → Action S B)
      → Keeps P m
      → ((a : A) → Keeps P (f a))
      → Keeps P (m >>= f)
  Keeps-bind m f hm hf =
      Keeps-Ensures (m >>= f)
        (Ensures-bind m f (Ensures-Keeps m hm) (λ a. Ensures-Keeps (f a) (hf a)))

  -- The same, for a chain that is written as the block is: each step's proof, and the rest.
  infixr 3 ◌▹◌
  pub ◌▹◌ :
      {m : Action S A} {f : A → Action S B}
      → Keeps P m
      → ((a : A) → Keeps P (f a))
      → Keeps P (m >>= f)
  hm ▹ hf = Keeps-bind _ _ hm hf

-- A branch, by the proofs of its two sides.
pub Keeps-either :
    {S A : Type 0} {P : S → Type 0} {m n : Action S A}
    → (b : Bool) → Keeps P m
    → Keeps P n
    → Keeps P (if b then m else n)
Keeps-either true hm hn = hm
Keeps-either false hm hn = hn
