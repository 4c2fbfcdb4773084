-- ===== src/Prelude/Node.antt =====
-- A node that answers each thing that it hears with a new state and the messages that it publishes.
use guillemot_core.Prelude.{
  ℕ, ◌<◌, ◌≡◌, refl, arith, Bool, true, false, if◌then◌else◌, Option, none, some, List, [], ◌∷◌,
  ◌++◌,
}

pub if-P :
    {A : Type 0} (P : A → Type 0) (b : Bool) (x y : A)
    → P x
    → (b ≡ false → P y)
    → P (if b then x else y)
if-P P true x y hx hy = hx
if-P P false x y hx hy = hy refl

pub if-P_no :
    {A : Type 0} (P : A → Type 0) (b : Bool) (x y : A) → b ≡ false → P y → P (if b then x else y)
if-P_no P true x y h hy = absurd (ground arith)
if-P_no P false x y h hy = hy

pub if-P_both :
    {A : Type 0} (P : A → Type 0) (b : Bool) (x y : A)
    → (b ≡ true → P x)
    → (b ≡ false → P y)
    → P (if b then x else y)
if-P_both P true x y hx hy = hx refl
if-P_both P false x y hx hy = hy refl

pub elim-P_both :
    {A : Type 0} (P : A → Type 0) (b : Bool) (x y : A)
    → (b ≡ true → P x)
    → (b ≡ false → P y)
    → P (elim b [ true ↦ x | false ↦ y ])
elim-P_both P true x y hx hy = hx refl
elim-P_both P false x y hx hy = hy refl

pub option-P :
    {A B : Type 0} (P : B → Type 0) (o : Option A) (x : B) (f : A → B)
    → P x
    → ((a : A) → P (f a))
    → P (elim o [ none ↦ x | some a ↦ f a ])
option-P P none x f hx hf = hx
option-P P (some a) x f hx hf = hf a

pub elim-P_no :
    {A : Type 0} (P : A → Type 0) (b : Bool) (x y : A)
    → b ≡ false
    → P y
    → P (elim b [ true ↦ x | false ↦ y ])
elim-P_no P true x y h hy = absurd (ground arith)
elim-P_no P false x y h hy = hy

abbrev pub All : {O : Type 0} → (O → Type 0) → List O → Type 0
All P [] = Unit {0}
All P (o ∷ os) = P o × All P os

abbrev pub IsByte : ℕ → Type 0
IsByte b = b < 256

pub anything : {O : Type 0} (os : List O) → All (λ _. Unit {0}) os
anything [] = tt
anything (o ∷ os) = (tt, anything os)

pub All-append :
    {O : Type 0} (P : O → Type 0) (os ps : List O) → All P os → All P ps → All P (os ++ ps)
All-append P [] ps h k = k
All-append P (o ∷ os) ps (h, hs) k = (h, All-append P os ps hs k)

abbrev pub to_list : {O : Type 0} → Option O → List O
to_list none = []
to_list (some o) = o ∷ []

module _ {S E O : Type 0} (handle : E → S → S × List O) where
  unfoldable pub run : List E → S → S × List O
  run [] s = (s, [])
  run (e ∷ es) s = let (s1, os) = handle e s in let (s2, ps) = run es s1 in (s2, os ++ ps)

  -- What each answer keeps, to something that is heard as `Heard` says, a whole run keeps.
  pub run-All :
      (Heard : E → Type 0) (Inv : S → Type 0) (P : O → Type 0)
      → ((e : E) (s : S) → Heard e → Inv s → Inv (handle e s).0 × All P (handle e s).1)
      → (es : List E) (s : S) → All Heard es
      → Inv s
      → Inv (run es s).0 × All P (run es s).1
  unfolding run
  run-All Heard Inv P step [] s hs h = (h, tt)
  run-All Heard Inv P step (e ∷ es) s (he, hs) h =
      let (h1, w) = step e s he h in
      let (h2, ws) = run-All Heard Inv P step es (handle e s).0 hs h1 in
      (h2, All-append P (handle e s).1 _ w ws)
