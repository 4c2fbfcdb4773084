-- ===== src/Attitude/Answer.antt =====
-- What a sample makes of the answer of the device, and of a stray byte before it.
use guillemot_core.Prelude.{
  ℕ, suc, zero, ◌-◌, ◌%◌, ◌/◌, ◌<◌, ◌^◌, ◌==◌, ◌≡◌, refl, ap, ◌∙◌, arith, Bool, true, false,
  if◌then◌else◌, Option, none, some, List, [], ◌∷◌, ◌++◌, length,
}
use guillemot_core.Prelude.Int.{ℤ, pos, negsuc, to_short}
use guillemot_core.Prelude.Node.{All, if-P_no}
use guillemot_core.Attitude.{
  Port, read, first_sync, second_sync, third_sync, expect, attempt, sync_serial, read_bytes, Axes,
  short_of, store, sample,
}

abbrev pub IsNotFirst : Option ℕ → Type 0
IsNotFirst none = Unit {0}
IsNotFirst (some b) = (b == first_sync) ≡ false

-- The bytes of `bs`, each after any number of reads that give nothing.
pub data Delivers : List (Option ℕ) → List ℕ → Type 0 where
  nothing_more : Delivers [] []
  comes :
      {rs : List (Option ℕ)} {bs : List ℕ}
      → (b : ℕ) → Delivers rs bs
      → Delivers (some b ∷ rs) (b ∷ bs)
  late :
      {rs : List (Option ℕ)} {b : ℕ} {bs : List ℕ}
      → Delivers rs (b ∷ bs)
      → Delivers (none ∷ rs) (b ∷ bs)

-- The two bytes of a short.
abbrev pub low : ℤ → ℕ
low (pos n) = n % 256
low (negsuc n) = 255 - n % 256

abbrev pub high : ℤ → ℕ
high (pos n) = n / 256
high (negsuc n) = 255 - n / 256

abbrev pub IsShort : ℤ → Type 0
IsShort (pos n) = n < 2 ^ 15
IsShort (negsuc n) = n < 2 ^ 15

short_of-low : (v : ℤ) → IsShort v → short_of (low v) (high v) ≡ v
unfolding to_short
short_of-low (pos n) h = ground arith
short_of-low (negsuc n) h = ground arith

abbrev pub bytes_of : Axes → List ℕ
bytes_of v = low v.x ∷ high v.x ∷ low v.y ∷ high v.y ∷ low v.z ∷ high v.z ∷ []

-- `oks` and one more for each read.
abbrev pub rounds : List (Option ℕ) → ℕ → ℕ
rounds [] oks = oks
rounds (r ∷ rs) oks = suc (rounds rs oks)

module _ (oks : ℕ) (rest : List (Option ℕ)) (w : List ℕ) where
  read_bytes-Delivers :
      {rs : List (Option ℕ)} {bs : List ℕ}
      → Delivers rs bs
      → (n : ℕ) → n ≡ length bs
      → read_bytes (rounds rs oks) n (record { incoming = rs ++ rest; written = w })
        ≡ (bs, oks, record { incoming = rest; written = w })
  unfolding read_bytes read
  read_bytes-Delivers nothing_more zero e = refl
  read_bytes-Delivers nothing_more (suc n) e = absurd (omega arith)
  read_bytes-Delivers (comes b d) zero e = absurd (omega arith)
  read_bytes-Delivers (comes b d) (suc n) e =
      ap (λ p. (b ∷ p.0, p.1, p.2)) (read_bytes-Delivers d n (omega arith))
  read_bytes-Delivers (late d) zero e = absurd (omega arith)
  read_bytes-Delivers (late d) (suc n) e = read_bytes-Delivers d (suc n) e

module _ (command : ℕ) where
  sync_serial_again :
      (oks : ℕ) (p p' : Port)
      → attempt command p ≡ (false, p')
      → sync_serial command (suc oks) p ≡ sync_serial command oks p'
  unfolding sync_serial
  sync_serial_again oks p p' h =
      ap
        (λ (r : Bool × Port). elim r.0 [
          | true ↦ (true, oks, r.1)
          | false ↦ sync_serial command oks r.1
        ])
        h

  attempt-IsNotFirst :
      (r : Option ℕ) (rs : List (Option ℕ)) (w : List ℕ)
      → IsNotFirst r
      → attempt command (record { incoming = r ∷ rs; written = w })
        ≡ (false, record { incoming = rs; written = w ++ command ∷ [] })
  unfolding attempt expect read
  attempt-IsNotFirst none rs w h = refl
  attempt-IsNotFirst (some b) rs w h =
      if-P_no (λ p. p ≡ (false, record { incoming = rs; written = w ++ command ∷ [] }))
        (b == first_sync) _ _ h refl

  -- What is written: the command before each read of `noise`, and once more.
  abbrev pub sent : List (Option ℕ) → List ℕ → List ℕ
  sent [] w = w ++ command ∷ []
  sent (r ∷ rs) w = sent rs (w ++ command ∷ [])

  sync_serial_now :
      (tail : List (Option ℕ)) (oks : ℕ) (w : List ℕ)
      → sync_serial command (suc oks) (record {
        incoming = some first_sync ∷ some second_sync ∷ some third_sync ∷ tail;
        written = w;
      })
        ≡ (true, oks, record { incoming = tail; written = w ++ command ∷ [] })
  unfolding sync_serial attempt expect read
  sync_serial_now tail oks w = refl

  sync_serial-noise :
      (noise tail : List (Option ℕ)) (oks : ℕ) (w : List ℕ)
      → All IsNotFirst noise
      → sync_serial command (rounds noise (suc oks)) (record {
        incoming = noise ++ some first_sync ∷ some second_sync ∷ some third_sync ∷ tail;
        written = w;
      })
        ≡ (true, oks, record { incoming = tail; written = sent noise w })
  sync_serial-noise [] tail oks w h = sync_serial_now tail oks w
  sync_serial-noise (r ∷ rs) tail oks w (h, hs) =
      sync_serial_again (rounds rs (suc oks)) _ _ (attempt-IsNotFirst r _ w h)
      ∙ sync_serial-noise rs tail oks (w ++ command ∷ []) hs

-- An answer of the device: what is read before its header, its bytes and what they mean.
pub record Answer : Type 0 where
  pub noise : List (Option ℕ)
  pub bytes : List (Option ℕ)
  pub value : Axes

pub record IsAnswer (a : Answer) : Type 0 where
  pub noise_kept_out : All IsNotFirst a.noise
  pub delivered : Delivers a.bytes (bytes_of a.value)
  pub x_short : IsShort a.value.x
  pub y_short : IsShort a.value.y
  pub z_short : IsShort a.value.z

-- The reads of an answer, and the rounds that they take.
abbrev pub reads_of : Answer → List (Option ℕ) → List (Option ℕ)
reads_of a rest =
    a.noise ++ some first_sync ∷ some second_sync ∷ some third_sync ∷ (a.bytes ++ rest)

abbrev pub rounds_of : Answer → ℕ → ℕ
rounds_of a oks = rounds a.noise (suc (rounds a.bytes oks))

store-bytes_of :
    (v old : Axes) → IsShort v.x → IsShort v.y → IsShort v.z → store (bytes_of v) old ≡ v
unfolding store
store-bytes_of v old hx hy hz i = record {
  x = short_of-low v.x hx i;
  y = short_of-low v.y hy i;
  z = short_of-low v.z hz i;
}

pub sample-Answer :
    (command : ℕ) (a : Answer) (old : Axes) (oks : ℕ) (rest : List (Option ℕ)) (w : List ℕ)
    → IsAnswer a
    → sample command (rounds_of a oks) old (record { incoming = reads_of a rest; written = w })
      ≡ (a.value, oks, record { incoming = rest; written = sent command a.noise w })
unfolding sample
sample-Answer command a old oks rest w h =
    ap
      (λ (r : Bool × ℕ × Port).
        if r.0
        then (let (bs, oks2, p2) = read_bytes r.1 6 r.2 in (store bs old, oks2, p2))
        else (old, r.1, r.2))
      (sync_serial-noise command a.noise (a.bytes ++ rest) (rounds a.bytes oks) w h.noise_kept_out)
    ∙ ap (λ (r : List ℕ × ℕ × Port). (store r.0 old, r.1, r.2))
        (read_bytes-Delivers oks rest (sent command a.noise w) h.delivered 6 (omega arith))
    ∙ ap (λ v. (v, oks, record { incoming = rest; written = sent command a.noise w }))
        (store-bytes_of a.value old h.x_short h.y_short h.z_short)
