-- ===== src/Attitude/Sums.antt =====
-- The bounds of the sums of the samples, within which doubles are exact.
use guillemot_core.Prelude.{
  ℕ, suc, zero, ◌+◌, ◌*◌, ◌^◌, ◌≤◌, ◌≡◌, subst, arith, Bool, Option, none, some, List, [], ◌∷◌,
}
use guillemot_core.Prelude.Int.{ℤ, pos_part, neg_part, ◌+ℤ◌, to_short}
use guillemot_core.Prelude.Node.{All, elim-P_both, IsByte, if-P}
use guillemot_core.Attitude.{
  Port, read, write_char, first_sync, second_sync, third_sync, expect, attempt, sync_serial,
  read_bytes, Axes, short_of, store, sample, zero_axes, add_axes, sum_samples,
}

abbrev pub IsByteRead : Option ℕ → Type 0
IsByteRead none = Unit {0}
IsByteRead (some b) = IsByte b

abbrev pub IsBytePort : Port → Type 0
IsBytePort p = All IsByteRead p.incoming

-- Within m, both ways.
abbrev pub IsSmall : ℕ → ℤ → Type 0
IsSmall m v = (pos_part v ≤ m) × (neg_part v ≤ m)

pub record AxesAreSmall (m : ℕ) (v : Axes) : Type 0 where
  pub x_small : IsSmall m v.x
  pub y_small : IsSmall m v.y
  pub z_small : IsSmall m v.z

option-P :
    {A : Type 0} (P : A → Type 0) (r : Option ℕ) (x : A) (f : ℕ → A)
    → IsByteRead r
    → P x
    → ((b : ℕ) → IsByte b → P (f b))
    → P (elim r [ none ↦ x | some b ↦ f b ])
option-P P none x f h hx hf = hx
option-P P (some b) x f h hx hf = hf b h

read-IsBytePort : (p : Port) → IsBytePort p → IsByteRead (read p).0 × IsBytePort (read p).1
unfolding read
read-IsBytePort p h =
    (elim p.incoming
        as (λ (rs : List (Option ℕ)).
          All IsByteRead rs
          → IsByteRead (read (record p { incoming = rs })).0
            × IsBytePort (read (record p { incoming = rs })).1) [
              | [] ↦ (λ _. (tt, tt))
              | r ∷ rs ↦ (λ k. k)
            ])
      h

expect-IsBytePort : (b : ℕ) (p : Port) → IsBytePort p → IsBytePort (expect b p).1
unfolding expect
expect-IsBytePort b p h = (read-IsBytePort p h).1

attempt-IsBytePort : (command : ℕ) (p : Port) → IsBytePort p → IsBytePort (attempt command p).1
unfolding attempt
attempt-IsBytePort command p h =
    let Ok : Bool × Port → Type 0 = λ r. IsBytePort r.1 in
    let h1 = expect-IsBytePort first_sync (write_char command p) h in
    let h2 = expect-IsBytePort second_sync _ h1 in
    if-P Ok (expect first_sync (write_char command p)).0 _ _
      (if-P Ok (expect second_sync (expect first_sync (write_char command p)).1).0 _ _
        (expect-IsBytePort third_sync _ h2) (λ _. h2))
      (λ _. h1)

sync_serial-IsBytePort :
    (command oks : ℕ) (p : Port) → IsBytePort p → IsBytePort (sync_serial command oks p).2
unfolding sync_serial
sync_serial-IsBytePort command zero p h = h
sync_serial-IsBytePort command (suc oks) p h =
    elim-P_both (λ (r : Bool × ℕ × Port). IsBytePort r.2) (attempt command p).0 _ _
      (λ _. attempt-IsBytePort command p h)
      (λ _. sync_serial-IsBytePort command oks _ (attempt-IsBytePort command p h))

read_bytes-IsBytePort :
    (oks left : ℕ) (p : Port)
    → IsBytePort p
    → All IsByte (read_bytes oks left p).0 × IsBytePort (read_bytes oks left p).2
unfolding read_bytes
read_bytes-IsBytePort oks zero p h = (tt, h)
read_bytes-IsBytePort zero (suc left) p h = (tt, h)
read_bytes-IsBytePort (suc oks) (suc left) p h =
    let (hr, h') = read-IsBytePort p h in
    option-P (λ (r : List ℕ × ℕ × Port). All IsByte r.0 × IsBytePort r.2) (read p).0 _ _ hr
      (read_bytes-IsBytePort oks (suc left) _ h')
      (λ b hb. let (hs, hp) = read_bytes-IsBytePort oks left _ h' in ((hb, hs), hp))

short_of-IsSmall : (b0 b1 : ℕ) → IsByte b0 → IsByte b1 → IsSmall (2 ^ 15) (short_of b0 b1)
unfolding to_short
short_of-IsSmall b0 b1 h0 h1 = ground arith

store-AxesAreSmall :
    (bs : List ℕ) (old : Axes)
    → All IsByte bs
    → AxesAreSmall (2 ^ 15) old
    → AxesAreSmall (2 ^ 15) (store bs old)
unfolding store
store-AxesAreSmall (b0 ∷ b1 ∷ b2 ∷ b3 ∷ b4 ∷ b5 ∷ []) old (h0, (h1, (h2, (h3, (h4, (h5, _)))))) h =
    record {
      x_small = short_of-IsSmall b0 b1 h0 h1;
      y_small = short_of-IsSmall b2 b3 h2 h3;
      z_small = short_of-IsSmall b4 b5 h4 h5;
    }
store-AxesAreSmall bs old hs h = h

sample-IsBytePort :
    (command oks : ℕ) (old : Axes) (p : Port)
    → IsBytePort p
    → AxesAreSmall (2 ^ 15) old
    → AxesAreSmall (2 ^ 15) (sample command oks old p).0 × IsBytePort (sample command oks old p).2
unfolding sample
sample-IsBytePort command oks old p hp h =
    let h1 = sync_serial-IsBytePort command oks p hp in
    let s = sync_serial command oks p in
    let (hb, h2) = read_bytes-IsBytePort s.1 6 s.2 h1 in
    if-P (λ (r : Axes × ℕ × Port). AxesAreSmall (2 ^ 15) r.0 × IsBytePort r.2) s.0 _ _
      (store-AxesAreSmall _ old hb h, h2) (λ _. (h, h1))

add-IsSmall : (m : ℕ) (a b : ℤ) → IsSmall m a → IsSmall (2 ^ 15) b → IsSmall (2 ^ 15 + m) (a +ℤ b)
unfolding ◌+ℤ◌
add-IsSmall m a b (h0, h1) (k0, k1) = ground arith

add_axes-AxesAreSmall :
    (m : ℕ) (a b : Axes)
    → AxesAreSmall m a
    → AxesAreSmall (2 ^ 15) b
    → AxesAreSmall (2 ^ 15 + m) (add_axes a b)
add_axes-AxesAreSmall m a b h k = record {
  x_small = add-IsSmall m a.x b.x h.x_small k.x_small;
  y_small = add-IsSmall m a.y b.y h.y_small k.y_small;
  z_small = add-IsSmall m a.z b.z h.z_small k.z_small;
}

-- `left` more samples.
abbrev pub grown : ℕ → ℕ → ℕ
grown zero m = m
grown (suc left) m = grown left (2 ^ 15 + m)

sum_samples-AxesAreSmall :
    (command left oks m : ℕ) (raw sums : Axes) (p : Port)
    → IsBytePort p
    → AxesAreSmall (2 ^ 15) raw
    → AxesAreSmall m sums
    → AxesAreSmall (grown left m) (sum_samples command left oks raw sums p).0
unfolding sum_samples
sum_samples-AxesAreSmall command zero oks m raw sums p hp hr hs = hs
sum_samples-AxesAreSmall command (suc left) oks m raw sums p hp hr hs =
    let r = sample command oks raw p in
    let (hr', hp') = sample-IsBytePort command oks raw p hp hr in
    sum_samples-AxesAreSmall command left r.1 (2 ^ 15 + m) r.0 (add_axes sums r.0) r.2 hp' hr'
      (add_axes-AxesAreSmall m sums r.0 hs hr')

grown_lem : (left m : ℕ) → grown left m ≡ left * 2 ^ 15 + m
grown_lem zero m = omega arith
grown_lem (suc left) m = omega (arith, grown_lem left (2 ^ 15 + m))

zero_axes-AxesAreSmall : (m : ℕ) → AxesAreSmall m zero_axes
zero_axes-AxesAreSmall m = record {
  x_small = (omega arith, omega arith);
  y_small = (omega arith, omega arith);
  z_small = (omega arith, omega arith);
}

-- Whatever bytes arrive, the three sums of n samples are within n times 2 ^ 15, both ways.
pub sum_samples_bounded :
    (command n oks : ℕ) (p : Port)
    → IsBytePort p
    → AxesAreSmall (n * 2 ^ 15) (sum_samples command n oks zero_axes zero_axes p).0
sum_samples_bounded command n oks p hp =
    subst (λ m. AxesAreSmall m (sum_samples command n oks zero_axes zero_axes p).0)
      (omega (arith, grown_lem n 0))
      (sum_samples-AxesAreSmall command n oks 0 zero_axes zero_axes p hp
        (zero_axes-AxesAreSmall (2 ^ 15)) (zero_axes-AxesAreSmall 0))
