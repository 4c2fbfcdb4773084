-- ===== src/Attitude.antt =====
-- SubAttitudeResolver.cpp: how it samples the gyro, the accelerometer and the magnetometer over the
-- serial line, and what it takes for their readings at rest.
use guillemot_core.Prelude.{
  ℕ, suc, zero, ◌+◌, ◌*◌, ◌==◌, Bool, true, false, if◌then◌else◌, Option, none, some, List, [], ◌∷◌,
  ◌++◌,
}
use guillemot_core.Prelude.Int.{ℤ, pos, ◌+ℤ◌, to_short}
use guillemot_core.Prelude.Float.{Floats}
pub mod Answer
pub mod Rest
pub mod Sums
pub mod Kalman
pub mod Loop
pub mod Tests

-- The serial line: what each read of one byte will give (none: not one byte within the time), and
-- the bytes that were written.
pub record Port : Type 0 where
  pub incoming : List (Option ℕ)
  pub written : List ℕ

unfoldable pub read : Port → Option ℕ × Port
read p = elim p.incoming [ [] ↦ (none, p) | r ∷ rs ↦ (r, record p { incoming = rs }) ]

abbrev pub write_char : ℕ → Port → Port
write_char c p = record p { written = p.written ++ c ∷ [] }

abbrev pub first_sync : ℕ
first_sync = 241

abbrev pub second_sync : ℕ
second_sync = 245

abbrev pub third_sync : ℕ
third_sync = 249

-- Reads one byte: is it `b`?
unfoldable pub expect : ℕ → Port → Bool × Port
expect b p = let (r, p') = read p in (elim r [ none ↦ false | some c ↦ c == b ], p')

-- One round of the loop of syncSerial.
unfoldable pub attempt : (command : ℕ) → Port → Bool × Port
attempt command p =
    let (first, p1) = expect first_sync (write_char command p) in
    if first
    then (let (second, p2) = expect second_sync p1 in
        if second then expect third_sync p2 else (false, p2))
    else (false, p1)

-- `oks` is how often ros::ok() will still be true.
unfoldable pub sync_serial : (command oks : ℕ) → Port → Bool × ℕ × Port
sync_serial command zero p = (false, 0, p)
sync_serial command (suc oks) p =
    let (synched, p') = attempt command p in
    elim synched [ true ↦ (true, oks, p') | false ↦ sync_serial command oks p' ]

-- The loop that fills the buffer, with `left` bytes to come.
unfoldable pub read_bytes : (oks left : ℕ) → Port → List ℕ × ℕ × Port
read_bytes oks zero p = ([], oks, p)
read_bytes zero (suc left) p = ([], 0, p)
read_bytes (suc oks) (suc left) p =
    let (r, p') = read p in
    elim r [
      | none ↦ read_bytes oks (suc left) p'
      | some b ↦ let (bs, oks', p'') = read_bytes oks left p' in (b ∷ bs, oks', p'')
    ]

pub record Axes : Type 0 where
  pub x : ℤ
  pub y : ℤ
  pub z : ℤ

-- Two bytes copied over a short, on a little-endian host.
abbrev pub short_of : ℕ → ℕ → ℤ
short_of b0 b1 = to_short (b0 + b1 * 256)

-- The readings, if six bytes were read.
unfoldable pub store : List ℕ → Axes → Axes
store (b0 ∷ b1 ∷ b2 ∷ b3 ∷ b4 ∷ b5 ∷ []) old = record {
  x = short_of b0 b1;
  y = short_of b2 b3;
  z = short_of b4 b5;
}
store bs old = old

-- sampleGyro, sampleAccel and sampleMag, which differ in the command.
unfoldable pub sample : (command oks : ℕ) → Axes → Port → Axes × ℕ × Port
sample command oks old p =
    let (synched, oks1, p1) = sync_serial command oks p in
    if synched
    then (let (bs, oks2, p2) = read_bytes oks1 6 p1 in (store bs old, oks2, p2))
    else (old, oks1, p1)

abbrev pub sample_gyro : ℕ → Axes → Port → Axes × ℕ × Port
sample_gyro = sample b'G'

abbrev pub sample_accel : ℕ → Axes → Port → Axes × ℕ × Port
sample_accel = sample b'A'

abbrev pub sample_mag : ℕ → Axes → Port → Axes × ℕ × Port
sample_mag = sample b'M'

abbrev pub zero_axes : Axes
zero_axes = record { x = pos 0; y = pos 0; z = pos 0 }

abbrev pub add_axes : Axes → Axes → Axes
add_axes a b = record { x = a.x +ℤ b.x; y = a.y +ℤ b.y; z = a.z +ℤ b.z }

-- The loops over `left` samples that sum them up. The sums are doubles, which are exact here.
unfoldable pub sum_samples : (command left oks : ℕ) (raw sums : Axes) → Port → Axes × ℕ × Port
sum_samples command zero oks raw sums p = (sums, oks, p)
sum_samples command (suc left) oks raw sums p =
    let (raw', oks', p') = sample command oks raw p in
    sum_samples command left oks' raw' (add_axes sums raw') p'

pub record Means (F : Type 0) : Type 0 where
  pub x : F
  pub y : F
  pub z : F

module _ {F : Type 0} (f : Floats F) where
  unfoldable pub mean_of : ℕ → Axes → Means F
  mean_of n sums =
      let mean = λ (s : ℤ). f.div (f.of_int s) (f.lit (pos n) 0) in
      record { x = mean sums.x; y = mean sums.y; z = mean sums.z }

  unfoldable pub mean_samples : (command n oks : ℕ) → Port → Means F × ℕ × Port
  mean_samples command n oks p =
      let (sums, oks', p') = sum_samples command n oks zero_axes zero_axes p in
      (mean_of n sums, oks', p')

  abbrev pub calculate_gyro_bias : ℕ → Port → Means F × ℕ × Port
  calculate_gyro_bias = mean_samples b'G' 500

  abbrev pub calculate_expected_accel : ℕ → Port → Means F × ℕ × Port
  calculate_expected_accel = mean_samples b'A' 100

  abbrev pub calculate_expected_mag : ℕ → Port → Means F × ℕ × Port
  calculate_expected_mag = mean_samples b'M' 5

  -- Degrees a second to radians, without the bias. `conversion` and `pi` are the two constants.
  unfoldable pub update_omega : (conversion pi : F) (raw : Axes) (bias : Means F) → Means F
  update_omega conversion pi raw bias =
      let rate = λ (r : ℤ) (b : F).
        f.mul (f.mul (f.sub (f.of_int r) b) conversion) (f.div pi (f.lit (pos 180) 0)) in
      record { x = rate raw.x bias.x; y = rate raw.y bias.y; z = rate raw.z bias.z }
