-- ===== src/Attitude/Loop.antt =====
-- `run` of SubAttitudeResolver.cpp: the readings at rest, and the loop that samples, filters and
-- publishes.
use guillemot_core.Prelude.{
  ℕ, zero, suc, ◌+◌, ◌%◌, ◌==◌, Bool, true, false, if◌then◌else◌, Option, none, some, List, [], ◌∷◌,
  ◌++◌,
}
use guillemot_core.Prelude.Int.{ℤ, pos, negsuc}
use guillemot_core.Prelude.Float.{Floats}
use guillemot_core.Attitude.{
  Port, Axes, zero_axes, sample_gyro, sample_accel, Means, calculate_gyro_bias,
  calculate_expected_accel, update_omega,
}
use guillemot_core.Attitude.Kalman.{Vector, Triangle}
use guillemot_core.Attitude.Kalman.Filter.{Maths, Filter, kalman_propagate, kalman_update}
pub mod Ends
pub mod Tests

-- The members and the local variables of `run`.
pub record Resolver (F : Type 0) : Type 0 where
  pub filter : Filter F
  pub bias : Means F
  pub expected_accel : Vector F
  pub pr_accel : Triangle F
  pub residual_accel : Vector F
  pub raw_gyro : Axes
  pub accel_readings : Axes
  pub count : ℕ

-- A message on IMU_Attitude.
pub record AttitudeMsg (F : Type 0) : Type 0 where
  pub yaw : F
  pub pitch : F
  pub roll : F

module _ {F : Type 0} (f : Floats F) (m : Maths F) (conversion pi : F) where
  open f use {lit, of_int, mul, div}

  abbrev vector_of : Means F → Vector F
  vector_of v = record { v0 = v.x; v1 = v.y; v2 = v.z }

  abbrev doubles_of : Axes → Vector F
  doubles_of v = record { v0 = of_int v.x; v1 = of_int v.y; v2 = of_int v.z }

  -- From radians to degrees, the other way round.
  unfoldable pub degrees : F → F
  degrees x = div (mul (lit (negsuc 0) 0) (mul x (lit (pos 180) 0))) pi

  unfoldable pub attitude_of : Filter F → AttitudeMsg F
  attitude_of s = record { yaw = degrees s.yaw; pitch = degrees s.pitch; roll = degrees s.roll }

  -- The accelerometer corrects the filter; its expected reading is normalised in place.
  unfoldable pub use_accel : Axes → Resolver F → Resolver F
  use_accel readings s =
      let u = kalman_update f m s.expected_accel (doubles_of readings) (lit (pos 5) 5) s.filter in
      record s {
        filter = u.filter;
        expected_accel = u.y_i;
        pr_accel = u.pr;
        residual_accel = u.residual;
        accel_readings = readings;
      }

  -- Every twentieth round.
  unfoldable pub correct_by_accel : ℕ → Resolver F → Port → Resolver F × ℕ × Port
  correct_by_accel oks s p =
      if s.count % 20 == 0
      then (let (readings, oks', p') = sample_accel oks s.accel_readings p in
          (use_accel readings s, oks', p'))
      else (s, oks, p)

  unfoldable pub read_gyro : ℕ → Resolver F → Port → Resolver F × ℕ × Port
  read_gyro oks s p =
      let (raw, oks', p') = sample_gyro oks s.raw_gyro p in
      (
        record s {
          raw_gyro = raw;
          filter = record (s.filter) { w = vector_of (update_omega f conversion pi raw s.bias) };
        },
        oks',
        p',
      )

  -- Every fifth round.
  unfoldable pub publish_attitude : Resolver F → List (AttitudeMsg F)
  publish_attitude s = if s.count % 5 == 0 then attitude_of s.filter ∷ [] else []

  -- The rest of a round, when all samples are in.
  unfoldable pub finish_round : Resolver F → Resolver F × List (AttitudeMsg F)
  finish_round s =
      let s' = record s { filter = kalman_propagate f m s.filter } in
      (record s' { count = s.count + 1 }, publish_attitude s')

  -- One round of the loop, after its test of ros::ok().
  unfoldable pub resolver_round :
      ℕ → Resolver F → Port → Resolver F × ℕ × Port × List (AttitudeMsg F)
  resolver_round oks s p =
      let (s1, oks1, p1) = read_gyro oks s p in
      let (s2, oks2, p2) = correct_by_accel oks1 s1 p1 in
      let (s3, msgs) = finish_round s2 in (s3, oks2, p2, msgs)

  -- `while (ros::ok())`, with at most `rounds` rounds; none if they are not enough.
  unfoldable pub resolver_loop :
      (rounds oks : ℕ) → Resolver F → Port → Option (Resolver F × Port × List (AttitudeMsg F))
  resolver_loop rounds zero s p = some (s, p, [])
  resolver_loop zero (suc oks) s p = none
  resolver_loop (suc rounds) (suc oks) s p =
      let (s1, oks1, p1, msgs) = resolver_round oks s p in
      elim (resolver_loop rounds oks1 s1 p1) [
        | none ↦ none
        | some (s2, p2, more) ↦ some (s2, p2, msgs ++ more)
      ]

  -- `run`, on a port that is open, from what the constructor made.
  unfoldable pub run_resolver :
      (rounds oks : ℕ) (accel_readings : Axes)
      → Resolver F
      → Port
      → Option (Resolver F × Port × List (AttitudeMsg F))
  run_resolver rounds oks accel_readings s p =
      let (bias, oks1, p1) = calculate_gyro_bias f oks p in
      let (expected, oks2, p2) = calculate_expected_accel f oks1 p1 in
      resolver_loop rounds oks2
        (record s {
          bias = bias;
          expected_accel = vector_of expected;
          raw_gyro = zero_axes;
          accel_readings = accel_readings;
          count = 0;
        })
        p2
