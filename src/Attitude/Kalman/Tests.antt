-- ===== src/Attitude/Kalman/Tests.antt =====
-- The Kalman filter on integers, and the witnesses of its theorems.
use guillemot_core.Prelude.{◌≡◌, refl}
use guillemot_core.Prelude.Int.{ℤ, pos, negsuc, ◌+ℤ◌, ◌-ℤ◌, ◌*ℤ◌, ltb_ℤ, leb_ℤ, ◌==ℤ◌, abs}
use guillemot_core.Prelude.Float.{Floats}
use guillemot_core.Prelude.Ring.Integers.{integers, integers-IsRing, opposite_ℤ}
use guillemot_core.Attitude.Kalman.{
  Vector, Quaternion, Triangle, square_sum, quaternion_square_sum, turn_quaternion,
  propagate_covariance, rotate, covariance_times, measurement_covariance, determinant,
}
use guillemot_core.Attitude.Kalman.Matrix.{symmetric}
use guillemot_core.Attitude.Kalman.Filter.{Maths, Filter, normalize, kalman_update}
use guillemot_core.Attitude.Kalman.Propagate.{propagated, propagate_covariance_lem}
use guillemot_core.Attitude.Kalman.Turn.{as_quaternion, turn_quaternion_lem}
use guillemot_core.Attitude.Kalman.Update.{
  IsInverse, UpdatesBy, predicted, gain_of, kalman_update_lem,
}

-- Integers, where nothing is divided but by 1 or -1, and every small part is 1.
abbrev units : Floats ℤ
units = record {
  lit = λ n k. n;
  of_int = λ n. n;
  to_float = λ x. x;
  add = λ x y. x +ℤ y;
  sub = λ x y. x -ℤ y;
  mul = λ x y. x *ℤ y;
  div = λ x y. x *ℤ y;
  fmod = λ x y. x;
  neg = opposite_ℤ;
  abs = abs;
  lt = ltb_ℤ;
  le = leb_ℤ;
  eq = λ x y. x ==ℤ y;
}

-- Every vector here has length 1.
abbrev maths : Maths ℤ
maths = record {
  sqrt = λ x. pos 1;
  sin = λ x. x;
  cos = λ x. pos 1;
  asin = λ x. x;
  atan2 = λ y x. y;
  sixth_place = λ x. pos 7;
}

abbrev spread : Triangle ℤ
spread = record { p0 = pos 1; p1 = pos 3; p2 = pos 0; p3 = pos 4; p4 = pos 0; p5 = pos 0 }

abbrev level : Quaternion ℤ
level = record { q0 = pos 0; q1 = pos 0; q2 = pos 0; q3 = pos 1 }

abbrev rates : Vector ℤ
rates = record { v0 = pos 1; v1 = negsuc 1; v2 = pos 3 }

abbrev filter : Filter ℤ
filter = record { w = rates; q = level; p = spread; yaw = pos 0; pitch = pos 0; roll = pos 0 }

abbrev down : Vector ℤ
down = record { v0 = pos 0; v1 = pos 0; v2 = pos 1 }

-- The covariance of the measurement has determinant 1.
determinant_one :
    IsInverse units
      (determinant integers (kalman_update units maths down down (pos 1) filter).pr)
      (pos 1)
unfolding kalman_update normalize square_sum rotate covariance_times measurement_covariance
    determinant opposite_ℤ ◌+ℤ◌ ◌-ℤ◌ ◌*ℤ◌
determinant_one = record { inverse_lem = refl; div_lem = λ x. refl }

kalman_update_lem_example :
    UpdatesBy units maths
      (pos 1)
      (predicted units maths integers-IsRing down filter)
      (normalize units maths down)
      filter
      (kalman_update units maths down down (pos 1) filter)
      (gain_of units maths integers-IsRing down (pos 1) filter)
kalman_update_lem_example =
    kalman_update_lem units maths integers-IsRing down down (pos 1) filter (pos 1) determinant_one

propagate_covariance_lem_example :
    symmetric integers (propagate_covariance integers (pos 2) rates rates spread)
    ≡ propagated integers (pos 2) rates rates spread
propagate_covariance_lem_example =
    propagate_covariance_lem integers integers-IsRing (pos 2) rates rates spread

abbrev tilted : Quaternion ℤ
tilted = record { q0 = pos 1; q1 = pos 2; q2 = negsuc 0; q3 = pos 2 }

turn_quaternion_lem_example :
    (rotate integers (turn_quaternion integers (pos 2) rates tilted) down
      ≡ rotate integers (as_quaternion (pos 2) rates) (rotate integers tilted down))
    × (quaternion_square_sum integers (turn_quaternion integers (pos 2) rates tilted)
        ≡ quaternion_square_sum integers (as_quaternion (pos 2) rates)
          *ℤ quaternion_square_sum integers tilted)
turn_quaternion_lem_example = turn_quaternion_lem integers integers-IsRing (pos 2) rates tilted down

-- Two turns of length 18 and 10 make one of length 180.
lengths : quaternion_square_sum integers (turn_quaternion integers (pos 2) rates tilted) ≡ pos 180
unfolding quaternion_square_sum turn_quaternion ◌+ℤ◌ ◌-ℤ◌ ◌*ℤ◌
lengths = refl
