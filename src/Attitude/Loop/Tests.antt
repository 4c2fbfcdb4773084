-- ===== src/Attitude/Loop/Tests.antt =====
-- Rounds of the attitude resolver, and the witness of its theorem.
use guillemot_core.Prelude.{arith, some, [], ◌∷◌}
use guillemot_core.Prelude.Int.{ℤ, pos}
use guillemot_core.Prelude.Millionths.{millionths}
use guillemot_core.Attitude.{Port, zero_axes, first_sync, second_sync, third_sync}
use guillemot_core.Attitude.Kalman.{Vector, Triangle}
use guillemot_core.Attitude.Kalman.Filter.{Maths}
use guillemot_core.Attitude.Loop.{Resolver, resolver_loop}
use guillemot_core.Attitude.Loop.Ends.{Ended, resolver_loop_ends}

abbrev maths : Maths ℤ
maths = record {
  sqrt = λ x. pos 1_000_000;
  sin = λ x. x;
  cos = λ x. pos 1_000_000;
  asin = λ x. x;
  atan2 = λ y x. y;
  sixth_place = λ x. x;
}

abbrev zeros : Vector ℤ
zeros = record { v0 = pos 0; v1 = pos 0; v2 = pos 0 }

abbrev no_spread : Triangle ℤ
no_spread = record { p0 = pos 305; p1 = pos 0; p2 = pos 0; p3 = pos 305; p4 = pos 0; p5 = pos 305 }

abbrev resolver : Resolver ℤ
resolver = record {
  filter = record {
    w = zeros;
    q = record { q0 = pos 0; q1 = pos 0; q2 = pos 0; q3 = pos 1_000_000 };
    p = no_spread;
    yaw = pos 0;
    pitch = pos 0;
    roll = pos 0;
  };
  bias = record { x = pos 0; y = pos 0; z = pos 0 };
  expected_accel = record { v0 = pos 0; v1 = pos 0; v2 = pos 1_000_000 };
  pr_accel = no_spread;
  residual_accel = zeros;
  raw_gyro = zero_axes;
  accel_readings = zero_axes;
  count = 0;
}

-- One answer to the gyro's command, and then silence.
abbrev port : Port
port = record {
  incoming =
      some first_sync
      ∷ some second_sync
      ∷ some third_sync
      ∷ some 1
      ∷ some 0
      ∷ some 2
      ∷ some 0
      ∷ some 3
      ∷ some 0
      ∷ [];
  written = [];
}

resolver_loop_ends_example :
    Ended millionths maths
      (pos 7_629)
      (pos 3_141_593)
      resolver
      (resolver_loop millionths maths (pos 7_629) (pos 3_141_593) 30 25 resolver port)
resolver_loop_ends_example =
    resolver_loop_ends millionths maths (pos 7_629) (pos 3_141_593) 30 25 resolver port
      (omega arith)
