-- ===== src/Depth/Tests.antt =====
-- The depth controller on numbers in millionths, and the witness of its theorem.
use guillemot_core.Prelude.{ℕ, ◌≡◌, refl, true, false, List, [], ◌∷◌}
use guillemot_core.Prelude.Int.{ℤ, pos, negsuc, ◌+ℤ◌, ◌-ℤ◌, ◌*ℤ◌, abs}
use guillemot_core.Depth.{
  dead_zone, proportional, elapsed, integrate, limit_integrator, surface_reset, hold, regulate,
  reset, choose_speed, limit_speed, current_depth_callback, target_depth_callback, enabled_callback,
}
use guillemot_core.Prelude.Millionths.{negate, quot, millionths, millionths_laws}
use guillemot_core.Prelude.Float.{IsWithin}
use guillemot_core.Prelude.Node.{All, run}
use guillemot_core.Motor.Time.{Time}
use guillemot_core.Depth.{
  Gains, DepthController, Event, target_heard, enabled_heard, depth_heard, handle,
}
use guillemot_core.Depth.Bounds.{LimitLaws, IsLimited, run-IsLimited}

abbrev gains : Gains ℤ
gains = record { k_i = pos 15_000; k_p = pos 500_000; i_max = pos 1_000_000 }

gains_limits : LimitLaws millionths gains
unfolding abs negate ◌*ℤ◌ ◌-ℤ◌ quot
gains_limits = record { zero_within = refl; limit_within = refl; neg_within = refl; one_pos = refl }

abbrev start : DepthController ℤ
start = record {
  target_depth = pos 0;
  y_old = pos 0;
  e_old = pos 0;
  t_old = record { sec = 0; usec = 0 };
  mode = true;
}

abbrev at : ℕ → ℕ → Time
at sec usec = record { sec = sec; usec = usec }

-- A dive to 2 m: from the surface, then near the target, then too deep, then off.
abbrev dive : List (Event ℤ)
dive =
    target_heard (pos 2_000_000)
    ∷ depth_heard (pos 300_000) (at 10 0) (at 10 5)
    ∷ depth_heard (pos 1_900_000) (at 20 0) (at 20 5)
    ∷ depth_heard (pos 2_100_000) (at 21 0) (at 21 5)
    ∷ depth_heard (pos 4_000_000) (at 22 0) (at 22 5)
    ∷ enabled_heard true false
    ∷ depth_heard (pos 4_000_000) (at 23 0) (at 23 5)
    ∷ []

start-IsLimited : IsLimited millionths gains start
unfolding abs
start-IsLimited = record { limited = refl }

run-IsLimited_example :
    IsLimited millionths gains (run (handle millionths gains) dive start).0
    × All (IsWithin millionths (pos 1_000_000)) (run (handle millionths gains) dive start).1
unfolding quot ◌*ℤ◌
run-IsLimited_example =
    run-IsLimited millionths millionths_laws gains gains_limits dive start start-IsLimited

-- The speeds of the dive: down, then slower, and full speed the other way from too deep.
dive_speeds :
    (run (handle millionths gains) dive start).1
    ≡ pos 850_000 ∷ pos 185_000 ∷ pos 132_500 ∷ negsuc 999_999 ∷ []
unfolding quot ◌*ℤ◌ ◌+ℤ◌ ◌-ℤ◌ negate abs run handle dead_zone proportional elapsed integrate
    limit_integrator surface_reset hold regulate reset choose_speed limit_speed
    current_depth_callback target_depth_callback enabled_callback
dive_speeds = refl
