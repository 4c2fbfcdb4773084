-- ===== src/Heading/Tests.antt =====
-- The heading controller on numbers in millionths, and the witnesses of its theorems.
use guillemot_core.Prelude.{◌≡◌, refl, true, false, List, [], ◌∷◌}
use guillemot_core.Prelude.Int.{ℤ, pos, abs, ◌+ℤ◌, ◌-ℤ◌, ◌*ℤ◌}
use guillemot_core.Prelude.Millionths.{negate, quot, millionths, millionths_laws}
use guillemot_core.Prelude.Node.{All, run}
use guillemot_core.Heading.{
  Heading, turn_speed, target_angle, Event, heading_set, attitude_read, motion_heard,
  enabled_callback, target_heading_callback, read_forward_status, dead_zone, limit_speed, steer,
  heading_callback, handle,
}
use guillemot_core.Heading.Bounds.{
  TurnLaws, IsGentle, IsStop, NoStart, quiet_while_still, turns_within,
}

turn_laws : TurnLaws millionths
unfolding negate quot ◌*ℤ◌
turn_laws = record { max_pos = refl; zero_not_above = refl; zero_not_below = refl }

abbrev start : Heading ℤ
start = record {
  mode = true;
  target_heading = pos 0;
  target_yaw = pos 0;
  curr_yaw = pos 0;
  error = pos 0;
  is_moving = false;
}

-- A turn by 90 degrees while the vehicle moves, and a stop.
abbrev voyage : List (Event ℤ)
voyage =
    motion_heard true true (pos 400_000)
    ∷ heading_set (pos 90_000_000)
    ∷ attitude_read (pos 30_000_000)
    ∷ attitude_read (pos 88_000_000)
    ∷ attitude_read (pos 90_010_000)
    ∷ motion_heard true true (pos 0)
    ∷ attitude_read (pos 100_000_000)
    ∷ []

voyage_turns :
    (run (handle millionths) voyage start).1
    ≡ turn_speed (pos 250_000)
      ∷ target_angle (pos 60_000_000)
      ∷ turn_speed (pos 70_000)
      ∷ target_angle (pos 2_000_000)
      ∷ turn_speed (pos 0)
      ∷ target_angle (pos 0)
      ∷ turn_speed (pos 0)
      ∷ []
unfolding negate quot abs ◌+ℤ◌ ◌-ℤ◌ ◌*ℤ◌ run handle enabled_callback target_heading_callback
    read_forward_status dead_zone limit_speed steer heading_callback
voyage_turns = refl

turns_within_example : All (IsGentle millionths) (run (handle millionths) voyage start).1
turns_within_example = turns_within millionths millionths_laws turn_laws voyage start

-- What is heard while the vehicle stands: a target, a weak command and an attitude.
abbrev idle : List (Event ℤ)
idle =
    heading_set (pos 90_000_000)
    ∷ motion_heard true true (pos 30_000)
    ∷ attitude_read (pos 30_000_000)
    ∷ []

idle-NoStart : All (NoStart millionths) idle
unfolding quot abs ◌*ℤ◌
idle-NoStart = (tt, (refl, (tt, tt)))

quiet_while_still_example :
    (run (handle millionths) idle start).0.is_moving ≡ false
    × All (IsStop millionths) (run (handle millionths) idle start).1
quiet_while_still_example = quiet_while_still millionths idle start idle-NoStart refl
