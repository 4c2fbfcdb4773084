-- ===== src/Gate/Tests.antt =====
-- The gate task on numbers in millionths, and the witnesses of its theorems.
use guillemot_core.Prelude.{◌≡◌, refl, true, false, List, [], ◌∷◌}
use guillemot_core.Prelude.Int.{ℤ, pos, negsuc, abs, ltb_ℤ, ◌*ℤ◌, ◌-ℤ◌, ◌+ℤ◌, ◌==ℤ◌}
use guillemot_core.Prelude.Millionths.{negate, quot, millionths}
use guillemot_core.Prelude.Node.{All, run}
use guillemot_core.Motor.HighLevel.{Doubles, Control, manual}
use guillemot_core.Gate.{GateTask, path_task_success, Event, module_enabled, gate_seen, handle}
use guillemot_core.Gate.Outcome.{
  deliver, IsSuccess, goes_ahead, reports, answers, expected, steers_nothing, answers_each,
}

abbrev multipliers : Doubles ℤ
multipliers = record {
  is_small = λ v. ltb_ℤ (abs v) (pos 10_000);
  times_195 = λ v. v;
  target_zero = pos 0;
  is_target_zero = λ v. v ==ℤ pos 0;
  left_fwd_mult = λ v. v;
  front_turn_mult = λ v. v;
  rear_turn_mult = λ v. v;
}

abbrev control : Control ℤ
control = record {
  forward_mode = manual;
  yaw_mode = manual;
  pivot_mode = manual;
  strafe_mode = manual;
  turn_mode = manual;
  depth_mode = manual;
  pitch_mode = manual;
  forward_speed = pos 0;
  yaw_speed = pos 0;
  pivot_speed = pos 0;
  strafe_speed = pos 100;
  turn_speed = pos 0;
  depth_speed = pos 0;
  pitch_speed = pos 0;
  forward_command = pos 50;
  yaw_command = pos 0;
  pitch_command = pos 0;
  strafe_command = pos 0;
  turn_command = pos 1000;
  depth_command = pos 1000;
  current_fwd_right = pos 0;
  current_fwd_left = pos 0;
  current_turn_rear = negsuc 99;
  current_turn_front = pos 83;
  current_depth_rear = pos 0;
  current_depth_front = pos 0;
}

-- Tangents of small angles.
abbrev tangent : ℤ → ℤ
tangent a = a

abbrev pi : ℤ
pi = pos 3_141_593

abbrev task : GateTask
task = record { is_enabled = true; identified_center = false; have_both_legs = false }

-- The left leg of the gate, another one, and one at the edge, twice.
abbrev sights : List Event
sights =
    gate_seen (record { id = pos 0; center_x = negsuc 99; width = pos 20 })
    ∷ gate_seen (record { id = pos 1; center_x = pos 90; width = pos 20 })
    ∷ module_enabled true true
    ∷ gate_seen (record { id = pos 0; center_x = pos 225; width = pos 30 })
    ∷ gate_seen (record { id = pos 0; center_x = pos 226; width = pos 30 })
    ∷ []

steers_nothing_example :
    (deliver multipliers (run (handle millionths tangent pi) sights task).1 control ≡ control)
    × All (IsSuccess multipliers) (run (handle millionths tangent pi) sights task).1
steers_nothing_example = steers_nothing millionths tangent pi multipliers sights task control

-- It goes ahead once, and reports at the edge, twice.
expected-sights :
    expected millionths tangent pi true sights
    ≡ goes_ahead ∷ reports path_task_success ∷ reports path_task_success ∷ []
unfolding negate quot ◌*ℤ◌ ◌-ℤ◌ ◌+ℤ◌
expected-sights = refl

answers_each_example :
    answers (run (handle millionths tangent pi) sights task).1
    ≡ expected millionths tangent pi true sights
answers_each_example = answers_each millionths tangent pi sights task
