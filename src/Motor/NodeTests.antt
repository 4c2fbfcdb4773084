-- ===== src/Motor/NodeTests.antt =====
-- The theorems on the control of the motors at concrete inputs.
use guillemot_core.Prelude.{ℕ, ◌*◌, ◌/◌, ◌≡◌, ◌≢◌, refl, ◌==◌}
use guillemot_core.Prelude.Int.{ℤ, pos, negsuc}
use guillemot_core.Motor.Message.{filter_speed}
use guillemot_core.Motor.Tests.{idle_handler}
use guillemot_core.Motor.Node.{MotorMessage, Node, is_set, motor_message}
use guillemot_core.Motor.Node.Merge.{IsMerge, motor_message-merge}
use guillemot_core.Motor.HighLevel.{
  manual, automatic, Doubles, Control, make_speed, sanitize, manage_forward_thrusters,
}
use guillemot_core.Motor.HighLevel.Command.{forward, by_hand, other_motion, command_callback}
use guillemot_core.Motor.HighLevel.DepthChain.{AgreesDepth}
use guillemot_core.Motor.HighLevel.Chain.{deliver, Agrees, Drives, forward_reaches}

abbrev asks : (mask : ℕ) → (left right : ℤ) → MotorMessage
asks mask left right = record {
  mask = mask;
  left = left;
  right = right;
  front_depth = pos 0;
  rear_depth = pos 0;
  front_turn = pos 0;
  rear_turn = pos 0;
}

abbrev node : Node
node = record {
  drive = idle_handler;
  depth = idle_handler;
  turn = idle_handler;
  speeds = record {
    l_drive = pos 0;
    r_drive = pos 0;
    f_depth = pos 0;
    r_depth = pos 0;
    f_turn = pos 0;
    r_turn = pos 0;
  };
}

-- The left motor, then the right one, and both at once.
sides-IsMerge :
    IsMerge (asks 1 (pos 80) (pos 0)) (asks 2 (pos 0) (pos 90)) (asks 3 (pos 80) (pos 90))
unfolding is_set
sides-IsMerge = record {
  left = record { set_eq = refl; speed_eq = refl };
  right = record { set_eq = refl; speed_eq = refl };
  front_depth = record { set_eq = refl; speed_eq = refl };
  rear_depth = record { set_eq = refl; speed_eq = refl };
  front_turn = record { set_eq = refl; speed_eq = refl };
  rear_turn = record { set_eq = refl; speed_eq = refl };
}

motor_message-merge_example :
    motor_message (motor_message node (asks 1 (pos 80) (pos 0))) (asks 2 (pos 0) (pos 90))
    ≡ motor_message node (asks 3 (pos 80) (pos 90))
motor_message-merge_example =
    motor_message-merge node (asks 1 (pos 80) (pos 0)) (asks 2 (pos 0) (pos 90))
      (asks 3 (pos 80) (pos 90)) sides-IsMerge

-- A double is here a number of hundredths.
abbrev pub scaled : ℕ → ℤ → ℤ
scaled k (pos n) = pos (n * k / 100)
scaled k (negsuc n) = negsuc (n * k / 100)

abbrev pub hundredths : Doubles ℕ
hundredths = record {
  is_small = λ v. v == 0;
  times_195 = λ v. pos (v * 195 / 100);
  target_zero = 1000;
  is_target_zero = λ v. v == 1000;
  left_fwd_mult = λ x. x;
  front_turn_mult = scaled 83;
  rear_turn_mult = scaled 89;
}

-- Forward by a command; strafing by hand, the rear thruster to the left.
abbrev pub control : Control ℕ
control = record {
  forward_mode = automatic;
  yaw_mode = manual;
  pivot_mode = manual;
  strafe_mode = manual;
  turn_mode = manual;
  depth_mode = manual;
  pitch_mode = manual;
  forward_speed = pos 0;
  yaw_speed = pos 0;
  pivot_speed = pos 0;
  strafe_speed = pos 100;
  turn_speed = pos 0;
  depth_speed = pos 0;
  pitch_speed = pos 0;
  forward_command = 50;
  yaw_command = 0;
  pitch_command = 0;
  strafe_command = 0;
  turn_command = 1000;
  depth_command = 1000;
  current_fwd_right = pos 0;
  current_fwd_left = pos 0;
  current_turn_rear = negsuc 99;
  current_turn_front = pos 83;
  current_depth_rear = pos 0;
  current_depth_front = pos 0;
}

-- A node of which the forward and the depth motors stand still.
abbrev still_node : Node
still_node = record node {
  drive = record idle_handler { left_target_speed = pos 0; right_target_speed = pos 0 };
  depth = record idle_handler { left_target_speed = pos 0; right_target_speed = pos 0 };
}

still-Agrees : Agrees control still_node
unfolding filter_speed
still-Agrees = record { l_drive = refl; r_drive = refl; left_target = refl; right_target = refl }

by_hand-known : by_hand ≢ other_motion
by_hand-known = λ e. absurd (cc)

-- Half of the speed by hand: 60 and half of 195.
forward_reaches_example :
    (let (c, es) =
        manage_forward_thrusters hundredths
          (command_callback hundredths forward by_hand 50 control) in
      Agrees c (deliver still_node es)
      × Drives (sanitize (make_speed hundredths 50)) still_node (deliver still_node es))
forward_reaches_example =
    forward_reaches hundredths (λ x. refl) by_hand 50 control still_node by_hand-known still-Agrees

-- The bow is held up by hand.
abbrev pitched : Control ℕ
pitched = record control { pitch_speed = pos 80 }

pitched-AgreesDepth : AgreesDepth pitched still_node
unfolding filter_speed
pitched-AgreesDepth = record {
  f_depth = refl;
  r_depth = refl;
  front_target = refl;
  rear_target = refl;
}
