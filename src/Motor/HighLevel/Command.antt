-- ===== src/Motor/HighLevel/Command.antt =====
-- commandCallback of HighLevelControl.cpp. The two strings of a message are what they are compared
-- with, or something else.
use guillemot_core.Motor.HighLevel.{manual, automatic, Doubles, Control, make_speed}

pub data Direction : Type 0 where
  forward turn strafe depth yaw pitch pivot other_direction : Direction

pub data MotionType : Type 0 where
  command by_hand other_motion : MotionType

module _ {ℓ} {Value : Type ℓ} (d : Doubles Value) where
  -- A pivot by a command, and everything else that is not known, is only printed.
  unfoldable pub command_callback :
      Direction → MotionType → (value : Value) → Control Value → Control Value
  command_callback forward command value c = record c {
    forward_mode = automatic;
    forward_command = value;
  }
  command_callback forward by_hand value c = record c {
    forward_mode = manual;
    forward_speed = make_speed d value;
  }
  command_callback turn command value c = record c { turn_mode = automatic; turn_command = value }
  command_callback turn by_hand value c = record c {
    turn_mode = manual;
    turn_speed = make_speed d value;
  }
  command_callback strafe command value c = record c {
    strafe_mode = automatic;
    strafe_command = value;
  }
  command_callback strafe by_hand value c = record c {
    strafe_mode = manual;
    strafe_speed = make_speed d value;
  }
  command_callback depth command value c = record c {
    depth_mode = automatic;
    depth_command = value;
  }
  command_callback depth by_hand value c = record c {
    depth_mode = manual;
    depth_speed = make_speed d value;
  }
  command_callback yaw command value c = record c { yaw_mode = automatic; yaw_command = value }
  command_callback yaw by_hand value c = record c {
    yaw_mode = manual;
    yaw_speed = make_speed d value;
  }
  command_callback pitch command value c = record c {
    pitch_mode = automatic;
    pitch_command = value;
  }
  command_callback pitch by_hand value c = record c {
    pitch_mode = manual;
    pitch_speed = make_speed d value;
  }
  command_callback pivot by_hand value c = record c {
    pivot_mode = manual;
    pivot_speed = make_speed d value;
  }
  command_callback _ _ value c = c
