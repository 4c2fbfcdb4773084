-- ===== src/Motor/Node.antt =====
-- main.cpp of SubMotorController: what a message on /Motor_Control does to the three controllers.
use guillemot_core.Prelude.{ℕ, ◌/◌, ◌%◌, Bool, ◌||◌, ◌==◌, if◌then◌else◌}
use guillemot_core.Prelude.Int.{ℤ}
use guillemot_core.Motor.Handler.{Handler, set_motor_speed}
pub mod Merge

pub record MotorMessage : Type 0 where
  pub mask : ℕ
  pub left : ℤ
  pub right : ℤ
  pub front_depth : ℤ
  pub rear_depth : ℤ
  pub front_turn : ℤ
  pub rear_turn : ℤ

-- The static variables of motorMessage.
pub record Speeds : Type 0 where
  pub l_drive : ℤ
  pub r_drive : ℤ
  pub f_depth : ℤ
  pub r_depth : ℤ
  pub f_turn : ℤ
  pub r_turn : ℤ

pub record Node : Type 0 where
  pub drive : Handler
  pub depth : Handler
  pub turn : Handler
  pub speeds : Speeds

abbrev pub left_drive_bit : ℕ
left_drive_bit = 0x01

abbrev pub right_drive_bit : ℕ
right_drive_bit = 0x02

abbrev pub front_depth_bit : ℕ
front_depth_bit = 0x04

abbrev pub rear_depth_bit : ℕ
rear_depth_bit = 0x08

abbrev pub front_turn_bit : ℕ
front_turn_bit = 0x10

abbrev pub rear_turn_bit : ℕ
rear_turn_bit = 0x20

-- `mask & bit`, for a single bit. With two bits it is the disjunction.
unfoldable pub is_set : (mask bit : ℕ) → Bool
is_set mask bit = mask / bit % 2 == 1

-- One static variable: `mask & bit ? value : current`.
abbrev pub pick : Bool → (value current : ℤ) → ℤ
pick b value current = if b then value else current

unfoldable pub picked : Speeds → MotorMessage → Speeds
picked s m = record {
  l_drive = pick (is_set m.mask left_drive_bit) m.left s.l_drive;
  r_drive = pick (is_set m.mask right_drive_bit) m.right s.r_drive;
  f_depth = pick (is_set m.mask front_depth_bit) m.front_depth s.f_depth;
  r_depth = pick (is_set m.mask rear_depth_bit) m.rear_depth s.r_depth;
  f_turn = pick (is_set m.mask front_turn_bit) m.front_turn s.f_turn;
  r_turn = pick (is_set m.mask rear_turn_bit) m.rear_turn s.r_turn;
}

-- `if (mask & (a | b)) controller->setMotorSpeed(right, left)`.
unfoldable pub set_if : Bool → Bool → Handler → (right left : ℤ) → Handler
set_if a b h right left = if a || b then set_motor_speed h right left else h

unfoldable pub motor_message : Node → MotorMessage → Node
motor_message n m =
    let s = picked n.speeds m in
    record {
      drive =
          set_if (is_set m.mask left_drive_bit) (is_set m.mask right_drive_bit) n.drive s.r_drive
            s.l_drive;
      depth =
          set_if (is_set m.mask front_depth_bit) (is_set m.mask rear_depth_bit) n.depth s.r_depth
            s.f_depth;
      turn =
          set_if (is_set m.mask front_turn_bit) (is_set m.mask rear_turn_bit) n.turn s.r_turn
            s.f_turn;
      speeds = s;
    }
