-- ===== src/Motor/HighLevel.antt =====
-- HighLevelControl.cpp of SubMotorController: the thruster managers.
-- `int` does not overflow. Of the arithmetic on doubles the model takes as arguments what it gives as
-- `int` or as a test: the product of makeSpeed, and those with the multipliers.
use guillemot_core.Prelude.{
  ℕ, zero, suc, List, [], ◌∷◌, ◌++◌, Bool, true, false, not, ◌&&◌, ◌||◌, if◌then◌else◌, ◌+◌, ◌-◌,
}
use guillemot_core.Prelude.Int.{ℤ, pos, negsuc, ◌+ℤ◌, ◌-ℤ◌, ltb_ℤ, leb_ℤ, ◌==ℤ◌}
use guillemot_core.Motor.Node.{
  MotorMessage, left_drive_bit, right_drive_bit, front_depth_bit, rear_depth_bit, front_turn_bit,
  rear_turn_bit,
}
pub mod Thrust
pub mod Command
pub mod Chain
pub mod DepthChain

pub data Mode : Type 0 where
  manual automatic : Mode

abbrev pub is_automatic : Mode → Bool
is_automatic manual = false
is_automatic automatic = true

-- What the doubles do. `Value` is a double.
pub record Doubles {ℓ} (Value : Type ℓ) : Type ℓ where
  -- `fabs(percent) < 0.01`, and `percent * (255 - 60)` as an `int`
  pub is_small : Value → Bool
  pub times_195 : Value → ℤ
  pub target_zero : Value
  pub is_target_zero : Value → Bool
  pub left_fwd_mult : ℤ → ℤ
  pub front_turn_mult : ℤ → ℤ
  pub rear_turn_mult : ℤ → ℤ

-- The globals that the managers use.
pub record Control {ℓ} (Value : Type ℓ) : Type ℓ where
  pub forward_mode : Mode
  pub yaw_mode : Mode
  pub pivot_mode : Mode
  pub strafe_mode : Mode
  pub turn_mode : Mode
  pub depth_mode : Mode
  pub pitch_mode : Mode
  pub forward_speed : ℤ
  pub yaw_speed : ℤ
  pub pivot_speed : ℤ
  pub strafe_speed : ℤ
  pub turn_speed : ℤ
  pub depth_speed : ℤ
  pub pitch_speed : ℤ
  pub forward_command : Value
  pub yaw_command : Value
  pub pitch_command : Value
  pub strafe_command : Value
  pub turn_command : Value
  pub depth_command : Value
  pub current_fwd_right : ℤ
  pub current_fwd_left : ℤ
  pub current_turn_rear : ℤ
  pub current_turn_front : ℤ
  pub current_depth_rear : ℤ
  pub current_depth_front : ℤ

-- What a manager publishes.
pub data Output {ℓ} (Value : Type ℓ) : Type ℓ where
  motor_control : MotorMessage → Output Value
  target_depth target_heading : Value → Output Value

-- A percentage as a speed: 0, or at least 60 either way.
unfoldable pub make_speed {ℓ} : {Value : Type ℓ} → Doubles Value → Value → ℤ
unfolding ◌+ℤ◌ ◌-ℤ◌
make_speed d percent =
    let p = d.times_195 percent in
    if d.is_small percent then pos 0 else if ltb_ℤ (pos 0) p then p +ℤ pos 60 else p -ℤ pos 60

-- Speeds below 60 are 0, those beyond 255 are 255.
unfoldable pub sanitize : ℤ → ℤ
sanitize speed =
    let quiet =
      if leb_ℤ (pos 0) speed && ltb_ℤ speed (pos 60)
      then pos 0
      else if ltb_ℤ speed (pos 0) && ltb_ℤ (negsuc 59) speed
      then pos 0
      else speed in
    if ltb_ℤ (pos 255) quiet
    then pos 255
    else if ltb_ℤ quiet (negsuc 254)
    then negsuc 254
    else quiet

unfoldable pub send_motor_message : (mask : ℕ) → (fr fl tr tf dr df : ℤ) → MotorMessage
send_motor_message mask fr fl tr tf dr df = record {
  mask = mask;
  left = fl;
  right = fr;
  front_depth = df;
  rear_depth = dr;
  front_turn = tf;
  rear_turn = tr;
}

module _ {ℓ} {Value : Type ℓ} (d : Doubles Value) where
  unfoldable pub calc_turn : Control Value → Control Value × List (Output Value)
  calc_turn c =
      if is_automatic c.turn_mode && not (d.is_target_zero c.turn_command)
      then (record c { turn_command = d.target_zero }, target_heading c.turn_command ∷ [])
      else (c, [])

  unfoldable pub calc_strafe : Control Value → Control Value
  calc_strafe c =
      if is_automatic c.strafe_mode
      then record c { strafe_speed = make_speed d c.strafe_command }
      else c

  unfoldable pub calc_depth : Control Value → Control Value × List (Output Value)
  calc_depth c =
      if is_automatic c.depth_mode && not (d.is_target_zero c.depth_command)
      then (record c { depth_command = d.target_zero }, target_depth c.depth_command ∷ [])
      else (c, [])

  unfoldable pub calc_pitch : Control Value → Control Value
  calc_pitch c = if is_automatic c.pitch_mode then record c { pitch_speed = pos 0 } else c

  -- The forward speed, as manageForwardThrusters sets it.
  abbrev pub with_forward_speed : Control Value → Control Value
  with_forward_speed c = record c {
    forward_speed =
        sanitize
          (if is_automatic c.forward_mode then make_speed d c.forward_command else c.forward_speed);
  }

  abbrev pub send_forward : Control Value → Control Value × List (Output Value)
  send_forward c =
      if not (c.current_fwd_left ==ℤ c.forward_speed)
        || not (c.current_fwd_right ==ℤ c.forward_speed)
      then (
        record c {
          current_fwd_left = d.left_fwd_mult c.forward_speed;
          current_fwd_right = c.forward_speed;
        },
        motor_control (
              send_motor_message 0x03 c.forward_speed (d.left_fwd_mult c.forward_speed) (pos 0)
                (pos 0) (pos 0) (pos 0))
            ∷ [],
      )
      else (c, [])

  unfoldable pub manage_forward_thrusters : Control Value → Control Value × List (Output Value)
  manage_forward_thrusters c = send_forward (with_forward_speed c)

  -- The two speeds that are sent, and kept: the thruster that is weaker in a turn is slowed down.
  unfoldable pub turn_pair : (rear front : ℤ) → ℤ × ℤ
  turn_pair rear front =
      if ltb_ℤ rear (pos 0)
      then (rear, d.front_turn_mult front)
      else if ltb_ℤ front (pos 0)
      then (d.rear_turn_mult rear, front)
      else (rear, front)

  unfoldable pub send_turn : (rear front : ℤ) → Control Value → Control Value × List (Output Value)
  send_turn rear front c =
      if not (rear ==ℤ c.current_turn_rear) || not (front ==ℤ c.current_turn_front)
      then (let (r, f) = turn_pair rear front in
          (
            record c { current_turn_rear = r; current_turn_front = f },
            motor_control (send_motor_message 0x30 (pos 0) (pos 0) r f (pos 0) (pos 0)) ∷ [],
          ))
      else (c, [])

  unfoldable pub manage_turn_thrusters : Control Value → Control Value × List (Output Value)
  unfolding ◌+ℤ◌ ◌-ℤ◌
  manage_turn_thrusters c =
      let (c1, es) = calc_turn c in
      let c2 = calc_strafe c1 in
      let (c3, es') =
        send_turn (sanitize (c2.turn_speed -ℤ c2.strafe_speed))
          (sanitize (c2.turn_speed +ℤ c2.strafe_speed)) c2 in
      (c3, es ++ es')

  abbrev pub send_depth : (rear front : ℤ) → Control Value → Control Value × List (Output Value)
  send_depth rear front c =
      if not (rear ==ℤ c.current_depth_rear) || not (front ==ℤ c.current_depth_front)
      then (
        record c { current_depth_rear = rear; current_depth_front = front },
        motor_control (send_motor_message 0x0c (pos 0) (pos 0) (pos 0) (pos 0) rear front) ∷ [],
      )
      else (c, [])

  unfoldable pub manage_depth_thrusters : Control Value → Control Value × List (Output Value)
  unfolding ◌+ℤ◌ ◌-ℤ◌
  manage_depth_thrusters c =
      let (c1, es) = calc_depth c in
      let c2 = calc_pitch c1 in
      let (c3, es') =
        send_depth (c2.depth_speed -ℤ c2.pitch_speed) (c2.depth_speed +ℤ c2.pitch_speed) c2 in
      (c3, es ++ es')
