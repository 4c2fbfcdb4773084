-- ===== src/Heading.antt =====
-- SubHeading.cpp: a controller that turns the vehicle to a yaw while it moves.
use guillemot_core.Prelude.{
  ℕ, Bool, true, false, ◌&&◌, if◌then◌else◌, Option, none, some, List, [], ◌∷◌,
}
use guillemot_core.Prelude.Int.{ℤ, pos}
use guillemot_core.Prelude.Float.{Floats}
pub mod Bounds
pub mod Tests

pub record Heading (F : Type 0) : Type 0 where
  pub mode : Bool
  pub target_heading : F
  pub target_yaw : F
  pub curr_yaw : F
  pub error : F
  pub is_moving : Bool

-- What it publishes on High_Level_Motion, always for "Turn": "Manual" or "Command".
pub data Output (F : Type 0) : Type 0 where
  turn_speed : F → Output F
  target_angle : F → Output F

-- What it hears. `yaw` is the third number of the attitude, which the code takes for the yaw.
pub data Event (F : Type 0) : Type 0 where
  module_enabled : (ours state : Bool) → Event F
  heading_set : F → Event F
  attitude_read : (yaw : F) → Event F
  -- a message on High_Level_Motion: is it for "Forward", is it a "Command", its value
  motion_heard : (forward command : Bool) → F → Event F

module _ {F : Type 0} (f : Floats F) where
  open f use {lit, of_int, to_float, add, sub, mul, fmod, neg, abs, lt}

  abbrev pub zero_f : F
  zero_f = lit (pos 0) 0

  -- KP and MAX, two floats.
  abbrev pub k_p : F
  k_p = to_float (lit (pos 35) 3)

  abbrev pub max_speed : F
  max_speed = to_float (lit (pos 25) 2)

  unfoldable pub enabled_callback : (ours state : Bool) → Heading F → Heading F
  enabled_callback ours state h = if ours then record h { mode = state } else h

  unfoldable pub target_heading_callback : F → Heading F → Heading F
  target_heading_callback offset h = record h {
    target_yaw = to_float (fmod (to_float (add h.curr_yaw offset)) (lit (pos 180) 0));
    target_heading = offset;
  }

  unfoldable pub read_forward_status :
      (forward command : Bool) (value : F) → Heading F → Heading F × List (Output F)
  read_forward_status forward command value h =
      if forward && command
      then (if lt (lit (pos 5) 2) (abs value)
          then (record h { is_moving = true }, [])
          else (record h { is_moving = false }, turn_speed zero_f ∷ []))
      else (h, [])

  unfoldable pub dead_zone : F → F
  dead_zone error = if lt (abs error) (lit (pos 2) 2) then zero_f else error

  unfoldable pub limit_speed : F → F
  limit_speed speed =
      if lt max_speed speed
      then max_speed
      else if lt speed (neg max_speed)
      then neg max_speed
      else speed

  unfoldable pub steer : F → Heading F → Heading F × List (Output F)
  steer yaw h =
      let error = dead_zone (to_float (sub yaw h.target_yaw)) in
      (
        record h { curr_yaw = yaw; error = error },
        turn_speed (neg (limit_speed (to_float (mul k_p error)))) ∷ target_angle (neg error) ∷ [],
      )

  unfoldable pub heading_callback : F → Heading F → Heading F × List (Output F)
  heading_callback yaw h =
      if h.mode
      then (if h.is_moving then steer yaw h else (record h { curr_yaw = yaw }, []))
      else (h, [])

  -- The callbacks of `main`.
  unfoldable pub handle : Event F → Heading F → Heading F × List (Output F)
  handle (module_enabled ours state) h = (enabled_callback ours state h, [])
  handle (heading_set offset) h = (target_heading_callback offset h, [])
  handle (attitude_read yaw) h = heading_callback yaw h
  handle (motion_heard forward command value) h = read_forward_status forward command value h
