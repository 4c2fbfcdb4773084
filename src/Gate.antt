-- ===== src/Gate.antt =====
-- GateTask.cpp: the task that drives through the gate.
use guillemot_core.Prelude.{ℕ, Bool, true, false, ◌&&◌, ◌||◌, if◌then◌else◌, List, [], ◌∷◌, ◌++◌}
use guillemot_core.Prelude.Int.{ℤ, pos, ◌==ℤ◌}
use guillemot_core.Prelude.Float.{Floats}
use guillemot_core.Motor.HighLevel.Command.{
  Direction, forward, other_direction, MotionType, other_motion,
}
pub mod Outcome
pub mod Tests

-- What the code reads of an object of the image recognition.
pub record ImgRecObject : Type 0 where
  pub id : ℤ
  pub center_x : ℤ
  pub width : ℤ

-- m_isEnabled, m_identifiedCenter and m_haveBothLegs.
pub record GateTask : Type 0 where
  pub is_enabled : Bool
  pub identified_center : Bool
  pub have_both_legs : Bool

-- The text of a message on Task_Completion.
pub data Report : Type 0 where
  path_task_success failure : Report

pub data Output (F : Type 0) : Type 0 where
  high_level : Direction → MotionType → F → Output F
  task_completion : Report → Output F

pub data Event : Type 0 where
  module_enabled : (ours state : Bool) → Event
  gate_seen : ImgRecObject → Event

unfoldable pub module_enable_callback : (ours state : Bool) → GateTask → GateTask
module_enable_callback ours state t =
    if ours
    then (if state
        then record { is_enabled = true; identified_center = false; have_both_legs = false }
        else record t { is_enabled = false })
    else t

-- The text is "PathTask", and " Success" is put behind it, or " Failure" in its place.
unfoldable pub report_success : {F : Type 0} → Bool → Output F
report_success success = task_completion (if success then path_task_success else failure)

module _ {F : Type 0} (f : Floats F) (tan : F → F) (pi : F) where
  open f use {lit, of_int, to_float, add, sub, mul, div, neg, lt}

  abbrev whole : ℕ → F
  whole n = lit (pos n) 0

  unfoldable pub get_distance : (size actual : F) → F
  get_distance size actual =
      to_float (div actual (mul (whole 2) (tan (div (mul size (div pi (whole 4))) (whole 960)))))

  unfoldable pub get_pixels_per_inch : (width expected : F) → F
  get_pixels_per_inch width expected = to_float (div width (get_distance width expected))

  -- Between the edges of the picture.
  unfoldable pub is_inside : (left_most right_most : F) → Bool
  is_inside left_most right_most = lt (neg (whole 230)) left_most && lt right_most (whole 230)

  unfoldable pub move_aside : (is_far inside : Bool) → F → List (Output F)
  move_aside is_far inside x =
      if is_far && inside
      then high_level other_direction other_motion (to_float (div x (whole 12))) ∷ []
      else []

  unfoldable pub move_ahead : (inside : Bool) → F → List (Output F)
  move_ahead inside dist =
      if inside
      then high_level forward other_motion (to_float (add dist (whole 4))) ∷ []
      else report_success true ∷ []

  unfoldable pub approach_gate : (width center : F) → List (Output F)
  approach_gate width center =
      let pix_per_inch = get_pixels_per_inch width (whole 3) in
      let dist = get_distance width (whole 3) in
      let x = to_float (add (to_float (div center pix_per_inch)) (whole 36)) in
      let half_width = to_float (div width (whole 2)) in
      let left_most = to_float (sub center half_width) in
      let right_most = to_float (add center half_width) in
      let is_far = lt x (neg (whole 10)) || lt (whole 10) x in
      let inside = is_inside left_most right_most in
      move_aside is_far inside x ++ move_ahead inside dist

  unfoldable pub gate_callback : ImgRecObject → GateTask → GateTask × List (Output F)
  gate_callback msg t =
      if t.is_enabled && msg.id ==ℤ pos 0
      then (t, approach_gate (to_float (of_int msg.width)) (to_float (of_int msg.center_x)))
      else (t, [])

  -- The callbacks of the constructor.
  unfoldable pub handle : Event → GateTask → GateTask × List (Output F)
  handle (module_enabled ours state) t = (module_enable_callback ours state t, [])
  handle (gate_seen msg) t = gate_callback msg t
