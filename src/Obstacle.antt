-- ===== src/Obstacle.antt =====
-- ObstacleCourseTask.cpp: the task that passes over the bar of the obstacle course.
use guillemot_core.Prelude.{ℕ, Bool, true, false, ◌&&◌, ◌||◌, if◌then◌else◌, List, [], ◌∷◌}
use guillemot_core.Prelude.Int.{ℤ, pos}
use guillemot_core.Prelude.Float.{Floats}
use guillemot_core.Motor.HighLevel.Command.{
  Direction, forward, depth, other_direction, MotionType, other_motion,
}
pub mod Moves
pub mod Tests

-- What the code reads of an object of the image recognition.
pub record ImgRecObject (F : Type 0) : Type 0 where
  pub center_x : ℤ
  pub center_y : ℤ
  pub rotation : F
  pub height : ℤ

pub record ObstacleCourseTask (F : Type 0) : Type 0 where
  pub is_enabled : Bool
  pub distance_to_object : F
  pub hbar : ImgRecObject F

-- A message on High_Level_Motor_Control.
pub record Move (F : Type 0) : Type 0 where
  pub direction : Direction
  pub motion : MotionType
  pub value : F

-- What the task hears, and a round of the loop of `run`.
pub data Event (F : Type 0) : Type 0 where
  module_enabled : (ours state : Bool) → Event F
  obstacle_seen : ImgRecObject F → Event F
  seen_below : Event F
  loop_round : Event F

module _ {F : Type 0} (f : Floats F) (tan : F → F) (pi : F) where
  open f use {lit, of_int, to_float, add, mul, div, neg, lt, le}

  abbrev pub whole : ℕ → F
  whole n = lit (pos n) 0

  unfoldable pub module_enable_callback :
      (ours state : Bool) → ObstacleCourseTask F → ObstacleCourseTask F
  module_enable_callback ours state t = if ours then record t { is_enabled = state } else t

  unfoldable pub downward_obstacle_callback : Move F
  downward_obstacle_callback = record {
    direction = forward;
    motion = other_motion;
    value = whole 4;
  }

  unfoldable pub is_horizontal : F → Bool
  is_horizontal rotation =
      (lt (whole 45) rotation && lt rotation (whole 135))
      || (lt rotation (neg (whole 45)) && lt (neg (whole 135)) rotation)

  unfoldable pub obstacle_course_callback :
      ImgRecObject F → ObstacleCourseTask F → ObstacleCourseTask F
  obstacle_course_callback msg t =
      if t.is_enabled
      then (if is_horizontal msg.rotation then record t { hbar = msg } else t)
      else t

  unfoldable pub get_distance : (size actual : F) → F
  get_distance size actual =
      to_float (div actual (mul (whole 2) (tan (div (mul size (div pi (whole 4))) (whole 960)))))

  unfoldable pub get_pixels_per_inch : (width expected : F) → F
  get_pixels_per_inch width expected = to_float (div width (get_distance width expected))

  unfoldable pub bar_distance : ImgRecObject F → F
  bar_distance bar = get_distance (to_float (of_int bar.height)) (whole 2)

  unfoldable pub move_x : ImgRecObject F → F
  move_x bar = to_float (of_int bar.center_x)

  -- The spot two feet above the bar.
  unfoldable pub move_y : ImgRecObject F → F
  move_y bar = to_float (
      add (to_float (of_int bar.center_y))
        (to_float (mul (get_pixels_per_inch (to_float (of_int bar.height)) (whole 2)) (whole 24))))

  unfoldable pub is_centered : (x y : F) → Bool
  is_centered x y = le x (whole 330) && (le (whole 310) x && (le y (whole 250) && le (whole 230) y))

  unfoldable pub correct : (distance x y : F) → List (Move F)
  correct distance x y =
      if is_centered x y
      then record { direction = forward; motion = other_motion; value = distance } ∷ []
      else if lt (whole 330) x || lt x (whole 310)
      then record { direction = other_direction; motion = other_motion; value = x } ∷ []
      else if lt (whole 250) y || lt y (whole 230)
      then record { direction = depth; motion = other_motion; value = y } ∷ []
      else []

  -- One round of the loop of `run`, before the messages that it then hears.
  unfoldable pub move_round : ObstacleCourseTask F → ObstacleCourseTask F × List (Move F)
  move_round t =
      let distance = bar_distance t.hbar in
      (record t { distance_to_object = distance }, correct distance (move_x t.hbar) (move_y t.hbar))

  unfoldable pub handle : Event F → ObstacleCourseTask F → ObstacleCourseTask F × List (Move F)
  handle (module_enabled ours state) t = (module_enable_callback ours state t, [])
  handle (obstacle_seen msg) t = (obstacle_course_callback msg t, [])
  handle seen_below t = (t, downward_obstacle_callback ∷ [])
  handle loop_round t = move_round t
