-- ===== src/Navigation.antt =====
-- NavigationControl.cpp. The percentages are floats that hold whole numbers, since the code divides
-- integers, and are integers here; a test against 0.05 or 0.01 is one against 0 or 1. The voltage of
-- a thrust, and the angle that is made of a rotation, are arguments.
use guillemot_core.Prelude.{
  ℕ, suc, ◌+◌, ◌/◌, List, [], ◌∷◌, ◌++◌, Bool, true, false, not, ◌&&◌, if◌then◌else◌,
}
use guillemot_core.Prelude.Int.{ℤ, pos, negsuc, ◌+ℤ◌, ◌*ℤ◌, sub_ℕ, ltb_ℤ, leb_ℤ, ◌==ℤ◌, abs}
use guillemot_core.Motor.HighLevel.Command.{
  Direction, forward, turn, depth, other_direction, MotionType, by_hand,
}
pub mod Point
pub mod Line
pub mod Tests

-- A message on /High_Level_Motion.
pub record Command {ℓ} (Value : Type ℓ) : Type ℓ where
  pub direction : Direction
  pub motion : MotionType
  pub value : Value

-- The members; POINTMODE and the module's own enabling are read by nothing.
pub record NavigationControl : Type 0 where
  pub line_mode : Bool
  pub begun : Bool
  pub on_line : Bool
  pub rotating : Bool
  pub start_x : ℤ
  pub start_y : ℤ
  pub start_rot : ℤ

unfoldable pub init : NavigationControl
init = record {
  line_mode = false;
  begun = false;
  on_line = false;
  rotating = false;
  start_x = pos 0;
  start_y = pos 0;
  start_rot = pos 0;
}

-- The division of C++, which rounds towards 0.
unfoldable pub div_int : ℤ → ℕ → ℤ
div_int (pos n) k = pos (n / k)
div_int (negsuc n) k = sub_ℕ 0 (suc n / k)

-- `target > 0 ? 1 : -1`
unfoldable pub sign : ℤ → ℤ
sign target = if ltb_ℤ (pos 0) target then pos 1 else negsuc 0

-- What both thrusts and the rate of a turn do below MAX_THRESHOLD.
unfoldable pub slow_down : (per dir : ℤ) → ℤ
unfolding ◌*ℤ◌
slow_down per dir = if leb_ℤ (pos 1) per then negsuc 59 *ℤ dir else pos 0

unfoldable pub thrust : (range per dir : ℤ) → ℤ
unfolding ◌+ℤ◌ ◌*ℤ◌
thrust range per dir = (range *ℤ per +ℤ pos 50) *ℤ dir

-- The sideways thrust.
unfoldable pub thrust_x : (target_x : ℤ) → ℤ
thrust_x target_x =
    let per = div_int target_x 240 in
    if leb_ℤ per (pos 0) then slow_down per (sign target_x) else thrust (pos 40) per (sign target_x)

-- The other thrust, for the direction that is made of the target.
unfoldable pub thrust_y : (target_y dir_y : ℤ) → ℤ
thrust_y target_y dir_y =
    let per = div_int target_y 320 in
    if leb_ℤ per (pos 0)
    then slow_down per dir_y
    else if ltb_ℤ (pos 0) dir_y
    then thrust (pos 30) per dir_y
    else pos 0

-- Both coordinates are 0.
abbrev pub is_centre : (x y : ℤ) → Bool
is_centre x y = x ==ℤ pos 0 && y ==ℤ pos 0

-- What a centred target leaves, and the first one that is not.
unfoldable pub ended : NavigationControl → NavigationControl
ended t = record t { begun = false; start_x = pos 0; start_y = pos 0 }

unfoldable pub begin : (x y : ℤ) → NavigationControl → NavigationControl
begin x y t = if not t.begun then record t { start_x = x; start_y = y; begun = true } else t

-- The rate of the turn to an angle.
unfoldable pub turn_rate : (target_rot : ℤ) → ℤ
turn_rate target_rot =
    let per = div_int target_rot 180 in
    if leb_ℤ (abs per) (pos 0)
    then slow_down (abs per) (sign target_rot)
    else thrust (pos 40) per (sign target_rot)

module _ {ℓ} {Value : Type ℓ} (voltage : ℤ → Value) where
  -- publishMotor of a manual motion.
  abbrev pub publish_motor : Direction → ℤ → Command Value
  publish_motor direction val = record {
    direction = direction;
    motion = by_hand;
    value = voltage val;
  }

  -- "Straf", as a direction, is none that commandCallback of HighLevelControl.cpp compares with.
  abbrev pub set_strafe : ℤ → Command Value
  set_strafe = publish_motor other_direction

  abbrev pub set_dive : ℤ → Command Value
  set_dive = publish_motor depth

  abbrev pub set_drive : ℤ → Command Value
  set_drive = publish_motor forward

  abbrev pub set_turn : ℤ → Command Value
  set_turn = publish_motor turn

  unfoldable pub point_callback :
      (x y : ℤ) → NavigationControl → NavigationControl × List (Command Value)
  unfolding ◌*ℤ◌
  point_callback x y t =
      if is_centre x y
      then (ended t, set_strafe (pos 0) ∷ set_dive (pos 0) ∷ [])
      else (begin x y t, set_strafe (thrust_x x) ∷ set_dive (thrust_y y (negsuc 0 *ℤ sign y)) ∷ [])

  -- Whether the vehicle is on the line, and what is published otherwise.
  unfoldable pub move_to_line :
      (x y : ℤ) → NavigationControl → Bool × NavigationControl × List (Command Value)
  move_to_line x y t =
      if is_centre x y
      then (true, ended t, set_strafe (pos 0) ∷ set_drive (pos 0) ∷ [])
      else (let tx = thrust_x x in
          let ty = thrust_y y (sign y) in
          if is_centre tx ty
          then (true, begin x y t, [])
          else (false, begin x y t, set_strafe tx ∷ set_drive ty ∷ []))

  -- `target_rot` is the rotation of the message between -180 and 180, as an `int`.
  unfoldable pub line_callback :
      (x y target_rot : ℤ) → NavigationControl → NavigationControl × List (Command Value)
  line_callback x y target_rot t =
      if not t.line_mode
      then (t, [])
      else (let (on_line, t1, moves) = move_to_line x y t in
          let t2 = record t1 { on_line = on_line } in
          if not on_line
          then (t2, moves)
          else if target_rot ==ℤ pos 0
          then (record t2 { start_rot = pos 0; rotating = false }, moves ++ (set_turn (pos 0) ∷ []))
          else (
            if not t2.rotating then record t2 { start_rot = target_rot } else t2,
            moves ++ (set_turn (turn_rate target_rot) ∷ []),
          ))
