-- ===== src/Obstacle/Moves.antt =====
-- What the obstacle course task publishes in a run, by what it has heard.
use guillemot_core.Prelude.{
  ℕ, ◌<◌, ◌^◌, ◌≡◌, refl, ap, ◌∙◌, arith, Bool, true, false, not, ◌&&◌, ◌||◌, if◌then◌else◌,
  Bool-cases, inl, inr, List, [], ◌∷◌, ◌++◌,
}
use guillemot_core.Prelude.Float.{Floats}
use guillemot_core.Prelude.Int.{ℤ, pos, negsuc, ◌≤ℤ◌, ltb_ℤ, leb_ℤ}
use guillemot_core.Prelude.Node.{All, if-P_both, run}
use guillemot_core.Motor.HighLevel.Command.{
  Direction, forward, depth, other_direction, other_motion,
}
use guillemot_core.Obstacle.{
  ImgRecObject, ObstacleCourseTask, Move, Event, module_enabled, obstacle_seen, seen_below,
  loop_round, module_enable_callback, downward_obstacle_callback, is_horizontal,
  obstacle_course_callback, get_distance, get_pixels_per_inch, bar_distance, move_x, move_y,
  is_centered, correct, move_round, handle,
}

-- A value of an int16.
abbrev pub IsShort : ℤ → Type 0
IsShort z = (negsuc 32767 ≤ℤ z) × (z ≤ℤ pos 32767)

-- Floats compare the whole numbers of an int16 with small literals as the integers compare.
pub record WholeLaws {F : Type 0} (f : Floats F) : Type 0 where
  pub lt_whole :
      (z : ℤ) (n : ℕ)
      → IsShort z
      → n < 2 ^ 15
      → f.lt (f.to_float (f.of_int z)) (f.lit (pos n) 0) ≡ ltb_ℤ z (pos n)
  pub whole_lt :
      (z : ℤ) (n : ℕ)
      → IsShort z
      → n < 2 ^ 15
      → f.lt (f.lit (pos n) 0) (f.to_float (f.of_int z)) ≡ ltb_ℤ (pos n) z
  pub le_whole :
      (z : ℤ) (n : ℕ)
      → IsShort z
      → n < 2 ^ 15
      → f.le (f.to_float (f.of_int z)) (f.lit (pos n) 0) ≡ leb_ℤ z (pos n)
  pub whole_le :
      (z : ℤ) (n : ℕ)
      → IsShort z
      → n < 2 ^ 15
      → f.le (f.lit (pos n) 0) (f.to_float (f.of_int z)) ≡ leb_ℤ (pos n) z

-- The bars have coordinates of an int16.
abbrev pub HasShort : {F : Type 0} → Event F → Type 0
HasShort (obstacle_seen msg) = IsShort msg.center_x
HasShort (module_enabled ours state) = Unit {0}
HasShort seen_below = Unit {0}
HasShort loop_round = Unit {0}

module _ {F : Type 0} (f : Floats F) (tan : F → F) (pi : F) where
  -- How far away a thing of two feet is that is `h` pixels high, where 960 pixels are a right angle.
  abbrev pub feet_away : ℤ → F
  feet_away h = f.to_float (
      f.div (f.lit (pos 2) 0) (
        f.mul (f.lit (pos 2) 0) (
          tan (
            f.div (f.mul (f.to_float (f.of_int h)) (f.div pi (f.lit (pos 4) 0)))
              (f.lit (pos 960) 0)))))

  -- The height in the picture of the spot that is 24 units of the bar's scale off its centre.
  abbrev pub spot : ImgRecObject F → F
  spot bar = f.to_float (
      f.add (f.to_float (f.of_int bar.center_y)) (
        f.to_float (
          f.mul (f.to_float (f.div (f.to_float (f.of_int bar.height)) (feet_away bar.height)))
            (f.lit (pos 24) 0))))

  -- Turned by 45 to 135 degrees, one way or the other.
  abbrev pub lies : F → Bool
  lies r =
      (f.lt (f.lit (pos 45) 0) r && f.lt r (f.lit (pos 135) 0))
      || (f.lt r (f.neg (f.lit (pos 45) 0)) && f.lt (f.neg (f.lit (pos 135) 0)) r)

  -- The command for a bar: to its side by its place, unless that is from 310 to 330; then up or down
  -- by the place of the spot above it, unless that is from 230 to 250; then ahead by its distance.
  abbrev pub command_for : ImgRecObject F → List (Move F)
  command_for bar =
      let y = spot bar in
      if leb_ℤ (pos 310) bar.center_x && leb_ℤ bar.center_x (pos 330)
      then (if f.le y (f.lit (pos 250) 0) && f.le (f.lit (pos 230) 0) y
          then record { direction = forward; motion = other_motion; value = feet_away bar.height }
            ∷ []
          else if f.lt (f.lit (pos 250) 0) y || f.lt y (f.lit (pos 230) 0)
          then record { direction = depth; motion = other_motion; value = y } ∷ []
          else [])
      else record {
        direction = other_direction;
        motion = other_motion;
        value = f.to_float (f.of_int bar.center_x);
      }
        ∷ []

  -- All commands, for a task that is on or not and has a bar.
  abbrev pub commands : Bool → ImgRecObject F → List (Event F) → List (Move F)
  commands on bar [] = []
  commands on bar (module_enabled ours state ∷ es) = commands (if ours then state else on) bar es
  commands on bar (obstacle_seen msg ∷ es) =
      commands on (if on && lies msg.rotation then msg else bar) es
  commands on bar (seen_below ∷ es) =
      record { direction = forward; motion = other_motion; value = f.lit (pos 4) 0 }
      ∷ commands on bar es
  commands on bar (loop_round ∷ es) = command_for bar ++ commands on bar es

  -- The code's order of the tests, on the outcomes of the comparisons.
  reorder :
      {A : Type 0} (low high y_low y_high : Bool) (out y_out : Bool) (ahead side up rest : A)
      → out ≡ not (low && high)
      → (if high && (low && (y_high && y_low))
          then ahead
          else if out
          then side
          else if y_out
          then up
          else rest)
        ≡ (if low && high
            then (if y_high && y_low then ahead else if y_out then up else rest)
            else side)
  reorder true true y_low y_high out y_out ahead side up rest h = rw h refl
  reorder true false y_low y_high out y_out ahead side up rest h = rw h refl
  reorder false true y_low y_high out y_out ahead side up rest h = rw h refl
  reorder false false y_low y_high out y_out ahead side up rest h = rw h refl

  module _ (laws : WholeLaws f) where
    outside :
        (z : ℤ)
        → (ltb_ℤ (pos 330) z || ltb_ℤ z (pos 310)) ≡ not (leb_ℤ (pos 310) z && leb_ℤ z (pos 330))
    outside z = ground arith

    round_lem :
        (t : ObstacleCourseTask F)
        → IsShort t.hbar.center_x
        → (move_round f tan pi t).1 ≡ command_for t.hbar
    unfolding move_round correct is_centered move_x move_y bar_distance get_pixels_per_inch
        get_distance
    round_lem t short =
        let z = t.hbar.center_x in
        let y = spot t.hbar in
        let move : Direction → F → List (Move F) =
          λ d v. record { direction = d; motion = other_motion; value = v } ∷ [] in
        rw
          (
            laws.le_whole z 330 short (omega arith),
            laws.whole_le z 310 short (omega arith),
            laws.whole_lt z 330 short (omega arith),
            laws.lt_whole z 310 short (omega arith),
          )
          (reorder (leb_ℤ (pos 310) z) (leb_ℤ z (pos 330)) (f.le (f.lit (pos 230) 0) y)
            (f.le y (f.lit (pos 250) 0)) (ltb_ℤ (pos 330) z || ltb_ℤ z (pos 310))
            (f.lt (f.lit (pos 250) 0) y || f.lt y (f.lit (pos 230) 0))
            (move forward (feet_away t.hbar.height))
            (move other_direction (f.to_float (f.of_int z))) (move depth y) [] (outside z))

    callback_lem :
        (msg : ImgRecObject F) (t : ObstacleCourseTask F)
        → obstacle_course_callback f tan pi msg t
          ≡ record t { hbar = if t.is_enabled && lies msg.rotation then msg else t.hbar }
    unfolding obstacle_course_callback is_horizontal
    callback_lem msg t = elim (Bool-cases t.is_enabled) [
      | inl on ↦ elim (Bool-cases (lies msg.rotation)) [
        | inl h ↦ rw (on, h) refl
        | inr h ↦ rw (on, h) refl
      ]
      | inr off ↦ rw off refl
    ]

    -- Where the coordinates of the bars are those of an int16, and floats compare whole numbers as the
    -- integers do: whatever the task hears, and however often its loop goes round, it publishes, in
    -- order, the command to go ahead by 4 for each object below, and for each round the command for the
    -- bar that it has, which is the last one that was seen lying while the task was on, or the first.
    pub run-commands :
        (es : List (Event F)) (t : ObstacleCourseTask F)
        → All HasShort es
        → IsShort t.hbar.center_x
        → (run (handle f tan pi) es t).1 ≡ commands t.is_enabled t.hbar es
    unfolding run handle module_enable_callback obstacle_course_callback is_horizontal
        downward_obstacle_callback move_round
    run-commands [] t hs short = refl
    run-commands (module_enabled true state ∷ es) t (h, hs) short =
        run-commands es (record t { is_enabled = state }) hs short
    run-commands (module_enabled false state ∷ es) t (h, hs) short = run-commands es t hs short
    run-commands (obstacle_seen msg ∷ es) t (h, hs) short =
        let bar = if t.is_enabled && lies msg.rotation then msg else t.hbar in
        ap (λ u. (run (handle f tan pi) es u).1) (callback_lem msg t)
        ∙ run-commands es (record t { hbar = bar }) hs
            (if-P_both (λ (b : ImgRecObject F). IsShort b.center_x)
              (t.is_enabled && lies msg.rotation) msg t.hbar (λ _. h) (λ _. short))
    run-commands (seen_below ∷ es) t (h, hs) short =
        ap (λ ms. downward_obstacle_callback f tan pi ∷ ms) (run-commands es t hs short)
    run-commands (loop_round ∷ es) t (h, hs) short =
        let (u, moves) = move_round f tan pi t in
        ap (λ ms. ms ++ (run (handle f tan pi) es u).1) (round_lem t short)
        ∙ ap (λ ms. command_for t.hbar ++ ms) (run-commands es u hs short)
