-- ===== src/Buoys/Task.antt =====
-- BuoysTask.cpp: the search for a buoy, the centring on it, and performTask. The loops have the
-- bounds that the code gives them. Of the arithmetic on floats the distance to a buoy is taken as
-- an argument.
use guillemot_core.Prelude.{
  ℕ, zero, suc, ◌+◌, ◌%◌, Option, none, some, Bool, true, false, ◌&&◌, if◌then◌else◌, List, [],
  length, ltb, ◌==◌,
}
use guillemot_core.Prelude.Int.{ℤ, pos, negsuc, ◌+ℤ◌, leb_ℤ, ◌==ℤ◌}
use guillemot_core.Prelude.Action.{pure, gets, modify, ◌>>=◌, ◌>>◌}
use guillemot_core.Motor.HighLevel.Command.{forward, turn, depth, MotionType, by_hand, other_motion}
use guillemot_core.Buoys.{
  BuoyColor, red, BuoyData, Output, high_level, center_on_point, M, publish, samples, back,
  clear_past_samples, is_buoy_visible, spin_once,
}

-- `feet n` is the distance to a buoy of which the height and the width in pixels add up to `n`, not
-- 0; `unknown` is -1, and `is_far` tests whether the distance is above 7, or is -1.
pub record Distances (Feet : Type 0) : Type 0 where
  pub feet : ℤ → Feet
  pub unknown : Feet
  pub is_far : Feet → Bool

-- "Offset", as a motion type, is none that commandCallback of HighLevelControl.cpp compares with.
abbrev pub offset : MotionType
offset = other_motion

unfoldable pub get_distance_to_buoy : {Feet : Type 0} → Distances Feet → BuoyColor → M Feet
get_distance_to_buoy d color = gets (λ w. elim (back (samples color w.task)) [
  | none ↦ d.unknown
  | some x ↦ (let n = x.height +ℤ x.width in if n ==ℤ pos 0 then d.unknown else d.feet n)
])

-- The buoy that is seen last, if there are two samples at least.
unfoldable pub point_of : List BuoyData → Option (ℤ × ℤ)
point_of xs =
    if ltb 1 (length xs)
    then elim (back xs) [ none ↦ none | some x ↦ some (x.center_x, x.center_y) ]
    else none

-- Within 75 pixels of the centre, both ways.
unfoldable pub is_centered : (x y : ℤ) → Bool
is_centered x y = leb_ℤ x (pos 75) && leb_ℤ (negsuc 74) x && leb_ℤ y (pos 75) && leb_ℤ (negsuc 74) y

-- What a round of centerOnBuoy does with the point.
unfoldable pub send_point : Option (ℤ × ℤ) → M Bool
send_point none = pure false
send_point (some (x, y)) = do
  publish (center_on_point x y)
  if is_centered x y then (publish (center_on_point (pos 0) (pos 0)) >> pure true) else pure false

unfoldable pub forget_others : M (Unit {0})
forget_others =
    modify (λ w. record w { task = record (w.task) { green_samples = []; yellow_samples = [] } })

module _ (perform : M Bool) where
  -- Spins while the buoy is not visible and retries are left.
  unfoldable pub look : ℕ → BuoyColor → M (Unit {0})
  look zero color = pure tt
  look (suc retries) color = do
    seen ← is_buoy_visible color
    if seen then pure tt else (spin_once perform >> look retries color)

  unfoldable pub search_buoys : BuoyColor → M (Unit {0})
  search_buoys color = do
    publish (high_level turn offset (negsuc 24))
    look 50 color
    seen ← is_buoy_visible color
    if seen then publish (high_level turn offset (pos 0)) else (do
      publish (high_level turn offset (pos 50))
      look 75 color
      seen' ← is_buoy_visible color
      if seen' then publish (high_level turn offset (pos 0)) else pure tt)

  unfoldable pub center_loop : ℕ → BuoyColor → M Bool
  center_loop zero color = pure false
  center_loop (suc retries) color = do
    p ← gets (λ w. point_of (samples color w.task))
    centered ← send_point p
    spin_once perform
    if centered then pure true else center_loop retries color

  unfoldable pub center_on_buoy : BuoyColor → M Bool
  center_on_buoy color = do centered ← center_loop 25 color; clear_past_samples; pure centered

  -- `count` is loopDelayCount.
  unfoldable pub bump_loop : (left count : ℕ) → BuoyColor → M (Unit {0})
  bump_loop zero count color = pure tt
  bump_loop (suc left) count color = do
    publish (high_level forward offset (pos 2))
    if count % 10 == 0 then (center_on_buoy color >> pure tt) else pure tt
    spin_once perform
    bump_loop left (count + 1) color

  unfoldable pub bump_buoy : BuoyColor → M (Unit {0})
  bump_buoy color = do bump_loop 50 0 color; publish (high_level forward offset (pos 0))

  -- Drives forward while the red buoy is not visible and retries are left.
  unfoldable pub drive_loop : ℕ → M (Unit {0})
  drive_loop zero = pure tt
  drive_loop (suc retries) = do
    seen ← is_buoy_visible red
    if seen then pure tt else (do
      publish (high_level forward by_hand (pos 125))
      spin_once perform
      drive_loop retries)

  -- The loop that finds the red buoy.
  unfoldable pub find_red : ℕ → M (Unit {0})
  find_red zero = pure tt
  find_red (suc search_count) = do
    seen ← is_buoy_visible red
    if seen then pure tt else (do
      drive_loop 30
      seen' ← is_buoy_visible red
      if seen' then pure tt else search_buoys red
      find_red search_count)

  -- The loop that centres on a buoy until that has worked.
  unfoldable pub center_attempts : ℕ → BuoyColor → M Bool
  center_attempts zero color = pure false
  center_attempts (suc retries) color = do
    seen ← is_buoy_visible color
    if seen
        then (do
          centered ← center_on_buoy color
          if centered then pure true else center_attempts retries color)
        else pure false

  unfoldable pub look_around : BuoyColor → M (Unit {0})
  look_around color = do seen ← is_buoy_visible color; if seen then pure tt else search_buoys color

  unfoldable pub spin_times : ℕ → M (Unit {0})
  spin_times zero = pure tt
  spin_times (suc retries) = spin_once perform >> spin_times retries

  -- Backs off from the buoy that was bumped.
  unfoldable pub back_off : ℕ → M (Unit {0})
  back_off zero = pure tt
  back_off (suc left) = do
    publish (high_level forward offset (negsuc 1))
    spin_once perform
    back_off left

  abbrev pub publish_and_spin : Output → M (Unit {0})
  publish_and_spin o = publish o >> spin_once perform

  -- The second buoy, and what is done after it.
  unfoldable pub bump_second : Bool → M Bool
  bump_second true = do
    color ← gets (λ w. w.task.second_to_bump)
    bump_buoy color
    clear_past_samples
    publish_and_spin (high_level forward offset (negsuc 6))
    pure true
  bump_second false = do publish_and_spin (high_level forward offset (pos 5)); pure false

  unfoldable pub pass_buoys : M (Unit {0})
  pass_buoys = do
    publish_and_spin (high_level depth offset (negsuc 1))
    publish_and_spin (high_level forward offset (pos 7))
    publish_and_spin (high_level depth offset (pos 2))

  -- What follows the centring on the first buoy.
  unfoldable pub bump_both : Bool → M Bool
  bump_both false = pure false
  bump_both true = do
    first ← gets (λ w. w.task.first_to_bump)
    bump_buoy first
    clear_past_samples
    back_off 75
    second ← gets (λ w. w.task.second_to_bump)
    look_around second
    centered ← center_attempts 20 second
    successful ← bump_second centered
    pass_buoys
    pure successful

module _ {Feet : Type 0} (d : Distances Feet) (perform : M Bool) where
  -- Moves closer while the red buoy is far.
  unfoldable pub approach : ℕ → Feet → M (Unit {0})
  approach zero distance = pure tt
  approach (suc retries) distance =
      if d.is_far distance
      then (do
        center_on_buoy perform red
        spin_once perform
        distance' ← get_distance_to_buoy d red
        approach retries distance')
      else pure tt

  -- What follows when the red buoy is visible.
  unfoldable pub bump_buoys : M Bool
  bump_buoys = do
    forget_others
    distance ← get_distance_to_buoy d red
    publish (high_level forward by_hand (pos 125))
    approach 40 distance
    publish (high_level forward by_hand (pos 0))
    spin_times perform 10
    first ← gets (λ w. w.task.first_to_bump)
    look_around perform first
    centered ← center_attempts perform 20 first
    bump_both perform centered

  unfoldable pub perform_task : M Bool
  perform_task = do
    find_red perform 10
    seen ← is_buoy_visible red
    if seen then bump_buoys else pure false

-- The task, with runs inside runs up to the depth that is given.
unfoldable pub perform : {Feet : Type 0} → Distances Feet → ℕ → M Bool
perform d zero = λ w. none
perform d (suc n) = perform_task d (perform d n)
