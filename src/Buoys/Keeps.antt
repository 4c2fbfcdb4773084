-- ===== src/Buoys/Keeps.antt =====
-- What every operation of the task keeps, if publishing, spinning and clearing the samples keep it.
use guillemot_core.Prelude.{ℕ, zero, suc, ◌+◌, ◌%◌, Option, none, some, Bool, true, false, ◌==◌}
use guillemot_core.Prelude.Int.{ℤ, pos, negsuc}
use guillemot_core.Prelude.Action.{Keeps, Keeps-pure, Keeps-gets, Keeps-either, ◌▹◌}
use guillemot_core.Motor.HighLevel.Command.{Direction, forward, turn, depth, by_hand, other_motion}
use guillemot_core.Buoys.{
  BuoyColor, red, high_level, center_on_point, World, M, publish, clear_past_samples,
  is_buoy_visible, spin_once,
}
use guillemot_core.Buoys.Task.{
  Distances, forget_others, get_distance_to_buoy, is_centered, send_point, look, search_buoys,
  center_loop, center_on_buoy, bump_loop, bump_buoy, drive_loop, find_red, center_attempts,
  look_around, spin_times, back_off, publish_and_spin, bump_second, pass_buoys, bump_both, approach,
  bump_buoys, perform_task,
}

-- `I` is kept by the parts that a run consists of, but for the two commands to drive. `perform` is a
-- run within a run.
pub record IsKept (perform : M Bool) (I : World → Type 0) : Type 0 where
  pub offsetting :
      (direction : Direction) (n : ℤ) → Keeps I (publish (high_level direction other_motion n))
  pub centering : (x y : ℤ) → Keeps I (publish (center_on_point x y))
  pub spinning : Keeps I (spin_once perform)
  pub clearing : Keeps I clear_past_samples
  pub forgetting : Keeps I forget_others

abbrev pub drive : ℤ → M (Unit {0})
drive n = publish (high_level forward by_hand n)

module _ {perform : M Bool} {I : World → Type 0} (kept : IsKept perform I) where
  pub Keeps-visible : (color : BuoyColor) → Keeps I (is_buoy_visible color)
  unfolding is_buoy_visible
  Keeps-visible color = Keeps-gets _

  pub Keeps-look : (retries : ℕ) (color : BuoyColor) → Keeps I (look perform retries color)
  unfolding look
  Keeps-look zero color = Keeps-pure tt
  Keeps-look (suc retries) color = Keeps-visible color ▹ λ seen.
      Keeps-either seen (Keeps-pure tt) (kept.spinning ▹ λ _. Keeps-look retries color)

  pub Keeps-search_buoys : (color : BuoyColor) → Keeps I (search_buoys perform color)
  unfolding search_buoys
  Keeps-search_buoys color = kept.offsetting turn (negsuc 24) ▹ λ _. Keeps-look 50 color ▹ λ _.
      Keeps-visible color ▹ λ seen. Keeps-either seen (kept.offsetting turn (pos 0)) (
        kept.offsetting turn (pos 50) ▹ λ _. Keeps-look 75 color ▹ λ _.
        Keeps-visible color ▹ λ seen'.
        Keeps-either seen' (kept.offsetting turn (pos 0)) (Keeps-pure tt))

  Keeps-send_point : (p : Option (ℤ × ℤ)) → Keeps I (send_point p)
  unfolding send_point
  Keeps-send_point none = Keeps-pure false
  Keeps-send_point (some (x, y)) = kept.centering x y ▹ λ _.
      Keeps-either (is_centered x y) (kept.centering (pos 0) (pos 0) ▹ λ _. Keeps-pure true)
        (Keeps-pure false)

  pub Keeps-center_loop :
      (retries : ℕ) (color : BuoyColor) → Keeps I (center_loop perform retries color)
  unfolding center_loop
  Keeps-center_loop zero color = Keeps-pure false
  Keeps-center_loop (suc retries) color = Keeps-gets _ ▹ λ p. Keeps-send_point p ▹ λ centered.
      kept.spinning ▹ λ _. Keeps-either centered (Keeps-pure true) (Keeps-center_loop retries color)

  pub Keeps-center_on_buoy : (color : BuoyColor) → Keeps I (center_on_buoy perform color)
  unfolding center_on_buoy
  Keeps-center_on_buoy color =
      Keeps-center_loop 25 color ▹ λ centered. kept.clearing ▹ λ _. Keeps-pure centered

  Keeps-bump_loop :
      (left count : ℕ) (color : BuoyColor) → Keeps I (bump_loop perform left count color)
  unfolding bump_loop
  Keeps-bump_loop zero count color = Keeps-pure tt
  Keeps-bump_loop (suc left) count color = kept.offsetting forward (pos 2) ▹ λ _.
      Keeps-either (count % 10 == 0) (Keeps-center_on_buoy color ▹ λ _. Keeps-pure tt)
        (Keeps-pure tt)
      ▹ λ _. kept.spinning ▹ λ _. Keeps-bump_loop left (count + 1) color

  pub Keeps-bump_buoy : (color : BuoyColor) → Keeps I (bump_buoy perform color)
  unfolding bump_buoy
  Keeps-bump_buoy color = Keeps-bump_loop 50 0 color ▹ λ _. kept.offsetting forward (pos 0)

  pub Keeps-drive_loop :
      Keeps I (drive (pos 125)) → (retries : ℕ) → Keeps I (drive_loop perform retries)
  unfolding drive_loop
  Keeps-drive_loop driving zero = Keeps-pure tt
  Keeps-drive_loop driving (suc retries) = Keeps-visible red ▹ λ seen.
      Keeps-either seen (Keeps-pure tt)
        (driving ▹ λ _. kept.spinning ▹ λ _. Keeps-drive_loop driving retries)

  pub Keeps-find_red :
      Keeps I (drive (pos 125)) → (search_count : ℕ) → Keeps I (find_red perform search_count)
  unfolding find_red
  Keeps-find_red driving zero = Keeps-pure tt
  Keeps-find_red driving (suc search_count) = Keeps-visible red ▹ λ seen.
      Keeps-either seen (Keeps-pure tt) (
        Keeps-drive_loop driving 30 ▹ λ _. Keeps-visible red ▹ λ seen'.
        Keeps-either seen' (Keeps-pure tt) (Keeps-search_buoys red) ▹ λ _.
        Keeps-find_red driving search_count)

  pub Keeps-center_attempts :
      (retries : ℕ) (color : BuoyColor) → Keeps I (center_attempts perform retries color)
  unfolding center_attempts
  Keeps-center_attempts zero color = Keeps-pure false
  Keeps-center_attempts (suc retries) color = Keeps-visible color ▹ λ seen.
      Keeps-either seen
        (Keeps-center_on_buoy color ▹ λ centered.
          Keeps-either centered (Keeps-pure true) (Keeps-center_attempts retries color))
        (Keeps-pure false)

  pub Keeps-look_around : (color : BuoyColor) → Keeps I (look_around perform color)
  unfolding look_around
  Keeps-look_around color =
      Keeps-visible color ▹ λ seen. Keeps-either seen (Keeps-pure tt) (Keeps-search_buoys color)

  pub Keeps-spin_times : (retries : ℕ) → Keeps I (spin_times perform retries)
  unfolding spin_times
  Keeps-spin_times zero = Keeps-pure tt
  Keeps-spin_times (suc retries) = kept.spinning ▹ λ _. Keeps-spin_times retries

  Keeps-back_off : (left : ℕ) → Keeps I (back_off perform left)
  unfolding back_off
  Keeps-back_off zero = Keeps-pure tt
  Keeps-back_off (suc left) =
      kept.offsetting forward (negsuc 1) ▹ λ _. kept.spinning ▹ λ _. Keeps-back_off left

  Keeps-offset_and_spin :
      (direction : Direction) (n : ℤ)
      → Keeps I (publish_and_spin perform (high_level direction other_motion n))
  Keeps-offset_and_spin direction n = kept.offsetting direction n ▹ λ _. kept.spinning

  Keeps-bump_second : (centered : Bool) → Keeps I (bump_second perform centered)
  unfolding bump_second
  Keeps-bump_second true = Keeps-gets _ ▹ λ color. Keeps-bump_buoy color ▹ λ _.
      kept.clearing ▹ λ _. Keeps-offset_and_spin forward (negsuc 6) ▹ λ _. Keeps-pure true
  Keeps-bump_second false = Keeps-offset_and_spin forward (pos 5) ▹ λ _. Keeps-pure false

  Keeps-pass_buoys : Keeps I (pass_buoys perform)
  unfolding pass_buoys
  Keeps-pass_buoys = Keeps-offset_and_spin depth (negsuc 1) ▹ λ _.
      Keeps-offset_and_spin forward (pos 7) ▹ λ _. Keeps-offset_and_spin depth (pos 2)

  pub Keeps-bump_both : (centered : Bool) → Keeps I (bump_both perform centered)
  unfolding bump_both
  Keeps-bump_both true = Keeps-gets _ ▹ λ first. Keeps-bump_buoy first ▹ λ _. kept.clearing ▹ λ _.
      Keeps-back_off 75 ▹ λ _. Keeps-gets _ ▹ λ second. Keeps-look_around second ▹ λ _.
      Keeps-center_attempts 20 second ▹ λ centered.
      Keeps-bump_second centered ▹ λ successful. Keeps-pass_buoys ▹ λ _. Keeps-pure successful
  Keeps-bump_both false = Keeps-pure false

  module _ {Feet : Type 0} (d : Distances Feet) where
    pub Keeps-distance : (color : BuoyColor) → Keeps I (get_distance_to_buoy d color)
    unfolding get_distance_to_buoy
    Keeps-distance color = Keeps-gets _

    pub Keeps-approach :
        (retries : ℕ) (distance : Feet) → Keeps I (approach d perform retries distance)
    unfolding approach
    Keeps-approach zero distance = Keeps-pure tt
    Keeps-approach (suc retries) distance =
        Keeps-either (d.is_far distance)
          (Keeps-center_on_buoy red ▹ λ _.
            kept.spinning ▹ λ _. Keeps-distance red ▹ λ distance'. Keeps-approach retries distance')
          (Keeps-pure tt)

    Keeps-bump_buoys :
        Keeps I (drive (pos 125)) → Keeps I (drive (pos 0)) → Keeps I (bump_buoys d perform)
    unfolding bump_buoys
    Keeps-bump_buoys driving stopping = kept.forgetting ▹ λ _. Keeps-distance red ▹ λ distance.
        driving ▹ λ _. Keeps-approach 40 distance ▹ λ _. stopping ▹ λ _. Keeps-spin_times 10 ▹ λ _.
        Keeps-gets _ ▹ λ first. Keeps-look_around first ▹ λ _.
        Keeps-center_attempts 20 first ▹ λ centered. Keeps-bump_both centered

    -- So a run keeps it.
    pub Keeps-perform_task :
        Keeps I (drive (pos 125)) → Keeps I (drive (pos 0)) → Keeps I (perform_task d perform)
    unfolding perform_task
    Keeps-perform_task driving stopping = Keeps-find_red driving 10 ▹ λ _.
        Keeps-visible red ▹ λ seen.
        Keeps-either seen (Keeps-bump_buoys driving stopping) (Keeps-pure false)
