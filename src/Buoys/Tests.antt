-- ===== src/Buoys/Tests.antt =====
-- The theorems on the buoys task at concrete inputs.
use guillemot_core.Prelude.{
  ℕ, ◌≡◌, ◌⊎◌, refl, Option, none, some, [], ◌∷◌, Bool, true, false, ◌++◌, replicate, arith,
}
use guillemot_core.Prelude.Int.{to_short, ℤ, pos, negsuc, ◌+ℤ◌, leb_ℤ}
use guillemot_core.Prelude.Action.{◌>>=◌, modify, pure, gets}
use guillemot_core.Motor.HighLevel.{Control}
use guillemot_core.Motor.NodeTests.{hundredths, control}
use guillemot_core.Buoys.{
  red, green, ImgRecObject, buoys_task, buoy, module_enable, task_complete, World, M, init,
  dispatch, module_enable_callback, publish, is_buoy_visible, spin_once, deliver, arrive_from,
  pop_from, buoy_callback, push_sample, back, clear_past_samples,
}
use guillemot_core.Buoys.Task.{
  Distances, center_on_buoy, center_attempts, perform_task, perform, find_red, drive_loop, approach,
  back_off, bump_both, bump_buoy, bump_buoys, bump_loop, bump_second, center_loop, look_around,
  look, search_buoys, pass_buoys, spin_times, send_point, point_of, is_centered, forget_others,
  get_distance_to_buoy,
}
use guillemot_core.Buoys.Returns.{IsBounded, perform_returns}
use guillemot_core.Buoys.Steering.{sees_red, steer, driven, perform_task_leaves}
use guillemot_core.Buoys.Centering.{IsCentered, center_on_buoy_lem}

-- A distance is the number of pixels, and a buoy of less than 80 is far.
abbrev pixels : Distances ℤ
pixels = record { feet = λ n. n; unknown = pos 0; is_far = λ n. leb_ℤ n (pos 79) }

abbrev seen : ImgRecObject
seen = record {
  stamp = 7;
  center_x = pos 30;
  center_y = negsuc 9;
  height = 40;
  width = 44;
  confidence = pos 1;
}

-- Two batches of messages with three buoys; the second also enables the task once more.
abbrev busy : World
busy = record {
  task = record (init red green) { is_enabled = true };
  queue = [];
  arrivals =
      (buoy red seen ∷ buoy red seen ∷ [])
      ∷ (buoy red seen ∷ module_enable buoys_task true ∷ buoy green seen ∷ [])
      ∷ [];
  log = [];
}

busy-IsBounded : IsBounded 1 busy
unfolding init
busy-IsBounded = record {
  few = omega arith;
  green_short = omega arith;
  yellow_short = omega arith;
  red_short = omega arith;
}

perform_returns_example :
    (r : Bool) × (w' : World) × (perform pixels 2 busy ≡ some (r, w')) × IsBounded 1 w'
perform_returns_example = perform_returns pixels 2 1 busy (omega arith) busy-IsBounded

-- The same with no message that enables the task, and two samples that were seen before.
abbrev calm : World
calm = record busy { arrivals = (buoy red seen ∷ buoy red seen ∷ buoy red seen ∷ []) ∷ [] }

calm-IsBounded : IsBounded 0 calm
unfolding init
calm-IsBounded = record {
  few = omega arith;
  green_short = omega arith;
  yellow_short = omega arith;
  red_short = omega arith;
}

-- No run starts inside.
abbrev no_run : M Bool
no_run = λ w. none

abbrev hundredths_of : ℤ → ℕ
hundredths_of (pos n) = n
hundredths_of (negsuc n) = 0

abbrev steered : World → Control ℕ
steered w = steer hundredths hundredths_of control w.log

perform_task_leaves_example :
    (r : Bool) × (w' : World) × (perform_task pixels no_run calm ≡ some (r, w'))
    × ((steered w' ≡ driven hundredths hundredths_of (pos 0) (steered calm))
        ⊎ ((r ≡ false)
            × (steered w' ≡ driven hundredths hundredths_of (pos 125) (steered calm))
            × (sees_red w' ≡ false)))
perform_task_leaves_example =
    perform_task_leaves hundredths hundredths_of pixels no_run control calm calm-IsBounded

center_on_buoy_lem_example :
    (r : Bool) × (w' : World) × (center_on_buoy no_run red calm ≡ some (r, w'))
    × ((w'.task.green_samples ≡ []) × (w'.task.yellow_samples ≡ []) × (w'.task.red_samples ≡ []))
    × (r ≡ true → IsCentered w'.log)
center_on_buoy_lem_example = center_on_buoy_lem no_run red calm calm-IsBounded

-- A run that gives up at once.
abbrev gives_up : M Bool
gives_up = λ w. some (false, w)

abbrev blinded : World
blinded = record calm { log = task_complete false ∷ []; task = init red green }

disabled_run : dispatch gives_up (module_enable buoys_task true) calm ≡ some (tt, blinded)
unfolding dispatch module_enable_callback ◌>>=◌ modify publish init
disabled_run = refl

-- Both buoys are seen all the time, a little off the centre.
abbrev goes_well : Option (Bool × World) → Bool
goes_well none = false
goes_well (some (r, w)) = r

abbrev clear_view : World
clear_view = record busy {
  arrivals = replicate 400 (replicate 3 (buoy red seen) ++ replicate 3 (buoy green seen));
}

both_bumped : goes_well (perform pixels 1 clear_view) ≡ true
unfolding perform perform_task ◌>>=◌ find_red is_buoy_visible gets init drive_loop publish modify
    spin_once deliver arrive_from pop_from dispatch pure buoy_callback push_sample approach back_off
    bump_both bump_buoy bump_buoys bump_loop bump_second center_attempts center_loop center_on_buoy
    look_around look search_buoys pass_buoys spin_times send_point point_of is_centered back
    clear_past_samples forget_others get_distance_to_buoy to_short ◌+ℤ◌
both_bumped = refl
