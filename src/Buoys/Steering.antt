-- ===== src/Buoys/Steering.antt =====
-- What commandCallback of HighLevelControl.cpp makes of the commands of a run of the buoys task.
use guillemot_core.Prelude.{
  ◌≡◌, refl, ap, ◌∙◌, ◌⊎◌, inl, inr, List, [], ◌∷◌, Bool, true, false, some, leb, length,
}
use guillemot_core.Prelude.Int.{ℤ, pos}
use guillemot_core.Prelude.Action.{
  Ensures, Ensures-pure, Ensures-gets, Ensures-if, Ensures-mono, Ensures-Keeps, Keeps-Ensures,
  Keeps, Keeps-pure, Keeps-gets, Keeps-either, ◌▹◌, ◌▸◌,
}
use guillemot_core.Motor.HighLevel.{Mode, manual, Doubles, Control, make_speed}
use guillemot_core.Motor.HighLevel.Command.{
  Direction, forward, turn, strafe, depth, yaw, pitch, pivot, other_direction, by_hand,
  other_motion, command_callback,
}
use guillemot_core.Buoys.{
  red, Output, high_level, center_on_point, task_complete, World, M, is_buoy_visible,
}
use guillemot_core.Buoys.Task.{Distances, drive_loop, find_red, bump_buoys, perform_task}
use guillemot_core.Buoys.Keeps.{
  IsKept, drive, Keeps-drive_loop, Keeps-find_red, Keeps-search_buoys, Keeps-look_around,
  Keeps-spin_times, Keeps-center_attempts, Keeps-bump_both, Keeps-distance, Keeps-approach,
}
use guillemot_core.Buoys.Returns.{IsBounded}
use guillemot_core.Buoys.Quiet.{IsQuiet, publish-IsQuiet, IsQuiet-IsKept}

-- Three samples of the red buoy.
abbrev pub sees_red : World → Bool
sees_red w = leb 3 (length w.task.red_samples)

module _ {Value : Type 0} (m : Doubles Value) (value : ℤ → Value) where
  -- The control after the commands that have been published, the last first, in the order in which
  -- they were. The topic delivers each of them.
  unfoldable pub steer : Control Value → List Output → Control Value
  steer c [] = c
  steer c (high_level direction motion n ∷ log) =
      command_callback m direction motion (value n) (steer c log)
  steer c (center_on_point x y ∷ log) = steer c log
  steer c (task_complete b ∷ log) = steer c log

  offset-ignored :
      (direction : Direction) (v : Value) (c : Control Value)
      → command_callback m direction other_motion v c ≡ c
  unfolding command_callback
  offset-ignored forward v c = refl
  offset-ignored turn v c = refl
  offset-ignored strafe v c = refl
  offset-ignored depth v c = refl
  offset-ignored yaw v c = refl
  offset-ignored pitch v c = refl
  offset-ignored pivot v c = refl
  offset-ignored other_direction v c = refl

  -- `k` with the forward thrusters by hand at `n`.
  abbrev pub driven : ℤ → Control Value → Control Value
  driven n k = record k { forward_mode = manual; forward_speed = make_speed m (value n) }

  module _ (c k : Control Value) where
    -- Of `k` at most the forward mode and speed have changed.
    record OnlyForward (log : List Output) : Type 0 where
      mode : Mode
      speed : ℤ
      same : steer c log ≡ record k { forward_mode = mode; forward_speed = speed }

    abbrev Drives : ℤ → List Output → Type 0
    Drives n log = steer c log ≡ driven n k

    OnlyForward-drive :
        (n : ℤ) (log : List Output)
        → OnlyForward log
        → Drives n (high_level forward by_hand n ∷ log)
    unfolding steer command_callback
    OnlyForward-drive n log o = ap (command_callback m forward by_hand (value n)) o.same

    Drives-OnlyForward : (n : ℤ) (log : List Output) → Drives n log → OnlyForward log
    Drives-OnlyForward n log e = record { mode = manual; speed = make_speed m (value n); same = e }

    same-OnlyForward : (log : List Output) → steer c log ≡ k → OnlyForward log
    same-OnlyForward log e = record { mode = k.forward_mode; speed = k.forward_speed; same = e }

    OnlyForward-IsKept : (perform : M Bool) → IsKept perform (IsQuiet OnlyForward)
    unfolding steer
    OnlyForward-IsKept perform =
        IsQuiet-IsKept perform
          (λ direction n log o. record {
            mode = o.mode;
            speed = o.speed;
            same = offset-ignored direction (value n) (steer c log) ∙ o.same;
          })
          (λ x y log o. record { mode = o.mode; speed = o.speed; same = o.same })

    Drives-IsKept : (perform : M Bool) (n : ℤ) → IsKept perform (IsQuiet (Drives n))
    unfolding steer
    Drives-IsKept perform n =
        IsQuiet-IsKept perform
          (λ direction i log e. offset-ignored direction (value i) (steer c log) ∙ e)
          (λ x y log e. e)

    start-driving : (n : ℤ) → Ensures (IsQuiet OnlyForward) (drive n) (λ _ w. IsQuiet (Drives n) w)
    start-driving n = publish-IsQuiet _ (OnlyForward-drive n)

    still-driving : (n : ℤ) → Keeps (IsQuiet (Drives n)) (drive n)
    still-driving n =
        Keeps-Ensures _
          (publish-IsQuiet _ (λ log e. OnlyForward-drive n log (Drives-OnlyForward n log e)))

    eased : (w : World) → IsQuiet (Drives (pos 125)) w → IsQuiet OnlyForward w
    eased w v = record { bounded = v.bounded; sent = Drives-OnlyForward (pos 125) w.log v.sent }

    -- From the red buoy on, the run ends with the forward thrusters at 0.
    module _ {Feet : Type 0} (d : Distances Feet) (perform : M Bool) where
      driving : IsKept perform (IsQuiet (Drives (pos 125)))
      driving = Drives-IsKept perform (pos 125)

      both_ways : {a b : Bool} {P : Type 0} → b ≡ true → (P × (a ≡ false)) × (a ≡ b) → ⊥
      both_ways e v = cc (e, v.0.1, v.1)

      bump_buoys-stops :
          Ensures (IsQuiet OnlyForward) (bump_buoys d perform) (λ _ w. IsQuiet (Drives (pos 0)) w)
      unfolding bump_buoys
      bump_buoys-stops =
          let free = OnlyForward-IsKept perform in
          let stopped = Drives-IsKept perform (pos 0) in
          Ensures-Keeps _ free.forgetting ▸ λ _.
          Ensures-Keeps _ (Keeps-distance free d red) ▸ λ distance.
          Ensures-mono _ (start-driving (pos 125)) (λ w v. v) (λ _ w v. eased w v) ▸ λ _.
          Ensures-Keeps _ (Keeps-approach free d 40 distance) ▸ λ _. start-driving (pos 0) ▸ λ _.
          Ensures-Keeps _ (
            Keeps-spin_times stopped 10 ▹ λ _. Keeps-gets _ ▹ λ first.
            Keeps-look_around stopped first ▹ λ _.
            Keeps-center_attempts stopped 20 first ▹ λ centered. Keeps-bump_both stopped centered)

      -- The search, from where the red buoy is not visible, leaves the thrusters driving.
      first_drive :
          Ensures
            (λ w. IsQuiet OnlyForward w × (sees_red w ≡ false))
            (drive_loop perform 30)
            (λ _ w. IsQuiet (Drives (pos 125)) w)
      unfolding drive_loop is_buoy_visible
      first_drive =
          Ensures-gets
            {Q = λ a w. (IsQuiet OnlyForward w × (sees_red w ≡ false)) × (sees_red w ≡ a)} sees_red
            (λ w v. (v, refl))
          ▸ λ seen.
              Ensures-if seen _ _ (λ e. record { at = λ w v. absurd (both_ways e v) })
                (λ _. Ensures-mono _ (start-driving (pos 125)) (λ w v. v.0.0) (λ _ w v. v) ▸ λ _.
                  Ensures-Keeps _
                    (driving.spinning ▹ λ _. Keeps-drive_loop driving (still-driving (pos 125)) 29))

      -- The search, from where nothing has been published.
      find_red-Drives :
          Ensures
            (IsQuiet (λ log. steer c log ≡ k))
            (find_red perform 10)
            (λ _ w. IsQuiet (Drives (pos 125)) w ⊎ (IsQuiet OnlyForward w × (sees_red w ≡ true)))
      unfolding find_red is_buoy_visible
      find_red-Drives =
          Ensures-gets {Q = λ a w. IsQuiet OnlyForward w × (sees_red w ≡ a)} sees_red
            (λ w v. (record { bounded = v.bounded; sent = same-OnlyForward w.log v.sent }, refl))
          ▸ λ seen.
              Ensures-if seen _ _ (λ e. Ensures-pure tt (λ w v. inr (v.0, v.1 ∙ e)))
                (λ e. Ensures-mono _ first_drive (λ w v. (v.0, v.1 ∙ e)) (λ _ w v. v) ▸ λ _.
                  Ensures-mono _
                    (Ensures-Keeps _ (
                      Keeps-gets sees_red ▹ λ seen'.
                      Keeps-either seen' (Keeps-pure tt) (Keeps-search_buoys driving red) ▹ λ _.
                      Keeps-find_red driving (still-driving (pos 125)) 9))
                    (λ w v. v) (λ _ w v. inl v))

      -- How a run ends: stopped, or given up, with no red buoy in sight, and driving on.
      Ends : Bool → World → Type 0
      Ends r w =
          Drives (pos 0) w.log ⊎ ((r ≡ false) × Drives (pos 125) w.log × (sees_red w ≡ false))

      found :
          (w : World)
          → IsQuiet (Drives (pos 125)) w ⊎ (IsQuiet OnlyForward w × (sees_red w ≡ true))
          → IsQuiet OnlyForward w
      found w (inl v) = eased w v
      found w (inr v) = v.0

      given_up :
          (w : World)
          → sees_red w ≡ false
          → IsQuiet (Drives (pos 125)) w ⊎ (IsQuiet OnlyForward w × (sees_red w ≡ true))
          → Ends false w
      unfolding Ends
      given_up w e (inl v) = inr (refl, v.sent, e)
      given_up w e (inr v) = absurd (cc (e, v.1))

      perform_task-Ends : Ensures (IsQuiet (λ log. steer c log ≡ k)) (perform_task d perform) Ends
      unfolding perform_task is_buoy_visible Ends
      perform_task-Ends = find_red-Drives ▸ λ _.
          Ensures-gets
            {Q = λ a w.
              (IsQuiet (Drives (pos 125)) w ⊎ (IsQuiet OnlyForward w × (sees_red w ≡ true)))
              × (sees_red w ≡ a)}
            sees_red (λ w v. (v, refl))
          ▸ λ seen.
              Ensures-if seen _ _
                (λ _. Ensures-mono _ bump_buoys-stops (λ w v. found w v.0) (λ _ w v. inl v.sent))
                (λ e. Ensures-pure false (λ w v. given_up w (v.1 ∙ e) v.0))

  -- A run in which nothing enables the task again returns. Of all that it commands only the drive
  -- forward takes effect: the control differs from the one before at most in the forward mode and
  -- speed. They are by hand at 0; or, where the run has failed and the red buoy is not visible, they
  -- may be by hand at 125, as they were during the search.
  pub perform_task_leaves :
      {Feet : Type 0} (d : Distances Feet) (perform : M Bool) (c : Control Value) (w : World)
      → IsBounded 0 w
      → (r : Bool) × (w' : World) × (perform_task d perform w ≡ some (r, w'))
        × ((steer c w'.log ≡ driven (pos 0) (steer c w.log))
            ⊎ ((r ≡ false)
                × (steer c w'.log ≡ driven (pos 125) (steer c w.log))
                × (sees_red w' ≡ false)))
  unfolding Ends
  perform_task_leaves d perform c w v =
      (perform_task-Ends c (steer c w.log) d perform).at w (record { bounded = v; sent = refl })
