-- ===== src/Torpedo/Outcome.antt =====
-- How a run of the torpedo task ends, by where the red buoy was last seen.
use guillemot_core.Prelude.{
  ℕ, zero, suc, ◌≡◌, ◌≢◌, inl, inr, refl, ap, Bool-cases, List, [], ◌∷◌, ◌++◌, true, false, ltb,
  ◌==◌, if◌then◌else◌, replicate, arith,
}
use guillemot_core.Prelude.Run.{done, hang, map_run}
use guillemot_core.Torpedo.{
  ImgRecObject, red, blue, Output, drive, center_on_point, torpedo_launch, TorpedoTask, init,
  red_buoy_callback, is_centered, center_on_red_buoy, await_buoy, close_in, center_times,
  fire_at_buoy, perform_task, module_enable_callback,
}

module _ (b : ImgRecObject) where
  abbrev here : Output
  here = center_on_point b.center_x b.center_y

  await_none : (retries : ℕ) → b.height ≡ 0 → await_buoy retries b.height ≡ 0
  unfolding await_buoy
  await_none zero e = refl
  await_none (suc retries) e = ground (arith, await_none retries e)

  centered_once :
      (rounds : ℕ) → is_centered b ≡ true → center_on_red_buoy (suc rounds) b ≡ done (here ∷ [])
  unfolding center_on_red_buoy
  centered_once rounds c = rw c

  off_centre-hangs : (rounds : ℕ) → is_centered b ≡ false → center_on_red_buoy rounds b ≡ hang
  unfolding center_on_red_buoy
  off_centre-hangs zero c = refl
  off_centre-hangs (suc rounds) c = rw (c, off_centre-hangs rounds c)

  centered_times :
      (times rounds : ℕ)
      → is_centered b ≡ true
      → center_times times (suc rounds) b ≡ done (replicate times here)
  unfolding center_times
  centered_times zero rounds c = refl
  centered_times (suc times) rounds c = rw (centered_once rounds c, centered_times times rounds c)

  small_close_in :
      (retries rounds : ℕ)
      → is_centered b ≡ true
      → ltb b.height 75 ≡ true
      → close_in (suc rounds) retries b ≡ done (replicate retries here)
  unfolding close_in
  small_close_in zero rounds c small = refl
  small_close_in (suc retries) rounds c small =
      rw (small, centered_once rounds c, small_close_in retries rounds c small)

  large_close_in :
      (retries rounds : ℕ) → ltb b.height 75 ≡ false → close_in rounds (suc retries) b ≡ done []
  unfolding close_in
  large_close_in retries rounds large = rw large

  small_off_centre :
      (rounds : ℕ) → is_centered b ≡ false → ltb b.height 75 ≡ true → close_in rounds 150 b ≡ hang
  unfolding close_in
  small_off_centre rounds c small = rw (small, off_centre-hangs rounds c)

  -- How often the buoy is centred on while it is small.
  abbrev pub closing : ℕ
  closing = if ltb b.height 75 then 150 else 0

  centered_close_in :
      (rounds : ℕ)
      → is_centered b ≡ true
      → close_in (suc rounds) 150 b ≡ done (replicate closing here)
  centered_close_in rounds c = elim (Bool-cases (ltb b.height 75)) [
    | inl small ↦ rw small (small_close_in 150 rounds c small)
    | inr large ↦ rw large (large_close_in 149 (suc rounds) large)
  ]

  -- The run of a buoy that is centred.
  abbrev pub fires : List Output
  fires =
      drive 75 ∷ drive 75 ∷ replicate closing here
      ++ (drive 0 ∷ replicate 5 here
          ++ (torpedo_launch red ∷ replicate 5 here ++ (torpedo_launch blue ∷ [])))

  -- A run without a buoy.
  no_buoy : (rounds : ℕ) → b.height ≡ 0 → perform_task rounds b ≡ done (false, drive 75 ∷ [])
  unfolding perform_task
  no_buoy rounds e = rw (await_none 150 e)

  found : b.height ≢ 0 → (await_buoy 150 b.height == 0) ≡ false
  unfolding await_buoy
  found h = ground arith

  centered_run :
      (rounds : ℕ)
      → b.height ≢ 0
      → is_centered b ≡ true
      → perform_task (suc rounds) b ≡ done (true, fires)
  unfolding perform_task fire_at_buoy
  centered_run rounds h c = rw (found h, centered_close_in rounds c, centered_times 5 rounds c)

  off_centre_times :
      (times rounds : ℕ) → is_centered b ≡ false → center_times (suc times) rounds b ≡ hang
  unfolding center_times
  off_centre_times times rounds c = rw (off_centre-hangs rounds c)

  -- The first loop that centres hangs, or the five calls behind it do.
  off_centre_run :
      (rounds : ℕ) → b.height ≢ 0 → is_centered b ≡ false → perform_task rounds b ≡ hang
  unfolding perform_task fire_at_buoy
  off_centre_run rounds h c = elim (Bool-cases (ltb b.height 75)) [
    | inl small ↦ rw (found h, small_off_centre rounds c small)
    | inr large ↦ rw (found h, large_close_in 149 rounds large, off_centre_times 4 rounds c)
  ]

-- Where the centring loops get one round at least, a run has one of three outcomes. With no red
-- buoy seen (of height 0) it drives forward and fails, still driving. With a buoy within 20 pixels of
-- the centre it drives forward, centres on it 150 times if it is smaller than 75, stops, and fires
-- the red and then the blue torpedo, after five points each. With any other buoy it never returns.
pub perform_task_lem :
    (rounds : ℕ) (b : ImgRecObject)
    → perform_task (suc rounds) b ≡ (
        if b.height == 0
        then done (false, drive 75 ∷ [])
        else if is_centered b
        then done (true, fires b)
        else hang)
perform_task_lem rounds b = elim (Bool-cases (b.height == 0)) [
  | inl none' ↦ rw none' (no_buoy b (suc rounds) (ground arith))
  | inr some' ↦ elim (Bool-cases (is_centered b)) [
    | inl c ↦ rw (some', c) (centered_run b rounds (ground arith) c)
    | inr c ↦ rw (some', c) (off_centre_run b (suc rounds) (ground arith) c)
  ]
]

-- The messages that arrive before the task is enabled are thrown away.
unfoldable pub after_messages : List ImgRecObject → TorpedoTask → TorpedoTask
after_messages [] t = t
after_messages (msg ∷ msgs) t = after_messages msgs (red_buoy_callback msg t)

messages_ignored :
    (msgs : List ImgRecObject) (stamp : ℕ) → after_messages msgs (init stamp) ≡ init stamp
unfolding after_messages red_buoy_callback init
messages_ignored [] stamp = refl
messages_ignored (msg ∷ msgs) stamp = messages_ignored msgs stamp

-- The first run always fails: whatever buoys are seen before the task is enabled, it only drives
-- forward, and goes on driving, with the task left enabled.
pub first_run_fails :
    (msgs : List ImgRecObject) (stamp rounds : ℕ)
    → module_enable_callback rounds true true (after_messages msgs (init stamp))
      ≡ done (record (init stamp) { is_enabled = true }, drive 75 ∷ [])
unfolding module_enable_callback init
first_run_fails msgs stamp rounds = rw (messages_ignored msgs stamp) (
    ap (map_run (λ r. (record (init stamp) { is_enabled = true }, r.1)))
      (no_buoy (init stamp).red_buoy_location rounds refl))
