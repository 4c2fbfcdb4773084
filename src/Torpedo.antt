-- ===== src/Torpedo.antt =====
-- TorpedoTask.cpp. Its main only calls ros::spin, so no message arrives while performTask runs, and
-- the buoy's location stays as it is. Waiting and printing change no state and are left out.
use guillemot_core.Prelude.{
  ℕ, zero, suc, List, [], ◌∷◌, ◌++◌, Bool, true, false, ◌&&◌, ltb, ◌==◌, if◌then◌else◌,
}
use guillemot_core.Prelude.Int.{ℤ, pos, negsuc, leb_ℤ}
use guillemot_core.Prelude.Run.{Run, done, hang, ◌>>=◌, map_run}
pub mod Outcome
pub mod Tests

-- A message of the image recognition, and the location that is kept of it. The confidence, a float
-- that nothing computes with, is its bit pattern.
pub record ImgRecObject : Type 0 where
  pub stamp : ℕ
  pub center_x : ℤ
  pub center_y : ℤ
  pub height : ℕ
  pub width : ℕ
  pub confidence : ℕ

pub data TorpedoColor : Type 0 where
  red blue : TorpedoColor

-- What the task publishes: a manual speed forward (75 or 0), a point, a torpedo.
pub data Output : Type 0 where
  drive : ℕ → Output
  center_on_point : ℤ → ℤ → Output
  torpedo_launch : TorpedoColor → Output

pub record TorpedoTask : Type 0 where
  pub red_buoy_location : ImgRecObject
  pub is_enabled : Bool

unfoldable pub init : (stamp : ℕ) → TorpedoTask
init stamp = record {
  red_buoy_location = record {
    stamp = stamp;
    center_x = pos 0;
    center_y = pos 0;
    height = 0;
    width = 0;
    confidence = 0;
  };
  is_enabled = false;
}

unfoldable pub red_buoy_callback : ImgRecObject → TorpedoTask → TorpedoTask
red_buoy_callback msg t = if t.is_enabled then record t { red_buoy_location = msg } else t

-- Within 20 pixels of the centre, both ways.
unfoldable pub is_centered : ImgRecObject → Bool
is_centered b =
    leb_ℤ b.center_x (pos 20)
    && leb_ℤ (negsuc 19) b.center_x
    && leb_ℤ b.center_y (pos 20)
    && leb_ℤ (negsuc 19) b.center_y

-- The loop ends when the buoy is centred, and not before: it hangs if the rounds do not suffice.
unfoldable pub center_on_red_buoy : (rounds : ℕ) → ImgRecObject → Run (List Output)
center_on_red_buoy zero b = hang
center_on_red_buoy (suc rounds) b =
    let rest = center_on_red_buoy rounds b in
    map_run (λ os. center_on_point b.center_x b.center_y ∷ os)
      (if is_centered b then done [] else rest)

-- The retries that are left when the loop that waits for the buoy ends.
unfoldable pub await_buoy : (retries height : ℕ) → ℕ
await_buoy zero height = 0
await_buoy (suc retries) height = if height == 0 then await_buoy retries height else suc retries

-- The loop that gets close to the buoy.
unfoldable pub close_in : (rounds retries : ℕ) → ImgRecObject → Run (List Output)
close_in rounds zero b = done []
close_in rounds (suc retries) b =
    if ltb b.height 75
    then (do os ← center_on_red_buoy rounds b; rest ← close_in rounds retries b; done (os ++ rest))
    else done []

-- A number of calls of centerOnRedBuoy one after the other.
unfoldable pub center_times : (times rounds : ℕ) → ImgRecObject → Run (List Output)
center_times zero rounds b = done []
center_times (suc times) rounds b = do
  os ← center_on_red_buoy rounds b
  rest ← center_times times rounds b
  done (os ++ rest)

-- What follows when the buoy has been found.
unfoldable pub fire_at_buoy : (rounds : ℕ) → ImgRecObject → Run (Bool × List Output)
fire_at_buoy rounds b = do
  closing ← close_in rounds 150 b
  first ← center_times 5 rounds b
  second ← center_times 5 rounds b
  done (
    true,
    drive 75 ∷ closing
        ++ (drive 0 ∷ first ++ (torpedo_launch red ∷ second ++ (torpedo_launch blue ∷ []))),
  )

-- Each call of centerOnRedBuoy gets `rounds` rounds.
unfoldable pub perform_task : (rounds : ℕ) → ImgRecObject → Run (Bool × List Output)
perform_task rounds b =
    if await_buoy 150 b.height == 0
    then done (false, drive 75 ∷ [])
    else map_run (λ r. (r.0, drive 75 ∷ r.1)) (fire_at_buoy rounds b)

-- `ours` is whether the module is TorpedoTask. The task stays enabled when a run has ended.
unfoldable pub module_enable_callback :
    (rounds : ℕ) (ours state : Bool) → TorpedoTask → Run (TorpedoTask × List Output)
module_enable_callback rounds true true t =
    map_run (λ r. (record t { is_enabled = true }, r.1)) (perform_task rounds t.red_buoy_location)
module_enable_callback rounds true false t = done (record t { is_enabled = false }, [])
module_enable_callback rounds false state t = done (t, [])
