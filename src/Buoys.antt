-- ===== src/Buoys.antt =====
-- BuoysTask.hpp and BuoysTask.cpp: the state of the task, its callbacks, and what a call of
-- ros::spinOnce does to it. The search for the buoys and the task itself are in Buoys.Task.
-- Waiting (usleep, sleep) and printing change no state and are left out.
use guillemot_core.Prelude.{
  ℕ, zero, suc, ◌+◌, ◌-◌, ◌^◌, Option, none, some, List, [], ◌∷◌, ◌++◌, Bool, true, false, ◌&&◌,
  if◌then◌else◌, length, drop, ltb, leb,
}
use guillemot_core.Prelude.Int.{to_short, ℤ, pos, negsuc, ◌+ℤ◌, leb_ℤ, ◌==ℤ◌}
use guillemot_core.Prelude.Action.{Action, pure, gets, modify, ◌>>=◌, ◌>>◌}
use guillemot_core.Motor.HighLevel.Command.{Direction, MotionType}
pub mod Task
pub mod Keeps
pub mod Returns
pub mod Quiet
pub mod Steering
pub mod Centering
pub mod Tests

pub data BuoyColor : Type 0 where
  green yellow red : BuoyColor

pub record BuoyData : Type 0 where
  pub sample_time : ℕ
  pub center_x : ℤ
  pub center_y : ℤ
  pub height : ℤ
  pub width : ℤ
  pub confidence : ℤ

-- A message of the image recognition, with the fields that the task reads. The confidence, a float,
-- is given as the `short` that it is stored as.
pub record ImgRecObject : Type 0 where
  pub stamp : ℕ
  pub center_x : ℤ
  pub center_y : ℤ
  pub height : ℕ
  pub width : ℕ
  pub confidence : ℤ

pub data ModuleName : Type 0 where
  buoys_task other_module : ModuleName

-- What arrives from the topics that the task subscribes to.
pub data Event : Type 0 where
  buoy : BuoyColor → ImgRecObject → Event
  module_enable : ModuleName → Bool → Event

-- What the task publishes. The values of its commands are whole numbers.
pub data Output : Type 0 where
  high_level : Direction → MotionType → ℤ → Output
  center_on_point : ℤ → ℤ → Output
  task_complete : Bool → Output

-- The members that change, and the two colours; the pointers to the lists to bump are read by
-- nothing. A list has its front first.
pub record BuoysTask : Type 0 where
  pub first_to_bump : BuoyColor
  pub second_to_bump : BuoyColor
  pub is_enabled : Bool
  pub green_samples : List BuoyData
  pub yellow_samples : List BuoyData
  pub red_samples : List BuoyData

-- The task and its surroundings: the messages that are queued, those that each later call of
-- ros::spinOnce finds besides, and what has been published, the last first.
pub record World : Type 0 where
  pub task : BuoysTask
  pub queue : List Event
  pub arrivals : List (List Event)
  pub log : List Output

abbrev pub M : Type 0 → Type 0
M A = Action World A

unfoldable pub init : (first second : BuoyColor) → BuoysTask
init first second = record {
  first_to_bump = first;
  second_to_bump = second;
  is_enabled = false;
  green_samples = [];
  yellow_samples = [];
  red_samples = [];
}

unfoldable pub publish : Output → M (Unit {0})
publish o = modify (λ w. record w { log = o ∷ w.log })

abbrev pub samples : BuoyColor → BuoysTask → List BuoyData
samples green t = t.green_samples
samples yellow t = t.yellow_samples
samples red t = t.red_samples

-- `list.back()`
unfoldable pub back : List BuoyData → Option BuoyData
back [] = none
back (x ∷ []) = some x
back (x ∷ y ∷ xs) = back (y ∷ xs)

abbrev pub buoy_data : ImgRecObject → BuoyData
buoy_data msg = record {
  sample_time = msg.stamp;
  center_x = msg.center_x;
  center_y = msg.center_y;
  height = to_short msg.height;
  width = to_short msg.width;
  confidence = msg.confidence;
}

abbrev pub max_samples : ℕ
max_samples = 50

-- push_back, and pop_front if the list has become too long.
unfoldable pub push_sample : BuoyData → List BuoyData → List BuoyData
push_sample x xs =
    let longer = xs ++ x ∷ [] in if ltb max_samples (length longer) then drop 1 longer else longer

-- The callbacks of the three colours.
unfoldable pub buoy_callback : BuoyColor → ImgRecObject → BuoysTask → BuoysTask
buoy_callback green msg t =
    if t.is_enabled
    then record t { green_samples = push_sample (buoy_data msg) t.green_samples }
    else t
buoy_callback yellow msg t =
    if t.is_enabled
    then record t { yellow_samples = push_sample (buoy_data msg) t.yellow_samples }
    else t
buoy_callback red msg t =
    if t.is_enabled then record t { red_samples = push_sample (buoy_data msg) t.red_samples } else t

abbrev pub set_enabled : Bool → World → World
set_enabled b w = record w { task = record (w.task) { is_enabled = b } }

unfoldable pub clear_past_samples : M (Unit {0})
clear_past_samples = modify (λ w. record w {
  task = record (w.task) { green_samples = []; yellow_samples = []; red_samples = [] };
})

unfoldable pub is_buoy_visible : BuoyColor → M Bool
is_buoy_visible color = gets (λ w. leb 3 (length (samples color w.task)))

-- Takes the first message of the queue, which is given as it stands.
unfoldable pub pop_from : List Event → World → Option Event × World
pop_from [] w = (none, w)
pop_from (e ∷ es) w = (some e, record w { queue = es })

abbrev pub pop : M (Option Event)
pop w = some (pop_from w.queue w)

-- What has arrived since joins the queue.
unfoldable pub arrive_from : List (List Event) → World → World
arrive_from [] w = w
arrive_from (es ∷ later) w = record w { queue = w.queue ++ es; arrivals = later }

abbrev pub arrive : World → World
arrive w = arrive_from w.arrivals w

-- `perform` is performTask, which a message that enables the module calls in the middle of a run.
module _ (perform : M Bool) where
  unfoldable pub module_enable_callback : ModuleName → Bool → M (Unit {0})
  module_enable_callback buoys_task true = do
    modify (set_enabled true)
    status ← perform
    publish (task_complete status)
    modify (set_enabled false)
  module_enable_callback buoys_task false = modify (set_enabled false)
  module_enable_callback other_module state = pure tt

  unfoldable pub dispatch : Event → M (Unit {0})
  dispatch (buoy color msg) = modify (λ w. record w { task = buoy_callback color msg w.task })
  dispatch (module_enable name state) = module_enable_callback name state

  abbrev pub deliver_next : Option Event → M (Unit {0})
  deliver_next none = pure tt
  deliver_next (some e) = dispatch e

  unfoldable pub deliver : ℕ → M (Unit {0})
  deliver zero = pure tt
  deliver (suc n) = do e ← pop; deliver_next e; deliver n

  -- ros::spinOnce calls the callbacks of the messages in the queue, in their order. A callback that
  -- calls it takes messages from the same queue.
  unfoldable pub spin_once : M (Unit {0})
  spin_once = do modify arrive; n ← gets (λ w. length w.queue); deliver n
