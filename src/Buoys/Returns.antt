-- ===== src/Buoys/Returns.antt =====
-- A run of the buoys task returns, however messages arrive, and its sample lists stay short.
use guillemot_core.Prelude.{
  ℕ, zero, suc, ◌+◌, ◌-◌, ◌≤◌, ◌<◌, ◌≡◌, refl, ap, Option, none, some, List, [], ◌∷◌, ◌++◌, Bool,
  true, false, length, length-drop, length-append, arith,
}
use guillemot_core.Prelude.Action.{
  modify, Ensures, Ensures-pure, Ensures-modify, Ensures-mono, Ensures-bind, Ensures-Keeps,
  Keeps-Ensures, Keeps, Keeps-pure, Keeps-gets, Keeps-modify, ◌▹◌,
}
use guillemot_core.Buoys.{
  BuoyColor, green, yellow, red, BuoyData, ImgRecObject, buoys_task, other_module, Event, buoy,
  module_enable, Output, task_complete, World, M, publish, push_sample, buoy_data, buoy_callback,
  set_enabled, clear_past_samples, module_enable_callback, dispatch, deliver_next, deliver, pop,
  pop_from, arrive_from, spin_once,
}
use guillemot_core.Buoys.Task.{Distances, forget_others, perform}
use guillemot_core.Buoys.Keeps.{IsKept, Keeps-perform_task}

-- The messages that enable the task, which start a run.
abbrev pub starts : Event → ℕ
starts (module_enable buoys_task true) = 1
starts (module_enable buoys_task false) = 0
starts (module_enable other_module b) = 0
starts (buoy color msg) = 0

abbrev pub count_starts : List Event → ℕ
count_starts [] = 0
count_starts (e ∷ es) = starts e + count_starts es

abbrev pub count_later : List (List Event) → ℕ
count_later [] = 0
count_later (es ∷ later) = count_starts es + count_later later

count_starts-append :
    (xs ys : List Event) → count_starts (xs ++ ys) ≡ count_starts xs + count_starts ys
count_starts-append [] ys = omega arith
count_starts-append (x ∷ xs) ys = omega (arith, count_starts-append xs ys)

-- At most `runs` messages that enable the task are queued or arrive later, and no list of samples
-- is longer than 50.
pub record IsBounded (runs : ℕ) (w : World) : Type 0 where
  pub few : count_starts w.queue + count_later w.arrivals ≤ runs
  pub green_short : length w.task.green_samples ≤ 50
  pub yellow_short : length w.task.yellow_samples ≤ 50
  pub red_short : length w.task.red_samples ≤ 50

push_sample_short :
    (x : BuoyData) (xs : List BuoyData) → length xs ≤ 50 → length (push_sample x xs) ≤ 50
unfolding push_sample
push_sample_short x xs h = ground (arith, length-append xs (x ∷ []), length-drop 1 (xs ++ x ∷ []))

pub buoy_callback-IsBounded :
    (k : ℕ) (color : BuoyColor) (msg : ImgRecObject) (w : World)
    → IsBounded k w
    → IsBounded k (record w { task = buoy_callback color msg w.task })
unfolding buoy_callback
buoy_callback-IsBounded k green msg w v =
    ground (arith, push_sample_short (buoy_data msg) w.task.green_samples)
buoy_callback-IsBounded k yellow msg w v =
    ground (arith, push_sample_short (buoy_data msg) w.task.yellow_samples)
buoy_callback-IsBounded k red msg w v =
    ground (arith, push_sample_short (buoy_data msg) w.task.red_samples)

pub arrive_from-IsBounded :
    (k : ℕ) (l : List (List Event)) (w : World)
    → w.arrivals ≡ l
    → IsBounded k w
    → IsBounded k (arrive_from l w)
unfolding arrive_from
arrive_from-IsBounded k [] w e v = v
arrive_from-IsBounded k (es ∷ later) w e v = record {
  few = omega (arith, v.few, ap count_later e, count_starts-append w.queue es);
  green_short = v.green_short;
  yellow_short = v.yellow_short;
  red_short = v.red_short;
}

-- The runs that the message which was taken starts, if there was one.
abbrev pub cost : Option Event → ℕ
cost none = 0
cost (some e) = starts e

pub pop_from-IsBounded :
    (k : ℕ) (l : List Event) (w : World)
    → w.queue ≡ l
    → IsBounded k w
    → (let (e, w') = pop_from l w in (cost e ≤ k) × IsBounded (k - cost e) w')
unfolding pop_from
pop_from-IsBounded k [] w e v = (
  omega arith,
  record {
    few = omega (arith, v.few);
    green_short = v.green_short;
    yellow_short = v.yellow_short;
    red_short = v.red_short;
  },
)
pop_from-IsBounded k (x ∷ xs) w e v = (
  omega (arith, v.few, ap count_starts e),
  record {
    few = omega (arith, v.few, ap count_starts e);
    green_short = v.green_short;
    yellow_short = v.yellow_short;
    red_short = v.red_short;
  },
)

pub IsBounded-le : (j k : ℕ) (w : World) → j ≤ k → IsBounded j w → IsBounded k w
IsBounded-le j k w le v = record {
  few = omega (arith, v.few);
  green_short = v.green_short;
  yellow_short = v.yellow_short;
  red_short = v.red_short;
}

pub set_enabled-IsBounded : (k : ℕ) (b : Bool) → Keeps (IsBounded k) (modify (set_enabled b))
set_enabled-IsBounded k b = Keeps-modify _ (λ w v. record {
  few = v.few;
  green_short = v.green_short;
  yellow_short = v.yellow_short;
  red_short = v.red_short;
})

publish-IsBounded : (k : ℕ) (o : Output) → Keeps (IsBounded k) (publish o)
unfolding publish
publish-IsBounded k o = Keeps-modify _ (λ w v. record {
  few = v.few;
  green_short = v.green_short;
  yellow_short = v.yellow_short;
  red_short = v.red_short;
})

pub clear-IsBounded : (k : ℕ) → Keeps (IsBounded k) clear_past_samples
unfolding clear_past_samples
clear-IsBounded k = Keeps-modify _ (λ w v. record {
  few = v.few;
  green_short = omega arith;
  yellow_short = omega arith;
  red_short = omega arith;
})

pub forget-IsBounded : (k : ℕ) → Keeps (IsBounded k) forget_others
unfolding forget_others
forget-IsBounded k = Keeps-modify _ (λ w v. record {
  few = v.few;
  green_short = omega arith;
  yellow_short = omega arith;
  red_short = v.red_short;
})

-- A run inside a run returns where fewer messages that start one are left.
module _ (perform : M Bool) (k : ℕ)
    (inner : (j : ℕ) → suc j ≤ k → Keeps (IsBounded j) perform) where
  start-IsBounded :
      (j : ℕ) → suc j ≤ k → Keeps (IsBounded j) (module_enable_callback perform buoys_task true)
  unfolding module_enable_callback
  start-IsBounded j le = set_enabled-IsBounded j true ▹ λ _. inner j le ▹ λ status.
      publish-IsBounded j (task_complete status) ▹ λ _. set_enabled-IsBounded j false

  dispatch-IsBounded :
      (e : Event)
      → Ensures
          (λ w. (starts e ≤ k) × IsBounded (k - starts e) w)
          (dispatch perform e)
          (λ _ w. IsBounded k w)
  unfolding dispatch module_enable_callback
  dispatch-IsBounded (buoy color msg) =
      Ensures-modify _
        (λ w v. buoy_callback-IsBounded k color msg w (IsBounded-le (k - 0) k w (omega arith) v.1))
  dispatch-IsBounded (module_enable buoys_task false) =
      Ensures-mono _ (Ensures-Keeps _ (set_enabled-IsBounded k false))
        (λ w v. IsBounded-le (k - 0) k w (omega arith) v.1) (λ _ w v. v)
  dispatch-IsBounded (module_enable other_module b) =
      Ensures-pure tt (λ w v. IsBounded-le (k - 0) k w (omega arith) v.1)
  dispatch-IsBounded (module_enable buoys_task true) = record {
    at = λ w v.
        let below : suc (k - 1) ≤ k = omega (arith, v.0) in
        let (a, w', e, v') = (start-IsBounded (k - 1) below).at w v.1 in
        (a, w', e, IsBounded-le (k - 1) k w' (omega arith) v');
  }

  deliver_next-IsBounded :
      (e : Option Event)
      → Ensures
          (λ w. (cost e ≤ k) × IsBounded (k - cost e) w)
          (deliver_next perform e)
          (λ _ w. IsBounded k w)
  deliver_next-IsBounded none = Ensures-pure tt (λ w v. IsBounded-le (k - 0) k w (omega arith) v.1)
  deliver_next-IsBounded (some e) = dispatch-IsBounded e

  pop-IsBounded : Ensures (IsBounded k) pop (λ e w. (cost e ≤ k) × IsBounded (k - cost e) w)
  pop-IsBounded = record {
    at = λ w v.
        let (e, w') = pop_from w.queue w in (e, w', refl, pop_from-IsBounded k w.queue w refl v);
  }

  deliver-IsBounded : (n : ℕ) → Keeps (IsBounded k) (deliver perform n)
  unfolding deliver
  deliver-IsBounded zero = Keeps-pure tt
  deliver-IsBounded (suc n) = Keeps-Ensures _ (
      Ensures-bind _ _ pop-IsBounded (λ e.
        Ensures-bind _ _ (deliver_next-IsBounded e) (λ _. Ensures-Keeps _ (deliver-IsBounded n))))

  spin_once-IsBounded : Keeps (IsBounded k) (spin_once perform)
  unfolding spin_once
  spin_once-IsBounded = Keeps-modify _ (λ w v. arrive_from-IsBounded k w.arrivals w refl v) ▹ λ _.
      Keeps-gets _ ▹ λ n. deliver-IsBounded n

  IsBounded-IsKept : IsKept perform (IsBounded k)
  IsBounded-IsKept = record {
    offsetting = λ direction n. publish-IsBounded k _;
    centering = λ x y. publish-IsBounded k _;
    spinning = spin_once-IsBounded;
    clearing = clear-IsBounded k;
    forgetting = forget-IsBounded k;
  }

perform-IsBounded :
    {Feet : Type 0} (d : Distances Feet) (n k : ℕ) → k < n → Keeps (IsBounded k) (perform d n)
unfolding perform
perform-IsBounded d zero k lt = absurd (omega arith)
perform-IsBounded d (suc n) k lt =
    Keeps-perform_task
      (IsBounded-IsKept (perform d n) k (λ j le. perform-IsBounded d n j (omega arith))) d
      (publish-IsBounded k _) (publish-IsBounded k _)

-- Where fewer than `n` messages that enable the task are queued or arrive later, a run with inner
-- runs up to `n` deep returns, and leaves at most 50 samples of each buoy, if there were no more.
pub perform_returns :
    {Feet : Type 0} (d : Distances Feet) (n k : ℕ) (w : World)
    → k < n
    → IsBounded k w
    → (r : Bool) × (w' : World) × (perform d n w ≡ some (r, w')) × IsBounded k w'
perform_returns d n k w lt v = (perform-IsBounded d n k lt).at w v

-- Where nothing enables the task again, spinning does not start a run.
pub quiet_spin : (perform : M Bool) → Keeps (IsBounded 0) (spin_once perform)
quiet_spin perform = spin_once-IsBounded perform 0 (λ j le. absurd (omega arith))
