-- ===== src/Depth.antt =====
-- SubDepthController.cpp: a controller that turns the depth into a speed of the depth motors.
use guillemot_core.Prelude.{
  ℕ, Bool, true, false, ◌&&◌, if◌then◌else◌, Option, none, some, List, [], ◌∷◌,
}
use guillemot_core.Prelude.Int.{ℤ, pos, negsuc, sub_ℕ}
use guillemot_core.Prelude.Float.{Floats}
use guillemot_core.Prelude.Node.{to_list}
use guillemot_core.Motor.Time.{Time}
pub mod Bounds
pub mod Tests

-- The gains, which the command line may set, and the limit of the integrator.
pub record Gains (F : Type 0) : Type 0 where
  pub k_i : F
  pub k_p : F
  pub i_max : F

pub record DepthController (F : Type 0) : Type 0 where
  pub target_depth : F
  pub y_old : F
  pub e_old : F
  pub t_old : Time
  pub mode : Bool

-- What the controller hears.
pub data Event (F : Type 0) : Type 0 where
  target_heard : F → Event F
  enabled_heard : (ours state : Bool) → Event F
  depth_heard : F → (first now : Time) → Event F

module _ {F : Type 0} (f : Floats F) (g : Gains F) where
  open f use {lit, of_int, to_float, add, sub, mul, div, neg, abs, lt, eq}

  abbrev pub zero_f : F
  zero_f = lit (pos 0) 0

  abbrev pub one_f : F
  one_f = lit (pos 1) 0

  -- The error that is small enough is 0.
  unfoldable pub dead_zone : F → F
  dead_zone error = if lt (abs error) (lit (pos 2) 2) then zero_f else error

  unfoldable pub proportional : F → F
  proportional error =
      to_float (if lt zero_f error then mul (mul g.k_p error) (lit (pos 5) 2) else mul g.k_p error)

  -- The seconds between two readings of the clock.
  unfoldable pub elapsed : (now old : Time) → F
  elapsed now old = to_float (
      add (to_float (of_int (sub_ℕ now.sec old.sec)))
        (div (of_int (sub_ℕ now.usec old.usec)) (lit (pos 1_000_000) 0)))

  -- The integrator after `t` seconds, before its limit.
  unfoldable pub integrate : (t error y_old e_old : F) → F
  integrate t error y_old e_old =
      let half_step = λ (k : F). mul (div (mul k t) (lit (pos 2) 0)) (add error e_old) in
      to_float
        (add y_old (half_step (if lt zero_f error then mul (lit (pos 5) 1) g.k_i else g.k_i)))

  -- The limit of the integrator.
  unfoldable pub limit_integrator : F → F
  limit_integrator y =
      if lt g.i_max (abs y) then to_float (if lt zero_f y then g.i_max else neg g.i_max) else y

  -- The integrator starts from 0 at the surface.
  unfoldable pub surface_reset : (target error y_old : F) → F
  surface_reset target error y_old =
      if lt target (lit (pos 5) 2) && lt error (lit (pos 1) 1) then zero_f else y_old

  -- It stays as it was where there is no error.
  unfoldable pub hold : (error y_old y : F) → F
  hold error y_old y = if eq error zero_f then y_old else y

  -- What keeps the depth near the target. `first` and `now` are the two readings of the clock.
  unfoldable pub regulate :
      (error : F) (first now : Time) → DepthController F → DepthController F × F
  regulate error first now c =
      let error' = dead_zone error in
      let y_old = surface_reset c.target_depth error' c.y_old in
      let t_old = if eq y_old zero_f && eq c.e_old zero_f then first else c.t_old in
      let y = limit_integrator (integrate (elapsed now t_old) error' y_old c.e_old) in
      let y' = hold error' y_old y in
      (
        record c { y_old = y'; e_old = error'; t_old = now },
        to_float (add (proportional error') y'),
      )

  unfoldable pub reset : DepthController F → DepthController F
  reset c = record c { y_old = zero_f; e_old = zero_f }

  -- The speed before its limit.
  unfoldable pub choose_speed :
      (depth : F) (first now : Time) → DepthController F → DepthController F × F
  choose_speed depth first now c =
      let error = to_float (sub depth c.target_depth) in
      if lt (lit (pos 5) 1) error && lt depth one_f
      then (reset c, neg one_f)
      else if lt (lit (pos 15) 1) error && lt one_f depth
      then (reset c, one_f)
      else if lt error (neg (lit (pos 15) 1)) && lt one_f depth
      then (reset c, neg one_f)
      else regulate error first now c

  unfoldable pub limit_speed : F → F
  limit_speed speed =
      if lt one_f speed then one_f else if lt speed (neg one_f) then neg one_f else speed

  -- The speed that is published, if the controller is on.
  unfoldable pub current_depth_callback :
      (depth : F) (first now : Time) → DepthController F → DepthController F × Option F
  current_depth_callback depth first now c =
      if c.mode
      then (let (c', speed) = choose_speed depth first now c in
          (c', some (neg (limit_speed speed))))
      else (c, none)

  unfoldable pub target_depth_callback : F → DepthController F → DepthController F
  target_depth_callback target c = record c { target_depth = target }

  -- `ours` is whether the module is Simple_Depth.
  unfoldable pub enabled_callback : (ours state : Bool) → DepthController F → DepthController F
  enabled_callback ours state c = if ours then record c { mode = state } else c

  -- The callbacks of `main`.
  unfoldable pub handle : Event F → DepthController F → DepthController F × List F
  handle (target_heard v) c = (target_depth_callback v c, [])
  handle (enabled_heard ours state) c = (enabled_callback ours state c, [])
  handle (depth_heard v first now) c =
      let (c', speed) = current_depth_callback v first now c in (c', to_list speed)
