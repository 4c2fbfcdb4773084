-- ===== src/Depth/Bounds.antt =====
-- The speeds of the depth controller and its integrator stay within their limits.
use guillemot_core.Prelude.{◌≡◌, true, false, ◌&&◌, Option, List}
use guillemot_core.Prelude.Int.{pos}
use guillemot_core.Prelude.Float.{Floats, FloatLaws, IsWithin, neg-clamp}
use guillemot_core.Prelude.Node.{All, to_list, anything, if-P, run, run-All}
use guillemot_core.Motor.Time.{Time}
use guillemot_core.Depth.{
  Gains, DepthController, zero_f, one_f, dead_zone, limit_integrator, surface_reset, hold, regulate,
  reset, choose_speed, limit_speed, current_depth_callback, target_depth_callback, enabled_callback,
  Event, target_heard, enabled_heard, depth_heard, handle,
}

-- The facts about the limit of the integrator and 1, which the values of the code have.
pub record LimitLaws {F : Type 0} (f : Floats F) (g : Gains F) : Type 0 where
  pub zero_within : f.lt g.i_max (f.abs (zero_f f g)) ≡ false
  pub limit_within : f.lt g.i_max (f.abs (f.to_float g.i_max)) ≡ false
  pub neg_within : f.lt g.i_max (f.abs (f.to_float (f.neg g.i_max))) ≡ false
  pub one_pos : f.lt (f.neg (one_f f g)) (one_f f g) ≡ true

module _ {F : Type 0} (f : Floats F) (g : Gains F) where
  -- The integrator is within its limit.
  pub record IsLimited (c : DepthController F) : Type 0 where
    pub limited : f.lt g.i_max (f.abs c.y_old) ≡ false

module _ {F : Type 0} (f : Floats F) (laws : FloatLaws f) (g : Gains F)
    (limits : LimitLaws f g) where
  abbrev Small : F → Type 0
  Small y = f.lt g.i_max (f.abs y) ≡ false

  limit_integrator-Small : (y : F) → Small (limit_integrator f g y)
  unfolding limit_integrator
  limit_integrator-Small y =
      if-P Small (f.lt g.i_max (f.abs y)) _ y
        (if-P (λ v. Small (f.to_float v)) (f.lt (zero_f f g) y) g.i_max (f.neg g.i_max)
          limits.limit_within (λ _. limits.neg_within))
        (λ e. e)

  surface_reset-Small : (goal error y : F) → Small y → Small (surface_reset f g goal error y)
  unfolding surface_reset
  surface_reset-Small goal error y h =
      if-P Small (f.lt goal (f.lit (pos 5) 2) && f.lt error (f.lit (pos 1) 1)) (zero_f f g) y
        limits.zero_within (λ _. h)

  hold-Small : (error y_old y : F) → Small y_old → Small y → Small (hold f g error y_old y)
  unfolding hold
  hold-Small error y_old y h_old h = if-P Small (f.eq error (zero_f f g)) y_old y h_old (λ _. h)

  regulate-IsLimited :
      (error : F) (first now : Time) (c : DepthController F)
      → IsLimited f g c
      → IsLimited f g (regulate f g error first now c).0
  unfolding regulate
  regulate-IsLimited error first now c v = record {
    limited =
        hold-Small (dead_zone f g error) _ _
          (surface_reset-Small c.target_depth (dead_zone f g error) c.y_old v.limited)
          (limit_integrator-Small _);
  }

  reset-IsLimited : (c : DepthController F) → IsLimited f g (reset f g c)
  unfolding reset
  reset-IsLimited c = record { limited = limits.zero_within }

  choose_speed-IsLimited :
      (level : F) (first now : Time) (c : DepthController F)
      → IsLimited f g c
      → IsLimited f g (choose_speed f g level first now c).0
  unfolding choose_speed
  choose_speed-IsLimited level first now c v =
      let Ok : DepthController F × F → Type 0 = λ p. IsLimited f g p.0 in
      let error = f.to_float (f.sub level c.target_depth) in
      if-P Ok (f.lt (f.lit (pos 5) 1) error && f.lt level (one_f f g)) _ _ (reset-IsLimited c) (λ _.
        if-P Ok (f.lt (f.lit (pos 15) 1) error && f.lt (one_f f g) level) _ _ (reset-IsLimited c)
          (λ _.
            if-P Ok (f.lt error (f.neg (f.lit (pos 15) 1)) && f.lt (one_f f g) level) _ _
              (reset-IsLimited c) (λ _. regulate-IsLimited error first now c v)))

  limit_speed-IsWithin : (v : F) → IsWithin f (one_f f g) (f.neg (limit_speed f g v))
  unfolding limit_speed
  limit_speed-IsWithin v = neg-clamp f laws (one_f f g) limits.one_pos v

  current_depth_callback-IsLimited :
      (level : F) (first now : Time) (c : DepthController F)
      → IsLimited f g c
      → IsLimited f g (current_depth_callback f g level first now c).0
        × All (IsWithin f (one_f f g)) (to_list (current_depth_callback f g level first now c).1)
  unfolding current_depth_callback
  current_depth_callback-IsLimited level first now c h =
      if-P
        (λ (p : DepthController F × Option F).
          IsLimited f g p.0 × All (IsWithin f (one_f f g)) (to_list p.1))
        c.mode _ _ (choose_speed-IsLimited level first now c h, (limit_speed-IsWithin _, tt))
        (λ _. (h, tt))

  -- One event keeps the integrator within its limit and publishes at most a speed within 1.
  handle-IsLimited :
      (e : Event F) (c : DepthController F)
      → IsLimited f g c
      → IsLimited f g (handle f g e c).0 × All (IsWithin f (one_f f g)) (handle f g e c).1
  unfolding handle target_depth_callback enabled_callback
  handle-IsLimited (target_heard v) c h = (record { limited = h.limited }, tt)
  handle-IsLimited (enabled_heard true state) c h = (record { limited = h.limited }, tt)
  handle-IsLimited (enabled_heard false state) c h = (h, tt)
  handle-IsLimited (depth_heard v first now) c h = current_depth_callback-IsLimited v first now c h

  -- Whatever the controller hears, from an integrator within its limit: the integrator stays within
  -- its limit and no speed that is published is below -1 or above 1. The arithmetic is any for which
  -- the facts about signs and comparisons hold.
  pub run-IsLimited :
      (es : List (Event F)) (c : DepthController F)
      → IsLimited f g c
      → IsLimited f g (run (handle f g) es c).0
        × All (IsWithin f (one_f f g)) (run (handle f g) es c).1
  run-IsLimited es c h =
      run-All (handle f g) (λ _. Unit {0}) (IsLimited f g) (IsWithin f (one_f f g))
        (λ e c _ h. handle-IsLimited e c h) es c (anything es) h
