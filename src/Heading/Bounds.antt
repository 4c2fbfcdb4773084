-- ===== src/Heading/Bounds.antt =====
-- The turns of the heading controller: their bound, and its silence once the vehicle has stopped.
use guillemot_core.Prelude.{◌≡◌, refl, true, false, ◌&&◌, List}
use guillemot_core.Prelude.Int.{pos}
use guillemot_core.Prelude.Float.{Floats, FloatLaws, IsWithin, neg-clamp}
use guillemot_core.Prelude.Node.{All, anything, if-P, if-P_no, run, run-All}
use guillemot_core.Heading.{
  Heading, Output, turn_speed, target_angle, Event, module_enabled, heading_set, attitude_read,
  motion_heard, zero_f, max_speed, enabled_callback, target_heading_callback, read_forward_status,
  limit_speed, steer, heading_callback, handle,
}

-- What the bound asks of 0 and of MAX, which the values of the code have.
pub record TurnLaws {F : Type 0} (f : Floats F) : Type 0 where
  pub max_pos : f.lt (f.neg (max_speed f)) (max_speed f) ≡ true
  pub zero_not_above : f.lt (max_speed f) (zero_f f) ≡ false
  pub zero_not_below : f.lt (zero_f f) (f.neg (max_speed f)) ≡ false

module _ {F : Type 0} (f : Floats F) where
  -- A turn speed is within MAX.
  abbrev pub IsGentle : Output F → Type 0
  IsGentle (turn_speed v) = IsWithin f (max_speed f) v
  IsGentle (target_angle a) = Unit {0}

  -- Only a turn speed of 0.
  abbrev pub IsStop : Output F → Type 0
  IsStop (turn_speed v) = v ≡ zero_f f
  IsStop (target_angle a) = ⊥

  -- Not a command to move forward or back by more than 0.05.
  abbrev pub NoStart : Event F → Type 0
  NoStart (motion_heard forward command value) =
      (forward && command && f.lt (f.lit (pos 5) 2) (f.abs value)) ≡ false
  NoStart (module_enabled ours state) = Unit {0}
  NoStart (heading_set offset) = Unit {0}
  NoStart (attitude_read yaw) = Unit {0}

  handle-IsStop :
      (e : Event F) (h : Heading F)
      → NoStart e
      → h.is_moving ≡ false
      → (handle f e h).0.is_moving ≡ false × All IsStop (handle f e h).1
  unfolding handle enabled_callback target_heading_callback heading_callback read_forward_status
  handle-IsStop (module_enabled true state) h _ still = (still, tt)
  handle-IsStop (module_enabled false state) h _ still = (still, tt)
  handle-IsStop (heading_set offset) h _ still = (still, tt)
  handle-IsStop (attitude_read yaw) h _ still =
      let Ok : Heading F × List (Output F) → Type 0 = λ p. p.0.is_moving ≡ false × All IsStop p.1 in
      if-P Ok h.mode _ _ (if-P_no Ok h.is_moving _ _ still (still, tt)) (λ _. (still, tt))
  handle-IsStop (motion_heard true true value) h slow still =
      if-P_no (λ (p : Heading F × List (Output F)). p.0.is_moving ≡ false × All IsStop p.1)
        (f.lt (f.lit (pos 5) 2) (f.abs value)) _ _ slow (refl, (refl, tt))
  handle-IsStop (motion_heard true false value) h _ still = (still, tt)
  handle-IsStop (motion_heard false command value) h _ still = (still, tt)

  -- While the vehicle stands, and nobody commands it to move forward or back by more than 0.05: the
  -- controller holds it for standing and publishes nothing but turn speeds of 0.
  pub quiet_while_still :
      (es : List (Event F)) (h : Heading F)
      → All NoStart es
      → h.is_moving ≡ false
      → (run (handle f) es h).0.is_moving ≡ false × All IsStop (run (handle f) es h).1
  quiet_while_still = run-All (handle f) NoStart (λ h. h.is_moving ≡ false) IsStop handle-IsStop

module _ {F : Type 0} (f : Floats F) (laws : FloatLaws f) (turns : TurnLaws f) where
  limit_speed-IsWithin : (v : F) → IsWithin f (max_speed f) (f.neg (limit_speed f v))
  unfolding limit_speed
  limit_speed-IsWithin v = neg-clamp f laws (max_speed f) turns.max_pos v

  handle-IsGentle : (e : Event F) (h : Heading F) → All (IsGentle f) (handle f e h).1
  unfolding handle heading_callback read_forward_status steer
  handle-IsGentle (module_enabled ours state) h = tt
  handle-IsGentle (heading_set offset) h = tt
  handle-IsGentle (attitude_read yaw) h =
      let Ok : Heading F × List (Output F) → Type 0 = λ p. All (IsGentle f) p.1 in
      if-P Ok h.mode _ _ (if-P Ok h.is_moving _ _ (limit_speed-IsWithin _, (tt, tt)) (λ _. tt))
        (λ _. tt)
  handle-IsGentle (motion_heard forward command value) h =
      let Ok : Heading F × List (Output F) → Type 0 = λ p. All (IsGentle f) p.1 in
      if-P Ok (forward && command) _ _
        (if-P Ok (f.lt (f.lit (pos 5) 2) (f.abs value)) _ _ tt (λ _.
          (record { not_above = turns.zero_not_above; not_below = turns.zero_not_below }, tt)))
        (λ _. tt)

  -- Whatever the controller hears, from whatever state: no turn speed that it publishes is below
  -- -MAX or above MAX, which is 0.25.
  pub turns_within :
      (es : List (Event F)) (h : Heading F) → All (IsGentle f) (run (handle f) es h).1
  turns_within es h =
      (run-All (handle f) (λ _. Unit {0}) (λ _. Unit {0}) (IsGentle f)
        (λ e h _ _. (tt, handle-IsGentle e h)) es h (anything es) tt).1
