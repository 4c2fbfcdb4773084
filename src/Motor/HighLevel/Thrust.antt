-- ===== src/Motor/HighLevel/Thrust.antt =====
-- What the thruster managers of HighLevelControl.cpp send, and when they send it again.
use guillemot_core.Prelude.{
  ℕ, zero, suc, ◌+◌, ◌≤◌, ◌≡◌, ◌≢◌, ◌⊎◌, inl, inr, refl, ap, sym, ◌∙◌, List, [], ◌∷◌, ◌++◌, Bool,
  true, false, not, ◌&&◌, ◌||◌, if◌then◌else◌, length, arith, dec_lt,
}
use guillemot_core.Prelude.Int.{ℤ, pos, negsuc, pos_part, neg_part, ◌+ℤ◌, ◌-ℤ◌, ◌≤ℤ◌, ltb_ℤ, ◌==ℤ◌}
use guillemot_core.Motor.Message.{IsSpeed}
use guillemot_core.Motor.HighLevel.{
  Mode, manual, automatic, is_automatic, Doubles, Control, Output, motor_control, sanitize,
  make_speed, send_motor_message, calc_turn, calc_strafe, turn_pair, send_turn,
  manage_turn_thrusters, manage_forward_thrusters, with_forward_speed, send_forward,
}

-- A sanitized speed is one that the board knows, and 0 or at least 60 either way; to sanitize it again
-- changes nothing.
pub sanitize_lem :
    (s : ℤ)
    → IsSpeed (sanitize s)
      × ((sanitize s ≡ pos 0) ⊎ (60 ≤ pos_part (sanitize s) + neg_part (sanitize s)))
      × (sanitize (sanitize s) ≡ sanitize s)
unfolding sanitize
sanitize_lem s = (
  ground arith,
  elim (dec_lt (pos_part s + neg_part s) 60) [
    | yes small ↦ inl (ground arith)
    | no large ↦ inr (ground arith)
  ],
  ground arith,
)

int_same : (a : ℤ) → (a ==ℤ a) ≡ true
int_same a = ground arith

int_other : (a b : ℤ) → a ≢ b → (a ==ℤ b) ≡ false
int_other a b e = ground arith

pub int_equal : (a b : ℤ) → not (a ==ℤ b) ≡ false → a ≡ b
int_equal a b e = ground arith

pub both_false : (a b : Bool) → (a || b) ≡ false → (a ≡ false) × (b ≡ false)
both_false true b e = absurd (cc)
both_false false b e = (refl, e)

second_true : (a b : Bool) → b ≡ true → (a || b) ≡ true
second_true true b e = refl
second_true false b e = e

if-false {ℓ} : {A : Type ℓ} (b : Bool) (x y : A) → b ≡ false → (if b then x else y) ≡ y
if-false true x y e = absurd (cc)
if-false false x y e = refl

module _ {ℓ} {Value : Type ℓ} (d : Doubles Value) where
  -- What is kept and published when the forward speed has changed.
  abbrev pub send_forward_changed : Control Value → Control Value × List (Output Value)
  send_forward_changed c = (
    record c {
      current_fwd_left = d.left_fwd_mult c.forward_speed;
      current_fwd_right = c.forward_speed;
    },
    motor_control (
          send_motor_message 0x03 c.forward_speed (d.left_fwd_mult c.forward_speed) (pos 0) (pos 0)
            (pos 0) (pos 0))
        ∷ [],
  )

  after-if :
      (P : Control Value → Type 0) (b : Bool) (x : Control Value × List (Output Value))
      (k : Control Value)
      → P x.0
      → (b ≡ false → P k)
      → P (if b then x else (k, [])).0
  after-if P true x k yes' no' = yes'
  after-if P false x k yes' no' = no' refl

  -- Both sides run at the forward speed, and setting it again does not change it.
  record Settled (k : Control Value) : Type 0 where
    left : k.current_fwd_left ≡ k.forward_speed
    right : k.current_fwd_right ≡ k.forward_speed
    speed : (with_forward_speed d k).forward_speed ≡ k.forward_speed

  Settled-quiet : (k : Control Value) → Settled k → (manage_forward_thrusters d k).1 ≡ []
  unfolding manage_forward_thrusters
  Settled-quiet k v =
      let speed = k.forward_speed in
      let left : (k.current_fwd_left ==ℤ speed) ≡ true =
        ap (λ x. x ==ℤ speed) v.left ∙ int_same speed in
      let right : (k.current_fwd_right ==ℤ speed) ≡ true =
        ap (λ x. x ==ℤ speed) v.right ∙ int_same speed in
      (λ i. (send_forward d (record k { forward_speed = v.speed i })).1)
      ∙ (λ i. (if not (left i) || not (right i) then send_forward_changed k else (k, [])).1)

  -- The speed that is set is set again by the next call.
  forward_speed_again :
      (mode : Mode) (command speed : ℤ)
      → sanitize (
          if is_automatic mode
          then command
          else sanitize (if is_automatic mode then command else speed))
        ≡ sanitize (if is_automatic mode then command else speed)
  forward_speed_again manual command speed = (sanitize_lem speed).2
  forward_speed_again automatic command speed = refl

  Settled-first :
      (c : Control Value)
      → ((x : ℤ) → d.left_fwd_mult x ≡ x)
      → Settled (manage_forward_thrusters d c).0
  unfolding manage_forward_thrusters
  Settled-first c same =
      let again =
        forward_speed_again c.forward_mode (make_speed d c.forward_command) c.forward_speed in
      let k = with_forward_speed d c in
      after-if Settled
        (not (k.current_fwd_left ==ℤ k.forward_speed)
          || not (k.current_fwd_right ==ℤ k.forward_speed))
        (send_forward_changed k) k
        (record { left = same k.forward_speed; right = refl; speed = again })
        (λ e.
          let (el, er) = both_false _ _ e in
          record { left = int_equal _ _ el; right = int_equal _ _ er; speed = again })

  -- With a left multiplier of 1, which the code has, a second call of manageForwardThrusters with the
  -- same mode, speed and command publishes nothing.
  pub manage_forward_settles :
      (c : Control Value)
      → ((x : ℤ) → d.left_fwd_mult x ≡ x)
      → (manage_forward_thrusters d (manage_forward_thrusters d c).0).1 ≡ []
  unfolding manage_forward_thrusters
  manage_forward_settles c same =
      Settled-quiet (manage_forward_thrusters d c).0 (Settled-first c same)

  -- The two speeds that manageTurnThrusters asks of its motors, with manual modes.
  abbrev pub rear_thrust : Control Value → ℤ
  rear_thrust c = sanitize (c.turn_speed -ℤ c.strafe_speed)

  abbrev pub front_thrust : Control Value → ℤ
  front_thrust c = sanitize (c.turn_speed +ℤ c.strafe_speed)

  -- What `n` calls of manageTurnThrusters publish.
  unfoldable pub turn_rounds : ℕ → Control Value → List (Output Value)
  turn_rounds zero c = []
  turn_rounds (suc n) c = let (c1, es) = manage_turn_thrusters d c in es ++ turn_rounds n c1

  -- What one call leaves, where the rear thruster turns to the left.
  abbrev after_turn : Control Value → Control Value
  after_turn c = record c {
    current_turn_rear = rear_thrust c;
    current_turn_front = d.front_turn_mult (front_thrust c);
  }

  calc_turn-manual : (c : Control Value) → c.turn_mode ≡ manual → calc_turn d c ≡ (c, [])
  unfolding calc_turn
  calc_turn-manual c turn =
      if-false _ _ _ (ap (λ m. is_automatic m && not (d.is_target_zero c.turn_command)) turn)

  calc_strafe-manual : (c : Control Value) → c.strafe_mode ≡ manual → calc_strafe d c ≡ c
  unfolding calc_strafe
  calc_strafe-manual c strafe = if-false _ _ _ (ap is_automatic strafe)

  send_turn_left :
      (rear front : ℤ) (c : Control Value)
      → rear ≤ℤ negsuc 0
      → d.front_turn_mult front ≢ front
      → c.current_turn_front ≡ d.front_turn_mult front
      → send_turn d rear front c ≡ (
        record c { current_turn_rear = rear; current_turn_front = d.front_turn_mult front },
        motor_control (
              send_motor_message 0x30
                (pos 0)
                (pos 0)
                rear
                (d.front_turn_mult front)
                (pos 0)
                (pos 0))
            ∷ [],
      )
  unfolding send_turn turn_pair
  send_turn_left rear front c left other kept =
      let backwards : ltb_ℤ rear (pos 0) ≡ true = ground arith in
      let differs : (front ==ℤ c.current_turn_front) ≡ false =
        ap (λ x. front ==ℤ x) kept
        ∙ int_other front (d.front_turn_mult front) (λ e. other (sym e)) in
      let sends : (not (rear ==ℤ c.current_turn_rear) || not (front ==ℤ c.current_turn_front))
          ≡ true =
        second_true (not (rear ==ℤ c.current_turn_rear)) (not (front ==ℤ c.current_turn_front))
          (ap not differs) in
      rw (sends, backwards)

  manage_turn_once :
      (c : Control Value)
      → c.turn_mode ≡ manual
      → c.strafe_mode ≡ manual
      → rear_thrust c ≤ℤ negsuc 0
      → d.front_turn_mult (front_thrust c) ≢ front_thrust c
      → c.current_turn_front ≡ d.front_turn_mult (front_thrust c)
      → manage_turn_thrusters d c ≡ (
        after_turn c,
        motor_control (
              send_motor_message 0x30
                (pos 0)
                (pos 0)
                (rear_thrust c)
                (d.front_turn_mult (front_thrust c))
                (pos 0)
                (pos 0))
            ∷ [],
      )
  unfolding manage_turn_thrusters
  manage_turn_once c turn strafe left other kept = rw (
    calc_turn-manual c turn,
    calc_strafe-manual c strafe,
    send_turn_left (rear_thrust c) (front_thrust c) c left other kept,
  )

  -- While the rear thruster turns to the left and the multiplier changes the front speed, every call
  -- publishes a message again, with manual modes and nothing new asked for.
  pub manage_turn_repeats :
      (n : ℕ) (c : Control Value)
      → c.turn_mode ≡ manual
      → c.strafe_mode ≡ manual
      → rear_thrust c ≤ℤ negsuc 0
      → d.front_turn_mult (front_thrust c) ≢ front_thrust c
      → c.current_turn_front ≡ d.front_turn_mult (front_thrust c)
      → length (turn_rounds n c) ≡ n
  unfolding turn_rounds
  manage_turn_repeats zero c turn strafe left other kept = refl
  manage_turn_repeats (suc n) c turn strafe left other kept =
      let once = manage_turn_once c turn strafe left other kept in
      rw once (ap suc (manage_turn_repeats n (after_turn c) turn strafe left other refl))
