-- ===== src/Motor/HighLevel/Chain.antt =====
-- From a command on /High_Level_Motion to the targets of the forward motors:
-- commandCallback and ManageForwardThrusters of HighLevelControl.cpp, then motorMessage of main.cpp.
-- What is published on /Motor_Control arrives, in its order.
use guillemot_core.Prelude.{
  ◌≡◌, ◌≢◌, refl, ap, ◌∙◌, List, [], ◌∷◌, Bool, true, false, not, ◌||◌, if◌then◌else◌, arith,
}
use guillemot_core.Prelude.Int.{ℤ, ◌==ℤ◌}
use guillemot_core.Motor.Message.{IsSpeed, negate, filter_speed}
use guillemot_core.Motor.Handler.{set_motor_speed}
use guillemot_core.Motor.Node.{Node, is_set, picked, set_if, motor_message}
use guillemot_core.Motor.HighLevel.{
  Doubles, Control, Output, motor_control, target_depth, target_heading, make_speed, sanitize,
  send_motor_message, with_forward_speed, send_forward, manage_forward_thrusters,
}
use guillemot_core.Motor.HighLevel.Command.{
  forward, MotionType, command, by_hand, other_motion, command_callback,
}
use guillemot_core.Motor.HighLevel.Thrust.{
  sanitize_lem, int_equal, both_false, send_forward_changed,
}

pub filter_speed_negates : (s : ℤ) → IsSpeed s → filter_speed s ≡ negate s
unfolding filter_speed
filter_speed_negates s v = ground arith

-- The messages of the managers, as the node of the motors takes them.
unfoldable pub deliver {ℓ} : {Value : Type ℓ} → Node → List (Output Value) → Node
deliver n [] = n
deliver n (motor_control m ∷ es) = deliver (motor_message n m) es
deliver n (target_depth v ∷ es) = deliver n es
deliver n (target_heading v ∷ es) = deliver n es

-- The node holds the forward speeds that were last sent.
pub record Agrees {ℓ} {Value : Type ℓ} (c : Control Value) (n : Node) : Type 0 where
  pub l_drive : n.speeds.l_drive ≡ c.current_fwd_left
  pub r_drive : n.speeds.r_drive ≡ c.current_fwd_right
  pub left_target : n.drive.left_target_speed ≡ filter_speed c.current_fwd_left
  pub right_target : n.drive.right_target_speed ≡ filter_speed c.current_fwd_right

-- Both forward motors of `n'` are to run at `s`, which their board takes turned round; the motors of
-- the other boards are those of `n`.
pub record Drives (s : ℤ) (n n' : Node) : Type 0 where
  pub left : n'.drive.left_target_speed ≡ negate s
  pub right : n'.drive.right_target_speed ≡ negate s
  pub depth : n'.depth ≡ n.depth
  pub turn : n'.turn ≡ n.turn

module _ {ℓ} {Value : Type ℓ} (d : Doubles Value) (same : (x : ℤ) → d.left_fwd_mult x ≡ x) where
  Reaches : ℤ → Node → Control Value × List (Output Value) → Type 0
  Reaches s n (c, es) = Agrees c (deliver n es) × Drives s n (deliver n es)

  Reaches-if :
      (s : ℤ) (n : Node) (b : Bool) (x : Control Value × List (Output Value)) (k : Control Value)
      → Reaches s n x
      → (b ≡ false → Reaches s n (k, []))
      → Reaches s n (if b then x else (k, []))
  Reaches-if s n true x k sent kept = sent
  Reaches-if s n false x k sent kept = kept refl

  send_forward-changed :
      (k : Control Value) (n : Node)
      → IsSpeed k.forward_speed
      → Reaches k.forward_speed n (send_forward_changed d k)
  unfolding Reaches deliver motor_message picked set_if is_set send_motor_message set_motor_speed
  send_forward-changed k n v =
      let right = filter_speed_negates k.forward_speed v in
      (
        record { l_drive = refl; r_drive = refl; left_target = refl; right_target = refl },
        record {
          left = ap filter_speed (same k.forward_speed) ∙ right;
          right = right;
          depth = refl;
          turn = refl;
        },
      )

  send_forward-Reaches :
      (k : Control Value) (n : Node)
      → IsSpeed k.forward_speed
      → Agrees k n
      → Reaches k.forward_speed n (send_forward d k)
  unfolding Reaches deliver
  send_forward-Reaches k n v a =
      let s = k.forward_speed in
      Reaches-if s n (not (k.current_fwd_left ==ℤ s) || not (k.current_fwd_right ==ℤ s))
        (send_forward_changed d k) k (send_forward-changed k n v)
        (λ e.
          let (el, er) = both_false _ _ e in
          let back = filter_speed_negates s v in
          (
            a,
            record {
              left = a.left_target ∙ ap filter_speed (int_equal _ _ el) ∙ back;
              right = a.right_target ∙ ap filter_speed (int_equal _ _ er) ∙ back;
              depth = refl;
              turn = refl;
            },
          ))

  -- With a left multiplier of 1, which the code has: a command to go forward, by a percentage or by
  -- hand, and a round of manageForwardThrusters make the speed of that percentage the target of both
  -- forward motors, whatever was asked for before, and leave the other motors alone. The node holds
  -- what was last sent, if it did so before.
  pub forward_reaches :
      (motion : MotionType) (value : Value) (c : Control Value) (n : Node)
      → motion ≢ other_motion
      → Agrees c n
      → (let (c', es) = manage_forward_thrusters d (command_callback d forward motion value c) in
          Agrees c' (deliver n es) × Drives (sanitize (make_speed d value)) n (deliver n es))
  unfolding manage_forward_thrusters command_callback Reaches
  forward_reaches command value c n known a =
      send_forward-Reaches (with_forward_speed d (command_callback d forward command value c)) n
        (sanitize_lem (make_speed d value)).0
        (record {
          l_drive = a.l_drive;
          r_drive = a.r_drive;
          left_target = a.left_target;
          right_target = a.right_target;
        })
  forward_reaches by_hand value c n known a =
      send_forward-Reaches (with_forward_speed d (command_callback d forward by_hand value c)) n
        (sanitize_lem (make_speed d value)).0
        (record {
          l_drive = a.l_drive;
          r_drive = a.r_drive;
          left_target = a.left_target;
          right_target = a.right_target;
        })
  forward_reaches other_motion value c n known a = absurd (known refl)
