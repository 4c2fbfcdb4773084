-- ===== src/Motor/HighLevel/DepthChain.antt =====
-- From a command on /High_Level_Motion to the targets of the depth motors: commandCallback and
-- ManageDepthThrusters of HighLevelControl.cpp, then motorMessage of main.cpp.
use guillemot_core.Prelude.{
  ◌≡◌, refl, ap, sym, subst, ◌∙◌, List, [], ◌∷◌, Bool, true, false, not, ◌||◌, if◌then◌else◌,
}
use guillemot_core.Prelude.Int.{ℤ, pos, ◌==ℤ◌, ◌+ℤ◌, ◌-ℤ◌}
use guillemot_core.Motor.Message.{IsSpeed, filter_speed, filter_speed_lem}
use guillemot_core.Motor.Handler.{set_motor_speed}
use guillemot_core.Motor.Node.{Node, is_set, picked, set_if, motor_message}
use guillemot_core.Motor.HighLevel.{
  manual, is_automatic, Doubles, Control, Output, motor_control, make_speed, send_motor_message,
  calc_depth, calc_pitch, send_depth, manage_depth_thrusters,
}
use guillemot_core.Motor.HighLevel.Command.{depth, by_hand, command_callback}
use guillemot_core.Motor.HighLevel.Thrust.{int_equal, both_false}
use guillemot_core.Motor.HighLevel.Chain.{deliver}

-- The node holds the depth speeds that were last sent.
pub record AgreesDepth {ℓ} {Value : Type ℓ} (c : Control Value) (n : Node) : Type 0 where
  pub f_depth : n.speeds.f_depth ≡ c.current_depth_front
  pub r_depth : n.speeds.r_depth ≡ c.current_depth_rear
  pub front_target : n.depth.left_target_speed ≡ filter_speed c.current_depth_front
  pub rear_target : n.depth.right_target_speed ≡ filter_speed c.current_depth_rear

-- The front motor of the depth board is to run at `front` and the rear one at `rear`, as far as the
-- board can, which is a speed that it knows; the motors of the other boards are those of `n`.
pub record Dives (front rear : ℤ) (n n' : Node) : Type 0 where
  pub front_target : n'.depth.left_target_speed ≡ filter_speed front
  pub rear_target : n'.depth.right_target_speed ≡ filter_speed rear
  pub front_fits : IsSpeed n'.depth.left_target_speed
  pub rear_fits : IsSpeed n'.depth.right_target_speed
  pub drive : n'.drive ≡ n.drive
  pub turn : n'.turn ≡ n.turn

module _ {ℓ} {Value : Type ℓ} (d : Doubles Value) where
  Reaches : (front rear : ℤ) → Node → Control Value × List (Output Value) → Type 0
  Reaches front rear n (c, es) = AgreesDepth c (deliver n es) × Dives front rear n (deliver n es)

  Reaches-if :
      (front rear : ℤ) (n : Node) (b : Bool) (x : Control Value × List (Output Value))
      (k : Control Value)
      → Reaches front rear n x
      → (b ≡ false → Reaches front rear n (k, []))
      → Reaches front rear n (if b then x else (k, []))
  Reaches-if front rear n true x k sent kept = sent
  Reaches-if front rear n false x k sent kept = kept refl

  -- What is kept and published when a depth speed has changed.
  abbrev send_depth_changed : (rear front : ℤ) → Control Value → Control Value × List (Output Value)
  send_depth_changed rear front k = (
    record k { current_depth_rear = rear; current_depth_front = front },
    motor_control (send_motor_message 0x0c (pos 0) (pos 0) (pos 0) (pos 0) rear front) ∷ [],
  )

  send_depth-Reaches :
      (front rear : ℤ) (k : Control Value) (n : Node)
      → AgreesDepth k n
      → Reaches front rear n (send_depth d rear front k)
  unfolding Reaches deliver motor_message picked set_if is_set send_motor_message set_motor_speed
  send_depth-Reaches front rear k n a =
      Reaches-if front rear n
        (not (rear ==ℤ k.current_depth_rear) || not (front ==ℤ k.current_depth_front))
        (send_depth_changed rear front k) k
        (
          record { f_depth = refl; r_depth = refl; front_target = refl; rear_target = refl },
          record {
            front_target = refl;
            rear_target = refl;
            front_fits = (filter_speed_lem front).0;
            rear_fits = (filter_speed_lem rear).0;
            drive = refl;
            turn = refl;
          },
        )
        (λ e.
          let (er, ef) = both_false _ _ e in
          let front_kept = a.front_target ∙ ap filter_speed (sym (int_equal _ _ ef)) in
          let rear_kept = a.rear_target ∙ ap filter_speed (sym (int_equal _ _ er)) in
          (
            a,
            record {
              front_target = front_kept;
              rear_target = rear_kept;
              front_fits = subst IsSpeed (sym front_kept) (filter_speed_lem front).0;
              rear_fits = subst IsSpeed (sym rear_kept) (filter_speed_lem rear).0;
              drive = refl;
              turn = refl;
            },
          ))

  calc_pitch-manual : (k : Control Value) → k.pitch_mode ≡ manual → calc_pitch d k ≡ k
  unfolding calc_pitch
  calc_pitch-manual k pitch =
      ap (λ m. if is_automatic m then record k { pitch_speed = pos 0 } else k) pitch

  -- A speed of the depth motors by hand and a round of manageDepthThrusters, with the pitch by hand:
  -- the depth speed and the pitch speed added are the target of the front motor, and their difference
  -- that of the rear motor, both turned round and cut off as the board needs it; the other motors
  -- are left alone. The node holds what was last sent, if it did so before.
  pub depth_reaches :
      (value : Value) (c : Control Value) (n : Node)
      → c.pitch_mode ≡ manual
      → AgreesDepth c n
      → (let (c', es) = manage_depth_thrusters d (command_callback d depth by_hand value c) in
          let s = make_speed d value in
          AgreesDepth c' (deliver n es)
          × Dives (s +ℤ c.pitch_speed) (s -ℤ c.pitch_speed) n (deliver n es))
  unfolding manage_depth_thrusters command_callback Reaches calc_depth
  depth_reaches value c n pitch a =
      let k = command_callback d depth by_hand value c in
      subst
        (λ q.
          Reaches (k.depth_speed +ℤ k.pitch_speed) (k.depth_speed -ℤ k.pitch_speed) n
            (send_depth d (q.depth_speed -ℤ q.pitch_speed) (q.depth_speed +ℤ q.pitch_speed) q))
        (sym (calc_pitch-manual k pitch))
        (send_depth-Reaches (k.depth_speed +ℤ k.pitch_speed) (k.depth_speed -ℤ k.pitch_speed) k n
          (record {
            f_depth = a.f_depth;
            r_depth = a.r_depth;
            front_target = a.front_target;
            rear_target = a.rear_target;
          }))
