-- ===== src/Motor/Node/Merge.antt =====
-- Two messages on /Motor_Control do what one does that asks for both.
use guillemot_core.Prelude.{ℕ, ◌≡◌, refl, ◌∙◌, sym, Bool, true, false, ◌||◌}
use guillemot_core.Prelude.Int.{ℤ}
use guillemot_core.Motor.Handler.{Handler, set_motor_speed}
use guillemot_core.Motor.Node.{
  MotorMessage, Node, left_drive_bit, right_drive_bit, front_depth_bit, rear_depth_bit,
  front_turn_bit, rear_turn_bit, is_set, pick, picked, set_if, motor_message,
}

-- `m` asks for a motor if one of the two does, and for what the second does, if it does.
pub record IsMerged (bit : ℕ) (speed : MotorMessage → ℤ) (m1 m2 m : MotorMessage) : Type 0 where
  pub set_eq : is_set m.mask bit ≡ (is_set m1.mask bit || is_set m2.mask bit)
  pub speed_eq : speed m ≡ pick (is_set m2.mask bit) (speed m2) (speed m1)

pub record IsMerge (m1 m2 m : MotorMessage) : Type 0 where
  pub left : IsMerged left_drive_bit (λ k. k.left) m1 m2 m
  pub right : IsMerged right_drive_bit (λ k. k.right) m1 m2 m
  pub front_depth : IsMerged front_depth_bit (λ k. k.front_depth) m1 m2 m
  pub rear_depth : IsMerged rear_depth_bit (λ k. k.rear_depth) m1 m2 m
  pub front_turn : IsMerged front_turn_bit (λ k. k.front_turn) m1 m2 m
  pub rear_turn : IsMerged rear_turn_bit (λ k. k.rear_turn) m1 m2 m

pick-pick :
    (b1 b2 : Bool) (v1 v2 c : ℤ) → pick b2 v2 (pick b1 v1 c) ≡ pick (b1 || b2) (pick b2 v2 v1) c
pick-pick true true v1 v2 c = refl
pick-pick true false v1 v2 c = refl
pick-pick false true v1 v2 c = refl
pick-pick false false v1 v2 c = refl

-- One controller: `a`, `b` whether its two bits are set, in the first and in the second message.
set_if-set_if :
    (a1 b1 a2 b2 : Bool) (h : Handler) (la lb va1 vb1 va2 vb2 : ℤ)
    → set_if a2 b2
        (set_if a1 b1 h (pick b1 vb1 lb) (pick a1 va1 la))
        (pick b2 vb2 (pick b1 vb1 lb))
        (pick a2 va2 (pick a1 va1 la))
      ≡ set_if (a1 || a2) (b1 || b2) h (pick b2 vb2 (pick b1 vb1 lb)) (pick a2 va2 (pick a1 va1 la))
unfolding set_if set_motor_speed
set_if-set_if true b1 true b2 h la lb va1 vb1 va2 vb2 = refl
set_if-set_if true b1 false true h la lb va1 vb1 va2 vb2 = refl
set_if-set_if true b1 false false h la lb va1 vb1 va2 vb2 = refl
set_if-set_if false true true b2 h la lb va1 vb1 va2 vb2 = refl
set_if-set_if false true false true h la lb va1 vb1 va2 vb2 = refl
set_if-set_if false true false false h la lb va1 vb1 va2 vb2 = refl
set_if-set_if false false true b2 h la lb va1 vb1 va2 vb2 = refl
set_if-set_if false false false true h la lb va1 vb1 va2 vb2 = refl
set_if-set_if false false false false h la lb va1 vb1 va2 vb2 = refl

module _ (m1 m2 m : MotorMessage) where
  merged_pick :
      (bit : ℕ) (speed : MotorMessage → ℤ) (current : ℤ)
      → IsMerged bit speed m1 m2 m
      → pick (is_set m2.mask bit) (speed m2) (pick (is_set m1.mask bit) (speed m1) current)
        ≡ pick (is_set m.mask bit) (speed m) current
  merged_pick bit speed current v =
      pick-pick (is_set m1.mask bit) (is_set m2.mask bit) (speed m1) (speed m2) current
      ∙ (λ i. pick (sym v.set_eq i) (sym v.speed_eq i) current)

  merged_side :
      (lbit rbit : ℕ) (l r : MotorMessage → ℤ) (h : Handler) (cl cr : ℤ)
      → IsMerged lbit l m1 m2 m
      → IsMerged rbit r m1 m2 m
      → set_if
          (is_set m2.mask lbit)
          (is_set m2.mask rbit)
          (set_if
            (is_set m1.mask lbit)
            (is_set m1.mask rbit)
            h
            (pick (is_set m1.mask rbit) (r m1) cr)
            (pick (is_set m1.mask lbit) (l m1) cl))
          (pick (is_set m2.mask rbit) (r m2) (pick (is_set m1.mask rbit) (r m1) cr))
          (pick (is_set m2.mask lbit) (l m2) (pick (is_set m1.mask lbit) (l m1) cl))
        ≡ set_if
            (is_set m.mask lbit)
            (is_set m.mask rbit)
            h
            (pick (is_set m.mask rbit) (r m) cr)
            (pick (is_set m.mask lbit) (l m) cl)
  merged_side lbit rbit l r h cl cr vl vr =
      set_if-set_if (is_set m1.mask lbit) (is_set m1.mask rbit) (is_set m2.mask lbit)
        (is_set m2.mask rbit) h cl cr (l m1) (r m1) (l m2) (r m2)
      ∙ (λ i.
          set_if (sym vl.set_eq i) (sym vr.set_eq i) h (merged_pick rbit r cr vr i)
            (merged_pick lbit l cl vl i))

-- A message that merges two does in one step what they do one after the other: to the targets of the
-- three controllers, and to the speeds that are kept for the next message.
pub motor_message-merge :
    (n : Node) (m1 m2 m : MotorMessage)
    → IsMerge m1 m2 m
    → motor_message (motor_message n m1) m2 ≡ motor_message n m
unfolding motor_message picked
motor_message-merge n m1 m2 m v =
    let s = n.speeds in
    λ i. record {
      drive =
          merged_side m1 m2 m left_drive_bit right_drive_bit (λ k. k.left) (λ k. k.right) n.drive
            s.l_drive s.r_drive v.left v.right i;
      depth =
          merged_side m1 m2 m front_depth_bit rear_depth_bit (λ k. k.front_depth)
            (λ k. k.rear_depth) n.depth s.f_depth s.r_depth v.front_depth v.rear_depth i;
      turn =
          merged_side m1 m2 m front_turn_bit rear_turn_bit (λ k. k.front_turn) (λ k. k.rear_turn)
            n.turn s.f_turn s.r_turn v.front_turn v.rear_turn i;
      speeds = record {
        l_drive = merged_pick m1 m2 m left_drive_bit (λ k. k.left) s.l_drive v.left i;
        r_drive = merged_pick m1 m2 m right_drive_bit (λ k. k.right) s.r_drive v.right i;
        f_depth =
            merged_pick m1 m2 m front_depth_bit (λ k. k.front_depth) s.f_depth v.front_depth i;
        r_depth = merged_pick m1 m2 m rear_depth_bit (λ k. k.rear_depth) s.r_depth v.rear_depth i;
        f_turn = merged_pick m1 m2 m front_turn_bit (λ k. k.front_turn) s.f_turn v.front_turn i;
        r_turn = merged_pick m1 m2 m rear_turn_bit (λ k. k.rear_turn) s.r_turn v.rear_turn i;
      };
    }
