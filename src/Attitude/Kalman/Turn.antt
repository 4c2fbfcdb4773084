-- ===== src/Attitude/Kalman/Turn.antt =====
-- The turn of the quaternion: what it does to the rotation that the quaternion stands for, and to its
-- length.
use guillemot_core.Prelude.{◌≡◌, refl, true, List, [], ◌∷◌}
use guillemot_core.Prelude.Int.{pos}
use guillemot_core.Prelude.Ring.{
  Arithmetic, IsRing, Expr, var, symbolic, agree, cancels, take_out, insert, insert_all, times_term,
  product, expand,
}
use guillemot_core.Prelude.Ring.Cancel.{solve}
use guillemot_core.Attitude.Kalman.{
  Vector, Quaternion, Cosines, quaternion_square_sum, turn_quaternion, rotate, direction_cosines,
}
use guillemot_core.Attitude.Kalman.Decide.{agree_vector, solve_vector}

abbrev psi_e : Vector Expr
psi_e = record { v0 = var 1; v1 = var 2; v2 = var 3 }

abbrev q_e : Quaternion Expr
q_e = record { q0 = var 4; q1 = var 5; q2 = var 6; q3 = var 7 }

abbrev y_e : Vector Expr
y_e = record { v0 = var 8; v1 = var 9; v2 = var 10 }

-- The quaternion with the cosine last.
abbrev pub as_quaternion : {F : Type 0} → F → Vector F → Quaternion F
as_quaternion c psi = record { q0 = psi.v0; q1 = psi.v1; q2 = psi.v2; q3 = c }

composition_agrees :
    agree_vector
      (rotate symbolic (turn_quaternion symbolic (var 0) psi_e q_e) y_e)
      (rotate symbolic (as_quaternion (var 0) psi_e) (rotate symbolic q_e y_e))
    ≡ true
unfolding rotate turn_quaternion cancels take_out insert insert_all times_term product expand
composition_agrees = refl

length_agrees :
    agree (quaternion_square_sum symbolic (turn_quaternion symbolic (var 0) psi_e q_e)) (
      symbolic.mul
        (quaternion_square_sum symbolic (as_quaternion (var 0) psi_e))
        (quaternion_square_sum symbolic q_e))
    ≡ true
unfolding quaternion_square_sum turn_quaternion cancels take_out insert insert_all times_term
    product expand
length_agrees = refl

-- The three axes.
abbrev pub axis0 : {F : Type 0} → Arithmetic F → Vector F
axis0 a = record { v0 = a.whole (pos 1); v1 = a.whole (pos 0); v2 = a.whole (pos 0) }

abbrev pub axis1 : {F : Type 0} → Arithmetic F → Vector F
axis1 a = record { v0 = a.whole (pos 0); v1 = a.whole (pos 1); v2 = a.whole (pos 0) }

abbrev pub axis2 : {F : Type 0} → Arithmetic F → Vector F
axis2 a = record { v0 = a.whole (pos 0); v1 = a.whole (pos 0); v2 = a.whole (pos 1) }

-- The cosines, two vectors of them, as the rotations of the axes have them.
abbrev first_cosines : {F : Type 0} → Cosines F → Vector F
first_cosines r = record { v0 = r.r13; v1 = r.r21; v2 = r.r22 }

abbrev last_cosines : {F : Type 0} → Cosines F → Vector F
last_cosines r = record { v0 = r.r13; v1 = r.r23; v2 = r.r33 }

abbrev mixed : {F : Type 0} → (a : Arithmetic F) → (Vector F → Vector F) → Vector F
mixed a turned = record {
  v0 = (turned (axis2 a)).v0;
  v1 = (turned (axis0 a)).v1;
  v2 = (turned (axis1 a)).v1;
}

first_agree :
    agree_vector
      (first_cosines (direction_cosines symbolic q_e))
      (mixed symbolic (rotate symbolic q_e))
    ≡ true
unfolding rotate direction_cosines cancels take_out insert insert_all times_term product expand
first_agree = refl

last_agree :
    agree_vector
      (last_cosines (direction_cosines symbolic q_e))
      (rotate symbolic q_e (axis2 symbolic))
    ≡ true
unfolding rotate direction_cosines cancels take_out insert insert_all times_term product expand
last_agree = refl

module _ {F : Type 0} (a : Arithmetic F) (ring : IsRing a) where
  abbrev listed : F → Vector F → Quaternion F → Vector F → List F
  listed c psi q y =
      c ∷ psi.v0 ∷ psi.v1 ∷ psi.v2 ∷ q.q0 ∷ q.q1 ∷ q.q2 ∷ q.q3 ∷ y.v0 ∷ y.v1 ∷ y.v2 ∷ []

  -- In exact arithmetic, the vector that the turned quaternion predicts is the one that the quaternion
  -- predicts, rotated by the turn; and the turned quaternion has the product of the two lengths.
  pub turn_quaternion_lem :
      (c : F) (psi : Vector F) (q : Quaternion F) (y : Vector F)
      → (rotate a (turn_quaternion a c psi q) y ≡ rotate a (as_quaternion c psi) (rotate a q y))
        × (quaternion_square_sum a (turn_quaternion a c psi q)
            ≡ a.mul (quaternion_square_sum a (as_quaternion c psi)) (quaternion_square_sum a q))
  unfolding rotate turn_quaternion quaternion_square_sum
  turn_quaternion_lem c psi q y = (
    solve_vector a ring (listed c psi q y)
        (rotate symbolic (turn_quaternion symbolic (var 0) psi_e q_e) y_e)
        (rotate symbolic (as_quaternion (var 0) psi_e) (rotate symbolic q_e y_e))
        composition_agrees,
    solve a ring (listed c psi q y)
        (quaternion_square_sum symbolic (turn_quaternion symbolic (var 0) psi_e q_e))
        (symbolic.mul (quaternion_square_sum symbolic (as_quaternion (var 0) psi_e))
          (quaternion_square_sum symbolic q_e))
        length_agrees,
  )

  -- In exact arithmetic, the angles are taken from the rotation by which kalmanUpdate predicts: r13,
  -- r23 and r33 are where it takes the third axis, r21 and r22 the second coordinates of where it
  -- takes the first and the second axis.
  pub direction_cosines_lem :
      (q : Quaternion F)
      → let r = direction_cosines a q in
        (r.r13 ≡ (rotate a q (axis2 a)).v0)
        × (r.r23 ≡ (rotate a q (axis2 a)).v1)
        × (r.r33 ≡ (rotate a q (axis2 a)).v2)
        × (r.r21 ≡ (rotate a q (axis0 a)).v1)
        × (r.r22 ≡ (rotate a q (axis1 a)).v1)
  unfolding rotate direction_cosines
  direction_cosines_lem q =
      let env = listed q.q0 (axis0 a) q (axis0 a) in
      let last =
        solve_vector a ring env (last_cosines (direction_cosines symbolic q_e))
          (rotate symbolic q_e (axis2 symbolic)) last_agree in
      let first =
        solve_vector a ring env (first_cosines (direction_cosines symbolic q_e))
          (mixed symbolic (rotate symbolic q_e)) first_agree in
      (
        (λ i. (last i).v0),
        (λ i. (last i).v1),
        (λ i. (last i).v2),
        (λ i. (first i).v1),
        (λ i. (first i).v2),
      )
