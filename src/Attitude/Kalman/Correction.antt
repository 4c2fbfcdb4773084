-- ===== src/Attitude/Kalman/Correction.antt =====
-- The quaternion that kalmanUpdate corrects, in terms of vectors: by half of K applied to the residual.
use guillemot_core.Prelude.{◌≡◌, refl, true, [], ◌∷◌}
use guillemot_core.Prelude.Ring.{
  Arithmetic, IsRing, Expr, var, symbolic, agree, cancels, take_out, insert, insert_all, times_term,
  product, expand,
}
use guillemot_core.Prelude.Ring.Cancel.{solve}
use guillemot_core.Attitude.Kalman.{Vector, Quaternion, Nine, quaternion_update, update_quaternion}
use guillemot_core.Attitude.Kalman.Matrix.{applied, cross}
use guillemot_core.Attitude.Kalman.Decide.{agree_vector, solve_vector}

abbrev q_e : Quaternion Expr
q_e = record { q0 = var 0; q1 = var 1; q2 = var 2; q3 = var 3 }

abbrev u_e : Vector Expr
u_e = record { v0 = var 4; v1 = var 5; v2 = var 6 }

module _ {F : Type 0} (a : Arithmetic F) where
  -- The first three entries of a quaternion.
  abbrev pub axis_part : Quaternion F → Vector F
  axis_part q = record { v0 = q.q0; v1 = q.q1; v2 = q.q2 }

  abbrev pub vector_times : F → Vector F → Vector F
  vector_times x v = record { v0 = a.mul x v.v0; v1 = a.mul x v.v1; v2 = a.mul x v.v2 }

  abbrev pub plus : Vector F → Vector F → Vector F
  plus u v = record { v0 = a.add u.v0 v.v0; v1 = a.add u.v1 v.v1; v2 = a.add u.v2 v.v2 }

  abbrev pub inner : Vector F → Vector F → F
  inner u v = a.add (a.add (a.mul u.v0 v.v0) (a.mul u.v1 v.v1)) (a.mul u.v2 v.v2)

  -- The axis part of the quaternion that `e` corrects: q + q3 e + q x e.
  abbrev pub corrected_axis : Vector F → Quaternion F → Vector F
  corrected_axis e q =
      plus (plus (axis_part q) (vector_times q.q3 e)) (applied a (cross a (axis_part q)) e)

  -- And its last entry: q3 - e . q.
  abbrev pub corrected_last : Vector F → Quaternion F → F
  corrected_last e q = a.sub q.q3 (inner e (axis_part q))

axis_agrees :
    agree_vector
      (axis_part symbolic (update_quaternion symbolic u_e q_e))
      (corrected_axis symbolic u_e q_e)
    ≡ true
unfolding update_quaternion cancels take_out insert insert_all times_term product expand
axis_agrees = refl

last_agrees : agree (update_quaternion symbolic u_e q_e).q3 (corrected_last symbolic u_e q_e) ≡ true
unfolding update_quaternion cancels take_out insert insert_all times_term product expand
last_agrees = refl

abbrev nine_e : Nine Expr
nine_e = record {
  k0 = var 0;
  k1 = var 1;
  k2 = var 2;
  k3 = var 3;
  k4 = var 4;
  k5 = var 5;
  k6 = var 6;
  k7 = var 7;
  k8 = var 8;
}

-- K is nine variables, the residual three, and a half the last.
abbrev residual_e : Vector Expr
residual_e = record { v0 = var 9; v1 = var 10; v2 = var 11 }

step_agrees :
    agree_vector
      (quaternion_update symbolic (var 12) nine_e residual_e)
      (vector_times symbolic (var 12) (applied symbolic nine_e residual_e))
    ≡ true
unfolding quaternion_update cancels take_out insert insert_all times_term product expand
step_agrees = refl

module _ {F : Type 0} (a : Arithmetic F) (ring : IsRing a) where
  pub step_lem :
      (h : F) (k : Nine F) (u : Vector F)
      → quaternion_update a h k u ≡ vector_times a h (applied a k u)
  unfolding quaternion_update
  step_lem h k u =
      solve_vector a ring
        (k.k0 ∷ k.k1 ∷ k.k2 ∷ k.k3 ∷ k.k4 ∷ k.k5 ∷ k.k6 ∷ k.k7 ∷ k.k8 ∷ u.v0 ∷ u.v1 ∷ u.v2 ∷ h ∷ [])
        (quaternion_update symbolic (var 12) nine_e residual_e)
        (vector_times symbolic (var 12) (applied symbolic nine_e residual_e)) step_agrees

  pub axis_lem :
      (e : Vector F) (q : Quaternion F)
      → axis_part a (update_quaternion a e q) ≡ corrected_axis a e q
  unfolding update_quaternion
  axis_lem e q =
      solve_vector a ring (q.q0 ∷ q.q1 ∷ q.q2 ∷ q.q3 ∷ e.v0 ∷ e.v1 ∷ e.v2 ∷ [])
        (axis_part symbolic (update_quaternion symbolic u_e q_e)) (corrected_axis symbolic u_e q_e)
        axis_agrees

  pub last_lem :
      (e : Vector F) (q : Quaternion F) → (update_quaternion a e q).q3 ≡ corrected_last a e q
  unfolding update_quaternion
  last_lem e q =
      solve a ring (q.q0 ∷ q.q1 ∷ q.q2 ∷ q.q3 ∷ e.v0 ∷ e.v1 ∷ e.v2 ∷ [])
        (update_quaternion symbolic u_e q_e).q3 (corrected_last symbolic u_e q_e) last_agrees
