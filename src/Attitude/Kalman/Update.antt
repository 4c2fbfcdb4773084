-- ===== src/Attitude/Kalman/Update.antt =====
-- kalmanUpdate computes the equations of the filter: the covariance of the measurement, a gain, and the
-- covariance after the measurement.
use guillemot_core.Prelude.{◌≡◌, refl, ap, ◌∙◌, true, [], ◌∷◌}
use guillemot_core.Prelude.Int.{pos}
use guillemot_core.Prelude.Float.{Floats, arithmetic}
use guillemot_core.Prelude.Ring.{
  Arithmetic, IsRing, Expr, var, symbolic, cancels, take_out, insert, insert_all, times_term,
  product, expand,
}
use guillemot_core.Attitude.Kalman.{
  Vector, Quaternion, Triangle, Nine, subtract, rotate, covariance_times, measurement_covariance,
  determinant, adjugate, kalman_gain, update_covariance, quaternion_update, update_quaternion,
}
use guillemot_core.Attitude.Kalman.Matrix.{
  identity, applied, symmetric, cross, transposed, scaled, ◌+◌, ◌-◌, ◌*◌,
}
use guillemot_core.Attitude.Kalman.Decide.{agree_nine, solve_nine}
use guillemot_core.Attitude.Kalman.Correction.{
  axis_part, vector_times, corrected_axis, corrected_last, step_lem, axis_lem, last_lem,
}
use guillemot_core.Attitude.Kalman.Filter.{
  Maths, Filter, Updated, half, normalize, normalize_quaternion, inverse, kalman_update,
}

abbrev p_e : Triangle Expr
p_e = record { p0 = var 0; p1 = var 1; p2 = var 2; p3 = var 3; p4 = var 4; p5 = var 5 }

abbrev ry_e : Vector Expr
ry_e = record { v0 = var 6; v1 = var 7; v2 = var 8 }

abbrev x_e : Triangle Expr
x_e = record { p0 = var 9; p1 = var 10; p2 = var 11; p3 = var 12; p4 = var 13; p5 = var 14 }

abbrev r_e : Expr
r_e = var 15

module _ {F : Type 0} (a : Arithmetic F) where
  abbrev pub pht_of : Triangle F → Vector F → Nine F
  pht_of p ry = ◌*◌ a (symmetric a p) (transposed a (cross a ry))

  -- H P H' + r I.
  abbrev pub expected_covariance : F → Triangle F → Vector F → Nine F
  expected_covariance r p ry = ◌+◌ a (◌*◌ a (cross a ry) (pht_of p ry)) (scaled a r (identity a))

  -- (I - K H) P.
  abbrev pub corrected : Nine F → Vector F → Triangle F → Nine F
  corrected k ry p = ◌*◌ a (◌-◌ a (identity a) (◌*◌ a k (cross a ry))) (symmetric a p)

abbrev measured_e : Triangle Expr
measured_e = measurement_covariance symbolic r_e (covariance_times symbolic p_e ry_e) ry_e

pht_agrees : agree_nine (covariance_times symbolic p_e ry_e) (pht_of symbolic p_e ry_e) ≡ true
unfolding covariance_times cancels take_out insert insert_all times_term product expand
pht_agrees = refl

covariance_agrees :
    agree_nine (symmetric symbolic measured_e) (expected_covariance symbolic r_e p_e ry_e) ≡ true
unfolding covariance_times measurement_covariance cancels take_out insert insert_all times_term
    product expand
covariance_agrees = refl

abbrev gain_e : Nine Expr
gain_e = kalman_gain symbolic (covariance_times symbolic p_e ry_e) x_e

correction_agrees :
    agree_nine
      (symmetric symbolic (update_covariance symbolic (λ x. x) gain_e ry_e p_e))
      (corrected symbolic gain_e ry_e p_e)
    ≡ true
unfolding covariance_times kalman_gain update_covariance cancels take_out insert insert_all
    times_term product expand
correction_agrees = refl

-- Nine variables for PHT, six for Pr, and one for the inverse of its determinant.
abbrev nine_e : Nine Expr
nine_e = record {
  k0 = var 0;
  k1 = var 1;
  k2 = var 2;
  k3 = var 3;
  k4 = var 4;
  k5 = var 5;
  k6 = var 6;
  k7 = var 7;
  k8 = var 8;
}

abbrev s_e : Triangle Expr
s_e = record { p0 = var 9; p1 = var 10; p2 = var 11; p3 = var 12; p4 = var 13; p5 = var 14 }

abbrev each_times : {F : Type 0} → Arithmetic F → Triangle F → F → Triangle F
each_times a n i = record {
  p0 = a.mul n.p0 i;
  p1 = a.mul n.p1 i;
  p2 = a.mul n.p2 i;
  p3 = a.mul n.p3 i;
  p4 = a.mul n.p4 i;
  p5 = a.mul n.p5 i;
}

abbrev gain_times : {F : Type 0} → Arithmetic F → Nine F → Triangle F → F → Nine F
gain_times a pht s i = ◌*◌ a (kalman_gain a pht (each_times a (adjugate a s) i)) (symmetric a s)

abbrev scaled_back : {F : Type 0} → Arithmetic F → Nine F → F → Nine F
scaled_back a pht d = scaled a d pht

gain_agrees :
    agree_nine
      (gain_times symbolic nine_e s_e (var 15))
      (scaled_back symbolic nine_e (symbolic.mul (determinant symbolic s_e) (var 15)))
    ≡ true
unfolding kalman_gain adjugate determinant cancels take_out insert insert_all times_term product
    expand
gain_agrees = refl

module _ {F : Type 0} (a : Arithmetic F) (ring : IsRing a) where
  measured_lem :
      (r : F) (p : Triangle F) (ry : Vector F)
      → symmetric a (measurement_covariance a r (covariance_times a p ry) ry)
        ≡ expected_covariance a r p ry
  unfolding covariance_times measurement_covariance
  measured_lem r p ry =
      solve_nine a ring
        (p.p0 ∷ p.p1 ∷ p.p2 ∷ p.p3 ∷ p.p4 ∷ p.p5 ∷ ry.v0 ∷ ry.v1 ∷ ry.v2 ∷ r ∷ r ∷ r ∷ r ∷ r ∷ r ∷ r
          ∷ [])
        (symmetric symbolic measured_e) (expected_covariance symbolic r_e p_e ry_e)
        covariance_agrees

  pht_lem : (p : Triangle F) (ry : Vector F) → covariance_times a p ry ≡ pht_of a p ry
  unfolding covariance_times
  pht_lem p ry =
      solve_nine a ring (p.p0 ∷ p.p1 ∷ p.p2 ∷ p.p3 ∷ p.p4 ∷ p.p5 ∷ ry.v0 ∷ ry.v1 ∷ ry.v2 ∷ [])
        (covariance_times symbolic p_e ry_e) (pht_of symbolic p_e ry_e) pht_agrees

  corrected_lem :
      (p : Triangle F) (ry : Vector F) (x : Triangle F)
      → let k = kalman_gain a (covariance_times a p ry) x in
        symmetric a (update_covariance a (λ x. x) k ry p) ≡ corrected a k ry p
  unfolding covariance_times kalman_gain update_covariance
  corrected_lem p ry x =
      solve_nine a ring
        (p.p0 ∷ p.p1 ∷ p.p2 ∷ p.p3 ∷ p.p4 ∷ p.p5 ∷ ry.v0 ∷ ry.v1 ∷ ry.v2 ∷ x.p0 ∷ x.p1 ∷ x.p2 ∷ x.p3
          ∷ x.p4 ∷ x.p5 ∷ [])
        (symmetric symbolic (update_covariance symbolic (λ x. x) gain_e ry_e p_e))
        (corrected symbolic gain_e ry_e p_e) correction_agrees

  gain_lem :
      (k : Nine F) (s : Triangle F) (i : F)
      → gain_times a k s i ≡ scaled_back a k (a.mul (determinant a s) i)
  unfolding kalman_gain adjugate determinant
  gain_lem k s i =
      solve_nine a ring
        (k.k0 ∷ k.k1 ∷ k.k2 ∷ k.k3 ∷ k.k4 ∷ k.k5 ∷ k.k6 ∷ k.k7 ∷ k.k8 ∷ s.p0 ∷ s.p1 ∷ s.p2 ∷ s.p3
          ∷ s.p4 ∷ s.p5 ∷ i ∷ [])
        (gain_times symbolic nine_e s_e (var 15))
        (scaled_back symbolic nine_e (symbolic.mul (determinant symbolic s_e) (var 15))) gain_agrees

  scaled_one : (k : Nine F) → scaled a (a.whole (pos 1)) k ≡ k
  scaled_one k i = record {
    k0 = ring.one-mul k.k0 i;
    k1 = ring.one-mul k.k1 i;
    k2 = ring.one-mul k.k2 i;
    k3 = ring.one-mul k.k3 i;
    k4 = ring.one-mul k.k4 i;
    k5 = ring.one-mul k.k5 i;
    k6 = ring.one-mul k.k6 i;
    k7 = ring.one-mul k.k7 i;
    k8 = ring.one-mul k.k8 i;
  }

-- `i` is the inverse of `d`, and to divide by `d` is to multiply by `i`.
pub record IsInverse {F : Type 0} (f : Floats F) (d i : F) : Type 0 where
  pub inverse_lem : f.mul d i ≡ f.lit (pos 1) 0
  pub div_lem : (x : F) → f.div x d ≡ f.mul x i

-- `u` follows from `s` by the gain `k` at the prediction `ry` and the measurement `y`. Of the new
-- covariance, the entry of the third row and column is what is read behind the array.
pub record UpdatesBy {F : Type 0} (f : Floats F) (m : Maths F) (r : F) (ry y : Vector F)
    (s : Filter F) (u : Updated F) (k : Nine F) : Type 0 where
  pub covariance : symmetric (arithmetic f) u.pr ≡ expected_covariance (arithmetic f) r s.p ry
  pub gain : ◌*◌ (arithmetic f) k (symmetric (arithmetic f) u.pr) ≡ pht_of (arithmetic f) s.p ry
  pub correction :
      symmetric (arithmetic f) u.filter.p
      ≡ (let c = corrected (arithmetic f) k ry s.p in record c { k8 = m.sixth_place c.k8 })
  pub residual :
      u.residual ≡ record { v0 = f.sub y.v0 ry.v0; v1 = f.sub y.v1 ry.v1; v2 = f.sub y.v2 ry.v2 }
  -- The quaternion before it is normalised, by half of K applied to the residual.
  pub turned : Quaternion F
  pub axis :
      axis_part (arithmetic f) turned
      ≡ corrected_axis
          (arithmetic f)
          (vector_times (arithmetic f) (half f m) (applied (arithmetic f) k u.residual))
          s.q
  pub last :
      turned.q3
      ≡ corrected_last
          (arithmetic f)
          (vector_times (arithmetic f) (half f m) (applied (arithmetic f) k u.residual))
          s.q
  pub normalized : u.filter.q ≡ normalize_quaternion f m turned

module _ {F : Type 0} (f : Floats F) (m : Maths F) (ring : IsRing (arithmetic f)) where
  abbrev pub predicted : Vector F → Filter F → Vector F
  predicted y_i s = rotate (arithmetic f) s.q (normalize f m y_i)

  -- K of the code.
  abbrev pub gain_of : Vector F → F → Filter F → Nine F
  gain_of y_i r s =
      let ry = predicted y_i s in
      let pht = covariance_times (arithmetic f) s.p ry in
      kalman_gain (arithmetic f) pht (inverse f m (measurement_covariance (arithmetic f) r pht ry))

  inverse-each_times :
      (s : Triangle F) (i : F)
      → IsInverse f (determinant (arithmetic f) s) i
      → inverse f m s ≡ each_times (arithmetic f) (adjugate (arithmetic f) s) i
  unfolding inverse
  inverse-each_times s i h j = record {
    p0 = h.div_lem (adjugate (arithmetic f) s).p0 j;
    p1 = h.div_lem (adjugate (arithmetic f) s).p1 j;
    p2 = h.div_lem (adjugate (arithmetic f) s).p2 j;
    p3 = h.div_lem (adjugate (arithmetic f) s).p3 j;
    p4 = h.div_lem (adjugate (arithmetic f) s).p4 j;
    p5 = h.div_lem (adjugate (arithmetic f) s).p5 j;
  }

  gain_solves :
      (k : Nine F) (s : Triangle F) (i : F)
      → IsInverse f (determinant (arithmetic f) s) i
      → ◌*◌
          (arithmetic f)
          (kalman_gain (arithmetic f) k (inverse f m s))
          (symmetric (arithmetic f) s)
        ≡ k
  gain_solves k s i h =
      ap (λ x. ◌*◌ (arithmetic f) (kalman_gain (arithmetic f) k x) (symmetric (arithmetic f) s))
        (inverse-each_times s i h)
      ∙ gain_lem (arithmetic f) ring k s i
      ∙ ap (λ d. scaled (arithmetic f) d k) h.inverse_lem
      ∙ scaled_one (arithmetic f) ring k

  -- In exact arithmetic, where the determinant of the covariance S of the measurement has an inverse,
  -- kalmanUpdate computes S as H P H' + r I, a gain K that solves K S = P H', and the new covariance as
  -- (I - K H) P, except for its last entry, which is what is read behind the array P_new after that of
  -- (I - K H) P was written there. The residual is the normalised measurement less the prediction; with
  -- e half of K times the residual, the new quaternion is q + q3 e + q x e with q3 - e . q last,
  -- normalised.
  pub kalman_update_lem :
      (y_i y_b : Vector F) (r : F) (s : Filter F) (i : F)
      → IsInverse f (determinant (arithmetic f) (kalman_update f m y_i y_b r s).pr) i
      → UpdatesBy f m r
          (predicted y_i s)
          (normalize f m y_b)
          s
          (kalman_update f m y_i y_b r s)
          (gain_of y_i r s)
  unfolding kalman_update update_covariance subtract
  kalman_update_lem y_i y_b r s i h =
      let k = gain_of y_i r s in
      let u = kalman_update f m y_i y_b r s in
      let step = quaternion_update (arithmetic f) (half f m) k u.residual in
      let last_read : Nine F → Nine F = λ c. record c { k8 = m.sixth_place c.k8 } in
      let step_eq = step_lem (arithmetic f) ring (half f m) k u.residual in
      record {
        covariance = measured_lem (arithmetic f) ring r s.p (predicted y_i s);
        gain = gain_solves _ _ i h ∙ pht_lem (arithmetic f) ring s.p (predicted y_i s);
        correction = ap last_read (corrected_lem (arithmetic f) ring s.p (predicted y_i s) _);
        residual = refl;
        turned = update_quaternion (arithmetic f) step s.q;
        axis =
            axis_lem (arithmetic f) ring step s.q
            ∙ ap (λ e. corrected_axis (arithmetic f) e s.q) step_eq;
        last =
            last_lem (arithmetic f) ring step s.q
            ∙ ap (λ e. corrected_last (arithmetic f) e s.q) step_eq;
        normalized = refl;
      }
