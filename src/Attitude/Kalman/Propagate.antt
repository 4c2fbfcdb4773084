-- ===== src/Attitude/Kalman/Propagate.antt =====
-- The covariance that kalmanPropagate computes is that of the equations of the filter.
use guillemot_core.Prelude.{◌≡◌, refl, true, [], ◌∷◌}
use guillemot_core.Prelude.Ring.{
  Arithmetic, IsRing, Expr, var, symbolic, cancels, take_out, insert, insert_all, times_term,
  product, expand,
}
use guillemot_core.Attitude.Kalman.{Vector, Triangle, Nine, propagate_covariance}
use guillemot_core.Attitude.Kalman.Matrix.{
  diagonal, identity, symmetric, cross, transposed, scaled, ◌+◌, ◌-◌, ◌*◌,
}
use guillemot_core.Attitude.Kalman.Decide.{agree_nine, solve_nine}

module _ {F : Type 0} (a : Arithmetic F) where
  -- I - dt [w x], which carries an error of the attitude over the time step.
  abbrev pub transition : F → Vector F → Nine F
  transition dt w = ◌-◌ a (identity a) (scaled a dt (cross a w))

  -- The transition of the covariance, and the noise of the gyro.
  abbrev pub propagated : (dt : F) (sigma_w2 w : Vector F) → Triangle F → Nine F
  propagated dt sigma_w2 w p =
      ◌+◌ a (◌*◌ a (◌*◌ a (transition dt w) (symmetric a p)) (transposed a (transition dt w)))
        (scaled a dt (diagonal a sigma_w2.v0 sigma_w2.v1 sigma_w2.v2))

abbrev dt_e : Expr
dt_e = var 0

abbrev sigma_e : Vector Expr
sigma_e = record { v0 = var 1; v1 = var 2; v2 = var 3 }

abbrev w_e : Vector Expr
w_e = record { v0 = var 4; v1 = var 5; v2 = var 6 }

abbrev p_e : Triangle Expr
p_e = record { p0 = var 7; p1 = var 8; p2 = var 9; p3 = var 10; p4 = var 11; p5 = var 12 }

all_agree :
    agree_nine
      (symmetric symbolic (propagate_covariance symbolic dt_e sigma_e w_e p_e))
      (propagated symbolic dt_e sigma_e w_e p_e)
    ≡ true
unfolding propagate_covariance cancels take_out insert insert_all times_term product expand
all_agree = refl

-- In exact arithmetic, the covariance is carried by the transition, with the noise of the gyro added.
pub propagate_covariance_lem :
    {F : Type 0} (a : Arithmetic F) (r : IsRing a) (dt : F) (sigma_w2 w : Vector F) (p : Triangle F)
    → symmetric a (propagate_covariance a dt sigma_w2 w p) ≡ propagated a dt sigma_w2 w p
unfolding propagate_covariance
propagate_covariance_lem a r dt sigma_w2 w p =
    solve_nine a r
      (dt ∷ sigma_w2.v0 ∷ sigma_w2.v1 ∷ sigma_w2.v2 ∷ w.v0 ∷ w.v1 ∷ w.v2 ∷ p.p0 ∷ p.p1 ∷ p.p2 ∷ p.p3
        ∷ p.p4 ∷ p.p5 ∷ [])
      (symmetric symbolic (propagate_covariance symbolic dt_e sigma_e w_e p_e))
      (propagated symbolic dt_e sigma_e w_e p_e) all_agree
