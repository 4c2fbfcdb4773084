-- ===== src/Attitude/Kalman.antt =====
-- The Kalman filter of SubAttitudeResolver.cpp, where it neither divides nor takes roots: the formulas
-- of kalmanPropagate and kalmanUpdate over any arithmetic.
use guillemot_core.Prelude.Int.{ℤ, pos, negsuc}
use guillemot_core.Prelude.Ring.{Arithmetic}
pub mod Filter
pub mod Matrix
pub mod Decide
pub mod Propagate
pub mod Correction
pub mod Update
pub mod Turn
pub mod Tests

-- Arrays of three, four, six and nine doubles. Six are the upper triangle of a symmetric matrix.
pub record Vector (F : Type 0) : Type 0 where
  pub v0 : F
  pub v1 : F
  pub v2 : F

pub record Quaternion (F : Type 0) : Type 0 where
  pub q0 : F
  pub q1 : F
  pub q2 : F
  pub q3 : F

pub record Triangle (F : Type 0) : Type 0 where
  pub p0 : F
  pub p1 : F
  pub p2 : F
  pub p3 : F
  pub p4 : F
  pub p5 : F

pub record Nine (F : Type 0) : Type 0 where
  pub k0 : F
  pub k1 : F
  pub k2 : F
  pub k3 : F
  pub k4 : F
  pub k5 : F
  pub k6 : F
  pub k7 : F
  pub k8 : F

-- R13, R21, R22, R23 and R33 of the direction cosine matrix.
pub record Cosines (F : Type 0) : Type 0 where
  pub r13 : F
  pub r21 : F
  pub r22 : F
  pub r23 : F
  pub r33 : F

module _ {F : Type 0} (a : Arithmetic F) where
  infixl 65 ◌⊕◌ ◌⊖◌
  infixl 70 ◌⊗◌
  abbrev ◌⊕◌ : F → F → F
  x ⊕ y = a.add x y

  abbrev ◌⊖◌ : F → F → F
  x ⊖ y = a.sub x y

  abbrev ◌⊗◌ : F → F → F
  x ⊗ y = a.mul x y

  abbrev one : F
  one = a.whole (pos 1)

  abbrev two : F
  two = a.whole (pos 2)

  abbrev minus_one : F
  minus_one = a.whole (negsuc 0)

  unfoldable pub direction_cosines : Quaternion F → Cosines F
  direction_cosines q = record {
    r13 = two ⊗ q.q0 ⊗ q.q2 ⊖ two ⊗ q.q1 ⊗ q.q3;
    r21 = two ⊗ q.q0 ⊗ q.q1 ⊖ two ⊗ q.q2 ⊗ q.q3;
    r22 = minus_one ⊗ (q.q0 ⊗ q.q0) ⊕ q.q1 ⊗ q.q1 ⊖ q.q2 ⊗ q.q2 ⊕ q.q3 ⊗ q.q3;
    r23 = two ⊗ q.q0 ⊗ q.q3 ⊕ two ⊗ q.q1 ⊗ q.q2;
    r33 = minus_one ⊗ (q.q0 ⊗ q.q0) ⊖ q.q1 ⊗ q.q1 ⊕ q.q2 ⊗ q.q2 ⊕ q.q3 ⊗ q.q3;
  }

  -- The sums of squares under the roots.
  unfoldable pub square_sum : Vector F → F
  square_sum v = v.v0 ⊗ v.v0 ⊕ v.v1 ⊗ v.v1 ⊕ v.v2 ⊗ v.v2

  unfoldable pub quaternion_square_sum : Quaternion F → F
  quaternion_square_sum q = q.q0 ⊗ q.q0 ⊕ q.q1 ⊗ q.q1 ⊕ q.q2 ⊗ q.q2 ⊕ q.q3 ⊗ q.q3

  -- kalmanPropagate: the quaternion, before it is normalised.
  unfoldable pub turn_quaternion : (c : F) (psi : Vector F) → Quaternion F → Quaternion F
  turn_quaternion c psi q = record {
    q0 = c ⊗ q.q0 ⊕ psi.v2 ⊗ q.q1 ⊖ psi.v1 ⊗ q.q2 ⊕ psi.v0 ⊗ q.q3;
    q1 = c ⊗ q.q1 ⊖ psi.v2 ⊗ q.q0 ⊕ psi.v0 ⊗ q.q2 ⊕ psi.v1 ⊗ q.q3;
    q2 = c ⊗ q.q2 ⊕ psi.v1 ⊗ q.q0 ⊖ psi.v0 ⊗ q.q1 ⊕ psi.v2 ⊗ q.q3;
    q3 = c ⊗ q.q3 ⊖ psi.v0 ⊗ q.q0 ⊖ psi.v1 ⊗ q.q1 ⊖ psi.v2 ⊗ q.q2;
  }

  -- kalmanPropagate: the covariance.
  unfoldable pub propagate_covariance : (dt : F) (sigma_w2 w : Vector F) → Triangle F → Triangle F
  propagate_covariance dt sigma_w2 w p =
      let w0w0 = w.v0 ⊗ w.v0 in
      let w1w1 = w.v1 ⊗ w.v1 in
      let w2w2 = w.v2 ⊗ w.v2 in
      let w1w2 = w.v1 ⊗ w.v2 in
      let w0w1 = w.v0 ⊗ w.v1 in
      let w0w2 = w.v0 ⊗ w.v2 in
      let dt2 = dt ⊗ dt in
      record {
        p0 =
            p.p0
            ⊕ p.p5 ⊗ dt2 ⊗ w1w1
            ⊖ two ⊗ dt2 ⊗ p.p4 ⊗ w1w2
            ⊕ p.p3 ⊗ dt2 ⊗ w2w2
            ⊖ two ⊗ dt ⊗ p.p2 ⊗ w.v1
            ⊕ two ⊗ dt ⊗ p.p1 ⊗ w.v2
            ⊕ dt ⊗ sigma_w2.v0;
        p1 =
            p.p1
            ⊖ p.p1 ⊗ dt2 ⊗ w2w2
            ⊖ p.p0 ⊗ dt ⊗ w.v2
            ⊕ p.p2 ⊗ dt ⊗ w.v0
            ⊕ p.p3 ⊗ dt ⊗ w.v2
            ⊖ p.p4 ⊗ dt ⊗ w.v1
            ⊕ p.p2 ⊗ dt2 ⊗ w1w2
            ⊕ p.p4 ⊗ dt2 ⊗ w0w2
            ⊖ p.p5 ⊗ dt2 ⊗ w0w1;
        p2 =
            p.p2
            ⊖ p.p2 ⊗ dt2 ⊗ w1w1
            ⊕ p.p0 ⊗ dt ⊗ w.v1
            ⊖ p.p1 ⊗ dt ⊗ w.v0
            ⊕ p.p4 ⊗ dt ⊗ w.v2
            ⊖ p.p5 ⊗ dt ⊗ w.v1
            ⊕ p.p1 ⊗ dt2 ⊗ w1w2
            ⊖ p.p3 ⊗ dt2 ⊗ w0w2
            ⊕ p.p4 ⊗ dt2 ⊗ w0w1;
        p3 =
            p.p3
            ⊕ p.p5 ⊗ dt2 ⊗ w0w0
            ⊖ two ⊗ dt2 ⊗ p.p2 ⊗ w0w2
            ⊕ p.p0 ⊗ dt2 ⊗ w2w2
            ⊕ two ⊗ dt ⊗ p.p4 ⊗ w.v0
            ⊖ two ⊗ dt ⊗ p.p1 ⊗ w.v2
            ⊕ dt ⊗ sigma_w2.v1;
        p4 =
            p.p4
            ⊖ p.p4 ⊗ dt2 ⊗ w0w0
            ⊕ p.p1 ⊗ dt ⊗ w.v1
            ⊖ p.p3 ⊗ dt ⊗ w.v0
            ⊖ p.p2 ⊗ dt ⊗ w.v2
            ⊕ p.p5 ⊗ dt ⊗ w.v0
            ⊖ p.p0 ⊗ dt2 ⊗ w1w2
            ⊕ p.p1 ⊗ dt2 ⊗ w0w2
            ⊕ p.p2 ⊗ dt2 ⊗ w0w1;
        p5 =
            p.p5
            ⊕ p.p3 ⊗ dt2 ⊗ w0w0
            ⊖ two ⊗ dt2 ⊗ p.p1 ⊗ w0w1
            ⊕ p.p0 ⊗ dt2 ⊗ w1w1
            ⊖ two ⊗ dt ⊗ p.p4 ⊗ w.v0
            ⊕ two ⊗ dt ⊗ p.p2 ⊗ w.v1
            ⊕ dt ⊗ sigma_w2.v2;
      }

  -- kalmanUpdate: the predicted vector, Ry.
  unfoldable pub rotate : Quaternion F → Vector F → Vector F
  rotate q y =
      let q0q0 = q.q0 ⊗ q.q0 in
      let q1q1 = q.q1 ⊗ q.q1 in
      let q2q2 = q.q2 ⊗ q.q2 in
      let q3q3 = q.q3 ⊗ q.q3 in
      let q0q1 = two ⊗ q.q0 ⊗ q.q1 in
      let q0q2 = two ⊗ q.q0 ⊗ q.q2 in
      let q0q3 = two ⊗ q.q0 ⊗ q.q3 in
      let q1q2 = two ⊗ q.q1 ⊗ q.q2 in
      let q1q3 = two ⊗ q.q1 ⊗ q.q3 in
      let q2q3 = two ⊗ q.q2 ⊗ q.q3 in
      record {
        v0 = y.v0 ⊗ (q0q0 ⊖ q1q1 ⊖ q2q2 ⊕ q3q3) ⊕ y.v1 ⊗ (q0q1 ⊕ q2q3) ⊕ y.v2 ⊗ (q0q2 ⊖ q1q3);
        v1 = y.v0 ⊗ (q0q1 ⊖ q2q3) ⊖ y.v1 ⊗ (q0q0 ⊖ q1q1 ⊕ q2q2 ⊖ q3q3) ⊕ y.v2 ⊗ (q0q3 ⊕ q1q2);
        v2 = y.v0 ⊗ (q0q2 ⊕ q1q3) ⊖ y.v2 ⊗ (q0q0 ⊕ q1q1 ⊖ q2q2 ⊖ q3q3) ⊖ y.v1 ⊗ (q0q3 ⊖ q1q2);
      }

  -- PHT.
  unfoldable pub covariance_times : Triangle F → (ry : Vector F) → Nine F
  covariance_times p ry = record {
    k0 = p.p2 ⊗ ry.v1 ⊖ p.p1 ⊗ ry.v2;
    k1 = p.p0 ⊗ ry.v2 ⊖ p.p2 ⊗ ry.v0;
    k2 = p.p1 ⊗ ry.v0 ⊖ p.p0 ⊗ ry.v1;
    k3 = p.p4 ⊗ ry.v1 ⊖ p.p3 ⊗ ry.v2;
    k4 = p.p1 ⊗ ry.v2 ⊖ p.p4 ⊗ ry.v0;
    k5 = p.p3 ⊗ ry.v0 ⊖ p.p1 ⊗ ry.v1;
    k6 = p.p5 ⊗ ry.v1 ⊖ p.p4 ⊗ ry.v2;
    k7 = p.p2 ⊗ ry.v2 ⊖ p.p5 ⊗ ry.v0;
    k8 = p.p4 ⊗ ry.v0 ⊖ p.p2 ⊗ ry.v1;
  }

  -- Pr.
  unfoldable pub measurement_covariance : (r : F) (pht : Nine F) (ry : Vector F) → Triangle F
  measurement_covariance r pht ry = record {
    p0 = r ⊖ pht.k3 ⊗ ry.v2 ⊕ pht.k6 ⊗ ry.v1;
    p1 = pht.k7 ⊗ ry.v1 ⊖ pht.k4 ⊗ ry.v2;
    p2 = pht.k8 ⊗ ry.v1 ⊖ pht.k5 ⊗ ry.v2;
    p3 = r ⊕ pht.k1 ⊗ ry.v2 ⊖ pht.k7 ⊗ ry.v0;
    p4 = pht.k2 ⊗ ry.v2 ⊖ pht.k8 ⊗ ry.v0;
    p5 = r ⊖ pht.k2 ⊗ ry.v1 ⊕ pht.k5 ⊗ ry.v0;
  }

  unfoldable pub subtract : (x y : Vector F) → Vector F
  subtract x y = record { v0 = x.v0 ⊖ y.v0; v1 = x.v1 ⊖ y.v1; v2 = x.v2 ⊖ y.v2 }

  -- detPr.
  unfoldable pub determinant : Triangle F → F
  determinant s =
      a.neg s.p5 ⊗ s.p1 ⊗ s.p1
      ⊕ two ⊗ s.p1 ⊗ s.p2 ⊗ s.p4
      ⊖ s.p3 ⊗ s.p2 ⊗ s.p2
      ⊖ s.p0 ⊗ s.p4 ⊗ s.p4
      ⊕ s.p0 ⊗ s.p3 ⊗ s.p5

  -- invPr, before it is divided by detPr.
  unfoldable pub adjugate : Triangle F → Triangle F
  adjugate s = record {
    p0 = s.p3 ⊗ s.p5 ⊖ s.p4 ⊗ s.p4;
    p1 = s.p2 ⊗ s.p4 ⊖ s.p1 ⊗ s.p5;
    p2 = s.p1 ⊗ s.p4 ⊖ s.p2 ⊗ s.p3;
    p3 = s.p0 ⊗ s.p5 ⊖ s.p2 ⊗ s.p2;
    p4 = s.p1 ⊗ s.p2 ⊖ s.p0 ⊗ s.p4;
    p5 = s.p0 ⊗ s.p3 ⊖ s.p1 ⊗ s.p1;
  }

  -- K.
  unfoldable pub kalman_gain : (pht : Nine F) (inverse : Triangle F) → Nine F
  kalman_gain pht x = record {
    k0 = pht.k0 ⊗ x.p0 ⊕ pht.k1 ⊗ x.p1 ⊕ pht.k2 ⊗ x.p2;
    k1 = pht.k0 ⊗ x.p1 ⊕ pht.k1 ⊗ x.p3 ⊕ pht.k2 ⊗ x.p4;
    k2 = pht.k0 ⊗ x.p2 ⊕ pht.k1 ⊗ x.p4 ⊕ pht.k2 ⊗ x.p5;
    k3 = pht.k3 ⊗ x.p0 ⊕ pht.k4 ⊗ x.p1 ⊕ pht.k5 ⊗ x.p2;
    k4 = pht.k3 ⊗ x.p1 ⊕ pht.k4 ⊗ x.p3 ⊕ pht.k5 ⊗ x.p4;
    k5 = pht.k3 ⊗ x.p2 ⊕ pht.k4 ⊗ x.p4 ⊕ pht.k5 ⊗ x.p5;
    k6 = pht.k6 ⊗ x.p0 ⊕ pht.k7 ⊗ x.p1 ⊕ pht.k8 ⊗ x.p2;
    k7 = pht.k6 ⊗ x.p1 ⊕ pht.k7 ⊗ x.p3 ⊕ pht.k8 ⊗ x.p4;
    k8 = pht.k6 ⊗ x.p2 ⊕ pht.k7 ⊗ x.p4 ⊕ pht.k8 ⊗ x.p5;
  }

  -- The new covariance. The code declares P_new with five places and writes and reads a sixth, which is
  -- memory behind the array: `sixth_place` is what is read there after a value was written.
  unfoldable pub update_covariance :
      (sixth_place : F → F) (k : Nine F) (ry : Vector F) → Triangle F → Triangle F
  update_covariance sixth_place k ry p = record {
    p0 =
        p.p0 ⊗ (k.k2 ⊗ ry.v1 ⊖ k.k1 ⊗ ry.v2 ⊕ one)
        ⊕ p.p1 ⊗ (k.k0 ⊗ ry.v2 ⊖ k.k2 ⊗ ry.v0)
        ⊖ p.p2 ⊗ (k.k0 ⊗ ry.v1 ⊖ k.k1 ⊗ ry.v0);
    p1 =
        p.p1 ⊗ (k.k2 ⊗ ry.v1 ⊖ k.k1 ⊗ ry.v2 ⊕ one)
        ⊖ p.p4 ⊗ (k.k0 ⊗ ry.v1 ⊖ k.k1 ⊗ ry.v0)
        ⊕ p.p3 ⊗ (k.k0 ⊗ ry.v2 ⊖ k.k2 ⊗ ry.v0);
    p2 =
        p.p2 ⊗ (k.k2 ⊗ ry.v1 ⊖ k.k1 ⊗ ry.v2 ⊕ one)
        ⊖ p.p5 ⊗ (k.k0 ⊗ ry.v1 ⊖ k.k1 ⊗ ry.v0)
        ⊕ p.p4 ⊗ (k.k0 ⊗ ry.v2 ⊖ k.k2 ⊗ ry.v0);
    p3 =
        p.p3 ⊗ (k.k3 ⊗ ry.v2 ⊖ k.k5 ⊗ ry.v0 ⊕ one)
        ⊖ p.p4 ⊗ (k.k3 ⊗ ry.v1 ⊖ k.k4 ⊗ ry.v0)
        ⊖ p.p1 ⊗ (k.k4 ⊗ ry.v2 ⊖ k.k5 ⊗ ry.v1);
    p4 =
        p.p4 ⊗ (k.k3 ⊗ ry.v2 ⊖ k.k5 ⊗ ry.v0 ⊕ one)
        ⊖ p.p5 ⊗ (k.k3 ⊗ ry.v1 ⊖ k.k4 ⊗ ry.v0)
        ⊖ p.p2 ⊗ (k.k4 ⊗ ry.v2 ⊖ k.k5 ⊗ ry.v1);
    p5 = sixth_place (
        p.p5 ⊗ (k.k7 ⊗ ry.v0 ⊖ k.k6 ⊗ ry.v1 ⊕ one)
        ⊖ p.p2 ⊗ (k.k7 ⊗ ry.v2 ⊖ k.k8 ⊗ ry.v1)
        ⊕ p.p4 ⊗ (k.k6 ⊗ ry.v2 ⊖ k.k8 ⊗ ry.v0));
  }

  -- dq.
  unfoldable pub quaternion_update : (half : F) (k : Nine F) (residual : Vector F) → Vector F
  quaternion_update half k u = record {
    v0 = (k.k0 ⊗ u.v0 ⊕ k.k1 ⊗ u.v1 ⊕ k.k2 ⊗ u.v2) ⊗ half;
    v1 = (k.k3 ⊗ u.v0 ⊕ k.k4 ⊗ u.v1 ⊕ k.k5 ⊗ u.v2) ⊗ half;
    v2 = (k.k6 ⊗ u.v0 ⊕ k.k7 ⊗ u.v1 ⊕ k.k8 ⊗ u.v2) ⊗ half;
  }

  -- The new quaternion, before it is normalised.
  unfoldable pub update_quaternion : (dq : Vector F) → Quaternion F → Quaternion F
  update_quaternion dq q = record {
    q0 = q.q0 ⊕ dq.v2 ⊗ q.q1 ⊖ dq.v1 ⊗ q.q2 ⊕ dq.v0 ⊗ q.q3;
    q1 = q.q1 ⊖ dq.v2 ⊗ q.q0 ⊕ dq.v0 ⊗ q.q2 ⊕ dq.v1 ⊗ q.q3;
    q2 = q.q2 ⊕ dq.v1 ⊗ q.q0 ⊖ dq.v0 ⊗ q.q1 ⊕ dq.v2 ⊗ q.q3;
    q3 = q.q3 ⊖ dq.v0 ⊗ q.q0 ⊖ dq.v1 ⊗ q.q1 ⊖ dq.v2 ⊗ q.q2;
  }
