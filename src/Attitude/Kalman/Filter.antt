-- ===== src/Attitude/Kalman/Filter.antt =====
-- kalmanPropagate and kalmanUpdate of SubAttitudeResolver.cpp as a whole.
use guillemot_core.Prelude.{if◌then◌else◌}
use guillemot_core.Prelude.Int.{pos, negsuc}
use guillemot_core.Prelude.Float.{Floats, arithmetic}
use guillemot_core.Prelude.Ring.{Arithmetic}
use guillemot_core.Attitude.Kalman.{
  Vector, Quaternion, Triangle, direction_cosines, square_sum, quaternion_square_sum,
  turn_quaternion, propagate_covariance, rotate, covariance_times, measurement_covariance, subtract,
  determinant, adjugate, kalman_gain, update_covariance, quaternion_update, update_quaternion,
}

-- The functions of math.h, and what kalmanUpdate reads behind its array P_new after a value was written
-- there, which is undefined behaviour. (What else the write may destroy is not modelled.)
pub record Maths (F : Type 0) : Type 0 where
  pub sqrt : F → F
  pub sin : F → F
  pub cos : F → F
  pub asin : F → F
  pub atan2 : F → F → F
  pub sixth_place : F → F

-- m_w, m_q, m_P and the angles.
pub record Filter (F : Type 0) : Type 0 where
  pub w : Vector F
  pub q : Quaternion F
  pub p : Triangle F
  pub yaw : F
  pub pitch : F
  pub roll : F

-- What kalmanUpdate writes: the two vectors, which it normalises in place, and its results.
pub record Updated (F : Type 0) : Type 0 where
  pub y_i : Vector F
  pub y_b : Vector F
  pub pr : Triangle F
  pub residual : Vector F
  pub filter : Filter F

module _ {F : Type 0} (f : Floats F) (m : Maths F) where
  open f use {lit, mul, div, lt}

  abbrev a : Arithmetic F
  a = arithmetic f

  abbrev pub half : F
  half = lit (pos 5) 1

  abbrev pub dt : F
  dt = lit (pos 1) 2

  abbrev pub sigma_w2 : Vector F
  sigma_w2 = record { v0 = lit (pos 1) 6; v1 = lit (pos 1) 6; v2 = lit (pos 1) 6 }

  unfoldable pub normalize : Vector F → Vector F
  normalize y =
      let y_mag = m.sqrt (square_sum a y) in
      record { v0 = div y.v0 y_mag; v1 = div y.v1 y_mag; v2 = div y.v2 y_mag }

  unfoldable pub normalize_quaternion : Quaternion F → Quaternion F
  normalize_quaternion q =
      let q_mag = m.sqrt (quaternion_square_sum a q) in
      record { q0 = div q.q0 q_mag; q1 = div q.q1 q_mag; q2 = div q.q2 q_mag; q3 = div q.q3 q_mag }

  -- By less than 0.01 degrees a second the quaternion stays.
  unfoldable pub propagate_quaternion : (w : Vector F) → Quaternion F → Quaternion F
  propagate_quaternion w q =
      let w_mag = m.sqrt (square_sum a w) in
      let w_magdt05 = mul (mul w_mag dt) half in
      let turn = λ (v : F). div (mul (m.sin w_magdt05) v) w_mag in
      if lt (lit (pos 174_532_925_199_433) 18) w_mag
      then normalize_quaternion (
          turn_quaternion a (m.cos w_magdt05)
            (record { v0 = turn w.v0; v1 = turn w.v1; v2 = turn w.v2 }) q)
      else q

  -- The angles are those of the quaternion before it is propagated.
  unfoldable pub kalman_propagate : Filter F → Filter F
  kalman_propagate s =
      let r = direction_cosines a s.q in
      let minus_one = lit (negsuc 0) 0 in
      record s {
        yaw = m.atan2 (mul minus_one r.r21) r.r22;
        pitch = m.asin r.r23;
        roll = m.atan2 (mul minus_one r.r13) r.r33;
        q = propagate_quaternion s.w s.q;
        p = propagate_covariance a dt sigma_w2 s.w s.p;
      }

  -- invPr.
  unfoldable pub inverse : Triangle F → Triangle F
  inverse s =
      let det = determinant a s in
      let n = adjugate a s in
      record {
        p0 = div n.p0 det;
        p1 = div n.p1 det;
        p2 = div n.p2 det;
        p3 = div n.p3 det;
        p4 = div n.p4 det;
        p5 = div n.p5 det;
      }

  unfoldable pub kalman_update : (y_i y_b : Vector F) (r : F) → Filter F → Updated F
  kalman_update y_i y_b r s =
      let inertial = normalize y_i in
      let body = normalize y_b in
      let ry = rotate a s.q inertial in
      let pht = covariance_times a s.p ry in
      let pr = measurement_covariance a r pht ry in
      let residual = subtract a body ry in
      let k = kalman_gain a pht (inverse pr) in
      let dq = quaternion_update a half k residual in
      record {
        y_i = inertial;
        y_b = body;
        pr = pr;
        residual = residual;
        filter = record s {
          q = normalize_quaternion (update_quaternion a dq s.q);
          p = update_covariance a m.sixth_place k ry s.p;
        };
      }
