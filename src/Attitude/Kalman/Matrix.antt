-- ===== src/Attitude/Kalman/Matrix.antt =====
-- Matrices of three rows and columns, in which the equations of a Kalman filter are written.
use guillemot_core.Prelude.Int.{pos}
use guillemot_core.Prelude.Ring.{Arithmetic}
use guillemot_core.Attitude.Kalman.{Vector, Triangle, Nine}

module _ {F : Type 0} (a : Arithmetic F) where
  open a use {whole, add, sub, mul, neg}

  abbrev zero_m : F
  zero_m = whole (pos 0)

  abbrev pub diagonal : F → F → F → Nine F
  diagonal x y z = record {
    k0 = x;
    k1 = zero_m;
    k2 = zero_m;
    k3 = zero_m;
    k4 = y;
    k5 = zero_m;
    k6 = zero_m;
    k7 = zero_m;
    k8 = z;
  }

  abbrev pub identity : Nine F
  identity = diagonal (whole (pos 1)) (whole (pos 1)) (whole (pos 1))

  abbrev pub symmetric : Triangle F → Nine F
  symmetric p = record {
    k0 = p.p0;
    k1 = p.p1;
    k2 = p.p2;
    k3 = p.p1;
    k4 = p.p3;
    k5 = p.p4;
    k6 = p.p2;
    k7 = p.p4;
    k8 = p.p5;
  }

  -- The matrix of the cross product with `v`.
  abbrev pub cross : Vector F → Nine F
  cross v = record {
    k0 = zero_m;
    k1 = neg v.v2;
    k2 = v.v1;
    k3 = v.v2;
    k4 = zero_m;
    k5 = neg v.v0;
    k6 = neg v.v1;
    k7 = v.v0;
    k8 = zero_m;
  }

  abbrev pub transposed : Nine F → Nine F
  transposed m = record {
    k0 = m.k0;
    k1 = m.k3;
    k2 = m.k6;
    k3 = m.k1;
    k4 = m.k4;
    k5 = m.k7;
    k6 = m.k2;
    k7 = m.k5;
    k8 = m.k8;
  }

  abbrev pub each : (F → F → F) → Nine F → Nine F → Nine F
  each op m n = record {
    k0 = op m.k0 n.k0;
    k1 = op m.k1 n.k1;
    k2 = op m.k2 n.k2;
    k3 = op m.k3 n.k3;
    k4 = op m.k4 n.k4;
    k5 = op m.k5 n.k5;
    k6 = op m.k6 n.k6;
    k7 = op m.k7 n.k7;
    k8 = op m.k8 n.k8;
  }

  infixl 65 ◌+◌ ◌-◌
  infixl 70 ◌*◌
  abbrev pub ◌+◌ : Nine F → Nine F → Nine F
  m + n = each add m n

  abbrev pub ◌-◌ : Nine F → Nine F → Nine F
  m - n = each sub m n

  abbrev pub scaled : F → Nine F → Nine F
  scaled x m = each (λ _ y. mul x y) m m

  abbrev dot : F → F → F → F → F → F → F
  dot x y z u v w = add (add (mul x u) (mul y v)) (mul z w)

  abbrev pub ◌*◌ : Nine F → Nine F → Nine F
  m * n = record {
    k0 = dot m.k0 m.k1 m.k2 n.k0 n.k3 n.k6;
    k1 = dot m.k0 m.k1 m.k2 n.k1 n.k4 n.k7;
    k2 = dot m.k0 m.k1 m.k2 n.k2 n.k5 n.k8;
    k3 = dot m.k3 m.k4 m.k5 n.k0 n.k3 n.k6;
    k4 = dot m.k3 m.k4 m.k5 n.k1 n.k4 n.k7;
    k5 = dot m.k3 m.k4 m.k5 n.k2 n.k5 n.k8;
    k6 = dot m.k6 m.k7 m.k8 n.k0 n.k3 n.k6;
    k7 = dot m.k6 m.k7 m.k8 n.k1 n.k4 n.k7;
    k8 = dot m.k6 m.k7 m.k8 n.k2 n.k5 n.k8;
  }

  abbrev pub applied : Nine F → Vector F → Vector F
  applied m v = record {
    v0 = dot m.k0 m.k1 m.k2 v.v0 v.v1 v.v2;
    v1 = dot m.k3 m.k4 m.k5 v.v0 v.v1 v.v2;
    v2 = dot m.k6 m.k7 m.k8 v.v0 v.v1 v.v2;
  }
