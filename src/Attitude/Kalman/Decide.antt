-- ===== src/Attitude/Kalman/Decide.antt =====
-- Equations between matrices, between vectors and between quaternions, entry by entry.
use guillemot_core.Prelude.{◌≡◌, arith, Bool, true, ◌&&◌, List}
use guillemot_core.Prelude.Ring.{Arithmetic, IsRing, Expr, agree, value}
use guillemot_core.Prelude.Ring.Cancel.{solve}
use guillemot_core.Attitude.Kalman.{Nine, Vector}

abbrev pub agree_nine : Nine Expr → Nine Expr → Bool
agree_nine m n =
    agree m.k0 n.k0
    && (agree m.k1 n.k1
        && (agree m.k2 n.k2
            && (agree m.k3 n.k3
                && (agree m.k4 n.k4
                    && (agree m.k5 n.k5
                        && (agree m.k6 n.k6 && (agree m.k7 n.k7 && agree m.k8 n.k8)))))))

abbrev pub agree_vector : Vector Expr → Vector Expr → Bool
agree_vector u v = agree u.v0 v.v0 && (agree u.v1 v.v1 && agree u.v2 v.v2)

first : (b c : Bool) → (b && c) ≡ true → b ≡ true
first b c h = ground arith

others : (b c : Bool) → (b && c) ≡ true → c ≡ true
others b c h = ground arith

module _ {F : Type 0} (a : Arithmetic F) (r : IsRing a) (env : List F) where
  abbrev pub values : Nine Expr → Nine F
  values m = record {
    k0 = value a env m.k0;
    k1 = value a env m.k1;
    k2 = value a env m.k2;
    k3 = value a env m.k3;
    k4 = value a env m.k4;
    k5 = value a env m.k5;
    k6 = value a env m.k6;
    k7 = value a env m.k7;
    k8 = value a env m.k8;
  }

  pub solve_nine : (m n : Nine Expr) → agree_nine m n ≡ true → values m ≡ values n
  solve_nine m n h0 i =
      let h1 = others _ _ h0 in
      let h2 = others _ _ h1 in
      let h3 = others _ _ h2 in
      let h4 = others _ _ h3 in
      let h5 = others _ _ h4 in
      let h6 = others _ _ h5 in
      let h7 = others _ _ h6 in
      record {
        k0 = solve a r env m.k0 n.k0 (first _ _ h0) i;
        k1 = solve a r env m.k1 n.k1 (first _ _ h1) i;
        k2 = solve a r env m.k2 n.k2 (first _ _ h2) i;
        k3 = solve a r env m.k3 n.k3 (first _ _ h3) i;
        k4 = solve a r env m.k4 n.k4 (first _ _ h4) i;
        k5 = solve a r env m.k5 n.k5 (first _ _ h5) i;
        k6 = solve a r env m.k6 n.k6 (first _ _ h6) i;
        k7 = solve a r env m.k7 n.k7 (first _ _ h7) i;
        k8 = solve a r env m.k8 n.k8 (others _ _ h7) i;
      }

  abbrev pub vector_values : Vector Expr → Vector F
  vector_values v = record { v0 = value a env v.v0; v1 = value a env v.v1; v2 = value a env v.v2 }

  pub solve_vector :
      (u v : Vector Expr) → agree_vector u v ≡ true → vector_values u ≡ vector_values v
  solve_vector u v h i =
      let h1 = others _ _ h in
      record {
        v0 = solve a r env u.v0 v.v0 (first _ _ h) i;
        v1 = solve a r env u.v1 v.v1 (first _ _ h1) i;
        v2 = solve a r env u.v2 v.v2 (others _ _ h1) i;
      }
