-- ===== src/Motor/Handler/Speeds.antt =====
-- How the speeds that CheckMotor of motorController.cpp sets approach the targets.
use guillemot_core.Prelude.{ℕ, zero, suc, ◌+◌, ◌-◌, ◌*◌, ◌≤◌, ◌≡◌, arith}
use guillemot_core.Prelude.Int.{ℤ, pos, sub_ℕ, pos_part, neg_part}
use guillemot_core.Motor.Message.{IsSpeed}
use guillemot_core.Motor.Handler.Schedule.{next_speed}

abbrev pub distance : ℤ → ℤ → ℕ
distance a b =
    let d = sub_ℕ (pos_part a + neg_part b) (pos_part b + neg_part a) in pos_part d + neg_part d

-- `n` settings, one after the other, each of which the board has reached before the next.
unfoldable pub ramp : ℕ → (speed target : ℤ) → ℤ
ramp zero speed target = speed
ramp (suc n) speed target = ramp n (next_speed (pos 20) speed target) target

-- With steps of at most 20, the next speed is one that the board knows, at most 20 away, and nearer to
-- the target by 20, or at the target.
pub next_speed_lem :
    (s t : ℤ)
    → IsSpeed s
    → IsSpeed t
    → IsSpeed (next_speed (pos 20) s t)
      × (distance (next_speed (pos 20) s t) s ≤ 20)
      × (distance (next_speed (pos 20) s t) t ≡ distance s t - 20)
unfolding next_speed
next_speed_lem s t vs vt = (ground arith, ground arith, ground arith)

pub distance-zero : (s t : ℤ) → distance s t ≡ 0 → s ≡ t
distance-zero s t h = ground arith

pub distance-ramp :
    (n : ℕ) (s t : ℤ) → IsSpeed s → IsSpeed t → distance (ramp n s t) t ≡ distance s t - n * 20
unfolding ramp
distance-ramp zero s t vs vt = omega arith
distance-ramp (suc n) s t vs vt =
    let (v, near, d) = next_speed_lem s t vs vt in
    let ih = distance-ramp n (next_speed (pos 20) s t) t v vt in omega arith

distance-le : (s t : ℤ) → IsSpeed s → IsSpeed t → distance s t ≤ 510
distance-le s t vs vt = ground arith

-- From every speed, 26 settings reach the target, wherever it is.
pub ramp_reaches : (s t : ℤ) → IsSpeed s → IsSpeed t → ramp 26 s t ≡ t
ramp_reaches s t vs vt =
    let le = distance-le s t vs vt in
    let d = distance-ramp 26 s t vs vt in distance-zero (ramp 26 s t) t (omega arith)
