-- ===== src/Flood/Reports.antt =====
-- What the loop of main of SubFloodSensorMain.cpp publishes.
use guillemot_core.Prelude.{
  get_or, zero, suc, ℕ, ◌+◌, ◌*◌, ◌%◌, ◌^◌, ◌<◌, ◌≡◌, ◌≢◌, refl, subst, List, [], ◌∷◌, ◌++◌, Bool,
  true, ltb, if◌then◌else◌, Bool-cases, inl, inr, arith,
}
use mathlib.Core.List.{append-nil}
use guillemot_core.Prelude.Run.{done, ◌>>=◌}
use guillemot_core.Imu.Buffer.{get_uint16}
use guillemot_core.Flood.Packet.{Input, not_good, recv_packet, max_retries}
use guillemot_core.Flood.Sensors.{
  FloodMsg, readings_loop, publish_readings, check_loop, check_sensors, time_out, never,
}
use guillemot_core.Flood.Framing.{Delivers, recv_packet-Delivers, recv_packet_cut_off}

-- The state of a sensor whose reading is in two bytes, high byte first.
abbrev pub state_of : ℕ → ℕ → ℕ
state_of high low = if ltb 600 (high * 256 + low) then 1 else 0

abbrev pub dry_or_wet : (sensor : ℕ) → (high low : ℕ) → FloodMsg
dry_or_wet sensor high low = record { sensor_number = sensor; state = state_of high low }

-- A packet of two readings of two bytes: each sensor is published with its state, and has been seen.
pub publish_readings-Delivers :
    (i mid j : Input) (k1 k2 a b c d s0 s1 : ℕ) (clock : ℕ → ℕ)
    → Delivers i (b'S' ∷ 4 ∷ 2 ∷ []) k1 mid
    → Delivers mid (a ∷ b ∷ c ∷ d ∷ []) k2 j
    → k1 < max_retries
    → k2 < max_retries
    → (recv_packet i >>= λ r. publish_readings clock r.0 r.1 (s0 ∷ s1 ∷ []))
      ≡ done (clock 0 ∷ clock 1 ∷ [], dry_or_wet 0 a b ∷ dry_or_wet 1 c d ∷ [])
unfolding publish_readings readings_loop get_uint16
publish_readings-Delivers i mid j k1 k2 a b c d s0 s1 clock d1 d2 lt1 lt2 = rw (
    recv_packet-Delivers i mid j 1 k1 k2 (a ∷ b ∷ c ∷ d ∷ []) d1 d2 lt1 lt2 (omega arith)
      (omega arith) refl)

-- A packet of two readings of which only the header arrives: both sensors are published as dry, and
-- have been seen.
pub publish_readings_cut_off :
    (i j : Input) (k s0 s1 : ℕ) (clock : ℕ → ℕ)
    → Delivers i (b'S' ∷ 4 ∷ 2 ∷ []) k (not_good ∷ j)
    → k < max_retries
    → (recv_packet i >>= λ r. publish_readings clock r.0 r.1 (s0 ∷ s1 ∷ []))
      ≡ done (
        clock 0 ∷ clock 1 ∷ [],
        record { sensor_number = 0; state = 0 } ∷ record { sensor_number = 1; state = 0 } ∷ [],
      )
unfolding publish_readings readings_loop get_uint16
publish_readings_cut_off i j k s0 s1 clock d lt = rw (recv_packet_cut_off i j 3 2 k d lt)

-- No message is about the sensor.
abbrev pub Silent : ℕ → List FloodMsg → Type 0
Silent k [] = Unit
Silent k (m ∷ ms) = (m.sensor_number ≢ k) × Silent k ms

abbrev late : (seen now : ℕ) → Bool
late seen now = ltb ((seen + time_out) % 2 ^ 32) now

abbrev after : (seen now : ℕ) → ℕ
after seen now = if late seen now then never else seen

abbrev report : (sensor seen now : ℕ) → List FloodMsg
report k seen now = if late seen now then record { sensor_number = k; state = 2 } ∷ [] else []

check_sensors_lem :
    (clock : ℕ → ℕ) (s0 s1 : ℕ)
    → check_sensors clock (s0 ∷ s1 ∷ []) ≡ (
      after s0 (clock 0) ∷ after s1 (clock 1) ∷ [],
      report 0 s0 (clock 0) ++ report 1 s1 (clock 1),
    )
unfolding check_sensors check_loop
check_sensors_lem clock s0 s1 = ground arith

report-after :
    (k seen now later : ℕ)
    → later < 2 ^ 32
    → late seen now ≡ true
    → report k (after seen now) later ≡ []
report-after k seen now later b h = ground arith

Silent-report :
    (k sensor seen now : ℕ)
    → sensor ≢ k
    → (ms : List FloodMsg) → Silent k ms
    → Silent k (report sensor seen now ++ ms)
Silent-report k sensor seen now ne ms quiet = elim (Bool-cases (late seen now)) [
  | inl h ↦ rw h (ne, quiet)
  | inr h ↦ rw h quiet
]

-- A sensor that has been reported for its silence is not reported again, at whatever time main
-- checks next.
pub check_sensors_once :
    (clock later : ℕ → ℕ) (s0 s1 k : ℕ)
    → k < 2
    → later k < 2 ^ 32
    → (get_or (s0 ∷ s1 ∷ []) k 0 + time_out) % 2 ^ 32 < clock k
    → Silent k (check_sensors later (check_sensors clock (s0 ∷ s1 ∷ [])).0).1
check_sensors_once clock later s0 s1 zero two b h =
    rw
      (
        check_sensors_lem clock s0 s1,
        check_sensors_lem later (after s0 (clock 0)) (after s1 (clock 1)),
        report-after 0 s0 (clock 0) (later 0) b (ground arith),
      )
      (subst (Silent 0) (append-nil _)
        (Silent-report 0 1 (after s1 (clock 1)) (later 1) (omega arith) [] tt))
check_sensors_once clock later s0 s1 (suc zero) two b h =
    rw
      (
        check_sensors_lem clock s0 s1,
        check_sensors_lem later (after s0 (clock 0)) (after s1 (clock 1)),
        report-after 1 s1 (clock 1) (later 1) b (ground arith),
      )
      (Silent-report 1 0 (after s0 (clock 0)) (later 0) (omega arith) [] tt)
check_sensors_once clock later s0 s1 (suc (suc k)) two b h = absurd (omega arith)
