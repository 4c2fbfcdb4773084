-- ===== src/Sensor/Tests.antt =====
-- The theorems on the sensor board at concrete inputs.
use guillemot_core.Prelude.{ℕ, ◌≡◌, refl, List, [], ◌∷◌, Bool, false, not, ◌==◌, arith}
use guillemot_core.Prelude.Int.{pos}
use guillemot_core.Motor.Time.{Time}
use guillemot_core.Sensor.Timer.{start, is_timeout, time_left}
use guillemot_core.Sensor.Line.{Round, byte}
use guillemot_core.Sensor.Publish.{
  Values, Timers, State, publish_values, publish_temp, publish_motor, publish_current,
  publish_pressure, publish_water, publish_dropper,
}
use guillemot_core.Sensor.Reading.{Heard}
use guillemot_core.Sensor.Quiet.{Fresh}

abbrev at : ℕ → ℕ → Time
at s u = record { sec = s; usec = u }

abbrev hears : ℕ → ℕ → Round
hears u c = record { now = at 5 u; poll = byte c; remaining = at 0 900_000 }

abbrev rounds : List Round
rounds = hears 10 b'7' ∷ hears 20 b'S' ∷ hears 30 b'4' ∷ hears 40 b'x' ∷ hears 50 b'E' ∷ []

rounds-Heard : Heard (at 5 0) (at 1 0) rounds (b'7' ∷ b'S' ∷ b'4' ∷ b'x' ∷ [])
unfolding time_left
rounds-Heard = (
  refl,
  refl,
  omega arith,
  omega arith,
  (
    refl,
    refl,
    omega arith,
    omega arith,
    (refl, refl, omega arith, omega arith, (refl, refl, omega arith, omega arith, (refl, refl))),
  ),
)

abbrev differ : ℕ → ℕ → Bool
differ a b = not (a == b)

differ_self : (x : ℕ) → differ x x ≡ false
differ_self x = ground arith

abbrev zero_values : Values
zero_values = record {
  temp0 = 0;
  temp1 = 0;
  temp2 = 0;
  motor_killed = pos 0;
  current = 0;
  voltage = 0;
  pressure = 0;
  water_detected = pos 0;
  dropper_left = pos 0;
  dropper_right = pos 0;
}

abbrev line_values : Values
line_values = record zero_values { temp1 = 20; pressure = 7; motor_killed = pos 1 }

abbrev all_at : Time → Timers
all_at t = record {
  temp_timer = t;
  motor_timer = t;
  current_timer = t;
  pressure_timer = t;
  water_timer = t;
  dropper_timer = t;
}

abbrev first_state : State
first_state = record { values = zero_values; timers = all_at (at 6 0) }

still-Fresh :
    Fresh
      (publish_values differ line_values
        (all_at (at 5 100))
        (all_at (at 5 200))
        first_state).0.timers
      (all_at (at 5 900))
unfolding publish_values publish_temp publish_motor publish_current publish_pressure publish_water
    publish_dropper is_timeout start
still-Fresh = record {
  temp = refl;
  motor = refl;
  current = refl;
  pressure = refl;
  water = refl;
  dropper = refl;
}
