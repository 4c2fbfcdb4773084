-- ===== src/Sensor/Timer.antt =====
-- timer.cpp of SubSensorController, and timeLeft of SubSensorController.cpp. A clock reading is an
-- argument; `long` does not overflow.
use guillemot_core.Prelude.{ℕ, ◌+◌, ◌-◌, ◌*◌, ◌/◌, ◌%◌, Bool, true, false, leb, if◌then◌else◌}
use guillemot_core.Motor.Time.{Time, million, micros}

-- The object is its end time. The microseconds are added to the seconds, as the code has it.
unfoldable pub start : (sec usec : ℕ) → (now : Time) → Time
start sec usec now = record now { sec = now.sec + sec + usec }

unfoldable pub is_timeout : (end now : Time) → Bool
is_timeout end now = leb (micros end) (micros now)

-- What timeLeft returns, and the new start and timeout.
unfoldable pub time_left : (start timeout now : Time) → Bool × (Time × Time)
time_left start timeout now =
    let usec = (start.sec + timeout.sec) * million + (start.usec + timeout.usec) in
    let left = usec - micros now in
    if leb usec (micros now)
    then (false, (now, timeout))
    else (true, (now, record { sec = left / million; usec = left % million }))
