-- ===== src/Sensor/Quiet.antt =====
-- When main of SubSensorController.cpp publishes nothing.
use guillemot_core.Prelude.{ℕ, ◌≡◌, [], Bool, true, false}
use guillemot_core.Prelude.Int.{◌==ℤ◌}
use guillemot_core.Sensor.Timer.{is_timeout}
use guillemot_core.Sensor.Publish.{
  Values, Timers, State, publish_temp, publish_motor, publish_current, publish_pressure,
  publish_water, publish_dropper, publish_values,
}

-- No timer is over.
pub record Fresh (timers check : Timers) : Type 0 where
  pub temp : is_timeout timers.temp_timer check.temp_timer ≡ false
  pub motor : is_timeout timers.motor_timer check.motor_timer ≡ false
  pub current : is_timeout timers.current_timer check.current_timer ≡ false
  pub pressure : is_timeout timers.pressure_timer check.pressure_timer ≡ false
  pub water : is_timeout timers.water_timer check.water_timer ≡ false
  pub dropper : is_timeout timers.dropper_timer check.dropper_timer ≡ false

module _ (differ : ℕ → ℕ → Bool) where
  abbrev pub AgreesTemp : (t v : Values) → Type 0
  AgreesTemp t v =
      (differ v.temp0 t.temp0 ≡ false)
      × (differ v.temp1 t.temp1 ≡ false)
      × (differ v.temp2 t.temp2 ≡ false)

  abbrev pub AgreesMotor : (t v : Values) → Type 0
  AgreesMotor t v = (v.motor_killed ==ℤ t.motor_killed) ≡ true

  abbrev pub AgreesCurrent : (t v : Values) → Type 0
  AgreesCurrent t v = (differ v.current t.current ≡ false) × (differ v.voltage t.voltage ≡ false)

  abbrev pub AgreesPressure : (t v : Values) → Type 0
  AgreesPressure t v = differ v.pressure t.pressure ≡ false

  abbrev pub AgreesWater : (t v : Values) → Type 0
  AgreesWater t v = (v.water_detected ==ℤ t.water_detected) ≡ true

  abbrev pub AgreesDropper : (t v : Values) → Type 0
  AgreesDropper t v =
      ((t.dropper_left ==ℤ v.dropper_left) ≡ true) × ((t.dropper_right ==ℤ v.dropper_right) ≡ true)

  -- The values of the state are those of the line, as far as the code's comparisons tell.
  pub record Agrees (t v : Values) : Type 0 where
    pub temp : AgreesTemp t v
    pub motor : AgreesMotor t v
    pub current : AgreesCurrent t v
    pub pressure : AgreesPressure t v
    pub water : AgreesWater t v
    pub dropper : AgreesDropper t v

  quiet_temp :
      (t : Values) (check sent : Timers) (s : State)
      → Agrees t s.values
      → Fresh s.timers check
      → publish_temp differ t check sent s ≡ (s, [])
  unfolding publish_temp
  quiet_temp t check sent s a f = rw (a.temp.0, a.temp.1, a.temp.2, f.temp)

  quiet_motor :
      (t : Values) (check sent : Timers) (s : State)
      → Agrees t s.values
      → Fresh s.timers check
      → publish_motor differ t check sent s ≡ (s, [])
  unfolding publish_motor
  quiet_motor t check sent s a f = rw (a.motor, f.motor)

  quiet_current :
      (t : Values) (check sent : Timers) (s : State)
      → Agrees t s.values
      → Fresh s.timers check
      → publish_current differ t check sent s ≡ (s, [])
  unfolding publish_current
  quiet_current t check sent s a f = rw (a.current.0, a.current.1, f.current)

  quiet_pressure :
      (t : Values) (check sent : Timers) (s : State)
      → Agrees t s.values
      → Fresh s.timers check
      → publish_pressure differ t check sent s ≡ (s, [])
  unfolding publish_pressure
  quiet_pressure t check sent s a f = rw (a.pressure, f.pressure)

  quiet_water :
      (t : Values) (check sent : Timers) (s : State)
      → Agrees t s.values
      → Fresh s.timers check
      → publish_water differ t check sent s ≡ (s, [])
  unfolding publish_water
  quiet_water t check sent s a f = rw (a.water, f.water)

  quiet_dropper :
      (t : Values) (check sent : Timers) (s : State)
      → Agrees t s.values
      → Fresh s.timers check
      → publish_dropper differ t check sent s ≡ (s, [])
  unfolding publish_dropper
  quiet_dropper t check sent s a f = rw (a.dropper.0, a.dropper.1, f.dropper)

  pub quiet :
      (t : Values) (check sent : Timers) (s : State)
      → Agrees t s.values
      → Fresh s.timers check
      → publish_values differ t check sent s ≡ (s, [])
  unfolding publish_values
  quiet t check sent s a f = rw (
    quiet_temp t check sent s a f,
    quiet_motor t check sent s a f,
    quiet_current t check sent s a f,
    quiet_pressure t check sent s a f,
    quiet_water t check sent s a f,
    quiet_dropper t check sent s a f,
  )
