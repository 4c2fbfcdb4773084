-- ===== src/Sensor/Publish.antt =====
-- The loop of main of SubSensorController.cpp: what is published of a line. A topic is published when
-- its values have changed, or a second after it was published last.
-- A float is the bit pattern of its object, and `differ` the comparison of two of them.
use guillemot_core.Prelude.{
  ℕ, List, [], ◌∷◌, ◌++◌, Bool, not, ◌||◌, Option, none, some, if◌then◌else◌,
}
use guillemot_core.Prelude.Int.{ℤ, ◌==ℤ◌}
use guillemot_core.Motor.Time.{Time}
use guillemot_core.Motor.Message.{to_byte}
use guillemot_core.Sensor.Timer.{start, is_timeout}
use guillemot_core.Sensor.Line.{good_line}

-- What sscanf reads of a line, or what was published last.
pub record Values : Type 0 where
  pub temp0 : ℕ
  pub temp1 : ℕ
  pub temp2 : ℕ
  pub motor_killed : ℤ
  pub current : ℕ
  pub voltage : ℕ
  pub pressure : ℕ
  pub water_detected : ℤ
  pub dropper_left : ℤ
  pub dropper_right : ℤ

-- The six timers, by their end times; also the clock readings, one for each timer.
pub record Timers : Type 0 where
  pub temp_timer : Time
  pub motor_timer : Time
  pub current_timer : Time
  pub pressure_timer : Time
  pub water_timer : Time
  pub dropper_timer : Time

pub record State : Type 0 where
  pub values : Values
  pub timers : Timers

pub data Msg : Type 0 where
  controller_box_temp : (t0 t1 t2 : ℕ) → Msg
  motor_state : ℕ → Msg
  computer_cur_volt : (current voltage : ℕ) → Msg
  pressure_data : ℕ → Msg
  water_detected : ℕ → Msg
  dropper_states : (left right : ℕ) → Msg

-- A second from the reading on.
abbrev pub restart : Time → Time
restart = start 1 0

module _ (differ : ℕ → ℕ → Bool) where
  -- Each publishes its topic, or leaves it. `t` is the line's values; `check` and `sent` are the
  -- clock readings of the timer's test and of its start.
  unfoldable pub publish_temp : (t : Values) (check sent : Timers) → State → State × List Msg
  publish_temp t check sent s =
      let v = s.values in
      if differ v.temp0 t.temp0
        || differ v.temp1 t.temp1
        || differ v.temp2 t.temp2
        || is_timeout s.timers.temp_timer check.temp_timer
      then (
        record {
          values = record v { temp0 = t.temp0; temp1 = t.temp1; temp2 = t.temp2 };
          timers = record (s.timers) { temp_timer = restart sent.temp_timer };
        },
        controller_box_temp t.temp0 t.temp1 t.temp2 ∷ [],
      )
      else (s, [])

  unfoldable pub publish_current : (t : Values) (check sent : Timers) → State → State × List Msg
  publish_current t check sent s =
      let v = s.values in
      if differ v.current t.current
        || (differ v.voltage t.voltage || is_timeout s.timers.current_timer check.current_timer)
      then (
        record {
          values = record v { current = t.current; voltage = t.voltage };
          timers = record (s.timers) { current_timer = restart sent.current_timer };
        },
        computer_cur_volt t.current t.voltage ∷ [],
      )
      else (s, [])

  unfoldable pub publish_pressure : (t : Values) (check sent : Timers) → State → State × List Msg
  publish_pressure t check sent s =
      if differ s.values.pressure t.pressure
        || is_timeout s.timers.pressure_timer check.pressure_timer
      then (
        record {
          values = record (s.values) { pressure = t.pressure };
          timers = record (s.timers) { pressure_timer = restart sent.pressure_timer };
        },
        pressure_data t.pressure ∷ [],
      )
      else (s, [])

  unfoldable pub publish_motor : (t : Values) (check sent : Timers) → State → State × List Msg
  publish_motor t check sent s =
      if not (s.values.motor_killed ==ℤ t.motor_killed)
        || is_timeout s.timers.motor_timer check.motor_timer
      then (
        record {
          values = record (s.values) { motor_killed = t.motor_killed };
          timers = record (s.timers) { motor_timer = restart sent.motor_timer };
        },
        motor_state (to_byte t.motor_killed) ∷ [],
      )
      else (s, [])

  unfoldable pub publish_water : (t : Values) (check sent : Timers) → State → State × List Msg
  publish_water t check sent s =
      if not (s.values.water_detected ==ℤ t.water_detected)
        || is_timeout s.timers.water_timer check.water_timer
      then (
        record {
          values = record (s.values) { water_detected = t.water_detected };
          timers = record (s.timers) { water_timer = restart sent.water_timer };
        },
        water_detected (to_byte t.water_detected) ∷ [],
      )
      else (s, [])

  unfoldable pub publish_dropper : (t : Values) (check sent : Timers) → State → State × List Msg
  publish_dropper t check sent s =
      let v = s.values in
      if not (t.dropper_left ==ℤ v.dropper_left)
        || not (t.dropper_right ==ℤ v.dropper_right)
        || is_timeout s.timers.dropper_timer check.dropper_timer
      then (
        record {
          values = record v { dropper_left = t.dropper_left; dropper_right = t.dropper_right };
          timers = record (s.timers) { dropper_timer = restart sent.dropper_timer };
        },
        dropper_states (to_byte t.dropper_left) (to_byte t.dropper_right) ∷ [],
      )
      else (s, [])

  -- The six topics, in the code's order.
  unfoldable pub publish_values : (t : Values) (check sent : Timers) → State → State × List Msg
  publish_values t check sent s =
      let (s, m1) = publish_temp t check sent s in
      let (s, m2) = publish_motor t check sent s in
      let (s, m3) = publish_current t check sent s in
      let (s, m4) = publish_pressure t check sent s in
      let (s, m5) = publish_water t check sent s in
      let (s, m6) = publish_dropper t check sent s in (s, m1 ++ (m2 ++ (m3 ++ (m4 ++ (m5 ++ m6)))))

  abbrev publish_scanned : Option Values → (check sent : Timers) → State → State × List Msg
  publish_scanned none check sent s = (s, [])
  publish_scanned (some t) check sent s = publish_values t check sent s

  -- `scan` is sscanf, which gives values if it reads all ten.
  unfoldable pub handle_line :
      (scan : List ℕ → Option Values)
      → (line : List ℕ) → (check sent : Timers) → State
      → State × List Msg
  handle_line scan line check sent s =
      if good_line line 10 then publish_scanned (scan line) check sent s else (s, [])
