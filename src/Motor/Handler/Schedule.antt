-- ===== src/Motor/Handler/Schedule.antt =====
-- When the handler sends: TransmitTimeout, CheckQuery, CheckMotor and spinOnce of
-- motorController.cpp.
use guillemot_core.Prelude.{ℕ, Bool, not, ◌&&◌, List, [], ◌++◌, if◌then◌else◌}
use guillemot_core.Prelude.Int.{ℤ, pos, ◌+ℤ◌, ◌-ℤ◌, ltb_ℤ, ◌==ℤ◌}
use guillemot_core.Motor.Time.{Time, get_milli_secs_between}
use guillemot_core.Motor.Message.{
  Message, Data, current_type, voltage_type, create_message_from_speed,
}
use guillemot_core.Motor.Handler.{Handler, Effect, Port, transmit, send_message}
use guillemot_core.Motor.Handler.Receive.{receive}

abbrev pub resend_timeout : ℤ
resend_timeout = pos 1000

abbrev pub query_period : ℤ
query_period = pos 1000

abbrev pub current_period : ℤ
current_period = pos 100

abbrev pub motor_period : ℤ
motor_period = pos 70

unfoldable pub transmit_timeout : Handler → (now : Time) → Bool
transmit_timeout h now = ltb_ℤ resend_timeout (get_milli_secs_between h.last_send_time now)

-- The clock readings of CheckQuery and CheckMotor: at their start, in transmit, and at their end.
pub record Clock : Type 0 where
  pub start : Time
  pub send : Time
  pub end : Time

-- A query; the bytes of its content that the code does not set are whatever `junk` holds.
abbrev pub current_query : ℕ → Data → Message
current_query side junk = record { kind = current_type; content = record junk { c0 = side } }

unfoldable pub check_query : Handler → Clock → Port → (junk : Data) → Handler × List Effect
check_query h t port junk =
    if h.awaiting_response
    then (h, [])
    else if ltb_ℤ current_period (get_milli_secs_between h.last_qr_cur_time t.start)
    then (let (h1, es) = send_message h (current_query b'R' junk) t.send port in
        (record h1 { last_qr_cur_time = t.end }, es))
    else if ltb_ℤ current_period (get_milli_secs_between h.last_ql_cur_time t.start)
    then (let (h1, es) = send_message h (current_query b'L' junk) t.send port in
        (record h1 { last_ql_cur_time = t.end }, es))
    else if ltb_ℤ query_period (get_milli_secs_between h.last_q_volt_time t.start)
    then (let (h1, es) =
          send_message h (record { kind = voltage_type; content = junk }) t.send port in
        (record h1 { last_q_volt_time = t.end }, es))
    else (h, [])

-- The speed to set next: towards the target, by at most `max_step`.
unfoldable pub next_speed : (max_step speed target : ℤ) → ℤ
unfolding ◌+ℤ◌ ◌-ℤ◌
next_speed max_step speed target =
    if not (speed ==ℤ target)
    then (let diff = target -ℤ speed in
        let top = if ltb_ℤ max_step diff then max_step else diff in
        let bottom = pos 0 -ℤ max_step in
        let low = if ltb_ℤ top bottom then bottom else top in speed +ℤ low)
    else speed

-- `needsSent` is true from the start, so every call past the period sends.
unfoldable pub check_motor : Handler → Clock → Port → Handler × List Effect
check_motor h t port =
    if h.awaiting_response
    then (h, [])
    else if ltb_ℤ (get_milli_secs_between h.last_motor_time t.start) motor_period
    then (h, [])
    else (let left = next_speed h.max_step h.left_speed h.left_target_speed in
        let right = next_speed h.max_step h.right_speed h.right_target_speed in
        let (h1, es) = send_message h (create_message_from_speed right left) t.send port in
        (record h1 { last_motor_time = t.end }, es))

-- What one call of spinOnce gets from outside.
pub record Spin : Type 0 where
  pub is_open : Bool
  pub available : List ℕ
  pub throws : Bool
  pub motor_clock : Clock
  pub motor_port : Port
  pub query_clock : Clock
  pub query_port : Port
  pub junk : Data
  pub timeout_now : Time
  pub resend_now : Time
  pub resend_port : Port

unfoldable pub spin_once : Handler → Spin → Handler × List Effect
spin_once h s =
    let (h1, es1) = receive h s.is_open s.available s.throws in
    let (h2, es2) = check_motor h1 s.motor_clock s.motor_port in
    let (h3, es3) = check_query h2 s.query_clock s.query_port s.junk in
    let (h4, es4) =
      if h3.awaiting_response && transmit_timeout h3 s.timeout_now
      then transmit h3 s.resend_now s.resend_port
      else (h3, []) in
    (h4, es1 ++ (es2 ++ (es3 ++ es4)))
