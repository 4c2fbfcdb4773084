-- ===== src/Motor/Handler.antt =====
-- class MotorControllerHandler of motorController.h and motorController.cpp: one motor controller
-- board behind a serial port.
-- A method returns the new object and what it did outside it, in order. The serial port is the
-- library libserial: what its calls do in one method call is an argument. So is each clock reading.
-- A byte is a number below 256, whether the code has it as `char` or `unsigned char`.
pub mod Receive
pub mod Schedule
pub mod Speeds
pub mod Echo
pub mod Waiting
pub mod Resync
pub mod Safe
pub mod Receives
pub mod Sends
pub mod Runs
use guillemot_core.Prelude.{
  ℕ, zero, suc, ◌+◌, ◌-◌, ◌*◌, ◌%◌, ◌^◌, ◌≡◌, Bool, true, false, not, ◌&&◌, ◌||◌, List, [], ◌∷◌,
  ◌++◌, ltb, leb, ◌==◌, if◌then◌else◌, take, get_or, set,
}
use guillemot_core.Prelude.Int.{ℤ, pos, negsuc, ◌+ℤ◌, ◌-ℤ◌, ltb_ℤ, ◌==ℤ◌}
use guillemot_core.Motor.Time.{Time, get_milli_secs_between}
use guillemot_core.Motor.Message.{
  Message, Data, no_message, motor_type, motor_response_type, current_type, current_response_type,
  voltage_type, voltage_response_type, error_type, data_f, filter_speed, create_message_from_speed,
  speed_of_bytes, frame,
}

pub record Handler : Type 0 where
  pub max_step : ℤ
  pub awaiting_response : Bool
  pub current_message : Message
  pub last_send_time : Time
  pub last_qr_cur_time : Time
  pub last_ql_cur_time : Time
  pub last_q_volt_time : Time
  pub last_motor_time : Time
  pub right_speed : ℤ
  pub left_speed : ℤ
  pub right_target_speed : ℤ
  pub left_target_speed : ℤ
  pub right_current : ℕ
  pub left_current : ℕ
  pub voltage : ℕ
  pub buffer : List ℕ
  pub buf_index : ℕ

pub data Side : Type 0 where
  right_side left_side : Side

-- What a call does outside the object.
pub data Effect : Type 0 where
  -- `serialPort.WriteByte`, a byte that was taken
  write_byte : ℕ → Effect
  -- a message on /Motor_Current
  publish_current : Side → ℕ → Effect
  -- messages on /Error_Log
  log_open_failed log_send_failed log_read_failed : Effect
  log_controller_error : (b2 b3 b4 b5 : ℕ) → Effect

-- How the serial port behaves in one call of transmit: whether it is open, whether it can be opened
-- if not, and how many bytes it takes before WriteByte throws (all, if that is 7 or more).
pub record Port : Type 0 where
  pub is_open : Bool
  pub can_open : Bool
  pub takes : ℕ

abbrev pub writes : List ℕ → List Effect
writes [] = []
writes (b ∷ bs) = write_byte b ∷ writes bs

unfoldable pub transmit : Handler → Time → Port → Handler × List Effect
transmit h now port = if h.current_message.kind == no_message then (h, []) else (
  record h { last_send_time = now; awaiting_response = true },
  (if port.is_open || port.can_open then [] else log_open_failed ∷ [])
      ++ (writes (take port.takes (frame h.current_message))
          ++ (if ltb port.takes 7 then log_send_failed ∷ [] else [])),
)

unfoldable pub send_message : Handler → Message → Time → Port → Handler × List Effect
send_message h m = transmit (record h { current_message = m })

unfoldable pub set_motor_speed : Handler → (right left : ℤ) → Handler
set_motor_speed h right left = record h {
  right_target_speed = filter_speed right;
  left_target_speed = filter_speed left;
}

-- The constructor. `now` is the clock, read four times; `buffer` and the members that it leaves out
-- hold whatever memory held. A port that cannot be opened is logged.
unfoldable pub init :
    (qr ql volt motor last_send : Time) (junk : Data) (right_current left_current voltage : ℕ)
    (buffer : List ℕ)
    → (opens : Bool) → Handler × List Effect
init qr ql volt motor last_send junk right_current left_current voltage buffer opens = (
  record {
    max_step = pos 20;
    awaiting_response = false;
    current_message = record { kind = no_message; content = junk };
    last_send_time = last_send;
    last_qr_cur_time = qr;
    last_ql_cur_time = ql;
    last_q_volt_time = volt;
    last_motor_time = motor;
    right_speed = pos 0;
    left_speed = pos 0;
    right_target_speed = pos 0;
    left_target_speed = pos 0;
    right_current = right_current;
    left_current = left_current;
    voltage = voltage;
    buffer = buffer;
    buf_index = 0;
  },
  if opens then [] else log_open_failed ∷ [],
)
