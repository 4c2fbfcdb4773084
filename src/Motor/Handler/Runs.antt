-- ===== src/Motor/Handler/Runs.antt =====
-- What stays true of a handler in every run of spinOnce and setMotorSpeed.
use guillemot_core.Prelude.{ℕ, ◌≡◌, arith, Bool, ◌&&◌, List, [], if◌then◌else◌, length}
use guillemot_core.Prelude.Int.{ℤ, pos}
use guillemot_core.Prelude.Node.{All, All-append, IsByte, if-P, run, run-All}
use guillemot_core.Motor.Time.{Time}
use guillemot_core.Motor.Message.{Data, IsSpeed, filter_speed_lem}
use guillemot_core.Motor.Handler.{Handler, Effect, transmit, set_motor_speed, init}
use guillemot_core.Motor.Handler.Schedule.{Spin, spin_once, transmit_timeout}
use guillemot_core.Motor.Handler.Safe.{IsData, IsSafe, WritesByte, Ok}
use guillemot_core.Motor.Handler.Receives.{receive-Ok}
use guillemot_core.Motor.Handler.Sends.{transmit-Ok, check_query-Ok, check_motor-Ok}

-- What a call of spinOnce gets from outside is made of bytes.
pub record GetsBytes (s : Spin) : Type 0 where
  pub available_bytes : All IsByte s.available
  pub junk_bytes : IsData s.junk

spin_once-Ok : (h : Handler) (s : Spin) → IsSafe h → GetsBytes s → Ok (spin_once h s)
unfolding spin_once
spin_once-Ok h s v bytes =
    let (v1, w1) = receive-Ok h s.is_open s.available s.throws v bytes.available_bytes in
    let (v2, w2) = check_motor-Ok _ s.motor_clock s.motor_port v1 in
    let (v3, w3) = check_query-Ok _ s.query_clock s.query_port s.junk v2 bytes.junk_bytes in
    let (v4, w4) = resend-Ok _ v3 in
    (
      v4,
      All-append WritesByte _ _ w1 (All-append WritesByte _ _ w2 (All-append WritesByte _ _ w3 w4)),
    )
  where
    resend-Ok :
        (h3 : Handler)
        → IsSafe h3
        → Ok (
            if h3.awaiting_response && transmit_timeout h3 s.timeout_now
            then transmit h3 s.resend_now s.resend_port
            else (h3, []))
    resend-Ok h3 v3 =
        if-P Ok (h3.awaiting_response && transmit_timeout h3 s.timeout_now) _ _
          (transmit-Ok h3 s.resend_now s.resend_port v3) (λ _. (v3, tt))

set_motor_speed-IsSafe :
    (h : Handler) (right left : ℤ) → IsSafe h → IsSafe (set_motor_speed h right left)
unfolding set_motor_speed
set_motor_speed-IsSafe h right left v = record {
  buffered = v.buffered;
  message = v.message;
  right = v.right;
  left = v.left;
  right_target = (filter_speed_lem right).0;
  left_target = (filter_speed_lem left).0;
}

-- The two calls that main.cpp makes of a handler.
pub data Call : Type 0 where
  spin_called : Spin → Call
  speed_set : (right left : ℤ) → Call

unfoldable pub make_call : Call → Handler → Handler × List Effect
make_call (spin_called s) h = spin_once h s
make_call (speed_set right left) h = (set_motor_speed h right left, [])

abbrev pub CallGetsBytes : Call → Type 0
CallGetsBytes (spin_called s) = GetsBytes s
CallGetsBytes (speed_set right left) = Unit {0}

make_call-Ok : (c : Call) (h : Handler) → CallGetsBytes c → IsSafe h → Ok (make_call c h)
unfolding make_call
make_call-Ok (spin_called s) h bytes v = spin_once-Ok h s v bytes
make_call-Ok (speed_set right left) h bytes v = (set_motor_speed-IsSafe h right left v, tt)

run-IsSafe :
    (calls : List Call) (h : Handler)
    → All CallGetsBytes calls
    → IsSafe h
    → IsSafe (run make_call calls h).0 × All WritesByte (run make_call calls h).1
run-IsSafe = run-All make_call CallGetsBytes IsSafe WritesByte make_call-Ok

zero-IsSpeed : IsSpeed (pos 0)
zero-IsSpeed = record { at_least = ground arith; at_most = ground arith }

-- The constructor makes such a handler of whatever bytes memory holds.
init-IsSafe :
    (qr ql volt motor last_send : Time) (junk : Data) (right_current left_current voltage : ℕ)
    (buffer : List ℕ) (opens : Bool)
    → IsData junk
    → length buffer ≡ 8
    → All IsByte buffer
    → IsSafe
        (init qr ql volt motor last_send junk right_current left_current voltage buffer opens).0
unfolding init
init-IsSafe qr ql volt motor last_send junk right_current left_current voltage buffer opens d e hb =
    record {
      buffered = record { room = omega arith; eight = e; bytes = hb };
      message = record { kind = omega arith; content = d; pending = λ e. absurd (ground arith) };
      right = zero-IsSpeed;
      left = zero-IsSpeed;
      right_target = zero-IsSpeed;
      left_target = zero-IsSpeed;
    }

-- In every run of spinOnce and setMotorSpeed on a handler that was constructed, whatever the board
-- sends, the port does and memory held: the buffer keeps room for a byte, the speeds and their targets
-- stay speeds that the board knows, a message is there to send again wherever an answer is awaited,
-- and only bytes are written.
pub runs_from_init :
    (qr ql volt motor last_send : Time) (junk : Data) (right_current left_current voltage : ℕ)
    (buffer : List ℕ) (opens : Bool) (calls : List Call)
    → IsData junk
    → length buffer ≡ 8
    → All IsByte buffer
    → All CallGetsBytes calls
    → let start =
        (init qr ql volt motor last_send junk right_current left_current voltage buffer opens).0 in
      IsSafe (run make_call calls start).0 × All WritesByte (run make_call calls start).1
runs_from_init qr ql volt motor last_send junk right_current left_current voltage buffer opens calls
      d e hb h =
    run-IsSafe calls _ h (
      init-IsSafe qr ql volt motor last_send junk right_current left_current voltage buffer opens d
        e hb)
