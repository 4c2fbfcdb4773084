-- ===== src/Motor/Tests.antt =====
-- The theorems on the motor controllers at concrete inputs.
use guillemot_core.Prelude.{
  ℕ, zero, suc, ◌+◌, ◌<◌, ◌≡◌, refl, List, [], ◌∷◌, arith, replicate, true, false,
}
use guillemot_core.Prelude.Int.{pos, negsuc}
use guillemot_core.Motor.Time.{Time, get_milli_secs_between}
use guillemot_core.Motor.Message.{Message, Data, IsSpeed, frame, no_message, motor_type}
use guillemot_core.Prelude.Node.{All, IsByte, run}
use guillemot_core.Motor.Handler.{Handler, Port, init}
use guillemot_core.Motor.Handler.Safe.{IsData, IsSafe, WritesByte}
use guillemot_core.Motor.Handler.Runs.{
  Call, spin_called, speed_set, make_call, CallGetsBytes, runs_from_init,
}
use guillemot_core.Motor.Handler.Receive.{receive}
use guillemot_core.Motor.Handler.Schedule.{Clock, Spin}
use guillemot_core.Motor.Handler.Resync.{Handled, NoStart, receive-resync}
use guillemot_core.Motor.Handler.Echo.{
  Ready, IsDue, AllDue, exchange, exchange_lem, exchanges, exchanges_reach,
}

abbrev before : Time
before = record { sec = 10; usec = 999_000 }

abbrev after : Time
after = record { sec = 11; usec = 1_500 }

hundred : IsSpeed (pos 100)
hundred = record { at_least = ground arith; at_most = ground arith }

back_fifty : IsSpeed (negsuc 49)
back_fifty = record { at_least = ground arith; at_most = ground arith }

still : IsSpeed (pos 0)
still = record { at_least = ground arith; at_most = ground arith }

abbrev zeros : Data
zeros = record { c0 = 0; c1 = 0; c2 = 0; c3 = 0 }

abbrev pub idle_handler : Handler
idle_handler = record {
  max_step = pos 20;
  awaiting_response = false;
  current_message = record { kind = no_message; content = zeros };
  last_send_time = before;
  last_qr_cur_time = before;
  last_ql_cur_time = before;
  last_q_volt_time = before;
  last_motor_time = record { sec = 11; usec = 200 };
  right_speed = pos 0;
  left_speed = pos 0;
  right_target_speed = pos 100;
  left_target_speed = negsuc 49;
  right_current = 0;
  left_current = 0;
  voltage = 0;
  buffer = replicate 8 0;
  buf_index = 0;
}

idle-Ready : Ready idle_handler
idle-Ready = record {
  idle = refl;
  empty = refl;
  eight = refl;
  step = refl;
  right = still;
  left = still;
  right_target = hundred;
  left_target = back_fifty;
}

-- A motor message is out, and three bytes of junk are in the buffer.
abbrev waiting : Handler
waiting = record idle_handler {
  awaiting_response = true;
  current_message = record { kind = motor_type; content = zeros };
  buffer = 1 ∷ 2 ∷ 3 ∷ replicate 5 0;
  buf_index = 3;
}

abbrev reply : Message
reply = record { kind = b'd'; content = record { c0 = 0; c1 = 20; c2 = 20; c3 = 0 } }

receive-resync_example : Handled waiting reply (receive waiting true (4 ∷ b'E' ∷ frame reply) false)
receive-resync_example =
    receive-resync waiting reply (4 ∷ b'E' ∷ []) (1 ∷ 2 ∷ 3 ∷ []) (replicate 5 0) refl refl refl
      (omega arith, (omega arith, (omega arith, tt))) (omega arith, (omega arith, tt)) (omega arith)
      refl

abbrev at_second : ℕ → Clock
at_second n = record {
  start = record { sec = n; usec = 0 };
  send = record { sec = n; usec = 100 };
  end = record { sec = n; usec = 200 };
}

abbrev open_port : Port
open_port = record { is_open = true; can_open = true; takes = 7 }

IsDue-next :
    (h : Handler) (n : ℕ)
    → h.last_motor_time ≡ (at_second n).end
    → n < 80
    → IsDue h (at_second (n + 1))
unfolding get_milli_secs_between
IsDue-next h n e small = rw e (ground arith)

-- An exchange in each of `k` seconds from `n + 1` on, behind a byte of junk each.
abbrev seconds_after : ℕ → ℕ → List (Clock × (Port × List ℕ))
seconds_after zero n = []
seconds_after (suc k) n = (at_second (n + 1), (open_port, n ∷ [])) ∷ seconds_after k (n + 1)

seconds-AllDue :
    (h : Handler) (k n : ℕ)
    → Ready h
    → h.last_motor_time ≡ (at_second n).end
    → n + k < 80
    → AllDue h (seconds_after k n)
seconds-AllDue h zero n ready e small = tt
seconds-AllDue h (suc k) n ready e small =
    let due = IsDue-next h n e (omega arith) in
    let junk : NoStart (n ∷ []) = (omega arith, tt) in
    let (ready', _, _, _, _, _, sent) =
      exchange_lem h (at_second (n + 1)) open_port (n ∷ []) ready due junk in
    (
      due,
      (
        junk,
        seconds-AllDue (exchange h (at_second (n + 1)) open_port (n ∷ [])) k (n + 1) ready' sent
            (omega arith),
      ),
    )

exchanges_reach_example :
    ((exchanges idle_handler (seconds_after 26 11)).left_speed ≡ negsuc 49)
    × ((exchanges idle_handler (seconds_after 26 11)).right_speed ≡ pos 100)
exchanges_reach_example =
    exchanges_reach idle_handler (seconds_after 26 11) idle-Ready
      (seconds-AllDue idle_handler 26 11 idle-Ready refl (omega arith)) refl

-- A call of spinOnce at second 13, with nothing to read.
abbrev quiet_spin : Spin
quiet_spin = record {
  is_open = true;
  available = [];
  throws = false;
  motor_clock = at_second 13;
  motor_port = open_port;
  query_clock = at_second 13;
  query_port = open_port;
  junk = zeros;
  timeout_now = after;
  resend_now = record { sec = 13; usec = 300 };
  resend_port = open_port;
}

zeros-IsData : IsData zeros
zeros-IsData = record { c0 = omega arith; c1 = omega arith; c2 = omega arith; c3 = omega arith }

-- A call of spinOnce that reads an answer with 20 on both sides.
abbrev answered_spin : Spin
answered_spin = record quiet_spin { available = frame reply }

-- Asked for too much, it sends, reads the answer, and sends again.
abbrev first_calls : List Call
first_calls =
    speed_set (pos 300) (negsuc 6) ∷ spin_called quiet_spin ∷ spin_called answered_spin ∷ []

first_calls-CallGetsBytes : All CallGetsBytes first_calls
unfolding frame
first_calls-CallGetsBytes = (
  tt,
  (
    record { available_bytes = tt; junk_bytes = zeros-IsData },
    (
      record {
        available_bytes = (
          omega arith,
          (
            omega arith,
            (omega arith, (omega arith, (omega arith, (omega arith, (omega arith, tt))))),
          ),
        );
        junk_bytes = zeros-IsData;
      },
      tt,
    ),
  ),
)

eight_bytes-IsByte : All IsByte (replicate 8 7)
eight_bytes-IsByte = (
  omega arith,
  (
    omega arith,
    (omega arith, (omega arith, (omega arith, (omega arith, (omega arith, (omega arith, tt)))))),
  ),
)

runs_from_init_example :
    IsSafe
      (run make_call first_calls
        (init before before before before after zeros 0 0 0 (replicate 8 7) true).0).0
    × All WritesByte
        (run make_call first_calls
          (init before before before before after zeros 0 0 0 (replicate 8 7) true).0).1
runs_from_init_example =
    runs_from_init before before before before after zeros 0 0 0 (replicate 8 7) true first_calls
      zeros-IsData refl eight_bytes-IsByte first_calls-CallGetsBytes
