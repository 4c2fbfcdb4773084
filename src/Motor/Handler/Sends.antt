-- ===== src/Motor/Handler/Sends.antt =====
-- A handler that sends stays safe, and writes bytes: transmit, CheckQuery and CheckMotor of
-- motorController.cpp.
use guillemot_core.Prelude.{ℕ, ◌≡◌, arith, false, ◌||◌, ltb, ◌==◌}
use guillemot_core.Prelude.Int.{ℤ, pos, negsuc, ltb_ℤ}
use guillemot_core.Prelude.Node.{All, All-append, IsByte, if-P}
use guillemot_core.Motor.Time.{Time, get_milli_secs_between}
use guillemot_core.Motor.Message.{
  Message, Data, no_message, voltage_type, frame, create_message_from_speed, to_byte,
}
use guillemot_core.Motor.Handler.{Handler, Port, transmit, send_message}
use guillemot_core.Motor.Handler.Schedule.{
  Clock, check_query, check_motor, current_query, current_period, query_period, motor_period,
}
use guillemot_core.Motor.Handler.Safe.{IsData, IsSafe, WritesByte, Ok, take-IsByte}

pub transmit-Ok : (h : Handler) (now : Time) (port : Port) → IsSafe h → Ok (transmit h now port)
unfolding transmit frame
transmit-Ok h now port v =
    let d = v.message.content in
    if-P Ok (h.current_message.kind == no_message) _ _ (v, tt)
      (λ e. (
        record {
          buffered = v.buffered;
          message = record { kind = v.message.kind; content = d; pending = λ _. e };
          right = v.right;
          left = v.left;
          right_target = v.right_target;
          left_target = v.left_target;
        },
        All-append WritesByte _ _
            (if-P (All WritesByte) (port.is_open || port.can_open) _ _ tt (λ _. (tt, tt)))
            (All-append WritesByte _ _
              (take-IsByte port.takes (frame h.current_message)
                (omega arith, (v.message.kind, (d.c0, (d.c1, (d.c2, (d.c3, (omega arith, tt))))))))
              (if-P (All WritesByte) (ltb port.takes 7) _ _ (tt, tt) (λ _. tt))),
      ))

-- A message made of bytes in the place of the current one.
message-IsSafe :
    (h : Handler) (m : Message)
    → IsSafe h
    → h.awaiting_response ≡ false
    → IsByte m.kind
    → IsData m.content
    → IsSafe (record h { current_message = m })
message-IsSafe h m v idle hk hd = record {
  buffered = v.buffered;
  message = record { kind = hk; content = hd; pending = λ e. absurd (ground arith) };
  right = v.right;
  left = v.left;
  right_target = v.right_target;
  left_target = v.left_target;
}

times-IsSafe :
    (h : Handler) {qr ql volt motor : Time}
    → IsSafe h
    → IsSafe (record h {
      last_qr_cur_time = qr;
      last_ql_cur_time = ql;
      last_q_volt_time = volt;
      last_motor_time = motor;
    })
times-IsSafe h v = record {
  buffered = v.buffered;
  message = v.message;
  right = v.right;
  left = v.left;
  right_target = v.right_target;
  left_target = v.left_target;
}

send_message-Ok :
    (h : Handler) (m : Message) (now : Time) (port : Port)
    → IsSafe h
    → h.awaiting_response ≡ false
    → IsByte m.kind
    → IsData m.content
    → Ok (send_message h m now port)
unfolding send_message
send_message-Ok h m now port v idle hk hd =
    transmit-Ok (record h { current_message = m }) now port (message-IsSafe h m v idle hk hd)

junk-IsData :
    (junk : Data) (side : ℕ) → IsData junk → IsByte side → IsData (record junk { c0 = side })
junk-IsData junk side d h = record { c0 = h; c1 = d.c1; c2 = d.c2; c3 = d.c3 }

pub check_query-Ok :
    (h : Handler) (t : Clock) (port : Port) (junk : Data)
    → IsSafe h
    → IsData junk
    → Ok (check_query h t port junk)
unfolding check_query
check_query-Ok h t port junk v d =
    if-P Ok h.awaiting_response _ _ (v, tt)
      (λ idle.
        let (vr, wr) =
          send_message-Ok h (current_query b'R' junk) t.send port v idle (omega arith)
            (junk-IsData junk b'R' d (omega arith)) in
        let (vl, wl) =
          send_message-Ok h (current_query b'L' junk) t.send port v idle (omega arith)
            (junk-IsData junk b'L' d (omega arith)) in
        let (vv, wv) =
          send_message-Ok h (record { kind = voltage_type; content = junk }) t.send port v idle
            (omega arith) d in
        if-P Ok (ltb_ℤ current_period (get_milli_secs_between h.last_qr_cur_time t.start)) _ _
          (times-IsSafe _ vr, wr)
          (λ _.
            if-P Ok (ltb_ℤ current_period (get_milli_secs_between h.last_ql_cur_time t.start)) _ _
              (times-IsSafe _ vl, wl)
              (λ _.
                if-P Ok (ltb_ℤ query_period (get_milli_secs_between h.last_q_volt_time t.start)) _ _
                  (times-IsSafe _ vv, wv) (λ _. (v, tt)))))

to_byte-IsByte : (a : ℤ) → IsByte (to_byte a)
to_byte-IsByte (pos n) = omega arith
to_byte-IsByte (negsuc n) = omega arith

create_message-IsData : (right left : ℤ) → IsData (create_message_from_speed right left).content
unfolding create_message_from_speed
create_message-IsData right left = record {
  c0 = if-P IsByte (ltb_ℤ (pos 0) left) _ _ (to_byte-IsByte left) (λ _. omega arith);
  c1 = if-P IsByte (ltb_ℤ (pos 0) left) _ _ (omega arith) (λ _. to_byte-IsByte _);
  c2 = if-P IsByte (ltb_ℤ (pos 0) right) _ _ (to_byte-IsByte right) (λ _. omega arith);
  c3 = if-P IsByte (ltb_ℤ (pos 0) right) _ _ (omega arith) (λ _. to_byte-IsByte _);
}

motor_kind : (right left : ℤ) → IsByte (create_message_from_speed right left).kind
unfolding create_message_from_speed
motor_kind right left = omega arith

pub check_motor-Ok : (h : Handler) (t : Clock) (port : Port) → IsSafe h → Ok (check_motor h t port)
unfolding check_motor
check_motor-Ok h t port v =
    if-P Ok h.awaiting_response _ _ (v, tt)
      (λ idle.
        if-P Ok (ltb_ℤ (get_milli_secs_between h.last_motor_time t.start) motor_period) _ _ (v, tt)
          (λ _.
            let (v1, w) =
              send_message-Ok h _ t.send port v idle (motor_kind _ _) (create_message-IsData _ _) in
            (times-IsSafe _ v1, w)))
