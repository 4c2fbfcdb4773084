-- ===== src/Motor/Handler/Echo.antt =====
-- What one exchange with a board that does as it is told leaves in the handler, and many of them:
-- CheckMotor, then receive, of motorController.cpp.
use guillemot_core.Prelude.{
  ℕ, ◌≡◌, refl, ap, subst, ◌∙◌, sym, true, false, List, [], ◌∷◌, ◌++◌, length, arith,
}
use guillemot_core.Prelude.Int.{ℤ, pos, ltb_ℤ}
use guillemot_core.Motor.Time.{get_milli_secs_between}
use guillemot_core.Motor.Message.{
  Message, IsSpeed, no_message, motor_type, motor_response_type, frame, create_message_from_speed,
  create_message_speeds,
}
use guillemot_core.Motor.Handler.{Handler, Port, transmit, send_message}
use guillemot_core.Motor.Handler.Receive.{receive, handle_response}
use guillemot_core.Motor.Handler.Schedule.{Clock, check_motor, next_speed, motor_period}
use guillemot_core.Motor.Handler.Speeds.{ramp, next_speed_lem, ramp_reaches}
use guillemot_core.Motor.Handler.Resync.{NoStart, receive-resync}

-- The handler between two exchanges.
pub record Ready (h : Handler) : Type 0 where
  pub idle : h.awaiting_response ≡ false
  pub empty : h.buf_index ≡ 0
  pub eight : length h.buffer ≡ 8
  pub step : h.max_step ≡ pos 20
  pub right : IsSpeed h.right_speed
  pub left : IsSpeed h.left_speed
  pub right_target : IsSpeed h.right_target_speed
  pub left_target : IsSpeed h.left_target_speed

-- What the board answers to the message that the handler has sent, if it does what that asks.
abbrev pub answer : Handler → Message
answer h = record (h.current_message) { kind = motor_response_type }

-- CheckMotor, and then receive, when the answer has come, behind `junk`.
unfoldable pub exchange : Handler → Clock → Port → (junk : List ℕ) → Handler
exchange h t port junk =
    let sent = (check_motor h t port).0 in (receive sent true (junk ++ frame (answer sent)) false).0

-- The motor period has passed.
abbrev pub IsDue : Handler → Clock → Type 0
IsDue h t = ltb_ℤ (get_milli_secs_between h.last_motor_time t.start) motor_period ≡ false

abbrev sent_message : Handler → Message
sent_message h =
    create_message_from_speed (next_speed h.max_step h.right_speed h.right_target_speed)
      (next_speed h.max_step h.left_speed h.left_target_speed)

abbrev sent_handler : Handler → Clock → Handler
sent_handler h t = record h {
  current_message = sent_message h;
  last_send_time = t.send;
  awaiting_response = true;
  last_motor_time = t.end;
}

length_framed : (m : Message) (z : ℕ) → length (frame m ++ z ∷ []) ≡ 8
unfolding frame
length_framed m z = refl

check_motor-sends :
    (h : Handler) (t : Clock) (port : Port)
    → h.awaiting_response ≡ false
    → IsDue h t
    → (check_motor h t port).0 ≡ sent_handler h t
unfolding check_motor send_message transmit create_message_from_speed
check_motor-sends h t port idle due = rw (idle, due)

-- The handler after an exchange, but for the buffer, of which one byte is not known.
abbrev exchanged : Handler → Clock → (buffer : List ℕ) → Handler
exchanged h t buffer = record h {
  current_message = record (sent_message h) { kind = no_message };
  awaiting_response = false;
  last_send_time = t.send;
  last_motor_time = t.end;
  left_speed = next_speed h.max_step h.left_speed h.left_target_speed;
  right_speed = next_speed h.max_step h.right_speed h.right_target_speed;
  buffer = buffer;
  buf_index = 0;
}

sent_kind : (h : Handler) → (sent_message h).kind ≡ motor_type
unfolding create_message_from_speed
sent_kind h = refl

handle_response-answer :
    (h : Handler) (t : Clock) (z : ℕ)
    → IsSpeed (next_speed h.max_step h.right_speed h.right_target_speed)
    → IsSpeed (next_speed h.max_step h.left_speed h.left_target_speed)
    → let sent = sent_handler h t in
      let buffer = frame (answer sent) ++ z ∷ [] in
      (handle_response (record sent { buffer = buffer; buf_index = 0 }) (answer sent)).0
      ≡ exchanged h t buffer
unfolding handle_response
handle_response-answer h t z vr vl =
    let (el, er) =
      create_message_speeds (next_speed h.max_step h.right_speed h.right_target_speed)
        (next_speed h.max_step h.left_speed h.left_target_speed) vr vl in
    rw (sent_kind h, el, er)

-- What `exchanged` has of the next handler.
abbrev pub Exchanged : Handler → Clock → (next : Handler) → Type 0
Exchanged h t next =
    Ready next
    × (next.left_speed ≡ next_speed (pos 20) h.left_speed h.left_target_speed)
    × (next.right_speed ≡ next_speed (pos 20) h.right_speed h.right_target_speed)
    × (next.left_target_speed ≡ h.left_target_speed)
    × (next.right_target_speed ≡ h.right_target_speed)
    × (next.current_message.kind ≡ no_message)
    × (next.last_motor_time ≡ t.end)

next_speed-step :
    (h : Handler) (s t : ℤ) → Ready h → IsSpeed s → IsSpeed t → IsSpeed (next_speed h.max_step s t)
next_speed-step h s t ready vs vt =
    subst (λ k. IsSpeed (next_speed k s t)) (sym ready.step) (next_speed_lem s t vs vt).0

exchanged-Exchanged :
    (h : Handler) (t : Clock) (buffer : List ℕ)
    → Ready h
    → length buffer ≡ 8
    → Exchanged h t (exchanged h t buffer)
exchanged-Exchanged h t buffer ready eight = (
  record {
    idle = refl;
    empty = refl;
    eight = eight;
    step = ready.step;
    right =
        next_speed-step h h.right_speed h.right_target_speed ready ready.right ready.right_target;
    left = next_speed-step h h.left_speed h.left_target_speed ready ready.left ready.left_target;
    right_target = ready.right_target;
    left_target = ready.left_target;
  },
  ap (λ k. next_speed k h.left_speed h.left_target_speed) ready.step,
  ap (λ k. next_speed k h.right_speed h.right_target_speed) ready.step,
  refl,
  refl,
  refl,
  refl,
)

exchange-exchanged :
    (h : Handler) (t : Clock) (port : Port) (junk : List ℕ)
    → Ready h
    → IsDue h t
    → NoStart junk
    → (buffer : List ℕ) × (length buffer ≡ 8) × (exchange h t port junk ≡ exchanged h t buffer)
unfolding exchange
exchange-exchanged h t port junk ready due nj =
    let vr =
      next_speed-step h h.right_speed h.right_target_speed ready ready.right ready.right_target in
    let vl =
      next_speed-step h h.left_speed h.left_target_speed ready ready.left ready.left_target in
    let sent = sent_handler h t in
    let (z, found) =
      receive-resync sent (answer sent) junk [] h.buffer refl refl ready.empty tt nj (omega arith)
        ready.eight in
    (
      frame (answer sent) ++ z ∷ [],
      length_framed (answer sent) z,
      ap (λ k. (receive k true (junk ++ frame (answer k)) false).0)
            (check_motor-sends h t port ready.idle due)
          ∙ ap (λ k. k.0) found
          ∙ handle_response-answer h t z vr vl,
    )

-- What an exchange makes of a handler that is ready: the board's speeds are the next ones, the targets
-- are as before, and the handler is ready again.
pub exchange_lem :
    (h : Handler) (t : Clock) (port : Port) (junk : List ℕ)
    → Ready h
    → IsDue h t
    → NoStart junk
    → Exchanged h t (exchange h t port junk)
exchange_lem h t port junk ready due nj =
    let (buffer, eight, e) = exchange-exchanged h t port junk ready due nj in
    subst (Exchanged h t) (sym e) (exchanged-Exchanged h t buffer ready eight)

-- The exchanges of a list, one after the other, each with the junk before its answer.
unfoldable pub exchanges : Handler → List (Clock × (Port × List ℕ)) → Handler
exchanges h [] = h
exchanges h ((t, (port, junk)) ∷ ts) = exchanges (exchange h t port junk) ts

-- Each exchange begins when the motor period has passed, and only junk comes before its answer.
abbrev pub AllDue : Handler → List (Clock × (Port × List ℕ)) → Type 0
AllDue h [] = Unit
AllDue h ((t, (port, junk)) ∷ ts) = IsDue h t × (NoStart junk × AllDue (exchange h t port junk) ts)

exchanges-ramp :
    (h : Handler) (ts : List (Clock × (Port × List ℕ)))
    → Ready h
    → AllDue h ts
    → ((exchanges h ts).left_speed ≡ ramp (length ts) h.left_speed h.left_target_speed)
      × ((exchanges h ts).right_speed ≡ ramp (length ts) h.right_speed h.right_target_speed)
unfolding exchanges ramp
exchanges-ramp h [] ready due = (refl, refl)
exchanges-ramp h ((t, (port, junk)) ∷ ts) ready (due, (nj, dues)) =
    let (ready', left, right, left_target, right_target, none, sent) =
      exchange_lem h t port junk ready due nj in
    let (l, r) = exchanges-ramp (exchange h t port junk) ts ready' dues in
    (
      l ∙ (λ i. ramp (length ts) (left i) (left_target i)),
      r ∙ (λ i. ramp (length ts) (right i) (right_target i)),
    )

-- If the board answers 26 motor messages in a row, each sent when the motor period had passed, then
-- both its speeds are the targets, whatever they were, and whatever junk came before the answers.
pub exchanges_reach :
    (h : Handler) (ts : List (Clock × (Port × List ℕ)))
    → Ready h
    → AllDue h ts
    → length ts ≡ 26
    → ((exchanges h ts).left_speed ≡ h.left_target_speed)
      × ((exchanges h ts).right_speed ≡ h.right_target_speed)
exchanges_reach h ts ready dues count =
    let (l, r) = exchanges-ramp h ts ready dues in
    (
      l
          ∙ ap (λ n. ramp n h.left_speed h.left_target_speed) count
          ∙ ramp_reaches h.left_speed h.left_target_speed ready.left ready.left_target,
      r
          ∙ ap (λ n. ramp n h.right_speed h.right_target_speed) count
          ∙ ramp_reaches h.right_speed h.right_target_speed ready.right ready.right_target,
    )
