-- ===== src/Motor/Handler/Waiting.antt =====
-- What spinOnce of motorController.cpp does while an answer is awaited.
use guillemot_core.Prelude.{
  ℕ, zero, suc, ◌≤◌, length, ◌&&◌, ◌||◌, Bool-cases, inl, inr, ◌≡◌, ◌≢◌, refl, ap, ◌∙◌, Bool, true,
  false, List, [], ◌∷◌, ◌++◌, if◌then◌else◌, ◌==◌, ltb, take, arith,
}
use guillemot_core.Motor.Time.{Time}
use guillemot_core.Motor.Message.{no_message, frame}
use guillemot_core.Motor.Handler.{Handler, log_open_failed, log_send_failed, Port, writes, transmit}
use guillemot_core.Motor.Handler.Receive.{receive, receive_loop}
use guillemot_core.Motor.Handler.Schedule.{
  Spin, check_motor, check_query, transmit_timeout, spin_once,
}

-- The port is open and takes all seven bytes.
abbrev pub IsFree : Port → Type 0
IsFree port = (port.is_open ≡ true) × (7 ≤ port.takes)

if-true {ℓ} : {A : Type ℓ} (b : Bool) (x y : A) → b ≡ true → (if b then x else y) ≡ x
if-true true x y e = refl
if-true false x y e = absurd (cc)

if-false {ℓ} : {A : Type ℓ} (b : Bool) (x y : A) → b ≡ false → (if b then x else y) ≡ y
if-false true x y e = absurd (cc)
if-false false x y e = refl

take_all : (xs : List ℕ) (n : ℕ) → length xs ≤ n → take n xs ≡ xs
take_all [] zero le = refl
take_all [] (suc n) le = refl
take_all (x ∷ xs) zero le = absurd (omega arith)
take_all (x ∷ xs) (suc n) le = ap (λ v. x ∷ v) (take_all xs n (omega arith))

transmit-frame :
    (h : Handler) (now : Time) (port : Port)
    → h.current_message.kind ≢ no_message
    → IsFree port
    → transmit h now port ≡ (
      record h { last_send_time = now; awaiting_response = true },
      writes (frame h.current_message),
    )
unfolding transmit frame
transmit-frame h now port some' (is_open, takes) =
    let whole : take port.takes (frame h.current_message) ≡ frame h.current_message =
      take_all (frame h.current_message) port.takes (omega arith) in
    let kind : (h.current_message.kind == no_message) ≡ false = ground arith in
    let opened : (port.is_open || port.can_open) ≡ true = ground arith in
    let enough : ltb port.takes 7 ≡ false = ground arith in
    if-false _ _ _ kind ∙ (λ i. (
      record h { last_send_time = now; awaiting_response = true },
      (if opened i then [] else log_open_failed ∷ [])
          ++ (writes (whole i) ++ (if enough i then log_send_failed ∷ [] else [])),
    ))

quiet_receive : (h : Handler) (is_open : Bool) → receive h is_open [] false ≡ (h, [])
unfolding receive receive_loop
quiet_receive h true = elim (Bool-cases h.awaiting_response) [
  | inl e ↦ if-true _ _ _ e
  | inr e ↦ if-false _ _ _ e
]
quiet_receive h false = refl

quiet_motor :
    (h : Handler) (s : Spin)
    → h.awaiting_response ≡ true
    → check_motor h s.motor_clock s.motor_port ≡ (h, [])
unfolding check_motor
quiet_motor h s waits = if-true _ _ _ waits

quiet_query :
    (h : Handler) (s : Spin)
    → h.awaiting_response ≡ true
    → check_query h s.query_clock s.query_port s.junk ≡ (h, [])
unfolding check_query
quiet_query h s waits = if-true _ _ _ waits

-- While an answer is awaited and nothing arrives, spinOnce sends nothing new: within the timeout it
-- does nothing, and beyond it, it writes the frame of the message that is out once more, if there is
-- one, and goes on waiting from then on.
pub spin_once_resends :
    (h : Handler) (s : Spin)
    → h.awaiting_response ≡ true
    → h.current_message.kind ≢ no_message
    → s.available ≡ []
    → s.throws ≡ false
    → IsFree s.resend_port
    → spin_once h s ≡ (
        if transmit_timeout h s.timeout_now
        then (
          record h { last_send_time = s.resend_now; awaiting_response = true },
          writes (frame h.current_message),
        )
        else (h, []))
unfolding spin_once
spin_once_resends h s waits some' none throws free =
    let quiet : receive h s.is_open s.available s.throws ≡ (h, []) =
      (λ i. receive h s.is_open (none i) (throws i)) ∙ quiet_receive h s.is_open in
    rw (quiet, quiet_motor h s waits, quiet_query h s waits)
      ((λ i.
          if waits i && transmit_timeout h s.timeout_now
          then transmit h s.resend_now s.resend_port
          else (h, []))
        ∙ ap (λ k. if transmit_timeout h s.timeout_now then k else (h, []))
            (transmit-frame h s.resend_now s.resend_port some' free))
