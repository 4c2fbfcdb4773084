-- ===== src/Motor/Handler/Receive.antt =====
-- How the handler takes the answers of the board: processResponse and receive of motorController.cpp.
use guillemot_core.Prelude.{
  ℕ, zero, suc, ◌+◌, ◌-◌, Bool, true, false, not, ◌&&◌, ◌||◌, List, [], ◌∷◌, ◌++◌, ◌==◌,
  if◌then◌else◌, get_or, set,
}
use guillemot_core.Motor.Message.{
  Message, no_message, motor_type, motor_response_type, current_type, current_response_type,
  voltage_type, voltage_response_type, error_type, data_f, speed_of_bytes,
}
use guillemot_core.Motor.Handler.{
  Handler, right_side, left_side, Effect, publish_current, log_read_failed, log_controller_error,
}

-- `for (i = 0; i < left; i++) buffer[i] = buffer[i + 1]`, from where the list begins.
unfoldable pub shift : (left : ℕ) → List ℕ → List ℕ
shift zero buf = buf
shift (suc left) [] = []
shift (suc left) (x ∷ []) = x ∷ []
shift (suc left) (x ∷ y ∷ buf) = y ∷ shift left (y ∷ buf)

abbrev pub at_index : Handler → ℕ → ℕ
at_index h i = get_or h.buffer i 0

unfoldable pub response_of : Handler → Message
response_of h = record {
  kind = at_index h 1;
  content = record { c0 = at_index h 2; c1 = at_index h 3; c2 = at_index h 4; c3 = at_index h 5 };
}

abbrev pub settled : Handler → Handler
settled h = record h {
  current_message = record (h.current_message) { kind = no_message };
  awaiting_response = false;
}

-- The switch over the type of a response.
unfoldable pub handle_response : Handler → Message → Handler × List Effect
handle_response h r =
    if r.kind == error_type
    then (
      record h { awaiting_response = false },
      log_controller_error r.content.c0 r.content.c1 r.content.c2 r.content.c3 ∷ [],
    )
    else if r.kind == motor_response_type
    then (if not (h.current_message.kind == motor_type) then (h, []) else (
      settled (record h {
        left_speed = speed_of_bytes r.content.c0 r.content.c1;
        right_speed = speed_of_bytes r.content.c2 r.content.c3;
      }),
      [],
    ))
    else if r.kind == current_response_type
    then (if not (h.current_message.kind == current_type)
        then (h, [])
        else if h.current_message.content.c0 == b'L'
        then (
          settled (record h { left_current = data_f r.content }),
          publish_current left_side (data_f r.content) ∷ [],
        )
        else (
          settled (record h { right_current = data_f r.content }),
          publish_current right_side (data_f r.content) ∷ [],
        ))
    else if r.kind == voltage_response_type
    then (if not (h.current_message.kind == voltage_type)
        then (h, [])
        else (settled (record h { voltage = data_f r.content }), []))
    else (h, [])

-- Called with seven bytes in the buffer: one that is not framed by 'S' and 'E' loses its first byte.
unfoldable pub process_response : Handler → Handler × List Effect
process_response h =
    if not (at_index h 0 == b'S') || not (at_index h 6 == b'E')
    then (record h { buffer = shift 6 h.buffer; buf_index = h.buf_index - 1 }, [])
    else handle_response (record h { buf_index = 0 }) (response_of h)

-- `while (bufIndex == 7) processResponse();`
unfoldable pub drain : (fuel : ℕ) → Handler → Handler × List Effect
drain zero h = (h, [])
drain (suc fuel) h = elim (h.buf_index == 7) [
  | true ↦ (let (h1, es) = process_response h in let (h2, es') = drain fuel h1 in (h2, es ++ es'))
  | false ↦ (h, [])
]

unfoldable pub process_if_full : Handler → Handler × List Effect
process_if_full h = if h.buf_index == 7 then process_response h else (h, [])

-- One round of the loop of receive. Two rounds of `drain` are enough, since it leaves 0 or 6 bytes.
unfoldable pub receive_byte : Handler → ℕ → Handler × List Effect
receive_byte h b =
    let (h1, es1) = drain 2 h in
    let (h2, es2) =
      process_if_full
        (record h1 { buffer = set h1.buffer h1.buf_index b; buf_index = h1.buf_index + 1 }) in
    (h2, es1 ++ es2)

unfoldable pub receive_loop : Handler → List ℕ → Handler × List Effect
receive_loop h [] = (h, [])
receive_loop h (b ∷ bs) =
    let (h1, es1) = receive_byte h b in let (h2, es2) = receive_loop h1 bs in (h2, es1 ++ es2)

-- `available` are the bytes that the port delivers before it has no more, or before a call throws.
unfoldable pub receive :
    Handler → (is_open : Bool) → (available : List ℕ) → (throws : Bool) → Handler × List Effect
receive h is_open available throws =
    if is_open && h.awaiting_response
    then (let (h1, es) = receive_loop h available in
        (h1, es ++ (if throws then log_read_failed ∷ [] else [])))
    else (h, [])
