-- ===== src/Motor/Handler/Receives.antt =====
-- A handler that receives stays safe: processResponse and receive of motorController.cpp.
use guillemot_core.Prelude.{
  ℕ, ◌+◌, ◌-◌, ◌≤◌, ◌≡◌, refl, sym, subst, ◌∙◌, arith, Bool, true, false, not, ◌&&◌, ◌||◌, List, [],
  ◌∷◌, ◌++◌, ◌==◌, length, get_or, set, length-set,
}
use guillemot_core.Prelude.Node.{All, All-append, IsByte, if-P, elim-P_no, if-P_both}
use guillemot_core.Motor.Message.{
  Message, motor_type, current_type, voltage_type, speed_of_bytes-IsSpeed,
}
use guillemot_core.Motor.Handler.{Handler, Effect}
use guillemot_core.Motor.Handler.Receive.{
  shift, settled, handle_response, process_response, drain, process_if_full, receive_byte,
  receive_loop, receive,
}
use guillemot_core.Motor.Handler.Safe.{
  IsData, IsBuffer, IsSafe, WritesByte, Ok, shift-IsByte, length-shift, set-IsByte,
  response_of-IsData, settled-IsPending,
}

settled-IsSafe : (h : Handler) → IsSafe h → IsSafe (settled h)
settled-IsSafe h v = record {
  buffered = v.buffered;
  message = settled-IsPending h.current_message h.awaiting_response v.message;
  right = v.right;
  left = v.left;
  right_target = v.right_target;
  left_target = v.left_target;
}

-- The answers with readings, which change neither speeds nor the buffer.
same-IsSafe :
    (h : Handler) (right_current left_current voltage : ℕ)
    → IsSafe h
    → IsSafe (
        settled (record h {
          right_current = right_current;
          left_current = left_current;
          voltage = voltage;
        }))
same-IsSafe h right_current left_current voltage v = settled-IsSafe _ (record {
  buffered = v.buffered;
  message = v.message;
  right = v.right;
  left = v.left;
  right_target = v.right_target;
  left_target = v.left_target;
})

handle_response-Ok :
    (h : Handler) (r : Message) → IsSafe h → IsData r.content → Ok (handle_response h r)
unfolding handle_response
handle_response-Ok h r v d =
    if-P Ok (r.kind == _) _ _
      (
        record {
          buffered = v.buffered;
          message = record {
            kind = v.message.kind;
            content = v.message.content;
            pending = λ e. absurd (ground arith);
          };
          right = v.right;
          left = v.left;
          right_target = v.right_target;
          left_target = v.left_target;
        },
        (tt, tt),
      )
      (λ _.
        if-P Ok (r.kind == _) _ _
          (if-P Ok (not (h.current_message.kind == motor_type)) _ _ (v, tt)
            (λ _. (
              settled-IsSafe _ (record {
                buffered = v.buffered;
                message = v.message;
                left =
                    speed_of_bytes-IsSpeed r.content.c0 r.content.c1 (omega (arith, d.c0))
                      (omega (arith, d.c1));
                right =
                    speed_of_bytes-IsSpeed r.content.c2 r.content.c3 (omega (arith, d.c2))
                      (omega (arith, d.c3));
                right_target = v.right_target;
                left_target = v.left_target;
              }),
              tt,
            )))
          (λ _.
            if-P Ok (r.kind == _) _ _
              (if-P Ok (not (h.current_message.kind == current_type)) _ _ (v, tt)
                (λ _.
                  if-P Ok (h.current_message.content.c0 == b'L') _ _
                    (same-IsSafe h _ _ _ v, (tt, tt)) (λ _. (same-IsSafe h _ _ _ v, (tt, tt)))))
              (λ _.
                if-P Ok (r.kind == _) _ _
                  (if-P Ok (not (h.current_message.kind == voltage_type)) _ _ (v, tt)
                    (λ _. (same-IsSafe h _ _ _ v, tt)))
                  (λ _. (v, tt)))))

-- The same handler with another buffer.
buffered-IsSafe :
    (h : Handler) (buffer : List ℕ) (index : ℕ)
    → IsSafe h
    → IsBuffer buffer index
    → IsSafe (record h { buffer = buffer; buf_index = index })
buffered-IsSafe h buffer index v b = record {
  buffered = b;
  message = v.message;
  right = v.right;
  left = v.left;
  right_target = v.right_target;
  left_target = v.left_target;
}

-- With a full buffer.
process_response-Ok :
    (h : Handler) (buffer : List ℕ) (index : ℕ)
    → index ≡ 7
    → IsSafe h
    → length buffer ≡ 8
    → All IsByte buffer
    → Ok (process_response (record h { buffer = buffer; buf_index = index }))
unfolding process_response
process_response-Ok h buffer index full v eight bytes =
    if-P Ok (not (get_or buffer 0 0 == b'S') || not (get_or buffer 6 0 == b'E')) _ _
      (
        buffered-IsSafe h (shift 6 buffer) (index - 1) v (record {
          room = omega arith;
          eight = length-shift 6 buffer ∙ eight;
          bytes = shift-IsByte 6 buffer bytes;
        }),
        tt,
      )
      (λ _.
        handle_response-Ok _ _
          (buffered-IsSafe h buffer 0 v
            (record { room = omega arith; eight = eight; bytes = bytes }))
          (response_of-IsData _ bytes))

drain_free : (h : Handler) → IsSafe h → drain 2 h ≡ (h, [])
unfolding drain
drain_free h v =
    elim-P_no (λ p. p ≡ (h, [])) (h.buf_index == 7) _ _ (not_full h.buf_index v.buffered.room) refl
  where
    not_full : (i : ℕ) → i ≤ 6 → (i == 7) ≡ false
    not_full i le = ground arith

process_if_full-Ok :
    (h : Handler) (buffer : List ℕ) (index : ℕ)
    → index ≤ 7
    → IsSafe h
    → length buffer ≡ 8
    → All IsByte buffer
    → Ok (process_if_full (record h { buffer = buffer; buf_index = index }))
unfolding process_if_full
process_if_full-Ok h buffer index le v eight bytes =
    if-P_both Ok (index == 7) _ _
      (λ e. process_response-Ok h buffer index (is_seven e) v eight bytes)
      (λ e. (
        buffered-IsSafe h buffer index v
            (record { room = is_less e; eight = eight; bytes = bytes }),
        tt,
      ))
  where
    is_seven : (index == 7) ≡ true → index ≡ 7
    is_seven e = ground arith

    is_less : (index == 7) ≡ false → index ≤ 6
    is_less e = ground arith

receive_byte-Ok : (h : Handler) (b : ℕ) → IsSafe h → IsByte b → Ok (receive_byte h b)
unfolding receive_byte
receive_byte-Ok h b v hb =
    subst
      (λ (p : Handler × List Effect). Ok (
        let (h2, es2) = process_if_full (record (p.0) {
          buffer = set p.0.buffer p.0.buf_index b;
          buf_index = p.0.buf_index + 1;
        }) in
        (h2, p.1 ++ es2)))
      (sym (drain_free h v))
      (process_if_full-Ok h (set h.buffer h.buf_index b) (h.buf_index + 1)
        (omega (arith, v.buffered.room)) v (length-set h.buffer h.buf_index b ∙ v.buffered.eight)
        (set-IsByte h.buffer h.buf_index b v.buffered.bytes hb))

receive_loop-Ok : (bs : List ℕ) (h : Handler) → IsSafe h → All IsByte bs → Ok (receive_loop h bs)
unfolding receive_loop
receive_loop-Ok [] h v hb = (v, tt)
receive_loop-Ok (b ∷ bs) h v (hb, hbs) =
    let (v1, w1) = receive_byte-Ok h b v hb in
    let (v2, w2) = receive_loop-Ok bs _ v1 hbs in (v2, All-append WritesByte _ _ w1 w2)

pub receive-Ok :
    (h : Handler) (is_open : Bool) (available : List ℕ) (throws : Bool)
    → IsSafe h
    → All IsByte available
    → Ok (receive h is_open available throws)
unfolding receive
receive-Ok h is_open available throws v hb =
    let (v1, w1) = receive_loop-Ok available h v hb in
    if-P Ok (is_open && h.awaiting_response) _ _
      (v1, All-append WritesByte _ _ w1 (if-P (All WritesByte) throws _ _ (tt, tt) (λ _. tt)))
      (λ _. (v, tt))
