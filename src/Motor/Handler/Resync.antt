-- ===== src/Motor/Handler/Resync.antt =====
-- How processResponse and receive of motorController.cpp find a frame behind other bytes.
use guillemot_core.Prelude.{
  ℕ, zero, suc, ◌+◌, ◌-◌, ◌≤◌, ◌<◌, ◌≡◌, ◌≢◌, refl, ap, ◌∙◌, sym, Bool, true, false, List, [], ◌∷◌,
  ◌++◌, length, length-append, arith, dec_lt, set, get_or, ◌==◌, if◌then◌else◌,
}
use mathlib.Core.List.{append_assoc, append-nil}
use guillemot_core.Motor.Message.{Message, frame}
use guillemot_core.Motor.Handler.{Handler, Effect}
use guillemot_core.Motor.Handler.Receive.{
  receive, shift, receive_byte, receive_loop, process_response, response_of, process_if_full, drain,
  handle_response,
}

-- No byte of the list starts a frame.
abbrev pub NoStart : List ℕ → Type 0
NoStart [] = Unit
NoStart (x ∷ xs) = (x ≢ b'S') × NoStart xs

-- The handler with the bytes of `w` in its buffer, and `rest` behind them.
abbrev pub holding : Handler → (w rest : List ℕ) → Handler
holding h w rest = record h { buffer = w ++ rest; buf_index = length w }

set-append :
    (w : List ℕ) (y : ℕ) (rest : List ℕ) (b : ℕ)
    → set (w ++ y ∷ rest) (length w) b ≡ (w ++ b ∷ []) ++ rest
set-append [] y rest b = refl
set-append (x ∷ w) y rest b = ap (λ v. x ∷ v) (set-append w y rest b)

abbrev last_of : ℕ → List ℕ → ℕ
last_of x [] = x
last_of x (y ∷ ys) = last_of y ys

shift-append :
    (j : ℕ) (u rest : List ℕ) → shift (length u) (j ∷ u ++ rest) ≡ u ++ last_of j u ∷ rest
unfolding shift
shift-append j [] rest = refl
shift-append j (x ∷ u) rest = ap (λ v. x ∷ v) (shift-append x u rest)

length-snoc : (w : List ℕ) (b : ℕ) → length (w ++ b ∷ []) ≡ suc (length w)
length-snoc [] b = refl
length-snoc (x ∷ w) b = ap suc (length-snoc w b)

test_false : (a b : ℕ) → a ≢ b → (a == b) ≡ false
test_false a b ne = ground arith

drain-short : (n : ℕ) (h : Handler) → h.buf_index ≢ 7 → drain n h ≡ (h, [])
unfolding drain
drain-short zero h ne = refl
drain-short (suc n) h ne = rw (test_false h.buf_index 7 ne, drain)

process_if_full-short : (h : Handler) → h.buf_index ≢ 7 → process_if_full h ≡ (h, [])
unfolding process_if_full
process_if_full-short h ne = rw (test_false h.buf_index 7 ne)

receive_byte-short :
    (h : Handler) (b : ℕ)
    → h.buf_index < 6
    → receive_byte h b
      ≡ (record h { buffer = set h.buffer h.buf_index b; buf_index = h.buf_index + 1 }, [])
unfolding receive_byte
receive_byte-short h b lt = rw (
  drain-short 2 h (omega arith),
  process_if_full-short
      (record h { buffer = set h.buffer h.buf_index b; buf_index = h.buf_index + 1 }) (omega arith),
)

receive_byte-full :
    (h : Handler) (b : ℕ)
    → h.buf_index ≡ 6
    → receive_byte h b ≡ process_response (record h { buffer = set h.buffer 6 b; buf_index = 7 })
unfolding receive_byte process_if_full
receive_byte-full h b six = rw (drain-short 2 h (omega arith), six)

process_response-misaligned :
    (h : Handler)
    → get_or h.buffer 0 0 ≢ b'S'
    → process_response h ≡ (record h { buffer = shift 6 h.buffer; buf_index = h.buf_index - 1 }, [])
unfolding process_response
process_response-misaligned h ne = rw (test_false (get_or h.buffer 0 0) b'S' ne)

window :
    (h : Handler) {buf1 buf2 : List ℕ} {i1 i2 : ℕ}
    → buf1 ≡ buf2
    → i1 ≡ i2
    → record h { buffer = buf1; buf_index = i1 } ≡ record h { buffer = buf2; buf_index = i2 }
window h eb ei = λ i. record h { buffer = eb i; buf_index = ei i }

push :
    (h : Handler) (w : List ℕ) (y : ℕ) (rest : List ℕ) (b : ℕ)
    → length w < 6
    → receive_byte (holding h w (y ∷ rest)) b ≡ (holding h (w ++ b ∷ []) rest, [])
push h w y rest b lt =
    let step = receive_byte-short (holding h w (y ∷ rest)) b lt in
    let len = length-snoc w b in
    step ∙ ap (λ k. (k, [])) (window h (set-append w y rest b) (omega arith))

fill :
    (h : Handler) (w : List ℕ) (y : ℕ) (rest : List ℕ) (b : ℕ)
    → length w ≡ 6
    → receive_byte (holding h w (y ∷ rest)) b
      ≡ process_response (record h { buffer = (w ++ b ∷ []) ++ rest; buf_index = 7 })
fill h w y rest b six =
    receive_byte-full (holding h w (y ∷ rest)) b six
    ∙ ap process_response
        (window h (ap (λ k. set (w ++ y ∷ rest) k b) (sym six) ∙ set-append w y rest b) refl)

slide :
    (h : Handler) (j : ℕ) (u : List ℕ) (y : ℕ) (rest : List ℕ) (b : ℕ)
    → length u ≡ 5
    → j ≢ b'S'
    → receive_byte (holding h (j ∷ u) (y ∷ rest)) b
      ≡ (holding h (u ++ b ∷ []) (last_of j (u ++ b ∷ []) ∷ rest), [])
slide h j u y rest b five ne =
    let six : length (u ++ b ∷ []) ≡ 6 = length-snoc u b ∙ ap suc five in
    fill h (j ∷ u) y rest b (ap suc five)
    ∙ process_response-misaligned (record h { buffer = (j ∷ u ++ b ∷ []) ++ rest; buf_index = 7 })
        ne
    ∙ ap (λ k. (k, []))
        (window h
          (ap (λ k. shift k ((j ∷ u ++ b ∷ []) ++ rest)) (sym six)
            ∙ shift-append j (u ++ b ∷ []) rest)
          (sym six))

framed_message : (k a b c d : ℕ) → Message
framed_message k a b c d = record { kind = k; content = record { c0 = a; c1 = b; c2 = c; c3 = d } }

receive_loop-step :
    (h k : Handler) (b : ℕ) (bs : List ℕ)
    → receive_byte h b ≡ (k, [])
    → receive_loop h (b ∷ bs) ≡ receive_loop k bs
unfolding receive_loop
receive_loop-step h k b bs e = rw e

receive_loop-last : (h : Handler) (b : ℕ) → receive_loop h (b ∷ []) ≡ receive_byte h b
unfolding receive_loop
receive_loop-last h b = let (k, es) = receive_byte h b in ap (λ v. (k, v)) (append-nil es)

-- What the handler makes of a frame that it has found: it deals with the message, as the type says.
abbrev pub Handled : Handler → Message → Handler × List Effect → Type 0
Handled h m out =
    (z : ℕ) × out ≡ handle_response (record h { buffer = frame m ++ z ∷ []; buf_index = 0 }) m

process_response-frame :
    (h : Handler) (m : Message) (z : ℕ)
    → process_response (record h { buffer = frame m ++ z ∷ []; buf_index = 7 })
      ≡ handle_response (record h { buffer = frame m ++ z ∷ []; buf_index = 0 }) m
unfolding process_response frame response_of
process_response-frame h m z = refl

whole_frame :
    (m : Message) (p : List ℕ) (b : ℕ) (q : List ℕ)
    → length p ≡ 6
    → p ++ b ∷ q ≡ frame m
    → (p ++ b ∷ [] ≡ frame m) × (q ≡ [])
unfolding frame
whole_frame m p b [] six e = (e, refl)
whole_frame m p b (x ∷ q) six e =
    let total = length-append p (b ∷ x ∷ q) in
    let seven : length (p ++ b ∷ x ∷ q) ≡ 7 = ap length e in absurd (omega arith)

found_by :
    (h : Handler) (m : Message) {a b : Handler × List Effect}
    → a ≡ b
    → Handled h m b
    → Handled h m a
found_by h m e (z, found) = (z, e ∙ found)

add_byte :
    (h : Handler) (w p : List ℕ) (y : ℕ) (rest : List ℕ) (b : ℕ) (q : List ℕ)
    → length (w ++ p) < 6
    → receive_loop (holding h (w ++ p) (y ∷ rest)) (b ∷ q)
      ≡ receive_loop (holding h (w ++ (p ++ b ∷ [])) rest) q
add_byte h w p y rest b q lt =
    receive_loop-step (holding h (w ++ p) (y ∷ rest)) (holding h ((w ++ p) ++ b ∷ []) rest) b q
      (push h (w ++ p) y rest b lt)
    ∙ ap (λ v. receive_loop (holding h v rest) q) (append_assoc w p (b ∷ []))

end_frame :
    (h : Handler) (m : Message) (p : List ℕ) (y z b : ℕ) (q : List ℕ)
    → p ++ b ∷ q ≡ frame m
    → length p ≡ 6
    → Handled h m (receive_loop (holding h p (y ∷ z ∷ [])) (b ∷ q))
end_frame h m p y z b q e six =
    let (whole, last) = whole_frame m p b q six e in
    (
      z,
      ap (λ v. receive_loop (holding h p (y ∷ z ∷ [])) (b ∷ v)) last
          ∙ receive_loop-last (holding h p (y ∷ z ∷ [])) b
          ∙ fill h p y (z ∷ []) b six
          ∙ ap (λ v. process_response (record h { buffer = v ++ z ∷ []; buf_index = 7 })) whole
          ∙ process_response-frame h m z,
    )

length-frame : (m : Message) → length (frame m) ≡ 7
unfolding frame
length-frame m = refl

lengths :
    (u p : List ℕ) (b : ℕ)
    → (length (u ++ p) ≡ length u + length p)
      × (length (u ++ (p ++ b ∷ [])) ≡ length u + length p + 1)
lengths u p b =
    let up = length-append u p in
    let pb = length-append p (b ∷ []) in
    let upb = length-append u (p ++ b ∷ []) in (omega arith, omega arith)

-- A frame that comes behind bytes none of which starts one is found, wherever the cut between what
-- is in the buffer and what arrives lies.
deliver :
    (h : Handler) (m : Message) (u p q rest : List ℕ)
    → NoStart u
    → p ++ q ≡ frame m
    → length (u ++ p) ≤ 6
    → length (u ++ p) + length rest ≡ 8
    → Handled h m (receive_loop (holding h (u ++ p) rest) q)
deliver h m u p [] rest nostart e le full =
    let total = length-append u p in
    let total' = length-append p [] in
    let seven : length (p ++ []) ≡ 7 = ap length e ∙ length-frame m in absurd (omega arith)
deliver h m u p (b ∷ q) [] nostart e le full = absurd (omega arith)
deliver h m [] p (b ∷ q) (y ∷ []) nostart e le full = absurd (omega arith)
deliver h m [] p (b ∷ q) (y ∷ z ∷ []) nostart e le full = end_frame h m p y z b q e (omega arith)
deliver h m [] p (b ∷ q) (y ∷ z ∷ x ∷ rest) nostart e le full =
    let (up, upb) = lengths [] p b in
    found_by h m (add_byte h [] p y (z ∷ x ∷ rest) b q (omega arith)) (
      deliver h m [] (p ++ b ∷ []) q (z ∷ x ∷ rest) nostart (append_assoc p (b ∷ []) q ∙ e)
        (omega arith) (omega arith))
deliver h m (j ∷ u) p (b ∷ q) (y ∷ rest) (nj, nostart) e le full =
    elim (dec_lt (length (j ∷ u ++ p)) 6) [
      | yes lt ↦
          (let (up, upb) = lengths (j ∷ u) p b in
            found_by h m (add_byte h (j ∷ u) p y rest b q lt) (
              deliver h m (j ∷ u) (p ++ b ∷ []) q rest (nj, nostart) (append_assoc p (b ∷ []) q ∙ e)
                (omega arith) (omega arith)))
      | no ge ↦
          (let (up, upb) = lengths u p b in
            found_by h m
              (receive_loop-step (holding h (j ∷ u ++ p) (y ∷ rest))
                  (holding h ((u ++ p) ++ b ∷ []) (last_of j ((u ++ p) ++ b ∷ []) ∷ rest)) b q
                  (slide h j (u ++ p) y rest b (omega arith) nj)
                ∙ ap (λ v. receive_loop (holding h v (last_of j ((u ++ p) ++ b ∷ []) ∷ rest)) q)
                    (append_assoc u p (b ∷ [])))
              (deliver h m u (p ++ b ∷ []) q (last_of j ((u ++ p) ++ b ∷ []) ∷ rest) nostart
                (append_assoc p (b ∷ []) q ∙ e) (omega arith) (omega arith)))
    ]

NoStart-snoc : (u : List ℕ) (b : ℕ) → NoStart u → b ≢ b'S' → NoStart (u ++ b ∷ [])
NoStart-snoc [] b nostart ne = (ne, tt)
NoStart-snoc (x ∷ u) b (nx, nostart) ne = (nx, NoStart-snoc u b nostart ne)

pub receive_loop-resync :
    (h : Handler) (m : Message) (junk u rest : List ℕ)
    → NoStart u
    → NoStart junk
    → length u ≤ 6
    → length u + length rest ≡ 8
    → Handled h m (receive_loop (holding h u rest) (junk ++ frame m))
receive_loop-resync h m [] u rest nu nj le full =
    let same = append-nil u in
    let len = length-append u [] in
    found_by h m (ap (λ v. receive_loop (holding h v rest) (frame m)) (sym same))
      (deliver h m u [] (frame m) rest nu refl (omega arith) (omega arith))
receive_loop-resync h m (b ∷ junk) u [] nu nj le full = absurd (omega arith)
receive_loop-resync h m (b ∷ junk) [] (y ∷ rest) nu (nb, nj) le full =
    found_by h m
      (receive_loop-step (holding h [] (y ∷ rest)) (holding h (b ∷ []) rest) b (junk ++ frame m)
        (push h [] y rest b (omega arith)))
      (receive_loop-resync h m junk (b ∷ []) rest (nb, tt) nj (omega arith) (omega arith))
receive_loop-resync h m (b ∷ junk) (j ∷ u) (y ∷ rest) (nj', nu) (nb, nj) le full =
    let len = length-snoc u b in
    elim (dec_lt (length (j ∷ u)) 6) [
      | yes lt ↦
          found_by h m
            (receive_loop-step (holding h (j ∷ u) (y ∷ rest)) (holding h (j ∷ u ++ b ∷ []) rest) b
              (junk ++ frame m) (push h (j ∷ u) y rest b lt))
            (receive_loop-resync h m junk (j ∷ u ++ b ∷ []) rest (nj', NoStart-snoc u b nu nb) nj
              (omega arith) (omega arith))
      | no ge ↦
          found_by h m
            (receive_loop-step (holding h (j ∷ u) (y ∷ rest))
              (holding h (u ++ b ∷ []) (last_of j (u ++ b ∷ []) ∷ rest)) b (junk ++ frame m)
              (slide h j u y rest b (omega arith) nj'))
            (receive_loop-resync h m junk (u ++ b ∷ []) (last_of j (u ++ b ∷ []) ∷ rest)
              (NoStart-snoc u b nu nb) nj (omega arith) (omega arith))
    ]

receive-waiting :
    (h : Handler) (bs : List ℕ)
    → h.awaiting_response ≡ true
    → receive h true bs false ≡ receive_loop h bs
unfolding receive
receive-waiting h bs waits =
    let (k, es) = receive_loop h bs in
    ap (λ (w : Bool). if w then (k, es ++ []) else (h, [])) waits ∙ ap (λ v. (k, v)) (append-nil es)

-- An open port and an answer that is awaited: bytes that do not start a frame, in the buffer and
-- behind it, are thrown away, and the frame that follows them is dealt with as its message.
pub receive-resync :
    (h : Handler) (m : Message) (junk u rest : List ℕ)
    → h.awaiting_response ≡ true
    → h.buffer ≡ u ++ rest
    → h.buf_index ≡ length u
    → NoStart u
    → NoStart junk
    → length u ≤ 6
    → length h.buffer ≡ 8
    → Handled h m (receive h true (junk ++ frame m) false)
receive-resync h m junk u rest waits eb ei nu nj le eight =
    let total = length-append u rest in
    let len = ap length eb in
    found_by h m
      (receive-waiting h (junk ++ frame m) waits
        ∙ ap (λ k. receive_loop k (junk ++ frame m)) (window h eb ei))
      (receive_loop-resync h m junk u rest nu nj le (omega arith))
