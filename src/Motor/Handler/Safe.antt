-- ===== src/Motor/Handler/Safe.antt =====
-- What stays true of a handler, whatever its board sends and whatever is asked of it.
use guillemot_core.Prelude.{
  ℕ, zero, suc, ◌≤◌, ◌≡◌, refl, ap, arith, Bool, true, false, List, [], ◌∷◌, ◌==◌, length, take,
  get_or, set,
}
use guillemot_core.Prelude.Node.{All, IsByte}
use guillemot_core.Motor.Message.{Message, Data, no_message, IsSpeed}
use guillemot_core.Motor.Handler.{
  Handler, Effect, write_byte, publish_current, log_open_failed, log_send_failed, log_read_failed,
  log_controller_error, writes,
}
use guillemot_core.Motor.Handler.Receive.{shift, response_of}

pub record IsData (d : Data) : Type 0 where
  pub c0 : IsByte d.c0
  pub c1 : IsByte d.c1
  pub c2 : IsByte d.c2
  pub c3 : IsByte d.c3

-- The buffer has its 8 bytes, and room for one more.
pub record IsBuffer (buffer : List ℕ) (index : ℕ) : Type 0 where
  pub room : index ≤ 6
  pub eight : length buffer ≡ 8
  pub bytes : All IsByte buffer

-- The message is made of bytes, and is one wherever an answer is awaited.
pub record IsPending (m : Message) (awaiting : Bool) : Type 0 where
  pub kind : IsByte m.kind
  pub content : IsData m.content
  pub pending : awaiting ≡ true → (m.kind == no_message) ≡ false

pub record IsSafe (h : Handler) : Type 0 where
  pub buffered : IsBuffer h.buffer h.buf_index
  pub message : IsPending h.current_message h.awaiting_response
  pub right : IsSpeed h.right_speed
  pub left : IsSpeed h.left_speed
  pub right_target : IsSpeed h.right_target_speed
  pub left_target : IsSpeed h.left_target_speed

-- A byte that is written to the board is one.
abbrev pub WritesByte : Effect → Type 0
WritesByte (write_byte b) = IsByte b
WritesByte (publish_current side v) = Unit {0}
WritesByte log_open_failed = Unit {0}
WritesByte log_send_failed = Unit {0}
WritesByte log_read_failed = Unit {0}
WritesByte (log_controller_error b2 b3 b4 b5) = Unit {0}

abbrev pub Ok : Handler × List Effect → Type 0
Ok p = IsSafe p.0 × All WritesByte p.1

pub shift-IsByte : (n : ℕ) (buf : List ℕ) → All IsByte buf → All IsByte (shift n buf)
unfolding shift
shift-IsByte zero buf h = h
shift-IsByte (suc n) [] h = tt
shift-IsByte (suc n) (x ∷ []) h = h
shift-IsByte (suc n) (x ∷ y ∷ buf) (hx, h) = (h.0, shift-IsByte n (y ∷ buf) h)

pub length-shift : (n : ℕ) (buf : List ℕ) → length (shift n buf) ≡ length buf
unfolding shift
length-shift zero buf = refl
length-shift (suc n) [] = refl
length-shift (suc n) (x ∷ []) = refl
length-shift (suc n) (x ∷ y ∷ buf) = ap suc (length-shift n (y ∷ buf))

get_or-IsByte : (buf : List ℕ) (i : ℕ) → All IsByte buf → IsByte (get_or buf i 0)
get_or-IsByte [] i h = omega arith
get_or-IsByte (x ∷ buf) zero (hx, h) = hx
get_or-IsByte (x ∷ buf) (suc i) (hx, h) = get_or-IsByte buf i h

pub set-IsByte : (buf : List ℕ) (i b : ℕ) → All IsByte buf → IsByte b → All IsByte (set buf i b)
set-IsByte [] i b h hb = h
set-IsByte (x ∷ buf) zero b (hx, h) hb = (hb, h)
set-IsByte (x ∷ buf) (suc i) b (hx, h) hb = (hx, set-IsByte buf i b h hb)

pub take-IsByte : (n : ℕ) (bs : List ℕ) → All IsByte bs → All WritesByte (writes (take n bs))
take-IsByte zero bs h = tt
take-IsByte (suc n) [] h = tt
take-IsByte (suc n) (b ∷ bs) (hb, h) = (hb, take-IsByte n bs h)

pub response_of-IsData : (h : Handler) → All IsByte h.buffer → IsData (response_of h).content
unfolding response_of
response_of-IsData h hb = record {
  c0 = get_or-IsByte h.buffer 2 hb;
  c1 = get_or-IsByte h.buffer 3 hb;
  c2 = get_or-IsByte h.buffer 4 hb;
  c3 = get_or-IsByte h.buffer 5 hb;
}

pub settled-IsPending :
    (m : Message) (awaiting : Bool)
    → IsPending m awaiting
    → IsPending (record m { kind = no_message }) false
settled-IsPending m awaiting v = record {
  kind = omega arith;
  content = v.content;
  pending = λ e. absurd (ground arith);
}
