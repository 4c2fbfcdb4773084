-- ===== src/Sensor/Reading.antt =====
-- What getTTYLine, goodLine and the timers of SubSensorController do.
use guillemot_core.Prelude.{
  ℕ, zero, suc, ◌+◌, ◌*◌, ◌≤◌, ◌<◌, ◌≡◌, ◌≢◌, ◌↔◌, refl, ap, sym, ◌∙◌, List, [], ◌∷◌, ◌++◌, true,
  false, leb, ◌==◌, if◌then◌else◌, length, arith, Bool-cases, inl, inr,
}
use mathlib.Core.List.{append_assoc, append-nil}
use guillemot_core.Prelude.Run.{done}
use guillemot_core.Motor.Time.{Time, million, micros}
use guillemot_core.Sensor.Timer.{start, is_timeout, time_left}
use guillemot_core.Sensor.Line.{
  Round, Line, byte, line_loop, get_tty_line, good_line, count_commas, is_kept, add_char,
}
use guillemot_core.Sensor.Board.{
  Write, torpedo_callback, dropper_callback, locked_write, check_lock_loop, get_lock, release_lock,
  digit_of,
}

-- A timer runs for the sum of its seconds and its microseconds, both taken as seconds.
pub is_timeout-start :
    (sec usec : ℕ) (now later : Time)
    → (is_timeout (start sec usec now) later ≡ true)
      ↔ (micros now + (sec + usec) * million ≤ micros later)
unfolding start is_timeout
is_timeout-start sec usec now later = ground arith

-- The pieces between the commas.
abbrev pub split_commas : List ℕ → List ℕ → List (List ℕ)
split_commas piece [] = piece ∷ []
split_commas piece (c ∷ cs) =
    if c == b',' then piece ∷ split_commas [] cs else split_commas (piece ++ c ∷ []) cs

length-split_commas : (cs piece : List ℕ) → length (split_commas piece cs) ≡ suc (count_commas cs)
length-split_commas [] piece = refl
length-split_commas (c ∷ cs) piece = elim (Bool-cases (c == b',')) [
  | inl e ↦ rw e (ap suc (length-split_commas cs []))
  | inr e ↦ rw e (length-split_commas cs (piece ++ c ∷ []))
]

-- A line is good for a number of variables exactly if commas cut it into as many pieces.
pub good_line_lem :
    (text : List ℕ) (n : ℕ) → (good_line text n ≡ true) ↔ (length (split_commas [] text) ≡ n)
unfolding good_line
good_line_lem text zero = rw (length-split_commas text []) (ground arith)
good_line_lem text (suc n) = rw (length-split_commas text []) (ground arith)

-- The rounds deliver the characters and then 'E', each while time is left.
abbrev pub Heard : (began timeout : Time) → List Round → List ℕ → Type 0
Heard began timeout [] cs = ⊥
Heard began timeout (r ∷ rs) [] = (r.poll ≡ byte b'E') × ((time_left began timeout r.now).0 ≡ true)
Heard began timeout (r ∷ rs) (c ∷ cs) =
    (r.poll ≡ byte c)
    × ((time_left began timeout r.now).0 ≡ true)
    × (c ≢ b'E')
    × (c ≢ b'\n')
    × Heard (time_left began timeout r.now).1.0 r.remaining rs cs

-- The characters from '+' to '9'.
abbrev pub kept : List ℕ → List ℕ
kept [] = []
kept (c ∷ cs) = if is_kept c then c ∷ kept cs else kept cs

add_char-kept : (c : ℕ) (cs text : List ℕ) → add_char c text ++ kept cs ≡ text ++ kept (c ∷ cs)
add_char-kept c cs text = elim (Bool-cases (is_kept c)) [
  | inl k ↦
      (let ordinary : (c == b'S') ≡ false = ground arith in
        rw (ordinary, k) (append_assoc text (c ∷ []) (kept cs)))
  | inr k ↦ elim (Bool-cases (c == b'S')) [
    | inl began ↦ rw (began, k)
    | inr ordinary ↦ rw (ordinary, k)
  ]
]

line_loop-Heard :
    (last : ℕ) (began timeout : Time) (l : Line) (rs : List Round) (cs : List ℕ)
    → last ≢ b'\n'
    → Heard began timeout rs cs
    → line_loop last began timeout l rs ≡ done (record l { text = l.text ++ kept cs })
unfolding line_loop
line_loop-Heard last began timeout l [] cs ne h = absurd h
line_loop-Heard last began timeout l (r ∷ rs) [] ne (e, left) =
    let goes : (last == b'\n') ≡ false = ground arith in
    rw (goes, left, e, line_loop) (ap (λ v. done (record l { text = v })) (sym (append-nil l.text)))
line_loop-Heard last began timeout l (r ∷ rs) (c ∷ cs) ne (e, left, other, line, h) =
    let goes : (last == b'\n') ≡ false = ground arith in
    let more : (c == b'E') ≡ false = ground arith in
    rw (goes, left, e, more, line_loop)
      (line_loop-Heard c (time_left began timeout r.now).1.0 r.remaining
          (record l { text = add_char c l.text }) rs cs line h
        ∙ ap (λ v. done (record l { text = v })) (add_char-kept c cs l.text))

-- If characters other than 'E' and the end of the line arrive, and then 'E', each before the time is
-- up, getTTYLine returns those from '+' to '9' in order, and keeps the port: also those before 'S'.
pub get_tty_line-Heard :
    (last : ℕ) (began : Time) (rs : List Round) (cs : List ℕ)
    → last ≢ b'\n'
    → Heard began (record { sec = 1; usec = 0 }) rs cs
    → get_tty_line last began rs ≡ done (record { text = kept cs; closed = false })
unfolding get_tty_line
get_tty_line-Heard last began rs cs ne h =
    line_loop-Heard last began (record { sec = 1; usec = 0 }) (record { text = []; closed = false })
      rs cs ne h

-- The frame of a command: two characters that say which, and two that are its arguments.
abbrev pub IsCommand : (kind first second : ℕ) → Write → Type 0
IsCommand kind first second w =
    (w.bytes ≡ b'S' ∷ kind ∷ first ∷ second ∷ b'E' ∷ []) × (w.locked ≡ false)

-- From a free mutex, both callbacks write one command, whose digits are the message's, leave the mutex
-- free, and write while it is free: what they call getLock gives the lock back. A dropper message
-- of fewer than two values writes nothing.
pub callbacks_unlocked :
    (d left right : ℕ) (more : List ℕ)
    → d < 10
    → left < 10
    → right < 10
    → ((w : Write) × (torpedo_callback false d ≡ done (false, w ∷ []))
        × IsCommand b'T' (d + b'0') b'0' w)
      × ((w : Write) × (dropper_callback false (left ∷ right ∷ more) ≡ done (false, w ∷ []))
          × IsCommand b'D' (left + b'0') (right + b'0') w)
      × (dropper_callback false (left ∷ []) ≡ done (false, []))
unfolding torpedo_callback dropper_callback locked_write check_lock_loop get_lock release_lock
callbacks_unlocked d left right more hd hl hr =
    let e : digit_of d ≡ d + b'0' = omega arith in
    let el : digit_of left ≡ left + b'0' = omega arith in
    let two : leb 2 (length (left ∷ right ∷ more)) ≡ true = ground arith in
    let er : digit_of right ≡ right + b'0' = omega arith in
    (
      (
        record { bytes = b'S' ∷ b'T' ∷ digit_of d ∷ b'0' ∷ b'E' ∷ []; locked = false },
        refl,
        (rw e, refl),
      ),
      (
        record { bytes = b'S' ∷ b'D' ∷ digit_of left ∷ digit_of right ∷ b'E' ∷ []; locked = false },
        rw two,
        (rw (el, er), refl),
      ),
      refl,
    )
