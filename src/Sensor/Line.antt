-- ===== src/Sensor/Line.antt =====
-- getTTYLine and goodLine of SubSensorController.cpp. A character is its code.
-- The calls of one round of getTTYLine's loop are an argument: the clock reading of timeLeft, the
-- outcome of select and read, and what select leaves of the timeout. ros::ok holds.
use guillemot_core.Prelude.{
  ℕ, zero, suc, List, [], ◌∷◌, ◌++◌, Bool, true, false, ◌&&◌, not, leb, ◌==◌, if◌then◌else◌,
}
use guillemot_core.Prelude.Run.{Run, done, hang}
use guillemot_core.Motor.Time.{Time}
use guillemot_core.Sensor.Timer.{time_left}

pub data Poll : Type 0 where
  byte : ℕ → Poll
  -- select says that there is a byte, and read does not get it
  read_fails : Poll
  -- select says that there is none, or fails
  not_ready : Poll

pub record Round : Type 0 where
  pub now : Time
  pub poll : Poll
  pub remaining : Time

-- What getTTYLine returns, and whether it closed the port and went back to waiting for it.
pub record Line : Type 0 where
  pub text : List ℕ
  pub closed : Bool

-- The characters that are kept.
abbrev pub is_kept : ℕ → Bool
is_kept c = leb b'+' c && leb c b'9'

-- What a character other than 'E' adds. That 'S' was found is noted, and never looked at.
abbrev pub add_char : ℕ → List ℕ → List ℕ
add_char c text = if not (c == b'S') && is_kept c then text ++ c ∷ [] else text

-- `last` is `lastChar`, `start` and `timeout` what timeLeft gets.
unfoldable pub line_loop : (last : ℕ) (start timeout : Time) → Line → List Round → Run Line
line_loop last start timeout l [] = if last == b'\n' then done l else hang
line_loop last start timeout l (r ∷ rs) =
    let (left, (start', timeout')) = time_left start timeout r.now in
    elim (not (last == b'\n') && left) [
      | true ↦ elim r.poll [
        | byte c ↦ elim (c == b'E') [
          | true ↦ done l
          | false ↦ line_loop c start' r.remaining (record l { text = add_char c l.text }) rs
        ]
        | read_fails ↦ line_loop last start' r.remaining (record l { closed = true }) rs
        | not_ready ↦ done (record l { text = [] })
      ]
      | false ↦ done l
    ]

-- `last` is whatever the variable held before: it is not initialised.
unfoldable pub get_tty_line : (last : ℕ) (start : Time) → List Round → Run Line
get_tty_line last start =
    line_loop last start (record { sec = 1; usec = 0 }) (record { text = []; closed = false })

abbrev pub count_commas : List ℕ → ℕ
count_commas [] = 0
count_commas (c ∷ cs) = if c == b',' then suc (count_commas cs) else count_commas cs

-- `varCount - 1` is computed on `int`s: with no variables no line is good.
unfoldable pub good_line : List ℕ → (var_count : ℕ) → Bool
good_line text zero = false
good_line text (suc n) = count_commas text == n
