-- ===== src/Motor/Message.antt =====
-- The messages of motorController.h, the speed filter, and the encoding of speeds.
use guillemot_core.Prelude.{
  ℕ, ◌+◌, ◌-◌, ◌*◌, ◌%◌, ◌^◌, ◌≤◌, ◌≡◌, ◌⊎◌, inl, inr, dec_lt, List, [], ◌∷◌, arith, ◌==◌,
  if◌then◌else◌,
}
use guillemot_core.Prelude.Int.{ℤ, pos, negsuc, sub_ℕ, pos_part, neg_part, ◌≤ℤ◌, ltb_ℤ, leb_ℤ}

abbrev pub no_message : ℕ
no_message = b' '

abbrev pub motor_type : ℕ
motor_type = b'D'

abbrev pub motor_response_type : ℕ
motor_response_type = b'd'

abbrev pub current_type : ℕ
current_type = b'C'

abbrev pub current_response_type : ℕ
current_response_type = b'c'

abbrev pub voltage_type : ℕ
voltage_type = b'V'

abbrev pub voltage_response_type : ℕ
voltage_response_type = b'v'

abbrev pub error_type : ℕ
error_type = b'e'

-- `DataC`.
pub record Data : Type 0 where
  pub c0 : ℕ
  pub c1 : ℕ
  pub c2 : ℕ
  pub c3 : ℕ

pub record Message : Type 0 where
  pub kind : ℕ
  pub content : Data

-- `DataF`, on a little-endian host.
unfoldable pub data_f : Data → ℕ
data_f d = d.c0 + d.c1 * 2 ^ 8 + d.c2 * 2 ^ 16 + d.c3 * 2 ^ 24

abbrev pub negate : ℤ → ℤ
negate a = sub_ℕ (neg_part a) (pos_part a)

-- `filter`.
unfoldable pub filter_speed : ℤ → ℤ
filter_speed speed =
    let top = if leb_ℤ (pos 256) speed then pos 255 else speed in
    let low = if leb_ℤ top (negsuc 255) then negsuc 254 else top in negate low

-- An `int` stored in an `unsigned char`.
abbrev pub to_byte : ℤ → ℕ
to_byte (pos n) = n % 256
to_byte (negsuc n) = 255 - n % 256

unfoldable pub create_message_from_speed : (right left : ℤ) → Message
create_message_from_speed right left = record {
  kind = motor_type;
  content = record {
    c0 = if ltb_ℤ (pos 0) left then to_byte left else 0;
    c1 = if ltb_ℤ (pos 0) left then 0 else to_byte (negate left);
    c2 = if ltb_ℤ (pos 0) right then to_byte right else 0;
    c3 = if ltb_ℤ (pos 0) right then 0 else to_byte (negate right);
  };
}

-- The speed that two bytes of a motor response stand for.
unfoldable pub speed_of_bytes : ℕ → ℕ → ℤ
speed_of_bytes forward backward = if forward == 0 then negate (pos backward) else pos forward

-- The bytes that transmit writes.
unfoldable pub frame : Message → List ℕ
frame m = b'S' ∷ m.kind ∷ m.content.c0 ∷ m.content.c1 ∷ m.content.c2 ∷ m.content.c3 ∷ b'E' ∷ []

-- A speed that the board knows: from -255 to 255.
pub record IsSpeed (s : ℤ) : Type 0 where
  pub at_least : negsuc 254 ≤ℤ s
  pub at_most : s ≤ℤ pos 255

-- The targets are always speeds that the board knows: the asked speed turned round, or 255 in the
-- turned direction where the asked speed is beyond it.
pub filter_speed_lem :
    (s : ℤ)
    → IsSpeed (filter_speed s)
      × ((IsSpeed s × (filter_speed s ≡ negate s))
          ⊎ ((pos 255 ≤ℤ s) × (filter_speed s ≡ negsuc 254))
          ⊎ ((s ≤ℤ negsuc 254) × (filter_speed s ≡ pos 255)))
unfolding filter_speed
filter_speed_lem (pos n) = (
  ground arith,
  elim (dec_lt n 256) [
    | yes lt ↦ inl (record { at_least = ground arith; at_most = ground arith }, ground arith)
    | no ge ↦ inr (inl (ground arith, ground arith))
  ],
)
filter_speed_lem (negsuc n) = (
  ground arith,
  elim (dec_lt n 255) [
    | yes lt ↦ inl (record { at_least = ground arith; at_most = ground arith }, ground arith)
    | no ge ↦ inr (inr (ground arith, ground arith))
  ],
)

-- The bytes of a speed that the board knows stand for that speed, on both sides.
pub create_message_speeds :
    (right left : ℤ)
    → IsSpeed right
    → IsSpeed left
    → let d = (create_message_from_speed right left).content in
      (speed_of_bytes d.c0 d.c1 ≡ left) × (speed_of_bytes d.c2 d.c3 ≡ right)
unfolding create_message_from_speed speed_of_bytes
create_message_speeds right left vr vl = (ground arith, ground arith)

-- Every two bytes stand for a speed that the board knows.
pub speed_of_bytes-IsSpeed : (f b : ℕ) → f ≤ 255 → b ≤ 255 → IsSpeed (speed_of_bytes f b)
unfolding speed_of_bytes
speed_of_bytes-IsSpeed f b hf hb = ground arith
