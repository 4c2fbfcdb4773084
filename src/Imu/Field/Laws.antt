-- ===== src/Imu/Field/Laws.antt =====
-- What the field classes send and read back.
use guillemot_core.Prelude.{ℕ, ◌^◌, ◌≤◌, ◌<◌, ◌≡◌, ◌≢◌, refl, ◌∷◌, arith, length, drop}
use guillemot_core.Prelude.Run.{done}
use guillemot_core.Imu.Buffer.{Bytes, byte_at, put_float32, get_float32}
use guillemot_core.Imu.Field.{serialize_header, deserialize_header}
use guillemot_core.Imu.Field.Vector.{VectorField, serialize_vector, deserialize_vector, read_vector}
use guillemot_core.Imu.Field.EulerAngles.{layout}

-- A 32-bit word, high byte first.
abbrev pub big_endian : ℕ → Bytes → Bytes
big_endian w rest = byte_at w 3 ∷ byte_at w 2 ∷ byte_at w 1 ∷ byte_at w 0 ∷ rest

-- What the protocol says a vector field looks like on the wire, in front of `rest`.
abbrev pub wire_vector : VectorField → Bytes → Bytes
wire_vector f rest =
    f.field_length ∷ f.field_descriptor ∷ big_endian f.x (big_endian f.y (big_endian f.z rest))

pub record IsWord (f : VectorField) : Type 0 where
  pub x_lt : f.x < 2 ^ 32
  pub y_lt : f.y < 2 ^ 32
  pub z_lt : f.z < 2 ^ 32

pub put_float32_lem :
    (w : ℕ) (buf : Bytes) → 4 ≤ length buf → put_float32 buf w ≡ done (big_endian w (drop 4 buf))
unfolding put_float32
put_float32_lem w (a ∷ b ∷ c ∷ d ∷ rest) h = refl
put_float32_lem w buf h = absurd (omega arith)

pub get_float32_lem : (w : ℕ) (rest : Bytes) → w < 2 ^ 32 → get_float32 (big_endian w rest) ≡ done w
unfolding get_float32
get_float32_lem w rest h = ground arith

pub serialize_vector_lem :
    (f : VectorField) (buf : Bytes) (size : ℕ)
    → 14 ≤ length buf
    → 14 ≤ size
    → serialize_vector layout f buf size ≡ done (f.field_length, wire_vector f (drop 14 buf))
unfolding serialize_vector serialize_header put_float32
serialize_vector_lem f (a ∷ b ∷ c ∷ d ∷ e ∷ g ∷ i ∷ j ∷ k ∷ l ∷ m ∷ n ∷ o ∷ p ∷ rest) size h hs =
    ground arith
serialize_vector_lem f buf size h hs = absurd (omega arith)

pub deserialize_vector_lem :
    (f g : VectorField) (rest : Bytes) (size : ℕ)
    → IsWord f
    → f.field_length ≡ 14
    → 14 ≤ size
    → deserialize_vector layout g (wire_vector f rest) size ≡ done (14, f)
unfolding deserialize_vector deserialize_header read_vector
deserialize_vector_lem f g rest size v e h = ground (
  arith,
  get_float32_lem f.x (big_endian f.y (big_endian f.z rest)),
  get_float32_lem f.y (big_endian f.z rest),
  get_float32_lem f.z rest,
)

-- Reading an object of a vector class either consumes exactly the static size or reports that it
-- consumed nothing; it consumes nothing whenever the length byte is another number.
pub deserialize_vector_other :
    (g : VectorField) (len descriptor : ℕ) (rest : Bytes) (size : ℕ)
    → len ≢ 14
    → 2 ≤ size
    → deserialize_vector layout g (len ∷ descriptor ∷ rest) size
      ≡ done (0, record g { base = record { field_length = len; field_descriptor = descriptor } })
unfolding deserialize_vector deserialize_header
deserialize_vector_other g len descriptor rest size h hs = ground arith
