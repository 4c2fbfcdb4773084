-- ===== src/Imu/Field/Unsent.antt =====
-- Two ways in which a field does not survive being sent: no member function of a field class sets
-- the length byte of a new object, and a timestamp is written as a float and read as a number.
use guillemot_core.Prelude.{ℕ, ◌^◌, ◌≤◌, ◌<◌, ◌≡◌, ◌≢◌, ◌∷◌, arith, length, drop}
use guillemot_core.Prelude.Run.{done, ◌>>=◌}
use guillemot_core.Imu.Buffer.{Bytes, put_float32, get_uint32}
use guillemot_core.Imu.Float32.{float32_of_uint32, float32_of_uint32-ge, float32_of_uint32-lt}
use guillemot_core.Imu.Field.{new_field, serialize_header, deserialize_header}
use guillemot_core.Imu.Field.Vector.{VectorField, new_vector}
use guillemot_core.Imu.Field.EulerAngles
use guillemot_core.Imu.Field.InternalTimestamp
use guillemot_core.Imu.Field.InternalTimestamp.{InternalTimestamp}
use guillemot_core.Imu.Field.Laws.{
  big_endian, wire_vector, serialize_vector_lem, deserialize_vector_other,
}

-- Angles that are constructed, described and filled in still have length 0: writing them reports
-- that nothing was written, and reading those bytes consumes nothing and sets none of the angles.
pub constructed_angles_lost :
    (descriptor x y z : ℕ) (buf : Bytes) (size : ℕ)
    → 14 ≤ length buf
    → 14 ≤ size
    → let header = record new_field { field_descriptor = descriptor } in
      let f : VectorField = record { base = header; x = x; y = y; z = z } in
      let sent = wire_vector f (drop 14 buf) in
      (EulerAngles.serialize f buf size ≡ done (0, sent))
      × (EulerAngles.deserialize EulerAngles.init sent size
          ≡ done (0, record EulerAngles.init { base = header }))
unfolding EulerAngles.serialize EulerAngles.deserialize EulerAngles.init new_field new_vector
constructed_angles_lost descriptor x y z buf size h hs = (
  serialize_vector_lem _ buf size h hs,
  deserialize_vector_other _ 0 descriptor _ size (omega arith) (omega arith),
)

get_uint32_wire : (w : ℕ) (rest : Bytes) → w < 2 ^ 32 → get_uint32 (big_endian w rest) ≡ done w
unfolding get_uint32
get_uint32_wire w rest h = ground arith

float32_at_wire :
    (f : InternalTimestamp) (buf : Bytes) (size : ℕ)
    → 6 ≤ length buf
    → 6 ≤ size
    → InternalTimestamp.serialize f buf size
      ≡ done (
        f.field_length,
        f.field_length
            ∷ f.field_descriptor
            ∷ big_endian (float32_of_uint32 f.timestamp) (drop 6 buf),
      )
unfolding InternalTimestamp.serialize serialize_header put_float32
float32_at_wire f (a ∷ b ∷ c ∷ d ∷ e ∷ g ∷ rest) size h hs = ground arith
float32_at_wire f buf size h hs = absurd (omega arith)

-- A timestamp other than 0 and below 2^24 never reads back as it was: the reader takes the bits of
-- the float for the number.
pub timestamp_lost :
    (f : InternalTimestamp) (buf : Bytes) (size : ℕ)
    → f.timestamp ≢ 0
    → f.timestamp < 2 ^ 24
    → 6 ≤ length buf
    → 6 ≤ size
    → (InternalTimestamp.serialize f buf size >>= λ r.
        InternalTimestamp.deserialize InternalTimestamp.init r.1 size)
      ≢ done (6, f)
unfolding InternalTimestamp.deserialize deserialize_header
timestamp_lost f buf size nz small h hs = rw (float32_at_wire f buf size h hs) (
    ground (
      arith,
      get_uint32_wire (float32_of_uint32 f.timestamp) (drop 6 buf),
      float32_of_uint32-ge f.timestamp nz,
      float32_of_uint32-lt f.timestamp small,
    ))
