-- ===== src/Imu/Field/Vector.antt =====
-- The shape that six classes of packets/fields/DataFields share, line by line: a header and three
-- 32-bit floats. Each class has its own static size and offsets, in a module of its own.
use guillemot_core.Prelude.{ℕ, ◌&&◌, leb, ◌==◌, if◌then◌else◌, drop}
use guillemot_core.Prelude.Run.{Run, done, ◌>>=◌}
use guillemot_core.Imu.Buffer.{Bytes, at, put_float32, get_float32}
use guillemot_core.Imu.Field.{
  MipField, new_field, min_mip_field_header_size, serialize_header, deserialize_header,
}

-- `x`, `y`, `z` are the bit patterns of the three floats, in the order in which they are sent.
pub record VectorField : Type 0 where
  pub base : MipField
  pub open base use *
  pub x : ℕ
  pub y : ℕ
  pub z : ℕ

-- Where a class puts its members in the buffer.
pub record Layout : Type 0 where
  pub x_offset : ℕ
  pub y_offset : ℕ
  pub z_offset : ℕ
  pub static_size : ℕ

unfoldable pub new_vector : VectorField
unfolding new_field
new_vector = record { base = new_field; x = 0; y = 0; z = 0 }

unfoldable pub serialize_vector : Layout → VectorField → Bytes → ℕ → Run (ℕ × Bytes)
serialize_vector l f buf size =
    if leb l.static_size size
    then (do
      (_, buf) ← serialize_header f.base buf size
      buf ← at l.x_offset (λ p. put_float32 p f.x) buf
      buf ← at l.y_offset (λ p. put_float32 p f.y) buf
      buf ← at l.z_offset (λ p. put_float32 p f.z) buf
      done (f.field_length, buf))
    else done (0, buf)

unfoldable pub read_vector : Layout → VectorField → Bytes → Run (ℕ × VectorField)
read_vector l f buf = do
  x ← get_float32 (drop l.x_offset buf)
  y ← get_float32 (drop l.y_offset buf)
  z ← get_float32 (drop l.z_offset buf)
  done (f.field_length, record f { x = x; y = y; z = z })

unfoldable pub deserialize_vector : Layout → VectorField → Bytes → ℕ → Run (ℕ × VectorField)
unfolding read_vector
deserialize_vector l f buf size =
    if leb min_mip_field_header_size size
    then (do
      (_, base) ← deserialize_header f.base buf size
      if leb base.field_length size && base.field_length == l.static_size
          then read_vector l (record f { base = base }) buf
          else done (0, record f { base = base }))
    else done (0, f)
