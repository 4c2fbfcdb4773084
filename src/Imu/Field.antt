-- ===== src/Imu/Field.antt =====
-- packets/fields/MipField.cpp and packets/fields/DataFields/*.cpp: the fields of a packet.
-- An object of a field class is a record of its members. A member function that changes the
-- object returns the new object beside its result; a writer returns the new buffer.
use guillemot_core.Prelude.{ℕ, leb, if◌then◌else◌}
use guillemot_core.Prelude.Run.{Run, done, ◌>>=◌}
use guillemot_core.Imu.Buffer.{Bytes, load, store}
pub mod Vector
pub mod EulerAngles
pub mod RawAccelerometerVector
pub mod ScaledAccelerometerVector
pub mod ScaledGyroVector
pub mod DeltaThetaVector
pub mod DeltaVelocityVector
pub mod InternalTimestamp
pub mod DataField
pub mod Laws
pub mod Wire
pub mod Unsent

abbrev pub field_length_offset : ℕ
field_length_offset = 0

abbrev pub field_descriptor_offset : ℕ
field_descriptor_offset = 1

abbrev pub min_mip_field_header_size : ℕ
min_mip_field_header_size = 2

abbrev pub sizeof_float32 : ℕ
sizeof_float32 = 4

-- The members of the base class `MipField`.
pub record MipField : Type 0 where
  pub field_length : ℕ
  pub field_descriptor : ℕ

pub new_field : MipField
new_field = record { field_length = 0; field_descriptor = 0 }

unfoldable pub serialize_header : MipField → Bytes → ℕ → Run (ℕ × Bytes)
serialize_header f buf size =
    if leb min_mip_field_header_size size
    then (do
      buf ← store buf field_length_offset f.field_length
      buf ← store buf field_descriptor_offset f.field_descriptor
      done (min_mip_field_header_size, buf))
    else done (0, buf)

unfoldable pub deserialize_header : MipField → Bytes → ℕ → Run (ℕ × MipField)
deserialize_header f buf size =
    if leb min_mip_field_header_size size
    then (do
      descriptor ← load buf field_descriptor_offset
      len ← load buf field_length_offset
      done (len, record f { field_length = len; field_descriptor = descriptor }))
    else done (0, f)
