-- ===== src/Imu/Field/DataField.antt =====
-- packets/fields/DataFields/DataField.cpp, and the virtual calls through `MipField*`.
use guillemot_core.Prelude.{ℕ, leb, ◌==◌, if◌then◌else◌, Option, none, some}
use guillemot_core.Prelude.Run.{Run, done, ◌>>=◌, map_run}
use guillemot_core.Imu.Buffer.{Bytes, load}
use guillemot_core.Imu.Field.{
  MipField, new_field, min_mip_field_header_size, field_descriptor_offset, serialize_header,
  deserialize_header,
}
use guillemot_core.Imu.Field.Vector.{VectorField}
use guillemot_core.Imu.Field.EulerAngles
use guillemot_core.Imu.Field.RawAccelerometerVector
use guillemot_core.Imu.Field.ScaledAccelerometerVector
use guillemot_core.Imu.Field.ScaledGyroVector
use guillemot_core.Imu.Field.DeltaThetaVector
use guillemot_core.Imu.Field.DeltaVelocityVector
use guillemot_core.Imu.Field.InternalTimestamp
use guillemot_core.Imu.Field.InternalTimestamp.{InternalTimestamp}

-- The classes below `MipField`, one constructor each.
pub data Field : Type 0 where
  data_field : MipField → Field
  raw_accelerometer_vector : VectorField → Field
  scaled_accelerometer_vector : VectorField → Field
  scaled_gyro_vector : VectorField → Field
  delta_theta_vector : VectorField → Field
  delta_velocity_vector : VectorField → Field
  euler_angles : VectorField → Field
  internal_timestamp : InternalTimestamp → Field

abbrev pub base : Field → MipField
base (data_field f) = f
base (raw_accelerometer_vector f) = f.base
base (scaled_accelerometer_vector f) = f.base
base (scaled_gyro_vector f) = f.base
base (delta_theta_vector f) = f.base
base (delta_velocity_vector f) = f.base
base (euler_angles f) = f.base
base (internal_timestamp f) = f.base

unfoldable pub get_field_length : Field → ℕ
get_field_length f = (base f).field_length

unfoldable pub get_field_descriptor : Field → ℕ
get_field_descriptor f = (base f).field_descriptor

unfoldable pub set_field_descriptor : MipField → ℕ → MipField
set_field_descriptor f descriptor = record f { field_descriptor = descriptor }

-- The virtual call `pField->serialize(pBuf, size)`.
unfoldable pub serialize : Field → Bytes → ℕ → Run (ℕ × Bytes)
serialize (data_field f) = serialize_header f
serialize (raw_accelerometer_vector f) = RawAccelerometerVector.serialize f
serialize (scaled_accelerometer_vector f) = ScaledAccelerometerVector.serialize f
serialize (scaled_gyro_vector f) = ScaledGyroVector.serialize f
serialize (delta_theta_vector f) = DeltaThetaVector.serialize f
serialize (delta_velocity_vector f) = DeltaVelocityVector.serialize f
serialize (euler_angles f) = EulerAngles.serialize f
serialize (internal_timestamp f) = InternalTimestamp.serialize f

-- `enum DataFieldSet`, the values that the switch tells apart.
abbrev pub scaled_accelerometer_vector_set : ℕ
scaled_accelerometer_vector_set = 0x4

abbrev pub scaled_gyro_vector_set : ℕ
scaled_gyro_vector_set = 0x5

abbrev pub delta_velocity_vector_set : ℕ
delta_velocity_vector_set = 0x8

abbrev pub euler_angles_set : ℕ
euler_angles_set = 0xc

-- A result and an object, as a result and a pointer to a field.
abbrev to_field {ℓ} : {A : Type ℓ} → (A → Field) → Run (ℕ × A) → Run (ℕ × Option Field)
to_field f = map_run (λ r. (r.0, some (f r.1)))

-- The switch over the descriptor byte.
unfoldable pub deserialize_as : ℕ → Bytes → ℕ → Run (ℕ × Option Field)
deserialize_as descriptor buf size =
    if descriptor == scaled_accelerometer_vector_set
    then to_field scaled_accelerometer_vector
        (ScaledAccelerometerVector.deserialize ScaledAccelerometerVector.init buf size)
    else if descriptor == scaled_gyro_vector_set
    then to_field scaled_gyro_vector (ScaledGyroVector.deserialize ScaledGyroVector.init buf size)
    else if descriptor == euler_angles_set
    then to_field euler_angles (EulerAngles.deserialize EulerAngles.init buf size)
    else if descriptor == delta_velocity_vector_set
    then to_field delta_velocity_vector
        (DeltaVelocityVector.deserialize DeltaVelocityVector.init buf size)
    else to_field data_field (deserialize_header new_field buf size)

-- `none` is the pointer that stays `NULL`.
unfoldable pub deserialize_to_field : Bytes → ℕ → Run (ℕ × Option Field)
deserialize_to_field buf size =
    if leb min_mip_field_header_size size
    then (do descriptor ← load buf field_descriptor_offset; deserialize_as descriptor buf size)
    else done (0, none)
