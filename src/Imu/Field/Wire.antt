-- ===== src/Imu/Field/Wire.antt =====
-- The wire format of the fields that DataField::deserializeToField builds, and that it reads each of
-- them back.
use guillemot_core.Prelude.{ℕ, suc, ◌≤◌, ◌≡◌, ◌≢◌, [], ◌∷◌, ◌++◌, arith, ap, ◌∙◌, some, length}
use guillemot_core.Prelude.Run.{done}
use guillemot_core.Imu.Buffer.{Bytes}
use guillemot_core.Imu.Field.{MipField, deserialize_header}
use guillemot_core.Imu.Field.Vector.{VectorField}
use guillemot_core.Imu.Field.EulerAngles
use guillemot_core.Imu.Field.ScaledAccelerometerVector
use guillemot_core.Imu.Field.ScaledGyroVector
use guillemot_core.Imu.Field.DeltaVelocityVector
use guillemot_core.Imu.Field.DataField.{
  Field, data_field, scaled_accelerometer_vector, scaled_gyro_vector, delta_velocity_vector,
  euler_angles, deserialize_as, deserialize_to_field,
}
use guillemot_core.Imu.Field.Laws.{IsWord, wire_vector, deserialize_vector_lem}

-- A vector field with its class's descriptor, the length of its class, and floats of 32 bits.
pub record IsVectorOf (descriptor : ℕ) (f : VectorField) : Type 0 where
  pub described : f.field_descriptor ≡ descriptor
  pub length_eq : f.field_length ≡ 14
  pub words : IsWord f

-- A field that the reader has no class for: a header, and a payload that is skipped.
pub record IsOther (f : MipField) : Type 0 where
  pub no_accelerometer : f.field_descriptor ≢ 0x4
  pub no_gyro : f.field_descriptor ≢ 0x5
  pub no_velocity : f.field_descriptor ≢ 0x8
  pub no_angles : f.field_descriptor ≢ 0xc

-- The bytes `b` are a well-formed field on the wire, and stand for the object `f`.
abbrev pub Sends : Field → Bytes → Type 0
Sends (scaled_accelerometer_vector f) b = IsVectorOf 0x4 f × (b ≡ wire_vector f [])
Sends (scaled_gyro_vector f) b = IsVectorOf 0x5 f × (b ≡ wire_vector f [])
Sends (delta_velocity_vector f) b = IsVectorOf 0x8 f × (b ≡ wire_vector f [])
Sends (euler_angles f) b = IsVectorOf 0xc f × (b ≡ wire_vector f [])
Sends (data_field f) b =
    IsOther f
    × ((payload : Bytes) × (b ≡ f.field_length ∷ f.field_descriptor ∷ payload)
        × (f.field_length ≡ length b))
Sends _ b = ⊥

-- A well-formed field is at least its header.
pub Sends-length : (f : Field) (b : Bytes) → Sends f b → 2 ≤ length b
Sends-length (scaled_accelerometer_vector f) b s = omega (arith, ap length s.1)
Sends-length (scaled_gyro_vector f) b s = omega (arith, ap length s.1)
Sends-length (delta_velocity_vector f) b s = omega (arith, ap length s.1)
Sends-length (euler_angles f) b s = omega (arith, ap length s.1)
Sends-length (data_field f) b s = omega (arith, ap length s.1.1)
Sends-length _ b s = absurd s

-- A well-formed field in front of whatever follows is read as the object it stands for, and exactly
-- its bytes are consumed.
pub deserialize_to_field-Sends :
    (f : Field) (b rest : Bytes) (size : ℕ)
    → Sends f b
    → length b ≤ size
    → deserialize_to_field (b ++ rest) size ≡ done (length b, some f)
unfolding deserialize_to_field deserialize_as deserialize_header
    ScaledAccelerometerVector.deserialize ScaledGyroVector.deserialize EulerAngles.deserialize
    DeltaVelocityVector.deserialize
deserialize_to_field-Sends (scaled_accelerometer_vector f) b rest size (v, e) h =
    let fits : 14 ≤ size = omega (arith, ap length e) in
    rw e (
      ground (
        arith,
        deserialize_vector_lem f ScaledAccelerometerVector.init rest size v.words v.length_eq fits,
      ))
deserialize_to_field-Sends (scaled_gyro_vector f) b rest size (v, e) h =
    let fits : 14 ≤ size = omega (arith, ap length e) in
    rw e (
      ground
        (arith, deserialize_vector_lem f ScaledGyroVector.init rest size v.words v.length_eq fits))
deserialize_to_field-Sends (delta_velocity_vector f) b rest size (v, e) h =
    let fits : 14 ≤ size = omega (arith, ap length e) in
    rw e (
      ground (
        arith,
        deserialize_vector_lem f DeltaVelocityVector.init rest size v.words v.length_eq fits,
      ))
deserialize_to_field-Sends (euler_angles f) b rest size (v, e) h =
    let fits : 14 ≤ size = omega (arith, ap length e) in
    rw e
      (ground (arith, deserialize_vector_lem f EulerAngles.init rest size v.words v.length_eq fits))
deserialize_to_field-Sends (data_field f) b rest size (o, (payload, e, n)) h =
    let fits : 2 ≤ size = omega (arith, ap length e) in
    let m : f.field_length ≡ suc (suc (length payload)) = n ∙ ap length e in rw e (ground arith)
deserialize_to_field-Sends _ b rest size s h = absurd s
