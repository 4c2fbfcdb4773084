-- ===== src/Imu/FieldList/Hang.antt =====
-- What makes the loop of MipFieldList::deserialize run for ever: a round that consumes nothing.
use guillemot_core.Prelude.{
  ℕ, zero, suc, ◌%◌, ◌≤◌, ◌≡◌, ◌≢◌, ◌⊎◌, refl, List, [], ◌∷◌, ◌++◌, some, ltb, leb, arith, ◌&&◌,
  inl, inr, true,
}
use guillemot_core.Prelude.Run.{done, hang}
use guillemot_core.Imu.Buffer.{Bytes}
use guillemot_core.Imu.Field.Vector.{VectorField}
use guillemot_core.Imu.Field.EulerAngles
use guillemot_core.Imu.Field.ScaledAccelerometerVector
use guillemot_core.Imu.Field.ScaledGyroVector
use guillemot_core.Imu.Field.DeltaVelocityVector
use guillemot_core.Imu.Field.DataField.{
  Field, scaled_accelerometer_vector, scaled_gyro_vector, delta_velocity_vector, euler_angles,
  deserialize_to_field, deserialize_as,
}
use guillemot_core.Imu.Field.Laws.{deserialize_vector_other}
use guillemot_core.Imu.FieldList.{
  Heap, MipFieldList, init, deserialize_round, deserialize_loop, deserialize,
  descriptor_set_imu_data,
}
use guillemot_core.Imu.FieldList.Contents.{IsList, init-IsList, add-IsList}
use guillemot_core.Imu.FieldList.Receive.{clear-init}

loop_other_set :
    (fuel set' : ℕ) (buf : Bytes) (size : ℕ) (s : MipFieldList × Heap)
    → set' ≢ descriptor_set_imu_data
    → 2 ≤ size
    → deserialize_loop fuel set' buf size 0 s ≡ hang
unfolding deserialize_loop deserialize_round
loop_other_set zero set' buf size s other two = refl
loop_other_set (suc fuel) set' buf size s other two =
    ground (arith, loop_other_set fuel set' buf size s other two)

-- With a descriptor set other than that of the IMU and a payload of two bytes or more, the loop
-- consumes nothing and does not end, however many rounds it is given.
pub deserialize_other_set :
    (fuel set' : ℕ) (buf : Bytes) (size : ℕ) (h : Heap)
    → set' ≢ descriptor_set_imu_data
    → 2 ≤ size
    → deserialize fuel set' buf size (init, h) ≡ hang
unfolding deserialize
deserialize_other_set fuel set' buf size h other two =
    rw (clear-init h) (loop_other_set fuel set' buf size (init, h) other two)

-- The descriptors for which the reader has a vector class.
abbrev pub IsVectorDescriptor : ℕ → Type 0
IsVectorDescriptor d = (d ≡ 0x4) ⊎ (d ≡ 0x5) ⊎ (d ≡ 0x8) ⊎ (d ≡ 0xc)

abbrev misread : ℕ → ℕ → VectorField → VectorField
misread len d f = record f { base = record { field_length = len; field_descriptor = d } }

-- A vector field whose length byte is not that of its class is built all the same.
deserialize_misread :
    (len d : ℕ) (rest : Bytes) (size : ℕ)
    → len ≢ 14
    → 2 ≤ size
    → IsVectorDescriptor d
    → (f : Field) × (deserialize_to_field (len ∷ d ∷ rest) size ≡ done (0, some f))
unfolding deserialize_to_field deserialize_as ScaledAccelerometerVector.deserialize
    ScaledGyroVector.deserialize EulerAngles.deserialize DeltaVelocityVector.deserialize
deserialize_misread len d rest size bad two (inl e) = (
  scaled_accelerometer_vector (misread len d ScaledAccelerometerVector.init),
  ground (arith, deserialize_vector_other ScaledAccelerometerVector.init len d rest size bad two),
)
deserialize_misread len d rest size bad two (inr (inl e)) = (
  scaled_gyro_vector (misread len d ScaledGyroVector.init),
  ground (arith, deserialize_vector_other ScaledGyroVector.init len d rest size bad two),
)
deserialize_misread len d rest size bad two (inr (inr (inl e))) = (
  delta_velocity_vector (misread len d DeltaVelocityVector.init),
  ground (arith, deserialize_vector_other DeltaVelocityVector.init len d rest size bad two),
)
deserialize_misread len d rest size bad two (inr (inr (inr e))) = (
  euler_angles (misread len d EulerAngles.init),
  ground (arith, deserialize_vector_other EulerAngles.init len d rest size bad two),
)

loop_misread :
    (fuel len d : ℕ) (rest : Bytes) (size : ℕ) (l : MipFieldList) (h : Heap) (fs : List Field)
    → len ≢ 14
    → IsVectorDescriptor d
    → 2 ≤ size % 256
    → IsList l h fs
    → deserialize_loop fuel descriptor_set_imu_data (len ∷ d ∷ rest) size 0 (l, h) ≡ hang
unfolding deserialize_loop deserialize_round
loop_misread zero len d rest size l h fs bad vec two v = refl
loop_misread (suc fuel) len d rest size l h fs bad vec two v =
    let (f, e) = deserialize_misread len d rest (size % 256) bad two vec in
    let (l', h', ae, v') = add-IsList l h fs f v in
    let inside : (ltb 0 size && leb 2 size) ≡ true = ground arith in
    rw (inside, deserialize_loop, e, ae)
      (loop_misread fuel len d rest size l' h' (fs ++ f ∷ []) bad vec two v')

-- A payload that begins with a vector field whose length byte is wrong does not end the loop either:
-- every round adds one more field and consumes nothing.
pub deserialize_bad_length :
    (fuel len d : ℕ) (rest : Bytes) (size : ℕ) (h : Heap)
    → len ≢ 14
    → IsVectorDescriptor d
    → 2 ≤ size % 256
    → deserialize fuel descriptor_set_imu_data (len ∷ d ∷ rest) size (init, h) ≡ hang
unfolding deserialize
deserialize_bad_length fuel len d rest size h bad vec two =
    rw (clear-init h) (loop_misread fuel len d rest size init h [] bad vec two (init-IsList h))
