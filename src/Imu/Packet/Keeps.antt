-- ===== src/Imu/Packet/Keeps.antt =====
-- The writers of the field classes return a buffer of the length that they were given, or fault.
use guillemot_core.Prelude.{
  ℕ, zero, suc, ◌≡◌, refl, ap, subst, [], ◌∷◌, length, leb, Bool-cases, inl, inr,
}
use guillemot_core.Prelude.Run.{Run, done, fault, hang, ◌>>=◌, map_run}
use guillemot_core.Imu.Buffer.{Bytes, store, at, put_float32}
use guillemot_core.Imu.Field.{MipField, serialize_header}
use guillemot_core.Imu.Field.Vector.{VectorField, Layout, serialize_vector}
use guillemot_core.Imu.Field.EulerAngles
use guillemot_core.Imu.Field.RawAccelerometerVector
use guillemot_core.Imu.Field.ScaledAccelerometerVector
use guillemot_core.Imu.Field.ScaledGyroVector
use guillemot_core.Imu.Field.DeltaThetaVector
use guillemot_core.Imu.Field.DeltaVelocityVector
use guillemot_core.Imu.Field.InternalTimestamp
use guillemot_core.Imu.Field.InternalTimestamp.{InternalTimestamp}
use guillemot_core.Imu.Field.DataField
use guillemot_core.Imu.Field.DataField.{
  Field, data_field, raw_accelerometer_vector, scaled_accelerometer_vector, scaled_gyro_vector,
  delta_theta_vector, delta_velocity_vector, euler_angles, internal_timestamp, get_field_length,
}

-- A writer returns a buffer of the same length, or faults.
abbrev pub Keeps : ℕ → Run Bytes → Type 0
Keeps n (done b) = length b ≡ n
Keeps n fault = Unit
Keeps n hang = ⊥

abbrev pub written {ℓ} : {A : Type ℓ} → Run (A × Bytes) → Run Bytes
written = map_run (λ r. r.1)

map_run-Keeps : (x n : ℕ) (r : Run Bytes) → Keeps n r → Keeps (suc n) (map_run (◌∷◌ x) r)
map_run-Keeps x n (done b) k = ap suc k
map_run-Keeps x n fault k = tt
map_run-Keeps x n hang k = k

pub store-Keeps : (buf : Bytes) (k v : ℕ) → Keeps (length buf) (store buf k v)
store-Keeps [] k v = tt
store-Keeps (x ∷ xs) zero v = refl
store-Keeps (x ∷ xs) (suc k) v = map_run-Keeps x (length xs) (store xs k v) (store-Keeps xs k v)

pub at-Keeps :
    (f : Bytes → Run Bytes) (keep : (p : Bytes) → Keeps (length p) (f p)) (k : ℕ) (buf : Bytes)
    → Keeps (length buf) (at k f buf)
at-Keeps f keep zero buf = keep buf
at-Keeps f keep (suc k) [] = tt
at-Keeps f keep (suc k) (x ∷ xs) = map_run-Keeps x (length xs) (at k f xs) (at-Keeps f keep k xs)

bind-Keeps :
    (n : ℕ) (m : Run Bytes) (f : Bytes → Run (ℕ × Bytes))
    → Keeps n m
    → ((b : Bytes) → length b ≡ n → Keeps n (written (f b)))
    → Keeps n (written (m >>= f))
bind-Keeps n (done b) f k g = g b k
bind-Keeps n fault f k g = tt
bind-Keeps n hang f k g = k

then-Keeps :
    (n : ℕ) (m : Run Bytes) (f : Bytes → Run Bytes)
    → Keeps n m
    → ((b : Bytes) → length b ≡ n → Keeps n (f b))
    → Keeps n (m >>= f)
then-Keeps n (done b) f k g = g b k
then-Keeps n fault f k g = tt
then-Keeps n hang f k g = k

pair-Keeps :
    (n : ℕ) (m : Run (ℕ × Bytes)) (f : ℕ × Bytes → Run (ℕ × Bytes))
    → Keeps n (written m)
    → ((r : ℕ × Bytes) → length r.1 ≡ n → Keeps n (written (f r)))
    → Keeps n (written (m >>= f))
pair-Keeps n (done r) f k g = g r k
pair-Keeps n fault f k g = tt
pair-Keeps n hang f k g = k

pub store_at : (n : ℕ) (b : Bytes) (k v : ℕ) → length b ≡ n → Keeps n (store b k v)
store_at n b k v e = subst (λ m. Keeps m (store b k v)) e (store-Keeps b k v)

put_float32-Keeps : (w : ℕ) (buf : Bytes) → Keeps (length buf) (put_float32 buf w)
unfolding put_float32
put_float32-Keeps w buf = then-Keeps _ (store buf 0 _) _ (store-Keeps buf 0 _) λ b e.
    then-Keeps _ (store b 1 _) _ (store_at _ b 1 _ e)
      λ c e. then-Keeps _ (store c 2 _) _ (store_at _ c 2 _ e) λ d e. store_at _ d 3 _ e

float_at : (n : ℕ) (b : Bytes) (k w : ℕ) → length b ≡ n → Keeps n (at k (λ p. put_float32 p w) b)
float_at n b k w e =
    subst (λ m. Keeps m (at k (λ p. put_float32 p w) b)) e (at-Keeps _ (put_float32-Keeps w) k b)

header-Keeps :
    (f : MipField) (buf : Bytes) (size : ℕ)
    → Keeps (length buf) (written (serialize_header f buf size))
unfolding serialize_header
header-Keeps f buf size = elim (Bool-cases (leb 2 size)) [
  | inl e ↦ rw e (
      bind-Keeps _ (store buf 0 _) _ (store-Keeps buf 0 _)
        λ b e. bind-Keeps _ (store b 1 _) _ (store_at _ b 1 _ e) λ c e. e)
  | inr e ↦ rw e refl
]

vector-Keeps :
    (l : Layout) (f : VectorField) (buf : Bytes) (size : ℕ)
    → Keeps (length buf) (written (serialize_vector l f buf size))
unfolding serialize_vector
vector-Keeps l f buf size = elim (Bool-cases (leb l.static_size size)) [
  | inl e ↦ rw e (
      pair-Keeps _ (serialize_header f.base buf size) _ (header-Keeps f.base buf size) λ r e.
        bind-Keeps _ (at l.x_offset _ r.1) _ (float_at _ r.1 l.x_offset f.x e) λ b e.
          bind-Keeps _ (at l.y_offset _ b) _ (float_at _ b l.y_offset f.y e)
            λ c e. bind-Keeps _ (at l.z_offset _ c) _ (float_at _ c l.z_offset f.z e) λ d e. e)
  | inr e ↦ rw e refl
]

timestamp-Keeps :
    (f : InternalTimestamp) (buf : Bytes) (size : ℕ)
    → Keeps (length buf) (written (InternalTimestamp.serialize f buf size))
unfolding InternalTimestamp.serialize
timestamp-Keeps f buf size = elim (Bool-cases (leb 6 size)) [
  | inl e ↦ rw e (
      pair-Keeps _ (serialize_header f.base buf size) _ (header-Keeps f.base buf size)
        λ r e. bind-Keeps _ (at 2 _ r.1) _ (float_at _ r.1 2 _ e) λ b e. e)
  | inr e ↦ rw e refl
]

-- So does the virtual call.
pub serialize-Keeps :
    (f : Field) (buf : Bytes) (size : ℕ)
    → Keeps (length buf) (written (DataField.serialize f buf size))
unfolding DataField.serialize EulerAngles.serialize RawAccelerometerVector.serialize
    ScaledAccelerometerVector.serialize ScaledGyroVector.serialize DeltaThetaVector.serialize
    DeltaVelocityVector.serialize
serialize-Keeps (data_field f) buf size = header-Keeps f buf size
serialize-Keeps (raw_accelerometer_vector f) buf size =
    vector-Keeps RawAccelerometerVector.layout f buf size
serialize-Keeps (scaled_accelerometer_vector f) buf size =
    vector-Keeps ScaledAccelerometerVector.layout f buf size
serialize-Keeps (scaled_gyro_vector f) buf size = vector-Keeps ScaledGyroVector.layout f buf size
serialize-Keeps (delta_theta_vector f) buf size = vector-Keeps DeltaThetaVector.layout f buf size
serialize-Keeps (delta_velocity_vector f) buf size =
    vector-Keeps DeltaVelocityVector.layout f buf size
serialize-Keeps (euler_angles f) buf size = vector-Keeps EulerAngles.layout f buf size
serialize-Keeps (internal_timestamp f) buf size = timestamp-Keeps f buf size
