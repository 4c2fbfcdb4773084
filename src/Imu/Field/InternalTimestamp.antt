-- ===== src/Imu/Field/InternalTimestamp.antt =====
-- packets/fields/DataFields/InternalTimestamp.cpp. The writer converts the number to a float, and
-- the reader reads a number.
use guillemot_core.Prelude.{ℕ, ◌+◌, ◌*◌, ◌%◌, ◌^◌, ◌&&◌, leb, ◌==◌, if◌then◌else◌, drop}
use guillemot_core.Prelude.Run.{Run, done, ◌>>=◌}
use guillemot_core.Imu.Buffer.{Bytes, at, put_float32, get_uint32}
use guillemot_core.Imu.Float32.{float32_of_uint32}
use guillemot_core.Imu.Field.{
  MipField, new_field, min_mip_field_header_size, serialize_header, deserialize_header,
}

abbrev pub timestamp_offset : ℕ
timestamp_offset = min_mip_field_header_size

abbrev pub static_size : ℕ
static_size = timestamp_offset + 4

pub record InternalTimestamp : Type 0 where
  pub base : MipField
  pub open base use *
  pub timestamp : ℕ

pub init : InternalTimestamp
unfolding new_field
init = record { base = new_field; timestamp = 0 }

unfoldable pub serialize : InternalTimestamp → Bytes → ℕ → Run (ℕ × Bytes)
serialize f buf size =
    if leb static_size size
    then (do
      (_, buf) ← serialize_header f.base buf size
      buf ← at timestamp_offset (λ p. put_float32 p (float32_of_uint32 f.timestamp)) buf
      done (f.field_length, buf))
    else done (0, buf)

unfoldable pub deserialize : InternalTimestamp → Bytes → ℕ → Run (ℕ × InternalTimestamp)
deserialize f buf size =
    if leb min_mip_field_header_size size
    then (do
      (_, base) ← deserialize_header f.base buf size
      let f' = record f { base = base }
      if leb base.field_length size && base.field_length == static_size
          then (do
            t ← get_uint32 (drop timestamp_offset buf)
            done (base.field_length, record f' { timestamp = t }))
          else done (0, f'))
    else done (0, f)

unfoldable pub get_timestamp_as_micro_seconds : InternalTimestamp → ℕ
get_timestamp_as_micro_seconds f = f.timestamp * 16 % 2 ^ 32
