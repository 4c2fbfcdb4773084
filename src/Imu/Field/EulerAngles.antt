-- ===== src/Imu/Field/EulerAngles.antt =====
-- packets/fields/DataFields/EulerAngles.cpp. `x`, `y`, `z` are yaw, pitch, roll.
use guillemot_core.Prelude.{ℕ, ◌+◌}
use guillemot_core.Prelude.Run.{Run}
use guillemot_core.Imu.Buffer.{Bytes}
use guillemot_core.Imu.Field.{min_mip_field_header_size, sizeof_float32}
use guillemot_core.Imu.Field.Vector.{
  VectorField, Layout, new_vector, serialize_vector, deserialize_vector,
}

abbrev yaw_offset : ℕ
yaw_offset = min_mip_field_header_size

abbrev pitch_offset : ℕ
pitch_offset = yaw_offset + sizeof_float32

abbrev roll_offset : ℕ
roll_offset = pitch_offset + sizeof_float32

abbrev static_size : ℕ
static_size = roll_offset + sizeof_float32

abbrev pub layout : Layout
layout = record {
  x_offset = yaw_offset;
  y_offset = pitch_offset;
  z_offset = roll_offset;
  static_size = static_size;
}

unfoldable pub init : VectorField
init = new_vector

unfoldable pub serialize : VectorField → Bytes → ℕ → Run (ℕ × Bytes)
serialize = serialize_vector layout

unfoldable pub deserialize : VectorField → Bytes → ℕ → Run (ℕ × VectorField)
deserialize = deserialize_vector layout
