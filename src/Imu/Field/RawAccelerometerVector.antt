-- ===== src/Imu/Field/RawAccelerometerVector.antt =====
-- packets/fields/DataFields/RawAccelerometerVector.cpp.
use guillemot_core.Prelude.{ℕ, ◌+◌}
use guillemot_core.Prelude.Run.{Run}
use guillemot_core.Imu.Buffer.{Bytes}
use guillemot_core.Imu.Field.{min_mip_field_header_size, sizeof_float32}
use guillemot_core.Imu.Field.Vector.{
  VectorField, Layout, new_vector, serialize_vector, deserialize_vector,
}

abbrev x_offset : ℕ
x_offset = min_mip_field_header_size

abbrev y_offset : ℕ
y_offset = x_offset + sizeof_float32

abbrev z_offset : ℕ
z_offset = y_offset + sizeof_float32

abbrev static_size : ℕ
static_size = z_offset + sizeof_float32

abbrev pub layout : Layout
layout = record {
  x_offset = x_offset;
  y_offset = y_offset;
  z_offset = z_offset;
  static_size = static_size;
}

unfoldable pub init : VectorField
init = new_vector

unfoldable pub serialize : VectorField → Bytes → ℕ → Run (ℕ × Bytes)
serialize = serialize_vector layout

unfoldable pub deserialize : VectorField → Bytes → ℕ → Run (ℕ × VectorField)
deserialize = deserialize_vector layout
