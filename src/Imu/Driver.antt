-- ===== src/Imu/Driver.antt =====
-- SubImuControllerMain.cpp: finding packets in the byte stream, and publishing their fields.
-- `SerialInterface::recv` reads at most one byte, whatever size it is given. The results of its
-- successive calls are a list: `some b` is a call that stored the byte `b` and returned 1, `none` one
-- that returned 0 or -1. The node runs as long as the list lasts (`ros::ok() && m_running`); a loop
-- that is still reading when the list ends is `hang`.
use guillemot_core.Prelude.{
  ℕ, zero, suc, ◌+◌, ◌-◌, ◌%◌, ◌≡◌, List, [], ◌∷◌, ◌++◌, Option, none, some, Bool, ltb, ◌==◌,
  if◌then◌else◌, arith,
}
use guillemot_core.Prelude.Run.{Run, done, fault, hang, ◌>>=◌, or_fault}
use guillemot_core.Imu.Buffer.{Bytes, load, store}
use guillemot_core.Imu.Field.Vector.{VectorField}
use guillemot_core.Imu.Field.DataField.{
  Field, get_field_descriptor, euler_angles_set, scaled_accelerometer_vector_set,
  scaled_gyro_vector_set, data_field, raw_accelerometer_vector, scaled_accelerometer_vector,
  scaled_gyro_vector, delta_theta_vector, delta_velocity_vector, euler_angles, internal_timestamp,
}
use guillemot_core.Imu.FieldList.{Ptr, Heap, descriptor_set_imu_data}
use guillemot_core.Imu.Packet.{
  MipPacket, sync_byte_1_value, sync_byte_2_value, mip_packet_header_size, mip_packet_footer_size,
}
use guillemot_core.Imu.Packet
pub mod Framing
pub mod Publish

abbrev pub Input : Type 0
Input = List (Option ℕ)

-- A loop of `recv(&buf[size], 1)` until `size` reaches `size + left`.
unfoldable pub read_loop : (left size : ℕ) → Bytes → Input → Run (ℕ × Bytes × Input)
read_loop zero size buf input = done (size, buf, input)
read_loop (suc left) size buf [] = hang
read_loop (suc left) size buf (none ∷ input) = read_loop (suc left) size buf input
read_loop (suc left) size buf (some b ∷ input) = elim (store buf size b) [
  | done buf' ↦ read_loop left (size + 1) buf' input
  | fault ↦ fault
  | hang ↦ hang
]

-- Where waitForGoodHeader stands: before the first sync byte, or before the second.
pub data Mode : Type 0 where
  first_sync second_sync : Mode

-- waitForGoodHeader. The result is the size read, 6, with the buffer and the calls that are left.
unfoldable pub wait_for_good_header : Mode → Bytes → Input → Run (ℕ × Bytes × Input)
unfolding read_loop
wait_for_good_header mode buf [] = hang
wait_for_good_header mode buf (none ∷ input) = wait_for_good_header mode buf input
wait_for_good_header first_sync buf (some b ∷ input) = elim (store buf 0 b) [
  | done buf' ↦
      wait_for_good_header (if b == sync_byte_1_value then second_sync else first_sync) buf' input
  | fault ↦ fault
  | hang ↦ hang
]
wait_for_good_header second_sync buf (some b ∷ input) = elim (store buf 1 b) [
  | done buf' ↦
      (let again = wait_for_good_header first_sync buf' input in
        if b == sync_byte_2_value
        then read_loop (mip_packet_header_size + mip_packet_footer_size - 2) 2 buf' input
        else again)
  | fault ↦ fault
  | hang ↦ hang
]

-- One round of main's loop as far as the bytes: the expected size, which is a `UInt8`, and the rest
-- of the packet. The result is the size read and the size expected.
unfoldable pub read_packet : Bytes → Input → Run (ℕ × ℕ × Bytes × Input)
read_packet buf input = do
  (size, buf, input) ← wait_for_good_header first_sync buf input
  len ← load buf 3
  let expected = (mip_packet_header_size + mip_packet_footer_size + len) % 256
  (size, buf, input) ← read_loop (expected - size) size buf input
  done (size, expected, buf, input)

-- What main publishes, a topic each.
pub data Message : Type 0 where
  imu_attitude : (yaw pitch roll : ℕ) → Message
  imu_accel_debug : (x y z : ℕ) → Message
  imu_gyro_debug : (x y z : ℕ) → Message

-- The members that a `static_cast` to one of the vector classes reads. A cast of another object
-- reads past its end.
abbrev cast_vector : Field → Run VectorField
cast_vector (euler_angles f) = done f
cast_vector (scaled_accelerometer_vector f) = done f
cast_vector (scaled_gyro_vector f) = done f
cast_vector (raw_accelerometer_vector f) = done f
cast_vector (delta_theta_vector f) = done f
cast_vector (delta_velocity_vector f) = done f
cast_vector (internal_timestamp f) = fault
cast_vector (data_field f) = fault

-- `x * (180.0 / M_PI)` on a float, which is not computed here.
module _ (degrees : ℕ → ℕ) where
  -- The three branches over the descriptor of a field.
  pub publish_field : Field → Run (List Message)
  publish_field f =
      if get_field_descriptor f == euler_angles_set
      then (do
        v ← cast_vector f
        done (imu_attitude (degrees v.x) (degrees v.y) (degrees v.z) ∷ []))
      else if get_field_descriptor f == scaled_accelerometer_vector_set
      then (do v ← cast_vector f; done (imu_accel_debug v.x v.y v.z ∷ []))
      else if get_field_descriptor f == scaled_gyro_vector_set
      then (do v ← cast_vector f; done (imu_gyro_debug v.x v.y v.z ∷ []))
      else done []

  publish_data : Option Field → Run (List Message)
  publish_data none = fault
  publish_data (some f) = publish_field f

  -- The loop over the nodes of the packet.
  pub publish_loop : (fuel : ℕ) → Ptr → Heap → Run (List Message)
  publish_loop zero it h = hang
  publish_loop (suc fuel) none h = done []
  publish_loop (suc fuel) (some p) h = elim (h.cell p) [
    | none ↦ fault
    | some n ↦ (do ms ← publish_data n.data'; rest ← publish_loop fuel n.next h; done (ms ++ rest))
  ]

  -- A packet of the expected size with the IMU's descriptor set is read and published; its checksum
  -- is computed, and not looked at. `rounds` bounds the loop of the field list.
  pub handle_packet : (rounds : ℕ) → Heap → (size expected : ℕ) → Bytes → Run (List Message)
  handle_packet rounds h size expected buf =
      if size == expected
      then (do
        descriptor ← load buf 2
        if descriptor == descriptor_set_imu_data
            then (do
              (packet, h) ← Packet.deserialize rounds Packet.init h buf size
              publish_loop (h.fresh + 1) packet.field_list.head h)
            else done [])
      else done []
