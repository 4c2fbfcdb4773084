-- ===== src/Imu/Driver/Publish.antt =====
-- What the driver publishes of a packet.
use guillemot_core.Prelude.{
  ℕ, zero, suc, ◌+◌, ◌≡◌, ◌<◌, refl, List, [], ◌∷◌, ◌++◌, true, ◌==◌, arith, length,
}
use guillemot_core.Prelude.Run.{done}
use guillemot_core.Imu.Buffer.{Bytes}
use guillemot_core.Imu.Field.Wire.{Sends}
use guillemot_core.Imu.Field.DataField.{
  Field, get_field_descriptor, data_field, scaled_accelerometer_vector, scaled_gyro_vector,
  delta_velocity_vector, euler_angles,
}
use guillemot_core.Imu.FieldList.{Heap}
use guillemot_core.Imu.FieldList.Contents.{Linked, first}
use guillemot_core.Imu.FieldList.Operations.{Rising-length}
use guillemot_core.Imu.FieldList.Receive.{AllSend, payload, fields}
use guillemot_core.Imu.Packet.Receive.{wire_packet, deserialize-wire_packet}
use guillemot_core.Imu.Driver.{
  Message, imu_attitude, imu_accel_debug, imu_gyro_debug, publish_field, publish_data, publish_loop,
  handle_packet,
}

module _ (degrees : ℕ → ℕ) where
  -- What each kind of field is to be published as.
  abbrev pub messages_of : Field → List Message
  messages_of (euler_angles f) = imu_attitude (degrees f.x) (degrees f.y) (degrees f.z) ∷ []
  messages_of (scaled_accelerometer_vector f) = imu_accel_debug f.x f.y f.z ∷ []
  messages_of (scaled_gyro_vector f) = imu_gyro_debug f.x f.y f.z ∷ []
  messages_of _ = []

  abbrev pub all_messages : List Field → List Message
  all_messages [] = []
  all_messages (f ∷ fs) = messages_of f ++ all_messages fs

  publish_field_lem :
      (f : Field) (b : Bytes) → Sends f b → publish_field degrees f ≡ done (messages_of f)
  unfolding publish_field get_field_descriptor
  publish_field_lem (euler_angles f) b s = ground arith
  publish_field_lem (scaled_accelerometer_vector f) b s = ground arith
  publish_field_lem (scaled_gyro_vector f) b s = ground arith
  publish_field_lem (delta_velocity_vector f) b s = ground arith
  publish_field_lem (data_field f) b s = ground arith
  publish_field_lem _ b s = absurd s

  publish_loop_lem :
      (h : Heap) (ns : List ℕ) (ms : List (Field × Bytes)) (fuel : ℕ)
      → AllSend ms
      → Linked h ns (fields ms)
      → length ns < fuel
      → publish_loop degrees fuel (first ns) h ≡ done (all_messages (fields ms))
  unfolding publish_loop publish_data
  publish_loop_lem h [] [] (suc fuel) s l b = refl
  publish_loop_lem h (a ∷ ns) ((f, c) ∷ ms) (suc fuel) (s, ss) (l0, l) b =
      rw (l0, publish_field_lem f c s, publish_loop_lem h ns ms fuel ss l (omega arith))
  publish_loop_lem h [] (m ∷ ms) fuel s l b = absurd l
  publish_loop_lem h (a ∷ ns) [] fuel s l b = absurd l
  publish_loop_lem h ns ms zero s l b = absurd (omega arith)

  -- Of a received packet of well-formed IMU fields exactly the angles, the scaled accelerations and
  -- the scaled rates are published, in the order in which they were sent, each on its own topic and
  -- with its own three numbers.
  pub handle_packet-wire :
      (ms : List (Field × Bytes)) (rest : Bytes) (h : Heap) (rounds : ℕ)
      → AllSend ms
      → length (payload ms) < 256
      → length (payload ms) < rounds
      → let size = length (payload ms) + 6 in
        handle_packet degrees rounds h size size (wire_packet ms rest)
        ≡ done (all_messages (fields ms))
  unfolding handle_packet
  handle_packet-wire ms rest h rounds s lt enough =
      let (p, h', e, v, _, _, _, _, _) = deserialize-wire_packet ms rest h rounds s lt enough in
      let short = Rising-length 0 v.nodes h'.fresh v.rising in
      let loop = publish_loop_lem h' v.nodes ms (h'.fresh + 1) s v.linked (omega arith) in
      let sized : (length (payload ms) + 6 == length (payload ms) + 6) ≡ true = ground arith in
      rw (sized, e, v.head_eq, loop)
