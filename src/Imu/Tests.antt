-- ===== src/Imu/Tests.antt =====
-- The theorems on the IMU driver at concrete inputs.
use guillemot_core.Prelude.{
  ◌≡◌, refl, inr, List, [], ◌∷◌, ◌++◌, none, some, arith, ◌==◌, if◌then◌else◌, true, replicate,
}
use guillemot_core.Prelude.Run.{done, hang, ◌>>=◌}
use guillemot_core.Imu.Buffer.{Bytes, put_uint32, get_uint32}
use guillemot_core.Imu.Buffer.RoundTrip.{put-get-twice_uint32}
use guillemot_core.Imu.Field.{MipField}
use guillemot_core.Imu.Field.Vector.{VectorField}
use guillemot_core.Imu.Field.DataField.{
  Field, data_field, euler_angles, scaled_gyro_vector, deserialize_to_field,
}
use guillemot_core.Imu.Field.Laws.{wire_vector}
use guillemot_core.Imu.Field.Wire.{Sends, deserialize_to_field-Sends}
use guillemot_core.Imu.FieldList.{
  Heap, MipFieldList, add, remove, get_at_pos, clear, descriptor_set_imu_data,
}
use guillemot_core.Imu.FieldList
use guillemot_core.Imu.FieldList.Contents.{IsList, node, add-IsList}
use guillemot_core.Imu.FieldList.Receive.{AllSend, payload, deserialize-payload}
use guillemot_core.Imu.FieldList.Hang.{deserialize_bad_length}
use guillemot_core.Imu.Packet.{MipPacket, serialize}
use guillemot_core.Imu.Packet
use guillemot_core.Imu.Packet.Receive.{wire_packet, deserialize-wire_packet}
use guillemot_core.Imu.Driver.{Input, read_packet, handle_packet, imu_attitude}
use guillemot_core.Imu.Driver.Framing.{IsPacket, read_packet-frame}
use guillemot_core.Imu.Driver.Publish.{handle_packet-wire}

put-get-twice_uint32_example :
    (put_uint32 (0 ∷ 0 ∷ 0 ∷ 0 ∷ []) 66051
      >>= get_uint32
      >>= put_uint32 (0 ∷ 0 ∷ 0 ∷ 0 ∷ [])
      >>= get_uint32)
    ≡ done 66051
put-get-twice_uint32_example = put-get-twice_uint32 0 0 0 0 [] 66051 (omega arith)

abbrev angles : VectorField
angles = record {
  base = record { field_length = 14; field_descriptor = 0xc };
  x = 0x3f800000;
  y = 0x40000000;
  z = 0;
}

abbrev angles_bytes : Bytes
angles_bytes = wire_vector angles []

angles-Sends : Sends (euler_angles angles) angles_bytes
angles-Sends = (
  record {
    described = refl;
    length_eq = refl;
    words = record { x_lt = omega arith; y_lt = omega arith; z_lt = omega arith };
  },
  refl,
)

abbrev other : MipField
other = record { field_length = 3; field_descriptor = 0x12 }

other-Sends : Sends (data_field other) (3 ∷ 0x12 ∷ 7 ∷ [])
other-Sends = (
  record {
    no_accelerometer = omega arith;
    no_gyro = omega arith;
    no_velocity = omega arith;
    no_angles = omega arith;
  },
  (7 ∷ [], refl, refl),
)

deserialize_to_field-Sends_example :
    deserialize_to_field (angles_bytes ++ 9 ∷ []) 20 ≡ done (14, some (euler_angles angles))
deserialize_to_field-Sends_example =
    deserialize_to_field-Sends (euler_angles angles) angles_bytes (9 ∷ []) 20 angles-Sends
      (omega arith)

-- A list of two fields, at the addresses 0 and 1.
abbrev two_heap : Heap
two_heap = record {
  cell = λ a.
      if a == 0
      then some (node (euler_angles angles) (some 1))
      else if a == 1
      then some (node (data_field other) none)
      else none;
  fresh = 2;
}

abbrev two : MipFieldList
two = record { head = some 0; tail = some 1; count = 2 }

abbrev two_fields : List Field
two_fields = euler_angles angles ∷ data_field other ∷ []

abbrev two-IsList : IsList two two_heap two_fields
two-IsList = record {
  nodes = 0 ∷ 1 ∷ [];
  head_eq = refl;
  tail_eq = refl;
  count_eq = refl;
  linked = (refl, (refl, tt));
  rising = (omega arith, omega arith, (omega arith, omega arith, tt));
}

add-IsList_example :
    (l' : MipFieldList) × (h' : Heap) × (add two (scaled_gyro_vector angles) two_heap
      ≡ done (l', h'))
    × IsList l' h' (two_fields ++ scaled_gyro_vector angles ∷ [])
add-IsList_example = add-IsList two two_heap two_fields (scaled_gyro_vector angles) two-IsList

abbrev sent : List (Field × Bytes)
sent = (euler_angles angles, angles_bytes) ∷ (data_field other, 3 ∷ 0x12 ∷ 7 ∷ []) ∷ []

sent-AllSend : AllSend sent
sent-AllSend = (angles-Sends, (other-Sends, tt))

abbrev empty_heap : Heap
empty_heap = record { cell = λ a. none; fresh = 0 }

deserialize-payload_example :
    (l' : MipFieldList) × (h' : Heap) × (FieldList.deserialize 20 descriptor_set_imu_data
        (payload sent ++ 1 ∷ 2 ∷ [])
        17
        (FieldList.init, empty_heap)
      ≡ done (l', h'))
    × IsList l' h' two_fields
deserialize-payload_example =
    deserialize-payload sent (1 ∷ 2 ∷ []) empty_heap 20 sent-AllSend (omega arith) (omega arith)

deserialize_bad_length_example :
    FieldList.deserialize 1000 descriptor_set_imu_data
      (13 ∷ 0xc ∷ replicate 11 0)
      13
      (FieldList.init, empty_heap)
    ≡ hang
deserialize_bad_length_example =
    deserialize_bad_length 1000 13 0xc (replicate 11 0) 13 empty_heap (omega arith)
      (inr (inr (inr refl))) (omega arith)

deserialize-wire_packet_example :
    (p : MipPacket) × (h' : Heap) × (Packet.deserialize 20 Packet.init empty_heap
        (wire_packet sent [])
        23
      ≡ done (p, h'))
    × IsList p.field_list h' two_fields
    × (p.good_checksum ≡ some true)
    × (p.sync1 ≡ 0x75)
    × (p.sync2 ≡ 0x65)
    × (p.descriptor_set ≡ descriptor_set_imu_data)
    × (p.payload_length ≡ 17)
deserialize-wire_packet_example =
    deserialize-wire_packet sent [] empty_heap 20 sent-AllSend (omega arith) (omega arith)

-- Noise, failed calls of recv, a packet with no payload, and the start of the next one.
abbrev input : Input
input =
    some 0x65
    ∷ none
    ∷ some 0x75
    ∷ some 0x65
    ∷ none
    ∷ some 0x80
    ∷ some 0
    ∷ some 0x5a
    ∷ some 0x37
    ∷ some 0x75
    ∷ []

read_packet-frame_example :
    IsPacket
      (read_packet (replicate 8 0) input)
      6
      6
      (0x75 ∷ 0x65 ∷ 0x80 ∷ 0 ∷ 0x5a ∷ 0x37 ∷ 0 ∷ 0 ∷ [])
      (0x75 ∷ [])
read_packet-frame_example =
    read_packet-frame input (0x65 ∷ []) 0x80 0 (0x5a ∷ 0x37 ∷ []) (replicate 8 0) (0x75 ∷ [])
      (omega arith, tt) refl refl (omega arith) (omega arith)

handle_packet-wire_example :
    handle_packet (λ x. x) 20 empty_heap 23 23 (wire_packet sent [])
    ≡ done (imu_attitude 0x3f800000 0x40000000 0 ∷ [])
handle_packet-wire_example =
    handle_packet-wire (λ x. x) sent [] empty_heap 20 sent-AllSend (omega arith) (omega arith)
