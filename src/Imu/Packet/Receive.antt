-- ===== src/Imu/Packet/Receive.antt =====
-- MipPacket::deserialize on a packet as the device sends it.
use guillemot_core.Prelude.{
  ℕ, ◌+◌, ◌-◌, ◌/◌, ◌%◌, ◌≡◌, ◌<◌, refl, List, ◌∷◌, ◌++◌, arith, length, some, true,
}
use guillemot_core.Prelude.Run.{done}
use guillemot_core.Imu.Buffer.{Bytes, get_uint16}
use guillemot_core.Imu.Field.DataField.{Field}
use guillemot_core.Imu.FieldList.{Heap, descriptor_set_imu_data}
use guillemot_core.Imu.FieldList.Contents.{IsList}
use guillemot_core.Imu.FieldList.Receive.{
  AllSend, payload, fields, deserialize-payload, drop-append,
}
use guillemot_core.Imu.Packet.{MipPacket, init, deserialize, sync_byte_1_value, sync_byte_2_value}
use guillemot_core.Imu.Packet.Checksum.{fletcher, calculate_checksum_lem}

-- The packet without its checksum.
abbrev pub body : List (Field × Bytes) → Bytes
body ms =
    sync_byte_1_value
    ∷ sync_byte_2_value
    ∷ descriptor_set_imu_data
    ∷ length (payload ms)
    ∷ payload ms

-- With its checksum, in front of whatever the buffer holds behind it.
abbrev pub wire_packet : List (Field × Bytes) → Bytes → Bytes
wire_packet ms rest = body ms ++ fletcher (body ms) / 256 ∷ fletcher (body ms) % 256 ∷ rest

uint16_of : (n : ℕ) (rest : Bytes) → get_uint16 (n / 256 ∷ n % 256 ∷ rest) ≡ done n
unfolding get_uint16
uint16_of n rest = ground arith

-- A packet of well-formed IMU fields with its checksum, read into a new packet object: the object
-- holds the objects that the fields stand for, in order, the four header bytes, and a good checksum.
pub deserialize-wire_packet :
    (ms : List (Field × Bytes)) (rest : Bytes) (h : Heap) (fuel : ℕ)
    → AllSend ms
    → length (payload ms) < 256
    → length (payload ms) < fuel
    → (p : MipPacket) × (h' : Heap) × (deserialize fuel init h
          (wire_packet ms rest)
          (length (payload ms) + 6)
        ≡ done (p, h'))
      × IsList p.field_list h' (fields ms)
      × (p.good_checksum ≡ some true)
      × (p.sync1 ≡ sync_byte_1_value)
      × (p.sync2 ≡ sync_byte_2_value)
      × (p.descriptor_set ≡ descriptor_set_imu_data)
      × (p.payload_length ≡ length (payload ms))
unfolding deserialize init
deserialize-wire_packet ms rest h fuel s lt enough =
    let tail : Bytes = fletcher (body ms) / 256 ∷ fletcher (body ms) % 256 ∷ rest in
    let (l, h', e, v) = deserialize-payload ms tail h fuel s lt enough in
    let inner : length (payload ms) + 6 - 4 - 2 ≡ length (payload ms) = omega arith in
    let front : length (payload ms) + 6 - 2 ≡ length (body ms) = omega arith in
    (
      record {
        sync1 = sync_byte_1_value;
        sync2 = sync_byte_2_value;
        descriptor_set = descriptor_set_imu_data;
        payload_length = length (payload ms);
        field_list = l;
        good_checksum = some true;
      },
      h',
      rw
          (
            inner,
            e,
            front,
            calculate_checksum_lem (body ms) tail,
            drop-append (body ms) tail,
            uint16_of (fletcher (body ms)) rest,
          )
          (ground arith),
      v,
      refl,
      refl,
      refl,
      refl,
      refl,
    )
