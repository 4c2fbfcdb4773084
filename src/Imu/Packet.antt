-- ===== src/Imu/Packet.antt =====
-- packets/MipPacket.cpp: a packet is a header of four bytes, fields, and a checksum of two bytes.
use guillemot_core.Prelude.{
  ℕ, zero, suc, ◌+◌, ◌-◌, ◌*◌, ◌/◌, ◌%◌, ◌^◌, ◌≡◌, List, [], ◌∷◌, ◌++◌, Bool, Option, none, some,
  ltb, ◌==◌, if◌then◌else◌, drop, arith,
}
use guillemot_core.Prelude.Run.{Run, done, fault, hang, ◌>>=◌, map_run, or_fault}
use guillemot_core.Imu.Buffer.{Bytes, load, store, at, get_uint16}
use guillemot_core.Imu.Field.DataField
use guillemot_core.Imu.Field.DataField.{Field, get_field_length}
use guillemot_core.Imu.FieldList.{Ptr, Heap, MipFieldList}
use guillemot_core.Imu.FieldList
pub mod Checksum
pub mod Receive
pub mod Keeps
pub mod Send

abbrev pub sync_byte_1_value : ℕ
sync_byte_1_value = 0x75

abbrev pub sync_byte_2_value : ℕ
sync_byte_2_value = 0x65

abbrev pub payload_length_offset : ℕ
payload_length_offset = 3

abbrev pub payload_offset : ℕ
payload_offset = 4

abbrev pub mip_packet_header_size : ℕ
mip_packet_header_size = 4

abbrev pub mip_packet_footer_size : ℕ
mip_packet_footer_size = 2

-- `good_checksum` has no value until a packet has been read. The members for the two checksum bytes
-- are never used.
pub record MipPacket : Type 0 where
  pub sync1 : ℕ
  pub sync2 : ℕ
  pub descriptor_set : ℕ
  pub payload_length : ℕ
  pub field_list : MipFieldList
  pub good_checksum : Option Bool

unfoldable pub init : MipPacket
init = record {
  sync1 = sync_byte_1_value;
  sync2 = sync_byte_2_value;
  descriptor_set = 0;
  payload_length = 0;
  field_list = FieldList.init;
  good_checksum = none;
}

-- The loop of calculateChecksum over `left` bytes.
unfoldable pub checksum_loop : (left : ℕ) → Bytes → (byte1 byte2 : ℕ) → Run (ℕ × ℕ)
checksum_loop zero buf byte1 byte2 = done (byte1, byte2)
checksum_loop (suc left) [] byte1 byte2 = fault
checksum_loop (suc left) (x ∷ buf) byte1 byte2 =
    let byte1' = (byte1 + x) % 256 in checksum_loop left buf byte1' ((byte2 + byte1') % 256)

-- `byte1 << 8` and `byte2` have no bit in common.
unfoldable pub calculate_checksum : Bytes → (size : ℕ) → Run ℕ
calculate_checksum buf size = do
  (byte1, byte2) ← checksum_loop size buf 0 0
  done (byte1 * 2 ^ 8 + byte2)

-- What serialize allocates.
abbrev pub allocated : ℕ
allocated = mip_packet_header_size + payload_length_offset + mip_packet_footer_size

-- `size - pos`, narrowed to the `UInt8` parameter.
abbrev pub room : (position : ℕ) → ℕ
room position = (allocated + 255 * position) % 256

-- One field at `pos`: what it writes, and the next `pos`.
unfoldable pub serialize_field : Field → Bytes → (position : ℕ) → Run (ℕ × Bytes)
serialize_field f buf position = do
  buf ← at position (λ p. map_run (λ r. r.1) (DataField.serialize f p (room position))) buf
  done (position + get_field_length f, buf)

abbrev pub serialize_data : Option Field → Bytes → (position : ℕ) → Run (ℕ × Bytes)
serialize_data none buf position = done (position, buf)
serialize_data (some f) buf position = serialize_field f buf position

-- The loop over the nodes of the list.
unfoldable pub serialize_loop : (fuel : ℕ) → Ptr → Heap → Bytes → (position : ℕ) → Run (ℕ × Bytes)
serialize_loop zero it h buf position = hang
serialize_loop (suc fuel) none h buf position = done (position, buf)
serialize_loop (suc fuel) (some p) h buf position = elim (h.cell p) [
  | none ↦ fault
  | some n ↦ serialize_data n.data' buf position >>= λ r. serialize_loop fuel n.next h r.1 r.0
]

-- `buf` is what `new UInt8[size]` returns, whose bytes are arbitrary. The result is the length and
-- the buffer. The last mask is `0xf`, as the code has it.
unfoldable pub serialize : MipPacket → Heap → Bytes → Run (ℕ × Bytes)
serialize p h buf = do
  buf ← store buf 0 sync_byte_1_value
  buf ← store buf 1 sync_byte_2_value
  buf ← store buf 2 p.descriptor_set
  buf ← store buf 3 p.payload_length
  (position, buf) ← serialize_loop (h.fresh + 1) p.field_list.head h buf payload_offset
  checksum ← calculate_checksum buf position
  buf ← store buf position (checksum / 2 ^ 8)
  buf ← store buf (position + 1) (checksum % 16)
  done (position + 2, buf)

-- A `size` below 2 makes the index of the checksum negative. Otherwise `size - 6` is the payload, and
-- a negative one runs no round of the list's loop, as 0 does.
unfoldable pub deserialize :
    (fuel : ℕ) → MipPacket → Heap → Bytes → (size : ℕ) → Run (MipPacket × Heap)
deserialize fuel p h buf size = do
  sync1 ← load buf 0
  sync2 ← load buf 1
  descriptor_set ← load buf 2
  payload_length ← load buf 3
  (fields, h) ←
      FieldList.deserialize fuel descriptor_set (drop payload_offset buf)
        (size - mip_packet_header_size - mip_packet_footer_size) (p.field_list, h)
  if ltb size 2 then fault else (do
    checksum ← calculate_checksum buf (size - mip_packet_footer_size)
    test_checksum ← get_uint16 (drop (size - mip_packet_footer_size) buf)
    done (
      record {
        sync1 = sync1;
        sync2 = sync2;
        descriptor_set = descriptor_set;
        payload_length = payload_length;
        field_list = fields;
        good_checksum = some (checksum == test_checksum);
      },
      h,
    ))
