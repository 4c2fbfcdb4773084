-- ===== src/Flood/Packet.antt =====
-- recvHeader and recvPacket of SubFloodSensorMain.cpp: a packet is 'S', the number of data bytes, the
-- bytes per reading, and the data.
-- The serial interface is the list of what its calls say, in order: a byte of recv, a recv without
-- one, or an isGood that is false. A recv of several bytes is as many of one byte each, since only a
-- failed one counts as a retry. `hang` means that the list has no more calls.
use guillemot_core.Prelude.{
  ℕ, zero, suc, ◌+◌, ◌-◌, ◌%◌, List, [], ◌∷◌, ◌&&◌, ltb, ◌==◌, if◌then◌else◌, replicate,
}
use guillemot_core.Prelude.Run.{Run, done, fault, hang, ◌>>=◌}
use guillemot_core.Imu.Buffer.{Bytes, load, store}

pub data Reply : Type 0 where
  got : ℕ → Reply
  failed not_good : Reply

abbrev pub Input : Type 0
Input = List Reply

abbrev pub min_packet_size : ℕ
min_packet_size = 3

abbrev pub max_packet_size : ℕ
max_packet_size = 255 + min_packet_size

abbrev pub packet_size_offset : ℕ
packet_size_offset = 1

abbrev pub packet_bytes_per_reading_offset : ℕ
packet_bytes_per_reading_offset = 2

abbrev pub packet_data_offset : ℕ
packet_data_offset = 3

abbrev pub max_retries : ℕ
max_retries = 100

-- Where a loop of recv stands.
pub record Reading : Type 0 where
  pub size : ℕ
  pub retries : ℕ
  pub buf : Bytes
  pub input : Input

-- The loops of recv, which run while `left` bytes are missing, retries are left, and isGood holds.
unfoldable pub read_until : (left retries size : ℕ) → Bytes → Input → Run Reading
read_until zero retries size buf input =
    done (record { size = size; retries = retries; buf = buf; input = input })
read_until (suc left) zero size buf input =
    done (record { size = size; retries = 0; buf = buf; input = input })
read_until (suc left) (suc retries) size buf [] = hang
read_until (suc left) (suc retries) size buf (not_good ∷ input) =
    done (record { size = size; retries = suc retries; buf = buf; input = input })
read_until (suc left) (suc retries) size buf (failed ∷ input) =
    read_until (suc left) retries size buf input
read_until (suc left) (suc retries) size buf (got b ∷ input) = elim (store buf size b) [
  | done buf' ↦ read_until left (suc retries) (size + 1) buf' input
  | fault ↦ fault
  | hang ↦ hang
]

-- The parameter `size`, which the code tests for being positive, is always the buffer's size.
unfoldable pub recv_header : Bytes → Input → Run Reading
recv_header buf input = do
  r ← read_until 1 max_retries 0 buf input
  first ← load r.buf 0
  if first == b'S'
      then read_until (min_packet_size - r.size) r.retries r.size r.buf r.input
      else done (record r { size = 0 })

-- `newSize % bytesPerReading`, which faults on 0.
abbrev pub remainder : ℕ → ℕ → Run ℕ
remainder n zero = fault
remainder n (suc k) = done (n % suc k)

-- The size that recvPacket returns for what it has read: that of the header where the data is bad.
unfoldable pub verified_size : Reading → (header_size : ℕ) → Run ℕ
verified_size r header_size =
    if ltb min_packet_size r.size && ltb 0 r.retries
    then (do
      new_size ← load r.buf packet_size_offset
      bytes_per_reading ← load r.buf packet_bytes_per_reading_offset
      if r.size == new_size + min_packet_size
          then (do
            odd ← remainder new_size bytes_per_reading
            done (if odd == 0 then r.size else header_size))
          else done header_size)
    else done header_size

-- recvPacket behind its memset.
unfoldable pub recv_into : Bytes → Input → Run (ℕ × Bytes × Input)
recv_into buf input = do
  header ← recv_header buf input
  first ← load header.buf 0
  if first == b'S' && header.size == min_packet_size
      then (do
        new_size ← load header.buf packet_size_offset
        r ← read_until new_size max_retries min_packet_size header.buf header.input
        size ← verified_size r header.size
        done (size, r.buf, r.input))
      else done (0, header.buf, header.input)

unfoldable pub recv_packet : Input → Run (ℕ × Bytes × Input)
recv_packet = recv_into (replicate max_packet_size 0)
