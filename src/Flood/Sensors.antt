-- ===== src/Flood/Sensors.antt =====
-- The loop of main of SubFloodSensorMain.cpp: what is published of a packet, and of silence.
use guillemot_core.Prelude.{
  ℕ, zero, suc, ◌+◌, ◌-◌, ◌*◌, ◌%◌, ◌^◌, List, [], ◌∷◌, ◌++◌, ltb, ◌==◌, if◌then◌else◌, set, get_or,
  drop,
}
use guillemot_core.Prelude.Run.{Run, done, ◌>>=◌}
use guillemot_core.Imu.Buffer.{Bytes, load, get_uint16}
use guillemot_core.Flood.Packet.{
  Input, recv_packet, packet_size_offset, packet_bytes_per_reading_offset, packet_data_offset,
}

-- A message on /FloodState, but for the enclosure, which is always the same.
pub record FloodMsg : Type 0 where
  pub sensor_number : ℕ
  pub state : ℕ

abbrev pub number_of_sensors : ℕ
number_of_sensors = 2

abbrev pub time_out : ℕ
time_out = 30

abbrev pub trip_current_value : ℕ
trip_current_value = 600

abbrev pub never : ℕ
never = 0xffff_ffff - time_out

-- `clock k` is what getSeconds returns for sensor `k`; the last seen times are a list, a sensor each.
-- The loop over the readings of two bytes, from sensor `k` on.
unfoldable pub readings_loop :
    (left k : ℕ)
    → (clock : ℕ → ℕ) → (packet_size : ℕ) → Bytes
    → List ℕ
    → Run (List ℕ × List FloodMsg)
readings_loop zero k clock packet_size buf seen = done (seen, [])
readings_loop (suc left) k clock packet_size buf seen =
    if ltb (k * 2) packet_size
    then (do
      value ← get_uint16 (drop (packet_data_offset + k * 2) buf)
      (seen, ms) ← readings_loop left (k + 1) clock packet_size buf (set seen k (clock k))
      done (
        seen,
        record { sensor_number = k; state = if ltb trip_current_value value then 1 else 0 } ∷ ms,
      ))
    else done (seen, [])

-- Readings of one or four bytes are only printed.
unfoldable pub publish_readings :
    (clock : ℕ → ℕ) → (size : ℕ) → Bytes → List ℕ → Run (List ℕ × List FloodMsg)
publish_readings clock size buf seen =
    if ltb 0 size
    then (do
      packet_size ← load buf packet_size_offset
      bytes_per_reading ← load buf packet_bytes_per_reading_offset
      if bytes_per_reading == 2
          then readings_loop number_of_sensors 0 clock packet_size buf seen
          else done (seen, []))
    else done (seen, [])

-- The loop over the sensors that have not been seen for too long, from sensor `k` on.
unfoldable pub check_loop : (left k : ℕ) → (clock : ℕ → ℕ) → List ℕ → List ℕ × List FloodMsg
check_loop zero k clock seen = (seen, [])
check_loop (suc left) k clock seen =
    let late = ltb ((get_or seen k 0 + time_out) % 2 ^ 32) (clock k) in
    let (seen', ms) = check_loop left (k + 1) clock (if late then set seen k never else seen) in
    (seen', (if late then record { sensor_number = k; state = 2 } ∷ [] else []) ++ ms)

unfoldable pub check_sensors : (clock : ℕ → ℕ) → List ℕ → List ℕ × List FloodMsg
check_sensors = check_loop number_of_sensors 0

-- One round of main's loop with a port that is good.
unfoldable pub round :
    (clock check_clock : ℕ → ℕ) → Input → List ℕ → Run (List ℕ × List FloodMsg × Input)
round clock check_clock input seen = do
  (size, buf, input) ← recv_packet input
  (seen, ms) ← publish_readings clock size buf seen
  let (seen', late) = check_sensors check_clock seen
  done (seen', ms ++ late, input)
