-- ===== src/Flood/Tests.antt =====
-- The theorems on the flood sensors at concrete inputs.
use guillemot_core.Prelude.{◌≡◌, refl, [], ◌∷◌, ◌++◌, drop, arith}
use guillemot_core.Prelude.Run.{done}
use guillemot_core.Flood.Packet.{Input, got, failed, not_good, recv_packet}
use guillemot_core.Flood.Framing.{
  Delivers, all_read, one_read, one_failed, zeros, recv_packet-Delivers, recv_packet_cut_off,
}

-- The header of a packet of two readings of two bytes, a failed call within it.
abbrev header : Input → Input
header i = got b'S' ∷ failed ∷ got 4 ∷ got 2 ∷ i

header-Delivers : (i : Input) → Delivers (header i) (b'S' ∷ 4 ∷ 2 ∷ []) 1 i
header-Delivers i = one_read (one_failed (one_read (one_read all_read)))

abbrev data_calls : Input
data_calls = failed ∷ got 1 ∷ got 0 ∷ failed ∷ got 3 ∷ got 0 ∷ got b'S' ∷ []

data-Delivers : Delivers data_calls (1 ∷ 0 ∷ 3 ∷ 0 ∷ []) 2 (got b'S' ∷ [])
data-Delivers = one_failed (one_read (one_read (one_failed (one_read (one_read all_read)))))

recv_packet-Delivers_example :
    recv_packet (header data_calls)
    ≡ done (7, b'S' ∷ 4 ∷ 2 ∷ ((1 ∷ 0 ∷ 3 ∷ 0 ∷ []) ++ drop 4 zeros), got b'S' ∷ [])
recv_packet-Delivers_example =
    recv_packet-Delivers (header data_calls) data_calls (got b'S' ∷ []) 1 1 2 (1 ∷ 0 ∷ 3 ∷ 0 ∷ [])
      (header-Delivers data_calls) data-Delivers (omega arith) (omega arith) (omega arith)
      (omega arith) refl

recv_packet_cut_off_example :
    recv_packet (header (not_good ∷ [])) ≡ done (3, b'S' ∷ 4 ∷ 2 ∷ zeros, [])
recv_packet_cut_off_example =
    recv_packet_cut_off (header (not_good ∷ [])) [] 3 2 1 (header-Delivers (not_good ∷ []))
      (omega arith)
