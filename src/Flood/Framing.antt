-- ===== src/Flood/Framing.antt =====
-- What recvPacket of SubFloodSensorMain.cpp makes of the bytes that arrive.
use guillemot_core.Prelude.{
  ℕ, zero, suc, ◌+◌, ◌-◌, ◌%◌, ◌≤◌, ◌<◌, ◌≡◌, refl, ap, sym, ◌∙◌, [], ◌∷◌, ◌++◌, length,
  length-append, drop, replicate, arith,
}
use mathlib.Core.List.{append_assoc}
use guillemot_core.Prelude.Run.{Run, done, fault, ◌>>=◌}
use guillemot_core.Imu.Buffer.{Bytes}
use guillemot_core.Imu.Driver.Framing.{store-append}
use guillemot_core.Flood.Packet.{
  got, failed, not_good, Input, Reading, read_until, recv_header, verified_size, recv_packet,
  recv_into, max_retries, min_packet_size,
}

-- The calls deliver the bytes, with `k` failed ones between them, and leave the calls `j`.
pub data Delivers : Input → Bytes → ℕ → Input → Type 0 where
  all_read : {i : Input} → Delivers i [] 0 i
  one_read :
      {i j : Input} {b k : ℕ} {xs : Bytes} → Delivers i xs k j → Delivers (got b ∷ i) (b ∷ xs) k j
  one_failed :
      {i j : Input} {x k : ℕ} {xs : Bytes}
      → Delivers i (x ∷ xs) k j
      → Delivers (failed ∷ i) (x ∷ xs) (suc k) j

abbrev reading : (size retries : ℕ) → Bytes → Input → Run Reading
reading size retries buf input =
    done (record { size = size; retries = retries; buf = buf; input = input })

reading-eq :
    {s s' r r' : ℕ} {b b' : Bytes} {i : Input}
    → s ≡ s'
    → r ≡ r'
    → b ≡ b'
    → reading s r b i ≡ reading s' r' b' i
reading-eq {i = i} es er eb = λ m. reading (es m) (er m) (eb m) i

read_until-step :
    (n retries size : ℕ) (pre old : Bytes) (y x : ℕ) (i : Input)
    → size ≡ length pre
    → read_until (suc n) (suc retries) size (pre ++ y ∷ old) (got x ∷ i)
      ≡ read_until n (suc retries) (size + 1) ((pre ++ x ∷ []) ++ old) i
unfolding read_until
read_until-step n retries size pre old y x i e =
    rw (store-append pre y x size old e, read_until)
      (ap (λ b. read_until n (suc retries) (size + 1) b i) (sym (append_assoc pre (x ∷ []) old)))

-- The loop reads the bytes if fewer calls fail than it may retry.
pub read_until-Delivers :
    {i j : Input} (xs pre old : Bytes) (k retries size : ℕ)
    → Delivers i xs k j
    → k < retries
    → size ≡ length pre
    → length xs ≤ length old
    → read_until (length xs) retries size (pre ++ old) i
      ≡ reading (size + length xs) (retries - k) (pre ++ (xs ++ drop (length xs) old)) j
unfolding read_until
read_until-Delivers [] pre old k retries size all_read lt e fits =
    reading-eq (omega arith) (omega arith) refl
read_until-Delivers (x ∷ xs) pre (y ∷ old) k (suc retries) size (one_read {i = i} d) lt e fits =
    let len = length-append pre (x ∷ []) in
    read_until-step (length xs) retries size pre old y x i e
    ∙ read_until-Delivers xs (pre ++ x ∷ []) old k (suc retries) (size + 1) d lt (omega arith)
        (omega arith)
    ∙ reading-eq (omega arith) refl (append_assoc pre (x ∷ []) (xs ++ drop (length xs) old))
read_until-Delivers (x ∷ xs) pre old (suc k) (suc retries) size (one_failed d) lt e fits =
    read_until-Delivers (x ∷ xs) pre old k retries size d (omega arith) e fits
    ∙ reading-eq refl (omega arith) refl
read_until-Delivers (x ∷ xs) pre [] k retries size (one_read d) lt e fits = absurd (omega arith)
read_until-Delivers xs pre old k zero size d lt e fits = absurd (omega arith)

split-Delivers :
    {i j : Input} (x : ℕ) (xs : Bytes) (k : ℕ)
    → Delivers i (x ∷ xs) k j
    → (mid : Input) × (k1 : ℕ) × (k2 : ℕ) × Delivers i (x ∷ []) k1 mid
      × Delivers mid xs k2 j
      × (k1 + k2 ≡ k)
split-Delivers x xs k (one_read {i = i} d) = (i, 0, k, one_read all_read, d, omega arith)
split-Delivers x xs (suc k) (one_failed d) =
    let (mid, k1, k2, d1, d2, e) = split-Delivers x xs k d in
    (mid, suc k1, k2, one_failed d1, d2, omega arith)

recv_header-Delivers :
    {i j : Input} (b0 b1 b2 n per k : ℕ) (old : Bytes)
    → Delivers i (b'S' ∷ n ∷ per ∷ []) k j
    → k < max_retries
    → recv_header (b0 ∷ b1 ∷ b2 ∷ old) i ≡ reading 3 (max_retries - k) (b'S' ∷ n ∷ per ∷ old) j
unfolding recv_header
recv_header-Delivers b0 b1 b2 n per k old d lt =
    let (mid, k1, k2, d1, d2, e) = split-Delivers b'S' (n ∷ per ∷ []) k d in
    rw
      (
        read_until-Delivers (b'S' ∷ []) [] (b0 ∷ b1 ∷ b2 ∷ old) k1 max_retries 0 d1 (omega arith)
            refl (omega arith),
        read_until-Delivers (n ∷ per ∷ []) (b'S' ∷ []) (b1 ∷ b2 ∷ old) k2 (max_retries - k1) 1 d2
            (omega arith) refl (omega arith),
      )
      (reading-eq refl (omega arith) refl)

recv_into-Delivers :
    {i mid j : Input} (b0 b1 b2 per k1 k2 : ℕ) (xs old : Bytes)
    → Delivers i (b'S' ∷ length xs ∷ per ∷ []) k1 mid
    → Delivers mid xs k2 j
    → k1 < max_retries
    → k2 < max_retries
    → length xs ≤ length old
    → let buf = b'S' ∷ length xs ∷ per ∷ (xs ++ drop (length xs) old) in
      recv_into (b0 ∷ b1 ∷ b2 ∷ old) i ≡ (
        verified_size
          (record { size = 3 + length xs; retries = max_retries - k2; buf = buf; input = j })
          3
        >>= λ size. done (size, buf, j))
unfolding recv_into
recv_into-Delivers {mid = mid} {j = j} b0 b1 b2 per k1 k2 xs old d1 d2 lt1 lt2 fits =
    let header = recv_header-Delivers b0 b1 b2 (length xs) per k1 old d1 lt1 in
    let body : read_until (length xs) max_retries min_packet_size (b'S' ∷ length xs ∷ per ∷ old) mid
        ≡ reading (3 + length xs) (max_retries - k2)
            (b'S' ∷ length xs ∷ per ∷ (xs ++ drop (length xs) old)) j =
      read_until-Delivers xs (b'S' ∷ length xs ∷ per ∷ []) old k2 max_retries 3 d2 lt2 refl fits in
    rw (header, body)

verified_size-whole :
    (n per retries : ℕ) (rest : Bytes) (input : Input)
    → 0 < n
    → 0 < retries
    → n % suc per ≡ 0
    → verified_size
        (record { size = 3 + n; retries = retries; buf = b'S' ∷ n ∷ suc per ∷ rest; input = input })
        3
      ≡ done (n + 3)
unfolding verified_size
verified_size-whole n per retries rest input some' left whole = ground arith

abbrev pub zeros : Bytes
zeros = replicate 255 0

-- A packet of at least one and fewer than 256 data bytes, a number of whole readings, is received, if
-- fewer than a hundred calls fail in its header and fewer than a hundred in its data: the size is that
-- of the packet, the buffer holds it with zeros behind it, and what follows it is left.
pub recv_packet-Delivers :
    (i mid j : Input) (per k1 k2 : ℕ) (xs : Bytes)
    → Delivers i (b'S' ∷ length xs ∷ suc per ∷ []) k1 mid
    → Delivers mid xs k2 j
    → k1 < max_retries
    → k2 < max_retries
    → 0 < length xs
    → length xs < 256
    → length xs % suc per ≡ 0
    → recv_packet i
      ≡ done (length xs + 3, b'S' ∷ length xs ∷ suc per ∷ (xs ++ drop (length xs) zeros), j)
unfolding recv_packet
recv_packet-Delivers i mid j per k1 k2 xs d1 d2 lt1 lt2 some' short whole =
    let fits : length xs ≤ length zeros = omega arith in
    let buf = b'S' ∷ length xs ∷ suc per ∷ (xs ++ drop (length xs) zeros) in
    let size =
      verified_size-whole (length xs) per (max_retries - k2) (xs ++ drop (length xs) zeros) j some'
        (omega arith) whole in
    recv_into-Delivers 0 0 0 (suc per) k1 k2 xs zeros d1 d2 lt1 lt2 fits
    ∙ ap (λ m. m >>= λ size. done (size, buf, j)) size

verified_size_divides :
    (n retries : ℕ) (rest : Bytes) (input : Input)
    → 0 < n
    → 0 < retries
    → verified_size
        (record { size = 3 + n; retries = retries; buf = b'S' ∷ n ∷ 0 ∷ rest; input = input })
        3
      ≡ fault
unfolding verified_size
verified_size_divides n retries rest input some' left = ground arith

-- A packet with data bytes that says 0 bytes per reading makes recvPacket divide by zero, once its
-- bytes have arrived.
pub recv_packet_divides :
    (i mid j : Input) (k1 k2 : ℕ) (xs : Bytes)
    → Delivers i (b'S' ∷ length xs ∷ 0 ∷ []) k1 mid
    → Delivers mid xs k2 j
    → k1 < max_retries
    → k2 < max_retries
    → 0 < length xs
    → length xs < 256
    → recv_packet i ≡ fault
unfolding recv_packet
recv_packet_divides i mid j k1 k2 xs d1 d2 lt1 lt2 some' short =
    let fits : length xs ≤ length zeros = omega arith in
    let divides =
      verified_size_divides (length xs) (max_retries - k2) (xs ++ drop (length xs) zeros) j some'
        (omega arith) in
    let buf = b'S' ∷ length xs ∷ 0 ∷ (xs ++ drop (length xs) zeros) in
    recv_into-Delivers 0 0 0 0 k1 k2 xs zeros d1 d2 lt1 lt2 fits
    ∙ ap (λ m. m >>= λ size. done (size, buf, j)) divides

-- A packet of which the header arrives and the data does not, because the port goes bad, counts as a
-- packet of three bytes, with zeros for data.
pub recv_packet_cut_off :
    (i j : Input) (n per k : ℕ)
    → Delivers i (b'S' ∷ suc n ∷ per ∷ []) k (not_good ∷ j)
    → k < max_retries
    → recv_packet i ≡ done (3, b'S' ∷ suc n ∷ per ∷ zeros, j)
unfolding recv_packet recv_into verified_size read_until
recv_packet_cut_off i j n per k d lt = rw (recv_header-Delivers 0 0 0 (suc n) per k zeros d lt)
