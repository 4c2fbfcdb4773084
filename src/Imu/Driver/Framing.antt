-- ===== src/Imu/Driver/Framing.antt =====
-- The driver finds the packets in the byte stream.
use guillemot_core.Prelude.{
  ℕ, zero, suc, ◌+◌, ◌-◌, ◌%◌, ◌≡◌, ◌≢◌, ◌<◌, ◌≤◌, refl, [], ◌∷◌, ◌++◌, none, some, false, ◌==◌,
  arith, length, length-append, length-drop, drop,
}
use mathlib.Core.List.{append_assoc}
use guillemot_core.Prelude.Run.{Run, done}
use guillemot_core.Imu.Buffer.{Bytes, store}
use guillemot_core.Imu.FieldList.Receive.{drop-drop}
use guillemot_core.Imu.Driver.{
  Input, first_sync, second_sync, read_loop, wait_for_good_header, read_packet,
}

-- The bytes that the calls of recv deliver.
abbrev pub bytes_of : Input → Bytes
bytes_of [] = []
bytes_of (none ∷ input) = bytes_of input
bytes_of (some b ∷ input) = b ∷ bytes_of input

-- A read that returned.
pub record IsRead (r : Run (ℕ × Bytes × Input)) (size : ℕ) (buf more : Bytes) : Type 0 where
  pub left : Input
  pub returned : r ≡ done (size, buf, left)
  pub left_eq : bytes_of left ≡ more

pub store-append :
    (pre : Bytes) (y v size : ℕ) (ys : Bytes)
    → size ≡ length pre
    → store (pre ++ y ∷ ys) size v ≡ done (pre ++ v ∷ ys)
store-append [] y v size ys e = rw e
store-append (x ∷ pre) y v zero ys e = absurd (omega arith)
store-append (x ∷ pre) y v (suc size) ys e = rw (store-append pre y v size ys (omega arith))

read_loop_step :
    (left size : ℕ) (pre old : Bytes) (y b : ℕ) (input : Input)
    → size ≡ length pre
    → read_loop (suc left) size (pre ++ y ∷ old) (some b ∷ input)
      ≡ read_loop left (size + 1) (pre ++ b ∷ old) input
unfolding read_loop
read_loop_step left size pre old y b input e = rw (store-append pre y b size old e, read_loop)

read_loop_lem :
    (input : Input) (xs pre old more : Bytes) (size : ℕ)
    → size ≡ length pre
    → bytes_of input ≡ xs ++ more
    → length xs ≤ length old
    → IsRead
        (read_loop (length xs) size (pre ++ old) input)
        (size + length xs)
        (pre ++ (xs ++ drop (length xs) old))
        more
unfolding read_loop
read_loop_lem input [] pre old more size p e h =
    let same : size ≡ size + 0 = omega arith in
    record { left = input; returned = rw (← same); left_eq = e }
read_loop_lem [] (x ∷ xs) pre old more size p e h = absurd (cc)
read_loop_lem (none ∷ input) (x ∷ xs) pre old more size p e h =
    read_loop_lem input (x ∷ xs) pre old more size p e h
read_loop_lem (some b ∷ input) (x ∷ xs) pre [] more size p e h = absurd (omega arith)
read_loop_lem (some b ∷ input) (x ∷ xs) pre (y ∷ old) more size p e h =
    let head : b ≡ x = cc in
    let tail : bytes_of input ≡ xs ++ more = cc in
    let next : size + 1 ≡ length (pre ++ x ∷ []) = omega (arith, length-append pre (x ∷ [])) in
    let w = read_loop_lem input xs (pre ++ x ∷ []) old more (size + 1) next tail (omega arith) in
    let total : size + suc (length xs) ≡ size + 1 + length xs = omega arith in
    let stored = append_assoc pre (x ∷ []) old in
    let done' = append_assoc pre (x ∷ []) (xs ++ drop (length xs) old) in
    let step = read_loop_step (length xs) size pre old y b input p in
    record {
      left = w.left;
      returned = cc (step, head, total, stored, done', w.returned);
      left_eq = w.left_eq;
    }

-- No byte is the first sync byte.
abbrev pub NoSync : Bytes → Type 0
NoSync [] = Unit
NoSync (b ∷ bs) = (b ≢ 0x75) × NoSync bs

second_step :
    (b0 b1 : ℕ) (old : Bytes) (input : Input)
    → wait_for_good_header second_sync (b0 ∷ b1 ∷ old) (some 0x65 ∷ input)
      ≡ read_loop 4 2 (b0 ∷ 0x65 ∷ old) input
unfolding wait_for_good_header
second_step b0 b1 old input = refl

first_step :
    (b0 : ℕ) (old : Bytes) (input : Input)
    → wait_for_good_header first_sync (b0 ∷ old) (some 0x75 ∷ input)
      ≡ wait_for_good_header second_sync (0x75 ∷ old) input
unfolding wait_for_good_header
first_step b0 old input = refl

second_lem :
    (input : Input) (b0 b1 : ℕ) (xs old more : Bytes)
    → bytes_of input ≡ 0x65 ∷ (xs ++ more)
    → length xs ≡ 4
    → 4 ≤ length old
    → IsRead
        (wait_for_good_header second_sync (b0 ∷ b1 ∷ old) input)
        6
        (b0 ∷ 0x65 ∷ (xs ++ drop 4 old))
        more
unfolding wait_for_good_header
second_lem [] b0 b1 xs old more e n h = absurd (cc)
second_lem (none ∷ input) b0 b1 xs old more e n h = second_lem input b0 b1 xs old more e n h
second_lem (some b ∷ input) b0 b1 xs old more e n h =
    let head : b ≡ 0x65 = cc in
    let tail : bytes_of input ≡ xs ++ more = cc in
    let w = read_loop_lem input xs (b0 ∷ 0x65 ∷ []) old more 2 refl tail (omega arith) in
    let total : 2 + length xs ≡ 6 = omega arith in
    record {
      left = w.left;
      returned = cc (second_step b0 b1 old input, head, total, n, w.returned);
      left_eq = w.left_eq;
    }

first_lem :
    (input : Input) (junk : Bytes) (b0 b1 : ℕ) (xs old more : Bytes)
    → NoSync junk
    → bytes_of input ≡ junk ++ 0x75 ∷ 0x65 ∷ (xs ++ more)
    → length xs ≡ 4
    → 4 ≤ length old
    → IsRead
        (wait_for_good_header first_sync (b0 ∷ b1 ∷ old) input)
        6
        (0x75 ∷ 0x65 ∷ (xs ++ drop 4 old))
        more
unfolding wait_for_good_header
first_lem [] [] b0 b1 xs old more s e n h = absurd (cc)
first_lem [] (j ∷ junk) b0 b1 xs old more s e n h = absurd (cc)
first_lem (none ∷ input) junk b0 b1 xs old more s e n h =
    first_lem input junk b0 b1 xs old more s e n h
first_lem (some b ∷ input) [] b0 b1 xs old more s e n h =
    let head : b ≡ 0x75 = cc in
    let tail : bytes_of input ≡ 0x65 ∷ (xs ++ more) = cc in
    let w = second_lem input 0x75 b1 xs old more tail n h in
    record {
      left = w.left;
      returned = cc (first_step b0 (b1 ∷ old) input, head, w.returned);
      left_eq = w.left_eq;
    }
first_lem (some b ∷ input) (j ∷ junk) b0 b1 xs old more (s0, s) e n h =
    let head : b ≡ j = cc in
    let tail : bytes_of input ≡ junk ++ 0x75 ∷ 0x65 ∷ (xs ++ more) = cc in
    let w = first_lem input junk b b1 xs old more s tail n h in
    let miss : (b == 0x75) ≡ false = ground arith in
    record {
      left = w.left;
      returned = rw (miss, wait_for_good_header) w.returned;
      left_eq = w.left_eq;
    }

-- What the caller has after a read of one packet: the size read, the size expected, the buffer, and
-- the calls of recv that are left, which deliver `more`.
pub record IsPacket (r : Run (ℕ × ℕ × Bytes × Input)) (size expected : ℕ) (buf more : Bytes)
    : Type 0 where
  pub left : Input
  pub returned : r ≡ done (size, expected, buf, left)
  pub left_eq : bytes_of left ≡ more

-- The two reads of a packet, put together.
assemble :
    (input : Input) (d len x0 x1 b0 b1 : ℕ) (t old more : Bytes)
    → let header : Bytes = 0x75 ∷ 0x65 ∷ d ∷ len ∷ x0 ∷ x1 ∷ [] in
      (w : IsRead
        (wait_for_good_header first_sync (b0 ∷ b1 ∷ old) input)
        6
        (header ++ drop 4 old)
        (t ++ more))
      (r : IsRead
        (read_loop (length t) 6 (header ++ drop 4 old) w.left)
        (6 + length t)
        (header ++ (t ++ drop (length t) (drop 4 old)))
        more)
      → length t ≡ len
      → len < 250
      → IsPacket
          (read_packet (b0 ∷ b1 ∷ old) input)
          (len + 6)
          (len + 6)
          (header ++ (t ++ drop (len + 6) (b0 ∷ b1 ∷ old)))
          more
unfolding read_packet
assemble input d len x0 x1 b0 b1 t old more w r n short =
    let size : (6 + len) % 256 ≡ 6 + length t = omega arith in
    let left : 6 + length t - 6 ≡ length t = omega arith in
    let total : len + 6 ≡ 6 + length t = omega arith in
    record {
      left = r.left;
      returned =
          rw (total, drop-drop 6 (length t) (b0 ∷ b1 ∷ old), w.returned, size, left, r.returned);
      left_eq = r.left_eq;
    }

-- However many calls of recv fail in between, and whatever bytes other than the first sync byte come
-- before it, a packet whose length byte is below 250 and is followed by as many bytes and a checksum
-- is read whole into the start of the buffer, the expected size is its size, and the bytes behind it
-- are left for the next packet.
pub read_packet-frame :
    (input : Input) (junk : Bytes) (descriptor len : ℕ) (tail buf more : Bytes)
    → NoSync junk
    → bytes_of input ≡ junk ++ 0x75 ∷ 0x65 ∷ descriptor ∷ len ∷ (tail ++ more)
    → length tail ≡ len + 2
    → len < 250
    → len + 6 ≤ length buf
    → IsPacket
        (read_packet buf input)
        (len + 6)
        (len + 6)
        (0x75 ∷ 0x65 ∷ descriptor ∷ len ∷ (tail ++ drop (len + 6) buf))
        more
read_packet-frame input junk d len (x0 ∷ x1 ∷ t) (b0 ∷ b1 ∷ old) more s e n short room =
    let header : Bytes = 0x75 ∷ 0x65 ∷ d ∷ len ∷ x0 ∷ x1 ∷ [] in
    let w =
      first_lem input junk b0 b1 (d ∷ len ∷ x0 ∷ x1 ∷ []) old (t ++ more) s e refl (omega arith) in
    let r =
      read_loop_lem w.left t header (drop 4 old) more 6 refl w.left_eq
        (omega (arith, length-drop 4 old)) in
    assemble input d len x0 x1 b0 b1 t old more w r (omega arith) short
read_packet-frame input junk d len [] buf more s e n short room = absurd (omega arith)
read_packet-frame input junk d len (x ∷ []) buf more s e n short room = absurd (omega arith)
read_packet-frame input junk d len (x0 ∷ x1 ∷ t) buf more s e n short room = absurd (omega arith)

-- A packet whose length byte is 250 or more is never read whole: the expected size wraps around, the
-- call returns behind the sixth byte with a size that is not the expected one, and the rest of the
-- packet is left in the stream.
pub read_packet-oversize :
    (input : Input) (junk : Bytes) (descriptor len x0 x1 : ℕ) (buf more : Bytes)
    → NoSync junk
    → bytes_of input ≡ junk ++ 0x75 ∷ 0x65 ∷ descriptor ∷ len ∷ x0 ∷ x1 ∷ more
    → 250 ≤ len
    → len < 256
    → 6 ≤ length buf
    → IsPacket
        (read_packet buf input)
        6
        (len - 250)
        (0x75 ∷ 0x65 ∷ descriptor ∷ len ∷ x0 ∷ x1 ∷ drop 6 buf)
        more
      × (6 ≢ len - 250)
unfolding read_packet read_loop
read_packet-oversize input junk d len x0 x1 (b0 ∷ b1 ∷ old) more s e big small room =
    let w = first_lem input junk b0 b1 (d ∷ len ∷ x0 ∷ x1 ∷ []) old more s e refl (omega arith) in
    let size : (6 + len) % 256 ≡ len - 250 = omega arith in
    let none' : len - 250 - 6 ≡ 0 = omega arith in
    (
      record { left = w.left; returned = rw (w.returned, size, none'); left_eq = w.left_eq },
      omega arith,
    )
read_packet-oversize input junk d len x0 x1 buf more s e big small room = absurd (omega arith)
