-- ===== src/Imu/Packet/Send.antt =====
-- MipPacket::serialize: what it sends of a packet with no fields, and that the nine bytes that it
-- allocates hold no more than that.
use guillemot_core.Prelude.{
  ℕ, zero, suc, ◌+◌, ◌*◌, ◌/◌, ◌%◌, ◌^◌, ◌≡◌, ◌≢◌, ◌<◌, ◌≤◌, refl, List, [], ◌∷◌, arith, length,
  none, some, ◌==◌, ltb,
}
use guillemot_core.Prelude.Run.{Run, done, fault, hang, ◌>>=◌, map_run}
use guillemot_core.Imu.Buffer.{Bytes, store, at, get_uint16}
use guillemot_core.Imu.Field.DataField
use guillemot_core.Imu.Field.DataField.{Field, get_field_length}
use guillemot_core.Imu.FieldList.{Heap, Ptr, MipFieldList, deserialize_loop}
use guillemot_core.Imu.FieldList
use guillemot_core.Imu.FieldList.Contents.{IsList, Linked, first}
use guillemot_core.Imu.FieldList.Operations.{Rising-length}
use guillemot_core.Imu.FieldList.Receive.{clear-init}
use guillemot_core.Imu.Packet.{
  MipPacket, init, serialize, deserialize, serialize_field, serialize_loop, calculate_checksum,
  checksum_loop, allocated, room,
}
use guillemot_core.Imu.Packet.Checksum.{fletcher, calculate_checksum_lem}
use guillemot_core.Imu.Packet.Keeps.{Keeps, at-Keeps, store_at, serialize-Keeps}

abbrev pub total_length : List Field → ℕ
total_length [] = 0
total_length (f ∷ fs) = get_field_length f + total_length fs

-- The call faults, or leaves a buffer of `n` bytes and stands at `end`.
abbrev Ends : (n position : ℕ) → Run (ℕ × Bytes) → Type 0
Ends n position (done (p, b)) = (p ≡ position) × (length b ≡ n)
Ends n position fault = Unit
Ends n position hang = ⊥

field_written : Field → ℕ → Bytes → Run Bytes
field_written f position p = map_run (λ r. r.1) (DataField.serialize f p (room position))

serialize_field-Ends :
    (f : Field) (buf : Bytes) (position : ℕ)
    → Ends (length buf) (position + get_field_length f) (serialize_field f buf position)
unfolding serialize_field field_written
serialize_field-Ends f buf position =
    go (at position (field_written f position) buf)
      (at-Keeps (field_written f position) (λ p. serialize-Keeps f p (room position)) position buf)
  where
    go :
        (m : Run Bytes)
        → Keeps (length buf) m
        → Ends
            (length buf)
            (position + get_field_length f)
            (m >>= λ b. done (position + get_field_length f, b))
    go (done b) k = (refl, k)
    go fault k = tt
    go hang k = k

bind-Ends :
    (n p q : ℕ) (m : Run (ℕ × Bytes)) (k : ℕ × Bytes → Run (ℕ × Bytes))
    → Ends n p m
    → ((b : Bytes) → length b ≡ n → Ends n q (k (p, b)))
    → Ends n q (m >>= k)
bind-Ends n p q (done (p', b)) k (e, l) next = rw e (next b l)
bind-Ends n p q fault k e next = tt
bind-Ends n p q hang k e next = e

serialize_loop-Ends :
    (h : Heap) (ns : List ℕ) (fs : List Field) (fuel : ℕ) (buf : Bytes) (position : ℕ)
    → Linked h ns fs
    → length ns < fuel
    → Ends (length buf) (position + total_length fs) (serialize_loop fuel (first ns) h buf position)
unfolding serialize_loop
serialize_loop-Ends h [] [] (suc fuel) buf position l b = (omega arith, refl)
serialize_loop-Ends h (a ∷ ns) (f ∷ fs) (suc fuel) buf position (l0, l) lt =
    let regroup : position + get_field_length f + total_length fs
        ≡ position + (get_field_length f + total_length fs) =
      omega arith in
    rw l0 (
      bind-Ends (length buf) (position + get_field_length f) _ (serialize_field f buf position) _
        (serialize_field-Ends f buf position)
        (λ b e.
          rw (← e, ← regroup)
            (serialize_loop-Ends h ns fs fuel b (position + get_field_length f) l (omega arith))))
serialize_loop-Ends h [] (f ∷ fs) fuel buf position l b = absurd l
serialize_loop-Ends h (a ∷ ns) [] fuel buf position l b = absurd l
serialize_loop-Ends h ns fs zero buf position l b = absurd (omega arith)

store_past : (b : Bytes) (k v : ℕ) → length b ≤ k → store b k v ≡ fault
store_past [] k v h = refl
store_past (x ∷ b) zero v h = absurd (omega arith)
store_past (x ∷ b) (suc k) v h = rw (store_past b k v (omega arith))

checksum_returns : (size : ℕ) (b : Bytes) (x y : ℕ) → checksum_loop size b x y ≢ hang
unfolding checksum_loop
checksum_returns zero b x y e = cc
checksum_returns (suc n) [] x y e = cc
checksum_returns (suc n) (z ∷ b) x y e = checksum_returns n b _ _ e

-- What serialize does behind the loop.
abbrev put_second : (position w : ℕ) → Bytes → Run (ℕ × Bytes)
put_second position w b = store b (position + 1) w >>= λ b. done (position + 2, b)

abbrev put_checksum : (position : ℕ) → Bytes → ℕ → Run (ℕ × Bytes)
put_checksum position b c = store b position (c / 2 ^ 8) >>= put_second position (c % 16)

finish : (position : ℕ) → Bytes → Run (ℕ × Bytes)
finish position b = calculate_checksum b position >>= put_checksum position b

put_second_past :
    (position w : ℕ) (m : Run Bytes)
    → 8 ≤ position
    → Keeps 9 m
    → (m >>= put_second position w) ≡ fault
put_second_past position w (done b) h k = rw (store_past b (position + 1) w (omega arith))
put_second_past position w fault h k = refl
put_second_past position w hang h k = absurd k

finish_past : (position : ℕ) (b : Bytes) → length b ≡ 9 → 8 ≤ position → finish position b ≡ fault
unfolding finish calculate_checksum
finish_past position b e h = go (checksum_loop position b 0 0) (checksum_returns position b 0 0)
  where
    go :
        (m : Run (ℕ × ℕ))
        → m ≢ hang
        → (m >>= (λ s. done (s.0 * 2 ^ 8 + s.1)) >>= put_checksum position b) ≡ fault
    go (done s) ne = put_second_past position _ _ h (store_at 9 b position _ e)
    go fault ne = refl
    go hang ne = absurd (ne refl)

-- A packet whose fields are longer than three bytes together is never serialized: the buffer of nine
-- bytes has no room for them and the checksum, and the code writes or reads past its end.
pub serialize_overflow :
    (p : MipPacket) (h : Heap) (fs : List Field) (buf : Bytes)
    → IsList p.field_list h fs
    → length buf ≡ allocated
    → 3 < total_length fs
    → serialize p h buf ≡ fault
unfolding serialize finish
serialize_overflow p h fs (b0 ∷ b1 ∷ b2 ∷ b3 ∷ b4 ∷ b5 ∷ b6 ∷ b7 ∷ b8 ∷ []) v e long =
    let start : Bytes =
      0x75 ∷ 0x65 ∷ p.descriptor_set ∷ p.payload_length ∷ b4 ∷ b5 ∷ b6 ∷ b7 ∷ b8 ∷ [] in
    let short = Rising-length 0 v.nodes h.fresh v.rising in
    go _
      (rw v.head_eq (serialize_loop-Ends h v.nodes fs (h.fresh + 1) start 4 v.linked (omega arith)))
  where
    go :
        (m : Run (ℕ × Bytes)) → Ends 9 (4 + total_length fs) m → (m >>= λ r. finish r.0 r.1) ≡ fault
    go (done (q, b)) (at', l) = finish_past q b l (omega arith)
    go fault k = refl
    go hang k = absurd k
serialize_overflow p h fs buf v e long = absurd (omega arith)

head_none : (l : MipFieldList) (h : Heap) → IsList l h [] → l.head ≡ none
head_none l h v = go v.nodes v.head_eq v.linked
  where
    go : (ns : List ℕ) → l.head ≡ first ns → Linked h ns [] → l.head ≡ none
    go [] e lk = e
    go (a ∷ ns) e lk = absurd lk

read_nothing :
    (fuel set' : ℕ) (b : Bytes) (k : Heap)
    → FieldList.deserialize (suc fuel) set' b 0 (FieldList.init, k) ≡ done (FieldList.init, k)
unfolding FieldList.deserialize deserialize_loop
read_nothing fuel set' b k = rw (clear-init k)

masked : (n : ℕ) → (n == n / 256 * 256 + n % 16) ≡ ltb (n % 256) 16
masked n = ground arith

-- A packet with no fields is sent as its header and a checksum of which the low byte has lost its
-- upper four bits, so the packet that is read back has a good checksum exactly when they were 0.
pub serialize_empty :
    (p : MipPacket) (h k : Heap) (buf : Bytes) (fuel : ℕ)
    → IsList p.field_list h []
    → length buf ≡ allocated
    → let header : Bytes = 0x75 ∷ 0x65 ∷ p.descriptor_set ∷ p.payload_length ∷ [] in
      (sent : Bytes) × (serialize p h buf ≡ done (6, sent))
      × (q : MipPacket) × (deserialize (suc fuel) init k sent 6 ≡ done (q, k))
      × (q.good_checksum ≡ some (ltb (fletcher header % 256) 16))
unfolding serialize serialize_loop deserialize init get_uint16
serialize_empty p h k (b0 ∷ b1 ∷ b2 ∷ b3 ∷ b4 ∷ b5 ∷ b6 ∷ b7 ∷ b8 ∷ []) fuel v e =
    let header : Bytes = 0x75 ∷ 0x65 ∷ p.descriptor_set ∷ p.payload_length ∷ [] in
    let c = fletcher header in
    let sum1 = calculate_checksum_lem header (b4 ∷ b5 ∷ b6 ∷ b7 ∷ b8 ∷ []) in
    let sum2 = calculate_checksum_lem header (c / 256 ∷ c % 16 ∷ b6 ∷ b7 ∷ b8 ∷ []) in
    let fuel' : h.fresh + 1 ≡ suc h.fresh = omega arith in
    (
      0x75 ∷ 0x65 ∷ p.descriptor_set ∷ p.payload_length ∷ c / 256 ∷ c % 16 ∷ b6 ∷ b7 ∷ b8 ∷ [],
      rw (head_none p.field_list h v, fuel', serialize_loop, sum1),
      record {
        sync1 = 0x75;
        sync2 = 0x65;
        descriptor_set = p.descriptor_set;
        payload_length = p.payload_length;
        field_list = FieldList.init;
        good_checksum = some (ltb (c % 256) 16);
      },
      rw (
        read_nothing fuel p.descriptor_set (c / 256 ∷ c % 16 ∷ b6 ∷ b7 ∷ b8 ∷ []) k,
        sum2,
        masked c,
      ),
      refl,
    )
serialize_empty p h k buf fuel v e = absurd (omega arith)
