-- ===== src/Imu/FieldList.antt =====
-- packets/MipFieldList.cpp: the linked list of a packet's fields, on an explicit heap.
-- An address is a number, and `Option.none` is `NULL`. `new` takes an address that was never used,
-- so a deleted node is never mistaken for a live one; touching a deleted node is a fault. The fields
-- that the nodes point to are owned by their node, and are held in it. `m_count` does not overflow.
use guillemot_core.Prelude.{
  ℕ, zero, suc, ◌+◌, ◌-◌, ◌%◌, ◌≡◌, List, [], ◌∷◌, Bool, true, false, ◌&&◌, Option, none, some, ltb,
  leb, ◌==◌, if◌then◌else◌, drop, arith,
}
use guillemot_core.Prelude.Int.{ℤ, pos, negsuc}
use guillemot_core.Prelude.Run.{Run, done, fault, hang, ◌>>=◌, or_fault}
use guillemot_core.Imu.Buffer.{Bytes}
use guillemot_core.Imu.Field.{min_mip_field_header_size}
use guillemot_core.Imu.Field.DataField.{Field, deserialize_to_field}
pub mod Contents
pub mod Operations
pub mod Receive
pub mod Hang

abbrev pub Ptr : Type 0
Ptr = Option ℕ

-- `class MipFieldNode`.
pub record MipFieldNode : Type 0 where
  pub data' : Option Field
  pub next : Ptr

pub record Heap : Type 0 where
  pub cell : ℕ → Option MipFieldNode
  pub fresh : ℕ

pub record MipFieldList : Type 0 where
  pub head : Ptr
  pub tail : Ptr
  pub count : ℕ

unfoldable pub init : MipFieldList
init = record { head = none; tail = none; count = 0 }

abbrev pub write : Heap → ℕ → Option MipFieldNode → Heap
write h a c = record h { cell = λ b. if b == a then c else h.cell b }

-- `*p`.
abbrev pub read : Heap → ℕ → Run MipFieldNode
read h a = or_fault (h.cell a)

-- `p->m_pNext = q`.
abbrev pub set_next : Heap → ℕ → Ptr → Run Heap
set_next h a q = do n ← read h a; done (write h a (some (record n { next = q })))

-- `delete p`.
abbrev pub delete : Heap → ℕ → Run Heap
delete h a = do n ← read h a; done (write h a none)

-- `new MipFieldNode()` with its two members set.
abbrev pub new_node : Heap → Field → Heap
new_node h f = record (write h h.fresh (some (record { data' = some f; next = none }))) {
  fresh = h.fresh + 1;
}

-- The old last node, if there is one, is made to point to the new one.
abbrev pub link_tail : Ptr → Heap → ℕ → Run Heap
link_tail none h node = done h
link_tail (some t) h node = set_next h t (some node)

abbrev or_else : Ptr → ℕ → Ptr
or_else none node = some node
or_else (some p) node = some p

unfoldable pub add : MipFieldList → Field → Heap → Run (MipFieldList × Heap)
add l f h = do
  h' ← link_tail l.tail (new_node h f) h.fresh
  done (record { head = or_else l.head h.fresh; tail = some h.fresh; count = l.count + 1 }, h')

-- `m_pHead->m_pData`, read after `m_pHead` has moved on.
abbrev head_data : Ptr → Heap → Run (Option Field)
head_data none h = fault
head_data (some p) h = do n ← read h p; done n.data'

-- The result is the field that the caller gets, `none` being `NULL`.
abbrev remove_at : Ptr → MipFieldList → Heap → Run (Option Field × MipFieldList)
remove_at none l h = done (none, l)
remove_at (some p) l h = do
  n ← read h p
  f ← head_data n.next h
  done (f, record l { head = n.next; count = l.count - 1 })

unfoldable pub remove : MipFieldList → Heap → Run (Option Field × MipFieldList)
remove l h = remove_at l.head l h

-- The loop of getAtPos, `left` being the rounds that `pos >= 0` allows.
unfoldable pub get_loop : (left : ℕ) → Option Field → Ptr → Heap → Run (Option Field)
get_loop zero ret it h = done ret
get_loop (suc left) ret none h = done ret
get_loop (suc left) ret (some p) h = elim (h.cell p) [
  | none ↦ fault
  | some n ↦ get_loop left n.data' n.next h
]

unfoldable pub get_at_pos : MipFieldList → ℤ → Heap → Run (Option Field)
unfolding get_loop
get_at_pos l (pos p) h = if ltb p l.count then get_loop (p + 1) none l.head h else done none
get_at_pos l (negsuc p) h = done none

-- The loop of clear. It deletes one node a round; `hang` means that the rounds were used up.
unfoldable pub clear_loop : (fuel : ℕ) → Ptr → Heap → Run Heap
clear_loop zero p h = hang
clear_loop (suc fuel) none h = done h
clear_loop (suc fuel) (some p) h = elim (h.cell p) [
  | none ↦ fault
  | some n ↦ clear_loop fuel n.next (write h p none)
]

-- `m_pTail` and `m_count` keep their values. No more nodes can be deleted than were ever made.
unfoldable pub clear : MipFieldList → Heap → Run (MipFieldList × Heap)
unfolding clear_loop
clear l h = do h' ← clear_loop (h.fresh + 1) l.head h; done (record l { head = none }, h')

abbrev pub descriptor_set_imu_data : ℕ
descriptor_set_imu_data = 0x80

abbrev add_if : Option Field → MipFieldList × Heap → Run (MipFieldList × Heap)
add_if none (l, h) = done (l, h)
add_if (some f) (l, h) = add l f h

-- One round of the loop of deserialize at `pos`: what it consumes, and the list after it. `size` is
-- narrowed to the `UInt8` parameter of deserializeToField.
unfoldable pub deserialize_round :
    ℕ → Bytes → (size position : ℕ) → MipFieldList × Heap → Run (ℕ × MipFieldList × Heap)
deserialize_round descriptor_set buf size position s =
    if descriptor_set == descriptor_set_imu_data
    then (do
      (ret, f) ← deserialize_to_field (drop position buf) (size % 256)
      (l, h) ← add_if f s
      done (ret, l, h))
    else done (0, s.0, s.1)

unfoldable pub deserialize_loop :
    (fuel : ℕ) → ℕ → Bytes → (size position : ℕ) → MipFieldList × Heap → Run (MipFieldList × Heap)
deserialize_loop zero descriptor_set buf size position s = hang
deserialize_loop (suc fuel) descriptor_set buf size position s =
    elim (ltb position size && leb min_mip_field_header_size size) [
      | true ↦ deserialize_round descriptor_set buf size position s >>= λ r.
          deserialize_loop fuel descriptor_set buf size (position + r.0) (r.1, r.2)
      | false ↦ done s
    ]

-- `fuel` bounds the rounds; a negative `size` runs none, as 0 does.
unfoldable pub deserialize :
    (fuel : ℕ) → ℕ → Bytes → (size : ℕ) → MipFieldList × Heap → Run (MipFieldList × Heap)
unfolding deserialize_loop
deserialize fuel descriptor_set buf size (l, h) = do
  s ← clear l h
  deserialize_loop fuel descriptor_set buf size 0 s
