-- ===== src/TraceBuffer/Reserve.antt =====
-- octf_trace_get_wr_buffer of source/octf/trace/trace.c on a ring that holds a queue of events.

use open_cas_telemetry_frame.TraceBuffer.Producer.{
  Opened, opened, refused, check_event, open_event, get_wr_buffer,
}
use open_cas_telemetry_frame.TraceBuffer.Space.{integrity_check}
use open_cas_telemetry_frame.TraceBuffer.Commit.{read_header-header}
use open_cas_telemetry_frame.TraceBuffer.State.{
  EventHdr, producer, enospc, trace_magic_buffer, trace_ver, read_header,
}
use open_cas_telemetry_frame.Prelude.{
  ℕ, zero, suc, ◌+◌, ◌%◌, ◌<◌, ◌≡◌, refl, ◌∙◌, ◌≢◌, true, false, Option, none, some, List, [], ◌∷◌,
  ◌++◌, arith, add64, ap, Option-cases, inl, inr,
}
use open_cas_telemetry_frame.TraceBuffer.State.{Trace, Shared, header, trace_align, u32_mod, update}
use open_cas_telemetry_frame.TraceBuffer.Producer.{try_lock, try_lock_wr, allocate_event}
use open_cas_telemetry_frame.TraceBuffer.Allocate.{
  IsAligned, IsRoom, room, room-IsRoom, offset, unwrapped, allocated, allocate_locked_lem,
}
use open_cas_telemetry_frame.TraceBuffer.Layout.{
  Entry, end_of, IsPlaced, IsRing, IsStored-frame, IsStored-snoc, offset-ne,
}

-- A lock that another thread holds is not taken, and one that is free is.
pub try_lock-busy : (rounds : ℕ) (s : Shared) → s.wr_lock ≢ 0 → try_lock rounds s ≡ (false, s)
unfolding try_lock
try_lock-busy zero s h = refl
try_lock-busy (suc rounds) s h = ground (arith, try_lock-busy rounds s h)

try_lock_wr-free : (s : Shared) → s.wr_lock ≡ 0 → try_lock_wr s ≡ (true, record s { wr_lock = 1 })
unfolding try_lock_wr try_lock
try_lock_wr-free s h = rw h

allocate_event_lem :
    (t : Trace) (s : Shared) (size : ℕ)
    → s.wr_lock ≡ 0
    → size + 15 < u32_mod
    → IsAligned t.ring_size s.rd_ptr s.wr_ptr
    → allocate_event t s size
      ≡ allocated t s size (room t.ring_size s.rd_ptr s.wr_ptr (trace_align size))
unfolding allocate_event
allocate_event_lem t s size h b a = rw (try_lock_wr-free s h) (
    allocate_locked_lem t (record s { wr_lock = 1 }) size b a
    ∙ same (room t.ring_size s.rd_ptr s.wr_ptr (trace_align size)))
  where
    same : (r : Option ℕ) → allocated t (record s { wr_lock = 1 }) size r ≡ allocated t s size r
    same none = refl
    same (some gap) = refl

-- A new event that is not yet committed.
abbrev pub reserve : ℕ → ℕ → Entry
reserve gap size = record { gap = gap; size = size; ready = false; payload = [] }

abbrev pub reserved : Trace → Shared → ℕ → ℕ → Shared
reserved t s size gap = record s {
  wr_lock = 0;
  ring = update s.ring s.wr_ptr (
      header (record {
        ready = false;
        data_size = size;
        data_ptr = offset t.ring_size (s.wr_ptr + 16 + gap);
      }));
  wr_ptr = offset t.ring_size (s.wr_ptr + 16 + gap + trace_align size);
}

-- The write pointer behind a new event.
module _ (size rd wr need gap : ℕ) (a : IsAligned size rd wr) (f : IsRoom size rd wr need gap) where
  next_IsAligned : need % 16 ≡ 0 → IsAligned size rd (offset size (wr + 16 + gap + need))
  next_IsAligned h = ground (arith, f.skip, f.data_in, f.before_rd)

  unwrapped-next :
      unwrapped size rd (offset size (wr + 16 + gap + need))
      ≡ unwrapped size rd wr + 16 + gap + need
  unwrapped-next = ground (arith, f.skip, f.data_in, f.before_rd)

  offset-unwrapped : offset size (unwrapped size rd wr) ≡ wr
  offset-unwrapped = ground arith

  offset_data : offset size (unwrapped size rd wr + 16 + gap) ≡ offset size (wr + 16 + gap)
  offset_data = ground (arith, f.skip, f.before_rd)

module _ (t : Trace) (s : Shared) (es : List Entry) (size gap : ℕ) (inv : IsRing t s es)
    (fits : room t.ring_size s.rd_ptr s.wr_ptr (trace_align size) ≡ some gap) where
  is_room : IsRoom t.ring_size s.rd_ptr s.wr_ptr (trace_align size) gap
  is_room = room-IsRoom t.ring_size s.rd_ptr s.wr_ptr (trace_align size) gap inv.aligned fits

  reserved-IsAligned : IsAligned t.ring_size s.rd_ptr (reserved t s size gap).wr_ptr
  reserved-IsAligned =
      next_IsAligned t.ring_size s.rd_ptr s.wr_ptr (trace_align size) gap inv.aligned is_room
        (omega arith)

  reserved_end :
      unwrapped t.ring_size s.rd_ptr (reserved t s size gap).wr_ptr
      ≡ end_of (unwrapped t.ring_size s.rd_ptr s.wr_ptr) (reserve gap size)
  reserved_end =
      unwrapped-next t.ring_size s.rd_ptr s.wr_ptr (trace_align size) gap inv.aligned is_room

  pub hdr_same : offset t.ring_size (unwrapped t.ring_size s.rd_ptr s.wr_ptr) ≡ s.wr_ptr
  hdr_same =
      offset-unwrapped t.ring_size s.rd_ptr s.wr_ptr (trace_align size) gap inv.aligned is_room

  data_same :
      offset t.ring_size (unwrapped t.ring_size s.rd_ptr s.wr_ptr + 16 + gap)
      ≡ offset t.ring_size (s.wr_ptr + 16 + gap)
  data_same = offset_data t.ring_size s.rd_ptr s.wr_ptr (trace_align size) gap inv.aligned is_room

  reserved-IsPlaced :
      IsPlaced t.ring_size
        (reserved t s size gap).ring
        (unwrapped t.ring_size s.rd_ptr s.wr_ptr)
        (reserve gap size)
  reserved-IsPlaced = record {
    hdr = rw (hdr_same, data_same) (ground arith);
    gap_aligned = ground (arith, is_room.skip, inv.aligned);
    fits_hdr = rw hdr_same is_room.hdr_in;
    fits_data = rw data_same is_room.data_in;
    sized = λ z. cc;
    written = λ z. cc;
  }

  pub reserved-IsRing : IsRing t (reserved t s size gap) (es ++ reserve gap size ∷ [])
  reserved-IsRing = record {
    aligned = reserved-IsAligned;
    magic_set = inv.magic_set;
    version_set = inv.version_set;
    stored = rw reserved_end (
        IsStored-snoc t.ring_size (reserved t s size gap).ring s.rd_ptr es
          (unwrapped t.ring_size s.rd_ptr s.wr_ptr) (reserve gap size)
          (IsStored-frame t.ring_size s.ring (reserved t s size gap).ring s.rd_ptr es
            (unwrapped t.ring_size s.rd_ptr s.wr_ptr)
            (λ x l u. ground (
              arith,
              hdr_same,
              offset-ne t.ring_size s.rd_ptr x (unwrapped t.ring_size s.rd_ptr s.wr_ptr),
              is_room.before_rd,
              inv.aligned,
            ))
            (ground (arith, inv.aligned)) inv.stored)
          reserved-IsPlaced);
  }

-- The outcome of the allocation for the caller, given the room.
abbrev pub opening : Trace → Shared → ℕ → Option ℕ → Opened × Shared
opening t s size none = (refused enospc, record s { wr_lock = 0; lost = add64 s.lost 1 })
opening t s size (some gap) = (opened s.wr_ptr, reserved t s size gap)

integrity_check-room :
    (t : Trace) (rd wr size gap : ℕ)
    → IsAligned t.ring_size rd wr
    → IsRoom t.ring_size rd wr (trace_align size) gap
    → integrity_check t (offset t.ring_size (wr + 16 + gap)) size ≡ true
unfolding integrity_check
integrity_check-room t rd wr size gap a f = ground (arith, f.data_in, f.skip)

open_event_valid :
    (t : Trace) (s : Shared) (size : ℕ)
    → s.magic ≡ trace_magic_buffer
    → s.version ≡ trace_ver
    → t.mode ≡ producer
    → open_event t s size ≡ check_event t (allocate_event t s size)
unfolding open_event
open_event_valid t s size m v p = ground arith

check_event_lem :
    (t : Trace) (s : Shared) (size : ℕ) (r : Option ℕ)
    → IsAligned t.ring_size s.rd_ptr s.wr_ptr
    → room t.ring_size s.rd_ptr s.wr_ptr (trace_align size) ≡ r
    → check_event t (allocated t s size r) ≡ opening t s size r
unfolding check_event
check_event_lem t s size none a e = refl
check_event_lem t s size (some gap) a e =
    let f = room-IsRoom t.ring_size s.rd_ptr s.wr_ptr (trace_align size) gap a e in
    let h : EventHdr = record {
      ready = false;
      data_size = size;
      data_ptr = offset t.ring_size (s.wr_ptr + 16 + gap);
    } in
    let read : read_header (update s.ring s.wr_ptr (header h)) s.wr_ptr ≡ h =
      read_header-header _ s.wr_ptr h (ground arith) in
    let checked : integrity_check t h.data_ptr h.data_size ≡ true =
      integrity_check-room t s.rd_ptr s.wr_ptr size gap a f in
    rw read (rw checked)

pub open_event_lem :
    (t : Trace) (s : Shared) (es : List Entry) (size : ℕ)
    → t.mode ≡ producer
    → s.wr_lock ≡ 0
    → size + 15 < u32_mod
    → IsRing t s es
    → open_event t s size ≡ opening t s size (room t.ring_size s.rd_ptr s.wr_ptr (trace_align size))
open_event_lem t s es size p l b inv =
    open_event_valid t s size inv.magic_set inv.version_set p
    ∙ ap (check_event t) (allocate_event_lem t s size l b inv.aligned)
    ∙ check_event_lem t s size _ inv.aligned refl

-- The outcome of octf_trace_get_wr_buffer on a ring that holds `es`.
pub data Reserves (t : Trace) (s : Shared) (es : List Entry) (size : ℕ) (out : Opened × Shared)
    : Type 0 where
  no_space :
      room t.ring_size s.rd_ptr s.wr_ptr (trace_align size) ≡ none
      → out ≡ (refused enospc, record s { wr_lock = 0; lost = add64 s.lost 1 })
      → Reserves t s es size out
  granted :
      (gap : ℕ)
      → room t.ring_size s.rd_ptr s.wr_ptr (trace_align size) ≡ some gap
      → out ≡ (opened s.wr_ptr, reserved t s size gap)
      → IsRing t out.1 (es ++ reserve gap size ∷ [])
      → Reserves t s es size out

-- octf_trace_get_wr_buffer by the producer of less than 2 ^ 32 - 15 bytes, with the write lock free,
-- on a valid ring that holds the events `es`: where header and data have room it hands out the old write pointer and appends one
-- uncommitted event of that size to the queue, and the ring stays valid; otherwise it returns
-- -ENOSPC, counts one lost event and changes nothing else. No assertion fails.
pub get_wr_buffer-Reserves :
    (t : Trace) (s : Shared) (es : List Entry) (size : ℕ)
    → t.mode ≡ producer
    → s.wr_lock ≡ 0
    → size + 15 < u32_mod
    → IsRing t s es
    → Reserves t s es size (get_wr_buffer t s size)
unfolding get_wr_buffer
get_wr_buffer-Reserves t s es size p l b inv =
    let e = open_event_lem t s es size p l b inv in
    elim (Option-cases (room t.ring_size s.rd_ptr s.wr_ptr (trace_align size))) [
      | inl full ↦ no_space full (e ∙ ap (opening t s size) full)
      | inr (gap, fits) ↦
          let done = e ∙ ap (opening t s size) fits in
          granted gap fits done (rw done (reserved-IsRing t s es size gap inv fits))
    ]
