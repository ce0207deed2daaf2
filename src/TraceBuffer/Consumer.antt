-- ===== src/TraceBuffer/Consumer.antt =====
-- The consumer side of source/octf/trace/trace.c: octf_trace_pop, octf_trace_get_rd_buffer,
-- octf_trace_release_rd_buffer; and the queries of both sides.
use open_cas_telemetry_frame.Prelude.{
  ℕ, not, Option, none, some, List, [], ltb, ◌==◌, if◌then◌else◌, add64,
}
use open_cas_telemetry_frame.TraceBuffer.State.{
  Trace, Shared, EventHdr, Cell, Status, ok, einval, eperm, ebusy, ebadf, eagain, enospc,
  assert_failed, trace_align, is_trace_valid, is_producer, is_consumer, read_header, read_bytes,
}
use open_cas_telemetry_frame.TraceBuffer.Space.{integrity_check, get_free_space, move_ptr, is_empty}

-- `_get_rd_hdr`: the header at the read pointer, if an event is there and ready.
pub data Found : Type 0 where
  found : EventHdr → Found
  nothing broken : Found

unfoldable pub get_rd_hdr : Trace → Shared → Found
get_rd_hdr t s =
    let h = read_header s.ring s.rd_ptr in
    if is_empty s.rd_ptr s.wr_ptr
    then nothing
    else if not (integrity_check t s.rd_ptr 16)
    then broken
    else if h.ready
    then found h
    else nothing

-- `_move_rd_ptr`.
abbrev pub move_rd_ptr : Trace → Shared → EventHdr → Shared
move_rd_ptr t s h = record s { rd_ptr = move_ptr t h.data_ptr (trace_align h.data_size) }

abbrev pub lock_rd : Shared → Shared
lock_rd s = record s { rd_lock = 1 }

abbrev pub unlock_rd : Shared → Shared
unlock_rd s = record s { rd_lock = 0 }

abbrev pub no_event : Shared → Status
no_event s = if s.closed == 0 then eagain else ebadf

-- `octf_trace_pop` with the lock held, into a buffer of `room` bytes.
unfoldable pub pop_found : Trace → Shared → ℕ → Found → Status × List Cell × Shared
pop_found t s room nothing = (no_event s, [], unlock_rd s)
pop_found t s room broken = (assert_failed, [], s)
pop_found t s room (found h) =
    if ltb room h.data_size
    then (enospc, [], unlock_rd s)
    else if integrity_check t h.data_ptr h.data_size
    then (ok, read_bytes s.ring h.data_ptr h.data_size, unlock_rd (move_rd_ptr t s h))
    else (assert_failed, [], s)

-- `octf_trace_pop`: the status, what is copied out, and the state. The number of bytes that `*size`
-- receives is the length of what is copied.
unfoldable pub pop : Trace → Shared → ℕ → Status × List Cell × Shared
pop t s room =
    if not (is_trace_valid s)
    then (einval, [], s)
    else if not (is_consumer t)
    then (eperm, [], s)
    else if not (s.rd_lock == 0)
    then (ebusy, [], s)
    else pop_found t (lock_rd s) room (get_rd_hdr t (lock_rd s))

-- `octf_trace_get_rd_buffer` with the lock held: it keeps the lock when it returns an event. The handle
-- is the offset of the event's header, the read pointer.
unfoldable pub rd_buffer_found : Trace → Shared → Found → Status × Option ℕ × Shared
rd_buffer_found t s nothing = (no_event s, none, unlock_rd s)
rd_buffer_found t s broken = (assert_failed, none, s)
rd_buffer_found t s (found h) =
    if integrity_check t h.data_ptr h.data_size
    then (ok, some s.rd_ptr, s)
    else (assert_failed, none, s)

unfoldable pub get_rd_buffer : Trace → Shared → Status × Option ℕ × Shared
get_rd_buffer t s =
    if not (is_trace_valid s)
    then (einval, none, s)
    else if not (is_consumer t)
    then (eperm, none, s)
    else if not (s.rd_lock == 0)
    then (ebusy, none, s)
    else rd_buffer_found t (lock_rd s) (get_rd_hdr t (lock_rd s))

-- `octf_trace_release_rd_buffer` of the event whose header is at the offset `hdr`.
unfoldable pub release_rd_buffer : Trace → Shared → ℕ → Status × Shared
release_rd_buffer t s hdr =
    let h = read_header s.ring hdr in
    if not (is_trace_valid s)
    then (einval, s)
    else if not (is_consumer t)
    then (einval, s)
    else if integrity_check t h.data_ptr h.data_size
    then (ok, unlock_rd (move_rd_ptr t s h))
    else (assert_failed, record s { magic = 0 })

-- The queries return a number, or `none` for -EINVAL.
abbrev pub if_valid : Shared → ℕ → Option ℕ
if_valid s n = if is_trace_valid s then some n else none

-- `octf_trace_is_empty`, `octf_trace_is_almost_full`, `octf_trace_is_closed`,
-- `octf_trace_get_lost_count`, `octf_trace_get_free_space`.
unfoldable pub trace_is_empty : Shared → Option ℕ
trace_is_empty s = if_valid s (if is_empty s.rd_ptr s.wr_ptr then 1 else 0)

unfoldable pub is_almost_full : Trace → Shared → Option ℕ
is_almost_full t s =
    if_valid s (if ltb (get_free_space t s.rd_ptr s.wr_ptr) t.ring_size_almost_empty then 1 else 0)

unfoldable pub is_closed : Shared → Option ℕ
is_closed s = if_valid s (if s.closed == 0 then 0 else 1)

unfoldable pub get_lost_count : Shared → Option ℕ
get_lost_count s = if_valid s s.lost

unfoldable pub free_space : Trace → Shared → Option ℕ
free_space t s = if_valid s (get_free_space t s.rd_ptr s.wr_ptr)

-- `octf_trace_add_lost`.
unfoldable pub add_lost : Trace → Shared → ℕ → Shared
add_lost t s lost =
    if not (is_trace_valid s)
    then s
    else if not (is_producer t)
    then s
    else record s { lost = add64 s.lost lost }
