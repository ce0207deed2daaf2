-- ===== src/TraceBuffer/Producer.antt =====
-- The producer side of source/octf/trace/trace.c: octf_trace_push, octf_trace_get_wr_buffer,
-- octf_trace_commit_wr_buffer and what they call.
use open_cas_telemetry_frame.Prelude.{
  ℕ, zero, suc, ◌%◌, Bool, true, false, ◌&&◌, not, List, ltb, ◌==◌, if◌then◌else◌, length, add64,
}
use open_cas_telemetry_frame.TraceBuffer.State.{
  Trace, Shared, header, Status, ok, einval, enospc, assert_failed, u32_mod, trace_align,
  is_trace_valid, is_producer, update, read_header, write_bytes,
}
use open_cas_telemetry_frame.TraceBuffer.Space.{
  integrity_check, get_continuous_space, move_ptr, is_wrap,
}

-- The rounds of `_try_lock_wr`: `retry++ > 128` lets 129 of them try. Nothing else runs meanwhile.
unfoldable pub try_lock : ℕ → Shared → Bool × Shared
try_lock zero s = (false, s)
try_lock (suc rounds) s =
    let again = try_lock rounds s in
    if s.wr_lock == 0 then (true, record s { wr_lock = 1 }) else again

unfoldable pub try_lock_wr : Shared → Bool × Shared
try_lock_wr s = try_lock 129 s

abbrev pub unlock_wr : Shared → Shared
unlock_wr s = record s { wr_lock = 0 }

-- Where `_allocate_event` finds a place: an offset, none, or a failed assertion.
pub data Place : Type 0 where
  at : ℕ → Place
  full broken : Place

-- The second look, from the start of the ring.
unfoldable pub place_at_start : Trace → Shared → ℕ → ℕ → ℕ → Place × Shared
place_at_start t s rdp wrp need =
    if wrp == 0
    then (let (space, s') = get_continuous_space t s rdp wrp in
        if ltb space need then (full, s') else (at wrp, s'))
    else (broken, s)

-- The place of the data behind a header that ends at `wrp`.
unfoldable pub place_data : Trace → Shared → ℕ → ℕ → ℕ → Place × Shared
place_data t s rdp wrp need =
    let (space, s') = get_continuous_space t s rdp wrp in
    if ltb space need
    then (if is_wrap rdp wrp && not (rdp == 0)
        then place_at_start t s' rdp (move_ptr t wrp space) need
        else (full, s'))
    else (at wrp, s')

-- The header at `hdr`, the data at `wrp`: the last part of `_allocate_event`.
unfoldable pub finish : Trace → ℕ → ℕ → ℕ → Place × Shared → Place × Shared
finish t hdr need size (at wrp, s) = if ltb t.ring_size (add64 wrp need) then (broken, s) else (
  at hdr,
  unlock_wr (record s {
    ring = update s.ring hdr (header (record { ready = false; data_size = size; data_ptr = wrp }));
    wr_ptr = move_ptr t wrp need;
  }),
)
finish t hdr need size (full, s) = (full, unlock_wr s)
finish t hdr need size (broken, s) = (broken, s)

-- `_allocate_event` under the lock. The aligned size is kept in a uint32_t.
unfoldable pub allocate_locked : Trace → Shared → ℕ → Place × Shared
allocate_locked t s size =
    let (space, s') = get_continuous_space t s s.rd_ptr s.wr_ptr in
    if ltb space 16
    then (full, unlock_wr s')
    else if ltb t.ring_size (add64 s.wr_ptr 16)
    then (broken, s')
    else let need = trace_align size % u32_mod in
      finish t s.wr_ptr need size (place_data t s' s.rd_ptr (move_ptr t s.wr_ptr 16) need)

unfoldable pub allocate_event : Trace → Shared → ℕ → Place × Shared
allocate_event t s size =
    let (locked, s') = try_lock_wr s in if locked then allocate_locked t s' size else (full, s)

-- What both producers do with the result of the allocation: on success the offset of the header.
pub data Opened : Type 0 where
  opened : ℕ → Opened
  refused : Status → Opened

unfoldable pub check_event : Trace → Place × Shared → Opened × Shared
check_event t (at hdr, s) =
    let h = read_header s.ring hdr in
    if integrity_check t h.data_ptr h.data_size
    then (opened hdr, s)
    else (refused assert_failed, record s { magic = 0 })
check_event t (full, s) = (refused enospc, record s { lost = add64 s.lost 1 })
check_event t (broken, s) = (refused assert_failed, s)

unfoldable pub open_event : Trace → Shared → ℕ → Opened × Shared
open_event t s size =
    if not (is_trace_valid s)
    then (refused einval, s)
    else if not (is_producer t)
    then (refused einval, s)
    else check_event t (allocate_event t s size)

abbrev pub set_ready : Shared → ℕ → Shared
set_ready s hdr = record s {
  ring = update s.ring hdr (header (record (read_header s.ring hdr) { ready = true }));
}

abbrev pub copy_and_commit : List ℕ → Opened × Shared → Status × Shared
copy_and_commit event (refused e, s) = (e, s)
copy_and_commit event (opened hdr, s) = (
  ok,
  set_ready (record s { ring = write_bytes s.ring (read_header s.ring hdr).data_ptr event }) hdr,
)

-- `octf_trace_push`.
unfoldable pub push : Trace → Shared → List ℕ → Status × Shared
push t s event = copy_and_commit event (open_event t s (length event))

-- `octf_trace_get_wr_buffer`: the handle is the header's offset, the buffer is at its `data_ptr`.
unfoldable pub get_wr_buffer : Trace → Shared → ℕ → Opened × Shared
get_wr_buffer t s size = open_event t s size

-- The caller fills the buffer that it was given.
unfoldable pub fill : Shared → ℕ → List ℕ → Shared
fill s hdr event = record s { ring = write_bytes s.ring (read_header s.ring hdr).data_ptr event }

-- `octf_trace_commit_wr_buffer`.
unfoldable pub commit_wr_buffer : Trace → Shared → ℕ → Status × Shared
commit_wr_buffer t s hdr =
    let h = read_header s.ring hdr in
    if not (is_trace_valid s)
    then (einval, s)
    else if not (is_producer t)
    then (einval, s)
    else if integrity_check t h.data_ptr h.data_size
    then (ok, set_ready s hdr)
    else (assert_failed, record s { magic = 0 })
