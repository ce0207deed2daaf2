-- ===== src/TraceBuffer/Open.antt =====
-- octf_trace_open and octf_trace_close of source/octf/trace/trace.c.
use open_cas_telemetry_frame.Prelude.{
  ℕ, ◌+◌, ◌-◌, ◌*◌, ◌/◌, ◌≤◌, ◌<◌, ◌≡◌, refl, sym, ap, ◌∙◌, subst, ◌≢◌, ◌↔◌, ◌⊎◌, Bool, true, false,
  ◌&&◌, not, Option, none, some, List, [], arith, ltb, ◌==◌, if◌then◌else◌,
}
use open_cas_telemetry_frame.TraceBuffer.State.{
  Trace, Shared, byte, Mode, producer, consumer, other_mode, Status, ok, einval, enospc, enobufs,
  enomem, trace_align, trace_magic_buffer, trace_ver, u32_mod, min_buffer_size, is_trace_valid,
  is_producer,
}
use open_cas_telemetry_frame.TraceBuffer.Drained.{Delivers, run-Delivers}
use open_cas_telemetry_frame.TraceBuffer.Fifo.{IsFifo, Op, AreSmall, run, handle_of}

-- The aligned sizes of `trace_producer_hdr` (seven 8-byte fields) and `trace_consumer_hdr` (a block of
-- `OCTF_TRACE_HDR_SIZE` bytes).
abbrev pub producer_hdr_size : ℕ
producer_hdr_size = trace_align 56

abbrev pub consumer_hdr_size : ℕ
consumer_hdr_size = trace_align 4096

-- `_init_ring` for a buffer of `size` bytes; `separate` tells that the consumer's header lies in a
-- buffer of its own. The mode is set by the callers.
unfoldable pub init_ring : ℕ → Bool → Mode → Option Trace
init_ring size separate m =
    if ltb size (producer_hdr_size + consumer_hdr_size)
    then none
    else let bytes =
        if separate
        then size - producer_hdr_size
        else size - producer_hdr_size - consumer_hdr_size in
      let ring = bytes / 16 * 16 in
      some (record { mode = m; ring_size = ring; ring_size_almost_empty = ring * 2 / 10 })

-- The shared memory after `_init_producer`.
abbrev pub fresh : Bool → Shared
fresh separate = record {
  magic = trace_magic_buffer;
  version = trace_ver;
  closed = 0;
  wr_ptr = 0;
  wr_lock = 0;
  lost = 0;
  has_chdr = if separate then 1 else 0;
  rd_ptr = 0;
  rd_lock = 0;
  ring = λ p. byte 0;
}

abbrev pub Opening : Type 0
Opening = Status × Option Trace × Shared

abbrev pub init_producer : Bool → Shared → Option Trace → Opening
init_producer separate s none = (enospc, none, s)
init_producer separate s (some t) = (ok, some t, fresh separate)

abbrev pub same_bool : Bool → Bool → Bool
same_bool true b = b
same_bool false b = not b

abbrev pub init_consumer : Bool → Shared → Option Trace → Opening
init_consumer separate s none = (enospc, none, s)
init_consumer separate s (some t) =
    if not (is_trace_valid s)
    then (einval, none, s)
    else if same_bool (not (s.has_chdr == 0)) separate
    then (ok, some t, s)
    else (einval, none, s)

abbrev pub init : ℕ → Bool → Shared → Mode → Opening
init size separate s producer = init_producer separate s (init_ring size separate producer)
init size separate s consumer = init_consumer separate s (init_ring size separate consumer)
init size separate s other_mode = (einval, none, s)

-- `octf_trace_open`; `memory` tells whether the handle could be allocated.
unfoldable pub open_trace : ℕ → Bool → Bool → Mode → Shared → Opening
open_trace size separate memory m s =
    if ltb size min_buffer_size
    then (enobufs, none, s)
    else if memory
    then init size separate s m
    else (enomem, none, s)

-- `octf_trace_close`.
unfoldable pub close_trace : Trace → Shared → Shared
close_trace t s = if is_producer t && is_trace_valid s then record s { closed = 1 } else s

-- The ring of a buffer that is large enough.
abbrev pub ring_of : ℕ → Bool → ℕ
ring_of size separate =
    (if separate then size - producer_hdr_size else size - producer_hdr_size - consumer_hdr_size)
    / 16
    * 16

init_ring_lem :
    (size : ℕ) (separate : Bool) (m : Mode)
    → min_buffer_size ≤ size
    → init_ring size separate m ≡ some (handle_of m (ring_of size separate))
unfolding init_ring
init_ring_lem size separate m h = ground arith

pub fresh-IsFifo :
    (size : ℕ) (separate : Bool)
    → min_buffer_size ≤ size
    → size < u32_mod
    → IsFifo (ring_of size separate) (record { shared = fresh separate; sent = []; received = [] })
fresh-IsFifo size separate h b = record {
  waiting = [];
  ring = record { aligned = ground arith; magic_set = refl; version_set = refl; stored = refl };
  committed = tt;
  wr_free = refl;
  rd_free = refl;
  order = refl;
}

big_enough : (size : ℕ) → min_buffer_size ≤ size → ltb size min_buffer_size ≡ false
big_enough size h = ground arith

open_trace-producer :
    (size : ℕ) (separate : Bool) (s : Shared)
    → min_buffer_size ≤ size
    → open_trace size separate true producer s
      ≡ (ok, some (handle_of producer (ring_of size separate)), fresh separate)
unfolding open_trace
open_trace-producer size separate s h =
    rw (big_enough size h, init_ring_lem size separate producer h)

valid_opens :
    (separate : Bool) (t : Trace)
    → init_consumer separate (fresh separate) (some t) ≡ (ok, some t, fresh separate)
valid_opens true t = refl
valid_opens false t = refl

open_trace-consumer :
    (size : ℕ) (separate : Bool)
    → min_buffer_size ≤ size
    → open_trace size separate true consumer (fresh separate)
      ≡ (ok, some (handle_of consumer (ring_of size separate)), fresh separate)
unfolding open_trace
open_trace-consumer size separate h = rw (big_enough size h) (
    ap (init_consumer separate (fresh separate)) (init_ring_lem size separate consumer h)
    ∙ valid_opens separate (handle_of consumer (ring_of size separate)))

-- On a buffer of at least 32 KiB and less than 4 GiB, whatever it held before, octf_trace_open as
-- producer and then as consumer with the same header arrangement both succeed with the same ring, and
-- in every later history of pushes (of less than 2 ^ 32 - 15 bytes each) and pops what the consumer has
-- received and what waits in the ring, committed and with its bytes, is what was pushed, in order; and
-- some more pops with a buffer that is large enough hand out all the rest of it.
pub open-run :
    (size : ℕ) (separate : Bool) (s : Shared) (ops : List Op)
    → min_buffer_size ≤ size
    → size < u32_mod
    → AreSmall ops
    → let ring = ring_of size separate in
      let (p, tp, s1) = open_trace size separate true producer s in
      let (c, tc, s2) = open_trace size separate true consumer s1 in
      (p ≡ ok)
      × (c ≡ ok)
      × (tp ≡ some (handle_of producer ring))
      × (tc ≡ some (handle_of consumer ring))
      × Delivers ring (run ring (record { shared = s2; sent = []; received = [] }) ops)
open-run size separate s ops h b small = rw (open_trace-producer size separate s h) (
    rw (open_trace-consumer size separate h) (
      refl,
      refl,
      refl,
      refl,
      run-Delivers (ring_of size separate) _ ops small (fresh-IsFifo size separate h b),
    ))

-- What the consumer of a buffer needs to find: its marks, and the arrangement of headers that it has itself.
abbrev pub IsFor : Bool → Shared → Type 0
IsFor separate s =
    (s.magic ≡ trace_magic_buffer)
    × (s.version ≡ trace_ver)
    × ((s.has_chdr ≡ 0) ↔ (separate ≡ false))

-- The consumer has a handle exactly where the buffer is one for it; in neither case is the memory changed.
abbrev pub Answers : ℕ → Bool → Shared → Opening → Type 0
Answers size separate s opened =
    (IsFor separate s × (opened ≡ (ok, some (handle_of consumer (ring_of size separate)), s)))
    ⊎ (¬ IsFor separate s × (opened ≡ (einval, none, s)))

init_consumer-Answers :
    (size : ℕ) (separate : Bool) (s : Shared)
    → Answers size separate s
        (init_consumer separate s (some (handle_of consumer (ring_of size separate))))
init_consumer-Answers size true s = ground arith
init_consumer-Answers size false s = ground arith

open_trace-Answers :
    (size : ℕ) (separate : Bool) (s : Shared)
    → min_buffer_size ≤ size
    → Answers size separate s (open_trace size separate true consumer s)
unfolding open_trace
open_trace-Answers size separate s h =
    rw (big_enough size h, init_ring_lem size separate consumer h)
      (init_consumer-Answers size separate s)

apart_refused :
    (p c : Bool) (t : Trace) → p ≢ c → init_consumer c (fresh p) (some t) ≡ (einval, none, fresh p)
apart_refused true true t apart = absurd (apart refl)
apart_refused true false t apart = refl
apart_refused false true t apart = refl
apart_refused false false t apart = absurd (apart refl)

open_trace-apart :
    (size : ℕ) (p c : Bool)
    → min_buffer_size ≤ size
    → p ≢ c
    → open_trace size c true consumer (fresh p) ≡ (einval, none, fresh p)
unfolding open_trace
open_trace-apart size p c h apart =
    rw (big_enough size h, init_ring_lem size c consumer h)
      (apart_refused p c (handle_of consumer (ring_of size c)) apart)

-- On a buffer of at least 32 KiB, whatever it held before: after octf_trace_open as producer, a consumer
-- gets a handle if it has the same header arrangement, and -EINVAL if it has the other one. On any
-- memory, a consumer gets a handle exactly where the magic number and the version are right and the
-- producer's header names the arrangement that the consumer has, and -EINVAL otherwise. The consumer
-- changes the memory in no case.
pub consumer_opens :
    (size : ℕ) (p c : Bool) (s : Shared)
    → min_buffer_size ≤ size
    → let (_, _, s1) = open_trace size p true producer s in
      let opened = open_trace size c true consumer s1 in
      (p ≡ c → opened ≡ (ok, some (handle_of consumer (ring_of size c)), s1))
      × (p ≢ c → opened ≡ (einval, none, s1))
      × Answers size c s (open_trace size c true consumer s)
consumer_opens size p c s h = rw (open_trace-producer size p s h) (
  (λ same.
      subst
        (λ (q : Bool).
          open_trace size c true consumer (fresh q)
          ≡ (ok, some (handle_of consumer (ring_of size c)), fresh q))
        (sym same) (open_trace-consumer size c h)),
  (λ apart. open_trace-apart size p c h apart),
  open_trace-Answers size c s h,
)
