-- ===== src/TraceBuffer/Borrow.antt =====
-- The zero-copy reader and the queries of source/octf/trace/trace.c: octf_trace_get_rd_buffer,
-- octf_trace_release_rd_buffer, and what the trace reports of its fill level.
use open_cas_telemetry_frame.Prelude.{
  ℕ, ◌+◌, ◌-◌, ◌≡◌, refl, sym, ap, ◌∙◌, ◌≢◌, true, none, some, List, [], ◌∷◌, map, arith, ltb, ◌==◌,
  if◌then◌else◌,
}
use open_cas_telemetry_frame.TraceBuffer.State.{
  Trace, Shared, EventHdr, byte, consumer, ok, ebusy, trace_align, trace_magic_buffer, trace_ver,
  read_bytes, read_header,
}
use open_cas_telemetry_frame.TraceBuffer.Space.{integrity_check, get_free_space}
use open_cas_telemetry_frame.TraceBuffer.Consumer.{
  get_rd_hdr, move_rd_ptr, lock_rd, unlock_rd, pop, rd_buffer_found, get_rd_buffer,
  release_rd_buffer, trace_is_empty, free_space, is_almost_full,
}
use open_cas_telemetry_frame.TraceBuffer.Allocate.{offset, unwrapped}
use open_cas_telemetry_frame.TraceBuffer.Layout.{Entry, end_of, hdr_of, IsRing}
use open_cas_telemetry_frame.TraceBuffer.Commit.{read_header-header, end_all}
use open_cas_telemetry_frame.TraceBuffer.Push.{end_all-IsStored}
use open_cas_telemetry_frame.TraceBuffer.Pop.{
  head_found, get_rd_hdr_lem, lock_rd-IsRing, unlock_rd-IsRing, integrity_check-data,
  read_bytes-head, advanced, advanced-IsRing,
}

get_rd_buffer_valid :
    (t : Trace) (s : Shared)
    → s.magic ≡ trace_magic_buffer
    → s.version ≡ trace_ver
    → t.mode ≡ consumer
    → s.rd_lock ≡ 0
    → get_rd_buffer t s ≡ rd_buffer_found t (lock_rd s) (get_rd_hdr t (lock_rd s))
unfolding get_rd_buffer
get_rd_buffer_valid t s m v c l = ground arith

get_rd_buffer_lem :
    (t : Trace) (s : Shared) (es : List Entry)
    → t.mode ≡ consumer
    → s.rd_lock ≡ 0
    → IsRing t s es
    → get_rd_buffer t s ≡ rd_buffer_found t (lock_rd s) (head_found t s.rd_ptr es)
get_rd_buffer_lem t s es c l inv =
    get_rd_buffer_valid t s inv.magic_set inv.version_set c l
    ∙ ap (rd_buffer_found t (lock_rd s))
        (get_rd_hdr_lem t (lock_rd s) es (lock_rd-IsRing t s es inv))

pop-busy :
    (t : Trace) (s : Shared) (n : ℕ)
    → s.magic ≡ trace_magic_buffer
    → s.version ≡ trace_ver
    → t.mode ≡ consumer
    → s.rd_lock ≢ 0
    → pop t s n ≡ (ebusy, [], s)
unfolding pop
pop-busy t s n m v c l = ground arith

get_rd_buffer-busy :
    (t : Trace) (s : Shared)
    → s.magic ≡ trace_magic_buffer
    → s.version ≡ trace_ver
    → t.mode ≡ consumer
    → s.rd_lock ≢ 0
    → get_rd_buffer t s ≡ (ebusy, none, s)
unfolding get_rd_buffer
get_rd_buffer-busy t s m v c l = ground arith

release_rd_buffer_lem :
    (t : Trace) (s : Shared) (hdr : ℕ) (h : EventHdr)
    → s.magic ≡ trace_magic_buffer
    → s.version ≡ trace_ver
    → t.mode ≡ consumer
    → read_header s.ring hdr ≡ h
    → integrity_check t h.data_ptr h.data_size ≡ true
    → release_rd_buffer t s hdr ≡ (ok, unlock_rd (move_rd_ptr t s h))
unfolding release_rd_buffer
release_rd_buffer_lem t s hdr h m v p r i = ground arith

module _ (t : Trace) (s : Shared) (e : Entry) (es : List Entry) (c : t.mode ≡ consumer)
    (l : s.rd_lock ≡ 0) (ready : e.ready ≡ true) (inv : IsRing t s (e ∷ es)) where
  borrowed : get_rd_buffer t s ≡ (ok, some s.rd_ptr, lock_rd s)
  unfolding rd_buffer_found
  borrowed =
      get_rd_buffer_lem t s (e ∷ es) c l inv ∙ rw ready (rw (integrity_check-data t s e es inv))

  head_header : read_header s.ring s.rd_ptr ≡ hdr_of t.ring_size s.rd_ptr e
  head_header =
      let here : offset t.ring_size s.rd_ptr ≡ s.rd_ptr = ground (arith, inv.aligned) in
      read_header-header s.ring s.rd_ptr (hdr_of t.ring_size s.rd_ptr e)
        (rw here at inv.stored.0.hdr)

  released : release_rd_buffer t (lock_rd s) s.rd_ptr ≡ (ok, unlock_rd (advanced t s e es inv))
  released =
      release_rd_buffer_lem t (lock_rd s) s.rd_ptr (hdr_of t.ring_size s.rd_ptr e) inv.magic_set
        inv.version_set c head_header (integrity_check-data t s e es inv)

  -- With a committed event at the head of a valid ring and the read lock free, octf_trace_get_rd_buffer
  -- hands out the handle of the oldest event, at whose data the ring holds exactly its bytes. Until it
  -- is released every other pop or get_rd_buffer of a consumer gets -EBUSY and changes nothing, and
  -- octf_trace_release_rd_buffer removes exactly this event, frees the lock and leaves the ring valid.
  pub borrow_and_release :
      let (status, handle, s1) = get_rd_buffer t s in
      let (released, s2) = release_rd_buffer t s1 s.rd_ptr in
      (status ≡ ok)
      × (handle ≡ some s.rd_ptr)
      × (let h = read_header s1.ring s.rd_ptr in
          read_bytes s1.ring h.data_ptr h.data_size ≡ map byte e.payload)
      × ((n : ℕ) → pop t s1 n ≡ (ebusy, [], s1))
      × (get_rd_buffer t s1 ≡ (ebusy, none, s1))
      × (released ≡ ok)
      × (s2.rd_lock ≡ 0)
      × IsRing t s2 es
  borrow_and_release = rw borrowed (
      rw released (
        refl,
        refl,
        rw head_header (read_bytes-head t s e es inv ready),
        (λ n. pop-busy t (lock_rd s) n inv.magic_set inv.version_set c (omega arith)),
        get_rd_buffer-busy t (lock_rd s) inv.magic_set inv.version_set c (omega arith),
        refl,
        refl,
        unlock_rd-IsRing t (advanced t s e es inv) es (advanced-IsRing t s e es inv),
      ))

-- The bytes of the ring that waiting events take up, skipped ones included.
abbrev pub occupied : List Entry → ℕ
occupied [] = 0
occupied (e ∷ es) = 16 + e.gap + trace_align e.size + occupied es

end_all-occupied : (p : ℕ) (es : List Entry) → end_all p es ≡ p + occupied es
end_all-occupied p [] = omega arith
end_all-occupied p (e ∷ es) = omega (arith, end_all-occupied (end_of p e) es)

occupied-unwrapped :
    (t : Trace) (s : Shared) (es : List Entry)
    → IsRing t s es
    → unwrapped t.ring_size s.rd_ptr s.wr_ptr ≡ s.rd_ptr + occupied es
occupied-unwrapped t s es inv =
    sym (end_all-IsStored t.ring_size s.ring s.rd_ptr es _ inv.stored)
    ∙ end_all-occupied s.rd_ptr es

get_free_space_lem :
    (t : Trace) (s : Shared) (es : List Entry)
    → IsRing t s es
    → get_free_space t s.rd_ptr s.wr_ptr + occupied es + 1 ≡ t.ring_size
unfolding get_free_space
get_free_space_lem t s es inv = ground (arith, occupied-unwrapped t s es inv, inv.aligned)

-- The queries on a valid ring that holds the events `es`: octf_trace_get_free_space returns what the
-- waiting events leave of the ring, less the one byte that keeps a full ring from looking empty;
-- octf_trace_is_empty tells whether no event waits; octf_trace_is_almost_full tells whether less than
-- the threshold is free.
pub queries :
    (t : Trace) (s : Shared) (es : List Entry)
    → IsRing t s es
    → (free_space t s ≡ some (t.ring_size - 1 - occupied es))
      × (trace_is_empty s ≡ some (if occupied es == 0 then 1 else 0))
      × (is_almost_full t s
          ≡ some (if ltb (t.ring_size - 1 - occupied es) t.ring_size_almost_empty then 1 else 0))
unfolding free_space trace_is_empty is_almost_full
queries t s es inv =
    let free : get_free_space t s.rd_ptr s.wr_ptr ≡ t.ring_size - 1 - occupied es =
      ground (arith, get_free_space_lem t s es inv) in
    (
      ground (arith, free, inv.magic_set, inv.version_set),
      ground (
        arith,
        get_free_space_lem t s es inv,
        occupied-unwrapped t s es inv,
        inv.magic_set,
        inv.version_set,
      ),
      ground (arith, free, inv.magic_set, inv.version_set),
    )
