-- ===== src/TraceBuffer/Commit.antt =====
-- Filling and committing a waiting event of source/octf/trace/trace.c, wherever it stands in the ring.
use open_cas_telemetry_frame.Prelude.{
  ℕ, ◌+◌, ◌≤◌, ◌<◌, ◌≡◌, refl, ap, ◌∙◌, ◌≢◌, ◌⊎◌, inl, true, List, [], ◌∷◌, ◌++◌, arith, length,
  inr,
}
use open_cas_telemetry_frame.TraceBuffer.State.{
  EventHdr, header, Ring, update, write_bytes, read_header, Trace, Shared, trace_magic_buffer,
  trace_ver,
}
use open_cas_telemetry_frame.TraceBuffer.Allocate.{offset, unwrapped}
use open_cas_telemetry_frame.TraceBuffer.Producer.{set_ready, fill, commit_wr_buffer}
use open_cas_telemetry_frame.TraceBuffer.Space.{integrity_check}
use open_cas_telemetry_frame.TraceBuffer.State.{producer, ok}
use open_cas_telemetry_frame.TraceBuffer.Layout.{
  Entry, data_of, end_of, IsPlaced, IsStored, HasBytes-frame, offset-ne, write_bytes_other,
  HasBytes-write_bytes, hdr_of, IsRing, IsStored-le, IsStored-frame,
}

-- Where the event after `es` starts.
abbrev pub end_all : ℕ → List Entry → ℕ
end_all p [] = p
end_all p (e ∷ es) = end_all (end_of p e) es

pub IsStored-split :
    (size : ℕ) (ring : Ring) (p : ℕ) (before : List Entry) (e : Entry) (after : List Entry) (q : ℕ)
    → IsStored size ring p (before ++ e ∷ after) q
    → IsStored size ring p before (end_all p before)
      × IsPlaced size ring (end_all p before) e
      × IsStored size ring (end_of (end_all p before) e) after q
IsStored-split size ring p [] e after q h = (refl, h.0, h.1)
IsStored-split size ring p (b ∷ before) e after q h =
    let t = IsStored-split size ring (end_of p b) before e after q h.1 in ((h.0, t.0), t.1, t.2)

pub IsStored-join :
    (size : ℕ) (ring : Ring) (p : ℕ) (before : List Entry) (m : ℕ) (e : Entry) (after : List Entry)
    (q : ℕ)
    → IsStored size ring p before m
    → IsPlaced size ring m e
    → IsStored size ring (end_of m e) after q
    → IsStored size ring p (before ++ e ∷ after) q
IsStored-join size ring p [] m e after q h i k = rw h (i, k)
IsStored-join size ring p (b ∷ before) m e after q h i k =
    (h.0, IsStored-join size ring (end_of p b) before m e after q h.1 i k)

-- The ring after the caller wrote `event` at `d` and the header at `hdr` was set to `h`.
abbrev pub written_ring : Ring → ℕ → ℕ → List ℕ → EventHdr → Ring
written_ring ring hdr d event h = update (write_bytes ring d event) hdr (header h)

module _ (size r m q : ℕ) (e : Entry) (ring : Ring) (event : List ℕ) (h : EventHdr)
    (rd_in : r < size) (from : r ≤ m) (to : end_of m e ≤ q) (lap : q < r + size)
    (sized : length event ≡ e.size) (placed : IsPlaced size ring m e) where
  abbrev ring' : Ring
  ring' = written_ring ring (offset size m) (offset size (data_of m e)) event h

  outside_data :
      (x : ℕ)
      → r ≤ x
      → x < q
      → (x < data_of m e) ⊎ (end_of m e ≤ x)
      → (offset size x < offset size (data_of m e))
        ⊎ (offset size (data_of m e) + length event ≤ offset size x)
  outside_data x l u out = ground (arith, placed.fits_data)

  -- Outside the event nothing changes.
  ring'_outside :
      (x : ℕ)
      → r ≤ x
      → x < q
      → (x < m) ⊎ (end_of m e ≤ x)
      → ring' (offset size x) ≡ ring (offset size x)
  ring'_outside x l u out =
      let ne : offset size x ≢ offset size m =
        ground (arith, offset-ne size r x m, offset-ne size r m x) in
      ground (arith, ne)
      ∙ write_bytes_other ring (offset size (data_of m e)) event (offset size x)
          (outside_data x l u (ground arith))

  ring'_hdr : ring' (offset size m) ≡ header h
  ring'_hdr = ground arith

  ring'-IsPlaced :
      h ≡ record { ready = true; data_size = e.size; data_ptr = offset size (data_of m e) }
      → IsPlaced size ring' m (record e { ready = true; payload = event })
  ring'-IsPlaced k = record {
    hdr = ring'_hdr ∙ ap header k;
    gap_aligned = placed.gap_aligned;
    fits_hdr = placed.fits_hdr;
    fits_data = placed.fits_data;
    sized = λ z. sized;
    written = λ z.
        HasBytes-frame (write_bytes ring (offset size (data_of m e)) event) ring'
          (offset size (data_of m e)) event
          (λ y l u. ground (arith, outside_data m from (omega arith) (inl (omega arith))))
          (HasBytes-write_bytes ring (offset size (data_of m e)) event);
  }

pub read_header-header :
    (ring : Ring) (p : ℕ) (h : EventHdr) → ring p ≡ header h → read_header ring p ≡ h
unfolding read_header
read_header-header ring p h e = rw e

commit_wr_buffer_lem :
    (t : Trace) (s : Shared) (hdr : ℕ) (h : EventHdr)
    → s.magic ≡ trace_magic_buffer
    → s.version ≡ trace_ver
    → t.mode ≡ producer
    → read_header s.ring hdr ≡ h
    → integrity_check t h.data_ptr h.data_size ≡ true
    → commit_wr_buffer t s hdr ≡ (ok, set_ready s hdr)
unfolding commit_wr_buffer
commit_wr_buffer_lem t s hdr h m v p r i = ground arith

-- The entry `e`, filled with `event` and committed.
abbrev pub commit : Entry → List ℕ → Entry
commit e event = record e { ready = true; payload = event }

module _ (t : Trace) (s : Shared) (before : List Entry) (e : Entry) (after : List Entry)
    (event : List ℕ) where
  -- The offset of the header of `e`, the handle that the producer holds.
  abbrev pub handle : ℕ
  handle = offset t.ring_size (end_all s.rd_ptr before)

  abbrev pub filled : Ring
  filled =
      written_ring s.ring handle (offset t.ring_size (data_of (end_all s.rd_ptr before) e)) event
        (record (hdr_of t.ring_size (end_all s.rd_ptr before) e) { ready = true })

  module _ (inv : IsRing t s (before ++ e ∷ after)) (sized : length event ≡ e.size) where
    parts :
        let m = end_all s.rd_ptr before in
        let q = unwrapped t.ring_size s.rd_ptr s.wr_ptr in
        IsStored t.ring_size s.ring s.rd_ptr before m
        × IsPlaced t.ring_size s.ring m e
        × IsStored t.ring_size s.ring (end_of m e) after q
        × (s.rd_ptr ≤ m)
        × (end_of m e ≤ q)
        × (q < s.rd_ptr + t.ring_size)
    parts =
        let m = end_all s.rd_ptr before in
        let q = unwrapped t.ring_size s.rd_ptr s.wr_ptr in
        let split = IsStored-split t.ring_size s.ring s.rd_ptr before e after q inv.stored in
        (
          split.0,
          split.1,
          split.2,
          IsStored-le t.ring_size s.ring s.rd_ptr before m split.0,
          IsStored-le t.ring_size s.ring (end_of m e) after q split.2,
          ground (arith, inv.aligned),
        )

    filled-IsStored :
        IsStored t.ring_size filled s.rd_ptr
          (before ++ commit e event ∷ after)
          (unwrapped t.ring_size s.rd_ptr s.wr_ptr)
    filled-IsStored =
        let size = t.ring_size in
        let r = s.rd_ptr in
        let m = end_all s.rd_ptr before in
        let q = unwrapped t.ring_size s.rd_ptr s.wr_ptr in
        let (b, i, a, from, to, lap) = parts in
        let h = record (hdr_of size m e) { ready = true } in
        let outside =
          ring'_outside size r m q e s.ring event h inv.aligned.rd_in from to lap sized i in
        IsStored-join size filled r before m (commit e event) after q
          (IsStored-frame size s.ring filled r before m (λ x l u. outside x l (omega arith) (inl u))
            (omega (arith, inv.aligned.rd_in)) b)
          (ring'-IsPlaced size r m q e s.ring event h inv.aligned.rd_in from to lap sized i refl)
          (IsStored-frame size s.ring filled (end_of m e) after q
            (λ x l u. outside x (omega arith) u (inr l)) (omega (arith, inv.aligned.rd_in)) a)

    fill_lem : fill s handle event ≡ record s {
      ring = write_bytes s.ring (offset t.ring_size (data_of (end_all s.rd_ptr before) e)) event;
    }
    unfolding fill
    fill_lem = rw (read_header-header s.ring handle _ parts.1.hdr)

    pub set_ready-fill : set_ready (fill s handle event) handle ≡ record s { ring = filled }
    set_ready-fill =
        let size = t.ring_size in
        let r = s.rd_ptr in
        let m = end_all s.rd_ptr before in
        let q = unwrapped t.ring_size s.rd_ptr s.wr_ptr in
        let (b, i, a, from, to, lap) = parts in
        let untouched = write_bytes_other s.ring (offset size (data_of m e)) event handle (
          outside_data size r m q e s.ring event (hdr_of size m e) inv.aligned.rd_in from to lap
            sized i m from (omega arith) (inl (omega arith))) in
        let read =
          read_header-header (write_bytes s.ring (offset size (data_of m e)) event) handle
            (hdr_of size m e) (untouched ∙ i.hdr) in
        rw fill_lem (rw read)

    pub filled-IsRing : IsRing t (record s { ring = filled }) (before ++ commit e event ∷ after)
    filled-IsRing = record {
      aligned = inv.aligned;
      magic_set = inv.magic_set;
      version_set = inv.version_set;
      stored = filled-IsStored;
    }

    read_header-fill :
        read_header (fill s handle event).ring handle
        ≡ hdr_of t.ring_size (end_all s.rd_ptr before) e
    read_header-fill =
        let size = t.ring_size in
        let r = s.rd_ptr in
        let m = end_all s.rd_ptr before in
        let q = unwrapped t.ring_size s.rd_ptr s.wr_ptr in
        let (b, i, a, from, to, lap) = parts in
        rw fill_lem (
          read_header-header _ handle (hdr_of size m e) (
            write_bytes_other s.ring (offset size (data_of m e)) event handle (
              outside_data size r m q e s.ring event (hdr_of size m e) inv.aligned.rd_in from to lap
                sized i m from (omega arith) (inl (omega arith)))
            ∙ i.hdr))

    fill_valid :
        ((fill s handle event).magic ≡ trace_magic_buffer)
        × ((fill s handle event).version ≡ trace_ver)
    unfolding fill
    fill_valid = (inv.magic_set, inv.version_set)

    integrity_check-hdr :
        let d = offset t.ring_size (data_of (end_all s.rd_ptr before) e) in
        integrity_check t d e.size ≡ true
    unfolding integrity_check
    integrity_check-hdr =
        let (b, i, a, from, to, lap) = parts in ground (arith, i.fits_data, inv.aligned)

    -- Whichever waiting event the producer fills with as many bytes as it asked for and commits,
    -- wherever it stands in the queue: octf_trace_commit_wr_buffer succeeds, this event becomes ready
    -- with those bytes, and every other waiting event, its order and the pointers stay as they are.
    pub commit_wr_buffer-fill :
        t.mode ≡ producer
        → let (status, s') = commit_wr_buffer t (fill s handle event) handle in
          (status ≡ ok)
          × (s' ≡ record s { ring = filled })
          × IsRing t s' (before ++ commit e event ∷ after)
    commit_wr_buffer-fill p =
        let done =
          commit_wr_buffer_lem t (fill s handle event) handle
            (hdr_of t.ring_size (end_all s.rd_ptr before) e) fill_valid.0 fill_valid.1 p
            read_header-fill integrity_check-hdr
          ∙ ap (λ (z : Shared). (ok, z)) set_ready-fill in
        rw done (refl, refl, filled-IsRing)
