-- ===== src/TraceBuffer/Pop.antt =====
-- octf_trace_pop, octf_trace_get_rd_buffer and octf_trace_release_rd_buffer of
-- source/octf/trace/trace.c on a ring that holds a queue of events.
use open_cas_telemetry_frame.Prelude.{ltb}
use open_cas_telemetry_frame.TraceBuffer.State.{
  Cell, byte, consumer, Status, ok, enospc, trace_magic_buffer, trace_ver, read_bytes,
}
use open_cas_telemetry_frame.TraceBuffer.Layout.{read_bytes_lem}
use open_cas_telemetry_frame.TraceBuffer.Consumer.{lock_rd, unlock_rd, no_event, pop_found, pop}
use open_cas_telemetry_frame.Prelude.{
  ℕ, ◌+◌, ◌-◌, ◌≤◌, ◌<◌, ◌≡◌, refl, sym, ap, ◌∙◌, inl, inr, Bool, true, false, not, List, [], ◌∷◌,
  map, arith, ltb, ◌==◌, if◌then◌else◌, ltb→lt, Bool-cases,
}
use open_cas_telemetry_frame.TraceBuffer.State.{
  Trace, Shared, EventHdr, Cell, byte, Ring, consumer, Status, ok, enospc, trace_align,
  trace_magic_buffer, trace_ver, read_bytes,
}
use open_cas_telemetry_frame.TraceBuffer.Space.{integrity_check}
use open_cas_telemetry_frame.TraceBuffer.Consumer.{
  Found, found, nothing, get_rd_hdr, move_rd_ptr, lock_rd, unlock_rd, no_event, pop_found, pop,
}
use open_cas_telemetry_frame.TraceBuffer.Allocate.{IsAligned, offset, unwrapped, move_ptr_lem}
use open_cas_telemetry_frame.TraceBuffer.Layout.{
  Entry, data_of, end_of, hdr_of, IsStored, IsRing, IsStored-le, IsStored-rebase, read_bytes_lem,
}
use open_cas_telemetry_frame.TraceBuffer.Commit.{read_header-header}

abbrev pub head_found : Trace → ℕ → List Entry → Found
head_found t p [] = nothing
head_found t p (e ∷ es) = if e.ready then found (hdr_of t.ring_size p e) else nothing

integrity_check-hdr :
    (t : Trace) (rd wr : ℕ) → IsAligned t.ring_size rd wr → integrity_check t rd 16 ≡ true
unfolding integrity_check
integrity_check-hdr t rd wr a = ground arith

pub get_rd_hdr_lem :
    (t : Trace) (s : Shared) (es : List Entry)
    → IsRing t s es
    → get_rd_hdr t s ≡ head_found t s.rd_ptr es
unfolding get_rd_hdr
get_rd_hdr_lem t s [] inv =
    let e : s.rd_ptr ≡ s.wr_ptr = ground (arith, inv.stored, inv.aligned) in
    let b : (s.rd_ptr == s.wr_ptr) ≡ true = ground arith in rw b
get_rd_hdr_lem t s (e ∷ es) inv =
    let le = IsStored-le t.ring_size s.ring (end_of s.rd_ptr e) es _ inv.stored.1 in
    let b : (s.rd_ptr == s.wr_ptr) ≡ false = ground arith in
    let here : offset t.ring_size s.rd_ptr ≡ s.rd_ptr = ground (arith, inv.aligned) in
    let read =
      read_header-header s.ring s.rd_ptr (hdr_of t.ring_size s.rd_ptr e)
        (rw here at inv.stored.0.hdr) in
    rw b (rw (integrity_check-hdr t s.rd_ptr s.wr_ptr inv.aligned) (rw read))

-- Counting the write pointer from the read pointer's next place.
unwrapped_advance :
    (size rd wr p : ℕ)
    → rd < size
    → wr < size
    → rd ≤ p
    → p ≤ unwrapped size rd wr
    → p < size
    → unwrapped size p wr ≡ unwrapped size rd wr
unwrapped_advance size rd wr p h k l u c = ground arith

unwrapped_rebase :
    (size rd wr p : ℕ)
    → rd < size
    → wr < size
    → p ≤ unwrapped size rd wr
    → size ≤ p
    → unwrapped size (p - size) wr ≡ unwrapped size rd wr - size
unwrapped_rebase size rd wr p h k u c = ground arith

stored_advance :
    (size : ℕ) (ring : Ring) (rd wr p : ℕ) (es : List Entry)
    → rd < size
    → wr < size
    → rd ≤ p
    → IsStored size ring p es (unwrapped size rd wr)
    → IsStored size ring (offset size p) es (unwrapped size (offset size p) wr)
stored_advance size ring rd wr p es h k l s =
    let le = IsStored-le size ring p es (unwrapped size rd wr) s in
    elim (Bool-cases (ltb p size)) [
      | inl lap ↦ rw lap (rw (unwrapped_advance size rd wr p h k l le (ltb→lt p size lap)) s)
      | inr next ↦
          let over : size ≤ p = ground arith in
          rw next (
            rw (unwrapped_rebase size rd wr p h k le over)
              (IsStored-rebase size ring p es (unwrapped size rd wr) over (ground arith) s))
    ]

module _ (t : Trace) (s : Shared) (e : Entry) (es : List Entry) (inv : IsRing t s (e ∷ es)) where
  -- Behind the first event.
  abbrev pub advanced : Shared
  advanced = move_rd_ptr t s (hdr_of t.ring_size s.rd_ptr e)

  end_in : end_of s.rd_ptr e < s.rd_ptr + t.ring_size
  end_in =
      ground
        (arith, IsStored-le t.ring_size s.ring (end_of s.rd_ptr e) es _ inv.stored.1, inv.aligned)

  advanced_rd : advanced.rd_ptr ≡ offset t.ring_size (end_of s.rd_ptr e)
  advanced_rd =
      let d : ℕ = offset t.ring_size (data_of s.rd_ptr e) in
      let fits = inv.stored.0.fits_data in
      ground (arith, move_ptr_lem t d (trace_align e.size), fits, inv.aligned, end_in)

  pub advanced-IsRing : IsRing t advanced es
  advanced-IsRing = record {
    aligned = rw advanced_rd (ground (arith, inv.aligned, inv.stored.0.gap_aligned, end_in));
    magic_set = inv.magic_set;
    version_set = inv.version_set;
    stored = rw advanced_rd (
        stored_advance t.ring_size s.ring s.rd_ptr s.wr_ptr (end_of s.rd_ptr e) es inv.aligned.rd_in
          inv.aligned.wr_in (omega arith) inv.stored.1);
  }

  pub integrity_check-data :
      integrity_check t (offset t.ring_size (data_of s.rd_ptr e)) e.size ≡ true
  unfolding integrity_check
  integrity_check-data = ground (arith, inv.stored.0.fits_data, inv.aligned, end_in)

  pub read_bytes-head :
      e.ready ≡ true
      → read_bytes s.ring (offset t.ring_size (data_of s.rd_ptr e)) e.size ≡ map byte e.payload
  read_bytes-head k =
      ap (read_bytes s.ring (offset t.ring_size (data_of s.rd_ptr e))) (sym (inv.stored.0.sized k))
      ∙ read_bytes_lem s.ring (offset t.ring_size (data_of s.rd_ptr e)) e.payload
          (inv.stored.0.written k)

-- No event is to be had: none waits, or the oldest is not committed.
abbrev pub is_blocked : List Entry → Bool
is_blocked [] = true
is_blocked (e ∷ es) = not e.ready

-- The outcome of octf_trace_pop with a buffer of `room` bytes on a ring that holds `es`.
pub data Pops (t : Trace) (s : Shared) (es : List Entry) (room : ℕ)
    (out : Status × List Cell × Shared) : Type 0 where
  blocked : is_blocked es ≡ true → out ≡ (no_event s, [], unlock_rd s) → Pops t s es room out
  too_small :
      (e : Entry) (rest : List Entry)
      → es ≡ e ∷ rest
      → e.ready ≡ true
      → room < e.size
      → out ≡ (enospc, [], unlock_rd s)
      → Pops t s es room out
  popped :
      (e : Entry) (rest : List Entry)
      → es ≡ e ∷ rest
      → e.ready ≡ true
      → e.size ≤ room
      → out.0 ≡ ok
      → out.1 ≡ map byte e.payload
      → IsRing t out.2 rest
      → out.2 ≡ record s { rd_lock = 0; rd_ptr = out.2.rd_ptr }
      → Pops t s es room out

pop_valid :
    (t : Trace) (s : Shared) (room : ℕ)
    → s.magic ≡ trace_magic_buffer
    → s.version ≡ trace_ver
    → t.mode ≡ consumer
    → s.rd_lock ≡ 0
    → pop t s room ≡ pop_found t (lock_rd s) room (get_rd_hdr t (lock_rd s))
unfolding pop
pop_valid t s room m v c l = ground arith

pub lock_rd-IsRing :
    (t : Trace) (s : Shared) (es : List Entry) → IsRing t s es → IsRing t (lock_rd s) es
lock_rd-IsRing t s es inv = record {
  aligned = inv.aligned;
  magic_set = inv.magic_set;
  version_set = inv.version_set;
  stored = inv.stored;
}

pop_found-nothing :
    (t : Trace) (s : Shared) (room : ℕ)
    → pop_found t (lock_rd s) room nothing ≡ (no_event s, [], unlock_rd s)
unfolding pop_found
pop_found-nothing t s room = refl

pub unlock_rd-IsRing :
    (t : Trace) (s : Shared) (es : List Entry) → IsRing t s es → IsRing t (unlock_rd s) es
unlock_rd-IsRing t s es inv = record {
  aligned = inv.aligned;
  magic_set = inv.magic_set;
  version_set = inv.version_set;
  stored = inv.stored;
}

-- What a successful octf_trace_pop returns.
abbrev taken : Trace → Shared → EventHdr → Status × List Cell × Shared
taken t s h = (ok, read_bytes s.ring h.data_ptr h.data_size, unlock_rd (move_rd_ptr t s h))

pop_found-found :
    (t : Trace) (s : Shared) (room : ℕ) (h : EventHdr)
    → integrity_check t h.data_ptr h.data_size ≡ true
    → pop_found t (lock_rd s) room (found h)
      ≡ (if ltb room h.data_size then (enospc, [], unlock_rd s) else taken t s h)
unfolding pop_found
pop_found-found t s room h i = rw i

pop_lem :
    (t : Trace) (s : Shared) (es : List Entry) (room : ℕ)
    → t.mode ≡ consumer
    → s.rd_lock ≡ 0
    → IsRing t s es
    → pop t s room ≡ pop_found t (lock_rd s) room (head_found t s.rd_ptr es)
pop_lem t s es room c l inv =
    pop_valid t s room inv.magic_set inv.version_set c l
    ∙ ap (pop_found t (lock_rd s) room)
        (get_rd_hdr_lem t (lock_rd s) es (lock_rd-IsRing t s es inv))

pub pop-Pops :
    (t : Trace) (s : Shared) (es : List Entry) (room : ℕ)
    → t.mode ≡ consumer
    → s.rd_lock ≡ 0
    → IsRing t s es
    → Pops t s es room (pop t s room)
pop-Pops t s [] room c l inv =
    blocked refl (pop_lem t s [] room c l inv ∙ pop_found-nothing t s room)
pop-Pops t s (e ∷ es) room c l inv = elim (Bool-cases e.ready) [
  | inr waits ↦
      blocked (rw waits) (pop_lem t s (e ∷ es) room c l inv ∙ rw waits (pop_found-nothing t s room))
  | inl ready ↦
      let h = hdr_of t.ring_size s.rd_ptr e in
      let there : head_found t s.rd_ptr (e ∷ es) ≡ found h = rw ready in
      let done =
        pop_lem t s (e ∷ es) room c l inv
        ∙ ap (pop_found t (lock_rd s) room) there
        ∙ pop_found-found t s room h (integrity_check-data t s e es inv) in
      elim (Bool-cases (ltb room e.size)) [
        | inl small ↦
            too_small e es refl ready (ltb→lt room e.size small)
              (done ∙ ap (λ b. if b then (enospc, [], unlock_rd s) else taken t s h) small)
        | inr fits ↦
            let out = done ∙ ap (λ b. if b then (enospc, [], unlock_rd s) else taken t s h) fits in
            popped e es refl ready (ground arith) (ap (λ o. o.0) out)
              (ap (λ o. o.1) out ∙ read_bytes-head t s e es inv ready)
              (rw out
                (unlock_rd-IsRing t (advanced t s e es inv) es (advanced-IsRing t s e es inv)))
              (rw out)
      ]
]
