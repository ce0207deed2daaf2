-- ===== src/TraceBuffer/Push.antt =====
-- octf_trace_push of source/octf/trace/trace.c on a ring that holds a queue of events.
use open_cas_telemetry_frame.TraceBuffer.Reserve.{
  hdr_same, open_event_lem, opening, reserve, reserved, reserved-IsRing,
}
use open_cas_telemetry_frame.TraceBuffer.Producer.{set_ready, fill, copy_and_commit, push}
use open_cas_telemetry_frame.TraceBuffer.Commit.{
  commit, handle, filled, end_all, set_ready-fill, filled-IsRing,
}
use open_cas_telemetry_frame.TraceBuffer.Producer.{opened, set_ready, fill, copy_and_commit, push}
use open_cas_telemetry_frame.TraceBuffer.Commit.{
  commit, handle, filled, end_all, set_ready-fill, filled-IsRing,
}
use open_cas_telemetry_frame.TraceBuffer.State.{producer, Status, ok, enospc, Ring}
use open_cas_telemetry_frame.Prelude.{
  ℕ, ◌+◌, ◌<◌, ◌≡◌, refl, ◌∙◌, none, some, List, [], ◌∷◌, ◌++◌, add64, ap, length, Option-cases,
  sym, inl, inr,
}
use open_cas_telemetry_frame.TraceBuffer.State.{Trace, Shared, trace_align, u32_mod}
use open_cas_telemetry_frame.TraceBuffer.Allocate.{room, offset}
use open_cas_telemetry_frame.TraceBuffer.Layout.{Entry, end_of, IsRing, IsStored}

-- The outcome of octf_trace_push.
pub data Pushes (t : Trace) (s : Shared) (es : List Entry) (event : List ℕ) (out : Status × Shared)
    : Type 0 where
  no_space :
      room t.ring_size s.rd_ptr s.wr_ptr (trace_align (length event)) ≡ none
      → out ≡ (enospc, record s { wr_lock = 0; lost = add64 s.lost 1 })
      → Pushes t s es event out
  stored :
      (gap : ℕ)
      → room t.ring_size s.rd_ptr s.wr_ptr (trace_align (length event)) ≡ some gap
      → out.0 ≡ ok
      → IsRing t out.1 (es ++ commit (reserve gap (length event)) event ∷ [])
      → out.1 ≡ record s { wr_lock = 0; ring = out.1.ring; wr_ptr = out.1.wr_ptr }
      → Pushes t s es event out

pub end_all-IsStored :
    (size : ℕ) (ring : Ring) (p : ℕ) (es : List Entry) (q : ℕ)
    → IsStored size ring p es q
    → end_all p es ≡ q
end_all-IsStored size ring p [] q h = h
end_all-IsStored size ring p (e ∷ es) q h = end_all-IsStored size ring (end_of p e) es q h.1

copy_and_commit_lem :
    (s : Shared) (hdr : ℕ) (event : List ℕ)
    → copy_and_commit event (opened hdr, s) ≡ (ok, set_ready (fill s hdr event) hdr)
unfolding fill
copy_and_commit_lem s hdr event = refl

module _ (t : Trace) (s : Shared) (es : List Entry) (event : List ℕ) (gap : ℕ) (inv : IsRing t s es)
    (fits : room t.ring_size s.rd_ptr s.wr_ptr (trace_align (length event)) ≡ some gap) where
  abbrev new : Shared
  new = reserved t s (length event) gap

  abbrev entry : Entry
  entry = reserve gap (length event)

  new-handle : handle t new es entry [] event ≡ s.wr_ptr
  new-handle =
      ap (offset t.ring_size) (end_all-IsStored t.ring_size s.ring s.rd_ptr es _ inv.stored)
      ∙ hdr_same t s es (length event) gap inv fits

  pushed_state :
      copy_and_commit event (opened s.wr_ptr, new)
      ≡ (ok, record new { ring = filled t new es entry [] event })
  pushed_state =
      copy_and_commit_lem new s.wr_ptr event
      ∙ ap (λ (z : Shared). (ok, z))
          (ap (λ h. set_ready (fill new h event) h) (sym new-handle)
            ∙ set_ready-fill t new es entry [] event
                (reserved-IsRing t s es (length event) gap inv fits) refl)

-- octf_trace_push by the producer of less than 2 ^ 32 - 15 bytes, with the write lock free, on a
-- valid ring that holds the events `es`: where header and data have room it succeeds, appends one committed event with exactly these
-- bytes to the queue, moves nothing but the write pointer, and the ring stays valid; otherwise it
-- returns -ENOSPC, counts one lost event and changes nothing else. No assertion fails.
pub push-Pushes :
    (t : Trace) (s : Shared) (es : List Entry) (event : List ℕ)
    → t.mode ≡ producer
    → s.wr_lock ≡ 0
    → length event + 15 < u32_mod
    → IsRing t s es
    → Pushes t s es event (push t s event)
unfolding push
push-Pushes t s es event p l b inv =
    let e = ap (copy_and_commit event) (open_event_lem t s es (length event) p l b inv) in
    elim (Option-cases (room t.ring_size s.rd_ptr s.wr_ptr (trace_align (length event)))) [
      | inl full ↦
          Pushes.no_space full
            (e ∙ ap (λ r. copy_and_commit event (opening t s (length event) r)) full)
      | inr (gap, fits) ↦
          let done =
            e
            ∙ ap (λ r. copy_and_commit event (opening t s (length event) r)) fits
            ∙ pushed_state t s es event gap inv fits in
          stored gap fits (ap (λ o. o.0) done)
            (rw done (
              filled-IsRing t (reserved t s (length event) gap) es (reserve gap (length event)) []
                event (reserved-IsRing t s es (length event) gap inv fits) refl))
            (rw done)
    ]
