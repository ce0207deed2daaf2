-- ===== src/TraceBuffer/Fifo.antt =====
-- Histories of octf_trace_push and octf_trace_pop of source/octf/trace/trace.c: what the consumer
-- receives against what the producer sent.
use open_cas_telemetry_frame.Prelude.{
  ℕ, ◌+◌, ◌*◌, ◌/◌, ◌<◌, ◌≡◌, refl, sym, ap, ◌∙◌, subst, Bool, true, false, List, [], ◌∷◌, ◌++◌,
  map, append_assoc, arith, if◌then◌else◌, length,
}
use mathlib.Core.List.{map-append}
use open_cas_telemetry_frame.Prelude.{append_assoc, ap, sym, subst}
use open_cas_telemetry_frame.TraceBuffer.Consumer.{unlock_rd, no_event}
use open_cas_telemetry_frame.TraceBuffer.State.{enospc}
use open_cas_telemetry_frame.TraceBuffer.State.{
  Trace, Shared, Cell, byte, Mode, producer, consumer, Status, ok, u32_mod,
}
use open_cas_telemetry_frame.TraceBuffer.Producer.{push}
use open_cas_telemetry_frame.TraceBuffer.Consumer.{pop, unlock_rd, no_event}
use open_cas_telemetry_frame.TraceBuffer.Layout.{Entry, IsRing}
use open_cas_telemetry_frame.TraceBuffer.Commit.{commit}
use open_cas_telemetry_frame.TraceBuffer.Push.{Pushes, push-Pushes}
use open_cas_telemetry_frame.TraceBuffer.Reserve.{reserve}
use open_cas_telemetry_frame.TraceBuffer.Pop.{Pops, pop-Pops}

pub data Op : Type 0 where
  put : List ℕ → Op
  get : ℕ → Op

abbrev pub is_ok : Status → Bool
is_ok ok = true
is_ok e = false

-- The shared state, the events whose push succeeded and the events that pops returned, in order.
pub record History : Type 0 where
  pub shared : Shared
  pub sent : List (List ℕ)
  pub received : List (List Cell)

abbrev pub handle_of : Mode → ℕ → Trace
handle_of m size = record { mode = m; ring_size = size; ring_size_almost_empty = size * 2 / 10 }

abbrev pub after_put : History → List ℕ → Status × Shared → History
after_put h event (st, s) = record h {
  shared = s;
  sent = if is_ok st then h.sent ++ event ∷ [] else h.sent;
}

abbrev pub after_get : History → Status × List Cell × Shared → History
after_get h (st, out, s) = record h {
  shared = s;
  received = if is_ok st then h.received ++ out ∷ [] else h.received;
}

unfoldable pub step : ℕ → History → Op → History
step size h (put event) = after_put h event (push (handle_of producer size) h.shared event)
step size h (get n) = after_get h (pop (handle_of consumer size) h.shared n)

unfoldable pub run : ℕ → History → List Op → History
run size h [] = h
run size h (op ∷ ops) = run size (step size h op) ops

abbrev pub payloads : List Entry → List (List Cell)
payloads [] = []
payloads (e ∷ es) = map byte e.payload ∷ payloads es

-- Each event is committed.
abbrev pub AreReady : List Entry → Type 0
AreReady [] = Unit {0}
AreReady (e ∷ es) = (e.ready ≡ true) × AreReady es

-- Both locks are free, the ring holds committed events with their bytes, and what was received and what still waits is what was sent, in order.
pub record IsFifo (size : ℕ) (h : History) : Type 0 where
  pub waiting : List Entry
  pub ring : IsRing (handle_of producer size) h.shared waiting
  pub committed : AreReady waiting
  pub wr_free : h.shared.wr_lock ≡ 0
  pub rd_free : h.shared.rd_lock ≡ 0
  pub order : h.received ++ payloads waiting ≡ map (map byte) h.sent

abbrev pub IsSmall : Op → Type 0
IsSmall (put event) = length event + 15 < u32_mod
IsSmall (get n) = Unit {0}

abbrev pub AreSmall : List Op → Type 0
AreSmall [] = Unit {0}
AreSmall (op ∷ ops) = IsSmall op × AreSmall ops

payloads-append : (es fs : List Entry) → payloads (es ++ fs) ≡ payloads es ++ payloads fs
payloads-append [] fs = refl
payloads-append (e ∷ es) fs = ap (◌∷◌ (map byte e.payload)) (payloads-append es fs)

AreReady-append :
    (es : List Entry) (e : Entry) → AreReady es → e.ready ≡ true → AreReady (es ++ e ∷ [])
AreReady-append [] e h ready = (ready, tt)
AreReady-append (x ∷ es) e h ready = (h.0, AreReady-append es e h.1 ready)

pub handle_any :
    (m n : Mode) (size : ℕ) (s : Shared) (es : List Entry)
    → IsRing (handle_of m size) s es
    → IsRing (handle_of n size) s es
handle_any m n size s es r = record {
  aligned = r.aligned;
  magic_set = r.magic_set;
  version_set = r.version_set;
  stored = r.stored;
}

unlocked-IsRing :
    (t : Trace) (s : Shared) (es : List Entry)
    → IsRing t s es
    → (lost : ℕ) → IsRing t (record s { wr_lock = 0; lost = lost }) es
unlocked-IsRing t s es r lost = record {
  aligned = r.aligned;
  magic_set = r.magic_set;
  version_set = r.version_set;
  stored = r.stored;
}

put-IsFifo :
    (size : ℕ) (h : History) (event : List ℕ) (out : Status × Shared) (f : IsFifo size h)
    → Pushes (handle_of producer size) h.shared f.waiting event out
    → IsFifo size (after_put h event out)
put-IsFifo size h event out f (Pushes.no_space full e) =
    subst (λ o. IsFifo size (after_put h event o)) (sym e)
      (record {
        waiting = f.waiting;
        ring = unlocked-IsRing (handle_of producer size) h.shared f.waiting f.ring _;
        committed = f.committed;
        wr_free = refl;
        rd_free = f.rd_free;
        order = f.order;
      })
put-IsFifo size h event (st, s) f (Pushes.stored gap fits o r same) = rw o (record {
  waiting = f.waiting ++ commit (reserve gap (length event)) event ∷ [];
  ring = r;
  committed =
      AreReady-append f.waiting (commit (reserve gap (length event)) event) f.committed refl;
  wr_free = ap (λ (z : Shared). z.wr_lock) same;
  rd_free = ap (λ (z : Shared). z.rd_lock) same ∙ f.rd_free;
  order =
      ap (◌++◌ h.received)
        (payloads-append f.waiting (commit (reserve gap (length event)) event ∷ []))
      ∙ sym (append_assoc h.received (payloads f.waiting) (map byte event ∷ []))
      ∙ ap (λ l. l ++ map byte event ∷ []) f.order
      ∙ sym (map-append (map byte) h.sent (event ∷ []));
})

rd_unlocked-IsRing :
    (t : Trace) (s : Shared) (es : List Entry) → IsRing t s es → IsRing t (unlock_rd s) es
rd_unlocked-IsRing t s es r = record {
  aligned = r.aligned;
  magic_set = r.magic_set;
  version_set = r.version_set;
  stored = r.stored;
}

-- A pop that hands nothing out.
refused_get :
    (size : ℕ) (h : History) (e : Status)
    → is_ok e ≡ false
    → IsFifo size h
    → IsFifo size (after_get h (e, [], unlock_rd h.shared))
refused_get size h e failed f = rw failed (record {
  waiting = f.waiting;
  ring = rd_unlocked-IsRing (handle_of producer size) h.shared f.waiting f.ring;
  committed = f.committed;
  wr_free = f.wr_free;
  rd_free = refl;
  order = f.order;
})

-- A pop that hands the event `d` out.
pub popped_get :
    (size : ℕ) (h : History) (d : Entry) (rest : List Entry) (st : Status) (cells : List Cell)
    (s : Shared) (f : IsFifo size h)
    → f.waiting ≡ d ∷ rest
    → st ≡ ok
    → cells ≡ map byte d.payload
    → IsRing (handle_of consumer size) s rest
    → s ≡ record h.shared { rd_lock = 0; rd_ptr = s.rd_ptr }
    → (f' : IsFifo size (after_get h (st, cells, s))) × (f'.waiting ≡ rest)
popped_get size h d rest st cells s f w o c r same = rw o (
  record {
    waiting = rest;
    ring = handle_any consumer producer size s rest r;
    committed = (subst AreReady w f.committed).1;
    wr_free = ap (λ (z : Shared). z.wr_lock) same ∙ f.wr_free;
    rd_free = ap (λ (z : Shared). z.rd_lock) same;
    order =
        append_assoc h.received (cells ∷ []) (payloads rest)
        ∙ ap (λ x. h.received ++ x ∷ payloads rest) c
        ∙ ap (λ l. h.received ++ payloads l) (sym w)
        ∙ f.order;
  },
  refl,
)

get-IsFifo :
    (size : ℕ) (h : History) (n : ℕ) (out : Status × List Cell × Shared) (f : IsFifo size h)
    → Pops (handle_of consumer size) h.shared f.waiting n out
    → IsFifo size (after_get h out)
get-IsFifo size h n out f (Pops.blocked b e) =
    subst (λ o. IsFifo size (after_get h o)) (sym e)
      (refused_get size h (no_event h.shared) (ground arith) f)
get-IsFifo size h n out f (Pops.too_small d rest w k l e) =
    subst (λ o. IsFifo size (after_get h o)) (sym e) (refused_get size h enospc refl f)
get-IsFifo size h n (st, cells, s) f (Pops.popped d rest w ready fits o c r same) =
    (popped_get size h d rest st cells s f w o c r same).0

step-IsFifo :
    (size : ℕ) (h : History) (op : Op) → IsSmall op → IsFifo size h → IsFifo size (step size h op)
unfolding step
step-IsFifo size h (put event) b f =
    put-IsFifo size h event _ f
      (push-Pushes (handle_of producer size) h.shared f.waiting event refl f.wr_free b f.ring)
step-IsFifo size h (get n) b f = get-IsFifo size h n _ f (
    pop-Pops (handle_of consumer size) h.shared f.waiting n refl f.rd_free
      (handle_any producer consumer size h.shared f.waiting f.ring))

-- A history keeps the queue.
pub run-IsFifo :
    (size : ℕ) (h : History) (ops : List Op)
    → AreSmall ops
    → IsFifo size h
    → IsFifo size (run size h ops)
unfolding run
run-IsFifo size h [] b f = f
run-IsFifo size h (op ∷ ops) b f =
    run-IsFifo size (step size h op) ops b.1 (step-IsFifo size h op b.0 f)
