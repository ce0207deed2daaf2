-- ===== src/TraceBuffer/Drained.antt =====
-- Histories of octf_trace_push and octf_trace_pop of source/octf/trace/trace.c, and their end.
use open_cas_telemetry_frame.Prelude.{
  ℕ, zero, suc, ◌+◌, ◌≤◌, ◌<◌, ◌≡◌, refl, sym, ap, ◌∙◌, subst, false, List, [], ◌∷◌, ◌++◌, map,
  append-nil, arith, length, replicate,
}
use open_cas_telemetry_frame.TraceBuffer.State.{Shared, Cell, byte, producer, consumer, Status}
use open_cas_telemetry_frame.TraceBuffer.Layout.{Entry}
use open_cas_telemetry_frame.TraceBuffer.Pop.{Pops, pop-Pops, is_blocked}
use open_cas_telemetry_frame.TraceBuffer.Fifo.{
  Op, get, History, after_get, step, run, payloads, AreReady, IsFifo, AreSmall, handle_of,
  handle_any, popped_get, run-IsFifo,
}

-- The history is right, and pops hand out all the rest of what was sent.
abbrev pub Delivers : ℕ → History → Type 0
Delivers size h =
    IsFifo size h
    × (n : ℕ) × (k : ℕ) × ((run size h (replicate k (get n))).received ≡ map (map byte) h.sent)

-- A buffer of `n` bytes is large enough for each event.
abbrev AreWithin : ℕ → List Entry → Type 0
AreWithin n [] = Unit {0}
AreWithin n (e ∷ es) = (e.size ≤ n) × AreWithin n es

abbrev total_size : List Entry → ℕ
total_size [] = 0
total_size (e ∷ es) = e.size + total_size es

AreWithin-total_size : (n : ℕ) (es : List Entry) → total_size es ≤ n → AreWithin n es
AreWithin-total_size n [] h = tt
AreWithin-total_size n (e ∷ es) h = (omega (arith, h), AreWithin-total_size n es (omega (arith, h)))

is_blocked-AreReady : (es : List Entry) → AreReady es → 0 < length es → is_blocked es ≡ false
is_blocked-AreReady [] h some_event = ground arith
is_blocked-AreReady (e ∷ es) h some_event = rw h.0 refl

length-zero : (es : List Entry) → length es ≡ 0 → es ≡ []
length-zero [] h = refl
length-zero (e ∷ es) h = ground (arith, h)

-- The pop of the next event.
abbrev Gets : ℕ → ℕ → ℕ → History → History → Type 0
Gets size n k h g =
    (h' : History) × (g ≡ h')
    × (f' : IsFifo size h') × (length f'.waiting ≡ k)
    × AreWithin n f'.waiting
    × (h'.sent ≡ h.sent)

get_waiting :
    (size n k : ℕ) (h : History) (f : IsFifo size h) (out : Status × List Cell × Shared)
    → length f.waiting ≡ suc k
    → AreWithin n f.waiting
    → Pops (handle_of consumer size) h.shared f.waiting n out
    → Gets size n k h (after_get h out)
get_waiting size n k h f out left within (Pops.blocked b e) =
    let ready = is_blocked-AreReady f.waiting f.committed (omega (arith, left)) in
    ground (arith, b, ready)
get_waiting size n k h f out left within (Pops.too_small d rest w r l e) =
    let fits = (subst (AreWithin n) w within).0 in ground (arith, fits, l)
get_waiting size n k h f (st, cells, s) left within (Pops.popped d rest w ready fits o c r same) = (
  after_get h (st, cells, s),
  refl,
  (popped_get size h d rest st cells s f w o c r same).0,
  ap length (popped_get size h d rest st cells s f w o c r same).1
      ∙ omega (arith, ap length w, left),
  subst (AreWithin n) (sym (popped_get size h d rest st cells s f w o c r same).1)
      (subst (AreWithin n) w within).1,
  refl,
)

get_next :
    (size n k : ℕ) (h : History) (f : IsFifo size h)
    → length f.waiting ≡ suc k
    → AreWithin n f.waiting
    → Gets size n k h (step size h (get n))
unfolding step
get_next size n k h f left within = get_waiting size n k h f _ left within (
    pop-Pops (handle_of consumer size) h.shared f.waiting n refl f.rd_free
      (handle_any producer consumer size h.shared f.waiting f.ring))

-- The pops of the events that wait, `k` being their number.
drain :
    (size n k : ℕ) (h : History) (f : IsFifo size h)
    → length f.waiting ≡ k
    → AreWithin n f.waiting
    → (run size h (replicate k (get n))).received ≡ map (map byte) h.sent
unfolding run step
drain size n zero h f left within =
    let none_waits = length-zero f.waiting left in
    sym (append-nil h.received)
    ∙ ap (λ (es : List Entry). h.received ++ payloads es) (sym none_waits)
    ∙ f.order
drain size n (suc k) h f left within =
    let (h', same, f', left', within', sent) = get_next size n k h f left within in
    ap (λ (g : History). (run size g (replicate k (get n))).received) same
    ∙ drain size n k h' f' left' within'
    ∙ ap (map (map byte)) sent

-- In every history of pushes (of less than 2 ^ 32 - 15 bytes each) and pops, in any order, on a ring
-- that held a queue of committed events in order: the events that pops returned, followed by those that
-- still wait, are exactly the events whose push succeeded, each with exactly its bytes, in the order in
-- which they were pushed; each of those that wait is committed, its bytes stand in the ring, and the ring
-- stays valid. After some more pops with a buffer that is large enough, the events that pops returned are
-- all the events whose push succeeded.
pub run-Delivers :
    (size : ℕ) (h : History) (ops : List Op)
    → AreSmall ops
    → IsFifo size h
    → Delivers size (run size h ops)
run-Delivers size h ops b f =
    let f' = run-IsFifo size h ops b f in
    let n = total_size f'.waiting in
    (
      f',
      n,
      length f'.waiting,
      drain size n (length f'.waiting) (run size h ops) f' refl
          (AreWithin-total_size n f'.waiting (omega arith)),
    )
