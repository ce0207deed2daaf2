-- ===== src/TraceBuffer/Tests.antt =====
-- Tests of the model of source/octf/trace/trace.c on a ring of 64 bytes, and its theorems at work.
use open_cas_telemetry_frame.Prelude.{
  ℕ, ◌≡◌, refl, ◌≢◌, true, false, none, some, List, [], ◌∷◌, map, arith,
}
use open_cas_telemetry_frame.TraceBuffer.State.{
  Trace, Shared, Mode, producer, consumer, ok, einval, ebusy, byte, read_header, read_bytes,
}
use open_cas_telemetry_frame.TraceBuffer.Producer.{push, get_wr_buffer, fill, commit_wr_buffer}
use open_cas_telemetry_frame.TraceBuffer.Consumer.{
  pop, get_rd_buffer, release_rd_buffer, free_space, trace_is_empty, is_almost_full,
}
use open_cas_telemetry_frame.TraceBuffer.Layout.{IsRing}
use open_cas_telemetry_frame.TraceBuffer.Commit.{
  commit, commit_wr_buffer-fill, filled, filled-IsRing,
}
use open_cas_telemetry_frame.TraceBuffer.Push.{Pushes, push-Pushes}
use open_cas_telemetry_frame.TraceBuffer.Reserve.{
  reserve, reserved, reserved-IsRing, Reserves, get_wr_buffer-Reserves,
}
use open_cas_telemetry_frame.TraceBuffer.Drained.{Delivers, run-Delivers}
use open_cas_telemetry_frame.TraceBuffer.Fifo.{AreSmall, Op, put, get, handle_of, run}
use open_cas_telemetry_frame.TraceBuffer.Open.{
  fresh, open_trace, ring_of, open-run, consumer_opens, Answers, consumer_opens,
}
use open_cas_telemetry_frame.TraceBuffer.Borrow.{borrow_and_release, queries}

abbrev writer : Trace
writer = handle_of producer 64

abbrev reader : Trace
reader = handle_of consumer 64

abbrev message : List ℕ
message = 7 ∷ 8 ∷ []

abbrev start : Shared
start = fresh false

start-IsRing : (t : Mode) → IsRing (handle_of t 64) start []
start-IsRing t = record {
  aligned = ground arith;
  magic_set = refl;
  version_set = refl;
  stored = refl;
}

-- One event of two bytes is reserved, and then committed.
abbrev asked : Shared
asked = reserved writer start 2 0

asked-IsRing : (t : Mode) → IsRing (handle_of t 64) asked (reserve 0 2 ∷ [])
asked-IsRing t = reserved-IsRing (handle_of t 64) start [] 2 0 (start-IsRing t) refl

abbrev full : Shared
full = record asked { ring = filled reader asked [] (reserve 0 2) [] message }

full-IsRing : IsRing reader full (commit (reserve 0 2) message ∷ [])
full-IsRing = filled-IsRing reader asked [] (reserve 0 2) [] message (asked-IsRing consumer) refl

get_wr_buffer-Reserves_example : Reserves writer start [] 2 (get_wr_buffer writer start 2)
get_wr_buffer-Reserves_example =
    get_wr_buffer-Reserves writer start [] 2 refl refl (omega arith) (start-IsRing producer)

push-Pushes_example : Pushes writer start [] message (push writer start message)
push-Pushes_example =
    push-Pushes writer start [] message refl refl (omega arith) (start-IsRing producer)

queries_example :
    (free_space reader full ≡ some 31)
    × (trace_is_empty full ≡ some 0)
    × (is_almost_full reader full ≡ some 0)
queries_example = queries reader full (commit (reserve 0 2) message ∷ []) full-IsRing

commit_wr_buffer-fill_example :
    let (status, s) = commit_wr_buffer writer (fill asked 0 message) 0 in
    (status ≡ ok)
    × (s ≡ record asked { ring = filled writer asked [] (reserve 0 2) [] message })
    × IsRing writer s (commit (reserve 0 2) message ∷ [])
commit_wr_buffer-fill_example =
    commit_wr_buffer-fill writer asked [] (reserve 0 2) [] message (asked-IsRing producer) refl refl

borrow_and_release_example :
    let (status, h, s1) = get_rd_buffer reader full in
    let (released, s2) = release_rd_buffer reader s1 0 in
    (status ≡ ok)
    × (h ≡ some 0)
    × (let r = read_header s1.ring 0 in
        read_bytes s1.ring r.data_ptr r.data_size ≡ map byte message)
    × ((n : ℕ) → pop reader s1 n ≡ (ebusy, [], s1))
    × (get_rd_buffer reader s1 ≡ (ebusy, none, s1))
    × (released ≡ ok)
    × (s2.rd_lock ≡ 0)
    × IsRing reader s2 []
borrow_and_release_example =
    borrow_and_release reader full (commit (reserve 0 2) message) [] refl refl refl full-IsRing

abbrev history : List Op
history = put (1 ∷ []) ∷ put message ∷ get 8 ∷ put (3 ∷ 4 ∷ 5 ∷ []) ∷ get 8 ∷ get 8 ∷ []

history_small : AreSmall history
history_small = (omega arith, (omega arith, (tt, (omega arith, (tt, (tt, tt))))))

run-Delivers_example :
    Delivers 64 (run 64 (record { shared = start; sent = []; received = [] }) history)
run-Delivers_example =
    run-Delivers 64 (record { shared = start; sent = []; received = [] }) history history_small
      (record {
        waiting = [];
        ring = start-IsRing producer;
        committed = tt;
        wr_free = refl;
        rd_free = refl;
        order = refl;
      })

open-run_example :
    let size : ℕ = 40000 in
    let ring = ring_of size true in
    let (p, tp, s1) = open_trace size true true producer start in
    let (c, tc, s2) = open_trace size true true consumer s1 in
    (p ≡ ok)
    × (c ≡ ok)
    × (tp ≡ some (handle_of producer ring))
    × (tc ≡ some (handle_of consumer ring))
    × Delivers ring (run ring (record { shared = s2; sent = []; received = [] }) history)
open-run_example = open-run 40000 true start history (omega arith) (omega arith) history_small

-- A buffer that no producer has initialised.
abbrev blank : Shared
blank = record start { magic = 0 }

consumer_opens_example :
    let (_, _, s1) = open_trace 40000 true true producer blank in
    let opened = open_trace 40000 false true consumer s1 in
    (true ≡ false → opened ≡ (ok, some (handle_of consumer (ring_of 40000 false)), s1))
    × (true ≢ false → opened ≡ (einval, none, s1))
    × Answers 40000 false blank (open_trace 40000 false true consumer blank)
consumer_opens_example = consumer_opens 40000 true false blank (omega arith)
