-- ===== src/TraceBuffer/Space.antt =====
-- The pointer arithmetic of source/octf/trace/trace.c.
use open_cas_telemetry_frame.Prelude.{
  ℕ, ◌%◌, Bool, true, false, ltb, leb, ◌==◌, if◌then◌else◌, add64, sub64,
}
use open_cas_telemetry_frame.TraceBuffer.State.{Trace, Shared}

-- `_integrity_check`, in uint64_t.
unfoldable pub integrity_check : Trace → ℕ → ℕ → Bool
integrity_check t ptr count =
    if leb t.ring_size ptr
    then false
    else if ltb t.ring_size (add64 ptr count)
    then false
    else if ltb (add64 ptr count) count
    then false
    else true

-- The branches of `_get_continuous_space` for pointers inside the ring.
abbrev pub continuous : Trace → ℕ → ℕ → ℕ
continuous t rdp wrp =
    if leb rdp wrp
    then (if rdp == 0 then sub64 (sub64 t.ring_size wrp) 1 else sub64 t.ring_size wrp)
    else sub64 (sub64 rdp wrp) 1

-- `_get_continuous_space`: a pointer outside the ring makes the trace invalid.
unfoldable pub get_continuous_space : Trace → Shared → ℕ → ℕ → ℕ × Shared
get_continuous_space t s rdp wrp =
    if leb t.ring_size wrp
    then (0, record s { magic = 0 })
    else if leb t.ring_size rdp
    then (0, record s { magic = 0 })
    else (continuous t rdp wrp, s)

-- `_get_free_space`.
unfoldable pub get_free_space : Trace → ℕ → ℕ → ℕ
get_free_space t rdp wrp =
    if leb rdp wrp then sub64 (sub64 t.ring_size (sub64 wrp rdp)) 1 else sub64 (sub64 rdp wrp) 1

-- `_move_ptr`.
unfoldable pub move_ptr : Trace → ℕ → ℕ → ℕ
move_ptr t ptr mv = let p = add64 ptr mv in if leb t.ring_size p then p % t.ring_size else p

-- `_is_wrap`, `_is_empty`.
abbrev pub is_wrap : ℕ → ℕ → Bool
is_wrap rdp wrp = ltb rdp wrp

abbrev pub is_empty : ℕ → ℕ → Bool
is_empty rdp wrp = rdp == wrp
