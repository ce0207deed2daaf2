-- ===== src/TraceBuffer/Allocate.antt =====
-- `_allocate_event` of source/octf/trace/trace.c against a direct description of the free space.
use native.Mathlib.Nat.{mod-eq-sub-mod, mod-eq_of_lt}
use open_cas_telemetry_frame.Prelude.{
  ℕ, ◌+◌, ◌-◌, ◌*◌, ◌%◌, ◌≤◌, ◌<◌, ◌≡◌, Option, none, some, arith, dec_lt, dec_le, ℕ_discrete, ltb,
  leb, ◌==◌, if◌then◌else◌, add64, ◌⊎◌, false, refl, lt→ltb, ap, ◌∙◌,
}
use open_cas_telemetry_frame.TraceBuffer.State.{Trace, Shared, u32_mod, trace_align, update, header}
use open_cas_telemetry_frame.TraceBuffer.Space.{continuous, get_continuous_space, move_ptr}
use open_cas_telemetry_frame.TraceBuffer.Producer.{
  Place, at, full, place_at_start, place_data, unlock_wr, finish, allocate_locked,
}

-- The ring's size and the two pointers are multiples of the alignment, and the pointers are inside.
pub record IsAligned (size rd wr : ℕ) : Type 0 where
  pub size_aligned : size % 16 ≡ 0
  pub size_bound : size ≤ u32_mod
  pub rd_in : rd < size
  pub wr_in : wr < size
  pub rd_aligned : rd % 16 ≡ 0
  pub wr_aligned : wr % 16 ≡ 0

-- Behind a header at `wr`, how many bytes are skipped before the data of `need` bytes: none, or the
-- rest of the ring; `none` where the event does not fit. The pointers never meet again.
abbrev pub room : ℕ → ℕ → ℕ → ℕ → Option ℕ
room size rd wr need =
    if leb rd wr
    then (if ltb (wr + 16 + need) (if rd == 0 then size else size + 1)
        then some 0
        else if ltb need rd
        then some (size - (wr + 16))
        else none)
    else if ltb (wr + 16 + need) rd
    then some 0
    else none

-- A position counted from the start of the lap in which the read pointer is, as an offset.
abbrev pub offset : ℕ → ℕ → ℕ
offset size p = if ltb p size then p else p - size

get_continuous_space_lem :
    (t : Trace) (s : Shared) (rd wr : ℕ)
    → rd < t.ring_size
    → wr < t.ring_size
    → get_continuous_space t s rd wr ≡ (continuous t rd wr, s)
unfolding get_continuous_space
get_continuous_space_lem t s rd wr h k = ground arith

continuous_lem :
    (t : Trace) (rd wr : ℕ)
    → IsAligned t.ring_size rd wr
    → continuous t rd wr ≡ (
        if leb rd wr
        then (if rd == 0 then t.ring_size - wr - 1 else t.ring_size - wr)
        else rd - wr - 1)
continuous_lem t rd wr a = ground arith

mod_wrapped : (x n : ℕ) → n ≤ x → x < 2 * n → x % n ≡ x - n
mod_wrapped x n h k =
    grind (arith, mod-eq-sub-mod {n = x} {m = n} h, mod-eq_of_lt {n = x - n} {m = n})

pub move_ptr_lem :
    (t : Trace) (p mv : ℕ)
    → t.ring_size ≤ u32_mod
    → p ≤ t.ring_size
    → mv ≤ t.ring_size
    → p + mv < 2 * t.ring_size
    → move_ptr t p mv ≡ offset t.ring_size (p + mv)
unfolding move_ptr
move_ptr_lem t p mv b h k l =
    let e : add64 p mv ≡ p + mv = omega arith in
    rw e (elim (dec_lt (p + mv) t.ring_size) [
      | yes y ↦ ground arith
      | no n ↦ ground (arith, mod_wrapped (p + mv) t.ring_size)
    ])

-- The place of the data, given the free room.
abbrev pub placed : ℕ → ℕ → Option ℕ → Place
placed size wr none = full
placed size wr (some gap) = at (offset size (wr + 16 + gap))

place_at_start_lem :
    (t : Trace) (s : Shared) (rd need : ℕ)
    → rd < t.ring_size
    → t.ring_size ≤ u32_mod
    → 0 < rd
    → place_at_start t s rd 0 need ≡ (if ltb need rd then at 0 else full, s)
unfolding place_at_start
place_at_start_lem t s rd need h b p =
    rw (get_continuous_space_lem t s rd 0 h (omega arith)) (ground arith)

place_data_before_end :
    (t : Trace) (s : Shared) (rd w need : ℕ)
    → IsAligned t.ring_size rd w
    → rd < w
    → place_data t s rd w need ≡ (
      if ltb (w + need) (if rd == 0 then t.ring_size else t.ring_size + 1)
          then at w
          else if ltb need rd
          then at 0
          else full,
      s,
    )
unfolding place_data
place_data_before_end t s rd w need a h =
    rw (get_continuous_space_lem t s rd w a.rd_in a.wr_in) (elim (ℕ_discrete rd 0) [
      | yes z ↦ ground (arith, continuous_lem t rd w a)
      | no nz ↦
          let c : continuous t rd w ≡ t.ring_size - w = ground (arith, continuous_lem t rd w a) in
          let m : move_ptr t w (t.ring_size - w) ≡ 0 = ground (
            arith,
            move_ptr_lem t w (t.ring_size - w) a.size_bound (omega (arith, a.wr_in)) (omega arith)
                (omega (arith, a.wr_in)),
          ) in
          rw (c, m)
            (rw (place_at_start_lem t s rd need a.rd_in a.size_bound (omega arith)) (ground arith))
    ])

place_data_after_wrap :
    (t : Trace) (s : Shared) (rd w need : ℕ)
    → IsAligned t.ring_size rd w
    → w < rd
    → place_data t s rd w need ≡ (if ltb (w + need) rd then at w else full, s)
unfolding place_data
place_data_after_wrap t s rd w need a h =
    rw (get_continuous_space_lem t s rd w a.rd_in a.wr_in) (ground (arith, continuous_lem t rd w a))

-- Where the header goes: before the last slot, in the last slot, or behind a wrapped write pointer.
data HeaderFits (size rd wr : ℕ) : Type 0 where
  inner : rd ≤ wr → wr + 16 < size → HeaderFits size rd wr
  last : 0 < rd → rd ≤ wr → wr + 16 ≡ size → HeaderFits size rd wr
  wrapped : wr + 16 < rd → HeaderFits size rd wr

header_fits :
    (t : Trace) (rd wr : ℕ)
    → IsAligned t.ring_size rd wr
    → 16 ≤ continuous t rd wr
    → HeaderFits t.ring_size rd wr
header_fits t rd wr a c = elim (dec_le rd wr) [
  | yes le ↦ elim (dec_lt (wr + 16) t.ring_size) [
    | yes lt ↦ inner le lt
    | no ge ↦
        last (ground (arith, continuous_lem t rd wr a)) le
          (ground (arith, continuous_lem t rd wr a))
  ]
  | no gt ↦ wrapped (ground (arith, continuous_lem t rd wr a))
]

place_data_fits :
    (t : Trace) (s : Shared) (rd wr need : ℕ)
    → IsAligned t.ring_size rd wr
    → HeaderFits t.ring_size rd wr
    → place_data t s rd (move_ptr t wr 16) need
      ≡ (placed t.ring_size wr (room t.ring_size rd wr need), s)
place_data_fits t s rd wr need a (inner le lt) =
    let m : move_ptr t wr 16 ≡ wr + 16 = ground (arith, move_ptr_lem t wr 16) in
    rw m (ground (arith, place_data_before_end t s rd (wr + 16) need))
place_data_fits t s rd wr need a (last p le e) =
    let m : move_ptr t wr 16 ≡ 0 = ground (arith, move_ptr_lem t wr 16) in
    rw m (ground (arith, place_data_after_wrap t s rd 0 need))
place_data_fits t s rd wr need a (wrapped lt) =
    let m : move_ptr t wr 16 ≡ wr + 16 = ground (arith, move_ptr_lem t wr 16) in
    rw m (ground (arith, place_data_after_wrap t s rd (wr + 16) need))

-- The write pointer counted from the start of the read pointer's lap.
abbrev pub unwrapped : ℕ → ℕ → ℕ → ℕ
unwrapped size rd wr = if leb rd wr then wr else wr + size

-- What room for an event means: header and data lie in the ring in one piece each, and the end of the
-- event stays short of the read pointer of the next lap.
pub record IsRoom (size rd wr need gap : ℕ) : Type 0 where
  pub hdr_in : wr + 16 ≤ size
  pub data_in : offset size (wr + 16 + gap) + need ≤ size
  pub skip : (gap ≡ 0) ⊎ (wr + 16 + gap ≡ size)
  pub before_rd : unwrapped size rd wr + 16 + gap + need < rd + size

pub room-IsRoom :
    (size rd wr need gap : ℕ)
    → IsAligned size rd wr
    → room size rd wr need ≡ some gap
    → IsRoom size rd wr need gap
room-IsRoom size rd wr need gap a h = ground arith

hdr_inside : (size rd wr : ℕ) → IsAligned size rd wr → wr + 16 ≤ size
hdr_inside size rd wr a = omega arith

no_room :
    (t : Trace) (rd wr need : ℕ)
    → IsAligned t.ring_size rd wr
    → continuous t rd wr < 16
    → room t.ring_size rd wr need ≡ none
no_room t rd wr need a c = ground (arith, continuous_lem t rd wr a)

module _ (t : Trace) (s : Shared) (size : ℕ) where
  -- The outcome of the allocation under the lock, given the room.
  abbrev pub allocated : Option ℕ → Place × Shared
  allocated none = (full, unlock_wr s)
  allocated (some gap) = (
    at s.wr_ptr,
    unlock_wr (record s {
      ring = update s.ring s.wr_ptr (
          header (record {
            ready = false;
            data_size = size;
            data_ptr = offset t.ring_size (s.wr_ptr + 16 + gap);
          }));
      wr_ptr = offset t.ring_size (s.wr_ptr + 16 + gap + trace_align size);
    }),
  )

  finish_lem :
      (r : Option ℕ)
      → IsAligned t.ring_size s.rd_ptr s.wr_ptr
      → room t.ring_size s.rd_ptr s.wr_ptr (trace_align size) ≡ r
      → finish t s.wr_ptr (trace_align size) size (placed t.ring_size s.wr_ptr r, s) ≡ allocated r
  unfolding finish
  finish_lem none a e = refl
  finish_lem (some gap) a e =
      let f = room-IsRoom t.ring_size s.rd_ptr s.wr_ptr (trace_align size) gap a e in
      let d : ℕ = offset t.ring_size (s.wr_ptr + 16 + gap) in
      let fits : ltb t.ring_size (add64 d (trace_align size)) ≡ false =
        ground (arith, f.data_in, a.size_bound) in
      let m : move_ptr t d (trace_align size)
          ≡ offset t.ring_size (s.wr_ptr + 16 + gap + trace_align size) =
        ground (arith, move_ptr_lem t d (trace_align size), f, a) in
      rw fits (rw m)

  pub allocate_locked_lem :
      size + 15 < u32_mod
      → IsAligned t.ring_size s.rd_ptr s.wr_ptr
      → allocate_locked t s size ≡ allocated (room t.ring_size s.rd_ptr s.wr_ptr (trace_align size))
  unfolding allocate_locked
  allocate_locked_lem h a =
      rw (get_continuous_space_lem t s s.rd_ptr s.wr_ptr a.rd_in a.wr_in)
        (elim (dec_lt (continuous t s.rd_ptr s.wr_ptr) 16) [
          | yes small ↦
              rw (lt→ltb _ _ small) (rw (no_room t s.rd_ptr s.wr_ptr (trace_align size) a small))
          | no enough ↦
              let fits = header_fits t s.rd_ptr s.wr_ptr a (omega arith) in
              let big : ltb (continuous t s.rd_ptr s.wr_ptr) 16 ≡ false = ground arith in
              let inside : ltb t.ring_size (add64 s.wr_ptr 16) ≡ false =
                ground (arith, hdr_inside t.ring_size s.rd_ptr s.wr_ptr a) in
              let e : trace_align size % u32_mod ≡ trace_align size = omega arith in
              rw big (
                rw inside (
                  rw e (
                    ap (finish t s.wr_ptr (trace_align size) size)
                      (place_data_fits t s s.rd_ptr s.wr_ptr (trace_align size) a fits)
                    ∙ finish_lem _ a refl)))
        ])
