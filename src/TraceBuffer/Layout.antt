-- ===== src/TraceBuffer/Layout.antt =====
-- How the events that wait in the ring of source/octf/trace/trace.c are laid out in its memory.
use open_cas_telemetry_frame.Prelude.{
  ℕ, ◌+◌, ◌-◌, ◌*◌, ◌≤◌, ◌<◌, ◌≡◌, refl, ◌∙◌, subst, ◌≢◌, ◌⊎◌, inl, Bool, true, List, [], ◌∷◌, ◌++◌,
  map, arith, length, ◌%◌,
}
use open_cas_telemetry_frame.TraceBuffer.State.{
  Trace, Shared, EventHdr, byte, header, Ring, trace_align, trace_magic_buffer, trace_ver, update,
  write_bytes, read_bytes,
}
use open_cas_telemetry_frame.TraceBuffer.Allocate.{IsAligned, offset, unwrapped}

-- A waiting event: the bytes skipped behind its header, the size of its data, whether it is
-- committed, and what the producer wrote.
pub record Entry : Type 0 where
  pub gap : ℕ
  pub size : ℕ
  pub ready : Bool
  pub payload : List ℕ

abbrev pub data_of : ℕ → Entry → ℕ
data_of p e = p + 16 + e.gap

abbrev pub end_of : ℕ → Entry → ℕ
end_of p e = p + 16 + e.gap + trace_align e.size

abbrev pub HasBytes : Ring → ℕ → List ℕ → Type 0
HasBytes ring p [] = Unit {0}
HasBytes ring p (b ∷ bs) = (ring p ≡ byte b) × HasBytes ring (p + 1) bs

abbrev pub hdr_of : ℕ → ℕ → Entry → EventHdr
hdr_of size p e = record {
  ready = e.ready;
  data_size = e.size;
  data_ptr = offset size (data_of p e);
}

-- The event `e` at the position `p`: its header, and its data in one piece.
pub record IsPlaced (size : ℕ) (ring : Ring) (p : ℕ) (e : Entry) : Type 0 where
  pub hdr : ring (offset size p) ≡ header (hdr_of size p e)
  pub gap_aligned : e.gap % 16 ≡ 0
  pub fits_hdr : offset size p + 16 ≤ size
  pub fits_data : offset size (data_of p e) + trace_align e.size ≤ size
  pub sized : e.ready ≡ true → length e.payload ≡ e.size
  pub written : e.ready ≡ true → HasBytes ring (offset size (data_of p e)) e.payload

-- The events `es` one after the other from the position `p` to `q`.
abbrev pub IsStored : ℕ → Ring → ℕ → List Entry → ℕ → Type 0
IsStored size ring p [] q = p ≡ q
IsStored size ring p (e ∷ es) q = IsPlaced size ring p e × IsStored size ring (end_of p e) es q

-- The invariant of the shared state: it is a valid trace whose ring holds the events `es`.
pub record IsRing (t : Trace) (s : Shared) (es : List Entry) : Type 0 where
  pub aligned : IsAligned t.ring_size s.rd_ptr s.wr_ptr
  pub magic_set : s.magic ≡ trace_magic_buffer
  pub version_set : s.version ≡ trace_ver
  pub stored : IsStored t.ring_size s.ring s.rd_ptr es (unwrapped t.ring_size s.rd_ptr s.wr_ptr)

pub IsStored-le :
    (size : ℕ) (ring : Ring) (p : ℕ) (es : List Entry) (q : ℕ) → IsStored size ring p es q → p ≤ q
IsStored-le size ring p [] q h = omega arith
IsStored-le size ring p (e ∷ es) q h = omega (arith, IsStored-le size ring (end_of p e) es q h.1)

pub HasBytes-frame :
    (ring ring' : Ring) (p : ℕ) (bs : List ℕ)
    → ((q : ℕ) → p ≤ q → q < p + length bs → ring' q ≡ ring q)
    → HasBytes ring p bs
    → HasBytes ring' p bs
HasBytes-frame ring ring' p [] same h = tt
HasBytes-frame ring ring' p (b ∷ bs) same h = (
  same p (omega arith) (omega arith) ∙ h.0,
  HasBytes-frame ring ring' (p + 1) bs (λ q l u. same q (omega arith) (omega arith)) h.1,
)

-- Positions of one lap have offsets of their own.
pub offset-ne :
    (size r x y : ℕ) → r < size → r ≤ x → x < y → y < r + size → offset size x ≢ offset size y
offset-ne size r x y h l k u = ground arith

-- An offset inside a piece that does not wrap comes from a position of the piece.
pub offset_back :
    (size d n q : ℕ)
    → offset size d + n ≤ size
    → offset size d ≤ q
    → q < offset size d + n
    → d < 2 * size
    → offset size (d + (q - offset size d)) ≡ q
offset_back size d n q h l u b = ground arith

IsPlaced-frame :
    (size : ℕ) (ring ring' : Ring) (p : ℕ) (e : Entry)
    → ((x : ℕ) → p ≤ x → x < end_of p e → ring' (offset size x) ≡ ring (offset size x))
    → end_of p e < 2 * size
    → IsPlaced size ring p e
    → IsPlaced size ring' p e
IsPlaced-frame size ring ring' p e same b i = record {
  hdr = same p (omega arith) (omega arith) ∙ i.hdr;
  gap_aligned = i.gap_aligned;
  fits_hdr = i.fits_hdr;
  fits_data = i.fits_data;
  sized = i.sized;
  written = λ k.
      HasBytes-frame ring ring' (offset size (data_of p e)) e.payload
        (λ q l u.
          let back =
            offset_back size (data_of p e) (trace_align e.size) q i.fits_data l
              (omega (arith, i.sized k)) (omega arith) in
          subst (λ z. ring' z ≡ ring z) back
            (same (data_of p e + (q - offset size (data_of p e))) (omega arith)
              (omega (arith, i.sized k))))
        (i.written k);
}

pub IsStored-frame :
    (size : ℕ) (ring ring' : Ring) (p : ℕ) (es : List Entry) (q : ℕ)
    → ((x : ℕ) → p ≤ x → x < q → ring' (offset size x) ≡ ring (offset size x))
    → q < 2 * size
    → IsStored size ring p es q
    → IsStored size ring' p es q
IsStored-frame size ring ring' p [] q same b h = h
IsStored-frame size ring ring' p (e ∷ es) q same b h =
    let le = IsStored-le size ring (end_of p e) es q h.1 in
    (
      IsPlaced-frame size ring ring' p e (λ x l u. same x l (omega arith)) (omega arith) h.0,
      IsStored-frame size ring ring' (end_of p e) es q (λ x l u. same x (omega arith) u) b h.1,
    )

pub IsStored-snoc :
    (size : ℕ) (ring : Ring) (p : ℕ) (es : List Entry) (q : ℕ) (e : Entry)
    → IsStored size ring p es q
    → IsPlaced size ring q e
    → IsStored size ring p (es ++ e ∷ []) (end_of q e)
IsStored-snoc size ring p [] q e h i = rw h (i, refl)
IsStored-snoc size ring p (d ∷ es) q e h i =
    (h.0, IsStored-snoc size ring (end_of p d) es q e h.1 i)

IsPlaced-rebase :
    (size : ℕ) (ring : Ring) (p : ℕ) (e : Entry)
    → size ≤ p
    → end_of p e < 2 * size
    → IsPlaced size ring p e
    → IsPlaced size ring (p - size) e
IsPlaced-rebase size ring p e h b i =
    let hdr_same : offset size (p - size) ≡ offset size p = ground arith in
    let data_same : offset size (data_of (p - size) e) ≡ offset size (data_of p e) = ground arith in
    record {
      hdr = rw (hdr_same, data_same) i.hdr;
      gap_aligned = i.gap_aligned;
      fits_hdr = rw hdr_same i.fits_hdr;
      fits_data = rw data_same i.fits_data;
      sized = i.sized;
      written = rw data_same i.written;
    }

-- Once the read pointer has passed the end of the ring, positions are counted from the next lap.
pub IsStored-rebase :
    (size : ℕ) (ring : Ring) (p : ℕ) (es : List Entry) (q : ℕ)
    → size ≤ p
    → q < 2 * size
    → IsStored size ring p es q
    → IsStored size ring (p - size) es (q - size)
IsStored-rebase size ring p [] q h b s = omega arith
IsStored-rebase size ring p (e ∷ es) q h b s =
    let le = IsStored-le size ring (end_of p e) es q s.1 in
    let moved : end_of (p - size) e ≡ end_of p e - size = omega arith in
    (
      IsPlaced-rebase size ring p e h (omega arith) s.0,
      rw moved (IsStored-rebase size ring (end_of p e) es q (omega arith) b s.1),
    )

pub write_bytes_other :
    (ring : Ring) (p : ℕ) (bs : List ℕ) (q : ℕ)
    → (q < p) ⊎ (p + length bs ≤ q)
    → write_bytes ring p bs q ≡ ring q
unfolding write_bytes
write_bytes_other ring p [] q h = refl
write_bytes_other ring p (b ∷ bs) q h =
    write_bytes_other (update ring p (byte b)) (p + 1) bs q (ground arith) ∙ ground arith

pub HasBytes-write_bytes :
    (ring : Ring) (p : ℕ) (bs : List ℕ) → HasBytes (write_bytes ring p bs) p bs
unfolding write_bytes
HasBytes-write_bytes ring p [] = tt
HasBytes-write_bytes ring p (b ∷ bs) = (
  write_bytes_other (update ring p (byte b)) (p + 1) bs p (inl (omega arith)) ∙ ground arith,
  HasBytes-write_bytes (update ring p (byte b)) (p + 1) bs,
)

pub read_bytes_lem :
    (ring : Ring) (p : ℕ) (bs : List ℕ)
    → HasBytes ring p bs
    → read_bytes ring p (length bs) ≡ map byte bs
unfolding read_bytes
read_bytes_lem ring p [] h = refl
read_bytes_lem ring p (b ∷ bs) h = rw (h.0, read_bytes_lem ring (p + 1) bs h.1)
