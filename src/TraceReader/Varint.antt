-- ===== src/TraceReader/Varint.antt =====
-- encodeVarint32 and decodeVarint32 of source/octf/utils/ProtoConverter.cpp.
use open_cas_telemetry_frame.Prelude.{
  ℕ, zero, suc, ◌+◌, ◌*◌, ◌/◌, ◌%◌, ◌<◌, ◌≡◌, refl, sym, ap, ap₂, ◌∙◌, inl, inr, true, false,
  Option, some, List, ◌∷◌, ◌++◌, arith, ltb, ◌==◌, Bool-cases, length,
}
use open_cas_telemetry_frame.TraceReader.{
  u32_mod, encode_loop, encode_varint32, max_varint32_bytes, decode_loop, decode_varint32,
}

weighed : (a b unit v : ℕ) → v ≡ a + b * 128 → a * unit + b * (unit * 128) ≡ v * unit
weighed a b unit v h = rw h (grind arith)

digits : (v unit : ℕ) → v % 128 * unit + v / 128 * (unit * 128) ≡ v * unit
digits v unit = weighed (v % 128) (v / 128) unit v (omega arith)

-- The numbers that `k` more bytes than one can tell.
abbrev pub bound : ℕ → ℕ
bound zero = 128
bound (suc k) = bound k * 128

abbrev pair : ℕ → ℕ → Option (ℕ × ℕ)
pair a b = some (a, b)

same_pair : (a b c d : ℕ) → a ≡ c → b ≡ d → pair a b ≡ pair c d
same_pair a b c d h h' = ap₂ pair h h'

decode-last :
    (k n unit acc value : ℕ) (rest : List ℕ)
    → value < 128
    → value * unit < u32_mod
    → decode_loop (suc k) n unit acc (value % 128 ∷ rest) ≡ some (acc + value * unit, n + 1)
unfolding decode_loop
decode-last k n unit acc value rest small fits =
    let byte : ltb (value % 128) 128 ≡ true = ground arith in
    let same : value % 128 % 128 ≡ value = omega (arith, small) in
    rw byte (rw same (same_pair _ _ _ _ (omega (arith, fits)) refl))

decode-more :
    (k n unit acc value : ℕ) (bs : List ℕ)
    → value * unit < u32_mod
    → decode_loop (suc k) n unit acc ((value % 128 + 128) ∷ bs)
      ≡ decode_loop k (n + 1) (unit * 128) (acc + value % 128 * unit) bs
unfolding decode_loop
decode-more k n unit acc value bs fits =
    let byte : ltb (value % 128 + 128) 128 ≡ false = ground arith in
    let same : (value % 128 + 128) % 128 ≡ value % 128 = omega arith in
    let whole : value % 128 * unit % u32_mod ≡ value % 128 * unit =
      omega (arith, fits, digits value unit) in
    rw byte (rw same (rw whole refl))

decode_loop-encode_loop :
    (k n n' unit acc value : ℕ) (rest : List ℕ)
    → value < bound k
    → value * unit < u32_mod
    → decode_loop (suc k) n unit acc ((encode_loop (suc k) n' value).0 ++ rest)
      ≡ some (acc + value * unit, n + length (encode_loop (suc k) n' value).0)
unfolding encode_loop
decode_loop-encode_loop zero n n' unit acc value rest fits small =
    let last : value / 128 == 0 ≡ true = ground arith in
    rw last (decode-last 0 n unit acc value rest fits small)
decode_loop-encode_loop (suc k) n n' unit acc value rest fits small =
    elim (Bool-cases (value / 128 == 0)) [
      | inl last ↦ rw last (decode-last (suc k) n unit acc value rest (ground arith) small)
      | inr more ↦
          let bs = (encode_loop (suc k) (n' + 1) (value / 128)).0 in
          let ih : decode_loop (suc k) (n + 1) (unit * 128) (acc + value % 128 * unit) (bs ++ rest)
              ≡ some (acc + value % 128 * unit + value / 128 * (unit * 128), n + 1 + length bs) =
            decode_loop-encode_loop k (n + 1) (n' + 1) (unit * 128) (acc + value % 128 * unit)
              (value / 128) rest (omega (arith, fits)) (omega (arith, small, digits value unit)) in
          rw more (
            decode-more (suc k) n unit acc value (bs ++ rest) small
            ∙ ih
            ∙ same_pair _ _ _ _ (omega (arith, digits value unit)) (omega arith))
    ]

-- The bytes of a number that needs more than one.
encode_loop-more :
    (k n value : ℕ)
    → ltb value 128 ≡ false
    → (encode_loop (suc k) n value).0
      ≡ (value % 128 + 128) ∷ (encode_loop k (n + 1) (value / 128)).0
unfolding encode_loop
encode_loop-more k n value long = let more : value / 128 == 0 ≡ false = ground arith in rw more refl

decode_varint32-more :
    (b : ℕ) (bs : List ℕ)
    → decode_varint32 ((b + 128) ∷ bs) ≡ decode_loop max_varint32_bytes 0 1 0 ((b + 128) ∷ bs)
unfolding decode_varint32
decode_varint32-more b bs = let long : ltb (b + 128) 128 ≡ false = ground arith in rw long refl

long_round :
    (value : ℕ) (rest bs : List ℕ)
    → (encode_loop max_varint32_bytes 0 value).0 ≡ (value % 128 + 128) ∷ bs
    → value < u32_mod
    → decode_varint32 ((encode_loop max_varint32_bytes 0 value).0 ++ rest)
      ≡ some (value, length (encode_loop max_varint32_bytes 0 value).0)
long_round value rest bs h small =
    ap (λ (xs : List ℕ). decode_varint32 (xs ++ rest)) h
    ∙ decode_varint32-more (value % 128) (bs ++ rest)
    ∙ ap (λ (xs : List ℕ). decode_loop max_varint32_bytes 0 1 0 (xs ++ rest)) (sym h)
    ∙ decode_loop-encode_loop 4 0 0 1 0 value rest (omega (arith, small)) (omega (arith, small))
    ∙ same_pair _ _ _ _ (omega arith) (omega arith)

-- A number of 32 bits that is encoded with room for five bytes, and decoded from the bytes that were
-- written and any bytes behind them: the number itself and the number of the bytes that were written.
pub decode_varint32-encode_varint32 :
    (value : ℕ) (rest : List ℕ)
    → value < u32_mod
    → decode_varint32 ((encode_varint32 max_varint32_bytes value).0 ++ rest)
      ≡ some (value, length (encode_varint32 max_varint32_bytes value).0)
unfolding decode_varint32 encode_varint32
decode_varint32-encode_varint32 value rest small = elim (Bool-cases (ltb value 128)) [
  | inl short ↦ rw short (rw short refl)
  | inr long ↦ rw long (long_round value rest _ (encode_loop-more 4 0 value long) small)
]

encode_loop-written :
    (k n value : ℕ) → value < bound k → (encode_loop (suc k) n value).1 == 0 ≡ false
unfolding encode_loop
encode_loop-written zero n value fits =
    let last : value / 128 == 0 ≡ true = ground arith in rw last (ground arith)
encode_loop-written (suc k) n value fits = elim (Bool-cases (value / 128 == 0)) [
  | inl last ↦ rw last (ground arith)
  | inr more ↦ rw more (encode_loop-written k (n + 1) (value / 128) (omega (arith, fits)))
]

-- Five bytes are room enough.
pub encode_varint32-written :
    (value : ℕ) → value < u32_mod → (encode_varint32 max_varint32_bytes value).1 == 0 ≡ false
unfolding encode_varint32
encode_varint32-written value small = elim (Bool-cases (ltb value 128)) [
  | inl short ↦ rw short refl
  | inr long ↦ rw long (encode_loop-written 4 0 value (omega (arith, small)))
]
