-- ===== src/TraceReader.antt =====
-- source/octf/trace/parser/TraceFileReader.cpp: the events of a trace file, and the numbers of
-- source/octf/utils/ProtoConverter.cpp that tell their lengths.
use open_cas_telemetry_frame.Prelude.{
  ℕ, zero, suc, ◌+◌, ◌-◌, ◌*◌, ◌/◌, ◌%◌, ◌^◌, ◌≤◌, ◌<◌, min, max, ◌≡◌, refl, sym, ap, ap₂, ◌∙◌,
  subst, ◌≢◌, ◌↔◌, ◌⊎◌, inl, inr, Bool, true, false, ◌&&◌, ◌||◌, not, Option, none, some, List, [],
  ◌∷◌, ◌++◌, map, append-nil, append_assoc, arith, dec_lt, dec_le, ℕ_discrete, ltb, leb, ◌==◌,
  if◌then◌else◌, ltb→lt, lt→ltb, leb→le, ==_iff, Bool-cases, Option-cases, length, take, drop,
  replicate, set, get_or, length-append, take-append-drop, length-replicate, length-set, take-all,
  take-take, take_add, take-nil, length-take_le, take-prefix, drop-prefix, take-within, drop-within,
  length-take, length-drop, u64_mod, add64, sub64, mul64,
}
pub mod Varint
pub mod Records
mod Tests

-- `unsigned int` and the sign of the `int` that it is cast to.
abbrev pub u32_mod : ℕ
u32_mod = 2 ^ 32

abbrev pub is_negative : ℕ → Bool
is_negative n = leb (2 ^ 31) n

-- The loop of `encodeVarint32` with `size` bytes of room, `n` written: the bytes, and what it returns.
unfoldable pub encode_loop : ℕ → ℕ → ℕ → List ℕ × ℕ
encode_loop zero n value = ([], 0)
encode_loop (suc size) n value =
    let byte = value % 128 in
    let value' = value / 128 in
    let rest = encode_loop size (n + 1) value' in
    if value' == 0 then (byte ∷ [], n + 1) else ((byte + 128) ∷ rest.0, rest.1)

unfoldable pub encode_varint32 : ℕ → ℕ → List ℕ × ℕ
encode_varint32 size value =
    let rest = encode_loop size 0 value in
    if ltb value 128 then (if size == 0 then ([], 0) else (value ∷ [], 1)) else rest

abbrev pub max_varint32_bytes : ℕ
max_varint32_bytes = 5

-- The loop of `decodeVarint32` with `k` rounds left, after `n` bytes: `unit` is 2 ^ (7 n), and the bits of
-- the new byte are none of those that `value` has, so that |= adds them. The result is the value and
-- the number of bytes, or nothing where the code returns 0.
unfoldable pub decode_loop : ℕ → ℕ → ℕ → ℕ → List ℕ → Option (ℕ × ℕ)
decode_loop zero n unit value bs = none
decode_loop (suc k) n unit value [] = none
decode_loop (suc k) n unit value (b ∷ bs) =
    let value' = value + b % 128 * unit % u32_mod in
    let rest = decode_loop k (n + 1) (unit * 128) value' bs in
    if ltb b 128 then some (value', n + 1) else rest

abbrev pub decode_more : List ℕ → Option (ℕ × ℕ)
decode_more bs = decode_loop max_varint32_bytes 0 1 0 bs

unfoldable pub decode_varint32 : List ℕ → Option (ℕ × ℕ)
decode_varint32 [] = none
decode_varint32 (b ∷ bs) =
    let more = decode_more (b ∷ bs) in if ltb b 128 then some (b, 1) else more

-- The reader: the bytes from `m_addr` to the end of the file, `m_size` of them.
pub record Reader : Type 0 where
  pub left : List ℕ
  pub m_error : Bool

-- What `readTraceEvent` ends with; an exception leaves the state.
pub data ReadResult (E : Type 0) : Type 0 where
  event : E → Reader → ReadResult E
  exception : Reader → ReadResult E

abbrev pub is_done : List ℕ → Bool
is_done [] = true
is_done (b ∷ bs) = false

-- What is used of the events' messages: ByteSizeLong, SerializeToArray and ParseFromArray, the latter
-- two with `none` for false.
pub record Messages (E : Type 0) : Type 0 where
  pub byte_size : E → ℕ
  pub to_array : E → Option (List ℕ)
  pub from_array : List ℕ → Option E

module _ {E : Type 0} (m : Messages E) where
  -- `serialize` of a message in source/octf/interface/internal/FileTraceSerializer.cpp: what it returns,
  -- and the file up to `m_dataOffset`. The window of the file that is mapped is left out.
  abbrev pub put_data : List ℕ → Option (List ℕ) → Bool × List ℕ
  put_data file none = (false, file)
  put_data file (some bs) = (true, file ++ bs)

  unfoldable pub serialize : E → List ℕ → Bool × List ℕ
  serialize e file =
      let (bs, written) = encode_varint32 max_varint32_bytes (m.byte_size e % u32_mod) in
      let rest = put_data (file ++ bs) (m.to_array e) in
      if written == 0 then (false, file) else rest

  unfoldable pub serialize_all : List E → List ℕ → List ℕ
  serialize_all [] file = file
  serialize_all (e ∷ es) file = serialize_all es (serialize e file).1

  abbrev pub parsed_event : List ℕ → List ℕ → Option E → ReadResult E
  parsed_event left rest none = exception (record { left = left; m_error = true })
  parsed_event left rest (some e) = event e (record { left = rest; m_error = false })

  -- The message of the length `len` at the front of `left`.
  abbrev pub read_message : ℕ → List ℕ → ReadResult E
  read_message len left =
      if ltb (length left) len || is_negative len
      then exception (record { left = left; m_error = true })
      else parsed_event left (drop len left) (m.from_array (take len left))

  abbrev pub read_length : List ℕ → Option (ℕ × ℕ) → ReadResult E
  read_length left none = exception (record { left = left; m_error = true })
  read_length left (some (len, n)) = read_message len (drop n left)

  -- `readTraceEvent`.
  unfoldable pub read_trace_event : Reader → ReadResult E
  read_trace_event r =
      if r.m_error || is_done r.left
      then exception r
      else read_length r.left (decode_varint32 r.left)

  -- The reads until the file is finished or an exception is thrown, in at most `k` rounds.
  abbrev pub and_rest : (Reader → List (Option E)) → ReadResult E → List (Option E)
  and_rest more (event e r) = some e ∷ more r
  and_rest more (exception r) = none ∷ []

  unfoldable pub read_all : ℕ → Reader → List (Option E)
  read_all zero r = []
  read_all (suc k) r =
      let rest = and_rest (read_all k) (read_trace_event r) in if is_done r.left then [] else rest
