-- ===== src/TraceReader/Records.antt =====
-- The events that source/octf/interface/internal/FileTraceSerializer.cpp writes into a trace file are
-- those that source/octf/trace/parser/TraceFileReader.cpp reads.
use open_cas_telemetry_frame.Prelude.{
  ℕ, ◌%◌, ◌^◌, ◌<◌, ◌≡◌, refl, sym, ap, ap₂, ◌∙◌, Bool, true, false, ◌||◌, some, List, [], ◌∷◌,
  ◌++◌, map, append-nil, append_assoc, arith, ltb, ◌==◌, if◌then◌else◌, length, take, drop,
  length-append, take-prefix, drop-prefix,
}
use open_cas_telemetry_frame.TraceReader.{
  u32_mod, is_negative, encode_varint32, max_varint32_bytes, decode_varint32, event, exception,
  is_done, Messages, put_data, serialize, serialize_all, parsed_event, read_message, read_length,
  read_trace_event, and_rest, read_all,
}
use open_cas_telemetry_frame.TraceReader.Varint.{
  decode_varint32-encode_varint32, encode_varint32-written,
}

-- The documented behaviour of the messages: what was written is read again, and is as long as told.
pub record AreMessages {E : Type 0} (m : Messages E) : Type 0 where
  pub sized : (e : E) (bs : List ℕ) → m.to_array e ≡ some bs → length bs ≡ m.byte_size e
  pub round_trip : (e : E) (bs : List ℕ) → m.to_array e ≡ some bs → m.from_array bs ≡ some e

decoded-is_done : (bs : List ℕ) (r : ℕ × ℕ) → decode_varint32 bs ≡ some r → is_done bs ≡ false
unfolding decode_varint32
decoded-is_done [] r h = ground arith
decoded-is_done (b ∷ bs) r h = refl

module _ {E : Type 0} (m : Messages E) (ok : AreMessages m) where
  -- The bytes of an event.
  abbrev pub record_of : E → List ℕ → List ℕ
  record_of e bs = (encode_varint32 max_varint32_bytes (m.byte_size e)).0 ++ bs

  read_record :
      (e : E) (bs rest : List ℕ)
      → m.to_array e ≡ some bs
      → m.byte_size e < 2 ^ 31
      → read_trace_event m (record { left = record_of e bs ++ rest; m_error = false })
        ≡ event e (record { left = rest; m_error = false })
  unfolding read_trace_event
  read_record e bs rest made small =
      let n = m.byte_size e in
      let v = (encode_varint32 max_varint32_bytes n).0 in
      let left = v ++ (bs ++ rest) in
      let decoded : decode_varint32 left ≡ some (n, length v) =
        decode_varint32-encode_varint32 n (bs ++ rest) (omega (arith, small)) in
      let started : is_done left ≡ false = decoded-is_done left (n, length v) decoded in
      let len : length bs ≡ n = ok.sized e bs made in
      let whole : ltb (length (bs ++ rest)) (length bs) || is_negative (length bs) ≡ false =
        ground (arith, length-append bs rest, len, small) in
      ap (λ (xs : List ℕ). read_trace_event m (record { left = xs; m_error = false }))
        (append_assoc v bs rest)
      ∙ ap
          (λ (b : Bool).
            if b
            then exception (record { left = left; m_error = false })
            else read_length m left (decode_varint32 left))
          started
      ∙ ap (read_length m left) decoded
      ∙ ap (read_message m n) (drop-prefix v (bs ++ rest))
      ∙ ap (λ (k : ℕ). read_message m k (bs ++ rest)) (sym len)
      ∙ ap
          (λ (b : Bool).
            if b
            then exception (record { left = bs ++ rest; m_error = true })
            else parsed_event m (bs ++ rest) (drop (length bs) (bs ++ rest))
                (m.from_array (take (length bs) (bs ++ rest))))
          whole
      ∙ ap₂ (λ (xs ys : List ℕ). parsed_event m (bs ++ rest) xs (m.from_array ys))
          (drop-prefix bs rest) (take-prefix bs rest)
      ∙ ap (parsed_event m (bs ++ rest) rest) (ok.round_trip e bs made)

  -- Each event can be written, and is shorter than 2 ^ 31 bytes.
  abbrev pub AreWritable : List E → Type 0
  AreWritable [] = Unit {0}
  AreWritable (e ∷ es) =
      ((bs : List ℕ) × (m.to_array e ≡ some bs) × (m.byte_size e < 2 ^ 31)) × AreWritable es

  -- The bytes of the records of the events.
  records : (es : List E) → AreWritable es → List ℕ
  records [] w = []
  records (e ∷ es) w = record_of e w.0.0 ++ records es w.1

  -- `serialize`, over what encodeVarint32 has done.
  abbrev header_and_data : List ℕ × ℕ → List ℕ → E → Bool × List ℕ
  header_and_data (bs, written) file e =
      let rest = put_data m (file ++ bs) (m.to_array e) in
      if written == 0 then (false, file) else rest

  abbrev unwritten : List ℕ → Bool × List ℕ
  unwritten file = (false, file)

  abbrev written_file : List ℕ → Bool × List ℕ
  written_file file = (true, file)

  record_of-is_done :
      (e : E) (bs rest : List ℕ) → m.byte_size e < 2 ^ 31 → is_done (record_of e bs ++ rest) ≡ false
  record_of-is_done e bs rest small =
      let n = m.byte_size e in
      let v = (encode_varint32 max_varint32_bytes n).0 in
      ap is_done (append_assoc v bs rest)
      ∙ decoded-is_done (v ++ (bs ++ rest)) (n, length v)
          (decode_varint32-encode_varint32 n (bs ++ rest) (omega (arith, small)))

  serialize-record :
      (e : E) (bs file : List ℕ)
      → m.to_array e ≡ some bs
      → m.byte_size e < 2 ^ 31
      → serialize m e file ≡ (true, file ++ record_of e bs)
  unfolding serialize
  serialize-record e bs file made small =
      let n = m.byte_size e in
      let v = (encode_varint32 max_varint32_bytes n).0 in
      let with_data = put_data m (file ++ v) (m.to_array e) in
      let small_word : n < u32_mod = omega (arith, small) in
      let whole : n % u32_mod ≡ n = omega (arith, small) in
      ap (λ (k : ℕ). header_and_data (encode_varint32 max_varint32_bytes k) file e) whole
      ∙ ap (λ (b : Bool). if b then unwritten file else with_data)
          (encode_varint32-written n small_word)
      ∙ ap (put_data m (file ++ v)) made
      ∙ ap (λ (xs : List ℕ). written_file xs) (append_assoc file v bs)

  serialize_all-records :
      (es : List E) (file : List ℕ) (w : AreWritable es)
      → serialize_all m es file ≡ file ++ records es w
  unfolding serialize_all records
  serialize_all-records [] file w = sym (append-nil file)
  serialize_all-records (e ∷ es) file w =
      let (bs, made, small) = w.0 in
      ap (λ (r : Bool × List ℕ). serialize_all m es r.1) (serialize-record e bs file made small)
      ∙ serialize_all-records es (file ++ record_of e bs) w.1
      ∙ append_assoc file (record_of e bs) (records es w.1)

  read_all-records :
      (es : List E) (w : AreWritable es)
      → read_all m (length es) (record { left = records es w; m_error = false }) ≡ map some es
  unfolding read_all records
  read_all-records [] w = refl
  read_all-records (e ∷ es) w =
      let (bs, made, small) = w.0 in
      let left = record_of e bs ++ records es w.1 in
      ap
        (λ (b : Bool).
          if b
          then []
          else and_rest m (read_all m (length es))
              (read_trace_event m (record { left = left; m_error = false })))
        (record_of-is_done e bs (records es w.1) small)
      ∙ ap (and_rest m (read_all m (length es))) (read_record e bs (records es w.1) made small)
      ∙ ap (◌∷◌ (some e)) (read_all-records es w.1)

  -- Where the messages behave as documented, and each event can be written and is shorter than 2 ^ 31
  -- bytes: of a file into which the events were written one after the other, a reader with as many reads
  -- reads exactly these events, in this order.
  pub read_all-serialize_all :
      (es : List E)
      → AreWritable es
      → read_all m (length es) (record { left = serialize_all m es []; m_error = false })
        ≡ map some es
  read_all-serialize_all es w =
      ap (λ (bs : List ℕ). read_all m (length es) (record { left = bs; m_error = false }))
        (serialize_all-records es [] w)
      ∙ read_all-records es w
