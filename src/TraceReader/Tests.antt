-- ===== src/TraceReader/Tests.antt =====
-- Messages that are their own bytes, on which the theorems about trace files are applied.
use open_cas_telemetry_frame.Prelude.{
  ℕ, ◌≡◌, refl, sym, ap, false, Option, none, some, List, [], ◌∷◌, map, arith, length,
}
use open_cas_telemetry_frame.TraceReader.{
  encode_varint32, max_varint32_bytes, decode_varint32, Messages, serialize_all, read_all,
  encode_loop, decode_loop,
}
use open_cas_telemetry_frame.TraceReader.Records.{AreMessages, read_all-serialize_all}

abbrev raw : Messages (List ℕ)
raw = record { byte_size = λ e. length e; to_array = λ e. some e; from_array = λ bs. some bs }

abbrev bytes_or : List ℕ → Option (List ℕ) → List ℕ
bytes_or d none = d
bytes_or d (some bs) = bs

raw-AreMessages : AreMessages raw
raw-AreMessages = record {
  sized = λ e bs h. ap (λ (o : Option (List ℕ)). length (bytes_or e o)) (sym h);
  round_trip = λ e bs h. sym h;
}

abbrev two_events : List (List ℕ)
two_events = (1 ∷ 2 ∷ []) ∷ (7 ∷ []) ∷ []

read_all-serialize_all_example :
    read_all raw 2 (record { left = serialize_all raw two_events []; m_error = false })
    ≡ map some two_events
read_all-serialize_all_example =
    read_all-serialize_all raw raw-AreMessages two_events
      ((1 ∷ 2 ∷ [], refl, omega arith), ((7 ∷ [], refl, omega arith), tt))

-- Three hundred takes two bytes.
three_hundred : (encode_varint32 max_varint32_bytes 300).0 ≡ 172 ∷ 2 ∷ []
unfolding encode_varint32 encode_loop
three_hundred = refl

decoded_again : decode_varint32 (172 ∷ 2 ∷ 9 ∷ []) ≡ some (300, 2)
unfolding decode_varint32 decode_loop
decoded_again = refl
