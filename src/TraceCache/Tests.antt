-- ===== src/TraceCache/Tests.antt =====
-- Tests of the model of source/octf/trace/internal/TraceCacheLocal.cpp with numbers for keys, values
-- and versions, and its theorems at work.
use open_cas_telemetry_frame.Prelude.{
  ℕ, ◌≡◌, refl, true, false, none, some, List, [], ◌∷◌, arith, ◌==◌,
}
use open_cas_telemetry_frame.TraceCache.{Messages, Entry, holding, find, read, write}
use open_cas_telemetry_frame.TraceCache.Lookup.{read-write, read-write_other}
use open_cas_telemetry_frame.TraceCache.Stale.{read-stale}

abbrev numbers : Messages ℕ ℕ ℕ ℕ
numbers = record {
  pack_key = λ k. some k;
  pack_value = λ v. some v;
  unpack = λ a. some a;
  equals = ◌==◌;
  get_version = 2;
  same_version = ◌==◌;
}

abbrev entry : ℕ → ℕ → ℕ → Entry ℕ ℕ
entry k v n = record { key = k; value = v; version = n }

-- The entry of the key 1 is from an earlier version.
abbrev stored : List (Entry ℕ ℕ)
stored = entry 1 10 1 ∷ entry 5 50 2 ∷ []

read-write_example :
    let (written, f) = write numbers true (holding stored) 5 77 in
    (written ≡ true) × (read numbers true f 5 ≡ (some 77, f))
read-write_example =
    read-write numbers true (holding stored) stored 5 77 5 77 refl refl refl refl refl refl

apart : (x : ℕ) → (x == 7) ≡ true → (x == 5) ≡ false
apart x h = ground arith

read-write_other_example :
    (read numbers true (write numbers true (holding stored) 7 70).1 5).0
    ≡ (read numbers true (holding stored) 5).0
read-write_other_example =
    read-write_other numbers true (holding stored) stored 7 5 70 7 5 70 refl refl refl refl apart
      refl

found_entry : find numbers stored 0 1 ≡ some (0, entry 1 10 1)
unfolding find
found_entry = refl

read-stale_example :
    let (value, f) = read numbers true (holding stored) 1 in
    (value ≡ none) × (read numbers true f 5 ≡ (none, f))
read-stale_example =
    read-stale numbers true (holding stored) stored 1 5 1 5 0 (entry 1 10 1) refl refl refl
      found_entry refl refl
