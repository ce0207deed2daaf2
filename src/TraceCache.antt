-- ===== src/TraceCache.antt =====
-- source/octf/trace/internal/TraceCacheLocal.cpp: the cache of a trace's results, a file of entries
-- that are looked up by key.
use open_cas_telemetry_frame.Prelude.{
  ℕ, zero, suc, ◌+◌, ◌-◌, ◌*◌, ◌/◌, ◌%◌, ◌^◌, ◌≤◌, ◌<◌, min, max, ◌≡◌, refl, sym, ap, ap₂, ◌∙◌,
  subst, ◌≢◌, ◌↔◌, ◌⊎◌, inl, inr, Bool, true, false, ◌&&◌, ◌||◌, not, Option, none, some, List, [],
  ◌∷◌, ◌++◌, map, append-nil, append_assoc, arith, dec_lt, dec_le, ℕ_discrete, ltb, leb, ◌==◌,
  if◌then◌else◌, ltb→lt, lt→ltb, leb→le, ==_iff, Bool-cases, Option-cases, length, take, drop,
  replicate, set, get_or, length-append, take-append-drop, length-replicate, length-set, take-all,
  take-take, take_add, take-nil, length-take_le, take-prefix, drop-prefix, take-within, drop-within,
  length-take, length-drop, u64_mod, add64, sub64, mul64,
}
pub mod Lookup
pub mod Stale
mod Tests

-- What the cache uses of protobuf and of the framework's configuration: packing a key or a value into
-- an `Any` and unpacking it, both of which may fail; the comparison of two of them; and the version.
pub record Messages (Key Value Any Version : Type 0) : Type 0 where
  pub pack_key : Key → Option Any
  pub pack_value : Value → Option Any
  pub unpack : Any → Option Value
  pub equals : Any → Any → Bool
  pub get_version : Version
  pub same_version : Version → Version → Bool

-- `proto::TraceCache::Entry`.
pub record Entry (Any Version : Type 0) : Type 0 where
  pub key : Any
  pub value : Any
  pub version : Version

-- The cache's file: there is none, it cannot be parsed, or it holds entries.
pub data File (Any Version : Type 0) : Type 0 where
  missing : File Any Version
  unreadable : File Any Version
  holding : List (Entry Any Version) → File Any Version

-- The entries that a call starts from, or `none` when the file cannot be read.
abbrev pub entries : {Any Version : Type 0} → File Any Version → Option (List (Entry Any Version))
entries missing = some []
entries unreadable = none
entries (holding es) = some es

-- Every entry but the one at `i`, as `eraseCacheEntry` writes them: `iter` runs over the entries from
-- the index `j`, and what is added is a copy of `entry`.
abbrev pub erased : {E : Type 0} → E → ℕ → ℕ → List E → List E
erased entry i j [] = []
erased entry i j (e ∷ es) =
    let rest = erased entry i (j + 1) es in if j == i then rest else entry ∷ rest

module _ {Key Value Any Version : Type 0} (m : Messages Key Value Any Version) where
  -- `TraceCacheLocal::find`: the index of the entry and the entry.
  unfoldable pub find : List (Entry Any Version) → ℕ → Any → Option (ℕ × Entry Any Version)
  find [] i k = none
  find (e ∷ es) i k = let rest = find es (i + 1) k in if m.equals e.key k then some (i, e) else rest

  -- `TraceCacheLocal::isCacheEntryValid`.
  abbrev pub is_cache_entry_valid : Entry Any Version → Bool
  is_cache_entry_valid e = m.same_version e.version m.get_version

  abbrev pub unpack_valid : Entry Any Version → Option Value
  unpack_valid e = if is_cache_entry_valid e then m.unpack e.value else none

  -- `ProtobufReaderWriter::write`, which may fail, and then leaves the file.
  abbrev pub write_file : Bool → File Any Version → List (Entry Any Version) → File Any Version
  write_file writable f es = if writable then holding es else f

  -- `TraceCacheLocal::read` behind `find`: the value, or `none` for false, and the file.
  abbrev pub read_value :
      Bool
      → File Any Version
      → List (Entry Any Version)
      → Option Value
      → Option Value × File Any Version
  read_value writable f rest (some v) = (some v, f)
  read_value writable f rest none = (none, write_file writable f rest)

  abbrev pub read_entry :
      Bool
      → File Any Version
      → List (Entry Any Version)
      → Option (ℕ × Entry Any Version)
      → Option Value × File Any Version
  read_entry writable f es none = (none, f)
  read_entry writable f es (some (i, e)) = read_value writable f (erased e i 0 es) (unpack_valid e)

  abbrev pub read_entries :
      Bool
      → File Any Version
      → Any
      → Option (List (Entry Any Version))
      → Option Value × File Any Version
  read_entries writable f k none = (none, f)
  read_entries writable f k (some es) = read_entry writable f es (find es 0 k)

  abbrev pub read_packed : Bool → File Any Version → Option Any → Option Value × File Any Version
  read_packed writable f none = (none, f)
  read_packed writable f (some k) = read_entries writable f k (entries f)

  -- `TraceCacheLocal::read`.
  unfoldable pub read : Bool → File Any Version → Key → Option Value × File Any Version
  read writable f key = read_packed writable f (m.pack_key key)

  -- The entries with the value put into the entry that `find` returned, or into a new one.
  abbrev pub put_entry :
      List (Entry Any Version)
      → Any
      → Any
      → Option (ℕ × Entry Any Version)
      → List (Entry Any Version)
  put_entry es k v none = es ++ record { key = k; value = v; version = m.get_version } ∷ []
  put_entry es k v (some (i, e)) = set es i (record e { value = v; version = m.get_version })

  abbrev pub write_packed :
      Bool
      → File Any Version
      → Option Any
      → Option Any
      → Option (List (Entry Any Version))
      → Bool × File Any Version
  write_packed writable f none v es = (false, f)
  write_packed writable f (some k) v none = (false, f)
  write_packed writable f (some k) none (some es) = (false, f)
  write_packed writable f (some k) (some v) (some es) =
      (writable, write_file writable f (put_entry es k v (find es 0 k)))

  -- `TraceCacheLocal::write`: whether it succeeded, and the file.
  unfoldable pub write : Bool → File Any Version → Key → Value → Bool × File Any Version
  write writable f key value =
      write_packed writable f (m.pack_key key) (m.pack_value value) (entries f)

  -- `TraceCacheLocal::clear`: `none` for the exception it throws when the file cannot be removed.
  unfoldable pub clear : Bool → File Any Version → Option (File Any Version)
  clear removable missing = some missing
  clear removable unreadable = if removable then some missing else none
  clear removable (holding es) = if removable then some missing else none
