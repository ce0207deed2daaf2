-- ===== src/TraceCache/Stale.antt =====
-- Erasing an entry with TraceCacheLocal::eraseCacheEntry of
-- source/octf/trace/internal/TraceCacheLocal.cpp.
use open_cas_telemetry_frame.Prelude.{
  ℕ, ◌+◌, ◌≡◌, refl, ap, ◌∙◌, inl, inr, Bool, true, false, none, some, List, [], ◌∷◌, ◌==◌,
  Bool-cases,
}
use open_cas_telemetry_frame.TraceCache.{
  Messages, Entry, File, holding, entries, find, unpack_valid, read_entry, read_value, read, erased,
}
use open_cas_telemetry_frame.TraceCache.Lookup.{read-holding}

module _ {Key Value Any Version : Type 0} (m : Messages Key Value Any Version) where
  find-erased :
      (es : List (Entry Any Version)) (e : Entry Any Version) (i j n : ℕ) (k : Any)
      → m.equals e.key k ≡ false
      → find m (erased e i j es) n k ≡ none
  unfolding find
  find-erased [] e i j n k h = refl
  find-erased (x ∷ es) e i j n k h = elim (Bool-cases (j == i)) [
    | inl here ↦ rw here (find-erased es e i (j + 1) n k h)
    | inr other ↦ rw other (rw h (find-erased es e i (j + 1) (n + 1) k h))
  ]

  -- A read that finds an entry it cannot use (its version is another one, or its value cannot be
  -- unpacked) returns false and, where the file can be written, rewrites it, after which no other key has an entry: every read of
  -- another key returns false, whatever was stored under it.
  pub read-stale :
      (w : Bool) (f : File Any Version) (es : List (Entry Any Version)) (key key' : Key)
      (k k' : Any) (i : ℕ) (e : Entry Any Version)
      → m.pack_key key ≡ some k
      → m.pack_key key' ≡ some k'
      → entries f ≡ some es
      → find m es 0 k ≡ some (i, e)
      → unpack_valid m e ≡ none
      → m.equals e.key k' ≡ false
      → let (value, f') = read m true f key in (value ≡ none) × (read m w f' key' ≡ (none, f'))
  read-stale w f es key key' k k' i e pk pk' r found stale other =
      let rest = erased e i 0 es in
      let first : read m true f key ≡ (none, holding rest) =
        read-holding m true f es key k pk r
        ∙ ap (read_entry m true f es) found
        ∙ ap (read_value m true f rest) stale in
      rw first (
        refl,
        read-holding m w (holding rest) rest key' k' pk' refl
            ∙ ap (read_entry m w (holding rest) rest) (find-erased es e i 0 0 k' other),
      )
