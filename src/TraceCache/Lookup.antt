-- ===== src/TraceCache/Lookup.antt =====
-- What TraceCacheLocal::write stores and TraceCacheLocal::read finds, of
-- source/octf/trace/internal/TraceCacheLocal.cpp.
use open_cas_telemetry_frame.Prelude.{
  ℕ, zero, suc, ◌+◌, ◌≤◌, ◌≡◌, refl, sym, ap, ◌∙◌, inl, inr, Bool, true, false, Option, none, some,
  List, [], ◌∷◌, ◌++◌, arith, if◌then◌else◌, Bool-cases, length, set,
}
use open_cas_telemetry_frame.TraceCache.{
  erased, read_value, Messages, Entry, File, holding, entries, find, unpack_valid, read_entry, read,
  put_entry, write,
}

abbrev pub index_of : {E : Type 0} → Option (ℕ × E) → ℕ
index_of none = 0
index_of (some (i, e)) = i

abbrev pub entry_of : {E : Type 0} → E → Option (ℕ × E) → E
entry_of d none = d
entry_of d (some (i, e)) = e

module _ {Key Value Any Version : Type 0} (m : Messages Key Value Any Version) where
  pub find_le :
      (es : List (Entry Any Version)) (i : ℕ) (k : Any) (j : ℕ) (e : Entry Any Version)
      → find m es i k ≡ some (j, e)
      → i ≤ j
  unfolding find
  find_le [] i k j e h = ground arith
  find_le (x ∷ es) i k j e h = elim (Bool-cases (m.equals x.key k)) [
    | inl here ↦ let found : i ≡ j = ap index_of (rw here at h) in omega arith
    | inr other ↦ omega (arith, find_le es (i + 1) k j e (rw other at h))
  ]

  -- The entry that was found is replaced by one with an equal key.
  find-set :
      (es : List (Entry Any Version)) (i : ℕ) (k : Any) (n : ℕ) (e e' : Entry Any Version)
      → find m es i k ≡ some (i + n, e)
      → m.equals e'.key k ≡ true
      → find m (set es n e') i k ≡ some (i + n, e')
  unfolding find
  find-set [] i k n e e' h same = ground arith
  find-set (x ∷ es) i k zero e e' h same = elim (Bool-cases (m.equals x.key k)) [
    | inl here ↦ rw same (ap (λ j. some (j, e')) (omega arith))
    | inr other ↦ let later = find_le es (i + 1) k (i + 0) e (rw other at h) in ground arith
  ]
  find-set (x ∷ es) i k (suc n) e e' h same = elim (Bool-cases (m.equals x.key k)) [
    | inl here ↦ let found : i ≡ i + suc n = ap index_of (rw here at h) in ground arith
    | inr other ↦
        let next : i + suc n ≡ i + 1 + n = omega arith in
        let later =
          find-set es (i + 1) k n e e' (rw other at h ∙ ap (λ j. some (j, e)) next) same in
        rw other (later ∙ ap (λ j. some (j, e')) (sym next))
  ]

  pub find-key :
      (es : List (Entry Any Version)) (i : ℕ) (k : Any) (j : ℕ) (e : Entry Any Version)
      → find m es i k ≡ some (j, e)
      → m.equals e.key k ≡ true
  unfolding find
  find-key [] i k j e h = ground arith
  find-key (x ∷ es) i k j e h = elim (Bool-cases (m.equals x.key k)) [
    | inl here ↦
        ap (λ (z : Entry Any Version). m.equals z.key k) (sym (ap (entry_of x) (rw here at h)))
        ∙ here
    | inr other ↦ find-key es (i + 1) k j e (rw other at h)
  ]

  -- For another key the replaced entry changes nothing.
  find-set_other :
      (es : List (Entry Any Version)) (i : ℕ) (k k' : Any) (n : ℕ) (e e' : Entry Any Version)
      → find m es i k ≡ some (i + n, e)
      → m.equals e.key k' ≡ false
      → m.equals e'.key k' ≡ false
      → find m (set es n e') i k' ≡ find m es i k'
  unfolding find
  find-set_other [] i k k' n e e' h old new = refl
  find-set_other (x ∷ es) i k k' zero e e' h old new = elim (Bool-cases (m.equals x.key k)) [
    | inl here ↦
        let same : x ≡ e = ap (entry_of x) (rw here at h) in
        let first : m.equals x.key k' ≡ false =
          ap (λ (z : Entry Any Version). m.equals z.key k') same ∙ old in
        rw new (rw first refl)
    | inr other ↦ let later = find_le es (i + 1) k (i + 0) e (rw other at h) in ground arith
  ]
  find-set_other (x ∷ es) i k k' (suc n) e e' h old new = elim (Bool-cases (m.equals x.key k)) [
    | inl here ↦ let found : i ≡ i + suc n = ap index_of (rw here at h) in ground arith
    | inr other ↦
        let next : i + suc n ≡ i + 1 + n = omega arith in
        ap (λ r. if m.equals x.key k' then some (i, x) else r)
          (find-set_other es (i + 1) k k' n e e' (rw other at h ∙ ap (λ j. some (j, e)) next) old
            new)
  ]

  find-append :
      (es : List (Entry Any Version)) (i : ℕ) (k : Any) (e : Entry Any Version)
      → find m es i k ≡ none
      → m.equals e.key k ≡ true
      → find m (es ++ e ∷ []) i k ≡ some (i + length es, e)
  unfolding find
  find-append [] i k e h same = rw same (ap (λ j. some (j, e)) (omega arith))
  find-append (x ∷ es) i k e h same = elim (Bool-cases (m.equals x.key k)) [
    | inl here ↦ ground arith
    | inr other ↦
        rw other
          (find-append es (i + 1) k e (rw other at h) same ∙ ap (λ j. some (j, e)) (omega arith))
  ]

  find-append_other :
      (es : List (Entry Any Version)) (i : ℕ) (k : Any) (e : Entry Any Version)
      → m.equals e.key k ≡ false
      → find m (es ++ e ∷ []) i k ≡ find m es i k
  unfolding find
  find-append_other [] i k e other = rw other refl
  find-append_other (x ∷ es) i k e other =
      ap (λ r. if m.equals x.key k then some (i, x) else r) (find-append_other es (i + 1) k e other)

  -- Where `put_entry` puts the value.
  find-put_entry :
      (es : List (Entry Any Version)) (k a : Any) (o : Option (ℕ × Entry Any Version))
      → find m es 0 k ≡ o
      → m.equals k k ≡ true
      → (j : ℕ) × (e : Entry Any Version) × (find m (put_entry m es k a o) 0 k ≡ some (j, e))
        × (e.value ≡ a)
        × (e.version ≡ m.get_version)
  find-put_entry es k a none h same = (
    _,
    _,
    find-append es 0 k (record { key = k; value = a; version = m.get_version }) h same,
    refl,
    refl,
  )
  find-put_entry es k a (some (j, e)) h same =
      let e' : Entry Any Version = record e { value = a; version = m.get_version } in
      let at : find m es 0 k ≡ some (0 + j, e) = h ∙ ap (λ n. some (n, e)) (omega arith) in
      (_, e', find-set es 0 k j e e' at (find-key es 0 k j e h), refl, refl)

  find-put_entry_other :
      (es : List (Entry Any Version)) (k k' a : Any) (o : Option (ℕ × Entry Any Version))
      → find m es 0 k ≡ o
      → ((x : Any) → m.equals x k ≡ true → m.equals x k' ≡ false)
      → m.equals k k' ≡ false
      → find m (put_entry m es k a o) 0 k' ≡ find m es 0 k'
  find-put_entry_other es k k' a none h apart other =
      find-append_other es 0 k' (record { key = k; value = a; version = m.get_version }) other
  find-put_entry_other es k k' a (some (j, e)) h apart other =
      let at : find m es 0 k ≡ some (0 + j, e) = h ∙ ap (λ n. some (n, e)) (omega arith) in
      let old = apart e.key (find-key es 0 k j e h) in
      find-set_other es 0 k k' j e (record e { value = a; version = m.get_version }) at old old

  write-holding :
      (f : File Any Version) (es : List (Entry Any Version)) (key : Key) (value : Value) (k a : Any)
      → m.pack_key key ≡ some k
      → m.pack_value value ≡ some a
      → entries f ≡ some es
      → write m true f key value ≡ (true, holding (put_entry m es k a (find m es 0 k)))
  unfolding write
  write-holding f es key value k a pk pv r = rw (pk, pv, r) refl

  pub read-holding :
      (w : Bool) (f : File Any Version) (es : List (Entry Any Version)) (key : Key) (k : Any)
      → m.pack_key key ≡ some k
      → entries f ≡ some es
      → read m w f key ≡ read_entry m w f es (find m es 0 k)
  unfolding read
  read-holding w f es key k pk r = rw pk (rw r refl)

  -- What a read returns, whatever it does to the file.
  abbrev value_at : Option (ℕ × Entry Any Version) → Option Value
  value_at none = none
  value_at (some (i, e)) = unpack_valid m e

  read_value_lem :
      (w : Bool) (f : File Any Version) (es : List (Entry Any Version)) (x : Option Value)
      → (read_value m w f es x).0 ≡ x
  read_value_lem w f es none = refl
  read_value_lem w f es (some v) = refl

  read_entry_value :
      (w : Bool) (f : File Any Version) (es : List (Entry Any Version))
      (o : Option (ℕ × Entry Any Version))
      → (read_entry m w f es o).0 ≡ value_at o
  read_entry_value w f es none = refl
  read_entry_value w f es (some (i, e)) = read_value_lem w f (erased e i 0 es) (unpack_valid m e)

  -- Where key and value can be packed, a packed value unpacks to itself, the file can be read and
  -- written, and the comparisons hold a thing equal to itself: a write succeeds, and then a read of this key returns this value and
  -- leaves the file: whether the key was new or had an entry, stale or not.
  pub read-write :
      (w : Bool) (f : File Any Version) (es : List (Entry Any Version)) (key : Key) (value : Value)
      (k a : Any)
      → m.pack_key key ≡ some k
      → m.pack_value value ≡ some a
      → entries f ≡ some es
      → m.unpack a ≡ some value
      → m.equals k k ≡ true
      → m.same_version m.get_version m.get_version ≡ true
      → let (written, f') = write m true f key value in
        (written ≡ true) × (read m w f' key ≡ (some value, f'))
  read-write w f es key value k a pk pv r u same version =
      let es' = put_entry m es k a (find m es 0 k) in
      let (j, e, found, v, ver) = find-put_entry es k a (find m es 0 k) refl same in
      let valid : unpack_valid m e ≡ some value =
        rw (ap (λ x. m.same_version x m.get_version) ver ∙ version) (rw v u) in
      rw (write-holding f es key value k a pk pv r) (
        refl,
        read-holding w (holding es') es' key k pk refl
            ∙ ap (read_entry m w (holding es') es') found
            ∙ ap (read_value m w (holding es') (erased e j 0 es')) valid,
      )

  -- A write that succeeds under one key changes no read of another key, where no packed key equals both: the same value or none is returned.
  pub read-write_other :
      (w : Bool) (f : File Any Version) (es : List (Entry Any Version)) (key key' : Key)
      (value : Value) (k k' a : Any)
      → m.pack_key key ≡ some k
      → m.pack_key key' ≡ some k'
      → m.pack_value value ≡ some a
      → entries f ≡ some es
      → ((x : Any) → m.equals x k ≡ true → m.equals x k' ≡ false)
      → m.equals k k' ≡ false
      → (read m w (write m true f key value).1 key').0 ≡ (read m w f key').0
  read-write_other w f es key key' value k k' a pk pk' pv r apart other =
      let es' = put_entry m es k a (find m es 0 k) in
      rw (write-holding f es key value k a pk pv r) (
        rw (read-holding w (holding es') es' key' k' pk' refl) (
          rw (read-holding w f es key' k' pk' r) (
            rw (find-put_entry_other es k k' a (find m es 0 k) refl apart other) (
              read_entry_value w (holding es') es' (find m es 0 k')
              ∙ sym (read_entry_value w f es (find m es 0 k'))))))
