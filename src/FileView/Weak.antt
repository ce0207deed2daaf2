-- ===== src/FileView/Weak.antt =====
-- What FileSystemViewer::find of source/octf/trace/parser/v2/ParsedIoTraceEventHandler.cpp finds: the
-- newest version of a file that is no newer than the one asked for.
use open_cas_telemetry_frame.Prelude.{
  ◌≤◌, ◌≡◌, refl, sym, ap, subst, ◌≢◌, inl, inr, true, false, ◌&&◌, not, Option, none, some, [],
  ◌∷◌, arith, ℕ_discrete, ◌==◌, Bool-cases,
}
use mathlib.Core.List.{Memᴰ}
use open_cas_telemetry_frame.FileView.{
  FileId, FileInfo, Viewer, file_lt, find_exact, find_before, same_number, or_else, find,
}
use open_cas_telemetry_frame.FileView.Files.{
  AreAbove, IsSorted, file_lt_trans, file_lt_asym, file_lt-same_file, file_eq, same_file_eq,
  file_lt_irrefl,
}

-- The file `x` has the number and the partition of `id`, and was created no later.
abbrev pub IsVersion : FileId → FileId → Type 0
IsVersion id x =
    (x.partition_id ≡ id.partition_id) × (x.id ≡ id.id) × (x.creation_date ≤ id.creation_date)

-- The outcome is the newest version among the entries, and nothing only if there is none.
abbrev pub IsNewest : FileId → Viewer → Option (FileId × FileInfo) → Type 0
IsNewest id v none = (x : FileId × FileInfo) → Memᴰ x v → ¬ IsVersion id x.0
IsNewest id v (some e) =
    Memᴰ e v
    × IsVersion id e.0
    × ((x : FileId × FileInfo)
        → Memᴰ x v
        → IsVersion id x.0
        → x.0.creation_date ≤ e.0.creation_date)

-- The last entry below `id`.
abbrev IsLastBelow : FileId → Viewer → Option (FileId × FileInfo) → Type 0
IsLastBelow id v none = (x : FileId × FileInfo) → Memᴰ x v → file_lt x.0 id ≡ false
IsLastBelow id v (some e) =
    Memᴰ e v
    × (file_lt e.0 id ≡ true)
    × ((x : FileId × FileInfo) → Memᴰ x v → file_lt x.0 id ≡ true → file_lt e.0 x.0 ≡ false)

not_in_nil : (x : FileId × FileInfo) → ¬ Memᴰ x []
not_in_nil x m = elim m [ ]

-- A property of all entries.
all_cons :
    {P : FileId × FileInfo → Type 0} (e : FileId × FileInfo) (es : Viewer)
    → P e
    → ((x : FileId × FileInfo) → Memᴰ x es → P x)
    → (x : FileId × FileInfo) → Memᴰ x (e ∷ es)
    → P x
all_cons {P} e es h k x (Memᴰ.head same) = subst P (sym same) h
all_cons {P} e es h k x (Memᴰ.tail m) = k x m

AreAbove-Mem :
    (id : FileId) (v : Viewer) (x : FileId × FileInfo)
    → AreAbove id v
    → Memᴰ x v
    → file_lt id x.0 ≡ true
AreAbove-Mem id [] x h m = absurd (not_in_nil x m)
AreAbove-Mem id (e ∷ es) x h m =
    all_cons {P = λ y. file_lt id y.0 ≡ true} e es h.0 (λ y k. AreAbove-Mem id es y h.1 k) x m

cons-IsLastBelow :
    (id : FileId) (e : FileId × FileInfo) (es : Viewer) (o : Option (FileId × FileInfo))
    → AreAbove e.0 es
    → file_lt e.0 id ≡ true
    → IsLastBelow id es o
    → IsLastBelow id (e ∷ es) (or_else o (some e))
cons-IsLastBelow id e es none above below h = (
  Memᴰ.head refl,
  below,
  all_cons {P = λ x. file_lt x.0 id ≡ true → file_lt e.0 x.0 ≡ false} e es (λ l. file_lt_irrefl e.0)
      (λ x m l. ground (arith, h x m)),
)
cons-IsLastBelow id e es (some y) above below h = (
  Memᴰ.tail h.0,
  h.1,
  all_cons {P = λ x. file_lt x.0 id ≡ true → file_lt y.0 x.0 ≡ false} e es
      (λ l. file_lt_asym e.0 y.0 (AreAbove-Mem e.0 es y above h.0)) h.2,
)

find_before-IsLastBelow :
    (id : FileId) (v : Viewer) → IsSorted v → IsLastBelow id v (find_before id v)
unfolding find_before
find_before-IsLastBelow id [] s = λ x m. absurd (not_in_nil x m)
find_before-IsLastBelow id (e ∷ es) s = elim (Bool-cases (file_lt e.0 id)) [
  | inl below ↦
      rw below
        (cons-IsLastBelow id e es (find_before id es) s.0 below (find_before-IsLastBelow id es s.1))
  | inr above ↦ rw above (
      all_cons {P = λ x. file_lt x.0 id ≡ false} e es above (λ x m.
        elim (Bool-cases (file_lt x.0 id)) [
          | inl l ↦ ground (arith, file_lt_trans e.0 x.0 id (AreAbove-Mem e.0 es x s.0 m) l)
          | inr l ↦ l
        ]))
]

-- The entry of the file itself.
abbrev IsExact : FileId → Viewer → Option (FileId × FileInfo) → Type 0
IsExact id v none = (x : FileId × FileInfo) → Memᴰ x v → x.0 ≢ id
IsExact id v (some e) = Memᴰ e v × (e.0 ≡ id)

cons-IsExact :
    (id : FileId) (e : FileId × FileInfo) (es : Viewer) (o : Option (FileId × FileInfo))
    → e.0 ≢ id
    → IsExact id es o
    → IsExact id (e ∷ es) o
cons-IsExact id e es none other h = all_cons {P = λ x. x.0 ≢ id} e es other h
cons-IsExact id e es (some y) other h = (Memᴰ.tail h.0, h.1)

neither-below_eq : (a b : FileId) → not (file_lt a b) && not (file_lt b a) ≡ true → a ≡ b
neither-below_eq a b h = same_file_eq a b (file_lt-same_file a b (ground arith) (ground arith))

neither-below_ne : (a b : FileId) → not (file_lt a b) && not (file_lt b a) ≡ false → a ≢ b
neither-below_ne a b h same =
    let self : not (file_lt b b) && not (file_lt b b) ≡ false =
      subst (λ (c : FileId). not (file_lt c b) && not (file_lt b c) ≡ false) same h in
    ground (arith, self, file_lt_irrefl b)

find_exact-IsExact : (id : FileId) (v : Viewer) → IsExact id v (find_exact id v)
unfolding find_exact
find_exact-IsExact id [] = λ x m. absurd (not_in_nil x m)
find_exact-IsExact id (e ∷ es) = elim (Bool-cases (not (file_lt e.0 id) && not (file_lt id e.0))) [
  | inl here ↦ rw here (Memᴰ.head refl, neither-below_eq e.0 id here)
  | inr other ↦ rw other (
      cons-IsExact id e es (find_exact id es) (neither-below_ne e.0 id other)
        (find_exact-IsExact id es))
]

IsVersion-below : (id x : FileId) → IsVersion id x → x ≢ id → file_lt x id ≡ true
unfolding file_lt
IsVersion-below id x (p, i, d) other = elim (ℕ_discrete x.creation_date id.creation_date) [
  | yes same ↦ absurd (other (file_eq x id p i same))
  | no later ↦ ground (arith, p, i, d, later)
]

below-IsVersion :
    (id y : FileId)
    → file_lt y id ≡ true
    → y.id ≡ id.id
    → y.partition_id ≡ id.partition_id
    → IsVersion id y
unfolding file_lt
below-IsVersion id y l i p = (p, i, ground (arith, l, i, p))

newer_version :
    (id x y : FileId)
    → IsVersion id x
    → IsVersion id y
    → file_lt y x ≡ false
    → x.creation_date ≤ y.creation_date
unfolding file_lt
newer_version id x y (p, i, d) (p', i', d') l = ground (arith, p, i, p', i', l)

other_below :
    (id x y : FileId)
    → IsVersion id x
    → y.id == id.id && y.partition_id == id.partition_id ≡ false
    → file_lt y id ≡ true
    → file_lt y x ≡ true
unfolding file_lt
other_below id x y (p, i, d) other l = ground (arith, p, i, other, l)

or_before-IsNewest :
    (id : FileId) (v : Viewer) (o : Option (FileId × FileInfo))
    → IsExact id v none
    → IsLastBelow id v o
    → IsNewest id v (same_number id o)
or_before-IsNewest id v none exact h =
    λ x m version. ground (arith, h x m, IsVersion-below id x.0 version (exact x m))
or_before-IsNewest id v (some y) exact h =
    elim (Bool-cases (y.0.id == id.id && y.0.partition_id == id.partition_id)) [
      | inl same ↦
          let version : IsVersion id y.0 =
            below-IsVersion id y.0 h.1 (ground arith) (ground arith) in
          rw same (
            h.0,
            version,
            λ x m older.
                newer_version id x.0 y.0 older version
                  (h.2 x m (IsVersion-below id x.0 older (exact x m))),
          )
      | inr other ↦ rw other (λ x m older. ground (
        arith,
        other_below id x.0 y.0 older other h.1,
        h.2 x m (IsVersion-below id x.0 older (exact x m)),
      ))
    ]

exact_or-IsNewest :
    (id : FileId) (v : Viewer) (o o' : Option (FileId × FileInfo))
    → IsExact id v o
    → IsLastBelow id v o'
    → IsNewest id v (or_else o (same_number id o'))
exact_or-IsNewest id v none o' exact h = or_before-IsNewest id v o' exact h
exact_or-IsNewest id v (some e) o' (m, same) h =
    let same_partition : e.0.partition_id ≡ id.partition_id =
      ap (λ (x : FileId). x.partition_id) same in
    let same_id : e.0.id ≡ id.id = ap (λ (x : FileId). x.id) same in
    let same_date : e.0.creation_date ≡ id.creation_date =
      ap (λ (x : FileId). x.creation_date) same in
    (
      m,
      (same_partition, same_id, omega (arith, same_date)),
      λ x m' older. omega (arith, same_date, older.2),
    )

-- In a viewer whose entries are in the order of the files, `find` leads to an entry of the number and the
-- partition that are asked for, created no later than asked for, and no other such entry was created
-- later than it; and it finds nothing only if the viewer has no such entry.
pub find-IsNewest : (id : FileId) (v : Viewer) → IsSorted v → IsNewest id v (find id v)
unfolding find
find-IsNewest id v s =
    exact_or-IsNewest id v (find_exact id v) (find_before id v) (find_exact-IsExact id v)
      (find_before-IsLastBelow id v s)
