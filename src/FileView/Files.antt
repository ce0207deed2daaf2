-- ===== src/FileView/Files.antt =====
-- The order of the files of source/octf/fs/FileId.h, and viewers in that order.
use open_cas_telemetry_frame.Prelude.{
  ℕ, ◌≡◌, refl, sym, ap, ◌∙◌, inl, inr, true, false, Option, none, some, [], ◌∷◌, arith, Bool-cases,
}
use open_cas_telemetry_frame.FileView.{
  FileId, FileInfo, Viewer, same_file, file_lt, add_file, find_exact,
}

pub file_lt_trans : (a b c : FileId) → file_lt a b ≡ true → file_lt b c ≡ true → file_lt a c ≡ true
unfolding file_lt
file_lt_trans a b c h k = ground arith

pub file_lt_irrefl : (a : FileId) → file_lt a a ≡ false
unfolding file_lt
file_lt_irrefl a = ground arith

pub file_lt_asym : (a b : FileId) → file_lt a b ≡ true → file_lt b a ≡ false
unfolding file_lt
file_lt_asym a b h = ground arith

-- Neither is below the other only if the files are the same.
pub file_lt-same_file :
    (a b : FileId) → file_lt a b ≡ false → file_lt b a ≡ false → same_file a b ≡ true
unfolding file_lt same_file
file_lt-same_file a b h k = ground arith

pub file_eq :
    (a b : FileId)
    → a.partition_id ≡ b.partition_id
    → a.id ≡ b.id
    → a.creation_date ≡ b.creation_date
    → a ≡ b
file_eq a b p i d =
    ap (λ (n : ℕ). record a { partition_id = n }) p
    ∙ ap
        (λ (n : ℕ). record {
          partition_id = b.partition_id;
          id = n;
          creation_date = a.creation_date;
        })
        i
    ∙ ap (λ (n : ℕ). record b { creation_date = n }) d

pub same_file_eq : (a b : FileId) → same_file a b ≡ true → a ≡ b
unfolding same_file
same_file_eq a b h = file_eq a b (ground arith) (ground arith) (ground arith)

-- The entries of `v` are all above `id`; the entries of a viewer follow each other in the order of the files.
abbrev pub AreAbove : FileId → Viewer → Type 0
AreAbove id [] = Unit {0}
AreAbove id (e ∷ es) = (file_lt id e.0 ≡ true) × AreAbove id es

abbrev pub IsSorted : Viewer → Type 0
IsSorted [] = Unit {0}
IsSorted (e ∷ es) = AreAbove e.0 es × IsSorted es

pub AreAbove-trans : (a b : FileId) (v : Viewer) → file_lt a b ≡ true → AreAbove b v → AreAbove a v
AreAbove-trans a b [] h k = tt
AreAbove-trans a b (e ∷ es) h k = (file_lt_trans a b e.0 h k.0, AreAbove-trans a b es h k.1)

add_file-AreAbove :
    (a id : FileId) (info : FileInfo) (v : Viewer)
    → file_lt a id ≡ true
    → AreAbove a v
    → AreAbove a (add_file id info v)
unfolding add_file
add_file-AreAbove a id info [] h k = (h, tt)
add_file-AreAbove a id info (e ∷ es) h k = elim (Bool-cases (file_lt id e.0)) [
  | inl below ↦ rw below (h, k)
  | inr not_below ↦ rw not_below (elim (Bool-cases (file_lt e.0 id)) [
    | inl above ↦ rw above (k.0, add_file-AreAbove a id info es h k.1)
    | inr not_above ↦ rw not_above k
  ])
]

pub add_file-IsSorted :
    (id : FileId) (info : FileInfo) (v : Viewer) → IsSorted v → IsSorted (add_file id info v)
unfolding add_file
add_file-IsSorted id info [] s = (tt, tt)
add_file-IsSorted id info (e ∷ es) s = elim (Bool-cases (file_lt id e.0)) [
  | inl below ↦ rw below ((below, AreAbove-trans id e.0 es below s.0), s)
  | inr not_below ↦ rw not_below (elim (Bool-cases (file_lt e.0 id)) [
    | inl above ↦
        rw above (add_file-AreAbove e.0 id info es above s.0, add_file-IsSorted id info es s.1)
    | inr not_above ↦ rw not_above s
  ])
]

-- A file that stands above every entry is not found.
pub find_exact-below : (id : FileId) (v : Viewer) → AreAbove id v → find_exact id v ≡ none
unfolding find_exact
find_exact-below id [] h = refl
find_exact-below id (e ∷ es) h = rw h.0 (rw (file_lt_asym id e.0 h.0) (find_exact-below id es h.1))

abbrev or_entry : FileId × FileInfo → Option (FileId × FileInfo) → FileId × FileInfo
or_entry d none = d
or_entry d (some e) = e

found : (e x : FileId × FileInfo) → some e ≡ some x → e ≡ x
found e x h = ap (λ (o : Option (FileId × FileInfo)). or_entry e o) h

-- To add what is there already changes nothing.
pub add_file-same :
    (id : FileId) (info : FileInfo) (x : FileId × FileInfo) (v : Viewer)
    → IsSorted v
    → find_exact id v ≡ some x
    → x.1 ≡ info
    → add_file id info v ≡ v
unfolding add_file find_exact
add_file-same id info x [] s h same = ground arith
add_file-same id info x (e ∷ es) s h same = elim (Bool-cases (file_lt id e.0)) [
  | inl below ↦
      let later : find_exact id es ≡ some x = rw (file_lt_asym id e.0 below) at (rw below at h) in
      ground (arith, find_exact-below id es (AreAbove-trans id e.0 es below s.0), later)
  | inr not_below ↦ rw not_below (elim (Bool-cases (file_lt e.0 id)) [
    | inl above ↦
        rw above (ap (λ (v : Viewer). e ∷ v) (add_file-same id info x es s.1 (rw above at h) same))
    | inr not_above ↦ rw not_above (
        ap (λ (i : FileInfo). (e.0, i) ∷ es)
          (sym (
            ap (λ (y : FileId × FileInfo). y.1) (found e x (rw not_below at (rw not_above at h)))
            ∙ same)))
  ])
]
