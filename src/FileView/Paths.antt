-- ===== src/FileView/Paths.antt =====
-- Termination and length of FileSystemViewer::getPath of
-- source/octf/trace/parser/v2/ParsedIoTraceEventHandler.cpp.
use open_cas_telemetry_frame.Prelude.{
  ℕ, zero, suc, ◌+◌, ◌*◌, ◌^◌, ◌≤◌, ◌<◌, ◌≡◌, inl, inr, ◌&&◌, not, Option, none, some, [], ◌∷◌,
  arith, ltb, ◌==◌, Bool-cases, length, length-append, add64,
}
use open_cas_telemetry_frame.FileView.{
  Str, FileId, FileInfo, Viewer, path_max, slash, find, find_exact, find_before, info_of, or_else,
  same_number, PathResult, path_found, path_missing, path_exceeded, endless, join, below_parent,
  path_step, get_path, is_nil, ends_in_slash, file_lt, same_file, is_slash,
}

-- Every entry has a name, and none of 4 GiB or more.
abbrev pub HasName : FileInfo → Type 0
HasName info = (1 ≤ length info.name) × (length info.name < 2 ^ 32)

abbrev pub AreNamed : Viewer → Type 0
AreNamed [] = Unit {0}
AreNamed (e ∷ es) = HasName e.1 × AreNamed es

abbrev IsNamed : Option (FileId × FileInfo) → Type 0
IsNamed none = Unit {0}
IsNamed (some e) = HasName e.1

abbrev IsNamedInfo : Option FileInfo → Type 0
IsNamedInfo none = Unit {0}
IsNamedInfo (some info) = HasName info

or_else-IsNamed : (a b : Option (FileId × FileInfo)) → IsNamed a → IsNamed b → IsNamed (or_else a b)
or_else-IsNamed none b m n = n
or_else-IsNamed (some a) b m n = m

find_exact-IsNamed : (id : FileId) (v : Viewer) → AreNamed v → IsNamed (find_exact id v)
unfolding find_exact
find_exact-IsNamed id [] n = tt
find_exact-IsNamed id (e ∷ es) n =
    elim (Bool-cases (not (file_lt e.0 id) && not (file_lt id e.0))) [
      | inl here ↦ rw here n.0
      | inr other ↦ rw other (find_exact-IsNamed id es n.1)
    ]

find_before-IsNamed : (id : FileId) (v : Viewer) → AreNamed v → IsNamed (find_before id v)
unfolding find_before
find_before-IsNamed id [] n = tt
find_before-IsNamed id (e ∷ es) n = elim (Bool-cases (file_lt e.0 id)) [
  | inl below ↦
      rw below (or_else-IsNamed (find_before id es) (some e) (find_before-IsNamed id es n.1) n.0)
  | inr above ↦ rw above tt
]

same_number-IsNamed :
    (id : FileId) (a : Option (FileId × FileInfo)) → IsNamed a → IsNamed (same_number id a)
same_number-IsNamed id none n = tt
same_number-IsNamed id (some e) n =
    elim (Bool-cases (e.0.id == id.id && e.0.partition_id == id.partition_id)) [
      | inl here ↦ rw here n
      | inr other ↦ rw other tt
    ]

info_of-IsNamed : (a : Option (FileId × FileInfo)) → IsNamed a → IsNamedInfo (info_of a)
info_of-IsNamed none n = tt
info_of-IsNamed (some e) n = n

find-IsNamed : (id : FileId) (v : Viewer) → AreNamed v → IsNamedInfo (info_of (find id v))
unfolding find
find-IsNamed id v n = info_of-IsNamed _ (
    or_else-IsNamed (find_exact id v) (same_number id (find_before id v))
      (find_exact-IsNamed id v n)
      (same_number-IsNamed id (find_before id v) (find_before-IsNamed id v n)))

length-join : (p name : Str) → length (join p name) ≤ length p + 1 + length name
length-join p name = elim (Bool-cases (not (is_nil p) && not (ends_in_slash p))) [
  | inl e ↦ rw e (omega (arith, length-append p (slash ∷ name)))
  | inr e ↦ rw e (omega (arith, length-append p name))
]

-- The outcome of `getPath` for names of the length `len` so far.
abbrev pub Ends : ℕ → PathResult → Type 0
Ends len (path_found p) = length p + 2 * len ≤ 2 * path_max
Ends len path_missing = Unit {0}
Ends len path_exceeded = Unit {0}
Ends len endless = ⊥

below_parent-Ends :
    (len len' : ℕ) (name : Str) (r : PathResult)
    → len' ≡ len + length name
    → 1 ≤ length name
    → Ends len' r
    → Ends len (below_parent name r)
below_parent-Ends len len' name (path_found p) e n h = omega (arith, length-join p name)
below_parent-Ends len len' name path_missing e n h = tt
below_parent-Ends len len' name path_exceeded e n h = tt
below_parent-Ends len len' name endless e n h = h

path_step-Ends :
    (id : FileId) (len : ℕ) (up : FileId → ℕ → PathResult) (o : Option FileInfo)
    → len ≤ path_max
    → IsNamedInfo o
    → ((q : FileId) (n : ℕ) → len < n → n ≤ path_max → Ends n (up q n))
    → Ends len (path_step id len up o)
path_step-Ends id len up none b n h = tt
path_step-Ends id len up (some info) b n h =
    let len' = add64 len (length info.name) in
    let sum : len' ≡ len + length info.name = omega (arith, n.1) in
    elim (Bool-cases (ltb path_max len')) [
      | inl e ↦ rw e tt
      | inr e ↦ elim (Bool-cases (not (same_file id info.parent) && not (is_slash info.name))) [
        | inl up_there ↦ rw e (
            rw up_there (
              below_parent-Ends len len' info.name (up info.parent len') sum n.0
                (h info.parent len' (omega (arith, sum, n.0)) (ground (arith, e)))))
        | inr top ↦ rw e (rw top (ground (arith, e, sum)))
      ]
    ]

-- `getPath` of a viewer in which every file has a name: with as many rounds as PATH_MAX allows bytes it
-- comes to an end, whatever cycles the parents make, and a path that it finds has at most twice
-- PATH_MAX bytes.
pub get_path-Ends :
    (k : ℕ) (v : Viewer) (id : FileId) (len : ℕ)
    → AreNamed v
    → len ≤ path_max
    → path_max < len + k
    → Ends len (get_path k v id len)
unfolding get_path
get_path-Ends zero v id len n b enough = omega arith
get_path-Ends (suc k) v id len n b enough =
    path_step-Ends id len (get_path k v) (info_of (find id v)) b (find-IsNamed id v n)
      (λ q l more small. get_path-Ends k v q l n small (omega arith))
