-- ===== src/FileView.antt =====
-- The view of a traced filesystem: FileId of source/octf/fs/FileId.h and the FileSystemViewer of
-- source/octf/trace/parser/v2/ParsedIoTraceEventHandler.cpp. A string is the list of its bytes.
use open_cas_telemetry_frame.Prelude.{
  ℕ, zero, suc, ◌+◌, ◌-◌, ◌*◌, ◌/◌, ◌%◌, ◌^◌, ◌≤◌, ◌<◌, min, max, ◌≡◌, refl, sym, ap, ap₂, ◌∙◌,
  subst, ◌≢◌, ◌↔◌, ◌⊎◌, inl, inr, Bool, true, false, ◌&&◌, ◌||◌, not, Option, none, some, List, [],
  ◌∷◌, ◌++◌, map, append-nil, append_assoc, arith, dec_lt, dec_le, ℕ_discrete, ltb, leb, ◌==◌,
  if◌then◌else◌, ltb→lt, lt→ltb, leb→le, ==_iff, Bool-cases, Option-cases, length, take, drop,
  replicate, set, get_or, length-append, take-append-drop, length-replicate, length-set, take-all,
  take-take, take_add, take-nil, length-take_le, take-prefix, drop-prefix, take-within, drop-within,
  length-take, length-drop, u64_mod, add64, sub64, mul64,
}
pub mod Files
pub mod Tree
pub mod Rebuilt
pub mod Paths
pub mod Weak
mod Tests

abbrev pub Str : Type 0
Str = List ℕ

abbrev pub slash : ℕ
slash = 47

abbrev pub dot : ℕ
dot = 46

-- `PATH_MAX` of limits.h.
abbrev pub path_max : ℕ
path_max = 4096

-- `FileId`; the creation date is in nanoseconds, as its comparisons take it.
pub record FileId : Type 0 where
  pub partition_id : ℕ
  pub id : ℕ
  pub creation_date : ℕ

-- `FileId::operator==` and `operator<`.
unfoldable pub same_file : FileId → FileId → Bool
same_file a b =
    a.id == b.id && a.partition_id == b.partition_id && a.creation_date == b.creation_date

unfoldable pub file_lt : FileId → FileId → Bool
file_lt a b =
    if not (a.partition_id == b.partition_id)
    then ltb a.partition_id b.partition_id
    else if not (a.id == b.id)
    then ltb a.id b.id
    else ltb a.creation_date b.creation_date

-- `FileInfo`.
pub record FileInfo : Type 0 where
  pub parent : FileId
  pub name : Str

-- `m_fileInfo`, a std::map: the entries in the order of their keys.
abbrev pub Viewer : Type 0
Viewer = List (FileId × FileInfo)

-- `addFile`, by `operator[]`.
unfoldable pub add_file : FileId → FileInfo → Viewer → Viewer
add_file id info [] = (id, info) ∷ []
add_file id info (e ∷ es) =
    let rest = add_file id info es in
    if file_lt id e.0
    then (id, info) ∷ e ∷ es
    else if file_lt e.0 id
    then e ∷ rest
    else (e.0, info) ∷ es

-- `std::map::find`, and the entry before `lower_bound`.
unfoldable pub find_exact : FileId → Viewer → Option (FileId × FileInfo)
find_exact id [] = none
find_exact id (e ∷ es) =
    let rest = find_exact id es in
    if not (file_lt e.0 id) && not (file_lt id e.0) then some e else rest

abbrev pub or_else : {A : Type 0} → Option A → Option A → Option A
or_else none b = b
or_else (some a) b = some a

unfoldable pub find_before : FileId → Viewer → Option (FileId × FileInfo)
find_before id [] = none
find_before id (e ∷ es) =
    let rest = find_before id es in if file_lt e.0 id then or_else rest (some e) else none

-- `find` with `week` set: an entry of the same file before the one that is asked for will do.
abbrev pub same_number : FileId → Option (FileId × FileInfo) → Option (FileId × FileInfo)
same_number id none = none
same_number id (some e) =
    if e.0.id == id.id && e.0.partition_id == id.partition_id then some e else none

unfoldable pub find : FileId → Viewer → Option (FileId × FileInfo)
find id v = or_else (find_exact id v) (same_number id (find_before id v))

abbrev pub is_some : {A : Type 0} → Option A → Bool
is_some none = false
is_some (some a) = true

-- `hasFile`.
abbrev pub has_file : FileId → Viewer → Bool
has_file id v = is_some (find_exact id v)

abbrev pub info_of : Option (FileId × FileInfo) → Option FileInfo
info_of none = none
info_of (some e) = some e.1

-- `name.rfind('.')`: what stands before and behind the last dot, if there is one.
abbrev pub before_dot : ℕ → Str → Option (Str × Str) → Option (Str × Str)
before_dot c cs none = if c == dot then some ([], cs) else none
before_dot c cs (some (a, b)) = some (c ∷ a, b)

unfoldable pub split_dot : Str → Option (Str × Str)
split_dot [] = none
split_dot (c ∷ cs) = before_dot c cs (split_dot cs)

-- `std::isalpha` in the C locale.
abbrev pub is_alpha : ℕ → Bool
is_alpha c = (leb 65 c && leb c 90) || (leb 97 c && leb c 122)

-- The loop that drops what is no letter from the end of a name: `rest` is what it leaves of the tail.
abbrev pub keep_letter : ℕ → Str → Str
keep_letter c [] = if is_alpha c then c ∷ [] else []
keep_letter c (d ∷ ds) = c ∷ d ∷ ds

unfoldable pub drop_non_letters : Str → Str
drop_non_letters [] = []
drop_non_letters (c ∷ cs) = keep_letter c (drop_non_letters cs)

abbrev pub base_of : Str → Option (Str × Str) → Str
base_of name none = name
base_of name (some (a, b)) = a

abbrev pub extension_of : Option (Str × Str) → Str
extension_of none = []
extension_of (some (a, b)) = b

-- `getFileNamePrefix`, `getFileName`, `getFileExtension` and `getParentId`.
abbrev pub prefix_of : Option FileInfo → Str
prefix_of none = []
prefix_of (some info) = drop_non_letters (base_of info.name (split_dot info.name))

unfoldable pub get_file_name_prefix : FileId → Viewer → Str
get_file_name_prefix id v = prefix_of (info_of (find id v))

abbrev pub name_of : Option FileInfo → Str
name_of none = []
name_of (some info) = info.name

unfoldable pub get_file_name : FileId → Viewer → Str
get_file_name id v = name_of (info_of (find id v))

unfoldable pub get_file_extension : FileId → Viewer → Str
get_file_extension id v = extension_of (split_dot (get_file_name id v))

abbrev pub parent_of : Option FileInfo → FileId
parent_of none = record { partition_id = 0; id = 0; creation_date = 0 }
parent_of (some info) = info.parent

unfoldable pub get_parent_id : FileId → Viewer → FileId
get_parent_id id v = parent_of (info_of (find id v))

-- What `getPath` ends with: a path, false, or its exception; `endless` stands for a recursion that is
-- not over after the rounds it was given.
pub data PathResult : Type 0 where
  path_found : Str → PathResult
  path_missing path_exceeded endless : PathResult

abbrev pub is_slash : Str → Bool
is_slash (c ∷ []) = c == slash
is_slash s = false

abbrev pub ends_in_slash : Str → Bool
ends_in_slash [] = false
ends_in_slash (c ∷ []) = c == slash
ends_in_slash (c ∷ d ∷ ds) = ends_in_slash (d ∷ ds)

abbrev pub is_nil : Str → Bool
is_nil [] = true
is_nil (c ∷ cs) = false

-- The path of the parent, with a slash behind it, and the name.
abbrev pub join : Str → Str → Str
join p name = if not (is_nil p) && not (ends_in_slash p) then p ++ slash ∷ name else p ++ name

abbrev pub below_parent : Str → PathResult → PathResult
below_parent name (path_found p) = path_found (join p name)
below_parent name path_missing = path_missing
below_parent name path_exceeded = path_exceeded
below_parent name endless = endless

-- `getPath` of an entry whose names so far have the length `len`; `up` is the call for the parent.
abbrev pub path_step : FileId → ℕ → (FileId → ℕ → PathResult) → Option FileInfo → PathResult
path_step id len up none = path_missing
path_step id len up (some info) =
    let len' = add64 len (length info.name) in
    if ltb path_max len'
    then path_exceeded
    else if not (same_file id info.parent) && not (is_slash info.name)
    then below_parent info.name (up info.parent len')
    else path_found info.name

unfoldable pub get_path : ℕ → Viewer → FileId → ℕ → PathResult
get_path zero v id len = endless
get_path (suc k) v id len = path_step id len (get_path k v) (info_of (find id v))

-- The rounds that `getPath` is given.
abbrev pub path_rounds : ℕ
path_rounds = path_max + 2

-- `getDirPath`: after the exception the string is still empty.
abbrev pub dir_of : PathResult → Str
dir_of (path_found p) = p
dir_of path_missing = []
dir_of path_exceeded = []
dir_of endless = []

abbrev pub dir_path : Viewer → Option FileInfo → Str
dir_path v none = []
dir_path v (some info) = dir_of (get_path path_rounds v info.parent 0)

unfoldable pub get_dir_path : FileId → Viewer → Str
get_dir_path id v = dir_path v (info_of (find id v))

-- `getFilePath`.
abbrev pub file_path_in : Str → Str → Str
file_path_in dir name =
    if is_nil dir then [] else if is_slash dir then dir ++ name else dir ++ slash ∷ name

abbrev pub file_path : Viewer → Option FileInfo → Str
file_path v none = []
file_path v (some info) = file_path_in (dir_path v (some info)) info.name

unfoldable pub get_file_path : FileId → Viewer → Str
get_file_path id v = file_path v (info_of (find id v))
