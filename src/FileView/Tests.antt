-- ===== src/FileView/Tests.antt =====
-- A small filesystem, on which the theorems about its view are applied.
use open_cas_telemetry_frame.Prelude.{
  ℕ, ◌≡◌, refl, sym, ap, true, Option, none, some, List, [], ◌∷◌, arith,
}
use open_cas_telemetry_frame.FileView.{
  FileId, FileInfo, Viewer, same_file, file_lt, add_file, find_exact, find_before, find, get_path,
  get_file_path, get_file_name_prefix, drop_non_letters, split_dot,
}
use open_cas_telemetry_frame.FileView.Files.{IsSorted}
use open_cas_telemetry_frame.FileView.Paths.{AreNamed, Ends, get_path-Ends}
use open_cas_telemetry_frame.FileView.Weak.{IsNewest, find-IsNewest}
use open_cas_telemetry_frame.FileView.Tree.{
  NameEvent, new_tree, name_file, build, rebuild, name_files,
}
use open_cas_telemetry_frame.FileView.Rebuilt.{AreConsistent, build-rebuild}

-- The root "/", the directory "usr" in it, and two versions of the file "a.c1" there.
abbrev file : ℕ → ℕ → FileId
file n time = record { partition_id = 1; id = n; creation_date = time }

abbrev named : FileId → List ℕ → FileInfo
named parent name = record { parent = parent; name = name }

abbrev viewer : Viewer
viewer =
    (file 2 5, named (file 2 5) (47 ∷ []))
    ∷ (file 3 6, named (file 2 5) (117 ∷ 115 ∷ 114 ∷ []))
    ∷ (file 4 7, named (file 3 6) (97 ∷ 46 ∷ 99 ∷ 49 ∷ []))
    ∷ (file 4 9, named (file 3 6) (97 ∷ 46 ∷ 99 ∷ 49 ∷ []))
    ∷ []

viewer-IsSorted : IsSorted viewer
unfolding file_lt
viewer-IsSorted = ((refl, (refl, (refl, tt))), ((refl, (refl, tt)), ((refl, tt), (tt, tt))))

viewer-AreNamed : AreNamed viewer
viewer-AreNamed = (
  (omega arith, omega arith),
  ((omega arith, omega arith), ((omega arith, omega arith), ((omega arith, omega arith), tt))),
)

get_path-Ends_example : Ends 0 (get_path 5000 viewer (file 4 8) 0)
get_path-Ends_example =
    get_path-Ends 5000 viewer (file 4 8) 0 viewer-AreNamed (omega arith) (omega arith)

find-IsNewest_example : IsNewest (file 4 8) viewer (find (file 4 8) viewer)
find-IsNewest_example = find-IsNewest (file 4 8) viewer viewer-IsSorted

-- The file is found by its older version, and its path goes over the root's slash.
path_seen : get_file_path (file 4 8) viewer ≡ 47 ∷ 117 ∷ 115 ∷ 114 ∷ 47 ∷ 97 ∷ 46 ∷ 99 ∷ 49 ∷ []
unfolding get_file_path get_path find find_exact find_before file_lt same_file
path_seen = refl

prefix_seen : get_file_name_prefix (file 4 8) viewer ≡ 97 ∷ []
unfolding get_file_name_prefix find find_exact find_before file_lt drop_non_letters split_dot
prefix_seen = refl

abbrev name_events : List NameEvent
name_events =
    (record { file_id = file 3 6; info = named (file 2 5) (117 ∷ []) })
    ∷ (record { file_id = file 3 6; info = named (file 2 5) (117 ∷ []) })
    ∷ []

abbrev info_or : FileInfo → Option (FileId × FileInfo) → FileInfo
info_or d none = d
info_or d (some e) = e.1

names-AreConsistent : AreConsistent name_events (new_tree true)
unfolding new_tree name_file add_file find_exact file_lt
names-AreConsistent =
    (λ x h. ground arith, (λ x h. sym (ap (info_or (named (file 2 5) (117 ∷ []))) h), tt))

build-rebuild_example :
    (rebuild (build true name_events).written).viewers ≡ (build true name_events).viewers
build-rebuild_example = build-rebuild name_events names-AreConsistent

-- A file that is named anew keeps its first name in the extension.
abbrev renaming : List NameEvent
renaming =
    (record { file_id = file 3 6; info = named (file 2 5) (117 ∷ []) })
    ∷ (record { file_id = file 3 6; info = named (file 2 5) (118 ∷ []) })
    ∷ []

renaming_seen :
    ((build true renaming).viewers 1 ≡ (file 3 6, named (file 2 5) (118 ∷ [])) ∷ [])
    × ((rebuild (build true renaming).written).viewers 1
        ≡ (file 3 6, named (file 2 5) (117 ∷ [])) ∷ [])
unfolding build rebuild new_tree name_file name_files add_file find_exact file_lt
renaming_seen = (refl, refl)
