-- ===== src/FileView/Rebuilt.antt =====
-- The filesystem tree of source/octf/trace/parser/v2/ParsedIoTraceEventHandler.cpp that is read from the
-- extension of a trace, beside the one that was built from the trace.
use open_cas_telemetry_frame.Prelude.{
  ℕ, ◌≡◌, refl, sym, ap, ◌∙◌, inl, inr, true, false, some, List, [], ◌∷◌, ◌++◌, arith, ◌==◌,
  Bool-cases, Option-cases, fun_ext,
}
use open_cas_telemetry_frame.FileView.{FileId, FileInfo, Viewer, add_file, find_exact}
use open_cas_telemetry_frame.FileView.Files.{IsSorted, add_file-IsSorted, add_file-same}
use open_cas_telemetry_frame.FileView.Tree.{
  NameEvent, Tree, new_tree, put_viewer, name_file, name_files, build, rebuild,
}

-- Where the viewers know the file of the event, they know it by the name and the parent of the event.
abbrev pub Agrees : NameEvent → Viewer → Type 0
Agrees e v = (x : FileId × FileInfo) → find_exact e.file_id v ≡ some x → x.1 ≡ e.info

-- No event of the list names a file anew.
abbrev pub AreConsistent : List NameEvent → Tree → Type 0
AreConsistent [] t = Unit {0}
AreConsistent (e ∷ es) t =
    Agrees e (t.viewers e.file_id.partition_id) × AreConsistent es (name_file e t)

abbrev pub IsRebuilt : Tree → Type 0
IsRebuilt t =
    ((p : ℕ) → IsSorted (t.viewers p))
    × (t.writable ≡ true)
    × ((rebuild t.written).viewers ≡ t.viewers)

put_viewer-same : (i : ℕ) (v : Viewer) (f : ℕ → Viewer) → v ≡ f i → put_viewer i v f ≡ f
put_viewer-same i v f h = fun_ext (λ j. elim (Bool-cases (j == i)) [
  | inl same ↦ rw same (h ∙ ap f (ground arith))
  | inr other ↦ rw other refl
])

put_viewer-IsSorted :
    (i : ℕ) (v : Viewer) (f : ℕ → Viewer)
    → IsSorted v
    → ((p : ℕ) → IsSorted (f p))
    → (p : ℕ) → IsSorted (put_viewer i v f p)
put_viewer-IsSorted i v f s h p = elim (Bool-cases (p == i)) [
  | inl same ↦ rw same s
  | inr other ↦ rw other (h p)
]

name_files-append :
    (es fs : List NameEvent) (t : Tree) → name_files (es ++ fs) t ≡ name_files fs (name_files es t)
unfolding name_files
name_files-append [] fs t = refl
name_files-append (e ∷ es) fs t = name_files-append es fs (name_file e t)

-- The viewers that an event leaves depend on the viewers alone.
name_file-viewers :
    (e : NameEvent) (t t' : Tree)
    → t.viewers ≡ t'.viewers
    → (name_file e t).viewers ≡ (name_file e t').viewers
unfolding name_file
name_file-viewers e t t' h =
    ap
      (λ (f : ℕ → Viewer).
        put_viewer e.file_id.partition_id (add_file e.file_id e.info (f e.file_id.partition_id)) f)
      h

rebuild-snoc :
    (es : List NameEvent) (e : NameEvent) (t : Tree)
    → (rebuild es).viewers ≡ t.viewers
    → (rebuild (es ++ e ∷ [])).viewers ≡ (name_file e t).viewers
unfolding rebuild name_files
rebuild-snoc es e t h =
    ap (λ (x : Tree). x.viewers) (name_files-append es (e ∷ []) (new_tree false))
    ∙ name_file-viewers e (name_files es (new_tree false)) t h

name_file-IsRebuilt :
    (e : NameEvent) (t : Tree)
    → Agrees e (t.viewers e.file_id.partition_id)
    → IsRebuilt t
    → IsRebuilt (name_file e t)
unfolding name_file
name_file-IsRebuilt e t agrees (sorted, writable, same) =
    let p = e.file_id.partition_id in
    let v = t.viewers p in
    (
      put_viewer-IsSorted p (add_file e.file_id e.info v) t.viewers
          (add_file-IsSorted e.file_id e.info v (sorted p)) sorted,
      writable,
      elim (Option-cases (find_exact e.file_id v)) [
        | inl unknown ↦ rw writable (rw unknown (rebuild-snoc t.written e t same))
        | inr (x, known) ↦ rw writable (
            rw known (
              same
              ∙ sym (
                  put_viewer-same p (add_file e.file_id e.info v) t.viewers
                    (add_file-same e.file_id e.info x v (sorted p) known (agrees x known)))))
      ],
    )

name_files-IsRebuilt :
    (es : List NameEvent) (t : Tree)
    → AreConsistent es t
    → IsRebuilt t
    → IsRebuilt (name_files es t)
unfolding name_files
name_files-IsRebuilt [] t c r = r
name_files-IsRebuilt (e ∷ es) t c r =
    name_files-IsRebuilt es (name_file e t) c.1 (name_file-IsRebuilt e t c.0 r)

-- Where no event of the trace names a file anew, the tree that is read from what was written to the
-- extension has the same viewers as the tree that was built from the trace.
pub build-rebuild :
    (es : List NameEvent)
    → AreConsistent es (new_tree true)
    → (rebuild (build true es).written).viewers ≡ (build true es).viewers
unfolding build new_tree rebuild name_files
build-rebuild es c =
    let (_, _, same) = name_files-IsRebuilt es (new_tree true) c (λ p. tt, refl, refl) in same
