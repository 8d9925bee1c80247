-- ===== src/Sftp/Browser/Deletion/Collapsed.antt =====
-- `collapse_nested_remote_entries` against the set of paths that it should return.
use rem_cmd.Prelude.{
  Bool, true, not, ◌&&◌, ◌||◌, List, [], ◌∷◌, ◌≡◌, refl, arith, map, any, ap, sym, ◌∙◌, retain,
  Bool-cases, inl, inr,
}
use rem_cmd.Prelude.Text.{Text, text_eq, text_eq_iff}
use rem_cmd.Ssh.RemoteFiles.{RemoteFileEntry, is_directory}
use rem_cmd.Ssh.RemotePath.{remote_path_is_descendant}
use rem_cmd.Sftp.Browser.Selection.Ranges.{selects, is_distinct, text_eq_sym}
use rem_cmd.Sftp.Browser.Deletion.{
  insert_entry, sort_by_depth, dedup_after, dedup_paths, directories_of, is_nested_in,
  collapse_nested_remote_entries,
}

abbrev pub paths_of : List RemoteFileEntry → List Text
paths_of = map (λ entry. entry.path)

module _ (p : RemoteFileEntry → Bool) where
  any-insert :
      (x : RemoteFileEntry) (ys : List RemoteFileEntry)
      → any p (insert_entry x ys) ≡ (p x || any p ys)
  unfolding insert_entry
  any-insert x [] = refl
  any-insert x (y ∷ ys) = ground (arith, any-insert x ys)

  any-sort : (xs : List RemoteFileEntry) → any p (sort_by_depth xs) ≡ any p xs
  unfolding sort_by_depth
  any-sort [] = refl
  any-sort (x ∷ xs) = ground (arith, any-insert x (sort_by_depth xs), any-sort xs)

  any-retain :
      (keep : RemoteFileEntry → Bool) (xs : List RemoteFileEntry)
      → any p (retain keep xs) ≡ any (λ x. keep x && p x) xs
  any-retain keep [] = refl
  any-retain keep (x ∷ xs) = ground (arith, any-retain keep xs)

selects-paths_of :
    (xs : List RemoteFileEntry) (q : Text)
    → selects (paths_of xs) q ≡ any (λ x. text_eq q x.path) xs
selects-paths_of [] q = refl
selects-paths_of (x ∷ xs) q = ground (arith, selects-paths_of xs q)

selects-insert :
    (x : RemoteFileEntry) (ys : List RemoteFileEntry) (q : Text)
    → selects (paths_of (insert_entry x ys)) q ≡ (text_eq q x.path || selects (paths_of ys) q)
selects-insert x ys q =
    selects-paths_of (insert_entry x ys) q
    ∙ any-insert (λ x. text_eq q x.path) x ys
    ∙ ground (arith, selects-paths_of ys q)

selects-sort :
    (xs : List RemoteFileEntry) (q : Text)
    → selects (paths_of (sort_by_depth xs)) q ≡ selects (paths_of xs) q
selects-sort xs q =
    selects-paths_of (sort_by_depth xs) q
    ∙ any-sort (λ x. text_eq q x.path) xs
    ∙ sym (selects-paths_of xs q)

-- Sorting keeps the paths different.
insert-is_distinct :
    (x : RemoteFileEntry) (ys : List RemoteFileEntry)
    → is_distinct (paths_of (insert_entry x ys)) ≡ is_distinct (paths_of (x ∷ ys))
unfolding insert_entry
insert-is_distinct x [] = refl
insert-is_distinct x (y ∷ ys) =
    ground (arith, insert-is_distinct x ys, selects-insert x ys y.path, text_eq_sym x.path y.path)

sort-is_distinct :
    (xs : List RemoteFileEntry)
    → is_distinct (paths_of (sort_by_depth xs)) ≡ is_distinct (paths_of xs)
unfolding sort_by_depth
sort-is_distinct [] = refl
sort-is_distinct (x ∷ xs) =
    insert-is_distinct x (sort_by_depth xs)
    ∙ ground (arith, selects-sort xs x.path, sort-is_distinct xs)

-- Then no path is dropped as the one before it.
dedup_after-distinct :
    (x : RemoteFileEntry) (xs : List RemoteFileEntry)
    → is_distinct (paths_of (x ∷ xs)) ≡ true
    → dedup_after x xs ≡ xs
unfolding dedup_after
dedup_after-distinct x [] d = refl
dedup_after-distinct x (y ∷ ys) d =
    ground (arith, dedup_after-distinct y ys, text_eq_sym x.path y.path)

dedup_paths-distinct :
    (xs : List RemoteFileEntry) → is_distinct (paths_of xs) ≡ true → dedup_paths xs ≡ xs
unfolding dedup_paths
dedup_paths-distinct [] d = refl
dedup_paths-distinct (x ∷ xs) d = ap (x ∷◌) (dedup_after-distinct x xs d)

any-directories_of :
    (p : Text → Bool) (xs : List RemoteFileEntry)
    → any p (directories_of xs) ≡ any (λ x. is_directory x.kind && p x.path) xs
any-directories_of p [] = refl
any-directories_of p (x ∷ xs) = ground (arith, any-directories_of p xs)

-- A directory among the entries, other than the path, has it below.
abbrev pub lies_below : List RemoteFileEntry → Text → Bool
lies_below entries path =
    any
      (λ e.
        is_directory e.kind && (not (text_eq e.path path) && remote_path_is_descendant e.path path))
      entries

nested-sort :
    (xs : List RemoteFileEntry) (path : Text)
    → is_nested_in (directories_of (sort_by_depth xs)) path ≡ lies_below xs path
unfolding is_nested_in
nested-sort xs path = any-directories_of _ (sort_by_depth xs) ∙ any-sort _ xs

-- A test of the path alone can be asked of the path that is searched.
any-guarded :
    (f : Text → Bool) (path : Text) (xs : List RemoteFileEntry)
    → any (λ x. f x.path && text_eq path x.path) xs ≡ (f path && selects (paths_of xs) path)
any-guarded f path [] = ground arith
any-guarded f path (x ∷ xs) = elim (Bool-cases (text_eq path x.path)) [
  | inl same ↦ ground (arith, any-guarded f path xs, ap f ((text_eq_iff path x.path).0 same))
  | inr other ↦ ground (arith, any-guarded f path xs)
]

-- Of entries with different paths exactly those stay whose path lies below no other directory among
-- them.
pub selects-collapse :
    (entries : List RemoteFileEntry) (path : Text)
    → is_distinct (paths_of entries) ≡ true
    → selects (paths_of (collapse_nested_remote_entries entries)) path
      ≡ (selects (paths_of entries) path && not (lies_below entries path))
unfolding collapse_nested_remote_entries
selects-collapse entries path d =
    let sorted = sort_by_depth entries in
    let same : dedup_paths sorted ≡ sorted =
      dedup_paths-distinct sorted (sort-is_distinct entries ∙ d) in
    rw (same, collapse_nested_remote_entries)
      (selects-paths_of _ path
        ∙ any-retain (λ x. text_eq path x.path)
            (λ x. not (is_nested_in (directories_of sorted) x.path)) sorted
        ∙ any-guarded (λ p. not (is_nested_in (directories_of sorted) p)) path sorted
        ∙ ground (arith, selects-sort entries path, nested-sort entries path))
