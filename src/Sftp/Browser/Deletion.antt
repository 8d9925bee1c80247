-- ===== src/Sftp/Browser/Deletion.antt =====
-- state.rs: `remove_paths` behind a deletion, and `collapse_nested_remote_entries` in front of it.
-- `sort_by` is stable; it is written as an insertion sort.
pub mod Removed
pub mod Collapsed
use rem_cmd.Prelude.{
  ℕ, Bool, true, false, not, ◌&&◌, ◌||◌, List, [], ◌∷◌, if◌then◌else◌, ◌==◌, ltb, any, retain, map,
}
use rem_cmd.Prelude.Text.{Text, text_eq}
use rem_cmd.Ssh.RemoteFiles.{RemoteFileEntry, is_directory}
use rem_cmd.Ssh.RemotePath.{remote_path_is_descendant, remote_path_depth}
use rem_cmd.Sftp.Browser.{SftpBrowserState}

-- One of the paths is the given one or has it below.
unfoldable pub is_deleted : List Text → Text → Bool
unfolding text_eq remote_path_is_descendant
is_deleted paths path = any (λ p. text_eq path p || remote_path_is_descendant p path) paths

abbrev pub keep_entries : List Text → List RemoteFileEntry → List RemoteFileEntry
keep_entries paths = retain (λ entry. not (is_deleted paths entry.path))

abbrev pub keep_keys :
    List Text → List (Text × List RemoteFileEntry) → List (Text × List RemoteFileEntry)
keep_keys paths = retain (λ listed. not (is_deleted paths listed.0))

abbrev pub keep_listings :
    List Text → List (Text × List RemoteFileEntry) → List (Text × List RemoteFileEntry)
keep_listings paths [] = []
keep_listings paths ((path, entries) ∷ tree) =
    (path, keep_entries paths entries) ∷ keep_listings paths tree

unfoldable pub remove_paths : SftpBrowserState → List Text → SftpBrowserState
unfolding is_deleted text_eq
remove_paths s paths = record s {
  selected_paths = retain (λ selected. not (any (text_eq selected) paths)) s.selected_paths;
  tree_entries = keep_listings paths (keep_keys paths s.tree_entries);
  entries = keep_entries paths s.entries;
}

-- `<` of two strings: their characters in order.
unfoldable pub text_before : Text → Text → Bool
text_before [] [] = false
text_before [] (y ∷ b) = true
text_before (x ∷ a) [] = false
text_before (x ∷ a) (y ∷ b) = ltb x y || x == y && text_before a b

-- The comparison gives `Less`.
unfoldable pub sorts_before : RemoteFileEntry → RemoteFileEntry → Bool
unfolding text_before remote_path_depth
sorts_before left right =
    let l = remote_path_depth left.path in
    let r = remote_path_depth right.path in ltb l r || l == r && text_before left.path right.path

-- In front of the first entry that is greater, so behind those that are equal.
unfoldable pub insert_entry : RemoteFileEntry → List RemoteFileEntry → List RemoteFileEntry
unfolding sorts_before
insert_entry x [] = x ∷ []
insert_entry x (y ∷ ys) = if sorts_before y x then y ∷ insert_entry x ys else x ∷ y ∷ ys

unfoldable pub sort_by_depth : List RemoteFileEntry → List RemoteFileEntry
unfolding insert_entry
sort_by_depth [] = []
sort_by_depth (x ∷ xs) = insert_entry x (sort_by_depth xs)

-- `dedup_by`: an entry goes if it has the path of the last one kept.
unfoldable pub dedup_after : RemoteFileEntry → List RemoteFileEntry → List RemoteFileEntry
unfolding text_eq
dedup_after kept [] = []
dedup_after kept (x ∷ xs) =
    let same = dedup_after kept xs in
    let fresh = dedup_after x xs in if text_eq x.path kept.path then same else x ∷ fresh

unfoldable pub dedup_paths : List RemoteFileEntry → List RemoteFileEntry
unfolding dedup_after
dedup_paths [] = []
dedup_paths (x ∷ xs) = x ∷ dedup_after x xs

abbrev pub directories_of : List RemoteFileEntry → List Text
directories_of entries =
    map (λ entry. entry.path) (retain (λ entry. is_directory entry.kind) entries)

-- Another of the paths has the given one below.
unfoldable pub is_nested_in : List Text → Text → Bool
unfolding text_eq remote_path_is_descendant
is_nested_in directories path =
    any (λ d. not (text_eq d path) && remote_path_is_descendant d path) directories

unfoldable pub collapse_nested_remote_entries : List RemoteFileEntry → List RemoteFileEntry
unfolding sort_by_depth dedup_paths is_nested_in
collapse_nested_remote_entries entries =
    let sorted = dedup_paths (sort_by_depth entries) in
    retain (λ entry. not (is_nested_in (directories_of sorted) entry.path)) sorted
