-- ===== src/Sftp/Browser/Selection.antt =====
-- state.rs: the selection of the file browser. `select_path` is given the rows that are visible.
pub mod Ranges
use rem_cmd.Prelude.{
  ℕ, zero, suc, ◌+◌, ◌-◌, min, max, Bool, true, false, not, Option, none, some, List, [], ◌∷◌, ◌++◌,
  map, if◌then◌else◌, any, find, retain, take, drop, and_then, is_some,
}
use rem_cmd.Prelude.Text.{Text, text_eq}
use rem_cmd.Ssh.RemoteFiles.{RemoteFileEntry}
use rem_cmd.Sftp.Browser.{SftpBrowserState}
use rem_cmd.Sftp.Browser.Rows.{SftpTreeRow}

-- The keys held at a click; `secondary` is the platform's key for a further selection.
pub record Modifiers : Type 0 where
  pub shift : Bool
  pub secondary : Bool

-- `self.tree_entries.values().flatten()`: the map has no order, the list has that of its keys.
abbrev pub flatten : List (Text × List RemoteFileEntry) → List RemoteFileEntry
flatten [] = []
flatten ((path, entries) ∷ tree) = entries ++ flatten tree

unfoldable pub entry : SftpBrowserState → Text → Option RemoteFileEntry
unfolding text_eq
entry s path = find (λ entry. text_eq entry.path path) (s.entries ++ flatten s.tree_entries)

abbrev pub filter_entries : SftpBrowserState → List Text → List RemoteFileEntry
filter_entries s [] = []
filter_entries s (path ∷ paths) = elim (entry s path) [
  | none ↦ filter_entries s paths
  | some found ↦ found ∷ filter_entries s paths
]

unfoldable pub selected_entries : SftpBrowserState → List RemoteFileEntry
unfolding entry
selected_entries s = filter_entries s s.selected_paths

-- `iter().position` of a text.
unfoldable pub position : Text → List Text → Option ℕ
unfolding text_eq
position path [] = none
position path (candidate ∷ candidates) =
    let later = position path candidates in
    if text_eq candidate path then some 0 else elim later [ none ↦ none | some i ↦ some (suc i) ]

-- `Vec::remove` of an index that is in range.
unfoldable pub remove_at : List Text → ℕ → List Text
remove_at [] i = []
remove_at (path ∷ paths) zero = paths
remove_at (path ∷ paths) (suc i) = path ∷ remove_at paths i

-- The loop that pushes the paths of a range which are not there yet.
unfoldable pub push_new : List Text → List Text → List Text
unfolding text_eq
push_new selected [] = selected
push_new selected (path ∷ paths) =
    push_new (if any (text_eq path) selected then selected else selected ++ path ∷ []) paths

-- The paths with the indices `first..=last`.
abbrev pub between : ℕ → ℕ → List Text → List Text
between first last paths = take (suc last - first) (drop first paths)

abbrev pub unwrap_or : Option ℕ → ℕ → ℕ
unwrap_or none i = i
unwrap_or (some j) i = j

abbrev pub anchor_index : Option Text → List Text → ℕ → ℕ
anchor_index anchor visible clicked =
    unwrap_or (and_then anchor (λ path. position path visible)) clicked

-- A click on the path at an index of the visible ones.
unfoldable pub select_at : SftpBrowserState → Text → Modifiers → List Text → ℕ → SftpBrowserState
unfolding position remove_at push_new
select_at s path modifiers visible clicked =
    let anchored = anchor_index s.selection_anchor visible clicked in
    let range = between (min anchored clicked) (max anchored clicked) visible in
    if modifiers.shift
    then record s {
      selected_paths = push_new (if modifiers.secondary then s.selected_paths else []) range;
    }
    else if modifiers.secondary
    then record s {
      selected_paths = elim (position path s.selected_paths) [
        | some index ↦ remove_at s.selected_paths index
        | none ↦ s.selected_paths ++ path ∷ []
      ];
      selection_anchor = some path;
    }
    else record s { selected_paths = path ∷ []; selection_anchor = some path }

unfoldable pub select_path :
    SftpBrowserState → Text → Modifiers → List SftpTreeRow → SftpBrowserState
unfolding select_at position
select_path s path modifiers rows =
    let visible = map (λ row. row.entry.path) rows in
    elim (position path visible) [
      | none ↦ s
      | some clicked ↦ select_at s path modifiers visible clicked
    ]

unfoldable pub select_for_context_menu : SftpBrowserState → Text → SftpBrowserState
unfolding text_eq
select_for_context_menu s path =
    if not (any (text_eq path) s.selected_paths)
    then record s { selected_paths = path ∷ []; selection_anchor = some path }
    else s
