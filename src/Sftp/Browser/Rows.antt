-- ===== src/Sftp/Browser/Rows.antt =====
-- state.rs: `visible_rows`. The stack `pending` has its top in front, so the entries that the source
-- pushes in reverse stand here in their order.
pub mod Preorder
use rem_cmd.Prelude.{
  ℕ, zero, suc, ◌+◌, max, Bool, true, false, Option, none, some, List, [], ◌∷◌, ◌++◌, map,
  if◌then◌else◌, any, length, map_get,
}
use rem_cmd.Prelude.Text.{Text, text_eq}
use rem_cmd.Ssh.RemoteFiles.{RemoteFileEntry}
use rem_cmd.Sftp.Browser.{SftpBrowserState}

pub record SftpTreeRow : Type 0 where
  pub entry : RemoteFileEntry
  pub depth : ℕ

abbrev pub row_at : ℕ → RemoteFileEntry → SftpTreeRow
row_at depth entry = record { entry = entry; depth = depth }

abbrev pub or_empty : Option (List RemoteFileEntry) → List RemoteFileEntry
or_empty none = []
or_empty (some entries) = entries

-- The entries that the loop pushes below a row: those known of an expanded path.
unfoldable pub children : SftpBrowserState → Text → List RemoteFileEntry
unfolding text_eq
children s path =
    if any (text_eq path) s.expanded_paths
    then or_empty (map_get text_eq path s.tree_entries)
    else []

-- The `while let` loop; `none` if it is not done within the fuel.
unfoldable pub tree_rows : SftpBrowserState → ℕ → List SftpTreeRow → Option (List SftpTreeRow)
unfolding children
tree_rows s fuel [] = some []
tree_rows s zero (row ∷ pending) = none
tree_rows s (suc fuel) (row ∷ pending) =
    elim (tree_rows s fuel (map (row_at (suc row.depth)) (children s row.entry.path) ++ pending)) [
      | none ↦ none
      | some rows ↦ some (row ∷ rows)
    ]

-- The length of the longest path whose entries are known.
unfoldable pub longest : List (Text × List RemoteFileEntry) → ℕ
longest [] = 0
longest ((path, entries) ∷ tree) = max (length path) (longest tree)

-- The entries within so many levels, with their repetitions.
unfoldable pub count_within : SftpBrowserState → ℕ → List RemoteFileEntry → ℕ
unfolding children
count_within s zero entries = 0
count_within s (suc levels) [] = 0
count_within s (suc levels) (entry ∷ entries) =
    suc (count_within s levels (children s entry.path) + count_within s (suc levels) entries)

-- A path gets longer with each level, so the levels are bounded by the longest path.
abbrev pub levels : SftpBrowserState → ℕ
levels s = suc (suc (longest s.tree_entries))

unfoldable pub visible_rows : SftpBrowserState → Bool → Option (List SftpTreeRow)
unfolding tree_rows longest count_within
visible_rows s tree =
    let fuel = count_within s (levels s) s.entries in
    let walked = tree_rows s fuel (map (row_at 0) s.entries) in
    elim tree [ false ↦ some (map (row_at 0) s.entries) | true ↦ walked ]
