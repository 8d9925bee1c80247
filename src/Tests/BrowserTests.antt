-- ===== src/Tests/BrowserTests.antt =====
-- The file browser at concrete values.
use rem_cmd.Prelude.{any, map, true, false, none, some, List, [], ◌∷◌, ◌≡◌, refl, arith, All}
use rem_cmd.Prelude.Text.{Text, text_eq, codes}
use rem_cmd.Ssh.RemoteFiles.{RemoteFileEntry, RemoteDirectory, RemoteFileKind, directory, file}
use rem_cmd.Ssh.RemotePath.{slash, remote_path_is_descendant}
use rem_cmd.Sftp.Browser.{
  SftpBrowserState, default_browser, begin_request, complete_request, fail_request,
}
use rem_cmd.Sftp.Browser.Rows.{SftpTreeRow, row_at, visible_rows}
use rem_cmd.Sftp.Browser.Rows.Preorder.{Preorder, visible_rows-Preorder}
use rem_cmd.Sftp.Browser.Selection.{Modifiers, entry, selected_entries, select_path, position}
use rem_cmd.Sftp.Browser.Selection.Ranges.{selects, visible_anchor, select_path-range}
use rem_cmd.Sftp.Browser.Deletion.{is_deleted, remove_paths, collapse_nested_remote_entries}
use rem_cmd.Sftp.Browser.Deletion.Removed.{IsKept, IsKeptRow, remove_paths-IsKept}
use rem_cmd.Sftp.Browser.Deletion.Collapsed.{selects-collapse}
use rem_cmd.Sftp.Browser.Requests.{after, after_all, stop, expand}
use rem_cmd.Sftp.Browser.Requests.Stale.{begin_request_supersedes}
use rem_cmd.Sftp.Browser.Requests.Loading.{IsLoading, after-IsLoading}

abbrev entry_at : Text → RemoteFileKind → RemoteFileEntry
entry_at path kind = record { name = path; path = path; kind = kind; size = none; modified = none }

abbrev src : RemoteFileEntry
src = entry_at (codes "/a") directory

abbrev main : RemoteFileEntry
main = entry_at (codes "/a/b") file

abbrev notes : RemoteFileEntry
notes = entry_at (codes "/c") file

-- A directory that is expanded, the file in it, and a file beside it; the file is selected.
abbrev browser : SftpBrowserState
browser = record default_browser {
  path = slash;
  entries = src ∷ notes ∷ [];
  tree_entries = (codes "/a", main ∷ []) ∷ [];
  expanded_paths = codes "/a" ∷ [];
  selected_paths = codes "/a/b" ∷ [];
  selection_anchor = some (codes "/a/b");
}

abbrev rows : List SftpTreeRow
rows = row_at 0 src ∷ row_at 1 main ∷ row_at 0 notes ∷ []

rows_shown : visible_rows browser true ≡ some rows
unfolding visible_rows
rows_shown = refl

visible_rows-Preorder_example :
    (shown : List SftpTreeRow) × (visible_rows browser true ≡ some shown)
    × Preorder browser 0 browser.entries shown
visible_rows-Preorder_example = visible_rows-Preorder browser refl

abbrev shift_click : Modifiers
shift_click = record { shift = true; secondary = false }

abbrev secondary_click : Modifiers
secondary_click = record { shift = false; secondary = true }

select_path-range_example :
    selects (select_path browser (codes "/c") shift_click rows).selected_paths (codes "/a/b") ≡ true
unfolding text_eq position
select_path-range_example =
    select_path-range browser (codes "/c") shift_click rows 2 1 (codes "/a/b") refl
      (visible_anchor (codes "/a/b") 1 refl refl) refl refl

remove_paths-IsKept_example :
    All (IsKeptRow (codes "/a" ∷ [])) (row_at 0 notes ∷ [])
    × All (IsKept (codes "/a" ∷ [])) (selected_entries (remove_paths browser (codes "/a" ∷ [])))
    × (entry (remove_paths browser (codes "/a" ∷ [])) (codes "/a/b") ≡ none)
    × (any (text_eq (codes "/a/b")) (remove_paths browser (codes "/a" ∷ [])).selected_paths ≡ true)
unfolding is_deleted remove_paths visible_rows
remove_paths-IsKept_example =
    remove_paths-IsKept (codes "/a" ∷ []) browser true (row_at 0 notes ∷ []) (codes "/a/b")
      (codes "/a/b") refl refl

selects-collapse_example :
    selects
      (map (λ e. e.path) (collapse_nested_remote_entries (main ∷ notes ∷ src ∷ [])))
      (codes "/a/b")
    ≡ false
unfolding text_eq remote_path_is_descendant
selects-collapse_example = selects-collapse (main ∷ notes ∷ src ∷ []) (codes "/a/b") refl

abbrev root : RemoteDirectory
root = record { path = slash; entries = [] }

abbrev sent_on : SftpBrowserState
unfolding begin_request after_all
sent_on = after_all (expand (codes "/a") ∷ []) (begin_request browser slash).0

begin_request_supersedes_example :
    complete_request sent_on 0 root ≡ (sent_on, false)
    × fail_request sent_on 0 (codes "late") ≡ (sent_on, false)
unfolding begin_request after_all
begin_request_supersedes_example =
    begin_request_supersedes browser slash (expand (codes "/a") ∷ []) 0 root (codes "late") sent_on
      (omega arith) (omega arith) refl

after-IsLoading_example : IsLoading (after stop (begin_request browser slash).0)
unfolding begin_request after_all
after-IsLoading_example =
    after-IsLoading stop (begin_request browser slash).0
      (record { indicator = refl; path_known = refl })
