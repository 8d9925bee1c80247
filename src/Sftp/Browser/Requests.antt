-- ===== src/Sftp/Browser/Requests.antt =====
-- state.rs: the calls on a browser, in any order.
mod Unrelated
pub mod Stale
pub mod Loading
use rem_cmd.Prelude.{ℕ, Bool, List, [], ◌∷◌}
use rem_cmd.Prelude.Text.{Text}
use rem_cmd.Ssh.RemoteFiles.{RemoteDirectory, SftpOperation}
use rem_cmd.Sftp.Browser.{
  SftpBrowserState, set_error, clear_error_if_current, begin_request, complete_request,
  fail_request, stop_loading, begin_tree_request, begin_download_tree, take_download_tree,
  begin_file_request, begin_file_save, fail_file_request,
}
use rem_cmd.Sftp.Browser.Rows.{SftpTreeRow}
use rem_cmd.Sftp.Browser.Selection.{Modifiers, select_path, select_for_context_menu}
use rem_cmd.Sftp.Browser.Deletion.{remove_paths}

pub data BrowserCall : Type 0 where
  go_to : Text → BrowserCall
  complete : ℕ → RemoteDirectory → BrowserCall
  fail : ℕ → Text → BrowserCall
  stop : BrowserCall
  expand : Text → BrowserCall
  download_tree : Text → ℕ → BrowserCall
  take_tree : ℕ → BrowserCall
  show_error : Text → BrowserCall
  hide_error : ℕ → BrowserCall
  read : Text → Bool → BrowserCall
  save : BrowserCall
  fail_file : ℕ → SftpOperation → Text → BrowserCall
  click : Text → Modifiers → List SftpTreeRow → BrowserCall
  menu : Text → BrowserCall
  delete : List Text → BrowserCall

-- The browser behind a call.
unfoldable pub after : BrowserCall → SftpBrowserState → SftpBrowserState
unfolding set_error clear_error_if_current begin_request complete_request fail_request stop_loading
    begin_tree_request begin_download_tree take_download_tree begin_file_request begin_file_save
    fail_file_request select_path select_for_context_menu remove_paths
after (go_to path) s = (begin_request s path).0
after (complete id directory) s = (complete_request s id directory).0
after (fail id error) s = (fail_request s id error).0
after stop s = stop_loading s
after (expand path) s = (begin_tree_request s path).0
after (download_tree destination batch) s = (begin_download_tree s destination batch).0
after (take_tree id) s = (take_download_tree s id).0
after (show_error error) s = (set_error s error).0
after (hide_error generation) s = (clear_error_if_current s generation).0
after (read path editable) s = (begin_file_request s path editable).0
after save s = (begin_file_save s).0
after (fail_file id operation error) s = fail_file_request s id operation error
after (click path modifiers rows) s = select_path s path modifiers rows
after (menu path) s = select_for_context_menu s path
after (delete paths) s = remove_paths s paths

unfoldable pub after_all : List BrowserCall → SftpBrowserState → SftpBrowserState
unfolding after
after_all [] s = s
after_all (call ∷ calls) s = after_all calls (after call s)
