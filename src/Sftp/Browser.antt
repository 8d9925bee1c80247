-- ===== src/Sftp/Browser.antt =====
-- state.rs: `SftpBrowserState`, the listing that a browser shows and the requests that are out. The
-- scroll positions and the editor of a file belong to the user interface and are left out; the counters
-- are `u64` and wrap around.
pub mod Rows
pub mod Selection
pub mod Deletion
pub mod Requests
pub mod Breadcrumbs
use rem_cmd.Prelude.{
  ℕ, ◌+◌, ◌^◌, Bool, true, false, not, ◌&&◌, ◌||◌, Option, none, some, List, [], ◌∷◌, if◌then◌else◌,
  ◌==◌, leb, is_some, is_none, any, set_insert, map_get, map_remove, map_insert, retain,
}
use rem_cmd.Prelude.Text.{Text, text_eq, codes}
use rem_cmd.Ssh.RemoteFiles.{RemoteFileEntry, RemoteDirectory, SftpOperation, read_file, write_file}
use rem_cmd.Sftp.Queue.{next}
use rem_cmd.Sftp.TextFormat.{RemoteTextFormat}
use rem_cmd.Prelude.Utf8.{Bytes}

pub data SftpBrowserPlacement : Type 0 where
  center sidebar : SftpBrowserPlacement

abbrev pub sidebar_request_id_start : ℕ
sidebar_request_id_start = 2 ^ 63

unfoldable pub placement_for_request : ℕ → SftpBrowserPlacement
placement_for_request request_id =
    if leb sidebar_request_id_start request_id then sidebar else center

pub record PendingSftpDownloadTree : Type 0 where
  pub destination : Text
  pub batch_id : ℕ

pub record SftpFileState : Type 0 where
  pub path : Text
  pub original_contents : Bytes
  pub text_format : Option RemoteTextFormat
  pub loading : Bool
  pub saving : Bool
  pub error : Option Text
  pub editable : Bool
  pub read_request_id : Option ℕ
  pub write_request_id : Option ℕ

pub record SftpBrowserState : Type 0 where
  pub path : Text
  pub entries : List RemoteFileEntry
  pub file : Option SftpFileState
  pub loading : Bool
  pub loaded : Bool
  pub error : Option Text
  pub next_request_id : ℕ
  pub active_request_id : Option ℕ
  pub active_request_path : Option Text
  pub resolved_source_path : Option Text
  pub tree_entries : List (Text × List RemoteFileEntry)
  pub expanded_paths : List Text
  pub tree_requests : List (ℕ × Text)
  pub pending_download_trees : List (ℕ × PendingSftpDownloadTree)
  pub selected_paths : List Text
  pub selection_anchor : Option Text
  pub error_generation : ℕ

abbrev pub with_request_id_start : ℕ → SftpBrowserState
with_request_id_start next_request_id = record {
  path = codes ".";
  entries = [];
  file = none;
  loading = false;
  loaded = false;
  error = none;
  next_request_id = next_request_id;
  active_request_id = none;
  active_request_path = none;
  resolved_source_path = none;
  tree_entries = [];
  expanded_paths = [];
  tree_requests = [];
  pending_download_trees = [];
  selected_paths = [];
  selection_anchor = none;
  error_generation = 0;
}

abbrev pub default_browser : SftpBrowserState
default_browser = with_request_id_start 1

-- `self.active_request_path.as_deref() == Some(path)`.
abbrev pub is_text : Option Text → Text → Bool
is_text none path = false
is_text (some t) path = text_eq t path

-- `self.active_request_id == Some(request_id)`.
abbrev pub is_id : Option ℕ → ℕ → Bool
is_id none request_id = false
is_id (some id) request_id = id == request_id

unfoldable pub needs_request : SftpBrowserState → Text → Bool
unfolding text_eq
needs_request s path =
    not (is_text s.active_request_path path) && not (is_text s.resolved_source_path path)

unfoldable pub set_error : SftpBrowserState → Text → SftpBrowserState × ℕ
set_error s error =
    let generation = next s.error_generation in
    (record s { error_generation = generation; error = some error }, generation)

unfoldable pub clear_error : SftpBrowserState → SftpBrowserState
clear_error s = record s { error_generation = next s.error_generation; error = none }

unfoldable pub clear_error_if_current : SftpBrowserState → ℕ → SftpBrowserState × Bool
unfolding clear_error
clear_error_if_current s generation =
    if not (s.error_generation == generation) || is_none s.error
    then (s, false)
    else (clear_error s, true)

unfoldable pub next_request_id : SftpBrowserState → SftpBrowserState × ℕ
next_request_id s = (record s { next_request_id = next s.next_request_id }, s.next_request_id)

unfoldable pub begin_request : SftpBrowserState → Text → SftpBrowserState × ℕ
unfolding clear_error next_request_id
begin_request s path =
    let (t, request_id) = next_request_id s in
    (
      record (clear_error t) {
        active_request_id = some request_id;
        active_request_path = some path;
        loading = true;
        file = none;
        tree_entries = [];
        expanded_paths = [];
        tree_requests = [];
        selected_paths = [];
        selection_anchor = none;
      },
      request_id,
    )

-- The paths other than the one removed.
abbrev pub set_remove : Text → List Text → List Text
set_remove path paths = retain (λ other. not (text_eq path other)) paths

-- The answer to the request for one directory of the tree.
abbrev pub complete_tree_request : SftpBrowserState → ℕ → Text → RemoteDirectory → SftpBrowserState
complete_tree_request s request_id requested_path directory = clear_error (record s {
  tree_requests = map_remove ◌==◌ request_id s.tree_requests;
  expanded_paths = set_insert text_eq directory.path (set_remove requested_path s.expanded_paths);
  tree_entries = map_insert text_eq directory.path directory.entries s.tree_entries;
})

-- The answer to the request for the directory shown.
abbrev pub complete_active_request : SftpBrowserState → RemoteDirectory → SftpBrowserState
complete_active_request s directory = record (clear_error s) {
  path = directory.path;
  entries = directory.entries;
  loading = false;
  loaded = true;
  active_request_id = none;
  resolved_source_path = s.active_request_path;
  active_request_path = none;
}

unfoldable pub complete_request : SftpBrowserState → ℕ → RemoteDirectory → SftpBrowserState × Bool
unfolding clear_error text_eq
complete_request s request_id directory = elim (map_get ◌==◌ request_id s.tree_requests) [
  | some requested_path ↦ (complete_tree_request s request_id requested_path directory, true)
  | none ↦
      if not (is_id s.active_request_id request_id)
      then (s, false)
      else (complete_active_request s directory, true)
]

-- A failed request for the directory shown.
abbrev pub fail_active_request : SftpBrowserState → Text → SftpBrowserState
fail_active_request s error = record (set_error (record s { loading = false }) error).0 {
  active_request_id = none;
  active_request_path = none;
  tree_requests = [];
  pending_download_trees = [];
}

unfoldable pub fail_request : SftpBrowserState → ℕ → Text → SftpBrowserState × Bool
unfolding set_error text_eq
fail_request s request_id error = elim (map_get ◌==◌ request_id s.tree_requests) [
  | some path ↦ (
    (set_error
        (record s {
          tree_requests = map_remove ◌==◌ request_id s.tree_requests;
          expanded_paths = set_remove path s.expanded_paths;
        })
        error).0,
    true,
  )
  | none ↦
      if is_some (map_get ◌==◌ request_id s.pending_download_trees)
      then (
        (set_error
            (record s {
              pending_download_trees = map_remove ◌==◌ request_id s.pending_download_trees;
            })
            error).0,
        true,
      )
      else if not (is_id s.active_request_id request_id)
      then (s, false)
      else (fail_active_request s error, true)
]

abbrev pub stop_file : Option SftpFileState → Option SftpFileState
stop_file none = none
stop_file (some file) = some (record file {
  loading = false;
  saving = false;
  read_request_id = none;
  write_request_id = none;
})

unfoldable pub stop_loading : SftpBrowserState → SftpBrowserState
stop_loading s = record s {
  loading = false;
  active_request_id = none;
  active_request_path = none;
  file = stop_file s.file;
}

unfoldable pub begin_tree_request : SftpBrowserState → Text → SftpBrowserState × ℕ
unfolding clear_error next_request_id text_eq
begin_tree_request s path =
    let (t, request_id) = next_request_id s in
    (
      clear_error (record t {
        tree_requests = map_insert ◌==◌ request_id path t.tree_requests;
        expanded_paths = set_insert text_eq path t.expanded_paths;
      }),
      request_id,
    )

unfoldable pub begin_download_tree : SftpBrowserState → Text → ℕ → SftpBrowserState × ℕ
unfolding next_request_id
begin_download_tree s destination batch_id =
    let (t, request_id) = next_request_id s in
    let pending : PendingSftpDownloadTree = record {
      destination = destination;
      batch_id = batch_id;
    } in
    (
      record t {
        pending_download_trees = map_insert ◌==◌ request_id pending t.pending_download_trees;
      },
      request_id,
    )

unfoldable pub take_download_tree :
    SftpBrowserState → ℕ → SftpBrowserState × Option PendingSftpDownloadTree
take_download_tree s request_id = (
  record s { pending_download_trees = map_remove ◌==◌ request_id s.pending_download_trees },
  map_get ◌==◌ request_id s.pending_download_trees,
)

unfoldable pub begin_file_request : SftpBrowserState → Text → Bool → SftpBrowserState × ℕ
unfolding next_request_id
begin_file_request s path editable =
    let (t, request_id) = next_request_id s in
    (
      record t {
        file = some (record {
          path = path;
          original_contents = [];
          text_format = none;
          loading = true;
          saving = false;
          error = none;
          editable = editable;
          read_request_id = some request_id;
          write_request_id = none;
        });
      },
      request_id,
    )

abbrev pub save_file : ℕ → SftpFileState → SftpFileState
save_file request_id file = record file {
  saving = true;
  error = none;
  write_request_id = some request_id;
}

-- The id is taken even if no file is there.
unfoldable pub begin_file_save : SftpBrowserState → SftpBrowserState × Option ℕ
unfolding next_request_id
begin_file_save s =
    let (t, request_id) = next_request_id s in
    elim t.file [
      | none ↦ (t, none)
      | some file ↦ (record t { file = some (save_file request_id file) }, some request_id)
    ]

-- The `match` on the operation, whose arms with a guard fall through to the last one.
abbrev pub fail_file : SftpFileState → ℕ → SftpOperation → Text → SftpFileState
fail_file file request_id read_file error =
    if is_id file.read_request_id request_id
    then record file { loading = false; read_request_id = none; error = some error }
    else file
fail_file file request_id write_file error =
    if is_id file.write_request_id request_id
    then record file { saving = false; write_request_id = none; error = some error }
    else file
fail_file file request_id _ error = file

unfoldable pub fail_file_request : SftpBrowserState → ℕ → SftpOperation → Text → SftpBrowserState
fail_file_request s request_id operation error = elim s.file [
  | none ↦ s
  | some file ↦ record s { file = some (fail_file file request_id operation error) }
]

unfoldable pub display_path : SftpBrowserState → Text
display_path s = elim s.file [ none ↦ s.path | some file ↦ file.path ]
