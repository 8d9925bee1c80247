-- ===== src/Sftp/Browser/Requests/Unrelated.antt =====
-- The calls that start and end no request for a directory.
use rem_cmd.Prelude.{
  ℕ, not, ◌||◌, Option, none, some, List, [], ◌∷◌, ◌≡◌, refl, ◌==◌, is_none, Bool-cases,
  Option-cases, inl, inr, any,
}
use rem_cmd.Prelude.Text.{Text, text_eq}
use rem_cmd.Ssh.RemoteFiles.{SftpOperation}
use rem_cmd.Sftp.Browser.{
  SftpBrowserState, clear_error_if_current, fail_file_request, SftpFileState,
}
use rem_cmd.Sftp.Queue.{next}
use rem_cmd.Sftp.Browser.Rows.{SftpTreeRow}
use rem_cmd.Sftp.Browser.Selection.{
  Modifiers, position, select_at, select_path, select_for_context_menu,
}
use rem_cmd.Sftp.Browser.Selection.Ranges.{paths_of}

-- Two states with the same requests out.
pub record SameRequests (s t : SftpBrowserState) : Type 0 where
  pub loading : t.loading ≡ s.loading
  pub active_id : t.active_request_id ≡ s.active_request_id
  pub active_path : t.active_request_path ≡ s.active_request_path
  pub tree : t.tree_requests ≡ s.tree_requests
  pub next_id : t.next_request_id ≡ s.next_request_id

same : {s : SftpBrowserState} → SameRequests s s
same = record { loading = refl; active_id = refl; active_path = refl; tree = refl; next_id = refl }

-- The selection is no part of them, nor are the error and the file.
selection_changed :
    (s : SftpBrowserState) (paths : List Text) (anchor : Option Text)
    → SameRequests s (record s { selected_paths = paths; selection_anchor = anchor })
selection_changed s paths anchor = record {
  loading = refl;
  active_id = refl;
  active_path = refl;
  tree = refl;
  next_id = refl;
}

pub error_changed :
    (s : SftpBrowserState) (error : Option Text) (generation : ℕ)
    → SameRequests s (record s { error = error; error_generation = generation })
error_changed s error generation = record {
  loading = refl;
  active_id = refl;
  active_path = refl;
  tree = refl;
  next_id = refl;
}

pub file_changed :
    (s : SftpBrowserState) (file : Option SftpFileState) → SameRequests s (record s { file = file })
file_changed s file = record {
  loading = refl;
  active_id = refl;
  active_path = refl;
  tree = refl;
  next_id = refl;
}

pub hide_error-SameRequests :
    (s : SftpBrowserState) (generation : ℕ) → SameRequests s (clear_error_if_current s generation).0
unfolding clear_error_if_current
hide_error-SameRequests s generation =
    elim (Bool-cases (not (s.error_generation == generation) || is_none s.error)) [
      | inl old ↦ rw (old, clear_error_if_current) same
      | inr current ↦
          rw (current, clear_error_if_current) (error_changed s none (next s.error_generation))
    ]

pub fail_file-SameRequests :
    (s : SftpBrowserState) (id : ℕ) (operation : SftpOperation) (error : Text)
    → SameRequests s (fail_file_request s id operation error)
unfolding fail_file_request
fail_file-SameRequests s id operation error = fail_in s.file refl
  where
    fail_in :
        (o : Option SftpFileState)
        → s.file ≡ o
        → SameRequests s (fail_file_request s id operation error)
    fail_in none e = simp (e, fail_file_request) same
    fail_in (some file) e = simp (e, fail_file_request) (file_changed s _)

select_at-SameRequests :
    (s : SftpBrowserState) (path : Text) (modifiers : Modifiers) (visible : List Text) (clicked : ℕ)
    → SameRequests s (select_at s path modifiers visible clicked)
unfolding select_at
select_at-SameRequests s path modifiers visible clicked = elim (Bool-cases modifiers.shift) [
  | inl shift ↦ rw (shift, select_at) (selection_changed s _ s.selection_anchor)
  | inr plain ↦
      rw (plain, select_at)
        (elim (Bool-cases modifiers.secondary) [
          | inl more ↦ rw more (selection_changed s _ (some path))
          | inr only ↦ rw only (selection_changed s _ (some path))
        ])
]

pub click-SameRequests :
    (s : SftpBrowserState) (path : Text) (modifiers : Modifiers) (rows : List SftpTreeRow)
    → SameRequests s (select_path s path modifiers rows)
unfolding select_path
click-SameRequests s path modifiers rows = elim (Option-cases (position path (paths_of rows))) [
  | inl hidden ↦ rw (hidden, select_path) same
  | inr (clicked, shown) ↦
      rw (shown, select_path) (select_at-SameRequests s path modifiers (paths_of rows) clicked)
]

pub menu-SameRequests :
    (s : SftpBrowserState) (path : Text) → SameRequests s (select_for_context_menu s path)
unfolding select_for_context_menu
menu-SameRequests s path = elim (Bool-cases (any (text_eq path) s.selected_paths)) [
  | inl there ↦ rw (there, select_for_context_menu) same
  | inr fresh ↦ rw (fresh, select_for_context_menu) (selection_changed s (path ∷ []) (some path))
]
