-- ===== src/Sftp/Browser/Requests/Loading.antt =====
-- The indicator of a browser and its requests.
use rem_cmd.Prelude.{
  ℕ, Option, none, some, ◌≡◌, refl, sym, ap, ◌∙◌, is_some, ◌==◌, map_get, Bool-cases, Option-cases,
  inl, inr,
}
use rem_cmd.Prelude.Text.{Text}
use rem_cmd.Ssh.RemoteFiles.{RemoteDirectory}
use rem_cmd.Sftp.Browser.Requests.Unrelated.{
  SameRequests, hide_error-SameRequests, fail_file-SameRequests, click-SameRequests,
  menu-SameRequests,
}
use rem_cmd.Sftp.Browser.{
  SftpBrowserState, SftpFileState, is_id, complete_request, fail_request, begin_file_save,
}
use rem_cmd.Sftp.Browser.Requests.{
  BrowserCall, after, go_to, complete, fail, stop, hide_error, save, fail_file, click, menu,
}

-- The browser shows that it is loading exactly while a request for its directory is out, whose path it
-- knows.
pub record IsLoading (s : SftpBrowserState) : Type 0 where
  pub indicator : s.loading ≡ is_some s.active_request_id
  pub path_known : is_some s.active_request_path ≡ is_some s.active_request_id

IsLoading-Same : {s t : SftpBrowserState} → SameRequests s t → IsLoading s → IsLoading t
IsLoading-Same r h = record {
  indicator = r.loading ∙ h.indicator ∙ ap is_some (sym r.active_id);
  path_known = cc (r.active_path, r.active_id, h.path_known);
}

complete-IsLoading :
    (id : ℕ) (directory : RemoteDirectory) (s : SftpBrowserState)
    → IsLoading s
    → IsLoading (complete_request s id directory).0
unfolding complete_request
complete-IsLoading id directory s h = elim (Option-cases (map_get ◌==◌ id s.tree_requests)) [
  | inr (path, asked) ↦
      rw (asked, complete_request) (record { indicator = h.indicator; path_known = h.path_known })
  | inl other ↦
      rw (other, complete_request)
        (elim (Bool-cases (is_id s.active_request_id id)) [
          | inl active ↦ rw active (record { indicator = refl; path_known = refl })
          | inr old ↦ rw old h
        ])
]

fail-IsLoading :
    (id : ℕ) (error : Text) (s : SftpBrowserState)
    → IsLoading s
    → IsLoading (fail_request s id error).0
unfolding fail_request
fail-IsLoading id error s h = elim (Option-cases (map_get ◌==◌ id s.tree_requests)) [
  | inr (path, asked) ↦
      rw (asked, fail_request) (record { indicator = h.indicator; path_known = h.path_known })
  | inl other ↦
      rw (other, fail_request)
        (elim (Bool-cases (is_some (map_get ◌==◌ id s.pending_download_trees))) [
          | inl tree ↦ rw tree (record { indicator = h.indicator; path_known = h.path_known })
          | inr no_tree ↦ rw no_tree (elim (Bool-cases (is_id s.active_request_id id)) [
            | inl active ↦ rw active (record { indicator = refl; path_known = refl })
            | inr old ↦ rw old h
          ])
        ])
]

save-IsLoading : (s : SftpBrowserState) → IsLoading s → IsLoading (begin_file_save s).0
unfolding begin_file_save
save-IsLoading s h = saved s.file refl
  where
    saved : (o : Option SftpFileState) → s.file ≡ o → IsLoading (begin_file_save s).0
    saved none e =
        simp (e, begin_file_save) (record { indicator = h.indicator; path_known = h.path_known })
    saved (some file) e =
        simp (e, begin_file_save) (record { indicator = h.indicator; path_known = h.path_known })

-- Whatever is called, the browser shows that it is loading exactly while a request for its directory
-- is out, and knows its path exactly then.
pub after-IsLoading :
    (call : BrowserCall) (s : SftpBrowserState) → IsLoading s → IsLoading (after call s)
unfolding after
after-IsLoading (go_to path) s h = record { indicator = refl; path_known = refl }
after-IsLoading (complete id directory) s h = complete-IsLoading id directory s h
after-IsLoading (fail id error) s h = fail-IsLoading id error s h
after-IsLoading stop s h = record { indicator = refl; path_known = refl }
after-IsLoading (hide_error generation) s h =
    IsLoading-Same (hide_error-SameRequests s generation) h
after-IsLoading save s h = save-IsLoading s h
after-IsLoading (fail_file id operation error) s h =
    IsLoading-Same (fail_file-SameRequests s id operation error) h
after-IsLoading (click path modifiers rows) s h =
    IsLoading-Same (click-SameRequests s path modifiers rows) h
after-IsLoading (menu path) s h = IsLoading-Same (menu-SameRequests s path) h
after-IsLoading _ s h = record { indicator = h.indicator; path_known = h.path_known }
