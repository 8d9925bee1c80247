-- ===== src/Sftp/Browser/Requests/Stale.antt =====
-- A new request for the browser's directory makes the answers to earlier ones void.
use rem_cmd.Prelude.{
  ℕ, suc, ◌+◌, ◌^◌, ◌≤◌, ◌<◌, Bool, true, false, Option, none, some, List, [], ◌∷◌, ◌≡◌, refl,
  subst, arith, is_some, ◌==◌, leb, map_get, map_remove, if◌then◌else◌, All, All-map_remove, length,
  Bool-cases, Option-cases, inl, inr,
}
use rem_cmd.Prelude.Text.{Text}
use rem_cmd.Ssh.RemoteFiles.{RemoteDirectory}
use rem_cmd.Sftp.Queue.{next}
use rem_cmd.Sftp.Browser.{
  SftpBrowserState, SftpFileState, is_id, begin_request, complete_request, fail_request,
  begin_file_save,
}
use rem_cmd.Sftp.Browser.Requests.{
  BrowserCall, after, after_all, go_to, complete, fail, stop, expand, download_tree, hide_error,
  read, save, fail_file, click, menu,
}
use rem_cmd.Sftp.Browser.Requests.Unrelated.{
  SameRequests, hide_error-SameRequests, fail_file-SameRequests, click-SameRequests,
  menu-SameRequests,
}

-- The error of a recursive download that is out, which the listing does not depend on.
unfoldable pub download_failed : ℕ → Text → SftpBrowserState → SftpBrowserState
download_failed id error s = record s {
  pending_download_trees = map_remove ◌==◌ id s.pending_download_trees;
  error_generation = next s.error_generation;
  error = some error;
}

-- `none` too.
abbrev is_from : ℕ → Option ℕ → Bool
is_from bound none = true
is_from bound (some id) = leb bound id

le→leb : (a b : ℕ) → a ≤ b → leb a b ≡ true
le→leb a b h = ground arith

-- The requests for directories that are out have ids from `bound` on, and so will the next ones, the
-- first of which is at most `limit`.
record IsSince (bound limit : ℕ) (s : SftpBrowserState) : Type 0 where
  active : is_from bound s.active_request_id ≡ true
  tree : All (λ request. bound ≤ request.0) s.tree_requests
  later : bound ≤ s.next_request_id
  below : s.next_request_id ≤ limit

module _ (bound limit : ℕ) where
  IsSince-Same :
      {s t : SftpBrowserState} → SameRequests s t → IsSince bound limit s → IsSince bound limit t
  IsSince-Same r h = record {
    active = rw r.active_id h.active;
    tree = rw r.tree h.tree;
    later = rw r.next_id h.later;
    below = rw r.next_id h.below;
  }

  complete-IsSince :
      (id : ℕ) (directory : RemoteDirectory) (s : SftpBrowserState)
      → IsSince bound limit s
      → IsSince bound limit (complete_request s id directory).0
  unfolding complete_request
  complete-IsSince id directory s h = elim (Option-cases (map_get ◌==◌ id s.tree_requests)) [
    | inr (path, asked) ↦
        rw (asked, complete_request)
          (record {
            active = h.active;
            tree = All-map_remove (λ request. bound ≤ request.0) ◌==◌ id s.tree_requests h.tree;
            later = h.later;
            below = h.below;
          })
    | inl other ↦
        rw (other, complete_request)
          (elim (Bool-cases (is_id s.active_request_id id)) [
            | inl active ↦
                rw active
                  (record { active = refl; tree = h.tree; later = h.later; below = h.below })
            | inr old ↦ rw old h
          ])
  ]

  fail-IsSince :
      (id : ℕ) (error : Text) (s : SftpBrowserState)
      → IsSince bound limit s
      → IsSince bound limit (fail_request s id error).0
  unfolding fail_request
  fail-IsSince id error s h = elim (Option-cases (map_get ◌==◌ id s.tree_requests)) [
    | inr (path, asked) ↦
        rw (asked, fail_request)
          (record {
            active = h.active;
            tree = All-map_remove (λ request. bound ≤ request.0) ◌==◌ id s.tree_requests h.tree;
            later = h.later;
            below = h.below;
          })
    | inl other ↦
        rw (other, fail_request)
          (elim (Bool-cases (is_some (map_get ◌==◌ id s.pending_download_trees))) [
            | inl tree ↦
                rw tree
                  (record { active = h.active; tree = h.tree; later = h.later; below = h.below })
            | inr no_tree ↦ rw no_tree (elim (Bool-cases (is_id s.active_request_id id)) [
              | inl active ↦
                  rw active (record { active = refl; tree = tt; later = h.later; below = h.below })
              | inr old ↦ rw old h
            ])
          ])
  ]

  -- One more id has been given out.
  next-IsSince :
      {s t : SftpBrowserState}
      → limit + 1 < 2 ^ 64
      → IsSince bound limit s
      → is_from bound t.active_request_id ≡ true
      → All (λ request. bound ≤ request.0) t.tree_requests
      → t.next_request_id ≡ next s.next_request_id
      → IsSince bound (suc limit) t
  next-IsSince w h active tree e = record {
    active = active;
    tree = tree;
    later = omega (arith, h.later, h.below, e);
    below = omega (arith, h.later, h.below, e);
  }

  weaken : {s : SftpBrowserState} → IsSince bound limit s → IsSince bound (suc limit) s
  weaken h = record {
    active = h.active;
    tree = h.tree;
    later = h.later;
    below = omega (arith, h.below);
  }

  save-IsSince :
      (s : SftpBrowserState)
      → limit + 1 < 2 ^ 64
      → IsSince bound limit s
      → IsSince bound (suc limit) (begin_file_save s).0
  unfolding begin_file_save
  save-IsSince s w h = saved s.file refl
    where
      saved :
          (o : Option SftpFileState) → s.file ≡ o → IsSince bound (suc limit) (begin_file_save s).0
      saved none e = simp (e, begin_file_save) (next-IsSince w h h.active h.tree refl)
      saved (some file) e = simp (e, begin_file_save) (next-IsSince w h h.active h.tree refl)

  after-IsSince :
      (call : BrowserCall) (s : SftpBrowserState)
      → limit + 1 < 2 ^ 64
      → IsSince bound limit s
      → IsSince bound (suc limit) (after call s)
  unfolding after
  after-IsSince (go_to path) s w h =
      next-IsSince w h (le→leb bound s.next_request_id h.later) tt refl
  after-IsSince (complete id directory) s w h = weaken (complete-IsSince id directory s h)
  after-IsSince (fail id error) s w h = weaken (fail-IsSince id error s h)
  after-IsSince stop s w h = record {
    active = refl;
    tree = h.tree;
    later = h.later;
    below = omega (arith, h.below);
  }
  after-IsSince (expand path) s w h =
      next-IsSince w h h.active (h.later, All-map_remove _ ◌==◌ _ s.tree_requests h.tree) refl
  after-IsSince (download_tree destination batch) s w h = next-IsSince w h h.active h.tree refl
  after-IsSince (hide_error generation) s w h =
      weaken (IsSince-Same (hide_error-SameRequests s generation) h)
  after-IsSince (read path editable) s w h = next-IsSince w h h.active h.tree refl
  after-IsSince save s w h = save-IsSince s w h
  after-IsSince (fail_file id operation error) s w h =
      weaken (IsSince-Same (fail_file-SameRequests s id operation error) h)
  after-IsSince (click path modifiers rows) s w h =
      weaken (IsSince-Same (click-SameRequests s path modifiers rows) h)
  after-IsSince (menu path) s w h = weaken (IsSince-Same (menu-SameRequests s path) h)
  after-IsSince _ s w h = record {
    active = h.active;
    tree = h.tree;
    later = h.later;
    below = omega (arith, h.below);
  }

  no_key :
      (id : ℕ) (requests : List (ℕ × Text))
      → id < bound
      → All (λ request. bound ≤ request.0) requests
      → map_get ◌==◌ id requests ≡ none
  no_key id [] l k = refl
  no_key id ((key, path) ∷ requests) l k = ground (arith, k.0, no_key id requests l k.1)

  not_active : (id : ℕ) (o : Option ℕ) → id < bound → is_from bound o ≡ true → is_id o id ≡ false
  not_active id none l a = refl
  not_active id (some active) l a = ground arith

  stale :
      (id : ℕ) (directory : RemoteDirectory) (s : SftpBrowserState)
      → IsSince bound limit s
      → id < bound
      → complete_request s id directory ≡ (s, false)
  unfolding complete_request
  stale id directory s h l =
      rw (no_key id s.tree_requests l h.tree, complete_request)
        (rw (not_active id s.active_request_id l h.active))

  stale_failure :
      (id : ℕ) (error : Text) (s : SftpBrowserState)
      → IsSince bound limit s
      → id < bound
      → fail_request s id error ≡ (
          if is_some (map_get ◌==◌ id s.pending_download_trees)
          then (download_failed id error s, true)
          else (s, false))
  unfolding fail_request download_failed
  stale_failure id error s h l =
      rw (no_key id s.tree_requests l h.tree, fail_request)
        (rw (not_active id s.active_request_id l h.active))

module _ (bound : ℕ) where
  after_all-IsSince :
      (calls : List BrowserCall) (limit : ℕ) (s : SftpBrowserState)
      → limit + length calls < 2 ^ 64
      → IsSince bound limit s
      → IsSince bound (limit + length calls) (after_all calls s)
  unfolding after_all
  after_all-IsSince [] limit s w h = record {
    active = h.active;
    tree = h.tree;
    later = h.later;
    below = omega (arith, h.below);
  }
  after_all-IsSince (call ∷ calls) limit s w h =
      let rest =
        after_all-IsSince calls (suc limit) (after call s) (omega arith)
          (after-IsSince bound limit call s (omega arith) h) in
      record {
        active = rest.active;
        tree = rest.tree;
        later = rest.later;
        below = omega (arith, rest.below);
      }

-- While ids are left: once the browser was sent to another directory, whatever was called in between,
-- the answer to any earlier request for a directory, for the one shown or for a part of the tree, is
-- refused and changes nothing. So is a failure of an earlier request, but for one of a download tree
-- that is still out: that drops the download and shows its error, and changes nothing else.
pub begin_request_supersedes :
    (s : SftpBrowserState) (path : Text) (calls : List BrowserCall) (id : ℕ)
    (directory : RemoteDirectory) (error : Text) (t : SftpBrowserState)
    → s.next_request_id + suc (length calls) < 2 ^ 64
    → id < s.next_request_id
    → after_all calls (begin_request s path).0 ≡ t
    → complete_request t id directory ≡ (t, false)
      × fail_request t id error ≡ (
          if is_some (map_get ◌==◌ id t.pending_download_trees)
          then (download_failed id error t, true)
          else (t, false))
unfolding begin_request
begin_request_supersedes s path calls id directory error t w l reached =
    let started : IsSince s.next_request_id (suc s.next_request_id) (begin_request s path).0 =
      record {
        active = le→leb s.next_request_id s.next_request_id (omega arith);
        tree = tt;
        later = omega arith;
        below = omega arith;
      } in
    let limit = suc s.next_request_id + length calls in
    let ended = subst (IsSince s.next_request_id limit) reached (
      after_all-IsSince s.next_request_id calls (suc s.next_request_id) (begin_request s path).0
        (omega arith) started) in
    (
      stale s.next_request_id limit id directory t ended l,
      stale_failure s.next_request_id limit id error t ended l,
    )
