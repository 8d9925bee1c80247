-- ===== src/Ssh/Transfers/Contained.antt =====
-- Where the download plan of transfer/plan.rs puts the files of a server.
use rem_cmd.Prelude.{
  ℕ, true, Option, none, some, List, [], ◌∷◌, map, Result, ok, err, ◌≡◌, refl, subst, All,
}
use rem_cmd.Prelude.Text.{Text}
use rem_cmd.Ssh.RemoteFiles.{RemoteFileEntry, RemoteDirectoryTree}
use rem_cmd.Ssh.RemotePath.{remote_relative_path, join_remote_relative}
use rem_cmd.Ssh.LocalPath.{Host, local_parent}
use rem_cmd.Ssh.RemotePath.Contained.{Under, is_portable, relative-portable, join_relative-Under}
use rem_cmd.Ssh.Transfers.{
  PlannedFile, and_run, create_parent, plan_at, plan_file, cons_file, and_plan, plan_files,
  build_remote_download_plan,
}

-- The remote path and the size that an entry asks for.
unfoldable pub wanted : RemoteFileEntry → Text × Option ℕ
wanted file = (file.path, file.size)

module _ (host : Host) {F E : Type 0} (create_dir_all : Text → F → F × Result (Unit {0}) E)
    (invalid_data : Text → E) where
  -- A file that is planned is the entry's, and stays within the destination.
  unfoldable IsPlanned : Text → RemoteFileEntry → F × Result PlannedFile E → Type 0
  IsPlanned destination file (fs, err error) = Unit {0}
  IsPlanned destination file (fs, ok planned) =
      Under host destination planned.0 × planned.1 ≡ wanted file

  unfoldable ArePlanned : Text → List RemoteFileEntry → F × Result (List PlannedFile) E → Type 0
  ArePlanned destination files (fs, err error) = Unit {0}
  ArePlanned destination files (fs, ok planned) =
      All (λ p. Under host destination p.0) planned × map (λ p. p.1) planned ≡ map wanted files

  run-IsPlanned :
      (destination : Text) (file : RemoteFileEntry) (relative : Text)
      → is_portable host relative ≡ true
      → (r : F × Result (Unit {0}) E)
      → IsPlanned destination file (
          and_run host create_dir_all invalid_data r (λ fs.
            (fs, ok (join_remote_relative host destination relative, (file.path, file.size)))))
  unfolding IsPlanned wanted
  run-IsPlanned destination file relative portable (fs, ok _) =
      (join_relative-Under host destination relative portable, refl)
  run-IsPlanned destination file relative portable (fs, err error) = tt

  plan_at-IsPlanned :
      (destination : Text) (file : RemoteFileEntry) (fs : F) (r : Option Text)
      → ((relative : Text) → r ≡ some relative → is_portable host relative ≡ true)
      → IsPlanned destination file (plan_at host create_dir_all invalid_data destination file fs r)
  unfolding plan_at IsPlanned
  plan_at-IsPlanned destination file fs none h = tt
  plan_at-IsPlanned destination file fs (some relative) h =
      run-IsPlanned destination file relative (h relative refl) (
        create_parent host create_dir_all invalid_data
          (local_parent host (join_remote_relative host destination relative)) fs)

  cons_file-ArePlanned :
      (destination : Text) (file : RemoteFileEntry) (files : List RemoteFileEntry)
      → (planned : PlannedFile) → Under host destination planned.0 × planned.1 ≡ wanted file
      → (r : F × Result (List PlannedFile) E) → ArePlanned destination files r
      → ArePlanned destination (file ∷ files) (cons_file host create_dir_all invalid_data planned r)
  unfolding ArePlanned
  cons_file-ArePlanned destination file files planned (under, same) (fs, ok rest)
        (all_under, all_same) =
      ((under, all_under), cc)
  cons_file-ArePlanned destination file files planned h (fs, err error) rest = tt

  and_plan-ArePlanned :
      (destination : Text) (file : RemoteFileEntry) (files : List RemoteFileEntry)
      → (r : F × Result PlannedFile E) → (next : F → F × Result (List PlannedFile) E)
      → IsPlanned destination file r
      → ((fs : F) → ArePlanned destination files (next fs))
      → ArePlanned destination (file ∷ files) (and_plan host create_dir_all invalid_data r next)
  unfolding IsPlanned ArePlanned
  and_plan-ArePlanned destination file files (fs, ok planned) next is_planned rest =
      cons_file-ArePlanned destination file files planned is_planned (next fs) (rest fs)
  and_plan-ArePlanned destination file files (fs, err error) next is_planned rest = tt

  plan_files-ArePlanned :
      (root destination : Text) (files : List RemoteFileEntry) (fs : F)
      → All (λ file. is_portable host file.path ≡ true) files
      → ArePlanned destination files
          (plan_files host create_dir_all invalid_data root destination files fs)
  unfolding plan_files plan_file ArePlanned
  plan_files-ArePlanned root destination [] fs h = (tt, refl)
  plan_files-ArePlanned root destination (file ∷ files) fs h =
      and_plan-ArePlanned destination file files
        (plan_file host create_dir_all invalid_data root destination file fs)
        (plan_files host create_dir_all invalid_data root destination files)
        (plan_at-IsPlanned destination file fs (remote_relative_path root file.path)
          (λ relative e. relative-portable host root file.path relative e h.0))
        (λ fs₁. plan_files-ArePlanned root destination files fs₁ h.1)

  and_run-ArePlanned :
      (destination : Text) (files : List RemoteFileEntry)
      → (r : F × Result (Unit {0}) E) → (next : F → F × Result (List PlannedFile) E)
      → ((fs : F) → ArePlanned destination files (next fs))
      → ArePlanned destination files (and_run host create_dir_all invalid_data r next)
  unfolding ArePlanned
  and_run-ArePlanned destination files (fs, ok _) next rest = rest fs
  and_run-ArePlanned destination files (fs, err error) next rest = tt

-- If a download is planned, every file of the tree is planned once and in order, with its path and
-- size, and to a local path that is reached from the destination by steps down only. On a Unix host
-- this holds whatever paths the server listed; on a Windows host, for a destination without the
-- verbatim prefix, it holds if no backslash and no colon is in the paths of the files.
pub download_plan-IsContained :
    (host : Host) {F E : Type 0}
    → (create_dir_all : Text → F → F × Result (Unit {0}) E) → (invalid_data : Text → E)
    → (tree : RemoteDirectoryTree) → (destination : Text) → (fs fs₁ : F)
    → (planned : List PlannedFile) → All (λ file. is_portable host file.path ≡ true) tree.files
    → build_remote_download_plan host create_dir_all invalid_data tree destination fs
      ≡ (fs₁, ok planned)
    → All (λ p. Under host destination p.0) planned × map (λ p. p.1) planned ≡ map wanted tree.files
unfolding build_remote_download_plan ArePlanned
download_plan-IsContained host create_dir_all invalid_data tree destination fs fs₁ planned portable
      h =
    subst (ArePlanned host create_dir_all invalid_data destination tree.files) h (
      and_run-ArePlanned host create_dir_all invalid_data destination tree.files _ _ (λ fs₂.
        plan_files-ArePlanned host create_dir_all invalid_data tree.root destination tree.files fs₂
          portable))
