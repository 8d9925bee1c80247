-- ===== src/Tests/TransferTests.antt =====
-- Download segments, and the commands of SCP, at concrete values.
use rem_cmd.Prelude.{ℕ, some, none, List, suc, All, map, Result}
use rem_cmd.Ssh.RemoteFiles.{RemoteDirectoryTree, file}
use rem_cmd.Ssh.LocalPath.{unix, windows, path_join, local_parent}
use rem_cmd.Ssh.RemotePath.{join_remote_relative}
use rem_cmd.Ssh.RemotePath.Contained.{Under}
use rem_cmd.Ssh.Transfers.{PlannedFile, build_remote_download_plan}
use rem_cmd.Ssh.Transfers.Contained.{wanted, download_plan-IsContained}
use rem_cmd.Prelude.{[], ◌∷◌, ok, ◌≡◌, refl, arith}
use rem_cmd.Prelude.Text.{Text, codes}
use rem_cmd.Ssh.Segments.{download_segment_ranges}
use rem_cmd.Ssh.Segments.Tiling.{Tiles, download_segment_ranges-Tiles}
use rem_cmd.Ssh.Scp.{shell_quote}
use rem_cmd.Ssh.Scp.Quoting.{Removing, remove_command-Removing}

-- Three MiB and one byte, in four ranges.
four_ranges :
    download_segment_ranges 3145729
    ≡ (0, 786433) ∷ (786433, 1572866) ∷ (1572866, 2359299) ∷ (2359299, 3145729) ∷ []
unfolding download_segment_ranges
four_ranges = refl

download_segment_ranges-Tiles_example : Tiles 0 3145729 (download_segment_ranges 3145729)
download_segment_ranges-Tiles_example = download_segment_ranges-Tiles 3145729 (omega arith)

-- A path that would end the quotes.
abbrev hostile : Text
hostile = codes "a'; reboot #"

hostile_quoted : shell_quote hostile ≡ ok (codes "'a'\\''; reboot #'")
unfolding shell_quote
hostile_quoted = refl

remove_command-Removing_example : Removing hostile
remove_command-Removing_example = remove_command-Removing hostile refl

-- A file system that counts the directories that it makes.
abbrev count_directory : Text → ℕ → ℕ × Result (Unit {0}) Text
count_directory path made = (suc made, ok tt)

-- A server that lists a path with "..".
abbrev hostile_tree : RemoteDirectoryTree
hostile_tree = record {
  root = codes "/srv";
  directories = codes "/srv/a" ∷ [];
  files =
      record {
        name = codes "passwd";
        path = codes "/srv/../etc/passwd";
        kind = file;
        size = some 5;
        modified = none;
      }
      ∷ [];
}

abbrev hostile_plan : List PlannedFile
hostile_plan = (codes "C:\\Users\\me\\etc\\passwd", (codes "/srv/../etc/passwd", some 5)) ∷ []

download_plan-IsContained_example :
    All (λ p. Under windows (codes "C:\\Users\\me") p.0) hostile_plan
    × map (λ p. p.1) hostile_plan ≡ map wanted hostile_tree.files
unfolding build_remote_download_plan
download_plan-IsContained_example =
    download_plan-IsContained windows count_directory (λ t. t) hostile_tree (codes "C:\\Users\\me")
      0 3 hostile_plan (refl, tt) refl

-- On Windows a listed name may be more than a component.
escaping_names :
    (join_remote_relative windows (codes "C:\\d") (codes "..\\x") ≡ codes "C:\\d\\..\\x")
    × (join_remote_relative windows (codes "C:\\d") (codes "a/D:x") ≡ codes "D:x")
    × (join_remote_relative windows (codes "C:\\d") (codes "\\x") ≡ codes "C:\\x")
    × (join_remote_relative unix (codes "/d") (codes "..\\x/D:x") ≡ codes "/d/..\\x/D:x")
unfolding join_remote_relative
escaping_names = (refl, refl, refl, refl)

windows_joins :
    (path_join windows (codes "C:") (codes "a") ≡ codes "C:a")
    × (path_join windows (codes "C:\\") (codes "a") ≡ codes "C:\\a")
    × (path_join windows (codes "\\\\s\\share\\a") (codes "/b") ≡ codes "\\\\s\\share/b")
    × (path_join windows (codes "a") (codes "\\\\s\\share\\b") ≡ codes "\\\\s\\share\\b")
unfolding path_join
windows_joins = (refl, refl, refl, refl)

local_parents :
    (local_parent windows (codes "C:\\a\\b") ≡ some (codes "C:\\a"))
    × (local_parent windows (codes "C:\\a") ≡ some (codes "C:\\"))
    × (local_parent windows (codes "C:\\") ≡ none)
    × (local_parent unix (codes "/a/b\\c") ≡ some (codes "/a"))
    × (local_parent unix (codes "/a") ≡ some (codes "/"))
unfolding local_parent
local_parents = (refl, refl, refl, refl, refl)
