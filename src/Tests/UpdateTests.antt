-- ===== src/Tests/UpdateTests.antt =====
-- Updates at concrete values.
use rem_cmd.Prelude.{ℕ, Bool, false, Option, none, some, [], ◌∷◌, ◌++◌, ◌≡◌, refl, arith, ltb, ok}
use rem_cmd.Prelude.Text.{text_eq, Text, codes, parse_unsigned, decimal, lines}
use rem_cmd.Prelude.Utf8.{Bytes, encode}
use rem_cmd.Ssh.LocalPath.{unix, path_join}
use rem_cmd.Update.{Package, Release, ApiRelease, mac_arm, parse_release, releases_url}
use rem_cmd.Update.Offered.{IsOffered, parse_release-IsOffered}
use rem_cmd.Update.Manifest.{manifest_digest}
use rem_cmd.Update.Manifest.Lookup.{
  hashes_of, single_hash, Lines, no_lines, line_first, names, other, manifest_digest-single,
}
use rem_cmd.Update.Download.{Response, receive_package, eq_ignore_ascii_case}
use rem_cmd.Update.Download.Verified.{IsVerified, payload, concat, receive_package-IsVerified}
use rem_cmd.Update.Download.Complete.{sound_disk, receive_package-concat}

abbrev hash : Text
hash = codes "ba7816bf8f01cfea414140de5dae2223b00361a396177a9cb410ff61f20015ad"

abbrev package_for : Package
package_for = record {
  name = codes "RemCmd-v7-macos-aarch64.dmg";
  size = 3;
  url = releases_url ++ codes "/download/v7/RemCmd-v7-macos-aarch64.dmg";
  sha256 = hash;
}

abbrev api_release : ApiRelease
api_release = record {
  tag_name = codes "v7";
  draft = false;
  prerelease = false;
  body = none;
  assets =
      record {
        name = codes "RemCmd-v7-macos-aarch64.dmg";
        size = 3;
        browser_download_url = releases_url ++ codes "/download/v7/RemCmd-v7-macos-aarch64.dmg";
        digest = some (codes "sha256:" ++ hash);
        state = codes "uploaded";
      }
      ∷ [];
}

-- Versions that are one number.
abbrev number_of : Text → Option ℕ
number_of = parse_unsigned 1000

abbrev never : ℕ → Bool
never version = false

abbrev newer : ℕ → ℕ → Bool
newer version current = ltb current version

abbrev reads : Bytes → Option ApiRelease
reads bytes = some api_release

abbrev release_seven : Release
release_seven = record {
  version = codes "7";
  url = releases_url ++ codes "/tag/v7";
  notes = [];
  update_package = some package_for;
}

parse_release-IsOffered_example :
    IsOffered number_of never newer decimal reads [] 6 (some mac_arm) release_seven
unfolding parse_release parse_unsigned decimal
parse_release-IsOffered_example =
    parse_release-IsOffered number_of never newer decimal reads [] (codes "6") (some mac_arm) 6
      release_seven refl refl

abbrev manifest : Text
manifest = hash ++ codes "  package.deb\nnotes\n"

-- The hash of the first line is for the package, the second line has none.
listed : Lines (lines manifest) (some (hash, codes "package.deb") ∷ none ∷ [])
unfolding lines
listed =
    line_first (names hash (codes " ") [] (codes "package.deb") refl refl refl refl refl)
      (line_first (other refl) no_lines)

manifest_digest-single_example :
    manifest_digest (encode manifest) (codes "package.deb") ≡ ok (some hash)
unfolding text_eq hashes_of single_hash
manifest_digest-single_example =
    manifest_digest-single manifest (codes "package.deb")
      (some (hash, codes "package.deb") ∷ none ∷ []) (ground arith) listed

abbrev no_hash : Bytes → Text
no_hash bytes = hash

abbrev response : Response
response = record {
  status = 200;
  content_length = some 3;
  chunks = ok (1 ∷ 2 ∷ []) ∷ ok (3 ∷ []) ∷ [];
}

three-IsVerified : IsVerified no_hash package_for (1 ∷ 2 ∷ 3 ∷ [])
unfolding eq_ignore_ascii_case
three-IsVerified = record { whole = refl; authentic = refl }

receive_package-IsVerified_example :
    IsVerified no_hash package_for (1 ∷ 2 ∷ 3 ∷ [])
    × (1 ∷ 2 ∷ 3 ∷ [] ≡ payload response.chunks)
    × (codes "/tmp/RemCmd-v7-macos-aarch64.dmg" ≡ path_join unix (codes "/tmp") package_for.name)
unfolding receive_package
receive_package-IsVerified_example =
    receive_package-IsVerified no_hash unix package_for (codes "/tmp") sound_disk response
      (codes "/tmp/RemCmd-v7-macos-aarch64.dmg") (1 ∷ 2 ∷ 3 ∷ []) refl

receive_package-concat_example :
    receive_package no_hash unix package_for (codes "/tmp") sound_disk response
    ≡ ok (codes "/tmp/RemCmd-v7-macos-aarch64.dmg", 1 ∷ 2 ∷ 3 ∷ [])
unfolding concat path_join
receive_package-concat_example =
    receive_package-concat no_hash unix package_for (codes "/tmp") response
      ((1 ∷ 2 ∷ []) ∷ (3 ∷ []) ∷ []) (omega arith) refl refl refl three-IsVerified
