-- ===== src/Update.antt =====
-- crates/remcmd-update/src/lib.rs: which releases are offered. The crates semver, serde_json and url are
-- parameters: what they make of a text, and what is asked of a version.
pub mod Offered
pub mod Manifest
pub mod Download
use rem_cmd.Prelude.{
  ℕ, ◌+◌, ◌*◌, Bool, true, false, not, ◌&&◌, ◌||◌, Option, none, some, List, [], ◌∷◌, ◌++◌, Result,
  ok, err, ◌>>=◌, ◌>>◌, guard, ok_or, and_then, if◌then◌else◌, ◌==◌, ltb, within, all, length, take,
  find, map, is_some, is_none,
}
use rem_cmd.Prelude.Text.{Text, codes, text_eq, strip_prefix}
use rem_cmd.Prelude.Utf8.{Bytes}

abbrev pub releases_url : Text
releases_url = codes "https://github.com/bianwoyali-design/RemCmd/releases"

abbrev pub max_metadata_bytes : ℕ
max_metadata_bytes = 1024 * 1024

abbrev pub max_package_bytes : ℕ
max_package_bytes = 512 * 1024 * 1024

pub data UpdateError : Type 0 where
  network : Text → UpdateError
  http : ℕ → UpdateError
  invalid_release unsafe_url missing_digest too_large integrity cancelled : UpdateError
  io : Text → UpdateError

pub data PackageKind : Type 0 where
  mac_arm mac_intel windows deb app_image : PackageKind

unfoldable pub for_platform : Text → Text → Bool → Bool → Option PackageKind
unfolding text_eq
for_platform os arch appimage debian =
    if text_eq os (codes "macos") && text_eq arch (codes "aarch64")
    then some mac_arm
    else if text_eq os (codes "macos") && text_eq arch (codes "x86_64")
    then some mac_intel
    else if text_eq os (codes "windows") && text_eq arch (codes "x86_64")
    then some windows
    else if text_eq os (codes "linux") && text_eq arch (codes "x86_64")
    then (if debian && not appimage then some deb else some app_image)
    else none

unfoldable pub suffix : PackageKind → Text
suffix mac_arm = codes "macos-aarch64.dmg"
suffix mac_intel = codes "macos-x86_64.dmg"
suffix windows = codes "windows-x86_64.msi"
suffix deb = codes "linux-x86_64.deb"
suffix app_image = codes "linux-x86_64.AppImage"

pub record Package : Type 0 where
  pub name : Text
  pub size : ℕ
  pub url : Text
  pub sha256 : Text

pub record Release : Type 0 where
  pub version : Text
  pub url : Text
  pub notes : Text
  pub update_package : Option Package

pub record ApiAsset : Type 0 where
  pub name : Text
  pub size : ℕ
  pub browser_download_url : Text
  pub digest : Option Text
  pub state : Text

pub record ApiRelease : Type 0 where
  pub tag_name : Text
  pub draft : Bool
  pub prerelease : Bool
  pub body : Option Text
  pub assets : List ApiAsset

-- `u8::is_ascii_hexdigit`.
abbrev pub is_ascii_hexdigit : ℕ → Bool
is_ascii_hexdigit b = within b'0' b'9' b || within b'a' b'f' b || within b'A' b'F' b

-- `hash.len() == 64 && hash.bytes().all(...)`: the characters of such a text are its bytes.
unfoldable pub is_hash : Text → Bool
is_hash hash = length hash == 64 && all is_ascii_hexdigit hash

abbrev pub filter_hash : Option Text → Option Text
filter_hash none = none
filter_hash (some hash) = if is_hash hash then some hash else none

-- The closure on the asset that is found.
unfoldable pub package_of : Text → ApiAsset → Result Package UpdateError
unfolding is_hash strip_prefix text_eq
package_of tag_name asset = do
  guard (not (asset.size == 0 || ltb max_package_bytes asset.size)) too_large
  let expected_url = releases_url ++ (codes "/download/" ++ (tag_name ++ (codes "/" ++ asset.name)))
  guard (text_eq asset.browser_download_url expected_url) unsafe_url
  digest ←
      ok_or (filter_hash (and_then asset.digest (strip_prefix (codes "sha256:")))) missing_digest
  ok (record { name = asset.name; size = asset.size; url = expected_url; sha256 = digest })

-- `Some(&asset.name) == name.as_ref() && asset.state == "uploaded"`.
abbrev pub is_wanted : Option Text → ApiAsset → Bool
is_wanted none asset = false
is_wanted (some name) asset = text_eq asset.name name && text_eq asset.state (codes "uploaded")

-- `map(..).transpose()`.
abbrev pub transpose : Option (Result Package UpdateError) → Result (Option Package) UpdateError
transpose none = ok none
transpose (some (ok found)) = ok (some found)
transpose (some (err e)) = err e

abbrev pub or_empty : Option Text → Text
or_empty none = []
or_empty (some text) = text

abbrev pub package_name : Text → PackageKind → Text
package_name version kind = codes "RemCmd-v" ++ (version ++ (codes "-" ++ suffix kind))

abbrev pub map_asset : Text → Option ApiAsset → Option (Result Package UpdateError)
map_asset tag_name none = none
map_asset tag_name (some asset) = some (package_of tag_name asset)

abbrev pub map_kind : Text → Option PackageKind → Option Text
map_kind version none = none
map_kind version (some kind) = some (package_name version kind)

module _ {Version : Type 0} (parse_version : Text → Option Version) (has_pre : Version → Bool)
    (is_newer : Version → Version → Bool) (to_string : Version → Text)
    (from_slice : Bytes → Option ApiRelease) where
  -- What is offered of a newer stable release.
  abbrev pub offer : ApiRelease → Version → Option PackageKind → Result (Option Release) UpdateError
  offer release version platform =
      let name = map_kind (to_string version) platform in
      transpose (map_asset release.tag_name (find (is_wanted name) release.assets)) >>= λ found.
      ok (
        some (record {
          version = to_string version;
          url = releases_url ++ (codes "/tag/" ++ release.tag_name);
          notes = take 4000 (or_empty release.body);
          update_package = found;
        }))

  -- Nothing is offered if the release is not stable or not newer.
  abbrev pub offer_if :
      Bool → ApiRelease → Version → Option PackageKind → Result (Option Release) UpdateError
  offer_if true release version platform = ok none
  offer_if false release version platform = offer release version platform

  unfoldable pub parse_release :
      Bytes → Text → Option PackageKind → Result (Option Release) UpdateError
  unfolding package_of strip_prefix suffix text_eq
  parse_release bytes current_text platform = do
    guard (not (ltb max_metadata_bytes (length bytes))) too_large
    release ← ok_or (from_slice bytes) invalid_release
    tag ← ok_or (strip_prefix (codes "v") release.tag_name) invalid_release
    version ← ok_or (parse_version tag) invalid_release
    current ← ok_or (parse_version current_text) invalid_release
    offer_if
        (release.draft || release.prerelease || has_pre version || not (is_newer version current))
        release version platform

  -- `url` is what the redirect of the public page ended at.
  unfoldable pub public_release_version : Text → Text → Result (Option Version) UpdateError
  unfolding text_eq strip_prefix
  public_release_version url current_text =
      if text_eq url releases_url || text_eq url (releases_url ++ codes "/") then ok none else (do
        tag ← ok_or (strip_prefix (releases_url ++ codes "/tag/v") url) unsafe_url
        version ← ok_or (parse_version tag) invalid_release
        current ← ok_or (parse_version current_text) invalid_release
        if has_pre version || not (is_newer version current) then ok none else ok (some version))

-- What the crate url tells of a redirect's target.
pub record Url : Type 0 where
  pub scheme : Text
  pub username : Text
  pub password : Option Text
  pub port : Option ℕ
  pub host_str : Option Text

abbrev pub is_trusted_host : Option Text → Bool
is_trusted_host none = false
is_trusted_host (some host) =
    text_eq host (codes "github.com")
    || text_eq host (codes "api.github.com")
    || text_eq host (codes "release-assets.githubusercontent.com")
    || text_eq host (codes "objects.githubusercontent.com")

abbrev pub is_https_port : Option ℕ → Bool
is_https_port none = true
is_https_port (some port) = port == 443

abbrev pub is_nil : Text → Bool
is_nil [] = true
is_nil (c ∷ s) = false

unfoldable pub trusted_redirect : Url → Bool
unfolding text_eq
trusted_redirect url =
    text_eq url.scheme (codes "https")
    && is_nil url.username
    && is_none url.password
    && is_https_port url.port
    && is_trusted_host url.host_str

-- The chunks of a response, each one or the error of the connection; `read_metadata`.
unfoldable pub read_chunks : Bytes → List (Result Bytes UpdateError) → Result Bytes UpdateError
read_chunks bytes [] = ok bytes
read_chunks bytes (err e ∷ chunks) = err e
read_chunks bytes (ok chunk ∷ chunks) =
    let rest = read_chunks (bytes ++ chunk) chunks in
    if ltb max_metadata_bytes (length bytes + length chunk) then err too_large else rest

abbrev pub is_success : ℕ → Bool
is_success status = within 200 299 status

unfoldable pub read_metadata : ℕ → List (Result Bytes UpdateError) → Result Bytes UpdateError
unfolding read_chunks
read_metadata status chunks = guard (is_success status) (http status) >> read_chunks [] chunks
