-- ===== src/Update/Download.antt =====
-- crates/remcmd-update/src/lib.rs: `receive_package` and `verify`. The digest of the crate sha2, as
-- hexadecimal text, is a parameter; what is hashed in pieces is hashed as the whole. The file system is
-- given by the errors that its calls return, and what stands at the path of the package is the result.
pub mod Verified
pub mod Complete
use rem_cmd.Prelude.{
  ℕ, suc, ◌+◌, Bool, true, false, not, ◌&&◌, ◌||◌, Option, none, some, is_some, List, [], ◌∷◌, ◌++◌,
  Result, ok, err, ◌>>=◌, ◌>>◌, guard, if◌then◌else◌, ◌==◌, ltb, within, all, any, length, map,
}
use rem_cmd.Prelude.Text.{Text, codes, text_eq, strip_prefix}
use rem_cmd.Prelude.Utf8.{Bytes}
use rem_cmd.Ssh.LocalPath.{Host, path_join}
use rem_cmd.Update.{
  UpdateError, http, integrity, too_large, invalid_release, io, Package, max_package_bytes,
  is_success,
}
use rem_cmd.Update.Manifest.{to_lower}

-- What `reqwest` gives: the status, the length that the server announces, and the chunks, the last one
-- of which may be an error.
pub record Response : Type 0 where
  pub status : ℕ
  pub content_length : Option ℕ
  pub chunks : List (Result Bytes UpdateError)

-- The errors of the calls on files, `none` for none; writes are counted, and `new_in` stands for the new
-- temporary file and its second handle.
pub record Disk : Type 0 where
  pub create_dir_all : Option Text
  pub new_in : Option Text
  pub write_all : ℕ → Option Text
  pub flush : Option Text
  pub sync_all : Option Text
  pub persist : Option Text

-- `?` on such a call.
abbrev pub io_result : Option Text → Result (Unit {0}) UpdateError
io_result none = ok tt
io_result (some e) = err (io e)

-- `eq_ignore_ascii_case`.
unfoldable pub eq_ignore_ascii_case : Text → Text → Bool
unfolding text_eq
eq_ignore_ascii_case a b = text_eq (map to_lower a) (map to_lower b)

abbrev pub differs : Option ℕ → ℕ → Bool
differs none size = false
differs (some announced) size = not (announced == size)

-- The `while let` loop: the bytes written so far, the number of writes, and the chunks left. A byte
-- string in memory has fewer than 2^63 bytes, so `received` does not overflow before the test.
unfoldable pub receive_chunks :
    Package → Disk → Bytes → ℕ → List (Result Bytes UpdateError) → Result Bytes UpdateError
receive_chunks p disk written count [] = ok written
receive_chunks p disk written count (err e ∷ chunks) = err e
receive_chunks p disk written count (ok chunk ∷ chunks) =
    let received = length written + length chunk in
    guard (not (ltb p.size received || ltb max_package_bytes received)) too_large
    >> (io_result (disk.write_all count)
        >> receive_chunks p disk (written ++ chunk) (suc count) chunks)

abbrev pub is_name_byte : ℕ → Bool
is_name_byte b =
    within b'0' b'9' b
    || within b'a' b'z' b
    || within b'A' b'Z' b
    || any (λ c. c == b) (codes "._+-")

-- The loop of `verify` on what each `read` returned, until it returns nothing; an error of a call on
-- the file is passed on and is left out here.
unfoldable pub read_file : Package → Bytes → List Bytes → Result Bytes UpdateError
read_file p contents [] = ok contents
read_file p contents ([] ∷ reads) = ok contents
read_file p contents ((b ∷ bytes) ∷ reads) =
    guard (not (ltb p.size (length contents + length (b ∷ bytes)))) integrity
    >> read_file p (contents ++ b ∷ bytes) reads

-- `starts_with("RemCmd-")`.
abbrev pub starts_with_name : Text → Bool
starts_with_name name = is_some (strip_prefix (codes "RemCmd-") name)

module _ (sha256 : Bytes → Text) where
  -- The path, and the contents that are left there; the progress reports are left out.
  unfoldable pub receive_package :
      Host → Package → Text → Disk → Response → Result (Text × Bytes) UpdateError
  unfolding receive_chunks eq_ignore_ascii_case path_join
  receive_package host p directory disk response = do
    guard (is_success response.status) (http response.status)
    guard (not (differs response.content_length p.size)) integrity
    io_result disk.create_dir_all
    io_result disk.new_in
    written ← receive_chunks p disk [] 0 response.chunks
    guard
        (not
          (not (length written == p.size) || not (eq_ignore_ascii_case (sha256 written) p.sha256)))
        integrity
    io_result disk.flush
    io_result disk.sync_all
    io_result disk.persist
    ok (path_join host directory p.name, written)

  -- The guard of `download_inner` on what it is asked to fetch.
  unfoldable pub download_inner :
      Host → Package → Text → Disk → Response → Result (Text × Bytes) UpdateError
  unfolding receive_package strip_prefix
  download_inner host p directory disk response =
      guard
        (not (
          p.size == 0
          || ltb max_package_bytes p.size
          || not (all is_name_byte p.name)
          || not (starts_with_name p.name)))
        invalid_release
      >> receive_package host p directory disk response

  unfoldable pub verify : Package → ℕ → List Bytes → Result (Unit {0}) UpdateError
  unfolding read_file eq_ignore_ascii_case
  verify p len reads = do
    guard (len == p.size) integrity
    contents ← read_file p [] reads
    guard
        (not (
          not (length contents == p.size) || not (eq_ignore_ascii_case (sha256 contents) p.sha256)))
        integrity
