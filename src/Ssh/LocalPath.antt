-- ===== src/Ssh/LocalPath.antt =====
-- `std::path::Path` on the hosts that the program is built for, where remote_path.rs and
-- transfer/plan.rs use it: `join` and `parent`. A local path is its text. On a Windows host a path
-- that begins with `\\?\` is left out: `join` normalises it. So is what the system itself
-- makes of a name such as "NUL" or of spaces and dots at the end of one.
use rem_cmd.Prelude.{
  ℕ, Bool, false, not, ◌&&◌, ◌||◌, Option, none, some, [], ◌∷◌, ◌++◌, if◌then◌else◌, ◌==◌, ◌+◌,
  length, take, drop, is_empty, map, within,
}
use rem_cmd.Prelude.Text.{Text, rfind, trim_end_matches}

pub data Host : Type 0 where
  unix windows : Host

abbrev pub is_separator : Host → ℕ → Bool
is_separator unix c = c == b'/'
is_separator windows c = c == b'/' || c == b'\\'

-- `MAIN_SEPARATOR`.
abbrev pub separator : Host → ℕ
separator unix = b'/'
separator windows = b'\\'

-- A letter and a colon.
abbrev is_letter : ℕ → Bool
is_letter c = within b'A' b'Z' c || within b'a' b'z' c

unfoldable pub starts_with_drive : Text → Bool
starts_with_drive (letter ∷ (colon ∷ _)) = is_letter letter && colon == b':'
starts_with_drive _ = false

unfoldable component_length : Text → ℕ
component_length [] = 0
component_length (c ∷ s) =
    let rest = component_length s in if is_separator windows c then 0 else 1 + rest

-- Behind two separators: the name of a device behind a dot, or a server and a share.
unfoldable share_length : Text → ℕ
unfolding component_length
share_length s =
    let server = component_length s in
    let share = component_length (drop (1 + server) s) in
    if server == 0 || share == 0 then 0 else 2 + (server + (1 + share))

unfoldable network_length : Text → ℕ
unfolding component_length share_length
network_length (dot ∷ (c ∷ s)) =
    if dot == b'.' && is_separator windows c
    then 4 + component_length s
    else share_length (dot ∷ (c ∷ s))
network_length s = share_length s

-- How long the prefix is, such as a drive or a network share.
unfoldable pub prefix_length : Text → ℕ
unfolding starts_with_drive network_length
prefix_length [] = 0
prefix_length (first ∷ []) = 0
prefix_length (first ∷ (second ∷ s)) =
    if is_separator windows first && is_separator windows second
    then network_length s
    else if starts_with_drive (first ∷ (second ∷ s))
    then 2
    else 0

unfoldable pub ends_in_separator : Host → Text → Bool
ends_in_separator host [] = false
ends_in_separator host (x ∷ []) = is_separator host x
ends_in_separator host (x ∷ (y ∷ s)) = ends_in_separator host (y ∷ s)

-- No separator goes behind the path: it is empty, ends in one, or is a drive alone.
unfoldable pub is_ended : Host → Text → Bool
unfolding ends_in_separator starts_with_drive
is_ended unix path = is_empty path || ends_in_separator unix path
is_ended windows path =
    is_empty path || ends_in_separator windows path || starts_with_drive path && length path == 2

unfoldable pub starts_in_separator : Host → Text → Bool
starts_in_separator host [] = false
starts_in_separator host (c ∷ s) = is_separator host c

-- The pure relative path of `PathBuf::push`.
abbrev pub append_component : Host → Text → Text → Text
append_component host path component =
    if is_ended host path then path ++ component else path ++ separator host ∷ component

-- `Path::join`: an absolute path takes the place of the path, on Windows one with a prefix too, and
-- one that only begins with a separator leaves the prefix.
unfoldable pub path_join : Host → Text → Text → Text
unfolding is_ended prefix_length starts_in_separator
path_join unix path component =
    if starts_in_separator unix component then component else append_component unix path component
path_join windows path component =
    if not (prefix_length component == 0)
    then component
    else if starts_in_separator windows component
    then take (prefix_length path) path ++ component
    else append_component windows path component

-- The path with one kind of separator.
unfoldable unified : Host → Text → Text
unified unix path = path
unified windows path = map (λ c. if c == b'\\' then b'/' else c) path

-- The separators in front of a path are its root.
abbrev or_root : Text → Text → Text
or_root full path = if is_empty path then take 1 full else path

abbrev parent_before : Host → Text → Text → Option ℕ → Text
parent_before host full path none = []
parent_before host full path (some i) =
    or_root full (trim_end_matches (is_separator host) (take i path))

-- Without the prefix.
unfoldable relative_parent : Host → Text → Option Text
unfolding trim_end_matches rfind unified
relative_parent host full =
    let path = trim_end_matches (is_separator host) full in
    if is_empty path
    then none
    else some (parent_before host full path (rfind b'/' (unified host path)))

abbrev behind : Text → Option Text → Option Text
behind prefix none = none
behind prefix (some path) = some (prefix ++ path)

-- `Path::parent` of a path whose last component is not ".".
unfoldable pub local_parent : Host → Text → Option Text
unfolding relative_parent prefix_length
local_parent unix path = relative_parent unix path
local_parent windows path =
    let n = prefix_length path in behind (take n path) (relative_parent windows (drop n path))
