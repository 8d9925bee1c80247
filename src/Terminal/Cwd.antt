-- ===== src/Terminal/Cwd.antt =====
-- crates/remcmd-terminal/src/cwd.rs: the parser that finds OSC 7 reports of the working directory in
-- the terminal's output. A `&str` is its UTF-8 bytes here.
pub mod Path
pub mod Chunks
pub mod Report
pub mod Swallowed
use rem_cmd.Prelude.{
  ℕ, suc, ◌+◌, ◌-◌, ◌*◌, Bool, true, false, not, ◌&&◌, ◌||◌, Option, none, some, List, [], ◌∷◌,
  ◌++◌, ltb, ◌==◌, within, if◌then◌else◌, length, and_then, is_some, is_none, is_empty, any,
}
use rem_cmd.Prelude.Text.{codes, strip_prefix, starts_with}
use rem_cmd.Prelude.Utf8.{Bytes, decode}

abbrev pub max_osc_payload_bytes : ℕ
max_osc_payload_bytes = 4096

pub data ParserState : Type 0 where
  ground_state escape osc osc_escape : ParserState

pub record Osc7Parser : Type 0 where
  pub state : ParserState
  pub payload : Bytes
  pub overflowed : Bool

abbrev pub default_parser : Osc7Parser
default_parser = record { state = ground_state; payload = []; overflowed = false }

pub record Osc7Event : Type 0 where
  pub end_offset : ℕ
  pub path : Bytes

unfoldable pub hex_value : ℕ → Option ℕ
hex_value byte =
    if within b'0' b'9' byte
    then some (byte - b'0')
    else if within b'a' b'f' byte
    then some (byte - b'a' + 10)
    else if within b'A' b'F' byte
    then some (byte - b'A' + 10)
    else none

abbrev pub push_front : ℕ → Option Bytes → Option Bytes
push_front b none = none
push_front b (some bs) = some (b ∷ bs)

-- `hex_value(high)? << 4 | hex_value(low)?`, in front of what the rest decodes to.
abbrev pub push_hex : Option ℕ → Option ℕ → Option Bytes → Option Bytes
push_hex none low rest = none
push_hex (some h) none rest = none
push_hex (some h) (some l) rest = push_front (h * 16 + l) rest

-- The loop on `index`, as a recursion on what is left of the input.
unfoldable pub percent_decode : Bytes → Option Bytes
unfolding hex_value
percent_decode [] = some []
percent_decode (b ∷ []) = if b == b'%' then none else some (b ∷ [])
percent_decode (b ∷ c ∷ []) =
    let plain = push_front b (percent_decode (c ∷ [])) in if b == b'%' then none else plain
percent_decode (b ∷ high ∷ low ∷ rest) =
    let decoded = push_hex (hex_value high) (hex_value low) (percent_decode rest) in
    let plain = push_front b (percent_decode (high ∷ low ∷ rest)) in
    if b == b'%' then decoded else plain

-- `&location[location.find('/')?..]`.
unfoldable pub from_slash : Bytes → Option Bytes
from_slash [] = none
from_slash (b ∷ bs) = if b == b'/' then some (b ∷ bs) else from_slash bs

-- `char::is_control`.
abbrev pub is_control : ℕ → Bool
is_control c = ltb c 0x20 || within 0x7f 0x9f c

-- `strip_prefix("file://").or_else(...)`.
abbrev pub strip_scheme : Bytes → Option Bytes
strip_scheme payload = elim (strip_prefix (codes "file://") payload) [
  | none ↦ strip_prefix (codes "kitty-shell-cwd://") payload
  | some location ↦ some location
]

-- `String::from_utf8` and the last test.
unfoldable pub check_path : Bytes → Option Bytes
unfolding decode
check_path path = elim (decode path) [
  | none ↦ none
  | some chars ↦
      if not (is_empty path) && starts_with b'/' path && not (any is_control chars)
      then some path
      else none
]

-- The path behind the scheme: what follows the host, decoded and checked.
unfoldable pub location_path : Bytes → Option Bytes
unfolding from_slash percent_decode check_path
location_path location =
    and_then (from_slash location) λ encoded. and_then (percent_decode encoded) check_path

unfoldable pub parse_osc7_path : Bytes → Option Bytes
unfolding decode strip_prefix location_path
parse_osc7_path payload =
    if is_none (decode payload)
    then none
    else and_then (strip_prefix (codes "7;") payload)
        λ report. and_then (strip_scheme report) location_path

abbrev pub start_osc : Osc7Parser → Osc7Parser
start_osc p = record p { payload = []; overflowed = false; state = osc }

unfoldable pub push_payload : Osc7Parser → ℕ → Osc7Parser
push_payload p byte =
    if ltb (length p.payload) max_osc_payload_bytes
    then record p { payload = p.payload ++ byte ∷ [] }
    else record p { overflowed = true }

-- The event that `finish_osc` pushes, if any.
unfoldable pub finished_event : Osc7Parser → ℕ → List Osc7Event
finished_event p end_offset = if p.overflowed then [] else elim (parse_osc7_path p.payload) [
  | none ↦ []
  | some path ↦ record { end_offset = end_offset; path = path } ∷ []
]

abbrev pub finish_osc : Osc7Parser → ℕ → Osc7Parser × List Osc7Event
finish_osc p end_offset = (
  record p { payload = []; overflowed = false; state = ground_state },
  finished_event p end_offset,
)

-- One round of the loop, by the state before it: the parser, and the events pushed.
unfoldable pub step_in : ParserState → Osc7Parser → ℕ → ℕ → Osc7Parser × List Osc7Event
unfolding push_payload
step_in ground_state p offset byte = (
  if byte == 0x1b then record p { state = escape } else if byte == 0x9d then start_osc p else p,
  [],
)
step_in escape p offset byte = (
  if byte == b']'
      then start_osc p
      else if byte == 0x1b
      then p
      else record p { state = ground_state },
  [],
)
step_in osc p offset byte =
    if byte == 0x07 || byte == 0x9c
    then finish_osc p (offset + 1)
    else if byte == 0x1b
    then (record p { state = osc_escape }, [])
    else (push_payload p byte, [])
step_in osc_escape p offset byte =
    if byte == b'\\'
    then finish_osc p (offset + 1)
    else (record (push_payload (push_payload p 0x1b) byte) { state = osc }, [])

unfoldable pub advance_from : ℕ → Osc7Parser → Bytes → Osc7Parser × List Osc7Event
unfolding step_in
advance_from offset p [] = (p, [])
advance_from offset p (byte ∷ bytes) =
    let (q, first) = step_in p.state p offset byte in
    let (r, later) = advance_from (suc offset) q bytes in (r, first ++ later)

unfoldable pub advance : Osc7Parser → Bytes → Osc7Parser × List Osc7Event
unfolding advance_from
advance = advance_from 0
