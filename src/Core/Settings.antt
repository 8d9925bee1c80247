-- ===== src/Core/Settings.antt =====
-- crates/remcmd-core/src/lib.rs: update, transfer and terminal settings. Machine integers are their
-- numbers; `saturating_sub` is the truncated subtraction.
pub mod Normal
use rem_cmd.Prelude.{
  ℕ, ◌+◌, ◌-◌, ◌*◌, min, max, Bool, true, false, not, ◌&&◌, ◌||◌, Option, none, some, if◌then◌else◌,
  ltb, leb, ◌==◌, is_empty,
}
use rem_cmd.Prelude.Text.{Text, trim}

pub record UpdateSettings : Type 0 where
  pub automatic : Bool
  pub last_check_unix : ℕ

abbrev pub default_update : UpdateSettings
default_update = record { automatic = true; last_check_unix = 0 }

unfoldable pub automatic_check_due : UpdateSettings → ℕ → Bool
automatic_check_due s now =
    s.automatic
    && (s.last_check_unix == 0
        || ltb now s.last_check_unix
        || leb (24 * 60 * 60) (now - s.last_check_unix))

abbrev pub default_max_parallel_transfers : ℕ
default_max_parallel_transfers = 4

abbrev pub max_parallel : ℕ
max_parallel = 8

abbrev pub max_transfer_rate : ℕ
max_transfer_rate = 10000

abbrev pub default_terminal_font_size : ℕ
default_terminal_font_size = 14

abbrev pub min_terminal_font_size : ℕ
min_terminal_font_size = 8

abbrev pub max_terminal_font_size : ℕ
max_terminal_font_size = 32

-- `Ord::clamp`.
abbrev pub clamp : ℕ → ℕ → ℕ → ℕ
clamp x lo hi = if ltb x lo then lo else if ltb hi x then hi else x

pub record TransferSettings : Type 0 where
  pub rate_limit_mib_per_second : ℕ
  pub max_parallel_transfers : ℕ

abbrev pub default_transfer : TransferSettings
default_transfer = record {
  rate_limit_mib_per_second = 0;
  max_parallel_transfers = default_max_parallel_transfers;
}

unfoldable pub normalized_transfer : TransferSettings → TransferSettings
normalized_transfer s = record {
  rate_limit_mib_per_second = min s.rate_limit_mib_per_second max_transfer_rate;
  max_parallel_transfers = clamp s.max_parallel_transfers 1 max_parallel;
}

-- The product of the code, in `u64`.
unfoldable pub bytes_per_second : TransferSettings → Option ℕ
bytes_per_second s =
    if ltb 0 s.rate_limit_mib_per_second
    then some (s.rate_limit_mib_per_second * 1024 * 1024)
    else none

pub record TerminalSettings : Type 0 where
  pub font_family : Option Text
  pub font_size : ℕ

abbrev pub default_terminal : TerminalSettings
default_terminal = record { font_family = none; font_size = default_terminal_font_size }

-- `map(trim)` and the `filter` behind it.
abbrev pub normalized_family : Option Text → Option Text
normalized_family none = none
normalized_family (some family) =
    let trimmed = trim family in if not (is_empty trimmed) then some trimmed else none

unfoldable pub normalized_terminal : TerminalSettings → TerminalSettings
normalized_terminal s = record {
  font_family = normalized_family s.font_family;
  font_size = clamp s.font_size min_terminal_font_size max_terminal_font_size;
}
