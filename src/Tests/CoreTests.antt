-- ===== src/Tests/CoreTests.antt =====
-- Settings at concrete values.
use rem_cmd.Prelude.{true, some}
use rem_cmd.Prelude.Text.{codes}
use rem_cmd.Core.Settings.{UpdateSettings, TransferSettings, TerminalSettings}

abbrev checked_at_thousand : UpdateSettings
checked_at_thousand = record { automatic = true; last_check_unix = 1000 }

abbrev far_too_much : TransferSettings
far_too_much = record { rate_limit_mib_per_second = 5000000; max_parallel_transfers = 0 }

abbrev huge_font : TerminalSettings
huge_font = record { font_family = some (codes "  Menlo "); font_size = 200 }
