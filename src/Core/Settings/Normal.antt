-- ===== src/Core/Settings/Normal.antt =====
-- What the normal form of the settings guarantees, and when an update check is due.
use rem_cmd.Prelude.{
  ℕ, ◌+◌, ◌^◌, ◌≤◌, ◌<◌, true, false, Option, none, some, ◌≡◌, ◌≢◌, refl, ◌⊎◌, ◌↔◌, inl, inr, arith,
  is_empty, Bool-cases, Option-cases,
}
use rem_cmd.Prelude.Text.{Text, trim, trim_idem}
use rem_cmd.Core.Settings.{
  UpdateSettings, automatic_check_due, TransferSettings, normalized_transfer, bytes_per_second,
  TerminalSettings, normalized_terminal, normalized_family, max_parallel, max_transfer_rate,
}

-- With automatic checks on and a check recorded, the next one is due exactly outside of the day
-- that follows the record: from its end on, and whenever the clock is before the record.
pub check_due_iff :
    (s : UpdateSettings) (now : ℕ)
    → s.automatic ≡ true
    → s.last_check_unix ≢ 0
    → (automatic_check_due s now ≡ true)
      ↔ ((now < s.last_check_unix) ⊎ (s.last_check_unix + 86400 ≤ now))
unfolding automatic_check_due
check_due_iff s now on seen = (λ h. grind arith, λ h. ground arith)

-- Transfer settings as the program uses them.
pub record IsNormalTransfer (s : TransferSettings) : Type 0 where
  pub rate : s.rate_limit_mib_per_second ≤ max_transfer_rate
  pub some_transfer : 1 ≤ s.max_parallel_transfers
  pub parallel : s.max_parallel_transfers ≤ max_parallel
  pub stable : normalized_transfer s ≡ s
  pub no_overflow :
      (bytes_per_second s ≡ none) ⊎ ((b : ℕ) × (bytes_per_second s ≡ some b) × (b < 2 ^ 64))

-- Normalized transfer settings are in range, a second normalization changes nothing, and their
-- rate in bytes, if there is one, is below 2^64.
pub transfer-IsNormal : (s : TransferSettings) → IsNormalTransfer (normalized_transfer s)
unfolding normalized_transfer bytes_per_second
transfer-IsNormal s = record {
  rate = omega arith;
  some_transfer = ground arith;
  parallel = ground arith;
  stable = ground arith;
  no_overflow = elim (Option-cases (bytes_per_second (normalized_transfer s))) [
    | inl unlimited ↦ inl unlimited
    | inr (b, limited) ↦ inr (b, limited, ground arith)
  ];
}

normalized_family_idem :
    (f : Option Text) → normalized_family (normalized_family f) ≡ normalized_family f
normalized_family_idem none = refl
normalized_family_idem (some family) = elim (Bool-cases (is_empty (trim family))) [
  | inl blank ↦ rw blank
  | inr full ↦ rw full (rw (trim_idem family) (rw full))
]

-- Terminal settings as the program uses them.
pub record IsNormalTerminal (s : TerminalSettings) : Type 0 where
  pub at_least : 8 ≤ s.font_size
  pub at_most : s.font_size ≤ 32
  pub trimmed :
      (s.font_family ≡ none)
      ⊎ ((f : Text) × (s.font_family ≡ some f) × (trim f ≡ f) × (is_empty f ≡ false))
  pub stable : normalized_terminal s ≡ s

family_trimmed :
    (g : Option Text) (f : Text)
    → normalized_family g ≡ some f
    → (trim f ≡ f) × (is_empty f ≡ false)
family_trimmed none f h = cc
family_trimmed (some family) f h = ground (arith, trim_idem family)

-- Normalized terminal settings have a font size in range, no family or one that is trimmed and not
-- empty, and a second normalization changes nothing.
pub terminal-IsNormal : (s : TerminalSettings) → IsNormalTerminal (normalized_terminal s)
unfolding normalized_terminal
terminal-IsNormal s = record {
  at_least = ground arith;
  at_most = ground arith;
  trimmed = elim (Option-cases (normalized_family s.font_family)) [
    | inl default ↦ inl default
    | inr (f, set) ↦
        let (clean, full) = family_trimmed s.font_family f set in inr (f, set, clean, full)
  ];
  stable = ground (arith, normalized_family_idem s.font_family);
}
