-- ===== src/Core/Pty.antt =====
-- crates/remcmd-core/src/pty.rs: `PtySize`, in `u32` numbers.
use rem_cmd.Prelude.{ℕ}

pub record PtySize : Type 0 where
  pub columns : ℕ
  pub rows : ℕ
  pub pixel_width : ℕ
  pub pixel_height : ℕ

abbrev pub new_size : ℕ → ℕ → PtySize
new_size columns rows = record { columns = columns; rows = rows; pixel_width = 0; pixel_height = 0 }

unfoldable pub with_pixels : PtySize → ℕ → ℕ → PtySize
with_pixels s width height = record s { pixel_width = width; pixel_height = height }

abbrev pub default_size : PtySize
default_size = new_size 80 24
