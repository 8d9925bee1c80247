-- ===== src/Ssh/Segments.antt =====
-- crates/remcmd-ssh/src/sftp.rs: the ranges of a file that a parallel download reads. Sizes are `u64`,
-- and `usize` has as many bits.
pub mod Tiling
use rem_cmd.Prelude.{
  ℕ, zero, suc, ◌+◌, ◌*◌, ◌/◌, ◌%◌, ◌^◌, min, max, Bool, not, List, [], ◌∷◌, if◌then◌else◌, ◌==◌,
  ltb,
}

abbrev pub download_pipeline_streams : ℕ
download_pipeline_streams = 4

abbrev pub min_download_segment_bytes : ℕ
min_download_segment_bytes = 1024 * 1024

abbrev pub div_ceil : ℕ → ℕ → ℕ
div_ceil n d = n / d + (if n % d == 0 then 0 else 1)

abbrev pub stream_count : ℕ → ℕ
stream_count total =
    min (max (div_ceil total min_download_segment_bytes) 1) download_pipeline_streams

abbrev pub Range : Type 0
Range = ℕ × ℕ

-- The `map` and `filter` on so many indices from `index` on.
unfoldable pub ranges_from : ℕ → ℕ → ℕ → ℕ → List Range
ranges_from zero index segment_size total = []
ranges_from (suc n) index segment_size total =
    let start = index * segment_size % 2 ^ 64 in
    let end = min ((start + segment_size) % 2 ^ 64) total in
    let later = ranges_from n (index + 1) segment_size total in
    if ltb start end then (start, end) ∷ later else later

unfoldable pub download_segment_ranges : ℕ → List Range
unfolding ranges_from
download_segment_ranges total =
    if total == 0
    then []
    else let count = stream_count total in ranges_from count 0 (div_ceil total count) total
