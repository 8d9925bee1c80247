-- ===== src/Ssh/Performance/Consistent.antt =====
-- What a snapshot that was parsed satisfies.
use rem_cmd.Prelude.{
  ℕ, ◌+◌, ◌-◌, ◌*◌, ◌^◌, ◌≤◌, ◌<◌, max, Bool, true, false, not, ◌&&◌, Option, none, some, List, [],
  ◌∷◌, ◌≡◌, refl, arith, All, any, leb, ltb, ◌==◌, if◌then◌else◌, within, Result, ok, ◌>>=◌,
  >>=-eq-ok, guard-eq-ok, ok_or, and_then, Bool-cases, Option-cases, inl, inr,
}
use rem_cmd.Prelude.Text.{Text, codes, parse_digits, parse_nonempty, parse_unsigned, lines}
use rem_cmd.Prelude.Utf8.{Bytes, decode}
use rem_cmd.Ssh.Error.{SshError}
use rem_cmd.Ssh.Performance.{
  LogicalCpuSnapshot, ServerPerformanceSnapshot, Counters, performance_field_error, parse_number,
  optional_u64, value_of, insert_cpu, sort_cpus, has_duplicates, parse_counters, is_invalid,
  Remaining, parse_remaining, snapshot_with, parse_lines, parse_snapshot, max_u64, max_u32,
  logical_cpus_in,
}

-- The ids of the processors grow from one to the next.
abbrev pub is_increasing : List LogicalCpuSnapshot → Bool
is_increasing [] = true
is_increasing (x ∷ []) = true
is_increasing (x ∷ (y ∷ ys)) = ltb x.id y.id && is_increasing (y ∷ ys)

-- Up to equal ones.
abbrev is_sorted : List LogicalCpuSnapshot → Bool
is_sorted [] = true
is_sorted (x ∷ []) = true
is_sorted (x ∷ (y ∷ ys)) = leb x.id y.id && is_sorted (y ∷ ys)

abbrev pub IsPlausible : LogicalCpuSnapshot → Type 0
IsPlausible cpu = cpu.idle ≤ cpu.total

pub record IsConsistent (s : ServerPerformanceSnapshot) : Type 0 where
  pub idle : s.cpu_idle ≤ s.cpu_total
  pub iowait : s.cpu_iowait ≤ s.cpu_total
  pub memory : s.memory_available_bytes ≤ s.memory_total_bytes
  pub swap : s.swap_free_bytes ≤ s.swap_total_bytes
  pub processes : s.processes_running ≤ s.processes_total
  pub cores : All IsPlausible s.logical_cpus
  pub ordered : is_increasing s.logical_cpus ≡ true
  pub counted : 1 ≤ s.cpu_count
  pub narrow : s.cpu_count < 2 ^ 32

parse_digits-le :
    (most acc : ℕ) (s : Text) {n : ℕ} → acc ≤ most → parse_digits most acc s ≡ some n → n ≤ most
unfolding parse_digits
parse_digits-le most acc [] {n} h e = ground arith
parse_digits-le most acc (c ∷ s) {n} h e =
    elim (Bool-cases (within b'0' b'9' c && leb (acc * 10 + (c - b'0')) most)) [
      | inl fits ↦ parse_digits-le most (acc * 10 + (c - b'0')) s (ground arith) (ground arith)
      | inr bad ↦ absurd (ground arith)
    ]

parse_nonempty-le : (most : ℕ) (s : Text) {n : ℕ} → parse_nonempty most s ≡ some n → n ≤ most
parse_nonempty-le most [] h = cc
parse_nonempty-le most (c ∷ s) h = parse_digits-le most 0 (c ∷ s) (omega arith) h

parse_unsigned-le : (most : ℕ) (s : Text) {n : ℕ} → parse_unsigned most s ≡ some n → n ≤ most
unfolding parse_unsigned
parse_unsigned-le most [] h = cc
parse_unsigned-le most (c ∷ s) h = parse_nonempty-le most (if c == b'+' then s else c ∷ s) h

parse_number-le :
    (most : ℕ) (output : List Text) (key : Text) (n : ℕ)
    → parse_number most output key ≡ ok n
    → n ≤ most
unfolding parse_number
parse_number-le most output key n h = number (value_of output key) h
  where
    number :
        (o : Option Text) {n : ℕ}
        → ok_or (and_then o (parse_unsigned most)) (performance_field_error key) ≡ ok n
        → n ≤ most
    number none h = cc
    number (some value) {n} h = parse_unsigned-le most value {n = n} (ground arith)

insert-is_increasing :
    (x : LogicalCpuSnapshot) (ys : List LogicalCpuSnapshot)
    → is_sorted ys ≡ true
    → is_sorted (insert_cpu x ys) ≡ true
unfolding insert_cpu
insert-is_increasing x [] h = refl
insert-is_increasing x (y ∷ []) h = ground arith
insert-is_increasing x (y ∷ (z ∷ ys)) h = ground (arith, insert-is_increasing x (z ∷ ys))

sort-is_sorted : (xs : List LogicalCpuSnapshot) → is_sorted (sort_cpus xs) ≡ true
unfolding sort_cpus
sort-is_sorted [] = refl
sort-is_sorted (x ∷ xs) = insert-is_increasing x (sort_cpus xs) (sort-is_sorted xs)

-- Sorted ids of which no two neighbours are equal grow.
increasing_of :
    (xs : List LogicalCpuSnapshot)
    → is_sorted xs ≡ true
    → has_duplicates xs ≡ false
    → is_increasing xs ≡ true
unfolding has_duplicates
increasing_of [] s d = refl
increasing_of (x ∷ []) s d = refl
increasing_of (x ∷ (y ∷ ys)) s d = ground (arith, increasing_of (y ∷ ys))

IsPlausible-of :
    (xs : List LogicalCpuSnapshot)
    → any (λ cpu. ltb cpu.total cpu.idle) xs ≡ false
    → All IsPlausible xs
IsPlausible-of [] h = tt
IsPlausible-of (x ∷ xs) h = (ground arith, IsPlausible-of xs (ground arith))

abbrev IsCounted : Remaining → Type 0
IsCounted r = (1 ≤ r.cpu_count) × (r.cpu_count < 2 ^ 32)

parse_remaining-IsCounted :
    (output : List Text) (r : Remaining) → parse_remaining output ≡ ok r → IsCounted r
unfolding parse_remaining
parse_remaining-IsCounted output r h =
    let (count, h1, read) = >>=-eq-ok (parse_number max_u32 output (codes "cpu_count")) _ h in
    let bound = parse_number-le max_u32 output (codes "cpu_count") count read in
    let e : r.cpu_count ≡ max count 1 =
      rest count (parse_number max_u32 output (codes "load_one_milli"))
        (parse_number max_u32 output (codes "load_five_milli"))
        (parse_number max_u32 output (codes "load_fifteen_milli"))
        (parse_number max_u64 output (codes "network_rx_bytes"))
        (parse_number max_u64 output (codes "network_tx_bytes"))
        (optional_u64 output (codes "disk_read_bytes"))
        (optional_u64 output (codes "disk_write_bytes"))
        (optional_u64 output (codes "disk_total_bytes"))
        (optional_u64 output (codes "disk_available_bytes"))
        (parse_number max_u64 output (codes "uptime_seconds")) h1 in
    (ground arith, ground arith)
  where
    rest :
        (count : ℕ) (a b c d e : Result ℕ SshError) (f g k l : Result (Option ℕ) SshError)
        (m : Result ℕ SshError)
        → (do
          load_one_milli ← a
          load_five_milli ← b
          load_fifteen_milli ← c
          network_rx_bytes ← d
          network_tx_bytes ← e
          disk_read_bytes ← f
          disk_write_bytes ← g
          disk_total_bytes ← k
          disk_available_bytes ← l
          uptime_seconds ← m
          ok (record {
            cpu_count = max count 1;
            load_one_milli = load_one_milli;
            load_five_milli = load_five_milli;
            load_fifteen_milli = load_fifteen_milli;
            network_rx_bytes = network_rx_bytes;
            network_tx_bytes = network_tx_bytes;
            disk_read_bytes = disk_read_bytes;
            disk_write_bytes = disk_write_bytes;
            disk_total_bytes = disk_total_bytes;
            disk_available_bytes = disk_available_bytes;
            uptime_seconds = uptime_seconds;
          }))
          ≡ ok r
        → r.cpu_count ≡ max count 1
    rest count a b c d e f g k l m h = ground arith

finish-IsConsistent :
    (output : List Text) (cpus : List LogicalCpuSnapshot) (c : Counters) (r : Remaining)
    → has_duplicates cpus ≡ false
    → is_sorted cpus ≡ true
    → is_invalid c cpus ≡ false
    → IsCounted r
    → IsConsistent (snapshot_with output c cpus r)
unfolding is_invalid
finish-IsConsistent output cpus c r d o v (low, high) = record {
  idle = ground arith;
  iowait = ground arith;
  memory = ground arith;
  swap = ground arith;
  processes = ground arith;
  cores = IsPlausible-of cpus (ground arith);
  ordered = increasing_of cpus o d;
  counted = low;
  narrow = high;
}

parse_lines-IsConsistent :
    (output : List Text) (s : ServerPerformanceSnapshot)
    → parse_lines output ≡ ok s
    → IsConsistent s
parse_lines-IsConsistent output s h =
    let (unsorted, h1, _) = >>=-eq-ok (logical_cpus_in output) _ h in
    let cpus = sort_cpus unsorted in
    let (d, h2) = guard-eq-ok (not (has_duplicates cpus)) _ h1 in
    let (c, h3, _) = >>=-eq-ok (parse_counters output) _ h2 in
    let (v, h4) = guard-eq-ok (not (is_invalid c cpus)) _ h3 in
    let (r, h5, re) = >>=-eq-ok (parse_remaining output) _ h4 in
    let same : snapshot_with output c cpus r ≡ s = ground arith in
    rw (← same) (
      finish-IsConsistent output cpus c r (ground arith) (sort-is_sorted unsorted) (ground arith)
        (parse_remaining-IsCounted output r re))

-- In a snapshot that is parsed, the idle and the waiting time of the processors are at most their
-- total time, the memory that is available and the swap space that is free are at most their totals,
-- and at most all processes run; the idle time of each processor is at most its total; the processors
-- have different ids and stand in the order of these; and their count is at least one and below 2^32.
-- What the snapshot has of the disk, the network and the load is not compared.
pub parse_snapshot-IsConsistent :
    (output : Bytes) (s : ServerPerformanceSnapshot) → parse_snapshot output ≡ ok s → IsConsistent s
unfolding parse_snapshot
parse_snapshot-IsConsistent output s h = elim (Option-cases (decode output)) [
  | inl bad ↦ absurd (ground arith)
  | inr (text, e) ↦ parse_lines-IsConsistent (lines text) s (rw (e, parse_snapshot) at h)
]
