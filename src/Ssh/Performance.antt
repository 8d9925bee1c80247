-- ===== src/Ssh/Performance.antt =====
-- crates/remcmd-ssh/src/performance.rs: `parse_snapshot`, which reads what the server answers to the
-- performance command. A duration is its nanoseconds.
pub mod Consistent
use rem_cmd.Prelude.{
  ℕ, ◌-◌, ◌^◌, max, Bool, true, false, not, ◌||◌, Option, none, some, List, [], ◌∷◌, ◌++◌,
  if◌then◌else◌, ◌==◌, ltb, leb, any, Result, ok, err, ◌>>=◌, ◌>>◌, guard, ok_or, and_then,
}
use rem_cmd.Prelude.Text.{
  Text, codes, text_eq, strip_prefix, trim, split, parse_unsigned, lines, split_once,
}
use rem_cmd.Prelude.Utf8.{Bytes, decode}
use rem_cmd.Ssh.Error.{SshError, ssh_error, protocol}

pub record LogicalCpuSnapshot : Type 0 where
  pub id : ℕ
  pub total : ℕ
  pub idle : ℕ

pub record ServerPerformanceSnapshot : Type 0 where
  pub hostname : Text
  pub cpu_total : ℕ
  pub cpu_idle : ℕ
  pub cpu_iowait : ℕ
  pub cpu_count : ℕ
  pub logical_cpus : List LogicalCpuSnapshot
  pub memory_total_bytes : ℕ
  pub memory_available_bytes : ℕ
  pub swap_total_bytes : ℕ
  pub swap_free_bytes : ℕ
  pub load_one_milli : ℕ
  pub load_five_milli : ℕ
  pub load_fifteen_milli : ℕ
  pub processes_running : ℕ
  pub processes_total : ℕ
  pub network_rx_bytes : ℕ
  pub network_tx_bytes : ℕ
  pub disk_read_bytes : Option ℕ
  pub disk_write_bytes : Option ℕ
  pub disk_total_bytes : Option ℕ
  pub disk_available_bytes : Option ℕ
  pub uptime_seconds : ℕ
  pub ssh_response_time : ℕ

abbrev pub performance_field_error : Text → SshError
performance_field_error field =
    ssh_error protocol (codes "server performance response omitted or invalid " ++ field)

abbrev pub max_u64 : ℕ
max_u64 = 2 ^ 64 - 1

abbrev pub max_u32 : ℕ
max_u32 = 2 ^ 32 - 1

-- What `find_map` makes of one line.
abbrev pub value_in : Text → Option (Text × Text) → Option Text
value_in key none = none
value_in key (some (candidate, value)) = if text_eq candidate key then some (trim value) else none

unfoldable pub value_of : List Text → Text → Option Text
unfolding split_once text_eq trim
value_of [] key = none
value_of (line ∷ rest) key = elim (value_in key (split_once b'=' line)) [
  | some value ↦ some value
  | none ↦ value_of rest key
]

-- `parse_u64` and `parse_u32`, by the largest number of the type.
unfoldable pub parse_number : ℕ → List Text → Text → Result ℕ SshError
unfolding value_of parse_unsigned
parse_number most output key =
    ok_or (and_then (value_of output key) (parse_unsigned most)) (performance_field_error key)

unfoldable pub optional_u64 : List Text → Text → Result (Option ℕ) SshError
unfolding value_of parse_unsigned
optional_u64 output key = elim (value_of output key) [
  | none ↦ ok none
  | some value ↦ elim (parse_unsigned max_u64 value) [
    | none ↦ err (performance_field_error key)
    | some n ↦ ok (some n)
  ]
]

abbrev pub cpu_core : Text
cpu_core = codes "cpu_core"

-- `fields.next()`, parsed.
abbrev pub next_field : ℕ → List Text → Result (ℕ × List Text) SshError
next_field most [] = err (performance_field_error cpu_core)
next_field most (field ∷ fields) = elim (parse_unsigned most field) [
  | none ↦ err (performance_field_error cpu_core)
  | some n ↦ ok (n, fields)
]

unfoldable pub parse_logical_cpu : Text → Result LogicalCpuSnapshot SshError
unfolding split parse_unsigned
parse_logical_cpu value = do
  (id, behind_id) ← next_field max_u32 (split b',' value)
  (total, behind_total) ← next_field max_u64 behind_id
  (idle, rest) ← next_field max_u64 behind_total
  elim rest [
    | [] ↦ ok (record { id = id; total = total; idle = idle })
    | _ ∷ _ ↦ err (performance_field_error cpu_core)
  ]

-- The lines of the logical CPUs; the first one that cannot be read ends the parse.
unfoldable pub logical_cpus_in : List Text → Result (List LogicalCpuSnapshot) SshError
unfolding strip_prefix parse_logical_cpu
logical_cpus_in [] = ok []
logical_cpus_in (line ∷ output) = elim (strip_prefix (codes "cpu_core=") line) [
  | none ↦ logical_cpus_in output
  | some value ↦ do cpu ← parse_logical_cpu value; cpus ← logical_cpus_in output; ok (cpu ∷ cpus)
]

-- `sort_unstable_by_key`: equal ids are refused next, so their order does not matter.
unfoldable pub insert_cpu : LogicalCpuSnapshot → List LogicalCpuSnapshot → List LogicalCpuSnapshot
insert_cpu x [] = x ∷ []
insert_cpu x (y ∷ ys) = if leb x.id y.id then x ∷ y ∷ ys else y ∷ insert_cpu x ys

unfoldable pub sort_cpus : List LogicalCpuSnapshot → List LogicalCpuSnapshot
unfolding insert_cpu
sort_cpus [] = []
sort_cpus (x ∷ xs) = insert_cpu x (sort_cpus xs)

-- `windows(2)` finds a pair of equal ids.
unfoldable pub has_duplicates : List LogicalCpuSnapshot → Bool
has_duplicates [] = false
has_duplicates (x ∷ []) = false
has_duplicates (x ∷ (y ∷ ys)) = x.id == y.id || has_duplicates (y ∷ ys)

abbrev pub protocol_error : Text → SshError
protocol_error message = ssh_error protocol message

-- The counters that are checked against each other.
pub record Counters : Type 0 where
  pub cpu_total : ℕ
  pub cpu_idle : ℕ
  pub cpu_iowait : ℕ
  pub memory_total_bytes : ℕ
  pub memory_available_bytes : ℕ
  pub swap_total_bytes : ℕ
  pub swap_free_bytes : ℕ
  pub processes_running : ℕ
  pub processes_total : ℕ

unfoldable pub parse_counters : List Text → Result Counters SshError
unfolding parse_number
parse_counters output = do
  cpu_total ← parse_number max_u64 output (codes "cpu_total")
  cpu_idle ← parse_number max_u64 output (codes "cpu_idle")
  cpu_iowait ← parse_number max_u64 output (codes "cpu_iowait")
  memory_total_bytes ← parse_number max_u64 output (codes "memory_total_bytes")
  memory_available_bytes ← parse_number max_u64 output (codes "memory_available_bytes")
  swap_total_bytes ← parse_number max_u64 output (codes "swap_total_bytes")
  swap_free_bytes ← parse_number max_u64 output (codes "swap_free_bytes")
  processes_running ← parse_number max_u32 output (codes "processes_running")
  processes_total ← parse_number max_u32 output (codes "processes_total")
  ok (record {
    cpu_total = cpu_total;
    cpu_idle = cpu_idle;
    cpu_iowait = cpu_iowait;
    memory_total_bytes = memory_total_bytes;
    memory_available_bytes = memory_available_bytes;
    swap_total_bytes = swap_total_bytes;
    swap_free_bytes = swap_free_bytes;
    processes_running = processes_running;
    processes_total = processes_total;
  })

unfoldable pub is_invalid : Counters → List LogicalCpuSnapshot → Bool
is_invalid c cpus =
    ltb c.cpu_total c.cpu_idle
    || ltb c.cpu_total c.cpu_iowait
    || any (λ cpu. ltb cpu.total cpu.idle) cpus
    || ltb c.memory_total_bytes c.memory_available_bytes
    || ltb c.swap_total_bytes c.swap_free_bytes
    || ltb c.processes_total c.processes_running

abbrev pub hostname_or_default : Option Text → Text
hostname_or_default none = codes "Remote host"
hostname_or_default (some name) = name

-- The fields of the result that are not read before, in their order.
pub record Remaining : Type 0 where
  pub cpu_count : ℕ
  pub load_one_milli : ℕ
  pub load_five_milli : ℕ
  pub load_fifteen_milli : ℕ
  pub network_rx_bytes : ℕ
  pub network_tx_bytes : ℕ
  pub disk_read_bytes : Option ℕ
  pub disk_write_bytes : Option ℕ
  pub disk_total_bytes : Option ℕ
  pub disk_available_bytes : Option ℕ
  pub uptime_seconds : ℕ

unfoldable pub parse_remaining : List Text → Result Remaining SshError
unfolding parse_number optional_u64
parse_remaining output = do
  cpu_count ← parse_number max_u32 output (codes "cpu_count")
  load_one_milli ← parse_number max_u32 output (codes "load_one_milli")
  load_five_milli ← parse_number max_u32 output (codes "load_five_milli")
  load_fifteen_milli ← parse_number max_u32 output (codes "load_fifteen_milli")
  network_rx_bytes ← parse_number max_u64 output (codes "network_rx_bytes")
  network_tx_bytes ← parse_number max_u64 output (codes "network_tx_bytes")
  disk_read_bytes ← optional_u64 output (codes "disk_read_bytes")
  disk_write_bytes ← optional_u64 output (codes "disk_write_bytes")
  disk_total_bytes ← optional_u64 output (codes "disk_total_bytes")
  disk_available_bytes ← optional_u64 output (codes "disk_available_bytes")
  uptime_seconds ← parse_number max_u64 output (codes "uptime_seconds")
  ok (record {
    cpu_count = max cpu_count 1;
    load_one_milli = load_one_milli;
    load_five_milli = load_five_milli;
    load_fifteen_milli = load_fifteen_milli;
    network_rx_bytes = network_rx_bytes;
    network_tx_bytes = network_tx_bytes;
    disk_read_bytes = disk_read_bytes;
    disk_write_bytes = disk_write_bytes;
    disk_total_bytes = disk_total_bytes;
    disk_available_bytes = disk_available_bytes;
    uptime_seconds = uptime_seconds;
  })

abbrev pub snapshot_with :
    List Text → Counters → List LogicalCpuSnapshot → Remaining → ServerPerformanceSnapshot
snapshot_with output c cpus r = record {
  hostname = hostname_or_default (value_of output (codes "hostname"));
  cpu_total = c.cpu_total;
  cpu_idle = c.cpu_idle;
  cpu_iowait = c.cpu_iowait;
  cpu_count = r.cpu_count;
  logical_cpus = cpus;
  memory_total_bytes = c.memory_total_bytes;
  memory_available_bytes = c.memory_available_bytes;
  swap_total_bytes = c.swap_total_bytes;
  swap_free_bytes = c.swap_free_bytes;
  load_one_milli = r.load_one_milli;
  load_five_milli = r.load_five_milli;
  load_fifteen_milli = r.load_fifteen_milli;
  processes_running = c.processes_running;
  processes_total = c.processes_total;
  network_rx_bytes = r.network_rx_bytes;
  network_tx_bytes = r.network_tx_bytes;
  disk_read_bytes = r.disk_read_bytes;
  disk_write_bytes = r.disk_write_bytes;
  disk_total_bytes = r.disk_total_bytes;
  disk_available_bytes = r.disk_available_bytes;
  uptime_seconds = r.uptime_seconds;
  ssh_response_time = 0;
}

abbrev pub parse_lines : List Text → Result ServerPerformanceSnapshot SshError
parse_lines output = do
  unsorted ← logical_cpus_in output
  let cpus = sort_cpus unsorted
  guard (not (has_duplicates cpus))
      (protocol_error (codes "server performance response contained duplicate logical CPUs"))
  counters ← parse_counters output
  guard (not (is_invalid counters cpus))
      (protocol_error (codes "server performance response contained invalid counters"))
  remaining ← parse_remaining output
  ok (snapshot_with output counters cpus remaining)

unfoldable pub parse_snapshot : Bytes → Result ServerPerformanceSnapshot SshError
unfolding decode lines logical_cpus_in sort_cpus has_duplicates parse_counters is_invalid
    parse_remaining value_of
parse_snapshot output = elim (decode output) [
  | none ↦ err (protocol_error (codes "server performance response was not UTF-8"))
  | some text ↦ parse_lines (lines text)
]
