-- ===== src/Tests/PerformanceTests.antt =====
-- The answer to the performance command at a concrete value.
use rem_cmd.Prelude.{none, some, [], ◌∷◌, refl}
use rem_cmd.Prelude.Text.{Text, codes}
use rem_cmd.Prelude.Utf8.{encode}
use rem_cmd.Ssh.Performance.{ServerPerformanceSnapshot, parse_snapshot}
use rem_cmd.Ssh.Performance.Consistent.{IsConsistent, parse_snapshot-IsConsistent}

abbrev answer : Text
answer =
    codes
      "hostname=demo\ncpu_total=1000\ncpu_idle=750\ncpu_iowait=50\ncpu_core=1,490,360\ncpu_core=0,510,390\nmemory_total_bytes=8192\nmemory_available_bytes=4096\nswap_total_bytes=2048\nswap_free_bytes=1024\nload_one_milli=125\nload_five_milli=250\nload_fifteen_milli=500\nprocesses_running=2\nprocesses_total=184\nuptime_seconds=86461\nnetwork_rx_bytes=1048\nnetwork_tx_bytes=524\ndisk_read_bytes=2097\ncpu_count=0\n"

abbrev demo : ServerPerformanceSnapshot
demo = record {
  hostname = codes "demo";
  cpu_total = 1000;
  cpu_idle = 750;
  cpu_iowait = 50;
  cpu_count = 1;
  logical_cpus =
      record { id = 0; total = 510; idle = 390 } ∷ record { id = 1; total = 490; idle = 360 } ∷ [];
  memory_total_bytes = 8192;
  memory_available_bytes = 4096;
  swap_total_bytes = 2048;
  swap_free_bytes = 1024;
  load_one_milli = 125;
  load_five_milli = 250;
  load_fifteen_milli = 500;
  processes_running = 2;
  processes_total = 184;
  network_rx_bytes = 1048;
  network_tx_bytes = 524;
  disk_read_bytes = some 2097;
  disk_write_bytes = none;
  disk_total_bytes = none;
  disk_available_bytes = none;
  uptime_seconds = 86461;
  ssh_response_time = 0;
}

parse_snapshot-IsConsistent_example : IsConsistent demo
unfolding parse_snapshot encode
parse_snapshot-IsConsistent_example = parse_snapshot-IsConsistent (encode answer) demo refl
