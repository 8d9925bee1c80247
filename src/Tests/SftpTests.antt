-- ===== src/Tests/SftpTests.antt =====
-- The transfer queue and edited files at concrete values.
use rem_cmd.Prelude.{ℕ, true, false, none, some, [], ◌∷◌, ◌≡◌, ◌↔◌, ◌⊎◌, inr, refl, arith}
use rem_cmd.Prelude.Text.{Text, codes}
use rem_cmd.Prelude.Utf8.{encode}
use rem_cmd.Sftp.Queue.{SftpTransferQueue, find_task}
use rem_cmd.Sftp.Task.{
  upload, queued, completed, SftpTransferState, SftpTransferTask, new_task, start, is_finished,
}
use rem_cmd.Sftp.Queue.Life.{start_one, retry, clear, after, Evolves, after-Evolves}
use rem_cmd.Sftp.Queue.Ids.{IsQueue, after-IsQueue, finished_final}
use rem_cmd.Sftp.Batch.{SftpTransferBatchProgress}
use rem_cmd.Sftp.TextFormat.{
  cr_lf, RemoteTextFormat, decode_file, encode_file, marked, contains_crlf,
}
use rem_cmd.Sftp.TextFormat.Saving.{is_uniform, resaved, resaved_iff}
use rem_cmd.Sftp.TextFormat.Editing.{IsEdited, decode-encode_file}

abbrev task_in : ℕ → SftpTransferState → SftpTransferTask
task_in id state = record (new_task id 1 upload (codes "/tmp/a") (codes "/srv/a") false (some 10)) {
  state = state;
}

-- One task done, one waiting.
abbrev busy : SftpTransferQueue
busy = record {
  next_id = 3;
  next_batch_id = 2;
  tasks = task_in 1 completed ∷ task_in 2 queued ∷ [];
}

busy-IsQueue : IsQueue busy
busy-IsQueue = record {
  apart = ((omega arith, tt), (tt, tt));
  given = (omega arith, (omega arith, tt));
}

after-Evolves_example : Evolves 3 3 busy.tasks (task_in 1 completed ∷ start (task_in 2 queued) ∷ [])
unfolding after
after-Evolves_example = after-Evolves start_one busy (omega arith)

after-IsQueue_example : IsQueue (after clear busy)
after-IsQueue_example = after-IsQueue clear busy (omega arith) busy-IsQueue

finished_final_example :
    (find_task 1 (after (retry 1) busy).tasks ≡ some (task_in 1 completed))
    ⊎ (find_task 1 (after (retry 1) busy).tasks ≡ none)
unfolding find_task is_finished
finished_final_example =
    finished_final (retry 1) busy 1 {t = task_in 1 completed} (omega arith) busy-IsQueue refl refl

abbrev half_done : SftpTransferBatchProgress
half_done = record {
  task_count = 2;
  settled_count = 1;
  failed_count = 0;
  transferred = 0;
  total = some 20;
}

-- A file with both line endings is not written back as it was.
abbrev mixed : Text
mixed = codes "a\r\nb\n"

mixed_rewritten : resaved (encode mixed) ≡ some (codes "a\r\nb\r\n")
unfolding decode_file encode_file
mixed_rewritten = refl

resaved_iff_example :
    (resaved (marked true (encode mixed)) ≡ some (marked true (encode mixed)))
    ↔ ((contains_crlf mixed ≡ false) ⊎ (is_uniform mixed ≡ true))
resaved_iff_example = resaved_iff true mixed (ground arith) (ground arith) tt

abbrev windows : RemoteTextFormat
windows = record { utf8_bom = true; line_ending = cr_lf }

two_lines-IsEdited : IsEdited windows (codes "a\nb")
two_lines-IsEdited = record {
  chars = ground arith;
  no_zero = ground arith;
  no_return = refl;
  is_file = tt;
  has_lines = inr refl;
}

decode-encode_file_example :
    decode_file (encode_file windows (codes "a\nb")) ≡ some (windows, codes "a\nb")
decode-encode_file_example = decode-encode_file windows (codes "a\nb") two_lines-IsEdited
