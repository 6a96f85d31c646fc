-- ===== src/Engine/RunTests.antt =====
-- The retries, the reclaims and the scans of the metadata engine at work.
use mathlib.Core.List.{Permᴰ}
use sword_fs.Prelude.{
  if◌then◌else◌, ◌==◌, insertion_sort, IsSortedFrom, ℕ, zero, suc, ◌<◌, some, List, [], ◌∷◌, ◌++◌,
  ◌≡◌, ◌⊎◌, refl, arith, true,
}
use sword_fs.Prelude.Int.{pos}
use sword_fs.Prelude.Text.{Text, Dict, same_text}
use sword_fs.Status.{Result, ok, err, Code, Status}
use sword_fs.Record.{
  PendingDelete, ReclaimWork, serialize_reclaim, parse_reclaim, put_string, put_header, get_string,
  get_header, finish,
}
use sword_fs.Record.LittleEndian.{little_endian, get_four, get_eight}
use sword_fs.Record.Volumes.{Volume, chunk_slice}
use sword_fs.Record.VolumeTrip.{IsShortVolume}
use sword_fs.Meta.{Host, Action, Queue, incr_by, inode_count, write, continue, attempt, lift, read}
use sword_fs.Meta.Decimal.{read_digits, from_chars}
use sword_fs.Meta.Sample.{host, or_else}
use sword_fs.Engine.Transact.{
  executed, Round, cut_off, reached, Execution, whole, commit_queue, end_of_body, settle, turn,
  transact_from, transact,
}
use sword_fs.Engine.Once.{IsOnce, transact-IsOnce}
use sword_fs.Engine.Answered.{
  IsRepeated, interrupted, IsLast, carried_out, IsAnswered, transact-IsAnswered, transact-ends,
}
use sword_fs.Engine.Reclaim.{
  ReclaimAttempt, reconcile, after_attempt, run_reclaim_from, run_reclaim, IsReclaimed,
  run_reclaim-IsReclaimed,
}
use sword_fs.Engine.Client.{Reply, replied, unreachable}
use sword_fs.Engine.Scans.{Page, HashScan}
use sword_fs.Engine.Pending.{work_ino, collect_pending_reclaims, visit_pending_deletes_batch}
use sword_fs.Engine.Collected.{
  IsScan, last_page, page_and_more, AreWorks, work_of_field, no_field, IsCollected,
  collect_pending_reclaims-IsCollected, collect_pending_reclaims-total,
}
use sword_fs.Engine.Batches.{IsBatch, IsUnread, visit_pending_deletes_batch-IsBatch}
use sword_fs.Engine.Volumes.{format_volume}
use sword_fs.Engine.Formatted.{IsFormatted, format_volume-IsFormatted}

-- One more inode to count
abbrev count_one : Host → Action (Unit {0})
count_one host = write host (incr_by inode_count (pos 1))

-- The first connection is cut off, the second is not.
abbrev second_time : ℕ → Round
second_time zero = cut_off
second_time (suc k) = reached host executed

counted : (transact count_one 3 second_time).status ≡ ok tt
unfolding transact transact_from settle turn end_of_body commit_queue write
counted = refl

transact-IsOnce_example :
    IsOnce (transact count_one 3 second_time).status (transact count_one 3 second_time).executions
transact-IsOnce_example = transact-IsOnce count_one 3 second_time

transact-IsAnswered_example :
    IsAnswered count_one second_time 0 3 tt (transact count_one 3 second_time).executions
transact-IsAnswered_example = transact-IsAnswered count_one 3 second_time counted

cut_off_first : (j : ℕ) → j < 1 → IsRepeated count_one (second_time j)
cut_off_first zero first = interrupted
cut_off_first (suc j) first = absurd (omega (arith, first))

abbrev one_count : List Execution
one_count = whole (incr_by inode_count (pos 1) ∷ []) ∷ []

second_turn : IsLast count_one (second_time 1) (ok tt) one_count
unfolding write
second_turn = carried_out host tt (incr_by inode_count (pos 1)) [] refl

transact-ends_example :
    transact count_one 3 second_time ≡ record { status = ok tt; executions = one_count }
transact-ends_example =
    transact-ends count_one 1 3 second_time (omega arith) cut_off_first second_turn

-- The outcome is unknown at first, and the inode is gone.
abbrev lost_answer : ℕ → ReclaimAttempt
lost_answer k = record { status = err Code.outcome_unknown; looked_up = err Code.not_found }

reclaimed : run_reclaim 2 lost_answer ≡ ok tt
unfolding run_reclaim run_reclaim_from after_attempt reconcile
reclaimed = refl

run_reclaim_example : IsReclaimed 0 2 lost_answer
run_reclaim_example = run_reclaim-IsReclaimed 2 lost_answer reclaimed

abbrev or_nothing : Result Text → Text
or_nothing (ok bytes) = bytes
or_nothing (err code) = []

abbrev work : ReclaimWork
work = record { ino = 7; payload = 5 ∷ [] }

abbrev page : Dict
page = (55 ∷ [], or_nothing (serialize_reclaim little_endian work)) ∷ []

-- The first page stands at cursor 0, the second at the cursor that the first gives.
abbrev replies : List (ℕ → Reply Page)
replies =
    (λ cursor. if cursor == 0 then replied ([], 3) else unreachable)
    ∷ (λ cursor. if cursor == 3 then replied (page, 0) else unreachable)
    ∷ []

page_read : AreWorks little_endian page (work ∷ [])
unfolding from_chars read_digits serialize_reclaim parse_reclaim finish put_string put_header
    get_string get_header little_endian get_four get_eight same_text
page_read = work_of_field (55 ∷ []) _ work refl (omega arith) refl no_field

two_pages : IsScan 0 replies ([] ++ page)
two_pages = page_and_more 0 3 _ _ [] page refl (omega arith) (last_page 3 _ [] page refl)

total_example :
    (works : List ReclaimWork) × (collect_pending_reclaims little_endian
        (insertion_sort work_ino)
        replies
      ≡ some (ok works))
    × Permᴰ works (work ∷ [])
    × IsSortedFrom work_ino 0 works
total_example =
    collect_pending_reclaims-total little_endian (insertion_sort work_ino) replies page two_pages
      page_read

collect_pending_reclaims-IsCollected_example :
    IsCollected little_endian (insertion_sort work_ino) replies (total_example.0)
collect_pending_reclaims-IsCollected_example =
    collect_pending_reclaims-IsCollected little_endian (insertion_sort work_ino) replies
      (total_example.1)

-- A visitor that counts
abbrev counting : PendingDelete → ℕ → Status × ℕ
counting pending n = (ok tt, suc n)

abbrev two_left : HashScan PendingDelete
two_left = record {
  page = record { id = 97 ∷ []; payload = 1 ∷ [] } ∷ record { id = 98 ∷ []; payload = 2 ∷ [] } ∷ [];
  cursor = 0;
}

abbrev no_reply : ℕ → Reply Page
no_reply cursor = replied ([], 0)

visit_pending_deletes_batch-IsBatch_example :
    IsBatch little_endian 1 counting no_reply two_left 0
      (visit_pending_deletes_batch little_endian 1 counting no_reply two_left 0)
    ⊎ IsUnread little_endian no_reply two_left 0
        (visit_pending_deletes_batch little_endian 1 counting no_reply two_left 0)
visit_pending_deletes_batch-IsBatch_example =
    visit_pending_deletes_batch-IsBatch little_endian 1 counting no_reply two_left 0 (omega arith)

abbrev volume : Volume
volume = record {
  name = 118 ∷ [];
  storage = 115 ∷ 51 ∷ [];
  bucket = 98 ∷ [];
  region = [];
  chunk_size = 67108864;
  chunk_type = chunk_slice;
  enable_posix_acl = true;
}

volume-IsShortVolume : IsShortVolume volume
volume-IsShortVolume = record {
  name_width = omega arith;
  storage_width = omega arith;
  bucket_width = omega arith;
  region_width = omega arith;
  chunk_size_width = omega arith;
}

abbrev formatted : Unit {0} × Queue
formatted = or_else tt (format_volume host volume (1 ∷ []) [])

format_volume_example : IsFormatted host volume (1 ∷ []) (formatted.1)
unfolding format_volume attempt read lift continue write
format_volume_example =
    format_volume-IsFormatted host volume (1 ∷ []) volume-IsShortVolume refl refl
