-- ===== src/Samples/Sled.antt =====
-- The theorems on the store on disk: it is created, holds a job that is not due yet, and is locked.
use backjob.Common.{
  string_eq, nat_eq, ℕ, ◌+◌, ◌^◌, ◌<◌, String, ◌≡◌, refl, ap, sym, Option, none, some, ltb,
  if◌then◌else◌, [], ◌∷◌, arith, inr,
}
use backjob.Common.HashMap
use backjob.Common.HashMap.{HashMap, newest_first, get, insert, remove, get-empty}
use backjob.Outcome.{ok, panic}
use backjob.JobInfo.{with_id, is_ready}
use backjob.Storage.Trait.{Storage, new_job, request_job}
use backjob.Storage.Spec.{Spec, Laws, issue}
use backjob.Storage.Valid.{IsValid}
use backjob.Storage.Delivery.{Event}
use backjob.Storage.Calls.{news, finds_nothing, done, after, Calls, Calls-IsValid, Calls-IsSound}
use backjob.Storage.Complete.{IsComplete, Calls-IsComplete}
use backjob.Sled.{Error, Result}
use backjob.Sled.Open.{open_tree, new, OpensStored, IsNew}
use backjob.Sled.Key.{job_key}
use backjob.Sled.Tree
use backjob.Sled.Tree.{set}
use backjob.Sled.Sound.{IsSound}
use backjob.Sled.View.{view}
use backjob.Sled.Laws.{sled_storage-Laws}
use backjob.Sled.Lock.Held.{request_job-held}
use backjob.Sled.Ready.{storage-FetchesReady, sled_request_job-none}
use backjob.Sled.Store.{
  SledStorage, storage, generate_id, save_job, queue_job, update_stats, stop_running,
  fetch_job_from_queue, lock_queue, acquire, release, unlock, fetch_ready, first_ready, take_out,
}
use backjob.Samples.Data.{chrono, clock, resize}
use backjob.Samples.Disk.{
  Blob, Table, number, json, json-IsJson, database, content, bound, database-IsDatabase,
  database-Works,
}

abbrev pub Disk : Type 0
Disk = SledStorage Table ℕ

abbrev pub store : Storage Disk (Error (Unit {0})) String
store = storage database json 1

abbrev pub seen : Disk → Spec String
seen = view database content bound database-IsDatabase json json-IsJson

abbrev Sound : Disk → Type 0
Sound = IsSound database content bound database-IsDatabase json

abbrev pub empty_disk : Disk
empty_disk = record {
  jobinfo = HashMap.empty;
  running = HashMap.empty;
  running_inverse = HashMap.empty;
  queue = HashMap.empty;
  stats = HashMap.empty;
  lock = HashMap.empty;
  db = 5;
}

pub empty-IsSound : Sound empty_disk
empty-IsSound k b h = let e = get-empty {V = Blob} k in absurd (cc)

pub empty-IsValid : IsValid (seen empty_disk)
unfolding get HashMap.empty
empty-IsValid = record {
  keyed = λ k j h. absurd (cc);
  known = λ k j h. absurd (cc);
  waiting = λ k queue h. absurd (cc);
}

-- A job that is not due before time 5000.
abbrev late_disk : Disk
late_disk = (new_job chrono store clock (record resize { next_queue = some 5000 }) empty_disk).1

late_created :
    new_job chrono store clock (record resize { next_queue = some 5000 }) empty_disk
    ≡ (ok 5, late_disk)
unfolding new_job generate_id save_job queue_job update_stats stop_running get insert remove
    HashMap.empty Tree.set Tree.del Tree.decoded Tree.fetch_and_update
late_created = refl

pub room : (seen empty_disk).next_id + 1 < 2 ^ 64
room = omega arith

late_history : Calls chrono store seen empty_disk (Event.created 5 ∷ []) late_disk
late_history =
    after (Event.created 5)
      (news clock (record resize { next_queue = some 5000 }) 5 room late_created) done

late-IsSound : Sound late_disk
late-IsSound =
    Calls-IsSound (sled_storage-Laws database content bound database-IsDatabase json json-IsJson 1)
      empty-IsSound late_history

late-IsValid : IsValid (seen late_disk)
late-IsValid =
    Calls-IsValid (sled_storage-Laws database content bound database-IsDatabase json json-IsJson 1)
      empty-IsSound empty-IsValid late_history

abbrev asked_disk : Disk
asked_disk = (request_job chrono store clock "images" 7 late_disk).1

asked : request_job chrono store clock "images" 7 late_disk ≡ (ok none, asked_disk)
unfolding request_job fetch_job_from_queue lock_queue acquire release unlock fetch_ready first_ready
    take_out newest_first is_ready new_job generate_id save_job queue_job update_stats stop_running
    get insert remove HashMap.empty Tree.set Tree.del Tree.decoded Tree.fetch_and_update Tree.get
    Tree.iter job_key with_id
asked = refl

sled_storage-Laws_example : Laws store seen Sound
sled_storage-Laws_example =
    sled_storage-Laws database content bound database-IsDatabase json json-IsJson 1

sled_request_job-none_example : (n : ℕ) × (seen asked_disk ≡ issue n (seen late_disk))
sled_request_job-none_example =
    sled_request_job-none database content bound database-IsDatabase json json-IsJson chrono clock 1
      7 "images" late_disk asked_disk late-IsSound late-IsValid (omega arith) asked

-- The job that was not found still waits.
abbrev asked_history :
    Calls chrono store seen empty_disk (Event.created 5 ∷ Event.refused ∷ []) asked_disk
asked_history =
    after (Event.created 5)
      (news clock (record resize { next_queue = some 5000 }) 5 room late_created)
      (after Event.refused (finds_nothing clock "images" 7 asked) done)

empty-IsComplete : IsComplete (seen empty_disk)
unfolding get HashMap.empty
empty-IsComplete k j h = absurd (cc)

Calls-IsComplete_example : IsComplete (seen asked_disk)
Calls-IsComplete_example =
    Calls-IsComplete
      (sled_storage-Laws database content bound database-IsDatabase json json-IsJson 1)
      (storage-FetchesReady database content bound database-IsDatabase json json-IsJson 1)
      empty-IsSound empty-IsValid empty-IsComplete asked_history (tt, (omega arith, tt))

-- The lock of the queue is held by a process that is gone.
abbrev locked_disk : Disk
locked_disk = record empty_disk { lock = insert "images" (number 3) HashMap.empty }

locked : Tree.and_then (content locked_disk.lock "images") json.number.from_value ≡ some 3
unfolding get insert remove HashMap.empty
locked = refl

request_job-held_example :
    (request_job chrono (storage database json 1000) clock "images" 7 locked_disk).0 ≡ panic
request_job-held_example =
    request_job-held database content bound database-IsDatabase json json-IsJson database-Works
      chrono clock 1000 7 3 "images" locked_disk locked

-- Databases with numbers: up to the fifth the trees hold nothing, and the others have one entry.
abbrev kept : ℕ → String → Table
kept d name = if ltb 5 d then insert name (number d) HashMap.empty else HashMap.empty

abbrev pub opens : String → ℕ → Result (Unit {0}) Table × ℕ
opens name d = (inr (kept d name), d)

abbrev pub stored : ℕ → String → String → Option Blob
stored d name = content (kept d name)

pub opens-OpensStored : OpensStored content stored opens
opens-OpensStored name d e t h =
    let same : kept d name ≡ t = cc in
    let still : d ≡ e = cc in
    (λ k. ap (λ u. content u k) (sym same), λ other k. ap (λ n. stored n other k) (sym still))

pub five-IsNew : IsNew stored 5
unfolding get HashMap.empty
five-IsNew name k = refl

pub opened : new opens 5 ≡ (ok empty_disk, 5)
unfolding new open_tree
opened = refl
