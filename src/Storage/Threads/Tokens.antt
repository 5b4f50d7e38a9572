-- ===== src/Storage/Threads/Tokens.antt =====
-- jobs-core/src/storage.rs: where a job is, while threads run the methods of the trait `Storage`, and
-- what one operation makes of that.
use backjob.Common.{
  ℕ, ◌+◌, ◌≤◌, ◌<◌, String, ◌≡◌, ◌⊎◌, inl, inr, Option, none, some, ◌==◌, nat_eq, if◌then◌else◌,
  arith, Bool-cases,
}
use backjob.Chrono.{Clock}
use backjob.JobInfo.{JobInfo, NewJobInfo, with_id}
use backjob.Stats
use backjob.Storage.Spec.{Spec, IsKeyed, issue, put, enqueue, dequeue, forget, tally}
use backjob.Storage.Threads.{
  Thread, creates, saves_new, queues_new, counts_new, looks, takes, saves_started, counts_started,
  reads_failed, reads_missing, deletes, counts_deleted, requeues, saves_again, counts_again, Answer,
  created, refused, handed, returned,
}

-- One at a number, zero elsewhere.
abbrev pub one : ℕ → ℕ → ℕ
one i id = if i == id then 1 else 0

-- Whether a thread has a job in hand that is in no queue and that it may queue or hand out.
abbrev pub holds : {V : Type 0} → ℕ → Thread V → ℕ
holds id (creates _ _) = 0
holds id (saves_new _ _ i) = one i id
holds id (queues_new _ _ i) = one i id
holds id (counts_new _ _) = 0
holds id (looks _ _ _) = 0
holds id (takes _ _ started) = one started.id id
holds id (saves_started _ started) = one started.id id
holds id (counts_started _ started) = one started.id id
holds id (reads_failed _ i) = one i id
holds id (reads_missing _ i) = one i id
holds id (deletes _ _ i) = one i id
holds id (counts_deleted _ _) = 0
holds id (requeues _ _ i) = one i id
holds id (saves_again _ _) = 0
holds id (counts_again _) = 0

abbrev pub gives : {V : Type 0} → ℕ → Answer V → ℕ
gives id (handed job) = one job.id id
gives id (created _) = 0
gives id refused = 0
gives id returned = 0

abbrev pub left : {V : Type 0} → ℕ → Thread V ⊎ Answer V → ℕ
left id (inl thread) = holds id thread
left id (inr answer) = gives id answer

abbrev pub queued_times : Option String → ℕ
queued_times none = 0
queued_times (some _) = 1

-- Whether a job waits in a queue.
abbrev pub waits : {V : Type 0} → ℕ → Spec V → ℕ
waits id a = queued_times (a.queued id)

-- What an operation may do: no job is in more places, but for a new one, whose number is fresh.
module _ {V : Type 0} where
  pub record Moved (t : Thread V) (x : Thread V ⊎ Answer V) (a b : Spec V) : Type 0 where
    pub keyed : IsKeyed b
    pub grows : a.next_id ≤ b.next_id
    pub places :
        (id : ℕ)
        → (left id x + waits id b ≤ holds id t + waits id a)
          ⊎ ((a.next_id ≤ id)
              × (id < b.next_id)
              × (left id x + waits id b ≤ holds id t + waits id a + 1))

module _ {V : Type 0} (a : Spec V) (keyed : IsKeyed a) where
  pub creates-Moved :
      (clock : Clock) (new : NewJobInfo V) (id n : ℕ)
      → a.next_id ≤ id
      → id < n
      → Moved
          (creates clock new)
          (inl (saves_new clock (with_id (clock 0) id new) id))
          a
          (issue n a)
  creates-Moved clock new id n le lt = record {
    keyed = keyed;
    grows = omega arith;
    places = λ k. elim (Bool-cases (id == k)) [
      | inl hit ↦ inr (ground arith, ground arith, ground arith)
      | inr miss ↦ inl (ground arith)
    ];
  }

  -- A job is saved.
  pub put-Moved :
      (t : Thread V) (x : Thread V ⊎ Answer V) (job : JobInfo V)
      → ((id : ℕ) → left id x ≤ holds id t)
      → Moved t x a (put job a)
  put-Moved t x job le = record {
    keyed = λ k j h. ground (arith, keyed k j);
    grows = omega arith;
    places = λ k. inl (omega (arith, le k));
  }

  pub stays-Moved :
      (t : Thread V) (x : Thread V ⊎ Answer V) → ((id : ℕ) → left id x ≤ holds id t) → Moved t x a a
  stays-Moved t x le = record {
    keyed = keyed;
    grows = omega arith;
    places = λ k. inl (omega (arith, le k));
  }

  pub tally-Moved :
      (t : Thread V) (x : Thread V ⊎ Answer V) (f : Stats.Stats → Stats.Stats) (clock : Clock)
      → ((id : ℕ) → left id x ≤ holds id t)
      → Moved t x a (tally f clock a)
  tally-Moved t x f clock le = record {
    keyed = keyed;
    grows = omega arith;
    places = λ k. inl (omega (arith, le k));
  }

  -- The job in hand is put into a queue, and is in hand no longer.
  pub enqueue-Moved :
      (t : Thread V) (x : Thread V ⊎ Answer V) (queue : String) (i : ℕ)
      → ((id : ℕ) → holds id t ≡ one i id)
      → ((id : ℕ) → left id x ≡ 0)
      → Moved t x a (enqueue queue i a)
  enqueue-Moved t x queue i had gone = record {
    keyed = keyed;
    grows = omega arith;
    places = λ k. inl (ground (arith, had k, gone k));
  }

  pub forget-Moved :
      (t : Thread V) (x : Thread V ⊎ Answer V) (i : ℕ)
      → ((id : ℕ) → left id x ≡ 0)
      → Moved t x a (forget i a)
  forget-Moved t x i gone = record {
    keyed = λ k j h. ground (arith, keyed k j);
    grows = omega arith;
    places = λ k. inl (ground (arith, gone k));
  }

  -- A fetched job leaves its queue, and is in hand at most.
  pub fetched-Moved :
      (clock : Clock) (queue : String) (runner_id : ℕ) (job : JobInfo V) (x : Thread V ⊎ Answer V)
      (n : ℕ)
      → a.next_id ≤ n
      → a.queued job.id ≡ some queue
      → ((id : ℕ) → left id x ≤ one job.id id)
      → Moved (looks clock queue runner_id) x a (dequeue job.id (issue n a))
  fetched-Moved clock queue runner_id job x n le waited most = record {
    keyed = keyed;
    grows = le;
    places = λ k. elim (Bool-cases (job.id == k)) [
      | inl hit ↦
          let here : a.queued k ≡ some queue = ground arith in inl (ground (arith, most k, here))
      | inr miss ↦ inl (ground (arith, most k))
    ];
  }

  pub issue-Moved :
      (clock : Clock) (queue : String) (runner_id n : ℕ)
      → a.next_id ≤ n
      → Moved (looks clock queue runner_id) (inr refused) a (issue n a)
  issue-Moved clock queue runner_id n le = record {
    keyed = keyed;
    grows = le;
    places = λ k. inl (omega arith);
  }
