-- ===== src/Storage/Threads/Exclusive.antt =====
-- jobs-core/src/storage.rs: a job is in one place at a time, however the operations of the threads that
-- run the methods of the trait `Storage` alternate.
use backjob.Common.{
  ℕ, ◌+◌, ◌≤◌, String, ◌≡◌, ◌⊎◌, refl, inl, inr, Option, none, some, List, [], ◌∷◌, ◌++◌, nat_eq,
  arith,
}
use backjob.Outcome.{ok}
use backjob.Chrono.{Chrono, Clock}
use backjob.Job.{JobResult, success, failure, missing_processor, is_failure, is_missing_processor}
use backjob.JobInfo.{ReturnJobInfo}
use backjob.Storage.Trait.{Storage}
use backjob.Storage.Spec.{Spec, Laws, IsKeyed}
use backjob.Storage.Valid.{IsValid}
use backjob.Storage.Threads.{
  Thread, creates, looks, Answer, created, refused, handed, returned, returning,
}
use backjob.Storage.Threads.Shared.{
  Shared, HasRoom, handed_ids, operate, Move, begins_new, begins_request, begins_return, goes_on,
  answers, Moves, begin, move,
}
use backjob.Storage.Threads.Tokens.{one, holds, gives, left, queued_times, waits}
use backjob.Storage.Threads.Operations.{operate-Done}

module _ {ℓ} {A : Type ℓ} (w : A → ℕ) where
  abbrev pub total : List A → ℕ
  total [] = 0
  total (x ∷ xs) = w x + total xs

  total-append : (xs ys : List A) → total (xs ++ ys) ≡ total xs + total ys
  total-append [] ys = omega arith
  total-append (x ∷ xs) ys = omega (arith, total-append xs ys)

  total-insert : (xs : List A) (x : A) (ys : List A) → total (xs ++ x ∷ ys) ≡ total (xs ++ ys) + w x
  total-insert xs x ys = omega (arith, total-append xs (x ∷ ys), total-append xs ys)

-- How often a job is in the hand of a method, and how often it was handed out and not returned.
module _ {S V : Type 0} where
  abbrev pub in_hands : ℕ → Shared S V → ℕ
  in_hands id p = total (holds id) p.threads

  abbrev pub times_away : ℕ → Shared S V → ℕ
  times_away id p = total (λ i. one i id) p.away

times-handed :
    {V : Type 0} (id : ℕ) (answer : Answer V)
    → total (λ i. one i id) (handed_ids answer) ≡ gives id answer
times-handed id (handed job) = omega arith
times-handed id (created _) = refl
times-handed id refused = refl
times-handed id returned = refl

holds-returning :
    {S E V : Type 0} (chrono : Chrono) (store : Storage S E V) (clock : Clock) (r : ReturnJobInfo)
    (id : ℕ)
    → holds id (returning chrono store clock r) ≡ one r.id id
unfolding returning is_failure is_missing_processor
holds-returning chrono store clock r id = by_result r.id r.result
  where
    by_result :
        (i : ℕ) (result : JobResult)
        → holds id (returning chrono store clock (record { id = i; result = result })) ≡ one i id
    by_result i failure = refl
    by_result i missing_processor = refl
    by_result i success = refl

module _ {S E V : Type 0} {store : Storage S E V} {view : S → Spec V} {IsSound : S → Type 0}
    (laws : Laws store view IsSound) (chrono : Chrono) where
  abbrev places : ℕ → Shared S V → ℕ
  places id p = waits id (view p.storage) + in_hands id p + times_away id p

  record Kept (p : Shared S V) : Type 0 where
    sound : IsSound p.storage
    keyed : IsKeyed (view p.storage)
    once : (id : ℕ) → places id p ≤ 1
    unused : (id : ℕ) → (view p.storage).next_id ≤ id → places id p ≡ 0

  -- Nothing happens to the store.
  stays-Kept :
      (s : S) (threads more : List (Thread V)) (away rest : List ℕ)
      → ((id : ℕ)
          → total (holds id) more + total (λ i. one i id) rest
            ≡ total (holds id) threads + total (λ i. one i id) away)
      → Kept (record { storage = s; threads = threads; away = away })
      → Kept (record { storage = s; threads = more; away = rest })
  stays-Kept s threads more away rest same kept = record {
    sound = kept.sound;
    keyed = kept.keyed;
    once = λ k. omega (arith, kept.once k, same k);
    unused = λ k le. omega (arith, kept.unused k le, same k);
  }

  -- A thread runs an operation.
  operate-Kept :
      (p q : Shared S V) (t : Thread V) (x : Thread V ⊎ Answer V)
      → Kept p
      → HasRoom (view p.storage) t
      → operate chrono store view t p.storage ≡ (ok x, q.storage)
      → ((id : ℕ)
          → (rest : ℕ) × (in_hands id p + times_away id p ≡ rest + holds id t)
            × (in_hands id q + times_away id q ≡ rest + left id x))
      → Kept q
  operate-Kept p q t x kept room h split =
      let (sound, moved) =
        operate-Done laws chrono p.storage q.storage kept.sound kept.keyed t x room
          (λ k. let (rest, e, _) = split k in omega (arith, kept.once k, e)) h in
      record {
        sound = sound;
        keyed = moved.keyed;
        once = λ k.
            let (rest, e, f) = split k in
            elim (moved.places k) [
              | inl le ↦ omega (arith, kept.once k)
              | inr (new, below, le) ↦ omega (arith, kept.unused k new)
            ];
        unused = λ k le.
            let (rest, e, f) = split k in
            elim (moved.places k) [
              | inl less ↦ omega (arith, moved.grows, kept.unused k (omega (arith, moved.grows)))
              | inr (new, below, less) ↦ absurd (omega arith)
            ];
      }

  Move-Kept : {p q : Shared S V} → Kept p → Move chrono store view p q → Kept q
  Move-Kept kept (begins_new s threads away clock new) =
      stays-Kept s threads (creates clock new ∷ threads) away away (λ k. omega arith) kept
  Move-Kept kept (begins_request s threads away clock queue runner_id) =
      stays-Kept s threads (looks clock queue runner_id ∷ threads) away away (λ k. omega arith) kept
  Move-Kept kept (begins_return s threads before behind clock r) =
      stays-Kept s threads (returning chrono store clock r ∷ threads) (before ++ r.id ∷ behind)
        (before ++ behind)
        (λ k. omega (
          arith,
          holds-returning chrono store clock r k,
          total-insert (λ i. one i k) before r.id behind,
        ))
        kept
  Move-Kept kept (goes_on s u before behind away t next room h) =
      operate-Kept (record { storage = s; threads = before ++ t ∷ behind; away = away })
        (record { storage = u; threads = before ++ next ∷ behind; away = away }) t (inl next) kept
        room h
        (λ k. (
          total (holds k) (before ++ behind) + total (λ i. one i k) away,
          omega (arith, total-insert (holds k) before t behind),
          omega (arith, total-insert (holds k) before next behind),
        ))
  Move-Kept kept (answers s u before behind away t answer room h) =
      operate-Kept (record { storage = s; threads = before ++ t ∷ behind; away = away })
        (record { storage = u; threads = before ++ behind; away = away ++ handed_ids answer }) t
        (inr answer) kept room h
        (λ k. (
          total (holds k) (before ++ behind) + total (λ i. one i k) away,
          omega (arith, total-insert (holds k) before t behind),
          omega
              (arith, total-append (λ i. one i k) away (handed_ids answer), times-handed k answer),
        ))

  Moves-Kept : {p q : Shared S V} → Kept p → Moves chrono store view p q → Kept q
  Moves-Kept kept begin = kept
  Moves-Kept kept (move moves m) = Move-Kept (Moves-Kept kept moves) m

  nobody-Kept :
      (s : S)
      → IsSound s
      → IsValid (view s)
      → Kept (record { storage = s; threads = []; away = [] })
  nobody-Kept s sound v = record {
    sound = sound;
    keyed = v.keyed;
    once = λ k. most ((view s).queued k);
    unused = λ k le. none_waits k le ((view s).queued k) refl;
  }
    where
      most : (o : Option String) → queued_times o + 0 + 0 ≤ 1
      most none = omega arith
      most (some q) = omega arith

      none_waits :
          (k : ℕ)
          → (view s).next_id ≤ k
          → (o : Option String) → (view s).queued k ≡ o
          → queued_times o + 0 + 0 ≡ 0
      none_waits k le none e = omega arith
      none_waits k le (some q) e =
          let (job, kept, _, _) = v.waiting k q e in absurd (omega (arith, v.known k job kept))

  -- From a sound, valid store that obeys the laws, on which no thread is in a method and from which no
  -- job was handed out: however threads begin the three methods and alternate, operation by operation,
  -- while every operation succeeds, identifiers are left, and a job is returned once after it was handed
  -- out, a job is in at most one place, and there once: in a queue, in the hand of one method, or handed
  -- out.
  pub job_in_one_place :
      (s : S) (q : Shared S V)
      → IsSound s
      → IsValid (view s)
      → Moves chrono store view (record { storage = s; threads = []; away = [] }) q
      → (id : ℕ) → waits id (view q.storage) + in_hands id q + times_away id q ≤ 1
  job_in_one_place s q sound v moves = (Moves-Kept (nobody-Kept s sound v) moves).once
