-- ===== src/Sled/Laws.antt =====
-- jobs-sled/src/lib.rs: the store on disk obeys the laws of a store.
use backjob.Common.{
  ℕ, ◌≤◌, ◌<◌, String, ◌≡◌, refl, sym, subst, ap, ◌∙◌, false, Option, none, some, nat_eq, string_eq,
  inl, inr, Option-cases, arith,
}
use backjob.Outcome.{Outcome, ok, err, end_of, >>=-eq-ok, pure}
use backjob.Chrono.{Clock}
use backjob.JobInfo.{JobInfo, is_ready}
use backjob.Stats
use backjob.Stats.{Stats}
use backjob.Processor.{unwrap_or}
use backjob.Storage.Spec.{Spec, Laws, IsKeyed, Fetches, Fetched, issue}
use backjob.Sled.{Error, Result, Database, Json}
use backjob.Sled.Key.{job_key}
use backjob.Sled.Tree.{and_then, get, del, iter}
use backjob.Sled.Lawful.{IsDatabase, IsJson, read, read-get}
use backjob.Sled.Walk.{first_ready-some, first_ready-none, entry_of_item, item_of_entry}
use backjob.Sled.Sound.{IsSound, storage-Keeps}
use backjob.Sled.Fetch.{lift-eq-ok, generate_id-eq-ok, lock_queue-eq-ok}
use backjob.Sled.View.{
  view, job_at, queue_at, queue_del, save_job-view, queue_job-view, run_job-view, delete_job-view,
  update_stats-view,
}
use backjob.Sled.Store.{
  SledStorage, on_queue, generate_id, fetch_job, first_ready, take_out, fetch_ready,
  fetch_job_from_queue, get_stats, storage,
}

module _ {T D B X V : Type 0} (db : Database T D B X) (content : T → String → Option B)
    (bound : D → ℕ) (laws : IsDatabase db content bound) (json : Json V B)
    (reads : IsJson json) where
  abbrev seen : SledStorage T D → Spec V
  seen = view db content bound laws json reads

  take_out-Fetches :
      (now : ℕ) (queue : String) (s t : SledStorage T D) (found o : Option (JobInfo V))
      → IsSound db content bound laws json s
      → IsKeyed (seen s)
      → first_ready db json queue now s.jobinfo (iter db json.text s.queue) ≡ found
      → take_out db json found s ≡ (ok o, t)
      → Fetches now queue o (seen s) (seen t)
  unfolding take_out iter
  take_out-Fetches now queue s t none o sound keyed none_ready h =
      let nothing : o ≡ none = cc in
      rw nothing (ap seen (sym (end_of h)), λ k j waits stored. waiting k j waits stored)
    where
      waiting :
          (k : ℕ) (j : JobInfo V)
          → queue_at db content bound laws json reads s.queue k ≡ some queue
          → job_at db content bound laws json reads s.jobinfo k ≡ some j
          → is_ready now j ≡ false
      waiting k j waits stored = elim (Option-cases (content s.queue (job_key k))) [
        | inl e ↦ absurd (ground arith)
        | inr (b, e) ↦
            let entry = laws.iter_complete (job_key k) b s.queue e in
            let readable : json.text.from_value b ≡ some queue = ground arith in
            first_ready-none db content bound laws json queue now s.jobinfo
              (iter db json.text s.queue) (job_key k) j none_ready
              (item_of_entry db json.text (job_key k) queue b (db.iter s.queue) entry readable)
              stored
      ]
  take_out-Fetches now queue s t (some job) o sound keyed met h =
      let (key, m, stored, _) =
        first_ready-some db content bound laws json queue now s.jobinfo (iter db json.text s.queue)
          job met in
      let (b, entry, readable) = entry_of_item db json.text key queue (db.iter s.queue) m in
      let inside : content s.queue key ≡ some b = laws.iter_sound key b s.queue entry in
      let (n, same) = sound key b inside in
      let stored_n : job_at db content bound laws json reads s.jobinfo n ≡ some job =
        subst (λ k. read db content bound laws json.job s.jobinfo k ≡ some job) same stored in
      let own : job.id ≡ n = keyed n job stored_n in
      let waits : queue_at db content bound laws json reads s.queue n ≡ some queue =
        subst (λ k. read db content bound laws json.text s.queue k ≡ some queue) same
          (ap (λ x. and_then x json.text.from_value) inside ∙ readable) in
      let d = del db json.text (job_key job.id) in
      let (x, u, p, q) = >>=-eq-ok (on_queue d) (λ _. pure (some job)) s t o h in
      let (r, e) = lift-eq-ok (d s.queue).0 x (record s { queue = (d s.queue).1 }) u p in
      let answer : some job ≡ o = cc in
      subst (λ a. Fetches now queue a (seen s) (seen t)) answer
        (
          subst (λ k. job_at db content bound laws json reads s.jobinfo k ≡ some job) (sym own)
              stored_n,
          subst (λ k. queue_at db content bound laws json reads s.queue k ≡ some queue) (sym own)
              waits,
          ap seen (sym (e ∙ end_of q))
              ∙ ap (λ f. record (seen s) { queued = f })
                  (queue_del db content bound laws json reads job.id s.queue (d s.queue).1 x
                    (λ i. (r i, (d s.queue).1))),
        )

  fetched :
      (fuel now : ℕ) (queue : String) (s t : SledStorage T D) (o : Option (JobInfo V))
      → IsSound db content bound laws json s
      → IsKeyed (seen s)
      → fetch_job_from_queue db json fuel now queue s ≡ (ok o, t)
      → Fetched now queue o (seen s) (seen t)
  unfolding fetch_job_from_queue fetch_ready
  fetched fuel now queue s t o sound keyed h =
      let (d, l, m, u, le, ran, e) =
        lock_queue-eq-ok db content bound laws json fuel queue (fetch_ready db json now queue) s t o
          h in
      let inner =
        take_out-Fetches now queue (record s { db = d; lock = l }) u
          (first_ready db json queue now s.jobinfo (iter db json.text s.queue)) o sound keyed refl
          ran in
      (
        bound d,
        le,
        subst (λ b. Fetches now queue o (issue (bound d) (seen s)) b) (ap seen (sym e)) inner,
      )

  issued :
      (s t : SledStorage T D) (id : ℕ)
      → generate_id db json s ≡ (ok id, t)
      → (bound s.db ≤ id) × (n : ℕ) × (id < n) × (seen t ≡ issue n (seen s))
  issued s t id h =
      let (d, le, lt, e) = generate_id-eq-ok db content bound laws json s t id h in
      (le, bound d, lt, ap seen e)

  -- The store on disk obeys the laws of a store, over every database and every JSON that do what is
  -- relied on, with whatever fuel: what an operation does that succeeds is what the laws say.
  pub sled_storage-Laws :
      (fuel : ℕ) → Laws (storage db json fuel) seen (IsSound db content bound laws json)
  unfolding fetch_job get_stats
  sled_storage-Laws fuel = record {
    keeps = storage-Keeps db content bound laws json fuel;
    generate_id = λ s t id room h. issued s t id h;
    save_job = save_job-view db content bound laws json reads;
    fetch_job = λ id s t o h.
        let (r, e) = lift-eq-ok (get db json.job (job_key id) s.jobinfo) o s t h in
        (read-get db content bound laws json.job (job_key id) s.jobinfo o r, ap seen (sym e));
    fetch_job_from_queue = fetched fuel;
    queue_job = queue_job-view db content bound laws json reads;
    run_job = run_job-view db content bound laws json reads;
    delete_job = delete_job-view db content bound laws json reads;
    get_stats = λ clock s x h. answered_stats clock s x (get db json.stats "stats" s.stats) refl h;
    update_stats = update_stats-view db content bound laws json reads;
  }
    where
      answered_stats :
          (clock : Clock) (s : SledStorage T D) (x : Stats) (r : Result (Error X) (Option Stats))
          → get db json.stats "stats" s.stats ≡ r
          → ◌≡◌ {A = Outcome (Error X) Stats}
              (elim r [ inl e ↦ err e | inr opt ↦ ok (unwrap_or opt (Stats.default clock)) ])
              (ok x)
          → x ≡ (seen s).stats clock
      answered_stats clock s x (inl e) q p = absurd (cc)
      answered_stats clock s x (inr opt) q p =
          let same : unwrap_or opt (Stats.default clock) ≡ x = cc in
          sym same
          ∙ ap (λ y. unwrap_or y (Stats.default clock))
              (read-get db content bound laws json.stats "stats" s.stats opt q)
