-- ===== src/Sled/Open.antt =====
-- jobs-sled/src/lib.rs, `SledStorage::new`: the six trees of the store are opened by their names.
use backjob.Common.{ℕ, String, ◌≡◌, refl, subst, arith, ◌∙◌, Option, none, inl, inr}
use backjob.Outcome.{Outcome, ok, err, Exec, ◌>>=◌, >>=-eq-ok}
use backjob.Storage.Valid.{IsValid}
use backjob.Sled.{Error, sled, Result, Database, Json}
use backjob.Sled.Key.{job_key}
use backjob.Sled.Lawful.{IsDatabase, IsJson}
use backjob.Sled.Sound.{IsSound}
use backjob.Sled.View.{view}
use backjob.Sled.Store.{SledStorage}

-- `Db::open_tree` of sled is a parameter: it answers with the tree of that name.
module _ {T D X : Type 0} (open_named : String → D → Result X T × D) where
  unfoldable pub open_tree : String → Exec D (Error X) T
  open_tree name d =
      let (r, next) = open_named name d in
      (elim r [ inl e ↦ err (sled e) | inr tree ↦ ok tree ], next)

  unfoldable pub new : Exec D (Error X) (SledStorage T D)
  unfolding open_tree
  new = do
    jobinfo ← open_tree "background-jobs-jobinfo"
    running ← open_tree "background-jobs-running"
    running_inverse ← open_tree "background-jobs-running-inverse"
    queue ← open_tree "background-jobs-queue"
    stats ← open_tree "background-jobs-stats"
    lock ← open_tree "background-jobs-lock"
    λ d. (
      ok (record {
        jobinfo = jobinfo;
        running = running;
        running_inverse = running_inverse;
        queue = queue;
        stats = stats;
        lock = lock;
        db = d;
      }),
      d,
    )

-- `stored d name key` is what the tree of that name holds in the database `d`. An opened tree holds
-- what the database stores of it, and to open a tree changes no contents.
abbrev pub OpensStored :
    {T D B X : Type 0}
    → (T → String → Option B)
    → (D → String → String → Option B)
    → (String → D → Result X T × D)
    → Type 0
OpensStored {T} {D} content stored open_named =
    (name : String) (d e : D) (t : T)
    → open_named name d ≡ (inr t, e)
    → ((k : String) → content t k ≡ stored d name k)
      × ((other k : String) → stored e other k ≡ stored d other k)

-- The trees of the database hold nothing.
abbrev pub IsNew : {D B : Type 0} → (D → String → String → Option B) → D → Type 0
IsNew stored d = (name k : String) → stored d name k ≡ none

module _ {T D B X V : Type 0} (db : Database T D B X) (content : T → String → Option B)
    (bound : D → ℕ) (laws : IsDatabase db content bound) (json : Json V B)
    (reads : IsJson json) where
  abbrev pub IsEmpty : SledStorage T D → Type 0
  IsEmpty s =
      ((k : String) → content s.jobinfo k ≡ none)
      × ((k : String) → content s.running k ≡ none)
      × ((k : String) → content s.running_inverse k ≡ none)
      × ((k : String) → content s.queue k ≡ none)
      × ((k : String) → content s.stats k ≡ none)
      × ((k : String) → content s.lock k ≡ none)

  -- Sound and valid, and no lock of a queue is held.
  abbrev pub Fresh : SledStorage T D → Type 0
  Fresh s =
      IsSound db content bound laws json s
      × IsValid (view db content bound laws json reads s)
      × ((queue : String) → content s.lock queue ≡ none)

  empty-Fresh : (s : SledStorage T D) → IsEmpty s → Fresh s
  empty-Fresh s (no_jobs, _, _, no_queue, _, no_lock) = (
    (λ k b h. let gone = no_queue k in absurd (cc)),
    record {
      keyed = λ k j h. let gone = no_jobs (job_key k) in absurd (ground arith);
      known = λ k j h. let gone = no_jobs (job_key k) in absurd (ground arith);
      waiting = λ k queue h. let gone = no_queue (job_key k) in absurd (ground arith);
    },
    no_lock,
  )

module _ {T D B X V : Type 0} (db : Database T D B X) (content : T → String → Option B)
    (bound : D → ℕ) (laws : IsDatabase db content bound) (json : Json V B) (reads : IsJson json)
    (stored : D → String → String → Option B) (open_named : String → D → Result X T × D)
    (opens : OpensStored content stored open_named) where
  -- A tree of a new database is empty, and the database is as new as it was.
  opened :
      (name : String) (d e : D) (t : T)
      → IsNew stored d
      → open_tree open_named name d ≡ (ok t, e)
      → ((k : String) → content t k ≡ none) × IsNew stored e
  unfolding open_tree
  opened name d e t fresh h = settled (open_named name d).0 (open_named name d).1 refl h
    where
      settled :
          (r : Result X T) (n : D)
          → open_named name d ≡ (r, n)
          → ◌≡◌ {A = Outcome (Error X) T × D}
              (elim r [ inl x ↦ err (sled x) | inr tree ↦ ok tree ], n)
              (ok t, e)
          → ((k : String) → content t k ≡ none) × IsNew stored e
      settled (inl x) n p q = absurd (cc)
      settled (inr tree) n p q =
          let (holds, kept) = opens name d e t (p ∙ cc) in
          (λ k. holds k ∙ fresh name k, λ other k. kept other k ∙ fresh other k)

  -- What holds after a tree was opened holds of a chain that begins with it.
  after_open :
      {P : Type 0} (name : String) (m : T → Exec D (Error X) (SledStorage T D)) (d e : D)
      (s : SledStorage T D)
      → IsNew stored d
      → ((t : T) (n : D)
          → ((k : String) → content t k ≡ none)
          → IsNew stored n
          → m t n ≡ (ok s, e)
          → P)
      → (open_tree open_named name >>= m) d ≡ (ok s, e)
      → P
  after_open name m d e s fresh rest h =
      let (t, n, p, q) = >>=-eq-ok (open_tree open_named name) m d e s h in
      let (nothing, still) = opened name d n t fresh p in rest t n nothing still q

  pub new-IsEmpty :
      (d e : D) (s : SledStorage T D)
      → IsNew stored d
      → new open_named d ≡ (ok s, e)
      → IsEmpty db content bound laws json reads s
  unfolding new
  new-IsEmpty d e s n₀ = after_open "background-jobs-jobinfo" _ d e s n₀ λ jobinfo d₁ no_jobs n₁.
      after_open "background-jobs-running" _ d₁ e s n₁ λ running d₂ no_running n₂.
        after_open "background-jobs-running-inverse" _ d₂ e s n₂ λ inverse d₃ no_inverse n₃.
          after_open "background-jobs-queue" _ d₃ e s n₃ λ queue d₄ no_queue n₄.
            after_open "background-jobs-stats" _ d₄ e s n₄ λ stats d₅ no_stats n₅.
              after_open "background-jobs-lock" _ d₅ e s n₅ λ lock d₆ no_lock n₆ h.
                let made : SledStorage T D = record {
                  jobinfo = jobinfo;
                  running = running;
                  running_inverse = inverse;
                  queue = queue;
                  stats = stats;
                  lock = lock;
                  db = d₆;
                } in
                let same : made ≡ s = cc in
                subst (IsEmpty db content bound laws json reads) same
                  (no_jobs, no_running, no_inverse, no_queue, no_stats, no_lock)

  -- A store that is opened on a database whose trees hold nothing is sound and valid, and no lock of a
  -- queue is held.
  pub new-Fresh :
      (d e : D) (s : SledStorage T D)
      → IsNew stored d
      → new open_named d ≡ (ok s, e)
      → Fresh db content bound laws json reads s
  new-Fresh d e s fresh h =
      empty-Fresh db content bound laws json reads s (new-IsEmpty d e s fresh h)
