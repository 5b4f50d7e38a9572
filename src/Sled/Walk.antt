-- ===== src/Sled/Walk.antt =====
-- jobs-sled/src/lib.rs, the walk of `fetch_job_from_queue` over the entries of the queues.
use backjob.Common.{
  ℕ, String, ◌≡◌, refl, sym, ap, ◌∙◌, ◌⊎◌, inl, inr, true, false, Option, none, some, List, [], ◌∷◌,
  map, ◌==◌, string_eq, arith, Option-cases, Bool-cases, beq_iff, subst,
}
use mathlib.Core.List.{Memᴰ}
use backjob.Common.Lists.{mem-cons_cases}
use backjob.Processor.{Serde}
use backjob.JobInfo.{JobInfo, is_ready}
use backjob.Sled.{Error, Result, Database, Json}
use backjob.Sled.Tree.{get, item}
use backjob.Sled.Lawful.{IsDatabase, read, read-get, get-read}
use backjob.Sled.Store.{first_ready, pick}

module _ {T D B X A : Type 0} (db : Database T D B X) (json : Serde A B) where
  item-eq-inr :
      (x : Result X (String × B)) (k : String) (a : A)
      → item db json x ≡ inr (k, a)
      → (b : B) × (x ≡ inr (k, b)) × (json.from_value b ≡ some a)
  unfolding item
  item-eq-inr (inl e) k a h = absurd (cc)
  item-eq-inr (inr (i, b)) k a h = elim (Option-cases (json.from_value b)) [
    | inl e ↦ absurd (ground arith)
    | inr (c, e) ↦ (b, ground arith, ground arith)
  ]

  -- An item of the wrapper's walk is an entry of the database's walk that can be read, and each such
  -- entry is an item.
  pub entry_of_item :
      (k : String) (a : A) (l : List (Result X (String × B)))
      → Memᴰ (inr (k, a)) (map (item db json) l)
      → (b : B) × Memᴰ (inr (k, b)) l × (json.from_value b ≡ some a)
  entry_of_item k a [] m = elim m [ ]
  entry_of_item k a (x ∷ l) m = elim (mem-cons_cases m) [
    | inl p ↦ let (b, e, r) = item-eq-inr x k a (sym p) in (b, Memᴰ.head (sym e), r)
    | inr later ↦ let (b, n, r) = entry_of_item k a l later in (b, Memᴰ.tail n, r)
  ]

  pub item_of_entry :
      (k : String) (a : A) (b : B) (l : List (Result X (String × B)))
      → Memᴰ (inr (k, b)) l
      → json.from_value b ≡ some a
      → Memᴰ (inr (k, a)) (map (item db json) l)
  unfolding item
  item_of_entry k a b [] m r = elim m [ ]
  item_of_entry k a b (x ∷ l) m r = elim (mem-cons_cases m) [
    | inl p ↦
        let step : item db json (inr (k, b)) ≡ inr (k, a) = rw (r, item) refl in
        Memᴰ.head (sym step ∙ ap (item db json) p)
    | inr later ↦ Memᴰ.tail (item_of_entry k a b l later r)
  ]

module _ {T D B X V : Type 0} (db : Database T D B X) (content : T → String → Option B)
    (bound : D → ℕ) (laws : IsDatabase db content bound) (json : Json V B) (queue : String)
    (now : ℕ) (jobs : T) where
  abbrev job_at : String → Option (JobInfo V)
  job_at k = read db content bound laws json.job jobs k

  abbrev Found : List (Result (Error X) (String × String)) → JobInfo V → Type 0
  Found l j = (k : String) × Memᴰ (inr (k, queue)) l × (job_at k ≡ some j) × (is_ready now j ≡ true)

  further :
      (x : Result (Error X) (String × String)) (l : List (Result (Error X) (String × String)))
      (j : JobInfo V)
      → Found l j
      → Found (x ∷ l) j
  further x l j (k, m, e, r) = (k, Memᴰ.tail m, e, r)

  pick-some :
      (r : Result (Error X) (Option (JobInfo V))) (others : Option (JobInfo V)) (j : JobInfo V)
      → pick db json now r others ≡ some j
      → (others ≡ some j) ⊎ ((r ≡ inr (some j)) × (is_ready now j ≡ true))
  pick-some (inl e) others j h = inl h
  pick-some (inr none) others j h = inl h
  pick-some (inr (some job)) others j h = elim (Bool-cases (is_ready now job)) [
    | inl yes_ ↦ let e : some job ≡ some j = rw yes_ at h in inr (ap inr e, ground arith)
    | inr no_ ↦ inl (rw no_ at h)
  ]

  pick-none :
      (r : Result (Error X) (Option (JobInfo V))) (others : Option (JobInfo V))
      → pick db json now r others ≡ none
      → (others ≡ none) × ((j : JobInfo V) → r ≡ inr (some j) → is_ready now j ≡ false)
  pick-none (inl e) others h = (h, λ j p. absurd (cc))
  pick-none (inr none) others h = (h, λ j p. absurd (cc))
  pick-none (inr (some job)) others h = elim (Bool-cases (is_ready now job)) [
    | inl yes_ ↦ let e : some job ≡ none = rw yes_ at h in absurd (cc)
    | inr no_ ↦ (
      rw no_ at h,
      λ j p. let same : job ≡ j = cc in subst (λ x. is_ready now x ≡ false) same no_,
    )
  ]

  -- The job that the walk finds is stored under an entry of the queue, and ready.
  pub first_ready-some :
      (l : List (Result (Error X) (String × String))) (j : JobInfo V)
      → first_ready db json queue now jobs l ≡ some j
      → Found l j
  unfolding first_ready
  first_ready-some [] j h = absurd (ground arith)
  first_ready-some (inl e ∷ l) j h = further (inl e) l j (first_ready-some l j h)
  first_ready-some (inr (k, q) ∷ l) j h = elim (Bool-cases (queue == q)) [
    | inr other ↦ further (inr (k, q)) l j (first_ready-some l j (rw (other, first_ready) at h))
    | inl mine ↦
        elim (pick-some (get db json.job k jobs) (first_ready db json queue now jobs l) j
          (rw (mine, first_ready) at h)) [
            | inl later ↦ further (inr (k, q)) l j (first_ready-some l j later)
            | inr (met, ready) ↦
                let same : queue ≡ q = (beq_iff queue q).0 mine in
                let stored : some j ≡ job_at k =
                  read-get db content bound laws json.job k jobs (some j) met in
                (k, Memᴰ.head (ap (λ x. inr (k, x)) same), sym stored, ready)
          ]
  ]

  -- If the walk finds nothing, no job that is stored under an entry of the queue is ready.
  pub first_ready-none :
      (l : List (Result (Error X) (String × String))) (k : String) (j : JobInfo V)
      → first_ready db json queue now jobs l ≡ none
      → Memᴰ (inr (k, queue)) l
      → job_at k ≡ some j
      → is_ready now j ≡ false
  unfolding first_ready
  first_ready-none [] k j h m stored = elim m [ ]
  first_ready-none (inl e ∷ l) k j h m stored = elim (mem-cons_cases m) [
    | inl p ↦ absurd (cc)
    | inr later ↦ first_ready-none l k j h later stored
  ]
  first_ready-none (inr (i, q) ∷ l) k j h m stored = elim (Bool-cases (queue == q)) [
    | inr other ↦ elim (mem-cons_cases m) [
      | inl p ↦ let same : queue ≡ q = cc in let hit = (beq_iff queue q).1 same in absurd (cc)
      | inr later ↦ first_ready-none l k j (rw (other, first_ready) at h) later stored
    ]
    | inl mine ↦
        let (rest, here) =
          pick-none (get db json.job i jobs) (first_ready db json queue now jobs l)
            (rw (mine, first_ready) at h) in
        elim (mem-cons_cases m) [
          | inl p ↦
              let same : i ≡ k = cc in
              here j (
                subst (λ x. get db json.job x jobs ≡ inr (some j)) (sym same)
                  (get-read db content bound laws json.job k jobs j stored))
          | inr later ↦ first_ready-none l k j rest later stored
        ]
  ]
