-- ===== src/Sled/Fetch.antt =====
-- jobs-sled/src/lib.rs: what a call does that succeeds, and what `lock_queue` runs.
use backjob.Common.{ℕ, ◌≤◌, ◌<◌, String, ◌≡◌, refl, sym, ap, ◌∙◌, ◌⊎◌, inl, inr, Option, arith}
use backjob.Outcome.{Outcome, ok, err, panic, Exec, end_of, >>=-eq-ok, pure}
use backjob.Sled.{Error, Result, Database, Json}
use backjob.Sled.Lawful.{IsDatabase}
use backjob.Sled.Store.{
  SledStorage, lift, on_lock, generate_id, acquire, unlock, release, lock_queue,
}

-- A lifted result that is a success was one.
pub lift-eq-ok :
    {E A S : Type 0} (r : E ⊎ A) (a : A) (s t : S)
    → ◌≡◌ {A = Outcome E A × S} (lift r, s) (ok a, t)
    → (r ≡ inr a) × (s ≡ t)
lift-eq-ok (inl e) a s t h = absurd (cc)
lift-eq-ok (inr b) a s t h = (cc, end_of h)

module _ {T D B X V : Type 0} (db : Database T D B X) (content : T → String → Option B)
    (bound : D → ℕ) (laws : IsDatabase db content bound) (json : Json V B) where
  -- A new identifier lies between the bounds before and after.
  pub generate_id-eq-ok :
      (s t : SledStorage T D) (id : ℕ)
      → generate_id db json s ≡ (ok id, t)
      → (d : D) × (bound s.db ≤ id) × (id < bound d) × (t ≡ record s { db = d })
  unfolding generate_id
  generate_id-eq-ok s t id h = by_result (db.generate_id s.db).0 refl h
    where
      by_result :
          (r : Result X ℕ)
          → (db.generate_id s.db).0 ≡ r
          → ◌≡◌ {A = Outcome (Error X) ℕ × SledStorage T D}
              (
                elim r [ inl e ↦ err (Error.sled e) | inr n ↦ ok n ],
                record s { db = (db.generate_id s.db).1 },
              )
              (ok id, t)
          → (d : D) × (bound s.db ≤ id) × (id < bound d) × (t ≡ record s { db = d })
      by_result (inl e) q p = absurd (cc)
      by_result (inr n) q p =
          let same : n ≡ id = cc in
          let d = (db.generate_id s.db).1 in
          let (le, lt) = laws.generate_id s.db d n (λ i. (q i, d)) in
          (d, omega (arith, same), omega (arith, same), sym (end_of p))

module _ {T D B X V A : Type 0} (db : Database T D B X) (content : T → String → Option B)
    (bound : D → ℕ) (laws : IsDatabase db content bound) (json : Json V B) where
  release-eq-ok :
      (queue : String) (r : Outcome (Error X) A) (a : A) (s t : SledStorage T D)
      → release db json queue r s ≡ (ok a, t)
      → (r ≡ ok a) × (t ≡ record s { lock = (unlock db json queue s.lock).1 })
  unfolding release
  release-eq-ok queue (ok b) a s t h =
      let (x, u, p, q) = >>=-eq-ok (on_lock (unlock db json queue)) (λ _. pure b) s t a h in
      (cc, sym (end_of p ∙ end_of q))
  release-eq-ok queue (err e) a s t h =
      let (x, u, p, q) = >>=-eq-ok (on_lock (unlock db json queue)) (λ _ s. (err e, s)) s t a h in
      absurd (cc)
  release-eq-ok queue panic a s t h = absurd (cc)

  -- If `lock_queue` succeeds, its closure succeeded with the same answer, on the store as it was but
  -- for the lock and the identifiers that are used up.
  pub lock_queue-eq-ok :
      (fuel : ℕ) (queue : String) (f : Exec (SledStorage T D) (Error X) A) (s t : SledStorage T D)
      (a : A)
      → lock_queue db json fuel queue f s ≡ (ok a, t)
      → (d : D) × (l m : T) × (u : SledStorage T D) × (bound s.db ≤ bound d)
        × (f (record s { db = d; lock = l }) ≡ (ok a, u))
        × (t ≡ record u { lock = m })
  unfolding lock_queue
  lock_queue-eq-ok fuel queue f s t a h =
      let (id, s₁, p₁, h₁) = >>=-eq-ok (generate_id db json) _ s t a h in
      let (d, le, lt, e₁) = generate_id-eq-ok db content bound laws json s s₁ id p₁ in
      let (x, s₂, p₂, h₂) =
        >>=-eq-ok (on_lock (acquire db json fuel queue id))
          (λ _ s. release db json queue (f s).0 (f s).1) s₁ t a h₁ in
      let l = (acquire db json fuel queue id s₁.lock).1 in
      let e₂ : s₂ ≡ record s { db = d; lock = l } =
        sym (end_of p₂) ∙ ap (λ (v : SledStorage T D). record v { lock = l }) e₁ in
      let (r, e₃) = release-eq-ok queue (f s₂).0 a (f s₂).1 t h₂ in
      let ran : f s₂ ≡ (ok a, (f s₂).1) = λ i. (r i, (f s₂).1) in
      (
        d,
        l,
        (unlock db json queue (f s₂).1.lock).1,
        (f s₂).1,
        omega (arith, le, lt),
        ap f (sym e₂) ∙ ran,
        e₃,
      )
