-- ===== src/Outcome.antt =====
-- `Result<A, E>` of a call that may also panic, and methods on `&mut self` that return one: what
-- was written before an error or a panic stays written.
use backjob.Common.{Option, none, some, ◌≡◌, refl}

pub data Outcome {ℓ κ} (E : Type ℓ) (A : Type κ) : Type (ℓ ⊔ κ) where
  ok : A → Outcome E A
  err : E → Outcome E A
  panic : Outcome E A

abbrev pub Exec {ℓ} : Type ℓ → Type ℓ → Type ℓ → Type ℓ
Exec S E A = S → Outcome E A × S

module _ {ℓ} {S E A : Type ℓ} where
  abbrev pub pure : A → Exec S E A
  pure a s = (ok a, s)

  -- A computation in which `none` stands for a panic.
  abbrev pub or_panic : Option A → Exec S E A
  or_panic none s = (panic, s)
  or_panic (some a) s = (ok a, s)

module _ {ℓ} {S E A : Type ℓ} where
  -- The state in which a call ends.
  pub end_of : {q r : Outcome E A} {s t : S} → ◌≡◌ {A = Outcome E A × S} (q, s) (r, t) → s ≡ t
  end_of h i = (h i).1

  pub or_panic-eq-ok :
      (o : Option A) (s t : S) (a : A) → or_panic {E = E} o s ≡ (ok a, t) → (o ≡ some a) × (t ≡ s)
  or_panic-eq-ok none s t a h = absurd (cc)
  or_panic-eq-ok (some b) s t a h = (cc, cc)

module _ {ℓ} {S E A B : Type ℓ} where
  abbrev pub continue : Outcome E A → (A → Exec S E B) → Exec S E B
  continue (ok a) f s = f a s
  continue (err e) f s = (err e, s)
  continue panic f s = (panic, s)

  infixl 10 ◌>>=◌ ◌>>◌
  abbrev pub ◌>>=◌ : Exec S E A → (A → Exec S E B) → Exec S E B
  ◌>>=◌ m f s = continue (m s).0 f (m s).1

  abbrev pub ◌>>◌ : Exec S E A → Exec S E B → Exec S E B
  m >> n = m >>= λ _. n

  continue-eq-ok :
      (r : Outcome E A) (f : A → Exec S E B) (u t : S) (b : B)
      → continue r f u ≡ (ok b, t)
      → (a : A) × (r ≡ ok a) × (f a u ≡ (ok b, t))
  continue-eq-ok (ok a) f u t b h = (a, refl, h)
  continue-eq-ok (err e) f u t b h = absurd (cc)
  continue-eq-ok panic f u t b h = absurd (cc)

  -- A chain that succeeds ran its first part with success, and the rest from where that ended.
  pub >>=-eq-ok :
      (m : Exec S E A) (f : A → Exec S E B) (s t : S) (b : B)
      → (m >>= f) s ≡ (ok b, t)
      → (a : A) × (u : S) × (m s ≡ (ok a, u)) × (f a u ≡ (ok b, t))
  >>=-eq-ok m f s t b h =
      let (a, p, q) = continue-eq-ok (m s).0 f (m s).1 t b h in
      (a, (m s).1, (λ i. (p i, (m s).1)), q)
