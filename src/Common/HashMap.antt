-- ===== src/Common/HashMap.antt =====
-- `std::collections::HashMap` (and `BTreeMap`), by what the program uses of it: `get`, `insert`,
-- `remove`, `entry(..).or_insert(..)`, and an iteration whose order is a parameter.
pub mod Sum
use mathlib.Core.Path.{◌≡◌, refl}
use mathlib.Core.Logic.{inl, inr}
use mathlib.Core.Bool.{false}
use mathlib.Core.Option.{Option, none, some}
use mathlib.Core.List.{List, [], ◌∷◌, Memᴰ}
use native.Mathlib.Omega.{arith}
use backjob.Common.Lists.{mem-cons_cases}
use backjob.Common.Tests.{Eq, ◌==◌, if◌then◌else◌, Bool-cases}

pub record HashMap {ℓ κ} (K : Type ℓ) (V : Type κ) : Type (ℓ ⊔ κ) where
  entries : List (K × V)

module _ {ℓ κ} {K : Type ℓ} {V : Type κ} where
  unfoldable pub empty : HashMap K V
  empty = record { entries = [] }

module _ {ℓ κ} {K : Type ℓ} {V : Type κ} ⦃e : Eq K⦄ where
  lookup : K → List (K × V) → Option V
  lookup k [] = none
  lookup k ((j, v) ∷ l) = if j == k then some v else lookup k l

  without : K → List (K × V) → List (K × V)
  without k [] = []
  without k (entry ∷ others) =
      let kept = without k others in if entry.0 == k then kept else entry ∷ kept

  unfoldable pub get : K → HashMap K V → Option V
  unfolding lookup
  get k m = lookup k m.entries

  unfoldable pub remove : K → HashMap K V → HashMap K V
  unfolding without
  remove k m = record { entries = without k m.entries }

  unfoldable pub insert : K → V → HashMap K V → HashMap K V
  unfolding without
  insert k v m = record { entries = (k, v) ∷ without k m.entries }

  lookup-without :
      (gone k : K) (entries : List (K × V))
      → lookup k (without gone entries) ≡ (if gone == k then none else lookup k entries)
  unfolding lookup without
  lookup-without gone k [] = ground arith
  lookup-without gone k ((i, v) ∷ others) =
      ground
        (arith, e.same_iff gone k, e.same_iff i gone, e.same_iff i k, lookup-without gone k others)

  pub get-remove :
      (k j : K) (m : HashMap K V) → get j (remove k m) ≡ (if k == j then none else get j m)
  unfolding get remove
  get-remove k j m = lookup-without k j m.entries

  pub get-insert :
      (k j : K) (v : V) (m : HashMap K V)
      → get j (insert k v m) ≡ (if k == j then some v else get j m)
  unfolding get insert
  get-insert k j v m = ground (arith, lookup-without k j m.entries)

  pub get-empty : (k : K) → get k (empty {V = V}) ≡ none
  unfolding get empty
  get-empty k = refl

  pub get-insert_self : (k : K) (v : V) (m : HashMap K V) → get k (insert k v m) ≡ some v
  get-insert_self k v m = ground (arith, get-insert k k v m, e.same_iff k k)

  pub get-remove_self : (k : K) (m : HashMap K V) → get k (remove k m) ≡ none
  get-remove_self k m = ground (arith, get-remove k k m, e.same_iff k k)

-- No key of these entries is the key of another one.
module _ {ℓ κ} {K : Type ℓ} {V : Type κ} ⦃e : Eq K⦄ where
  abbrev pub IsDistinct : List (K × V) → Type (ℓ ⊔ κ)
  IsDistinct [] = Unit {ℓ ⊔ κ}
  IsDistinct ((k, v) ∷ l) = ((j : K) (w : V) → Memᴰ (j, w) l → (k == j) ≡ false) × IsDistinct l

-- The order in which a map is walked is not specified: it is any function that lists the entries.
pub record Iteration {ℓ κ} (K : Type ℓ) (V : Type κ) ⦃e : Eq K⦄ : Type (ℓ ⊔ κ) where
  pub iter : HashMap K V → List (K × V)
  pub sound : (k : K) (v : V) (m : HashMap K V) → Memᴰ (k, v) (iter m) → get k m ≡ some v
  pub complete : (k : K) (v : V) (m : HashMap K V) → get k m ≡ some v → Memᴰ (k, v) (iter m)
  pub unique : (m : HashMap K V) → IsDistinct (iter m)

-- One order that a map may be walked in: the newest entry first.
module _ {ℓ κ} {K : Type ℓ} {V : Type κ} ⦃e : Eq K⦄ where
  firsts : List (K × V) → List (K × V)
  unfolding without
  firsts [] = []
  firsts ((k, v) ∷ l) = (k, v) ∷ without k (firsts l)

  mem_of_mem-without :
      (j k : K) (v : V) (l : List (K × V))
      → Memᴰ (k, v) (without j l)
      → ((j == k) ≡ false) × Memᴰ (k, v) l
  unfolding without
  mem_of_mem-without j k v [] h = elim h [ ]
  mem_of_mem-without j k v ((i, w) ∷ l) h = elim (Bool-cases (i == j)) [
    | inl hit ↦ let r = mem_of_mem-without j k v l (rw hit at h) in (r.0, Memᴰ.tail r.1)
    | inr miss ↦ elim (mem-cons_cases (rw miss at h)) [
      | inl p ↦ (ground (arith, e.same_iff i j, e.same_iff j k), Memᴰ.head p)
      | inr m ↦ let r = mem_of_mem-without j k v l m in (r.0, Memᴰ.tail r.1)
    ]
  ]

  mem-without :
      (j k : K) (v : V) (l : List (K × V))
      → Memᴰ (k, v) l
      → (j == k) ≡ false
      → Memᴰ (k, v) (without j l)
  unfolding without
  mem-without j k v [] h ne = elim h [ ]
  mem-without j k v ((i, w) ∷ l) h ne = elim (mem-cons_cases h) [
    | inl p ↦
        rw (let q : (i == j) ≡ false = ground (arith, e.same_iff i j, e.same_iff j k) in q)
          (Memᴰ.head p)
    | inr m ↦ elim (Bool-cases (i == j)) [
      | inl hit ↦ rw hit (mem-without j k v l m ne)
      | inr miss ↦ rw miss (Memᴰ.tail (mem-without j k v l m ne))
    ]
  ]

  firsts-complete :
      (k : K) (v : V) (l : List (K × V)) → lookup k l ≡ some v → Memᴰ (k, v) (firsts l)
  unfolding firsts lookup
  firsts-complete k v [] h = absurd (ground arith)
  firsts-complete k v ((j, w) ∷ l) h = elim (Bool-cases (j == k)) [
    | inl hit ↦ Memᴰ.head (ground (arith, e.same_iff j k))
    | inr miss ↦
        Memᴰ.tail (mem-without j k v (firsts l) (firsts-complete k v l (ground arith)) miss)
  ]

  firsts-sound : (k : K) (v : V) (l : List (K × V)) → Memᴰ (k, v) (firsts l) → lookup k l ≡ some v
  unfolding firsts lookup
  firsts-sound k v [] h = elim h [ ]
  firsts-sound k v ((j, w) ∷ l) h = elim (mem-cons_cases h) [
    | inl p ↦ ground (arith, e.same_iff j k)
    | inr m ↦ let r = mem_of_mem-without j k v (firsts l) m in rw (r.0) (firsts-sound k v l r.1)
  ]

  without-IsDistinct : (k : K) (l : List (K × V)) → IsDistinct l → IsDistinct (without k l)
  unfolding without
  without-IsDistinct k [] d = d
  without-IsDistinct k ((j, w) ∷ l) d = elim (Bool-cases (j == k)) [
    | inl hit ↦ rw hit (without-IsDistinct k l d.1)
    | inr miss ↦
        rw miss ((λ i v m. d.0 i v (mem_of_mem-without k i v l m).1), without-IsDistinct k l d.1)
  ]

  firsts-IsDistinct : (l : List (K × V)) → IsDistinct (firsts l)
  unfolding firsts
  firsts-IsDistinct [] = tt
  firsts-IsDistinct ((k, v) ∷ l) = (
    (λ j w m. (mem_of_mem-without k j w (firsts l) m).0),
    without-IsDistinct k (firsts l) (firsts-IsDistinct l),
  )

  unfoldable pub newest_first : Iteration K V
  unfolding firsts get firsts-sound firsts-complete mem_of_mem-without mem-without firsts-IsDistinct
      without-IsDistinct
  newest_first = record {
    iter = λ m. firsts m.entries;
    sound = λ k v m. firsts-sound k v m.entries;
    complete = λ k v m. firsts-complete k v m.entries;
    unique = λ m. firsts-IsDistinct m.entries;
  }
