-- ===== src/Common/HashMap/Sum.antt =====
-- Sums over the values of a map, and how they change with an entry.
use Prim.Native.Nat.{ℕ, ◌+◌}
use mathlib.Core.Path.{◌≡◌, refl, sym, ap, ◌∙◌}
use mathlib.Core.Logic.{inl, inr}
use mathlib.Core.Bool.{false}
use mathlib.Core.Option.{Option, none, some}
use mathlib.Core.List.{List, [], ◌∷◌, Memᴰ}
use native.Mathlib.Omega.{arith}
use backjob.Common.Tests.{Eq, ◌==◌, Bool-cases}
use backjob.Common.HashMap.{
  HashMap, lookup, without, firsts, get, insert, empty, IsDistinct, firsts-IsDistinct,
  lookup-without,
}

module _ {ℓ κ} {K : Type ℓ} {V : Type κ} ⦃e : Eq K⦄ where
  without_twice : (q : K) (l : List (K × V)) → without q (without q l) ≡ without q l
  unfolding without
  without_twice q [] = refl
  without_twice q ((k, v) ∷ l) = elim (Bool-cases (k == q)) [
    | inl hit ↦ rw hit (without_twice q l)
    | inr miss ↦ rw (miss, without, miss) (ap (◌∷◌ (k, v)) (without_twice q l))
  ]

  without_comm : (a b : K) (l : List (K × V)) → without a (without b l) ≡ without b (without a l)
  unfolding without
  without_comm a b [] = refl
  without_comm a b ((k, v) ∷ l) = ground (arith, without_comm a b l)

  firsts-without : (q : K) (l : List (K × V)) → firsts (without q l) ≡ without q (firsts l)
  unfolding firsts without
  firsts-without q [] = refl
  firsts-without q ((k, v) ∷ l) = elim (Bool-cases (k == q)) [
    | inl hit ↦
        let same : q ≡ k = sym ((e.same_iff k q).0 hit) in
        rw hit (
          firsts-without q l
          ∙ sym (without_twice q (firsts l))
          ∙ ap (λ j. without q (without j (firsts l))) same)
    | inr miss ↦
        rw miss
          (ap (λ t. (k, v) ∷ t) (ap (without k) (firsts-without q l) ∙ without_comm k q (firsts l)))
  ]

  lookup-firsts : (q : K) (l : List (K × V)) → lookup q (firsts l) ≡ lookup q l
  unfolding firsts lookup
  lookup-firsts q [] = refl
  lookup-firsts q ((k, v) ∷ l) = ground (arith, lookup-without k q (firsts l), lookup-firsts q l)

  without_fresh :
      (q : K) (l : List (K × V))
      → ((j : K) (w : V) → Memᴰ (j, w) l → (q == j) ≡ false)
      → without q l ≡ l
  unfolding without
  without_fresh q [] h = refl
  without_fresh q ((k, v) ∷ l) h =
      let miss : (k == q) ≡ false =
        ground (arith, e.same_iff k q, e.same_iff q k, h k v (Memᴰ.head refl)) in
      rw miss (ap (◌∷◌ (k, v)) (without_fresh q l (λ j w m. h j w (Memᴰ.tail m))))

abbrev pub value {κ} : {V : Type κ} → (V → ℕ) → Option V → ℕ
value f none = 0
value f (some v) = f v

module _ {ℓ κ} {K : Type ℓ} {V : Type κ} (f : V → ℕ) where
  sum : List (K × V) → ℕ
  sum [] = 0
  sum ((_, v) ∷ l) = f v + sum l

module _ {ℓ κ} {K : Type ℓ} {V : Type κ} ⦃e : Eq K⦄ (f : V → ℕ) where
  sum-lookup :
      (q : K) (l : List (K × V))
      → IsDistinct l
      → sum f l ≡ value f (lookup q l) + sum f (without q l)
  unfolding sum lookup without
  sum-lookup q [] d = refl
  sum-lookup q ((k, v) ∷ l) d = elim (Bool-cases (k == q)) [
    | inl hit ↦
        let same : k ≡ q = (e.same_iff k q).0 hit in
        let kept : without q l ≡ l = ap (λ j. without j l) (sym same) ∙ without_fresh k l (d.0) in
        rw hit (ap (λ t. f v + sum f t) (sym kept))
    | inr miss ↦ let ih = sum-lookup q l (d.1) in rw miss (omega (arith, ih))
  ]

  -- The sum over the entries that the map has.
  unfoldable pub total : HashMap K V → ℕ
  unfolding sum firsts
  total m = sum f (firsts m.entries)

  pub total-insert :
      (q : K) (v : V) (m : HashMap K V) → total (insert q v m) + value f (get q m) ≡ total m + f v
  unfolding total sum firsts insert get
  total-insert q v m =
      let same = ap (without q) (firsts-without q m.entries) ∙ without_twice q (firsts m.entries) in
      let parts = sum-lookup q (firsts m.entries) (firsts-IsDistinct m.entries) in
      let here = ap (value f) (lookup-firsts q m.entries) in
      let kept = ap (sum f) same in omega (arith, parts, here, kept)

pub total-empty : {V : Type 0} (K : Type 0) ⦃e : Eq K⦄ (f : V → ℕ) → total f (empty {K = K}) ≡ 0
unfolding total sum firsts empty
total-empty K f = refl
