-- ===== src/Sled/Key.antt =====
-- jobs-sled/src/lib.rs, the keys of the trees, and that they tell numbers apart. `decimal` is how
-- `format!` prints a number.
use Prim.Native.Char.{Char, code}
use Prim.Native.String.{◌++◌}
use text.Mathlib.TextLemmas.{append_cancel_left}
use backjob.Common.{
  ℕ, zero, suc, ◌+◌, ◌-◌, ◌*◌, ◌/◌, ◌%◌, ◌<◌, String, ◌≡◌, refl, ap, sym, ◌∙◌, true, arith, ltb,
  ◌==◌, nat_eq, string_eq, beq_iff, Bool-cases, inl, inr, if◌then◌else◌,
}

-- The character at a place, the last one from there on.
nth : ℕ → Char → String → Char
nth n c String.[] = c
nth zero c (String.◌∷◌ d s) = c
nth (suc n) c (String.◌∷◌ d s) = nth n d s

digit : ℕ → Char
unfolding nth
digit n = nth n "0" "123456789"

-- The digits of a number before `rest`, with fuel for one digit more than are left.
decimal_from : ℕ → ℕ → String → String
unfolding digit
decimal_from zero n rest = rest
decimal_from (suc fuel) n rest =
    let more = decimal_from fuel (n / 10) (String.◌∷◌ (digit (n % 10)) rest) in
    if ltb n 10 then String.◌∷◌ (digit n) rest else more

unfoldable pub decimal : ℕ → String
unfolding decimal_from
decimal n = decimal_from (n + 1) n String.[]

unfoldable pub job_key : ℕ → String
unfolding decimal
job_key id = "job-" ++ decimal id

unfoldable pub runner_key : ℕ → String
unfolding decimal
runner_key runner_id = "runner-" ++ decimal runner_id

-- The number that digits spell behind `n`.
abbrev value : ℕ → String → ℕ
value n String.[] = n
value n (String.◌∷◌ c s) = value (n * 10 + (code c - 48)) s

code-digit : (n : ℕ) → n < 10 → code (digit n) - 48 ≡ n
unfolding digit
code-digit zero h = refl
code-digit (suc zero) h = refl
code-digit (suc (suc zero)) h = refl
code-digit (suc (suc (suc zero))) h = refl
code-digit (suc (suc (suc (suc zero)))) h = refl
code-digit (suc (suc (suc (suc (suc zero))))) h = refl
code-digit (suc (suc (suc (suc (suc (suc zero)))))) h = refl
code-digit (suc (suc (suc (suc (suc (suc (suc zero))))))) h = refl
code-digit (suc (suc (suc (suc (suc (suc (suc (suc zero)))))))) h = refl
code-digit (suc (suc (suc (suc (suc (suc (suc (suc (suc zero))))))))) h = refl
code-digit (suc (suc (suc (suc (suc (suc (suc (suc (suc (suc n)))))))))) h = absurd (omega arith)

value-decimal_from :
    (fuel n : ℕ) (rest : String) → n < fuel → value 0 (decimal_from fuel n rest) ≡ value n rest
unfolding decimal_from
value-decimal_from zero n rest h = elim h [ ]
value-decimal_from (suc fuel) n rest h = elim (Bool-cases (ltb n 10)) [
  | inl small ↦
      let lt : n < 10 = ground arith in
      let d : 0 * 10 + (code (digit n) - 48) ≡ n = omega (arith, code-digit n lt) in
      rw small (ap (λ k. value k rest) d)
  | inr large ↦
      let ih = value-decimal_from fuel (n / 10) (String.◌∷◌ (digit (n % 10)) rest) (ground arith) in
      let d : code (digit (n % 10)) - 48 ≡ n % 10 = code-digit (n % 10) (omega arith) in
      let whole : n / 10 * 10 + (code (digit (n % 10)) - 48) ≡ n = omega (arith, d) in
      rw large (ih ∙ ap (λ k. value k rest) whole)
]

-- A number is read back from its digits.
pub value-decimal : (n : ℕ) → value 0 (decimal n) ≡ n
unfolding decimal
value-decimal n = value-decimal_from (n + 1) n String.[] (omega arith)

pub job_key_inj : (i k : ℕ) → job_key i ≡ job_key k → i ≡ k
unfolding job_key
job_key_inj i k h =
    sym (value-decimal i)
    ∙ ap (value 0) (append_cancel_left "job-" (decimal i) (decimal k) h)
    ∙ value-decimal k

-- Two jobs have the same key exactly if they have the same identifier.
pub job_key_eq : (i k : ℕ) → (job_key i == job_key k) ≡ (i == k)
job_key_eq i k = elim (Bool-cases (job_key i == job_key k)) [
  | inl hit ↦
      let same : i ≡ k = job_key_inj i k ((beq_iff (job_key i) (job_key k)).0 hit) in
      hit ∙ sym ((beq_iff i k).1 same)
  | inr miss ↦ elim (Bool-cases (i == k)) [
    | inl same ↦
        let e : (job_key i == job_key k) ≡ true =
          (beq_iff (job_key i) (job_key k)).1 (ap job_key ((beq_iff i k).0 same)) in
        e ∙ sym same
    | inr other ↦ miss ∙ sym other
  ]
]
