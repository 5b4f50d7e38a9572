-- ===== src/Chrono.antt =====
-- The clock and the calendar of the `chrono` crate, which the program reads and does not implement.
use backjob.Common.{ℕ, ◌+◌, ◌-◌, ◌^◌, ◌≤◌, ◌≡◌, Option, some, ltb, if◌then◌else◌}

-- An `i64`; `negsuc n` is -(n + 1).
pub data ℤ : Type 0 where
  pos : ℕ → ℤ
  negsuc : ℕ → ℤ

-- `n as i64` for a 64-bit `usize`: the same bits, read in two's complement.
unfoldable pub as_i64 : ℕ → ℤ
as_i64 n = if ltb n (2 ^ 63) then pos n else negsuc (2 ^ 64 - 1 - n)

-- A `DateTime<Utc>` is the number of time units since a fixed origin, so `>` is the order of
-- numbers. `add_seconds t n` is `t + Duration::seconds(n)`, with `none` where that panics.
pub record Chrono : Type 0 where
  pub month : ℕ → ℕ
  pub day : ℕ → ℕ
  pub hour : ℕ → ℕ
  pub add_seconds : ℕ → ℤ → Option ℕ

-- Adding a number of seconds that is not negative never goes back in time.
abbrev pub AddsForward : Chrono → Type 0
AddsForward chrono = (t n u : ℕ) → chrono.add_seconds t (pos n) ≡ some u → t ≤ u

-- `Utc::now()` as one call meets it: the n-th reading that the call makes. Nothing is assumed of
-- the readings.
abbrev pub Clock : Type 0
Clock = ℕ → ℕ

-- The readings that are left after the first `k`.
abbrev pub later : ℕ → Clock → Clock
later k clock n = clock (k + n)
