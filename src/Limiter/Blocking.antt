-- ===== src/Limiter/Blocking.antt =====
-- limiter.go: when a key is blocked, and for how long.
use vibe_terminal.Base.{ℕ, ◌+◌, ◌-◌, ◌≤◌, ◌≡◌, String, true, some, leb, arith, eq_refl}
use vibe_terminal.GoMap.{lookup, lookup-insert, lookup-erase}
use vibe_terminal.Limiter.{
  FailureLimiter, allow, failed_entry, after_failure, record_failure, success,
}

module _ (l : FailureLimiter) (key : String) where
  pub lookup-after_failure :
      (now : ℕ) → lookup key (after_failure l key now).entries ≡ some (failed_entry l key now)
  unfolding after_failure
  lookup-after_failure now = simp (lookup-insert, eq_refl)

  -- After a failure the key is refused for exactly the time that `RecordFailure` reports, and if it
  -- reports no block the key is allowed.
  pub allow-record_failure :
      (now later : ℕ)
      → now ≤ later
      → let (l', blocked, left) = record_failure l key now in
        let (_, allowed, rest) = allow l' key later in
        (allowed ≡ leb (now + left) later) × (rest ≡ now + left - later)
  unfolding record_failure allow
  allow-record_failure now later h = ground (arith, lookup-after_failure now)

  -- A success lifts any block.
  pub allow-success : (now : ℕ) → allow (success l key) key now ≡ (success l key, true, 0)
  unfolding allow success
  allow-success now = ground (arith, lookup-erase key key l.entries, eq_refl key)
