-- ===== src/Tests/Limits.antt =====
-- limiter.go and router.go: a limiter that blocks a key for 50 after two failures in 100, and holds
-- two keys.
use vibe_terminal.Base.{
  pos, ◌+◌, ◌-◌, ◌*◌, ◌^◌, ◌≤◌, ◌<◌, ◌≡◌, refl, true, none, some, List, [], ◌∷◌, length, leb, arith,
  false→ne,
}
use vibe_terminal.GoMap.{lookup}
use vibe_terminal.GoMap.Distinct.{IsDistinct}
use vibe_terminal.Limiter.{
  Entry, FailureLimiter, new_failure_limiter, allow, record_failure, success,
}
use vibe_terminal.Limiter.Evict.{Keeps}
use vibe_terminal.Limiter.Capacity.{
  IsValid, Call, allows, records, succeeds, run, new_failure_limiter-IsValid,
  run-new_failure_limiter,
}
use vibe_terminal.Limiter.Streak.{fail_all, record_failure_blocks}
use vibe_terminal.Limiter.Isolation.{other_keys, record_failure-blocked}
use vibe_terminal.Limiter.Blocking.{allow-record_failure, allow-success}
use vibe_terminal.Limiter.Attempts.{
  allow_login_attempt, all_allowed, longest_left, second, retry_seconds, retry_seconds_ceil,
  allow_login_attempt_lem,
}

abbrev fresh : FailureLimiter
fresh = record { entries = []; max_failures = 2; window = 100; block_for = 50; max_entries = 2 }

abbrev blocked : Entry
blocked = record { failures = 2; window_start = 10; blocked_until = 70; last_seen = 20 }

-- The key "b" is blocked until 70.
abbrev busy : FailureLimiter
busy = record fresh { entries = ("b", blocked) ∷ [] }

made : new_failure_limiter (pos 2) (pos 100) (pos 50) (pos 2) ≡ some fresh
unfolding new_failure_limiter
made = refl

fresh-IsValid : IsValid fresh
fresh-IsValid = new_failure_limiter-IsValid (pos 2) (pos 100) (pos 50) (pos 2) fresh made

busy-IsValid : IsValid busy
unfolding lookup
busy-IsValid = record {
  some_failures = omega arith;
  some_window = omega arith;
  some_block = omega arith;
  some_entries = omega arith;
  bounded = omega arith;
  distinct = (refl, tt);
}

no_entry : lookup "a" fresh.entries ≡ none
unfolding lookup
no_entry = refl

abbrev three_keys : List Call
three_keys = records "a" 10 ∷ records "b" 11 ∷ records "c" 12 ∷ allows "a" 13 ∷ succeeds "b" ∷ []

run-new_failure_limiter_example :
    (length (run fresh three_keys).entries ≤ (run fresh three_keys).max_entries)
    × IsDistinct (run fresh three_keys).entries
run-new_failure_limiter_example =
    run-new_failure_limiter (pos 2) (pos 100) (pos 50) (pos 2) fresh three_keys made

record_failure_blocks_example : (record_failure (fail_all fresh "a" (10 ∷ [])) "a" 40).1 ≡ leb 2 2
record_failure_blocks_example =
    record_failure_blocks fresh "a" (10 ∷ []) 40 fresh-IsValid no_entry
      ((omega arith, omega arith), tt) (omega arith, omega arith)

allow-record_failure_example :
    let (l', blocked, left) = record_failure busy "b" 30 in
    let (_, allowed, rest) = allow l' "b" 60 in
    (allowed ≡ leb (30 + left) 60) × (rest ≡ 30 + left - 60)
allow-record_failure_example = allow-record_failure busy "b" 30 60 (omega arith)

allow-success_example : allow (success busy "b") "b" 30 ≡ (success busy "b", true, 0)
allow-success_example = allow-success busy "b" 30

other_keys_example :
    (lookup "b" (allow busy "a" 30).0.entries ≡ lookup "b" busy.entries)
    × (lookup "b" (success busy "a").entries ≡ lookup "b" busy.entries)
    × Keeps (lookup "b" busy.entries) (lookup "b" (record_failure busy "a" 30).0.entries)
other_keys_example = other_keys busy "a" "b" 30 (false→ne "a" "b" refl) busy-IsValid

b_blocked : lookup "b" busy.entries ≡ some blocked
unfolding lookup
b_blocked = refl

record_failure-blocked_example : lookup "b" (record_failure busy "a" 30).0.entries ≡ some blocked
record_failure-blocked_example =
    record_failure-blocked busy "a" "b" 30 (false→ne "a" "b" refl) blocked busy-IsValid
      (omega arith) b_blocked (omega arith)

allow_login_attempt_example :
    ((allow_login_attempt busy ("a" ∷ "b" ∷ []) 30).1 ≡ all_allowed busy 30 ("a" ∷ "b" ∷ []))
    × ((allow_login_attempt busy ("a" ∷ "b" ∷ []) 30).2 ≡ longest_left busy 30 ("a" ∷ "b" ∷ []))
allow_login_attempt_example = allow_login_attempt_lem busy ("a" ∷ "b" ∷ []) 30

retry_seconds_example :
    (1500000000 + second ≤ 2 ^ 63
      → (1 ≤ retry_seconds 1500000000)
        × (1500000000 ≤ retry_seconds 1500000000 * second)
        × (retry_seconds 1500000000 ≤ 2))
    × (2 ^ 63 < 1500000000 + second → retry_seconds 1500000000 ≡ 1)
retry_seconds_example = retry_seconds_ceil 1500000000 2 (omega arith) (omega arith) (omega arith)
