-- ===== src/Limiter/Streak.antt =====
-- limiter.go: the failures of a key in one window.
use vibe_terminal.Base.{
  ℕ, suc, ◌+◌, ◌≤◌, ◌<◌, ◌≡◌, String, none, some, ◌∷◌, [], List, All, leb, length, arith,
}
use vibe_terminal.GoMap.{lookup, erase}
use vibe_terminal.Limiter.{
  Entry, FailureLimiter, failed_entry, current_entry, count_failure, after_failure, record_failure,
}
use vibe_terminal.Limiter.Evict.{evict_config}
use vibe_terminal.Limiter.Capacity.{IsValid}
use vibe_terminal.Limiter.Blocking.{lookup-after_failure}

-- The failures of one key at some times, one after another.
unfoldable pub fail_all : FailureLimiter → String → List ℕ → FailureLimiter
fail_all l key [] = l
fail_all l key (now ∷ times) = fail_all (record_failure l key now).0 key times

-- A time of the window that starts at `start`.
abbrev pub Within : ℕ → ℕ → ℕ → Type 0
Within window start now = (start ≤ now) × (now < start + window)

-- The key has `n` failures in the window that starts at `start`.
record Streak (l : FailureLimiter) (key : String) (start n : ℕ) (e : Entry) : Type 0 where
  found : lookup key l.entries ≡ some e
  failed : e.failures ≡ n
  since : e.window_start ≡ start
  unblocked : n < l.max_failures → e.blocked_until ≡ 0

record SameConfig (l l' : FailureLimiter) : Type 0 where
  failures : l'.max_failures ≡ l.max_failures
  window : l'.window ≡ l.window
  block : l'.block_for ≡ l.block_for

record_failure-SameConfig :
    (l : FailureLimiter) (key : String) (now : ℕ) → SameConfig l (record_failure l key now).0
unfolding record_failure after_failure
record_failure-SameConfig l key now =
    ground (arith, evict_config (record l { entries = erase key l.entries }) now)

record_failure-lookup :
    (l : FailureLimiter) (key : String) (now : ℕ)
    → lookup key (record_failure l key now).0.entries ≡ some (failed_entry l key now)
unfolding record_failure
record_failure-lookup l key now = ground (arith, lookup-after_failure l key now)

first-Streak :
    (l : FailureLimiter) (key : String) (now : ℕ)
    → lookup key l.entries ≡ none
    → Streak (record_failure l key now).0 key now 1 (failed_entry l key now)
unfolding failed_entry current_entry count_failure
first-Streak l key now h = record {
  found = record_failure-lookup l key now;
  failed = ground arith;
  since = ground arith;
  unblocked = λ p. ground (arith, record_failure-SameConfig l key now);
}

next-Streak :
    (l : FailureLimiter) (key : String) (start n now : ℕ) {e : Entry}
    → Streak l key start n e
    → Within l.window start now
    → Streak (record_failure l key now).0 key start (suc n) (failed_entry l key now)
unfolding failed_entry current_entry count_failure
next-Streak l key start n now s w = record {
  found = record_failure-lookup l key now;
  failed = ground arith;
  since = ground arith;
  unblocked = λ p. ground (arith, record_failure-SameConfig l key now);
}

-- The answer to the next failure of a streak.
Streak-blocks :
    (l : FailureLimiter) (key : String) (start n now : ℕ) {e : Entry}
    → 0 < l.block_for
    → Streak l key start n e
    → Within l.window start now
    → (record_failure l key now).1 ≡ leb l.max_failures (suc n)
unfolding record_failure failed_entry current_entry count_failure
Streak-blocks l key start n now p s w = ground arith

fail_all-Streak :
    (l : FailureLimiter) (key : String) (start n now : ℕ) (times : List ℕ) {e : Entry}
    → 0 < l.block_for
    → Streak l key start n e
    → All (Within l.window start) times
    → Within l.window start now
    → (record_failure (fail_all l key times) key now).1
      ≡ leb l.max_failures (suc (n + length times))
unfolding fail_all
fail_all-Streak l key start n now [] p s h w = ground (arith, Streak-blocks l key start n now p s w)
fail_all-Streak l key start n now (t ∷ times) p s h w =
    let l' = (record_failure l key t).0 in
    let c = record_failure-SameConfig l key t in
    let rest =
      fail_all-Streak l' key start (suc n) now times (rw c.block p)
        (next-Streak l key start n t s h.0) (rw c.window h.1) (rw c.window w) in
    ground (arith, rest, c)

-- The answer to the first failure of a key.
first_blocks :
    (l : FailureLimiter) (key : String) (now : ℕ)
    → 0 < l.block_for
    → lookup key l.entries ≡ none
    → (record_failure l key now).1 ≡ leb l.max_failures 1
unfolding record_failure failed_entry current_entry count_failure
first_blocks l key now p h = ground arith

-- The time of the first of some failures, the last of which is at `now`.
abbrev pub first_time : List ℕ → ℕ → ℕ
first_time [] now = now
first_time (start ∷ times) now = start

-- Take a key with no entry, any number of failures, also none, and one more at `now`, all at times of
-- the window that starts with the first of them. The last one is answered with a block exactly when
-- they are at least `max_failures` in all.
pub record_failure_blocks :
    (l : FailureLimiter) (key : String) (before : List ℕ) (now : ℕ)
    → IsValid l
    → lookup key l.entries ≡ none
    → All (Within l.window (first_time before now)) before
    → Within l.window (first_time before now) now
    → (record_failure (fail_all l key before) key now).1 ≡ leb l.max_failures (length before + 1)
unfolding fail_all
record_failure_blocks l key [] now v h all w = first_blocks l key now v.some_block h
record_failure_blocks l key (start ∷ times) now v h (_, all) w =
    let c = record_failure-SameConfig l key start in
    let l' = (record_failure l key start).0 in
    let rest =
      fail_all-Streak l' key start 1 now times (rw c.block v.some_block)
        (first-Streak l key start h) (rw c.window all) (rw c.window w) in
    ground (arith, rest, c)
