-- ===== src/Limiter/Attempts.antt =====
-- server/internal/httpapi/router.go: an attempt is checked against several keys of one limiter.
use vibe_terminal.Base.{
  ℕ, ◌+◌, ◌-◌, ◌/◌, ◌*◌, ◌%◌, ◌^◌, ◌≤◌, ◌<◌, ◌≡◌, refl, inl, inr, String, Bool, true, false, ◌&&◌,
  List, [], ◌∷◌, ltb, arith, if◌then◌else◌, max, Option-cases, eq_iff, ap, ◌∙◌,
}
use mathlib.Core.Path.{ap₂}
use vibe_terminal.GoMap.{lookup, lookup-insert, lookup-erase}
use vibe_terminal.Limiter.{FailureLimiter, allow, record_failure, success}

-- The loop of `allowLoginAttempt`, over `allowed` and `longestRetry`.
unfoldable pub allow_from : FailureLimiter → List String → ℕ → Bool → ℕ → FailureLimiter × Bool × ℕ
allow_from l [] now allowed longest_retry = (l, allowed, longest_retry)
allow_from l (key ∷ keys) now allowed longest_retry =
    let (l', key_allowed, retry_after) = allow l key now in
    allow_from l' keys now (if key_allowed then allowed else false) (
      if key_allowed
      then longest_retry
      else if ltb longest_retry retry_after
      then retry_after
      else longest_retry)

unfoldable pub allow_login_attempt : FailureLimiter → List String → ℕ → FailureLimiter × Bool × ℕ
unfolding allow_from
allow_login_attempt l keys now = allow_from l keys now true 0

-- The loop of `recordLoginFailure`, over `blocked` and `longestRetry`.
unfoldable pub record_from : FailureLimiter → List String → ℕ → Bool → ℕ → FailureLimiter × Bool × ℕ
record_from l [] now blocked longest_retry = (l, blocked, longest_retry)
record_from l (key ∷ keys) now blocked longest_retry =
    let (l', key_blocked, retry_after) = record_failure l key now in
    record_from l' keys now (if key_blocked then true else blocked) (
      if key_blocked
      then if ltb longest_retry retry_after then retry_after else longest_retry
      else longest_retry)

unfoldable pub record_login_failure : FailureLimiter → List String → ℕ → FailureLimiter × Bool × ℕ
unfolding record_from
record_login_failure l keys now = record_from l keys now false 0

unfoldable pub clear_login_failures : FailureLimiter → List String → FailureLimiter
clear_login_failures l [] = l
clear_login_failures l (key ∷ keys) = clear_login_failures (success l key) keys

-- The seconds of `writeRateLimit`; a duration is a number of nanoseconds.
abbrev pub second : ℕ
second = 1000000000

-- The quotient of a duration by a second, on the 64 bits of the duration. That of a negative
-- duration, which has the highest bit, is not positive; 0 stands for it.
unfoldable whole_seconds : ℕ → ℕ
whole_seconds bits = if ltb bits (2 ^ 63) then bits / second else 0

-- The sum is an `int64` and wraps around.
unfoldable pub retry_seconds : ℕ → ℕ
unfolding whole_seconds
retry_seconds retry_after =
    let seconds = whole_seconds ((retry_after + second - 1) % 2 ^ 64) in
    if ltb seconds 1 then 1 else seconds

-- For a time left that is an `int64`: up to a second before the largest one, the header is positive
-- and covers the time left, and no smaller positive number of seconds does. Beyond, the sum overflows,
-- and the header is one second.
pub retry_seconds_ceil :
    (t s : ℕ)
    → t < 2 ^ 63
    → 1 ≤ s
    → t ≤ s * second
    → (t + second ≤ 2 ^ 63
        → (1 ≤ retry_seconds t) × (t ≤ retry_seconds t * second) × (retry_seconds t ≤ s))
      × (2 ^ 63 < t + second → retry_seconds t ≡ 1)
unfolding retry_seconds
retry_seconds_ceil t s w p h =
    ((λ near. (ground arith, ground arith, ground arith)), λ far. ground arith)

-- The answer of `Allow`, and the time left.
abbrev pub answer : FailureLimiter → String → ℕ → Bool × ℕ
answer l key now = ((allow l key now).1, (allow l key now).2)

-- What `Allow` answers for a key does not depend on an earlier `Allow` at the same time.
answer-allow :
    (l : FailureLimiter) (key other : String) (now : ℕ)
    → answer (allow l key now).0 other now ≡ answer l other now
unfolding allow
answer-allow l key other now = elim (Option-cases (lookup key l.entries)) [
  | inl e ↦ rw e
  | inr (x, e) ↦ rw e (
      ground (
        arith,
        lookup-insert key other (record x { last_seen = now }) l.entries,
        lookup-erase key other l.entries,
        eq_iff key other,
      ))
]

-- Whether every key is allowed, and the longest time left among those that are not.
abbrev pub all_allowed : FailureLimiter → ℕ → List String → Bool
all_allowed l now [] = true
all_allowed l now (key ∷ keys) = (answer l key now).0 && all_allowed l now keys

abbrev pub longest_left : FailureLimiter → ℕ → List String → ℕ
longest_left l now [] = 0
longest_left l now (key ∷ keys) =
    max (if (answer l key now).0 then 0 else (answer l key now).1) (longest_left l now keys)

all_allowed-allow :
    (l : FailureLimiter) (key : String) (now : ℕ) (keys : List String)
    → (all_allowed (allow l key now).0 now keys ≡ all_allowed l now keys)
      × (longest_left (allow l key now).0 now keys ≡ longest_left l now keys)
all_allowed-allow l key now [] = (refl, refl)
all_allowed-allow l key now (k ∷ keys) =
    let (p, q) = all_allowed-allow l key now keys in
    let a = answer-allow l key k now in
    (
      ap₂ ◌&&◌ (ap (λ (t : Bool × ℕ). t.0) a) p,
      ap₂ (λ (t : Bool × ℕ) n. max (if t.0 then 0 else t.1) n) a q,
    )

allow_from_lem :
    (l : FailureLimiter) (keys : List String) (now : ℕ) (allowed : Bool) (longest : ℕ)
    → ((allow_from l keys now allowed longest).1 ≡ (allowed && all_allowed l now keys))
      × ((allow_from l keys now allowed longest).2 ≡ max longest (longest_left l now keys))
unfolding allow_from
allow_from_lem l [] now allowed longest = ground arith
allow_from_lem l (k ∷ keys) now allowed longest =
    let (p, q) = all_allowed-allow l k now keys in
    let a = answer l k now in
    let (r, s) =
      allow_from_lem (allow l k now).0 keys now (if a.0 then allowed else false)
        (if a.0 then longest else if ltb longest a.1 then a.1 else longest) in
    (r ∙ ground (arith, p), s ∙ ground (arith, q))

-- An attempt is allowed exactly when each of its keys is, and is told to wait for the longest time
-- that one of the refused keys has left.
pub allow_login_attempt_lem :
    (l : FailureLimiter) (keys : List String) (now : ℕ)
    → ((allow_login_attempt l keys now).1 ≡ all_allowed l now keys)
      × ((allow_login_attempt l keys now).2 ≡ longest_left l now keys)
unfolding allow_login_attempt
allow_login_attempt_lem l keys now = ground (arith, allow_from_lem l keys now true 0)
