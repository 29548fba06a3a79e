-- ===== src/Limiter/Capacity.antt =====
-- limiter.go: the number of entries under any history of calls.
use vibe_terminal.Base.{
  ℕ, ◌≤◌, ◌<◌, ◌≡◌, inl, inr, String, some, ◌∷◌, [], List, ℤ, length, arith, Option-cases,
}
use vibe_terminal.GoMap.{lookup, erase, length-erase-le, length-insert-le, length-insert_hit}
use vibe_terminal.GoMap.Distinct.{IsDistinct, erase-IsDistinct, insert-IsDistinct}
use vibe_terminal.Limiter.{
  FailureLimiter, allow, evict, failed_entry, after_failure, record_failure, success,
  new_failure_limiter,
}
use vibe_terminal.Limiter.Evict.{length-evict, evict-IsDistinct, evict_config}

pub record IsValid (l : FailureLimiter) : Type 0 where
  pub some_failures : 0 < l.max_failures
  pub some_window : 0 < l.window
  pub some_block : 0 < l.block_for
  pub some_entries : 0 < l.max_entries
  pub bounded : length l.entries ≤ l.max_entries
  pub distinct : IsDistinct l.entries

pub new_failure_limiter-IsValid :
    (max_failures window block_for max_entries : ℤ) (l : FailureLimiter)
    → new_failure_limiter max_failures window block_for max_entries ≡ some l
    → IsValid l
unfolding new_failure_limiter
new_failure_limiter-IsValid f w b m l h = ground arith

module _ (l : FailureLimiter) (key : String) (v : IsValid l) where
  pub allow-IsValid : (now : ℕ) → IsValid (allow l key now).0
  unfolding allow
  allow-IsValid now = elim (Option-cases (lookup key l.entries)) [
    | inl e ↦ rw e v
    | inr (x, e) ↦
        let touched = record x { last_seen = now } in
        rw e (
          ground (
            arith,
            length-erase-le key l.entries,
            erase-IsDistinct key l.entries v.distinct,
            length-insert_hit key touched x l.entries e,
            insert-IsDistinct key touched l.entries v.distinct,
          ))
  ]

  after_failure-IsValid : (now : ℕ) → IsValid (after_failure l key now)
  unfolding after_failure
  after_failure-IsValid now =
      let rest = record l { entries = erase key l.entries } in
      let entry = failed_entry l key now in
      ground (
        arith,
        evict_config rest now,
        length-evict rest now,
        length-insert-le key entry (evict rest now).entries,
        insert-IsDistinct key entry (evict rest now).entries,
        evict-IsDistinct rest now,
        erase-IsDistinct key l.entries v.distinct,
      )

  pub record_failure-IsValid : (now : ℕ) → IsValid (record_failure l key now).0
  unfolding record_failure
  record_failure-IsValid now = ground (arith, after_failure-IsValid now)

  pub success-IsValid : IsValid (success l key)
  unfolding success
  success-IsValid =
      ground (arith, length-erase-le key l.entries, erase-IsDistinct key l.entries v.distinct)

-- The calls that a client makes of the limiter.
pub data Call : Type 0 where
  allows records : String → ℕ → Call
  succeeds : String → Call

unfoldable pub step : FailureLimiter → Call → FailureLimiter
step l (allows key now) = (allow l key now).0
step l (records key now) = (record_failure l key now).0
step l (succeeds key) = success l key

unfoldable pub run : FailureLimiter → List Call → FailureLimiter
run l [] = l
run l (c ∷ cs) = run (step l c) cs

pub step-IsValid : (l : FailureLimiter) (c : Call) → IsValid l → IsValid (step l c)
unfolding step
step-IsValid l (allows key now) v = allow-IsValid l key v now
step-IsValid l (records key now) v = record_failure-IsValid l key v now
step-IsValid l (succeeds key) v = success-IsValid l key v

run-IsValid : (l : FailureLimiter) (cs : List Call) → IsValid l → IsValid (run l cs)
unfolding run
run-IsValid l [] v = v
run-IsValid l (c ∷ cs) v = run-IsValid (step l c) cs (step-IsValid l c v)

-- A limiter that the constructor returns holds at most `max_entries` keys, and each once, after
-- any history of calls, at whatever times.
pub run-new_failure_limiter :
    (max_failures window block_for max_entries : ℤ) (l : FailureLimiter) (cs : List Call)
    → new_failure_limiter max_failures window block_for max_entries ≡ some l
    → (length (run l cs).entries ≤ (run l cs).max_entries) × IsDistinct (run l cs).entries
run-new_failure_limiter f w b m l cs h =
    let v = run-IsValid l cs (new_failure_limiter-IsValid f w b m l h) in (v.bounded, v.distinct)
