-- ===== src/Limiter.antt =====
-- server/internal/auth/limiter.go: `FailureLimiter`, which blocks a key after too many failures in
-- a time window. The mutex makes each method one step. A time is the number of nanoseconds since
-- Go's zero time, so that 0 is the zero `time.Time`; the clock's reading is the argument `now`.
pub mod Evict
pub mod Capacity
pub mod Isolation
pub mod Attempts
pub mod Streak
pub mod Blocking
use vibe_terminal.Base.{
  ℕ, zero, suc, ◌+◌, ◌-◌, String, Bool, true, false, not, ◌&&◌, Option, none, some, ◌∷◌, [], length,
  filter, ltb, leb, ℤ, leb_ℤ, ltb_ℤ, pos, pos_part, if◌then◌else◌,
}
use vibe_terminal.GoMap.{GoMap, lookup, insert, erase}

pub record Entry : Type 0 where
  pub failures : ℕ
  pub window_start : ℕ
  pub blocked_until : ℕ
  pub last_seen : ℕ

-- `failureEntry{}`
abbrev pub zero_entry : Entry
zero_entry = record { failures = 0; window_start = 0; blocked_until = 0; last_seen = 0 }

pub record FailureLimiter : Type 0 where
  pub entries : GoMap Entry
  pub max_failures : ℕ
  pub window : ℕ
  pub block_for : ℕ
  pub max_entries : ℕ

-- `none` is a panic.
unfoldable pub new_failure_limiter : ℤ → ℤ → ℤ → ℤ → Option FailureLimiter
new_failure_limiter max_failures window block_for max_entries =
    if leb_ℤ max_failures (pos 0)
    then none
    else if leb_ℤ window (pos 0)
    then none
    else if leb_ℤ block_for (pos 0)
    then none
    else some (record {
      entries = [];
      max_failures = pos_part max_failures;
      window = pos_part window;
      block_for = pos_part block_for;
      max_entries = if ltb_ℤ max_entries (pos 1) then 1 else pos_part max_entries;
    })

-- `Allow`: the limiter afterwards, the answer, and the time left of a block.
allow_entry : FailureLimiter → String → ℕ → Option Entry → FailureLimiter × Bool × ℕ
allow_entry l key now none = (l, true, 0)
allow_entry l key now (some entry) =
    if ltb now entry.blocked_until
    then (
      record l { entries = insert key (record entry { last_seen = now }) l.entries },
      false,
      entry.blocked_until - now,
    )
    else if not (ltb now (entry.window_start + l.window))
    then (record l { entries = erase key l.entries }, true, 0)
    else (record l { entries = insert key (record entry { last_seen = now }) l.entries }, true, 0)

unfoldable pub allow : FailureLimiter → String → ℕ → FailureLimiter × Bool × ℕ
unfolding allow_entry
allow l key now = allow_entry l key now (lookup key l.entries)

-- The first loop of `evict` deletes an entry whose block is over and that was not seen for a window.
abbrev pub is_live : FailureLimiter → ℕ → String × Entry → Bool
is_live l now (key, entry) =
    not (not (ltb now entry.blocked_until) && leb l.window (now - entry.last_seen))

-- One round of the inner loop, over `oldestKey`, `oldestSeen` and `found`.
abbrev pub older : String × Entry → Option (String × ℕ) → Option (String × ℕ)
older (key, entry) none = some (key, entry.last_seen)
older (key, entry) (some (oldest_key, oldest_seen)) =
    if ltb entry.last_seen oldest_seen
    then some (key, entry.last_seen)
    else some (oldest_key, oldest_seen)

unfoldable pub oldest : GoMap Entry → Option (String × ℕ) → Option (String × ℕ)
oldest [] found = found
oldest (e ∷ m) found = oldest m (older e found)

-- The second loop of `evict`, with fuel: a round removes an entry, so the number of entries is enough.
unfoldable pub shrink : ℕ → ℕ → GoMap Entry → GoMap Entry
shrink zero max_entries m = m
shrink (suc fuel) max_entries m =
    let next : GoMap Entry = elim (oldest m none) [
      | none ↦ m
      | some (key, seen) ↦ shrink fuel max_entries (erase key m)
    ] in
    if leb max_entries (length m) then next else m

unfoldable pub evict : FailureLimiter → ℕ → FailureLimiter
unfolding shrink oldest
evict l now =
    let live = filter (is_live l now) l.entries in
    if ltb l.max_entries 1
    then record l { entries = live }
    else record l { entries = shrink (length live) l.max_entries live }

-- The window that a failure at `now` counts in: a new one if there is none or it has ended, which
-- keeps a block that still runs.
unfoldable pub current_entry : FailureLimiter → ℕ → Option Entry → Entry
current_entry l now none = record zero_entry { window_start = now }
current_entry l now (some entry) =
    if not (ltb now (entry.window_start + l.window))
    then record zero_entry {
      window_start = now;
      blocked_until = if ltb now entry.blocked_until then entry.blocked_until else 0;
    }
    else entry

unfoldable pub count_failure : FailureLimiter → ℕ → Entry → Entry
count_failure l now entry =
    let failures = suc entry.failures in
    record entry {
      failures = failures;
      last_seen = now;
      blocked_until =
          if leb l.max_failures failures then now + l.block_for else entry.blocked_until;
    }

-- `RecordFailure`: its entry and the limiter that it leaves.
unfoldable pub failed_entry : FailureLimiter → String → ℕ → Entry
failed_entry l key now = count_failure l now (current_entry l now (lookup key l.entries))

unfoldable pub after_failure : FailureLimiter → String → ℕ → FailureLimiter
after_failure l key now =
    let evicted = evict (record l { entries = erase key l.entries }) now in
    record evicted { entries = insert key (failed_entry l key now) evicted.entries }

-- `RecordFailure`: the limiter afterwards, whether the key is blocked, and for how long.
unfoldable pub record_failure : FailureLimiter → String → ℕ → FailureLimiter × Bool × ℕ
record_failure l key now =
    let entry = failed_entry l key now in
    if ltb now entry.blocked_until
    then (after_failure l key now, true, entry.blocked_until - now)
    else (after_failure l key now, false, 0)

unfoldable pub success : FailureLimiter → String → FailureLimiter
success l key = record l { entries = erase key l.entries }
