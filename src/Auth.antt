-- ===== src/Auth.antt =====
-- server/internal/auth: passwords, cookies, challenges and codes. The packages that it calls for
-- hashes, encodings, encryption and JSON are parameters; a byte slice is a text. A time is a number of
-- nanoseconds since Go's zero time.
pub mod Challenge
pub mod Totp
pub mod Cookie
pub mod Secrets
pub mod Setup
use vibe_terminal.Base.{
  ℕ, ◌+◌, ◌-◌, ◌*◌, ◌/◌, ◌%◌, ◌≤◌, ◌≡◌, ℤ, pos, negsuc, String, Bool, Option, List, arith, leb,
  if◌then◌else◌,
}

-- The seconds from Go's zero time to 1970.
abbrev pub epoch : ℕ
epoch = 62135596800

abbrev pub second : ℕ
second = 1000000000

abbrev pub minute : ℕ
minute = 60 * second

-- `t.Unix()`, which rounds down
unfoldable pub unix : ℕ → ℤ
unix t =
    if leb epoch (t / second) then pos (t / second - epoch) else negsuc (epoch - t / second - 1)

-- `time.Unix(n, 0)`, for a time that is not before Go's zero time
unfoldable pub from_unix : ℤ → ℕ
from_unix (pos n) = (n + epoch) * second
from_unix (negsuc n) = (epoch - (n + 1)) * second

-- A time loses the part of its second.
pub from_unix-unix : (t : ℕ) → from_unix (unix t) ≡ t / second * second
unfolding unix from_unix
from_unix-unix t = ground arith
