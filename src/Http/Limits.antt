-- ===== src/Http/Limits.antt =====
-- server/internal/httpapi: how the handlers use the three limiters.
use vibe_terminal.Base.{String, none, some, List, [], ◌∷◌, if◌then◌else◌}
use Prim.Native.String.{◌++◌}
use vibe_terminal.Limiter.{FailureLimiter}
use vibe_terminal.Limiter.Attempts.{allow_login_attempt, record_login_failure, clear_login_failures}
use vibe_terminal.Http.{Packages, World, App, Http, write_rate_limit}

-- The limiter that a handler uses.
pub data Guard : Type 0 where
  password second_factor management : Guard

unfoldable pub limiter : Guard → App → FailureLimiter
limiter password s = s.password_limiter
limiter second_factor s = s.two_factor_limiter
limiter management s = s.management_limiter

unfoldable pub set_limiter : Guard → FailureLimiter → App → App
set_limiter password l s = record s { password_limiter = l }
set_limiter second_factor l s = record s { two_factor_limiter = l }
set_limiter management l s = record s { management_limiter = l }

-- `allowLoginAttempt`, and the handler goes on if it allows.
unfoldable pub attempt : World → Guard → List String → Http → Http
unfolding limiter set_limiter write_rate_limit
attempt o g keys k s =
    let (l, allowed, retry_after) = allow_login_attempt (limiter g s) keys o.allow_at in
    if allowed then k (set_limiter g l s) else write_rate_limit retry_after (set_limiter g l s)

-- `recordLoginFailure`: if the key is blocked now, an audit event and the time to wait, and else the
-- error.
unfoldable pub reject : World → Guard → List String → (Http → Http) → Http → Http
unfolding limiter set_limiter write_rate_limit
reject o g keys audit refuse s =
    let (l, blocked, retry_after) = record_login_failure (limiter g s) keys o.record_at in
    if blocked
    then audit (write_rate_limit retry_after) (set_limiter g l s)
    else refuse (set_limiter g l s)

-- `clearLoginFailures`
unfoldable pub clear : Guard → List String → Http → Http
unfolding limiter set_limiter
clear g keys k s = k (set_limiter g (clear_login_failures (limiter g s) keys) s)

unfoldable pub request_ip : Packages → String → String
request_ip lib remote_addr = elim (lib.split_host remote_addr) [
  | none ↦ remote_addr
  | some host ↦ host
]

unfoldable pub password_login_limit_keys : Packages → String → String → List String
password_login_limit_keys lib username source_ip =
    let account = lib.to_lower (lib.trim_space username) in
    ("account|" ++ account)
    ∷ ("source|" ++ source_ip)
    ∷ ("account_source|" ++ account ++ "|" ++ source_ip)
    ∷ []

unfoldable pub second_factor_limit_keys : String → String → List String
second_factor_limit_keys user_id source_ip =
    ("user|" ++ user_id)
    ∷ ("source|" ++ source_ip)
    ∷ ("user_source|" ++ user_id ++ "|" ++ source_ip)
    ∷ []

unfoldable pub management_limit_keys : String → String → List String
management_limit_keys user_id source_ip =
    ("user|" ++ user_id)
    ∷ ("source|" ++ source_ip)
    ∷ ("user_source|" ++ user_id ++ "|" ++ source_ip)
    ∷ []
