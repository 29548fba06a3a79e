-- ===== src/Tests/Registrations.antt =====
-- store.go: registrations of an agent with a token.
use vibe_terminal.Base.{◌≡◌, ◌≢◌, refl, false, none, some, [], ◌∷◌}
use vibe_terminal.Store.Rows.{AgentToken, Tables}
use vibe_terminal.Store.Db.{ok, Conn, transaction}
use vibe_terminal.Store.Table.{update_where, find_where}
use vibe_terminal.Store.TwoFactor.Consume.{IsAtomic}
use vibe_terminal.Store.Tokens.{usable, mark_used, has_id, use_agent_token_by_hash}
use vibe_terminal.Store.Tokens.SingleUse.{run}
use vibe_terminal.Store.Tokens.Registration.{
  mark, use_agent_token-IsAtomic, use_agent_token_lem, token_single_use,
}

abbrev token : AgentToken
token = record {
  id = "t1";
  name = "laptop";
  token_hash = "h1";
  expires_at = 500;
  used_at = none;
  revoked_at = none;
  created_at = 10;
}

abbrev tables : Tables
tables = record {
  users = [];
  user_two_factor = [];
  two_factor_recovery_codes = [];
  login_challenges = [];
  agent_tokens = token ∷ [];
  devices = [];
  terminal_sessions = [];
  audit_events = [];
  terminal_output_chunks = [];
  command_snippets = [];
}

abbrev conn : Conn
conn = record { tables = tables; faults = λ n. false }

registered : (use_agent_token_by_hash "h1" 100 conn).0 ≡ ok (mark 100 token)
unfolding use_agent_token_by_hash mark_used transaction update_where find_where
registered = refl

use_agent_token-IsAtomic_example : IsAtomic conn (use_agent_token_by_hash "h2" 100 conn)
use_agent_token-IsAtomic_example = use_agent_token-IsAtomic "h2" 100 conn

use_agent_token_example :
    (found : AgentToken) × (find_where (usable "h1" 100) tables.agent_tokens ≡ some found)
    × (mark 100 token ≡ mark 100 found)
    × ((use_agent_token_by_hash "h1" 100 conn).1.tables ≡ record tables {
      agent_tokens = update_where (has_id found.id) (mark 100) tables.agent_tokens;
    })
use_agent_token_example = use_agent_token_lem "h1" 100 conn (mark 100 token) registered

token_single_use_example :
    (use_agent_token_by_hash "h1" 300 (run (use_agent_token_by_hash "h1" 100 conn).1 [])).0
    ≢ ok (mark 300 token)
token_single_use_example =
    token_single_use "h1" 100 300 conn (mark 100 token) (mark 300 token) [] (tt, tt) registered tt
