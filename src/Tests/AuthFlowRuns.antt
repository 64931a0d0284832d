-- ===== src/Tests/AuthFlowRuns.antt =====
-- A flow of which two attempts fail.
use scam_screener_api.Base.{
  ℕ, ◌≡◌, refl, Str, codes, str_beq, str_eq, nat_eq, some, none, List, [], ◌∷◌, ◌++◌, arith,
}
use scam_screener_api.Base.Dict.{lookup}
use scam_screener_api.Base.Text.{strip}
use scam_screener_api.Base.Instants.{text_order, iso_ltb}
use scam_screener_api.Base.Sql.{Table, find_row, add_row, update_rows, update_table}
use scam_screener_api.Base.Sql.Unique.{insert_unique, IsKeyed}
use scam_screener_api.Sessions.{Hashes, one_of, is_null}
use scam_screener_api.Sessions.Resolve.{normalize_user_agent_for_binding}
use scam_screener_api.ExternalAuth.{ok, refused}
use scam_screener_api.AuthFlows.{
  AuthFlow, LoadedFlow, mfa_hash, candidate_hashes, token_key, new_flow, create_auth_flow,
  increment_auth_flow_failures, other_type, is_exhausted, check_flow, load_auth_flow,
}
use scam_screener_api.AuthFlows.Loaded.{Load, load}
use scam_screener_api.AuthFlows.Calls.{Call, step, run}

abbrev hashes : Hashes
hashes = record { sha256 = λ s. b's' ∷ s; hmac_sha256 = λ key s. key ++ s }

abbrev lower : Str → Str
lower s = s

abbrev key : Str
key = codes "key"

abbrev flow : AuthFlow ℕ
flow = record {
  created_at = 1_000_000;
  user_id = 7;
  flow_type = codes "login";
  token_sha256 = codes "keytoken";
  payload = 3;
  expires_at = 601_000_000;
  consumed_at = none;
  failed_attempts = 0;
  source_ip = codes "10.0.0.1";
  user_agent = codes "Browser";
}

abbrev table : Table (AuthFlow ℕ)
table = record { rows = (1, flow) ∷ []; next_id = 2 }

create_runs :
    create_auth_flow hashes key
      (codes "token")
      7
      (codes " login ")
      3
      10
      (codes "10.0.0.1")
      (codes "Browser")
      1_000_000
      1_000_000
      (record { rows = []; next_id = 1 })
    ≡ some table
unfolding create_auth_flow insert_unique new_flow mfa_hash find_row add_row strip
create_runs = refl

table-IsKeyed : IsKeyed token_key table
unfolding lookup
table-IsKeyed = record {
  table = record { distinct = (refl, tt); below = (omega arith, tt) };
  unique = λ i j r s e e' same. ground arith;
}

abbrev attempt : ℕ → Load
attempt n = record {
  token = codes " token ";
  flow_type = some (codes "login");
  source_ip = codes "10.0.0.1";
  user_agent = codes "Browser";
  max_attempts = some n;
  now = 2_000_000;
}

abbrev calls : List (Call ℕ)
calls =
    Call.loads (attempt 3)
    ∷ Call.fails 1
    ∷ Call.fails 2
    ∷ Call.loads (attempt 3)
    ∷ Call.fails 1
    ∷ []

abbrev answer : LoadedFlow ℕ
answer = record {
  id = 1;
  user_id = 7;
  flow_type = codes "login";
  payload = 3;
  expires_at = 601_000_000;
  failed_attempts = 2;
}

third_runs : (load hashes lower key (attempt 3) (run hashes lower key calls table)).0 ≡ ok answer
unfolding run step load load_auth_flow check_flow candidate_hashes mfa_hash one_of is_null str_beq
    find_row lookup strip other_type is_exhausted normalize_user_agent_for_binding iso_ltb
    text_order increment_auth_flow_failures update_table update_rows
third_runs = refl

-- One attempt less, and the flow is consumed.
exhausted_runs :
    (load hashes lower key (attempt 2) (run hashes lower key calls table)).0
    ≡ refused (codes "Authentication flow has expired.") 400
unfolding run step load load_auth_flow check_flow candidate_hashes mfa_hash one_of is_null str_beq
    find_row lookup strip other_type is_exhausted normalize_user_agent_for_binding iso_ltb
    text_order increment_auth_flow_failures update_table update_rows
exhausted_runs = refl
