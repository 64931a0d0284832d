-- ===== src/Tests/SessionRuns.antt =====
-- Sessions of one user: the first is created, used, and revoked while a second one is created.
use scam_screener_api.Base.{
  ℕ, ◌≤◌, ◌≡◌, ◌≢◌, refl, Str, codes, str_beq, str_eq, nat_eq, true, some, none, [], ◌∷◌, ◌++◌, map,
  leb, if◌then◌else◌, ◌&&◌, ◌+◌, arith,
}
use scam_screener_api.Base.Dict.{Dict, lookup}
use scam_screener_api.Base.Text.{strip}
use scam_screener_api.Base.Instants.{text_order, iso_ltb}
use scam_screener_api.Base.Sql.{Table, IsTable, find_row, add_row, update_rows, update_table}
use scam_screener_api.Sessions.{
  Session, User, Hashes, SessionSettings, one_of, is_null, session_token_hash, token_hashes,
  new_session, insert_session, create_session, revoke, is_active_token, revoke_session_by_token,
  is_active_of, is_other, revoke_other_user_sessions,
}
use scam_screener_api.Sessions.Resolve.{
  ResolvedUser, normalize_user_agent_for_binding, ip_mismatch, user_agent_mismatch, admits,
  resolved_user, check_binding, resolve_user_from_session, current_user_from_request, bearer,
  partition_space, authorization_bearer_token,
}
use scam_screener_api.Sessions.Steps.{Creation, Request, Call, create, resolve, step, run}
use scam_screener_api.Sessions.Revoked.{
  resolve-revoke_session_by_token, resolve-revoke_other_user_sessions,
}
use scam_screener_api.Sessions.Issued.{IsIssued, resolve-IsIssued}
use scam_screener_api.Sessions.Created.{resolved, resolve-create}

abbrev hashes : Hashes
hashes = record { sha256 = λ s. b's' ∷ s; hmac_sha256 = λ key s. key ++ s }

abbrev lower_letter : ℕ → ℕ
lower_letter c = if leb b'A' c && leb c b'Z' then c + 32 else c

abbrev lower : Str → Str
lower = map lower_letter

abbrev settings : SessionSettings
settings = record {
  secret_key = codes "key";
  session_bind_ip = true;
  session_bind_user_agent = true;
}

abbrev ann : User
ann = record {
  created_at = 0;
  username = codes "ann";
  email = codes "ann@example.org";
  password_hash = [];
  is_admin = 0;
  mfa_enabled = 0;
  last_login_at = none;
}

abbrev users : Dict ℕ User
users = (7, ann) ∷ []

abbrev empty : Table Session
empty = record { rows = []; next_id = 1 }

abbrev creation : Str → Creation
creation token = record {
  session_token = token;
  user_id = 7;
  ttl_minutes = 60;
  remote_addr = codes " 10.0.0.1 ";
  user_agent = codes "Browser";
  now = 1_000_000;
}

abbrev request : Str → Request
request token = record {
  session_token = token;
  current_ip = codes "10.0.0.1";
  current_user_agent = codes "Browser";
  users = users;
  now = 5_000_000;
  later = 5_000_001;
}

abbrev first : Str
first = codes "first"

abbrev second : Str
second = codes "second"

abbrev row_of : Str → Session
row_of token = record {
  created_at = 1_000_000;
  user_id = 7;
  token_sha256 = codes "key" ++ token;
  expires_at = 3_601_000_000;
  revoked_at = none;
  remote_addr = codes "10.0.0.1";
  user_agent = codes "Browser";
  revoke_reason = [];
}

abbrev created : Table Session
created = record { rows = (1, row_of first) ∷ []; next_id = 2 }

created-IsTable : IsTable created
unfolding lookup
created-IsTable = record { distinct = (refl, tt); below = (omega arith, tt) }

abbrev user_of : ℕ → ResolvedUser
user_of id = record {
  session_id = id;
  user_id = 7;
  username = codes "ann";
  email = codes "ann@example.org";
  is_admin = 0;
  mfa_enabled = 0;
}

create_runs : create hashes lower settings (creation first) empty ≡ some created
unfolding create create_session insert_session new_session session_token_hash find_row add_row strip
create_runs = refl

resolve_runs : (resolve hashes lower settings (request first) created).0 ≡ some (user_of 1)
unfolding resolve resolve_user_from_session check_binding admits is_active_token token_hashes
    session_token_hash one_of is_null str_beq find_row lookup strip resolved_user ip_mismatch
    user_agent_mismatch normalize_user_agent_for_binding iso_ltb text_order
resolve_runs = refl

-- A token that is sent as a bearer, and from another address.
bearer_runs :
    current_user_from_request hashes lower settings []
      (codes " Bearer first")
      (codes "10.0.0.1")
      (codes "BROWSER")
      users
      5_000_000
      5_000_001
      created
    ≡ (some (user_of 1), created)
unfolding current_user_from_request authorization_bearer_token bearer partition_space
    resolve_user_from_session check_binding admits is_active_token token_hashes session_token_hash
    one_of is_null str_beq find_row lookup strip resolved_user ip_mismatch user_agent_mismatch
    normalize_user_agent_for_binding iso_ltb text_order
bearer_runs = refl

elsewhere_runs :
    current_user_from_request hashes lower settings first []
      (codes "10.0.0.2")
      (codes "Browser")
      users
      5_000_000
      5_000_001
      created
    ≡ (
      none,
      record {
        rows = (1, revoke 5_000_001 (codes "session-ip-mismatch") (row_of first)) ∷ [];
        next_id = 2;
      },
    )
unfolding current_user_from_request resolve_user_from_session check_binding admits is_active_token
    token_hashes session_token_hash one_of is_null str_beq find_row lookup strip resolved_user
    ip_mismatch user_agent_mismatch normalize_user_agent_for_binding iso_ltb text_order
    revoke_session_by_token update_table update_rows revoke
elsewhere_runs = refl

-- A session that expires on a whole second is still answered half a second later.
late_runs :
    (resolve hashes lower settings (record (request first) { now = 3_601_500_000 }) created).0
    ≡ some (user_of 1)
unfolding resolve resolve_user_from_session check_binding admits is_active_token token_hashes
    session_token_hash one_of is_null str_beq find_row lookup strip resolved_user ip_mismatch
    user_agent_mismatch normalize_user_agent_for_binding iso_ltb text_order
late_runs = refl

resolve-create_example :
    resolve hashes lower settings (request first) created
    ≡ (some (resolved 1 (creation first) ann), created)
unfolding lookup find_row iso_ltb text_order
resolve-create_example =
    resolve-create hashes lower settings (creation first) (request first) ann empty created
      create_runs refl refl (unfold strip in refl) refl (unfold strip in omega arith) refl refl

issued_runs :
    (resolve hashes lower settings
      (request first)
      (run hashes lower settings (Call.creates (creation first) ∷ []) empty)).0
    ≡ some (user_of 1)
unfolding run step resolve resolve_user_from_session check_binding admits is_active_token
    token_hashes session_token_hash one_of is_null str_beq find_row lookup strip resolved_user
    ip_mismatch user_agent_mismatch normalize_user_agent_for_binding iso_ltb text_order create
    create_session insert_session new_session add_row
issued_runs = refl

resolve-IsIssued_example :
    (c : Creation) × IsIssued hashes lower settings
      (Call.creates (creation first) ∷ [])
      (request first)
      (user_of 1)
      c
resolve-IsIssued_example =
    resolve-IsIssued hashes lower settings (Call.creates (creation first) ∷ []) (request first)
      (user_of 1) issued_runs

again_runs :
    (resolve hashes lower settings (request second) (
      run hashes lower settings
        (Call.creates (creation second) ∷ [])
        (revoke_session_by_token hashes first (codes "logout") (codes "key") 6_000_000 created))).0
    ≡ some (user_of 2)
unfolding run step resolve resolve_user_from_session check_binding admits is_active_token
    token_hashes session_token_hash one_of is_null str_beq find_row lookup strip resolved_user
    ip_mismatch user_agent_mismatch normalize_user_agent_for_binding iso_ltb text_order create
    create_session insert_session new_session add_row revoke_session_by_token update_table
    update_rows revoke
again_runs = refl

resolve-revoke_session_by_token_example : (user_of 2).session_id ≢ (user_of 1).session_id
resolve-revoke_session_by_token_example =
    resolve-revoke_session_by_token hashes lower settings (request first) created (user_of 1)
      (codes "logout") 6_000_000 (Call.creates (creation second) ∷ []) (request second) (user_of 2)
      created-IsTable (unfold strip in refl) refl resolve_runs again_runs

others_runs :
    (resolve hashes lower settings (request second) (
      run hashes lower settings
        (Call.creates (creation second) ∷ [])
        (revoke_other_user_sessions 7 (some 1) (codes "password-change") 6_000_000 created).1)).0
    ≡ some (user_of 2)
unfolding run step resolve resolve_user_from_session check_binding admits is_active_token
    token_hashes session_token_hash one_of is_null str_beq find_row lookup strip resolved_user
    ip_mismatch user_agent_mismatch normalize_user_agent_for_binding iso_ltb text_order create
    create_session insert_session new_session add_row revoke_other_user_sessions is_other
    is_active_of update_table update_rows revoke
others_runs = refl

resolve-revoke_other_user_sessions_example : 2 ≤ 2
resolve-revoke_other_user_sessions_example =
    resolve-revoke_other_user_sessions hashes lower settings 7 1 (codes "password-change") 6_000_000
      created (Call.creates (creation second) ∷ []) (request second) (user_of 2) created-IsTable
      others_runs refl (λ e. omega (arith, e))
