-- ===== src/ExternalAuth/States.antt =====
-- app/training_hub/core/external_auth.py: the table `external_auth_states`, which ties a callback
-- to the sign-in that was started. The random texts are arguments.
use scam_screener_api.Base.{
  str_eq, ℕ, ◌+◌, Str, codes, str_beq, nat_eq, Bool, not, ◌&&◌, Option, none, some, ◌++◌, take,
  if◌then◌else◌, ◌==◌,
}
use scam_screener_api.Base.Text.{strip}
use scam_screener_api.Base.Instants.{Instant, minutes, iso_ltb}
use scam_screener_api.Base.Sql.{Table, find_row, update_table}
use scam_screener_api.Base.Sql.Unique.{has_key, insert_unique}
use scam_screener_api.Sessions.{is_filled, is_null}
use scam_screener_api.Sessions.Resolve.{normalize_user_agent_for_binding, mismatch}
use scam_screener_api.ExternalAuth.{
  Outcome, ok, refused, raised, ExternalAuthSettings, external_auth_provider_enabled,
  sanitize_redirect_path, dashboard,
}

pub record AuthState : Type 0 where
  pub created_at : Instant
  pub provider : Str
  pub state_sha256 : Str
  pub code_verifier : Str
  pub nonce : Str
  pub redirect_path : Str
  pub expires_at : Instant
  pub consumed_at : Option Instant
  pub source_ip : Str
  pub user_agent : Str

-- `state_sha256 TEXT NOT NULL UNIQUE`
abbrev pub state_key : AuthState → Str
state_key s = s.state_sha256

-- What `_consume_external_auth_state` returns where it is ok.
pub record Flow : Type 0 where
  pub id : ℕ
  pub code_verifier : Str
  pub nonce : Str
  pub redirect_path : Str

abbrev pub state_ttl_minutes : ℕ
state_ttl_minutes = 10

-- The texts of `secrets.token_urlsafe`.
pub record Secrets : Type 0 where
  pub state : Str
  pub code_verifier : Str
  pub nonce : Str

-- `_state_hash`
unfoldable pub state_hash : (Str → Str) → Str → Str → Str
state_hash sha256 state secret_key = sha256 (secret_key ++ codes ":" ++ state)

-- The row that `_store_external_auth_state` inserts; `later` is the time of `_state_expiry`.
unfoldable pub new_state :
    (Str → Str) → Str → Str → Secrets → Str → Str → Str → Instant → Instant → AuthState
unfolding state_hash strip
new_state sha256 secret_key provider secrets redirect_path source_ip user_agent now later = record {
  created_at = now;
  provider = provider;
  state_sha256 = state_hash sha256 secrets.state secret_key;
  code_verifier = secrets.code_verifier;
  nonce = secrets.nonce;
  redirect_path = redirect_path;
  expires_at = later + minutes state_ttl_minutes;
  consumed_at = none;
  source_ip = take 80 (strip source_ip);
  user_agent = take 300 (strip user_agent);
}

-- `_store_external_auth_state`; `none` for the IntegrityError.
unfoldable pub store_external_auth_state :
    (Str → Str)
    → Str
    → Str
    → Secrets
    → Str
    → Str
    → Str
    → Instant
    → Instant
    → Table AuthState
    → Option (Table AuthState)
unfolding insert_unique new_state
store_external_auth_state sha256 secret_key provider secrets redirect_path source_ip user_agent now
      later t =
    insert_unique state_key
      (new_state sha256 secret_key provider secrets redirect_path source_ip user_agent now later) t

-- `SET consumed_at = ?`
unfoldable pub consume : Instant → AuthState → AuthState
consume now s = record s { consumed_at = some now }

-- `id = ? AND consumed_at IS NULL`
unfoldable pub is_open : ℕ → ℕ → AuthState → Bool
unfolding is_null
is_open id i s = i == id && is_null s.consumed_at

unfoldable pub mark_consumed : ℕ → Instant → Table AuthState → Table AuthState
unfolding is_open consume
mark_consumed id now t = update_table (is_open id) (consume now) t

abbrev pub invalid : Str
invalid = codes "Authorization state is invalid or expired."

module _ (lower : Str → Str) (provider : Str) (user_agent : Str) (now : Instant) where
  -- What follows the SELECT by the hash of the state.
  unfoldable pub check_state :
      Option (ℕ × AuthState) → Table AuthState → Outcome Flow × Table AuthState
  unfolding is_null strip mark_consumed normalize_user_agent_for_binding
  check_state none t = (refused invalid 400, t)
  check_state (some (i, s)) t =
      if not (is_null s.consumed_at)
      then (refused invalid 400, t)
      else if not (str_beq (strip s.provider) provider)
      then (refused invalid 400, mark_consumed i now t)
      else if not (iso_ltb now s.expires_at)
      then (refused (codes "Authorization state has expired.") 400, mark_consumed i now t)
      else if mismatch lower (normalize_user_agent_for_binding lower s.user_agent)
          (normalize_user_agent_for_binding lower user_agent)
      then (
        refused (codes "Authorization state is invalid for this client.") 400,
        mark_consumed i now t,
      )
      else (
        ok (record {
          id = i;
          code_verifier = s.code_verifier;
          nonce = s.nonce;
          redirect_path = if is_filled s.redirect_path then s.redirect_path else dashboard;
        }),
        mark_consumed i now t,
      )

-- `_consume_external_auth_state`
unfoldable pub consume_external_auth_state :
    (Str → Str)
    → (Str → Str)
    → Str
    → Str
    → Str
    → Str
    → Instant
    → Table AuthState
    → Outcome Flow × Table AuthState
unfolding check_state state_hash
consume_external_auth_state sha256 lower secret_key provider state user_agent now t =
    check_state lower provider user_agent now
      (find_row (has_key state_key (state_hash sha256 state secret_key)) t.rows) t

-- The answer of `create_external_auth_redirect`, with the URL that a provider is asked for, which
-- may raise.
unfoldable pub redirect_result :
    Option Str → Option (Table AuthState) → Table AuthState → Outcome Str × Table AuthState
redirect_result url none t = (raised, t)
redirect_result none (some t') t = (raised, t')
redirect_result (some url) (some t') t = (ok url, t')

-- `create_external_auth_redirect`; `authorization_url` is `_authorization_url_for_provider`.
unfoldable pub create_external_auth_redirect :
    (Str → Str)
    → (Str → Str)
    → ExternalAuthSettings
    → (Str → Option Str)
    → Str
    → Str
    → Secrets
    → Str
    → Str
    → Instant
    → Instant
    → Table AuthState
    → Outcome Str × Table AuthState
unfolding strip external_auth_provider_enabled store_external_auth_state sanitize_redirect_path
    redirect_result
create_external_auth_redirect sha256 lower settings authorization_url provider next_path secrets
      source_ip user_agent now later t =
    let normalized_provider = lower (strip provider) in
    if not (external_auth_provider_enabled lower settings normalized_provider)
    then (refused (codes "External provider is not configured.") 404, t)
    else redirect_result (authorization_url normalized_provider)
        (store_external_auth_state sha256 settings.secret_key normalized_provider secrets
          (sanitize_redirect_path next_path) source_ip user_agent now later t)
        t
