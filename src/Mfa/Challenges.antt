-- ===== src/Mfa/Challenges.antt =====
-- app/training_hub/core/mfa.py: the login challenge from its creation to its completion by a code.
use scam_screener_api.Base.{ℕ, Str, codes, str_eq, nat_eq, Bool, true, false, Option, some, []}
use scam_screener_api.Base.Instants.{Instant}
use scam_screener_api.Base.Sql.{Table}
use scam_screener_api.Sessions.{Hashes}
use scam_screener_api.ExternalAuth.{Outcome, ok, refused, raised}
use scam_screener_api.AuthFlows.{
  AuthFlow, LoadedFlow, mfa_hash, create_auth_flow, consume_auth_flow_by_id,
  increment_auth_flow_failures,
}
use scam_screener_api.AuthFlows.Loaded.{Load, load}
use scam_screener_api.Mfa.{
  MfaSettings, Factors, LoginPayload, mfa_state, Verdict, accepted, rejected, broken, Login, judge,
}
use scam_screener_api.Mfa.Totp.{Codes}

-- A code that is submitted for a challenge, with the times at which the flow is loaded, the code is
-- compared and the flow is consumed.
pub record Challenge : Type 0 where
  pub token : Str
  pub code : Str
  pub source_ip : Str
  pub user_agent : Str
  pub loaded_at : Instant
  pub compared_at : Instant
  pub consumed_at : Instant

pub record MfaTables : Type 0 where
  pub factors : Factors
  pub flows : Table (AuthFlow LoginPayload)

abbrev pub login_mfa : Str
login_mfa = codes "login-mfa"

unfoldable pub payload_of : Hashes → Str → Bool → Str → LoginPayload
unfolding mfa_hash
payload_of hashes secret_key true email_code = record {
  allow_email_bridge = true;
  email_code_sha256 = mfa_hash hashes email_code secret_key;
}
payload_of hashes secret_key false email_code = record {
  allow_email_bridge = false;
  email_code_sha256 = [];
}

-- `_create_login_challenge`, with the random token and the random code.
unfoldable pub create_login_challenge :
    Hashes
    → MfaSettings
    → Str
    → Str
    → ℕ
    → Str
    → Str
    → Instant
    → Instant
    → MfaTables
    → Option (Table (AuthFlow LoginPayload))
unfolding mfa_state payload_of create_auth_flow
create_login_challenge hashes settings token email_code user_id source_ip user_agent now later t =
    let state = mfa_state settings user_id t.factors in
    create_auth_flow hashes settings.secret_key token user_id login_mfa
      (payload_of hashes settings.secret_key state.email_bridge_allowed email_code)
      settings.admin_mfa_ttl_minutes source_ip user_agent now later t.flows

abbrev pub load_of : MfaSettings → Challenge → Load
load_of settings c = record {
  token = c.token;
  flow_type = some login_mfa;
  source_ip = c.source_ip;
  user_agent = c.user_agent;
  max_attempts = some settings.admin_mfa_max_attempts;
  now = c.loaded_at;
}

module _ (codes_of : Codes) (hashes : Hashes) (lower : Str → Str) (settings : MfaSettings) where
  -- By what the code turned out to be.
  unfoldable pub conclude :
      Challenge
      → LoadedFlow LoginPayload
      → Verdict × Factors
      → Table (AuthFlow LoginPayload)
      → Outcome Login × MfaTables
  unfolding consume_auth_flow_by_id increment_auth_flow_failures
  conclude c flow (accepted method setup, factors) flows = (
    ok (record { user_id = flow.user_id; method = method; admin_setup_required = setup }),
    record { factors = factors; flows = consume_auth_flow_by_id flow.id c.consumed_at flows },
  )
  conclude c flow (rejected, factors) flows = (
    refused (codes "Invalid verification code.") 401,
    record { factors = factors; flows = increment_auth_flow_failures flow.id flows },
  )
  conclude c flow (broken, factors) flows = (raised, record { factors = factors; flows = flows })

  abbrev pub judged : Challenge → LoadedFlow LoginPayload → Factors → Verdict × Factors
  judged c flow factors =
      judge codes_of hashes settings flow.user_id c.code c.compared_at flow.payload
        (mfa_state settings flow.user_id factors) factors

  -- By what `_validate_login_challenge` answers.
  unfoldable pub validated :
      Challenge
      → Outcome (LoadedFlow LoginPayload) × Table (AuthFlow LoginPayload)
      → Factors
      → Outcome Login × MfaTables
  unfolding mfa_state judge conclude
  validated c (ok flow, flows) factors = conclude c flow (judged c flow factors) flows
  validated c (refused error status, flows) factors =
      (refused error status, record { factors = factors; flows = flows })
  validated c (raised, flows) factors = (raised, record { factors = factors; flows = flows })

  -- `_complete_login_challenge_with_code`
  unfoldable pub complete_login_challenge_with_code :
      Challenge → MfaTables → Outcome Login × MfaTables
  unfolding load validated
  complete_login_challenge_with_code c t =
      validated c (load hashes lower settings.secret_key (load_of settings c) t.flows) t.factors
