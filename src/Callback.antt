-- ===== src/Callback.antt =====
-- app/training_hub/routes/public_auth_external.py: the callback of a sign-in at a provider, over the
-- tables that it reads and writes. What the provider answers, the random tokens, `urlsplit` and
-- `parse_qs` are arguments; the audit log is not modelled.
pub mod Exchange
pub mod Added
pub mod Entitled
use scam_screener_api.Base.{
  ℕ, Str, codes, str_beq, str_eq, nat_eq, Bool, true, false, not, ◌&&◌, ◌||◌, Option, none, some,
  List, [], ◌∷◌, ◌++◌, if◌then◌else◌, ◌==◌,
}
use scam_screener_api.Base.Dict.{Dict, lookup}
use scam_screener_api.Base.Text.{strip}
use scam_screener_api.Base.Instants.{Instant}
use scam_screener_api.Base.Sql.{Table}
use scam_screener_api.AccessPolicies.{PolicyRow, disable_login_non_admin, access_policies, is_set}
use scam_screener_api.Sessions.{Session, User, Hashes, is_filled, create_session}
use scam_screener_api.ExternalAuth.{
  Outcome, ok, refused, raised, ExternalAuthProfile, ExternalAuthSettings,
  external_auth_provider_enabled,
}
use scam_screener_api.ExternalAuth.States.{AuthState, Flow}
use scam_screener_api.ExternalAuth.Identities.{
  Accounts, lookup_external_identity_user, upsert_external_identity_user,
}
use scam_screener_api.AuthFlows.{
  AuthFlow, LoadedFlow, load_auth_flow, create_auth_flow, consume_auth_flow_by_id,
}
use Exchange.{Provider, Urls, complete_external_auth_exchange, step_up_confirm_token}

-- What the callback reads of the settings beside those of the sign-in.
pub record CallbackSettings : Type 0 where
  pub external : ExternalAuthSettings
  pub session_ttl_minutes : ℕ
  pub admin_mfa_max_attempts : ℕ

-- The payload of a flow that confirms an action: `payload.get("page", "security") or "security"`,
-- and `{**payload, "confirmed_method": ...}`.
pub record Payloads (Payload : Type 0) : Type 0 where
  pub page : Payload → Str
  pub confirmed : Str → Payload → Payload

pub record Hub (Payload : Type 0) : Type 0 where
  pub states : Table AuthState
  pub accounts : Accounts
  pub flows : Table (AuthFlow Payload)
  pub sessions : Table Session
  pub policies : Dict Str PolicyRow

-- A request to `/auth/external/{provider}/callback`, with what is random and the times that are
-- read during it.
pub record Request : Type 0 where
  pub provider : Str
  pub code : Str
  pub state : Str
  pub source_ip : Str
  pub user_agent : Str
  pub session_token : Str
  pub flow_token : Str
  pub password_hash : Str
  pub consumed_at : Instant
  pub loaded_at : Instant
  pub signed_in_at : Instant
  pub created_at : Instant

-- The redirects of the callback, and the error that is not caught. A session cookie is set with
-- the last two redirects.
pub data Response : Type 0 where
  login_error : Str → Response
  account_error : Str → Str → Response
  crashed : Response
  confirmed : Str → Response
  signed_in : Str → Response

module _ {Payload : Type 0} (hashes : Hashes) (lower : Str → Str) (urls : Urls)
    (provider : Provider) (payloads : Payloads Payload) (settings : CallbackSettings)
    (r : Request) where
  abbrev secret : Str
  secret = settings.external.secret_key

  -- `_set_session_cookie`, whose INSERT may raise.
  unfoldable pub set_session_cookie : ℕ → Response → Hub Payload → Response × Hub Payload
  unfolding create_session
  set_session_cookie user_id response hub =
      elim (create_session hashes r.session_token user_id settings.session_ttl_minutes r.source_ip
        r.user_agent secret r.created_at hub.sessions) [
          | none ↦ (crashed, hub)
          | some sessions ↦ (response, record hub { sessions = sessions })
        ]

  -- A step-up, once the identity is that of the account: the flow is consumed, and one that tells
  -- how it was confirmed takes its place.
  unfoldable pub complete_step_up : LoadedFlow Payload → Hub Payload → Response × Hub Payload
  unfolding consume_auth_flow_by_id create_auth_flow set_session_cookie
  complete_step_up flow hub =
      let flows = consume_auth_flow_by_id flow.id r.loaded_at hub.flows in
      elim (create_auth_flow hashes secret r.flow_token flow.user_id (codes "account-confirm")
        (payloads.confirmed (codes "external:" ++ r.provider) flow.payload) 10 r.source_ip
        r.user_agent r.created_at r.created_at flows) [
          | none ↦ (crashed, record hub { flows = flows })
          | some flows' ↦
              set_session_cookie flow.user_id (confirmed r.flow_token)
                (record hub { flows = flows' })
        ]

  unfoldable pub check_identity :
      LoadedFlow Payload → Outcome ℕ → Hub Payload → Response × Hub Payload
  unfolding complete_step_up
  check_identity flow (ok user_id) hub =
      if user_id == flow.user_id then complete_step_up flow hub else (
        account_error (payloads.page flow.payload)
            (codes "External confirmation did not match this account"),
        hub,
      )
  check_identity flow _ hub = (
    account_error (payloads.page flow.payload)
        (codes "External confirmation did not match this account"),
    hub,
  )

  -- By what `_load_account_confirm_flow_by_token` answers.
  unfoldable pub step_up :
      ExternalAuthProfile → Outcome (LoadedFlow Payload) → Hub Payload → Response × Hub Payload
  unfolding check_identity lookup_external_identity_user
  step_up profile (ok flow) hub =
      check_identity flow (lookup_external_identity_user profile hub.accounts.identities) hub
  step_up profile _ hub =
      (account_error (codes "security") (codes "External confirmation expired"), hub)

  -- By what `_refresh_user` finds.
  unfoldable pub admit : Str → ℕ → Option User → Hub Payload → Response × Hub Payload
  unfolding access_policies is_set set_session_cookie
  admit redirect_path user_id none hub = (login_error (codes "Account could not be loaded"), hub)
  admit redirect_path user_id (some user) hub =
      if is_set (lookup disable_login_non_admin (access_policies hub.policies))
        && not (user.is_admin == 1)
      then (login_error (codes "Login is currently disabled for non-admin accounts"), hub)
      else set_session_cookie user_id (signed_in redirect_path) hub

  -- By what `_upsert_external_identity_user` answers.
  unfoldable pub sign_in : Str → Outcome ℕ → Hub Payload → Response × Hub Payload
  unfolding admit
  sign_in redirect_path (ok user_id) hub =
      admit redirect_path user_id (lookup user_id hub.accounts.users.rows) hub
  sign_in redirect_path (refused error status) hub = (login_error error, hub)
  sign_in redirect_path raised hub = (crashed, hub)

  -- `_load_account_confirm_flow_by_token`
  unfoldable pub load_confirm_flow :
      Str → Table (AuthFlow Payload) → Outcome (LoadedFlow Payload) × Table (AuthFlow Payload)
  unfolding load_auth_flow
  load_confirm_flow confirm_token flows =
      load_auth_flow hashes lower secret (strip confirm_token) (some (codes "account-confirm"))
        r.source_ip r.user_agent (some settings.admin_mfa_max_attempts) r.loaded_at flows

  unfoldable pub confirm :
      ExternalAuthProfile
      → Outcome (LoadedFlow Payload) × Table (AuthFlow Payload)
      → Hub Payload
      → Response × Hub Payload
  unfolding step_up
  confirm profile (flow, flows) hub = step_up profile flow (record hub { flows = flows })

  unfoldable pub enter : Str → Outcome ℕ × Accounts → Hub Payload → Response × Hub Payload
  unfolding sign_in
  enter redirect_path (user, accounts) hub =
      sign_in redirect_path user (record hub { accounts = accounts })

  -- Once the exchange has succeeded.
  unfoldable pub exchanged : Str → ExternalAuthProfile → Hub Payload → Response × Hub Payload
  unfolding step_up_confirm_token load_confirm_flow confirm enter upsert_external_identity_user
  exchanged redirect_path profile hub =
      let confirm_token = step_up_confirm_token urls redirect_path in
      if is_filled confirm_token
      then confirm profile (load_confirm_flow confirm_token hub.flows) hub
      else enter redirect_path
          (upsert_external_identity_user lower settings.external r.password_hash r.signed_in_at
            profile hub.accounts)
          hub

  -- By what the exchange answers.
  unfoldable pub after_exchange :
      Outcome (Str × ExternalAuthProfile) → Hub Payload → Response × Hub Payload
  unfolding exchanged
  after_exchange (ok (redirect_path, profile)) hub = exchanged redirect_path profile hub
  after_exchange (refused error status) hub = (login_error error, hub)
  after_exchange raised hub = (login_error (codes "External sign-in failed"), hub)

  unfoldable pub with_states :
      Outcome (Str × ExternalAuthProfile) × Table AuthState → Hub Payload → Response × Hub Payload
  unfolding after_exchange
  with_states (exchange, states) hub = after_exchange exchange (record hub { states = states })

  -- `external_auth_callback`
  unfoldable pub external_auth_callback : Hub Payload → Response × Hub Payload
  unfolding complete_external_auth_exchange with_states
  external_auth_callback hub =
      if not (settings.external.github_oauth_enabled || settings.external.authelia_oidc_enabled)
      then (login_error (codes "External authentication is not configured"), hub)
      else with_states
          (complete_external_auth_exchange hashes.sha256 lower settings.external provider r.provider
            r.state r.code r.user_agent r.consumed_at hub.states)
          hub
