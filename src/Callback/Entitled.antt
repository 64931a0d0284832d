-- ===== src/Callback/Entitled.antt =====
-- For whom the callback of a sign-in creates a session.
use scam_screener_api.Base.{
  ℕ, Str, str_eq, nat_eq, ◌≡◌, ◌⊎◌, refl, sym, ap, subst, ◌∙◌, not, ◌||◌, some, [], either,
  Bool-cases, inl, inr,
}
use scam_screener_api.Base.Text.{strip}
use scam_screener_api.Base.Sql.{Table}
use scam_screener_api.Sessions.{Session, Hashes, is_filled, create_session}
use scam_screener_api.ExternalAuth.{
  Outcome, ok, refused, raised, ExternalAuthProfile, authorize_external_profile, refused-ne-ok,
  >>=-eq-ok, ok-injective,
}
use scam_screener_api.ExternalAuth.States.{AuthState, Flow, consume_external_auth_state}
use scam_screener_api.ExternalAuth.Identities.{
  Accounts, lookup_external_identity_user, upsert_external_identity_user,
}
use scam_screener_api.ExternalAuth.Accounts.{IsInOrder}
use scam_screener_api.ExternalAuth.Linked.{SignIn, upsert, accounts_after, upsert-upsert}
use scam_screener_api.Callback.Exchange.{
  Provider, Urls, profile_from_code, exchange, complete_external_auth_exchange,
  step_up_confirm_token,
}
use scam_screener_api.Callback.{
  CallbackSettings, Payloads, Hub, Request, Response, load_confirm_flow, confirm, enter, exchanged,
  after_exchange, with_states, external_auth_callback,
}
use scam_screener_api.Callback.Added.{Adds, Confirms, Enters, Stands, confirm-Adds, enter-Adds}

module _ {Payload : Type 0} (hashes : Hashes) (lower : Str → Str) (urls : Urls)
    (provider : Provider) (payloads : Payloads Payload) (settings : CallbackSettings)
    (r : Request) where
  -- The sessions are those before, or one more, of a user who is entitled to it by the accounts
  -- that are left.
  abbrev pub Entitles : (Accounts → ℕ → Type 0) → Table Session → Response × Hub Payload → Type 0
  Entitles Q sessions o =
      (o.1.sessions ≡ sessions)
      ⊎ ((u : ℕ) × (Q o.1.accounts u
            × (create_session hashes r.session_token u settings.session_ttl_minutes r.source_ip
                  r.user_agent settings.external.secret_key r.created_at sessions
                ≡ some o.1.sessions)))

  Adds-Entitles :
      (Q : Accounts → ℕ → Type 0) (accounts : Accounts) (sessions : Table Session)
      (o : Response × Hub Payload)
      → Adds hashes lower urls provider payloads settings r (Q accounts) accounts sessions o
      → Entitles Q sessions o
  Adds-Entitles Q accounts sessions o (same, inl kept) = inl kept
  Adds-Entitles Q accounts sessions o (same, inr (u, (p, e))) =
      inr (u, (subst (λ a. Q a u) (sym same) p, e))

  upsert-linked :
      (profile : ExternalAuthProfile) (a : Accounts)
      → IsInOrder a
      → (u : ℕ)
      → (upsert_external_identity_user lower settings.external r.password_hash r.signed_in_at
          profile a).0
        ≡ ok u
      → lookup_external_identity_user profile
          (upsert_external_identity_user lower settings.external r.password_hash r.signed_in_at
            profile a).1.identities
        ≡ ok u
  unfolding upsert accounts_after
  upsert-linked profile a h u e =
      let s : SignIn = record {
        profile = profile;
        password_hash = r.password_hash;
        now = r.signed_in_at;
      } in
      (upsert-upsert lower settings.external s s u [] a h e refl).1

  exchange-told :
      (name code : Str) (flow : Flow) (path : Str) (profile : ExternalAuthProfile)
      → exchange hashes.sha256 lower settings.external provider name code flow ≡ ok (path, profile)
      → (flow.redirect_path ≡ path)
        × (profile_from_code provider name code flow ≡ ok profile)
        × (authorize_external_profile lower settings.external profile ≡ ok tt)
  unfolding exchange
  exchange-told name code flow path profile e = elim (Bool-cases (is_filled (strip code))) [
    | inl filled ↦
        let (p, (told, rest)) =
          >>=-eq-ok (profile_from_code provider name code flow) _ (path, profile)
            (rw filled at e) in
        let (allowed, (is_allowed, answer)) =
          >>=-eq-ok (authorize_external_profile lower settings.external p) _ (path, profile) rest in
        let same = ok-injective (flow.redirect_path, p) (path, profile) answer in
        let is_p : p ≡ profile = ap (λ (o : Str × ExternalAuthProfile). o.1) same in
        (
          ap (λ (o : Str × ExternalAuthProfile). o.0) same,
          told ∙ ap (λ q. ok q) is_p,
          ap (authorize_external_profile lower settings.external) (sym is_p) ∙ is_allowed,
        )
    | inr missing ↦ absurd (refused-ne-ok _ _ (path, profile) (rw missing at e))
  ]

  exchanged-Entitles :
      (redirect_path : Str) (profile : ExternalAuthProfile) (hub : Hub Payload)
      → IsInOrder hub.accounts
      → Entitles
          (Stands hashes lower urls provider payloads settings r profile
            (step_up_confirm_token urls redirect_path)
            hub)
          hub.sessions
          (exchanged hashes lower urls provider payloads settings r redirect_path profile hub)
  unfolding exchanged
  exchanged-Entitles redirect_path profile hub h =
      let token = step_up_confirm_token urls redirect_path in
      let entered =
        upsert_external_identity_user lower settings.external r.password_hash r.signed_in_at profile
          hub.accounts in
      either
        (Entitles (Stands hashes lower urls provider payloads settings r profile token hub)
          hub.sessions)
        (is_filled token)
        (Adds-Entitles (Stands hashes lower urls provider payloads settings r profile token hub)
          hub.accounts hub.sessions
          (confirm hashes lower urls provider payloads settings r profile
            (load_confirm_flow hashes lower urls provider payloads settings r token hub.flows) hub)
          (confirm-Adds hashes lower urls provider payloads settings r profile token hub _ refl))
        (Adds-Entitles (Stands hashes lower urls provider payloads settings r profile token hub)
          entered.1 hub.sessions
          (enter hashes lower urls provider payloads settings r redirect_path entered hub)
          (enter-Adds hashes lower urls provider payloads settings r profile token redirect_path hub
            _ (upsert-linked profile hub.accounts h)))

  -- The state of the callback was accepted, the provider told this account for the code and for what
  -- was stored with the state, and the account is on the lists of those that may sign in.
  pub record IsEntitled (hub : Hub Payload) (accounts : Accounts) (u : ℕ) : Type 0 where
    pub flow : Flow
    pub profile : ExternalAuthProfile
    pub accepted :
        (consume_external_auth_state hashes.sha256 lower settings.external.secret_key
          (lower (strip r.provider))
          r.state
          r.user_agent
          r.consumed_at
          hub.states).0
        ≡ ok flow
    pub told : profile_from_code provider (lower (strip r.provider)) r.code flow ≡ ok profile
    pub allowed : authorize_external_profile lower settings.external profile ≡ ok tt
    pub linked : lookup_external_identity_user profile accounts.identities ≡ ok u
    pub reason :
        Confirms hashes lower urls provider payloads settings r
          (step_up_confirm_token urls flow.redirect_path)
          hub.flows
          u
        ⊎ Enters hashes lower urls provider payloads settings r accounts.users.rows hub.policies u

  -- What is entitled by the account that was told for an accepted flow.
  Stands-IsEntitled :
      (hub : Hub Payload) (states : Table AuthState) (path : Str) (profile : ExternalAuthProfile)
      (o : Response × Hub Payload)
      → complete_external_auth_exchange hashes.sha256 lower settings.external provider r.provider
          r.state r.code r.user_agent r.consumed_at hub.states
        ≡ (ok (path, profile), states)
      → Entitles
          (Stands hashes lower urls provider payloads settings r profile
            (step_up_confirm_token urls path)
            (record hub { states = states }))
          hub.sessions
          o
      → Entitles (IsEntitled hub) hub.sessions o
  unfolding complete_external_auth_exchange
  Stands-IsEntitled hub states path profile o e (inl kept) = inl kept
  Stands-IsEntitled hub states path profile o e (inr (u, (stands, created))) =
      let name = lower (strip r.provider) in
      let consumed =
        consume_external_auth_state hashes.sha256 lower settings.external.secret_key name r.state
          r.user_agent r.consumed_at hub.states in
      let (flow, (accepted, exchange_ok)) =
        >>=-eq-ok consumed.0 (exchange hashes.sha256 lower settings.external provider name r.code)
          (path, profile)
          (ap (λ (o : Outcome (Str × ExternalAuthProfile) × Table AuthState). o.0) e) in
      let (is_path, told, allowed) = exchange-told name r.code flow path profile exchange_ok in
      inr (
        u,
        (
          record {
            flow = flow;
            profile = profile;
            accepted = accepted;
            told = told;
            allowed = allowed;
            linked = stands.linked;
            reason =
                subst
                  (λ k.
                    Confirms hashes lower urls provider payloads settings r
                      (step_up_confirm_token urls k) hub.flows u
                    ⊎ Enters hashes lower urls provider payloads settings r o.1.accounts.users.rows
                        hub.policies u)
                  (sym is_path) stands.reason;
          },
          created,
        ),
      )

  with_states-Entitles :
      (hub : Hub Payload) (found : Outcome (Str × ExternalAuthProfile) × Table AuthState)
      → IsInOrder hub.accounts
      → complete_external_auth_exchange hashes.sha256 lower settings.external provider r.provider
          r.state r.code r.user_agent r.consumed_at hub.states
        ≡ found
      → Entitles
          (IsEntitled hub)
          hub.sessions
          (with_states hashes lower urls provider payloads settings r found hub)
  unfolding with_states after_exchange
  with_states-Entitles hub (refused error status, states) h e = inl refl
  with_states-Entitles hub (raised, states) h e = inl refl
  with_states-Entitles hub (ok (path, profile), states) h e =
      Stands-IsEntitled hub states path profile
        (exchanged hashes lower urls provider payloads settings r path profile
          (record hub { states = states }))
        e (exchanged-Entitles path profile (record hub { states = states }) h)

  -- The callback of a sign-in leaves the sessions as they were, or adds one of a user who is
  -- entitled to it: the state of the callback is accepted; the provider tells an account for the code
  -- and for what was stored with the state; the account is allowed to sign in and stands for the
  -- user; and either the user's own flow is confirmed, or the user is there and is an administrator
  -- if the login of others is disabled. The tables of the accounts are in order before.
  pub external_auth_callback-IsEntitled :
      (hub : Hub Payload)
      → IsInOrder hub.accounts
      → Entitles
          (IsEntitled hub)
          hub.sessions
          (external_auth_callback hashes lower urls provider payloads settings r hub)
  unfolding external_auth_callback
  external_auth_callback-IsEntitled hub h =
      either (Entitles (IsEntitled hub) hub.sessions)
        (not (settings.external.github_oauth_enabled || settings.external.authelia_oidc_enabled))
        (inl refl)
        (with_states-Entitles hub
          (complete_external_auth_exchange hashes.sha256 lower settings.external provider r.provider
            r.state r.code r.user_agent r.consumed_at hub.states)
          h refl)
