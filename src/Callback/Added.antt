-- ===== src/Callback/Added.antt =====
-- What the steps of a callback do to the sessions.
use scam_screener_api.Base.{
  ℕ, Str, codes, str_eq, nat_eq, ◌≡◌, ◌⊎◌, refl, ap, ◌∙◌, true, not, ◌&&◌, Option, none, some, ◌++◌,
  arith, Bool-cases, inl, inr, ◌==◌, ==_iff,
}
use scam_screener_api.Base.Dict.{Dict, lookup}
use scam_screener_api.Base.Sql.{Table}
use scam_screener_api.AccessPolicies.{PolicyRow, disable_login_non_admin, access_policies, is_set}
use scam_screener_api.Sessions.{Session, User, Hashes, create_session}
use scam_screener_api.ExternalAuth.{Outcome, ok, refused, raised, ExternalAuthProfile}
use scam_screener_api.ExternalAuth.Identities.{Accounts, lookup_external_identity_user}
use scam_screener_api.AuthFlows.{AuthFlow, LoadedFlow, create_auth_flow, consume_auth_flow_by_id}
use scam_screener_api.Callback.Exchange.{Provider, Urls}
use scam_screener_api.Callback.{
  CallbackSettings, Payloads, Hub, Request, Response, crashed, confirmed, signed_in,
  set_session_cookie, complete_step_up, check_identity, step_up, admit, sign_in, load_confirm_flow,
  confirm, enter,
}

module _ {Payload : Type 0} (hashes : Hashes) (lower : Str → Str) (urls : Urls)
    (provider : Provider) (payloads : Payloads Payload) (settings : CallbackSettings)
    (r : Request) where
  abbrev pub secret_key : Str
  secret_key = settings.external.secret_key

  -- The sessions are those before, or one more, of a user for whom `P` holds.
  abbrev pub Adds : (ℕ → Type 0) → Accounts → Table Session → Response × Hub Payload → Type 0
  Adds P accounts sessions o =
      (o.1.accounts ≡ accounts)
      × ((o.1.sessions ≡ sessions)
          ⊎ ((u : ℕ) × (P u
                × (create_session hashes r.session_token u settings.session_ttl_minutes r.source_ip
                      r.user_agent secret_key r.created_at sessions
                    ≡ some o.1.sessions))))

  set_session_cookie-Adds :
      (P : ℕ → Type 0) (u : ℕ) (response : Response) (hub : Hub Payload)
      → P u
      → Adds P hub.accounts hub.sessions
          (set_session_cookie hashes lower urls provider payloads settings r u response hub)
  unfolding set_session_cookie
  set_session_cookie-Adds P u response hub p =
      split
        (create_session hashes r.session_token u settings.session_ttl_minutes r.source_ip
          r.user_agent secret_key r.created_at hub.sessions)
        refl
    where
      split :
          (created : Option (Table Session))
          → create_session hashes r.session_token u settings.session_ttl_minutes r.source_ip
              r.user_agent secret_key r.created_at hub.sessions
            ≡ created
          → Adds P hub.accounts hub.sessions (elim created [
            | none ↦ (crashed, hub)
            | some sessions ↦ (response, record hub { sessions = sessions })
          ])
      split none e = (refl, inl refl)
      split (some sessions) e = (refl, inr (u, (p, e)))

  complete_step_up-Adds :
      (P : ℕ → Type 0) (flow : LoadedFlow Payload) (hub : Hub Payload)
      → P flow.user_id
      → Adds P hub.accounts hub.sessions
          (complete_step_up hashes lower urls provider payloads settings r flow hub)
  unfolding complete_step_up
  complete_step_up-Adds P flow hub p = split (
      create_auth_flow hashes secret_key r.flow_token flow.user_id (codes "account-confirm")
        (payloads.confirmed (codes "external:" ++ r.provider) flow.payload) 10 r.source_ip
        r.user_agent r.created_at r.created_at
        (consume_auth_flow_by_id flow.id r.loaded_at hub.flows))
    where
      split :
          (created : Option (Table (AuthFlow Payload)))
          → Adds P hub.accounts hub.sessions (elim created [
            | none ↦ (
              crashed,
              record hub { flows = consume_auth_flow_by_id flow.id r.loaded_at hub.flows },
            )
            | some flows' ↦
                set_session_cookie hashes lower urls provider payloads settings r flow.user_id
                  (confirmed r.flow_token)
                  (record hub { flows = flows' })
          ])
      split none = (refl, inl refl)
      split (some flows') =
          set_session_cookie-Adds P flow.user_id (confirmed r.flow_token)
            (record hub { flows = flows' }) p

  -- The flow that a step-up confirms is that of the user.
  pub Confirms : Str → Table (AuthFlow Payload) → ℕ → Type 0
  Confirms token flows u =
      (flow : LoadedFlow Payload) × ((load_confirm_flow hashes lower urls provider payloads settings
          r token flows).0
        ≡ ok flow)
      × (flow.user_id ≡ u)

  -- The user is there, and an administrator if the login of the others is disabled.
  pub Enters : Dict ℕ User → Dict Str PolicyRow → ℕ → Type 0
  Enters users policies u =
      (user : User) × (lookup u users ≡ some user)
      × (is_set (lookup disable_login_non_admin (access_policies policies)) ≡ true
          → user.is_admin ≡ 1)

  -- The account at the provider stands for this user, who confirms an action or enters.
  pub record Stands (profile : ExternalAuthProfile) (token : Str) (hub : Hub Payload)
      (accounts : Accounts) (u : ℕ) : Type 0 where
    pub linked : lookup_external_identity_user profile accounts.identities ≡ ok u
    pub reason : Confirms token hub.flows u ⊎ Enters accounts.users.rows hub.policies u

  check_identity-Adds :
      (P : ℕ → Type 0) (flow : LoadedFlow Payload) (found : Outcome ℕ) (hub : Hub Payload)
      → ((u : ℕ) → found ≡ ok u → u ≡ flow.user_id → P flow.user_id)
      → Adds P hub.accounts hub.sessions
          (check_identity hashes lower urls provider payloads settings r flow found hub)
  unfolding check_identity
  check_identity-Adds P flow (refused error status) hub p = (refl, inl refl)
  check_identity-Adds P flow raised hub p = (refl, inl refl)
  check_identity-Adds P flow (ok u) hub p = elim (Bool-cases (u == flow.user_id)) [
    | inl same ↦
        rw same (complete_step_up-Adds P flow hub (p u refl ((==_iff u flow.user_id).0 same)))
    | inr other ↦ rw other (refl, inl refl)
  ]

  pub confirm-Adds :
      (profile : ExternalAuthProfile) (token : Str) (hub : Hub Payload)
      (found : Outcome (LoadedFlow Payload) × Table (AuthFlow Payload))
      → load_confirm_flow hashes lower urls provider payloads settings r token hub.flows ≡ found
      → Adds
          (Stands profile token hub hub.accounts)
          hub.accounts
          hub.sessions
          (confirm hashes lower urls provider payloads settings r profile found hub)
  unfolding confirm step_up Confirms
  confirm-Adds profile token hub (refused error status, flows) e = (refl, inl refl)
  confirm-Adds profile token hub (raised, flows) e = (refl, inl refl)
  confirm-Adds profile token hub (ok flow, flows) e =
      check_identity-Adds (Stands profile token hub hub.accounts) flow _
        (record hub { flows = flows })
        (λ u found same. record {
          linked = found ∙ ap (λ i. ok i) same;
          reason = inl (
            flow,
            ap (λ (o : Outcome (LoadedFlow Payload) × Table (AuthFlow Payload)). o.0) e,
            refl,
          );
        })

  admit-Adds :
      (P : ℕ → Type 0) (redirect_path : Str) (u : ℕ) (found : Option User) (hub : Hub Payload)
      → ((user : User)
          → found ≡ some user
          → (is_set (lookup disable_login_non_admin (access_policies hub.policies)) ≡ true
              → user.is_admin ≡ 1)
          → P u)
      → Adds P hub.accounts hub.sessions
          (admit hashes lower urls provider payloads settings r redirect_path u found hub)
  unfolding admit
  admit-Adds P redirect_path u none hub p = (refl, inl refl)
  admit-Adds P redirect_path u (some user) hub p =
      elim (Bool-cases (
        is_set (lookup disable_login_non_admin (access_policies hub.policies))
        && not (user.is_admin == 1))) [
          | inl blocked ↦ rw blocked (refl, inl refl)
          | inr free ↦ rw free (
              set_session_cookie-Adds P u (signed_in redirect_path) hub
                (p user refl (λ disabled. ground (arith, free, disabled, ==_iff user.is_admin 1))))
        ]

  pub enter-Adds :
      (profile : ExternalAuthProfile) (token redirect_path : Str) (hub : Hub Payload)
      (found : Outcome ℕ × Accounts)
      → ((u : ℕ) → found.0 ≡ ok u → lookup_external_identity_user profile found.1.identities ≡ ok u)
      → Adds
          (Stands profile token hub found.1)
          found.1
          hub.sessions
          (enter hashes lower urls provider payloads settings r redirect_path found hub)
  unfolding enter sign_in Enters
  enter-Adds profile token redirect_path hub (refused error status, accounts) linked =
      (refl, inl refl)
  enter-Adds profile token redirect_path hub (raised, accounts) linked = (refl, inl refl)
  enter-Adds profile token redirect_path hub (ok u, accounts) linked =
      admit-Adds (Stands profile token hub accounts) redirect_path u _
        (record hub { accounts = accounts })
        (λ user found admin. record { linked = linked u refl; reason = inr (user, found, admin) })
