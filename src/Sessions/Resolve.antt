-- ===== src/Sessions/Resolve.antt =====
-- app/training_hub/core/session_auth_session.py: who a session token stands for, and
-- `_authorization_bearer_token` and `_normalize_user_agent_for_binding` of common.py.
use scam_screener_api.Base.{
  ℕ, Str, codes, str_beq, str_beq_iff, ◌≡◌, arith, nat_eq, Bool, false, not, ◌&&◌, Option, none,
  some, [], ◌∷◌, take, if◌then◌else◌, ◌==◌,
}
use scam_screener_api.Base.Dict.{Dict, lookup}
use scam_screener_api.Base.Text.{strip}
use scam_screener_api.Base.Instants.{Instant, iso_ltb}
use scam_screener_api.Base.Sql.{Table, find_row}
use scam_screener_api.Sessions.{
  Session, User, Hashes, SessionSettings, is_filled, is_null, token_hashes, is_active_token,
  revoke_session_by_token,
}

-- The dict that `_resolve_user_from_session` returns.
pub record ResolvedUser : Type 0 where
  pub session_id : ℕ
  pub user_id : ℕ
  pub username : Str
  pub email : Str
  pub is_admin : ℕ
  pub mfa_enabled : ℕ

-- `text.partition(" ")`, without the separator; `none` where there is none.
unfoldable pub partition_space : Str → Option (Str × Str)
partition_space [] = none
partition_space (c ∷ s) =
    let rest = partition_space s in
    if c == 32
    then some ([], s)
    else elim rest [ none ↦ none | some (before, after) ↦ some (c ∷ before, after) ]

module _ (lower : Str → Str) where
  -- `_normalize_user_agent_for_binding`
  unfoldable pub normalize_user_agent_for_binding : Str → Str
  unfolding strip
  normalize_user_agent_for_binding value = take 180 (lower (strip value))

  unfoldable pub bearer : Option (Str × Str) → Str
  unfolding strip
  bearer none = []
  bearer (some (scheme, token)) =
      if str_beq (lower (strip scheme)) (codes "bearer") then strip token else []

  -- `_authorization_bearer_token`
  unfoldable pub authorization_bearer_token : Str → Str
  unfolding strip bearer partition_space
  authorization_bearer_token value =
      let normalized = strip value in
      if is_filled normalized then bearer (partition_space normalized) else []

  -- `if ... != ...` where both are filled.
  abbrev pub mismatch : Str → Str → Bool
  mismatch expected actual =
      is_filled expected && (is_filled actual && not (str_beq expected actual))

  pub mismatch_self : (s : Str) → mismatch s s ≡ false
  mismatch_self s = ground (arith, str_beq_iff s s)

  unfoldable pub ip_mismatch : SessionSettings → Session → Str → Bool
  unfolding strip
  ip_mismatch settings s current_ip =
      settings.session_bind_ip && mismatch (strip s.remote_addr) current_ip

  unfoldable pub user_agent_mismatch : SessionSettings → Session → Str → Bool
  unfolding strip normalize_user_agent_for_binding
  user_agent_mismatch settings s current_user_agent =
      settings.session_bind_user_agent
      && mismatch (normalize_user_agent_for_binding (strip s.user_agent))
          (normalize_user_agent_for_binding current_user_agent)

-- The JOIN with `users` and the WHERE clause.
unfoldable pub admits : Str → Hashes → Str → Dict ℕ User → Instant → ℕ → Session → Bool
unfolding is_null is_active_token token_hashes
admits secret_key hashes session_token users now i s =
    not (is_null (lookup s.user_id users))
    && (is_active_token (token_hashes hashes session_token secret_key) i s
        && iso_ltb now s.expires_at)

unfoldable pub resolved_user : ℕ → Session → Option User → Option ResolvedUser
resolved_user i s none = none
resolved_user i s (some user) = some (record {
  session_id = i;
  user_id = s.user_id;
  username = user.username;
  email = user.email;
  is_admin = user.is_admin;
  mfa_enabled = user.mfa_enabled;
})

module _ (hashes : Hashes) (lower : Str → Str) (settings : SessionSettings) (session_token : Str)
    (current_ip current_user_agent : Str) (users : Dict ℕ User) where
  -- What follows the SELECT; `later` is the time of the revocation.
  unfoldable pub check_binding :
      Instant → Option (ℕ × Session) → Table Session → Option ResolvedUser × Table Session
  unfolding ip_mismatch user_agent_mismatch resolved_user
  check_binding later none t = (none, t)
  check_binding later (some (i, s)) t =
      if ip_mismatch lower settings s current_ip
      then (
        none,
        revoke_session_by_token hashes session_token (codes "session-ip-mismatch")
            settings.secret_key later t,
      )
      else if user_agent_mismatch lower settings s current_user_agent
      then (
        none,
        revoke_session_by_token hashes session_token (codes "session-ua-mismatch")
            settings.secret_key later t,
      )
      else (resolved_user i s (lookup s.user_id users), t)

  -- `_resolve_user_from_session`
  unfoldable pub resolve_user_from_session :
      Instant → Instant → Table Session → Option ResolvedUser × Table Session
  unfolding check_binding admits
  resolve_user_from_session now later t =
      check_binding later
        (find_row (admits settings.secret_key hashes session_token users now) t.rows) t

-- `_current_user_from_request`, from the cookie and the two headers of the request.
unfoldable pub current_user_from_request :
    Hashes
    → (Str → Str)
    → SessionSettings
    → Str
    → Str
    → Str
    → Str
    → Dict ℕ User
    → Instant
    → Instant
    → Table Session
    → Option ResolvedUser × Table Session
unfolding strip authorization_bearer_token resolve_user_from_session
current_user_from_request hashes lower settings cookie authorization current_ip current_user_agent
      users now later t =
    let in_cookie = strip cookie in
    let session_token =
      if is_filled in_cookie then in_cookie else authorization_bearer_token lower authorization in
    if is_filled session_token
    then resolve_user_from_session hashes lower settings session_token current_ip current_user_agent
        users now later t
    else (none, t)
