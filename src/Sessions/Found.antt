-- ===== src/Sessions/Found.antt =====
-- What is known of the session behind an answer of `_resolve_user_from_session`.
use mathlib.Core.Option.{none-ne-some, some-injective}
use scam_screener_api.Base.{
  ℕ, nat_eq, Str, ◌≡◌, refl, sym, ap, ◌∙◌, true, false, Option, none, some, arith, Bool-cases, inl,
  inr,
}
use scam_screener_api.Base.Dict.{lookup}
use scam_screener_api.Base.Instants.{iso_ltb}
use scam_screener_api.Base.Sql.{Table, IsTable, find_row, find_row-holds, lookup-find_row}
use scam_screener_api.Sessions.{
  Session, User, Hashes, SessionSettings, is_null, one_of, is_active_token, token_hashes,
}
use scam_screener_api.Sessions.Resolve.{
  ResolvedUser, ip_mismatch, user_agent_mismatch, check_binding, admits, resolved_user,
  resolve_user_from_session,
}
use scam_screener_api.Sessions.Steps.{Request, resolve}

module _ (hashes : Hashes) (lower : Str → Str) (settings : SessionSettings) where
  -- The session is in the table, for this user and under a hash of the token; it is not revoked,
  -- its expiry has a later text than the time, and it is not bound to another client.
  pub record IsLive (r : Request) (t : Table Session) (u : ResolvedUser) : Type 0 where
    pub session : Session
    pub stored : lookup u.session_id t.rows ≡ some session
    pub owner : session.user_id ≡ u.user_id
    pub token :
        one_of session.token_sha256 (token_hashes hashes r.session_token settings.secret_key) ≡ true
    pub active : is_null session.revoked_at ≡ true
    pub unexpired : iso_ltb r.now session.expires_at ≡ true
    pub same_ip : ip_mismatch lower settings session r.current_ip ≡ false
    pub same_agent : user_agent_mismatch lower settings session r.current_user_agent ≡ false

  -- Who is answered, from the row that was found.
  Answered : Request → Option (ℕ × Session) → ResolvedUser → Type 0
  Answered r none u = ⊥
  Answered r (some (i, s)) u =
      (u.session_id ≡ i)
      × (u.user_id ≡ s.user_id)
      × (ip_mismatch lower settings s r.current_ip ≡ false)
      × (user_agent_mismatch lower settings s r.current_user_agent ≡ false)

  resolved_user-ids :
      (i : ℕ) (s : Session) (user : Option User) (u : ResolvedUser)
      → resolved_user i s user ≡ some u
      → (u.session_id ≡ i) × (u.user_id ≡ s.user_id)
  unfolding resolved_user
  resolved_user-ids i s none u e = absurd (none-ne-some u e)
  resolved_user-ids i s (some user) u e =
      let same = sym (some-injective _ u e) in
      (ap (λ (u : ResolvedUser). u.session_id) same, ap (λ (u : ResolvedUser). u.user_id) same)

  check_binding-Answered :
      (r : Request) (found : Option (ℕ × Session)) (t : Table Session) (u : ResolvedUser)
      → (check_binding hashes lower settings r.session_token r.current_ip r.current_user_agent
          r.users r.later found t).0
        ≡ some u
      → Answered r found u
  unfolding check_binding Answered
  check_binding-Answered r none t u e = none-ne-some u e
  check_binding-Answered r (some (i, s)) t u e =
      elim (Bool-cases (ip_mismatch lower settings s r.current_ip)) [
        | inl moved ↦ absurd (none-ne-some u (rw moved at e))
        | inr same_ip ↦
            elim (Bool-cases (user_agent_mismatch lower settings s r.current_user_agent)) [
              | inl other ↦ absurd (none-ne-some u (rw (same_ip, other) at e))
              | inr same ↦
                  let ids =
                    resolved_user-ids i s (lookup s.user_id r.users) u (rw (same_ip, same) at e) in
                  (ids.0, ids.1, same_ip, same)
            ]
      ]

  IsLive-found :
      (r : Request) (t : Table Session) (u : ResolvedUser)
      → IsTable t
      → (found : Option (ℕ × Session))
      → find_row (admits settings.secret_key hashes r.session_token r.users r.now) t.rows ≡ found
      → Answered r found u
      → IsLive r t u
  unfolding Answered admits is_active_token
  IsLive-found r t u h none e a = absurd a
  IsLive-found r t u h (some (i, s)) e (is_i, owner, ip, agent) =
      let holds =
        find_row-holds (admits settings.secret_key hashes r.session_token r.users r.now) t.rows i s
          e in
      let stored =
        lookup-find_row (admits settings.secret_key hashes r.session_token r.users r.now) t.rows i s
          h.distinct e in
      record {
        session = s;
        stored = ap (λ k. lookup k t.rows) is_i ∙ stored;
        owner = sym owner;
        token = ground (arith, holds);
        active = ground (arith, holds);
        unexpired = ground (arith, holds);
        same_ip = ip;
        same_agent = agent;
      }

  pub resolve-IsLive :
      (r : Request) (t : Table Session) (u : ResolvedUser)
      → IsTable t
      → (resolve hashes lower settings r t).0 ≡ some u
      → IsLive r t u
  unfolding resolve resolve_user_from_session
  resolve-IsLive r t u h e = IsLive-found r t u h _ refl (check_binding-Answered r _ t u e)
