-- ===== src/Sessions/Created.antt =====
-- The token of a new session stands for its user, from the same client, until it expires.
use mathlib.Core.Option.{none-ne-some, some-injective}
use scam_screener_api.Base.{
  ℕ, ◌+◌, ◌≤◌, Str, str_beq, str_beq_iff, ◌≡◌, refl, sym, ap, ◌∙◌, Bool, true, false, ◌&&◌, not,
  Option, none, some, [], arith, nat_eq, length, take_all,
}
use scam_screener_api.Base.Dict.{lookup}
use scam_screener_api.Base.Text.{strip, strip_idem}
use scam_screener_api.Base.Instants.{minutes, iso_ltb}
use scam_screener_api.Base.Sql.{
  Table, add_row, find_row, find_row-append, find_row-neither, find_row-single,
}
use scam_screener_api.Sessions.{
  Session, User, Hashes, SessionSettings, is_filled, is_null, one_of, has_token, is_active_token,
  token_hashes, session_token_hash, new_session, insert_session, create_session,
}
use scam_screener_api.Sessions.Resolve.{
  ResolvedUser, admits, ip_mismatch, user_agent_mismatch, normalize_user_agent_for_binding,
  check_binding, resolved_user, resolve_user_from_session,
}
use scam_screener_api.Sessions.Steps.{Creation, Request, create, resolve}

added :
    (s : Session) (t t' : Table Session) (found : Option (ℕ × Session))
    → ◌≡◌ {A = Option (Table Session)}
        (elim found [ none ↦ some (add_row s t) | some duplicate ↦ none ])
        (some t')
    → (found ≡ none) × (t' ≡ add_row s t)
added s t t' none e = (refl, sym (some-injective _ t' e))
added s t t' (some row) e = absurd (none-ne-some t' e)

mismatch_self :
    (bound : Bool) (s : Str)
    → (bound && (is_filled s && (is_filled s && not (str_beq s s)))) ≡ false
mismatch_self bound s = ground (arith, str_beq_iff s s)

-- The answer for a user whose session was created.
unfoldable pub resolved : ℕ → Creation → User → ResolvedUser
resolved i c user = record {
  session_id = i;
  user_id = c.user_id;
  username = user.username;
  email = user.email;
  is_admin = user.is_admin;
  mfa_enabled = user.mfa_enabled;
}

module _ (hashes : Hashes) (lower : Str → Str) (settings : SessionSettings) where
  abbrev session_of : Creation → Session
  session_of c =
      new_session hashes c.session_token c.user_id c.ttl_minutes c.remote_addr c.user_agent
        settings.secret_key c.now

  create-added :
      (c : Creation) (t t' : Table Session)
      → create hashes lower settings c t ≡ some t'
      → (find_row (has_token (session_of c).token_sha256) t.rows ≡ none)
        × (t' ≡ add_row (session_of c) t)
  unfolding create create_session insert_session
  create-added c t t' e =
      added (session_of c) t t' (find_row (has_token (session_of c).token_sha256) t.rows) e

  same_client :
      (c : Creation) (r : Request)
      → r.current_ip ≡ strip c.remote_addr
      → r.current_user_agent ≡ c.user_agent
      → length (strip c.user_agent) ≤ 300
      → (ip_mismatch lower settings (session_of c) r.current_ip ≡ false)
        × (user_agent_mismatch lower settings (session_of c) r.current_user_agent ≡ false)
  unfolding ip_mismatch user_agent_mismatch new_session normalize_user_agent_for_binding
  same_client c r ip agent short = (
    rw (ip, strip_idem c.remote_addr)
        (mismatch_self settings.session_bind_ip (strip c.remote_addr)),
    rw
        (
          agent,
          take_all 300 (strip c.user_agent) short,
          strip_idem c.user_agent,
          strip_idem c.user_agent,
        )
        (mismatch_self _ _),
  )

  -- Only under one of its hashes does a token find a session.
  unmatched :
      (token : Str) (r : Request) (i : ℕ) (s : Session)
      → has_token (session_token_hash hashes token settings.secret_key) i s ≡ false
      → has_token (session_token_hash hashes token []) i s ≡ false
      → admits settings.secret_key hashes token r.users r.now i s ≡ false
  unfolding admits is_active_token token_hashes one_of
  unmatched token r i s h h' = ground (
    arith,
    str_beq_iff (session_token_hash hashes token settings.secret_key)
        (session_token_hash hashes token []),
  )

  matched :
      (token : Str) (r : Request) (i : ℕ) (s : Session) (user : User)
      → s.token_sha256 ≡ session_token_hash hashes token settings.secret_key
      → s.revoked_at ≡ none
      → lookup s.user_id r.users ≡ some user
      → iso_ltb r.now s.expires_at ≡ true
      → admits settings.secret_key hashes token r.users r.now i s ≡ true
  unfolding admits is_active_token token_hashes one_of is_null
  matched token r i s user e active known unexpired =
      ground
        (arith, str_beq_iff s.token_sha256 (session_token_hash hashes token settings.secret_key))

  find_row-created :
      (c : Creation) (r : Request) (user : User) (t : Table Session)
      → find_row (has_token (session_of c).token_sha256) t.rows ≡ none
      → find_row (has_token (session_token_hash hashes c.session_token [])) t.rows ≡ none
      → lookup c.user_id r.users ≡ some user
      → iso_ltb r.now (c.now + minutes c.ttl_minutes) ≡ true
      → find_row
          (admits settings.secret_key hashes c.session_token r.users r.now)
          (add_row (session_of c) t).rows
        ≡ some (t.next_id, session_of c)
  unfolding add_row new_session
  find_row-created c r user t fresh no_legacy known unexpired =
      find_row-append _ t.rows _
        (find_row-neither _ _ _ t.rows (unmatched c.session_token r) fresh no_legacy)
      ∙ find_row-single _ t.next_id (session_of c)
          (matched c.session_token r t.next_id (session_of c) user refl refl known unexpired)

  check_binding-created :
      (c : Creation) (r : Request) (user : User) (i : ℕ) (t : Table Session)
      → ip_mismatch lower settings (session_of c) r.current_ip ≡ false
      → user_agent_mismatch lower settings (session_of c) r.current_user_agent ≡ false
      → lookup c.user_id r.users ≡ some user
      → check_binding hashes lower settings r.session_token r.current_ip r.current_user_agent
          r.users r.later
          (some (i, session_of c))
          t
        ≡ (some (resolved i c user), t)
  unfolding check_binding resolved_user resolved
  check_binding-created c r user i t ip agent known =
      rw (ip, agent) (unfold new_session in rw known)

  -- The token of a session that has been created is answered with the user of that session, and
  -- the table is kept, until the text of the time has reached that of the expiry: if the request
  -- comes from the client of the creation, the user is there, no session is stored under the hash
  -- that the token would have without a secret, and the user agent has at most 300 characters.
  pub resolve-create :
      (c : Creation) (r : Request) (user : User) (t t' : Table Session)
      → create hashes lower settings c t ≡ some t'
      → find_row (has_token (session_token_hash hashes c.session_token [])) t.rows ≡ none
      → r.session_token ≡ c.session_token
      → r.current_ip ≡ strip c.remote_addr
      → r.current_user_agent ≡ c.user_agent
      → length (strip c.user_agent) ≤ 300
      → lookup c.user_id r.users ≡ some user
      → iso_ltb r.now (c.now + minutes c.ttl_minutes) ≡ true
      → resolve hashes lower settings r t' ≡ (some (resolved t.next_id c user), t')
  unfolding resolve resolve_user_from_session
  resolve-create c r user t t' e no_legacy token ip agent short known unexpired =
      let (fresh, grown) = create-added c t t' e in
      let (same_ip, same_agent) = same_client c r ip agent short in
      let found =
        ap
          (λ (k : Table Session).
            find_row (admits settings.secret_key hashes r.session_token r.users r.now) k.rows)
          grown
        ∙ ap
            (λ k.
              find_row (admits settings.secret_key hashes k r.users r.now)
                (add_row (session_of c) t).rows)
            token
        ∙ find_row-created c r user t fresh no_legacy known unexpired in
      ap
        (λ k.
          check_binding hashes lower settings r.session_token r.current_ip r.current_user_agent
            r.users r.later k t')
        found
      ∙ check_binding-created c r user t.next_id t' same_ip same_agent known
