-- ===== src/Sessions/Steps.antt =====
-- The calls on the table `sessions` of session_auth_session.py, session_auth_revoke.py and
-- recovery_retention.py, one after the other, and what any of them may do to the table.
use scam_screener_api.Base.{ℕ, ◌+◌, Str, ◌≡◌, refl, Bool, Option, none, some, List, [], ◌∷◌, either}
use scam_screener_api.Base.Dict.{Dict}
use scam_screener_api.Base.Text.{strip}
use scam_screener_api.Base.Instants.{Instant, minutes}
use scam_screener_api.Base.Sql.{
  Table, IsTable, find_row, add_row, update_table, delete_rows, add_row-IsTable,
  update_table-IsTable, delete_rows-IsTable,
}
use scam_screener_api.Sessions.{
  Session, User, Hashes, SessionSettings, is_filled, has_token, insert_session, session_token_hash,
  create_session, new_session, revoke, revoke_session_by_token, revoke_all_user_sessions,
  revoke_user_session_by_id, revoke_other_user_sessions, delete_outdated_sessions,
}
use scam_screener_api.Sessions.Resolve.{
  ResolvedUser, ip_mismatch, user_agent_mismatch, check_binding, resolve_user_from_session,
}

pub record Creation : Type 0 where
  pub session_token : Str
  pub user_id : ℕ
  pub ttl_minutes : ℕ
  pub remote_addr : Str
  pub user_agent : Str
  pub now : Instant

pub record Request : Type 0 where
  pub session_token : Str
  pub current_ip : Str
  pub current_user_agent : Str
  pub users : Dict ℕ User
  pub now : Instant
  pub later : Instant

pub data Call : Type 0 where
  creates : Creation → Call
  resolves : Request → Call
  revokes_token : Str → Str → Instant → Call
  revokes_all : ℕ → Str → Instant → Call
  revokes_one : ℕ → ℕ → Str → Instant → Call
  revokes_others : ℕ → Option ℕ → Str → Instant → Call
  deletes_outdated : Instant → Call

-- The table after an INSERT that may fail.
abbrev pub or_kept : Table Session → Option (Table Session) → Table Session
or_kept t none = t
or_kept t (some t') = t'

module _ (hashes : Hashes) (lower : Str → Str) (settings : SessionSettings) where
  unfoldable pub resolve : Request → Table Session → Option ResolvedUser × Table Session
  unfolding resolve_user_from_session
  resolve r t =
      resolve_user_from_session hashes lower settings r.session_token r.current_ip
        r.current_user_agent r.users r.now r.later t

  unfoldable pub create : Creation → Table Session → Option (Table Session)
  unfolding create_session
  create c t =
      create_session hashes c.session_token c.user_id c.ttl_minutes c.remote_addr c.user_agent
        settings.secret_key c.now t

  unfoldable pub step : Call → Table Session → Table Session
  unfolding create resolve revoke_session_by_token revoke_all_user_sessions
      revoke_user_session_by_id revoke_other_user_sessions delete_outdated_sessions
  step (creates c) t = or_kept t (create c t)
  step (resolves r) t = (resolve r t).1
  step (revokes_token token reason now) t =
      revoke_session_by_token hashes token reason settings.secret_key now t
  step (revokes_all user_id reason now) t = revoke_all_user_sessions user_id reason now t
  step (revokes_one user_id session_id reason now) t =
      (revoke_user_session_by_id user_id session_id reason now t).1
  step (revokes_others user_id current reason now) t =
      (revoke_other_user_sessions user_id current reason now t).1
  step (deletes_outdated cutoff) t = delete_outdated_sessions cutoff t

  unfoldable pub run : List Call → Table Session → Table Session
  unfolding step
  run [] t = t
  run (c ∷ calls) t = run calls (step c t)

-- What a creation writes of a session.
pub record MadeBy (hashes : Hashes) (secret_key : Str) (c : Creation) (s : Session) : Type 0 where
  pub owner : s.user_id ≡ c.user_id
  pub token : s.token_sha256 ≡ session_token_hash hashes c.session_token secret_key
  pub expiry : s.expires_at ≡ c.now + minutes c.ttl_minutes

-- The sessions that a call may insert.
abbrev pub Makes : Hashes → Str → Call → Session → Type 0
Makes hashes secret_key (creates c) s = MadeBy hashes secret_key c s
Makes hashes secret_key _ s = ⊥

-- What a call may do: nothing, mark rows as revoked, insert a row whose token is new, delete rows.
pub data Change (New : Session → Type 0) (t : Table Session) : Table Session → Type 0 where
  kept : Change New t t
  revoked :
      (p : ℕ → Session → Bool) (now : Instant) (reason : Str)
      → Change New t (update_table p (revoke now reason) t)
  inserted :
      (s : Session)
      → New s
      → find_row (has_token s.token_sha256) t.rows ≡ none
      → Change New t (add_row s t)
  deleted : (p : ℕ → Session → Bool) → Change New t (delete_rows p t)

module _ {New : Session → Type 0} where
  pub Change-IsTable : {t t' : Table Session} → IsTable t → Change New t t' → IsTable t'
  Change-IsTable h kept = h
  Change-IsTable {t} h (revoked p now reason) = update_table-IsTable p (revoke now reason) t h
  Change-IsTable {t} h (inserted s new fresh) = add_row-IsTable s t h
  Change-IsTable {t} h (deleted p) = delete_rows-IsTable p t h

  insert_session-Change :
      (s : Session) (t : Table Session) → New s → Change New t (or_kept t (insert_session s t))
  unfolding insert_session
  insert_session-Change s t new =
      split (find_row (has_token s.token_sha256) t.rows) (λ e. inserted s new e)
    where
      split :
          (found : Option (ℕ × Session))
          → (found ≡ none → Change New t (add_row s t))
          → Change New t (or_kept t (elim found [ none ↦ some (add_row s t) | some _ ↦ none ]))
      split none h = h refl
      split (some row) h = kept

module _ (hashes : Hashes) (lower : Str → Str) (settings : SessionSettings) where
  pub revoke_session_by_token-Change :
      {New : Session → Type 0} (token reason : Str) (now : Instant) (t : Table Session)
      → Change New t (revoke_session_by_token hashes token reason settings.secret_key now t)
  unfolding revoke_session_by_token
  revoke_session_by_token-Change {New} token reason now t =
      either (Change New t) (is_filled (strip token)) (revoked _ now reason) kept

  check_binding-Change :
      {New : Session → Type 0} (r : Request) (found : Option (ℕ × Session)) (t : Table Session)
      → Change New t
          (check_binding hashes lower settings r.session_token r.current_ip r.current_user_agent
            r.users r.later found t).1
  unfolding check_binding
  check_binding-Change r none t = kept
  check_binding-Change {New} r (some (i, s)) t =
      either (λ (o : Option ResolvedUser × Table Session). Change New t o.1)
        (ip_mismatch lower settings s r.current_ip)
        (revoke_session_by_token-Change r.session_token _ r.later t)
        (either (λ (o : Option ResolvedUser × Table Session). Change New t o.1)
          (user_agent_mismatch lower settings s r.current_user_agent)
          (revoke_session_by_token-Change r.session_token _ r.later t) kept)

  pub step-Change :
      (c : Call) (t : Table Session)
      → Change (Makes hashes settings.secret_key c) t (step hashes lower settings c t)
  unfolding step create create_session new_session resolve resolve_user_from_session
      revoke_all_user_sessions revoke_user_session_by_id revoke_other_user_sessions
      delete_outdated_sessions
  step-Change (creates c) t =
      insert_session-Change _ t (record { owner = refl; token = refl; expiry = refl })
  step-Change (resolves r) t = check_binding-Change r _ t
  step-Change (revokes_token token reason now) t = revoke_session_by_token-Change token reason now t
  step-Change (revokes_all user_id reason now) t = revoked _ now reason
  step-Change (revokes_one user_id session_id reason now) t = revoked _ now reason
  step-Change (revokes_others user_id current reason now) t = revoked _ now reason
  step-Change (deletes_outdated cutoff) t = deleted _

  pub run-IsTable :
      (calls : List Call) (t : Table Session)
      → IsTable t
      → IsTable (run hashes lower settings calls t)
  unfolding run
  run-IsTable [] t h = h
  run-IsTable (c ∷ calls) t h =
      run-IsTable calls (step hashes lower settings c t) (Change-IsTable h (step-Change c t))
