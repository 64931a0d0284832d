-- ===== src/Sessions.antt =====
-- app/training_hub/core/session_auth_session.py and session_auth_revoke.py: sessions as rows of
-- the table `sessions`, found by the hash of their token. The token is random and an argument; the
-- hashes of `hashlib` and `hmac`, and `str.lower`, are parameters.
pub mod Resolve
pub mod Found
pub mod Steps
pub mod Revoked
pub mod Issued
pub mod Created
use scam_screener_api.Base.{
  ℕ, ◌+◌, Str, codes, str_beq, nat_eq, Bool, true, false, not, ◌&&◌, ◌||◌, Option, none, some, List,
  [], ◌∷◌, take, if◌then◌else◌, ◌==◌,
}
use scam_screener_api.Base.Dict.{Dict, lookup}
use scam_screener_api.Base.Text.{strip}
use scam_screener_api.Base.Instants.{Instant, minutes, iso_ltb}
use scam_screener_api.Base.Sql.{
  Table, find_row, update_rows, update_table, add_row, count_rows, delete_rows,
}

pub record Session : Type 0 where
  pub created_at : Instant
  pub user_id : ℕ
  pub token_sha256 : Str
  pub expires_at : Instant
  pub revoked_at : Option Instant
  pub remote_addr : Str
  pub user_agent : Str
  pub revoke_reason : Str

-- A row of the table `users` behind its id.
pub record User : Type 0 where
  pub created_at : Instant
  pub username : Str
  pub email : Str
  pub password_hash : Str
  pub is_admin : ℕ
  pub mfa_enabled : ℕ
  pub last_login_at : Option Instant

-- `hashlib.sha256` and `hmac.new(..., hashlib.sha256)`, as texts of hex digits.
pub record Hashes : Type 0 where
  pub sha256 : Str → Str
  pub hmac_sha256 : Str → Str → Str

-- What the functions below read of the settings.
pub record SessionSettings : Type 0 where
  pub secret_key : Str
  pub session_bind_ip : Bool
  pub session_bind_user_agent : Bool

-- `bool(s)`
abbrev pub is_filled : Str → Bool
is_filled [] = false
is_filled (c ∷ s) = true

-- `value in (...)`
unfoldable pub one_of : Str → List Str → Bool
one_of value [] = false
one_of value (s ∷ texts) = str_beq value s || one_of value texts

unfoldable pub is_null {ℓ} : {A : Type ℓ} → Option A → Bool
is_null none = true
is_null (some a) = false

module _ (hashes : Hashes) where
  -- `_session_token_hash`
  unfoldable pub session_token_hash : Str → Str → Str
  session_token_hash session_token secret_key =
      if is_filled secret_key
      then hashes.hmac_sha256 secret_key session_token
      else hashes.sha256 session_token

  unfoldable pub token_hashes : Str → Str → List Str
  unfolding session_token_hash
  token_hashes session_token secret_key =
      let token_sha = session_token_hash session_token secret_key in
      let legacy_token_sha = session_token_hash session_token [] in
      if str_beq token_sha legacy_token_sha
      then token_sha ∷ []
      else token_sha ∷ legacy_token_sha ∷ []

  -- The row that `_create_session` inserts.
  unfoldable pub new_session : Str → ℕ → ℕ → Str → Str → Str → Instant → Session
  unfolding session_token_hash
  new_session session_token user_id ttl_minutes remote_addr user_agent secret_key now = record {
    created_at = now;
    user_id = user_id;
    token_sha256 = session_token_hash session_token secret_key;
    expires_at = now + minutes ttl_minutes;
    revoked_at = none;
    remote_addr = strip remote_addr;
    user_agent = take 300 (strip user_agent);
    revoke_reason = [];
  }

-- The INSERT of a row; `none` for the IntegrityError of `token_sha256 TEXT NOT NULL UNIQUE`.
abbrev pub has_token : Str → ℕ → Session → Bool
has_token token_sha i s = str_beq s.token_sha256 token_sha

unfoldable pub insert_session : Session → Table Session → Option (Table Session)
insert_session s t = elim (find_row (has_token s.token_sha256) t.rows) [
  | none ↦ some (add_row s t)
  | some duplicate ↦ none
]

-- `_create_session`
unfoldable pub create_session :
    Hashes → Str → ℕ → ℕ → Str → Str → Str → Instant → Table Session → Option (Table Session)
unfolding new_session insert_session
create_session hashes session_token user_id ttl_minutes remote_addr user_agent secret_key now t =
    insert_session
      (new_session hashes session_token user_id ttl_minutes remote_addr user_agent secret_key now) t

-- `SET revoked_at = ?, revoke_reason = ?`
unfoldable pub revoke : Instant → Str → Session → Session
unfolding strip
revoke now reason s = record s { revoked_at = some now; revoke_reason = take 100 (strip reason) }

-- `token_sha256 IN (...) AND revoked_at IS NULL`
unfoldable pub is_active_token : List Str → ℕ → Session → Bool
unfolding one_of is_null
is_active_token texts i s = one_of s.token_sha256 texts && is_null s.revoked_at

-- `_revoke_session_by_token`
unfoldable pub revoke_session_by_token :
    Hashes → Str → Str → Str → Instant → Table Session → Table Session
unfolding token_hashes is_active_token revoke
revoke_session_by_token hashes session_token reason secret_key now t =
    let normalized_token = strip session_token in
    if is_filled normalized_token
    then update_table (is_active_token (token_hashes hashes normalized_token secret_key))
        (revoke now reason) t
    else t

-- `user_id = ? AND revoked_at IS NULL`
unfoldable pub is_active_of : ℕ → ℕ → Session → Bool
unfolding is_null
is_active_of user_id i s = s.user_id == user_id && is_null s.revoked_at

-- `_revoke_all_user_sessions`
unfoldable pub revoke_all_user_sessions : ℕ → Str → Instant → Table Session → Table Session
unfolding is_active_of revoke
revoke_all_user_sessions user_id reason now t =
    update_table (is_active_of user_id) (revoke now reason) t

abbrev pub is_active_id : ℕ → ℕ → ℕ → Session → Bool
is_active_id user_id session_id i s = i == session_id && is_active_of user_id i s

-- `_revoke_user_session_by_id`, with whether a row was changed.
unfoldable pub revoke_user_session_by_id :
    ℕ → ℕ → Str → Instant → Table Session → Bool × Table Session
unfolding is_active_of revoke
revoke_user_session_by_id user_id session_id reason now t = (
  not (count_rows (is_active_id user_id session_id) t.rows == 0),
  update_table (is_active_id user_id session_id) (revoke now reason) t,
)

-- The WHERE clause of `_revoke_other_user_sessions`, without or with a current session.
unfoldable pub is_other : ℕ → Option ℕ → ℕ → Session → Bool
unfolding is_active_of
is_other user_id none i s = is_active_of user_id i s
is_other user_id (some current) i s = is_active_of user_id i s && not (i == current)

-- `_revoke_other_user_sessions`, with the number of rows that were changed.
unfoldable pub revoke_other_user_sessions :
    ℕ → Option ℕ → Str → Instant → Table Session → ℕ × Table Session
unfolding is_other revoke
revoke_other_user_sessions user_id current_session_id reason now t = (
  count_rows (is_other user_id current_session_id) t.rows,
  update_table (is_other user_id current_session_id) (revoke now reason) t,
)

-- The sessions that the retention deletes: revoked or expired before the cutoff.
unfoldable pub is_outdated : Instant → ℕ → Session → Bool
is_outdated session_cutoff i s = elim s.revoked_at [
  | none ↦ iso_ltb s.expires_at session_cutoff
  | some revoked_at ↦ iso_ltb revoked_at session_cutoff
]

unfoldable pub delete_outdated_sessions : Instant → Table Session → Table Session
unfolding is_outdated
delete_outdated_sessions session_cutoff t = delete_rows (is_outdated session_cutoff) t
