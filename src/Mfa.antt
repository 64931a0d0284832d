-- ===== src/Mfa.antt =====
-- app/training_hub/core/mfa.py: the second factor of a login. A flow of the type `login-mfa` is
-- completed by a code of an app, a backup code or, for an administrator who has none of them yet, a
-- code that was sent by email.
pub mod Totp
pub mod Challenges
pub mod Tried
pub mod Managed
pub mod Kept
use scam_screener_api.Base.{
  ℕ, ◌+◌, ◌/◌, Str, codes, str_beq, str_eq, nat_eq, Bool, true, false, not, ◌&&◌, ◌||◌, Option,
  none, some, List, [], ◌∷◌, if◌then◌else◌, ◌==◌,
}
use scam_screener_api.Base.Dict.{Dict, lookup}
use scam_screener_api.Base.Instants.{Instant}
use scam_screener_api.Base.Sql.{Table, find_row, count_rows, update_table}
use scam_screener_api.Sessions.{User, Hashes, is_filled, is_null}
use scam_screener_api.ExternalAuth.{Outcome, ok, refused, raised}
use scam_screener_api.AuthFlows.{
  AuthFlow, LoadedFlow, mfa_hash, load_auth_flow, create_auth_flow, consume_auth_flow_by_id,
  increment_auth_flow_failures,
}
use Totp.{Codes, normalize_totp_code, normalize_backup_code, verify_totp_secret}

-- What the functions read of the settings.
pub record MfaSettings : Type 0 where
  pub secret_key : Str
  pub external_auth_enabled : Bool
  pub admin_mfa_required : Bool
  pub admin_mfa_ttl_minutes : ℕ
  pub admin_mfa_max_attempts : ℕ
  pub totp_skew_steps : ℕ

-- A row of `user_totp_factors`, and one of `user_backup_codes`.
pub record TotpFactor : Type 0 where
  pub user_id : ℕ
  pub encrypted_secret : Str
  pub verified_at : Option Instant
  pub last_used_at : Option Instant

pub record BackupCode : Type 0 where
  pub user_id : ℕ
  pub code_sha256 : Str
  pub consumed_at : Option Instant

-- The tables that the factors of a user stand in; a passkey is known by its user.
pub record Factors : Type 0 where
  pub users : Dict ℕ User
  pub totp : Table TotpFactor
  pub passkeys : Table ℕ
  pub backup_codes : Table BackupCode

-- The payload of a login challenge; the hash is empty where the key is missing.
pub record LoginPayload : Type 0 where
  pub allow_email_bridge : Bool
  pub email_code_sha256 : Str

pub record MfaState : Type 0 where
  pub user_found : Bool
  pub is_admin : Bool
  pub mfa_enabled : Bool
  pub totp_factor_count : ℕ
  pub passkey_count : ℕ
  pub backup_code_count : ℕ
  pub standard_factor_count : ℕ
  pub admin_setup_required : Bool
  pub email_bridge_allowed : Bool
  pub mfa_required_for_login : Bool
  pub can_disable_mfa : Bool

-- `user_id = ? AND verified_at IS NOT NULL`
abbrev pub is_verified : ℕ → ℕ → TotpFactor → Bool
is_verified user_id i f = f.user_id == user_id && not (is_null f.verified_at)

-- `user_id = ? AND consumed_at IS NULL`
abbrev pub is_unused : ℕ → ℕ → BackupCode → Bool
is_unused user_id i b = b.user_id == user_id && is_null b.consumed_at

unfoldable pub state_of : MfaSettings → ℕ → Factors → Option User → MfaState
state_of settings user_id t none = record {
  user_found = false;
  is_admin = false;
  mfa_enabled = false;
  totp_factor_count = 0;
  passkey_count = 0;
  backup_code_count = 0;
  standard_factor_count = 0;
  admin_setup_required = false;
  email_bridge_allowed = false;
  mfa_required_for_login = false;
  can_disable_mfa = false;
}
state_of settings user_id t (some user) =
    let is_admin = user.is_admin == 1 in
    let stored_enabled = user.mfa_enabled == 1 in
    let totp_count = count_rows (is_verified user_id) t.totp.rows in
    let passkey_count = count_rows (λ i owner. owner == user_id) t.passkeys.rows in
    let standard = totp_count + passkey_count in
    let setup_required =
      not settings.external_auth_enabled
      && (is_admin && (settings.admin_mfa_required && standard == 0)) in
    record {
      user_found = true;
      is_admin = is_admin;
      mfa_enabled = stored_enabled || setup_required;
      totp_factor_count = totp_count;
      passkey_count = passkey_count;
      backup_code_count = count_rows (is_unused user_id) t.backup_codes.rows;
      standard_factor_count = standard;
      admin_setup_required = setup_required;
      email_bridge_allowed = setup_required;
      mfa_required_for_login =
          not settings.external_auth_enabled
          && ((stored_enabled && not (standard == 0))
              || (setup_required
                  || (is_admin && (settings.admin_mfa_required && not (standard == 0)))));
      can_disable_mfa = stored_enabled && not is_admin;
    }

-- `_user_factor_counts` and `_mfa_state`
unfoldable pub mfa_state : MfaSettings → ℕ → Factors → MfaState
unfolding state_of
mfa_state settings user_id t = state_of settings user_id t (lookup user_id t.users)

-- What a code turns out to be; `broken` where that raises.
pub data Verdict : Type 0 where
  accepted : Str → Bool → Verdict
  rejected : Verdict
  broken : Verdict

-- The factor whose code it is.
pub data Search : Type 0 where
  found : ℕ → Search
  missing : Search
  failed_search : Search

pub record Login : Type 0 where
  pub user_id : ℕ
  pub method : Str
  pub admin_setup_required : Bool

module _ (codes_of : Codes) (hashes : Hashes) (settings : MfaSettings) (user_id : ℕ) (code : Str)
    (now : Instant) where
  -- The loop over the verified factors of the user.
  unfoldable pub find_factor : Dict ℕ TotpFactor → Search
  unfolding verify_totp_secret normalize_totp_code
  find_factor [] = missing
  find_factor ((i, f) ∷ rows) =
      let rest = find_factor rows in
      if not (is_verified user_id i f)
      then rest
      else elim (codes_of.decrypt_value f.encrypted_secret settings.secret_key) [
        | none ↦ failed_search
        | some secret ↦
            elim (verify_totp_secret codes_of secret (normalize_totp_code code) (now / 1000000)
              settings.totp_skew_steps) [
                | none ↦ failed_search
                | some true ↦ found i
                | some false ↦ rest
              ]
      ]

  abbrev is_code : Str → ℕ → BackupCode → Bool
  is_code submitted_hash i b = is_unused user_id i b && str_beq b.code_sha256 submitted_hash

  abbrev used : BackupCode → BackupCode
  used b = record b { consumed_at = some now }

  -- The backup code that was found is consumed.
  unfoldable pub use_backup_code : Option (ℕ × BackupCode) → Factors → Verdict × Factors
  use_backup_code none t = (rejected, t)
  use_backup_code (some (id, b)) t = (
    accepted (codes "backup-code") false,
    record t {
      backup_codes = update_table (λ i c. i == id && is_null c.consumed_at) used t.backup_codes;
    },
  )

  unfoldable pub try_backup_code : Factors → Verdict × Factors
  unfolding normalize_backup_code use_backup_code mfa_hash
  try_backup_code t =
      let normalized_backup = normalize_backup_code code in
      if is_filled normalized_backup
      then use_backup_code
          (find_row (is_code (mfa_hash hashes normalized_backup settings.secret_key))
            t.backup_codes.rows)
          t
      else (rejected, t)

  unfoldable pub after_search : Search → Factors → Verdict × Factors
  unfolding try_backup_code
  after_search (found id) t = (
    accepted (codes "totp") false,
    record t {
      totp = update_table (λ i f. i == id) (λ f. record f { last_used_at = some now }) t.totp;
    },
  )
  after_search missing t = try_backup_code t
  after_search failed_search t = (broken, t)

  -- The code of an app, or else a backup code.
  unfoldable pub try_code : Factors → Verdict × Factors
  unfolding normalize_totp_code find_factor after_search try_backup_code
  try_code t =
      if is_filled (normalize_totp_code code)
      then after_search (find_factor t.totp.rows) t
      else try_backup_code t

  -- The code that was sent by email.
  unfoldable pub try_email_code : Str → Factors → Verdict × Factors
  unfolding normalize_totp_code mfa_hash
  try_email_code expected_email_hash t =
      let normalized_totp = normalize_totp_code code in
      if not (is_filled normalized_totp)
        || (not (is_filled expected_email_hash)
            || not
                (str_beq (mfa_hash hashes normalized_totp settings.secret_key) expected_email_hash))
      then (rejected, t)
      else (accepted (codes "email-bridge") true, t)

  unfoldable pub judge : LoginPayload → MfaState → Factors → Verdict × Factors
  unfolding try_email_code try_code
  judge payload state t =
      if payload.allow_email_bridge && state.admin_setup_required
      then try_email_code payload.email_code_sha256 t
      else try_code t

  unfoldable pub step_up_answer : Verdict × Factors → Outcome Str × Factors
  step_up_answer (accepted method setup, t) = (ok method, t)
  step_up_answer (rejected, t) = (refused (codes "Invalid verification code.") 401, t)
  step_up_answer (broken, t) = (raised, t)

  -- `_verify_user_step_up_code`
  unfoldable pub verify_user_step_up_code : Factors → Outcome Str × Factors
  unfolding try_code step_up_answer
  verify_user_step_up_code t = step_up_answer (try_code t)
