-- ===== src/Mfa/Managed.antt =====
-- app/training_hub/core/mfa.py: the factors of a user are removed, and backup codes are made anew.
use scam_screener_api.Base.{
  ℕ, Str, codes, nat_eq, Bool, true, false, ◌&&◌, none, List, [], ◌∷◌, if◌then◌else◌, ◌==◌, leb,
}
use scam_screener_api.Base.Instants.{Instant}
use scam_screener_api.Base.Sql.{Table, count_rows, update_rows, add_row, delete_rows}
use scam_screener_api.Sessions.{User, Hashes}
use scam_screener_api.ExternalAuth.{Outcome, ok, refused}
use scam_screener_api.AuthFlows.{mfa_hash}
use scam_screener_api.Mfa.{MfaSettings, MfaState, TotpFactor, BackupCode, Factors, mfa_state}
use scam_screener_api.Mfa.Totp.{normalize_backup_code}

abbrev set_enabled : Bool → User → User
set_enabled enabled user = record user { mfa_enabled = if enabled then 1 else 0 }

-- `_set_user_mfa_enabled`
unfoldable pub set_user_mfa_enabled : ℕ → Bool → Factors → Factors
set_user_mfa_enabled user_id enabled t = record t {
  users = update_rows (λ i user. i == user_id) (set_enabled enabled) t.users;
}

-- `id = ? AND user_id = ?`
abbrev pub is_factor : ℕ → ℕ → ℕ → TotpFactor → Bool
is_factor user_id factor_id i f = i == factor_id && f.user_id == user_id

abbrev pub is_passkey : ℕ → ℕ → ℕ → ℕ → Bool
is_passkey user_id passkey_id i owner = i == passkey_id && owner == user_id

module _ (hashes : Hashes) (settings : MfaSettings) where
  unfoldable pub insert_codes : ℕ → Instant → List Str → Table BackupCode → Table BackupCode
  unfolding mfa_hash normalize_backup_code
  insert_codes user_id now [] rows = rows
  insert_codes user_id now (code ∷ generated) rows = insert_codes user_id now generated (
      add_row
        (record {
          user_id = user_id;
          code_sha256 = mfa_hash hashes (normalize_backup_code code) settings.secret_key;
          consumed_at = none;
        })
        rows)

  -- `_regenerate_backup_codes`, with the ten codes that are drawn.
  unfoldable pub regenerate_backup_codes :
      ℕ → Instant → List Str → Factors → Outcome (List Str) × Factors
  unfolding mfa_state insert_codes set_user_mfa_enabled
  regenerate_backup_codes user_id now generated t =
      if (mfa_state settings user_id t).standard_factor_count == 0
      then (refused (codes "Set up TOTP or a passkey before generating backup codes.") 409, t)
      else (
        ok generated,
        set_user_mfa_enabled user_id true (record t {
          backup_codes =
              insert_codes user_id now generated
                (delete_rows (λ i b. b.user_id == user_id) t.backup_codes);
        }),
      )

  -- The refusal to remove the last factor.
  unfoldable pub last_factor : MfaState → Factors → Outcome (Unit {0}) × Factors
  last_factor state t =
      if state.is_admin && settings.admin_mfa_required
      then (refused (codes "Admin accounts must keep at least one MFA method.") 409, t)
      else (refused (codes "Disable MFA before removing your last MFA method.") 409, t)

  -- By the number of rows that were deleted.
  unfoldable pub removed : Str → ℕ → Factors → Outcome (Unit {0}) × Factors
  removed error rowcount t = if rowcount == 1 then (ok tt, t) else (refused error 404, t)

  -- `_remove_totp_factor`
  unfoldable pub remove_totp_factor : ℕ → ℕ → Factors → Outcome (Unit {0}) × Factors
  unfolding mfa_state last_factor removed
  remove_totp_factor user_id factor_id t =
      let state = mfa_state settings user_id t in
      if leb state.standard_factor_count 1
      then last_factor state t
      else removed (codes "Authenticator app entry not found.")
          (count_rows (is_factor user_id factor_id) t.totp.rows)
          (record t { totp = delete_rows (is_factor user_id factor_id) t.totp })

  -- `_remove_passkey`
  unfoldable pub remove_passkey : ℕ → ℕ → Factors → Outcome (Unit {0}) × Factors
  unfolding mfa_state last_factor removed
  remove_passkey user_id passkey_id t =
      let state = mfa_state settings user_id t in
      if leb state.standard_factor_count 1
      then last_factor state t
      else removed (codes "Passkey not found.")
          (count_rows (is_passkey user_id passkey_id) t.passkeys.rows)
          (record t { passkeys = delete_rows (is_passkey user_id passkey_id) t.passkeys })

  -- `_disable_user_mfa`
  unfoldable pub disable_user_mfa : ℕ → Factors → Outcome (Unit {0}) × Factors
  unfolding mfa_state set_user_mfa_enabled
  disable_user_mfa user_id t =
      if (mfa_state settings user_id t).is_admin && settings.admin_mfa_required
      then (refused (codes "Admin accounts cannot disable MFA.") 409, t)
      else (
        ok tt,
        set_user_mfa_enabled user_id false (record t {
          totp = delete_rows (λ i f. f.user_id == user_id) t.totp;
          passkeys = delete_rows (λ i owner. owner == user_id) t.passkeys;
          backup_codes = delete_rows (λ i b. b.user_id == user_id) t.backup_codes;
        }),
      )
