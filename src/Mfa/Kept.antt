-- ===== src/Mfa/Kept.antt =====
-- An administrator who has to have a factor keeps one.
use scam_screener_api.Base.Sql.Counts.{count_rows-delete_other, count_rows-delete_one}
use scam_screener_api.Base.{
  ℕ, ◌+◌, ◌<◌, ◌≡◌, refl, sym, ap, ◌∙◌, Str, nat_eq, Bool, true, false, ◌&&◌, some, List, [], ◌∷◌,
  ◌==◌, ==_iff, leb, arith, either, Bool-cases, inl, inr, if◌then◌else◌,
}
use scam_screener_api.Base.Dict.{lookup}
use scam_screener_api.Base.Instants.{Instant}
use scam_screener_api.Base.Sql.{
  IsTable, count_rows, delete_rows, delete_rows-IsTable, lookup-update_rows,
}
use scam_screener_api.Sessions.{User, Hashes}
use scam_screener_api.ExternalAuth.{Outcome}
use scam_screener_api.Mfa.{MfaSettings, Factors, state_of, mfa_state, is_verified}
use scam_screener_api.Mfa.Managed.{
  set_user_mfa_enabled, regenerate_backup_codes, last_factor, removed, is_factor, is_passkey,
  remove_totp_factor, remove_passkey, disable_user_mfa,
}

-- The calls that manage the factors of a user.
pub data Managing : Type 0 where
  regenerates : ℕ → Instant → List Str → Managing
  removes_factor : ℕ → ℕ → Managing
  removes_passkey : ℕ → ℕ → Managing
  disables : ℕ → Managing

abbrev pub standard_factors : ℕ → Factors → ℕ
standard_factors user_id t =
    count_rows (is_verified user_id) t.totp.rows
    + count_rows (λ i owner. owner == user_id) t.passkeys.rows

-- The user is an administrator with a factor, and the tables of the factors are in order.
pub record HasFactor (user_id : ℕ) (t : Factors) : Type 0 where
  pub user : User
  pub there : lookup user_id t.users ≡ some user
  pub admin : user.is_admin ≡ 1
  pub some_factor : 0 < standard_factors user_id t
  pub totp : IsTable t.totp
  pub passkeys : IsTable t.passkeys

module _ (hashes : Hashes) (settings : MfaSettings) where
  unfoldable pub manage : Managing → Factors → Factors
  unfolding regenerate_backup_codes remove_totp_factor remove_passkey disable_user_mfa
  manage (regenerates user_id now generated) t =
      (regenerate_backup_codes hashes settings user_id now generated t).1
  manage (removes_factor user_id factor_id) t =
      (remove_totp_factor hashes settings user_id factor_id t).1
  manage (removes_passkey user_id passkey_id) t =
      (remove_passkey hashes settings user_id passkey_id t).1
  manage (disables user_id) t = (disable_user_mfa hashes settings user_id t).1

  unfoldable pub manage_all : List Managing → Factors → Factors
  unfolding manage
  manage_all [] t = t
  manage_all (c ∷ calls) t = manage_all calls (manage c t)

  set_user_mfa_enabled-HasFactor :
      (user_id u : ℕ) (enabled : Bool) (t : Factors)
      → HasFactor user_id t
      → HasFactor user_id (set_user_mfa_enabled u enabled t)
  unfolding set_user_mfa_enabled
  set_user_mfa_enabled-HasFactor user_id u enabled t h = record {
    user =
        if user_id == u then record h.user { mfa_enabled = if enabled then 1 else 0 } else h.user;
    there = lookup-update_rows user_id _ _ t.users ∙ rw h.there refl;
    admin = either (λ (r : User). r.is_admin ≡ 1) (user_id == u) h.admin h.admin;
    some_factor = h.some_factor;
    totp = h.totp;
    passkeys = h.passkeys;
  }

  -- What the state says of such a user.
  state-admin :
      (user_id : ℕ) (t : Factors)
      → HasFactor user_id t
      → ((mfa_state settings user_id t).is_admin ≡ true)
        × ((mfa_state settings user_id t).standard_factor_count ≡ standard_factors user_id t)
  unfolding mfa_state state_of
  state-admin user_id t h = rw h.there (rw h.admin (refl, refl))

  last_factor-HasFactor :
      (user_id u : ℕ) (t : Factors)
      → HasFactor user_id t
      → HasFactor user_id (last_factor hashes settings (mfa_state settings u t) t).1
  unfolding last_factor
  last_factor-HasFactor user_id u t h =
      either (λ (o : Outcome (Unit {0}) × Factors). HasFactor user_id o.1)
        ((mfa_state settings u t).is_admin && settings.admin_mfa_required) h h

  removed-HasFactor :
      (user_id rowcount : ℕ) (error : Str) (t : Factors)
      → HasFactor user_id t
      → HasFactor user_id (removed hashes settings error rowcount t).1
  unfolding removed
  removed-HasFactor user_id rowcount error t h =
      either (λ (o : Outcome (Unit {0}) × Factors). HasFactor user_id o.1) (rowcount == 1) h h

  -- The factors of a user that are left, if it was not the last that was deleted.
  left :
      (user_id u : ℕ) (t : Factors)
      → HasFactor user_id t
      → leb (mfa_state settings u t).standard_factor_count 1 ≡ false
      → user_id ≡ u
      → 1 < standard_factors user_id t
  left user_id u t h many same =
      let counted = (state-admin user_id t h).1 in
      let enough : leb (mfa_state settings user_id t).standard_factor_count 1 ≡ false =
        ap (λ k. leb (mfa_state settings k t).standard_factor_count 1) same ∙ many in
      ground (arith, counted, enough)

  fewer-HasFactor :
      (user_id u id : ℕ) (t : Factors)
      → HasFactor user_id t
      → leb (mfa_state settings u t).standard_factor_count 1 ≡ false
      → HasFactor user_id (record t { totp = delete_rows (is_factor u id) t.totp })
  fewer-HasFactor user_id u id t h many = record {
    user = h.user;
    there = h.there;
    admin = h.admin;
    some_factor = elim (Bool-cases (user_id == u)) [
      | inl same ↦
          let enough = left user_id u t h many ((==_iff user_id u).0 same) in
          omega (
            arith,
            enough,
            count_rows-delete_one (is_verified user_id) (λ i f. f.user_id == u) id t.totp h.totp,
          )
      | inr differs ↦
          rw
            (count_rows-delete_other (is_verified user_id) (is_factor u id) t.totp (λ i f mine.
              ground
                (arith, differs, ==_iff f.user_id user_id, ==_iff f.user_id u, ==_iff user_id u)))
            h.some_factor
    ];
    totp = delete_rows-IsTable _ t.totp h.totp;
    passkeys = h.passkeys;
  }

  fewer_passkeys-HasFactor :
      (user_id u id : ℕ) (t : Factors)
      → HasFactor user_id t
      → leb (mfa_state settings u t).standard_factor_count 1 ≡ false
      → HasFactor user_id (record t { passkeys = delete_rows (is_passkey u id) t.passkeys })
  fewer_passkeys-HasFactor user_id u id t h many = record {
    user = h.user;
    there = h.there;
    admin = h.admin;
    some_factor = elim (Bool-cases (user_id == u)) [
      | inl same ↦
          let enough = left user_id u t h many ((==_iff user_id u).0 same) in
          omega (
            arith,
            enough,
            count_rows-delete_one (λ i owner. owner == user_id) (λ i owner. owner == u) id
                t.passkeys h.passkeys,
          )
      | inr differs ↦
          rw
            (count_rows-delete_other (λ i owner. owner == user_id) (is_passkey u id) t.passkeys
              (λ i owner mine.
                ground (arith, differs, ==_iff owner user_id, ==_iff owner u, ==_iff user_id u)))
            h.some_factor
    ];
    totp = h.totp;
    passkeys = delete_rows-IsTable _ t.passkeys h.passkeys;
  }

  -- The factors of another user are deleted.
  disabled-HasFactor :
      (user_id u : ℕ) (t : Factors)
      → (user_id == u) ≡ false
      → HasFactor user_id t
      → HasFactor user_id (record t {
        totp = delete_rows (λ i f. f.user_id == u) t.totp;
        passkeys = delete_rows (λ i owner. owner == u) t.passkeys;
        backup_codes = delete_rows (λ i b. b.user_id == u) t.backup_codes;
      })
  disabled-HasFactor user_id u t differs h = record {
    user = h.user;
    there = h.there;
    admin = h.admin;
    some_factor =
        rw
          (
            count_rows-delete_other (is_verified user_id) (λ i f. f.user_id == u) t.totp
                (λ i f mine.
                  ground (
                    arith,
                    differs,
                    ==_iff f.user_id user_id,
                    ==_iff f.user_id u,
                    ==_iff user_id u,
                  )),
            count_rows-delete_other (λ i owner. owner == user_id) (λ i owner. owner == u) t.passkeys
                (λ i owner mine.
                  ground (arith, differs, ==_iff owner user_id, ==_iff owner u, ==_iff user_id u)),
          )
          h.some_factor;
    totp = delete_rows-IsTable _ t.totp h.totp;
    passkeys = delete_rows-IsTable _ t.passkeys h.passkeys;
  }

  manage-HasFactor :
      (user_id : ℕ) (c : Managing) (t : Factors)
      → settings.admin_mfa_required ≡ true
      → HasFactor user_id t
      → HasFactor user_id (manage c t)
  unfolding manage regenerate_backup_codes remove_totp_factor remove_passkey disable_user_mfa
  manage-HasFactor user_id (regenerates u now generated) t required h =
      either (λ (o : Outcome (List Str) × Factors). HasFactor user_id o.1)
        ((mfa_state settings u t).standard_factor_count == 0) h
        (set_user_mfa_enabled-HasFactor user_id u true _ (record {
          user = h.user;
          there = h.there;
          admin = h.admin;
          some_factor = h.some_factor;
          totp = h.totp;
          passkeys = h.passkeys;
        }))
  manage-HasFactor user_id (removes_factor u id) t required h =
      elim (Bool-cases (leb (mfa_state settings u t).standard_factor_count 1)) [
        | inl last ↦ rw (manage, remove_totp_factor, last) (last_factor-HasFactor user_id u t h)
        | inr many ↦
            rw (manage, remove_totp_factor, many)
              (removed-HasFactor user_id _ _ _ (fewer-HasFactor user_id u id t h many))
      ]
  manage-HasFactor user_id (removes_passkey u id) t required h =
      elim (Bool-cases (leb (mfa_state settings u t).standard_factor_count 1)) [
        | inl last ↦ rw (manage, remove_passkey, last) (last_factor-HasFactor user_id u t h)
        | inr many ↦
            rw (manage, remove_passkey, many)
              (removed-HasFactor user_id _ _ _ (fewer_passkeys-HasFactor user_id u id t h many))
      ]
  manage-HasFactor user_id (disables u) t required h = elim (Bool-cases (user_id == u)) [
    | inl same ↦
        let is_admin : (mfa_state settings u t).is_admin ≡ true =
          ap (λ k. (mfa_state settings k t).is_admin) (sym ((==_iff user_id u).0 same))
          ∙ (state-admin user_id t h).0 in
        let both : ((mfa_state settings u t).is_admin && settings.admin_mfa_required) ≡ true =
          ground (arith, is_admin, required) in
        rw (manage, disable_user_mfa, both) h
    | inr differs ↦
        either (λ (o : Outcome (Unit {0}) × Factors). HasFactor user_id o.1)
          ((mfa_state settings u t).is_admin && settings.admin_mfa_required) h
          (set_user_mfa_enabled-HasFactor user_id u false _
            (disabled-HasFactor user_id u t differs h))
  ]

  -- Where administrators have to have a second factor, one who has a verified factor or a passkey
  -- always keeps one, whatever users remove factors, make new backup codes or turn their factors off.
  pub manage_all-HasFactor :
      (user_id : ℕ) (calls : List Managing) (t : Factors)
      → settings.admin_mfa_required ≡ true
      → HasFactor user_id t
      → HasFactor user_id (manage_all calls t)
  unfolding manage_all
  manage_all-HasFactor user_id [] t required h = h
  manage_all-HasFactor user_id (c ∷ calls) t required h =
      manage_all-HasFactor user_id calls (manage c t) required
        (manage-HasFactor user_id c t required h)
