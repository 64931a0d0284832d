-- ===== src/ExternalAuth/Identities.antt =====
-- app/training_hub/core/external_auth.py: the table `external_identities`, which links an account of
-- a provider to a user. `password_hash` is that of a random password.
use scam_screener_api.Base.{
  ℕ, Str, codes, str_beq, str_beq_iff, str_eq, nat_eq, ◌≡◌, ◌↔◌, Bool, true, not, ◌&&◌, ◌||◌,
  Option, none, some, if◌then◌else◌, ◌==◌, Eq, arith,
}
use scam_screener_api.Base.Dict.{Dict, lookup}
use scam_screener_api.Base.Text.{strip}
use scam_screener_api.Base.Instants.{Instant}
use scam_screener_api.Base.Sql.{Table, find_row, update_table, count_rows, add_row}
use scam_screener_api.Base.Sql.Unique.{has_key, insert_unique}
use scam_screener_api.Sessions.{User, is_filled, is_null, one_of}
use scam_screener_api.ExternalAuth.{
  Outcome, ok, refused, raised, ExternalAuthProfile, ExternalAuthSettings, normalize_email,
}
use scam_screener_api.ExternalAuth.Usernames.{unique_external_username, username_available}

pub record Identity : Type 0 where
  pub created_at : Instant
  pub updated_at : Instant
  pub user_id : ℕ
  pub provider : Str
  pub issuer : Str
  pub subject : Str
  pub email : Str
  pub username : Str
  pub last_login_at : Option Instant

-- The UNIQUE index on (provider, issuer, subject).
pub record IdentityKey : Type 0 where
  pub provider : Str
  pub issuer : Str
  pub subject : Str

unfoldable pub key_beq : IdentityKey → IdentityKey → Bool
key_beq k l =
    str_beq k.provider l.provider && (str_beq k.issuer l.issuer && str_beq k.subject l.subject)

pub key_beq_iff : (k l : IdentityKey) → (key_beq k l ≡ true) ↔ (k ≡ l)
unfolding key_beq
key_beq_iff k l = ground (
  arith,
  str_beq_iff k.provider l.provider,
  str_beq_iff k.issuer l.issuer,
  str_beq_iff k.subject l.subject,
)

instance abbrev pub key_eq : Eq IdentityKey
key_eq = record { beq = key_beq; beq_iff = key_beq_iff }

abbrev pub identity_key : Identity → IdentityKey
identity_key i = record { provider = i.provider; issuer = i.issuer; subject = i.subject }

abbrev pub profile_key : ExternalAuthProfile → IdentityKey
profile_key p = record { provider = p.provider; issuer = p.issuer; subject = p.subject }

-- The two tables that are written together.
pub record Accounts : Type 0 where
  pub users : Table User
  pub identities : Table Identity

abbrev has_email : Str → ℕ → User → Bool
has_email email i user = str_beq user.email email

-- The INSERT of a user, with UNIQUE user names and emails.
unfoldable pub insert_user : User → Table User → Option (Table User)
unfolding username_available is_null
insert_user user users =
    if username_available users.rows user.username
      && is_null (find_row (has_email user.email) users.rows)
    then some (add_row user users)
    else none

-- `UPDATE users SET last_login_at = ? WHERE id = ?`
unfoldable pub set_last_login : Instant → ℕ → Table User → Table User
set_last_login now user_id users =
    update_table (λ i user. i == user_id) (λ user. record user { last_login_at = some now }) users

-- The JOIN of an identity with its user, which drops it where that is gone.
unfoldable pub joined : ℕ → Option User → Option ℕ
joined user_id none = none
joined user_id (some user) = some user_id

unfoldable pub with_user : Option (ℕ × Identity) → Dict ℕ User → Option ℕ
unfolding joined
with_user none users = none
with_user (some (i, identity)) users = joined identity.user_id (lookup identity.user_id users)

-- The SELECT of an identity with its user.
unfoldable pub linked_user : IdentityKey → Accounts → Option ℕ
unfolding with_user
linked_user key a = with_user (find_row (has_key identity_key key) a.identities.rows) a.users.rows

unfoldable pub identity_outcome : Option (ℕ × Identity) → Outcome ℕ
identity_outcome none =
    refused (codes "The external identity is not linked to a local account.") 403
identity_outcome (some (i, identity)) = ok identity.user_id

-- `lookup_external_identity_user`, which does not JOIN.
unfoldable pub lookup_external_identity_user : ExternalAuthProfile → Table Identity → Outcome ℕ
unfolding identity_outcome
lookup_external_identity_user profile identities =
    identity_outcome (find_row (has_key identity_key (profile_key profile)) identities.rows)

module _ (lower : Str → Str) (now : Instant) where
  unfoldable pub new_identity : ExternalAuthProfile → ℕ → Identity
  unfolding strip normalize_email
  new_identity profile user_id = record {
    created_at = now;
    updated_at = now;
    user_id = user_id;
    provider = profile.provider;
    issuer = profile.issuer;
    subject = profile.subject;
    email = normalize_email lower profile.email;
    username = lower (strip profile.username);
    last_login_at = some now;
  }

  -- `SET updated_at = ?, email = ?, username = ?, last_login_at = ?`
  unfoldable pub touch : ExternalAuthProfile → Identity → Identity
  unfolding strip normalize_email
  touch profile identity = record identity {
    updated_at = now;
    email = normalize_email lower profile.email;
    username = lower (strip profile.username);
    last_login_at = some now;
  }

  -- The INSERT of the identity; what raises before the commit changes nothing.
  unfoldable pub link : ExternalAuthProfile → ℕ → Table User → Accounts → Outcome ℕ × Accounts
  unfolding new_identity
  link profile user_id users a =
      elim (insert_unique identity_key (new_identity profile user_id) a.identities) [
        | none ↦ (raised, a)
        | some identities ↦ (ok user_id, record { users = users; identities = identities })
      ]

module _ (lower : Str → Str) (settings : ExternalAuthSettings) (password_hash : Str)
    (now : Instant) where
  -- `_should_external_user_be_admin`
  unfoldable pub should_be_admin : Str → Str → Dict ℕ User → Bool
  unfolding one_of
  should_be_admin username email users =
      one_of username settings.admin_usernames
      || (one_of email settings.admin_emails
          || count_rows (λ i user. user.is_admin == 1) users == 0)

  -- The row of a user who signs in for the first time.
  unfoldable pub new_user : ExternalAuthProfile → Dict ℕ User → User
  unfolding strip normalize_email unique_external_username should_be_admin
  new_user profile users =
      let email = normalize_email lower profile.email in
      let username =
        unique_external_username lower users (lower (strip profile.username)) email
          profile.provider in
      record {
        created_at = now;
        username = username;
        email = email;
        password_hash = password_hash;
        is_admin = if should_be_admin username email users then 1 else 0;
        mfa_enabled = 0;
        last_login_at = some now;
      }

  -- By what the SELECT of a user with the email finds.
  unfoldable pub link_by_email :
      ExternalAuthProfile → Option (ℕ × User) → Accounts → Outcome ℕ × Accounts
  unfolding new_user insert_user set_last_login link
  link_by_email profile (some (user_id, user)) a =
      link lower now profile user_id (set_last_login now user_id a.users) a
  link_by_email profile none a = elim (insert_user (new_user profile a.users.rows) a.users) [
    | none ↦ (raised, a)
    | some users ↦ link lower now profile a.users.next_id users a
  ]

  -- By what the first SELECT finds.
  unfoldable pub sign_in : ExternalAuthProfile → Option ℕ → Accounts → Outcome ℕ × Accounts
  unfolding touch set_last_login link_by_email normalize_email
  sign_in profile (some user_id) a = (
    ok user_id,
    record {
      users = set_last_login now user_id a.users;
      identities =
          update_table (has_key identity_key (profile_key profile)) (touch lower now profile)
            a.identities;
    },
  )
  sign_in profile none a =
      let email = normalize_email lower profile.email in
      if not (is_filled email)
      then (
        refused
            (codes
              "The external identity did not provide a verified email address for first sign-in.")
            403,
        a,
      )
      else link_by_email profile (find_row (has_email email) a.users.rows) a

  -- `_upsert_external_identity_user`
  unfoldable pub upsert_external_identity_user :
      ExternalAuthProfile → Accounts → Outcome ℕ × Accounts
  unfolding linked_user sign_in
  upsert_external_identity_user profile a = sign_in profile (linked_user (profile_key profile) a) a
