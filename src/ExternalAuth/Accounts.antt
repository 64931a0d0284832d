-- ===== src/ExternalAuth/Accounts.antt =====
-- The two tables of the accounts stay in order through every sign-in.
use mathlib.Core.Option.{none-ne-some, some-injective}
use scam_screener_api.Base.{
  ℕ, Str, str_eq, nat_eq, ◌≡◌, refl, sym, true, not, ◌&&◌, Option, none, some, arith, either,
  Bool-cases, inl, inr,
}
use scam_screener_api.Base.Dict.{lookup}
use scam_screener_api.Base.Text.{strip}
use scam_screener_api.Base.Instants.{Instant}
use scam_screener_api.Base.Sql.{Table, find_row, add_row}
use scam_screener_api.Base.Sql.Unique.{
  has_key, insert_unique, IsKeyed, Edit, or_kept, insert_unique-Edit, Edit-IsKeyed, Edit-All,
}
use scam_screener_api.Sessions.{User, is_filled, is_null}
use scam_screener_api.ExternalAuth.{
  Outcome, ok, raised, ExternalAuthProfile, ExternalAuthSettings, normalize_email,
}
use scam_screener_api.ExternalAuth.Usernames.{is_username, username_available}
use scam_screener_api.ExternalAuth.Named.{unique_external_username-IsAvailable}
use scam_screener_api.ExternalAuth.Identities.{
  Identity, key_eq, identity_key, profile_key, Accounts, insert_user, set_last_login, linked_user,
  new_user, new_identity, touch, link, link_by_email, sign_in, upsert_external_identity_user,
}

abbrev pub username_key : User → Str
username_key user = user.username

abbrev pub email_key : User → Str
email_key user = user.email

-- The UPDATEs of the two tables.
pub data UserKind : (User → User) → Type 0 where
  logs_in : (now : Instant) → UserKind (λ user. record user { last_login_at = some now })

pub data IdentityKind : (Identity → Identity) → Type 0 where
  touches :
      (lower : Str → Str) (now : Instant) (profile : ExternalAuthProfile)
      → IdentityKind (touch lower now profile)

UserKind-username :
    (f : User → User) → UserKind f → (u : User) → username_key (f u) ≡ username_key u
UserKind-username f (UserKind.logs_in now) u = refl

UserKind-email : (f : User → User) → UserKind f → (u : User) → email_key (f u) ≡ email_key u
UserKind-email f (UserKind.logs_in now) u = refl

IdentityKind-key :
    (f : Identity → Identity)
    → IdentityKind f
    → (i : Identity) → identity_key (f i) ≡ identity_key i
unfolding touch
IdentityKind-key f (IdentityKind.touches lower now profile) i = refl

abbrev pub IsNamed : User → Type 0
IsNamed user = is_username user.username ≡ true

UserKind-IsNamed : (f : User → User) → UserKind f → (u : User) → IsNamed u → IsNamed (f u)
UserKind-IsNamed f (UserKind.logs_in now) u h = h

abbrev pub AnyIdentity : Identity → Type 0
AnyIdentity i = Unit

-- What a sign-in may do to the two tables.
pub record Edits (a a' : Accounts) : Type 0 where
  pub usernames : Edit username_key UserKind IsNamed a.users a'.users
  pub emails : Edit email_key UserKind IsNamed a.users a'.users
  pub identities : Edit identity_key IdentityKind AnyIdentity a.identities a'.identities

kept-Edits : (a : Accounts) → Edits a a
kept-Edits a = record { usernames = Edit.kept; emails = Edit.kept; identities = Edit.kept }

-- The users of one table, edited.
pub record UserEdits (t t' : Table User) : Type 0 where
  pub usernames : Edit username_key UserKind IsNamed t t'
  pub emails : Edit email_key UserKind IsNamed t t'

pub set_last_login-UserEdits :
    (now : Instant) (user_id : ℕ) (t : Table User) → UserEdits t (set_last_login now user_id t)
unfolding set_last_login
set_last_login-UserEdits now user_id t = record {
  usernames = Edit.updated _ _ (UserKind.logs_in now);
  emails = Edit.updated _ _ (UserKind.logs_in now);
}

of_null : {A : Type 0} (o : Option A) → is_null o ≡ true → o ≡ none
unfolding is_null
of_null none h = refl
of_null (some a) h = cc

pub insert_user-UserEdits :
    (user : User) (t t' : Table User)
    → IsNamed user
    → insert_user user t ≡ some t'
    → UserEdits t t' × (t' ≡ add_row user t)
unfolding insert_user username_available is_null
insert_user-UserEdits user t t' named e =
    elim (Bool-cases (
      username_available t.rows user.username
      && is_null (find_row (has_key email_key user.email) t.rows))) [
        | inl free ↦
            let name : find_row (has_key username_key user.username) t.rows ≡ none =
              of_null _ (ground (arith, free)) in
            let email : find_row (has_key email_key user.email) t.rows ≡ none =
              of_null _ (ground (arith, free)) in
            let grown : t' ≡ add_row user t = sym (some-injective _ t' (rw free at e)) in
            (
              rw grown (record {
                usernames = Edit.inserted user named name;
                emails = Edit.inserted user named email;
              }),
              grown,
            )
        | inr taken ↦ absurd (none-ne-some t' (rw taken at e))
      ]

module _ (lower : Str → Str) (now : Instant) where
  -- The INSERT of the identity, after an edit of the users.
  link-Edits :
      (profile : ExternalAuthProfile) (user_id : ℕ) (users : Table User) (a : Accounts)
      → UserEdits a.users users
      → Edits a (link lower now profile user_id users a).1
  unfolding link
  link-Edits profile user_id users a edits =
      split (insert_unique identity_key (new_identity lower now profile user_id) a.identities) (
        insert_unique-Edit identity_key IdentityKind AnyIdentity
          (new_identity lower now profile user_id) a.identities tt)
    where
      split :
          (inserted : Option (Table Identity))
          → Edit identity_key IdentityKind AnyIdentity a.identities (or_kept a.identities inserted)
          → Edits a (
              let o : Outcome ℕ × Accounts = elim inserted [
                | none ↦ (raised, a)
                | some identities ↦ (ok user_id, record { users = users; identities = identities })
              ] in
              o.1)
      split none edit = kept-Edits a
      split (some identities) edit = record {
        usernames = edits.usernames;
        emails = edits.emails;
        identities = edit;
      }

module _ (lower : Str → Str) (settings : ExternalAuthSettings) (password_hash : Str)
    (now : Instant) where
  pub new_user-IsNamed :
      (profile : ExternalAuthProfile) (a : Accounts)
      → IsNamed (new_user lower settings password_hash now profile a.users.rows)
  unfolding new_user
  new_user-IsNamed profile a =
      (unique_external_username-IsAvailable lower a.users.rows (lower (strip profile.username))
        (normalize_email lower profile.email) profile.provider).0

  inserted-Edits :
      (profile : ExternalAuthProfile) (a : Accounts) (inserted : Option (Table User))
      → ((users : Table User) → inserted ≡ some users → UserEdits a.users users)
      → Edits a (
          let o : Outcome ℕ × Accounts = elim inserted [
            | none ↦ (raised, a)
            | some users ↦ link lower now profile a.users.next_id users a
          ] in
          o.1)
  inserted-Edits profile a none edits = kept-Edits a
  inserted-Edits profile a (some users) edits =
      link-Edits lower now profile a.users.next_id users a (edits users refl)

  link_by_email-Edits :
      (profile : ExternalAuthProfile) (found : Option (ℕ × User)) (a : Accounts)
      → Edits a (link_by_email lower settings password_hash now profile found a).1
  unfolding link_by_email
  link_by_email-Edits profile (some (user_id, user)) a =
      link-Edits lower now profile user_id (set_last_login now user_id a.users) a
        (set_last_login-UserEdits now user_id a.users)
  link_by_email-Edits profile none a =
      inserted-Edits profile a
        (insert_user (new_user lower settings password_hash now profile a.users.rows) a.users)
        (λ users e.
          (insert_user-UserEdits (new_user lower settings password_hash now profile a.users.rows)
            a.users users (new_user-IsNamed profile a) e).0)

  pub sign_in-Edits :
      (profile : ExternalAuthProfile) (linked : Option ℕ) (a : Accounts)
      → Edits a (sign_in lower settings password_hash now profile linked a).1
  unfolding sign_in
  sign_in-Edits profile (some user_id) a =
      let edits = set_last_login-UserEdits now user_id a.users in
      record {
        usernames = edits.usernames;
        emails = edits.emails;
        identities = Edit.updated _ _ (IdentityKind.touches lower now profile);
      }
  sign_in-Edits profile none a =
      either (λ (o : Outcome ℕ × Accounts). Edits a o.1)
        (not (is_filled (normalize_email lower profile.email))) (kept-Edits a)
        (link_by_email-Edits profile
          (find_row (has_key email_key (normalize_email lower profile.email)) a.users.rows) a)

  pub upsert-Edits :
      (profile : ExternalAuthProfile) (a : Accounts)
      → Edits a (upsert_external_identity_user lower settings password_hash now profile a).1
  unfolding upsert_external_identity_user
  upsert-Edits profile a = sign_in-Edits profile (linked_user (profile_key profile) a) a

-- User names, emails and identities are unique, and every user name has the right form.
pub record IsInOrder (a : Accounts) : Type 0 where
  pub usernames : IsKeyed username_key a.users
  pub emails : IsKeyed email_key a.users
  pub identities : IsKeyed identity_key a.identities
  pub named : (i : ℕ) (user : User) → lookup i a.users.rows ≡ some user → IsNamed user

pub Edits-IsInOrder : {a a' : Accounts} → IsInOrder a → Edits a a' → IsInOrder a'
Edits-IsInOrder h edits = record {
  usernames = Edit-IsKeyed username_key UserKind UserKind-username h.usernames edits.usernames;
  emails = Edit-IsKeyed email_key UserKind UserKind-email h.emails edits.emails;
  identities =
      Edit-IsKeyed identity_key IdentityKind IdentityKind-key h.identities edits.identities;
  named =
      Edit-All username_key UserKind IsNamed UserKind-IsNamed h.usernames.table h.named
        edits.usernames;
}
