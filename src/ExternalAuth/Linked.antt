-- ===== src/ExternalAuth/Linked.antt =====
-- An external account stands for one user.
use scam_screener_api.Base.{
  ℕ, Str, codes, str_eq, nat_eq, ◌≡◌, refl, sym, ap, ◌∙◌, Bool, true, false, not, Option, none,
  some, List, [], ◌∷◌, if◌then◌else◌,
}
use scam_screener_api.Base.Dict.{lookup}
use scam_screener_api.Base.Instants.{Instant}
use scam_screener_api.Base.Sql.{Table, find_row, lookup-find_row, lookup-add_row_self}
use scam_screener_api.Base.Sql.Unique.{has_key, find_row-At}
use scam_screener_api.Sessions.{User, is_filled}
use scam_screener_api.ExternalAuth.{
  Outcome, ok, refused, raised, ExternalAuthProfile, ExternalAuthSettings, normalize_email,
}
use scam_screener_api.ExternalAuth.Identities.{
  IdentityKey, key_eq, identity_key, profile_key, Accounts, insert_user, set_last_login,
  linked_user, identity_outcome, lookup_external_identity_user, new_user, link, link_by_email,
  sign_in, upsert_external_identity_user,
}
use scam_screener_api.ExternalAuth.Accounts.{
  email_key, IsInOrder, upsert-Edits, Edits-IsInOrder, insert_user-UserEdits, new_user-IsNamed,
  sign_in-Edits,
}
use scam_screener_api.ExternalAuth.Links.{
  IsLinked, Edits-IsLinked, linked_user-IsLinked, IsLinked-linked_user, link-IsLinked,
  set_last_login-At,
}

pub record SignIn : Type 0 where
  pub profile : ExternalAuthProfile
  pub password_hash : Str
  pub now : Instant

module _ (lower : Str → Str) (settings : ExternalAuthSettings) where
  unfoldable pub upsert : SignIn → Accounts → Outcome ℕ × Accounts
  unfolding upsert_external_identity_user
  upsert s a = upsert_external_identity_user lower settings s.password_hash s.now s.profile a

  unfoldable pub accounts_after : List SignIn → Accounts → Accounts
  unfolding upsert
  accounts_after [] a = a
  accounts_after (s ∷ sign_ins) a = accounts_after sign_ins (upsert s a).1

  -- The tables of the accounts are in order after any sign-ins: no two users have the same name or
  -- the same email, no two rows stand for the same external account, and every user name has 3 to
  -- 32 characters, each a small letter, a digit, `_` or `-`.
  pub accounts_after-IsInOrder :
      (sign_ins : List SignIn) (a : Accounts) → IsInOrder a → IsInOrder (accounts_after sign_ins a)
  unfolding accounts_after upsert
  accounts_after-IsInOrder [] a h = h
  accounts_after-IsInOrder (s ∷ sign_ins) a h =
      accounts_after-IsInOrder sign_ins (upsert s a).1
        (Edits-IsInOrder h (upsert-Edits lower settings s.password_hash s.now s.profile a))

module _ (lower : Str → Str) (settings : ExternalAuthSettings) (s : SignIn) (u : ℕ) (a : Accounts)
    (h : IsInOrder a) where
  abbrev user_of : User
  user_of = new_user lower settings s.password_hash s.now s.profile a.users.rows

  inserted-IsLinked :
      (inserted : Option (Table User))
      → insert_user user_of a.users ≡ inserted
      → (let o : Outcome ℕ × Accounts = elim inserted [
        | none ↦ (raised, a)
        | some users ↦ link lower s.now s.profile a.users.next_id users a
      ] in
          o.0)
        ≡ ok u
      → IsLinked (profile_key s.profile) u (
          let o : Outcome ℕ × Accounts = elim inserted [
            | none ↦ (raised, a)
            | some users ↦ link lower s.now s.profile a.users.next_id users a
          ] in
          o.1)
  inserted-IsLinked none found e = cc
  inserted-IsLinked (some users) found e =
      let grown =
        (insert_user-UserEdits user_of a.users users
          (new_user-IsNamed lower settings s.password_hash s.now s.profile a) found).1 in
      link-IsLinked lower s.now s.profile a.users.next_id u users a h
        (rw grown (record {
          row = user_of;
          stored = lookup-add_row_self user_of a.users h.usernames.table;
          holds = tt;
        }))
        e

  link_by_email-IsLinked :
      (found : Option (ℕ × User))
      → ((i : ℕ) (user : User) → found ≡ some (i, user) → lookup i a.users.rows ≡ some user)
      → (link_by_email lower settings s.password_hash s.now s.profile found a).0 ≡ ok u
      → IsLinked
          (profile_key s.profile)
          u
          (link_by_email lower settings s.password_hash s.now s.profile found a).1
  unfolding link_by_email
  link_by_email-IsLinked none stored e = inserted-IsLinked (insert_user user_of a.users) refl e
  link_by_email-IsLinked (some (i, user)) stored e =
      link-IsLinked lower s.now s.profile i u (set_last_login s.now i a.users) a h
        (set_last_login-At s.now i user a.users h.usernames.table (stored i user refl)) e

  first-IsLinked :
      (no_email : Bool)
      → (if no_email
          then (
            refused
                (codes
                  "The external identity did not provide a verified email address for first sign-in.")
                403,
            a,
          )
          else link_by_email lower settings s.password_hash s.now s.profile
              (find_row (has_key email_key (normalize_email lower s.profile.email)) a.users.rows)
              a).0
        ≡ ok u
      → IsLinked
          (profile_key s.profile)
          u
          (if no_email
            then (
              refused
                  (codes
                    "The external identity did not provide a verified email address for first sign-in.")
                  403,
              a,
            )
            else link_by_email lower settings s.password_hash s.now s.profile
                (find_row (has_key email_key (normalize_email lower s.profile.email)) a.users.rows)
                a).1
  first-IsLinked true e = cc
  first-IsLinked false e =
      link_by_email-IsLinked _
        (λ i user found. lookup-find_row _ a.users.rows i user h.emails.table.distinct found) e

  sign_in-IsLinked :
      (linked : Option ℕ)
      → linked_user (profile_key s.profile) a ≡ linked
      → (sign_in lower settings s.password_hash s.now s.profile linked a).0 ≡ ok u
      → IsLinked
          (profile_key s.profile)
          u
          (sign_in lower settings s.password_hash s.now s.profile linked a).1
  unfolding sign_in
  sign_in-IsLinked none new e =
      first-IsLinked (not (is_filled (normalize_email lower s.profile.email))) e
  sign_in-IsLinked (some user_id) known e =
      let same : user_id ≡ u = cc in
      Edits-IsLinked h (IsLinked-linked_user (profile_key s.profile) u a h (known ∙ ap some same))
        (sign_in-Edits lower settings s.password_hash s.now s.profile (some user_id) a)

  upsert-IsLinked :
      (upsert lower settings s a).0 ≡ ok u
      → IsLinked (profile_key s.profile) u (upsert lower settings s a).1
  unfolding upsert upsert_external_identity_user
  upsert-IsLinked e = sign_in-IsLinked (linked_user (profile_key s.profile) a) refl e

sign_in_known :
    (lower : Str → Str) (settings : ExternalAuthSettings) (s : SignIn) (u : ℕ) (a : Accounts)
    → (sign_in lower settings s.password_hash s.now s.profile (some u) a).0 ≡ ok u
unfolding sign_in
sign_in_known lower settings s u a = refl

module _ (lower : Str → Str) (settings : ExternalAuthSettings) where
  accounts_after-IsLinked :
      (key : IdentityKey) (u : ℕ) (sign_ins : List SignIn) (a : Accounts)
      → IsInOrder a
      → IsLinked key u a
      → IsLinked key u (accounts_after lower settings sign_ins a)
  unfolding accounts_after upsert
  accounts_after-IsLinked key u [] a h l = l
  accounts_after-IsLinked key u (s ∷ sign_ins) a h l =
      let edits = upsert-Edits lower settings s.password_hash s.now s.profile a in
      accounts_after-IsLinked key u sign_ins (upsert lower settings s a).1 (Edits-IsInOrder h edits)
        (Edits-IsLinked h l edits)

  lookup-IsLinked :
      (profile : ExternalAuthProfile) (u : ℕ) (a : Accounts)
      → IsInOrder a
      → IsLinked (profile_key profile) u a
      → lookup_external_identity_user profile a.identities ≡ ok u
  unfolding lookup_external_identity_user
  lookup-IsLinked profile u a h l =
      ap identity_outcome (
        ap (λ k. find_row (has_key identity_key k) a.identities.rows) (sym l.identity.holds.0)
        ∙ find_row-At identity_key l.id l.identity.row a.identities h.identities l.identity.stored)
      ∙ ap (λ i. ok i) l.identity.holds.1

  -- An external account stands for one user: once it has signed in as a user, then after any other
  -- sign-ins it signs in as that user again, whatever name and email its provider tells, and is
  -- found as that user.
  pub upsert-upsert :
      (s s' : SignIn) (u : ℕ) (sign_ins : List SignIn) (a : Accounts)
      → IsInOrder a
      → (upsert lower settings s a).0 ≡ ok u
      → profile_key s'.profile ≡ profile_key s.profile
      → ((upsert lower settings s'
            (accounts_after lower settings sign_ins (upsert lower settings s a).1)).0
          ≡ ok u)
        × (lookup_external_identity_user s'.profile
              (accounts_after lower settings sign_ins (upsert lower settings s a).1).identities
            ≡ ok u)
  unfolding upsert upsert_external_identity_user
  upsert-upsert s s' u sign_ins a h e same =
      let now = accounts_after lower settings sign_ins (upsert lower settings s a).1 in
      let order =
        Edits-IsInOrder h (upsert-Edits lower settings s.password_hash s.now s.profile a) in
      let ordered : IsInOrder now = accounts_after-IsInOrder lower settings sign_ins _ order in
      let linked : IsLinked (profile_key s'.profile) u now = rw same (
        accounts_after-IsLinked (profile_key s.profile) u sign_ins _ order
          (upsert-IsLinked lower settings s u a h e)) in
      (
        ap (λ l. (sign_in lower settings s'.password_hash s'.now s'.profile l now).0)
              (linked_user-IsLinked (profile_key s'.profile) u now ordered linked)
            ∙ sign_in_known lower settings s' u now,
        lookup-IsLinked s'.profile u now ordered linked,
      )
