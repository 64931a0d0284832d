-- ===== src/ExternalAuth/Links.antt =====
-- app/training_hub/core/external_auth.py: an external account that is linked to a user stays linked.
use mathlib.Core.Option.{none-ne-some, some-injective}
use scam_screener_api.Base.{
  ℕ, Str, str_eq, nat_eq, ◌≡◌, refl, sym, ap, subst, ◌∙◌, Option, none, some,
}
use scam_screener_api.Base.Dict.{lookup}
use scam_screener_api.Base.Instants.{Instant}
use scam_screener_api.Base.Sql.{
  Table, IsTable, find_row, find_row-holds, lookup-find_row, add_row, lookup-add_row_self,
}
use scam_screener_api.Base.Sql.Unique.{has_key, insert_unique, At, find_row-At, Edit-At}
use scam_screener_api.Sessions.{User}
use scam_screener_api.ExternalAuth.{Outcome, ok, raised, ExternalAuthProfile}
use scam_screener_api.ExternalAuth.Identities.{
  Identity, IdentityKey, key_eq, key_beq_iff, identity_key, profile_key, Accounts, set_last_login,
  linked_user, with_user, joined, new_identity, touch, link,
}
use scam_screener_api.ExternalAuth.Accounts.{
  username_key, UserKind, IdentityKind, Edits, IsInOrder, set_last_login-UserEdits,
}

-- The row of an external account, and its user.
abbrev pub Belongs : IdentityKey → ℕ → Identity → Type 0
Belongs key user_id i = (identity_key i ≡ key) × (i.user_id ≡ user_id)

pub record IsLinked (key : IdentityKey) (user_id : ℕ) (a : Accounts) : Type 0 where
  pub id : ℕ
  pub identity : At identity_key (Belongs key user_id) id a.identities
  pub user : At username_key (λ user. Unit {0}) user_id a.users

IdentityKind-Belongs :
    (key : IdentityKey) (user_id : ℕ) (f : Identity → Identity)
    → IdentityKind f
    → (i : Identity) → Belongs key user_id i
    → Belongs key user_id (f i)
unfolding touch
IdentityKind-Belongs key user_id f (IdentityKind.touches lower now profile) i h = h

pub Edits-IsLinked :
    {key : IdentityKey} {user_id : ℕ} {a a' : Accounts}
    → IsInOrder a
    → IsLinked key user_id a
    → Edits a a'
    → IsLinked key user_id a'
Edits-IsLinked {key} {user_id} h l edits = record {
  id = l.id;
  identity =
      Edit-At identity_key IdentityKind (Belongs key user_id) (IdentityKind-Belongs key user_id)
        h.identities.table l.identity edits.identities;
  user =
      Edit-At username_key UserKind (λ user. Unit {0}) (λ f kind user p. p) h.usernames.table l.user
        edits.usernames;
}

pub linked_user-IsLinked :
    (key : IdentityKey) (user_id : ℕ) (a : Accounts)
    → IsInOrder a
    → IsLinked key user_id a
    → linked_user key a ≡ some user_id
unfolding linked_user
linked_user-IsLinked key user_id a h l =
    let found =
      ap (λ k. find_row (has_key identity_key k) a.identities.rows) (sym l.identity.holds.0)
      ∙ find_row-At identity_key l.id l.identity.row a.identities h.identities l.identity.stored in
    ap (λ f. with_user f a.users.rows) found
    ∙ ap (λ i. joined i (lookup i a.users.rows)) l.identity.holds.1
    ∙ ap (joined user_id) l.user.stored

joined-some :
    (i user_id : ℕ) (found : Option User)
    → joined i found ≡ some user_id
    → (user : User) × ((found ≡ some user) × (i ≡ user_id))
unfolding joined
joined-some i user_id none e = absurd (none-ne-some user_id e)
joined-some i user_id (some user) e = (user, (refl, some-injective i user_id e))

with_user-IsLinked :
    (key : IdentityKey) (user_id : ℕ) (a : Accounts) (found : Option (ℕ × Identity))
    → IsInOrder a
    → find_row (has_key identity_key key) a.identities.rows ≡ found
    → with_user found a.users.rows ≡ some user_id
    → IsLinked key user_id a
unfolding with_user
with_user-IsLinked key user_id a none h found e = absurd (none-ne-some user_id e)
with_user-IsLinked key user_id a (some (i, identity)) h found e =
    let (user, there) =
      joined-some identity.user_id user_id (lookup identity.user_id a.users.rows) e in
    record {
      id = i;
      identity = record {
        row = identity;
        stored = lookup-find_row _ a.identities.rows i identity h.identities.table.distinct found;
        holds = (
          (key_beq_iff (identity_key identity) key).0
              (find_row-holds (has_key identity_key key) a.identities.rows i identity found),
          there.1,
        );
      };
      user = record {
        row = user;
        stored = ap (λ k. lookup k a.users.rows) (sym there.1) ∙ there.0;
        holds = tt;
      };
    }

pub IsLinked-linked_user :
    (key : IdentityKey) (user_id : ℕ) (a : Accounts)
    → IsInOrder a
    → linked_user key a ≡ some user_id
    → IsLinked key user_id a
unfolding linked_user
IsLinked-linked_user key user_id a h e = with_user-IsLinked key user_id a _ h refl e

-- What the INSERT of an identity leaves, for a user that is there.
pub link-IsLinked :
    (lower : Str → Str) (now : Instant) (profile : ExternalAuthProfile) (user_id u : ℕ)
    (users : Table User) (a : Accounts)
    → IsInOrder a
    → At username_key (λ user. Unit {0}) user_id users
    → (link lower now profile user_id users a).0 ≡ ok u
    → IsLinked (profile_key profile) u (link lower now profile user_id users a).1
unfolding link insert_unique new_identity
link-IsLinked lower now profile user_id u users a h there e =
    split (find_row (has_key identity_key (profile_key profile)) a.identities.rows) e
  where
    Linked : Option (ℕ × Identity) → Outcome ℕ × Accounts
    Linked found =
        elim (let inserted : Option (Table Identity) = elim found [
          | none ↦ some (add_row (new_identity lower now profile user_id) a.identities)
          | some duplicate ↦ none
        ] in
          inserted) [
            | none ↦ (raised, a)
            | some identities ↦ (ok user_id, record { users = users; identities = identities })
          ]

    split :
        (found : Option (ℕ × Identity))
        → (Linked found).0 ≡ ok u
        → IsLinked (profile_key profile) u (Linked found).1
    split none e =
        let same : user_id ≡ u = cc in
        record {
          id = a.identities.next_id;
          identity = record {
            row = new_identity lower now profile user_id;
            stored = lookup-add_row_self _ a.identities h.identities.table;
            holds = (refl, same);
          };
          user = subst (λ k. At username_key (λ user. Unit {0}) k users) same there;
        }
    split (some row) e = cc

pub set_last_login-At :
    (now : Instant) (user_id : ℕ) (user : User) (t : Table User)
    → IsTable t
    → lookup user_id t.rows ≡ some user
    → At username_key (λ user. Unit {0}) user_id (set_last_login now user_id t)
set_last_login-At now user_id user t h there =
    let edits = set_last_login-UserEdits now user_id t in
    Edit-At username_key UserKind (λ user. Unit {0}) (λ f kind user p. p) h
      (record { row = user; stored = there; holds = tt }) edits.usernames
