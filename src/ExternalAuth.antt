-- ===== src/ExternalAuth.antt =====
-- app/training_hub/core/external_auth.py: signing in with an account of GitHub or Authelia.
pub mod States
pub mod Calls
pub mod Once
pub mod Returned
pub mod Usernames
pub mod Named
pub mod Identities
pub mod Accounts
pub mod Links
pub mod Linked
use scam_screener_api.Base.{
  ℕ, ◌+◌, Str, codes, str_beq, Bool, true, false, not, ◌&&◌, ◌||◌, Option, none, some, List, [],
  ◌∷◌, ◌++◌, take, if◌then◌else◌, ◌≡◌, ◌≢◌, refl, ◌==◌, ltb, length,
}
use scam_screener_api.Base.Text.{strip}
use scam_screener_api.Sessions.{is_filled, one_of}

-- A call that answers, refuses with an error and its status code, or raises.
pub data Outcome {ℓ} (A : Type ℓ) : Type ℓ where
  ok : A → Outcome A
  refused : Str → ℕ → Outcome A
  raised : Outcome A

pub refused-ne-ok {ℓ} :
    {A : Type ℓ} (error : Str) (status : ℕ) (a : A) → refused error status ≢ ok a
refused-ne-ok error status a e = cc

infixl 5 ◌>>=◌
abbrev pub ◌>>=◌ {ℓ κ} : {A : Type ℓ} {B : Type κ} → Outcome A → (A → Outcome B) → Outcome B
ok a >>= f = f a
refused error status >>= f = refused error status
raised >>= f = raised

pub ok-injective {ℓ} : {A : Type ℓ} (a b : A) → ◌≡◌ {A = Outcome A} (ok a) (ok b) → a ≡ b
ok-injective a b e = cc

pub >>=-eq-ok {ℓ κ} :
    {A : Type ℓ} {B : Type κ} (m : Outcome A) (f : A → Outcome B) (b : B)
    → (m >>= f) ≡ ok b
    → (a : A) × ((m ≡ ok a) × (f a ≡ ok b))
>>=-eq-ok (ok a) f b h = (a, (refl, h))
>>=-eq-ok (refused error status) f b h = absurd (refused-ne-ok error status b h)
>>=-eq-ok raised f b h = cc

pub record ExternalAuthProfile : Type 0 where
  pub provider : Str
  pub issuer : Str
  pub subject : Str
  pub email : Str
  pub username : Str
  pub display_name : Str

-- What the functions read of the settings.
pub record ExternalAuthSettings : Type 0 where
  pub secret_key : Str
  pub github_oauth_enabled : Bool
  pub authelia_oidc_enabled : Bool
  pub github_oauth_allowed_subjects : List Str
  pub github_oauth_allowed_emails : List Str
  pub github_oauth_allowed_logins : List Str
  pub authelia_oidc_allowed_subjects : List Str
  pub authelia_oidc_allowed_emails : List Str
  pub authelia_oidc_allowed_usernames : List Str
  pub admin_usernames : List Str
  pub admin_emails : List Str

abbrev pub github : Str
github = codes "github"

abbrev pub authelia : Str
authelia = codes "authelia"

abbrev pub dashboard : Str
dashboard = codes "/dashboard"

-- `s.startswith(prefix)`
unfoldable pub starts_with : Str → Str → Bool
starts_with [] s = true
starts_with (a ∷ pre) [] = false
starts_with (a ∷ pre) (b ∷ s) = a == b && starts_with pre s

-- `c in s`
unfoldable pub has_char : ℕ → Str → Bool
has_char c [] = false
has_char c (d ∷ s) = c == d || has_char c s

-- `_sanitize_redirect_path`
unfoldable pub sanitize_redirect_path : Str → Str
unfolding strip starts_with has_char
sanitize_redirect_path candidate =
    let path = strip candidate in
    if not (starts_with (codes "/") path)
      || (starts_with (codes "//") path || (has_char 13 path || has_char 10 path))
    then dashboard
    else take 1024 path

-- `normalized.partition("@")`, where there is one.
unfoldable pub split_at : Str → Option (Str × Str)
split_at [] = none
split_at (c ∷ s) =
    let rest = split_at s in
    if c == 64
    then some ([], s)
    else elim rest [ none ↦ none | some (before, after) ↦ some (c ∷ before, after) ]

unfoldable pub email_or_empty : Str → Option (Str × Str) → Str
unfolding has_char
email_or_empty normalized none = []
email_or_empty normalized (some (before, domain)) =
    if not (is_filled before) || (not (is_filled domain) || not (has_char 46 domain))
    then []
    else normalized

module _ (lower : Str → Str) where
  -- `_normalize_email`
  unfoldable pub normalize_email : Str → Str
  unfolding strip split_at email_or_empty
  normalize_email value =
      let normalized = lower (strip value) in
      if ltb 254 (length normalized) then [] else email_or_empty normalized (split_at normalized)

  -- `external_auth_provider_enabled`
  unfoldable pub external_auth_provider_enabled : ExternalAuthSettings → Str → Bool
  unfolding strip
  external_auth_provider_enabled settings provider =
      let normalized = lower (strip provider) in
      if str_beq normalized github
      then settings.github_oauth_enabled
      else if str_beq normalized authelia
      then settings.authelia_oidc_enabled
      else false

  -- `_authorize_external_profile`
  unfoldable pub authorize_external_profile :
      ExternalAuthSettings → ExternalAuthProfile → Outcome (Unit {0})
  unfolding strip normalize_email one_of
  authorize_external_profile settings profile =
      let normalized_email = normalize_email profile.email in
      let normalized_username = lower (strip profile.username) in
      let subject = strip profile.subject in
      if str_beq profile.provider github
      then if one_of subject settings.github_oauth_allowed_subjects
          || (one_of normalized_email settings.github_oauth_allowed_emails
              || one_of normalized_username settings.github_oauth_allowed_logins)
        then ok tt
        else refused (codes "This GitHub account is not allowed to sign in.") 403
      else if str_beq profile.provider authelia
      then if one_of subject settings.authelia_oidc_allowed_subjects
          || (one_of normalized_email settings.authelia_oidc_allowed_emails
              || one_of normalized_username settings.authelia_oidc_allowed_usernames)
        then ok tt
        else refused (codes "This Authelia account is not allowed to sign in.") 403
      else refused (codes "External provider is not supported.") 404
