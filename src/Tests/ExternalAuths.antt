-- ===== src/Tests/ExternalAuths.antt =====
-- A sign-in at GitHub that is started and returns twice, and an account that signs in twice.
use scam_screener_api.Base.{
  ◌≡◌, ◌≢◌, str_beq_iff, refl, Str, codes, str_beq, str_eq, nat_eq, false, true, some, none, List,
  [], ◌∷◌, arith,
}
use scam_screener_api.Base.Dict.{lookup}
use scam_screener_api.Base.Text.{strip}
use scam_screener_api.Base.Instants.{text_order, iso_ltb}
use scam_screener_api.Base.Sql.{Table, find_row, add_row, count_rows}
use scam_screener_api.Base.Sql.Unique.{insert_unique, IsKeyed, empty-IsKeyed}
use scam_screener_api.Sessions.{one_of, is_null}
use scam_screener_api.ExternalAuth.{
  ok, refused, ExternalAuthProfile, ExternalAuthSettings, starts_with, has_char,
  sanitize_redirect_path, split_at, email_or_empty, normalize_email, external_auth_provider_enabled,
  dashboard,
}
use scam_screener_api.ExternalAuth.States.{
  AuthState, state_key, state_hash, new_state, store_external_auth_state, redirect_result,
  create_external_auth_redirect, invalid,
}
use scam_screener_api.ExternalAuth.Calls.{Start, Return, Call, start, return, run}
use scam_screener_api.ExternalAuth.Once.{return-return}
use scam_screener_api.ExternalAuth.Returned.{return-start}
use scam_screener_api.ExternalAuth.Usernames.{
  is_name_char, all_name_chars, is_username, dashed, lstrip_dashes, rstrip_dashes, strip_dashes,
  username_available, normalize_username, sanitize_external_username, is_free, first_suffixed,
  first_available_username, first_base, or_admin, local_part, unique_external_username,
}
use scam_screener_api.ExternalAuth.Identities.{
  Accounts, key_eq, identity_key, insert_user, joined, with_user, linked_user,
  lookup_external_identity_user, new_identity, link, should_be_admin, new_user, link_by_email,
  sign_in, upsert_external_identity_user,
}
use scam_screener_api.ExternalAuth.Accounts.{username_key, email_key, IsInOrder}
use scam_screener_api.ExternalAuth.Linked.{
  SignIn, upsert, accounts_after, upsert-upsert, accounts_after-IsInOrder,
}

abbrev pub same : Str → Str
same s = s

abbrev pub settings : ExternalAuthSettings
settings = record {
  secret_key = codes "key";
  github_oauth_enabled = true;
  authelia_oidc_enabled = false;
  github_oauth_allowed_subjects = codes "42" ∷ [];
  github_oauth_allowed_emails = [];
  github_oauth_allowed_logins = [];
  authelia_oidc_allowed_subjects = [];
  authelia_oidc_allowed_emails = [];
  authelia_oidc_allowed_usernames = [];
  admin_usernames = [];
  admin_emails = [];
}

-- Paths that lead elsewhere are replaced.
sanitize_runs :
    (sanitize_redirect_path (codes " /account ") ≡ codes "/account")
    × (sanitize_redirect_path (codes "//evil.example") ≡ dashboard)
    × (sanitize_redirect_path (codes "https://evil.example") ≡ dashboard)
unfolding sanitize_redirect_path strip starts_with has_char
sanitize_runs = (refl, refl, refl)

abbrev sign_in_start : Str → Start
sign_in_start state = record {
  authorization_url = λ provider. some (codes "https://github.com/login");
  provider = codes " github ";
  next_path = codes "/account";
  secrets = record { state = state; code_verifier = codes "verifier"; nonce = codes "nonce" };
  source_ip = codes "10.0.0.1";
  user_agent = codes "Browser";
  now = 1_000_000;
  later = 1_000_000;
}

abbrev callback : Str → Return
callback state = record {
  provider = codes "github";
  state = state;
  user_agent = codes "Browser";
  now = 30_000_000;
}

abbrev none_started : Table AuthState
none_started = record { rows = []; next_id = 1 }

abbrev pub row : AuthState
row = record {
  created_at = 1_000_000;
  provider = codes "github";
  state_sha256 = codes "key:one";
  code_verifier = codes "verifier";
  nonce = codes "nonce";
  redirect_path = codes "/account";
  expires_at = 601_000_000;
  consumed_at = none;
  source_ip = codes "10.0.0.1";
  user_agent = codes "Browser";
}

abbrev pub started : Table AuthState
started = record { rows = (1, row) ∷ []; next_id = 2 }

start_runs :
    start same same settings (sign_in_start (codes "one")) none_started
    ≡ (ok (codes "https://github.com/login"), started)
unfolding start create_external_auth_redirect external_auth_provider_enabled str_beq strip
    redirect_result store_external_auth_state insert_unique find_row add_row new_state state_hash
    sanitize_redirect_path starts_with has_char
start_runs = refl

started-IsKeyed : IsKeyed state_key started
unfolding lookup
started-IsKeyed = record {
  table = record { distinct = (refl, tt); below = (omega arith, tt) };
  unique = λ i j r s e e' same. ground arith;
}

abbrev calls : List Call
calls = Call.starts (sign_in_start (codes "two")) ∷ Call.returns (callback (codes "two")) ∷ []

return-return_example :
    return same same settings
      (callback (codes "one"))
      (run same same settings calls (return same same settings (callback (codes "one")) started).1)
    ≡ (
      refused invalid 400,
      run same same settings calls (return same same settings (callback (codes "one")) started).1,
    )
return-return_example =
    return-return same same settings (callback (codes "one")) (callback (codes "one")) started 1 row
      calls started-IsKeyed (unfold find_row state_hash str_beq in refl) refl

other_state : ◌≢◌ {A = Str} (codes "key:two") (codes "key:one")
unfolding str_beq
other_state e = ground (arith, (str_beq_iff (codes "key:two") (codes "key:one")).1 e)

return-start_example :
    (return same same settings (callback (codes "one")) (run same same settings calls started)).0
    ≡ ok (record {
      id = 1;
      code_verifier = codes "verifier";
      nonce = codes "nonce";
      redirect_path = codes "/account";
    })
unfolding sanitize_redirect_path strip starts_with has_char state_hash iso_ltb text_order new_state
return-start_example =
    return-start same same settings (sign_in_start (codes "one")) (codes "https://github.com/login")
      (callback (codes "one")) none_started started calls (empty-IsKeyed state_key) start_runs
      (tt, (other_state, tt)) refl refl refl (unfold strip in omega arith) refl

abbrev pub profile : Str → ExternalAuthProfile
profile email = record {
  provider = codes "github";
  issuer = codes "https://github.com";
  subject = codes "42";
  email = email;
  username = codes "ann";
  display_name = codes "Ann";
}

abbrev pub no_accounts : Accounts
no_accounts = record {
  users = record { rows = []; next_id = 1 };
  identities = record { rows = []; next_id = 1 };
}

pub no_accounts-IsInOrder : IsInOrder no_accounts
unfolding lookup
no_accounts-IsInOrder = record {
  usernames = empty-IsKeyed username_key;
  emails = empty-IsKeyed email_key;
  identities = empty-IsKeyed identity_key;
  named = λ i user e. cc;
}

abbrev first_time : SignIn
first_time = record {
  profile = profile (codes "ann@example.org");
  password_hash = [];
  now = 1_000_000;
}

abbrev next_time : SignIn
next_time = record {
  profile = profile (codes "new@example.org");
  password_hash = [];
  now = 2_000_000;
}

abbrev second_user : SignIn
second_user = record {
  profile = record (profile (codes "ann@example.com")) { subject = codes "43" };
  password_hash = [];
  now = 1_500_000;
}

upsert_runs : (upsert same settings first_time no_accounts).0 ≡ ok 1
unfolding upsert upsert_external_identity_user linked_user with_user joined sign_in link_by_email
    link insert_user insert_unique new_identity new_user unique_external_username first_base
    or_admin first_available_username first_suffixed is_free sanitize_external_username
    normalize_username username_available local_part split_at is_username all_name_chars
    is_name_char dashed strip_dashes lstrip_dashes rstrip_dashes strip normalize_email
    email_or_empty has_char find_row is_null should_be_admin one_of count_rows str_beq add_row
upsert_runs = refl

upsert-upsert_example :
    ((upsert same settings next_time (
        accounts_after same settings
          (second_user ∷ [])
          (upsert same settings first_time no_accounts).1)).0
      ≡ ok 1)
    × (lookup_external_identity_user
          (profile (codes "new@example.org"))
          (accounts_after same settings
            (second_user ∷ [])
            (upsert same settings first_time no_accounts).1).identities
        ≡ ok 1)
upsert-upsert_example =
    upsert-upsert same settings first_time next_time 1 (second_user ∷ []) no_accounts
      no_accounts-IsInOrder upsert_runs refl

accounts_after-IsInOrder_example :
    IsInOrder (accounts_after same settings (first_time ∷ next_time ∷ []) no_accounts)
accounts_after-IsInOrder_example =
    accounts_after-IsInOrder same settings (first_time ∷ next_time ∷ []) no_accounts
      no_accounts-IsInOrder
