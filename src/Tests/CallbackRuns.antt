-- ===== src/Tests/CallbackRuns.antt =====
-- The callback of the first sign-in at GitHub, while others than administrators may not log in.
use scam_screener_api.Base.{
  ℕ, ◌≡◌, refl, Str, codes, str_beq, str_eq, nat_eq, some, none, [], ◌∷◌, ◌++◌,
}
use scam_screener_api.Base.Dict.{lookup, insert}
use scam_screener_api.Base.Text.{strip}
use scam_screener_api.Base.Instants.{text_order, iso_ltb}
use scam_screener_api.Base.Sql.{find_row, add_row, count_rows, update_rows, update_table}
use scam_screener_api.Base.Sql.Unique.{insert_unique}
use scam_screener_api.AccessPolicies.{
  disable_login_non_admin, access_policies, is_set, apply_rows, apply_row, override,
  normalize_access_policy_key, normalize_access_policy_value, lowered,
}
use scam_screener_api.Sessions.{
  Hashes, one_of, is_null, create_session, insert_session, new_session, session_token_hash,
}
use scam_screener_api.Sessions.Resolve.{normalize_user_agent_for_binding}
use scam_screener_api.ExternalAuth.{
  has_char, split_at, email_or_empty, normalize_email, authorize_external_profile,
}
use scam_screener_api.ExternalAuth.States.{
  state_hash, consume, is_open, mark_consumed, check_state, consume_external_auth_state,
}
use scam_screener_api.ExternalAuth.Usernames.{
  is_name_char, all_name_chars, is_username, dashed, lstrip_dashes, rstrip_dashes, strip_dashes,
  username_available, normalize_username, sanitize_external_username, is_free, first_suffixed,
  first_available_username, first_base, or_admin, local_part, unique_external_username,
}
use scam_screener_api.ExternalAuth.Identities
use scam_screener_api.ExternalAuth.Identities.{
  insert_user, joined, with_user, linked_user, new_identity, link, should_be_admin, new_user,
  link_by_email, upsert_external_identity_user,
}
use scam_screener_api.Callback
use scam_screener_api.Callback.{
  CallbackSettings, Payloads, Hub, Request, Response, login_error, signed_in,
  external_auth_callback, admit, set_session_cookie, enter, exchanged, after_exchange, with_states,
}
use scam_screener_api.Callback.Exchange.{
  Provider, Urls, first_stripped, step_up_confirm_token, or_raised, profile_from_code, exchange,
  complete_external_auth_exchange,
}
use scam_screener_api.Callback.Entitled.{Entitles, IsEntitled, external_auth_callback-IsEntitled}
use scam_screener_api.Tests.ExternalAuths.{
  settings, same, started, no_accounts, no_accounts-IsInOrder, profile,
}

abbrev hashes : Hashes
hashes = record { sha256 = λ s. s; hmac_sha256 = λ key s. key ++ s }

abbrev urls : Urls
urls = record { urlsplit = λ path. (path, []); parse_qs = λ query. [] }

abbrev provider : Provider
provider = record {
  github_profile_from_code = λ code verifier. some (profile (codes "ann@example.org"));
  authelia_profile_from_code = λ code verifier nonce. none;
}

abbrev payloads : Payloads ℕ
payloads = record { page = λ payload. codes "security"; confirmed = λ method payload. payload }

abbrev callback_settings : CallbackSettings
callback_settings = record {
  external = settings;
  session_ttl_minutes = 60;
  admin_mfa_max_attempts = 3;
}

abbrev hub : Hub ℕ
hub = record {
  states = started;
  accounts = no_accounts;
  flows = record { rows = []; next_id = 1 };
  sessions = record { rows = []; next_id = 1 };
  policies =
      (
        disable_login_non_admin,
        record { policy_value = codes "1"; updated_at = []; updated_by_user_id = none },
      )
      ∷ [];
}

abbrev request : Str → Request
request state = record {
  provider = codes "github";
  code = codes "code";
  state = state;
  source_ip = codes "10.0.0.1";
  user_agent = codes "Browser";
  session_token = codes "session";
  flow_token = codes "flow";
  password_hash = [];
  consumed_at = 30_000_000;
  loaded_at = 31_000_000;
  signed_in_at = 32_000_000;
  created_at = 33_000_000;
}

-- The first user is an administrator, and signed in.
external_auth_callback_runs :
    (external_auth_callback hashes same urls provider payloads callback_settings
      (request (codes "one"))
      hub).0
    ≡ signed_in (codes "/account")
unfolding external_auth_callback complete_external_auth_exchange consume_external_auth_state
    check_state mark_consumed state_hash exchange profile_from_code or_raised
    authorize_external_profile with_states after_exchange exchanged step_up_confirm_token
    first_stripped enter Callback.sign_in admit set_session_cookie access_policies apply_rows
    apply_row override is_set normalize_access_policy_key normalize_access_policy_value lowered
    create_session insert_session new_session session_token_hash strip iso_ltb text_order
    normalize_user_agent_for_binding upsert_external_identity_user linked_user with_user joined
    Identities.sign_in link_by_email link insert_user insert_unique new_identity new_user
    unique_external_username first_base or_admin first_available_username first_suffixed is_free
    sanitize_external_username normalize_username username_available local_part split_at is_username
    all_name_chars is_name_char dashed strip_dashes lstrip_dashes rstrip_dashes normalize_email
    email_or_empty has_char find_row is_null should_be_admin one_of count_rows str_beq add_row
    lookup update_table update_rows consume is_open insert
external_auth_callback_runs = refl

external_auth_callback-IsEntitled_example :
    Entitles hashes same urls provider payloads callback_settings
      (request (codes "one"))
      (IsEntitled hashes same urls provider payloads callback_settings (request (codes "one")) hub)
      hub.sessions
      (external_auth_callback hashes same urls provider payloads callback_settings
        (request (codes "one"))
        hub)
external_auth_callback-IsEntitled_example =
    external_auth_callback-IsEntitled hashes same urls provider payloads callback_settings
      (request (codes "one")) hub no_accounts-IsInOrder
