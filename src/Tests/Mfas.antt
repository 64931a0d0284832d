-- ===== src/Tests/Mfas.antt =====
-- Two wrong codes and a backup code for one login challenge.
use scam_screener_api.Base.{
  ◌+◌, ◌<◌, ◌≡◌, refl, Str, codes, str_beq, str_eq, nat_eq, true, false, none, some, List, [], ◌∷◌,
  ◌++◌, arith,
}
use scam_screener_api.Base.Dict.{lookup}
use scam_screener_api.Base.Text.{strip, is_space}
use scam_screener_api.Base.Instants.{text_order, iso_ltb}
use scam_screener_api.Base.Sql.{find_row, add_row, count_rows, update_rows, update_table}
use scam_screener_api.Base.Sql.Unique.{insert_unique, IsKeyed}
use scam_screener_api.Sessions.{Hashes, one_of, is_null}
use scam_screener_api.Sessions.Resolve.{normalize_user_agent_for_binding}
use scam_screener_api.ExternalAuth.{ok, refused}
use scam_screener_api.AuthFlows.{
  AuthFlow, mfa_hash, candidate_hashes, token_key, new_flow, create_auth_flow,
  consume_auth_flow_by_id, increment_auth_flow_failures, other_type, is_exhausted, check_flow,
  load_auth_flow,
}
use scam_screener_api.AuthFlows.Loaded.{load}
use scam_screener_api.ItemKeys.{digits}
use scam_screener_api.Mfa.{
  MfaSettings, Factors, LoginPayload, state_of, mfa_state, accepted, find_factor, use_backup_code,
  try_backup_code, after_search, try_code, try_email_code, judge,
}
use scam_screener_api.Mfa.Totp.{
  Codes, is_digit, all_digits, normalize_totp_code, is_alphanumeric, upper_letter,
  normalize_backup_code, repeated, last_byte, from_bytes, zfill, code_of, base32_decode, totp_of,
  totp_at, first_step, verify_totp_secret, is_base32, counter_bytes,
}
use scam_screener_api.Mfa.Challenges.{
  Challenge, MfaTables, payload_of, create_login_challenge, conclude, validated,
  complete_login_challenge_with_code,
}
use scam_screener_api.Mfa.Managed.{last_factor, remove_totp_factor}
use scam_screener_api.Mfa.Kept.{
  removes_factor, regenerates, disables, HasFactor, manage_all, manage_all-HasFactor,
}
use scam_screener_api.Mfa.Tried.{
  verdict_of, verdict_at, tables_after, wrong_codes, right_codes, wrong_codes_bound,
}

-- The test vector of RFC 4226 for the counter 1.
abbrev digest : Str
digest =
    0x75 ∷ 0xa4 ∷ 0x8a ∷ 0x19 ∷ 0xd4 ∷ 0xcb ∷ 0xe1 ∷ 0x00 ∷ 0x64 ∷ 0x4e ∷ 0x8a ∷ 0xc1 ∷ 0x39 ∷ 0x7e
    ∷ 0xea ∷ 0x74 ∷ 0x7a ∷ 0x2d ∷ 0x33 ∷ 0xab ∷ []

code_of_runs : code_of digest ≡ codes "287082"
unfolding code_of last_byte from_bytes zfill digits repeated
code_of_runs = refl

abbrev codes_of : Codes
codes_of = record {
  b32decode = λ s. some s;
  decrypt_value = λ s key. some s;
  hmac_sha1 = λ key message. digest;
  upper = λ s. s;
}

abbrev hashes : Hashes
hashes = record { sha256 = λ s. b's' ∷ s; hmac_sha256 = λ key s. key ++ s }

abbrev lower : Str → Str
lower s = s

abbrev settings : MfaSettings
settings = record {
  secret_key = codes "key";
  external_auth_enabled = false;
  admin_mfa_required = true;
  admin_mfa_ttl_minutes = 10;
  admin_mfa_max_attempts = 3;
  totp_skew_steps = 1;
}

abbrev flow : AuthFlow LoginPayload
flow = record {
  created_at = 1_000_000;
  user_id = 7;
  flow_type = codes "login-mfa";
  token_sha256 = codes "keytoken";
  payload = record { allow_email_bridge = false; email_code_sha256 = [] };
  expires_at = 601_000_000;
  consumed_at = none;
  failed_attempts = 0;
  source_ip = codes "10.0.0.1";
  user_agent = codes "Browser";
}

abbrev factors : Factors
factors = record {
  users =
      (
        7,
        record {
          created_at = 0;
          username = codes "ann";
          email = codes "ann@example.org";
          password_hash = [];
          is_admin = 1;
          mfa_enabled = 1;
          last_login_at = none;
        },
      )
      ∷ [];
  totp = record {
    rows =
        (
          1,
          record {
            user_id = 7;
            encrypted_secret = codes "ABCD";
            verified_at = some 5;
            last_used_at = none;
          },
        )
        ∷ [];
    next_id = 2;
  };
  passkeys = record { rows = []; next_id = 1 };
  backup_codes = record {
    rows = (1, record { user_id = 7; code_sha256 = codes "keyABCD2345"; consumed_at = none }) ∷ [];
    next_id = 2;
  };
}

abbrev tables : MfaTables
tables = record { factors = factors; flows = record { rows = (1, flow) ∷ []; next_id = 2 } }

create_runs :
    create_login_challenge hashes settings
      (codes "token")
      (codes "000000")
      7
      (codes "10.0.0.1")
      (codes "Browser")
      1_000_000
      1_000_000
      (record { factors = factors; flows = record { rows = []; next_id = 1 } })
    ≡ some tables.flows
unfolding create_login_challenge mfa_state state_of payload_of create_auth_flow insert_unique
    new_flow mfa_hash find_row add_row count_rows is_null lookup strip
create_runs = refl

abbrev challenge : Str → Challenge
challenge code = record {
  token = codes "token";
  code = code;
  source_ip = codes "10.0.0.1";
  user_agent = codes "Browser";
  loaded_at = 61_000_000;
  compared_at = 61_000_001;
  consumed_at = 61_000_002;
}

abbrev wrong : List Challenge
wrong = challenge (codes "000000") ∷ challenge (codes "ABCD-9999") ∷ []

app_runs :
    (complete_login_challenge_with_code codes_of hashes lower settings
      (challenge (codes " 287 082 "))
      tables).0
    ≡ ok (record { user_id = 7; method = codes "totp"; admin_setup_required = false })
unfolding verdict_at verdict_of tables_after complete_login_challenge_with_code validated conclude
    judge try_code try_email_code after_search try_backup_code use_backup_code find_factor mfa_state
    state_of is_digit all_digits normalize_totp_code is_alphanumeric upper_letter
    normalize_backup_code repeated last_byte from_bytes zfill code_of base32_decode totp_of totp_at
    first_step verify_totp_secret is_base32 counter_bytes digits load load_auth_flow check_flow
    candidate_hashes mfa_hash other_type is_exhausted consume_auth_flow_by_id
    increment_auth_flow_failures normalize_user_agent_for_binding one_of is_null find_row count_rows
    update_rows update_table lookup strip is_space iso_ltb text_order str_beq
app_runs = refl

tables-IsKeyed : IsKeyed token_key tables.flows
unfolding lookup
tables-IsKeyed = record {
  table = record { distinct = (refl, tt); below = (omega arith, tt) };
  unique = λ i j r s e e' same. ground arith;
}

third_runs :
    verdict_at codes_of hashes lower settings
      (challenge (codes "abcd-2345"))
      (tables_after codes_of hashes lower settings wrong tables)
    ≡ some (1, accepted (codes "backup-code") false)
unfolding verdict_at verdict_of tables_after complete_login_challenge_with_code validated conclude
    judge try_code try_email_code after_search try_backup_code use_backup_code find_factor mfa_state
    state_of is_digit all_digits normalize_totp_code is_alphanumeric upper_letter
    normalize_backup_code repeated last_byte from_bytes zfill code_of base32_decode totp_of totp_at
    first_step verify_totp_secret is_base32 counter_bytes digits load load_auth_flow check_flow
    candidate_hashes mfa_hash other_type is_exhausted consume_auth_flow_by_id
    increment_auth_flow_failures normalize_user_agent_for_binding one_of is_null find_row count_rows
    update_rows update_table lookup strip is_space iso_ltb text_order str_beq
third_runs = refl

wrong_codes_bound_example :
    (right_codes codes_of hashes lower settings 1 wrong tables ≡ 0)
    × (0 + wrong_codes codes_of hashes lower settings 1 wrong tables < 3)
wrong_codes_bound_example =
    wrong_codes_bound codes_of hashes lower settings 1 flow tables wrong
      (challenge (codes "abcd-2345")) (accepted (codes "backup-code") false) tables-IsKeyed
      (unfold lookup in refl) third_runs

factors-HasFactor : HasFactor 7 factors
unfolding lookup count_rows is_null
factors-HasFactor = record {
  user = record {
    created_at = 0;
    username = codes "ann";
    email = codes "ann@example.org";
    password_hash = [];
    is_admin = 1;
    mfa_enabled = 1;
    last_login_at = none;
  };
  there = refl;
  admin = refl;
  some_factor = omega arith;
  totp = record { distinct = (refl, tt); below = (omega arith, tt) };
  passkeys = record { distinct = tt; below = tt };
}

refusal_runs :
    remove_totp_factor hashes settings 7 1 factors
    ≡ (refused (codes "Admin accounts must keep at least one MFA method.") 409, factors)
unfolding remove_totp_factor last_factor mfa_state state_of lookup count_rows is_null
refusal_runs = refl

manage_all-HasFactor_example : HasFactor 7 (
    manage_all hashes settings
      (removes_factor 7 1 ∷ regenerates 7 9 (codes "abcd-2345" ∷ []) ∷ disables 7 ∷ [])
      factors)
manage_all-HasFactor_example =
    manage_all-HasFactor hashes settings 7
      (removes_factor 7 1 ∷ regenerates 7 9 (codes "abcd-2345" ∷ []) ∷ disables 7 ∷ []) factors refl
      factors-HasFactor
