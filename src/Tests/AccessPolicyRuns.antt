-- ===== src/Tests/AccessPolicyRuns.antt =====
-- The sign-up is disabled on a table that has a row of the other policy.
use scam_screener_api.Base.{
  ◌≡◌, ◌≢◌, refl, Str, codes, str_beq, str_eq, true, false, some, [], ◌∷◌, arith,
}
use scam_screener_api.Base.Dict.{Dict, lookup, insert, NodupKeys}
use scam_screener_api.Base.Text.{strip, ascii_lower}
use scam_screener_api.AccessPolicies.{
  PolicyRow, PolicyChange, disable_login_non_admin, disable_signup, set_access_policy,
  normalize_access_policy_key, previous,
}
use scam_screener_api.AccessPolicies.Setting.{TakesEffect, set_access_policy-TakesEffect}

abbrev table : Dict Str PolicyRow
table =
    (
      disable_login_non_admin,
      record {
        policy_value = codes "yes";
        updated_at = codes "2026-01-01";
        updated_by_user_id = some 1;
      },
    )
    ∷ []

abbrev outcome : PolicyChange × Dict Str PolicyRow
outcome = (
  record {
    policy_key = disable_signup;
    enabled = true;
    previous_enabled = false;
    changed = true;
    updated_at = codes "2026-02-01";
  },
  (
    disable_login_non_admin,
    record {
      policy_value = codes "yes";
      updated_at = codes "2026-01-01";
      updated_by_user_id = some 1;
    },
  )
      ∷ (
        disable_signup,
        record {
          policy_value = codes "1";
          updated_at = codes "2026-02-01";
          updated_by_user_id = some 2;
        },
      )
      ∷ [],
)

set_run :
    set_access_policy (codes " Disable_Signup ") true (codes "2026-02-01") (some 2) table
    ≡ some outcome
unfolding set_access_policy normalize_access_policy_key str_beq strip lookup insert previous
set_run = refl

table-NodupKeys : NodupKeys table
unfolding lookup
table-NodupKeys = (refl, tt)

set_access_policy-TakesEffect_example : TakesEffect disable_signup table true outcome
unfolding strip ascii_lower
set_access_policy-TakesEffect_example =
    set_access_policy-TakesEffect (codes " Disable_Signup ") true (codes "2026-02-01") (some 2)
      table outcome table-NodupKeys set_run

login-ne-signup : disable_login_non_admin ≢ disable_signup
login-ne-signup e = ground arith
