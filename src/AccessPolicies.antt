-- ===== src/AccessPolicies.antt =====
-- app/training_hub/core/access_policies.py: the switches that close the login and the sign-up.
pub mod Effective
pub mod Setting
use scam_screener_api.Base.{
  ℕ, Str, codes, str_beq, str_eq, Bool, true, false, not, ◌&&◌, ◌||◌, Option, none, some, List, [],
  ◌∷◌, map, if◌then◌else◌,
}
use scam_screener_api.Base.Dict.{Dict, lookup, insert}
use scam_screener_api.Base.Text.{strip, ascii_lower}

abbrev pub disable_login_non_admin : Str
disable_login_non_admin = codes "disable_login_non_admin"

abbrev pub disable_signup : Str
disable_signup = codes "disable_signup"

abbrev pub Policies : Type 0
Policies = Dict Str Bool

-- `_ACCESS_POLICY_DEFAULTS`
abbrev pub access_policy_defaults : Policies
access_policy_defaults = (disable_login_non_admin, false) ∷ (disable_signup, false) ∷ []

-- A row of the table `access_policies` behind its key.
pub record PolicyRow : Type 0 where
  pub policy_value : Str
  pub updated_at : Str
  pub updated_by_user_id : Option ℕ

-- `value.strip().lower()`. What it is compared with has no character to which `str.lower` takes
-- another than a letter from A to Z.
unfoldable pub lowered : Str → Str
unfolding strip ascii_lower
lowered value = map ascii_lower (strip value)

-- `_normalize_access_policy_key`; `none` for the ValueError.
unfoldable pub normalize_access_policy_key : Str → Option Str
unfolding lowered
normalize_access_policy_key policy_key =
    let normalized = lowered policy_key in
    if str_beq normalized disable_login_non_admin || str_beq normalized disable_signup
    then some normalized
    else none

-- `_normalize_access_policy_value`
unfoldable pub normalize_access_policy_value : Str → Bool
unfolding lowered
normalize_access_policy_value value =
    let normalized = lowered value in
    str_beq normalized (codes "1")
    || str_beq normalized (codes "true")
    || str_beq normalized (codes "yes")
    || str_beq normalized (codes "on")

-- `if key in policies: policies[key] = ...`, by what is there.
unfoldable pub override : Str → Bool → Option Bool → Policies → Policies
override key value none policies = policies
override key value (some there) policies = insert key value policies

-- A round of the loop over the rows that `WHERE policy_key IN (?, ?)` selects.
unfoldable pub apply_row : Str → Bool → Policies → Policies
unfolding override lowered
apply_row key value policies =
    if str_beq key disable_login_non_admin || str_beq key disable_signup
    then override (lowered key) value (lookup (lowered key) policies) policies
    else policies

unfoldable pub apply_rows : Dict Str PolicyRow → Policies → Policies
unfolding apply_row
apply_rows [] policies = policies
apply_rows ((key, row) ∷ rows) policies =
    apply_rows rows (apply_row key (normalize_access_policy_value row.policy_value) policies)

-- `_access_policies`
unfoldable pub access_policies : Dict Str PolicyRow → Policies
unfolding apply_rows
access_policies table = apply_rows table access_policy_defaults

-- The answer of `_set_access_policy`.
pub record PolicyChange : Type 0 where
  pub policy_key : Str
  pub enabled : Bool
  pub previous_enabled : Bool
  pub changed : Bool
  pub updated_at : Str

-- `previous_enabled`: that of the row, or the default, which is false for both keys.
unfoldable pub previous : Option PolicyRow → Bool
unfolding normalize_access_policy_value
previous none = false
previous (some row) = normalize_access_policy_value row.policy_value

-- The INSERT or the UPDATE of the row, and the answer.
unfoldable pub set_row :
    Option Str
    → Bool
    → Str
    → Option ℕ
    → Dict Str PolicyRow
    → Option (PolicyChange × Dict Str PolicyRow)
unfolding previous
set_row none enabled now actor table = none
set_row (some key) enabled now actor table =
    let before = previous (lookup key table) in
    some (
      record {
        policy_key = key;
        enabled = enabled;
        previous_enabled = before;
        changed = (enabled && not before) || (not enabled && before);
        updated_at = now;
      },
      insert key
          (record {
            policy_value = if enabled then codes "1" else codes "0";
            updated_at = now;
            updated_by_user_id = actor;
          })
          table,
    )

-- `_set_access_policy`
unfoldable pub set_access_policy :
    Str → Bool → Str → Option ℕ → Dict Str PolicyRow → Option (PolicyChange × Dict Str PolicyRow)
unfolding set_row
set_access_policy policy_key enabled now actor table =
    set_row (normalize_access_policy_key policy_key) enabled now actor table

-- `bool(policies.get(...))`
unfoldable pub is_set : Option Bool → Bool
is_set none = false
is_set (some value) = value

-- `_effective_registration_mode`, from `str(configured_mode or "")`.
unfoldable pub effective_registration_mode : Str → Policies → Str
unfolding is_set lowered
effective_registration_mode configured_mode policies =
    let normalized = lowered configured_mode in
    if is_set (lookup disable_signup policies)
    then codes "closed"
    else if str_beq normalized (codes "open")
        || str_beq normalized (codes "invite")
        || str_beq normalized (codes "closed")
    then normalized
    else codes "open"
