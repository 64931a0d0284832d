-- ===== src/AccessPolicies/Setting.antt =====
-- What setting a policy does to the policies in effect.
use mathlib.Core.Option.{none-ne-some, some-injective}
use scam_screener_api.Base.{
  ℕ, ◌≡◌, ◌≢◌, ◌⊎◌, refl, sym, ap, ◌∙◌, subst, Str, codes, str_beq, str_beq_iff, str_eq, Bool, true,
  false, Option, none, some, map, arith, inl, inr, if◌then◌else◌,
}
use scam_screener_api.Base.Dict.{
  Dict, lookup, insert, NodupKeys, lookup-insert, lookup-insert_self, insert-NodupKeys,
}
use scam_screener_api.Base.Text.{strip, ascii_lower}
use scam_screener_api.AccessPolicies.{
  PolicyRow, PolicyChange, disable_login_non_admin, disable_signup, lowered,
  normalize_access_policy_key, access_policies, previous, set_row, set_access_policy,
  effective_registration_mode, is_set,
}
use scam_screener_api.AccessPolicies.Effective.{both, access_policies-both}

abbrev pub IsPolicy : Str → Type 0
IsPolicy key = (key ≡ disable_login_non_admin) ⊎ (key ≡ disable_signup)

normalize_access_policy_key-IsPolicy :
    (s key : Str)
    → normalize_access_policy_key s ≡ some key
    → (key ≡ map ascii_lower (strip s)) × IsPolicy key
unfolding normalize_access_policy_key lowered
normalize_access_policy_key-IsPolicy s key e =
    ground (
      arith,
      str_beq_iff (lowered s) disable_login_non_admin,
      str_beq_iff (lowered s) disable_signup,
    )

lookup-both :
    (key : Str) (f : Str → Bool)
    → IsPolicy key
    → lookup key (both (f disable_login_non_admin) (f disable_signup)) ≡ some (f key)
unfolding lookup str_beq
lookup-both key f (inl e) =
    subst (λ k. lookup k (both (f disable_login_non_admin) (f disable_signup)) ≡ some (f k)) (sym e)
      refl
lookup-both key f (inr e) =
    subst (λ k. lookup k (both (f disable_login_non_admin) (f disable_signup)) ≡ some (f k)) (sym e)
      refl

lookup-access_policies :
    (key : Str) (table : Dict Str PolicyRow)
    → NodupKeys table
    → IsPolicy key
    → lookup key (access_policies table) ≡ some (previous (lookup key table))
lookup-access_policies key table u p =
    ap (lookup key) (access_policies-both table u)
    ∙ lookup-both key (λ k. previous (lookup k table)) p

previous-value :
    (enabled : Bool) (now : Str) (actor : Option ℕ)
    → previous (
        some (record {
          policy_value = if enabled then codes "1" else codes "0";
          updated_at = now;
          updated_by_user_id = actor;
        }))
      ≡ enabled
unfolding previous str_beq strip
previous-value true now actor = refl
previous-value false now actor = refl

-- What is known of a row that was set: the policy `key` in effect before and after.
abbrev pub TakesEffect :
    Str → Dict Str PolicyRow → Bool → PolicyChange × Dict Str PolicyRow → Type 0
TakesEffect key table enabled (change, after) =
    (change.policy_key ≡ key)
    × (lookup key (access_policies table) ≡ some change.previous_enabled)
    × (lookup key (access_policies after) ≡ some enabled)
    × NodupKeys after

set_row-TakesEffect :
    (asked : Str) (key : Option Str) (enabled : Bool) (now : Str) (actor : Option ℕ)
    (table : Dict Str PolicyRow) (outcome : PolicyChange × Dict Str PolicyRow)
    → NodupKeys table
    → ((k : Str) → key ≡ some k → (k ≡ asked) × IsPolicy k)
    → set_row key enabled now actor table ≡ some outcome
    → TakesEffect asked table enabled outcome
unfolding set_row
set_row-TakesEffect asked none enabled now actor table outcome u policy e =
    absurd (none-ne-some outcome e)
set_row-TakesEffect asked (some key) enabled now actor table outcome u policy e =
    let row : PolicyRow = record {
      policy_value = if enabled then codes "1" else codes "0";
      updated_at = now;
      updated_by_user_id = actor;
    } in
    let unique = insert-NodupKeys key row table u in
    let p = policy key refl in
    subst (λ k. TakesEffect k table enabled outcome) p.0
      (subst (TakesEffect key table enabled) (some-injective _ outcome e) (
        refl,
        lookup-access_policies key table u p.1,
        lookup-access_policies key (insert key row table) unique p.1
            ∙ ap some
                (ap previous (lookup-insert_self key row table) ∙ previous-value enabled now actor),
        unique,
      ))

-- A policy that is set in a table with one row for a key, with the key as it was asked for without
-- surrounding spaces and in lower case, is the one that the answer names and is in effect from then
-- on as it was set; the answer tells what was in effect before, and every key keeps one row.
pub set_access_policy-TakesEffect :
    (policy_key : Str) (enabled : Bool) (now : Str) (actor : Option ℕ) (table : Dict Str PolicyRow)
    (outcome : PolicyChange × Dict Str PolicyRow)
    → NodupKeys table
    → set_access_policy policy_key enabled now actor table ≡ some outcome
    → TakesEffect (map ascii_lower (strip policy_key)) table enabled outcome
unfolding set_access_policy
set_access_policy-TakesEffect policy_key enabled now actor table outcome u e =
    set_row-TakesEffect (map ascii_lower (strip policy_key))
      (normalize_access_policy_key policy_key) enabled now actor table outcome u
      (λ k. normalize_access_policy_key-IsPolicy policy_key k) e

beq_of_ne : (s t : Str) → s ≢ t → str_beq s t ≡ false
beq_of_ne s t h = ground (arith, str_beq_iff s t)

SameFor : Str → Dict Str PolicyRow → PolicyChange × Dict Str PolicyRow → Type 0
SameFor other table (change, after) =
    lookup other (access_policies after) ≡ lookup other (access_policies table)

set_row-SameFor :
    (key : Option Str) (enabled : Bool) (now : Str) (actor : Option ℕ) (table : Dict Str PolicyRow)
    (outcome : PolicyChange × Dict Str PolicyRow) (other : Str)
    → NodupKeys table
    → IsPolicy other
    → set_row key enabled now actor table ≡ some outcome
    → other ≢ outcome.0.policy_key
    → SameFor other table outcome
unfolding set_row SameFor
set_row-SameFor none enabled now actor table outcome other u p e differs =
    absurd (none-ne-some outcome e)
set_row-SameFor (some key) enabled now actor table outcome other u p e differs =
    let row : PolicyRow = record {
      policy_value = if enabled then codes "1" else codes "0";
      updated_at = now;
      updated_by_user_id = actor;
    } in
    let same = some-injective _ outcome e in
    let absent : str_beq other key ≡ false =
      beq_of_ne other key
        (λ q. differs (q ∙ ap (λ (o : PolicyChange × Dict Str PolicyRow). o.0.policy_key) same)) in
    let kept : lookup other (insert key row table) ≡ lookup other table =
      lookup-insert other key row table ∙ rw absent refl in
    subst (SameFor other table) same (
      lookup-access_policies other (insert key row table) (insert-NodupKeys key row table u) p
      ∙ ap (λ r. some (previous r)) kept
      ∙ sym (lookup-access_policies other table u p))

-- Setting one policy in a table with one row for a key leaves the other policy in effect as it
-- was.
pub set_access_policy-other :
    (policy_key : Str) (enabled : Bool) (now : Str) (actor : Option ℕ) (table : Dict Str PolicyRow)
    (outcome : PolicyChange × Dict Str PolicyRow) (other : Str)
    → NodupKeys table
    → IsPolicy other
    → set_access_policy policy_key enabled now actor table ≡ some outcome
    → other ≢ outcome.0.policy_key
    → lookup other (access_policies outcome.1) ≡ lookup other (access_policies table)
unfolding set_access_policy SameFor
set_access_policy-other policy_key enabled now actor table outcome other u p e differs =
    set_row-SameFor (normalize_access_policy_key policy_key) enabled now actor table outcome other u
      p e differs

-- Once the policy that disables the sign-up has been set in a table with one row for a key, the
-- registration is closed, whatever mode is configured.
pub effective_registration_mode-set_access_policy :
    (policy_key : Str) (now : Str) (actor : Option ℕ) (table : Dict Str PolicyRow)
    (outcome : PolicyChange × Dict Str PolicyRow) (configured_mode : Str)
    → NodupKeys table
    → set_access_policy policy_key true now actor table ≡ some outcome
    → outcome.0.policy_key ≡ disable_signup
    → effective_registration_mode configured_mode (access_policies outcome.1) ≡ codes "closed"
unfolding effective_registration_mode is_set
effective_registration_mode-set_access_policy policy_key now actor table outcome configured_mode u e
      signup =
    let effect = set_access_policy-TakesEffect policy_key true now actor table outcome u e in
    let found : lookup disable_signup (access_policies outcome.1) ≡ some true =
      ap (λ k. lookup k (access_policies outcome.1)) (sym signup ∙ effect.0) ∙ effect.2 in
    rw found refl
