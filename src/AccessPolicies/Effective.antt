-- ===== src/AccessPolicies/Effective.antt =====
-- What the loop over the rows of the table makes of the defaults.
use scam_screener_api.Base.{
  ◌≡◌, refl, sym, ap, subst, ◌∙◌, Str, str_beq, str_beq_iff, str_eq, Bool, false, none, [], ◌∷◌,
  arith, Bool-cases, inl, inr, if◌then◌else◌,
}
use scam_screener_api.Base.Dict.{Dict, lookup, insert, NodupKeys}
use scam_screener_api.AccessPolicies.{
  Policies, PolicyRow, disable_login_non_admin, disable_signup, normalize_access_policy_value,
  apply_row, apply_rows, access_policies, previous,
}

-- The two policies.
abbrev pub both : Bool → Bool → Policies
both login signup = (disable_login_non_admin, login) ∷ (disable_signup, signup) ∷ []

-- The value of a key, over that of the rows before.
unfoldable pub value_of : Str → Bool → Dict Str PolicyRow → Bool
value_of key value [] = value
value_of key value ((k, row) ∷ rows) =
    value_of key (if str_beq key k then normalize_access_policy_value row.policy_value else value)
      rows

-- A round replaces the value of its key, if that is one of the two.
abbrev Replaces : Str → Bool → Bool → Bool → Type 0
Replaces k value login signup =
    apply_row k value (both login signup)
    ≡ both (if str_beq disable_login_non_admin k then value else login)
        (if str_beq disable_signup k then value else signup)

apply_row-login : (value login signup : Bool) → Replaces disable_login_non_admin value login signup
unfolding apply_row str_beq lookup insert
apply_row-login value login signup = refl

apply_row-signup : (value login signup : Bool) → Replaces disable_signup value login signup
unfolding apply_row str_beq lookup insert
apply_row-signup value login signup = refl

apply_row-other :
    (k : Str) (value login signup : Bool)
    → str_beq k disable_login_non_admin ≡ false
    → str_beq k disable_signup ≡ false
    → Replaces k value login signup
unfolding apply_row
apply_row-other k value login signup p q =
    let no_login : str_beq disable_login_non_admin k ≡ false =
      ground
        (arith, str_beq_iff k disable_login_non_admin, str_beq_iff disable_login_non_admin k) in
    let no_signup : str_beq disable_signup k ≡ false =
      ground (arith, str_beq_iff k disable_signup, str_beq_iff disable_signup k) in
    rw (p, q, no_login, no_signup) refl

apply_row-Replaces : (k : Str) (value login signup : Bool) → Replaces k value login signup
apply_row-Replaces k value login signup = elim (Bool-cases (str_beq k disable_login_non_admin)) [
  | inl is_login ↦
      subst (λ k. Replaces k value login signup)
        (sym ((str_beq_iff k disable_login_non_admin).0 is_login))
        (apply_row-login value login signup)
  | inr other ↦ elim (Bool-cases (str_beq k disable_signup)) [
    | inl is_signup ↦
        subst (λ k. Replaces k value login signup)
          (sym ((str_beq_iff k disable_signup).0 is_signup)) (apply_row-signup value login signup)
    | inr neither ↦ apply_row-other k value login signup other neither
  ]
]

apply_rows-both :
    (rows : Dict Str PolicyRow) (login signup : Bool)
    → apply_rows rows (both login signup)
      ≡ both (value_of disable_login_non_admin login rows) (value_of disable_signup signup rows)
unfolding apply_rows value_of
apply_rows-both [] login signup = refl
apply_rows-both ((k, row) ∷ rows) login signup =
    ap (apply_rows rows)
      (apply_row-Replaces k (normalize_access_policy_value row.policy_value) login signup)
    ∙ apply_rows-both rows _ _

value_of-absent :
    (key : Str) (value : Bool) (rows : Dict Str PolicyRow)
    → lookup key rows ≡ none
    → value_of key value rows ≡ value
unfolding value_of lookup
value_of-absent key value [] h = refl
value_of-absent key value ((k, row) ∷ rows) h = ground (arith, value_of-absent key value rows)

-- Of rows with distinct keys, the one of the key decides.
value_of-previous :
    (key : Str) (rows : Dict Str PolicyRow)
    → NodupKeys rows
    → value_of key false rows ≡ previous (lookup key rows)
unfolding value_of lookup previous
value_of-previous key [] u = refl
value_of-previous key ((k, row) ∷ rows) (fresh, u) = elim (Bool-cases (str_beq key k)) [
  | inl same ↦ rw same (
      value_of-absent key (normalize_access_policy_value row.policy_value) rows
        (subst (λ k. lookup k rows ≡ none) (sym ((str_beq_iff key k).0 same)) fresh))
  | inr other ↦ rw other (value_of-previous key rows u)
]

-- The policies in effect are those of the rows of the table, and off where there is no row.
pub access_policies-both :
    (table : Dict Str PolicyRow)
    → NodupKeys table
    → access_policies table
      ≡ both
          (previous (lookup disable_login_non_admin table))
          (previous (lookup disable_signup table))
unfolding access_policies
access_policies-both table u =
    apply_rows-both table false false
    ∙ ap (both (value_of disable_login_non_admin false table))
        (value_of-previous disable_signup table u)
    ∙ ap (λ login. both login (previous (lookup disable_signup table)))
        (value_of-previous disable_login_non_admin table u)
