-- ===== src/ExternalAuth/Usernames.antt =====
-- app/training_hub/core/external_auth.py and `_normalize_username` of session_auth_password.py: a
-- free user name for an external account.
use scam_screener_api.Base.{
  ℕ, zero, suc, ◌+◌, Str, codes, str_beq, nat_eq, Bool, true, false, not, ◌&&◌, ◌||◌, Option, none,
  some, List, [], ◌∷◌, ◌++◌, take, length, leb, ltb, if◌then◌else◌, ◌==◌,
}
use mathlib.Core.List.{reverse}
use scam_screener_api.Base.Dict.{Dict}
use scam_screener_api.Base.Text.{strip}
use scam_screener_api.Base.Sql.{find_row}
use scam_screener_api.Sessions.{User, is_filled, is_null}
use scam_screener_api.ItemKeys.{digits}
use scam_screener_api.ExternalAuth.{split_at}

-- `[a-z0-9_-]`
unfoldable pub is_name_char : ℕ → Bool
is_name_char c =
    (leb b'a' c && leb c b'z') || ((leb b'0' c && leb c b'9') || (c == b'_' || c == b'-'))

unfoldable pub all_name_chars : Str → Bool
unfolding is_name_char
all_name_chars [] = true
all_name_chars (c ∷ s) = is_name_char c && all_name_chars s

-- `re.fullmatch(r"[a-z0-9_-]{3,32}", s)`
unfoldable pub is_username : Str → Bool
unfolding all_name_chars
is_username s = all_name_chars s && (leb 3 (length s) && leb (length s) 32)

-- `re.sub(r"[^a-z0-9_-]+", "-", s)`, after a character that is replaced or not.
unfoldable pub dashed : Bool → Str → Str
unfolding is_name_char
dashed replaced [] = []
dashed replaced (c ∷ s) =
    let kept = c ∷ dashed false s in
    let again = dashed true s in
    if is_name_char c then kept else if replaced then again else b'-' ∷ again

-- `s.lstrip("-_")`, `s.rstrip("-_")` and `s.strip("-_")`
unfoldable pub lstrip_dashes : Str → Str
lstrip_dashes [] = []
lstrip_dashes (c ∷ s) = let rest = lstrip_dashes s in if c == b'-' || c == b'_' then rest else c ∷ s

unfoldable pub rstrip_dashes : Str → Str
unfolding lstrip_dashes
rstrip_dashes s = reverse (lstrip_dashes (reverse s))

unfoldable pub strip_dashes : Str → Str
unfolding lstrip_dashes rstrip_dashes
strip_dashes s = rstrip_dashes (lstrip_dashes s)

-- `a or b`
abbrev pub or_else : Str → Str → Str
or_else [] b = b
or_else (c ∷ s) b = c ∷ s

abbrev has_username : Str → ℕ → User → Bool
has_username username i user = str_beq user.username username

-- `_username_available`
unfoldable pub username_available : Dict ℕ User → Str → Bool
username_available users username = is_null (find_row (has_username username) users)

module _ (lower : Str → Str) where
  -- `_normalize_username`
  unfoldable pub normalize_username : Str → Str
  unfolding strip is_username
  normalize_username value =
      let normalized = lower (strip value) in if is_username normalized then normalized else []

  -- `_sanitize_external_username`
  unfoldable pub sanitize_external_username : Str → Str
  unfolding strip dashed strip_dashes normalize_username
  sanitize_external_username value =
      let lowered = lower (strip value) in
      let normalized = take 32 (strip_dashes (dashed false lowered)) in
      if not (is_filled lowered)
      then []
      else if ltb (length normalized) 3
      then []
      else if is_filled (normalize_username normalized)
      then normalized
      else []

  -- `if candidate and _username_available(...)`
  unfoldable pub is_free : Dict ℕ User → Str → Bool
  unfolding username_available is_null
  is_free users candidate = is_filled candidate && username_available users candidate

  -- The loop over the suffixes, from one suffix on and with the rounds that are left.
  unfoldable pub first_suffixed : Dict ℕ User → Str → ℕ → ℕ → Option Str
  unfolding normalize_username is_free digits
  first_suffixed users trimmed_base zero suffix = none
  first_suffixed users trimmed_base (suc rounds) suffix =
      let candidate = normalize_username (trimmed_base ++ b'-' ∷ digits (suffix + 1) suffix) in
      let rest = first_suffixed users trimmed_base rounds (suffix + 1) in
      if is_free users candidate then some candidate else rest

  -- `_first_available_username`
  unfoldable pub first_available_username : Dict ℕ User → Str → Option Str
  unfolding normalize_username is_free rstrip_dashes first_suffixed
  first_available_username users base_username =
      let candidate = normalize_username base_username in
      let trimmed_base = or_else (rstrip_dashes (take 24 base_username)) (codes "user") in
      let suffixed = first_suffixed users trimmed_base 999 1 in
      if is_free users candidate then some candidate else suffixed

  -- The loop over the bases; `none` where it ends.
  unfoldable pub first_base : Dict ℕ User → List Str → Option Str
  unfolding sanitize_external_username first_available_username
  first_base users [] = none
  first_base users (base ∷ bases) =
      let candidate = sanitize_external_username base in
      let rest = first_base users bases in
      if is_filled candidate
      then elim (first_available_username users candidate) [
        | none ↦ rest
        | some available ↦ if is_filled available then some available else rest
      ]
      else rest

  unfoldable pub or_admin : Dict ℕ User → Option Str → Str
  unfolding first_available_username
  or_admin users (some available) = available
  or_admin users none = elim (first_available_username users (codes "user-admin")) [
    | none ↦ codes "user-admin"
    | some available ↦ or_else available (codes "user-admin")
  ]

  -- `email.partition("@")[0]`
  unfoldable pub local_part : Str → Option (Str × Str) → Str
  local_part email none = email
  local_part email (some (before, after)) = before

  -- `_unique_external_username`
  unfoldable pub unique_external_username : Dict ℕ User → Str → Str → Str → Str
  unfolding split_at local_part first_base or_admin
  unique_external_username users preferred_username email provider = or_admin users (
      first_base users (
        preferred_username
        ∷ local_part email (split_at email)
        ∷ (provider ++ codes "-admin")
        ∷ (provider ++ codes "-user")
        ∷ []))
