-- ===== src/ExternalAuth/Named.antt =====
-- The user names that external accounts are given.
use mathlib.Core.Option.{none-ne-some, some-injective}
use scam_screener_api.Base.{
  ℕ, zero, suc, ◌+◌, Str, codes, ◌≡◌, ◌⊎◌, inl, inr, refl, ap, Bool, true, false, Option, none,
  some, List, [], ◌∷◌, ◌++◌, arith, if◌then◌else◌, Bool-cases, take,
}
use scam_screener_api.Base.Dict.{Dict}
use scam_screener_api.Base.Text.{strip}
use scam_screener_api.Sessions.{User, is_filled}
use scam_screener_api.ItemKeys.{digits}
use scam_screener_api.ExternalAuth.{split_at}
use scam_screener_api.ExternalAuth.Usernames.{
  is_username, username_available, or_else, normalize_username, sanitize_external_username, is_free,
  first_suffixed, first_available_username, first_base, or_admin, local_part,
  unique_external_username, rstrip_dashes,
}

-- A user name of the right form that no user has.
abbrev IsAvailable : Dict ℕ User → Str → Type 0
IsAvailable users u = (is_username u ≡ true) × (username_available users u ≡ true)

module _ (lower : Str → Str) (users : Dict ℕ User) where
  normalize_username-filled :
      (s : Str)
      → is_filled (normalize_username lower s) ≡ true
      → is_username (normalize_username lower s) ≡ true
  unfolding normalize_username
  normalize_username-filled s h = elim (Bool-cases (is_username (lower (strip s)))) [
    | inl good ↦ rw good good
    | inr bad ↦ absurd (ground (arith, bad, h))
  ]

  is_free-IsAvailable :
      (s : Str)
      → is_free lower users (normalize_username lower s) ≡ true
      → IsAvailable users (normalize_username lower s)
  unfolding is_free
  is_free-IsAvailable s h = ground (arith, normalize_username-filled s)

  first_suffixed-IsAvailable :
      (base : Str) (rounds suffix : ℕ) (u : Str)
      → first_suffixed lower users base rounds suffix ≡ some u
      → IsAvailable users u
  unfolding first_suffixed
  first_suffixed-IsAvailable base zero suffix u h = absurd (none-ne-some u h)
  first_suffixed-IsAvailable base (suc rounds) suffix u h =
      let s = base ++ b'-' ∷ digits (suffix + 1) suffix in
      elim (Bool-cases (is_free lower users (normalize_username lower s))) [
        | inl free ↦ rw (some-injective _ u (rw free at h)) at (is_free-IsAvailable s free)
        | inr taken ↦ first_suffixed-IsAvailable base rounds (suffix + 1) u (rw taken at h)
      ]

  first_available_username-IsAvailable :
      (base u : Str) → first_available_username lower users base ≡ some u → IsAvailable users u
  unfolding first_available_username
  first_available_username-IsAvailable base u h =
      elim (Bool-cases (is_free lower users (normalize_username lower base))) [
        | inl free ↦ rw (some-injective _ u (rw free at h)) at (is_free-IsAvailable base free)
        | inr taken ↦
            first_suffixed-IsAvailable (or_else (rstrip_dashes (take 24 base)) (codes "user")) 999 1
              u (rw taken at h)
      ]

  -- One round of the loop over the bases.
  round-IsAvailable :
      (filled : Bool) (found rest : Option Str) (u : Str)
      → ((v : Str) → found ≡ some v → IsAvailable users v)
      → ((v : Str) → rest ≡ some v → IsAvailable users v)
      → ◌≡◌ {A = Option Str}
          (if filled
            then elim found [
              | none ↦ rest
              | some available ↦ if is_filled available then some available else rest
            ]
            else rest)
          (some u)
      → IsAvailable users u
  round-IsAvailable false found rest u hf hr h = hr u h
  round-IsAvailable true none rest u hf hr h = hr u h
  round-IsAvailable true (some []) rest u hf hr h = hr u h
  round-IsAvailable true (some (c ∷ s)) rest u hf hr h = hf u h

  first_base-IsAvailable :
      (bases : List Str) (u : Str) → first_base lower users bases ≡ some u → IsAvailable users u
  unfolding first_base
  first_base-IsAvailable [] u h = absurd (none-ne-some u h)
  first_base-IsAvailable (base ∷ bases) u h =
      round-IsAvailable (is_filled (sanitize_external_username lower base))
        (first_available_username lower users (sanitize_external_username lower base))
        (first_base lower users bases) u
        (λ v. first_available_username-IsAvailable (sanitize_external_username lower base) v)
        (λ v. first_base-IsAvailable bases v) h

  -- The name that is left where every other is taken.
  IsLast : Str → Type 0
  IsLast u = IsAvailable users u ⊎ (u ≡ codes "user-admin")

  or_base-IsLast :
      (found : Option Str)
      → ((v : Str) → found ≡ some v → IsAvailable users v)
      → IsLast (elim found [
        | none ↦ codes "user-admin"
        | some available ↦ or_else available (codes "user-admin")
      ])
  unfolding IsLast
  or_base-IsLast none h = inr refl
  or_base-IsLast (some []) h = inr refl
  or_base-IsLast (some (c ∷ s)) h = inl (h (c ∷ s) refl)

  or_admin-IsLast :
      (found : Option Str)
      → ((v : Str) → found ≡ some v → IsAvailable users v)
      → IsLast (or_admin lower users found)
  unfolding or_admin IsLast
  or_admin-IsLast (some u) h = inl (h u refl)
  or_admin-IsLast none h =
      or_base-IsLast _ (λ v. first_available_username-IsAvailable (codes "user-admin") v)

  unique_external_username-IsLast :
      (preferred email provider : Str)
      → IsLast (unique_external_username lower users preferred email provider)
  unfolding unique_external_username
  unique_external_username-IsLast preferred email provider =
      let bases =
        preferred
        ∷ local_part lower email (split_at email)
        ∷ (provider ++ codes "-admin")
        ∷ (provider ++ codes "-user")
        ∷ [] in
      or_admin-IsLast (first_base lower users bases) (λ v. first_base-IsAvailable bases v)

  -- The name of a new user has 3 to 32 characters, each a small letter, a digit, `_` or `-`, and
  -- no user has it, unless it is `user-admin`.
  pub unique_external_username-IsAvailable :
      (preferred email provider : Str)
      → (is_username (unique_external_username lower users preferred email provider) ≡ true)
        × ((username_available users (unique_external_username lower users preferred email provider)
              ≡ true)
            ⊎ (unique_external_username lower users preferred email provider ≡ codes "user-admin"))
  unfolding IsLast is_username
  unique_external_username-IsAvailable preferred email provider =
      elim (unique_external_username-IsLast preferred email provider) [
        | inl (good, free) ↦ (good, inl free)
        | inr last ↦ (ap is_username last, inr last)
      ]
