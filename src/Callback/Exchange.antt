-- ===== src/Callback/Exchange.antt =====
-- `complete_external_auth_exchange` of app/training_hub/core/external_auth.py, and
-- `_step_up_confirm_token` of app/training_hub/routes/public_auth_external.py.
use scam_screener_api.Base.{
  Str, codes, str_beq, str_eq, not, Option, none, some, List, [], ◌∷◌, if◌then◌else◌,
}
use scam_screener_api.Base.Dict.{Dict, lookup}
use scam_screener_api.Base.Text.{strip}
use scam_screener_api.Base.Instants.{Instant}
use scam_screener_api.Base.Sql.{Table}
use scam_screener_api.Sessions.{is_filled}
use scam_screener_api.ExternalAuth.{
  Outcome, ok, refused, raised, ◌>>=◌, ExternalAuthProfile, ExternalAuthSettings,
  authorize_external_profile, github, authelia,
}
use scam_screener_api.ExternalAuth.States.{AuthState, Flow, consume_external_auth_state}

-- What the two providers answer to a code: `_github_profile_from_code`, from the code and its
-- verifier, and `_authelia_profile_from_code`, which also takes the nonce; `none` where they raise.
pub record Provider : Type 0 where
  pub github_profile_from_code : Str → Str → Option ExternalAuthProfile
  pub authelia_profile_from_code : Str → Str → Str → Option ExternalAuthProfile

-- `urlsplit`, as the path and the query, and `parse_qs`.
pub record Urls : Type 0 where
  pub urlsplit : Str → Str × Str
  pub parse_qs : Str → Dict Str (List Str)

-- `str(values[0]).strip() if values else ""`
unfoldable pub first_stripped : Option (List Str) → Str
unfolding strip
first_stripped none = []
first_stripped (some []) = []
first_stripped (some (value ∷ values)) = strip value

-- `_step_up_confirm_token`
unfoldable pub step_up_confirm_token : Urls → Str → Str
unfolding first_stripped
step_up_confirm_token urls redirect_path =
    let (path, query) = urls.urlsplit redirect_path in
    if str_beq path (codes "/account/confirm/complete")
    then first_stripped (lookup (codes "confirm_token") (urls.parse_qs query))
    else []

unfoldable pub or_raised : Option ExternalAuthProfile → Outcome ExternalAuthProfile
or_raised none = raised
or_raised (some profile) = ok profile

-- The profile that the provider tells.
unfoldable pub profile_from_code : Provider → Str → Str → Flow → Outcome ExternalAuthProfile
unfolding or_raised
profile_from_code provider name code flow =
    if str_beq name github
    then or_raised (provider.github_profile_from_code code flow.code_verifier)
    else if str_beq name authelia
    then or_raised (provider.authelia_profile_from_code code flow.code_verifier flow.nonce)
    else refused (codes "External provider is not supported.") 404

module _ (sha256 lower : Str → Str) (settings : ExternalAuthSettings) (provider : Provider) where
  -- From the flow that the state stands for.
  unfoldable pub exchange : Str → Str → Flow → Outcome (Str × ExternalAuthProfile)
  unfolding strip profile_from_code authorize_external_profile
  exchange name code flow =
      if not (is_filled (strip code))
      then refused (codes "Authorization code is missing.") 400
      else do
        profile ← profile_from_code provider name code flow
        allowed ← authorize_external_profile lower settings profile
        ok (flow.redirect_path, profile)

  -- `complete_external_auth_exchange`
  unfoldable pub complete_external_auth_exchange :
      Str
      → Str
      → Str
      → Str
      → Instant
      → Table AuthState
      → Outcome (Str × ExternalAuthProfile) × Table AuthState
  unfolding strip consume_external_auth_state exchange
  complete_external_auth_exchange name state code user_agent now t =
      let normalized_provider = lower (strip name) in
      let (flow, t') =
        consume_external_auth_state sha256 lower settings.secret_key normalized_provider state
          user_agent now t in
      (flow >>= exchange normalized_provider code, t')
