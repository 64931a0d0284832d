-- ===== src/ExternalAuth/Calls.antt =====
-- app/training_hub/core/external_auth.py: sign-ins that are started and callbacks that return, one
-- after the other, and what any of them may do to the table.
use scam_screener_api.Base.{
  str_eq, ℕ, Str, ◌≡◌, refl, sym, subst, not, Option, none, some, List, [], ◌∷◌, arith, nat_eq,
  either, if◌then◌else◌,
}
use scam_screener_api.Base.Text.{strip}
use scam_screener_api.Base.Instants.{Instant}
use scam_screener_api.Base.Sql.{Table}
use scam_screener_api.Base.Sql.Unique.{
  insert_unique, IsKeyed, Edit, Edit-IsKeyed, insert_unique-Edit, or_kept,
}
use scam_screener_api.Sessions.{is_null}
use scam_screener_api.ExternalAuth.{
  Outcome, ExternalAuthSettings, external_auth_provider_enabled, sanitize_redirect_path,
}
use scam_screener_api.ExternalAuth.States.{
  AuthState, Flow, Secrets, new_state, state_key, consume, is_open, mark_consumed, check_state,
  consume_external_auth_state, create_external_auth_redirect, store_external_auth_state,
  redirect_result,
}

pub record Start : Type 0 where
  pub authorization_url : Str → Option Str
  pub provider : Str
  pub next_path : Str
  pub secrets : Secrets
  pub source_ip : Str
  pub user_agent : Str
  pub now : Instant
  pub later : Instant

pub record Return : Type 0 where
  pub provider : Str
  pub state : Str
  pub user_agent : Str
  pub now : Instant

pub data Call : Type 0 where
  starts : Start → Call
  returns : Return → Call

module _ (sha256 lower : Str → Str) (settings : ExternalAuthSettings) where
  -- The row of a sign-in that is started.
  abbrev pub state_of : Start → AuthState
  state_of c =
      new_state sha256 settings.secret_key (lower (strip c.provider)) c.secrets
        (sanitize_redirect_path c.next_path) c.source_ip c.user_agent c.now c.later

  unfoldable pub start : Start → Table AuthState → Outcome Str × Table AuthState
  unfolding create_external_auth_redirect
  start c t =
      create_external_auth_redirect sha256 lower settings c.authorization_url c.provider c.next_path
        c.secrets c.source_ip c.user_agent c.now c.later t

  unfoldable pub return : Return → Table AuthState → Outcome Flow × Table AuthState
  unfolding consume_external_auth_state
  return c t =
      consume_external_auth_state sha256 lower settings.secret_key c.provider c.state c.user_agent
        c.now t

  unfoldable pub step : Call → Table AuthState → Table AuthState
  unfolding start return
  step (starts c) t = (start c t).1
  step (returns c) t = (return c t).1

  unfoldable pub run : List Call → Table AuthState → Table AuthState
  unfolding step
  run [] t = t
  run (c ∷ calls) t = run calls (step c t)

-- The UPDATEs of the table.
pub data Kind : (AuthState → AuthState) → Type 0 where
  consumes : (now : Instant) → Kind (consume now)

abbrev pub Any : AuthState → Type 0
Any s = Unit

pub Kind-keeps :
    (f : AuthState → AuthState) → Kind f → (s : AuthState) → state_key (f s) ≡ state_key s
unfolding consume
Kind-keeps f (Kind.consumes now) s = refl

-- A state that is found and not consumed is consumed on every branch.
pub check_state-marks :
    (lower : Str → Str) (c : Return) (i : ℕ) (s : AuthState) (t : Table AuthState)
    → (check_state lower c.provider c.user_agent c.now (some (i, s)) t).1
      ≡ (if is_null s.consumed_at then mark_consumed i c.now t else t)
unfolding check_state
check_state-marks lower c i s t = ground arith

check_state-Edit :
    (lower : Str → Str) (c : Return) (found : Option (ℕ × AuthState)) (t : Table AuthState)
    → Edit state_key Kind Any t (check_state lower c.provider c.user_agent c.now found t).1
unfolding check_state mark_consumed
check_state-Edit lower c none t = Edit.kept
check_state-Edit lower c (some (i, s)) t =
    subst (Edit state_key Kind Any t) (sym (check_state-marks lower c i s t)) (
      either (Edit state_key Kind Any t) (is_null s.consumed_at)
        (Edit.updated (is_open i) (consume c.now) (Kind.consumes c.now)) Edit.kept)

module _ {κ} (Kinds : (AuthState → AuthState) → Type κ) where
  redirect_result-Edit :
      (url : Option Str) (s : Option (Table AuthState)) (t : Table AuthState)
      → Edit state_key Kinds Any t (or_kept t s)
      → Edit state_key Kinds Any t (redirect_result url s t).1
  unfolding redirect_result
  redirect_result-Edit url none t e = e
  redirect_result-Edit none (some t') t e = e
  redirect_result-Edit (some url) (some t') t e = e

  -- To start a sign-in updates no row.
  pub start-Edit :
      (sha256 lower : Str → Str) (settings : ExternalAuthSettings) (c : Start) (t : Table AuthState)
      → Edit state_key Kinds Any t (start sha256 lower settings c t).1
  unfolding start create_external_auth_redirect store_external_auth_state
  start-Edit sha256 lower settings c t =
      either (λ (o : Outcome Str × Table AuthState). Edit state_key Kinds Any t o.1)
        (not (external_auth_provider_enabled lower settings (lower (strip c.provider)))) Edit.kept
        (redirect_result-Edit (c.authorization_url (lower (strip c.provider)))
          (insert_unique state_key (state_of sha256 lower settings c) t) t
          (insert_unique-Edit state_key Kinds Any (state_of sha256 lower settings c) t tt))

module _ (sha256 lower : Str → Str) (settings : ExternalAuthSettings) where
  pub step-Edit :
      (c : Call) (t : Table AuthState) → Edit state_key Kind Any t (step sha256 lower settings c t)
  unfolding step return consume_external_auth_state
  step-Edit (starts c) t = start-Edit Kind sha256 lower settings c t
  step-Edit (returns c) t = check_state-Edit lower c _ t

  pub run-IsKeyed :
      (calls : List Call) (t : Table AuthState)
      → IsKeyed state_key t
      → IsKeyed state_key (run sha256 lower settings calls t)
  unfolding run
  run-IsKeyed [] t h = h
  run-IsKeyed (c ∷ calls) t h =
      run-IsKeyed calls (step sha256 lower settings c t)
        (Edit-IsKeyed state_key Kind Kind-keeps h (step-Edit c t))

  pub return-IsKeyed :
      (c : Return) (t : Table AuthState)
      → IsKeyed state_key t
      → IsKeyed state_key (return sha256 lower settings c t).1
  unfolding step
  return-IsKeyed c t h = Edit-IsKeyed state_key Kind Kind-keeps h (step-Edit (returns c) t)
