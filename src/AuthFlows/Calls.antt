-- ===== src/AuthFlows/Calls.antt =====
-- app/training_hub/core/mfa.py: the calls on the table `auth_flow_tokens`, one after the other, and
-- what any of them may do to it.
use scam_screener_api.Base.{
  ℕ, ◌+◌, Str, str_eq, nat_eq, ◌≡◌, refl, sym, subst, Bool, not, ◌||◌, Option, none, some, arith,
  List, [], ◌∷◌, if◌then◌else◌, either, ◌==◌,
}
use scam_screener_api.Base.Text.{strip}
use scam_screener_api.Base.Instants.{Instant, iso_ltb}
use scam_screener_api.Base.Sql.{Table}
use scam_screener_api.Base.Sql.Unique.{IsKeyed, Edit, or_kept, insert_unique-Edit, Edit-IsKeyed}
use scam_screener_api.Sessions.{Hashes, is_filled, is_null}
use scam_screener_api.Sessions.Resolve.{normalize_user_agent_for_binding, mismatch}
use scam_screener_api.ExternalAuth.{Outcome}
use scam_screener_api.AuthFlows.{
  AuthFlow, LoadedFlow, token_key, new_flow, consumed, failed, create_auth_flow,
  consume_auth_flow_by_id, increment_auth_flow_failures, other_type, is_exhausted, check_flow,
  load_auth_flow,
}
use scam_screener_api.AuthFlows.Loaded.{Load, load}

pub record Creation (Payload : Type 0) : Type 0 where
  pub token : Str
  pub user_id : ℕ
  pub flow_type : Str
  pub payload : Payload
  pub ttl_minutes : ℕ
  pub source_ip : Str
  pub user_agent : Str
  pub now : Instant
  pub later : Instant

pub data Call (Payload : Type 0) : Type 0 where
  creates : Creation Payload → Call Payload
  loads : Load → Call Payload
  consumes : ℕ → Instant → Call Payload
  fails : ℕ → Call Payload

module _ {Payload : Type 0} (hashes : Hashes) (lower : Str → Str) (secret_key : Str) where
  abbrev pub flow_of : Creation Payload → AuthFlow Payload
  flow_of c =
      new_flow hashes secret_key c.token c.user_id c.flow_type c.payload c.ttl_minutes c.source_ip
        c.user_agent c.now c.later

  unfoldable pub step : Call Payload → Table (AuthFlow Payload) → Table (AuthFlow Payload)
  unfolding create_auth_flow load consume_auth_flow_by_id increment_auth_flow_failures
  step (Call.creates c) t = or_kept t (
      create_auth_flow hashes secret_key c.token c.user_id c.flow_type c.payload c.ttl_minutes
        c.source_ip c.user_agent c.now c.later t)
  step (Call.loads c) t = (load hashes lower secret_key c t).1
  step (Call.consumes id now) t = consume_auth_flow_by_id id now t
  step (Call.fails id) t = increment_auth_flow_failures id t

  unfoldable pub run : List (Call Payload) → Table (AuthFlow Payload) → Table (AuthFlow Payload)
  unfolding step
  run [] t = t
  run (c ∷ calls) t = run calls (step c t)

module _ {Payload : Type 0} where
  -- The UPDATEs of the table.
  pub data Kind : (AuthFlow Payload → AuthFlow Payload) → Type 0 where
    consumption : (now : Instant) → Kind (consumed now)
    failure : Kind failed

  pub Kind-keeps :
      (f : AuthFlow Payload → AuthFlow Payload)
      → Kind f
      → (r : AuthFlow Payload) → token_key (f r) ≡ token_key r
  Kind-keeps f (Kind.consumption now) r = refl
  Kind-keeps f Kind.failure r = refl

  abbrev pub NoKind : (AuthFlow Payload → AuthFlow Payload) → Type 0
  NoKind f = ⊥

  abbrev pub AnyFlow : AuthFlow Payload → Type 0
  AnyFlow f = Unit

  -- The checks by which an open flow of the type is consumed.
  abbrev is_spent : (Str → Str) → Load → AuthFlow Payload → Bool
  is_spent lower c f =
      not (iso_ltb c.now f.expires_at)
      || (is_exhausted c.max_attempts f.failed_attempts
          || (mismatch lower (strip f.source_ip) c.source_ip
              || mismatch lower (normalize_user_agent_for_binding lower f.user_agent)
                  (normalize_user_agent_for_binding lower c.user_agent)))

  check_flow-marks :
      (lower : Str → Str) (c : Load) (i : ℕ) (f : AuthFlow Payload) (t : Table (AuthFlow Payload))
      → (check_flow lower c.flow_type c.source_ip c.user_agent c.max_attempts c.now
          (some (i, f))
          t).1
        ≡ (if not (is_null f.consumed_at) || other_type c.flow_type f.flow_type
            then t
            else if is_spent lower c f
            then consume_auth_flow_by_id i c.now t
            else t)
  unfolding check_flow
  check_flow-marks lower c i f t = ground arith

  -- A flow that is found is kept or consumed.
  check_flow-either :
      (P : Table (AuthFlow Payload) → Type 0) (lower : Str → Str) (c : Load)
      (found : Option (ℕ × AuthFlow Payload)) (t : Table (AuthFlow Payload))
      → P t
      → ((i : ℕ) → P (consume_auth_flow_by_id i c.now t))
      → P (check_flow lower c.flow_type c.source_ip c.user_agent c.max_attempts c.now found t).1
  unfolding check_flow
  check_flow-either P lower c none t kept spent = kept
  check_flow-either P lower c (some (i, f)) t kept spent =
      subst P (sym (check_flow-marks lower c i f t)) (
        either P (not (is_null f.consumed_at) || other_type c.flow_type f.flow_type) kept
          (either P (is_spent lower c f) (spent i) kept))

  pub load-either :
      (P : Table (AuthFlow Payload) → Type 0) (hashes : Hashes) (lower : Str → Str)
      (secret_key : Str) (c : Load) (t : Table (AuthFlow Payload))
      → P t
      → ((i : ℕ) → P (consume_auth_flow_by_id i c.now t))
      → P (load hashes lower secret_key c t).1
  unfolding load load_auth_flow
  load-either P hashes lower secret_key c t kept spent =
      either (λ (o : Outcome (LoadedFlow Payload) × Table (AuthFlow Payload)). P o.1)
        (is_filled (strip c.token)) (check_flow-either P lower c _ t kept spent) kept

  -- How often the calls count a failure of a flow, and consume it.
  unfoldable pub failures : ℕ → List (Call Payload) → ℕ
  failures i [] = 0
  failures i (Call.fails id ∷ calls) = (if i == id then 1 else 0) + failures i calls
  failures i (Call.creates c ∷ calls) = failures i calls
  failures i (Call.loads c ∷ calls) = failures i calls
  failures i (Call.consumes id now ∷ calls) = failures i calls

  unfoldable pub consumptions : ℕ → List (Call Payload) → ℕ
  consumptions i [] = 0
  consumptions i (Call.consumes id now ∷ calls) = (if i == id then 1 else 0) + consumptions i calls
  consumptions i (Call.creates c ∷ calls) = consumptions i calls
  consumptions i (Call.loads c ∷ calls) = consumptions i calls
  consumptions i (Call.fails id ∷ calls) = consumptions i calls

module _ {Payload : Type 0} (hashes : Hashes) (lower : Str → Str) (secret_key : Str) where
  pub step-Edit :
      (c : Call Payload) (t : Table (AuthFlow Payload))
      → Edit token_key Kind AnyFlow t (step hashes lower secret_key c t)
  unfolding step create_auth_flow consume_auth_flow_by_id increment_auth_flow_failures
  step-Edit (Call.creates c) t =
      insert_unique-Edit token_key Kind AnyFlow (flow_of hashes lower secret_key c) t tt
  step-Edit (Call.loads c) t =
      load-either (Edit token_key Kind AnyFlow t) hashes lower secret_key c t Edit.kept
        (λ i. Edit.updated _ _ (Kind.consumption c.now))
  step-Edit (Call.consumes id now) t = Edit.updated _ _ (Kind.consumption now)
  step-Edit (Call.fails id) t = Edit.updated _ _ Kind.failure

  pub run-IsKeyed :
      (calls : List (Call Payload)) (t : Table (AuthFlow Payload))
      → IsKeyed token_key t
      → IsKeyed token_key (run hashes lower secret_key calls t)
  unfolding run
  run-IsKeyed [] t h = h
  run-IsKeyed (c ∷ calls) t h =
      run-IsKeyed calls (step hashes lower secret_key c t)
        (Edit-IsKeyed token_key Kind Kind-keeps h (step-Edit c t))
