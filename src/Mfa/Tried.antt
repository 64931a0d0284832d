-- ===== src/Mfa/Tried.antt =====
-- How many codes can be tried for one login challenge.
use scam_screener_api.Base.{
  ℕ, ◌+◌, ◌<◌, ◌≡◌, refl, sym, ap, ◌∙◌, Str, str_eq, nat_eq, Option, none, some, List, [], ◌∷◌,
  ◌++◌, if◌then◌else◌, ◌==◌, arith,
}
use scam_screener_api.Base.Dict.{lookup}
use scam_screener_api.Base.Instants.{Instant}
use scam_screener_api.Base.Sql.{Table}
use scam_screener_api.Base.Sql.Unique.{IsKeyed}
use scam_screener_api.Sessions.{Hashes}
use scam_screener_api.ExternalAuth.{Outcome, ok, refused, raised}
use scam_screener_api.AuthFlows.{AuthFlow, LoadedFlow, token_key}
use scam_screener_api.AuthFlows.Loaded.{load}
use scam_screener_api.AuthFlows.Calls.{Call, run, step, failures, consumptions}
use scam_screener_api.AuthFlows.Attempts.{load-run}
use scam_screener_api.Mfa.{MfaSettings, Factors, LoginPayload, Verdict, accepted, rejected, broken}
use scam_screener_api.Mfa.Totp.{Codes}
use scam_screener_api.Mfa.Challenges.{
  Challenge, MfaTables, load_of, judged, conclude, validated, complete_login_challenge_with_code,
}

-- 1 where this code is looked at for this flow and found to be wrong, or right.
unfoldable pub wrong_for : ℕ → Option (ℕ × Verdict) → ℕ
wrong_for i none = 0
wrong_for i (some (j, rejected)) = if i == j then 1 else 0
wrong_for i (some (j, accepted method setup)) = 0
wrong_for i (some (j, broken)) = 0

unfoldable pub right_for : ℕ → Option (ℕ × Verdict) → ℕ
right_for i none = 0
right_for i (some (j, rejected)) = 0
right_for i (some (j, accepted method setup)) = if i == j then 1 else 0
right_for i (some (j, broken)) = 0

-- What such a code does to its flow.
next : Instant → Option (ℕ × Verdict) → List (Call LoginPayload)
next now none = []
next now (some (j, rejected)) = Call.fails j ∷ []
next now (some (j, accepted method setup)) = Call.consumes j now ∷ []
next now (some (j, broken)) = []

failures-next :
    (i : ℕ) (now : Instant) (o : Option (ℕ × Verdict)) → failures i (next now o) ≡ wrong_for i o
unfolding failures next wrong_for
failures-next i now none = refl
failures-next i now (some (j, rejected)) = omega arith
failures-next i now (some (j, accepted method setup)) = omega arith
failures-next i now (some (j, broken)) = refl

consumptions-next :
    (i : ℕ) (now : Instant) (o : Option (ℕ × Verdict)) → consumptions i (next now o) ≡ right_for i o
unfolding consumptions next right_for
consumptions-next i now none = refl
consumptions-next i now (some (j, rejected)) = omega arith
consumptions-next i now (some (j, accepted method setup)) = omega arith
consumptions-next i now (some (j, broken)) = refl

module _ {Payload : Type 0} where
  failures-append :
      (i : ℕ) (cs ds : List (Call Payload)) → failures i (cs ++ ds) ≡ failures i cs + failures i ds
  unfolding failures
  failures-append i [] ds = omega arith
  failures-append i (Call.fails id ∷ cs) ds = omega (arith, failures-append i cs ds)
  failures-append i (Call.creates c ∷ cs) ds = failures-append i cs ds
  failures-append i (Call.loads c ∷ cs) ds = failures-append i cs ds
  failures-append i (Call.consumes id now ∷ cs) ds = failures-append i cs ds

  consumptions-append :
      (i : ℕ) (cs ds : List (Call Payload))
      → consumptions i (cs ++ ds) ≡ consumptions i cs + consumptions i ds
  unfolding consumptions
  consumptions-append i [] ds = omega arith
  consumptions-append i (Call.consumes id now ∷ cs) ds = omega (arith, consumptions-append i cs ds)
  consumptions-append i (Call.creates c ∷ cs) ds = consumptions-append i cs ds
  consumptions-append i (Call.loads c ∷ cs) ds = consumptions-append i cs ds
  consumptions-append i (Call.fails id ∷ cs) ds = consumptions-append i cs ds

  run-append :
      (hashes : Hashes) (lower : Str → Str) (secret_key : Str) (cs ds : List (Call Payload))
      (t : Table (AuthFlow Payload))
      → run hashes lower secret_key (cs ++ ds) t
        ≡ run hashes lower secret_key ds (run hashes lower secret_key cs t)
  unfolding run
  run-append hashes lower secret_key [] ds t = refl
  run-append hashes lower secret_key (c ∷ cs) ds t =
      run-append hashes lower secret_key cs ds (step hashes lower secret_key c t)

module _ (codes_of : Codes) (hashes : Hashes) (lower : Str → Str) (settings : MfaSettings) where
  -- The flow for which a code is looked at, and what the code is.
  unfoldable pub verdict_of :
      Challenge → Factors → Outcome (LoadedFlow LoginPayload) → Option (ℕ × Verdict)
  verdict_of c factors (ok flow) =
      some (flow.id, (judged codes_of hashes lower settings c flow factors).0)
  verdict_of c factors (refused error status) = none
  verdict_of c factors raised = none

  unfoldable pub verdict_at : Challenge → MfaTables → Option (ℕ × Verdict)
  unfolding verdict_of load
  verdict_at c t =
      verdict_of c t.factors (load hashes lower settings.secret_key (load_of settings c) t.flows).0

  -- The tables after codes that are submitted one after the other.
  unfoldable pub tables_after : List Challenge → MfaTables → MfaTables
  unfolding complete_login_challenge_with_code
  tables_after [] t = t
  tables_after (c ∷ cs) t =
      tables_after cs (complete_login_challenge_with_code codes_of hashes lower settings c t).1

  -- How many of the codes are found to be wrong, or right, for this flow.
  unfoldable pub wrong_codes : ℕ → List Challenge → MfaTables → ℕ
  unfolding wrong_for verdict_at
  wrong_codes i [] t = 0
  wrong_codes i (c ∷ cs) t =
      wrong_for i (verdict_at c t)
      + wrong_codes i cs (complete_login_challenge_with_code codes_of hashes lower settings c t).1

  unfoldable pub right_codes : ℕ → List Challenge → MfaTables → ℕ
  unfolding right_for verdict_at
  right_codes i [] t = 0
  right_codes i (c ∷ cs) t =
      right_for i (verdict_at c t)
      + right_codes i cs (complete_login_challenge_with_code codes_of hashes lower settings c t).1

  conclude-flows :
      (c : Challenge) (flow : LoadedFlow LoginPayload) (v : Verdict × Factors)
      (flows : Table (AuthFlow LoginPayload))
      → (conclude codes_of hashes lower settings c flow v flows).1.flows
        ≡ run hashes lower settings.secret_key (next c.consumed_at (some (flow.id, v.0))) flows
  unfolding conclude run step next
  conclude-flows c flow (accepted method setup, factors) flows = refl
  conclude-flows c flow (rejected, factors) flows = refl
  conclude-flows c flow (broken, factors) flows = refl

  validated-flows :
      (c : Challenge) (factors : Factors) (o : Outcome (LoadedFlow LoginPayload))
      (flows : Table (AuthFlow LoginPayload))
      → (validated codes_of hashes lower settings c (o, flows) factors).1.flows
        ≡ run hashes lower settings.secret_key (next c.consumed_at (verdict_of c factors o)) flows
  unfolding validated verdict_of
  validated-flows c factors (ok flow) flows =
      conclude-flows c flow (judged codes_of hashes lower settings c flow factors) flows
  validated-flows c factors (refused error status) flows = unfold run next in refl
  validated-flows c factors raised flows = unfold run next in refl

  calls_of : Challenge → MfaTables → List (Call LoginPayload)
  calls_of c t = Call.loads (load_of settings c) ∷ next c.consumed_at (verdict_at c t)

  complete-flows :
      (c : Challenge) (t : MfaTables)
      → (complete_login_challenge_with_code codes_of hashes lower settings c t).1.flows
        ≡ run hashes lower settings.secret_key (calls_of c t) t.flows
  unfolding complete_login_challenge_with_code calls_of run step verdict_at
  complete-flows c t =
      validated-flows c t.factors
        (load hashes lower settings.secret_key (load_of settings c) t.flows).0
        (load hashes lower settings.secret_key (load_of settings c) t.flows).1

  all_calls : List Challenge → MfaTables → List (Call LoginPayload)
  all_calls [] t = []
  all_calls (c ∷ cs) t =
      calls_of c t
      ++ all_calls cs (complete_login_challenge_with_code codes_of hashes lower settings c t).1

  tables_after-flows :
      (cs : List Challenge) (t : MfaTables)
      → (tables_after cs t).flows ≡ run hashes lower settings.secret_key (all_calls cs t) t.flows
  unfolding tables_after all_calls
  tables_after-flows [] t = unfold run in refl
  tables_after-flows (c ∷ cs) t =
      let t' = (complete_login_challenge_with_code codes_of hashes lower settings c t).1 in
      tables_after-flows cs t'
      ∙ ap (run hashes lower settings.secret_key (all_calls cs t')) (complete-flows c t)
      ∙ sym (run-append hashes lower settings.secret_key (calls_of c t) (all_calls cs t') t.flows)

  failures-all_calls :
      (i : ℕ) (cs : List Challenge) (t : MfaTables)
      → failures i (all_calls cs t) ≡ wrong_codes i cs t
  unfolding all_calls calls_of wrong_codes failures
  failures-all_calls i [] t = refl
  failures-all_calls i (c ∷ cs) t =
      let t' = (complete_login_challenge_with_code codes_of hashes lower settings c t).1 in
      omega (
        arith,
        failures-append i (next c.consumed_at (verdict_at c t)) (all_calls cs t'),
        failures-next i c.consumed_at (verdict_at c t),
        failures-all_calls i cs t',
      )

  consumptions-all_calls :
      (i : ℕ) (cs : List Challenge) (t : MfaTables)
      → consumptions i (all_calls cs t) ≡ right_codes i cs t
  unfolding all_calls calls_of right_codes consumptions
  consumptions-all_calls i [] t = refl
  consumptions-all_calls i (c ∷ cs) t =
      let t' = (complete_login_challenge_with_code codes_of hashes lower settings c t).1 in
      omega (
        arith,
        consumptions-append i (next c.consumed_at (verdict_at c t)) (all_calls cs t'),
        consumptions-next i c.consumed_at (verdict_at c t),
        consumptions-all_calls i cs t',
      )

  -- A code that is looked at belongs to a flow that was loaded.
  verdict_of-some :
      (c : Challenge) (factors : Factors) (o : Outcome (LoadedFlow LoginPayload)) (i : ℕ)
      (v : Verdict)
      → verdict_of c factors o ≡ some (i, v)
      → (l : LoadedFlow LoginPayload) × (o ≡ ok l) × (l.id ≡ i)
  unfolding verdict_of
  verdict_of-some c factors (ok l) i v e = (l, refl, cc)
  verdict_of-some c factors (refused error status) i v e = cc
  verdict_of-some c factors raised i v e = cc

  -- A login challenge can be guessed at only so often, and completed once: if a code is looked at for a
  -- stored flow after any other codes have been submitted, for this flow and for others, then none of
  -- them was right for this flow, and those that were wrong for it, with the failures that were
  -- counted before, are fewer than the limit of the settings. The table of the flows is in order.
  pub wrong_codes_bound :
      (i : ℕ) (f : AuthFlow LoginPayload) (t : MfaTables) (cs : List Challenge) (c : Challenge)
      (v : Verdict)
      → IsKeyed token_key t.flows
      → lookup i t.flows.rows ≡ some f
      → verdict_at c (tables_after cs t) ≡ some (i, v)
      → (right_codes i cs t ≡ 0)
        × (f.failed_attempts + wrong_codes i cs t < settings.admin_mfa_max_attempts)
  unfolding verdict_at
  wrong_codes_bound i f t cs c v h there e =
      let (l, is_ok, same) = verdict_of-some c (tables_after cs t).factors _ i v e in
      let bound =
        load-run hashes lower settings.secret_key i f t.flows (all_calls cs t) (load_of settings c)
          settings.admin_mfa_max_attempts l h there refl
          (ap (λ k. (load hashes lower settings.secret_key (load_of settings c) k).0)
              (sym (tables_after-flows cs t))
            ∙ is_ok)
          same in
      (
        sym (consumptions-all_calls i cs t) ∙ bound.0,
        omega (arith, bound.1, failures-all_calls i cs t),
      )
