-- ===== src/AuthFlows/Attempts.antt =====
-- A flow allows so many failures, and none once it is consumed.
use scam_screener_api.Base.{
  ℕ, ◌+◌, ◌<◌, Str, str_eq, nat_eq, ◌≡◌, refl, sym, ap, subst, ◌∙◌, true, false, some, arith, List,
  [], ◌∷◌, if◌then◌else◌, ◌==◌, leb,
}
use mathlib.Core.Option.{some-injective}
use scam_screener_api.Base.Dict.{lookup}
use scam_screener_api.Base.Instants.{Instant}
use scam_screener_api.Base.Sql.{Table}
use scam_screener_api.Base.Sql.Unique.{
  IsKeyed, At, insert_unique-Edit, Edit-IsKeyed, Edit-At, update_table-At,
}
use scam_screener_api.Sessions.{Hashes, is_null}
use scam_screener_api.ExternalAuth.{ok}
use scam_screener_api.AuthFlows.{
  AuthFlow, LoadedFlow, token_key, is_open, consumed, failed, create_auth_flow,
  consume_auth_flow_by_id, increment_auth_flow_failures, is_exhausted,
}
use scam_screener_api.AuthFlows.Loaded.{Load, load, load-IsLoaded}
use scam_screener_api.AuthFlows.Calls.{
  Call, Kind, Kind-keeps, NoKind, AnyFlow, flow_of, step, run, failures, consumptions, load-either,
  step-Edit, run-IsKeyed,
}

add_assoc : (a b c : ℕ) → a + b + c ≡ a + (b + c)
add_assoc a b c = omega arith

module _ {Payload : Type 0} where
  -- An open flow has been consumed by no call, and has this number of failures.
  abbrev Counts : ℕ → ℕ → AuthFlow Payload → Type 0
  Counts used k f = is_null f.consumed_at ≡ true → (used ≡ 0) × (f.failed_attempts ≡ k)

module _ {Payload : Type 0} (hashes : Hashes) (lower : Str → Str) (secret_key : Str) where
  -- A consumption, counted or not, changes no count of a flow that stays open.
  consumed-At :
      (used more k i j : ℕ) (now : Instant) (t : Table (AuthFlow Payload))
      → ((i == j) ≡ false → more ≡ 0)
      → At token_key (Counts used k) i t
      → At token_key (Counts (used + more) k) i (consume_auth_flow_by_id j now t)
  unfolding consume_auth_flow_by_id is_null
  consumed-At used more k i j now t other a =
      update_table-At token_key (Counts used k) (Counts (used + more) k) (is_open j) (consumed now)
        i t (λ f counts. row-Counts f counts) a
    where
      row-Counts :
          (f : AuthFlow Payload)
          → Counts used k f
          → Counts (used + more) k (if is_open j i f then consumed now f else f)
      row-Counts f counts still = ground (arith, counts, other)

  failed-At :
      (used k i j : ℕ) (t : Table (AuthFlow Payload))
      → At token_key (Counts used k) i t
      → At token_key
          (Counts used (k + (if i == j then 1 else 0)))
          i
          (increment_auth_flow_failures j t)
  unfolding increment_auth_flow_failures is_null
  failed-At used k i j t a =
      update_table-At token_key (Counts used k) (Counts used (k + (if i == j then 1 else 0)))
        (is_open j) failed i t (λ f counts. row-Counts f counts) a
    where
      row-Counts :
          (f : AuthFlow Payload)
          → Counts used k f
          → Counts used (k + (if i == j then 1 else 0)) (if is_open j i f then failed f else f)
      row-Counts f counts still = ground (arith, counts)

  -- The counts of the rest of the calls, added to those so far.
  regroup :
      (used k used' k' i : ℕ) (t : Table (AuthFlow Payload))
      → used ≡ used'
      → k ≡ k'
      → At token_key (Counts used k) i t
      → At token_key (Counts used' k') i t
  regroup used k used' k' i t e e' a =
      subst (λ u. At token_key (Counts u k') i t) e
        (subst (λ n. At token_key (Counts used n) i t) e' a)

  run-Counts :
      (calls : List (Call Payload)) (used k i : ℕ) (t : Table (AuthFlow Payload))
      → IsKeyed token_key t
      → At token_key (Counts used k) i t
      → At token_key
          (Counts (used + consumptions i calls) (k + failures i calls))
          i
          (run hashes lower secret_key calls t)
  unfolding run step create_auth_flow consumptions failures
  run-Counts [] used k i t h a = regroup used k _ _ i t (omega arith) (omega arith) a
  run-Counts (Call.creates c ∷ calls) used k i t h a =
      run-Counts calls used k i _
        (Edit-IsKeyed token_key Kind Kind-keeps h
          (step-Edit hashes lower secret_key (Call.creates c) t))
        (Edit-At token_key NoKind (Counts used k) (λ f never. absurd never) h.table a
          (insert_unique-Edit token_key NoKind AnyFlow (flow_of hashes lower secret_key c) t tt))
  run-Counts (Call.loads c ∷ calls) used k i t h a =
      run-Counts calls used k i _
        (Edit-IsKeyed token_key Kind Kind-keeps h
          (step-Edit hashes lower secret_key (Call.loads c) t))
        (load-either (At token_key (Counts used k) i) hashes lower secret_key c t a (λ j.
          regroup (used + 0) k used k i _ (omega arith) refl
            (consumed-At used 0 k i j c.now t (λ e. refl) a)))
  run-Counts (Call.consumes j now ∷ calls) used k i t h a =
      regroup _ _ _ _ i _ (add_assoc used (if i == j then 1 else 0) (consumptions i calls)) refl (
        run-Counts calls (used + (if i == j then 1 else 0)) k i _
          (Edit-IsKeyed token_key Kind Kind-keeps h
            (step-Edit hashes lower secret_key (Call.consumes j now) t))
          (consumed-At used (if i == j then 1 else 0) k i j now t (λ e. rw e refl) a))
  run-Counts (Call.fails j ∷ calls) used k i t h a =
      regroup _ _ _ _ i _ refl (add_assoc k (if i == j then 1 else 0) (failures i calls)) (
        run-Counts calls used (k + (if i == j then 1 else 0)) i _
          (Edit-IsKeyed token_key Kind Kind-keeps h
            (step-Edit hashes lower secret_key (Call.fails j) t))
          (failed-At used k i j t a))

  -- A flow that is loaded with a limit after any calls has been consumed by none of them, and the
  -- failures that were counted before and by the calls are fewer than the limit: of an attempt that
  -- counts its failure, there are never more than the limit allows.
  pub load-run :
      (i : ℕ) (f : AuthFlow Payload) (t : Table (AuthFlow Payload)) (calls : List (Call Payload))
      (c : Load) (n : ℕ) (l : LoadedFlow Payload)
      → IsKeyed token_key t
      → lookup i t.rows ≡ some f
      → c.max_attempts ≡ some n
      → (load hashes lower secret_key c (run hashes lower secret_key calls t)).0 ≡ ok l
      → l.id ≡ i
      → (consumptions i calls ≡ 0) × (f.failed_attempts + failures i calls < n)
  unfolding is_exhausted
  load-run i f t calls c n l h there limit e same =
      let last =
        run-Counts calls 0 f.failed_attempts i t h
          (record { row = f; stored = there; holds = λ still. (refl, refl) }) in
      let live =
        load-IsLoaded hashes lower secret_key c _ l
          (run-IsKeyed hashes lower secret_key calls t h).table e in
      let row : last.row ≡ live.flow = some-injective last.row live.flow (
        sym last.stored
        ∙ ap (λ k. lookup k (run hashes lower secret_key calls t).rows) (sym same)
        ∙ live.stored) in
      let counts = last.holds (rw row live.still) in
      let room : leb n live.flow.failed_attempts ≡ false =
        ap (λ m. is_exhausted m live.flow.failed_attempts) (sym limit) ∙ live.left in
      let failed_before = ap (λ (r : AuthFlow Payload). r.failed_attempts) row in
      (omega (arith, counts.0), ground (arith, room, counts.1, failed_before))
