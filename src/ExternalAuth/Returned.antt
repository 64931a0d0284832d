-- ===== src/ExternalAuth/Returned.antt =====
-- A callback gets what its sign-in left for it.
use mathlib.Core.Option.{some-injective}
use scam_screener_api.Base.{
  str_eq, ℕ, ◌+◌, ◌≤◌, Str, codes, str_beq_iff, ◌≡◌, ◌≢◌, refl, sym, ap, subst, ◌∙◌, Bool, true,
  false, ◌||◌, not, Option, none, some, List, [], ◌∷◌, arith, nat_eq, if◌then◌else◌, either, ==_iff,
  length, take, All, take_all,
}
use scam_screener_api.Base.Dict.{lookup}
use scam_screener_api.Base.Text.{strip, strip_idem}
use scam_screener_api.Base.Instants.{Instant, minutes, iso_ltb}
use scam_screener_api.Base.Sql.{
  Table, find_row, find_row-holds, lookup-find_row, update_table, lookup-update_rows, add_row,
  lookup-add_row,
}
use scam_screener_api.Base.Sql.Unique.{
  has_key, insert_unique, IsKeyed, Edit, find_row-At, Edit-IsKeyed, Edit-At,
}
use scam_screener_api.Sessions.{is_null, is_filled}
use scam_screener_api.Sessions.Resolve.{normalize_user_agent_for_binding, mismatch_self}
use scam_screener_api.ExternalAuth.{
  Outcome, ok, refused, ExternalAuthSettings, external_auth_provider_enabled,
  sanitize_redirect_path, starts_with, dashboard,
}
use scam_screener_api.ExternalAuth.States.{
  AuthState, Flow, state_key, state_hash, consume, is_open, mark_consumed, check_state, new_state,
  consume_external_auth_state, create_external_auth_redirect, store_external_auth_state,
  redirect_result,
}
use scam_screener_api.ExternalAuth.Calls.{
  Call, Start, Return, state_of, start, return, step, run, start-Edit, run-IsKeyed,
  check_state-marks, Any, return-IsKeyed,
}

sanitize_redirect_path-filled : (s : Str) → is_filled (sanitize_redirect_path s) ≡ true
unfolding sanitize_redirect_path
sanitize_redirect_path-filled s = filled (strip s) _
  where
    filled :
        (path : Str) (bad : Bool)
        → is_filled
            (if not (starts_with (codes "/") path) || bad then dashboard else take 1024 path)
          ≡ true
    filled [] bad = refl
    filled (c ∷ path) true = ground arith
    filled (c ∷ path) false = ground arith

abbrev No : (AuthState → AuthState) → Type 0
No f = ⊥

module _ (sha256 lower : Str → Str) (settings : ExternalAuthSettings) where
  -- The call is no callback with a state of this hash.
  abbrev pub Spares : Str → Call → Type 0
  Spares hash (Call.starts c) = Unit
  Spares hash (Call.returns c) = state_hash sha256 c.state settings.secret_key ≢ hash

  mark_consumed-other :
      (i j : ℕ) (now : Instant) (t : Table AuthState) (s : AuthState)
      → i ≢ j
      → lookup i t.rows ≡ some s
      → lookup i (mark_consumed j now t).rows ≡ some s
  unfolding mark_consumed update_table is_open
  mark_consumed-other i j now t s differs there =
      lookup-update_rows i (is_open j) (consume now) t.rows ∙ ground (arith, ==_iff i j)

  -- The row of the sign-in, still as it was stored.
  IsFresh : Start → AuthState → Type 0
  IsFresh c s = s ≡ state_of sha256 lower settings c

  check_state-other :
      (r : Return) (found : Option (ℕ × AuthState)) (t : Table AuthState) (i : ℕ) (s : AuthState)
      → ((j : ℕ) (s' : AuthState) → found ≡ some (j, s') → i ≢ j)
      → lookup i t.rows ≡ some s
      → lookup i (check_state lower r.provider r.user_agent r.now found t).1.rows ≡ some s
  check_state-other r none t i s differs there = unfold check_state in there
  check_state-other r (some (j, s')) t i s differs there =
      subst (λ (k : Table AuthState). lookup i k.rows ≡ some s)
        (sym (check_state-marks lower r j s' t))
        (either (λ (k : Table AuthState). lookup i k.rows ≡ some s) (is_null s'.consumed_at)
          (mark_consumed-other i j r.now t s (differs j s' refl) there) there)

  return-other :
      (r : Return) (hash : Str) (t : Table AuthState) (i : ℕ) (s : AuthState)
      → IsKeyed state_key t
      → Spares hash (Call.returns r)
      → state_key s ≡ hash
      → lookup i t.rows ≡ some s
      → lookup i (return sha256 lower settings r t).1.rows ≡ some s
  unfolding return consume_external_auth_state
  return-other r hash t i s h spared same there =
      check_state-other r _ t i s
        (λ j s' found is_j.
          let key = state_hash sha256 r.state settings.secret_key in
          let holds =
            (str_beq_iff (state_key s') key).0
              (find_row-holds (has_key state_key key) t.rows j s' found) in
          let row = lookup-find_row _ t.rows j s' h.table.distinct found in
          let one : s ≡ s' =
            some-injective s s' (sym there ∙ ap (λ k. lookup k t.rows) is_j ∙ row) in
          spared (sym holds ∙ ap state_key (sym one) ∙ same))
        there

  run-IsFresh :
      (c : Start) (calls : List Call) (i : ℕ) (t : Table AuthState)
      → IsKeyed state_key t
      → All (Spares (state_key (state_of sha256 lower settings c))) calls
      → lookup i t.rows ≡ some (state_of sha256 lower settings c)
      → lookup i (run sha256 lower settings calls t).rows ≡ some (state_of sha256 lower settings c)
  unfolding run step IsFresh
  run-IsFresh c [] i t h spared there = there
  run-IsFresh c (Call.starts d ∷ calls) i t h spared there =
      let edit = start-Edit No sha256 lower settings d t in
      let a =
        Edit-At state_key No (IsFresh c) (λ f never. absurd never) h.table
          (record { row = state_of sha256 lower settings c; stored = there; holds = refl }) edit in
      run-IsFresh c calls i (start sha256 lower settings d t).1
        (Edit-IsKeyed state_key No (λ f never. absurd never) h edit) spared.1
        (a.stored ∙ ap some a.holds)
  run-IsFresh c (Call.returns r ∷ calls) i t h spared there =
      run-IsFresh c calls i (return sha256 lower settings r t).1
        (return-IsKeyed sha256 lower settings r t h) spared.1
        (return-other r _ t i _ h spared.0 refl there)

  redirect_result-added :
      (url : Option Str) (s : AuthState) (t t' : Table AuthState) (answer : Str)
      (found : Option (ℕ × AuthState))
      → redirect_result url (elim found [ none ↦ some (add_row s t) | some duplicate ↦ none ]) t
        ≡ (ok answer, t')
      → (found ≡ none) × (t' ≡ add_row s t)
  unfolding redirect_result
  redirect_result-added url s t t' answer (some row) e = cc
  redirect_result-added none s t t' answer none e = cc
  redirect_result-added (some url) s t t' answer none e =
      (refl, sym (ap (λ (o : Outcome Str × Table AuthState). o.1) e))

  start-added :
      (c : Start) (t t' : Table AuthState) (answer : Str)
      → start sha256 lower settings c t ≡ (ok answer, t')
      → (find_row (has_key state_key (state_key (state_of sha256 lower settings c))) t.rows ≡ none)
        × (t' ≡ add_row (state_of sha256 lower settings c) t)
  unfolding start create_external_auth_redirect store_external_auth_state insert_unique
  start-added c t t' answer e =
      split (not (external_auth_provider_enabled lower settings (lower (strip c.provider)))) e
    where
      split :
          (off : Bool)
          → ◌≡◌ {A = Outcome Str × Table AuthState}
              (if off
                then (refused (codes "External provider is not configured.") 404, t)
                else redirect_result
                    (c.authorization_url (lower (strip c.provider)))
                    (store_external_auth_state sha256 settings.secret_key
                      (lower (strip c.provider))
                      c.secrets
                      (sanitize_redirect_path c.next_path)
                      c.source_ip
                      c.user_agent
                      c.now
                      c.later
                      t)
                    t)
              (ok answer, t')
          → (find_row (has_key state_key (state_key (state_of sha256 lower settings c))) t.rows
              ≡ none)
            × (t' ≡ add_row (state_of sha256 lower settings c) t)
      split true e = cc
      split false e = redirect_result-added _ (state_of sha256 lower settings c) t t' answer _ e

  -- What the callback of a sign-in is given.
  abbrev pub flow_of : ℕ → Start → Flow
  flow_of i c = record {
    id = i;
    code_verifier = c.secrets.code_verifier;
    nonce = c.secrets.nonce;
    redirect_path = sanitize_redirect_path c.next_path;
  }

  check_state-ok :
      (r : Return) (i : ℕ) (s : AuthState) (t : Table AuthState)
      → is_null s.consumed_at ≡ true
      → strip s.provider ≡ r.provider
      → iso_ltb r.now s.expires_at ≡ true
      → normalize_user_agent_for_binding lower s.user_agent
        ≡ normalize_user_agent_for_binding lower r.user_agent
      → is_filled s.redirect_path ≡ true
      → (check_state lower r.provider r.user_agent r.now (some (i, s)) t).0
        ≡ ok (record {
          id = i;
          code_verifier = s.code_verifier;
          nonce = s.nonce;
          redirect_path = s.redirect_path;
        })
  unfolding check_state
  check_state-ok r i s t still provider unexpired agent filled = rw (
    still,
    provider,
    (str_beq_iff r.provider r.provider).1 refl,
    unexpired,
    agent,
    mismatch_self lower (normalize_user_agent_for_binding lower r.user_agent),
    filled,
  )

  check_state-fresh :
      (c : Start) (r : Return) (i : ℕ) (t : Table AuthState)
      → r.provider ≡ strip (lower (strip c.provider))
      → r.user_agent ≡ c.user_agent
      → length (strip c.user_agent) ≤ 300
      → iso_ltb r.now (c.later + minutes 10) ≡ true
      → (check_state lower r.provider r.user_agent r.now
          (some (i, state_of sha256 lower settings c))
          t).0
        ≡ ok (flow_of i c)
  unfolding new_state is_null normalize_user_agent_for_binding
  check_state-fresh c r i t provider agent short unexpired =
      check_state-ok r i (state_of sha256 lower settings c) t refl (sym provider) unexpired
        (ap (λ k. take 180 (lower (strip k))) (take_all 300 (strip c.user_agent) short)
          ∙ ap (λ k. take 180 (lower k)) (strip_idem c.user_agent)
          ∙ ap (λ k. take 180 (lower (strip k))) (sym agent))
        (sanitize_redirect_path-filled c.next_path)

  -- A sign-in that is started gives its callback the verifier, the nonce and the cleaned path that
  -- were stored with it, whatever sign-ins are started and return in between with other states: if
  -- the callback names the provider, comes from the same user agent, of at most 300 characters, and
  -- its time has a lesser text than that ten minutes after the start.
  pub return-start :
      (c : Start) (answer : Str) (r : Return) (t t' : Table AuthState) (calls : List Call)
      → IsKeyed state_key t
      → start sha256 lower settings c t ≡ (ok answer, t')
      → All (Spares (state_key (state_of sha256 lower settings c))) calls
      → r.state ≡ c.secrets.state
      → r.provider ≡ strip (lower (strip c.provider))
      → r.user_agent ≡ c.user_agent
      → length (strip c.user_agent) ≤ 300
      → iso_ltb r.now (c.later + minutes 10) ≡ true
      → (return sha256 lower settings r (run sha256 lower settings calls t')).0
        ≡ ok (flow_of t.next_id c)
  unfolding return consume_external_auth_state new_state
  return-start c answer r t t' calls h e spared state provider agent short unexpired =
      let (fresh, grown) = start-added c t t' answer e in
      let edit : Edit state_key No Any t (add_row (state_of sha256 lower settings c) t) =
        Edit.inserted (state_of sha256 lower settings c) tt fresh in
      let h' : IsKeyed state_key t' =
        rw grown (Edit-IsKeyed state_key No (λ f never. absurd never) h edit) in
      let there : lookup t.next_id t'.rows ≡ some (state_of sha256 lower settings c) =
        ap (λ (k : Table AuthState). lookup t.next_id k.rows) grown
        ∙ lookup-add_row t.next_id (state_of sha256 lower settings c) t h.table
        ∙ rw ((==_iff t.next_id t.next_id).1 refl) refl in
      let last = run-IsFresh c calls t.next_id t' h' spared there in
      let found =
        find_row-At state_key t.next_id (state_of sha256 lower settings c) _
          (run-IsKeyed sha256 lower settings calls t' h') last in
      let key : state_key (state_of sha256 lower settings c)
          ≡ state_hash sha256 r.state settings.secret_key =
        ap (λ k. state_hash sha256 k settings.secret_key) (sym state) in
      rw (← key) (
        rw found (
          check_state-fresh c r t.next_id (run sha256 lower settings calls t') provider agent short
            unexpired))
