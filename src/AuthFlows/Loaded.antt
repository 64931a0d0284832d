-- ===== src/AuthFlows/Loaded.antt =====
-- What is known of a flow that `_load_auth_flow` answers with.
use scam_screener_api.Base.{
  ℕ, Str, str_eq, nat_eq, ◌≡◌, refl, sym, ap, ◌∙◌, true, false, Option, none, some, arith,
  Bool-cases, inl, inr,
}
use scam_screener_api.Base.Dict.{lookup}
use scam_screener_api.Base.Text.{strip}
use scam_screener_api.Base.Instants.{Instant, iso_ltb}
use scam_screener_api.Base.Sql.{Table, IsTable, find_row, find_row-holds, lookup-find_row}
use scam_screener_api.Sessions.{Hashes, is_filled, is_null}
use scam_screener_api.Sessions.Resolve.{mismatch}
use scam_screener_api.ExternalAuth.{Outcome, ok, refused-ne-ok}
use scam_screener_api.AuthFlows.{
  AuthFlow, LoadedFlow, loaded, candidate_hashes, has_token, other_type, is_exhausted, check_flow,
  load_auth_flow,
}

pub record Load : Type 0 where
  pub token : Str
  pub flow_type : Option Str
  pub source_ip : Str
  pub user_agent : Str
  pub max_attempts : Option ℕ
  pub now : Instant

module _ {Payload : Type 0} (hashes : Hashes) (lower : Str → Str) (secret_key : Str) where
  unfoldable pub load :
      Load → Table (AuthFlow Payload) → Outcome (LoadedFlow Payload) × Table (AuthFlow Payload)
  unfolding load_auth_flow
  load c t =
      load_auth_flow hashes lower secret_key c.token c.flow_type c.source_ip c.user_agent
        c.max_attempts c.now t

  -- The flow is stored under a hash of the token, of the type, open, not expired by its text, with
  -- failures left, and not bound to another client.
  pub record IsLoaded (c : Load) (t : Table (AuthFlow Payload)) (l : LoadedFlow Payload)
      : Type 0 where
    pub flow : AuthFlow Payload
    pub stored : lookup l.id t.rows ≡ some flow
    pub same : l ≡ loaded l.id flow
    pub token : has_token (candidate_hashes hashes (strip c.token) secret_key) l.id flow ≡ true
    pub still : is_null flow.consumed_at ≡ true
    pub typed : other_type c.flow_type flow.flow_type ≡ false
    pub unexpired : iso_ltb c.now flow.expires_at ≡ true
    pub left : is_exhausted c.max_attempts flow.failed_attempts ≡ false
    pub same_ip : mismatch lower (strip flow.source_ip) c.source_ip ≡ false

  -- What the checks let through.
  Passed : Load → Option (ℕ × AuthFlow Payload) → LoadedFlow Payload → Type 0
  Passed c none l = ⊥
  Passed c (some (i, f)) l =
      (l ≡ loaded i f)
      × (is_null f.consumed_at ≡ true)
      × (other_type c.flow_type f.flow_type ≡ false)
      × (iso_ltb c.now f.expires_at ≡ true)
      × (is_exhausted c.max_attempts f.failed_attempts ≡ false)
      × (mismatch lower (strip f.source_ip) c.source_ip ≡ false)

  check_flow-Passed :
      (c : Load) (found : Option (ℕ × AuthFlow Payload)) (t : Table (AuthFlow Payload))
      (l : LoadedFlow Payload)
      → (check_flow lower c.flow_type c.source_ip c.user_agent c.max_attempts c.now found t).0
        ≡ ok l
      → Passed c found l
  unfolding check_flow Passed
  check_flow-Passed c none t l e = cc
  check_flow-Passed c (some (i, f)) t l e = ground arith

  IsLoaded-found :
      (c : Load) (t : Table (AuthFlow Payload)) (l : LoadedFlow Payload)
      → IsTable t
      → (found : Option (ℕ × AuthFlow Payload))
      → find_row (has_token (candidate_hashes hashes (strip c.token) secret_key)) t.rows ≡ found
      → Passed c found l
      → IsLoaded c t l
  unfolding Passed
  IsLoaded-found c t l h none e p = absurd p
  IsLoaded-found c t l h (some (i, f)) e (same, still, typed, unexpired, left, ip) =
      let id : l.id ≡ i = ap (λ (l : LoadedFlow Payload). l.id) same in
      let there = lookup-find_row _ t.rows i f h.distinct e in
      record {
        flow = f;
        stored = ap (λ k. lookup k t.rows) id ∙ there;
        same = same ∙ ap (λ k. loaded k f) (sym id);
        token =
            find_row-holds (has_token (candidate_hashes hashes (strip c.token) secret_key)) t.rows i
              f e;
        still = still;
        typed = typed;
        unexpired = unexpired;
        left = left;
        same_ip = ip;
      }

  pub load-IsLoaded :
      (c : Load) (t : Table (AuthFlow Payload)) (l : LoadedFlow Payload)
      → IsTable t
      → (load c t).0 ≡ ok l
      → IsLoaded c t l
  unfolding load load_auth_flow
  load-IsLoaded c t l h e = elim (Bool-cases (is_filled (strip c.token))) [
    | inl filled ↦ IsLoaded-found c t l h _ refl (check_flow-Passed c _ t l (rw filled at e))
    | inr missing ↦ absurd (refused-ne-ok _ _ l (rw missing at e))
  ]
