-- ===== src/ExternalAuth/Once.antt =====
-- A state of a sign-in is good for one callback.
use scam_screener_api.Base.{
  str_eq, ℕ, Str, str_beq_iff, ◌≡◌, refl, sym, ap, subst, ◌∙◌, true, false, some, List, [], ◌∷◌,
  nat_eq, Bool-cases, inl, inr, ==_iff,
}
use scam_screener_api.Base.Dict.{lookup}
use scam_screener_api.Base.Instants.{Instant}
use scam_screener_api.Base.Sql.{
  Table, find_row, find_row-holds, lookup-find_row, update_table, lookup-update_rows,
}
use scam_screener_api.Base.Sql.Unique.{has_key, IsKeyed, At, find_row-At, Edit-IsKeyed, Edit-At}
use scam_screener_api.Sessions.{is_null}
use scam_screener_api.ExternalAuth.{refused, ExternalAuthSettings}
use scam_screener_api.ExternalAuth.States.{
  AuthState, state_key, state_hash, invalid, consume, is_open, mark_consumed, check_state,
  consume_external_auth_state,
}
use scam_screener_api.ExternalAuth.Calls.{
  Call, Return, Kind, Kind-keeps, return, step, run, step-Edit, run-IsKeyed, return-IsKeyed,
  check_state-marks,
}

-- A row with this hash that is consumed.
IsSpent : Str → AuthState → Type 0
IsSpent hash s = (state_key s ≡ hash) × (is_null s.consumed_at ≡ false)

Kind-IsSpent :
    (hash : Str) (f : AuthState → AuthState)
    → Kind f
    → (s : AuthState) → IsSpent hash s
    → IsSpent hash (f s)
unfolding consume IsSpent is_null
Kind-IsSpent hash f (Kind.consumes now) s p = (p.0, refl)

mark_consumed-IsSpent :
    (hash : Str) (i : ℕ) (s : AuthState) (now : Instant) (t : Table AuthState)
    → lookup i t.rows ≡ some s
    → state_key s ≡ hash
    → is_null s.consumed_at ≡ true
    → At state_key (IsSpent hash) i (mark_consumed i now t)
unfolding mark_consumed update_table is_open IsSpent is_null consume
mark_consumed-IsSpent hash i s now t there same open_still = record {
  row = consume now s;
  stored =
      lookup-update_rows i (is_open i) (consume now) t.rows
      ∙ rw (there, open_still, (==_iff i i).1 refl) refl;
  holds = (same, refl);
}

module _ (sha256 lower : Str → Str) (settings : ExternalAuthSettings) where
  abbrev pub hash_of : Str → Str
  hash_of state = state_hash sha256 state settings.secret_key

  return-IsSpent :
      (c : Return) (t : Table AuthState) (i : ℕ) (s : AuthState)
      → IsKeyed state_key t
      → find_row (has_key state_key (hash_of c.state)) t.rows ≡ some (i, s)
      → At state_key (IsSpent (hash_of c.state)) i (return sha256 lower settings c t).1
  unfolding return consume_external_auth_state IsSpent
  return-IsSpent c t i s h found =
      let there = lookup-find_row _ t.rows i s h.table.distinct found in
      let same =
        (str_beq_iff (state_key s) (hash_of c.state)).0
          (find_row-holds (has_key state_key (hash_of c.state)) t.rows i s found) in
      rw found (
        subst (At state_key (IsSpent (hash_of c.state)) i) (sym (check_state-marks lower c i s t))
          (elim (Bool-cases (is_null s.consumed_at)) [
            | inl still ↦
                rw still (mark_consumed-IsSpent (hash_of c.state) i s c.now t there same still)
            | inr consumed ↦
                rw consumed (record { row = s; stored = there; holds = (same, consumed) })
          ]))

  run-IsSpent :
      (hash : Str) (calls : List Call) (i : ℕ) (t : Table AuthState)
      → IsKeyed state_key t
      → At state_key (IsSpent hash) i t
      → At state_key (IsSpent hash) i (run sha256 lower settings calls t)
  unfolding run
  run-IsSpent hash [] i t h a = a
  run-IsSpent hash (c ∷ calls) i t h a =
      let edit = step-Edit sha256 lower settings c t in
      run-IsSpent hash calls i (step sha256 lower settings c t)
        (Edit-IsKeyed state_key Kind Kind-keeps h edit)
        (Edit-At state_key Kind (IsSpent hash) (Kind-IsSpent hash) h.table a edit)

  return-Spent :
      (c : Return) (i : ℕ) (t : Table AuthState)
      → IsKeyed state_key t
      → At state_key (IsSpent (hash_of c.state)) i t
      → return sha256 lower settings c t ≡ (refused invalid 400, t)
  unfolding return consume_external_auth_state IsSpent check_state
  return-Spent c i t h a =
      let found =
        ap (λ k. find_row (has_key state_key k) t.rows) (sym a.holds.0)
        ∙ find_row-At state_key i a.row t h a.stored in
      rw found (rw a.holds.1 refl)

  -- A state that is stored is good for one callback, whether that is accepted or refused: after it,
  -- and after any other calls, each callback with the same state is refused and changes nothing, if
  -- the calls come one after the other.
  pub return-return :
      (c c' : Return) (t : Table AuthState) (i : ℕ) (s : AuthState) (calls : List Call)
      → IsKeyed state_key t
      → find_row (has_key state_key (hash_of c.state)) t.rows ≡ some (i, s)
      → c'.state ≡ c.state
      → return sha256 lower settings c'
          (run sha256 lower settings calls (return sha256 lower settings c t).1)
        ≡ (
          refused invalid 400,
          run sha256 lower settings calls (return sha256 lower settings c t).1,
        )
  return-return c c' t i s calls h found same =
      let after : IsKeyed state_key (return sha256 lower settings c t).1 =
        return-IsKeyed sha256 lower settings c t h in
      return-Spent c' i _ (run-IsKeyed sha256 lower settings calls _ after)
        (rw same (run-IsSpent (hash_of c.state) calls i _ after (return-IsSpent c t i s h found)))
