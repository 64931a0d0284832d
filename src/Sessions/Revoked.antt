-- ===== src/Sessions/Revoked.antt =====
-- A session that is revoked stays so, and no token stands for it any more.
use mathlib.Core.Option.{some-injective}
use scam_screener_api.Base.{
  ℕ, ◌<◌, ◌≤◌, Str, ◌≡◌, ◌≢◌, refl, sym, ap, ◌∙◌, Bool, true, false, Option, some, List, [], ◌∷◌,
  arith, nat_eq, leb, Bool-cases, inl, inr, ==_iff,
}
use scam_screener_api.Base.Dict.{lookup}
use scam_screener_api.Base.Text.{strip}
use scam_screener_api.Base.Instants.{Instant}
use scam_screener_api.Base.Sql.{
  Table, IsTable, add_row, update_table, delete_rows, lookup-update_rows-some, lookup-add_row-lt,
  lookup-delete_rows, lookup-lt-next, update_table-IsTable,
}
use scam_screener_api.Sessions.{
  Session, Hashes, SessionSettings, is_null, is_filled, revoke, is_active_of, is_other,
  is_active_token, revoke_session_by_token, revoke_other_user_sessions,
}
use scam_screener_api.Sessions.Resolve.{ResolvedUser}
use scam_screener_api.Sessions.Steps.{
  Call, Request, Change, resolve, step, run, step-Change, Change-IsTable, run-IsTable,
  revoke_session_by_token-Change,
}
use scam_screener_api.Sessions.Found.{resolve-IsLive}

-- What a revocation cannot undo.
abbrev pub Lasts : (Session → Type 0) → Type 0
Lasts P = (now : Instant) (reason : Str) (s : Session) → P s → P (revoke now reason s)

-- The id has been given to a session, and if its row is still there, it is as told.
pub record Is (P : Session → Type 0) (i : ℕ) (t : Table Session) : Type 0 where
  pub used : i < t.next_id
  pub row : (s : Session) → lookup i t.rows ≡ some s → P s

abbrev pub Ended : Session → Type 0
Ended s = is_null s.revoked_at ≡ false

module _ (P : Session → Type 0) (lasts : Lasts P) where
  update_table-Is :
      (p : ℕ → Session → Bool) (now : Instant) (reason : Str) (i : ℕ) (t : Table Session)
      → Is P i t
      → Is P i (update_table p (revoke now reason) t)
  unfolding update_table
  update_table-Is p now reason i t v = record {
    used = v.used;
    row = λ s e.
        let (r, before, same) = lookup-update_rows-some i p (revoke now reason) t.rows s e in
        elim (Bool-cases (p i r)) [
          | inl hit ↦ rw same (rw hit (lasts now reason r (v.row r before)))
          | inr missed ↦ rw same (rw missed (v.row r before))
        ];
  }

  Change-Is :
      {New : Session → Type 0} {i : ℕ} {t t' : Table Session}
      → IsTable t
      → Is P i t
      → Change New t t'
      → Is P i t'
  unfolding add_row delete_rows
  Change-Is h v Change.kept = v
  Change-Is {i} {t} h v (Change.revoked p now reason) = update_table-Is p now reason i t v
  Change-Is {i} {t} h v (Change.inserted s new fresh) = record {
    used = omega (arith, v.used);
    row = λ r e. v.row r (sym (lookup-add_row-lt i s t h v.used) ∙ e);
  }
  Change-Is {i} {t} h v (Change.deleted p) = record {
    used = v.used;
    row = λ s e. v.row s (lookup-delete_rows p t i s h e);
  }

Ended-Lasts : Lasts Ended
unfolding revoke is_null
Ended-Lasts now reason s e = refl

-- `P` once the rows that the UPDATE hits are revoked.
revoked-Is :
    (p : ℕ → Session → Bool) (now : Instant) (reason : Str) (i : ℕ) (t : Table Session)
    → i < t.next_id
    → ((s : Session) → lookup i t.rows ≡ some s → is_null s.revoked_at ≡ true → p i s ≡ true)
    → Is Ended i (update_table p (revoke now reason) t)
unfolding update_table revoke is_null
revoked-Is p now reason i t used hits = record {
  used = used;
  row = λ s e.
      let (r, before, same) = lookup-update_rows-some i p (revoke now reason) t.rows s e in
      ground (arith, hits r before);
}

module _ (hashes : Hashes) (lower : Str → Str) (settings : SessionSettings) where
  run-Is :
      (P : Session → Type 0)
      → Lasts P
      → (calls : List Call) (i : ℕ) (t : Table Session) → IsTable t
      → Is P i t
      → Is P i (run hashes lower settings calls t)
  unfolding run
  run-Is P lasts [] i t h v = v
  run-Is P lasts (c ∷ calls) i t h v =
      let change = step-Change hashes lower settings c t in
      run-Is P lasts calls i (step hashes lower settings c t) (Change-IsTable h change)
        (Change-Is P lasts h v change)

  -- Nobody is answered with a session that has ended.
  resolve-Ended :
      (r : Request) (i : ℕ) (t : Table Session) (u : ResolvedUser)
      → IsTable t
      → Is Ended i t
      → (resolve hashes lower settings r t).0 ≡ some u
      → u.session_id ≢ i
  resolve-Ended r i t u h v e same =
      let live = resolve-IsLive hashes lower settings r t u h e in
      let ended = v.row live.session (ap (λ k. lookup k t.rows) (sym same) ∙ live.stored) in
      cc (live.active, ended)

  revoke_session_by_token-Ended :
      (r : Request) (t : Table Session) (u : ResolvedUser) (reason : Str) (now : Instant)
      → IsTable t
      → strip r.session_token ≡ r.session_token
      → is_filled r.session_token ≡ true
      → (resolve hashes lower settings r t).0 ≡ some u
      → Is Ended u.session_id
          (revoke_session_by_token hashes r.session_token reason settings.secret_key now t)
  unfolding revoke_session_by_token is_active_token
  revoke_session_by_token-Ended r t u reason now h stripped filled e =
      let live = resolve-IsLive hashes lower settings r t u h e in
      rw (stripped, filled)
        (revoked-Is _ now reason u.session_id t
          (lookup-lt-next u.session_id t.next_id t.rows live.session h.below live.stored)
          (λ s there active.
            let same = some-injective live.session s (sym live.stored ∙ there) in
            ground (arith, live.token, same, active)))

  -- A logout is for good: after the token that a request came with has been revoked, no request is
  -- ever again answered with the session of that request, whatever calls come between, also with
  -- other tokens, clients and users, and also if rows are deleted.
  pub resolve-revoke_session_by_token :
      (r : Request) (t : Table Session) (u : ResolvedUser) (reason : Str) (now : Instant)
      (calls : List Call) (r' : Request) (u' : ResolvedUser)
      → IsTable t
      → strip r.session_token ≡ r.session_token
      → is_filled r.session_token ≡ true
      → (resolve hashes lower settings r t).0 ≡ some u
      → (resolve hashes lower settings r' (
          run hashes lower settings calls
            (revoke_session_by_token hashes r.session_token reason settings.secret_key now t))).0
        ≡ some u'
      → u'.session_id ≢ u.session_id
  resolve-revoke_session_by_token r t u reason now calls r' u' h stripped filled e e' =
      let after = Change-IsTable h (
        revoke_session_by_token-Change hashes lower settings {New = λ s. ⊥} r.session_token reason
          now t) in
      let ended =
        run-Is Ended Ended-Lasts calls u.session_id _ after
          (revoke_session_by_token-Ended r t u reason now h stripped filled e) in
      resolve-Ended r' u.session_id _ u' (run-IsTable hashes lower settings calls _ after) ended e'

  -- The session of another user, or one that has ended.
  EndedFor : ℕ → Session → Type 0
  EndedFor user_id s = s.user_id ≡ user_id → is_null s.revoked_at ≡ false

  EndedFor-Lasts : (user_id : ℕ) → Lasts (EndedFor user_id)
  unfolding EndedFor revoke is_null
  EndedFor-Lasts user_id now reason s f same = refl

  revoke_other_user_sessions-EndedFor :
      (user_id current : ℕ) (reason : Str) (now : Instant) (i : ℕ) (t : Table Session)
      → i < t.next_id
      → i ≢ current
      → Is (EndedFor user_id) i (revoke_other_user_sessions user_id (some current) reason now t).1
  unfolding EndedFor revoke_other_user_sessions is_other is_active_of update_table revoke is_null
  revoke_other_user_sessions-EndedFor user_id current reason now i t used differs = record {
    used = used;
    row = λ s e owner.
        let (r, before, same) =
          lookup-update_rows-some i (is_other user_id (some current)) (revoke now reason) t.rows s
            e in
        ground (arith, ==_iff r.user_id user_id, ==_iff i current);
  }

  revoke_other_user_sessions-IsTable :
      (user_id : ℕ) (current : Option ℕ) (reason : Str) (now : Instant) (t : Table Session)
      → IsTable t
      → IsTable (revoke_other_user_sessions user_id current reason now t).1
  unfolding revoke_other_user_sessions
  revoke_other_user_sessions-IsTable user_id current reason now t h = update_table-IsTable _ _ t h

  -- Once the other sessions of a user have been revoked, whoever is answered as this user has the
  -- session that was kept, or one that was created afterwards, whatever calls come between.
  pub resolve-revoke_other_user_sessions :
      (user_id current : ℕ) (reason : Str) (now : Instant) (t : Table Session) (calls : List Call)
      (r : Request) (u : ResolvedUser)
      → IsTable t
      → (resolve hashes lower settings r (
          run hashes lower settings calls
            (revoke_other_user_sessions user_id (some current) reason now t).1)).0
        ≡ some u
      → u.user_id ≡ user_id
      → u.session_id ≢ current
      → t.next_id ≤ u.session_id
  unfolding EndedFor
  resolve-revoke_other_user_sessions user_id current reason now t calls r u h e owner differs =
      elim (Bool-cases (leb t.next_id u.session_id)) [
        | inl later ↦ ground arith
        | inr earlier ↦
            let old =
              revoke_other_user_sessions-EndedFor user_id current reason now u.session_id t
                (ground arith) differs in
            let after = revoke_other_user_sessions-IsTable user_id (some current) reason now t h in
            let last =
              run-Is (EndedFor user_id) (EndedFor-Lasts user_id) calls u.session_id _ after old in
            let live =
              resolve-IsLive hashes lower settings r _ u
                (run-IsTable hashes lower settings calls _ after) e in
            let ended = last.row live.session live.stored (live.owner ∙ owner) in
            ground (arith, live.active, ended)
      ]
