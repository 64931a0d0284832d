-- ===== src/Sessions/Issued.antt =====
-- A token stands for nobody but the user for whom its session was created, and no longer than that
-- session lasts.
use mathlib.Core.Option.{none-ne-some, some-injective}
use scam_screener_api.Base.{
  ℕ, ◌+◌, ◌<◌, Str, ◌≡◌, ◌⊎◌, refl, sym, subst, ◌∙◌, true, some, List, [], ◌∷◌, arith, nat_eq, inl,
  inr, Bool-cases,
}
use scam_screener_api.Base.Dict.{lookup, lookup-nil}
use scam_screener_api.Base.Instants.{minutes, iso_ltb-slack}
use scam_screener_api.Base.Sql.{
  Table, IsTable, add_row, update_table, delete_rows, lookup-update_rows-some, lookup-add_row,
  lookup-delete_rows,
}
use scam_screener_api.Sessions.{
  Session, Hashes, SessionSettings, revoke, one_of, token_hashes, session_token_hash,
}
use scam_screener_api.Sessions.Resolve.{ResolvedUser}
use scam_screener_api.Sessions.Steps.{
  Call, Creation, Request, Change, MadeBy, Makes, resolve, step, run, step-Change, Change-IsTable,
  run-IsTable,
}
use scam_screener_api.Sessions.Found.{resolve-IsLive}
use scam_screener_api.Sessions.Revoked.{Lasts}

-- Every stored session is as told.
Stored : (Session → Type 0) → Table Session → Type 0
Stored P t = (i : ℕ) (s : Session) → lookup i t.rows ≡ some s → P s

module _ (P New : Session → Type 0) (lasts : Lasts P) where
  Change-Stored :
      {t t' : Table Session}
      → IsTable t
      → Stored P t
      → Change New t t'
      → Stored (λ s. P s ⊎ New s) t'
  unfolding Stored update_table add_row delete_rows
  Change-Stored h all Change.kept i s e = inl (all i s e)
  Change-Stored {t} h all (Change.revoked p now reason) i s e =
      let (r, before, same) = lookup-update_rows-some i p (revoke now reason) t.rows s e in
      elim (Bool-cases (p i r)) [
        | inl hit ↦ inl (rw same (rw hit (lasts now reason r (all i r before))))
        | inr missed ↦ inl (rw same (rw missed (all i r before)))
      ]
  Change-Stored {t} h all (Change.inserted s new fresh) i r e =
      elim (Bool-cases (nat_eq.beq i t.next_id)) [
        | inl last ↦
            inr
              (subst New (some-injective s r (sym (lookup-add_row i s t h ∙ rw last refl) ∙ e)) new)
        | inr before ↦ inl (all i r (sym (lookup-add_row i s t h ∙ rw before refl) ∙ e))
      ]
  Change-Stored {t} h all (Change.deleted p) i s e = inl (all i s (lookup-delete_rows p t i s h e))

-- The calls hold this creation.
abbrev pub Occurs : Creation → List Call → Type 0
Occurs c [] = ⊥
Occurs c (call ∷ calls) = (call ≡ Call.creates c) ⊎ Occurs c calls

module _ (hashes : Hashes) (lower : Str → Str) (settings : SessionSettings) where
  IssuedBy : List Call → Session → Type 0
  IssuedBy calls s = (c : Creation) × Occurs c calls × MadeBy hashes settings.secret_key c s

  Makes-Lasts : (call : Call) → Lasts (Makes hashes settings.secret_key call)
  unfolding revoke
  Makes-Lasts (Call.creates c) now reason s m = record {
    owner = m.owner;
    token = m.token;
    expiry = m.expiry;
  }
  Makes-Lasts (Call.resolves r) now reason s m = m
  Makes-Lasts (Call.revokes_token token why at) now reason s m = m
  Makes-Lasts (Call.revokes_all user_id why at) now reason s m = m
  Makes-Lasts (Call.revokes_one user_id i why at) now reason s m = m
  Makes-Lasts (Call.revokes_others user_id i why at) now reason s m = m
  Makes-Lasts (Call.deletes_outdated cutoff) now reason s m = m

  Makes-IssuedBy :
      (call : Call) (calls : List Call) (s : Session)
      → Makes hashes settings.secret_key call s
      → IssuedBy (call ∷ calls) s
  unfolding IssuedBy
  Makes-IssuedBy (Call.creates c) calls s m = (c, inl refl, m)
  Makes-IssuedBy (Call.resolves r) calls s m = absurd m
  Makes-IssuedBy (Call.revokes_token token why at) calls s m = absurd m
  Makes-IssuedBy (Call.revokes_all user_id why at) calls s m = absurd m
  Makes-IssuedBy (Call.revokes_one user_id i why at) calls s m = absurd m
  Makes-IssuedBy (Call.revokes_others user_id i why at) calls s m = absurd m
  Makes-IssuedBy (Call.deletes_outdated cutoff) calls s m = absurd m

  regroup :
      (P : Session → Type 0) (call : Call) (calls : List Call) (s : Session)
      → (P s ⊎ Makes hashes settings.secret_key call s) ⊎ IssuedBy calls s
      → P s ⊎ IssuedBy (call ∷ calls) s
  unfolding IssuedBy
  regroup P call calls s (inl (inl p)) = inl p
  regroup P call calls s (inl (inr m)) = inr (Makes-IssuedBy call calls s m)
  regroup P call calls s (inr (c, there, m)) = inr (c, inr there, m)

  either-Lasts : (P Q : Session → Type 0) → Lasts P → Lasts Q → Lasts (λ s. P s ⊎ Q s)
  either-Lasts P Q lp lq now reason s (inl p) = inl (lp now reason s p)
  either-Lasts P Q lp lq now reason s (inr q) = inr (lq now reason s q)

  run-Stored :
      (P : Session → Type 0)
      → Lasts P
      → (calls : List Call) (t : Table Session) → IsTable t
      → Stored P t
      → Stored (λ s. P s ⊎ IssuedBy calls s) (run hashes lower settings calls t)
  unfolding run Stored
  run-Stored P lasts [] t h all i s e = inl (all i s e)
  run-Stored P lasts (c ∷ calls) t h all i s e =
      let change = step-Change hashes lower settings c t in
      regroup P c calls s (
        run-Stored (λ s. P s ⊎ Makes hashes settings.secret_key c s)
          (either-Lasts P (Makes hashes settings.secret_key c) lasts (Makes-Lasts c)) calls
          (step hashes lower settings c t) (Change-IsTable h change)
          (Change-Stored P (Makes hashes settings.secret_key c) lasts h all change) i s e)

  -- Why a request is answered with this user.
  pub record IsIssued (calls : List Call) (r : Request) (u : ResolvedUser) (c : Creation)
      : Type 0 where
    pub occurs : Occurs c calls
    pub owner : u.user_id ≡ c.user_id
    pub token :
        one_of
          (session_token_hash hashes c.session_token settings.secret_key)
          (token_hashes hashes r.session_token settings.secret_key)
        ≡ true
    pub unexpired : r.now < c.now + minutes c.ttl_minutes + 1000000

  issued :
      (calls : List Call) (r : Request) (u : ResolvedUser) (s : Session)
      → ⊥ ⊎ IssuedBy calls s
      → s.user_id ≡ u.user_id
      → one_of s.token_sha256 (token_hashes hashes r.session_token settings.secret_key) ≡ true
      → r.now < s.expires_at + 1000000
      → (c : Creation) × IsIssued calls r u c
  unfolding IssuedBy
  issued calls r u s (inl never) owner token unexpired = absurd never
  issued calls r u s (inr (c, there, m)) owner token unexpired = (
    c,
    record {
      occurs = there;
      owner = sym owner ∙ m.owner;
      token = rw (← m.token) token;
      unexpired = omega (arith, m.expiry);
    },
  )

  -- Starting without sessions, whatever calls are made: a request is answered with a user only if
  -- one of the calls created a session for that user, with a token of which the request's token has
  -- the hash, and less than its time to live and one second ago.
  pub resolve-IsIssued :
      (calls : List Call) (r : Request) (u : ResolvedUser)
      → (resolve hashes lower settings r
          (run hashes lower settings calls (record { rows = []; next_id = 1 }))).0
        ≡ some u
      → (c : Creation) × IsIssued calls r u c
  unfolding Stored
  resolve-IsIssued calls r u e =
      let start : Table Session = record { rows = []; next_id = 1 } in
      let h : IsTable start = record { distinct = tt; below = tt } in
      let live =
        resolve-IsLive hashes lower settings r _ u (run-IsTable hashes lower settings calls start h)
          e in
      issued calls r u live.session
        (run-Stored (λ s. ⊥) (λ now reason s p. p) calls start h
          (λ i s there. none-ne-some s (sym (lookup-nil i) ∙ there)) u.session_id live.session
          live.stored)
        live.owner live.token (iso_ltb-slack r.now live.session.expires_at live.unexpired)
