-- ===== src/Cache/Chain.antt =====
-- `ResponseCacheChain`: backends behind one interface, asked in turn.
pub mod Local
use mathlib.Core.Option.{none-ne-some}
use scam_screener_api.Base.{
  ◌≡◌, ◌∙◌, Str, Option, none, some, List, [], ◌∷◌, ◌++◌, arith, map, All, All-append,
}

-- A backend, and what a backend promises that works.
pub record Backend (B C : Type 0) : Type 0 where
  pub get : Str → B → Option C × B
  pub set : Str → C → B → B

pub record IsLawful {B C : Type 0} (o : Backend B C) (IsValid : B → Type 0) : Type 0 where
  pub get-IsValid : (key : Str) (b : B) → IsValid b → IsValid (o.get key b).1
  pub set-IsValid : (key : Str) (c : C) (b : B) → IsValid b → IsValid (o.set key c b)
  pub get-set_self :
      (key : Str) (c : C) (b : B) → IsValid b → (o.get key (o.set key c b)).0 ≡ some c
  pub get-get_self :
      (key : Str) (c : C) (b : B)
      → IsValid b
      → (o.get key b).0 ≡ some c
      → (o.get key (o.get key b).1).0 ≡ some c

module _ {B C : Type 0} (o : Backend B C) where
  -- One round of the loop of `get`, by what the backend answered: the backends that missed so far,
  -- those that are left, and the outcome of going on.
  unfoldable pub warm : Str → List B → List B → Option C × B → Option C × List B → Option C × List B
  warm key missed rest (none, asked) next = next
  warm key missed rest (some c, asked) next = (some c, map (o.set key c) missed ++ asked ∷ rest)

  unfoldable pub get_loop : Str → List B → List B → Option C × List B
  unfolding warm
  get_loop key missed [] = (none, missed)
  get_loop key missed (b ∷ backends) =
      let asked = o.get key b in
      warm key missed backends asked (get_loop key (missed ++ asked.1 ∷ []) backends)

  unfoldable pub get : Str → List B → Option C × List B
  get key backends = get_loop key [] backends

  unfoldable pub set : Str → C → List B → List B
  set key c = map (o.set key c)

  -- The first backend has the entry.
  abbrev Serves : Str → C → List B → Type 0
  Serves key c [] = ⊥
  Serves key c (b ∷ backends) = (o.get key b).0 ≡ some c

module _ {B C : Type 0} (o : Backend B C) {IsValid : B → Type 0} (lawful : IsLawful o IsValid) where
  get-eq-some_of_Serves :
      (key : Str) (c : C) (backends : List B)
      → Serves o key c backends
      → (get o key backends).0 ≡ some c
  unfolding get get_loop
  get-eq-some_of_Serves key c [] h = absurd h
  get-eq-some_of_Serves key c (b ∷ backends) h = ground arith

  warm-Serves :
      (key : Str) (c : C) (missed rest : List B) (asked : Option C × B) (next : Option C × List B)
      → All IsValid missed
      → (asked.0 ≡ some c → (o.get key asked.1).0 ≡ some c)
      → (next.0 ≡ some c → Serves o key c next.1)
      → (warm o key missed rest asked next).0 ≡ some c
      → Serves o key c (warm o key missed rest asked next).1
  unfolding warm
  warm-Serves key c missed rest (none, asked) next vs stays ih h = ih h
  warm-Serves key c [] rest (some c', asked) next vs stays ih h = stays h
  warm-Serves key c (m ∷ missed) rest (some c', asked) next vs stays ih h =
      lawful.get-set_self key c' m vs.0 ∙ h

  get_loop-Serves :
      (key : Str) (c : C) (missed backends : List B)
      → All IsValid missed
      → All IsValid backends
      → (get_loop o key missed backends).0 ≡ some c
      → Serves o key c (get_loop o key missed backends).1
  unfolding get_loop
  get_loop-Serves key c missed [] vs us = λ h. absurd (none-ne-some c h)
  get_loop-Serves key c missed (b ∷ backends) vs us =
      warm-Serves key c missed backends (o.get key b) _ vs (lawful.get-get_self key c b us.0) (
        get_loop-Serves key c (missed ++ (o.get key b).1 ∷ []) backends
          (All-append IsValid missed _ vs (lawful.get-IsValid key b us.0, tt)) us.1)

  -- When a chain of valid backends that keep the laws has found an entry, it answers the same
  -- when it is asked again.
  pub get-get_self :
      (key : Str) (c : C) (backends : List B)
      → All IsValid backends
      → (get o key backends).0 ≡ some c
      → (get o key (get o key backends).1).0 ≡ some c
  get-get_self key c backends vs h =
      get-eq-some_of_Serves key c (get o key backends).1
        (unfold get in get_loop-Serves key c [] backends tt vs (unfold get in h))

  -- Every backend of a chain serves what was set through it, if the backends are valid and keep
  -- the laws.
  pub set-serves :
      (key : Str) (c : C) (backends : List B)
      → All IsValid backends
      → All (λ b. (o.get key b).0 ≡ some c) (set o key c backends)
  unfolding set
  set-serves key c [] vs = tt
  set-serves key c (b ∷ backends) (v, vs) =
      (lawful.get-set_self key c b v, set-serves key c backends vs)
