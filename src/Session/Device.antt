-- ===== src/Session/Device.antt =====
-- The state that a call of the session manager reads and changes: the key store, and how many
-- random values were drawn. What a call wrote before it throws stays written.
use winkd.Prelude.{ℕ, suc, Option, Str}
use winkd.Result.{Result, Error, ok, err, or_throw}
use winkd.KeyTypes.{WireMessage}

pub record Device (S : Type 0) : Type 0 where
  pub store : S
  pub draws : ℕ

abbrev pub Action : Type 0 → Type 0 → Type 0
Action S A = Device S → Result A × Device S

module _ {S : Type 0} where
  abbrev pub lift : {A : Type 0} → Result A → Action S A
  lift r d = (r, d)

  abbrev pub pure : {A : Type 0} → A → Action S A
  pure a d = (ok a, d)

  abbrev pub reads : {A : Type 0} → (S → A) → Action S A
  reads f d = (ok (f d.store), d)

  -- A value that must be there.
  abbrev pub reads_or : {A : Type 0} → (S → Option A) → Error → Action S A
  reads_or f e d = (or_throw (f d.store) e, d)

  abbrev pub writes : (S → S) → Action S (Unit {0})
  writes f d = (ok tt, record d { store = f d.store })

  -- The number of the next random value.
  abbrev pub draw : Action S ℕ
  draw d = (ok d.draws, record d { draws = suc d.draws })

  -- What follows an outcome.
  abbrev pub continue :
      {A B : Type 0} → Result A × Device S → (A → Action S B) → Result B × Device S
  continue (ok a, d) f = f a d
  continue (err e, d) f = (err e, d)

  infixl 5 ◌>>=◌ ◌>>◌
  abbrev pub ◌>>=◌ : {A B : Type 0} → Action S A → (A → Action S B) → Action S B
  ◌>>=◌ m f d = continue (m d) f

  abbrev pub ◌>>◌ : {A B : Type 0} → Action S A → Action S B → Action S B
  m >> k = m >>= λ _. k

-- `JSON.stringify` and `JSON.parse` on wire messages: the browser's, a parameter. A payload of
-- another shape is `none`.
pub record WireJson : Type 0 where
  pub stringify : WireMessage → Str
  pub parse : Str → Option WireMessage
