-- ===== src/Platform/Inversion.antt =====
-- What an action that has returned no error has done.
use blahaj_chat_server.Common.{
  ◌≡◌, refl, sym, ◌∙◌, ap, Bool, true, arith, ◌⊎◌, inl, inr, Option-cases,
}
use blahaj_chat_server.Errors.{Error, Result, ok, err}
use blahaj_chat_server.Model.{Db}
use blahaj_chat_server.Platform.Defs.{
  Platform, World, M, continue, branch, ◌>>=◌, on_error, guard, tick,
}
use blahaj_chat_server.Platform.Sql.{
  query, statement, transaction, end_transaction, set_db, run_statement,
}
use blahaj_chat_server.Platform.Effects.{Quiet}

module _ {ℓ κ} {A : Type ℓ} {B : Type κ} where
  continue-ok :
      (r : Result A × World) (f : A → M B) {b : B} {w' : World}
      → continue r f ≡ (ok b, w')
      → (a : A) × (v : World) × (r ≡ (ok a, v)) × (f a v ≡ (ok b, w'))
  continue-ok (ok a, v) f h = (a, v, refl, h)
  continue-ok (err e, v) f h = cc

  pub bind-ok :
      (m : M A) (f : A → M B) (w : World) {b : B} {w' : World}
      → (m >>= f) w ≡ (ok b, w')
      → (a : A) × (v : World) × (m w ≡ (ok a, v)) × (f a v ≡ (ok b, w'))
  bind-ok m f w h = continue-ok (m w) f h

  branch-ok :
      (r : Result A × World) (f : A → M B) (g : Error → M B) {b : B} {w' : World}
      → branch r f g ≡ (ok b, w')
      → ((a : A) × (v : World) × (r ≡ (ok a, v)) × (f a v ≡ (ok b, w')))
        ⊎ ((e : Error) × (v : World) × (r ≡ (err e, v)) × (g e v ≡ (ok b, w')))
  branch-ok (ok a, v) f g h = inl (a, v, refl, h)
  branch-ok (err e, v) f g h = inr (e, v, refl, h)

  pub on_error-ok :
      (m : M A) (f : A → M B) (g : Error → M B) (w : World) {b : B} {w' : World}
      → on_error m f g w ≡ (ok b, w')
      → ((a : A) × (v : World) × (m w ≡ (ok a, v)) × (f a v ≡ (ok b, w')))
        ⊎ ((e : Error) × (v : World) × (m w ≡ (err e, v)) × (g e v ≡ (ok b, w')))
  on_error-ok m f g w h = branch-ok (m w) f g h

pub Quiet-db {ℓ} :
    {A : Type ℓ} (m : M A) (w : World) {r : Result A} {w' : World}
    → Quiet m
    → m w ≡ (r, w')
    → w'.db ≡ w.db
Quiet-db m w q h = sym (ap (λ x. x.1.db) h) ∙ q.at w

module _ (p : Platform) where
  pub query-ok {ℓ} :
      {A : Type ℓ} (read : Db → Result A) (w : World) {a : A} {w' : World}
      → query p read w ≡ (ok a, w')
      → (read w.db ≡ ok a) × (w' ≡ tick w)
  unfolding query
  query-ok read w h = ground arith

  run_statement-ok {ℓ} :
      {A : Type ℓ} (w : World) (r : Result (A × Db)) {a : A} {w' : World}
      → run_statement w r ≡ (ok a, w')
      → (db : Db) × (r ≡ ok (a, db)) × (w' ≡ set_db db (tick w))
  run_statement-ok w (ok (a, db)) h = (db, ground arith, ground arith)
  run_statement-ok w (err e) h = cc

  pub statement-ok {ℓ} :
      {A : Type ℓ} (write : Db → Result (A × Db)) (w : World) {a : A} {w' : World}
      → statement p write w ≡ (ok a, w')
      → (db : Db) × (write w.db ≡ ok (a, db)) × (w' ≡ set_db db (tick w))
  unfolding statement
  statement-ok write w h = elim (Option-cases (p.sql_outcome w.calls)) [
    | inl e ↦ run_statement-ok w (write w.db) (rw (e, statement) at h)
    | inr (f, e) ↦ absurd (cc (rw (e, statement) at h))
  ]

  end_transaction-ok {ℓ} :
      {A : Type ℓ} (db : Db) (r : Result A × World) {a : A} {w' : World}
      → end_transaction p db r ≡ (ok a, w')
      → (v : World) × (r ≡ (ok a, v)) × (w' ≡ tick v)
  unfolding end_transaction
  end_transaction-ok db (err e, v) h = cc
  end_transaction-ok db (ok a, v) h = (v, ground arith, ground arith)

  pub transaction-ok {ℓ} :
      {A : Type ℓ} (body : M A) (w : World) {a : A} {w' : World}
      → transaction p body w ≡ (ok a, w')
      → (v : World) × (body (tick w) ≡ (ok a, v)) × (w' ≡ tick v)
  unfolding transaction
  transaction-ok body w h = elim (Option-cases (p.sql_outcome w.calls)) [
    | inl e ↦ end_transaction-ok w.db (body (tick w)) (rw (e, transaction) at h)
    | inr (f, e) ↦ absurd (cc (rw (e, transaction) at h))
  ]

pub guard-ok :
    (b : Bool) (e : Error) (w : World) {u : Unit {0}} {w' : World}
    → guard b e w ≡ (ok u, w')
    → (b ≡ true) × (w' ≡ w)
guard-ok b e w h = ground arith
