-- ===== src/Platform/After.antt =====
-- What holds when an action returns no error, step by step.
use blahaj_chat_server.Common.{subst, ◌≡◌, refl, sym, ◌∙◌, ap, Bool, true, false, arith}
use blahaj_chat_server.Errors.{Error, Result, ok, err, is_record_not_found, record_not_found}
use blahaj_chat_server.Model.{Db}
use blahaj_chat_server.Platform.Defs.{
  Platform, World, M, pure, raise, continue, branch, guard, now, tick,
}
use blahaj_chat_server.Platform.Sql.{query, statement, transaction}
use blahaj_chat_server.Platform.Effects.{Quiet}
use blahaj_chat_server.Platform.Inversion.{query-ok, statement-ok, transaction-ok}

abbrev pub Holds {ℓ κ} : {A : Type ℓ} → (A → World → Type κ) → Result A × World → Type κ
Holds Q (ok a, w) = Q a w
Holds Q (err e, w) = Unit

-- The condition holds of the answer and the world after it, if there is an answer.
pub record After {ℓ κ} {A : Type ℓ} (r : Result A × World) (Q : A → World → Type κ) : Type κ where
  pub at : Holds Q r

module _ {ℓ κ} {A : Type ℓ} {Q : A → World → Type κ} where
  pub After-ok : {r : Result A × World} {a : A} {w : World} → After r Q → r ≡ (ok a, w) → Q a w
  After-ok {r} {a} {w} h e = subst (Holds Q) e h.at

  Holds-of : (r : Result A × World) → ((a : A) (w : World) → r ≡ (ok a, w) → Q a w) → Holds Q r
  Holds-of (ok a, w) h = h a w refl
  Holds-of (err e, w) h = tt

  pub After-of : (r : Result A × World) → ((a : A) (w : World) → r ≡ (ok a, w) → Q a w) → After r Q
  After-of r h = record { at = Holds-of r h }

  pub After-pure : (a : A) (w : World) → Q a w → After (pure a w) Q
  After-pure a w h = record { at = h }

  pub After-raise : (e : Error) (w : World) → After (raise e w) Q
  After-raise e w = record { at = tt }

module _ {ℓ κ μ ν} {A : Type ℓ} {B : Type κ} {P : A → World → Type μ} {Q : B → World → Type ν} where
  Holds-continue :
      (r : Result A × World) (f : A → M B)
      → Holds P r
      → ((a : A) (v : World) → P a v → After (f a v) Q)
      → Holds Q (continue r f)
  Holds-continue (ok a, v) f h k = (k a v h).at
  Holds-continue (err e, v) f h k = tt

  pub After-continue :
      (r : Result A × World) (f : A → M B)
      → After r P
      → ((a : A) (v : World) → P a v → After (f a v) Q)
      → After (continue r f) Q
  After-continue r f h k = record { at = Holds-continue r f h.at k }

module _ {ℓ κ ν} {A : Type ℓ} {B : Type κ} {Q : B → World → Type ν} where
  Holds-branch :
      (r : Result A × World) (f : A → M B) (g : Error → M B)
      → ((a : A) (v : World) → r ≡ (ok a, v) → After (f a v) Q)
      → ((e : Error) (v : World) → r ≡ (err e, v) → After (g e v) Q)
      → Holds Q (branch r f g)
  Holds-branch (ok a, v) f g h k = (h a v refl).at
  Holds-branch (err e, v) f g h k = (k e v refl).at

  pub After-branch :
      (r : Result A × World) (f : A → M B) (g : Error → M B)
      → ((a : A) (v : World) → r ≡ (ok a, v) → After (f a v) Q)
      → ((e : Error) (v : World) → r ≡ (err e, v) → After (g e v) Q)
      → After (branch r f g) Q
  After-branch r f g h k = record { at = Holds-branch r f g h k }

pub After-guard :
    (b : Bool) (e : Error) (w : World) → After (guard b e w) (λ _ v. (b ≡ true) × (v ≡ w))
After-guard true e w = record { at = (refl, refl) }
After-guard false e w = record { at = tt }

pub After-Quiet {ℓ} :
    {A : Type ℓ} (m : M A) (w : World)
    → Quiet m
    → After (m w) (λ a v. (m w ≡ (ok a, v)) × (v.db ≡ w.db))
After-Quiet m w q = After-of (m w) (λ a v e. (e, ap (λ x. x.1.db) (sym e) ∙ q.at w))

missing : (e : Error) → is_record_not_found e ≡ true → e ≡ record_not_found
missing record_not_found h = refl
missing _ h = cc

module _ (p : Platform) where
  pub After-now : (w : World) → After (now p w) (λ t v. (t ≡ p.clock w.calls) × (v ≡ tick w))
  unfolding now
  After-now w = record { at = (refl, refl) }

  pub After-query {ℓ} :
      {A : Type ℓ} (read : Db → Result A) (w : World)
      → After (query p read w) (λ a v. (read w.db ≡ ok a) × (v ≡ tick w))
  After-query read w = After-of (query p read w) (λ a v e. query-ok p read w e)

  pub After-statement {ℓ} :
      {A : Type ℓ} (write : Db → Result (A × Db)) (w : World)
      → After (statement p write w) (λ a v. write w.db ≡ ok (a, v.db))
  After-statement write w =
      After-of (statement p write w)
        λ a v e. let (db, h, k) = statement-ok p write w e in h ∙ ap (λ x. ok (a, x.db)) (sym k)

  pub After-transaction {ℓ κ} :
      {A : Type ℓ} (P : A → Db → Type κ) (body : M A) (w : World)
      → ((v : World) → v.db ≡ w.db → After (body v) (λ a v. P a v.db))
      → After (transaction p body w) (λ a v. P a v.db)
  After-transaction P body w h = After-of (transaction p body w) λ a v e.
      let (u, k, same) = transaction-ok p body w e in
      subst (λ x. P a x.db) (sym same) (After-ok (h (tick w) refl) k)

  -- A statement that fails has no effect.
  pub statement-err {ℓ} :
      {A : Type ℓ} (write : Db → Result (A × Db)) (w : World) {e : Error} {v : World}
      → statement p write w ≡ (err e, v)
      → v.db ≡ w.db
  unfolding statement
  statement-err {A = A} write w {e} {v} h = go (write w.db) refl
    where
      go : (r : Result (A × Db)) → write w.db ≡ r → v.db ≡ w.db
      go (ok (a, db)) k = ground arith
      go (err x) k = ground arith

  -- No row was there if a query says so.
  pub query-missing {ℓ} :
      {A : Type ℓ} (read : Db → Result A) (w : World) {e : Error} {v : World}
      → query p read w ≡ (err e, v)
      → (v ≡ tick w) × (is_record_not_found e ≡ true → read w.db ≡ err record_not_found)
  unfolding query
  query-missing read w {e} {v} h = (ground arith, λ k. ground (arith, missing e k))
