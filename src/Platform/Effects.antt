-- ===== src/Platform/Effects.antt =====
-- Which actions leave the database alone, and which do so when they fail.
use blahaj_chat_server.Common.{
  ℕ, ◌≡◌, refl, ◌∙◌, Bool, true, false, arith, inl, inr, Option-cases, subst, if◌then◌else◌, Text,
}
use blahaj_chat_server.Errors.{Error, Result, ok, err}
use blahaj_chat_server.Model.{Db}
use blahaj_chat_server.Platform.Defs.{
  Platform, World, M, pure, raise, continue, branch, ◌>>=◌, on_error, guard, now, new_id,
  unmarshal_uids, tick,
}
use blahaj_chat_server.Platform.Sql.{query, transaction, end_transaction}
use blahaj_chat_server.Platform.Redis.{
  get_value_by_key, get_cache, set_value_by_key_expire, set_nx_value_by_key_expire,
  del_value_by_key, exists_key,
}

-- The action changes no row.
pub record Quiet {ℓ} {A : Type ℓ} (m : M A) : Type ℓ where
  pub at : (w : World) → (m w).1.db ≡ w.db

-- The rows are those of `db` if the result is an error.
abbrev pub Kept {ℓ} : {A : Type ℓ} → Db → Result A × World → Type 0
Kept db (ok a, w) = Unit {0}
Kept db (err e, w) = w.db ≡ db

-- An action that returns an error has changed no row.
pub record Atomic {ℓ} {A : Type ℓ} (m : M A) : Type ℓ where
  pub at : (w : World) → Kept w.db (m w)

module _ {ℓ} {A : Type ℓ} where
  pub Quiet-pure : (a : A) → Quiet (pure a)
  Quiet-pure a = record { at = λ w. refl }

  pub Quiet-raise : (e : Error) → Quiet (raise {A = A} e)
  Quiet-raise e = record { at = λ w. refl }

  pub Quiet-if : (b : Bool) (m n : M A) → Quiet m → Quiet n → Quiet (if b then m else n)
  Quiet-if true m n h k = h
  Quiet-if false m n h k = k

  pub Atomic-if : (b : Bool) (m n : M A) → Atomic m → Atomic n → Atomic (if b then m else n)
  Atomic-if true m n h k = h
  Atomic-if false m n h k = k

  Kept-of_eq : (db : Db) (r : Result A × World) → r.1.db ≡ db → Kept db r
  Kept-of_eq db (ok a, w) h = tt
  Kept-of_eq db (err e, w) h = h

  pub Atomic-Quiet : (m : M A) → Quiet m → Atomic m
  Atomic-Quiet m h = record { at = λ w. Kept-of_eq w.db (m w) (h.at w) }

pub Quiet-guard : (b : Bool) (e : Error) → Quiet (guard b e)
Quiet-guard true e = record { at = λ w. refl }
Quiet-guard false e = record { at = λ w. refl }

module _ {ℓ κ} {A : Type ℓ} {B : Type κ} where
  Quiet-continue :
      (f : A → M B) (db : Db) (r : Result A × World)
      → ((a : A) → Quiet (f a))
      → r.1.db ≡ db
      → (continue r f).1.db ≡ db
  Quiet-continue f db (ok a, w) h e = (h a).at w ∙ e
  Quiet-continue f db (err x, w) h e = e

  Quiet-branch :
      (f : A → M B) (g : Error → M B) (db : Db) (r : Result A × World)
      → ((a : A) → Quiet (f a))
      → ((x : Error) → Quiet (g x))
      → r.1.db ≡ db
      → (branch r f g).1.db ≡ db
  Quiet-branch f g db (ok a, w) h k e = (h a).at w ∙ e
  Quiet-branch f g db (err x, w) h k e = (k x).at w ∙ e

  pub Quiet-bind : (m : M A) (f : A → M B) → Quiet m → ((a : A) → Quiet (f a)) → Quiet (m >>= f)
  Quiet-bind m f h k = record { at = λ w. Quiet-continue f w.db (m w) k (h.at w) }

  pub Quiet-on_error :
      (m : M A) (f : A → M B) (g : Error → M B)
      → Quiet m
      → ((a : A) → Quiet (f a))
      → ((x : Error) → Quiet (g x))
      → Quiet (on_error m f g)
  Quiet-on_error m f g h k j = record { at = λ w. Quiet-branch f g w.db (m w) k j (h.at w) }

  Atomic-continue :
      (f : A → M B) (db : Db) (r : Result A × World)
      → ((a : A) → Atomic (f a))
      → r.1.db ≡ db
      → Kept db (continue r f)
  Atomic-continue f db (ok a, w) h e = subst (λ d. Kept d (f a w)) e ((h a).at w)
  Atomic-continue f db (err x, w) h e = e

  -- What comes first must leave the rows alone.
  pub Atomic-bind : (m : M A) (f : A → M B) → Quiet m → ((a : A) → Atomic (f a)) → Atomic (m >>= f)
  Atomic-bind m f h k = record { at = λ w. Atomic-continue f w.db (m w) k (h.at w) }

  Atomic-branch :
      (f : A → M B) (g : Error → M B) (db : Db) (r : Result A × World)
      → ((a : A) → (w : World) → Kept db (f a w))
      → ((x : Error) → Quiet (g x))
      → Kept db r
      → Kept db (branch r f g)
  Atomic-branch f g db (ok a, w) h k e = h a w
  Atomic-branch f g db (err x, w) h k e = Kept-of_eq db (g x w) ((k x).at w ∙ e)

  -- What follows a success does not fail; what follows a failure only cleans up.
  pub Atomic-on_error :
      (m : M A) (f : A → M B) (g : Error → M B)
      → Atomic m
      → ((a : A) (w : World) (db : Db) → Kept db (f a w))
      → ((x : Error) → Quiet (g x))
      → Atomic (on_error m f g)
  Atomic-on_error m f g h k j = record {
    at = λ w. Atomic-branch f g w.db (m w) (λ a w'. k a w' w.db) j (h.at w);
  }

  Atomic-continue_then :
      (f : A → M B) (db : Db) (r : Result A × World)
      → ((a : A) (w : World) → Kept db (f a w))
      → Kept db r
      → Kept db (continue r f)
  Atomic-continue_then f db (ok a, w) h e = h a w
  Atomic-continue_then f db (err x, w) h e = e

  -- What follows does not fail.
  pub Atomic-then :
      (m : M A) (f : A → M B)
      → Atomic m
      → ((a : A) (w : World) (db : Db) → Kept db (f a w))
      → Atomic (m >>= f)
  Atomic-then m f h k = record {
    at = λ w. Atomic-continue_then f w.db (m w) (λ a v. k a v w.db) (h.at w);
  }

module _ {ℓ κ} {A : Type ℓ} {B : Type κ} where
  Atomic-branch_quiet :
      (f : A → M B) (g : Error → M B) (db : Db) (r : Result A × World)
      → ((a : A) → Atomic (f a))
      → ((x : Error) → Atomic (g x))
      → r.1.db ≡ db
      → Kept db (branch r f g)
  Atomic-branch_quiet f g db (ok a, w) h k e = subst (λ d. Kept d (f a w)) e ((h a).at w)
  Atomic-branch_quiet f g db (err x, w) h k e = subst (λ d. Kept d (g x w)) e ((k x).at w)

  -- Both ways on, after a call that only reads.
  pub Atomic-on_error-Quiet :
      (m : M A) (f : A → M B) (g : Error → M B)
      → Quiet m
      → ((a : A) → Atomic (f a))
      → ((x : Error) → Atomic (g x))
      → Atomic (on_error m f g)
  Atomic-on_error-Quiet m f g h k j = record {
    at = λ w. Atomic-branch_quiet f g w.db (m w) k j (h.at w);
  }

module _ (p : Platform) where
  pub Quiet-now : Quiet (now p)
  unfolding now
  Quiet-now = record { at = λ w. refl }

  pub Quiet-new_id : Quiet (new_id p)
  unfolding new_id
  Quiet-new_id = record { at = λ w. refl }

  pub Quiet-unmarshal_uids : (raw : Text) → Quiet (unmarshal_uids p raw)
  unfolding unmarshal_uids
  Quiet-unmarshal_uids raw = record { at = λ w. ground arith }

  pub Quiet-query {ℓ} : {A : Type ℓ} (read : Db → Result A) → Quiet (query p read)
  unfolding query
  Quiet-query read = record { at = λ w. ground arith }

  pub Quiet-get_value_by_key : (k : Text) → Quiet (get_value_by_key p k)
  unfolding get_value_by_key
  Quiet-get_value_by_key k = record { at = λ w. ground arith }

  pub Quiet-get_cache : (k : Text) → Quiet (get_cache p k)
  unfolding get_cache
  Quiet-get_cache k = record { at = λ w. ground arith }

  pub Quiet-set_value_by_key_expire :
      (k v : Text) (ttl : ℕ) → Quiet (set_value_by_key_expire p k v ttl)
  unfolding set_value_by_key_expire
  Quiet-set_value_by_key_expire k v ttl = record { at = λ w. ground arith }

  pub Quiet-set_nx_value_by_key_expire :
      (k v : Text) (ttl : ℕ) → Quiet (set_nx_value_by_key_expire p k v ttl)
  unfolding set_nx_value_by_key_expire
  Quiet-set_nx_value_by_key_expire k v ttl = record { at = λ w. ground arith }

  pub Quiet-del_value_by_key : (k : Text) → Quiet (del_value_by_key p k)
  unfolding del_value_by_key
  Quiet-del_value_by_key k = record { at = λ w. ground arith }

  pub Quiet-exists_key : (k : Text) → Quiet (exists_key p k)
  unfolding exists_key
  Quiet-exists_key k = record { at = λ w. ground arith }

  Kept-end_transaction {ℓ} :
      {A : Type ℓ} (db : Db) (r : Result A × World) → Kept db (end_transaction p db r)
  unfolding end_transaction
  Kept-end_transaction db (err e, w) = refl
  Kept-end_transaction db (ok a, w) = elim (Option-cases (p.sql_outcome w.calls)) [
    | inl e ↦ rw (e, end_transaction) tt
    | inr (f, e) ↦ rw (e, end_transaction) refl
  ]

  -- A transaction is undone by any error in it, and by a failed commit.
  pub Atomic-transaction {ℓ} : {A : Type ℓ} (body : M A) → Atomic (transaction p body)
  unfolding transaction
  Atomic-transaction body = record {
    at = λ w. elim (Option-cases (p.sql_outcome w.calls)) [
      | inl e ↦ rw (e, transaction) (Kept-end_transaction w.db (body (tick w)))
      | inr (f, e) ↦ rw (e, transaction) refl
    ];
  }

pub ruleset quiet_rules = (
  Quiet-pure, Quiet-raise, Quiet-guard, Quiet-if, Quiet-bind, Quiet-on_error, Quiet-now,
  Quiet-new_id, Quiet-unmarshal_uids, Quiet-query, Quiet-get_value_by_key, Quiet-get_cache,
  Quiet-set_value_by_key_expire, Quiet-set_nx_value_by_key_expire, Quiet-del_value_by_key,
  Quiet-exists_key,
)

pub ruleset atomic_rules = (Atomic-if, Atomic-bind, Atomic-on_error-Quiet, Atomic-transaction)
