-- ===== src/Http/Rows.antt =====
-- What an answer says of the rows: one that reports a failure has changed none of them, but for the
-- handler of new group members, which reads again after its transaction.
use blahaj_chat_server.Common.{
  ◌≡◌, refl, Bool, true, false, Option, none, some, if◌then◌else◌, subst,
}
use blahaj_chat_server.Errors.{Error, Result, ok, err}
use blahaj_chat_server.Model.{Db}
use blahaj_chat_server.Platform.{World, M}
use blahaj_chat_server.Platform.Effects.{Quiet, Atomic, Kept}
use blahaj_chat_server.Http.Response.{
  Response, success, fail, Handler, respond, continue, handle, given,
}
use blahaj_chat_server.Http.Router.{Body, wrap, answer}

-- A failure leaves the rows of `db`.
abbrev pub Unchanged {ℓ} : {A : Type ℓ} → Db → Response A × World → Type 0
Unchanged db (success a, w) = Unit {0}
Unchanged db (fail status m, w) = w.db ≡ db

pub record Spares {ℓ} {A : Type ℓ} (h : Handler A) : Type ℓ where
  pub at : (w : World) → Unchanged w.db (h w)

-- The handler always reports a success.
abbrev IsSuccess {ℓ} : {A : Type ℓ} → Response A → Type 0
IsSuccess (success a) = Unit {0}
IsSuccess (fail status m) = ⊥

pub record Succeeds {ℓ} {A : Type ℓ} (h : Handler A) : Type ℓ where
  pub at : (w : World) → IsSuccess (h w).0

module _ {ℓ} {A : Type ℓ} where
  Unchanged-respond : (r : Response A) (w : World) → Unchanged w.db (r, w)
  Unchanged-respond (success a) w = tt
  Unchanged-respond (fail status m) w = refl

  pub Spares-respond : (r : Response A) → Spares (respond r)
  Spares-respond r = record { at = λ w. Unchanged-respond r w }

  pub Succeeds-respond : (a : A) → Succeeds (respond (success a))
  Succeeds-respond a = record { at = λ w. tt }

  pub Spares-if : (b : Bool) (h k : Handler A) → Spares h → Spares k → Spares (if b then h else k)
  Spares-if true h k x y = x
  Spares-if false h k x y = y

  Unchanged-success : (db : Db) (r : Response A × World) → IsSuccess r.0 → Unchanged db r
  Unchanged-success db (success a, w) h = tt
  Unchanged-success db (fail status m, w) h = absurd h

  Unchanged-wrap :
      (f : A → Body) (db : Db) (r : Response A) (w : World)
      → Unchanged db (r, w)
      → Unchanged db (wrap f r, w)
  Unchanged-wrap f db (success a) w h = tt
  Unchanged-wrap f db (fail status m) w h = h

  pub Spares-answer : (f : A → Body) (h : Handler A) → Spares h → Spares (answer f h)
  Spares-answer f h s = record { at = λ w. Unchanged-wrap f w.db (h w).0 (h w).1 (s.at w) }

module _ {ℓ κ} {A : Type ℓ} {B : Type κ} where
  pub Spares-given :
      (o : Option A) (r : Response B) (h : A → Handler B)
      → ((a : A) → Spares (h a))
      → Spares (given o r h)
  Spares-given none r h s = Spares-respond r
  Spares-given (some a) r h s = s a

  Unchanged-quiet :
      (db : Db) (r : Result A × World) (good : A → Handler B) (bad : Error → Handler B)
      → ((a : A) → Spares (good a))
      → ((e : Error) → Spares (bad e))
      → r.1.db ≡ db
      → Unchanged db (continue r good bad)
  Unchanged-quiet db (ok a, w) good bad g b e = subst (λ d. Unchanged d (good a w)) e ((g a).at w)
  Unchanged-quiet db (err x, w) good bad g b e = subst (λ d. Unchanged d (bad x w)) e ((b x).at w)

  -- After a call that changes no row.
  pub Spares-handle-Quiet :
      (m : M A) (good : A → Handler B) (bad : Error → Handler B)
      → Quiet m
      → ((a : A) → Spares (good a))
      → ((e : Error) → Spares (bad e))
      → Spares (handle m good bad)
  Spares-handle-Quiet m good bad q g b = record {
    at = λ w. Unchanged-quiet w.db (m w) good bad g b (q.at w);
  }

  Unchanged-atomic :
      (db : Db) (r : Result A × World) (good : A → Handler B) (bad : Error → Handler B)
      → ((a : A) → Succeeds (good a))
      → ((e : Error) → Spares (bad e))
      → Kept db r
      → Unchanged db (continue r good bad)
  Unchanged-atomic db (ok a, w) good bad g b k = Unchanged-success db (good a w) ((g a).at w)
  Unchanged-atomic db (err x, w) good bad g b k = subst (λ d. Unchanged d (bad x w)) k ((b x).at w)

  -- After a call that changes rows only if it returns no error, when what follows it cannot fail.
  pub Spares-handle :
      (m : M A) (good : A → Handler B) (bad : Error → Handler B)
      → Atomic m
      → ((a : A) → Succeeds (good a))
      → ((e : Error) → Spares (bad e))
      → Spares (handle m good bad)
  Spares-handle m good bad q g b = record {
    at = λ w. Unchanged-atomic w.db (m w) good bad g b (q.at w);
  }

  Succeeds-continue :
      (r : Result A × World) (good : A → Handler B) (bad : Error → Handler B)
      → ((a : A) → Succeeds (good a))
      → ((e : Error) → Succeeds (bad e))
      → IsSuccess (continue r good bad).0
  Succeeds-continue (ok a, w) good bad g b = (g a).at w
  Succeeds-continue (err e, w) good bad g b = (b e).at w

  pub Succeeds-handle :
      (m : M A) (good : A → Handler B) (bad : Error → Handler B)
      → ((a : A) → Succeeds (good a))
      → ((e : Error) → Succeeds (bad e))
      → Succeeds (handle m good bad)
  Succeeds-handle m good bad g b = record { at = λ w. Succeeds-continue (m w) good bad g b }

pub ruleset spare_rules =
    (Spares-respond, Spares-if, Spares-answer, Spares-given, Succeeds-respond, Succeeds-handle)
