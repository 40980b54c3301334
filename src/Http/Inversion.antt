-- ===== src/Http/Inversion.antt =====
-- What a handler that has answered with a success went through.
use blahaj_chat_server.Common.{
  ◌≡◌, refl, Bool, true, false, Option, none, some, if◌then◌else◌, arith,
}
use blahaj_chat_server.Errors.{Error, Result, ok, err}
use blahaj_chat_server.Platform.{World, M}
use blahaj_chat_server.Http.Response.{
  Response, success, fail, Handler, respond, continue, handle, given,
}
use blahaj_chat_server.Http.Router.{Body, wrap, answer}

-- `IsFail r`: the answer reports a failure.
abbrev pub IsFail {ℓ} : {A : Type ℓ} → Response A → Type 0
IsFail (success a) = ⊥
IsFail (fail status m) = Unit {0}

fail_ne {κ} :
    {B : Type κ} (r : Response B) (w : World) {b : B} {w' : World}
    → IsFail r
    → respond r w ≡ (success b, w')
    → ⊥
fail_ne (success a) w h e = h
fail_ne (fail status m) w h e = cc

module _ {ℓ κ} {A : Type ℓ} {B : Type κ} where
  pub given-success :
      (o : Option A) (r : Response B) (h : A → Handler B) (w : World) {b : B} {w' : World}
      → IsFail r
      → given o r h w ≡ (success b, w')
      → (a : A) × (o ≡ some a) × (h a w ≡ (success b, w'))
  given-success none r h w f e = absurd (fail_ne r w f e)
  given-success (some a) r h w f e = (a, refl, e)

  continue-success :
      (r : Result A × World) (good : A → Handler B) (bad : Error → Handler B) {b : B} {w' : World}
      → ((e : Error) (v : World) → IsFail (bad e v).0)
      → continue r good bad ≡ (success b, w')
      → (a : A) × (v : World) × (r ≡ (ok a, v)) × (good a v ≡ (success b, w'))
  continue-success (ok a, v) good bad f e = (a, v, refl, e)
  continue-success (err x, v) good bad f e = absurd (fail_ne (bad x v).0 (bad x v).1 (f x v) e)

  pub handle-success :
      (m : M A) (good : A → Handler B) (bad : Error → Handler B) (w : World) {b : B} {w' : World}
      → ((e : Error) (v : World) → IsFail (bad e v).0)
      → handle m good bad w ≡ (success b, w')
      → (a : A) × (v : World) × (m w ≡ (ok a, v)) × (good a v ≡ (success b, w'))
  handle-success m good bad w f e = continue-success (m w) good bad f e

pub if-success {ℓ} :
    {B : Type ℓ} (test : Bool) (r : Response B) (h : Handler B) (w : World) {b : B} {w' : World}
    → IsFail r
    → (if test then respond r else h) w ≡ (success b, w')
    → (test ≡ false) × (h w ≡ (success b, w'))
if-success true r h w f e = absurd (fail_ne r w f e)
if-success false r h w f e = (refl, e)

answer-success_of {ℓ} :
    {A : Type ℓ} (f : A → Body) (r : Response A) (v : World) {b : Body} {w' : World}
    → respond (wrap f r) v ≡ (success b, w')
    → (a : A) × (r ≡ success a) × (b ≡ f a) × (v ≡ w')
answer-success_of f (success a) v e = (a, refl, ground arith, ground arith)
answer-success_of f (fail status m) v e = cc

-- The answer of a route is that of its handler.
pub answer-success {ℓ} :
    {A : Type ℓ} (f : A → Body) (h : Handler A) (w : World) {b : Body} {w' : World}
    → answer f h w ≡ (success b, w')
    → (a : A) × (h w ≡ (success a, w')) × (b ≡ f a)
answer-success f h w {b} {w'} e =
    let (a, r, k, same) = answer-success_of f (h w).0 (h w).1 e in (a, λ i. (r i, same i), k)
