-- ===== src/Http/Register.antt =====
-- The handler of registrations in internal/handler/user.go.
use blahaj_chat_server.Common.{
  ℕ, suc, ◌≡◌, ◌≢◌, refl, sym, ◌∙◌, ap, subst, Bool, true, false, not, Option, none, some, Text, [],
  text_eq, text_eq_iff, text_eq_refl, lookup, lookup-without, text_eq_instance, arith,
}
use blahaj_chat_server.Errors.{Error, ok}
use blahaj_chat_server.Model.{User}
use blahaj_chat_server.Platform.{Platform, World, tick}
use blahaj_chat_server.Platform.Redis.{live, exists_key, get_value_by_key, del_value_by_key}
use blahaj_chat_server.Platform.After.{After-ok}
use blahaj_chat_server.Dao.User.{Collation}
use blahaj_chat_server.Service.Email.{email_code_key}
use blahaj_chat_server.Service.User.{Bcrypt, RegisterReq, register}
use blahaj_chat_server.Service.User.Register.{Registered, After-register}
use blahaj_chat_server.Http.Response.{success, handle, respond}
use blahaj_chat_server.Http.Inversion.{IsFail, handle-success, if-success}
use blahaj_chat_server.Http.Auth.{
  UserResp, register_failure, to_user_resp, register_user, check_code, register_handler,
}

register_failure-IsFail : (e : Error) → IsFail (register_failure e)
register_failure-IsFail Error.email_taken = tt
register_failure-IsFail _ = tt

not-false : (b : Bool) → not b ≡ false → b ≡ true
not-false true e = refl
not-false false e = cc

module _ (p : Platform) (c : Collation) (b : Bcrypt) (req : RegisterReq) where
  used_up :
      (u : User) (w : World) {resp : UserResp} {w' : World}
      → handle
          (del_value_by_key p (email_code_key req.email))
          (λ _. respond (success (to_user_resp u)))
          (λ _. respond (success (to_user_resp u)))
          w
        ≡ (success resp, w')
      → (resp ≡ to_user_resp u)
        × (w'.db ≡ w.db)
        × (((n : ℕ) → p.redis_outcome n ≡ none)
            → lookup (email_code_key req.email) w'.strings ≡ none)
  unfolding del_value_by_key
  used_up u w {resp} {w'} e = (
    ground arith,
    ground arith,
    λ sound. ground (
      arith,
      sound w.calls,
      lookup-without (email_code_key req.email) (email_code_key req.email) w.strings,
      text_eq_refl (email_code_key req.email),
    ),
  )

  looked_up :
      (w : World) {r : Bool} {v : World}
      → exists_key p (email_code_key req.email) w ≡ (ok r, v)
      → v ≡ tick w
  unfolding exists_key
  looked_up w e = ground arith

  read_code :
      (w : World) {code : Text} {v : World}
      → get_value_by_key p (email_code_key req.email) w ≡ (ok code, v)
      → code ≢ []
      → (live (p.clock w.calls) (email_code_key req.email) w ≡ some code) × (v.db ≡ w.db)
  unfolding get_value_by_key
  read_code w {code} {v} e n = read_lem (live (p.clock w.calls) (email_code_key req.email) w) refl
    where
      read_lem :
          (o : Option Text)
          → live (p.clock w.calls) (email_code_key req.email) w ≡ o
          → (live (p.clock w.calls) (email_code_key req.email) w ≡ some code) × (v.db ≡ w.db)
      read_lem none k = absurd (n (ground arith))
      read_lem (some s) k = (ground arith, ground arith)

  -- A registration that is answered with a success was made with the code that Redis held for the address
  -- when it was read. Nobody had the address; the answer describes the new user, who has the next id, the
  -- given address and nickname, and a hash of the password; no other row changes. The code is gone
  -- afterwards if Redis answers.
  pub register_handler_ok :
      (w : World) {resp : UserResp} {w' : World}
      → req.email_code ≢ []
      → register_handler p c b (some req) w ≡ (success resp, w')
      → (u : User) × (resp ≡ to_user_resp u)
        × Registered c b req w.db u w'.db
        × (live (p.clock (suc w.calls)) (email_code_key req.email) w ≡ some req.email_code)
        × (((n : ℕ) → p.redis_outcome n ≡ none)
            → lookup (email_code_key req.email) w'.strings ≡ none)
  unfolding register_handler check_code register_user live
  register_handler_ok w {resp} {w'} n e =
      let (exists, v, looked, more) =
        handle-success (exists_key p (email_code_key req.email)) _ _ w (λ e x. tt) e in
      let (there, checks) = if-success (not exists) _ _ v tt more in
      let (code, x, got, compares) =
        handle-success (get_value_by_key p (email_code_key req.email)) _ _ v (λ e x. tt) checks in
      let (equal, registers) = if-success (not (text_eq code req.email_code)) _ _ x tt compares in
      let (u, y, registered, deletes) =
        handle-success (register p c b req) _ _ x (λ e x. register_failure-IsFail e) registers in
      let same = (text_eq_iff code req.email_code).0 (not-false _ equal) in
      let (described, rows, gone) = used_up u y deletes in
      let first : v ≡ tick w = looked_up w looked in
      let (held, read) = read_code v got (subst (λ z. z ≢ []) (sym same) n) in
      (
        u,
        described,
        subst (λ d. Registered c b req d u w'.db) (read ∙ ap (λ z. z.db) first)
            (subst (λ d. Registered c b req x.db u d) (sym rows)
              (After-ok (After-register c b req p x) registered)),
        subst (λ (z : World). live (p.clock z.calls) (email_code_key req.email) z ≡ some code) first
              held
            ∙ ap (λ z. some z) same,
        gone,
      )
