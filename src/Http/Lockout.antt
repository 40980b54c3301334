-- ===== src/Http/Lockout.antt =====
-- A logout over HTTP, and what its access token is good for afterwards.
use blahaj_chat_server.Common.{
  ℕ, suc, ◌≤◌, ◌<◌, ◌≡◌, ◌≢◌, refl, sym, ◌∙◌, ap, true, Option, none, some, Text, [], ◌∷◌, arith,
  lookup, text_eq_instance,
}
use blahaj_chat_server.Errors.{Result, ok, err}
use blahaj_chat_server.Model.{Instant}
use blahaj_chat_server.Platform.{World, tick}
use blahaj_chat_server.Service.Auth.{blacklist_key, is_access_blacklisted, logout}
use blahaj_chat_server.Service.Auth.Lockout.{
  logout-IsRefused, IsRefused-is_access_blacklisted, IsRefused-same,
}
use blahaj_chat_server.Http.Response.{
  Message, Response, success, fail, Handler, Caller, respond, continue,
}
use blahaj_chat_server.Http.Auth.{logout_handler, text_or_empty, number_or_zero}
use blahaj_chat_server.Http.Inversion.{answer-success}
use blahaj_chat_server.Http.Router.{
  Server, AccessClaims, Credentials, Guarded, Request, Body, extract_token, caller_of,
  parse_access_token, jwt_auth, serve_guarded, serve,
}
use blahaj_chat_server.Http.Access.{jwt_auth-Admitted}

handled_world {ℓ κ} :
    {A : Type ℓ} {B : Type κ} (r : Result A × World) (x y : Response B)
    → (continue r (λ _. respond x) (λ _. respond y)).1 ≡ r.1
handled_world (ok a, w) x y = refl
handled_world (err e, w) x y = refl

module _ (s : Server) where
  -- A token whose claims are refused gets nowhere.
  turned_away :
      {A : Type 0} (c : Credentials) (k : AccessClaims) (next : Caller → Handler A) (v : World)
      → ((t : Instant) (a : AccessClaims) → s.parse t (extract_token c) ≡ ok a → a ≡ k)
      → is_access_blacklisted s.platform k.id (tick v) ≡ (ok true, tick (tick v))
      → (m : Message) × ((jwt_auth s c next v).0 ≡ fail 401 m)
  unfolding jwt_auth parse_access_token
  turned_away {A} c k next v only refused = with_token (extract_token c) refl
    where
      Away : Type 0
      Away = (m : Message) × ((jwt_auth s c next v).0 ≡ fail 401 m)

      with_token : (t : Text) → extract_token c ≡ t → Away
      with_token [] e = (Message.no_token, ground arith)
      with_token (x ∷ t) e = with_claims (s.parse (s.platform.clock v.calls) (extract_token c)) refl
        where
          with_claims :
              (o : Result AccessClaims)
              → s.parse (s.platform.clock v.calls) (extract_token c) ≡ o
              → Away
          with_claims (err f) k = (Message.of_token_error f, ground arith)
          with_claims (ok a) h =
              (Message.token_refused, ground (arith, only (s.platform.clock v.calls) a h))

  -- What the logout leaves behind.
  logged_out :
      (body : Option Text) (caller : Caller) (w : World) {b : Body} {w' : World}
      → serve_guarded s (Guarded.post_logout body) caller w ≡ (success b, w')
      → w'
        ≡ (logout s.platform
            (number_or_zero caller.user_id)
            (text_or_empty body)
            (text_or_empty caller.jti)
            (number_or_zero caller.exp)
            w).1
  unfolding serve_guarded logout_handler
  logged_out body caller w e =
      let (a, k, same) = answer-success Body.done (logout_handler s.platform caller body) w e in
      sym (ap (λ r. r.1) k)
      ∙ handled_world
          (logout s.platform (number_or_zero caller.user_id) (text_or_empty body)
            (text_or_empty caller.jti) (number_or_zero caller.exp) w)
          (success tt) (success tt)

  module _ (sound : (n : ℕ) → s.platform.redis_outcome n ≡ none)
      (later : (m n : ℕ) → m ≤ n → s.platform.clock m ≤ s.platform.clock n) where
    -- After a logout with a token that expires, as long as Redis answers and keeps what the logout has
    -- written, and until the token expires, no guarded route lets anybody in with that token: the
    -- answer has the status 401. The clock does not run backwards, and a token that can be read is
    -- always read as the same claims.
    pub serve_logged_out :
        (c : Credentials) (k : AccessClaims) (exp : Instant) (body : Option Text) (r : Guarded)
        → (w v : World) {b : Body} {w' : World}
        → ((t : Instant) (a : AccessClaims) → s.parse t (extract_token c) ≡ ok a → a ≡ k)
        → k.expires_at ≡ some exp
        → k.id ≢ []
        → serve s (Request.guarded c (Guarded.post_logout body)) w ≡ (success b, w')
        → w'.calls ≤ v.calls
        → lookup (blacklist_key k.id) v.strings ≡ lookup (blacklist_key k.id) w'.strings
        → s.platform.clock (suc v.calls) < exp
        → (m : Message) × ((serve s (Request.guarded c r) v).0 ≡ fail 401 m)
    unfolding serve
    serve_logged_out c k exp body r w v {b} {w'} only expires named out after kept early =
        let a = jwt_auth-Admitted s c (serve_guarded s (Guarded.post_logout body)) w out in
        let same = only _ a.claims a.parsed in
        let u = a.world in
        let left : w' ≡ (logout s.platform k.user_id (text_or_empty body) k.id exp u).1 =
          logged_out body (caller_of a.claims) u a.goes_on
          ∙ ap
              (λ (x : AccessClaims).
                (logout s.platform x.user_id (text_or_empty body) x.id (number_or_zero x.expires_at)
                  u).1)
              same
          ∙ ap
              (λ (o : Option Instant).
                (logout s.platform k.user_id (text_or_empty body) k.id (number_or_zero o) u).1)
              expires in
        let refused =
          logout-IsRefused s.platform sound later k.user_id (text_or_empty body) k.id exp u
            (suc v.calls) named (omega (arith, ap (λ (x : World). x.calls) left)) early in
        turned_away c k (serve_guarded s r) v only (
          IsRefused-is_access_blacklisted s.platform sound later k.id (tick v) named (
            IsRefused-same s.platform k.id (s.platform.clock (suc v.calls)) (tick v) _
              (kept ∙ ap (λ x. lookup (blacklist_key k.id) x.strings) left) refused))
