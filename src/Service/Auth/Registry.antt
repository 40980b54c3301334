-- ===== src/Service/Auth/Registry.antt =====
-- auth.go: each operation on sessions keeps every refresh token that Redis holds in the set of its user.
use blahaj_chat_server.Common.{
  ℕ, suc, ◌+◌, ◌*◌, ◌-◌, ◌≡◌, refl, sym, subst, Option, none, some, [], ◌∷◌, ◌⊎◌, inl, inr, Text,
  codes, insert, text_eq_instance, format_uint, parse_uint, arith, Bool-cases, ltb,
}
use blahaj_chat_server.Errors.{Result, ok, err, invalid_refresh}
use blahaj_chat_server.Model.{Instant, UserId}
use blahaj_chat_server.Platform.{Platform, World, tick, raise, now, new_id}
use blahaj_chat_server.Platform.Redis.{command, live, set_value_by_key_expire, del_value_by_key}
use blahaj_chat_server.Service.Auth.{
  Tokens, day, refresh_key, user_session_key, set_add, silently, get_key, set_remove, add_to_set,
  generate_access_token, issue_token_pair, rotate, refresh, refresh_for, refuse_until, blacklist,
  logout,
}
use blahaj_chat_server.Service.Auth.Sessions.{
  after_delete, logout-after_delete, rotate-after_delete,
}
use blahaj_chat_server.Service.Auth.Listed.{
  session_key, members_of, IsListed, insert-AreListed, delete-AreListed, other-AreListed, leaves,
}

module _ (p : Platform) (sound : (n : ℕ) → p.redis_outcome n ≡ none) where
  -- What a call of `IssueTokenPair` leaves: nothing, or a token that is stored and listed.
  Issued : Tokens → UserId → World → World → Type 0
  Issued t uid w w' =
      ((w'.strings ≡ w.strings) × (w'.sets ≡ w.sets))
      ⊎ ((token : Text) × (exp : Option Instant) × (w'.strings
            ≡ insert (refresh_key token) (record { value = format_uint uid; expires = exp })
                w.strings)
          × (w'.sets
              ≡ insert (session_key (format_uint uid))
                  (set_add token (members_of (session_key (format_uint uid)) w.sets)) w.sets))

  issue-Issued :
      (t : Tokens) (uid : UserId) (w : World) → Issued t uid w (issue_token_pair p t uid w).1
  unfolding issue_token_pair generate_access_token new_id now set_value_by_key_expire add_to_set
      silently session_key user_session_key members_of Issued
  issue-Issued t uid w = signed _ refl
    where
      n : ℕ
      n = suc (suc (suc (suc w.calls)))

      signed :
          (r : Result Text)
          → (generate_access_token p t uid w).0 ≡ r
          → Issued t uid w (issue_token_pair p t uid w).1
      signed (err f) e = inl (ground (arith, e), ground (arith, e))
      signed (ok access) e = inr (
        p.random_id (suc (suc (suc w.calls))),
        some (p.clock n + t.refresh_ttl_days * day),
        ground (arith, e, sound n, sound (suc n)),
        ground (arith, e, sound n, sound (suc n)),
      )

  pub issue-IsListed :
      (t : Tokens) (uid : UserId) (w : World) → IsListed w → IsListed (issue_token_pair p t uid w).1
  unfolding Issued
  issue-IsListed t uid w h = elim (issue-Issued t uid w) [
    | inl same ↦ leaves _ same.0 same.1 h.at
    | inr found ↦
        let (token, exp, a, b) = found in
        leaves _ a b (insert-AreListed token (format_uint uid) exp w.strings w.sets h.at)
  ]

  after_delete-IsListed :
      (uid : UserId) (token : Text) (w : World)
      → IsListed w
      → IsListed (after_delete p sound uid token w)
  unfolding after_delete del_value_by_key set_remove silently members_of
  after_delete-IsListed uid token w h =
      leaves _ (ground (arith, sound w.calls, sound (suc w.calls)))
        (ground (arith, sound w.calls, sound (suc w.calls)))
        (delete-AreListed token (user_session_key uid) w.strings w.sets h.at)

  pub blacklist-IsListed :
      (jti : Text) (exp : Instant) (w : World) → IsListed w → IsListed (blacklist p jti exp w).1
  unfolding blacklist now refuse_until silently
  blacklist-IsListed [] exp w h = h
  blacklist-IsListed (c ∷ jti) exp w h = elim (Bool-cases (ltb (p.clock w.calls) exp)) [
    | inl e ↦
        leaves _ (ground (arith, e, sound (suc w.calls))) (ground (arith, e, sound (suc w.calls))) (
          other-AreListed (c ∷ jti)
            (record {
              value = codes "1";
              expires = some (p.clock (suc w.calls) + (exp - p.clock w.calls));
            })
            w.strings w.sets h.at)
    | inr e ↦ leaves _ (ground (arith, e)) (ground (arith, e)) h.at
  ]

  rotate-IsListed :
      (t : Tokens) (uid : UserId) (token : Text) (w : World)
      → IsListed w
      → IsListed (rotate p t token uid w).1
  rotate-IsListed t uid token w h =
      subst (λ r. IsListed r.1) (sym (rotate-after_delete p sound t uid token w))
        (issue-IsListed t uid _ (after_delete-IsListed uid token w h))

  refresh_for-IsListed :
      (t : Tokens) (token : Text) (found : Option Text) (w : World)
      → IsListed w
      → IsListed (refresh_for p t token found w).1
  refresh_for-IsListed t token none w h = h
  refresh_for-IsListed t token (some raw) w h = parsed (parse_uint raw) refl
    where
      parsed : (o : Option ℕ) → parse_uint raw ≡ o → IsListed (refresh_for p t token (some raw) w).1
      parsed none e =
          let run : refresh_for p t token (some raw) w ≡ raise invalid_refresh w =
            ground (arith, e) in
          subst (λ r. IsListed r.1) (sym run) h
      parsed (some uid) e =
          let run : refresh_for p t token (some raw) w ≡ rotate p t token uid w =
            ground (arith, e) in
          subst (λ r. IsListed r.1) (sym run) (rotate-IsListed t uid token w h)

  pub refresh-IsListed :
      (t : Tokens) (token : Text) (w : World) → IsListed w → IsListed (refresh p t token w).1
  unfolding refresh get_key command
  refresh-IsListed t token w h =
      let found = live (p.clock w.calls) (refresh_key token) w in
      let run : refresh p t token w ≡ refresh_for p t token found (tick w) =
        ground (arith, sound w.calls) in
      subst (λ r. IsListed r.1) (sym run)
        (refresh_for-IsListed t token found (tick w) (record { at = h.at }))

  pub logout-IsListed :
      (uid : UserId) (token jti : Text) (exp : Instant) (w : World)
      → IsListed w
      → IsListed (logout p uid token jti exp w).1
  unfolding logout
  logout-IsListed uid [] jti exp w h = blacklist-IsListed jti exp w h
  logout-IsListed uid (c ∷ token) jti exp w h =
      subst (λ r. IsListed r.1)
        (sym (logout-after_delete p sound uid (c ∷ token) jti exp w (λ e. ground (arith, e))))
        (blacklist-IsListed jti exp _ (after_delete-IsListed uid (c ∷ token) w h))
