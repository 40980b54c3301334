-- ===== src/Service/Auth/Sessions.antt =====
-- auth.go: a refresh token is good for one refresh, and for none after a logout.
use blahaj_chat_server.Common.{
  ℕ, suc, ◌+◌, ◌-◌, ◌*◌, ◌≡◌, ◌≢◌, refl, sym, ◌∙◌, ap, subst, false, Option, none, some, [], ◌∷◌,
  Text, codes, text_eq, text_eq_iff, text_eq_refl, lookup, insert, lookup-insert, lookup-without,
  text_eq_instance, format_uint, parse_uint, arith, Bool-cases, inl, inr,
}
use blahaj_chat_server.Errors.{ok, err, invalid_refresh}
use blahaj_chat_server.Model.{Instant, UserId}
use blahaj_chat_server.Platform.{Platform, World, Entry, tick, now, new_id}
use blahaj_chat_server.Platform.Redis.{live, set_value_by_key_expire, del_value_by_key}
use blahaj_chat_server.Service.Auth.{
  day, minute, Tokens, TokenPair, refresh_key, blacklist_key, user_session_key, silently, get_key,
  set_remove, add_to_set, generate_access_token, issue_token_pair, rotate, refresh, refuse_until,
  blacklist, logout,
}

-- Nobody holds the refresh token.
abbrev pub IsSpent : Text → World → Type 0
IsSpent token w = lookup (refresh_key token) w.strings ≡ none

module _ (p : Platform) (t : Tokens) where
  refused :
      (token : Text) (w : World)
      → p.redis_outcome w.calls ≡ none
      → IsSpent token w
      → (refresh p t token w).0 ≡ err invalid_refresh
  unfolding refresh get_key live
  refused token w h k = ground arith

pub refresh_keys : (a b : Text) → text_eq (refresh_key a) (refresh_key b) ≡ text_eq a b
unfolding refresh_key text_eq
refresh_keys a b = refl

text_ne : (a b : Text) → a ≢ b → text_eq a b ≡ false
text_ne a b n = elim (Bool-cases (text_eq a b)) [
  | inl e ↦ absurd (n ((text_eq_iff a b).0 e))
  | inr e ↦ e
]

pub other_key : (jti token : Text) → text_eq (blacklist_key jti) (refresh_key token) ≡ false
unfolding blacklist_key refresh_key text_eq
other_key jti token = refl

module _ (p : Platform) (sound : (n : ℕ) → p.redis_outcome n ≡ none) where
  IsSpent-del_value_by_key :
      (token : Text) (w : World) → IsSpent token (del_value_by_key p (refresh_key token) w).1
  unfolding del_value_by_key
  IsSpent-del_value_by_key token w = ground (
    arith,
    sound w.calls,
    lookup-without (refresh_key token) (refresh_key token) w.strings,
    text_eq_refl (refresh_key token),
  )

  IsSpent-set_remove :
      (key v token : Text) (w : World) → IsSpent token w → IsSpent token (set_remove p key v w).1
  unfolding set_remove silently
  IsSpent-set_remove key v token w h = ground arith

  IsSpent-blacklist :
      (jti token : Text) (exp : Instant) (w : World)
      → IsSpent token w
      → IsSpent token (blacklist p jti exp w).1
  unfolding blacklist now refuse_until silently
  IsSpent-blacklist jti token exp w h = ground (
    arith,
    lookup-insert (blacklist_key jti) (refresh_key token)
        (record {
          value = codes "1";
          expires = some (p.clock (suc w.calls) + (exp - p.clock w.calls));
        })
        w.strings,
    other_key jti token,
  )

  -- The old token is deleted, and then what follows runs.
  unfoldable pub after_delete : UserId → Text → World → World
  after_delete uid token w =
      (set_remove p (user_session_key uid) token (del_value_by_key p (refresh_key token) w).1).1

  IsSpent-after_delete :
      (uid : UserId) (token : Text) (w : World) → IsSpent token (after_delete uid token w)
  unfolding after_delete
  IsSpent-after_delete uid token w =
      IsSpent-set_remove (user_session_key uid) token token _ (IsSpent-del_value_by_key token w)

  del_ok :
      (key : Text) (w : World) → del_value_by_key p key w ≡ (ok tt, (del_value_by_key p key w).1)
  unfolding del_value_by_key
  del_ok key w = ground arith

  remove_ok : (key v : Text) (w : World) → set_remove p key v w ≡ (ok tt, (set_remove p key v w).1)
  unfolding set_remove silently
  remove_ok key v w = ground arith

  pub logout-after_delete :
      (uid : UserId) (token jti : Text) (exp : Instant) (w : World)
      → token ≢ []
      → logout p uid token jti exp w ≡ blacklist p jti exp (after_delete uid token w)
  unfolding logout after_delete
  logout-after_delete uid [] jti exp w n = absurd (n refl)
  logout-after_delete uid (c ∷ token) jti exp w n = ground (
    arith,
    del_ok (refresh_key (c ∷ token)) w,
    remove_ok (user_session_key uid) (c ∷ token) (del_value_by_key p (refresh_key (c ∷ token)) w).1,
  )

  pub rotate-after_delete :
      (t : Tokens) (uid : UserId) (token : Text) (w : World)
      → rotate p t token uid w ≡ issue_token_pair p t uid (after_delete uid token w)
  unfolding rotate after_delete
  rotate-after_delete t uid token w = ground (
    arith,
    del_ok (refresh_key token) w,
    remove_ok (user_session_key uid) token (del_value_by_key p (refresh_key token) w).1,
  )

  -- A refresh token that was given to a logout is refused afterwards, as long as Redis answers.
  pub logout-refused :
      (t : Tokens) (uid : UserId) (token jti : Text) (exp : Instant) (w : World)
      → token ≢ []
      → (refresh p t token (logout p uid token jti exp w).1).0 ≡ err invalid_refresh
  logout-refused t uid token jti exp w n =
      let w' = (logout p uid token jti exp w).1 in
      let same = ap (λ r. r.1) (logout-after_delete uid token jti exp w n) in
      refused p t token w' (sound w'.calls) (
        subst (IsSpent token) (sym same) (
          IsSpent-blacklist jti token exp (after_delete uid token w)
            (IsSpent-after_delete uid token w)))

  module _ (t : Tokens) where
    -- What a pair that was issued leaves in Redis.
    issued :
        (uid : UserId) (w : World) {pair : TokenPair} {w' : World}
        → issue_token_pair p t uid w ≡ (ok pair, w')
        → (e : Instant) × (w'.strings
            ≡ insert
                (refresh_key pair.refresh_token)
                (record { value = format_uint uid; expires = some e })
                w.strings)
    unfolding issue_token_pair generate_access_token new_id now set_value_by_key_expire add_to_set
        silently
    issued uid w h =
        let n = suc (suc (suc (suc w.calls))) in
        (p.clock n + t.refresh_ttl_days * day, ground (arith, sound n, sound (suc n)))

    -- A pair is issued while Redis answers and the access token can be signed.
    pub issue-ok :
        (signs : (jti : Text) (uid : UserId) (from until : Instant)
          → (access : Text) × (t.sign jti uid from until ≡ ok access))
        (uid : UserId) (w : World)
        → (pair : TokenPair) × (w' : World) × (e : Instant) × (issue_token_pair p t uid w
            ≡ (ok pair, w'))
          × (lookup (refresh_key pair.refresh_token) w'.strings
              ≡ some (record { value = format_uint uid; expires = some e }))
    unfolding issue_token_pair generate_access_token new_id now set_value_by_key_expire add_to_set
        silently
    issue-ok signs uid w =
        let n = w.calls in
        let (access, signed) =
          signs (p.random_id n) uid (p.clock (suc n))
            (p.clock (suc (suc n)) + t.access_ttl_minutes * minute) in
        let token = p.random_id (suc (suc (suc n))) in
        let pair : TokenPair = record {
          access_token = access;
          refresh_token = token;
          expires_in = t.access_ttl_minutes * 60;
        } in
        let w' = (issue_token_pair p t uid w).1 in
        let run : issue_token_pair p t uid w ≡ (ok pair, w') =
          ground (
            arith,
            signed,
            sound (suc (suc (suc (suc n)))),
            sound (suc (suc (suc (suc (suc n))))),
          ) in
        let (e, same) = issued uid w {pair = pair} {w' = w'} run in
        let entry : Entry = record { value = format_uint uid; expires = some e } in
        (
          pair,
          w',
          e,
          run,
          ap (λ m. lookup (refresh_key token) m) same
              ∙ lookup-insert (refresh_key token) (refresh_key token) entry w.strings
              ∙ rw (text_eq_refl (refresh_key token)),
        )

    refresh-found :
        (token : Text) (w : World) {pair : TokenPair} {w' : World}
        → refresh p t token w ≡ (ok pair, w')
        → (raw : Text) × (uid : UserId) × (live (p.clock w.calls) (refresh_key token) w ≡ some raw)
          × (parse_uint raw ≡ some uid)
          × (rotate p t token uid (tick w) ≡ (ok pair, w'))
    unfolding refresh get_key live
    refresh-found token w {pair} {w'} h = held (live (p.clock w.calls) (refresh_key token) w) refl
      where
        Found : Type 0
        Found =
            (raw : Text) × (uid : UserId) × (live (p.clock w.calls) (refresh_key token) w
              ≡ some raw)
            × (parse_uint raw ≡ some uid)
            × (rotate p t token uid (tick w) ≡ (ok pair, w'))

        held : (o : Option Text) → live (p.clock w.calls) (refresh_key token) w ≡ o → Found
        held none e = absurd (ground (arith, sound w.calls))
        held (some raw) e = parsed (parse_uint raw) refl
          where
            parsed : (o : Option ℕ) → parse_uint raw ≡ o → Found
            parsed none k = absurd (ground (arith, sound w.calls))
            parsed (some uid) k = (raw, uid, e, k, ground (arith, sound w.calls))

    -- A refresh that succeeds, while Redis answers, was of a token that Redis held for a user; the new
    -- token is held for the same user, and the old one is refused in each later state in which nothing
    -- has been stored under its key again.
    pub refresh-rotates :
        (token : Text) (w v : World) {pair : TokenPair} {w' : World}
        → pair.refresh_token ≢ token
        → refresh p t token w ≡ (ok pair, w')
        → lookup (refresh_key token) v.strings ≡ lookup (refresh_key token) w'.strings
        → (uid : UserId) × (raw : Text) × (e : Instant) × (live
              (p.clock w.calls)
              (refresh_key token)
              w
            ≡ some raw)
          × (parse_uint raw ≡ some uid)
          × (lookup (refresh_key pair.refresh_token) w'.strings
              ≡ some (record { value = format_uint uid; expires = some e }))
          × ((refresh p t token v).0 ≡ err invalid_refresh)
    refresh-rotates token w v {pair} {w'} n h kept =
        let (raw, uid, held, parsed, run) = refresh-found token w h in
        let (e, same) =
          issued uid (after_delete uid token (tick w))
            (sym (rotate-after_delete t uid token (tick w)) ∙ run) in
        let entry : Entry = record { value = format_uint uid; expires = some e } in
        let base = (after_delete uid token (tick w)).strings in
        let look = λ (k : Text).
          ap (λ m. lookup k m) same ∙ lookup-insert (refresh_key pair.refresh_token) k entry base in
        (
          uid,
          raw,
          e,
          held,
          parsed,
          look (refresh_key pair.refresh_token)
              ∙ ground (arith, text_eq_refl (refresh_key pair.refresh_token)),
          refused p t token v (sound v.calls) (
              kept
              ∙ look (refresh_key token)
              ∙ ground (
                arith,
                refresh_keys pair.refresh_token token,
                text_ne pair.refresh_token token n,
                IsSpent-after_delete uid token (tick w),
              )),
        )
