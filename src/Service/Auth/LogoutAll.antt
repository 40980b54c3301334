-- ===== src/Service/Auth/LogoutAll.antt =====
-- auth.go: `LogoutAll` ends every session of a user.
use blahaj_chat_server.Common.{
  ℕ, suc, ◌+◌, ◌-◌, ◌≡◌, ◌≢◌, refl, sym, ◌∙◌, ap, subst, Bool, true, Option, none, some, List, [],
  ◌∷◌, inl, inr, Text, codes, text_eq, text_eq_iff, any, lookup, without, lookup-insert,
  lookup-without, text_eq_instance, format_uint, arith, Bool-cases, if◌then◌else◌,
}
use blahaj_chat_server.Errors.{ok}
use blahaj_chat_server.Model.{Instant, UserId}
use blahaj_chat_server.Platform.{Platform, World, Entry, tick, now}
use blahaj_chat_server.Platform.Redis.{command, del_value_by_key}
use blahaj_chat_server.Service.Auth.{
  Tokens, refresh_key, blacklist_key, user_session_key, set_at, silently, set_members, refuse_until,
  blacklist, delete_tokens, logout_all,
}
use blahaj_chat_server.Service.Auth.Sessions.{refresh_keys, other_key}
use blahaj_chat_server.Dao.Pair.{text_eq_comm}
use blahaj_chat_server.Service.Auth.Calls.{
  Call, issuing, refreshing, leaving, leaving_all, elsewhere, Calls, none_yet, then_call,
}
use blahaj_chat_server.Service.Auth.Listed.{session_key, members_of, IsListed, members_of-without}
use blahaj_chat_server.Service.Auth.Registry.{
  issue-IsListed, refresh-IsListed, logout-IsListed, blacklist-IsListed,
}

session_keys : (a b : Text) → text_eq (session_key a) (session_key b) ≡ text_eq a b
unfolding session_key text_eq
session_keys a b = refl

-- The value of a refresh token after some are deleted.
abbrev unless : Bool → Option Entry → Option Entry
unless b o = if b then none else o

module _ (p : Platform) (sound : (n : ℕ) → p.redis_outcome n ≡ none) where
  delete_tokens-lookup :
      (tokens : List Text) (w : World) (x : Text)
      → lookup (refresh_key x) (delete_tokens p tokens w).1.strings
        ≡ unless (any (text_eq x) tokens) (lookup (refresh_key x) w.strings)
  unfolding delete_tokens del_value_by_key
  delete_tokens-lookup [] w x = refl
  delete_tokens-lookup (token ∷ tokens) w x =
      let next = tick (record w { strings = without (refresh_key token) w.strings }) in
      ground (
        arith,
        sound w.calls,
        delete_tokens-lookup tokens next x,
        lookup-without (refresh_key token) (refresh_key x) w.strings,
        refresh_keys token x,
        text_eq_comm token x,
      )

  delete_tokens-sets : (tokens : List Text) (w : World) → (delete_tokens p tokens w).1.sets ≡ w.sets
  unfolding delete_tokens del_value_by_key
  delete_tokens-sets [] w = refl
  delete_tokens-sets (token ∷ tokens) w = ground (
    arith,
    sound w.calls,
    delete_tokens-sets tokens (tick (record w { strings = without (refresh_key token) w.strings })),
  )

  delete_tokens-ok :
      (tokens : List Text) (w : World)
      → delete_tokens p tokens w ≡ (ok tt, (delete_tokens p tokens w).1)
  unfolding delete_tokens del_value_by_key
  delete_tokens-ok [] w = refl
  delete_tokens-ok (token ∷ tokens) w =
      let next = tick (record w { strings = without (refresh_key token) w.strings }) in
      ground (arith, sound w.calls, delete_tokens-ok tokens next)

  -- The tokens are deleted, and then the set.
  cleared : UserId → World → World
  cleared uid w =
      let v = (delete_tokens p (set_at (user_session_key uid) w) (tick w)).1 in
      tick (record v { sets = without (user_session_key uid) v.sets })

  logout_all-cleared :
      (uid : UserId) (jti : Text) (exp : Instant) (w : World)
      → logout_all p uid jti exp w ≡ blacklist p jti exp (cleared uid w)
  unfolding logout_all cleared set_members command silently
  logout_all-cleared uid jti exp w =
      let tokens = set_at (user_session_key uid) w in
      ground (
        arith,
        sound w.calls,
        delete_tokens-ok tokens (tick w),
        sound (delete_tokens p tokens (tick w)).1.calls,
      )

  cleared-lookup :
      (uid : UserId) (w : World) (x : Text)
      → lookup (refresh_key x) (cleared uid w).strings
        ≡ unless
            (any (text_eq x) (members_of (session_key (format_uint uid)) w.sets))
            (lookup (refresh_key x) w.strings)
  unfolding cleared members_of session_key user_session_key
  cleared-lookup uid w x = delete_tokens-lookup (set_at (user_session_key uid) w) (tick w) x

  cleared-sets :
      (uid : UserId) (w : World)
      → (cleared uid w).sets ≡ without (session_key (format_uint uid)) w.sets
  unfolding cleared session_key user_session_key
  cleared-sets uid w =
      ap (without (user_session_key uid))
        (delete_tokens-sets (set_at (user_session_key uid) w) (tick w))

  -- A token that is still held is not of the user.
  cleared-others :
      (uid : UserId) (w : World)
      → IsListed w
      → (x : Text) (e : Entry) → lookup (refresh_key x) (cleared uid w).strings ≡ some e
      → (lookup (refresh_key x) w.strings ≡ some e) × (e.value ≢ format_uint uid)
  cleared-others uid w h x e held =
      let found = sym (cleared-lookup uid w x) ∙ held in
      elim (Bool-cases (any (text_eq x) (members_of (session_key (format_uint uid)) w.sets))) [
        | inl i ↦ absurd (ground (arith, i, found))
        | inr i ↦
            let before : lookup (refresh_key x) w.strings ≡ some e = ground (arith, i, found) in
            (
              before,
              λ same.
                  let member =
                    subst (λ v. any (text_eq x) (members_of (session_key v) w.sets) ≡ true) same
                      (h.at x e before) in
                  absurd (ground (arith, i, member)),
            )
      ]

  cleared-IsListed : (uid : UserId) (w : World) → IsListed w → IsListed (cleared uid w)
  cleared-IsListed uid w h = record {
    at = λ x e held.
        let (before, other) = cleared-others uid w h x e held in
        let key = session_key (format_uint uid) in
        let kept =
          ap (members_of (session_key e.value)) (cleared-sets uid w)
          ∙ members_of-without key (session_key e.value) w.sets in
        elim (Bool-cases (text_eq (format_uint uid) e.value)) [
          | inl i ↦ absurd (other (sym ((text_eq_iff (format_uint uid) e.value).0 i)))
          | inr i ↦ rw kept (rw (session_keys (format_uint uid) e.value) (rw i (h.at x e before)))
        ];
  }

  blacklist-lookup :
      (jti : Text) (exp : Instant) (w : World) (x : Text)
      → lookup (refresh_key x) (blacklist p jti exp w).1.strings ≡ lookup (refresh_key x) w.strings
  unfolding blacklist now refuse_until silently
  blacklist-lookup jti exp w x = ground (
    arith,
    other_key jti x,
    lookup-insert (blacklist_key jti) (refresh_key x)
        (record {
          value = codes "1";
          expires = some (p.clock (suc w.calls) + (exp - p.clock w.calls));
        })
        w.strings,
  )

  logout_all-IsListed :
      (uid : UserId) (jti : Text) (exp : Instant) (w : World)
      → IsListed w
      → IsListed (logout_all p uid jti exp w).1
  logout_all-IsListed uid jti exp w h =
      subst (λ r. IsListed r.1) (sym (logout_all-cleared uid jti exp w))
        (blacklist-IsListed p sound jti exp _ (cleared-IsListed uid w h))

  Call-IsListed : {t : Tokens} {v w : World} → Call p t v w → IsListed v → IsListed w
  Call-IsListed {t} (issuing uid v) h = issue-IsListed p sound t uid v h
  Call-IsListed {t} (refreshing token v) h = refresh-IsListed p sound t token v h
  Call-IsListed (leaving uid token jti exp v) h = logout-IsListed p sound uid token jti exp v h
  Call-IsListed (leaving_all uid jti exp v) h = logout_all-IsListed uid jti exp v h
  Call-IsListed {t} {v} {w} (elsewhere same sets) h = record {
    at = λ x e held.
        subst (λ s. any (text_eq x) (members_of (session_key e.value) s) ≡ true) (sym sets)
          (h.at x e (sym (same x) ∙ held));
  }

  Calls-IsListed : {t : Tokens} {v w : World} → Calls p t v w → IsListed v → IsListed w
  Calls-IsListed (none_yet v) h = h
  Calls-IsListed (then_call run call) h = Call-IsListed call (Calls-IsListed run h)

  -- From a state in which Redis holds no refresh token, while Redis answers and the calls that issue,
  -- refresh and end sessions come one after another, each refresh token that is held after a
  -- `LogoutAll` of a user was held before it, with the same entry, and is not of that user.
  pub logout_all-others :
      (t : Tokens) {v w : World}
      → ((x : Text) → lookup (refresh_key x) v.strings ≡ none)
      → Calls p t v w
      → (uid : UserId) (jti : Text) (exp : Instant) (x : Text) {e : Entry}
      → lookup (refresh_key x) (logout_all p uid jti exp w).1.strings ≡ some e
      → (lookup (refresh_key x) w.strings ≡ some e) × (e.value ≢ format_uint uid)
  logout_all-others t {v} {w} fresh run uid jti exp x {e} held =
      let start : IsListed v = record {
        at = λ y d other. absurd (ground (arith, fresh y, other));
      } in
      let same =
        ap (λ r. lookup (refresh_key x) r.1.strings) (logout_all-cleared uid jti exp w)
        ∙ blacklist-lookup jti exp (cleared uid w) x in
      cleared-others uid w (Calls-IsListed run start) x e (sym same ∙ held)
