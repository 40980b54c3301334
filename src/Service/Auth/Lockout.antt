-- ===== src/Service/Auth/Lockout.antt =====
-- auth.go: an access token whose user has logged out is on the list of refused ones until it expires.
use blahaj_chat_server.Common.{
  ℕ, suc, ◌+◌, ◌-◌, ◌≤◌, ◌<◌, ◌≡◌, ◌≢◌, refl, sym, ◌∙◌, ap, subst, true, none, some, Text, [], ◌∷◌,
  codes, lookup, lookup-insert, text_eq_refl, text_eq_instance, arith,
}
use blahaj_chat_server.Errors.{Result, ok}
use blahaj_chat_server.Model.{Instant, UserId}
use blahaj_chat_server.Platform.{Platform, World, Entry, tick, now}
use blahaj_chat_server.Platform.Redis.{live, live_entry, exists_key}
use blahaj_chat_server.Service.Auth.{
  blacklist_key, silently, refuse_until, blacklist, logout, is_access_blacklisted,
}
use blahaj_chat_server.Service.Auth.Sessions.{after_delete, logout-after_delete}

module _ (p : Platform) where
  pub IsRefused : Text → Instant → World → Type 0
  IsRefused jti t w = live t (blacklist_key jti) w ≡ some (codes "1")

  module _ (sound : (n : ℕ) → p.redis_outcome n ≡ none)
      (later : (m n : ℕ) → m ≤ n → p.clock m ≤ p.clock n) where
    blacklist-calls :
        (jti : Text) (exp : Instant) (w : World) → w.calls ≤ (blacklist p jti exp w).1.calls
    unfolding blacklist now refuse_until silently
    blacklist-calls jti exp w = ground arith

    blacklist-IsRefused :
        (jti : Text) (exp t : Instant) (w : World)
        → jti ≢ []
        → p.clock w.calls ≤ t
        → t < exp
        → IsRefused jti t (blacklist p jti exp w).1
    unfolding IsRefused blacklist now refuse_until silently live
    blacklist-IsRefused [] exp t w n h k = absurd (n refl)
    blacklist-IsRefused (c ∷ jti) exp t w n h k =
        let entry : Entry = record {
          value = codes "1";
          expires = some (p.clock (suc w.calls) + (exp - p.clock w.calls));
        } in
        ground (
          arith,
          sound (suc w.calls),
          later w.calls (suc w.calls) (omega arith),
          lookup-insert (blacklist_key (c ∷ jti)) (blacklist_key (c ∷ jti)) entry w.strings,
          text_eq_refl (blacklist_key (c ∷ jti)),
        )

    -- Whatever else a logout does comes first.
    logout-blacklist :
        (uid : UserId) (token jti : Text) (exp : Instant) (w : World)
        → (u : World) × (logout p uid token jti exp w ≡ blacklist p jti exp u)
    unfolding logout
    logout-blacklist uid [] jti exp w = (w, refl)
    logout-blacklist uid (c ∷ token) jti exp w = (
      after_delete p sound uid (c ∷ token) w,
      logout-after_delete p sound uid (c ∷ token) jti exp w (λ e. cc),
    )

    pub logout-IsRefused :
        (uid : UserId) (token jti : Text) (exp : Instant) (w : World) (n : ℕ)
        → jti ≢ []
        → (logout p uid token jti exp w).1.calls ≤ n
        → p.clock n < exp
        → IsRefused jti (p.clock n) (logout p uid token jti exp w).1
    logout-IsRefused uid token jti exp w n h k l =
        let (u, e) = logout-blacklist uid token jti exp w in
        let calls = blacklist-calls jti exp u in
        let same = ap (λ r. r.1.calls) e in
        subst (λ (r : Result (Unit {0}) × World). IsRefused jti (p.clock n) r.1) (sym e)
          (blacklist-IsRefused jti exp (p.clock n) u h (later u.calls n (omega arith)) l)

    pub IsRefused-is_access_blacklisted :
        (jti : Text) (w : World)
        → jti ≢ []
        → IsRefused jti (p.clock w.calls) w
        → is_access_blacklisted p jti w ≡ (ok true, tick w)
    unfolding is_access_blacklisted exists_key IsRefused
    IsRefused-is_access_blacklisted [] w n h = absurd (n refl)
    IsRefused-is_access_blacklisted (c ∷ jti) w n h = ground (arith, sound w.calls)

  pub IsRefused-same :
      (jti : Text) (t : Instant) (v w : World)
      → lookup (blacklist_key jti) v.strings ≡ lookup (blacklist_key jti) w.strings
      → IsRefused jti t w
      → IsRefused jti t v
  unfolding IsRefused live
  IsRefused-same jti t v w e h = ap (λ o. live_entry t o) e ∙ h
