-- ===== src/Platform/Redis.antt =====
-- internal/redis/redis.go, over the commands of Redis that it sends.
use blahaj_chat_server.Common.{
  ℕ, ◌+◌, Bool, true, false, Option, none, some, [], leb, Text, if◌then◌else◌, lookup, without,
  insert, text_eq_instance,
}
use blahaj_chat_server.Errors.{ok, err, fault}
use blahaj_chat_server.Model.{Instant}
use blahaj_chat_server.Platform.Defs.{Platform, World, Entry, M, tick}

-- What a read at an instant Finds: an entry is gone once its time has come.
abbrev pub live_entry : Instant → Option Entry → Option Text
live_entry t none = none
live_entry t (some e) = elim e.expires [
  | none ↦ some e.value
  | some d ↦ if leb d t then none else some e.value
]

unfoldable pub live : Instant → Text → World → Option Text
live t k w = live_entry t (lookup k w.strings)

abbrev pub set_string : Text → Text → Option Instant → World → World
set_string k v d w = record w { strings = insert k (record { value = v; expires = d }) w.strings }

abbrev pub value_or_empty : Option Text → Text
value_or_empty none = []
value_or_empty (some v) = v

abbrev pub is_some {ℓ} : {A : Type ℓ} → Option A → Bool
is_some none = false
is_some (some a) = true

module _ (p : Platform) where
  -- A command that fails changes nothing, and the caller has the error.
  unfoldable pub command {ℓ} : {A : Type ℓ} → (World → A × World) → M A
  command run w = elim (p.redis_outcome w.calls) [
    | some f ↦ (err (fault f), tick w)
    | none ↦ let (a, w') = run w in (ok a, tick w')
  ]

  -- `GetValueByKey`: a missing key is the empty string, and no error.
  unfoldable pub get_value_by_key : Text → M Text
  unfolding command
  get_value_by_key k = command λ w. (value_or_empty (live (p.clock w.calls) k w), w)

  -- `GetCache`: every caller drops the error, and takes it for a miss.
  unfoldable pub get_cache : Text → M (Option Text)
  get_cache k w = elim (p.redis_outcome w.calls) [
    | some f ↦ (ok none, tick w)
    | none ↦ (ok (live (p.clock w.calls) k w), tick w)
  ]

  -- `SetValueByKey`, without an end.
  unfoldable pub set_value_by_key : Text → Text → M (Unit {0})
  unfolding command
  set_value_by_key k v = command λ w. (tt, set_string k v none w)

  -- `ExpireKey`: a missing key stays missing.
  unfoldable pub expire_key : Text → ℕ → M (Unit {0})
  unfolding command
  expire_key k ttl = command λ w. elim (live (p.clock w.calls) k w) [
    | none ↦ (tt, w)
    | some v ↦ (tt, set_string k v (some (p.clock w.calls + ttl)) w)
  ]

  -- `SetValueByKeyExpire`
  unfoldable pub set_value_by_key_expire : Text → Text → ℕ → M (Unit {0})
  unfolding command
  set_value_by_key_expire k v ttl =
      command λ w. (tt, set_string k v (some (p.clock w.calls + ttl)) w)

  -- `SetNXValueByKeyExpire`: true if the key was not there and has been written.
  unfoldable pub set_nx_value_by_key_expire : Text → Text → ℕ → M Bool
  unfolding command
  set_nx_value_by_key_expire k v ttl = command λ w. elim (live (p.clock w.calls) k w) [
    | some old ↦ (false, w)
    | none ↦ (true, set_string k v (some (p.clock w.calls + ttl)) w)
  ]

  -- `DelValueByKey`: an error is logged and dropped.
  unfoldable pub del_value_by_key : Text → M (Unit {0})
  del_value_by_key k w = elim (p.redis_outcome w.calls) [
    | some f ↦ (ok tt, tick w)
    | none ↦ (ok tt, tick (record w { strings = without k w.strings }))
  ]

  -- `ExistsKey`: an error counts as "no".
  unfoldable pub exists_key : Text → M Bool
  exists_key k w = elim (p.redis_outcome w.calls) [
    | some f ↦ (ok false, tick w)
    | none ↦ (ok (is_some (live (p.clock w.calls) k w)), tick w)
  ]
