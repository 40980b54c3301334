-- ===== src/Platform/Defs.antt =====
-- The state of the world that a request sees, and the actions on it: Go functions that return
-- `(T, error)`, with what they have changed before they return an error.
use blahaj_chat_server.Common.{ℕ, suc, ◌≡◌, Bool, true, false, Option, none, some, List, Text}
use blahaj_chat_server.Errors.{Error, Result, ok, err}
use blahaj_chat_server.Model.{Instant, UserId, User, Db}

pub record Platform : Type 0 where
  -- Why the statement or command with this number fails, if it does.
  pub sql_outcome : ℕ → Option ℕ
  pub redis_outcome : ℕ → Option ℕ
  -- Whether the request's context ends before a timer does, and how.
  pub context_outcome : ℕ → Option ℕ
  pub clock : ℕ → Instant
  pub random_id : ℕ → Text
  -- `json.Valid`, and `json.Marshal` and `json.Unmarshal` at the types that the code stores.
  pub json_valid : Text → Bool
  pub encode_uids : List UserId → Text
  pub decode_uids : Text → Option (List UserId)
  pub encode_user : User → Text
  pub decode_user : Text → Option User

-- A string of Redis: its value, and the instant at which it is gone.
pub record Entry : Type 0 where
  pub value : Text
  pub expires : Option Instant

pub record World : Type 0 where
  pub db : Db
  pub strings : List (Text × Entry)
  pub sets : List (Text × List Text)
  pub calls : ℕ

abbrev pub M {ℓ} : Type ℓ → Type ℓ
M A = World → Result A × World

abbrev pub tick : World → World
tick w = record w { calls = suc w.calls }

module _ {ℓ} {A : Type ℓ} where
  abbrev pub pure : A → M A
  pure a w = (ok a, w)

  abbrev pub raise : Error → M A
  raise e w = (err e, w)

module _ {ℓ κ} {A : Type ℓ} {B : Type κ} where
  abbrev pub continue : Result A × World → (A → M B) → Result B × World
  continue (ok a, w) f = f a w
  continue (err e, w) f = (err e, w)

  -- What follows if a call returns no error, and what follows if it does.
  abbrev pub branch : Result A × World → (A → M B) → (Error → M B) → Result B × World
  branch (ok a, w) f g = f a w
  branch (err e, w) f g = g e w

  infixl 5 ◌>>=◌ ◌>>◌
  abbrev pub ◌>>=◌ : M A → (A → M B) → M B
  ◌>>=◌ m f w = continue (m w) f

  abbrev pub ◌>>◌ : M A → M B → M B
  m >> n = m >>= λ _. n

  -- `a, err := m; if err == nil { f(a) } else { g(err) }`
  abbrev pub on_error : M A → (A → M B) → (Error → M B) → M B
  on_error m f g w = branch (m w) f g

-- `if !b { return err }`
abbrev pub guard : Bool → Error → M (Unit {0})
guard b e w = elim b [ true ↦ (ok tt, w) | false ↦ (err e, w) ]

module _ (p : Platform) where
  -- `time.Now()`
  unfoldable pub now : M Instant
  now w = (ok (p.clock w.calls), tick w)

  -- `uuid.NewString()`
  unfoldable pub new_id : M Text
  new_id w = (ok (p.random_id w.calls), tick w)

  -- `json.Unmarshal` into a slice of ids.
  unfoldable pub unmarshal_uids : Text → M (List UserId)
  unmarshal_uids raw w = elim (p.decode_uids raw) [
    | none ↦ (err Error.bad_json, w)
    | some uids ↦ (ok uids, w)
  ]

-- What `encoding/json` documents of the texts that it has written itself.
pub record JsonLaws (p : Platform) : Type 0 where
  pub decode-encode_uids : (uids : List UserId) → p.decode_uids (p.encode_uids uids) ≡ some uids
