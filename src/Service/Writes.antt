-- ===== src/Service/Writes.antt =====
-- The operations of internal/service that change rows, and change none when they return an error.
use blahaj_chat_server.Common.{[], ◌∷◌, List, false, ◌≡◌, refl, not, ◌||◌, ◌==◌, Text, arith}
use blahaj_chat_server.Errors.{
  Error, Result, ok, err, email_taken, found_c2c_pair, is_record_not_found,
}
use blahaj_chat_server.Model.{UserId, User, Db}
use blahaj_chat_server.Platform.{Platform, World}
use blahaj_chat_server.Platform.Sql.{statement}
use blahaj_chat_server.Platform.After.{statement-err}
use blahaj_chat_server.Platform.Effects.{
  Quiet, Atomic, Kept, Quiet-pure, Quiet-raise, Quiet-guard, Quiet-now, Quiet-new_id, Quiet-query,
  Atomic-if, Atomic-bind, Atomic-then, Atomic-Quiet, Atomic-on_error, Atomic-on_error-Quiet,
  Atomic-transaction,
}
use blahaj_chat_server.Dao.State.{ensure_conversation_states}
use blahaj_chat_server.Dao.Conversation.{get_or_create_c2c, get_or_create_c2c_tx, create_missing}
use blahaj_chat_server.Platform.Redis.{is_some}
use blahaj_chat_server.Dao.User.{Collation, create_user_with_ctx}
use blahaj_chat_server.Service.User.{
  Bcrypt, RegisterReq, generate_from_password, register, system_error, new_user,
}
use blahaj_chat_server.Service.Reads.{Quiet-get_user_by_email}

module _ (p : Platform) where
  Atomic-statement {ℓ} : {A : Type ℓ} (write : Db → Result (A × Db)) → Atomic (statement p write)
  Atomic-statement {A = A} write = record { at = λ w. kept w (statement p write w) refl }
    where
      kept : (w : World) (r : Result A × World) → statement p write w ≡ r → Kept w.db r
      kept w (ok a, v) e = tt
      kept w (err x, v) e = statement-err p write w e

  Atomic-ensure : (rows : List (UserId × Text)) → Atomic (ensure_conversation_states p rows)
  unfolding ensure_conversation_states
  Atomic-ensure [] = Atomic-Quiet _ (Quiet-pure tt)
  Atomic-ensure (row ∷ rows) = Atomic-statement _

  Atomic-create_missing :
      (a b : UserId) (key : Text) (e : Error) → Atomic (create_missing p false a b key e)
  unfolding create_missing
  Atomic-create_missing a b key e =
      Atomic-if (is_record_not_found e) _ _
        (Atomic-bind _ _ (Quiet-new_id p)
          λ id. Atomic-bind _ _ (Quiet-now p) λ t. Atomic-transaction p _)
        (Atomic-Quiet _ (Quiet-raise e))

  pub get_or_create_c2c-Atomic : (a b : UserId) → Atomic (get_or_create_c2c p a b)
  unfolding get_or_create_c2c get_or_create_c2c_tx
  get_or_create_c2c-Atomic a b =
      Atomic-if (a == 0 || b == 0 || a == b) _ _ (Atomic-Quiet _ (Quiet-raise found_c2c_pair)) (
        Atomic-on_error-Quiet _ _ _ (Quiet-query p _)
          (λ conv. Atomic-then _ _ (Atomic-ensure _) λ _ w db. tt)
          (λ e. Atomic-create_missing a b _ e))

  Atomic-create_user : (c : Collation) (u : User) → Atomic (create_user_with_ctx p c u)
  unfolding create_user_with_ctx
  Atomic-create_user c u = Atomic-bind _ _ (Quiet-now p) λ t. Atomic-statement _

  Quiet-hash :
      (c : Collation) (b : Bcrypt) (password : Text) → Quiet (generate_from_password p c b password)
  unfolding generate_from_password
  Quiet-hash c b password = record { at = λ w. ground arith }

  pub register-Atomic :
      (c : Collation) (b : Bcrypt) (req : RegisterReq) → Atomic (register p c b req)
  unfolding register
  register-Atomic c b req = Atomic-bind _ _ (Quiet-get_user_by_email p c req.email) λ old.
      Atomic-bind _ _ (Quiet-guard (not (is_some old)) email_taken) λ _.
        Atomic-bind _ _ (Quiet-hash c b req.password) λ hashed.
          Atomic-on_error _ _ _ (Atomic-create_user c (new_user req hashed)) (λ u w db. tt)
            (λ e. Quiet-raise system_error)
