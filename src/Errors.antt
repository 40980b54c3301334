-- ===== src/Errors.antt =====
-- pkg/errs/errs.go, the errors of the outside that the code names, and results that may be errors.
use Prim.Native.Nat.{ℕ}
use mathlib.Core.Bool.{Bool, true, false}

-- The sentinels of pkg/errs; `record_not_found` is gorm's; `duplicated_key` stands for a unique key
-- that a statement would break; `bad_json` for a text that `json.Unmarshal` refuses; `message` for an
-- `errors.New` of the code itself; `fault` for any failure of MySQL, Redis, Kafka or the context.
pub data Error : Type 0 where
  email_taken invalid_credentials invalid_refresh email_code_busy send_mail : Error
  conv_not_found found_c2c_pair not_member msg_not_found invalid_message system : Error
  apply_user_not_found cannot_friend_self friend_blocked already_friend : Error
  friend_apply_pending friend_apply_not_found friend_apply_handled no_permission : Error
  invalid_group group_member_not_found group_owner_leave : Error
  record_not_found duplicated_key bad_json : Error
  message : ℕ → Error
  fault : ℕ → Error

-- `errors.Is(err, gorm.ErrRecordNotFound)`
abbrev pub is_record_not_found : Error → Bool
is_record_not_found record_not_found = true
is_record_not_found _ = false

-- `errors.Is(err, errs.ErrMsgNotFound)`
abbrev pub is_msg_not_found : Error → Bool
is_msg_not_found msg_not_found = true
is_msg_not_found _ = false

pub data Result {ℓ} (A : Type ℓ) : Type ℓ where
  ok : A → Result A
  err : Error → Result A
