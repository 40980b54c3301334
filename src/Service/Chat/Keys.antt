-- ===== src/Service/Chat/Keys.antt =====
-- chat.go: what the membership check and the writes of a send do to the idempotency key.
use blahaj_chat_server.Common.{
  ℕ, ◌+◌, ◌≡◌, subst, refl, sym, ◌∙◌, ap, Bool, true, false, Option, none, some, List, Text,
  text_eq, text_eq_refl, lookup, without, lookup-insert, lookup-without, text_eq_instance, arith,
  Bool-cases, inl, inr, if◌then◌else◌,
}
use blahaj_chat_server.Errors.{Error, Result, ok, err, not_member}
use blahaj_chat_server.Model.{UserId, Db, Message}
use blahaj_chat_server.Platform.{
  Platform, World, Entry, M, pure, raise, continue, branch, ◌>>=◌, on_error, tick, now,
  unmarshal_uids,
}
use blahaj_chat_server.Platform.Sql.{query, statement, transaction}
use blahaj_chat_server.Platform.Redis.{get_cache, set_value_by_key_expire, del_value_by_key}
use blahaj_chat_server.Dao.State.{
  get_conv_by_id, get_group_info_by_conv_id, load_group_members, members_or_load,
  list_group_members, list_members, is_member, group_members_key, cached_members, lift_members,
  incr_unread_except,
}
use blahaj_chat_server.Dao.Conversation.{update_last_msg}
use blahaj_chat_server.Dao.Message.{create_message}
use blahaj_chat_server.Service.Chat.{
  SendData, send_idem_key, store_message, store_and_reply, reply_created, message_to_msg_data,
  give_back, send_new, new_message,
}

-- An action that leaves the entry of `key`.
record Spares {ℓ} {A : Type ℓ} (key : Text) (m : M A) : Type ℓ where
  at : (w : World) → lookup key (m w).1.strings ≡ lookup key w.strings

module _ {ℓ κ} {A : Type ℓ} {B : Type κ} (key : Text) where
  Spares-continue :
      (f : A → M B) (r : Result A × World)
      → ((a : A) → Spares key (f a))
      → lookup key (continue r f).1.strings ≡ lookup key r.1.strings
  Spares-continue f (ok a, w) h = (h a).at w
  Spares-continue f (err e, w) h = refl

  Spares-bind :
      (m : M A) (f : A → M B) → Spares key m → ((a : A) → Spares key (f a)) → Spares key (m >>= f)
  Spares-bind m f h k = record { at = λ w. Spares-continue f (m w) k ∙ h.at w }

  Spares-branch :
      (f : A → M B) (g : Error → M B) (r : Result A × World)
      → ((a : A) → Spares key (f a))
      → ((e : Error) → Spares key (g e))
      → lookup key (branch r f g).1.strings ≡ lookup key r.1.strings
  Spares-branch f g (ok a, w) h k = (h a).at w
  Spares-branch f g (err e, w) h k = (k e).at w

  Spares-on_error :
      (m : M A) (f : A → M B) (g : Error → M B)
      → Spares key m
      → ((a : A) → Spares key (f a))
      → ((e : Error) → Spares key (g e))
      → Spares key (on_error m f g)
  Spares-on_error m f g h k j = record { at = λ w. Spares-branch f g (m w) k j ∙ h.at w }

module _ {ℓ} {A : Type ℓ} (key : Text) where
  Spares-pure : (a : A) → Spares key (pure a)
  Spares-pure a = record { at = λ w. refl }

  Spares-raise : (e : Error) → Spares key (raise {A = A} e)
  Spares-raise e = record { at = λ w. refl }

  Spares-if : (b : Bool) (m n : M A) → Spares key m → Spares key n → Spares key (if b then m else n)
  Spares-if true m n h k = h
  Spares-if false m n h k = k

group_key :
    (uid : UserId) (id conv_id : Text)
    → text_eq (group_members_key conv_id) (send_idem_key uid id) ≡ false
unfolding group_members_key send_idem_key text_eq
group_key uid id conv_id = refl

module _ (p : Platform) (uid : UserId) (id : Text) where
  Spares-query {ℓ} :
      {A : Type ℓ} (read : Db → Result A) → Spares (send_idem_key uid id) (query p read)
  unfolding query
  Spares-query read = record { at = λ w. ground arith }

  Spares-get_cache : (k : Text) → Spares (send_idem_key uid id) (get_cache p k)
  unfolding get_cache
  Spares-get_cache k = record { at = λ w. ground arith }

  Spares-unmarshal : (raw : Text) → Spares (send_idem_key uid id) (unmarshal_uids p raw)
  unfolding unmarshal_uids
  Spares-unmarshal raw = record { at = λ w. ground arith }

  Spares-cache_members :
      (conv_id raw : Text) (ttl : ℕ)
      → Spares
          (send_idem_key uid id)
          (set_value_by_key_expire p (group_members_key conv_id) raw ttl)
  unfolding set_value_by_key_expire
  Spares-cache_members conv_id raw ttl = record {
    at = λ w. ground (
      arith,
      group_key uid id conv_id,
      lookup-insert (group_members_key conv_id) (send_idem_key uid id)
          (record { value = raw; expires = some (p.clock w.calls + ttl) }) w.strings,
    );
  }

  ruleset spares_rules = (
    Spares-bind, Spares-on_error, Spares-pure, Spares-raise, Spares-if, Spares-query,
    Spares-get_cache, Spares-unmarshal, Spares-cache_members,
  )

  Spares-get_conv_by_id :
      (conv_id : Text) → Spares (send_idem_key uid id) (get_conv_by_id p conv_id)
  unfolding get_conv_by_id
  Spares-get_conv_by_id conv_id = search spares_rules

  Spares-load : (conv_id : Text) → Spares (send_idem_key uid id) (load_group_members p conv_id)
  unfolding load_group_members get_group_info_by_conv_id
  Spares-load conv_id = search spares_rules

  Spares-members_or_load :
      (conv_id : Text) (cached : Option (List UserId))
      → Spares (send_idem_key uid id) (members_or_load p conv_id cached)
  Spares-members_or_load conv_id none = Spares-load conv_id
  Spares-members_or_load conv_id (some members) = Spares-pure (send_idem_key uid id) members

  Spares-list_group_members :
      (conv_id : Text) → Spares (send_idem_key uid id) (list_group_members p conv_id)
  unfolding list_group_members
  Spares-list_group_members conv_id =
      Spares-bind (send_idem_key uid id) (get_cache p (group_members_key conv_id)) _
        (Spares-get_cache (group_members_key conv_id))
        (λ cached. Spares-members_or_load conv_id (cached_members p cached))

  Spares-lift_members : (r : Result (List UserId)) → Spares (send_idem_key uid id) (lift_members r)
  Spares-lift_members r = record { at = λ w. refl }

  Spares-list_members : (conv_id : Text) → Spares (send_idem_key uid id) (list_members p conv_id)
  unfolding list_members
  Spares-list_members conv_id =
      search (spares_rules, Spares-get_conv_by_id, Spares-list_group_members, Spares-lift_members)

  Spares-is_member :
      (other : UserId) (conv_id : Text) → Spares (send_idem_key uid id) (is_member p other conv_id)
  unfolding is_member
  Spares-is_member other conv_id = search (spares_rules, Spares-list_members)

  Spares-store_message : (m : Message) → Spares (send_idem_key uid id) (store_message p m)
  unfolding store_message create_message update_last_msg incr_unread_except transaction statement
  Spares-store_message m = record { at = λ w. ground arith }

  module _ (sound : (n : ℕ) → p.redis_outcome n ≡ none) where
    -- The key after the writes of a send: as before if they succeed, and free otherwise.
    abbrev pub KeyAfter {ℓ} : {A : Type ℓ} → Option Entry → Result A × World → Type 0
    KeyAfter before (ok r, w) = lookup (send_idem_key uid id) w.strings ≡ before
    KeyAfter before (err e, w) = lookup (send_idem_key uid id) w.strings ≡ none

    KeyAfter-give_back {ℓ} :
        (A : Type ℓ) (before : Option Entry) (e : Error) (w : World)
        → KeyAfter before (give_back p {A = A} (send_idem_key uid id) e w)
    unfolding give_back del_value_by_key
    KeyAfter-give_back A before e w =
        let key = send_idem_key uid id in
        let run : give_back p {A = A} key e w
            ≡ (err e, tick (record w { strings = without key w.strings })) =
          ground (arith, sound w.calls) in
        subst (KeyAfter before) (sym run) (lookup-without key key w.strings ∙ rw (text_eq_refl key))

    KeyAfter-branch {ℓ κ} :
        {A : Type ℓ} {B : Type κ} (before : Option Entry) (f : A → M B) (g : Error → M B)
        (r : Result A × World)
        → ((a : A) (v : World) → r ≡ (ok a, v) → KeyAfter before (f a v))
        → ((e : Error) (v : World) → KeyAfter before (g e v))
        → KeyAfter before (branch r f g)
    KeyAfter-branch before f g (ok a, v) h k = h a v refl
    KeyAfter-branch before f g (err e, v) h k = k e v

    kept_key {ℓ} :
        {A : Type ℓ} (m : M A) (a : A) {w v : World}
        → Spares (send_idem_key uid id) m
        → m w ≡ (ok a, v)
        → lookup (send_idem_key uid id) v.strings ≡ lookup (send_idem_key uid id) w.strings
    kept_key m a {w} s e = ap (λ r. lookup (send_idem_key uid id) r.1.strings) (sym e) ∙ s.at w

    KeyAfter-reply_created :
        (before : Option Entry) (m : Message) (mentions : List UserId) (w : World)
        → p.json_valid m.content ≡ true
        → lookup (send_idem_key uid id) w.strings ≡ before
        → KeyAfter before (reply_created p m mentions w)
    unfolding reply_created message_to_msg_data
    KeyAfter-reply_created before m mentions w valid h = rw (valid, reply_created) h

    KeyAfter-store_and_reply :
        (m : Message) (mentions : List UserId) (w : World)
        → p.json_valid m.content ≡ true
        → KeyAfter
            (lookup (send_idem_key uid id) w.strings)
            (store_and_reply p m mentions (send_idem_key uid id) w)
    unfolding store_and_reply
    KeyAfter-store_and_reply m mentions w valid =
        KeyAfter-branch (lookup (send_idem_key uid id) w.strings) _ _ (store_message p m w)
          (λ u v e.
            KeyAfter-reply_created (lookup (send_idem_key uid id) w.strings) m mentions v valid
              (kept_key (store_message p m) u (Spares-store_message m) e))
          (λ e v. KeyAfter-give_back _ (lookup (send_idem_key uid id) w.strings) e v)

    -- `HandleSend` after it has taken the key.
    pub send_new-KeyAfter :
        (d : SendData) (msg_id : Text) (w : World)
        → p.json_valid d.content ≡ true
        → KeyAfter
            (lookup (send_idem_key uid id) w.strings)
            (send_new p uid d (send_idem_key uid id) msg_id w)
    unfolding send_new now
    send_new-KeyAfter d msg_id w valid =
        let before = lookup (send_idem_key uid id) w.strings in
        KeyAfter-branch before _ _ (is_member p uid d.conv_id w)
          (λ member v e.
            let same =
              kept_key (is_member p uid d.conv_id) member (Spares-is_member uid d.conv_id) e in
            elim (Bool-cases member) [
              | inl i ↦ rw i (
                  subst
                    (λ b. KeyAfter b (
                      store_and_reply p (new_message uid d msg_id (p.clock v.calls)) d.mentions
                        (send_idem_key uid id) (tick v)))
                    same
                    (KeyAfter-store_and_reply (new_message uid d msg_id (p.clock v.calls))
                      d.mentions (tick v) valid))
              | inr i ↦ rw i (KeyAfter-give_back _ before not_member v)
            ])
          (λ e v. KeyAfter-give_back _ before e v)
