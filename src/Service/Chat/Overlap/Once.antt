-- ===== src/Service/Chat/Overlap/Once.antt =====
-- chat.go: sends with one `client_msg_id` that run side by side store one message.
use blahaj_chat_server.Common.{
  ℕ, suc, ◌+◌, ◌≤◌, ◌≡◌, refl, sym, ◌∙◌, ap, subst, Bool, true, false, Option, none, some, List, [],
  ◌∷◌, ◌++◌, Text, text_eq_refl, All, length, length-append, lookup, insert, lookup-insert,
  text_eq_instance, arith,
}
use blahaj_chat_server.Errors.{Result, ok, err}
use blahaj_chat_server.Model.{UserId}
use blahaj_chat_server.Platform.{Platform, World, Entry, tick, new_id}
use blahaj_chat_server.Platform.Redis.{command, live, set_nx_value_by_key_expire}
use blahaj_chat_server.Service.Chat.{
  SendData, MsgData, send_idem_key, validate_send_data, client_msg_id_idem_ttl, send_new,
}
use blahaj_chat_server.Service.Chat.Keys.{KeyAfter, send_new-KeyAfter}
use blahaj_chat_server.Service.Chat.Overlap.{
  Holder, Race, race, take_key, after_take, arrive, after_write, write, IsUnexpired, SendStep,
  arriving, writing, elsewhere, SendSteps, start, after,
}

module _ (p : Platform) (uid : UserId) (id : Text) where
  -- The key is free, and nobody has it or has stored a message; or one request has it or has stored its
  -- message.
  abbrev Balanced : Option Entry → ℕ → Type 0
  Balanced none n = n ≡ 0
  Balanced (some e) n = n ≡ 1

  abbrev AreValid : List Holder → Type 0
  AreValid = All λ h. p.json_valid h.payload.content ≡ true

  record IsOrdered (s : Race) : Type 0 where
    valid : AreValid s.holders
    balance :
        Balanced
          (lookup (send_idem_key uid id) s.world.strings)
          (length s.holders + length s.stored)

  validated : (d : SendData) → validate_send_data p d ≡ true → p.json_valid d.content ≡ true
  unfolding validate_send_data
  validated d h = ground arith

  AreValid-append :
      (hs : List Holder) (h : Holder)
      → AreValid hs
      → p.json_valid h.payload.content ≡ true
      → AreValid (hs ++ h ∷ [])
  AreValid-append [] h v k = (k, tt)
  AreValid-append (x ∷ hs) h v k = (v.0, AreValid-append hs h v.1 k)

  AreValid-middle :
      (before : List Holder) (h : Holder) (rest : List Holder)
      → AreValid (before ++ h ∷ rest)
      → (p.json_valid h.payload.content ≡ true) × AreValid (before ++ rest)
  AreValid-middle [] h rest v = v
  AreValid-middle (x ∷ before) h rest v =
      let (k, more) = AreValid-middle before h rest v.1 in (k, (v.0, more))

  -- A number that is balanced with an entry.
  Balanced-none : (o : Option Entry) (n : ℕ) → Balanced o n → o ≡ none → n ≡ 0
  Balanced-none none n b e = b
  Balanced-none (some x) n b e = cc

  Balanced-taken : {e : Entry} (o : Option Entry) (n : ℕ) → o ≡ some e → n ≡ 1 → Balanced o n
  Balanced-taken none n h k = cc
  Balanced-taken (some x) n h k = k

  Balanced-free : (o : Option Entry) (n : ℕ) → o ≡ none → n ≡ 0 → Balanced o n
  Balanced-free none n h k = k
  Balanced-free (some x) n h k = cc

  Balanced-bound : (o : Option Entry) (n : ℕ) → Balanced o n → n ≤ 1
  Balanced-bound none n b = omega (arith, b)
  Balanced-bound (some x) n b = omega (arith, b)

  module _ (sound : (n : ℕ) → p.redis_outcome n ≡ none) where
    arrive-IsOrdered :
        (d : SendData) (s : Race)
        → validate_send_data p d ≡ true
        → IsUnexpired p uid id s.world
        → IsOrdered s
        → IsOrdered (arrive p uid id d s)
    unfolding arrive take_key new_id set_nx_value_by_key_expire command live
    arrive-IsOrdered d s valid unexpired b =
        held (lookup (send_idem_key uid id) s.world.strings) refl
      where
        held :
            (o : Option Entry)
            → lookup (send_idem_key uid id) s.world.strings ≡ o
            → IsOrdered (arrive p uid id d s)
        held none e =
            let key = send_idem_key uid id in
            let n = suc s.world.calls in
            let msg_id = p.random_id s.world.calls in
            let entry : Entry = record {
              value = msg_id;
              expires = some (p.clock n + client_msg_id_idem_ttl);
            } in
            let w : World = record s.world {
              strings = insert key entry s.world.strings;
              calls = suc n;
            } in
            let run : take_key p uid id s.world ≡ (ok (msg_id, true), w) =
              ground (arith, e, sound n) in
            let before = Balanced-none _ _ b.balance e in
            let key_there : lookup key w.strings ≡ some entry =
              lookup-insert key key entry s.world.strings ∙ rw (text_eq_refl key) in
            subst (λ r. IsOrdered (after_take p uid id d s r)) (sym run)
              (record {
                valid =
                    AreValid-append s.holders (record { payload = d; msg_id = msg_id }) b.valid
                      (validated d valid);
                balance = Balanced-taken _ _ key_there (
                    omega (
                      arith,
                      before,
                      length-append s.holders (record { payload = d; msg_id = msg_id } ∷ []),
                    ));
              })
        held (some entry) e =
            let msg_id = p.random_id s.world.calls in
            let fresh = unexpired entry e in
            let run : take_key p uid id s.world ≡ (ok (msg_id, false), tick (tick s.world)) =
              ground (arith, e, sound (suc s.world.calls), fresh) in
            subst (λ r. IsOrdered (after_take p uid id d s r)) (sym run)
              (record { valid = b.valid; balance = b.balance })

    write-IsOrdered :
        (before : List Holder) (h : Holder) (rest : List Holder) (s : Race)
        → s.holders ≡ before ++ h ∷ rest
        → IsOrdered s
        → IsOrdered (write p uid id (before ++ rest) h s)
    unfolding write
    write-IsOrdered before h rest s e b =
        wrote (send_new p uid h.payload (send_idem_key uid id) h.msg_id s.world)
          (send_new-KeyAfter p uid id sound h.payload h.msg_id s.world valid_h.0)
      where
        valid_h : (p.json_valid h.payload.content ≡ true) × AreValid (before ++ rest)
        valid_h = AreValid-middle before h rest (subst AreValid e b.valid)

        count : length s.holders ≡ suc (length (before ++ rest))
        count =
            omega (arith, ap length e, length-append before (h ∷ rest), length-append before rest)

        wrote :
            (r : Result (MsgData × Bool) × World)
            → KeyAfter p uid id sound (lookup (send_idem_key uid id) s.world.strings) r
            → IsOrdered (after_write p uid id (before ++ rest) h s r)
        wrote (ok r, w) k = record {
          valid = valid_h.1;
          balance =
              subst (λ o. Balanced o (length (before ++ rest) + length (s.stored ++ h.msg_id ∷ [])))
                (sym k)
                (subst (Balanced (lookup (send_idem_key uid id) s.world.strings))
                  (omega (arith, count, length-append s.stored (h.msg_id ∷ []))) b.balance);
        }
        wrote (err x, w) k = record {
          valid = valid_h.1;
          balance = Balanced-free _ _ k (omega (arith, count, Balanced-bound _ _ b.balance));
        }

    SendStep-IsOrdered : {s t : Race} → SendStep p uid id s t → IsOrdered s → IsOrdered t
    SendStep-IsOrdered (arriving d {s} same valid fresh) b = arrive-IsOrdered d s valid fresh b
    SendStep-IsOrdered (writing before h rest {s} e) b = write-IsOrdered before h rest s e b
    SendStep-IsOrdered (elsewhere {s} {w} same) b = record {
      valid = b.valid;
      balance = subst (λ o. Balanced o (length s.holders + length s.stored)) (sym same) b.balance;
    }

    SendSteps-IsOrdered : {r s : Race} → SendSteps p uid id r s → IsOrdered r → IsOrdered s
    SendSteps-IsOrdered start b = b
    SendSteps-IsOrdered (after steps step) b = SendStep-IsOrdered step (SendSteps-IsOrdered steps b)

    -- Requests with one `client_msg_id` of one user may overlap in any way: while Redis answers and the
    -- key does not expire, from a state in which Redis has not got the key, at most one of them holds
    -- the key or has stored its message.
    pub SendSteps-once :
        {w : World} {s : Race}
        → lookup (send_idem_key uid id) w.strings ≡ none
        → SendSteps p uid id (race w) s
        → length s.holders + length s.stored ≤ 1
    SendSteps-once {w} {s} free steps =
        let before : IsOrdered (race w) = record {
          valid = tt;
          balance = subst (λ o. Balanced o 0) (sym free) refl;
        } in
        Balanced-bound _ _ (SendSteps-IsOrdered steps before).balance
