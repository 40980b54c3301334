-- ===== src/Service/History/Pages.antt =====
-- What one page of the history holds, and where its `has_more` is wrong.
use blahaj_chat_server.Common.{
  ℕ, ◌+◌, ◌≤◌, ◌<◌, ◌≡◌, ◌∙◌, ap, true, false, List, ltb, Text, take, length, reverse, map, filter,
  sort_by, length-take, take_all, take-take, arith, min, Bool-cases, inl, inr,
}
use blahaj_chat_server.Errors.{ok}
use blahaj_chat_server.Model.{UserId, Message, Db}
use blahaj_chat_server.Platform.{Platform, World}
use blahaj_chat_server.Platform.Sql.{query}
use blahaj_chat_server.Dao.Quiet.{Quiet-is_member}
use blahaj_chat_server.Dao.State.{is_member}
use blahaj_chat_server.Dao.Message.{
  list_message_by_conv_id, select_messages, message_limit, in_history, newer,
}
use blahaj_chat_server.Service.History.{
  MessageListResp, to_message_resp, page_limit, page_of, last_id, page_or_error,
  get_history_message_by_id,
}

-- The messages of a conversation with an id below the cursor, or all of them at 0, newest first.
abbrev pub history : Text → ℕ → Db → List Message
history conv_id before_id db = sort_by newer (filter (in_history conv_id before_id) db.messages)

page_limit_bounds : (limit : ℕ) → (0 < page_limit limit) × (page_limit limit ≤ 100)
unfolding page_limit
page_limit_bounds limit = ground arith

message_limit_page : (n : ℕ) → 0 < n → n < 100 → message_limit (n + 1) ≡ n + 1
unfolding message_limit
message_limit_page n h k = ground arith

-- The page that a request gets once its checks have passed.
abbrev pub page_at : Text → ℕ → ℕ → Db → MessageListResp
page_at conv_id before_id n db = page_of n (select_messages conv_id before_id (n + 1) db)

-- A page that is described by the whole history behind the cursor.
abbrev pub exact_page : ℕ → List Message → MessageListResp
exact_page n h = record {
  items = map to_message_resp (reverse (take n h));
  next_before_id = last_id (take n h);
  has_more = ltb n (length h);
}

ltb-min : (n m : ℕ) → ltb n m ≡ true → ltb n (min (n + 1) m) ≡ true
ltb-min n m h = ground arith

page_of-take : (n : ℕ) (h : List Message) → page_of n (take (n + 1) h) ≡ exact_page n h
unfolding page_of
page_of-take n h = elim (Bool-cases (ltb n (length h))) [
  | inl e ↦
      rw (length-take (n + 1) h, take-take n (n + 1) h (omega arith), ltb-min n (length h) e, e)
  | inr e ↦ rw (take_all (n + 1) h (ground arith), take_all n h (ground arith), e)
]

pub page_at-exact :
    (conv_id : Text) (before_id n : ℕ) (db : Db)
    → 0 < n
    → n < 100
    → page_at conv_id before_id n db ≡ exact_page n (history conv_id before_id db)
unfolding select_messages
page_at-exact conv_id before_id n db h k =
    rw (message_limit_page n h k) (page_of-take n (history conv_id before_id db))

-- The service asks for 101 rows, and the dao gives 100 at most.
ltb-min_self : (n m : ℕ) → ltb n (min n m) ≡ false
ltb-min_self n m = ground arith

page_of-full : (n m : ℕ) (h : List Message) → m ≡ n → (page_of n (take m h)).has_more ≡ false
unfolding page_of
page_of-full n m h e = rw (e, length-take n h) (ltb-min_self n (length h))

page_limit_top : (limit : ℕ) → 100 ≤ limit → page_limit limit ≡ 100
unfolding page_limit
page_limit_top limit h = ground arith

message_limit_full : (n : ℕ) → n ≡ 100 → message_limit (n + 1) ≡ n
unfolding message_limit
message_limit_full n h = ground arith

module _ (p : Platform) where
  history_page :
      (uid : UserId) (conv_id : Text) (before_id limit : ℕ) (w : World) {page : MessageListResp}
      {w' : World}
      → get_history_message_by_id p uid conv_id before_id limit w ≡ (ok page, w')
      → (page ≡ page_at conv_id before_id (page_limit limit) w.db)
        × ((is_member p uid conv_id w).0 ≡ ok true)
        × (w'.db ≡ w.db)
  unfolding get_history_message_by_id list_message_by_conv_id query page_or_error
  history_page uid conv_id before_id limit w h =
      ground (arith, (Quiet-is_member p uid conv_id).at w)

  -- A member who asks for fewer than 100 messages gets the newest of those behind the cursor, oldest
  -- first, the id of the oldest as the next cursor, and `has_more` exactly when others are left.
  pub get_history-exact :
      (uid : UserId) (conv_id : Text) (before_id limit : ℕ) (w : World) {page : MessageListResp}
      {w' : World}
      → page_limit limit < 100
      → get_history_message_by_id p uid conv_id before_id limit w ≡ (ok page, w')
      → (page ≡ exact_page (page_limit limit) (history conv_id before_id w.db))
        × ((is_member p uid conv_id w).0 ≡ ok true)
        × (w'.db ≡ w.db)
  get_history-exact uid conv_id before_id limit w k h =
      let (page, member, same) = history_page uid conv_id before_id limit w h in
      (
        page
            ∙ page_at-exact conv_id before_id (page_limit limit) w.db (page_limit_bounds limit).0 k,
        member,
        same,
      )

  -- At the greatest limit the page never says that there is more, however many messages are left.
  pub get_history-never_more :
      (uid : UserId) (conv_id : Text) (before_id limit : ℕ) (w : World) {page : MessageListResp}
      {w' : World}
      → 100 ≤ limit
      → get_history_message_by_id p uid conv_id before_id limit w ≡ (ok page, w')
      → page.has_more ≡ false
  unfolding select_messages
  get_history-never_more uid conv_id before_id limit w k h =
      let (page, _, _) = history_page uid conv_id before_id limit w h in
      let n = page_limit limit in
      ap (λ (r : MessageListResp). r.has_more) page
      ∙ page_of-full n (message_limit (n + 1)) (history conv_id before_id w.db)
          (message_limit_full n (page_limit_top limit k))
