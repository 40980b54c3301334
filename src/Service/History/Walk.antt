-- ===== src/Service/History/Walk.antt =====
-- A client that follows the cursor from page to page.
use mathlib.Core.List.{reverse-append, reverse-cons, reverse-reverse, map-append}
use blahaj_chat_server.Common.{
  ℕ, zero, suc, ◌≤◌, ◌<◌, ◌≡◌, refl, sym, ◌∙◌, ap, subst, Bool, true, Option, none, some, List, [],
  ◌∷◌, ◌++◌, ltb, ltb→lt, if◌then◌else◌, Text, take, drop, length, reverse, map, filter, All,
  All-imp, All-append, All-reverse, filter-reverse, sort_by-Backwards, Backwards, length-drop,
  take-append-drop, take_all, arith, Bool-cases, inl, inr,
}
use blahaj_chat_server.Model.{Message, Db}
use blahaj_chat_server.Dao.Message.{newer, in_history, is_before}
use blahaj_chat_server.Service.History.{MessageResp, MessageListResp, to_message_resp, last_id}
use blahaj_chat_server.Service.History.Pages.{history, page_at, page_at-exact}

-- The older pages, if there are any, and then this one.
abbrev join_pages : MessageListResp → Option (List MessageResp) → Option (List MessageResp)
join_pages page older =
    if page.has_more
    then elim older [ none ↦ none | some items ↦ some (items ++ page.items) ]
    else some page.items

-- The pages from a cursor back, the older ones first; `none` when the fuel ends before `has_more` does.
unfoldable pub walk : ℕ → Text → ℕ → Db → ℕ → Option (List MessageResp)
walk zero conv_id n db before_id = none
walk (suc f) conv_id n db before_id =
    let page = page_at conv_id before_id n db in
    join_pages page (walk f conv_id n db page.next_before_id)

-- The ids fall, and none is 0.
abbrev pub Falling : List Message → Type 0
Falling [] = Unit {0}
Falling (m ∷ ms) = (0 < m.id) × All (λ (x : Message). x.id < m.id) ms × Falling ms

-- The ids rise from one row to the next: the database gives each new row a greater one.
abbrev pub Rising : ℕ → List Message → Type 0
Rising n [] = Unit {0}
Rising n (m ∷ ms) = (n < m.id) × Rising m.id ms

abbrev kept_before : ℕ → Message → Bool
kept_before b m = is_before b m.id

filter_below :
    (b : ℕ) (ms : List Message)
    → 0 < b
    → All (λ (x : Message). x.id < b) ms
    → filter (kept_before b) ms ≡ ms
filter_below b [] h k = refl
filter_below b (m ∷ ms) h k = ground (arith, filter_below b ms h k.1)

last_id-take-lt :
    (b n : ℕ) (ms : List Message)
    → All (λ (x : Message). x.id < b) ms
    → suc n ≤ length ms
    → last_id (take (suc n) ms) < b
last_id-take-lt b n [] h k = absurd (omega arith)
last_id-take-lt b zero (m ∷ ms) h k = h.0
last_id-take-lt b (suc n) (m ∷ []) h k = absurd (omega arith)
last_id-take-lt b (suc n) (m ∷ x ∷ ms) h k = last_id-take-lt b n (x ∷ ms) h.1 (omega arith)

last_id-take-pos :
    (n : ℕ) (ms : List Message) → Falling ms → suc n ≤ length ms → 0 < last_id (take (suc n) ms)
last_id-take-pos n [] h k = absurd (omega arith)
last_id-take-pos zero (m ∷ ms) h k = h.0
last_id-take-pos (suc n) (m ∷ []) h k = absurd (omega arith)
last_id-take-pos (suc n) (m ∷ x ∷ ms) h k = last_id-take-pos n (x ∷ ms) h.2 (omega arith)

-- The cursor of a page leaves exactly what the page has not shown.
filter-cursor :
    (n : ℕ) (ms : List Message)
    → Falling ms
    → suc n ≤ length ms
    → filter (kept_before (last_id (take (suc n) ms))) ms ≡ drop (suc n) ms
filter-cursor n [] h k = absurd (omega arith)
filter-cursor zero (m ∷ ms) h k = ground (arith, filter_below m.id ms h.0 h.1)
filter-cursor (suc n) (m ∷ []) h k = absurd (omega arith)
filter-cursor (suc n) (m ∷ x ∷ ms) h k = ground (
  arith,
  filter-cursor n (x ∷ ms) h.2 (omega arith),
  last_id-take-lt m.id n (x ∷ ms) h.1 (omega arith),
  last_id-take-pos n (x ∷ ms) h.2 (omega arith),
)

Falling-drop : (n : ℕ) (ms : List Message) → Falling ms → Falling (drop n ms)
Falling-drop zero ms h = h
Falling-drop (suc n) [] h = tt
Falling-drop (suc n) (m ∷ ms) h = Falling-drop n ms h.2

Falling-snoc :
    (m : Message) (ms : List Message)
    → Falling ms
    → All (λ (x : Message). m.id < x.id) ms
    → 0 < m.id
    → Falling (ms ++ m ∷ [])
Falling-snoc m [] h k l = (l, tt, tt)
Falling-snoc m (x ∷ ms) h k l =
    (h.0, All-append (λ (y : Message). y.id < x.id) ms _ h.1 (k.0, tt), Falling-snoc m ms h.2 k.1 l)

Rising-All : (n : ℕ) (ms : List Message) → Rising n ms → All (λ (x : Message). n < x.id) ms
Rising-All n [] h = tt
Rising-All n (m ∷ ms) h = (
  h.0,
  All-imp (λ (x : Message). m.id < x.id) (λ (x : Message). n < x.id) ms (λ x k. omega arith)
      (Rising-All m.id ms h.1),
)

Rising-weaken : (k n : ℕ) (ms : List Message) → k ≤ n → Rising n ms → Rising k ms
Rising-weaken k n [] h r = tt
Rising-weaken k n (m ∷ ms) h r = (omega arith, r.1)

Rising-filter :
    (f : Message → Bool) (n : ℕ) (ms : List Message) → Rising n ms → Rising n (filter f ms)
Rising-filter f n [] h = tt
Rising-filter f n (m ∷ ms) h =
    ground (arith, Rising-filter f m.id ms h.1, Rising-weaken n m.id (filter f ms))

Rising-Backwards : (n : ℕ) (ms : List Message) → Rising n ms → Backwards newer ms
Rising-Backwards n [] h = tt
Rising-Backwards n (m ∷ ms) h = (
  All-imp (λ (x : Message). m.id < x.id) (λ (x : Message). newer x m ≡ true) ms
      (λ x k. ground arith) (Rising-All m.id ms h.1),
  Rising-Backwards m.id ms h.1,
)

Falling-reverse : (n : ℕ) (ms : List Message) → Rising n ms → Falling (reverse ms)
Falling-reverse n [] h = tt
Falling-reverse n (m ∷ ms) h = rw (reverse-cons m ms) (
    Falling-snoc m (reverse ms) (Falling-reverse m.id ms h.1)
      (All-reverse (λ (x : Message). m.id < x.id) ms (Rising-All m.id ms h.1)) (omega arith))

filter-in_history :
    (conv_id : Text) (b : ℕ) (ms : List Message)
    → filter (in_history conv_id b) ms ≡ filter (kept_before b) (filter (in_history conv_id 0) ms)
filter-in_history conv_id b [] = refl
filter-in_history conv_id b (m ∷ ms) = ground (arith, filter-in_history conv_id b ms)

module _ (conv_id : Text) (db : Db) (rising : Rising 0 db.messages) where
  history-reverse :
      (b : ℕ) → history conv_id b db ≡ reverse (filter (in_history conv_id b) db.messages)
  history-reverse b =
      sort_by-Backwards newer _
        (Rising-Backwards 0 _ (Rising-filter (in_history conv_id b) 0 db.messages rising))

  Falling-history : (b : ℕ) → Falling (history conv_id b db)
  Falling-history b =
      rw (history-reverse b)
        (Falling-reverse 0 _ (Rising-filter (in_history conv_id b) 0 db.messages rising))

  history-filter : (b : ℕ) → history conv_id b db ≡ filter (kept_before b) (history conv_id 0 db)
  history-filter b =
      history-reverse b
      ∙ ap reverse (filter-in_history conv_id b db.messages)
      ∙ sym (filter-reverse (kept_before b) (filter (in_history conv_id 0) db.messages))
      ∙ ap (filter (kept_before b)) (sym (history-reverse 0))

last_id-take-before :
    (b n : ℕ) (ms : List Message)
    → suc n ≤ length (filter (kept_before b) ms)
    → is_before b (last_id (take (suc n) (filter (kept_before b) ms))) ≡ true
last_id-take-before b n ms h = go n (filter (kept_before b) ms) (all_kept ms) h
  where
    all_kept :
        (xs : List Message)
        → All (λ (x : Message). is_before b x.id ≡ true) (filter (kept_before b) xs)
    all_kept [] = tt
    all_kept (x ∷ xs) = ground (arith, all_kept xs)

    go :
        (k : ℕ) (xs : List Message)
        → All (λ (x : Message). is_before b x.id ≡ true) xs
        → suc k ≤ length xs
        → is_before b (last_id (take (suc k) xs)) ≡ true
    go k [] a l = absurd (omega arith)
    go zero (x ∷ xs) a l = a.0
    go (suc k) (x ∷ []) a l = absurd (omega arith)
    go (suc k) (x ∷ y ∷ xs) a l = go k (y ∷ xs) a.1 (omega arith)

filter_before_twice :
    (b c : ℕ) (ms : List Message)
    → is_before b c ≡ true
    → 0 < c
    → filter (kept_before c) (filter (kept_before b) ms) ≡ filter (kept_before c) ms
filter_before_twice b c [] h k = refl
filter_before_twice b c (m ∷ ms) h k = ground (arith, filter_before_twice b c ms h k)

pages_join :
    (n : ℕ) (ms : List Message)
    → map to_message_resp (reverse (drop n ms)) ++ map to_message_resp (reverse (take n ms))
      ≡ map to_message_resp (reverse ms)
pages_join n ms =
    sym (map-append to_message_resp (reverse (drop n ms)) (reverse (take n ms)))
    ∙ ap (map to_message_resp)
        (sym (reverse-append (take n ms) (drop n ms)) ∙ ap reverse (take-append-drop n ms))

module _ (conv_id : Text) (db : Db) (rising : Rising 0 db.messages) where
  history-cursor :
      (n b : ℕ)
      → suc n ≤ length (history conv_id b db)
      → history conv_id (last_id (take (suc n) (history conv_id b db))) db
        ≡ drop (suc n) (history conv_id b db)
  history-cursor n b h =
      let h₀ = history conv_id 0 db in
      let cur = history conv_id b db in
      let c = last_id (take (suc n) cur) in
      let same = history-filter conv_id db rising b in
      let falls = Falling-history conv_id db rising b in
      let before : is_before b c ≡ true =
        subst (λ ms. suc n ≤ length ms → is_before b (last_id (take (suc n) ms)) ≡ true) (sym same)
          (last_id-take-before b n h₀) h in
      history-filter conv_id db rising c
      ∙ sym (filter_before_twice b c h₀ before (last_id-take-pos n cur falls h))
      ∙ ap (filter (kept_before c)) (sym same)
      ∙ filter-cursor n cur falls h

  walk_from :
      (f n b : ℕ)
      → suc n < 100
      → length (history conv_id b db) < f
      → walk f conv_id (suc n) db b ≡ some (map to_message_resp (reverse (history conv_id b db)))
  unfolding walk
  walk_from zero n b k h = absurd (omega arith)
  walk_from (suc f) n b k h =
      let cur = history conv_id b db in
      let c = last_id (take (suc n) cur) in
      ap (λ page. join_pages page (walk f conv_id (suc n) db page.next_before_id))
        (page_at-exact conv_id b (suc n) db (omega arith) k)
      ∙ (elim (Bool-cases (ltb (suc n) (length cur))) [
        | inl more ↦
            let next = history-cursor n b (ground arith) in
            let ih = walk_from f n c k (
              rw next (omega (arith, length-drop (suc n) cur, ltb→lt (suc n) (length cur) more))) in
            rw (more, ih, next) (ap some (pages_join (suc n) cur))
        | inr done ↦ rw (done, take_all (suc n) cur (ground arith))
      ])

  -- Below the greatest limit, a client that follows `next_before_id` while `has_more` holds gets every
  -- message of the conversation exactly once, the oldest first, and comes to an end.
  pub walk_complete :
      (n : ℕ)
      → 0 < n
      → n < 100
      → walk (suc (length (history conv_id 0 db))) conv_id n db 0
        ≡ some (map to_message_resp (filter (in_history conv_id 0) db.messages))
  walk_complete zero h k = absurd (omega arith)
  walk_complete (suc n) h k =
      walk_from (suc (length (history conv_id 0 db))) n 0 k (omega arith)
      ∙ ap (λ ms. some (map to_message_resp (reverse ms))) (history-reverse conv_id db rising 0)
      ∙ ap (λ ms. some (map to_message_resp ms)) (reverse-reverse _)
