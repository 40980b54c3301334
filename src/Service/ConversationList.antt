-- ===== src/Service/ConversationList.antt =====
-- `GetConversationListByID` of internal/service/conversation/conversation_state.go.
use blahaj_chat_server.Common.{
  ℕ, ◌≤◌, ◌≡◌, refl, Bool, true, false, not, ◌⊎◌, Option, none, some, List, [], ◌∷◌, ltb,
  if◌then◌else◌, Text, map, All, All-imp, sort_by, sort_by-perm, sort_by-Ordered, Ordered, Dict,
  lookup, text_eq_instance, arith,
}
use mathlib.Core.List.{Perm}
use blahaj_chat_server.Model.{UserId, Conversation, ConversationState, unix_milli, is_zero}
use blahaj_chat_server.Platform.{Platform, M, pure, ◌>>=◌}
use blahaj_chat_server.Dao.State.{get_conversation_states_by_uid}
use blahaj_chat_server.Dao.Conversation.{get_convs_by_ids}

-- `response.ConversationListResp` of internal/dto/response/conversation.go.
pub record ConversationListResp : Type 0 where
  pub conv_id : Text
  pub type : Text
  pub peer_key : Text
  pub name : Text
  pub avatar : Text
  pub owner_id : UserId
  pub last_msg_id : Text
  pub last_msg_at : ℕ
  pub last_read_msg_id : Text
  pub unread : ℕ
  pub pinned : Bool
  pub muted : Bool

abbrev text_or_empty : Option Text → Text
text_or_empty none = []
text_or_empty (some s) = s

abbrev pub to_item : ConversationState → Conversation → ConversationListResp
to_item state conv = record {
  conv_id = conv.conv_id;
  type = conv.type;
  peer_key = text_or_empty conv.peer_key;
  name = conv.name;
  avatar = conv.avatar;
  owner_id = conv.owner_id;
  last_msg_id = conv.last_msg_id;
  last_msg_at = if is_zero conv.last_msg_at then 0 else unix_milli conv.last_msg_at;
  last_read_msg_id = state.last_read_msg_id;
  unread = state.unread;
  pinned = state.pinned;
  muted = state.muted;
}

-- The loop over the states: a state whose conversation is missing is passed over.
unfoldable pub items_of :
    List ConversationState → Dict Text Conversation → List ConversationListResp
items_of [] convs = []
items_of (s ∷ states) convs =
    let rest = items_of states convs in
    elim (lookup s.conv_id convs) [ none ↦ rest | some conv ↦ to_item s conv ∷ rest ]

abbrev bool_eq : Bool → Bool → Bool
bool_eq true b = b
bool_eq false b = not b

-- The `less` of `sort.SliceStable`.
unfoldable pub shown_first : ConversationListResp → ConversationListResp → Bool
shown_first a b = if bool_eq a.pinned b.pinned then ltb b.last_msg_at a.last_msg_at else a.pinned

unfoldable pub conversation_states_to_list :
    List ConversationState → Dict Text Conversation → List ConversationListResp
conversation_states_to_list states convs = sort_by shown_first (items_of states convs)

abbrev pub conv_ids : List ConversationState → List Text
conv_ids = map λ s. s.conv_id

module _ (p : Platform) where
  unfoldable pub get_conversation_list_by_id : UserId → M (List ConversationListResp)
  get_conversation_list_by_id uid = do
    states ← get_conversation_states_by_uid p uid
    convs ← get_convs_by_ids p (conv_ids states)
    pure (conversation_states_to_list states convs)

-- `a` may stand above `b`: a pinned conversation above one that is not, and otherwise the one with the
-- later message above.
abbrev pub MayPrecede : ConversationListResp → ConversationListResp → Type 0
MayPrecede a b =
    ((a.pinned ≡ true) ⊎ (b.pinned ≡ false)) × (a.pinned ≡ b.pinned → b.last_msg_at ≤ a.last_msg_at)

abbrev pub IsShownInOrder : List ConversationListResp → Type 0
IsShownInOrder [] = Unit {0}
IsShownInOrder (a ∷ rest) = All (λ b. MayPrecede a b) rest × IsShownInOrder rest

shown_asym : (x y : ConversationListResp) → shown_first x y ≡ true → shown_first y x ≡ false
unfolding shown_first
shown_asym x y h = ground arith

shown_trans :
    (x y z : ConversationListResp)
    → shown_first y x ≡ false
    → shown_first z y ≡ false
    → shown_first z x ≡ false
unfolding shown_first
shown_trans x y z h k = ground arith

MayPrecede-of_not_less : (a b : ConversationListResp) → shown_first b a ≡ false → MayPrecede a b
unfolding shown_first
MayPrecede-of_not_less a b h = ground arith

IsShownInOrder-Ordered :
    (xs : List ConversationListResp) → Ordered shown_first xs → IsShownInOrder xs
IsShownInOrder-Ordered [] h = tt
IsShownInOrder-Ordered (x ∷ xs) h = (
  All-imp (λ y. shown_first y x ≡ false) (λ y. MayPrecede x y) xs (MayPrecede-of_not_less x) h.0,
  IsShownInOrder-Ordered xs h.1,
)

-- The entries of states, in their order: one for each state whose conversation is there, and none for
-- the others.
pub data Shows (convs : Dict Text Conversation)
    : List ConversationState → List ConversationListResp → Type 0 where
  no_more : Shows convs [] []
  missing :
      {state : ConversationState} {states : List ConversationState}
      {items : List ConversationListResp}
      → lookup state.conv_id convs ≡ none
      → Shows convs states items
      → Shows convs (state ∷ states) items
  shown :
      {state : ConversationState} {states : List ConversationState} {conv : Conversation}
      {items : List ConversationListResp}
      → lookup state.conv_id convs ≡ some conv
      → Shows convs states items
      → Shows convs (state ∷ states) (to_item state conv ∷ items)

items_of-Shows :
    (states : List ConversationState) (convs : Dict Text Conversation)
    → Shows convs states (items_of states convs)
unfolding items_of
items_of-Shows [] convs = no_more
items_of-Shows (s ∷ states) convs = go (items_of-Shows states convs) (lookup s.conv_id convs) refl
  where
    go :
        Shows convs states (items_of states convs)
        → (o : Option Conversation) → lookup s.conv_id convs ≡ o
        → Shows convs (s ∷ states) (items_of (s ∷ states) convs)
    go rest none e = rw (e, items_of) (missing e rest)
    go rest (some conv) e = rw (e, items_of) (shown e rest)

-- The list is a reordering of the entries of the states: one for each state whose conversation is there,
-- and none for the others. A pinned conversation stands above one that is not, and among those that
-- agree in this the one with the later message stands above.
pub conversation_states_to_list-order :
    (states : List ConversationState) (convs : Dict Text Conversation)
    → (items : List ConversationListResp) × Shows convs states items
      × Perm (conversation_states_to_list states convs) items
      × IsShownInOrder (conversation_states_to_list states convs)
unfolding conversation_states_to_list
conversation_states_to_list-order states convs = (
  items_of states convs,
  items_of-Shows states convs,
  sort_by-perm shown_first (items_of states convs),
  IsShownInOrder-Ordered _
      (sort_by-Ordered shown_first shown_asym shown_trans (items_of states convs)),
)
