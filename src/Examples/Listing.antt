-- ===== src/Examples/Listing.antt =====
-- The list of conversations of two states, one pinned.
use blahaj_chat_server.Common.{true, [], ◌∷◌, List, codes, Dict, Text}
use blahaj_chat_server.Model.{Conversation, ConversationState}
use blahaj_chat_server.Service.ConversationList.{
  conversation_states_to_list, conversation_states_to_list-order, IsShownInOrder,
}
use blahaj_chat_server.Examples.Fixtures.{direct, trio, state_of}

abbrev three_states : List ConversationState
three_states =
    state_of 1 (codes "x")
    ∷ state_of 1 (codes "d")
    ∷ record (state_of 1 (codes "g")) { pinned = true }
    ∷ []

abbrev two_convs : Dict Text Conversation
two_convs = (codes "d", direct) ∷ (codes "g", trio) ∷ []

conversation_states_to_list-order_example :
    IsShownInOrder (conversation_states_to_list three_states two_convs)
conversation_states_to_list-order_example =
    (conversation_states_to_list-order three_states two_convs).3
