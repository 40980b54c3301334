-- ===== src/Dao/Peer.antt =====
-- `makePeerKey` of internal/dao/conversation.go, `parseC2CMembers` of conversation_state.go and
-- `NormalizeFriendPair` of friendship.go.
use blahaj_chat_server.Common.{
  ℕ, ◌≤◌, ◌≡◌, refl, ap, ◌∙◌, ◌≢◌, inl, inr, false, Option, none, some, List, [], ◌∷◌, ◌++◌, arith,
  ltb, ◌==◌, if◌then◌else◌, Text, All, All-imp, split, split_one, split_none, format_uint,
  format_uint-Digits, parse_uint, parse_uint-format_uint, max_uint64, Bool-cases, Digits,
}
use blahaj_chat_server.Errors.{Result, ok, err, conv_not_found}
use blahaj_chat_server.Model.{UserId, Conversation}

unfoldable pub normalize_friend_pair : UserId → UserId → UserId × UserId
normalize_friend_pair a b = if ltb b a then (b, a) else (a, b)

-- `fmt.Sprintf("%d_%d", uidA, uidB)`
peer_key_of : UserId × UserId → Text
peer_key_of (a, b) = format_uint a ++ b'_' ∷ format_uint b

unfoldable pub make_peer_key : UserId → UserId → Text
unfolding peer_key_of normalize_friend_pair
make_peer_key a b = peer_key_of (normalize_friend_pair a b)

parse_pair : Option ℕ → Option ℕ → Result (List UserId)
parse_pair none b = err conv_not_found
parse_pair (some a) none = err conv_not_found
parse_pair (some a) (some b) = ok (a ∷ b ∷ [])

parse_parts : List Text → Result (List UserId)
unfolding parse_pair
parse_parts (s ∷ t ∷ []) = parse_pair (parse_uint s) (parse_uint t)
parse_parts _ = err conv_not_found

unfoldable pub parse_c2c_members : Conversation → Result (List UserId)
unfolding parse_parts
parse_c2c_members conv = elim conv.peer_key [
  | none ↦ err conv_not_found
  | some key ↦ elim key [ [] ↦ err conv_not_found | c ∷ rest ↦ parse_parts (split b'_' (c ∷ rest)) ]
]

no_separator : (s : Text) → Digits s → All (λ c. (c == b'_') ≡ false) s
no_separator s h = All-imp _ (λ c. (c == b'_') ≡ false) s (λ c k. ground arith) h

split-peer_key_of :
    (a b : UserId) → split b'_' (peer_key_of (a, b)) ≡ format_uint a ∷ format_uint b ∷ []
unfolding peer_key_of
split-peer_key_of a b =
    split_one b'_' (format_uint a) (format_uint b)
      (no_separator (format_uint a) (format_uint-Digits a))
    ∙ ap (λ ss. format_uint a ∷ ss)
        (split_none b'_' (format_uint b) (no_separator (format_uint b) (format_uint-Digits b)))

parse_members_key :
    (conv : Conversation) (key : Text) (parts : List Text)
    → conv.peer_key ≡ some key
    → key ≢ []
    → split b'_' key ≡ parts
    → parse_c2c_members conv ≡ parse_parts parts
unfolding parse_c2c_members
parse_members_key conv [] parts e h k = absurd (h refl)
parse_members_key conv (c ∷ key) parts e h k = rw (e, parse_c2c_members) (ap parse_parts k)

peer_key_of_ne : (a b : UserId) → peer_key_of (a, b) ≢ []
unfolding peer_key_of
peer_key_of_ne a b = go (format_uint a)
  where
    go : (s : Text) → s ++ b'_' ∷ format_uint b ≢ []
    go [] e = cc
    go (c ∷ s) e = cc

parse_members_pair :
    (conv : Conversation) (a b : UserId)
    → conv.peer_key ≡ some (peer_key_of (a, b))
    → a ≤ max_uint64
    → b ≤ max_uint64
    → parse_c2c_members conv ≡ ok (a ∷ b ∷ [])
unfolding parse_parts
parse_members_pair conv a b e h k =
    parse_members_key conv (peer_key_of (a, b)) _ e (peer_key_of_ne a b) (split-peer_key_of a b)
    ∙ rw (parse_uint-format_uint a h, parse_uint-format_uint b k)

-- The members of a conversation whose key is made for `a` and `b` are the two, the lesser first.
pub parse_c2c_members-make_peer_key :
    (conv : Conversation) (a b : UserId)
    → conv.peer_key ≡ some (make_peer_key a b)
    → a ≤ max_uint64
    → b ≤ max_uint64
    → parse_c2c_members conv ≡ ok (if ltb b a then b ∷ a ∷ [] else a ∷ b ∷ [])
unfolding make_peer_key
parse_c2c_members-make_peer_key conv a b e h k = elim (Bool-cases (ltb b a)) [
  | inl c ↦ rw c (parse_members_pair conv b a (e ∙ rw (c, make_peer_key)) k h)
  | inr c ↦ rw c (parse_members_pair conv a b (e ∙ rw (c, make_peer_key)) h k)
]

-- The key does not depend on who asks.
pub make_peer_key_comm : (a b : UserId) → make_peer_key a b ≡ make_peer_key b a
unfolding make_peer_key
make_peer_key_comm a b = ground arith
