-- ===== src/Service/Group/Members.antt =====
-- The member lists of internal/service/conversation/group.go: `normalizeGroupMembers`,
-- `mergeMembers`, `containsUID` (which is `contains`) and `removeMember`.
use blahaj_chat_server.Common.{
  Bool, true, false, ◌&&◌, ◌||◌, not, List, [], ◌∷◌, ◌++◌, ltb, ◌==◌, if◌then◌else◌, filter, length,
  contains, sort_uids,
}
use blahaj_chat_server.Errors.{Result, ok, err, invalid_group}
use blahaj_chat_server.Model.{UserId}

-- The closure `add`: `seen` holds what `members` holds.
unfoldable pub add_member : List UserId → UserId → List UserId
add_member members uid =
    if uid == 0 then members else if contains members uid then members else members ++ uid ∷ []

unfoldable pub add_members : List UserId → List UserId → List UserId
unfolding add_member
add_members members [] = members
add_members members (uid ∷ input) = add_members (add_member members uid) input

unfoldable pub normalize_group_members : UserId → List UserId → Bool → Result (List UserId)
normalize_group_members owner input require_other =
    let members = add_members (add_member [] owner) input in
    if require_other && ltb (length members) 2
    then err invalid_group
    else if not require_other && length members == 0
    then err invalid_group
    else ok (sort_uids members)

-- The first loop of `mergeMembers`: what is not 0 is kept, also where it stands twice.
unfoldable pub keep_nonzero : List UserId → List UserId
keep_nonzero = filter λ uid. not (uid == 0)

-- The second loop, with the flag `added`.
unfoldable pub merge_candidates : List UserId → Bool → List UserId → List UserId × Bool
merge_candidates merged added [] = (merged, added)
merge_candidates merged added (uid ∷ candidates) =
    let skip = uid == 0 || contains merged uid in
    merge_candidates (if skip then merged else merged ++ uid ∷ []) (if skip then added else true)
      candidates

unfoldable pub merge_members : List UserId → List UserId → List UserId × Bool
merge_members current candidates =
    let (merged, added) = merge_candidates (keep_nonzero current) false candidates in
    (sort_uids merged, added)

unfoldable pub remove_member : List UserId → UserId → List UserId × Bool
remove_member [] uid = ([], false)
remove_member (m ∷ current) uid =
    let (next, removed) = remove_member current uid in
    if m == uid then (next, true) else (m ∷ next, removed)
