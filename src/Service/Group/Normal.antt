-- ===== src/Service/Group/Normal.antt =====
-- The member lists of a group: what `normalizeGroupMembers`, `mergeMembers` and `removeMember` return.
use blahaj_chat_server.Common.{
  ◌≢◌, ◌≤◌, ◌<◌, ◌≡◌, refl, sym, ◌∙◌, ap, subst, Bool, true, false, ◌&&◌, ◌||◌, not, List, [], ◌∷◌,
  ◌++◌, ◌==◌, if◌then◌else◌, filter, length, contains, contains-append, sort_uids,
  contains-sort_uids, length-sort_uids, sort_uids-Ascending, Ascending, Ascending-Distinct,
  Distinct, arith, any, All-filter,
}
use blahaj_chat_server.Errors.{Error, ok, err, invalid_group}
use blahaj_chat_server.Model.{UserId}
use blahaj_chat_server.Service.Group.Members.{
  add_member, add_members, normalize_group_members, keep_nonzero, merge_candidates, merge_members,
  remove_member,
}

contains-snoc :
    (xs : List UserId) (u a : UserId) → contains (xs ++ u ∷ []) a ≡ contains xs a || u == a
contains-snoc xs u a = ground (arith, contains-append xs (u ∷ []) a)

-- Equal ids are contained alike.
same : (xs : List UserId) (u a : UserId) → (u == a) ≡ true → contains xs u ≡ contains xs a
same xs u a e = ap (contains xs) (ground arith)

contains-add_member :
    (members : List UserId) (uid a : UserId)
    → contains (add_member members uid) a ≡ contains members a || not (a == 0) && uid == a
unfolding add_member
contains-add_member members uid a = ground (arith, contains-snoc members uid a, same members uid a)

-- The members and what the input brings, without 0.
contains-add_members :
    (members input : List UserId) (a : UserId)
    → contains (add_members members input) a
      ≡ contains members a || not (a == 0) && contains input a
unfolding add_members
contains-add_members members [] a = ground arith
contains-add_members members (uid ∷ input) a = ground (
  arith,
  contains-add_members (add_member members uid) input a,
  contains-add_member members uid a,
)

Distinct-snoc :
    (xs : List UserId) (u : UserId) → Distinct xs → contains xs u ≡ false → Distinct (xs ++ u ∷ [])
Distinct-snoc [] u h k = (refl, tt)
Distinct-snoc (x ∷ xs) u h k =
    (ground (arith, contains-snoc xs u x), Distinct-snoc xs u h.1 (ground arith))

Distinct-add_members :
    (members input : List UserId) → Distinct members → Distinct (add_members members input)
unfolding add_members
Distinct-add_members members [] h = h
Distinct-add_members members (uid ∷ input) h =
    Distinct-add_members (add_member members uid) input
      (unfold add_member in ground (arith, Distinct-snoc members uid))

Ascending-members :
    (owner : UserId) (input : List UserId)
    → Ascending (sort_uids (add_members (add_member [] owner) input))
Ascending-members owner input = sort_uids-Ascending _ (
    Distinct-add_members (add_member [] owner) input
      (unfold add_member in ground (arith, Distinct-snoc [] owner)))

contains-members :
    (owner : UserId) (input : List UserId) (a : UserId)
    → contains (sort_uids (add_members (add_member [] owner) input)) a
      ≡ not (a == 0) && (owner == a || contains input a)
contains-members owner input a = ground (
  arith,
  contains-sort_uids (add_members (add_member [] owner) input) a,
  contains-add_members (add_member [] owner) input a,
  contains-add_member [] owner a,
)

-- An accepted member list rises without repetition, holds the owner and everybody in the input but
-- the id 0, and nobody else; for a new group it has at least two members, and otherwise one.
pub normalize_ok :
    (owner : UserId) (input : List UserId) (require_other : Bool) {members : List UserId}
    → normalize_group_members owner input require_other ≡ ok members
    → Ascending members
      × ((a : UserId) → contains members a ≡ not (a == 0) && (owner == a || contains input a))
      × ((if require_other then 2 else 1) ≤ length members)
unfolding normalize_group_members
normalize_ok owner input require_other {members} h =
    let all = add_members (add_member [] owner) input in
    let e : members ≡ sort_uids all = ground arith in
    (
      subst Ascending (sym e) (Ascending-members owner input),
      λ a. ap (λ ms. contains ms a) e ∙ contains-members owner input a,
      ground (arith, length-sort_uids all),
    )

one_of_short :
    (xs : List UserId) (a b : UserId)
    → length xs < 2
    → contains xs a ≡ true
    → contains xs b ≡ true
    → a ≡ b
one_of_short [] a b h k l = cc
one_of_short (x ∷ []) a b h k l = ground arith
one_of_short (x ∷ y ∷ xs) a b h k l = absurd (omega arith)

-- A new group is refused only if the owner and the input name no two different users.
pub normalize_refused :
    (owner : UserId) (input : List UserId) {e : Error} (a b : UserId)
    → normalize_group_members owner input true ≡ err e
    → a ≢ 0
    → b ≢ 0
    → (owner == a || contains input a) ≡ true
    → (owner == b || contains input b) ≡ true
    → (e ≡ invalid_group) × (a ≡ b)
unfolding normalize_group_members
normalize_refused owner input a b h k l m n =
    let all = add_members (add_member [] owner) input in
    (
      ground arith,
      one_of_short all a b (ground arith)
          (ground (
            arith,
            contains-add_members (add_member [] owner) input a,
            contains-add_member [] owner a,
          ))
          (ground (
            arith,
            contains-add_members (add_member [] owner) input b,
            contains-add_member [] owner b,
          )),
    )

contains-keep_nonzero :
    (xs : List UserId) (a : UserId) → contains (keep_nonzero xs) a ≡ not (a == 0) && contains xs a
unfolding keep_nonzero
contains-keep_nonzero [] a = ground arith
contains-keep_nonzero (x ∷ xs) a = ground (arith, contains-keep_nonzero xs a)

contains-merge_candidates :
    (merged : List UserId) (added : Bool) (candidates : List UserId) (a : UserId)
    → contains (merge_candidates merged added candidates).0 a
      ≡ contains merged a || not (a == 0) && contains candidates a
unfolding merge_candidates
contains-merge_candidates merged added [] a = ground arith
contains-merge_candidates merged added (u ∷ candidates) a =
    let skip = u == 0 || contains merged u in
    ground (
      arith,
      contains-merge_candidates (if skip then merged else merged ++ u ∷ [])
          (if skip then added else true) candidates a,
      contains-snoc merged u a,
      same merged u a,
    )

added-merge_candidates :
    (merged : List UserId) (added : Bool) (candidates : List UserId)
    → (merge_candidates merged added candidates).1
      ≡ added || any (λ c. not (c == 0) && not (contains merged c)) candidates
unfolding merge_candidates
added-merge_candidates merged added [] = ground arith
added-merge_candidates merged added (u ∷ candidates) =
    let skip = u == 0 || contains merged u in
    ground (
      arith,
      added-merge_candidates (if skip then merged else merged ++ u ∷ [])
          (if skip then added else true) candidates,
    )

Distinct-merge_candidates :
    (merged : List UserId) (added : Bool) (candidates : List UserId)
    → Distinct merged
    → Distinct (merge_candidates merged added candidates).0
unfolding merge_candidates
Distinct-merge_candidates merged added [] h = h
Distinct-merge_candidates merged added (u ∷ candidates) h =
    let skip = u == 0 || contains merged u in
    Distinct-merge_candidates (if skip then merged else merged ++ u ∷ [])
      (if skip then added else true) candidates (ground (arith, Distinct-snoc merged u h))

Distinct-keep_nonzero : (xs : List UserId) → Distinct xs → Distinct (keep_nonzero xs)
unfolding keep_nonzero
Distinct-keep_nonzero [] h = tt
Distinct-keep_nonzero (x ∷ xs) h =
    ground (arith, Distinct-keep_nonzero xs h.1, contains-keep_nonzero xs x)

any-new :
    (current candidates : List UserId)
    → any (λ c. not (c == 0) && not (contains (keep_nonzero current) c)) candidates
      ≡ any (λ c. not (c == 0) && not (contains current c)) candidates
any-new current [] = refl
any-new current (c ∷ candidates) =
    ground (arith, any-new current candidates, contains-keep_nonzero current c)

-- Adding candidates to the members of a group gives a list that rises without repetition and holds
-- both, without the id 0; the flag is set exactly if some candidate was no member.
pub merge_members_lem :
    (current candidates : List UserId)
    → Ascending current
    → Ascending (merge_members current candidates).0
      × ((a : UserId)
          → contains (merge_members current candidates).0 a
            ≡ not (a == 0) && (contains current a || contains candidates a))
      × ((merge_members current candidates).1
          ≡ any (λ c. not (c == 0) && not (contains current c)) candidates)
unfolding merge_members
merge_members_lem current candidates h =
    let kept = keep_nonzero current in
    (
      sort_uids-Ascending _ (
          Distinct-merge_candidates kept false candidates
            (Distinct-keep_nonzero current (Ascending-Distinct current h))),
      λ a. ground (
        arith,
        contains-sort_uids (merge_candidates kept false candidates).0 a,
        contains-merge_candidates kept false candidates a,
        contains-keep_nonzero current a,
      ),
      added-merge_candidates kept false candidates ∙ any-new current candidates,
    )

remove_member-filter :
    (current : List UserId) (uid : UserId)
    → remove_member current uid ≡ (filter (λ m. not (m == uid)) current, contains current uid)
unfolding remove_member
remove_member-filter [] uid = refl
remove_member-filter (m ∷ current) uid = ground (arith, remove_member-filter current uid)

Ascending-filter : (f : UserId → Bool) (xs : List UserId) → Ascending xs → Ascending (filter f xs)
Ascending-filter f [] h = tt
Ascending-filter f (x ∷ xs) h =
    ground (arith, Ascending-filter f xs h.1, All-filter (λ y. x < y) f xs h.0)

contains-filter_ne :
    (xs : List UserId) (uid a : UserId)
    → contains (filter (λ m. not (m == uid)) xs) a ≡ not (a == uid) && contains xs a
contains-filter_ne [] uid a = ground arith
contains-filter_ne (x ∷ xs) uid a = ground (arith, contains-filter_ne xs uid a)

-- Removing a user keeps the order, takes out that user and nobody else, and says whether the user was
-- there.
pub remove_member_lem :
    (current : List UserId) (uid : UserId)
    → Ascending current
    → Ascending (remove_member current uid).0
      × ((a : UserId)
          → contains (remove_member current uid).0 a ≡ not (a == uid) && contains current a)
      × ((remove_member current uid).1 ≡ contains current uid)
remove_member_lem current uid h =
    rw (remove_member-filter current uid)
      (Ascending-filter _ current h, contains-filter_ne current uid, refl)
