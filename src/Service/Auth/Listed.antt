-- ===== src/Service/Auth/Listed.antt =====
-- auth.go: every refresh token that Redis holds is in the set of sessions of its user, so that `LogoutAll`
-- finds it: the tables of Redis.
use blahaj_chat_server.Common.{
  ◌≡◌, sym, ◌∙◌, subst, true, false, not, Option, none, some, List, [], ◌∷◌, ◌++◌, inl, inr, Text,
  codes, text_eq, text_eq_iff, text_eq_refl, any, filter, Dict, lookup, insert, without,
  lookup-insert, lookup-without, text_eq_instance, arith, Bool-cases, if◌then◌else◌,
}
use blahaj_chat_server.Model.{Instant}
use blahaj_chat_server.Platform.{World, Entry}
use blahaj_chat_server.Service.Auth.{refresh_key, blacklist_key, set_add}
use blahaj_chat_server.Service.Auth.Sessions.{refresh_keys, other_key}

-- The key of the sessions of a user, from the decimal form of the id that a refresh token holds.
unfoldable pub session_key : Text → Text
session_key raw = codes "userSession:" ++ raw

unfoldable pub members_of : Text → Dict Text (List Text) → List Text
members_of key sets = elim (lookup key sets) [ none ↦ [] | some set ↦ set ]

abbrev pub AreListed : Dict Text Entry → Dict Text (List Text) → Type 0
AreListed strings sets =
    (token : Text) (e : Entry)
    → lookup (refresh_key token) strings ≡ some e
    → any (text_eq token) (members_of (session_key e.value) sets) ≡ true

-- Each refresh token in Redis is in the set of sessions of the user that it holds.
pub record IsListed (w : World) : Type 0 where
  pub at : AreListed w.strings w.sets

pub members_of-insert :
    (key j : Text) (set : List Text) (sets : Dict Text (List Text))
    → members_of j (insert key set sets) ≡ (if text_eq key j then set else members_of j sets)
unfolding members_of
members_of-insert key j set sets = ground (arith, lookup-insert key j set sets)

pub members_of-without :
    (key j : Text) (sets : Dict Text (List Text))
    → members_of j (without key sets) ≡ (if text_eq key j then [] else members_of j sets)
unfolding members_of
members_of-without key j sets = ground (arith, lookup-without key j sets)

any-set_add :
    (x v : Text) (set : List Text)
    → any (text_eq x) set ≡ true
    → any (text_eq x) (set_add v set) ≡ true
any-set_add x v set h = elim (Bool-cases (any (text_eq v) set)) [
  | inl e ↦ rw e h
  | inr e ↦ rw e (ground (arith, h))
]

any-set_add_self : (v : Text) (set : List Text) → any (text_eq v) (set_add v set) ≡ true
any-set_add_self v set = elim (Bool-cases (any (text_eq v) set)) [
  | inl e ↦ rw e e
  | inr e ↦ rw e (ground (arith, text_eq_refl v))
]

-- Removing another token.
any-filter :
    (x v : Text) (set : List Text)
    → text_eq v x ≡ false
    → any (text_eq x) set ≡ true
    → any (text_eq x) (filter (λ y. not (text_eq v y)) set) ≡ true
any-filter x v [] n h = h
any-filter x v (y ∷ set) n h = elim (Bool-cases (text_eq x y)) [
  | inl e ↦
      let same = (text_eq_iff x y).0 e in
      let other : text_eq v y ≡ false = subst (λ z. text_eq v z ≡ false) same n in
      ground (arith, e, other)
  | inr e ↦ ground (arith, any-filter x v set n)
]

-- A token that is stored, and added to the set of its user.
pub insert-AreListed :
    (token raw : Text) (exp : Option Instant) (strings : Dict Text Entry)
    (sets : Dict Text (List Text))
    → AreListed strings sets
    → AreListed
        (insert (refresh_key token) (record { value = raw; expires = exp }) strings)
        (insert (session_key raw) (set_add token (members_of (session_key raw) sets)) sets)
insert-AreListed token raw exp strings sets h x e held =
    let entry : Entry = record { value = raw; expires = exp } in
    let set = set_add token (members_of (session_key raw) sets) in
    let found = sym (lookup-insert (refresh_key token) (refresh_key x) entry strings) ∙ held in
    let now_in = members_of-insert (session_key raw) (session_key e.value) set sets in
    elim (Bool-cases (text_eq token x)) [
      | inl i ↦
          let value : raw ≡ e.value = ground (arith, i, refresh_keys token x, found) in
          let same = (text_eq_iff token x).0 i in
          let key : text_eq (session_key raw) (session_key e.value) ≡ true =
            subst (λ v. text_eq (session_key raw) (session_key v) ≡ true) value
              (text_eq_refl (session_key raw)) in
          let member : any (text_eq x) set ≡ true =
            subst (λ y. any (text_eq y) set ≡ true) same
              (any-set_add_self token (members_of (session_key raw) sets)) in
          rw now_in (rw key member)
      | inr i ↦
          let before : lookup (refresh_key x) strings ≡ some e =
            ground (arith, i, refresh_keys token x, found) in
          let old = h x e before in
          elim (Bool-cases (text_eq (session_key raw) (session_key e.value))) [
            | inl k ↦
                let key = (text_eq_iff (session_key raw) (session_key e.value)).0 k in
                let member : any (text_eq x) set ≡ true =
                  any-set_add x token (members_of (session_key raw) sets)
                    (subst (λ j. any (text_eq x) (members_of j sets) ≡ true) (sym key) old) in
                rw now_in (rw k member)
            | inr k ↦ rw now_in (rw k old)
          ]
    ]

-- A token that is deleted, and taken out of one set.
pub delete-AreListed :
    (token key : Text) (strings : Dict Text Entry) (sets : Dict Text (List Text))
    → AreListed strings sets
    → AreListed
        (without (refresh_key token) strings)
        (insert key (filter (λ y. not (text_eq token y)) (members_of key sets)) sets)
delete-AreListed token key strings sets h x e held =
    let set = filter (λ y. not (text_eq token y)) (members_of key sets) in
    let found = sym (lookup-without (refresh_key token) (refresh_key x) strings) ∙ held in
    let now_in = members_of-insert key (session_key e.value) set sets in
    elim (Bool-cases (text_eq token x)) [
      | inl i ↦ absurd (ground (arith, i, refresh_keys token x, found))
      | inr i ↦
          let before : lookup (refresh_key x) strings ≡ some e =
            ground (arith, i, refresh_keys token x, found) in
          let old = h x e before in
          elim (Bool-cases (text_eq key (session_key e.value))) [
            | inl k ↦
                let same = (text_eq_iff key (session_key e.value)).0 k in
                let member : any (text_eq x) set ≡ true =
                  any-filter x token (members_of key sets) i
                    (subst (λ j. any (text_eq x) (members_of j sets) ≡ true) (sym same) old) in
                rw now_in (rw k member)
            | inr k ↦ rw now_in (rw k old)
          ]
    ]

-- Keys that are not of refresh tokens may be stored.
pub other-AreListed :
    (jti : Text) (entry : Entry) (strings : Dict Text Entry) (sets : Dict Text (List Text))
    → AreListed strings sets
    → AreListed (insert (blacklist_key jti) entry strings) sets
other-AreListed jti entry strings sets h x e held = h x e (
    ground (
      arith,
      other_key jti x,
      lookup-insert (blacklist_key jti) (refresh_key x) entry strings,
      held,
    ))

pub leaves :
    {strings : Dict Text Entry} {sets : Dict Text (List Text)} (w : World)
    → w.strings ≡ strings
    → w.sets ≡ sets
    → AreListed strings sets
    → IsListed w
leaves {strings} w a b h = record {
  at = subst (λ s. AreListed s w.sets) (sym a) (subst (AreListed strings) (sym b) h);
}
