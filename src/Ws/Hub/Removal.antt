-- ===== src/Ws/Hub/Removal.antt =====
-- hub.go: `removeClient`.
use blahaj_chat_server.Common.{
  ℕ, ◌≡◌, refl, sym, ◌∙◌, ap, subst, Bool, true, false, ◌&&◌, not, Option, some, List, [], ◌∷◌,
  ◌==◌, ==_iff, filter, length, contains, All, All-imp, Dict, lookup, insert, without, nat_eq,
  lookup-insert, arith, Bool-cases, inl, inr,
}
use blahaj_chat_server.Model.{UserId}
use blahaj_chat_server.Ws.Hub.{Client, set_of, delete_from, shut}
use blahaj_chat_server.Ws.Hub.Same.{opened, alive, there}
use blahaj_chat_server.Ws.Hub.Sane.{registered, AllOpen, AllWaiting}
use blahaj_chat_server.Ws.Hub.Register.{registered-without, registered-lookup}

pub contains-filter :
    (p : ℕ → Bool) (set : List ℕ) (x : ℕ)
    → contains set x ≡ false
    → contains (filter p set) x ≡ false
contains-filter p [] x h = refl
contains-filter p (y ∷ set) x h = ground (arith, contains-filter p set x)

pub registered-delete_from :
    (uid : UserId) (c x : ℕ) (clients : Dict UserId (List ℕ))
    → registered x clients ≡ false
    → registered x (delete_from uid (set_of (lookup uid clients)) c clients) ≡ false
unfolding delete_from insert
registered-delete_from uid c x clients h =
    let set = set_of (lookup uid clients) in
    ground (
      arith,
      registered-without x uid clients h,
      contains-filter (λ y. not (y == c)) set x (registered-lookup x uid clients h),
    )

pub insert_lem :
    (uid : UserId) (set : List ℕ) (clients : Dict UserId (List ℕ))
    → insert uid set clients ≡ (uid, set) ∷ without uid clients
unfolding insert
insert_lem uid set clients = refl

-- The connection `c` of `k` is closed.
module _ (conns : Dict ℕ Client) (c : ℕ) (k : Client) (i : lookup c conns ≡ some k) where
  pub elsewhere_open :
      (uid x : ℕ)
      → (k.user_id == uid) ≡ false
      → opened uid (lookup x conns) ≡ true
      → opened uid (lookup x (insert c (shut k) conns)) ≡ true
  elsewhere_open uid x u h = elim (Bool-cases (c == x)) [
    | inl e ↦
        let at = subst (λ y. lookup y conns ≡ some k) ((==_iff c x).0 e) i in
        absurd (ground (arith, at, h, u))
    | inr e ↦ ap (opened uid) (lookup-insert c x (shut k) conns) ∙ rw e h
  ]

  pub other_kept {κ} :
      {A : Type κ} (f : Option Client → A) (x : ℕ)
      → (c == x) ≡ false
      → f (lookup x (insert c (shut k) conns)) ≡ f (lookup x conns)
  other_kept f x e = ap f (lookup-insert c x (shut k) conns) ∙ rw e refl

  pub AllOpen-shut :
      (clients : Dict UserId (List ℕ))
      → AllOpen conns clients
      → AllOpen (insert c (shut k) conns) (without k.user_id clients)
  unfolding without
  AllOpen-shut [] a = tt
  AllOpen-shut ((u, set) ∷ clients) a = elim (Bool-cases (u == k.user_id)) [
    | inl e ↦ rw (e, without) (AllOpen-shut clients a.1)
    | inr e ↦
        rw (e, without)
          (
            All-imp _ _ set (λ x o. elsewhere_open u x (ground arith) o) a.0,
            AllOpen-shut clients a.1,
          )
  ]

  pub rest_open :
      (uid : UserId) (set : List ℕ)
      → All (λ x. opened uid (lookup x conns) ≡ true) set
      → All
          (λ x. opened uid (lookup x (insert c (shut k) conns)) ≡ true)
          (filter (λ x. not (x == c)) set)
  rest_open uid [] a = tt
  rest_open uid (x ∷ set) a = elim (Bool-cases (x == c)) [
    | inl e ↦ rw e (rest_open uid set a.1)
    | inr e ↦ rw e (other_kept (opened uid) x (ground arith) ∙ a.0, rest_open uid set a.1)
  ]

  pub AllOpen-insert :
      (set : List ℕ) (clients : Dict UserId (List ℕ))
      → All (λ x. opened k.user_id (lookup x (insert c (shut k) conns)) ≡ true) set
      → AllOpen conns clients
      → AllOpen (insert c (shut k) conns) (insert k.user_id set clients)
  AllOpen-insert set clients b a =
      subst (AllOpen (insert c (shut k) conns)) (sym (insert_lem k.user_id set clients))
        (b, AllOpen-shut clients a)

  pub AllOpen-delete_from :
      (set : List ℕ) (clients : Dict UserId (List ℕ))
      → All (λ x. opened k.user_id (lookup x conns) ≡ true) set
      → AllOpen conns clients
      → AllOpen (insert c (shut k) conns) (delete_from k.user_id set c clients)
  unfolding delete_from
  AllOpen-delete_from set clients b a =
      elim (Bool-cases (length (filter (λ x. not (x == c)) set) == 0)) [
        | inl e ↦ rw (e, delete_from) (AllOpen-shut clients a)
        | inr e ↦ rw (e, delete_from) (AllOpen-insert _ clients (rest_open k.user_id set b) a)
      ]

  pub waiting-shut :
      (clients : Dict UserId (List ℕ)) (cs : List ℕ)
      → contains (set_of (lookup k.user_id clients)) c ≡ true
      → AllWaiting conns clients cs
      → AllWaiting
          (insert c (shut k) conns)
          (delete_from k.user_id (set_of (lookup k.user_id clients)) c clients)
          cs
  waiting-shut clients [] m a = tt
  waiting-shut clients (x ∷ cs) m a =
      let nowhere : registered x clients ≡ false = ground (arith, a.0) in
      let still = registered-delete_from k.user_id c x clients nowhere in
      (
        elim (Bool-cases (c == x)) [
          | inl e ↦
              let not_in = registered-lookup x k.user_id clients nowhere in
              let not_c =
                subst (λ y. contains (set_of (lookup k.user_id clients)) y ≡ false)
                  (sym ((==_iff c x).0 e)) not_in in
              absurd (ground (arith, not_c, m))
          | inr e ↦
              ap
                (λ b.
                  b
                  && not (
                      registered x
                        (delete_from k.user_id (set_of (lookup k.user_id clients)) c clients)))
                (other_kept alive x e)
              ∙ ground (arith, a.0, still)
        ],
        waiting-shut clients cs m a.1,
      )

  pub still_free :
      (x : ℕ) → there (lookup x conns) ≡ false → there (lookup x (insert c (shut k) conns)) ≡ false
  still_free x h = elim (Bool-cases (c == x)) [
    | inl e ↦
        let at = subst (λ y. lookup y conns ≡ some k) ((==_iff c x).0 e) i in
        absurd (ground (arith, at, h))
    | inr e ↦ other_kept there x e ∙ h
  ]
