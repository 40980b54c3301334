-- ===== src/Common/Sorting.antt =====
-- Go's `sort.Slice` and `sort.SliceStable`: the stable rearrangement by a Boolean order.
use Prim.Native.Nat.{ℕ, ◌<◌, ◌≤◌, suc}
use mathlib.Core.Path.{◌≡◌, refl, sym, ap, ◌∙◌}
use mathlib.Core.Bool.{Bool, true, false, ◌||◌}
use mathlib.Core.Logic.{inl, inr}
use mathlib.Core.List.{List, [], ◌∷◌, ◌++◌, Perm, reverse, reverse-cons}
use mathlib.Core.List.Perm
use native.Mathlib.Omega.{arith}
use blahaj_chat_server.Common.Tests.{◌==◌, ltb, if◌then◌else◌, Bool-cases}
use blahaj_chat_server.Common.Lists.{All, All-imp, length, contains, filter, head?, any}
use mathlib.Core.Option.{none}
use mathlib.Core.Logic.{◌≢◌}

module _ {ℓ} {A : Type ℓ} (less : A → A → Bool) where
  -- `x` stood before all of the list: it stays before those that are not less.
  pub insert_by : A → List A → List A
  insert_by x [] = x ∷ []
  insert_by x (y ∷ ys) = if less y x then y ∷ insert_by x ys else x ∷ y ∷ ys

  unfoldable pub sort_by : List A → List A
  unfolding insert_by
  sort_by [] = []
  sort_by (x ∷ xs) = insert_by x (sort_by xs)

  -- No later entry is less than an earlier one.
  abbrev pub Ordered : List A → Type 0
  Ordered [] = Unit {0}
  Ordered (x ∷ xs) = All (λ y. less y x ≡ false) xs × Ordered xs

  insert_by-perm : (x : A) (xs : List A) → Perm (insert_by x xs) (x ∷ xs)
  unfolding insert_by
  insert_by-perm x [] = Perm.refl (x ∷ [])
  insert_by-perm x (y ∷ ys) = elim (Bool-cases (less y x)) [
    | inl e ↦ rw e (Perm.trans (Perm.cons y (insert_by-perm x ys)) (Perm.swap x y ys))
    | inr e ↦ rw e (Perm.refl (x ∷ y ∷ ys))
  ]

  pub sort_by-perm : (xs : List A) → Perm (sort_by xs) xs
  unfolding sort_by
  sort_by-perm [] = Perm.refl []
  sort_by-perm (x ∷ xs) = Perm.trans (insert_by-perm x (sort_by xs)) (Perm.cons x (sort_by-perm xs))

  insert_by-All {κ} :
      (P : A → Type κ) (x : A) (xs : List A) → P x → All P xs → All P (insert_by x xs)
  unfolding insert_by
  insert_by-All P x [] p h = (p, h)
  insert_by-All P x (y ∷ ys) p h = elim (Bool-cases (less y x)) [
    | inl e ↦ rw e (h.0, insert_by-All P x ys p h.1)
    | inr e ↦ rw e (p, h)
  ]

  pub sort_by-All {κ} : (P : A → Type κ) (xs : List A) → All P xs → All P (sort_by xs)
  unfolding sort_by
  sort_by-All P [] h = h
  sort_by-All P (x ∷ xs) h = insert_by-All P x (sort_by xs) h.0 (sort_by-All P xs h.1)

module _ {ℓ} {A : Type ℓ} (less : A → A → Bool) where
  insert_by_last :
      (x : A) (xs : List A) → All (λ y. less y x ≡ true) xs → insert_by less x xs ≡ xs ++ x ∷ []
  unfolding insert_by
  insert_by_last x [] h = refl
  insert_by_last x (y ∷ ys) h = rw (h.0, insert_by_last x ys h.1)

  -- Every later entry is less than every earlier one.
  abbrev pub Backwards : List A → Type 0
  Backwards [] = Unit {0}
  Backwards (x ∷ xs) = All (λ y. less y x ≡ true) xs × Backwards xs

  pub sort_by-Backwards : (xs : List A) → Backwards xs → sort_by less xs ≡ reverse xs
  unfolding sort_by
  sort_by-Backwards [] h = refl
  sort_by-Backwards (x ∷ xs) h =
      insert_by_last x (sort_by less xs) (sort_by-All less (λ y. less y x ≡ true) xs h.0)
      ∙ ap (λ ys. ys ++ x ∷ []) (sort_by-Backwards xs h.1)
      ∙ sym (reverse-cons x xs)

module _ {ℓ} {A : Type ℓ} (less : A → A → Bool)
    (asym : (x y : A) → less x y ≡ true → less y x ≡ false)
    (trans : (x y z : A) → less y x ≡ false → less z y ≡ false → less z x ≡ false) where
  insert_by-Ordered : (x : A) (xs : List A) → Ordered less xs → Ordered less (insert_by less x xs)
  unfolding insert_by
  insert_by-Ordered x [] h = (tt, tt)
  insert_by-Ordered x (y ∷ ys) h = elim (Bool-cases (less y x)) [
    | inl e ↦ rw e (
      insert_by-All less (λ z. less z y ≡ false) x ys (asym y x e) h.0,
      insert_by-Ordered x ys h.1,
    )
    | inr e ↦ rw e (
      (e, All-imp (λ z. less z y ≡ false) (λ z. less z x ≡ false) ys (λ z k. trans x y z e k) h.0),
      h,
    )
  ]

  pub sort_by-Ordered : (xs : List A) → Ordered less (sort_by less xs)
  unfolding sort_by
  sort_by-Ordered [] = tt
  sort_by-Ordered (x ∷ xs) = insert_by-Ordered x (sort_by less xs) (sort_by-Ordered xs)

-- `sort.Slice(uids, func(i, j int) bool { return uids[i] < uids[j] })`
abbrev pub sort_uids : List ℕ → List ℕ
sort_uids = sort_by ltb

contains-insert_by :
    (x : ℕ) (xs : List ℕ) (a : ℕ) → contains (insert_by ltb x xs) a ≡ x == a || contains xs a
unfolding insert_by
contains-insert_by x [] a = refl
contains-insert_by x (y ∷ ys) a = ground (arith, contains-insert_by x ys a)

pub contains-sort_uids : (xs : List ℕ) (a : ℕ) → contains (sort_uids xs) a ≡ contains xs a
unfolding sort_by
contains-sort_uids [] a = refl
contains-sort_uids (x ∷ xs) a =
    contains-insert_by x (sort_uids xs) a ∙ ap (λ b. x == a || b) (contains-sort_uids xs a)

length-insert_by : (x : ℕ) (xs : List ℕ) → length (insert_by ltb x xs) ≡ suc (length xs)
unfolding insert_by
length-insert_by x [] = refl
length-insert_by x (y ∷ ys) = ground (arith, length-insert_by x ys)

pub length-sort_uids : (xs : List ℕ) → length (sort_uids xs) ≡ length xs
unfolding sort_by
length-sort_uids [] = refl
length-sort_uids (x ∷ xs) = length-insert_by x (sort_uids xs) ∙ ap suc (length-sort_uids xs)

-- Rising without repetition.
abbrev pub Ascending : List ℕ → Type 0
Ascending [] = Unit {0}
Ascending (x ∷ xs) = All (λ y. x < y) xs × Ascending xs

-- No number stands twice.
abbrev pub Distinct : List ℕ → Type 0
Distinct [] = Unit {0}
Distinct (x ∷ xs) = (contains xs x ≡ false) × Distinct xs

lt_of_le_not_contains :
    (x : ℕ) (xs : List ℕ) → All (λ y. x ≤ y) xs → contains xs x ≡ false → All (λ y. x < y) xs
lt_of_le_not_contains x [] h n = tt
lt_of_le_not_contains x (y ∷ ys) h n = (ground arith, lt_of_le_not_contains x ys h.1 (ground arith))

insert_by-Ascending :
    (x : ℕ) (xs : List ℕ) → contains xs x ≡ false → Ascending xs → Ascending (insert_by ltb x xs)
unfolding insert_by
insert_by-Ascending x [] n h = (tt, tt)
insert_by-Ascending x (y ∷ ys) n h = elim (Bool-cases (ltb y x)) [
  | inl e ↦ rw e (
    insert_by-All ltb (λ z. y < z) x ys (ground arith) h.0,
    insert_by-Ascending x ys (ground arith) h.1,
  )
  | inr e ↦ rw e ((ground arith, All-imp (λ z. y < z) (λ z. x < z) ys (λ z k. ground arith) h.0), h)
]

pub sort_uids-Ascending : (xs : List ℕ) → Distinct xs → Ascending (sort_uids xs)
unfolding sort_by
sort_uids-Ascending [] h = tt
sort_uids-Ascending (x ∷ xs) h =
    insert_by-Ascending x (sort_uids xs) (contains-sort_uids xs x ∙ h.0)
      (sort_uids-Ascending xs h.1)

not_contains_below : (a : ℕ) (xs : List ℕ) → All (λ y. a < y) xs → contains xs a ≡ false
not_contains_below a [] h = refl
not_contains_below a (x ∷ xs) h = ground (arith, not_contains_below a xs h.1)

pub Ascending-Distinct : (xs : List ℕ) → Ascending xs → Distinct xs
Ascending-Distinct [] h = tt
Ascending-Distinct (x ∷ xs) h = (not_contains_below x xs h.0, Ascending-Distinct xs h.1)

insert_by_some {ℓ} :
    {A : Type ℓ} (less : A → A → Bool) (x : A) (xs : List A) → head? (insert_by less x xs) ≢ none
unfolding insert_by
insert_by_some less x [] = λ e. cc
insert_by_some less x (y ∷ ys) = λ e. ground arith

pub sort_by-none {ℓ} :
    {A : Type ℓ} (less : A → A → Bool) (p : A → Bool) (xs : List A)
    → head? (sort_by less (filter p xs)) ≡ none
    → any p xs ≡ false
unfolding sort_by
sort_by-none less p [] h = refl
sort_by-none less p (x ∷ xs) h = elim (Bool-cases (p x)) [
  | inl e ↦ absurd (insert_by_some less x (sort_by less (filter p xs)) (rw e at h))
  | inr e ↦ rw e (sort_by-none less p xs (rw e at h))
]
