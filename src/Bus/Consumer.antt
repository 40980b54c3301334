-- ===== src/Bus/Consumer.antt =====
-- The consumer loop of kafka.go: what has been committed has been handled.
use blahaj_chat_server.Common.{
  ℕ, zero, suc, ◌≤◌, ◌≡◌, refl, ap, true, false, Option, none, some, List, [], ◌∷◌, ◌++◌, map,
  if◌then◌else◌, Text, length, take, arith, Option-cases, inl, inr,
}
use blahaj_chat_server.Bus.{ChatEvent, Fetched, Action, consume}

-- The messages that a run fetches before it stops.
abbrev pub fetched : List Fetched → List (ℕ × Text)
fetched [] = []
fetched (Fetched.canceled ∷ more) = []
fetched (Fetched.failed done ∷ more) = let rest = fetched more in if done then [] else rest
fetched (Fetched.message offset value ∷ more) = (offset, value) ∷ fetched more

abbrev pub events : List Action → List ChatEvent
events [] = []
events (Action.handle e ∷ log) = e ∷ events log
events (Action.commit n ∷ log) = events log

abbrev pub commits : List Action → List ℕ
commits [] = []
commits (Action.handle e ∷ log) = commits log
commits (Action.commit n ∷ log) = n ∷ commits log

abbrev pub offsets : List (ℕ × Text) → List ℕ
offsets = map λ m. m.0

module _ (decode : Text → Option ChatEvent) where
  -- The events among messages.
  abbrev pub decoded : List (ℕ × Text) → List ChatEvent
  decoded [] = []
  decoded ((n, value) ∷ more) =
      let rest = decoded more in elim (decode value) [ none ↦ rest | some e ↦ e ∷ rest ]

  -- A log in which the committed messages are the first ones, their events have been handled in order,
  -- and at most one more event has been.
  pub record Caught (msgs : List (ℕ × Text)) (log : List Action) : Type 0 where
    pub later : List (ℕ × Text)
    pub handled : List ChatEvent
    pub behind : length handled ≤ 1
    pub first_committed : offsets msgs ≡ commits log ++ offsets later
    pub all_handled : events log ≡ decoded (take (length (commits log)) msgs) ++ handled

  Caught-start : (msgs : List (ℕ × Text)) → Caught msgs []
  Caught-start msgs = record {
    later = msgs;
    handled = [];
    behind = omega arith;
    first_committed = refl;
    all_handled = refl;
  }

  Caught-half : (msgs : List (ℕ × Text)) (e : ChatEvent) → Caught msgs (Action.handle e ∷ [])
  Caught-half msgs e = record {
    later = msgs;
    handled = e ∷ [];
    behind = omega arith;
    first_committed = refl;
    all_handled = refl;
  }

  Caught-bad :
      (n : ℕ) (value : Text) (msgs : List (ℕ × Text)) (log : List Action)
      → decode value ≡ none
      → Caught msgs log
      → Caught ((n, value) ∷ msgs) (Action.commit n ∷ log)
  Caught-bad n value msgs log h c = record {
    later = c.later;
    handled = c.handled;
    behind = c.behind;
    first_committed = ap (λ ns. n ∷ ns) c.first_committed;
    all_handled = rw (h, decoded) c.all_handled;
  }

  Caught-good :
      (n : ℕ) (value : Text) (e : ChatEvent) (msgs : List (ℕ × Text)) (log : List Action)
      → decode value ≡ some e
      → Caught msgs log
      → Caught ((n, value) ∷ msgs) (Action.handle e ∷ Action.commit n ∷ log)
  Caught-good n value e msgs log h c = record {
    later = c.later;
    handled = c.handled;
    behind = c.behind;
    first_committed = ap (λ ns. n ∷ ns) c.first_committed;
    all_handled = rw (h, decoded) (ap (λ es. e ∷ es) c.all_handled);
  }

  one_more :
      (n offset : ℕ) (value : Text) (e : ChatEvent) (msgs : List (ℕ × Text)) (log : List Action)
      → decode value ≡ some e
      → ((m : ℕ) → Caught msgs (take m log))
      → Caught ((offset, value) ∷ msgs) (Action.handle e ∷ take n (Action.commit offset ∷ log))
  one_more zero offset value e msgs log h c = Caught-half ((offset, value) ∷ msgs) e
  one_more (suc m) offset value e msgs log h c =
      Caught-good offset value e msgs (take m log) h (c m)

  -- Wherever a run is interrupted, the offsets that it has called to be committed are those of the
  -- messages fetched first, in order, and it has handled the events of just those messages, and at most
  -- one more.
  pub consume-Caught :
      (n : ℕ) (input : List Fetched) → Caught (fetched input) (take n (consume decode input))
  unfolding consume
  consume-Caught zero input = Caught-start (fetched input)
  consume-Caught (suc n) [] = Caught-start []
  consume-Caught (suc n) (Fetched.canceled ∷ more) = Caught-start []
  consume-Caught (suc n) (Fetched.failed true ∷ more) = Caught-start []
  consume-Caught (suc n) (Fetched.failed false ∷ more) = consume-Caught (suc n) more
  consume-Caught (suc n) (Fetched.message offset value ∷ more) =
      elim (Option-cases (decode value)) [
        | inl h ↦
            rw (h, consume)
              (Caught-bad offset value (fetched more) (take n (consume decode more)) h
                (consume-Caught n more))
        | inr (e, h) ↦
            rw (h, consume)
              (one_more n offset value e (fetched more) (consume decode more) h
                (λ m. consume-Caught m more))
      ]
