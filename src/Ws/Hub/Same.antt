-- ===== src/Ws/Hub/Same.antt =====
-- hub.go: what does not change when frames are put into and taken out of send channels.
use blahaj_chat_server.Common.{
  ℕ, ◌≡◌, refl, sym, ◌∙◌, ap, Bool, true, false, ◌&&◌, not, Option, none, some, List, [], ◌∷◌, ◌++◌,
  ltb, ◌==◌, ==_iff, if◌then◌else◌, Text, length, All, All-imp, lookup, insert, nat_eq,
  lookup-insert, arith, Bool-cases, inl, inr, subst,
}
use blahaj_chat_server.Model.{UserId}
use blahaj_chat_server.Ws.Hub.{Client, Hub, send_buf_size, send_one, send_all, take_frame, send_raw}

abbrev pub opened : UserId → Option Client → Bool
opened uid none = false
opened uid (some k) = not k.closed && k.user_id == uid

abbrev pub alive : Option Client → Bool
alive none = false
alive (some k) = not k.closed

abbrev pub there : Option Client → Bool
there none = false
there (some k) = true

-- The hubs differ in what waits in send channels and in who is about to be unregistered, at most.
pub record Same (h h' : Hub) : Type 0 where
  pub clients : h'.clients ≡ h.clients
  pub register : h'.register ≡ h.register
  pub next : h'.next ≡ h.next
  pub opens : (uid x : ℕ) → opened uid (lookup x h'.conns) ≡ opened uid (lookup x h.conns)
  pub lives : (x : ℕ) → alive (lookup x h'.conns) ≡ alive (lookup x h.conns)
  pub stays : (x : ℕ) → there (lookup x h'.conns) ≡ there (lookup x h.conns)
  pub runs : h'.crashed ≡ h.crashed

pub Same-refl : (h : Hub) → Same h h
Same-refl h = record {
  clients = refl;
  register = refl;
  next = refl;
  opens = λ uid x. refl;
  lives = λ x. refl;
  stays = λ x. refl;
  runs = refl;
}

pub Same-trans : {g h k : Hub} → Same g h → Same h k → Same g k
Same-trans a b = record {
  clients = b.clients ∙ a.clients;
  register = b.register ∙ a.register;
  next = b.next ∙ a.next;
  opens = λ uid x. b.opens uid x ∙ a.opens uid x;
  lives = λ x. b.lives x ∙ a.lives x;
  stays = λ x. b.stays x ∙ a.stays x;
  runs = b.runs ∙ a.runs;
}

module _ (c : ℕ) (h : Hub) (k : Client) (queue : List Text) (e : lookup c h.conns ≡ some k) where
  looked :
      (x : ℕ)
      → lookup x (insert c (record k { queue = queue }) h.conns)
        ≡ (if c == x then some (record k { queue = queue }) else lookup x h.conns)
  looked x = lookup-insert c x (record k { queue = queue }) h.conns

  here : (x : ℕ) → (c == x) ≡ true → lookup x h.conns ≡ some k
  here x i = subst (λ y. lookup y h.conns ≡ some k) ((==_iff c x).0 i) e

  same_at {κ} :
      {A : Type κ} (f : Option Client → A) (x : ℕ)
      → f (some (record k { queue = queue })) ≡ f (some k)
      → f (lookup x (insert c (record k { queue = queue }) h.conns)) ≡ f (lookup x h.conns)
  same_at f x j = elim (Bool-cases (c == x)) [
    | inl i ↦ ap f (looked x) ∙ rw i (j ∙ ap f (sym (here x i)))
    | inr i ↦ ap f (looked x) ∙ rw i refl
  ]

  Same-queue : Same h (record h { conns = insert c (record k { queue = queue }) h.conns })
  Same-queue = record {
    clients = refl;
    register = refl;
    next = refl;
    opens = λ uid x. same_at (opened uid) x refl;
    lives = λ x. same_at alive x refl;
    stays = λ x. same_at there x refl;
    runs = refl;
  }

Same-leaving : (h : Hub) (leaving : List ℕ) → Same h (record h { leaving = leaving })
Same-leaving h leaving = record {
  clients = refl;
  register = refl;
  next = refl;
  opens = λ uid x. refl;
  lives = λ x. refl;
  stays = λ x. refl;
  runs = refl;
}

-- A frame for an open connection.
pub Same-send_one :
    (frame : Text) (c : ℕ) (h : Hub) → alive (lookup c h.conns) ≡ true → Same h (send_one frame c h)
unfolding send_one
Same-send_one frame c h l = go (lookup c h.conns) refl
  where
    go : (o : Option Client) → lookup c h.conns ≡ o → Same h (send_one frame c h)
    go none e = rw (e, send_one) (Same-refl h)
    go (some k) e = elim (Bool-cases k.closed) [
      | inl i ↦ absurd (ground arith)
      | inr i ↦ elim (Bool-cases (ltb (length k.queue) send_buf_size)) [
        | inl j ↦
            let put : send_one frame c h ≡ record h {
              conns = insert c (record k { queue = k.queue ++ frame ∷ [] }) h.conns;
            } =
              ground arith in
            subst (Same h) (sym put) (Same-queue c h k (k.queue ++ frame ∷ []) e)
        | inr j ↦
            let kicked : send_one frame c h ≡ record h { leaving = h.leaving ++ c ∷ [] } =
              ground arith in
            subst (Same h) (sym kicked) (Same-leaving h (h.leaving ++ c ∷ []))
      ]
    ]

pub Same-send_all :
    (frame : Text) (cs : List ℕ) (h : Hub)
    → All (λ c. alive (lookup c h.conns) ≡ true) cs
    → Same h (send_all frame cs h)
unfolding send_all
Same-send_all frame [] h a = Same-refl h
Same-send_all frame (c ∷ cs) h a =
    let one = Same-send_one frame c h a.0 in
    Same-trans one
      (Same-send_all frame cs (send_one frame c h) (All-imp _ _ cs (λ x l. one.lives x ∙ l) a.1))

-- A frame taken by the write pump.
pub Same-take_frame : (c : ℕ) (h : Hub) → Same h (take_frame c h)
unfolding take_frame
Same-take_frame c h = go (lookup c h.conns) refl
  where
    go : (o : Option Client) → lookup c h.conns ≡ o → Same h (take_frame c h)
    go none e = rw (e, take_frame) (Same-refl h)
    go (some k) e = queued k.queue refl
      where
        queued : (q : List Text) → k.queue ≡ q → Same h (take_frame c h)
        queued [] i = rw (e, take_frame) (rw i (Same-refl h))
        queued (frame ∷ rest) i = rw (e, take_frame) (rw i (Same-queue c h k rest e))

-- A frame for the connection itself, which may be closed.
pub Same-send_raw : (c : ℕ) (frame : Text) (h : Hub) → Same h (send_raw c frame h)
unfolding send_raw send_one
Same-send_raw c frame h = go (lookup c h.conns) refl
  where
    go : (o : Option Client) → lookup c h.conns ≡ o → Same h (send_raw c frame h)
    go none e = rw (e, send_raw) (Same-refl h)
    go (some k) e = elim (Bool-cases k.closed) [
      | inl i ↦
          let kept : send_raw c frame h ≡ h = ground (arith, e, i) in
          subst (Same h) (sym kept) (Same-refl h)
      | inr i ↦
          let one : send_raw c frame h ≡ send_one frame c h = ground (arith, e, i) in
          subst (Same h) (sym one) (Same-send_one frame c h (ground (arith, e, i)))
    ]
