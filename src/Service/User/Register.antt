-- ===== src/Service/User/Register.antt =====
-- user.go: what a registration stores, and that its user can log in.
use blahaj_chat_server.Common.{
  ℕ, suc, ◌≡◌, ◌∙◌, ap, subst, true, false, not, none, some, [], ◌∷◌, ◌++◌, any, filter,
  filter-append, filter_none, head?, lookup, text_eq_instance, format_uint, arith, Bool-cases, inl,
  inr, Text,
}
use blahaj_chat_server.Errors.{ok, email_taken}
use blahaj_chat_server.Model.{Instant, UserId, Db, User}
use blahaj_chat_server.Platform.{Platform, World, tick, pure, continue, ◌>>=◌}
use blahaj_chat_server.Platform.Sql.{query, first}
use blahaj_chat_server.Platform.After.{
  After, After-ok, After-of, After-pure, After-raise, After-continue, After-branch, After-guard,
  After-Quiet, After-now, After-statement,
}
use blahaj_chat_server.Platform.Redis.{is_some}
use blahaj_chat_server.Dao.User.{
  Collation, has_email, insert_user, find_by_email, create_user_with_ctx,
  get_user_by_email_with_ctx,
}
use blahaj_chat_server.Service.Auth.{Tokens, TokenPair, issue_token_pair, refresh_key}
use blahaj_chat_server.Service.Auth.Sessions.{issue-ok}
use blahaj_chat_server.Service.User.{
  Bcrypt, RegisterReq, new_user, default_avatar_url, generate_from_password, register, system_error,
  login, login_as,
}
use blahaj_chat_server.Service.Reads.{Quiet-get_user_by_email}

module _ (c : Collation) (b : Bcrypt) (req : RegisterReq) where
  -- The rows before, the user, and the rows after.
  pub record Registered (db : Db) (u : User) (db' : Db) : Type 0 where
    pub fresh : any (has_email c req.email) db.users ≡ false
    pub stored : db' ≡ record db { users = db.users ++ u ∷ []; next_user = suc db.next_user }
    pub id : u.id ≡ db.next_user
    pub email : u.email ≡ req.email
    pub nickname : u.nickname ≡ req.nickname
    pub avatar_url : u.avatar_url ≡ default_avatar_url
    pub salt : ℕ
    pub password : b.hash salt req.password ≡ some u.password

  inserted :
      (db db' : Db) (u : User) (t : Instant) (hashed : Text) (n : ℕ)
      → b.hash n req.password ≡ some hashed
      → insert_user c (record (new_user req hashed) { created_at = t; updated_at = t }) db
        ≡ ok (u, db')
      → Registered db u db'
  unfolding insert_user
  inserted db db' u t hashed n h e = elim (Bool-cases (any (has_email c req.email) db.users)) [
    | inl clash ↦ absurd (ground arith)
    | inr new ↦ record {
      fresh = new;
      stored = ground arith;
      id = ground arith;
      email = ground arith;
      nickname = ground arith;
      avatar_url = ground arith;
      salt = n;
      password = h ∙ ground arith;
    }
  ]

  module _ (p : Platform) where
    After-generate :
        (w : World)
        → After
            (generate_from_password p c b req.password w)
            (λ hashed v. (b.hash w.calls req.password ≡ some hashed) × (v.db ≡ w.db))
    unfolding generate_from_password
    After-generate w = After-of _ λ hashed v e. (ground arith, ground arith)

    After-create :
        (hashed : Text) (n : ℕ) (w : World)
        → b.hash n req.password ≡ some hashed
        → After (create_user_with_ctx p c (new_user req hashed) w) (λ u v. Registered w.db u v.db)
    unfolding create_user_with_ctx
    After-create hashed n w h = After-continue _ _ (After-now p w) λ t v k. After-of _ λ u x e.
        inserted w.db x.db u t hashed n h (
          subst
            (λ z.
              insert_user c (record (new_user req hashed) { created_at = t; updated_at = t }) z
              ≡ ok (u, x.db))
            (ap (λ z. z.db) k.1) (After-ok (After-statement p _ v) e))

    pub After-register : (w : World) → After (register p c b req w) (λ u v. Registered w.db u v.db)
    unfolding register
    After-register w =
        After-continue _ _ (After-Quiet _ w (Quiet-get_user_by_email p c req.email)) λ old v h.
          After-continue _ _ (After-guard (not (is_some old)) email_taken v) λ _ x k.
            After-continue _ _ (After-generate x) λ hashed y g.
              After-branch _ _ _
                (λ u z e. After-pure u z (
                  subst (λ d. Registered d u z.db) (g.1 ∙ ap (λ z. z.db) k.1 ∙ h.1)
                    (After-ok (After-create hashed x.calls y g.0) e)))
                (λ e z _. After-raise system_error z)

-- What `bcrypt` documents: a password fits each of its hashes.
pub record BcryptLaws (b : Bcrypt) : Type 0 where
  pub compare-hash :
      (n : ℕ) (password hashed : Text)
      → b.hash n password ≡ some hashed
      → b.compare hashed password ≡ true

module _ (p : Platform) (c : Collation) (b : Bcrypt) (t : Tokens) (laws : BcryptLaws b)
    (same_refl : (s : Text) → c.same s s ≡ true) where
  found :
      (req : RegisterReq) (db db' : Db) (u : User)
      → Registered c b req db u db'
      → find_by_email c req.email db' ≡ ok u
  unfolding find_by_email
  found req db db' u r =
      ap (λ d. first (head? (filter (has_email c req.email) d.users))) r.stored
      ∙ ap (λ us. first (head? us)) (filter-append (has_email c req.email) db.users (u ∷ []))
      ∙ ap (λ us. first (head? (us ++ filter (has_email c req.email) (u ∷ []))))
          (filter_none (has_email c req.email) db.users r.fresh)
      ∙ (let h : c.same u.email req.email ≡ true =
            ap (λ x. c.same x req.email) r.email ∙ same_refl req.email in
          rw h)

  users_only :
      (email : Text) (d e : Db)
      → d.users ≡ e.users
      → find_by_email c email d ≡ find_by_email c email e
  unfolding find_by_email
  users_only email d e h = ap (λ us. first (head? (filter (has_email c email) us))) h

  login-issues :
      (req : RegisterReq) (w v : World) {u : User} {w' : World}
      → register p c b req w ≡ (ok u, w')
      → v.db.users ≡ w'.db.users
      → p.sql_outcome v.calls ≡ none
      → login p c b t req.email req.password v
        ≡ (issue_token_pair p t u.id >>= λ pair. pure (u, pair)) (tick v)
  unfolding login get_user_by_email_with_ctx query login_as
  login-issues req w v {u} {w'} e kept answers =
      let r = After-ok (After-register c b req p w) e in
      let fits = laws.compare-hash r.salt req.password u.password r.password in
      let hit = users_only req.email v.db w'.db kept ∙ found req w.db w'.db u r in
      ground (arith, fits, hit)

  -- Who has registered can log in with the same address and password, as long as the rows of the users stay,
  -- the query does not fail, Redis answers and the access token can be signed: the login returns the user
  -- and a pair of tokens, and Redis holds its refresh token for that user.
  pub login-register :
      (sound : (n : ℕ) → p.redis_outcome n ≡ none)
      (signs : (jti : Text) (uid : UserId) (from until : Instant)
        → (access : Text) × (t.sign jti uid from until ≡ ok access))
      (req : RegisterReq) (w v : World) {u : User} {w' : World}
      → register p c b req w ≡ (ok u, w')
      → v.db.users ≡ w'.db.users
      → p.sql_outcome v.calls ≡ none
      → (pair : TokenPair) × (x : World) × (e : Instant) × (login p c b t req.email req.password v
          ≡ (ok (u, pair), x))
        × (lookup (refresh_key pair.refresh_token) x.strings
            ≡ some (record { value = format_uint u.id; expires = some e }))
  login-register sound signs req w v {u} e kept answers =
      let (pair, x, until, run, held) = issue-ok p sound t signs u.id (tick v) in
      (
        pair,
        x,
        until,
        login-issues req w v e kept answers ∙ ap (λ r. continue r (λ pair. pure (u, pair))) run,
        held,
      )
