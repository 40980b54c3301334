-- ===== src/Platform/Sql.antt =====
-- Statements of SQL through gorm, and gorm's `Transaction`.
use blahaj_chat_server.Common.{
  Bool, true, false, Option, none, some, List, [], ◌∷◌, ◌++◌, any, if◌then◌else◌,
}
use blahaj_chat_server.Errors.{Result, ok, err, fault, record_not_found, duplicated_key}
use blahaj_chat_server.Model.{Db}
use blahaj_chat_server.Platform.Defs.{Platform, World, M, tick}

abbrev pub set_db : Db → World → World
set_db db w = record w { db = db }

-- The effect of a statement: an answer and the new rows, or an error of the statement itself.
abbrev pub run_statement {ℓ} : {A : Type ℓ} → World → Result (A × Db) → Result A × World
run_statement w (ok (a, db)) = (ok a, set_db db (tick w))
run_statement w (err e) = (err e, tick w)

-- `First`: the row, or gorm's error that there is none.
abbrev pub first {ℓ} : {A : Type ℓ} → Option A → Result A
first none = err record_not_found
first (some a) = ok a

-- `Create` of a row that no unique key may clash with.
abbrev pub create {ℓ} : {A : Type ℓ} → (A → A → Bool) → A → List A → Result (List A)
create clash row rows = if any (clash row) rows then err duplicated_key else ok (rows ++ row ∷ [])

-- `Create` of several rows: all or none.
unfoldable pub create_all {ℓ} : {A : Type ℓ} → (A → A → Bool) → List A → List A → Result (List A)
create_all clash [] rows = ok rows
create_all clash (row ∷ more) rows = elim (any (clash row) rows) [
  | true ↦ err duplicated_key
  | false ↦ create_all clash more (rows ++ row ∷ [])
]

-- `Create` under `ON CONFLICT DO NOTHING`: what clashes is left out.
unfoldable pub ensure_all {ℓ} : {A : Type ℓ} → (A → A → Bool) → List A → List A → List A
ensure_all clash [] rows = rows
ensure_all clash (row ∷ more) rows =
    ensure_all clash more (if any (clash row) rows then rows else rows ++ row ∷ [])

module _ (p : Platform) where
  unfoldable pub query {ℓ} : {A : Type ℓ} → (Db → Result A) → M A
  query read w = elim (p.sql_outcome w.calls) [
    | some f ↦ (err (fault f), tick w)
    | none ↦ (read w.db, tick w)
  ]

  unfoldable pub statement {ℓ} : {A : Type ℓ} → (Db → Result (A × Db)) → M A
  statement write w = elim (p.sql_outcome w.calls) [
    | some f ↦ (err (fault f), tick w)
    | none ↦ run_statement w (write w.db)
  ]

  -- The end of a transaction that began on `db`: a rollback after an error, a commit otherwise; a
  -- commit that fails leaves the rows as they were too.
  unfoldable pub end_transaction {ℓ} : {A : Type ℓ} → Db → Result A × World → Result A × World
  end_transaction db (err e, w) = (err e, set_db db w)
  end_transaction db (ok a, w) = elim (p.sql_outcome w.calls) [
    | some f ↦ (err (fault f), set_db db (tick w))
    | none ↦ (ok a, tick w)
  ]

  unfoldable pub transaction {ℓ} : {A : Type ℓ} → M A → M A
  unfolding end_transaction
  transaction body w = elim (p.sql_outcome w.calls) [
    | some f ↦ (err (fault f), tick w)
    | none ↦ end_transaction w.db (body (tick w))
  ]
