-- ===== src/Sync/Answers.antt =====
-- The answer of `transactions` of sync.service.ts, row by row.
use mathlib.Core.List.{append_assoc, append-nil}
use kasirk_backend.Base.{
  ℕ, suc, ◌+◌, ◌≤◌, ◌≡◌, refl, sym, ap, ap₂, ◌∙◌, Bool, true, false, List, [], ◌∷◌, ◌++◌, none,
  arith, length, count_where, if◌then◌else◌,
}
use kasirk_backend.Common.Errors.{
  Result, ok, err, http, prisma, other_error, bad_request, invalid_input,
}
use kasirk_backend.Database.Rows.{Db}
use kasirk_backend.Database.Retry.{World, run_transaction}
use kasirk_backend.Transactions.Persist.{Actor}
use kasirk_backend.Transactions.Dto.{v1, legacy_sync}
use kasirk_backend.Transactions.Response.{Response}
use kasirk_backend.Transactions.Create.{
  JwtPayload, actor_context, create, create_legacy_sync, legacy_checkout, valid_legacy,
  create_internal,
}
use kasirk_backend.Transactions.Create.Errors.{only_http, create_internal-only_http}
use kasirk_backend.Sync.{
  SyncRow, v1_row, legacy_row, client_id_of, error_response, SyncResult, synced, failed, sync_row,
  Progress, pushed, sync_step, next_rows, sync_rows, SyncResponse, sync_response, responded,
  checked_sync, no_progress, check_sync, check_access, valid_dto, validate_sync_access,
  sync_transactions,
}

-- The result that answers a row whose checkout ended in the given way.
abbrev pub IsAnswer : SyncRow → Result Response → SyncResult → Type 0
IsAnswer row (ok a) x = x ≡ record { client_transaction_id = client_id_of row; status = synced a }
IsAnswer row (err (http e)) x =
    x ≡ record { client_transaction_id = client_id_of row; status = failed (error_response e) }
IsAnswer row (err _) x = ⊥

-- Each row has its own checkout, on the database that the rows before it left, and its own result.
abbrev pub AreAnswers :
    (ℕ → World) → ℕ → JwtPayload → List SyncRow → Db → List SyncResult → Db → Type 0
AreAnswers ws i user [] db [] db' = db' ≡ db
AreAnswers ws i user (row ∷ rows) db (x ∷ xs) db' =
    IsAnswer row (sync_row (ws i) user row db).0 x
    × AreAnswers ws (suc i) user rows (sync_row (ws i) user row db).1 xs db'
AreAnswers ws i user _ db _ db' = ⊥

abbrev pub is_synced : SyncResult → Bool
is_synced x = elim x.status [ synced _ ↦ true | failed _ ↦ false ]

pub record IsSynced (ws : ℕ → World) (user : JwtPayload) (rows : List SyncRow) (db db' : Db)
    (r : SyncResponse) : Type 0 where
  pub answers : AreAnswers ws 0 user rows db r.results db'
  pub total : r.total ≡ length rows
  pub synced : r.synced ≡ count_where is_synced r.results
  pub failed : r.synced + r.failed ≡ r.total

sync_row-only_http :
    (w : World) (user : JwtPayload) (row : SyncRow) (db : Db)
    → only_http (sync_row w user row db).0 ≡ true
unfolding sync_row create create_legacy_sync
sync_row-only_http w user (v1_row d) db = create_internal-only_http w user d v1 db
sync_row-only_http w user (legacy_row d) db = go (valid_legacy d)
  where
    go :
        (t : Bool)
        → only_http
            (if t
              then create_internal w user (legacy_checkout d) legacy_sync db
              else (err (http (bad_request invalid_input)), db)).0
          ≡ true
    go true = create_internal-only_http w user (legacy_checkout d) legacy_sync db
    go false = refl

count_where-length : {A : Type 0} (p : A → Bool) (xs : List A) → count_where p xs ≤ length xs
count_where-length p [] = omega arith
count_where-length p (x ∷ xs) = at (p x) (count_where-length p xs)
  where
    at :
        (t : Bool)
        → count_where p xs ≤ length xs
        → (if t then 1 else 0) + count_where p xs ≤ suc (length xs)
    at true h = omega (arith, h)
    at false h = omega (arith, h)

-- The progress after more results.
abbrev grown : Progress → List SyncResult → Progress
grown p xs = record {
  results = p.results ++ xs;
  synced_count = p.synced_count + count_where is_synced xs;
}

progress_eq :
    (xs ys : List SyncResult) (m n : ℕ)
    → xs ≡ ys
    → m ≡ n
    → ◌≡◌ {A = Progress}
        (record { results = xs; synced_count = m })
        (record { results = ys; synced_count = n })
progress_eq xs ys m n e f = ap₂ progress_of e f
  where
    progress_of : List SyncResult → ℕ → Progress
    progress_of x k = record { results = x; synced_count = k }

module _ (ws : ℕ → World) (user : JwtPayload) where
  abbrev Runs : ℕ → List SyncRow → Progress → Db → Type 0
  Runs i rows p db =
      (xs : List SyncResult) × (db' : Db) × (sync_rows ws i user rows p db ≡ (ok (grown p xs), db'))
      × AreAnswers ws i user rows db xs db'

  step-Runs :
      (i : ℕ) (rows : List SyncRow)
      → ((p : Progress) (db : Db) → Runs i rows p db)
      → (p : Progress) (row : SyncRow) (r : Result Response) (d : Db) → only_http r ≡ true
      → (x : SyncResult) × (xs : List SyncResult) × (db' : Db) × (next_rows
            (sync_rows ws i user rows)
            (sync_step p row r)
            d
          ≡ (ok (grown p (x ∷ xs)), db'))
        × IsAnswer row r x
        × AreAnswers ws i user rows d xs db'
  unfolding sync_step
  step-Runs i rows k p row (ok a) d h =
      let (xs, db', e, answers) = k (pushed p row (synced a) (p.synced_count + 1)) d in
      (
        _,
        xs,
        db',
        e
            ∙ ap (λ (q : Progress). (ok q, db'))
                (progress_eq _ _ _ _ (append_assoc p.results _ xs) (omega arith)),
        refl,
        answers,
      )
  step-Runs i rows k p row (err (http e0)) d h =
      let (xs, db', e, answers) = k (pushed p row (failed (error_response e0)) p.synced_count) d in
      (
        _,
        xs,
        db',
        e
            ∙ ap (λ (q : Progress). (ok q, db'))
                (progress_eq _ _ _ _ (append_assoc p.results _ xs) (omega arith)),
        refl,
        answers,
      )
  step-Runs i rows k p row (err (prisma e0)) d h = cc
  step-Runs i rows k p row (err (other_error n)) d h = cc

  sync_rows-Runs : (i : ℕ) (rows : List SyncRow) (p : Progress) (db : Db) → Runs i rows p db
  unfolding sync_rows
  sync_rows-Runs i [] p db = (
    [],
    db,
    ap (λ (q : Progress). (ok q, db))
        (progress_eq _ _ _ _ (sym (append-nil p.results)) (omega arith)),
    refl,
  )
  sync_rows-Runs i (row ∷ rows) p db =
      let (x, xs, db', e, a, rest) =
        step-Runs (suc i) rows (sync_rows-Runs (suc i) rows) p row (sync_row (ws i) user row db).0
          (sync_row (ws i) user row db).1 (sync_row-only_http (ws i) user row db) in
      (x ∷ xs, db', e, (a, rest))

  answers-length :
      (i : ℕ) (rows : List SyncRow) (db : Db) (xs : List SyncResult) (db' : Db)
      → AreAnswers ws i user rows db xs db'
      → length xs ≡ length rows
  answers-length i [] db [] db' h = refl
  answers-length i [] db (x ∷ xs) db' h = elim h [ ]
  answers-length i (row ∷ rows) db [] db' h = elim h [ ]
  answers-length i (row ∷ rows) db (x ∷ xs) db' (a, h) =
      ap suc (answers-length (suc i) rows (sync_row (ws i) user row db).1 xs db' h)

  check_sync-ok :
      (access : World) (rows : List SyncRow) (db : Db) (actor : Actor)
      → valid_dto rows ≡ true
      → actor_context user ≡ ok actor
      → access.faults 0 ≡ none
      → check_access actor rows (access.others 0 db) ≡ ok tt
      → check_sync access user rows db ≡ (ok tt, access.others 0 db)
  unfolding check_sync validate_sync_access run_transaction
  check_sync-ok access rows db actor valid named up allowed = rw (valid, named, up, allowed)

  -- A sync request whose rows are valid, whose user's ids are well-formed and whose access check
  -- runs in a transaction that the database does not fail and passes on the database as other
  -- clients left it is always answered, whatever the database and other clients do after that:
  -- each row gets one result, in order, of its own checkout, run on the database that the rows
  -- before it left; it is SYNCED with the response or FAILED with the HTTP exception, a failed row
  -- stops no later one, and the counts are those of the results.
  pub sync_transactions-IsSynced :
      (access : World) (rows : List SyncRow) (db : Db) (actor : Actor)
      → valid_dto rows ≡ true
      → actor_context user ≡ ok actor
      → access.faults 0 ≡ none
      → check_access actor rows (access.others 0 db) ≡ ok tt
      → (r : SyncResponse) × (db' : Db) × (sync_transactions access ws user rows db ≡ (ok r, db'))
        × IsSynced ws user rows (access.others 0 db) db' r
  unfolding sync_transactions sync_response
  sync_transactions-IsSynced access rows db actor valid named up allowed =
      let (xs, db', e, answers) = sync_rows-Runs 0 rows no_progress (access.others 0 db) in
      let same = answers-length 0 rows (access.others 0 db) xs db' answers in
      (
        sync_response (grown no_progress xs),
        db',
        ap (checked_sync ws user rows) (check_sync-ok access rows db actor valid named up allowed)
            ∙ ap responded e,
        record {
          answers = answers;
          total = same;
          synced = omega arith;
          failed = omega (arith, count_where-length is_synced xs);
        },
      )
