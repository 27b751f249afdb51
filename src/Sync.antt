-- ===== src/Sync.antt =====
-- src/sync/sync.service.ts and src/sync/dto/sync-transactions.dto.ts: the sales of an offline client.
pub mod Answers
use kasirk_backend.Base.{
  ℕ, suc, ◌+◌, ◌-◌, ◌&&◌, not, Bool, List, [], ◌∷◌, ◌++◌, map, Option, none, some, if◌then◌else◌,
  ◌==◌, leb, length, find, any, all, includes, unique,
}
use kasirk_backend.Base.Text.{Uuid, uuid, malformed, lower_case}
use kasirk_backend.Common.Errors.{
  Result, ok, err, Failure, http, HttpException, bad_request, unauthorized, forbidden, not_found,
  conflict, locked, service_unavailable, internal_error, ErrorCode, invalid_input,
  invalid_user_context, user_or_tenant_inactive, role_not_allowed, outlet_access_denied,
  shift_outlet_mismatch,
}
use kasirk_backend.Common.Errors
use kasirk_backend.Common.Roles.{is_known, is_cashier}
use kasirk_backend.Database.Rows.{Db, User}
use kasirk_backend.Database.Actors.{active_user}
use kasirk_backend.Database.Client.{reads}
use kasirk_backend.Database.Retry.{World, run_transaction}
use kasirk_backend.Transactions.Persist.{Actor}
use kasirk_backend.Transactions.Dto.{CheckoutDto, valid_checkout}
use kasirk_backend.Transactions.Response.{Response}
use kasirk_backend.Transactions.Create.{
  JwtPayload, actor_context, LegacySyncTransactionDto, valid_legacy, create, create_legacy_sync,
}

-- A row with `cashier_session_id`, whatever its value, and a row without it:
-- `classifySyncTransaction`.
pub data SyncRow : Type 0 where
  v1_row : CheckoutDto → SyncRow
  legacy_row : LegacySyncTransactionDto → SyncRow

unfoldable pub client_id_of : SyncRow → Uuid
client_id_of (v1_row d) = d.client_transaction_id
client_id_of (legacy_row d) = d.client_transaction_id

unfoldable pub outlet_of : SyncRow → ℕ
outlet_of (v1_row d) = lower_case d.outlet_id
outlet_of (legacy_row d) = lower_case d.outlet_id

unfoldable pub valid_row : SyncRow → Bool
valid_row (v1_row d) = valid_checkout d
valid_row (legacy_row d) = valid_legacy d

-- `validDto`: one to a hundred rows, each valid by the DTO of its kind.
unfoldable pub valid_dto : List SyncRow → Bool
unfolding valid_row
valid_dto rows = leb 1 (length rows) && leb (length rows) 100 && all valid_row rows

-- The outlet of a cashier is the only one that the rows name.
unfoldable pub check_outlet : List ℕ → Option ℕ → Result (Unit {0})
unfolding unique
check_outlet outlets none = err (http (forbidden outlet_access_denied))
check_outlet outlets (some outlet) =
    let requested = unique outlets in
    Errors.raise_if (not (length requested == 1 && includes outlet requested))
      (forbidden shift_outlet_mismatch)

abbrev pub check_actor : List ℕ → User → Result (Unit {0})
check_actor outlets actor =
    Errors.◌>>◌ (Errors.raise_if (not (is_known actor.role)) (forbidden role_not_allowed))
      (if is_cashier actor.role then check_outlet outlets actor.outlet_id else ok tt)

-- The reads of `validateSyncAccess`, inside its transaction.
unfoldable pub check_access : Actor → List SyncRow → Db → Result (Unit {0})
unfolding check_outlet outlet_of
check_access actor rows db =
    Errors.◌>>=◌
      (Errors.or_raise (find (active_user actor.sub actor.tenant_id db) db.users)
        (unauthorized user_or_tenant_inactive))
      (check_actor (map outlet_of rows))

-- Its transaction, which the database may fail, once the ids of the user are read.
abbrev pub access_of : World → List SyncRow → Result Actor → Db → Result (Unit {0}) × Db
access_of w rows (err e) db = (err e, db)
access_of w rows (ok actor) db =
    run_transaction (w.faults 0) (reads (check_access actor rows)) (w.others 0 db)

-- `validateSyncAccess`
unfoldable pub validate_sync_access :
    World → JwtPayload → List SyncRow → Db → Result (Unit {0}) × Db
unfolding actor_context check_access run_transaction
validate_sync_access w user rows = access_of w rows (actor_context user)

-- `getStatus`, and the code that stands for the body's code and message.
pub record SyncError : Type 0 where
  pub status_code : ℕ
  pub error_code : ErrorCode

-- `errorResponse`
unfoldable pub error_response : HttpException → SyncError
error_response (bad_request c) = record { status_code = 400; error_code = c }
error_response (unauthorized c) = record { status_code = 401; error_code = c }
error_response (forbidden c) = record { status_code = 403; error_code = c }
error_response (not_found c) = record { status_code = 404; error_code = c }
error_response (conflict c) = record { status_code = 409; error_code = c }
error_response (locked c) = record { status_code = 423; error_code = c }
error_response (internal_error c) = record { status_code = 500; error_code = c }
error_response (service_unavailable c) = record { status_code = 503; error_code = c }

pub data SyncStatus : Type 0 where
  synced : Response → SyncStatus
  failed : SyncError → SyncStatus

pub record SyncResult : Type 0 where
  pub client_transaction_id : Uuid
  pub status : SyncStatus

-- The call that the kind of a row selects.
unfoldable pub sync_row : World → JwtPayload → SyncRow → Db → Result Response × Db
unfolding create create_legacy_sync
sync_row w user (v1_row d) db = create w user d db
sync_row w user (legacy_row d) db = create_legacy_sync w user d db

pub record Progress : Type 0 where
  pub results : List SyncResult
  pub synced_count : ℕ

abbrev pub pushed : Progress → SyncRow → SyncStatus → ℕ → Progress
pushed p row s n = record {
  results = p.results ++ record { client_transaction_id = client_id_of row; status = s } ∷ [];
  synced_count = n;
}

-- One round of the loop: what it adds, or the error that it passes on.
unfoldable pub sync_step : Progress → SyncRow → Result Response → Result Progress
unfolding client_id_of error_response
sync_step p row (ok r) = ok (pushed p row (synced r) (p.synced_count + 1))
sync_step p row (err (http e)) = ok (pushed p row (failed (error_response e)) p.synced_count)
sync_step p row (err e) = err e

-- The loop over the rows. Each row's checkout meets other clients and faults of its own.
abbrev pub next_rows :
    (Progress → Db → Result Progress × Db) → Result Progress → Db → Result Progress × Db
next_rows rest (ok p) db = rest p db
next_rows rest (err e) db = (err e, db)

unfoldable pub sync_rows :
    (ℕ → World) → ℕ → JwtPayload → List SyncRow → Progress → Db → Result Progress × Db
unfolding sync_row sync_step
sync_rows ws i user [] p db = (ok p, db)
sync_rows ws i user (row ∷ rows) p db =
    next_rows (sync_rows ws (suc i) user rows) (sync_step p row (sync_row (ws i) user row db).0)
      (sync_row (ws i) user row db).1

pub record SyncResponse : Type 0 where
  pub total : ℕ
  pub synced : ℕ
  pub failed : ℕ
  pub results : List SyncResult

unfoldable pub sync_response : Progress → SyncResponse
sync_response p = record {
  total = length p.results;
  synced = p.synced_count;
  failed = length p.results - p.synced_count;
  results = p.results;
}

abbrev pub responded : Result Progress × Db → Result SyncResponse × Db
unfolding sync_response
responded (ok p, db) = (ok (sync_response p), db)
responded (err e, db) = (err e, db)

abbrev pub no_progress : Progress
no_progress = record { results = []; synced_count = 0 }

-- What is checked before the loop.
unfoldable pub check_sync : World → JwtPayload → List SyncRow → Db → Result (Unit {0}) × Db
unfolding valid_dto validate_sync_access
check_sync w user rows db =
    if valid_dto rows
    then validate_sync_access w user rows db
    else (err (http (bad_request invalid_input)), db)

abbrev pub checked_sync :
    (ℕ → World) → JwtPayload → List SyncRow → Result (Unit {0}) × Db → Result SyncResponse × Db
unfolding sync_rows
checked_sync ws user rows (err e, db) = (err e, db)
checked_sync ws user rows (ok _, db) = responded (sync_rows ws 0 user rows no_progress db)

-- `transactions`: the access check and the checkout of each row meet other clients and faults of
-- their own.
unfoldable pub sync_transactions :
    World → (ℕ → World) → JwtPayload → List SyncRow → Db → Result SyncResponse × Db
unfolding check_sync sync_rows
sync_transactions access ws user rows db =
    checked_sync ws user rows (check_sync access user rows db)
