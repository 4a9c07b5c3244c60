-- ===== src/WebShop/Outbox.antt =====
-- `enqueue_sync_outbox`.
use inaam_wperp.Base.{
  ℕ, String, ◌<>◌, Bool, not, ◌&&◌, Option, none, some, List, [], ◌∷◌, ◌++◌, ◌=ₜ◌, if◌then◌else◌,
  find_by, update_first, is_empty, is_one_of, text_or, strip, lower,
}
use inaam_wperp.Models.{Db}
use inaam_wperp.Models.Sync.{SyncOutbox}
use inaam_wperp.Session.{
  M, service_error, ◌>>=◌, ◌>>◌, pure, raise_if, gets, modify, new_uuid, require_company_id, Env,
}

abbrev pub connector_name : String
connector_name = "woocommerce"

abbrev pub allowed_resource_types : List String
allowed_resource_types = "product" ∷ "customer" ∷ "order" ∷ "category" ∷ "brand" ∷ []

unfoldable pub validate_resource_type : String → M String
validate_resource_type t = do
  raise_if (not (is_one_of allowed_resource_types (lower (strip t))))
      (service_error 422 ("Unsupported WooCommerce resource type: " <> t <> "."))
  pure (lower (strip t))

abbrev pub outbox_key : String → Env → ℕ → String → String → ℕ → String
outbox_key last env company operation type id =
    connector_name
    <> ":"
    <> env.uuid_text company
    <> ":"
    <> operation
    <> ":"
    <> type
    <> ":"
    <> env.uuid_text id
    <> ":"
    <> last

-- `idempotency_key or (… new_uuid())`
unfoldable pub key_or_new : Env → ℕ → String → String → ℕ → Option String → M String
key_or_new env company operation type id key =
    if is_empty (text_or key "")
    then (do
      drawn ← new_uuid
      pure (outbox_key (env.uuid_text drawn) env company operation type id))
    else pure (text_or key "")

abbrev pub at_key : String → SyncOutbox → Bool
at_key key row = row.idempotency_key =ₜ key

abbrev pub waiting : Option String → Bool
waiting none = Bool.false
waiting (some e) =
    is_one_of
      ("Waiting for WooCommerce product sync before media sync."
        ∷ "Waiting for WooCommerce product sync before video sync." ∷ [])
      e

-- What queueing a row again assigns to it.
abbrev pub queued_again : String → SyncOutbox → SyncOutbox
queued_again payload row =
    if row.status =ₜ "failed"
    then record row {
      status = "pending";
      attempts = 0;
      next_attempt_at = none;
      last_error = none;
      payload = payload;
    }
    else if is_one_of ("push_media" ∷ "push_videos" ∷ []) row.operation
        && (row.status =ₜ "pending" && waiting row.last_error)
    then record row { attempts = 0; next_attempt_at = none }
    else row

abbrev pub with_outbox : List SyncOutbox → Db → Db
with_outbox rows db = record db { sync = record db.sync { outbox = rows } }

abbrev pub outbox_row : ℕ → ℕ → String → String → ℕ → String → String → SyncOutbox
outbox_row row_id company operation type id payload key = record {
  id = row_id;
  company_id = some company;
  connector = connector_name;
  operation = operation;
  resource_type = type;
  resource_id = id;
  payload = payload;
  idempotency_key = key;
  status = "pending";
  attempts = 0;
  next_attempt_at = none;
  last_error = none;
}

unfoldable pub or_new_row :
    ℕ → String → String → ℕ → String → String → Option SyncOutbox → M SyncOutbox
or_new_row company operation type id payload key (some row) = do
  modify (λ db. with_outbox (update_first (at_key key) (queued_again payload) db.sync.outbox) db)
  pure (queued_again payload row)
or_new_row company operation type id payload key none = do
  row_id ← new_uuid
  modify (λ db.
      with_outbox (db.sync.outbox ++ outbox_row row_id company operation type id payload key ∷ [])
        db)
  pure (outbox_row row_id company operation type id payload key)

unfoldable pub enqueue_sync_outbox :
    Env → Option ℕ → String → String → ℕ → String → Option String → M SyncOutbox
enqueue_sync_outbox env company_id operation resource_type id payload idempotency_key = do
  company ← require_company_id company_id
  type ← validate_resource_type resource_type
  key ← key_or_new env company operation type id idempotency_key
  existing ← gets (λ db. find_by (at_key key) db.sync.outbox)
  or_new_row company operation type id payload key existing
