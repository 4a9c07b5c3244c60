-- ===== src/RiderFinance/Collection.antt =====
-- The riders' delivery fees and the cash that they collect: `set_rider_profile`, `submit_cod_collection` and
-- `post_rider_earning_for_collection`.
use inaam_wperp.Base.{
  ℕ, String, ◌<>◌, Bool, true, not, ◌&&◌, ◌||◌, Option, none, some, List, [], ◌∷◌, ◌++◌, ◌=ₜ◌, ◌==◌,
  leb, if◌then◌else◌, find_by, exists_by, update_first, strip, upper,
}
use inaam_wperp.Base.Int.{pos, ◌-ℤ◌, pos_part}
use inaam_wperp.Models.{Db}
use inaam_wperp.Models.Deliveries.{DeliveryAssignment}
use inaam_wperp.Models.Riders.{
  Order, RiderFinanceProfile, CodCollection, submitted, RiderLedgerEntry,
}
use inaam_wperp.Session.{
  M, service_error, ◌>>=◌, ◌>>◌, pure, raise_if, gets, or_raise, modify, new_uuid, record_audit,
  require_company_id, Env,
}
use inaam_wperp.RiderFinance.Entries.{get_rider, entry_from, append_rider_ledger_entry}
use inaam_wperp.RiderFinance.Journals.{post_rider_journal}
use inaam_wperp.RiderFinance.Eligibility.{get_order, is_delivered}

pub record RiderFinanceProfileUpdate : Type 0 where
  pub delivery_fee_minor : ℕ
  pub currency : String
  pub is_active : Bool

pub record CodCollectionCreate : Type 0 where
  pub delivery_assignment_id : ℕ
  pub collected_minor : ℕ
  pub receipt_reference : String
  pub proof_reference : String
  pub idempotency_key : String

abbrev pub profile_of : ℕ → ℕ → RiderFinanceProfile → Bool
profile_of company rider p = p.company_id == company && p.rider_user_id == rider

-- `get_rider_profile` of a company user.
abbrev pub get_rider_profile : ℕ → ℕ → M (Option RiderFinanceProfile)
get_rider_profile company rider = gets (λ db. find_by (profile_of company rider) db.riders.profiles)

abbrev pub set_profile : RiderFinanceProfileUpdate → RiderFinanceProfile → RiderFinanceProfile
set_profile payload p = record p {
  delivery_fee_minor = payload.delivery_fee_minor;
  currency = upper payload.currency;
  is_active = payload.is_active;
}

abbrev pub new_profile : ℕ → ℕ → ℕ → RiderFinanceProfile
new_profile id company rider = record {
  id = id;
  company_id = company;
  rider_user_id = rider;
  delivery_fee_minor = 0;
  currency = "PKR";
  is_active = true;
}

abbrev pub with_profiles : List RiderFinanceProfile → Db → Db
with_profiles rows db = record db { riders = record db.riders { profiles = rows } }

-- The row, which is added where there is none.
unfoldable pub profile_or_new : ℕ → ℕ → Option RiderFinanceProfile → M RiderFinanceProfile
profile_or_new company rider (some p) = pure p
profile_or_new company rider none = do
  id ← new_uuid
  modify (λ db. with_profiles (db.riders.profiles ++ new_profile id company rider ∷ []) db)
  pure (new_profile id company rider)

unfoldable pub set_rider_profile :
    Option ℕ → ℕ → ℕ → RiderFinanceProfileUpdate → M RiderFinanceProfile
set_rider_profile company_id actor rider payload = do
  company ← require_company_id company_id
  get_rider company rider
  found ← get_rider_profile company rider
  p ← profile_or_new company rider found
  modify (λ db.
      with_profiles
        (update_first (profile_of company rider) (set_profile payload) db.riders.profiles) db)
  record_audit "finance.rider_fee_configured" company actor "rider_finance_profile" p.id
  pure (set_profile payload p)

abbrev pub collection_with_key : ℕ → String → CodCollection → Bool
collection_with_key company key c = c.company_id == company && c.idempotency_key =ₜ key

abbrev pub collection_of : ℕ → ℕ → CodCollection → Bool
collection_of company assignment c =
    c.company_id == company && c.delivery_assignment_id == assignment

abbrev pub delivery_of_rider : ℕ → ℕ → ℕ → DeliveryAssignment → Bool
delivery_of_rider company id rider a =
    (a.company_id == company && a.id == id) && a.rider_user_id == rider

-- `max(0, order.total_minor - order.paid_minor)`
abbrev pub expected_of : Order → ℕ
expected_of order = pos_part (order.total_minor -ℤ order.paid_minor)

abbrev pub collection_row :
    ℕ → ℕ → ℕ → DeliveryAssignment → Order → CodCollectionCreate → CodCollection
collection_row id company rider assignment order payload = record {
  id = id;
  company_id = company;
  delivery_assignment_id = assignment.id;
  order_id = order.id;
  rider_user_id = rider;
  expected_minor = expected_of order;
  collected_minor = payload.collected_minor;
  accepted_minor = none;
  currency = order.currency;
  receipt_reference = strip payload.receipt_reference;
  proof_reference = strip payload.proof_reference;
  status = submitted;
  idempotency_key = payload.idempotency_key;
}

unfoldable pub insert_collection :
    ℕ → ℕ → DeliveryAssignment → Order → CodCollectionCreate → M CodCollection
insert_collection company rider assignment order payload = do
  id ← new_uuid
  modify λ db. record db {
    riders = record db.riders {
      collections =
          db.riders.collections ++ collection_row id company rider assignment order payload ∷ [];
    };
  }
  record_audit "finance.cod_submitted" company rider "cod_collection" id
  pure (collection_row id company rider assignment order payload)

unfoldable pub collect_for :
    ℕ → ℕ → CodCollectionCreate → DeliveryAssignment → Order → M CodCollection
collect_for company rider payload assignment order = do
  raise_if (leb (expected_of order) 0)
      (service_error 409 "This order has no outstanding amount to collect.")
  duplicate ← gets (λ db. exists_by (collection_of company assignment.id) db.riders.collections)
  raise_if duplicate (service_error 409 "COD has already been submitted for this delivery.")
  insert_collection company rider assignment order payload

unfoldable pub collect_on : ℕ → ℕ → CodCollectionCreate → DeliveryAssignment → M CodCollection
collect_on company rider payload assignment = do
  raise_if (not (is_delivered assignment.status))
      (service_error 409 "COD can only be submitted for a delivered assignment.")
  order ← get_order company assignment.order_id
  collect_for company rider payload assignment order

unfoldable pub or_new_collection :
    ℕ → ℕ → CodCollectionCreate → Option CodCollection → M CodCollection
or_new_collection company rider payload (some existing) = pure existing
or_new_collection company rider payload none = do
  found ← gets (λ db.
      find_by (delivery_of_rider company payload.delivery_assignment_id rider)
        db.riders.assignments)
  assignment ← or_raise found (service_error 404 "Delivery assignment not found.")
  collect_on company rider payload assignment

unfoldable pub submit_cod_collection : Option ℕ → ℕ → CodCollectionCreate → M CodCollection
submit_cod_collection company_id rider payload = do
  company ← require_company_id company_id
  existing ←
      gets
        (λ db. find_by (collection_with_key company payload.idempotency_key) db.riders.collections)
  or_new_collection company rider payload existing

-- A profile that pays a fee.
abbrev pub paying : Option RiderFinanceProfile → Option RiderFinanceProfile
paying none = none
paying (some p) = if not p.is_active || leb p.delivery_fee_minor 0 then none else some p

unfoldable pub or_new_earning :
    Env
    → ℕ
    → ℕ
    → CodCollection
    → RiderFinanceProfile
    → Option RiderLedgerEntry
    → M (Option RiderLedgerEntry)
or_new_earning env company actor c p (some existing) = pure (some existing)
or_new_earning env company actor c p none = do
  journal ←
      post_rider_journal env company actor "rider_earning" (env.uuid_text c.id)
        ("rider-earning:" <> env.uuid_text c.id) (pos p.delivery_fee_minor) c.currency
  entry ← append_rider_ledger_entry record {
    company_id = company;
    rider_user_id = c.rider_user_id;
    entry_type = "earning";
    source_type = "cod_collection";
    source_id = env.uuid_text c.id;
    amount_minor = pos p.delivery_fee_minor;
    currency = c.currency;
    journal_id = some journal.id;
  }
  pure (some entry)

unfoldable pub earn_if_paying :
    Env → ℕ → ℕ → CodCollection → Option RiderFinanceProfile → M (Option RiderLedgerEntry)
earn_if_paying env company actor c none = pure none
earn_if_paying env company actor c (some p) = do
  existing ← gets (λ db.
      find_by (entry_from company c.rider_user_id "cod_collection" (env.uuid_text c.id))
        db.riders.rider_entries)
  or_new_earning env company actor c p existing

unfoldable pub post_rider_earning_for_collection :
    Env → ℕ → ℕ → CodCollection → M (Option RiderLedgerEntry)
post_rider_earning_for_collection env company actor c = do
  profile ← get_rider_profile company c.rider_user_id
  earn_if_paying env company actor c (paying profile)
