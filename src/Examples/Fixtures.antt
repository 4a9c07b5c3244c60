-- ===== src/Examples/Fixtures.antt =====
-- A company with one vendor and an empty database otherwise.
use inaam_wperp.Base.{ℕ, String, ◌<>◌, zero, suc, false, true, none, some, List, [], ◌∷◌}
use inaam_wperp.Models.{Db}
use inaam_wperp.Session.{Env}
use inaam_wperp.Base.Int.{pos}
use inaam_wperp.VendorStock.Scope.{VendorInventoryMovementCreate}
use inaam_wperp.Ledger.Payloads.{LedgerLineCreate, LedgerJournalCreate}

-- `n` strokes: a text for each number.
abbrev pub strokes : ℕ → String
strokes zero = ""
strokes (suc n) = "|" <> strokes n

abbrev pub now : ℕ
now = 96_422_400_000_005

abbrev pub env : Env
env = record {
  now = now;
  uuid_text = strokes;
  str = strokes;
  base_currency = "PKR";
  allow_negative_vendor_stock = false;
  push_enabled = true;
  any_period = λ periods. 0;
}

abbrev pub start : Db
start = record {
  next_id = 100;
  books = record {
    accounts = [];
    ledger_accounts = [];
    periods = [];
    journals = [];
    lines = [];
    journal_entries = [];
    journal_lines = [];
    vendor_entries = [];
  };
  catalog = record {
    vendors = record { id = 2; company_id = 1 } ∷ [];
    products = [];
    product_variants = [];
    vendor_products = [];
    warehouses = [];
    listings = [];
  };
  stock = record { balances = []; vendor_movements = []; movements = []; reservations = [] };
  riders = record {
    users = [];
    roles = [];
    user_roles = [];
    orders = [];
    assignments = [];
    profiles = [];
    collections = [];
    remittances = [];
    rider_entries = [];
    payouts = [];
    order_items = [];
    item_history = [];
  };
  deliveries = record { history = []; customers = []; addresses = [] };
  push = record {
    permissions = [];
    role_permissions = [];
    vendor_users = [];
    items = [];
    notifications = [];
  };
  sync = record { outbox = []; resource_maps = []; images = []; videos = [] };
  audit_logs = [];
}

abbrev pub sale_lines : List LedgerLineCreate
sale_lines =
    record {
      account_id = 115;
      vendor_id = none;
      debit_minor = 700;
      credit_minor = 0;
      currency = "pkr";
    }
    ∷ record {
      account_id = 119;
      vendor_id = some 2;
      debit_minor = 0;
      credit_minor = 700;
      currency = "PKR";
    }
    ∷ []

abbrev pub sale : LedgerJournalCreate
sale = record {
  source_type = "payment";
  source_id = some "p1";
  idempotency_key = none;
  posted_at = none;
  lines = sale_lines;
}

-- The same company with a product of its vendor, stocked in its warehouse as the company's own.
abbrev pub shop : Db
shop = record start {
  catalog = record start.catalog {
    products =
        record {
          id = 3;
          company_id = 1;
          status = "active";
          vendor_id = none;
          manage_stock = false;
          stock_quantity = none;
          stock_status = "instock";
        }
        ∷ [];
    vendor_products =
        record { company_id = 1; vendor_id = 2; product_id = 3; ownership_type = "company_owned" }
        ∷ [];
    warehouses =
        record {
          id = 4;
          company_id = 1;
          vendor_id = none;
          warehouse_type = "main";
          code = "W";
          name = "W";
          address = none;
          is_active = true;
        }
        ∷ [];
  };
}

-- Five pieces come in, at 10 each.
abbrev pub receipt : VendorInventoryMovementCreate
receipt = record {
  vendor_id = 2;
  product_id = 3;
  variant_id = none;
  warehouse_id = 4;
  movement_type = "receipt";
  quantity_delta = pos 5;
  reserved_quantity_delta = pos 0;
  ownership_type = "company_owned";
  unit_cost_minor = some 10;
  currency = "PKR";
  source_type = "purchase";
  source_id = "r1";
  idempotency_key = "receipt-1";
  transfer_group_id = none;
  occurred_at = none;
}
