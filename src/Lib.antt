-- ===== src/Lib.antt =====
-- The double-entry ledger, the vendor inventory, rider finance, the deliveries, the warehouses' stock, the
-- queue of notifications, the queue of pushes to the web shop and the marketplace of the ERP (erp/packages/core), as one state and the service
-- calls that change it.
--
-- Parts, and the file of each:
--   Models     erp/packages/core/db/models.py: a record for each table that is read or written; `Db`
--              is the whole database as one session sees it.
--   Session    a service call (`M`): it returns with a changed database, or it raises and the route
--              rolls back. ServiceError, record_audit and require_company_id.
--   Ledger     erp/packages/core/ledger_services.py. Payloads are the request bodies of schemas.py;
--              Accounts is ensure_default_ledger_accounts; Periods is ensure_period_for_date,
--              create_period and set_period_status; Lines is validate_lines; Projection is
--              project_legacy_journal and _append_legacy_vendor_projection; Posting is post_journal,
--              get_journal, journal_lines and reverse_journal; Reports is _date_line_query,
--              trial_balance, financial_statement and vendor_payable_minor; Payables is the ageing of
--              vendor_payables_report, with Python's difference of two instants in days as a function
--              that is given. Their child modules and Frame, Outside, Sound and Reversal hold the lemmas and the theorems.
--   VendorStock  the same file from _validate_inventory_scope on: record_vendor_inventory_movement,
--              which posts the valuation of the company's own stock through post_journal.
--   RiderFinance  erp/packages/core/finance_services.py: Entries is _rider, rider_balance_minor and
--              append_rider_ledger_entry; Journals is _post_rider_journal, Booked what it books; Adjustment is
--              post_rider_adjustment; Payout is create_rider_payout; Remittance is submit_remittance,
--              rider_cash_in_hand_minor and reconcile_remittance; Collection is set_rider_profile,
--              submit_cod_collection and post_rider_earning_for_collection; Eligibility is
--              refresh_vendor_finance_eligibility; SaleDecision is decide_vendor_item.
--   Deliveries  erp/packages/core/delivery_services.py: Status is the table of transitions, Address is
--              _order_address, Assignment is create_assignment and reassign_assignment, Change is
--              change_assignment_status. Life, Traced, Updated, Kept, Passes, Called, Changed and
--              History hold the state machine and the theorems. A delivery reads the orders, asks
--              rider finance to review its sales, and queues notifications.
--   Warehouses  erp/packages/core/inventory_services.py: Register is the warehouses and their codes,
--              Quantities is movement_delta and current_stock, Movement is record_stock_movement; Shop
--              is the part of shop_services.py that a movement calls, and Reservation is reserve_stock
--              of commerce_services.py.
--   WebShop    erp/packages/core/woocommerce_services.py: Outbox is enqueue_sync_outbox, Publishing is
--              enqueue_product_sync, which the movements of a shop's stock call, with the pushes of
--              images and videos. The texts of the payloads, their digest and the parsing of numbers
--              and URLs are functions that are given (`Formats`), without laws.
--   Marketplace  erp/packages/core/marketplace_services.py: Commission and Chosen are the choice of
--              a commission rule and the commission on a line; ItemStatus is the status of a vendor's
--              item, ItemChanged and ItemDelivered what its changes do.
--   Push       erp/packages/core/push_services.py: Recipients, Queue and Events are the recipients of
--              an event and the queue of notifications; Queued holds the theorem.
--   Keeps      calls that leave a part of the database, for the proofs of several modules.
--   Base       tests, texts, lists of rows, sums and integers that the others share.
--   Examples   runs on a small company.
--
-- How code and model correspond: a function of the source has a definition of the same name; a long
-- one is cut where it awaits a result, and its pieces are composed in the order of the source. A
-- query is a search through the list of a table's rows, oldest first, by the query's condition; which
-- period the query of ensure_period_for_date returns, which has no order, is open (`any_period`). An
-- attribute assignment is an update of the row that was found. Every loop of the source runs over a
-- list and is structural recursion, so no fuel is used. Amounts with `ge=0` are natural numbers,
-- quantities and balances are integers, both without bound as in Python.
--
-- Ids are numbers: `next_id` is the next uuid drawn, so a uuid never repeats. An instant is one number
-- in UTC with month, day, hour, minute, second and microsecond as digits, and one reading of the
-- clock serves a call. `str`, the text of a uuid and the settings are fields of `Env`. `upper` acts on
-- ASCII. Left out: metadata, memos, entry numbers and row timestamps, which no modelled service reads
-- back; the texts of notifications; row locks, since one session runs at a time; journal_lines in the
-- order of the random ids. A set of Python is a list in the order of its table. A call that raises inside
-- `try` leaves the database as it was.
--
-- Not modelled: reconcile_cod_collection and the orders' own services (their tables are there already), the
-- use of reservations by sales, subscriptions and the sending of notifications, and what is not the core's
-- logic: the HTTP routes, the user interfaces, the rest of the WooCommerce connector, licences, migrations
-- and scripts. Of reports, those that only list rows.
pub mod Base
pub mod Models
pub mod Session
pub mod Keeps
pub mod Ledger
pub mod VendorStock
pub mod RiderFinance
pub mod WebShop
pub mod Warehouses
pub mod Marketplace
pub mod Push
pub mod Deliveries
mod Examples
