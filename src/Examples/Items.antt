-- ===== src/Examples/Items.antt =====
-- A vendor's item that is accepted, packed, dispatched and delivered.
use inaam_wperp.Base.{some, ◌≡◌, refl, find_by}
use inaam_wperp.Models.{Db}
use inaam_wperp.Models.Sales.{accepted, delivered}
use inaam_wperp.Models.Riders.{VendorOrderItem}
use inaam_wperp.Session.{ok}
use inaam_wperp.Marketplace.ItemStatus.{
  item_of_vendor, set_item_status, change_vendor_order_item_status,
}
use inaam_wperp.Marketplace.ItemChanged.{StatusSet, change_vendor_order_item_status_returns}
use inaam_wperp.Marketplace.ItemDelivered.{asked, fulfil, fulfil_delivers}
use inaam_wperp.Examples.Fixtures.{env}
use inaam_wperp.Examples.Cash.{sold_item, at_door}

change_vendor_order_item_status_returns_example :
    (r : VendorOrderItem) × (db' : Db) × (change_vendor_order_item_status env 1 7 2 85
        (asked accepted)
        at_door
      ≡ ok (r, db'))
    × (r.status ≡ accepted)
    × StatusSet 1 7 2 85 (asked accepted) sold_item at_door db'
change_vendor_order_item_status_returns_example =
    change_vendor_order_item_status_returns env 1 7 2 85 (asked accepted) sold_item at_door refl
      (record { allowed = refl; reasoned = refl })

fulfil_delivers_example :
    (db' : Db) × (fulfil env 1 7 2 85 at_door ≡ ok (set_item_status delivered sold_item, db'))
    × (find_by (item_of_vendor 1 2 85) db'.riders.order_items
        ≡ some (set_item_status delivered sold_item))
    × (db'.books ≡ at_door.books)
    × (db'.stock ≡ at_door.stock)
fulfil_delivers_example = fulfil_delivers env 1 7 2 85 sold_item at_door refl refl
