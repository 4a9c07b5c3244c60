-- ===== src/Marketplace/ItemDelivered.antt =====
-- A vendor's item from the order to its delivery, by calls of `change_vendor_order_item_status`.
use inaam_wperp.Base.{ℕ, none, some, ◌≡◌, ◌∙◌, ap, refl, find_by}
use inaam_wperp.Models.{Db}
use inaam_wperp.Models.Sales.{ItemStatus, pending, accepted, packing, dispatched, delivered}
use inaam_wperp.Models.Riders.{VendorOrderItem}
use inaam_wperp.Session.{M, ok, ◌>>◌, >>=-ok, Env}
use inaam_wperp.Marketplace.ItemStatus.{
  item_may_become, VendorOrderItemStatusChange, item_of_vendor, set_item_status,
  change_vendor_order_item_status,
}
use inaam_wperp.Marketplace.ItemChanged.{change_succeeds, found_after}

abbrev pub asked : ItemStatus → VendorOrderItemStatusChange
asked status = record { status = status; reason = none }

-- The vendor accepts the item, packs it, dispatches it, and states that it is delivered.
abbrev pub fulfil : Env → ℕ → ℕ → ℕ → ℕ → M VendorOrderItem
fulfil env company user vendor id = do
  change_vendor_order_item_status env company user vendor id (asked accepted)
  change_vendor_order_item_status env company user vendor id (asked packing)
  change_vendor_order_item_status env company user vendor id (asked dispatched)
  change_vendor_order_item_status env company user vendor id (asked delivered)

-- A pending item of a vendor can always be delivered: the four calls return one after the other, the item
-- has the status `delivered` then and is otherwise as it was, and the books and the stock did not change.
pub fulfil_delivers :
    (env : Env) (company user vendor id : ℕ) (item : VendorOrderItem) (db : Db)
    → find_by (item_of_vendor company vendor id) db.riders.order_items ≡ some item
    → item.status ≡ pending
    → (db' : Db) × (fulfil env company user vendor id db ≡ ok (set_item_status delivered item, db'))
      × (find_by (item_of_vendor company vendor id) db'.riders.order_items
          ≡ some (set_item_status delivered item))
      × (db'.books ≡ db.books)
      × (db'.stock ≡ db.stock)
fulfil_delivers env company user vendor id item db found is_pending =
    let change = change_vendor_order_item_status env company user vendor id in
    let (db₁, ok₁, c₁) =
      change_succeeds env company user vendor id (asked accepted) item db found
        (record { allowed = ap (λ s. item_may_become s accepted) is_pending; reasoned = refl }) in
    let found₁ = found_after found c₁ in
    let (db₂, ok₂, c₂) =
      change_succeeds env company user vendor id (asked packing) (set_item_status accepted item) db₁
        found₁ (record { allowed = refl; reasoned = refl }) in
    let found₂ = found_after found₁ c₂ in
    let (db₃, ok₃, c₃) =
      change_succeeds env company user vendor id (asked dispatched) (set_item_status packing item)
        db₂ found₂ (record { allowed = refl; reasoned = refl }) in
    let found₃ = found_after found₂ c₃ in
    let (db₄, ok₄, c₄) =
      change_succeeds env company user vendor id (asked delivered) (set_item_status dispatched item)
        db₃ found₃ (record { allowed = refl; reasoned = refl }) in
    (
      db₄,
      >>=-ok (change (asked accepted))
          (λ _. change (asked packing) >> (change (asked dispatched) >> change (asked delivered)))
          db ok₁
          (>>=-ok (change (asked packing))
            (λ _. change (asked dispatched) >> change (asked delivered)) db₁ ok₂
            (>>=-ok (change (asked dispatched)) (λ _. change (asked delivered)) db₂ ok₃ ok₄)),
      found_after found₃ c₄,
      c₄.same_books ∙ c₃.same_books ∙ c₂.same_books ∙ c₁.same_books,
      c₄.same_stock ∙ c₃.same_stock ∙ c₂.same_stock ∙ c₁.same_stock,
    )
