-- ===== src/Deliveries/Address.antt =====
-- `_order_address`.
use inaam_wperp.Base.{
  ℕ, Bool, ◌&&◌, Option, none, some, ◌==◌, if◌then◌else◌, find_by, is_empty, text_or, or_text,
  stripped, upper,
}
use inaam_wperp.Models.Riders.{Order}
use inaam_wperp.Models.Deliveries.{Customer, CustomerAddress, ShippingAddress, DeliveryAddress}
use inaam_wperp.Session.{M, service_error, ◌>>=◌, pure, gets, or_raise}

abbrev pub shipped_to : Customer → ShippingAddress → DeliveryAddress
shipped_to customer raw = record {
  recipient_name = text_or raw.recipient_name customer.full_name;
  recipient_phone = or_text raw.phone customer.phone;
  address_line1 = stripped raw.line1;
  address_line2 = raw.line2;
  city = raw.city;
  state = raw.state;
  postal_code = raw.postal_code;
  country = upper (text_or raw.country "PK");
}

abbrev pub default_address : ℕ → ℕ → CustomerAddress → Bool
default_address company customer a =
    (a.company_id == company && a.customer_id == customer) && a.is_default

abbrev pub sent_home : Customer → CustomerAddress → DeliveryAddress
sent_home customer address = record {
  recipient_name = text_or address.recipient_name customer.full_name;
  recipient_phone = or_text address.phone customer.phone;
  address_line1 = address.line1;
  address_line2 = address.line2;
  city = address.city;
  state = address.state;
  postal_code = address.postal_code;
  country = address.country;
}

-- The order's own address, where it has a first line.
abbrev pub own_address : Customer → Option ShippingAddress → Option DeliveryAddress
own_address customer none = none
own_address customer (some raw) =
    if is_empty (stripped raw.line1) then none else some (shipped_to customer raw)

abbrev pub or_home : ℕ → Customer → Option DeliveryAddress → M DeliveryAddress
or_home company customer (some address) = pure address
or_home company customer none = do
  found ← gets (λ db. find_by (default_address company customer.id) db.deliveries.addresses)
  address ← or_raise found (
      service_error 422
        "The order has no shipping address and the customer has no default address.")
  pure (sent_home customer address)

unfoldable pub order_address : ℕ → Order → Customer → M DeliveryAddress
order_address company order customer =
    or_home company customer (own_address customer order.shipping_address)
