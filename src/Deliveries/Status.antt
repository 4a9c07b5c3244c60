-- ===== src/Deliveries/Status.antt =====
-- `DELIVERY_STATUSES` and `DELIVERY_TRANSITIONS`.
use inaam_wperp.Base.{
  String, Bool, true, false, Option, none, some, List, [], ◌∷◌, ◌=ₜ◌, if◌then◌else◌,
}
use inaam_wperp.Models.Deliveries.{
  DeliveryStatus, assigned, picked_up, out_for_delivery, delivered, failed, cancelled,
}

abbrev pub delivery_status_text : DeliveryStatus → String
delivery_status_text assigned = "assigned"
delivery_status_text picked_up = "picked_up"
delivery_status_text out_for_delivery = "out_for_delivery"
delivery_status_text delivered = "delivered"
delivery_status_text failed = "failed"
delivery_status_text cancelled = "cancelled"

abbrev pub same_status : DeliveryStatus → DeliveryStatus → Bool
same_status assigned assigned = true
same_status picked_up picked_up = true
same_status out_for_delivery out_for_delivery = true
same_status delivered delivered = true
same_status failed failed = true
same_status cancelled cancelled = true
same_status _ _ = false

abbrev pub delivery_statuses : List DeliveryStatus
delivery_statuses = assigned ∷ picked_up ∷ out_for_delivery ∷ delivered ∷ failed ∷ cancelled ∷ []

abbrev pub status_among : String → List DeliveryStatus → Option DeliveryStatus
status_among t [] = none
status_among t (s ∷ rest) =
    let found = status_among t rest in if delivery_status_text s =ₜ t then some s else found

-- The status that a request names, if it is one.
abbrev pub delivery_status_of : String → Option DeliveryStatus
delivery_status_of t = status_among t delivery_statuses

abbrev pub delivery_transitions : DeliveryStatus → List DeliveryStatus
delivery_transitions assigned = picked_up ∷ failed ∷ cancelled ∷ []
delivery_transitions picked_up = out_for_delivery ∷ failed ∷ []
delivery_transitions out_for_delivery = delivered ∷ failed ∷ []
delivery_transitions _ = []

abbrev pub status_in : DeliveryStatus → List DeliveryStatus → Bool
status_in s [] = false
status_in s (t ∷ ts) = if same_status s t then true else status_in s ts

abbrev pub may_become : DeliveryStatus → DeliveryStatus → Bool
may_become s t = status_in t (delivery_transitions s)
