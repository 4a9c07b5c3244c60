-- ===== src/Push/Recipients.antt =====
-- The recipients of an event. A Python set is the list of its members in the order of their table.
use inaam_wperp.Base.{
  ℕ, String, Bool, not, ◌&&◌, Option, none, some, List, [], ◌∷◌, ◌=ₜ◌, ◌==◌, if◌then◌else◌,
  exists_by, truthy, is_one_of,
}
use inaam_wperp.Models.{Db}
use inaam_wperp.Models.Riders.{User, Role}
use inaam_wperp.Models.Push.{VendorUser, OrderItem, PushTables}

-- The joins with `RolePermission` and `Permission`: the role has one of the permissions.
abbrev pub role_may : PushTables → List String → ℕ → Bool
role_may push keys role =
    exists_by
      (λ link.
        link.role_id == role
        && exists_by (λ p. p.id == link.permission_id && is_one_of keys p.key) push.permissions)
      push.role_permissions

-- The joins with `UserRole` and `Role`: the user has a role that fits `wanted`.
abbrev pub has_role : Db → (Role → Bool) → ℕ → Bool
has_role db wanted user =
    exists_by
      (λ link.
        link.user_id == user
        && exists_by (λ role. role.id == link.role_id && wanted role) db.riders.roles)
      db.riders.user_roles

abbrev pub is_active_in : ℕ → User → Bool
is_active_in company u = u.company_id == company && (u.is_active && u.account_status =ₜ "active")

abbrev pub ids_where : (User → Bool) → List User → List ℕ
ids_where wanted [] = []
ids_where wanted (u ∷ us) = let rest = ids_where wanted us in if wanted u then u.id ∷ rest else rest

abbrev pub eligible_admin : Db → ℕ → List String → User → Bool
eligible_admin db company permissions u =
    is_active_in company u
    && has_role db (λ role. not (role.name =ₜ "Vendor") && role_may db.push permissions role.id)
        u.id

abbrev pub eligible_admin_ids : Db → ℕ → List String → List ℕ
eligible_admin_ids db company permissions =
    ids_where (eligible_admin db company permissions) db.riders.users

abbrev pub is_vendor_user : ℕ → ℕ → ℕ → VendorUser → Bool
is_vendor_user company vendor user v =
    v.company_id == company && (v.vendor_id == vendor && v.user_id == user)

abbrev pub eligible_vendor : Db → ℕ → ℕ → User → Bool
eligible_vendor db company vendor u =
    (is_active_in company u && exists_by (is_vendor_user company vendor u.id) db.push.vendor_users)
    && has_role db (λ role. role_may db.push ("vendor.orders.view" ∷ []) role.id) u.id

abbrev pub eligible_vendor_ids : Db → ℕ → ℕ → List ℕ
eligible_vendor_ids db company vendor =
    ids_where (eligible_vendor db company vendor) db.riders.users

-- `if value` leaves an empty id out.
abbrev pub add_vendor : Option ℕ → List ℕ → List ℕ
add_vendor none ids = ids
add_vendor (some v) ids =
    if not (truthy (some v)) then ids else if exists_by (λ w. w == v) ids then ids else v ∷ ids

abbrev pub vendor_ids_of : ℕ → ℕ → List OrderItem → List ℕ
vendor_ids_of company order [] = []
vendor_ids_of company order (i ∷ items) =
    let rest = vendor_ids_of company order items in
    if i.company_id == company && i.order_id == order then add_vendor i.vendor_id rest else rest

abbrev pub order_vendor_ids : Db → ℕ → ℕ → List ℕ
order_vendor_ids db company order = vendor_ids_of company order db.push.items
