-- ===== src/Models/Push.antt =====
-- Push notifications, and the permissions that decide who gets them. Of a notification the texts that are
-- shown (title, body, target_route, payload) and the columns that only the sending worker writes are left out.
use inaam_wperp.Base.{ℕ, String, Option, List}

pub record Permission : Type 0 where
  pub id : ℕ
  pub key : String

pub record RolePermission : Type 0 where
  pub role_id : ℕ
  pub permission_id : ℕ

pub record VendorUser : Type 0 where
  pub company_id : ℕ
  pub vendor_id : ℕ
  pub user_id : ℕ

pub record OrderItem : Type 0 where
  pub id : ℕ
  pub company_id : ℕ
  pub order_id : ℕ
  pub vendor_id : Option ℕ

pub record PushNotification : Type 0 where
  pub id : ℕ
  pub company_id : ℕ
  pub recipient_user_id : ℕ
  pub event_type : String
  pub order_id : Option ℕ
  pub vendor_id : Option ℕ
  pub status : String
  pub idempotency_key : String

pub record PushTables : Type 0 where
  pub permissions : List Permission
  pub role_permissions : List RolePermission
  pub vendor_users : List VendorUser
  pub items : List OrderItem
  pub notifications : List PushNotification
