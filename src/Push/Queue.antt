-- ===== src/Push/Queue.antt =====
-- `_queue_notification`.
use inaam_wperp.Base.{
  ℕ, String, ◌<>◌, Bool, not, Option, none, some, [], ◌∷◌, ◌++◌, ◌=ₜ◌, if◌then◌else◌, find_by,
}
use inaam_wperp.Models.Push.{PushNotification}
use inaam_wperp.Session.{M, ◌>>=◌, ◌>>◌, pure, gets, modify, new_uuid, Env}

-- The event of a notification, and the order and vendor that it is about.
pub record Event : Type 0 where
  pub company_id : ℕ
  pub event_type : String
  pub event_key : String
  pub order_id : Option ℕ
  pub vendor_id : Option ℕ

abbrev pub notification_key : Env → Event → ℕ → String
notification_key env event user = event.event_key <> ":user:" <> env.uuid_text user

abbrev pub with_key : String → PushNotification → Bool
with_key key n = n.idempotency_key =ₜ key

abbrev pub notification_row : Env → ℕ → Event → ℕ → PushNotification
notification_row env id event user = record {
  id = id;
  company_id = event.company_id;
  recipient_user_id = user;
  event_type = event.event_type;
  order_id = event.order_id;
  vendor_id = event.vendor_id;
  status = "queued";
  idempotency_key = notification_key env event user;
}

unfoldable pub or_new_notification :
    Env → Event → ℕ → Option PushNotification → M (Option PushNotification)
or_new_notification env event user (some existing) = pure (some existing)
or_new_notification env event user none = do
  id ← new_uuid
  modify λ db. record db {
    push = record db.push {
      notifications = db.push.notifications ++ notification_row env id event user ∷ [];
    };
  }
  pure (some (notification_row env id event user))

unfoldable pub queue_notification : Env → Event → ℕ → M (Option PushNotification)
queue_notification env event user = do
  existing ← gets (λ db. find_by (with_key (notification_key env event user)) db.push.notifications)
  (if not env.push_enabled then pure none else or_new_notification env event user existing)
