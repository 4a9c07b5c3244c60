-- ===== src/Models/Audit.antt =====
-- The audit trail.
use inaam_wperp.Base.{ℕ, String}

pub record AuditLog : Type 0 where
  pub id : ℕ
  pub company_id : ℕ
  pub user_id : ℕ
  pub action : String
  pub entity_type : String
  pub entity_id : ℕ
