-- ===== src/Workflow.antt =====
-- src/fleet_api/workflows/models.py: the rows of the table `workflows`.
use fleet_api.Base.{ℕ, String, Option, List}
use fleet_api.Json.{Dict}

pub data WorkflowStatus : Type 0 where
  active deprecated : WorkflowStatus

pub record Workflow : Type 0 where
  pub id : String
  pub name : String
  pub owner_agent_id : String
  pub description : Option String
  pub input_schema : Option Dict
  pub output_schema : Option Dict
  pub estimated_duration_seconds : Option ℕ
  pub timeout_seconds : Option ℕ
  pub result_retention_days : ℕ
  pub status : WorkflowStatus
  pub tags : Option (List String)
  pub created_at : ℕ
  pub updated_at : Option ℕ
