-- ===== src/Evidence.antt =====
-- src/zonegate/evidence: which evidence a workflow wants, the plan, and the gateway to the carrier.
pub mod WorkflowPolicy
pub mod PlanValidator
pub mod Gateway
pub mod Agreement
