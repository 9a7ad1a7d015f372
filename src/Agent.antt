-- ===== src/Agent.antt =====
-- src/agent-control: sessions, policy, plans, approvals, operations and the audit log of the agents.
pub mod Json
pub mod Redaction
pub mod Model
pub mod Registry
pub mod Policy
pub mod Audit
pub mod Store
pub mod Sessions
pub mod Operations
pub mod Approvals
pub mod Verification
pub mod Safety
pub mod Plans
pub mod Broker
