-- ===== src/Approvals.antt =====
-- packages/exec-approvals/src: what commands run without a question.
pub mod Allowlist
