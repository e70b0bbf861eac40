-- ===== src/Tests.antt =====
-- Runs on concrete inputs: the fixtures that they share, and the examples of the theorems.
mod Fixtures
mod Branches
mod Repositories
mod Sync
mod Github
mod Kubernetes
mod Webhook
mod Programs
mod Config
mod Owners
mod Workflows
