-- ===== src/Tests.antt =====
-- Runs of the models on small inputs, at which the theorems are applied.
mod Vectors
mod Tables
mod Entries
mod Queues
mod Texts
mod Config
mod Setup
mod Logs
