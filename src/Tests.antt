-- ===== src/Tests.antt =====
-- The theorems at concrete inputs, and runs of the model.
mod Cluster
mod Logs
mod Nodes
mod Cores
mod Changes
mod Groups
mod Runtimes
mod Snapshots
mod Senders
