-- ===== src/Tests.antt =====
-- Runs of the models, and the theorems at concrete inputs.
mod Assignment
mod Metadata
mod Group
mod Storage
mod Batches
mod Log
mod Partition
mod Cluster
