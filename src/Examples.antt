-- ===== src/Examples.antt =====
-- Runs of the model on concrete data, and the theorems applied there.
mod Engine
mod History
mod Restart
mod Replication
mod Setup
mod Service
mod Ring
mod Replicas
mod Cluster
mod Cmd
mod Server
