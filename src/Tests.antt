-- ===== src/Tests.antt =====
-- The theorems at concrete inputs, and runs of the code on its own test data.
mod Data
mod Roles
mod Hosts
mod Load
mod Runs
mod Kube
mod Cluster
mod Terraform
mod Instances
mod Scripts
mod Sizes
mod Shell
mod States
mod Matrix
