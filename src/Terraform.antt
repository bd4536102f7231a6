-- ===== src/Terraform.antt =====
-- contrib/terraform/terraform.py: the dynamic inventory of Terraform's state files.
pub mod Parse
pub mod Flatten
pub mod Resources
pub mod Query
pub mod Attributes
pub mod Hosts
pub mod Report
pub mod Arguments
