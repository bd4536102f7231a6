-- ===== src/Scripts.antt =====
-- The programs under scripts/ and contrib/aws_inventory.
pub mod OpenStack
pub mod Gitlab
pub mod Aws
pub mod DownloadHash
pub mod Matrix
