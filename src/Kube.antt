-- ===== src/Kube.antt =====
-- library/kube.py: the Ansible module that runs `kubectl`.
pub mod Command
pub mod Manager
pub mod Module
pub mod Plans
pub mod Outcomes
pub mod Converges
