-- ===== src/Inventory/Settings.antt =====
-- The shell variables that configure the builder (lines 47 to 75 of inventory.py).
use factory_pattern_design.Base.{ℕ, String, Bool, false, List, [], ◌∷◌}

pub record Settings : Type 0 where
  pub kube_control_hosts : ℕ
  pub scale_threshold : ℕ
  pub massive_scale_threshold : ℕ
  pub host_prefix : String
  pub use_real_hostname : Bool

abbrev pub defaults : Settings
defaults = record {
  kube_control_hosts = 2;
  scale_threshold = 50;
  massive_scale_threshold = 200;
  host_prefix = "node";
  use_real_hostname = false;
}

abbrev pub roles : List String
roles = "all" ∷ "kube_control_plane" ∷ "kube_node" ∷ "etcd" ∷ "k8s_cluster" ∷ "calico_rr" ∷ []

abbrev pub protected_names : List String
protected_names = roles

abbrev pub available_commands : List String
available_commands = "help" ∷ "print_cfg" ∷ "print_ips" ∷ "print_hostnames" ∷ "load" ∷ "add" ∷ []
