-- ===== src/Tests/Kube.antt =====
-- The module `kube` with a `kubectl` that finds nothing.
use factory_pattern_design.Base.{false, refl, none, some, [], ◌∷◌}
use factory_pattern_design.Base.Exec.{returned}
use factory_pattern_design.Kube.Command.{Params, KubeManager, manager, base_command}
use factory_pattern_design.Kube.Manager.{completed, Ansible}
use factory_pattern_design.Kube.Module.{main, find_kubectl}
use factory_pattern_design.Kube.Plans.{plan, targets, Planned}
use factory_pattern_design.Kube.Plans.Main.{main-plan}

abbrev not_found : Ansible
not_found = record {
  run_command = λ history args. completed 1 "" "not found";
  get_bin_path = returned "/usr/bin/kubectl";
}

abbrev web : Params
web = record {
  kubectl = none;
  server = none;
  log_level = 2;
  namespace = some "web";
  all = false;
  force = false;
  wait = false;
  name = some "nginx";
  filename = none;
  resource = some "pod";
  label = none;
  recursive = false;
  state = "absent";
}

abbrev pub web_manager : KubeManager
web_manager = record {
  base_cmd = "kubectl" ∷ "--namespace=web" ∷ [];
  all = false;
  force = false;
  wait = false;
  name = some "nginx";
  filename = [];
  resource = some "pod";
  label = none;
  recursive = false;
}

main-plan_example :
    Planned
      (base_command "/usr/bin/kubectl" web)
      (targets (manager "/usr/bin/kubectl" web))
      (plan "absent" false)
      (main not_found web []).1
unfolding find_kubectl
main-plan_example = main-plan not_found web "/usr/bin/kubectl" refl
