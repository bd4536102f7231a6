-- ===== src/Tests/Cluster.antt =====
-- The state `absent` on a cluster with one pod.
use factory_pattern_design.Base.{
  String, Bool, true, false, ◌≡◌, refl, List, [], ◌∷◌, ◌++◌, arith, if◌then◌else◌,
}
use factory_pattern_design.Base.Text.{member, splitlines}
use factory_pattern_design.Base.Exec.{returned}
use factory_pattern_design.Kube.Command.{
  is_empty, resource_of, get_cmd, delete_cmd, selection, with_prefix, flag, recursive_flag,
}
use factory_pattern_design.Kube.Manager.{Completed, completed, Ansible, Commands}
use factory_pattern_design.Kube.Module.{Exit, perform}
use factory_pattern_design.Kube.Converges.{Lists, IsCluster, absent_converges}
use factory_pattern_design.Tests.Kube.{web_manager}

-- A cluster with one pod, until it is deleted.
holds_pod : Commands → Bool
holds_pod [] = true
holds_pod (args ∷ history) =
    let rest = holds_pod history in if member "delete" args then false else rest

abbrev get_args : List String
get_args = "get" ∷ "pod" ∷ "nginx" ∷ "--no-headers" ∷ []

abbrev delete_args : List String
delete_args = "delete" ∷ "pod" ∷ "nginx" ∷ []

abbrev answered : Bool → Bool → Completed
answered true there = completed 0 "pod deleted" ""
answered false true = completed 0 "nginx" ""
answered false false = completed 1 "" "not found"

abbrev one_pod : Ansible
one_pod = record {
  run_command = λ history args. answered (member "delete" args) (holds_pod history);
  get_bin_path = returned "/usr/bin/kubectl";
}

holds_pod-get :
    (history : Commands)
    → holds_pod (history ++ ((web_manager.base_cmd ++ get_args) ∷ [])) ≡ holds_pod history
unfolding holds_pod member
holds_pod-get [] = refl
holds_pod-get (args ∷ history) = rw (holds_pod-get history) refl

holds_pod-delete :
    (history : Commands)
    → holds_pod (history ++ ((web_manager.base_cmd ++ delete_args) ∷ [])) ≡ false
unfolding holds_pod member
holds_pod-delete [] = refl
holds_pod-delete (args ∷ history) = rw (holds_pod-delete history) (ground arith)

listed_pod : (there : Bool) → Lists (answered false there) there
unfolding splitlines is_empty
listed_pod true = (0, "nginx", "", refl, refl)
listed_pod false = (1, "", "not found", refl, refl)

one_pod-IsCluster : IsCluster one_pod web_manager get_args delete_args holds_pod
unfolding member
one_pod-IsCluster = record {
  get-lists = λ history. listed_pod (holds_pod history);
  get-keeps = holds_pod-get;
  delete-succeeds = λ history here. ("pod deleted", "", refl);
  delete-removes = holds_pod-delete;
}

absent_converges_example :
    (exit : Exit) × (later : Commands) × (perform one_pod "absent" web_manager []
      ≡ (returned exit, later))
    × (exit.changed ≡ false)
    × (holds_pod later ≡ false)
    × (perform one_pod "absent" web_manager later ≡ (
      returned record { changed = false; msg = "success: " },
      later ++ ((web_manager.base_cmd ++ get_args) ∷ []),
    ))
unfolding get_cmd delete_cmd is_empty resource_of selection with_prefix flag recursive_flag
absent_converges_example =
    absent_converges one_pod web_manager get_args delete_args holds_pod one_pod-IsCluster refl refl
      [] refl
