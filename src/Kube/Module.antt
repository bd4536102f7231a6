-- ===== src/Kube/Module.antt =====
-- `main` of library/kube.py. What `exit_json` is called with is the value returned.
use factory_pattern_design.Base.{
  String, Bool, true, false, Option, none, some, List, ◌<>◌, ◌=ₛ◌, if◌then◌else◌,
}
use factory_pattern_design.Base.Text.{join}
use factory_pattern_design.Base.Exec.{pure, raise, ◌>>=◌}
use factory_pattern_design.Kube.Command.{Params, KubeManager, manager}
use factory_pattern_design.Kube.Manager.{
  fail_json, Ansible, Run, exists, replace, create, delete, stop,
}

pub record Exit : Type 0 where
  pub changed : Bool
  pub msg : String

unfoldable pub python_bool : Bool → String
python_bool true = "True"
python_bool false = "False"

unfoldable pub success : List String → Run Exit
success result = pure record { changed = false; msg = "success: " <> join " " result }

unfoldable pub exists_reply : Bool → Run Exit
unfolding python_bool
exists_reply result = pure record { changed = false; msg = python_bool result }

module _ (lib : Ansible) where
  -- The dispatch on `state`.
  unfoldable pub perform : String → KubeManager → Run Exit
  unfolding exists replace create delete stop success exists_reply
  perform state m =
      if state =ₛ "present"
      then create lib m false true >>= success
      else if state =ₛ "absent"
      then delete lib m >>= success
      else if state =ₛ "reloaded"
      then replace lib m true >>= success
      else if state =ₛ "stopped"
      then stop lib m >>= success
      else if state =ₛ "latest"
      then replace lib m true >>= success
      else if state =ₛ "exists"
      then exists lib m >>= exists_reply
      else raise (fail_json ("Unrecognized state " <> (state <> ".")))

  -- `self.kubectl`: the parameter, or what `get_bin_path` finds
  unfoldable pub find_kubectl : Option String → Run String
  find_kubectl (some path) = pure path
  find_kubectl none = λ history. (lib.get_bin_path, history)

  unfoldable pub main : Params → Run Exit
  unfolding perform find_kubectl manager
  main p = find_kubectl p.kubectl >>= λ kubectl. perform p.state (manager kubectl p)
