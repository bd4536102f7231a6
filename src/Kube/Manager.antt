-- ===== src/Kube/Manager.antt =====
-- The class `KubeManager` of library/kube.py. Ansible's `run_command` and `get_bin_path` are the
-- parameter `Ansible`: what a command answers may depend on the commands run before it. A call of
-- `fail_json` and an exception that nothing catches end the module, so both are values of `Stop`.
use factory_pattern_design.Base.{
  ℕ, String, Bool, true, false, not, Option, none, some, List, [], ◌∷◌, ◌++◌, ◌<>◌, ◌==◌,
  if◌then◌else◌,
}
use factory_pattern_design.Base.Text.{join, splitlines}
use factory_pattern_design.Base.Decimal.{decimal}
use factory_pattern_design.Base.Exec.{Outcome, returned, Exec, pure, raise, ◌>>=◌}
use factory_pattern_design.Kube.Command.{
  KubeManager, is_empty, get_cmd, apply_cmd, delete_cmd, stop_cmd,
}

pub data Stop : Type 0 where
  fail_json : String → Stop
  exception : String → Stop

-- `(rc, out, err)`, or the exception that `run_command` raised
pub data Completed : Type 0 where
  completed : ℕ → String → String → Completed
  crashed : String → Completed

pub record Ansible : Type 0 where
  pub run_command : List (List String) → List String → Completed
  pub get_bin_path : Outcome Stop String

-- The commands that were run, first to last.
abbrev pub Commands : Type 0
Commands = List (List String)

abbrev pub Run : Type 0 → Type 0
Run A = Exec Stop Commands A

-- `fail_json` where the command cannot be built
unfoldable pub or_fail : Option (List String) → String → Run (List String)
or_fail none msg = raise (fail_json msg)
or_fail (some cmd) msg = pure cmd

module _ (lib : Ansible) where
  unfoldable pub run_command : List String → Run Completed
  run_command args history = (returned (lib.run_command history args), history ++ (args ∷ []))

  -- What `_execute` makes of the answer.
  unfoldable pub or_report : List String → Completed → Run (List String)
  or_report args (completed rc out err) =
      if rc == 0
      then pure (splitlines out)
      else raise (
          fail_json (
            "error running kubectl ("
            <> (join " " args
                <> (") command (rc="
                    <> (decimal rc <> ("), out='" <> (out <> ("', err='" <> (err <> "'")))))))))
  or_report args (crashed msg) =
      raise (fail_json ("error running kubectl (" <> (join " " args <> (") command: " <> msg))))

  unfoldable pub _execute : KubeManager → List String → Run (List String)
  unfolding run_command or_report
  _execute m cmd = run_command (m.base_cmd ++ cmd) >>= or_report (m.base_cmd ++ cmd)

  -- What `_execute_nofail` makes of the answer.
  unfoldable pub or_nothing : Completed → Run (Option (List String))
  or_nothing (completed rc out err) = pure (if rc == 0 then some (splitlines out) else none)
  or_nothing (crashed msg) = raise (exception msg)

  unfoldable pub _execute_nofail : KubeManager → List String → Run (Option (List String))
  unfolding run_command or_nothing
  _execute_nofail m cmd = run_command (m.base_cmd ++ cmd) >>= or_nothing

  unfoldable pub has_lines : Option (List String) → Bool
  unfolding is_empty
  has_lines none = false
  has_lines (some lines) = not (is_empty lines)

  unfoldable pub exists : KubeManager → Run Bool
  unfolding get_cmd or_fail _execute_nofail has_lines
  exists m = do
    cmd ← or_fail (get_cmd m) "resource required without filename"
    result ← _execute_nofail m cmd
    pure (has_lines result)

  unfoldable pub replace : KubeManager → Bool → Run (List String)
  unfolding apply_cmd or_fail _execute
  replace m force = or_fail (apply_cmd force m) "filename required to reload" >>= _execute m

  unfoldable pub create : KubeManager → Bool → Bool → Run (List String)
  unfolding exists apply_cmd or_fail _execute
  create m check force = do
    found ← if check then exists m else pure false
    if found
        then pure []
        else or_fail (apply_cmd force m) "filename required to create" >>= _execute m

  unfoldable pub delete : KubeManager → Run (List String)
  unfolding exists delete_cmd or_fail _execute
  delete m = do
    found ← if m.force then pure true else exists m
    if found
        then or_fail (delete_cmd m) "resource required to delete without filename" >>= _execute m
        else pure []

  unfoldable pub stop : KubeManager → Run (List String)
  unfolding exists stop_cmd or_fail _execute
  stop m = do
    found ← if m.force then pure true else exists m
    if found
        then or_fail (stop_cmd m) "resource required to stop without filename" >>= _execute m
        else pure []
