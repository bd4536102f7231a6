-- ===== src/Kube/Plans/Main.antt =====
-- The dispatch on the state follows the plan of the state.
use mathlib.Core.Path.{subst}
use factory_pattern_design.Base.{
  String, ◌≡◌, refl, sym, Bool, true, false, Option, List, [], ◌∷◌, ◌=ₛ◌, if◌then◌else◌,
}
use factory_pattern_design.Base.Exec.{returned, pure, after, ◌>>=◌}
use factory_pattern_design.Kube.Command.{
  Params, KubeManager, manager, base_command, get_cmd, apply_cmd, delete_cmd, stop_cmd,
}
use factory_pattern_design.Kube.Manager.{
  Completed, completed, crashed, Ansible, Commands, Run, or_fail, run_command, _execute, or_nothing,
  _execute_nofail, has_lines, exists, replace, create, delete, stop,
}
use factory_pattern_design.Kube.Module.{Exit, success, exists_reply, perform, main, find_kubectl}
use factory_pattern_design.Kube.Plans.{
  plan, targets, is_start, Ran, nothing, next, Planned, Starts, absent, present,
}
use factory_pattern_design.Kube.Plans.Steps.{
  get_cmd-Starts, delete_cmd-Starts, stop_cmd-Starts, apply_cmd-Starts, finish, guarded,
}

module _ (lib : Ansible) (m : KubeManager) where
  choose :
      (b : Bool) (x y : Run Exit) (p q : List String)
      → Planned m.base_cmd (targets m) p (x []).1
      → Planned m.base_cmd (targets m) q (y []).1
      → Planned m.base_cmd (targets m) (if b then p else q) ((if b then x else y) []).1
  choose true x y p q a b = a
  choose false x y p q a b = b

  apply_first :
      (msg : String)
      → Planned m.base_cmd
          (targets m)
          ("apply" ∷ [])
          (((or_fail (apply_cmd true m) msg >>= _execute lib m) >>= success) []).1
  unfolding is_start
  apply_first msg =
      finish lib m ("apply" ∷ []) [] "apply" msg (apply_cmd true m) [] (apply_cmd-Starts m) nothing
        refl refl

  get_answered :
      (r : Completed) (history : Commands)
      → Ran m.base_cmd (targets m) ("get" ∷ []) history
      → Planned m.base_cmd
          (targets m)
          ("get" ∷ [])
          (((or_nothing lib r >>= λ result. pure (has_lines lib result)) >>= exists_reply)
            history).1
  unfolding or_nothing exists_reply is_start
  get_answered (completed rc out e) history r = ("get" ∷ [], r, refl)
  get_answered (crashed text) history r = ("get" ∷ [], r, refl)

  get_only :
      (get : Option (List String))
      → Starts "get" (targets m) get
      → Planned m.base_cmd
          (targets m)
          ("get" ∷ [])
          (((or_fail get "resource required without filename" >>= λ cmd.
                _execute_nofail lib m cmd >>= λ result. pure (has_lines lib result))
              >>= exists_reply)
            []).1
  unfolding or_fail _execute_nofail run_command is_start
  get_only _ absent = ([], nothing, refl)
  get_only _ (present rest c) = get_answered _ _ (next "get" rest c nothing)

  perform-plan :
      (state : String)
      → Planned m.base_cmd (targets m) (plan state m.force) (perform lib state m []).1
  unfolding perform plan create replace delete stop exists is_start
  perform-plan state =
      choose (state =ₛ "present") _ _ _ _ (apply_first "filename required to create") (
        choose (state =ₛ "absent") _ _ _ _
          (guarded lib m "delete" "resource required to delete without filename" (delete_cmd m)
            (delete_cmd-Starts m) refl m.force)
          (choose (state =ₛ "reloaded") _ _ _ _ (apply_first "filename required to reload") (
            choose (state =ₛ "stopped") _ _ _ _
              (guarded lib m "stop" "resource required to stop without filename" (stop_cmd m)
                (stop_cmd-Starts m) refl m.force)
              (choose (state =ₛ "latest") _ _ _ _ (apply_first "filename required to reload") (
                choose (state =ₛ "exists") _ _ _ _ (get_only (get_cmd m) (get_cmd-Starts m))
                  ([], nothing, refl))))))

-- Once `kubectl` is found, every command that the module runs has the words of `base_command` in
-- front and, behind its verb, all the words of `targets`: with files, `--filename=` with the files
-- joined by commas and, where wanted, `--recursive=True`; without files, the resource with its name
-- and its selector, where given. The verbs of the commands, in order, are a beginning of the plan
-- of the state: `apply` for `present`, `latest` and `reloaded`; `get` for `exists`; `delete` for
-- `absent`, and `stop` for `stopped`, either after a `get` unless `force` is set; nothing for any
-- other state.
pub main-plan :
    (lib : Ansible) (p : Params) (kubectl : String)
    → find_kubectl lib p.kubectl [] ≡ (returned kubectl, [])
    → Planned
        (base_command kubectl p)
        (targets (manager kubectl p))
        (plan p.state p.force)
        (main lib p []).1
unfolding main manager
main-plan lib p kubectl found =
    subst
      (λ r.
        Planned (base_command kubectl p) (targets (manager kubectl p)) (plan p.state p.force)
          (after (r.0) (λ k. perform lib p.state (manager k p)) (r.1)).1)
      (sym found) (perform-plan lib (manager kubectl p) p.state)
