-- ===== src/Kube/Converges.antt =====
-- The states of library/kube.py on a cluster where `kubectl get` and `kubectl delete` do what they are
-- documented to do.
use factory_pattern_design.Base.{
  ℕ, String, ◌≡◌, refl, ◌∙◌, Bool, true, false, not, ◌&&◌, none, some, List, [], ◌∷◌, ◌++◌, ◌<>◌,
  ◌==◌, if◌then◌else◌, Bool-cases, inl, inr,
}
use factory_pattern_design.Base.Text.{splitlines, join}
use factory_pattern_design.Base.Exec.{returned}
use factory_pattern_design.Kube.Command.{KubeManager, is_empty, get_cmd, delete_cmd}
use factory_pattern_design.Kube.Manager.{
  completed, Completed, Ansible, Commands, or_fail, run_command, or_nothing, or_report, _execute,
  _execute_nofail, has_lines, exists, delete,
}
use factory_pattern_design.Kube.Module.{Exit, success, perform}

-- An answer of `kubectl get`: the lines of the objects, or a failure where there are none.
abbrev pub Lists : Completed → Bool → Type 0
Lists answer there =
    (rc : ℕ) × (out : String) × (e : String) × (answer ≡ completed rc out e)
    × ((rc == 0) && not (is_empty (splitlines out)) ≡ there)

-- Whether the objects of the task are there after some commands: `get` tells it and changes nothing,
-- and `delete` of objects that are there succeeds and removes them.
pub record IsCluster (lib : Ansible) (m : KubeManager) (get del : List String)
    (there : Commands → Bool) : Type 0 where
  pub get-lists :
      (history : Commands) → Lists (lib.run_command history (m.base_cmd ++ get)) (there history)
  pub get-keeps :
      (history : Commands) → there (history ++ ((m.base_cmd ++ get) ∷ [])) ≡ there history
  pub delete-succeeds :
      (history : Commands)
      → there history ≡ true
      → (out : String) × (e : String) × (lib.run_command history (m.base_cmd ++ del)
          ≡ completed 0 out e)
  pub delete-removes : (history : Commands) → there (history ++ ((m.base_cmd ++ del) ∷ [])) ≡ false

module _ (lib : Ansible) (m : KubeManager) (get del : List String) (there : Commands → Bool)
    (cluster : IsCluster lib m get del there) (get_known : get_cmd m ≡ some get)
    (delete_known : delete_cmd m ≡ some del) where
  lines_or_none :
      (b : Bool) (lines : List String)
      → has_lines lib (if b then some lines else none) ≡ (b && not (is_empty lines))
  unfolding has_lines
  lines_or_none true lines = refl
  lines_or_none false lines = refl

  exists-there :
      (history : Commands)
      → exists lib m history ≡ (returned (there history), history ++ ((m.base_cmd ++ get) ∷ []))
  unfolding exists _execute_nofail run_command or_nothing or_fail
  exists-there history =
      let (rc, out, e, answer, listed) = cluster.get-lists history in
      rw (get_known, or_fail, answer, or_nothing, lines_or_none (rc == 0) (splitlines out), listed)
        refl

  -- `absent` without `force`, where the objects are not there.
  absent-of_missing :
      (history : Commands)
      → m.force ≡ false
      → there history ≡ false
      → perform lib "absent" m history ≡ (
        returned record { changed = false; msg = "success: " },
        history ++ ((m.base_cmd ++ get) ∷ []),
      )
  unfolding perform delete success join
  absent-of_missing history force gone = rw (force, exists-there history, gone) refl

  absent-of_there :
      (history : Commands)
      → m.force ≡ false
      → there history ≡ true
      → (exit : Exit) × (perform lib "absent" m history
          ≡ (returned exit, (history ++ ((m.base_cmd ++ get) ∷ [])) ++ ((m.base_cmd ++ del) ∷ [])))
        × (exit.changed ≡ false)
  unfolding perform delete success _execute run_command or_report or_fail
  absent-of_there history force here =
      let still = cluster.get-keeps history ∙ here in
      let (out, e, answer) =
        cluster.delete-succeeds (history ++ ((m.base_cmd ++ get) ∷ [])) still in
      (
        record { changed = false; msg = "success: " <> join " " (splitlines out) },
        rw (force, exists-there history, here, delete_known, or_fail, answer) refl,
        refl,
      )

  -- For a task that names a file or a resource, on a cluster where `get` tells whether the objects of
  -- the task are there, and `delete` succeeds and removes them: `absent` without `force` succeeds whatever was run before, the objects are not
  -- there afterwards, and a second `absent` only looks for them. Both report that nothing changed.
  pub absent_converges :
      (history : Commands)
      → m.force ≡ false
      → (exit : Exit) × (later : Commands) × (perform lib "absent" m history
          ≡ (returned exit, later))
        × (exit.changed ≡ false)
        × (there later ≡ false)
        × (perform lib "absent" m later ≡ (
          returned record { changed = false; msg = "success: " },
          later ++ ((m.base_cmd ++ get) ∷ []),
        ))
  absent_converges history force = elim (Bool-cases (there history)) [
    | inl here ↦
        let (exit, ran, same) = absent-of_there history force here in
        let gone = cluster.delete-removes (history ++ ((m.base_cmd ++ get) ∷ [])) in
        (exit, _, ran, same, gone, absent-of_missing _ force gone)
    | inr gone ↦
        let still = cluster.get-keeps history ∙ gone in
        (_, _, absent-of_missing history force gone, refl, still, absent-of_missing _ force still)
  ]
