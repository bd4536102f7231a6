-- ===== src/Kube/Outcomes.antt =====
-- What the module of library/kube.py answers.
use factory_pattern_design.Base.{
  ℕ, String, ◌≡◌, refl, Bool, true, false, not, ◌&&◌, none, some, List, [], ◌∷◌, ◌++◌, ◌=ₛ◌, ◌==◌,
  if◌then◌else◌,
}
use factory_pattern_design.Base.Text.{splitlines, join}
use factory_pattern_design.Base.Exec.{returned, raised, pure, ◌>>=◌}
use factory_pattern_design.Kube.Command.{
  KubeManager, is_empty, get_cmd, apply_cmd, delete_cmd, stop_cmd, resource_of,
}
use factory_pattern_design.Kube.Manager.{
  fail_json, completed, Ansible, Commands, Run, or_fail, run_command, or_nothing, _execute_nofail,
  has_lines, exists, replace, create, delete, stop,
}
use factory_pattern_design.Kube.Module.{Exit, success, perform}

module _ (lib : Ansible) (m : KubeManager) where
  -- With files given, `present`, `reloaded` and `latest` run the same commands and answer the
  -- same: `present` does not look whether the objects exist.
  pub present-reloaded :
      (history : Commands)
      → is_empty m.filename ≡ false
      → (perform lib "present" m history ≡ perform lib "reloaded" m history)
        × (perform lib "latest" m history ≡ perform lib "reloaded" m history)
  unfolding perform create replace or_fail apply_cmd
  present-reloaded history e = (rw e, refl)

  abbrev Fails : Run Exit → Commands → Type 0
  Fails act history = (msg : String) × (act history ≡ (raised (fail_json msg), history))

  if-Fails :
      (b : Bool) (x y : Run Exit) (history : Commands)
      → Fails x history
      → Fails y history
      → Fails (if b then x else y) history
  if-Fails true x y history p q = p
  if-Fails false x y history p q = q

  stopped-Fails :
      (b : Bool) (there : Run Bool) (f : Bool → Run (List String)) (history : Commands)
      → Fails (f true >>= success) history
      → (msg : String) × (there history ≡ (raised (fail_json msg), history))
      → Fails (((if b then pure true else there) >>= f) >>= success) history
  stopped-Fails true there f history p q = p
  stopped-Fails false there f history p (msg, q) = (msg, rw q)

  exists-of_nothing :
      (history : Commands)
      → is_empty m.filename ≡ true
      → resource_of m ≡ none
      → exists lib m history ≡ (raised (fail_json "resource required without filename"), history)
  unfolding exists get_cmd or_fail
  exists-of_nothing history e r = rw (e, get_cmd, r, or_fail)

  delete-of_nothing :
      (history : Commands)
      → is_empty m.filename ≡ true
      → resource_of m ≡ none
      → Fails (delete lib m >>= success) history
  unfolding delete delete_cmd or_fail
  delete-of_nothing history e r =
      stopped-Fails m.force (exists lib m) _ history
        ("resource required to delete without filename", rw (e, delete_cmd, r, or_fail))
        (_, exists-of_nothing history e r)

  stop-of_nothing :
      (history : Commands)
      → is_empty m.filename ≡ true
      → resource_of m ≡ none
      → Fails (stop lib m >>= success) history
  unfolding stop stop_cmd or_fail
  stop-of_nothing history e r =
      stopped-Fails m.force (exists lib m) _ history
        ("resource required to stop without filename", rw (e, stop_cmd, r, or_fail))
        (_, exists-of_nothing history e r)

  -- Without a file and without a resource, no state runs a command, and each ends in `fail_json`.
  pub nothing_to_act_on :
      (state : String) (history : Commands)
      → is_empty m.filename ≡ true
      → resource_of m ≡ none
      → (msg : String) × (perform lib state m history ≡ (raised (fail_json msg), history))
  unfolding perform create replace or_fail apply_cmd
  nothing_to_act_on state history e r =
      if-Fails (state =ₛ "present") _ _ history
        ("filename required to create", rw (e, apply_cmd, or_fail))
        (if-Fails (state =ₛ "absent") _ _ history (delete-of_nothing history e r) (
          if-Fails (state =ₛ "reloaded") _ _ history
            ("filename required to reload", rw (e, apply_cmd, or_fail))
            (if-Fails (state =ₛ "stopped") _ _ history (stop-of_nothing history e r) (
              if-Fails (state =ₛ "latest") _ _ history
                ("filename required to reload", rw (e, apply_cmd, or_fail))
                (if-Fails (state =ₛ "exists") _ _ history
                  ("resource required without filename", rw (exists-of_nothing history e r))
                  (_, refl))))))

  missing :
      (b : Bool) (lines : List String)
      → b && not (is_empty lines) ≡ false
      → has_lines lib (if b then some lines else none) ≡ false
  unfolding has_lines
  missing true lines e = e
  missing false lines e = refl

  -- The same for the command and its answer.
  missing-exists :
      (get : List String) (rc : ℕ) (out e : String) (history : Commands)
      → get_cmd m ≡ some get
      → lib.run_command history (m.base_cmd ++ get) ≡ completed rc out e
      → (rc == 0) && not (is_empty (splitlines out)) ≡ false
      → exists lib m history ≡ (returned false, history ++ ((m.base_cmd ++ get) ∷ []))
  unfolding exists _execute_nofail run_command or_nothing or_fail
  missing-exists get rc out e history g r n =
      rw (g, or_fail, r, or_nothing, missing (rc == 0) (splitlines out) n)

  -- A `get` that fails or prints nothing makes `absent` without `force` succeed at once: nothing
  -- is deleted.
  pub absent-missing :
      (get : List String) (rc : ℕ) (out e : String) (history : Commands)
      → m.force ≡ false
      → get_cmd m ≡ some get
      → lib.run_command history (m.base_cmd ++ get) ≡ completed rc out e
      → (rc == 0) && not (is_empty (splitlines out)) ≡ false
      → perform lib "absent" m history ≡ (
        returned record { changed = false; msg = "success: " },
        history ++ ((m.base_cmd ++ get) ∷ []),
      )
  unfolding perform delete success join
  absent-missing get rc out e history f g r n = rw (f, missing-exists get rc out e history g r n)
