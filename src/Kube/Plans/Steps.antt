-- ===== src/Kube/Plans/Steps.antt =====
-- One command, and a command behind a `get`.
use mathlib.Core.Path.{subst}
use factory_pattern_design.Base.{
  arith, String, ◌≡◌, refl, sym, ◌∙◌, Bool, true, false, Option, none, some, List, [], ◌∷◌, ◌++◌,
  ◌=ₛ◌, ◌==◌, if◌then◌else◌,
}
use factory_pattern_design.Base.Text.{member}
use factory_pattern_design.Base.Text.Laws.{member-append}
use factory_pattern_design.Base.Exec.{Outcome, returned, raised, pure, raise, after, ◌>>=◌}
use factory_pattern_design.Kube.Command.{
  KubeManager, files_flag, recursive_flag, selection, flag, is_empty, get_cmd, apply_cmd,
  delete_cmd, stop_cmd, resource_of,
}
use factory_pattern_design.Kube.Manager.{
  Stop, Completed, completed, crashed, Ansible, Commands, Run, or_fail, run_command, or_report,
  _execute, or_nothing, _execute_nofail, has_lines, exists, stop,
}
use factory_pattern_design.Kube.Module.{success}
use factory_pattern_design.Kube.Plans.{
  wanted, targets, Covers, is_start, Ran, nothing, next, Planned, Starts, absent, present,
}

Covers-front : (words more : List String) → Covers words (words ++ more)
Covers-front words more w e = member-append w words more ∙ rw e refl

further : (words more others : List String) → Covers words (words ++ more ++ others)
further words more others w e = Covers-front (words ++ more) others w (Covers-front words more w e)

module _ (m : KubeManager) where
  -- A command by files, or else by a resource.
  by_target :
      (verb : String) (b : Bool) (o : Option String) (f : String → List String) (g : List String)
      → ((r : String) → Covers (wanted true (some r) m) (f r))
      → Covers (wanted false none m) g
      → Starts verb
          (wanted b o m)
          (if b then elim o [ none ↦ none | some r ↦ some (verb ∷ f r) ] else some (verb ∷ g))
  unfolding wanted
  by_target verb true none f g p q = absent
  by_target verb true (some r) f g p q = present (f r) (p r)
  by_target verb false o f g p q = present g q

  by_files :
      (verb : String) (b : Bool) (o : Option String) (g : List String)
      → Covers (wanted false none m) g
      → Starts verb (wanted b o m) (if b then none else some (verb ∷ g))
  unfolding wanted
  by_files verb true o g q = absent
  by_files verb false o g q = present g q

  pub get_cmd-Starts : Starts "get" (targets m) (get_cmd m)
  unfolding get_cmd selection wanted files_flag recursive_flag
  get_cmd-Starts =
      by_target "get" (is_empty m.filename) (resource_of m) _ _
        (λ r. further (selection r m) (flag m.all "--all-namespaces") ("--no-headers" ∷ []))
        (Covers-front (files_flag m ++ recursive_flag m) ("--no-headers" ∷ []))

  pub delete_cmd-Starts : Starts "delete" (targets m) (delete_cmd m)
  unfolding delete_cmd selection wanted files_flag recursive_flag
  delete_cmd-Starts =
      by_target "delete" (is_empty m.filename) (resource_of m) _ _
        (λ r w e.
          Covers-front (selection r m ++ flag m.all "--all" ++ flag m.force "--ignore-not-found")
            (recursive_flag m) w
            (further (selection r m) (flag m.all "--all") (flag m.force "--ignore-not-found") w e))
        (λ w e. e)

  pub stop_cmd-Starts : Starts "stop" (targets m) (stop_cmd m)
  unfolding stop_cmd selection wanted files_flag recursive_flag
  stop_cmd-Starts =
      by_target "stop" (is_empty m.filename) (resource_of m) _ _
        (λ r. further (selection r m) (flag m.all "--all") (flag m.force "--ignore-not-found"))
        (λ w e. e)

  pub apply_cmd-Starts : Starts "apply" (targets m) (apply_cmd true m)
  unfolding apply_cmd wanted files_flag recursive_flag member
  apply_cmd-Starts = by_files "apply" (is_empty m.filename) (resource_of m) _ (λ w e. ground (
    arith,
    member-append w (flag m.wait "--wait") (recursive_flag m ++ files_flag m),
    member-append w (recursive_flag m) (files_flag m),
  ))

if-keeps :
    {A : Type 0} (b : Bool) (a : A) (stop : Stop) (history : Commands)
    → ((if b then pure a else raise stop) history).1 ≡ history
if-keeps true a stop history = refl
if-keeps false a stop history = refl

success-keeps :
    (r : Outcome Stop (List String)) (history : Commands) → (after r success history).1 ≡ history
unfolding success
success-keeps (returned a) history = refl
success-keeps (raised e) history = refl

module _ (lib : Ansible) (m : KubeManager) where
  or_report-keeps :
      (args : List String) (r : Completed) (history : Commands)
      → (or_report lib args r history).1 ≡ history
  unfolding or_report
  or_report-keeps args (completed rc out e) history = if-keeps (rc == 0) _ _ history
  or_report-keeps args (crashed msg) history = refl

  -- A command at the end of a history of the verbs `verbs`.
  pub finish :
      (planned verbs : List String) (verb msg : String) (cmd : Option (List String))
      (history : Commands)
      → Starts verb (targets m) cmd
      → Ran m.base_cmd (targets m) verbs history
      → is_start verbs planned ≡ true
      → is_start (verbs ++ (verb ∷ [])) planned ≡ true
      → Planned m.base_cmd
          (targets m)
          planned
          (((or_fail cmd msg >>= _execute lib m) >>= success) history).1
  unfolding or_fail _execute run_command
  finish planned verbs verb msg _ history absent r p q = (verbs, r, p)
  finish planned verbs verb msg _ history (present rest c) r p q =
      let args = m.base_cmd ++ (verb ∷ rest) in
      let step = or_report-keeps args (lib.run_command history args) (history ++ (args ∷ [])) in
      (
        verbs ++ (verb ∷ []),
        subst (λ h. Ran m.base_cmd (targets m) (verbs ++ (verb ∷ [])) h)
            (sym (success-keeps _ _ ∙ step)) (next verb rest c r),
        q,
      )

  module _ (verb msg : String) (cmd : Option (List String)) (s : Starts verb (targets m) cmd)
      (same : (verb =ₛ verb) ≡ true) where
    abbrev pub act : Run (List String)
    act = or_fail cmd msg >>= _execute lib m

    abbrev pub rest_of_run : Bool → Run (List String)
    rest_of_run found = if found then act else pure []

    found_or_not :
        (history : Commands) (found : Bool)
        → Ran m.base_cmd (targets m) ("get" ∷ []) history
        → Planned m.base_cmd
            (targets m)
            ("get" ∷ verb ∷ [])
            ((rest_of_run found >>= success) history).1
    unfolding success is_start
    found_or_not history true r =
        finish ("get" ∷ verb ∷ []) ("get" ∷ []) verb msg cmd history s r refl (rw same)
    found_or_not history false r = ("get" ∷ [], r, refl)

    answered :
        (r : Completed) (history : Commands)
        → Ran m.base_cmd (targets m) ("get" ∷ []) history
        → Planned m.base_cmd
            (targets m)
            ("get" ∷ verb ∷ [])
            ((((or_nothing lib r >>= λ result. pure (has_lines lib result)) >>= rest_of_run)
                >>= success)
              history).1
    unfolding or_nothing is_start
    answered (completed rc out e) history r = found_or_not history _ r
    answered (crashed text) history r = ("get" ∷ [], r, refl)

    looked_up :
        (get : Option (List String))
        → Starts "get" (targets m) get
        → Planned m.base_cmd
            (targets m)
            ("get" ∷ verb ∷ [])
            ((((or_fail get "resource required without filename" >>= λ cmd.
                    _execute_nofail lib m cmd >>= λ result. pure (has_lines lib result))
                  >>= rest_of_run)
                >>= success)
              []).1
    unfolding or_fail _execute_nofail run_command is_start
    looked_up _ absent = ([], nothing, refl)
    looked_up _ (present rest c) = answered _ _ (next "get" rest c nothing)

    pub guarded :
        (force : Bool)
        → Planned m.base_cmd
            (targets m)
            (if force then verb ∷ [] else "get" ∷ verb ∷ [])
            ((((if force then pure true else exists lib m) >>= rest_of_run) >>= success) []).1
    unfolding exists is_start
    guarded true = finish (verb ∷ []) [] verb msg cmd [] s nothing refl (rw same)
    guarded false = looked_up (get_cmd m) (get_cmd-Starts m)
