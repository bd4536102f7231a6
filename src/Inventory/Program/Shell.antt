-- ===== src/Inventory/Program/Shell.antt =====
-- What the shell variables do to the program.
use factory_pattern_design.Base.{String, Bool, true, false, ℕ, ◌≡◌, refl, Option, some, List}
use factory_pattern_design.Base.Decimal.{decimal}
use factory_pattern_design.Base.Integer.{pos}
use factory_pattern_design.Base.Integer.Printed.{int_of-decimal}
use factory_pattern_design.Base.Result.{ok}
use factory_pattern_design.Inventory.Settings.{Settings}
use factory_pattern_design.Inventory.Builder.{World, init}
use factory_pattern_design.Inventory.Program.{
  Environ, int_var, spells, boolean_state, boolean_states, get_var_as_bool, get, or_other,
  settings_of, config_file, main, program,
}

abbrev pub word_of : Bool → String
word_of true = "yes"
word_of false = "no"

int_var-printed :
    (v : Option String) (n m : ℕ) → v ≡ some (decimal n) → int_var v (pos m) ≡ ok (pos n)
unfolding int_var
int_var-printed v n m e = rw (e, int_of-decimal n) refl

get-some :
    (environ : Environ) (name default v : String)
    → environ name ≡ some v
    → get environ name default ≡ v
unfolding get
get-some environ name default v e = rw (get, e) refl

or_other-some : (v other : Option String) (s : String) → v ≡ some s → or_other v other ≡ some s
unfolding or_other
or_other-some v other s e = rw e refl

boolean_state-word_of : (b default : Bool) → boolean_state boolean_states (word_of b) default ≡ b
unfolding boolean_state spells
boolean_state-word_of true default = refl
boolean_state-word_of false default = refl

-- The shell variables print the settings, with `yes` or `no` for `USE_REAL_HOSTNAME`.
pub record Prints (environ : Environ) (settings : Settings) : Type 0 where
  pub kube : environ "KUBE_CONTROL_HOSTS" ≡ some (decimal settings.kube_control_hosts)
  pub scale : environ "SCALE_THRESHOLD" ≡ some (decimal settings.scale_threshold)
  pub massive : environ "MASSIVE_SCALE_THRESHOLD" ≡ some (decimal settings.massive_scale_threshold)
  pub prefix : environ "HOST_PREFIX" ≡ some settings.host_prefix
  pub real : environ "USE_REAL_HOSTNAME" ≡ some (word_of settings.use_real_hostname)

settings_of-printed :
    (environ : Environ) (settings : Settings)
    → Prints environ settings
    → settings_of environ ≡ ok (some settings)
unfolding settings_of get_var_as_bool
settings_of-printed environ settings p =
    rw
      (
        int_var-printed _ settings.kube_control_hosts 2
            (or_other-some _ (environ "KUBE_MASTERS") _ p.kube),
        int_var-printed _ settings.scale_threshold 50 p.scale,
        int_var-printed _ settings.massive_scale_threshold 200 p.massive,
        get-some environ "HOST_PREFIX" "node" settings.host_prefix p.prefix,
        get-some environ "USE_REAL_HOSTNAME" "" _ p.real,
        boolean_state-word_of settings.use_real_hostname false,
      )
      refl

-- If the shell variables print the settings, with `yes` or `no` for `USE_REAL_HOSTNAME`, and
-- `CONFIG_FILE` names a file, then the program runs the constructor with exactly these settings, this
-- file and the arguments of the command line, whatever `KUBE_MASTERS` is.
pub program-printed :
    (environ : Environ) (settings : Settings) (path : String) (world : World) (args : List String)
    → Prints environ settings
    → environ "CONFIG_FILE" ≡ some path
    → program environ world args ≡ some (init settings world (some path) args)
unfolding program main config_file
program-printed environ settings path world args p config =
    rw
      (
        program,
        settings_of-printed environ settings p,
        get-some environ "CONFIG_FILE" "./inventory/sample/hosts.yaml" path config,
      )
      refl
