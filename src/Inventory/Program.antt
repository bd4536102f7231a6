-- ===== src/Inventory/Program.antt =====
-- The start of the inventory builder: the shell variables and `main` (lines 52 to 75 and 472 to 480
-- of inventory.py). The environment is a function. A threshold below 0 holds for every number of
-- hosts, as 0 does; a negative `KUBE_CONTROL_HOSTS`, which a slice counts from the end, is left out.
pub mod Shell
pub mod FirstRun
use factory_pattern_design.Base.{
  String, Char, code, Bool, true, false, ◌&&◌, ℕ, ◌+◌, Option, none, some, List, [], ◌∷◌, ◌==◌,
  if◌then◌else◌, leb,
}
use factory_pattern_design.Base.Integer.{ℤ, pos, negsuc, int_of}
use factory_pattern_design.Base.Result.{Result, ok, err, value_error, or_raise, ◌>>=◌}
use factory_pattern_design.Base.Exec.{raise}
use factory_pattern_design.Yaml.{Value}
use factory_pattern_design.Inventory.Settings.{Settings}
use factory_pattern_design.Inventory.Builder.{World, Run, init}

-- `os.environ.get`
abbrev pub Environ : Type 0
Environ = String → Option String

unfoldable pub get : Environ → String → String → String
get environ name default = elim (environ name) [ none ↦ default | some v ↦ v ]

abbrev lower_code : Char → ℕ
lower_code c = if leb b'A' (code c) && leb (code c) b'Z' then code c + 32 else code c

-- `s.lower() == word`
unfoldable pub spells : String → String → Bool
spells String.[] String.[] = true
spells String.[] (String.◌∷◌ d t) = false
spells (String.◌∷◌ c s) String.[] = false
spells (String.◌∷◌ c s) (String.◌∷◌ d t) = (lower_code c == code d) && spells s t

abbrev pub boolean_states : List (String × Bool)
boolean_states =
    ("1", true)
    ∷ ("yes", true)
    ∷ ("true", true)
    ∷ ("on", true)
    ∷ ("0", false)
    ∷ ("no", false)
    ∷ ("false", false)
    ∷ ("off", false)
    ∷ []

-- `_boolean_states.get(value.lower(), default)`
unfoldable pub boolean_state : List (String × Bool) → String → Bool → Bool
unfolding spells
boolean_state [] v default = default
boolean_state ((word, state) ∷ states) v default =
    let rest = boolean_state states v default in if spells v word then state else rest

unfoldable pub get_var_as_bool : Environ → String → Bool → Bool
unfolding boolean_state get
get_var_as_bool environ name default = boolean_state boolean_states (get environ name "") default

-- `int(os.environ.get(…))`, where the default is a number
unfoldable pub int_var : Option String → ℤ → Result ℤ
int_var none default = ok default
int_var (some v) default = or_raise (int_of v) (value_error "invalid literal for int()")

-- `os.environ.get(name, …)` of a second variable
unfoldable pub or_other : Option String → Option String → Option String
or_other none other = other
or_other (some v) other = some v

-- A threshold, as the number that is compared with.
abbrev at_least_zero : ℤ → ℕ
at_least_zero (pos n) = n
at_least_zero (negsuc n) = 0

-- The constants of the module, in their order; `none` where `KUBE_CONTROL_HOSTS` is negative.
unfoldable pub settings_of : Environ → Result (Option Settings)
unfolding int_var get_var_as_bool get or_other
settings_of environ = do
  kube_control_hosts ←
      int_var (or_other (environ "KUBE_CONTROL_HOSTS") (environ "KUBE_MASTERS")) (pos 2)
  scale_threshold ← int_var (environ "SCALE_THRESHOLD") (pos 50)
  massive_scale_threshold ← int_var (environ "MASSIVE_SCALE_THRESHOLD") (pos 200)
  ok (elim kube_control_hosts [
    | negsuc n ↦ none
    | pos n ↦ some (record {
      kube_control_hosts = n;
      scale_threshold = at_least_zero scale_threshold;
      massive_scale_threshold = at_least_zero massive_scale_threshold;
      host_prefix = get environ "HOST_PREFIX" "node";
      use_real_hostname = get_var_as_bool environ "USE_REAL_HOSTNAME" false;
    })
  ])

unfoldable pub config_file : Environ → String
unfolding get
config_file environ = get environ "CONFIG_FILE" "./inventory/sample/hosts.yaml"

-- `main(argv)`, where `rest` is `sys.argv[1:]`
unfoldable pub main : Settings → World → Environ → List String → List String → Run Value
unfolding config_file
main settings world environ [] rest = init settings world (some (config_file environ)) rest
main settings world environ (arg ∷ argv) rest =
    init settings world (some (config_file environ)) (arg ∷ argv)

-- The whole program, `none` where the model leaves it out.
unfoldable pub program : Environ → World → List String → Option (Run Value)
unfolding settings_of main
program environ world rest = elim (settings_of environ) [
  | err e ↦ some (raise e)
  | ok none ↦ none
  | ok (some settings) ↦ some (main settings world environ [] rest)
]
