-- ===== src/Kube/Command.antt =====
-- The parameters of the task, and the commands that `KubeManager` of library/kube.py builds of them. A
-- command whose parameters are missing is `none`.
use factory_pattern_design.Base.{
  ℕ, String, Bool, true, false, Option, none, some, List, [], ◌∷◌, ◌++◌, ◌<>◌, map, ◌==◌, ◌=ₛ◌,
  if◌then◌else◌,
}
use factory_pattern_design.Base.Text.{strip, join}
use factory_pattern_design.Base.Decimal.{decimal}

-- `module.params`, of which `None` is `none`
pub record Params : Type 0 where
  pub kubectl : Option String
  pub server : Option String
  pub log_level : ℕ
  pub namespace : Option String
  pub all : Bool
  pub force : Bool
  pub wait : Bool
  pub name : Option String
  pub filename : Option (List String)
  pub resource : Option String
  pub label : Option String
  pub recursive : Bool
  pub state : String

pub record KubeManager : Type 0 where
  pub base_cmd : List String
  pub all : Bool
  pub force : Bool
  pub wait : Bool
  pub name : Option String
  pub filename : List String
  pub resource : Option String
  pub label : Option String
  pub recursive : Bool

-- `prefix + value`, where the value is given and not empty
unfoldable pub with_prefix : String → Option String → List String
with_prefix prefix none = []
with_prefix prefix (some value) = if value =ₛ "" then [] else (prefix <> value) ∷ []

unfoldable pub flag : Bool → String → List String
flag true text = text ∷ []
flag false text = []

unfoldable pub or_none : Option (List String) → List String
or_none none = []
or_none (some files) = files

unfoldable pub log_flag : ℕ → List String
log_flag n = if n == 0 then [] else ("--v=" <> decimal n) ∷ []

unfoldable pub base_command : String → Params → List String
unfolding with_prefix log_flag
base_command kubectl p =
    kubectl
    ∷ (with_prefix "--server=" p.server
        ++ log_flag p.log_level
        ++ with_prefix "--namespace=" p.namespace)

-- `KubeManager(module)`, once `kubectl` is found
unfoldable pub manager : String → Params → KubeManager
unfolding base_command or_none
manager kubectl p = record {
  base_cmd = base_command kubectl p;
  all = p.all;
  force = p.force;
  wait = p.wait;
  name = p.name;
  filename = map strip (or_none p.filename);
  resource = p.resource;
  label = p.label;
  recursive = p.recursive;
}

unfoldable pub is_empty : {A : Type 0} → List A → Bool
is_empty [] = true
is_empty (x ∷ xs) = false

unfoldable pub files_flag : KubeManager → List String
files_flag m = ("--filename=" <> join "," m.filename) ∷ []

unfoldable pub recursive_flag : KubeManager → List String
unfolding flag
recursive_flag m = flag m.recursive "--recursive=True"

-- `self.resource`, where it is given and not empty
unfoldable pub resource_of : KubeManager → Option String
resource_of m = elim m.resource [ none ↦ none | some r ↦ if r =ₛ "" then none else some r ]

-- `name` and `label` behind the resource
unfoldable pub selection : String → KubeManager → List String
unfolding with_prefix
selection resource m = resource ∷ (with_prefix "" m.name ++ with_prefix "--selector=" m.label)

unfoldable pub get_cmd : KubeManager → Option (List String)
unfolding is_empty files_flag recursive_flag resource_of selection flag
get_cmd m =
    if is_empty m.filename
    then elim (resource_of m) [
      | none ↦ none
      | some r ↦
          some ("get" ∷ (selection r m ++ flag m.all "--all-namespaces" ++ ("--no-headers" ∷ [])))
    ]
    else some ("get" ∷ (files_flag m ++ recursive_flag m ++ ("--no-headers" ∷ [])))

unfoldable pub apply_cmd : Bool → KubeManager → Option (List String)
unfolding is_empty files_flag recursive_flag flag
apply_cmd force m =
    if is_empty m.filename
    then none
    else some (
        "apply"
        ∷ (flag force "--force" ++ flag m.wait "--wait" ++ recursive_flag m ++ files_flag m))

unfoldable pub delete_cmd : KubeManager → Option (List String)
unfolding is_empty files_flag recursive_flag resource_of selection flag
delete_cmd m =
    if is_empty m.filename
    then elim (resource_of m) [
      | none ↦ none
      | some r ↦ some (
          "delete"
          ∷ (selection r m
              ++ flag m.all "--all"
              ++ flag m.force "--ignore-not-found"
              ++ recursive_flag m))
    ]
    else some ("delete" ∷ (files_flag m ++ recursive_flag m))

unfoldable pub stop_cmd : KubeManager → Option (List String)
unfolding is_empty files_flag recursive_flag resource_of selection flag
stop_cmd m =
    if is_empty m.filename
    then elim (resource_of m) [
      | none ↦ none
      | some r ↦
          some ("stop" ∷ (selection r m ++ flag m.all "--all" ++ flag m.force "--ignore-not-found"))
    ]
    else some ("stop" ∷ (files_flag m ++ recursive_flag m))
