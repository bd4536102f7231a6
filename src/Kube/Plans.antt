-- ===== src/Kube/Plans.antt =====
-- Which commands the module of library/kube.py may run in which state.
pub mod Steps
pub mod Main
use factory_pattern_design.Base.{
  String, ◌≡◌, Bool, true, false, ◌&&◌, Option, none, some, List, [], ◌∷◌, ◌++◌, ◌<>◌, ◌=ₛ◌,
  if◌then◌else◌,
}
use factory_pattern_design.Base.Text.{join, member}
use factory_pattern_design.Kube.Command.{KubeManager, with_prefix, flag, is_empty, resource_of}
use factory_pattern_design.Kube.Manager.{Commands, exists, delete, stop}

-- The verbs of the commands that a state may run, in order.
unfoldable pub plan : String → Bool → List String
plan state force =
    if state =ₛ "present"
    then "apply" ∷ []
    else if state =ₛ "absent"
    then (if force then "delete" ∷ [] else "get" ∷ "delete" ∷ [])
    else if state =ₛ "reloaded"
    then "apply" ∷ []
    else if state =ₛ "stopped"
    then (if force then "stop" ∷ [] else "get" ∷ "stop" ∷ [])
    else if state =ₛ "latest"
    then "apply" ∷ []
    else if state =ₛ "exists"
    then "get" ∷ []
    else []

unfoldable pub is_start : List String → List String → Bool
is_start [] plan = true
is_start (v ∷ vs) [] = false
is_start (v ∷ vs) (w ∷ ws) = (v =ₛ w) && is_start vs ws

-- What a command about the objects of the task has to name: the files, and whether they are walked
-- over; or, where no files are given, the resource with its name and label.
unfoldable pub wanted : Bool → Option String → KubeManager → List String
wanted false resource m =
    ("--filename=" <> join "," m.filename) ∷ flag m.recursive "--recursive=True"
wanted true none m = []
wanted true (some resource) m =
    resource ∷ (with_prefix "" m.name ++ with_prefix "--selector=" m.label)

abbrev pub targets : KubeManager → List String
targets m = wanted (is_empty m.filename) (resource_of m) m

-- All the words are among the others.
abbrev pub Covers : List String → List String → Type 0
Covers words others = (w : String) → member w words ≡ true → member w others ≡ true

-- The commands of a history with the same words in front, and their verbs; each command has all the
-- words of `named`.
pub data Ran (base named : List String) : List String → Commands → Type 0 where
  nothing : Ran base named [] []
  next :
      {verbs : List String} {history : Commands} (verb : String) (rest : List String)
      → Covers named rest
      → Ran base named verbs history
      → Ran base named (verbs ++ (verb ∷ [])) (history ++ ((base ++ (verb ∷ rest)) ∷ []))

abbrev pub Planned : List String → List String → List String → Commands → Type 0
Planned base named planned history =
    (verbs : List String) × Ran base named verbs history × (is_start verbs planned ≡ true)

-- A command that starts with `verb` and has all the words of `named`, or none.
pub data Starts (verb : String) (named : List String) : Option (List String) → Type 0 where
  absent : Starts verb named none
  present : (rest : List String) → Covers named rest → Starts verb named (some (verb ∷ rest))
