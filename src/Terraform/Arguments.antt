-- ===== src/Terraform/Arguments.antt =====
-- What terraform.py does with its command line. `argparse` lets exactly one of the modes through; an
-- empty name of a host is none, and then nothing is printed.
use factory_pattern_design.Base.{String, ◌<>◌, Bool, not, Option, none, some, ◌=ₛ◌, if◌then◌else◌}
use factory_pattern_design.Base.Result.{Result, ok, ◌>>=◌}
use factory_pattern_design.Terraform.Report.{
  World, Mode, all_hosts, one_host, hostfile, Output, floating_ips, queried_hosts, answer,
}

pub record Args : Type 0 where
  pub list_flag : Bool
  pub host : Option String
  pub version : Bool
  pub hostfile_flag : Bool
  pub nometa : Bool

pub data Printed : Type 0 where
  nothing : Printed
  version_text : String → Printed
  output : Output → Printed

abbrev pub current_version : String
current_version = "0.4.0pre"

-- `if args.list: … elif args.host: … elif args.hostfile: …`
unfoldable pub mode_of : Args → Option Mode
mode_of args = if args.list_flag then some (all_hosts (not args.nometa)) else elim args.host [
  | none ↦ if args.hostfile_flag then some hostfile else none
  | some name ↦
      if name =ₛ ""
      then (if args.hostfile_flag then some hostfile else none)
      else some (one_host name)
]

-- The floating addresses are read first, whatever is wanted.
unfoldable pub run : World → String → Args → Result Printed
unfolding mode_of floating_ips queried_hosts answer
run world file args =
    if args.version then ok (version_text (file <> (" " <> current_version))) else (do
      ips ← floating_ips world
      elim (mode_of args) [
        | none ↦ ok nothing
        | some mode ↦ (do found ← answer world mode (queried_hosts world ips); ok (output found))
      ])
