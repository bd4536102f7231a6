-- ===== src/Tests/Scripts.antt =====
-- The clean-ups, the AWS inventory and the download of hashes on a few items.
use factory_pattern_design.Base.{
  String, ◌<>◌, true, false, ◌≡◌, refl, Option, none, some, List, [], ◌∷◌, ◌=ₛ◌, All, if◌then◌else◌,
}
use factory_pattern_design.Base.Result.{ok}
use factory_pattern_design.Base.Exec.{Outcome, returned, raised}
use factory_pattern_design.Base.Sweep.{Swept}
use factory_pattern_design.Yaml.{Value, str, dict, null, Fields, field, end, insert}
use factory_pattern_design.Base.Text.{split, strip}
use factory_pattern_design.Scripts.OpenStack
use factory_pattern_design.Scripts.OpenStack.Safety.{IsAllowed, main-IsAllowed}
use factory_pattern_design.Scripts.OpenStack.Sweep.{is_due, map_if_old-Swept}
use factory_pattern_design.Base.{filter, map, ◌++◌}
use factory_pattern_design.Scripts.OpenStack.Calm.{before, is_due_network, main-calm}
use factory_pattern_design.Scripts.Gitlab
use factory_pattern_design.Scripts.Gitlab.Stale.{is_stale, itself, main-Swept}
use factory_pattern_design.Scripts.Aws
use factory_pattern_design.Scripts.Aws.Groups.{search_tags_lem}
use factory_pattern_design.Scripts.Aws.Service.{first_labels, IsDocument}
use factory_pattern_design.Scripts.Aws.Answers.{IsAnswered, search_tags-ok}
use factory_pattern_design.Scripts.DownloadHash

abbrev old_vm : OpenStack.Item
old_vm = record { id = "1"; name = "vm"; created_at = "early"; is_router_external = false }

abbrev new_vm : OpenStack.Item
new_vm = record { id = "2"; name = "vm2"; created_at = "late"; is_router_external = false }

abbrev wet : OpenStack.Settings
wet = record { dry_run = false; oldest_allowed = 10 }

-- A port cannot be deleted before a subnet is.
abbrev performs : OpenStack.Call → List OpenStack.Call → Outcome OpenStack.Problem (Unit {0})
performs (OpenStack.delete_port item) (_ ∷ []) = raised OpenStack.conflict
performs _ _ = returned tt

abbrev cloud : OpenStack.Cloud
cloud = record {
  connect = returned tt;
  list = λ kind calls. returned (old_vm ∷ new_vm ∷ []);
  perform = performs;
  strptime = λ s. if s =ₛ "early" then some 5 else some 20;
}

main-IsAllowed_example : All (IsAllowed wet cloud) (OpenStack.main wet cloud []).1
main-IsAllowed_example = main-IsAllowed wet cloud

map_if_old-Swept_example :
    Swept
      (is_due wet cloud)
      OpenStack.delete_server
      (old_vm ∷ new_vm ∷ [])
      []
      (OpenStack.map_if_old wet cloud OpenStack.delete_server (old_vm ∷ new_vm ∷ []) [])
map_if_old-Swept_example =
    map_if_old-Swept wet cloud OpenStack.delete_server (old_vm ∷ new_vm ∷ []) []

sweeps_old_only :
    OpenStack.map_if_old wet cloud OpenStack.delete_server (old_vm ∷ new_vm ∷ []) []
    ≡ (returned tt, OpenStack.delete_server old_vm ∷ [])
unfolding OpenStack.map_if_old OpenStack.fn_if_old OpenStack.parsed_time OpenStack.act_if_old
    OpenStack.call
sweeps_old_only = refl

abbrev quiet : OpenStack.Cloud
quiet = record {
  connect = returned tt;
  list = λ kind calls. returned (old_vm ∷ new_vm ∷ []);
  perform = λ c calls. returned tt;
  strptime = λ s. some 5;
}

abbrev found : OpenStack.Kind → List OpenStack.Item
found kind = old_vm ∷ new_vm ∷ []

main-calm_example : OpenStack.main wet quiet [] ≡ (
  returned tt,
  before wet quiet found OpenStack.networks
      ++ map OpenStack.delete_network
          (filter (is_due_network wet quiet) (found OpenStack.networks)),
)
main-calm_example = main-calm wet quiet found (record {
  connects = refl;
  lists = λ kind. refl;
  reads = λ kind. ((5, refl), ((5, refl), tt));
  performs = λ c calls. refl;
})

abbrev stale : Gitlab.Branch
stale = record { name = "pr-1"; created_at = "early"; protected = false; default = false }

abbrev kept : Gitlab.Branch
kept = record { name = "master"; created_at = "early"; protected = true; default = true }

abbrev arguments : Gitlab.Settings
arguments = record { prefix = "pr-"; dry_run = false; token = some "t"; limit = 10 }

abbrev service : Gitlab.Gitlab
service = record {
  auth = returned tt;
  branches = returned (kept ∷ stale ∷ []);
  fromisoformat = λ s. returned (record { instant = 5; has_zone = true });
  delete = λ b deleted. returned tt;
}

main-Swept_example :
    Swept
      (is_stale arguments service)
      itself
      (kept ∷ stale ∷ [])
      []
      (Gitlab.main arguments service [])
main-Swept_example = main-Swept arguments service "t" (kept ∷ stale ∷ []) refl refl refl refl

deletes_stale_only : Gitlab.main arguments service [] ≡ (returned tt, stale ∷ [])
unfolding Gitlab.main Gitlab.getenv_token Gitlab.clean_branch Gitlab.is_before_limit
    Gitlab.delete_if Gitlab.delete
deletes_stale_only = refl

abbrev variable : String → Option String
variable name = if name =ₛ "REGION" then some "eu-west-1" else none

abbrev machine : Aws.Instance
machine = record {
  private_dns_name = "ip-10-0-0-1";
  private_ip_address = str "10.0.0.1";
  public_dns_name = "";
  public_ip_address = null;
  tags = some (record { key = "kubespray-node-labels"; value = "a=b" } ∷ []);
}

abbrev account : Aws.World
account = record { getenv = variable; query = λ region filters. ok (machine ∷ []) }

abbrev host : Fields
host =
    field "ansible_ssh_host" (str "10.0.0.1")
      (field "node_labels" (dict (field "a" (str "b") end)) end)

abbrev every_group : List (String × List String)
every_group =
    ("kube_control_plane", "ip-10-0-0-1" ∷ [])
    ∷ ("kube_node", "ip-10-0-0-1" ∷ [])
    ∷ ("etcd", "ip-10-0-0-1" ∷ [])
    ∷ []

finds_every_group :
    Aws.search_tags account ≡ ok (Aws.document every_group (field "ip-10-0-0-1" (dict host) end))
unfolding Aws.search_tags Aws.search_groups Aws.search_group Aws.add_instances Aws.ansible_host
    Aws.add_labels Aws.read_labels Aws.is_labels_tag Aws.dns_name Aws.vpc_visibility insert split
    strip
finds_every_group = refl

search_tags_lem_example :
    IsDocument account (Aws.document every_group (field "ip-10-0-0-1" (dict host) end))
search_tags_lem_example = search_tags_lem account _ finds_every_group

abbrev machine_tags : List Aws.Tag
machine_tags = record { key = "kubespray-node-labels"; value = "a=b" } ∷ []

one_machine : (group : String) → IsAnswered account "eu-west-1" group
unfolding split strip first_labels
one_machine group = (machine ∷ [], refl, ((machine_tags, refl, (("a", "b", refl), tt)), tt))

search_tags-ok_example :
    (hosts : Fields) × (Aws.search_tags account ≡ ok hosts) × IsDocument account hosts
search_tags-ok_example =
    search_tags-ok account "eu-west-1" refl
      (one_machine "kube_control_plane", (one_machine "kube_node", (one_machine "etcd", tt)))

abbrev arches : Value
arches = dict (
    field "arm" (dict end)
      (field "arm64" (dict end) (field "amd64" (dict end) (field "ppc64le" (dict end) end))))

abbrev store : DownloadHash.World
store = record {
  load = ok (
      dict (
        field "kubelet_checksums" arches
          (field "kubectl_checksums" arches (field "kubeadm_checksums" arches end))));
  fetch = λ url. ok url;
  sha256 = λ content. "sum of " <> content;
  open_for_writing = ok tt;
}

abbrev version : List String
version = "1.25.0" ∷ []
