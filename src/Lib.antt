-- ===== src/Lib.antt =====
-- Kubespray: the inventory builder, the Ansible module `kube`, the dynamic inventories of Terraform and
-- AWS, and the scripts that clean up clouds, update hashes and print the table of the CI.
--
-- The program. contrib/inventory_builder/inventory.py turns addresses on its command line into the
-- hosts and groups of an Ansible inventory: a run expands the arguments (`range2ips`), merges them
-- with the hosts of an earlier inventory (`build_hostnames`), assigns roles (`purge_invalid_hosts`
-- and the methods `set_…`), and writes the document (`write_config`). library/kube.py runs
-- `kubectl` for the playbooks: it builds a command from the parameters of the task, runs it, and
-- reports what Ansible shows. contrib/terraform/terraform.py makes an inventory of Terraform's state
-- files: it walks the resources (`iterresources`), flattens their attributes
-- (`convert_to_v3_structure`), parses hosts (`openstack_host`, `equinix_metal_device`), gives them their
-- floating addresses (`iter_host_ips`) and answers a query. contrib/aws_inventory makes an inventory
-- of the instances of an account. scripts/openstack-cleanup and scripts/gitlab-branch-cleanup delete
-- what is old; scripts/download_hash.py writes hashes of downloads into a YAML file;
-- tests/scripts/md-table/main.py prints which combinations the CI tests.
--
-- The files.
--   Base: Python's exceptions as values (Result), methods with effects that may raise (Exec),
--     generators (Generator), texts (Text), decimal numbers (Decimal), `int` (Integer), lists and tests.
--   Yaml: documents, with Python's subscripts, `in`, iteration and `del`.
--   Inventory.Settings, Inventory.Help: the constants and shell variables, and the help text.
--   Inventory.Hosts: `build_hostnames`, `get_host_id`, `exists_ip`, `delete_host_by_ip` and the
--     branches of the loop. Its children prove laws of names (Naming), of one argument (Changes,
--     Additions, Deletion) and of all arguments: any (Building), addresses (Growth), new addresses
--     (Numbered), and names of hosts behind a dash (Erased).
--   Inventory.Ranges: `range2ips`.
--   Inventory.Groups, Inventory.Roles: the operations on the groups of the nested document, one
--     definition for each method.
--   Inventory.Load: `load_file`'s loops, and the sequence of calls that assigns the roles. Its children
--     are the specification of a load (Flat), that the loops implement it (Members), who is in the
--     groups (Served), and which addresses the hosts have (Addresses).
--   Inventory.Builder: the constructor, the commands, and reading and writing of files. Its
--     children prove laws of whole runs (Runs, Repeats, Deletes, Loads, Quiet, Commands).
--   Inventory.Program: the shell variables and `main`; Program.Shell is about printed settings,
--     Program.FirstRun about the program over new addresses and over the file that it has written.
--   Inventory.Layout: the specification, a flat record of the groups, with `render` for the document
--     of a layout and `assigned` for what an assignment of roles promises. Its children prove
--     that the code does that (Purge, Assign) and what follows for hosts (Members, Fresh,
--     Separation, Outcome, Sizes), and that a second assignment changes nothing
--     (Same, Again), nor does the same run over the document that it has written (Reloaded,
--     Repeated).
--   Kube.Command, Kube.Manager, Kube.Module: the commands that `KubeManager` builds, its methods,
--     and `main`. Kube.Plans says which commands a state may run and what they name,
--     Kube.Outcomes what the module answers, Kube.Converges what `absent` does to a cluster.
--   Terraform.Parse: the readers of flat attributes and `sanitize_groups`. Terraform.Flatten:
--     `convert_to_v3_structure`; its children compare it with the readers, for mappings (Mappings)
--     and lists (Lists), on the keys below a path (Paths), and show that no key stands twice (Keys),
--     that nested keys stay below their path (Under), and what stands under a flat key (Reads, Finds).
--   Terraform.Resources: `tfstates` and `iterresources`. Terraform.Attributes, Terraform.Hosts: the
--     parsers of resources, and what they do with single attributes.
--   Terraform.Query: `query_list`. Terraform.Report: `iterhosts`, `iterips`, `iter_host_ips`,
--     `query_host`, `query_hostfile` and `main`. Its children are about the queries (Laws,
--     Hostfile), the names of groups (Groups), the keys of attributes (Keys), floating addresses
--     (Addresses), and the way of an instance from its state file (Instance, Tagged, States) and its
--     attributes (Pairs) through its host (Membership, Found) into the groups of the listing (Listed,
--     Instances).
--   Terraform.Arguments: the flags of the command line, and what is printed.
--   Scripts.OpenStack, Scripts.Gitlab: the clean-ups. Base.Sweep has the loop that they share.
--     OpenStack.Keeps is a calculus for what a run calls at most, OpenStack.Due says when
--     `fn_if_old` acts, OpenStack.Safety, OpenStack.Sweep, OpenStack.Calm and Gitlab.Stale what is
--     deleted.
--   Scripts.Aws: contrib/aws_inventory/kubespray-aws-inventory.py. Aws.Service says what the
--     service is asked for and what document its answers make, apart from the code; Aws.Labels is
--     about node labels, Aws.Groups about what a search finds, Aws.Answers when it succeeds.
--   Scripts.DownloadHash: scripts/download_hash.py, with laws of paths in a document
--     (DownloadHash.Paths), of what a run writes (DownloadHash.Hashes) and of what it may raise
--     (DownloadHash.Faults).
--   Scripts.Matrix: tests/scripts/md-table/main.py, with laws of `sort` (Matrix.Sorting), what is
--     relied on of the database and `exists` (Matrix.Rows), and the run (Matrix.Printed).
--   Tests: the theorems at concrete inputs.
--
-- State. The document `self.yaml_config` is passed from method to method; a method that raises
-- loses it, as the program ends then. What a run prints and writes is a list of events, which stays
-- when the run raises. The locals of the loop in `build_hostnames` that may be unassigned are
-- options. The commands that the module `kube` ran are a list, on which the answer of the next may
-- depend.
--
-- A generator is a sequence of items that may end in an exception, so that a reader that stops early
-- does not meet what comes later. The clean-ups keep the calls that were made, also those that
-- raised. A pass over state files of version 4 counts its random numbers.
--
-- Bounds. No definition runs on fuel but `decimal`, whose fuel is the number plus one: a number has
-- no more digits than that. Numbers are the unbounded ones of Python; those of the settings, host
-- ids, return codes and log levels are not negative (a threshold below 0 is read as 0, which holds as
-- well for every number of hosts; the program with a negative KUBE_CONTROL_HOSTS is left out). Texts are ASCII, and the keys of mappings are
-- texts. In state files, names of hosts and ids of ports are texts, keys have no line breaks, and
-- numbers are neither negative nor fractions; names of hosts in an inventory have no line breaks.
--
-- Parameters. YAML and JSON readers, opening of files, `os.walk`, `random.randint`, `str` of a list or
-- a mapping, `subprocess.check_output`, the module `ipaddress`, Ansible's `run_command` and
-- `get_bin_path`, the SDKs of OpenStack, GitLab and AWS, `strptime` and `fromisoformat`, downloads,
-- SHA-256, pydblite and jinja2 are arguments of the model. Nothing is assumed of them but what a theorem
-- states; for pydblite that is the record `IsDatabase`. The two
-- passes of terraform.py over the files read the same files, each with random numbers of its own; a
-- download has the same content each time.
--
-- Not modelled. Debug lines, what the scripts print as they go, and the messages that go with an
-- exit; the parsing of command lines; files of `load` that are the configuration file itself; in
-- terraform.py `_clean_dc` and the first of the two functions `openstack_floating_ips`, which nothing
-- calls, and the layout of JSON; `markdown` of the table of the CI, which nothing calls. The files
-- setup.py call setuptools, and the playbooks and roles of Ansible are no Python.
pub mod Base
pub mod Yaml
pub mod Inventory
pub mod Kube
pub mod Terraform
pub mod Scripts
mod Tests
