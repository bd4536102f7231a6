-- ===== src/Tests/Terraform.antt =====
-- The dynamic inventory of Terraform on a few hosts, and on a state file with one device.
use factory_pattern_design.Base.{
  ℕ, ◌+◌, String, ◌<>◌, true, false, ◌≡◌, refl, ◌⊎◌, none, some, List, [], ◌∷◌, ◌=ₛ◌, All,
  if◌then◌else◌, length,
}
use factory_pattern_design.Base.Text.{contains_char, member, before_suffix}
use factory_pattern_design.Base.Result.{Result, ok, err, os_error}
use factory_pattern_design.Base.Exec.{returned}
use factory_pattern_design.Base.Generator.{drain, first_do}
use factory_pattern_design.Yaml.{
  Value, bool, num, str, list, dict, nil, cons, Fields, field, end, lookup, keys, has_key,
  count_fields, at, subscript, text, equals_text, mapping,
}
use factory_pattern_design.Terraform.Parse.{
  parse_prefix, parse_dict, parse_list, split_once, parse_bool, sanitize, sanitize_groups,
}
use factory_pattern_design.Terraform.Flatten.{convert_to_v3_structure}
use factory_pattern_design.Terraform.Flatten.Lists.{text_items, text_values, parse_list-convert}
use factory_pattern_design.Terraform.Flatten.Mappings.{parse_dict-convert}
use factory_pattern_design.Terraform.Resources.{
  tfstates, state_files, is_state_file, has_name, iterresources, version_of, modules_v3,
  module_resources, elements, item_values, last_of, last_value, shown,
}
use factory_pattern_design.Terraform.Query.{Host, hosts_in, query_list}
use factory_pattern_design.Terraform.Query.Laws.{members, query_list-members}
use factory_pattern_design.Terraform.Attributes.{raw, raw_attributes, only_text, items}
use factory_pattern_design.Terraform.Hosts.{group_texts, equinix_metal_device}
use factory_pattern_design.Terraform.Hosts.Laws.{IsCleanHost}
use factory_pattern_design.Terraform.Report.{
  World, all_hosts, one_host, listing, variables, main, floating_ips, queried_hosts,
  found_resources, iterips, iterhosts, resource_type, parser_of,
}
use factory_pattern_design.Terraform.Report.Laws.{main-one_host}
use factory_pattern_design.Terraform.Report.Groups.{queried_hosts-IsClean}

abbrev pair : List Host
pair =
    record { name = "a"; attrs = end; groups = "etcd" ∷ "all" ∷ "" ∷ [] }
    ∷ record { name = "b"; attrs = end; groups = "etcd" ∷ "etcd" ∷ [] }
    ∷ []

query_list-members_example : hosts_in "etcd" (query_list pair).groups ≡ members "etcd" pair
query_list-members_example = query_list-members "etcd" pair refl

abbrev constant : ℕ → ℕ
constant n = 7

abbrev two_texts : List String
two_texts = "a" ∷ "b" ∷ []

parse_list-convert_example :
    (flat : Fields) × (convert_to_v3_structure constant
        (dict (field "tags" (list (text_items two_texts)) end))
        0
      ≡ (returned flat, 0 + length two_texts))
    × (parse_list flat "tags" b'.' ≡ text_values two_texts)
unfolding contains_char
parse_list-convert_example = parse_list-convert constant 0 "tags" two_texts refl

abbrev labels : Fields
labels = field "role" (str "etcd") (field "ssh_user" (str "core") end)

parse_dict-convert_example :
    (flat : Fields) × (convert_to_v3_structure constant
        (dict (field "metadata" (dict labels) end))
        0
      ≡ (returned flat, 0))
    × (parse_dict flat "metadata" b'.' ≡ field "%" (num (count_fields labels)) labels)
unfolding contains_char keys has_key member
parse_dict-convert_example =
    parse_dict-convert constant 0 "metadata" labels refl (refl, (refl, tt)) refl refl

abbrev floating : Host
floating = record {
  name = "a";
  attrs =
      field "port_id" (str "p1")
        (field "access_ip" (str "10.0.0.1") (field "metadata" (dict end) end));
  groups = "etcd" ∷ [];
}

abbrev updated : Host
updated = record {
  name = "a";
  attrs = field "port_id" (str "p1") (
      field "access_ip" (str "1.2.3.4") (
        field "metadata" (dict end) (
          field "access_ip_v4" (str "1.2.3.4")
            (field "public_ipv4" (str "1.2.3.4") (field "ansible_host" (str "1.2.3.4") end)))));
  groups = "etcd" ∷ [];
}

abbrev attributes : Fields
attributes = field "hostname" (str "m1") (
    field "id" (str "7") (
      field "operating_system" (str "flatcar_stable") (
        field "locked" (bool false) (
          field "plan" (str "c3") (
            field "project_id" (str "p") (
              field "state" (str "active") (
                field "network.0.address" (str "1.2.3.4") (
                  field "network.1.address" (str "::1") (
                    field "network.2.address" (str "10.0.0.4")
                      (field "tags.#" (num 1) (field "tags.0" (str "kube-node") end)))))))))))

abbrev state : Value
state = dict (
    field "version" (num 3) (
      field "modules"
        (list (
          cons
            (dict (
              field "path" (list (cons (str "root") nil)) (
                field "resources"
                  (dict (
                    field "equinix_metal_device.m1"
                      (dict (field "primary" (dict (field "attributes" (dict attributes) end)) end))
                      end))
                  end)))
            nil))
        end))

abbrev opened : String → Result Value
opened name = if name =ₛ "tf/a.tfstate" then ok state else err os_error

abbrev world : World
world = record {
  str_of = λ v. "";
  join_path = λ d f. d <> ("/" <> f);
  directories = ("tf", "README" ∷ "a.tfstate" ∷ []) ∷ [];
  read_json = opened;
  randint = constant;
  randint_ips = constant;
}

abbrev device : Host
device = record {
  name = "m1";
  attrs = field "id" (str "7") (
      field "facilities" (list nil) (
        field "hostname" (str "m1") (
          field "operating_system" (str "flatcar_stable") (
            field "locked" (bool false) (
              field "tags" (list (cons (str "kube-node") nil)) (
                field "plan" (str "c3") (
                  field "project_id" (str "p") (
                    field "state" (str "active") (
                      field "ansible_host" (str "1.2.3.4") (
                        field "ansible_ssh_user" (str "core") (
                          field "ipv4_address" (str "1.2.3.4") (
                            field "public_ipv4" (str "1.2.3.4") (
                              field "ipv6_address" (str "::1") (
                                field "public_ipv6" (str "::1") (
                                  field "private_ipv4" (str "10.0.0.4")
                                    (field "provider" (str "equinix") end))))))))))))))));
  groups =
      "equinix_metal_operating_system_flatcar_stable" ∷ "equinix_metal_locked_False"
      ∷ "equinix_metal_state_active" ∷ "equinix_metal_plan_c3" ∷ "kube_node" ∷ [];
}

no_ips : floating_ips world ≡ ok []
unfolding floating_ips found_resources tfstates state_files is_state_file has_name before_suffix
    iterresources version_of subscript lookup elements item_values modules_v3 module_resources
    last_of last_value mapping first_do iterips resource_type split_once drain
no_ips = refl

one_device : drain (queried_hosts world []) ≡ ok (device ∷ [])
unfolding queried_hosts found_resources tfstates state_files is_state_file has_name before_suffix
    iterresources version_of subscript lookup elements item_values modules_v3 module_resources
    last_of last_value mapping first_do iterhosts parser_of resource_type split_once drain
    equinix_metal_device raw_attributes at raw only_text parse_bool parse_list parse_prefix
    group_texts text items sanitize_groups sanitize shown equals_text
one_device = refl

main-one_host_example :
    (attrs : Fields) × (main world (all_hosts true) ≡ ok (listing true (query_list (device ∷ []))))
    × (main world (one_host "m1") ≡ ok (variables attrs))
    × ((lookup "m1" (query_list (device ∷ [])).hostvars ≡ some (dict attrs))
        ⊎ ((lookup "m1" (query_list (device ∷ [])).hostvars ≡ none) × (attrs ≡ end)))
unfolding member
main-one_host_example = main-one_host world "m1" [] (device ∷ []) no_ips one_device (refl, tt)

queried_hosts-IsClean_example : All IsCleanHost (device ∷ [])
queried_hosts-IsClean_example = queried_hosts-IsClean world [] (device ∷ []) one_device
