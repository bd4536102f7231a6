-- ===== src/Tests/States.antt =====
-- The dynamic inventory of Terraform on a state file of version 4 with one OpenStack instance.
use factory_pattern_design.Base.{true, false, ◌≡◌, refl, inl, [], ◌∷◌}
use factory_pattern_design.Base.Text.{member, split, before_suffix, contains_char}
use factory_pattern_design.Base.Decimal.{decimal, digits_onto}
use factory_pattern_design.Base.Result.{ok}
use factory_pattern_design.Base.Generator.{drain, first_do}
use factory_pattern_design.Yaml.{
  Value, bool, num, str, list, dict, nil, cons, Fields, field, end, lookup, insert, update, keys,
  has_key, has, get_or, count_fields, count_items, at, subscript, text, equals_text, truthy,
}
use factory_pattern_design.Terraform.Parse.{
  parse_dict, parse_prefix, split_once, sanitize, sanitize_groups, parse_attr_list, parse_list,
}
use factory_pattern_design.Terraform.Flatten.{
  convert, convert_fields, convert_items, counted, copied, convert_to_v3_structure,
}
use factory_pattern_design.Terraform.Resources.{
  tfstates, state_files, is_state_file, has_name, iterresources, version_of, elements, item_values,
  shown, dotted, read_instance, instances, resources_v4,
}
use factory_pattern_design.Terraform.Attributes.{
  raw, raw_attributes, only_text, items, add_mantl_vars, copy_key, value_or,
}
use factory_pattern_design.Terraform.Query.{Host, query_list, hosts_in, group_name}
use factory_pattern_design.Terraform.Report.{
  World, all_hosts, listing, main, found_resources, floating_ips, iterips, resource_type,
  queried_hosts, answer, iterhosts, parser_of,
}
use factory_pattern_design.Terraform.Hosts.{openstack_host}
use factory_pattern_design.Terraform.Report.Tagged.{Tagged}
use factory_pattern_design.Terraform.Report.States.{In, InState}
use factory_pattern_design.Base.{String}
use factory_pattern_design.Base.Text.Laws.{has_space}
use factory_pattern_design.Terraform.Report.{hostfile, hosts_text}
use factory_pattern_design.Terraform.Report.Hostfile.{read_snippet, main-hostfile}
use factory_pattern_design.Terraform.Report.Instances.{main_lists_instance}

abbrev metadata : Fields
metadata = field "kubespray_groups" (str "etcd,kube-node") end

-- An instance with all that the parser reads.
abbrev server : Fields
server =
    (field "name" (str "n1") (
      field "id" (str "7") (
        field "access_ip_v4" (str "1.2.3.4") (
          field "access_ip_v6" (str "") (
            field "network"
              (list (
                cons (dict (field "fixed_ip_v4" (str "10.0.0.4") (field "port" (str "p1") end)))
                  nil))
              (field "key_pair" (str "k") (
                field "flavor_name" (str "big")
                  (field "image_id" (str "i1") (field "metadata" (dict metadata) end)))))))))

abbrev server_instance : Value
server_instance = dict (field "attributes" (dict server) end)

abbrev server_resource : Value
server_resource = dict (
    field "type" (str "openstack_compute_instance_v2") (
      field "name" (str "n1") (
        field "provider" (str "provider.openstack")
          (field "instances" (list (cons server_instance nil)) end))))

abbrev server_state : Value
server_state =
    dict (field "version" (num 4) (field "resources" (list (cons server_resource nil)) end))

abbrev server_world : World
server_world = record {
  str_of = λ v. "";
  join_path = λ d f. f;
  directories = ("tf", "a.tfstate" ∷ []) ∷ [];
  read_json = λ name. ok server_state;
  randint = λ n. 7;
  randint_ips = λ n. 7;
}

-- The host that is made of it.
abbrev n1 : Host
n1 = record {
  name = "n1";
  attrs = field "access_ip_v4" (str "1.2.3.4") (
      field "access_ip_v6" (str "") (
        field "access_ip" (str "1.2.3.4") (
          field "ip" (str "10.0.0.4") (
            field "flavor" (dict (field "name" (str "big") end)) (
              field "id" (str "7") (
                field "image" (dict (field "id" (str "i1") end)) (
                  field "key_pair" (str "k") (
                    field "metadata"
                      (dict
                        (field "%" (num 1) (field "kubespray_groups" (str "etcd,kube-node") end)))
                      (field "network"
                        (list (
                          cons
                            (dict
                              (field "fixed_ip_v4" (str "10.0.0.4") (field "port" (str "p1") end)))
                            nil))
                        (field "region" (str "") (
                          field "security_groups" (list nil) (
                            field "host_domain" (str "novalocal") (
                              field "use_host_domain" (bool true) (
                                field "public_ipv4" (str "1.2.3.4") (
                                  field "private_ipv4" (str "1.2.3.4") (
                                    field "port_id" (str "p1") (
                                      field "provider" (str "openstack") (
                                        field "ansible_host" (str "1.2.3.4") (
                                          field "publicly_routable" (bool true) (
                                            field "role" (str "none") (
                                              field "consul_is_server" (bool false)
                                                end)))))))))))))))))))));
  groups =
      "os_image_i1" ∷ "os_flavor_big" ∷ "os_metadata_%_1"
      ∷ "os_metadata_kubespray_groups_etcd,kube_node" ∷ "os_region_" ∷ "etcd" ∷ "kube_node"
      ∷ "publicly_routable" ∷ [];
}

one_instance : drain (queried_hosts server_world []) ≡ ok (n1 ∷ [])
unfolding queried_hosts found_resources tfstates state_files is_state_file has_name before_suffix
    iterresources version_of subscript lookup elements item_values resources_v4 instances
    read_instance text first_do iterhosts parser_of resource_type split_once drain
    convert_to_v3_structure convert convert_fields convert_items counted copied insert update
    decimal digits_onto dotted shown get_or has has_key count_fields count_items openstack_host
    raw_attributes at raw only_text parse_dict parse_list parse_prefix parse_attr_list items
    sanitize_groups sanitize equals_text split add_mantl_vars copy_key value_or truthy
one_instance = refl

no_ips : floating_ips server_world ≡ ok []
unfolding floating_ips iterips queried_hosts found_resources tfstates state_files is_state_file
    has_name before_suffix iterresources version_of subscript lookup elements item_values
    resources_v4 instances read_instance text first_do iterhosts parser_of resource_type split_once
    drain convert_to_v3_structure convert convert_fields convert_items counted copied insert update
    decimal digits_onto dotted shown get_or has has_key count_fields count_items openstack_host
    raw_attributes at raw only_text parse_dict parse_list parse_prefix parse_attr_list items
    sanitize_groups sanitize equals_text split add_mantl_vars copy_key value_or truthy
no_ips = refl

listed_instance : main server_world (all_hosts true) ≡ ok (listing true (query_list (n1 ∷ [])))
unfolding main answer
listed_instance = rw (no_ips, one_instance) refl

walked : In "a.tfstate" (tfstates server_world.join_path server_world.directories)
unfolding tfstates state_files is_state_file has_name before_suffix
walked = inl refl

held : InState server_world.read_json "a.tfstate" server_resource server_instance
unfolding subscript lookup elements item_values
held = record {
  state = server_state;
  resources = server_resource ∷ [];
  instances = server_instance ∷ [];
  read = refl;
  version = refl;
  all_resources = refl;
  has_resource = inl refl;
  all_instances = refl;
  has_instance = inl refl;
}

in_groups : Tagged server_resource server_instance "n1" "etcd,kube-node"
unfolding subscript lookup keys member contains_char
in_groups = record {
  attributes = server;
  metadata = metadata;
  kind = refl;
  read = refl;
  named = refl;
  described = refl;
  labelled = refl;
  once = (refl, (refl, (refl, (refl, (refl, (refl, (refl, (refl, (refl, tt)))))))));
  once_below = (refl, tt);
  no_dots = (refl, (refl, (refl, (refl, (refl, (refl, (refl, (refl, (refl, tt)))))))));
}

main_lists_instance_example :
    member "n1" (hosts_in "kube_node" (query_list (n1 ∷ [])).groups) ≡ true
unfolding split member group_name sanitize
main_lists_instance_example =
    main_lists_instance server_world true (query_list (n1 ∷ [])) "a.tfstate" server_resource
      server_instance "kube-node" "n1" "etcd,kube-node" listed_instance walked held in_groups refl
      refl

main-hostfile_example :
    (s : String) × (main server_world hostfile ≡ ok (hosts_text s))
    × (read_snippet s ≡ ("1.2.3.4", "n1") ∷ [])
unfolding lookup has_space contains_char
main-hostfile_example =
    main-hostfile server_world [] (n1 ∷ []) (("1.2.3.4", "n1") ∷ []) no_ips one_instance
      ((refl, refl, refl, refl, refl), tt)
