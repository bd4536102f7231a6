-- ===== src/Tests/Instances.antt =====
-- The dynamic inventory of Terraform on a state file with one OpenStack instance.
use factory_pattern_design.Base.{true, false, ◌≡◌, refl, inl, [], ◌∷◌}
use factory_pattern_design.Base.Text.{member, split, before_suffix}
use factory_pattern_design.Base.Result.{ok}
use factory_pattern_design.Base.Generator.{drain, first_do}
use factory_pattern_design.Yaml.{
  Value, bool, num, str, list, dict, nil, cons, Fields, field, end, lookup, insert, keys, has_key,
  at, subscript, text, equals_text, mapping, truthy,
}
use factory_pattern_design.Terraform.Parse.{
  parse_dict, parse_prefix, split_once, sanitize, sanitize_groups, parse_attr_list, parse_list,
}
use factory_pattern_design.Terraform.Resources.{
  Resource, tfstates, state_files, is_state_file, has_name, iterresources, version_of, modules_v3,
  module_resources, elements, item_values, last_of, last_value, shown,
}
use factory_pattern_design.Terraform.Attributes.{
  raw, raw_attributes, only_text, items, add_mantl_vars, copy_key, value_or,
}
use factory_pattern_design.Terraform.Query.{Host, query_list, hosts_in, group_name}
use factory_pattern_design.Terraform.Report.{
  World, all_hosts, listing, main, found_resources, floating_ips, iterips, resource_type,
  queried_hosts, answer, iterhosts, parser_of,
}
use factory_pattern_design.Terraform.Hosts.{openstack_host}
use factory_pattern_design.Terraform.Report.Listed.{main_lists_tagged}
use factory_pattern_design.Terraform.Report.Found.{Among}

abbrev attributes : Fields
attributes = field "name" (str "n1") (
    field "id" (str "7") (
      field "access_ip_v4" (str "1.2.3.4") (
        field "access_ip_v6" (str "") (
          field "network.0.fixed_ip_v4" (str "10.0.0.4") (
            field "network.0.port" (str "p1") (
              field "key_pair" (str "k") (
                field "flavor_name" (str "big") (
                  field "image_id" (str "i1")
                    (field "metadata.kubespray_groups" (str "etcd,kube-node") end)))))))))

abbrev instance1 : Resource
instance1 = record {
  key = "openstack_compute_instance_v2.n1";
  resource = dict (field "primary" (dict (field "attributes" (dict attributes) end)) end);
}

abbrev state : Value
state = dict (
    field "version" (num 3) (
      field "modules"
        (list (
          cons
            (dict (
              field "path" (list (cons (str "root") nil))
                (field "resources" (dict (field instance1.key instance1.resource end)) end)))
            nil))
        end))

abbrev world : World
world = record {
  str_of = λ v. "";
  join_path = λ d f. f;
  directories = ("tf", "a.tfstate" ∷ []) ∷ [];
  read_json = λ name. ok state;
  randint = λ n. 7;
  randint_ips = λ n. 7;
}

abbrev tagged : Host
tagged = record {
  name = "n1";
  attrs = field "access_ip_v4" (str "1.2.3.4") (
      field "access_ip_v6" (str "") (
        field "access_ip" (str "1.2.3.4") (
          field "ip" (str "10.0.0.4") (
            field "flavor" (dict (field "name" (str "big") end)) (
              field "id" (str "7") (
                field "image" (dict (field "id" (str "i1") end)) (
                  field "key_pair" (str "k") (
                    field "metadata" (dict (field "kubespray_groups" (str "etcd,kube-node") end)) (
                      field "network"
                        (list (
                          cons
                            (dict
                              (field "fixed_ip_v4" (str "10.0.0.4") (field "port" (str "p1") end)))
                            nil))
                        (field "region" (str "") (
                          field "security_groups" (list nil) (
                            field "host_domain" (str "novalocal") (
                              field "use_host_domain" (bool true) (
                                field "public_ipv4" (str "1.2.3.4") (
                                  field "private_ipv4" (str "1.2.3.4") (
                                    field "port_id" (str "p1") (
                                      field "provider" (str "openstack") (
                                        field "ansible_host" (str "1.2.3.4") (
                                          field "publicly_routable" (bool true) (
                                            field "role" (str "none") (
                                              field "consul_is_server" (bool false)
                                                end)))))))))))))))))))));
  groups =
      "os_image_i1" ∷ "os_flavor_big" ∷ "os_metadata_kubespray_groups_etcd,kube_node" ∷ "os_region_"
      ∷ "etcd" ∷ "kube_node" ∷ "publicly_routable" ∷ [];
}

read_instance : Among instance1 (found_resources world world.randint)
unfolding found_resources tfstates state_files is_state_file has_name before_suffix iterresources
    version_of subscript lookup elements item_values modules_v3 module_resources last_of last_value
    mapping first_do
read_instance = inl refl

no_ips : floating_ips world ≡ ok []
unfolding floating_ips found_resources tfstates state_files is_state_file has_name before_suffix
    iterresources version_of subscript lookup elements item_values modules_v3 module_resources
    last_of last_value mapping first_do iterips resource_type split_once drain
no_ips = refl

one_instance : drain (queried_hosts world []) ≡ ok (tagged ∷ [])
unfolding queried_hosts found_resources tfstates state_files is_state_file has_name before_suffix
    iterresources version_of subscript lookup elements item_values modules_v3 module_resources
    last_of last_value mapping first_do iterhosts parser_of resource_type split_once drain
    openstack_host raw_attributes at raw only_text parse_dict parse_list parse_prefix
    parse_attr_list text items sanitize_groups sanitize shown equals_text split insert
    add_mantl_vars copy_key value_or has_key truthy
one_instance = refl

listed_instance : main world (all_hosts true) ≡ ok (listing true (query_list (tagged ∷ [])))
unfolding main answer
listed_instance = rw (no_ips, one_instance) refl

main_lists_tagged_example :
    member "n1" (hosts_in "kube_node" (query_list (tagged ∷ [])).groups) ≡ true
unfolding raw_attributes at subscript lookup resource_type split_once member split keys group_name
    sanitize
main_lists_tagged_example =
    main_lists_tagged world true (query_list (tagged ∷ [])) instance1 attributes "kube-node" "n1"
      "etcd,kube-node" listed_instance read_instance refl refl
      (refl, (refl, (refl, (refl, (refl, (refl, (refl, (refl, (refl, (refl, tt)))))))))) refl refl
      refl refl
