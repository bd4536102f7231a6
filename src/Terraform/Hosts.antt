-- ===== src/Terraform/Hosts.antt =====
-- The parsers of resources in terraform.py.
pub mod Laws
use factory_pattern_design.Base.{
  String, ◌<>◌, Bool, true, false, none, some, List, [], ◌∷◌, ◌++◌, if◌then◌else◌,
}
use factory_pattern_design.Base.Text.{split}
use factory_pattern_design.Base.Result.{Result, ok, bind, ◌>>=◌}
use factory_pattern_design.Yaml.{
  Value, bool, str, list, dict, Fields, end, field, insert, lookup, has_key, equals_text, text,
}
use factory_pattern_design.Terraform.Parse.{
  parse_dict, parse_list, parse_attr_list, parse_bool, sanitize_groups,
}
use factory_pattern_design.Terraform.Resources.{shown}
use factory_pattern_design.Terraform.Query.{Host}
use factory_pattern_design.Terraform.Attributes.{
  items, only_text, raw, raw_attributes, without_brackets, add_devices, copy_key, value_or,
  add_mantl_vars, is_positive,
}

-- `openstack_floating_ips`, as it is defined last: the id of the port and the address
unfoldable pub openstack_floating_ips : Value → Result (String × Value)
openstack_floating_ips resource = do
  raw_attrs ← raw_attributes resource
  port_id ← raw "port_id" raw_attrs
  floating_ip ← raw "floating_ip" raw_attrs
  key ← only_text port_id
  ok (key, floating_ip)

-- `group.replace` is a method of texts.
unfoldable pub group_texts : List Value → Result (List String)
group_texts [] = ok []
group_texts (v ∷ vs) = do group ← text v; groups ← group_texts vs; ok (group ∷ groups)

-- The choice of `ansible_host`; its addresses were read before, so nothing raises `KeyError` here.
unfoldable pub ansible_address : Fields → Value → Value → Result Value
ansible_address raw_attrs access_ip_v4 access_ip_v6 =
    if (elim (lookup "metadata.prefer_ipv6" raw_attrs) [
      | none ↦ false
      | some v ↦ equals_text "1" v
    ])
    then (do address ← only_text access_ip_v6; ok (str (without_brackets address)))
    else ok access_ip_v4

-- `'volume.#' in … and int(…) > 0`
unfoldable pub has_volumes : Fields → Result Bool
has_volumes raw_attrs = elim (lookup "volume.#" raw_attrs) [
  | none ↦ ok false
  | some count ↦ is_positive count
]

module _ (str_of : Value → String) where
  -- The groups of the metadata.
  unfoldable pub metadata_groups : Fields → List String
  metadata_groups end = []
  metadata_groups (field key value metadata) =
      ("os_metadata_" <> (key <> ("=" <> shown str_of value))) ∷ metadata_groups metadata

  -- The groups of an instance, before the wrapper.
  unfoldable pub openstack_groups : Fields → Fields → Fields → Value → Result (List String)
  unfolding metadata_groups
  openstack_groups image flavor metadata region = do
    image_id ← raw "id" image
    flavor_name ← raw "name" flavor
    kubespray_groups ← elim (lookup "kubespray_groups" metadata) [ none ↦ ok "" | some v ↦ text v ]
    ok (
        sanitize_groups (
          (("os_image=" <> shown str_of image_id) ∷ ("os_flavor=" <> shown str_of flavor_name) ∷ [])
          ++ metadata_groups metadata
          ++ (("os_region=" <> shown str_of region) ∷ split b',' kubespray_groups)))

  -- `openstack_host` without its decorator
  unfoldable pub parse_openstack_host : Value → Result Host
  unfolding openstack_groups ansible_address has_volumes
  parse_openstack_host resource = do
    raw_attrs ← raw_attributes resource
    name ← bind (raw "name" raw_attrs) only_text
    access_ip_v4 ← raw "access_ip_v4" raw_attrs
    access_ip_v6 ← raw "access_ip_v6" raw_attrs
    ip ← raw "network.0.fixed_ip_v4" raw_attrs
    let flavor = parse_dict raw_attrs "flavor" b'_'
    id ← raw "id" raw_attrs
    let image = parse_dict raw_attrs "image" b'_'
    key_pair ← raw "key_pair" raw_attrs
    let metadata = parse_dict raw_attrs "metadata" b'.'
    network ← parse_attr_list raw_attrs "network" b'.'
    let region = value_or "region" (str "") raw_attrs
    port_id ← raw "network.0.port" raw_attrs
    ansible_host ← ansible_address raw_attrs access_ip_v4 access_ip_v6
    volumes ← has_volumes raw_attrs
    groups ← openstack_groups image flavor metadata region
    let attrs = field "access_ip_v4" access_ip_v4 (
        field "access_ip_v6" access_ip_v6 (
          field "access_ip" access_ip_v4 (
            field "ip" ip (
              field "flavor" (dict flavor) (
                field "id" id (
                  field "image" (dict image) (
                    field "key_pair" key_pair (
                      field "metadata" (dict metadata) (
                        field "network" (list (items network)) (
                          field "region" region (
                            field "security_groups"
                              (list (items (parse_list raw_attrs "security_groups" b'.')))
                              (field "host_domain" (str "novalocal") (
                                field "use_host_domain" (bool true) (
                                  field "public_ipv4" access_ip_v4 (
                                    field "private_ipv4"
                                      (if has_key "floating_ip" raw_attrs then ip else access_ip_v4)
                                      (field "port_id" port_id (
                                        field "provider" (str "openstack") (
                                          field "ansible_host" ansible_host (
                                            field "publicly_routable" (bool true)
                                              end)))))))))))))))))))
    let named =
        copy_key "ansible_port" "metadata.ssh_port" raw_attrs
          (copy_key "ansible_user" "metadata.ssh_user" raw_attrs attrs)
    let with_devices = if volumes then add_devices raw_attrs 1 named else named
    let role = value_or "role" (str "none") metadata
    ok (record { name = name; attrs = insert "role" role with_devices; groups = groups })

  unfoldable pub openstack_host : Value → Result Host
  unfolding parse_openstack_host
  openstack_host resource = do host ← parse_openstack_host resource; ok (add_mantl_vars host)

  unfoldable pub equinix_metal_device : Value → Result Host
  unfolding group_texts
  equinix_metal_device resource = do
    raw_attrs ← raw_attributes resource
    hostname ← raw "hostname" raw_attrs
    id ← raw "id" raw_attrs
    operating_system ← raw "operating_system" raw_attrs
    locked ← bind (raw "locked" raw_attrs) parse_bool
    let tags = parse_list raw_attrs "tags" b'.'
    plan ← raw "plan" raw_attrs
    project_id ← raw "project_id" raw_attrs
    state ← raw "state" raw_attrs
    public ← raw "network.0.address" raw_attrs
    ipv6 ← raw "network.1.address" raw_attrs
    private ← raw "network.2.address" raw_attrs
    name ← only_text hostname
    tag_groups ← group_texts tags
    let user = if equals_text "flatcar_stable" operating_system then "core" else "root"
    ok (record {
      name = name;
      attrs = field "id" id (
          field "facilities" (list (items (parse_list raw_attrs "facilities" b'.'))) (
            field "hostname" hostname (
              field "operating_system" operating_system (
                field "locked" (bool locked) (
                  field "tags" (list (items tags)) (
                    field "plan" plan (
                      field "project_id" project_id (
                        field "state" state (
                          field "ansible_host" public (
                            field "ansible_ssh_user" (str user) (
                              field "ipv4_address" public (
                                field "public_ipv4" public (
                                  field "ipv6_address" ipv6 (
                                    field "public_ipv6" ipv6 (
                                      field "private_ipv4" private
                                        (field "provider" (str "equinix") end))))))))))))))));
      groups = sanitize_groups (
          (("equinix_metal_operating_system_" <> shown str_of operating_system)
            ∷ ("equinix_metal_locked_" <> shown str_of (bool locked))
            ∷ ("equinix_metal_state_" <> shown str_of state)
            ∷ ("equinix_metal_plan_" <> shown str_of plan)
            ∷ [])
          ++ tag_groups);
    })
