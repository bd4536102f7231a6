-- ===== src/Terraform/Report/Instances.antt =====
-- From the state files of version 4 to the groups that `--list` prints.
use factory_pattern_design.Base.{String, Bool, true, false, ◌≡◌, refl, List, [], ◌∷◌, ◌=ₛ◌}
use factory_pattern_design.Base.Text.{member, split}
use factory_pattern_design.Base.Result.{ok, bind-eq-ok}
use factory_pattern_design.Base.Generator.{Generator, finished, failed, yields, drain}
use factory_pattern_design.Yaml.{Value}
use factory_pattern_design.Terraform.Parse.{sanitize}
use factory_pattern_design.Terraform.Resources.{Resource, tfstates}
use factory_pattern_design.Terraform.Query.{Host, Listing, group_name, hosts_in}
use factory_pattern_design.Terraform.Report.{
  resource_type, parser_of, iterhosts, World, found_resources, queried_hosts, floating_ips,
  all_hosts, listing, main,
}
use factory_pattern_design.Terraform.Report.Found.{drain-first_do, after_parser, iter_host_ips-Any}
use factory_pattern_design.Terraform.Report.Listed.{answered, main_lists_tagged}
use factory_pattern_design.Terraform.Report.States.{In, InState, iterresources-Meets}
use factory_pattern_design.Terraform.Report.Tagged.{Tagged, IsTagged, read_instance-IsTagged}

-- Hosts that can be read to their end are those of resources that can.
iterhosts-source :
    (str_of : Value → String) (gen : Generator Resource) (hosts : List Host)
    → drain (iterhosts str_of gen) ≡ ok hosts
    → (items : List Resource) × (drain gen ≡ ok items)
unfolding iterhosts drain
iterhosts-source str_of finished hosts e = ([], refl)
iterhosts-source str_of (failed x) hosts e = absurd (cc)
iterhosts-source str_of (yields q rest) hosts e =
    let (k, typed, e1) = drain-first_do (resource_type q) _ hosts e in
    let (later, found, _) =
      after_parser (λ h. Unit {0}) (parser_of str_of k) q.resource (iterhosts str_of rest) hosts
        e1 in
    let (items, drained) = iterhosts-source str_of rest later found in (q ∷ items, rw drained refl)

queried_hosts-source :
    (world : World) (ips : List (String × Value)) (hosts : List Host)
    → drain (queried_hosts world ips) ≡ ok hosts
    → (items : List Resource) × (drain (found_resources world world.randint) ≡ ok items)
unfolding queried_hosts
queried_hosts-source world [] hosts e = iterhosts-source world.str_of _ hosts e
queried_hosts-source world (ip ∷ ips) hosts e =
    let (first, drained, _) = iter_host_ips-Any "" "" (ip ∷ ips) _ hosts e in
    iterhosts-source world.str_of _ first drained

listing-source :
    (world : World) (meta : Bool) (l : Listing)
    → main world (all_hosts meta) ≡ ok (listing meta l)
    → (items : List Resource) × (drain (found_resources world world.randint) ≡ ok items)
unfolding main
listing-source world meta l e =
    let (ips, known, e1) = bind-eq-ok (floating_ips world) _ e in
    let (hosts, found, same) = answered world meta l (queried_hosts world ips) e1 in
    queried_hosts-source world ips hosts found

-- A state file of version 4 is among the files that are walked over. It holds an instance of an
-- OpenStack server, the attributes of which have names without a dot, none twice, with a name and with
-- metadata, none twice, of which `kubespray_groups` is a text. Then, if `--list` answers, the
-- instance is a member of each group that this text names: the pieces between the commas,
-- cleaned, the empty one as `all`, and only `_meta` left out.
pub main_lists_instance :
    (world : World) (meta : Bool) (l : Listing) (file : String) (resource instance' : Value)
    (g name label : String)
    → main world (all_hosts meta) ≡ ok (listing meta l)
    → In file (tfstates world.join_path world.directories)
    → InState world.read_json file resource instance'
    → Tagged resource instance' name label
    → member g (split b',' label) ≡ true
    → (group_name (sanitize g) =ₛ "_meta") ≡ false
    → member name (hosts_in (group_name (sanitize g)) l.groups) ≡ true
unfolding found_resources
main_lists_instance world meta l file resource instance' g name label e walked held tagged piece
      other =
    let (items, drained) = listing-source world meta l e in
    let (r, among, t) =
      iterresources-Meets (IsTagged name label) world.str_of world.read_json world.randint file
        resource instance' held
        (read_instance-IsTagged world.str_of world.randint resource instance' name label tagged) _ 0
        walked items drained in
    main_lists_tagged world meta l r t.flat g name label e among t.kind t.read t.tags.once
      t.tags.named t.tags.labelled piece other
