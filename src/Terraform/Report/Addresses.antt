-- ===== src/Terraform/Report/Addresses.antt =====
-- What a floating address changes.
use factory_pattern_design.Base.{String, ◌≡◌, Option, none, some, List, [], ◌∷◌, if◌then◌else◌}
use factory_pattern_design.Base.Text.{member}
use factory_pattern_design.Yaml.{Value, lookup}
use factory_pattern_design.Terraform.Query.{Host}
use factory_pattern_design.Terraform.Report.{address_of}

-- The attributes that a floating address replaces, besides `access_ip`.
abbrev pub replaced_keys : List String
replaced_keys = "access_ip_v4" ∷ "public_ipv4" ∷ "ansible_host" ∷ []

abbrev pub or_value : Option Value → Option Value → Option Value
or_value none other = other
or_value (some v) other = some v

module _ (ips : List (String × Value)) (host : Host) (p j : String) where
  -- The updated host: only the attributes of the address change.
  abbrev IsUpdated : Host → Type 0
  IsUpdated h =
      (h.name ≡ host.name)
      × (h.groups ≡ host.groups)
      × (lookup j h.attrs ≡ (
          if member j replaced_keys
          then or_value (address_of p ips) (lookup j host.attrs)
          else lookup j host.attrs))
