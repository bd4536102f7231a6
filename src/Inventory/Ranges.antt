-- ===== src/Inventory/Ranges.antt =====
-- `range2ips` of inventory.py. The module `ipaddress` is the parameter `Addresses`.
pub mod Laws
use factory_pattern_design.Base.{
  ℕ, zero, suc, ◌+◌, ◌-◌, String, code, Bool, false, not, ◌&&◌, ◌||◌, Option, none, some, List, [],
  ◌∷◌, ◌++◌, map, ◌==◌, if◌then◌else◌,
}
use factory_pattern_design.Base.Text.{first, is_alpha, split, contains_char, strip}
use factory_pattern_design.Base.Result.{Result, ok, err, exception, ◌>>=◌}
use factory_pattern_design.Inventory.Hosts.{unpack2}

-- `int(ip_address(text))`, with `none` for its `ValueError`, and `ip_address(n).exploded`
pub record Addresses : Type 0 where
  pub parse : String → Option ℕ
  pub exploded : ℕ → String

-- `range(start, start + count)`
unfoldable pub numbers_from : ℕ → ℕ → List ℕ
numbers_from start zero = []
numbers_from start (suc count) = start ∷ numbers_from (suc start) count

abbrev pub starts_with_dash : String → Bool
starts_with_dash host = elim (first host) [ none ↦ false | some c ↦ code c == b'-' ]

abbrev pub starts_with_letter : String → Bool
starts_with_letter host = elim (first host) [ none ↦ false | some c ↦ is_alpha c ]

-- The test of the loop: a dash inside, and neither a dash nor a letter in front.
unfoldable pub is_range : String → Bool
is_range host = contains_char b'-' host && not (starts_with_dash host || starts_with_letter host)

module _ (lib : Addresses) where
  -- The inner function `ips`; `range(start, end + 1)` is empty where the end is below the start.
  unfoldable pub ips : String → String → Option (List String)
  unfolding numbers_from
  ips start_address end_address = elim (lib.parse start_address) [
    | none ↦ none
    | some start ↦ elim (lib.parse end_address) [
      | none ↦ none
      | some stop ↦ some (map lib.exploded (numbers_from start (stop + 1 - start)))
    ]
  ]

  abbrev or_invalid : Option (List String) → Result (List String)
  or_invalid none = err (exception "Range of ip_addresses isn't valid")
  or_invalid (some addresses) = ok addresses

  -- What one argument adds to the list.
  unfoldable pub expand : String → Result (List String)
  unfolding is_range
  expand host =
      if is_range host
      then (do (start, stop) ← unpack2 (split b'-' (strip host)); or_invalid (ips start stop))
      else ok (host ∷ [])

  unfoldable pub range2ips_onto : List String → List String → Result (List String)
  unfolding expand
  range2ips_onto reworked_hosts [] = ok reworked_hosts
  range2ips_onto reworked_hosts (host ∷ hosts) =
      expand host >>= λ more. range2ips_onto (reworked_hosts ++ more) hosts

  unfoldable pub range2ips : List String → Result (List String)
  unfolding range2ips_onto
  range2ips hosts = range2ips_onto [] hosts
