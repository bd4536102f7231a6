-- ===== src/Terraform/Hosts/Laws.antt =====
-- The names of the groups that the parsers choose are clean.
use mathlib.Core.Path.{subst}
use factory_pattern_design.Base.{
  String, Bool, true, false, ◌≡◌, refl, sym, List, [], ◌∷◌, ◌++◌, if◌then◌else◌, All, ℕ, Char, code,
  ◌==◌, arith,
}
use factory_pattern_design.Base.Result.{Result, ok, err, ◌>>=◌, ok-injective}
use factory_pattern_design.Base.Text.{contains_char}
use factory_pattern_design.Yaml.{Value, Fields}
use factory_pattern_design.Terraform.Parse.{replaced, sanitize, sanitize_groups}
use factory_pattern_design.Terraform.Query.{Host}
use factory_pattern_design.Terraform.Attributes.{add_mantl_vars}
use factory_pattern_design.Terraform.Hosts.{
  openstack_groups, parse_openstack_host, openstack_host, equinix_metal_device,
}

abbrev unwanted : List ℕ
unwanted = b'+' ∷ b'-' ∷ b'=' ∷ b'.' ∷ b'/' ∷ b' ' ∷ []

-- The names have none of the six characters.
unfoldable pub IsClean : List String → Type 0
IsClean groups = All (λ group. All (λ c. contains_char c group ≡ false) unwanted) groups

kept_out :
    (b : Bool) (k : ℕ) (c : Char)
    → (b'_' == k) ≡ false
    → (b ≡ false → (code c == k) ≡ false)
    → (code (if b then "_" else c) == k) ≡ false
kept_out true k c h p = h
kept_out false k c h p = p refl

sanitize-lacks :
    (k : ℕ) (s : String)
    → ((c : Char) → (code (replaced c) == k) ≡ false)
    → contains_char k (sanitize s) ≡ false
unfolding sanitize contains_char
sanitize-lacks k String.[] h = refl
sanitize-lacks k (String.◌∷◌ c s) h = rw (h c, sanitize-lacks k s h)

sanitize_groups-IsClean : (groups : List String) → IsClean (sanitize_groups groups)
unfolding IsClean sanitize_groups
sanitize_groups-IsClean [] = tt
sanitize_groups-IsClean (g ∷ groups) = (
  (
    sanitize-lacks b'+' g (λ c. kept_out _ _ c refl (λ e. ground arith)),
    (
      sanitize-lacks b'-' g (λ c. kept_out _ _ c refl (λ e. ground arith)),
      (
        sanitize-lacks b'=' g (λ c. kept_out _ _ c refl (λ e. ground arith)),
        (
          sanitize-lacks b'.' g (λ c. kept_out _ _ c refl (λ e. ground arith)),
          (
            sanitize-lacks b'/' g (λ c. kept_out _ _ c refl (λ e. ground arith)),
            (sanitize-lacks b' ' g (λ c. kept_out _ _ c refl (λ e. ground arith)), tt),
          ),
        ),
      ),
    ),
  ),
  sanitize_groups-IsClean groups,
)

-- What `m` returns, if it returns, is as `P` says.
pub record Returns {A : Type 0} (P : A → Type 0) (m : Result A) : Type 0 where
  pub returns : (a : A) → m ≡ ok a → P a

module _ {A : Type 0} (P : A → Type 0) where
  pub Returns-ok : (a : A) → P a → Returns P (ok a)
  Returns-ok a p = record { returns = λ b e. subst P (ok-injective e) p }

  pub Returns-bind_with :
      {B : Type 0} (Q : B → Type 0) (m : Result B) (f : B → Result A)
      → Returns Q m
      → ((b : B) → Q b → Returns P (f b))
      → Returns P (m >>= f)
  Returns-bind_with Q (ok b) f h k = k b (h.returns b refl)
  Returns-bind_with Q (err e) f h k = record { returns = λ a r. absurd (cc) }

  pub Returns-bind :
      {B : Type 0} (m : Result B) (f : B → Result A)
      → ((b : B) → Returns P (f b))
      → Returns P (m >>= f)
  Returns-bind (ok b) f k = k b
  Returns-bind (err e) f k = record { returns = λ a r. absurd (cc) }

behind-IsClean :
    (groups : List String) → IsClean groups → IsClean (groups ++ ("publicly_routable" ∷ []))
unfolding IsClean contains_char
behind-IsClean [] h = ((refl, (refl, (refl, (refl, (refl, (refl, tt)))))), tt)
behind-IsClean (g ∷ groups) (p, h) = (p, behind-IsClean groups h)

append-IsClean :
    (b : Bool) (groups : List String)
    → IsClean groups
    → IsClean (if b then groups ++ ("publicly_routable" ∷ []) else groups)
append-IsClean true groups clean = behind-IsClean groups clean
append-IsClean false groups clean = clean

abbrev pub IsCleanHost : Host → Type 0
IsCleanHost host = IsClean host.groups

-- The wrapper adds a clean name at most.
add_mantl_vars-IsClean : (host : Host) → IsCleanHost host → IsCleanHost (add_mantl_vars host)
unfolding add_mantl_vars
add_mantl_vars-IsClean host clean = append-IsClean _ host.groups clean

-- A parser that ends with a record around clean groups.
Returns-groups :
    (m : Result (List String)) (f : List String → Host)
    → Returns IsClean m
    → ((groups : List String) → (f groups).groups ≡ groups)
    → Returns IsCleanHost (m >>= λ groups. ok (f groups))
Returns-groups (ok groups) f h same =
    Returns-ok IsCleanHost (f groups) (subst IsClean (sym (same groups)) (h.returns groups refl))
Returns-groups (err e) f h same = record { returns = λ a r. absurd (cc) }

module _ (str_of : Value → String) where
  openstack_groups-IsClean :
      (image flavor metadata : Fields) (region : Value)
      → Returns IsClean (openstack_groups str_of image flavor metadata region)
  unfolding openstack_groups
  openstack_groups-IsClean image flavor metadata region =
      search (Returns-bind, Returns-ok, sanitize_groups-IsClean)

  parse_openstack_host-IsClean :
      (resource : Value) → Returns IsCleanHost (parse_openstack_host str_of resource)
  unfolding parse_openstack_host
  parse_openstack_host-IsClean resource =
      search (Returns-groups, openstack_groups-IsClean, Returns-bind, refl) depth 24

  pub openstack_host-IsClean :
      (resource : Value) → Returns IsCleanHost (openstack_host str_of resource)
  unfolding openstack_host
  openstack_host-IsClean resource =
      Returns-bind_with IsCleanHost IsCleanHost (parse_openstack_host str_of resource) _
        (parse_openstack_host-IsClean resource)
        (λ host clean.
          Returns-ok IsCleanHost (add_mantl_vars host) (add_mantl_vars-IsClean host clean))

  pub equinix_metal_device-IsClean :
      (resource : Value) → Returns IsCleanHost (equinix_metal_device str_of resource)
  unfolding equinix_metal_device
  equinix_metal_device-IsClean resource =
      search (Returns-bind, Returns-ok, sanitize_groups-IsClean) depth 24
