-- ===== src/Inventory/Ranges/Laws.antt =====
-- Which addresses a range stands for, and that arguments are expanded one by one.
use mathlib.Core.List.{append_assoc, append-nil}
use factory_pattern_design.Base.{
  ℕ, zero, suc, ◌+◌, ◌-◌, String, ◌≡◌, refl, ◌∙◌, sym, none, some, List, [], ◌∷◌, ◌++◌, map, arith,
  ap, ltb, if◌then◌else◌, length, length-map, get_elem?,
}
use factory_pattern_design.Base.Result.{Result, ok, err, ◌>>=◌}
use factory_pattern_design.Inventory.Ranges.{
  Addresses, numbers_from, ips, expand, range2ips_onto, range2ips,
}

length-numbers_from : (start count : ℕ) → length (numbers_from start count) ≡ count
unfolding numbers_from
length-numbers_from start zero = refl
length-numbers_from start (suc count) = omega (arith, length-numbers_from (suc start) count)

get_elem?-numbers_from :
    (f : ℕ → String) (start count k : ℕ)
    → get_elem? (map f (numbers_from start count)) k
      ≡ (if ltb k count then some (f (start + k)) else none)
unfolding numbers_from
get_elem?-numbers_from f start zero k = ground arith
get_elem?-numbers_from f start (suc count) zero =
    let e : start + 0 ≡ start = omega arith in ground (arith, ap f (sym e))
get_elem?-numbers_from f start (suc count) (suc k) =
    let e : f (start + suc k) ≡ f (suc start + k) = ap f (omega arith) in
    ground (arith, get_elem?-numbers_from f (suc start) count k, e)

regroup :
    (r : Result (List String)) (acc more : List String)
    → (r >>= λ xs. ok ((acc ++ more) ++ xs))
      ≡ ((r >>= λ xs. ok (more ++ xs)) >>= λ ys. ok (acc ++ ys))
regroup (ok xs) acc more = rw append_assoc
regroup (err e) acc more = refl

module _ (lib : Addresses) where
  -- A range between the addresses of the numbers `m` and `n`, both well formed, stands for a list
  -- of `n + 1 - m` addresses (none where `n` is below `m`), of which the one at the place `k` is
  -- the address of the number `m + k`.
  pub ips-lem :
      (a b : String) (m n k : ℕ)
      → lib.parse a ≡ some m
      → lib.parse b ≡ some n
      → (xs : List String) × (ips lib a b ≡ some xs)
        × (length xs ≡ n + 1 - m)
        × (get_elem? xs k ≡ (if ltb k (n + 1 - m) then some (lib.exploded (m + k)) else none))
  unfolding ips
  ips-lem a b m n k p q = (
    map lib.exploded (numbers_from m (n + 1 - m)),
    ground arith,
    length-map lib.exploded (numbers_from m (n + 1 - m)) ∙ length-numbers_from m (n + 1 - m),
    get_elem?-numbers_from lib.exploded m (n + 1 - m) k,
  )

  reassociate :
      (r : Result (List String)) (acc hosts : List String)
      → ((more : List String)
          → range2ips_onto lib (acc ++ more) hosts
            ≡ (range2ips_onto lib [] hosts >>= λ xs. ok ((acc ++ more) ++ xs)))
      → ((more : List String)
          → range2ips_onto lib more hosts ≡ (range2ips_onto lib [] hosts >>= λ xs. ok (more ++ xs)))
      → (r >>= λ more. range2ips_onto lib (acc ++ more) hosts)
        ≡ ((r >>= λ more. range2ips_onto lib more hosts) >>= λ xs. ok (acc ++ xs))
  reassociate (ok more) acc hosts h g =
      h more
      ∙ regroup (range2ips_onto lib [] hosts) acc more
      ∙ ap (λ r. r >>= λ ys. ok (acc ++ ys)) (sym (g more))
  reassociate (err e) acc hosts h g = refl

  onto-nil :
      (acc hosts : List String)
      → range2ips_onto lib acc hosts ≡ (range2ips_onto lib [] hosts >>= λ xs. ok (acc ++ xs))
  unfolding range2ips_onto
  onto-nil acc [] = rw append-nil
  onto-nil acc (host ∷ hosts) =
      reassociate (expand lib host) acc hosts (λ more. onto-nil (acc ++ more) hosts)
        (λ more. onto-nil more hosts)

  bind_onto :
      (r : Result (List String)) (acc xs ys : List String)
      → ((more : List String)
          → range2ips_onto lib (acc ++ more) (xs ++ ys)
            ≡ (range2ips_onto lib (acc ++ more) xs >>= λ a. range2ips_onto lib a ys))
      → (r >>= λ more. range2ips_onto lib (acc ++ more) (xs ++ ys))
        ≡ ((r >>= λ more. range2ips_onto lib (acc ++ more) xs) >>= λ a. range2ips_onto lib a ys)
  bind_onto (ok more) acc xs ys h = h more
  bind_onto (err e) acc xs ys h = refl

  onto-append :
      (acc xs ys : List String)
      → range2ips_onto lib acc (xs ++ ys)
        ≡ (range2ips_onto lib acc xs >>= λ a. range2ips_onto lib a ys)
  unfolding range2ips_onto
  onto-append acc [] ys = refl
  onto-append acc (host ∷ xs) ys =
      bind_onto (expand lib host) acc xs ys (λ more. onto-append (acc ++ more) xs ys)

  chain :
      (r : Result (List String)) (ys : List String)
      → (r >>= λ a. range2ips_onto lib a ys) ≡ (r >>= λ a. range2ips lib ys >>= λ b. ok (a ++ b))
  unfolding range2ips
  chain (ok a) ys = onto-nil a ys
  chain (err e) ys = refl

  -- Arguments are expanded one by one and in order: two lists of arguments in a row give what the
  -- first gives followed by what the second gives, and raise what the first of them to raise does.
  pub range2ips-append :
      (xs ys : List String)
      → range2ips lib (xs ++ ys) ≡ (range2ips lib xs >>= λ a. range2ips lib ys >>= λ b. ok (a ++ b))
  unfolding range2ips
  range2ips-append xs ys = onto-append [] xs ys ∙ chain (range2ips_onto lib [] xs) ys
