-- ===== src/Terraform/Flatten/Lists.antt =====
-- A list of texts that is flattened is read back.
use text.Mathlib.TextLemmas.{append_assoc}
use Prim.Native.String.append
use factory_pattern_design.Base.{
  ℕ, suc, ◌+◌, ◌≤◌, String, ◌<>◌, false, ◌≡◌, refl, sym, ◌∙◌, ap, none, some, Option, List, [], ◌∷◌,
  map, ◌=ₛ◌, arith, eq_iff, length, Bool-cases, inl, inr,
}
use factory_pattern_design.Base.Text.{contains_char}
use factory_pattern_design.Base.Decimal.{decimal, trailing_number}
use factory_pattern_design.Base.Decimal.Laws.{trailing-decimal, no_dot-decimal}
use factory_pattern_design.Base.Exec.{Outcome, returned, raised, pure, after}
use factory_pattern_design.Base.Result.{Error}
use factory_pattern_design.Yaml.{
  Value, str, num, list, dict, Items, nil, cons, Fields, end, field, has_key, insert, update,
  count_items,
}
use factory_pattern_design.Yaml.Joined.{joined, joined-end, joined_assoc, has_key-joined}
use factory_pattern_design.Terraform.Parse.{parse_list, second, split_once}
use factory_pattern_design.Terraform.Parse.Laws.{split_once-dot}
use factory_pattern_design.Terraform.Flatten.{
  counted, convert, convert_items, convert_to_v3_structure,
}
use factory_pattern_design.Terraform.Flatten.Paths.{
  dot, sub, prefixed, insert-prefixed, entries, entries-joined, parse_prefix-prefixed,
}

-- A list of texts, as the value of an attribute and as what a parser yields.
unfoldable pub text_items : List String → Items
text_items [] = nil
text_items (t ∷ ts) = cons (str t) (text_items ts)

unfoldable pub text_values : List String → List Value
text_values [] = []
text_values (t ∷ ts) = str t ∷ text_values ts

decimal-injective : (i j : ℕ) → decimal i ≡ decimal j → i ≡ j
decimal-injective i j e =
    let (m, p, _, q) = trailing-decimal i none in
    let (k, r, _, s) = trailing-decimal j none in
    ground (arith, q refl, s refl, ap (λ x. trailing_number none x) e)

-- The rest of the key of the item `i`.
abbrev indexed : ℕ → String → String
indexed i s = sub (decimal i) s

indexed-injective : (i j : ℕ) (s t : String) → indexed i s ≡ indexed j t → i ≡ j
indexed-injective i j s t e =
    let p = split_once-dot (decimal i) s (no_dot-decimal i) in
    let q = split_once-dot (decimal j) t (no_dot-decimal j) in
    let pair : ◌≡◌ {A = Option (String × String)} (some (decimal i, s)) (some (decimal j, t)) =
      sym p ∙ ap (λ x. split_once b'.' x) e ∙ q in
    decimal-injective i j (cc)

indexed-ne-hash : (i : ℕ) (s : String) → (indexed i s =ₛ "#") ≡ false
unfolding split_once
indexed-ne-hash i s = elim (Bool-cases (indexed i s =ₛ "#")) [
  | inl e ↦
      let p = split_once-dot (decimal i) s (no_dot-decimal i) in
      let apart : ◌≡◌ {A = Option (String × String)} none (some (decimal i, s)) =
        ap (λ x. split_once b'.' x) (sym ((eq_iff (indexed i s) "#").0 e)) ∙ p in
      cc
  | inr e ↦ e
]

-- No item from the index `i` on is there.
abbrev Fresh : ℕ → Fields → Type 0
Fresh i done = (j : ℕ) (s : String) → i ≤ j → has_key (indexed j s) done ≡ false

-- The key that the code builds for an item.
item_key :
    (path r : String) (i : ℕ) → (path <> ("." <> (decimal i <> "."))) <> r ≡ sub path (indexed i r)
item_key path r i =
    let d = decimal i in
    append_assoc path ("." <> (d <> ".")) r
    ∙ ap (λ x. path <> x)
        (append_assoc "." (d <> ".") r
          ∙ dot ((d <> ".") <> r)
          ∙ ap (λ x. String.◌∷◌ "." x) (append_assoc d "." r ∙ ap (λ x. d <> x) (dot r)))

Fresh-joined :
    (i : ℕ) (r : String) (v : Value) (done : Fields)
    → Fresh i done
    → Fresh (i + 1) (joined done (field (indexed i r) v end))
unfolding has_key
Fresh-joined i r v done fresh j s le = elim (Bool-cases (indexed i r =ₛ indexed j s)) [
  | inl e ↦
      let same = indexed-injective i j r s ((eq_iff (indexed i r) (indexed j s)).0 e) in
      absurd (omega arith)
  | inr e ↦ rw has_key-joined (rw (e, fresh j s (omega arith)))
]

bind-pure : (r : Outcome Error Fields) (n : ℕ) → after r pure n ≡ (r, n)
bind-pure (returned a) n = refl
bind-pure (raised e) n = refl

module _ (randint : ℕ → ℕ) where
  numbered : List String → ℕ → ℕ → Fields
  numbered [] i n = end
  numbered (t ∷ ts) i n =
      field (indexed i (decimal (randint n))) (str t) (numbered ts (i + 1) (suc n))

  convert_items-step :
      (s path : String) (vs : Items) (i n : ℕ) (result : Fields)
      → convert_items randint (cons (str s) vs) path i result n
        ≡ convert_items randint vs path
            (i + 1)
            (insert ((path <> ("." <> (decimal i <> "."))) <> decimal (randint n)) (str s) result)
            (suc n)
  unfolding convert update
  convert_items-step s path vs i n result = refl

  convert_items-nil :
      (path : String) (i n : ℕ) (result : Fields)
      → convert_items randint nil path i result n ≡ (returned result, n)
  unfolding convert
  convert_items-nil path i n result = refl

  convert_items-numbered :
      (path : String) (ts : List String) (i n : ℕ) (done : Fields)
      → Fresh i done
      → convert_items randint (text_items ts) path i (prefixed path done) n
        ≡ (returned (prefixed path (joined done (numbered ts i n))), n + length ts)
  unfolding text_items numbered joined
  convert_items-numbered path [] i n done fresh =
      let zero_more : n + 0 ≡ n = omega arith in rw (convert_items-nil, joined-end, zero_more)
  convert_items-numbered path (t ∷ ts) i n done fresh =
      let key = indexed i (decimal (randint n)) in
      let done' = joined done (field key (str t) end) in
      let one_more : n + suc (length ts) ≡ suc n + length ts = omega arith in
      convert_items-step t path (text_items ts) i n (prefixed path done)
      ∙ ap
          (λ k.
            convert_items randint (text_items ts) path (i + 1)
              (insert k (str t) (prefixed path done)) (suc n))
          (item_key path (decimal (randint n)) i)
      ∙ ap (λ x. convert_items randint (text_items ts) path (i + 1) x (suc n))
          (insert-prefixed path key (str t) done (fresh i (decimal (randint n)) (omega arith)))
      ∙ convert_items-numbered path ts (i + 1) (suc n) done'
          (Fresh-joined i (decimal (randint n)) (str t) done fresh)
      ∙ rw (joined_assoc, one_more)

  values-numbered :
      (ts : List String) (i n : ℕ) → map second (entries (numbered ts i n)) ≡ text_values ts
  unfolding entries numbered text_values
  values-numbered [] i n = refl
  values-numbered (t ∷ ts) i n =
      rw (indexed-ne-hash i (decimal (randint n)), values-numbered ts (i + 1) (suc n))

  counted-prefixed :
      (path : String) (ts : List String)
      → (done : Fields) × (counted (text_items ts) path end ≡ prefixed path done)
        × (entries done ≡ [])
        × Fresh 0 done
  unfolding counted text_items prefixed entries has_key insert
  counted-prefixed path [] = (end, refl, refl, λ j s le. refl)
  counted-prefixed path (t ∷ ts) = (
    field "#" (num (count_items (text_items (t ∷ ts)))) end,
    refl,
    refl,
    λ j s le.
        ground (arith, indexed-ne-hash j s, eq_iff "#" (indexed j s), eq_iff (indexed j s) "#"),
  )

  convert_list-step :
      (key : String) (vs : Items) (n : ℕ)
      → convert_to_v3_structure randint (dict (field key (list vs) end)) n
        ≡ convert_items randint vs key 0 (counted vs key end) n
  unfolding convert_to_v3_structure convert
  convert_list-step key vs n =
      let m = convert_items randint vs key 0 (counted vs key end) n in
      rw (append.nil key) (bind-pure m.0 m.1)

  -- A list of texts under a key without a dot is flattened with one random number for each text, and
  -- whatever the numbers are, `parse_list` reads the texts back in their order.
  pub parse_list-convert :
      (n : ℕ) (key : String) (ts : List String)
      → contains_char b'.' key ≡ false
      → (flat : Fields) × (convert_to_v3_structure randint
            (dict (field key (list (text_items ts)) end))
            n
          ≡ (returned flat, n + length ts))
        × (parse_list flat key b'.' ≡ text_values ts)
  unfolding parse_list
  parse_list-convert n key ts no_dot =
      let (done, start, none_read, fresh) = counted-prefixed key ts in
      let all = joined done (numbered ts 0 n) in
      (
        prefixed key all,
        convert_list-step key (text_items ts) n
            ∙ ap (λ x. convert_items randint (text_items ts) key 0 x n) start
            ∙ convert_items-numbered key ts 0 n done fresh,
        ap (λ x. map second x)
              (parse_prefix-prefixed key all no_dot ∙ entries-joined done (numbered ts 0 n))
            ∙ rw none_read (values-numbered ts 0 n),
      )
