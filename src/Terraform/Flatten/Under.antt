-- ===== src/Terraform/Flatten/Under.antt =====
-- The keys of what `convert` returns all have the prefix.
use text.Mathlib.TextLemmas.{append_assoc}
use factory_pattern_design.Base.{
  ℕ, suc, ◌+◌, String, ◌<>◌, true, ◌≡◌, refl, sym, ◌∙◌, ◌=ₛ◌, eq_iff, arith, Bool-cases, inl, inr,
}
use factory_pattern_design.Base.Decimal.{decimal}
use factory_pattern_design.Yaml.{
  Value, null, bool, num, str, list, dict, Items, nil, cons, Fields, end, field, has_key, insert,
  update,
}
use factory_pattern_design.Yaml.Laws.{has_key-insert}
use factory_pattern_design.Terraform.Flatten.{
  counted, copied, convert, convert_fields, convert_items,
}
use factory_pattern_design.Terraform.Flatten.Keys.{Gives, Gives-returned, Gives-raised, Gives-bind}

-- The key has the prefix.
abbrev pub Under : String → String → Type 0
Under prefix k = (s : String) × (prefix <> s ≡ k)

-- All keys have the prefix.
pub record AllUnder (prefix : String) (d : Fields) : Type 0 where
  pub under : (k : String) → has_key k d ≡ true → Under prefix k

Under-append : (prefix s k : String) → Under (prefix <> s) k → Under prefix k
Under-append prefix s k (t, p) = (s <> t, sym (append_assoc prefix s t) ∙ p)

AllUnder-append : (prefix s : String) (d : Fields) → AllUnder (prefix <> s) d → AllUnder prefix d
AllUnder-append prefix s d h = record { under = λ k e. Under-append prefix s k (h.under k e) }

module _ (prefix : String) where
  AllUnder-end : AllUnder prefix end
  unfolding has_key
  AllUnder-end = record { under = λ k e. cc }

  AllUnder-insert :
      (k : String) (v : Value) (d : Fields)
      → Under prefix k
      → AllUnder prefix d
      → AllUnder prefix (insert k v d)
  AllUnder-insert k v d (s, p) h = record {
    under = λ j e. elim (Bool-cases (k =ₛ j)) [
      | inl t ↦ (s, p ∙ (eq_iff k j).0 t)
      | inr f ↦ h.under j (ground (arith, has_key-insert j k v d))
    ];
  }

  AllUnder-one : (s : String) (v : Value) → AllUnder prefix (field (prefix <> s) v end)
  unfolding insert
  AllUnder-one s v = AllUnder-insert _ v end (s, refl) AllUnder-end

  AllUnder-update :
      (e d : Fields) → AllUnder prefix e → AllUnder prefix d → AllUnder prefix (update e d)
  unfolding update has_key
  AllUnder-update end d g h = h
  AllUnder-update (field k v e) d g h =
      AllUnder-update e (insert k v d) (record { under = λ j t. g.under j (ground (arith, t)) })
        (AllUnder-insert k v d (g.under k (ground (arith, eq_iff k k))) h)

  AllUnder-copied :
      (value : Fields) (key : String) (d : Fields)
      → AllUnder prefix d
      → AllUnder prefix (copied value (prefix <> key) d)
  unfolding copied
  AllUnder-copied end key d h = h
  AllUnder-copied (field k v value) key d h =
      AllUnder-copied value key _
        (AllUnder-insert _ v d (key <> ("." <> k), sym (append_assoc prefix key ("." <> k))) h)

  AllUnder-counted :
      (vs : Items) (key : String) (d : Fields)
      → AllUnder prefix d
      → AllUnder prefix (counted vs (prefix <> key) d)
  unfolding counted
  AllUnder-counted nil key d h = h
  AllUnder-counted (cons v vs) key d h =
      AllUnder-insert _ _ d (key <> ".#", sym (append_assoc prefix key ".#")) h

module _ (randint : ℕ → ℕ) where
  mutual
    unfolding convert convert_fields convert_items

    pub convert-AllUnder :
        (v : Value) (prefix : String) (n : ℕ) → Gives (AllUnder prefix) (convert randint v prefix n)
    convert-AllUnder (str s) prefix n =
        Gives-returned (AllUnder prefix) _ (suc n)
          (AllUnder-one prefix (decimal (randint n)) (str s))
    convert-AllUnder (dict d) prefix n =
        convert_fields-AllUnder d prefix end n (AllUnder-end prefix)
    convert-AllUnder null prefix n = Gives-raised (AllUnder prefix) _ n
    convert-AllUnder (bool b) prefix n = Gives-raised (AllUnder prefix) _ n
    convert-AllUnder (num k) prefix n = Gives-raised (AllUnder prefix) _ n
    convert-AllUnder (list vs) prefix n = Gives-raised (AllUnder prefix) _ n

    convert_fields-AllUnder :
        (d : Fields) (prefix : String) (result : Fields) (n : ℕ)
        → AllUnder prefix result
        → Gives (AllUnder prefix) (convert_fields randint d prefix result n)
    convert_fields-AllUnder end prefix result n u = Gives-returned (AllUnder prefix) result n u
    convert_fields-AllUnder (field key (list vs) d) prefix result n u =
        Gives-bind (AllUnder prefix) (AllUnder prefix) _ _
          (convert_items-AllUnder vs prefix key 0 _ n (AllUnder-counted prefix vs key result u))
          (λ more n' u'. convert_fields-AllUnder d prefix more n' u')
    convert_fields-AllUnder (field key (dict value) d) prefix result n u =
        convert_fields-AllUnder d prefix _ n (
          AllUnder-copied prefix value key _
            (AllUnder-insert prefix _ _ result (key <> ".%", refl) u))
    convert_fields-AllUnder (field key null d) prefix result n u =
        convert_fields-AllUnder d prefix _ n (AllUnder-insert prefix _ _ result (key, refl) u)
    convert_fields-AllUnder (field key (bool b) d) prefix result n u =
        convert_fields-AllUnder d prefix _ n (AllUnder-insert prefix _ _ result (key, refl) u)
    convert_fields-AllUnder (field key (num k) d) prefix result n u =
        convert_fields-AllUnder d prefix _ n (AllUnder-insert prefix _ _ result (key, refl) u)
    convert_fields-AllUnder (field key (str s) d) prefix result n u =
        convert_fields-AllUnder d prefix _ n (AllUnder-insert prefix _ _ result (key, refl) u)

    convert_items-AllUnder :
        (vs : Items) (prefix key : String) (i : ℕ) (result : Fields) (n : ℕ)
        → AllUnder prefix result
        → Gives (AllUnder prefix) (convert_items randint vs (prefix <> key) i result n)
    convert_items-AllUnder nil prefix key i result n u = Gives-returned (AllUnder prefix) result n u
    convert_items-AllUnder (cons v vs) prefix key i result n u =
        Gives-bind (AllUnder prefix) (AllUnder ((prefix <> key) <> ("." <> (decimal i <> ".")))) _ _
          (convert-AllUnder v _ n)
          (λ more n' u'. convert_items-AllUnder vs prefix key (i + 1) (update more result) n' (
            AllUnder-update prefix more result
              (AllUnder-append prefix key more (AllUnder-append (prefix <> key) _ more u')) u))
