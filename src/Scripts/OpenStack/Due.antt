-- ===== src/Scripts/OpenStack/Due.antt =====
-- When the clean-up acts on an item.
use factory_pattern_design.Base.{
  ℕ, true, false, ◌≡◌, refl, some, List, ◌=ₛ◌, ltb, Bool-cases, inl, inr, Option-cases,
}
use factory_pattern_design.Base.Exec.{pure, raise}
use factory_pattern_design.Scripts.OpenStack.{
  Item, Call, other, Cloud, Settings, call, parsed_time, act_if_old, fn_if_old,
}

module _ (settings : Settings) (cloud : Cloud) where
  -- The item is not the default one, and is older than allowed.
  pub record IsOld (item : Item) : Type 0 where
    pub named : (item.name =ₛ "default") ≡ false
    pub time : ℕ
    pub readable : cloud.strptime item.created_at ≡ some time
    pub before : ltb time settings.oldest_allowed ≡ true

  -- What `fn_if_old` does with an item.
  pub data Treated (fn : Item → Call) (item : Item) : Type 0 where
    unreadable :
        ((calls : List Call)
          → fn_if_old settings cloud fn item calls
            ≡ raise (other "time data does not match format") calls)
        → Treated fn item
    skipped :
        ((calls : List Call) → fn_if_old settings cloud fn item calls ≡ pure tt calls)
        → Treated fn item
    due :
        settings.dry_run ≡ false
        → IsOld item
        → ((calls : List Call)
            → fn_if_old settings cloud fn item calls ≡ call settings cloud (fn item) calls)
        → Treated fn item

  pub treated : (fn : Item → Call) (item : Item) → Treated fn item
  unfolding fn_if_old parsed_time act_if_old
  treated fn item = elim (Option-cases (cloud.strptime item.created_at)) [
    | inl e ↦ unreadable (λ calls. rw (parsed_time, e) refl)
    | inr (t, e) ↦ elim (Bool-cases (item.name =ₛ "default")) [
      | inl d ↦ skipped (λ calls. rw (parsed_time, e, d) refl)
      | inr d ↦ elim (Bool-cases (ltb t settings.oldest_allowed)) [
        | inl o ↦ elim (Bool-cases settings.dry_run) [
          | inl r ↦ skipped (λ calls. rw (parsed_time, e, d, o, r) refl)
          | inr r ↦
              due r (record { named = d; time = t; readable = e; before = o })
                (λ calls. rw (parsed_time, e, d, o, r) refl)
        ]
        | inr o ↦ skipped (λ calls. rw (parsed_time, e, d, o) refl)
      ]
    ]
  ]
