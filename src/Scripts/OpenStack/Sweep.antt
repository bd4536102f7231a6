-- ===== src/Scripts/OpenStack/Sweep.antt =====
-- What a sweep over a listing deletes.
use factory_pattern_design.Base.Exec.{returned, pure}
use factory_pattern_design.Base.{
  ℕ, true, [], ◌∷◌, ap, refl, if◌then◌else◌, Bool, false, not, ◌&&◌, ◌≡◌, refl, sym, none, some,
  List, ◌++◌, ◌=ₛ◌, ltb, inl, inr, Option-cases,
}
use mathlib.Core.List.{append-nil}
use factory_pattern_design.Base.Sweep.{Swept, turn, each-Swept}
use factory_pattern_design.Scripts.OpenStack.{
  Item, Call, Cloud, Settings, parsed_time, act_if_old, fn_if_old, map_if_old, call,
}

module _ (settings : Settings) (cloud : Cloud) where
  -- An item to delete: older than allowed, not named "default", and no dry run.
  abbrev pub is_due : Item → Bool
  is_due item = elim (cloud.strptime item.created_at) [
    | none ↦ false
    | some t ↦
        not (item.name =ₛ "default") && (ltb t settings.oldest_allowed && not settings.dry_run)
  ]

  -- The three tests of an item, and what is left of it.
  acted :
      (c : Call) (calls : List Call) (default old dry : Bool)
      → (if default
            then pure tt
            else if old
            then (if dry then pure tt else call settings cloud c)
            else pure tt)
          calls
        ≡ (
          if not default && (old && not dry) then cloud.perform c calls else returned tt,
          calls ++ (if not default && (old && not dry) then c ∷ [] else []),
        )
  unfolding call
  acted c calls true old dry = ap (λ s. (returned tt, s)) (sym (append-nil calls))
  acted c calls false false dry = ap (λ s. (returned tt, s)) (sym (append-nil calls))
  acted c calls false true true = ap (λ s. (returned tt, s)) (sym (append-nil calls))
  acted c calls false true false = refl

  -- An item whose time can be read.
  pub fn_if_old-read :
      (fn : Item → Call) (item : Item) (calls : List Call) (t : ℕ)
      → cloud.strptime item.created_at ≡ some t
      → fn_if_old settings cloud fn item calls ≡ (
        if is_due item then cloud.perform (fn item) calls else returned tt,
        calls ++ turn is_due fn item,
      )
  unfolding fn_if_old parsed_time act_if_old
  fn_if_old-read fn item calls t e =
      rw (parsed_time, turn, is_due, e)
        (acted (fn item) calls (item.name =ₛ "default") (ltb t settings.oldest_allowed)
          settings.dry_run)

  fn_if_old-turn :
      (fn : Item → Call) (item : Item) (calls : List Call)
      → (fn_if_old settings cloud fn item calls).1 ≡ calls ++ turn is_due fn item
  unfolding fn_if_old parsed_time
  fn_if_old-turn fn item calls = elim (Option-cases (cloud.strptime item.created_at)) [
    | inl e ↦ rw (parsed_time, turn, is_due, e) (sym (append-nil calls))
    | inr (t, e) ↦ ap (λ p. p.1) (fn_if_old-read fn item calls t e)
  ]

  -- A sweep over a listing calls `fn` for each item that is older than allowed and not named
  -- "default", in the order of the listing and for no other, and for none in a dry run. It returns
  -- after the last item, or raises, and then this holds of the items up to the one that it raised at.
  pub map_if_old-Swept :
      (fn : Item → Call) (items : List Item) (calls : List Call)
      → Swept is_due fn items calls (map_if_old settings cloud fn items calls)
  unfolding map_if_old
  map_if_old-Swept fn items calls = each-Swept is_due fn _ (fn_if_old-turn fn) items calls
