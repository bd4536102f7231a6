-- ===== src/Scripts/Gitlab/Stale.antt =====
-- Which branches the clean-up deletes.
use mathlib.Core.List.{append-nil}
use factory_pattern_design.Base.{
  ℕ, String, Bool, true, false, not, ◌&&◌, ◌≡◌, refl, sym, some, List, [], ◌∷◌, ◌++◌, ◌=ₛ◌, ltb,
  starts_with, if◌then◌else◌,
}
use factory_pattern_design.Base.Exec.{Outcome, returned, raised, after, ◌>>=◌}
use factory_pattern_design.Base.Sweep.{Swept, turn, each-Swept}
use factory_pattern_design.Scripts.Gitlab.{
  Branch, Time, Stop, Gitlab, Settings, delete, is_before_limit, delete_if, clean_branch,
  getenv_token, main,
}

abbrev pub itself : Branch → Branch
itself b = b

module _ (settings : Settings) (gitlab : Gitlab) where
  -- What is no branch to keep, by its name and its marks.
  abbrev is_free : Branch → Bool
  is_free b = not b.protected && (not b.default && starts_with b.name settings.prefix)

  abbrev is_stale_at : Branch → Outcome Stop Time → Bool
  is_stale_at b (raised e) = false
  is_stale_at b (returned date) =
      date.has_zone && (ltb date.instant settings.limit && (is_free b && not settings.dry_run))

  -- A branch to delete: it has a time with a zone before the limit, is neither protected nor the
  -- default one, its name starts with the prefix, and this is no dry run.
  abbrev pub is_stale : Branch → Bool
  is_stale b = is_stale_at b (gitlab.fromisoformat b.created_at)

  decided :
      (b : Branch) (deleted : List Branch) (old free dry : Bool)
      → ((if old && free
            then (if dry then (λ s. (returned tt, s)) else delete settings gitlab b)
            else (λ s. (returned tt, s)))
          deleted).1
        ≡ deleted ++ (if old && (free && not dry) then b ∷ [] else [])
  unfolding delete
  decided b deleted true true true = sym (append-nil deleted)
  decided b deleted true true false = refl
  decided b deleted true false dry = sym (append-nil deleted)
  decided b deleted false free dry = sym (append-nil deleted)

  dated :
      (b : Branch) (deleted : List Branch) (zone : Bool) (instant : ℕ)
      → ((is_before_limit settings gitlab (record { instant = instant; has_zone = zone })
            >>= delete_if settings gitlab b)
          deleted).1
        ≡ deleted
          ++ (if is_stale_at b (returned (record { instant = instant; has_zone = zone }))
              then b ∷ []
              else [])
  unfolding is_before_limit delete_if
  dated b deleted true instant =
      decided b deleted (ltb instant settings.limit) (is_free b) settings.dry_run
  dated b deleted false instant = sym (append-nil deleted)

  read :
      (b : Branch) (deleted : List Branch) (r : Outcome Stop Time)
      → (after r
          (λ date. is_before_limit settings gitlab date >>= delete_if settings gitlab b)
          deleted).1
        ≡ deleted ++ (if is_stale_at b r then b ∷ [] else [])
  read b deleted (returned date) = dated b deleted date.has_zone date.instant
  read b deleted (raised e) = sym (append-nil deleted)

  clean_branch-turn :
      (b : Branch) (deleted : List Branch)
      → (clean_branch settings gitlab b deleted).1 ≡ deleted ++ turn is_stale itself b
  unfolding clean_branch
  clean_branch-turn b deleted = read b deleted (gitlab.fromisoformat b.created_at)

  -- With a token that the service accepts, a run deletes the branches of the project that have a time
  -- with a zone before the limit, are neither protected nor the default one and whose names start with
  -- the prefix, in the order of the project's list, and no others, and none in a dry run. It returns
  -- after the last branch, or raises, and then this holds of the branches up to the one it raised at.
  pub main-Swept :
      (token : String) (found : List Branch)
      → settings.token ≡ some token
      → (token =ₛ "") ≡ false
      → gitlab.auth ≡ returned tt
      → gitlab.branches ≡ returned found
      → Swept is_stale itself found [] (main settings gitlab [])
  unfolding main getenv_token
  main-Swept token found given filled known listed =
      rw (getenv_token, given, filled, known, listed)
        (each-Swept is_stale itself _ clean_branch-turn found [])
