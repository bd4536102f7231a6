-- ===== src/Scripts/Gitlab.antt =====
-- scripts/gitlab-branch-cleanup/main.py. The service is the record `Gitlab`: whether a deletion
-- succeeds may depend on the deletions before, which are the state. What is printed is left out.
pub mod Stale
use factory_pattern_design.Base.{
  ℕ, String, Bool, not, ◌&&◌, Option, none, some, List, [], ◌∷◌, ◌++◌, ◌=ₛ◌, if◌then◌else◌, ltb,
  starts_with,
}
use factory_pattern_design.Base.Exec.{Outcome, Exec, pure, raise, each, ◌>>=◌, ◌>>◌}

pub record Branch : Type 0 where
  pub name : String
  pub created_at : String
  pub protected : Bool
  pub default : Bool

-- A `datetime`: the instant, and whether it has a zone.
pub record Time : Type 0 where
  pub instant : ℕ
  pub has_zone : Bool

pub data Stop : Type 0 where
  exit : ℕ → Stop
  failure : String → Stop

pub record Gitlab : Type 0 where
  pub auth : Outcome Stop Unit
  pub branches : Outcome Stop (List Branch)
  pub fromisoformat : String → Outcome Stop Time
  pub delete : Branch → List Branch → Outcome Stop Unit

-- The arguments, the token of the environment, and the limit that is computed from the age.
pub record Settings : Type 0 where
  pub prefix : String
  pub dry_run : Bool
  pub token : Option String
  pub limit : ℕ

abbrev pub Run : Type 0 → Type 0
Run A = Exec Stop (List Branch) A

module _ (settings : Settings) (gitlab : Gitlab) where
  unfoldable pub delete : Branch → Run Unit
  delete b deleted = (gitlab.delete b deleted, deleted ++ (b ∷ []))

  -- `date < limit`: the limit has a zone.
  unfoldable pub is_before_limit : Time → Run Bool
  is_before_limit date =
      if date.has_zone
      then pure (ltb date.instant settings.limit)
      else raise (failure "can't compare offset-naive and offset-aware datetimes")

  unfoldable pub delete_if : Branch → Bool → Run Unit
  unfolding delete
  delete_if b old =
      if old && (not b.protected && (not b.default && starts_with b.name settings.prefix))
      then (if settings.dry_run then pure tt else delete b)
      else pure tt

  unfoldable pub clean_branch : Branch → Run Unit
  unfolding is_before_limit delete_if
  clean_branch b = do
    date ← λ deleted. (gitlab.fromisoformat b.created_at, deleted)
    old ← is_before_limit date
    delete_if b old

  -- `os.getenv('GITLAB_API_TOKEN', '')`
  unfoldable pub getenv_token : String
  getenv_token = elim settings.token [ none ↦ "" | some token ↦ token ]

  unfoldable pub main : Run Unit
  unfolding clean_branch getenv_token
  main = if getenv_token =ₛ "" then raise (exit 2) else do
    (λ deleted. (gitlab.auth, deleted))
    found ← λ deleted. (gitlab.branches, deleted)
    each clean_branch found
