-- ===== src/Scripts/DownloadHash/Faults.antt =====
-- What a run that raises has met.
use factory_pattern_design.Base.{String, ◌<>◌, ◌≡◌, List, [], ◌∷◌, inl, inr}
use factory_pattern_design.Base.Result.{Error, Result, err, bind-eq-err}
use factory_pattern_design.Yaml.{Value, put}
use factory_pattern_design.Scripts.DownloadHash.{
  World, architectures, downloads, fold, with_v, url_of, sha256sum, add_version, add_versions,
}

module _ (world : World) where
  -- The exception is that of the file, of a download, or of a document without a place for the hash.
  pub data Fault (e : Error) : Type 0 where
    unreadable : world.load ≡ err e → Fault e
    unwritable : world.open_for_writing ≡ err e → Fault e
    undownloaded : (url : String) → world.fetch url ≡ err e → Fault e
    misplaced :
        (download arch tag : String) (sum document : Value)
        → put ((download <> "_checksums") ∷ arch ∷ tag ∷ []) sum document ≡ err e
        → Fault e

  fold-Fault :
      {A S : Type 0} (body : A → S → Result S)
      → ((a : A) (s : S) (e : Error) → body a s ≡ err e → Fault e)
      → (items : List A) (s : S) (e : Error) → fold body items s ≡ err e
      → Fault e
  unfolding fold
  fold-Fault body h [] s e r = absurd (cc)
  fold-Fault body h (a ∷ items) s e r = elim (bind-eq-err (body a s) (fold body items) r) [
    | inl one ↦ h a s e one
    | inr (middle, _, rest) ↦ fold-Fault body h items middle e rest
  ]

  sha256sum-Fault :
      (download arch version : String) (e : Error)
      → sha256sum world download arch version ≡ err e
      → Fault e
  unfolding sha256sum
  sha256sum-Fault download arch version e r =
      elim (bind-eq-err (world.fetch (url_of download arch version)) _ r) [
        | inl f ↦ undownloaded (url_of download arch version) f
        | inr (_, _, absent) ↦ absurd (cc)
      ]

  add_version-Fault :
      (download arch version : String) (s : Value) (e : Error)
      → add_version world download arch version s ≡ err e
      → Fault e
  unfolding add_version
  add_version-Fault download arch version s e r =
      elim (bind-eq-err (sha256sum world download arch (with_v version)) _ r) [
        | inl f ↦ sha256sum-Fault download arch (with_v version) e f
        | inr (sum, _, f) ↦ misplaced download arch (with_v version) sum s f
      ]

  pub add_versions-Fault :
      (versions : List String) (s : Value) (e : Error)
      → add_versions world versions s ≡ err e
      → Fault e
  unfolding add_versions
  add_versions-Fault versions =
      fold-Fault _
        (λ download.
          fold-Fault _ (λ arch. fold-Fault _ (add_version-Fault download arch) versions)
            architectures)
        downloads
