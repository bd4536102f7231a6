-- ===== src/Scripts/DownloadHash/Hashes.antt =====
-- What a run writes into the file.
use mathlib.Core.Path.{subst}
use text.Mathlib.TextLemmas.{append_cancel_right}
use factory_pattern_design.Base.{
  ℕ, String, ◌<>◌, ◌≡◌, refl, sym, ap, ◌∙◌, List, [], ◌∷◌, ◌++◌, All, true, false, ◌⊎◌, starts_with,
}
use factory_pattern_design.Base.Result.{Error, Result, ok, bind-eq-ok, ok-injective}
use factory_pattern_design.Base.Exec.{Outcome, returned, raised, lift, act, ◌>>◌}
use factory_pattern_design.Yaml.{Value, str, at}
use factory_pattern_design.Scripts.DownloadHash.{
  World, architectures, fold, with_v, url_of, sha256sum, add_version,
}
use factory_pattern_design.Scripts.DownloadHash.Faults.{Fault}
use factory_pattern_design.Scripts.DownloadHash.Paths.{at-put, at-put_keeps}

abbrev pub programs : List String
programs = "kubelet" ∷ "kubectl" ∷ "kubeadm" ∷ []

abbrev pub machines : List String
machines = "arm" ∷ "arm64" ∷ "amd64" ∷ "ppc64le" ∷ []

-- A loop establishes for every item what each turn establishes and the other turns keep.
module _ {A S : Type 0} (body : A → S → Result S) where
  pub fold-keeps :
      (Q : S → Type 0)
      → ((a : A) (s s' : S) → body a s ≡ ok s' → Q s → Q s')
      → (items : List A) (s s' : S) → fold body items s ≡ ok s'
      → Q s
      → Q s'
  unfolding fold
  fold-keeps Q kept [] s s' e q = subst Q (ok-injective e) q
  fold-keeps Q kept (a ∷ items) s s' e q =
      let (middle, one, rest) = bind-eq-ok (body a s) (fold body items) e in
      fold-keeps Q kept items middle s' rest (kept a s middle one q)

  pub fold-All :
      (Post : A → S → Type 0)
      → ((a : A) (s s' : S) → body a s ≡ ok s' → Post a s')
      → ((a b : A) (s s' : S) → body b s ≡ ok s' → Post a s → Post a s')
      → (items : List A) (s s' : S) → fold body items s ≡ ok s'
      → All (λ a. Post a s') items
  unfolding fold
  fold-All Post made kept [] s s' e = tt
  fold-All Post made kept (a ∷ items) s s' e =
      let (middle, one, rest) = bind-eq-ok (body a s) (fold body items) e in
      (
        fold-keeps (Post a) (kept a) items middle s' rest (made a s middle one),
        fold-All Post made kept items middle s' rest,
      )

path_parts :
    {a b c a' b' c' : String} → a ∷ b ∷ c ∷ [] ≡ a' ∷ b' ∷ c' ∷ [] → (a ≡ a') × (b ≡ b') × (c ≡ c')
path_parts e = (cc, cc, cc)

module _ (world : World) where
  abbrev path_of : String → String → String → List String
  path_of download arch version = (download <> "_checksums") ∷ arch ∷ with_v version ∷ []

  abbrev HasSum : Value → String → String → String → Type 0
  HasSum document download arch version =
      (content : String) × (world.fetch (url_of download arch (with_v version)) ≡ ok content)
      × (at (path_of download arch version) document ≡ ok (str (world.sha256 content)))

  -- The version with a `v` in front.
  abbrev pub IsTag : String → String → Type 0
  IsTag version tag =
      ((starts_with version "v" ≡ true) × (tag ≡ version))
      ⊎ ((starts_with version "v" ≡ false) × (tag ≡ "v" <> version))

  -- The document has, under the name of the program, the architecture and the version with a `v`, the
  -- hash of what is downloaded for them.
  abbrev pub HasHash : Value → String → String → String → Type 0
  HasHash document download arch version =
      (tag : String) × (content : String) × IsTag version tag
      × (world.fetch (
            "https://storage.googleapis.com/kubernetes-release/release/" <> tag <> "/bin/linux/"
            <> arch <> "/" <> download)
          ≡ ok content)
      × (at ((download <> "_checksums") ∷ arch ∷ tag ∷ []) document
          ≡ ok (str (world.sha256 content)))

  fetched :
      (download arch version : String) (sum : Value)
      → sha256sum world download arch version ≡ ok sum
      → (content : String) × (world.fetch (url_of download arch version) ≡ ok content)
        × (sum ≡ str (world.sha256 content))
  unfolding sha256sum
  fetched download arch version sum e =
      let (content, got, e') = bind-eq-ok (world.fetch (url_of download arch version)) _ e in
      (content, got, sym (ok-injective e'))

  made :
      (download arch version : String) (s s' : Value)
      → add_version world download arch version s ≡ ok s'
      → HasSum s' download arch version
  unfolding add_version
  made download arch version s s' e =
      let (sum, hashed, set) = bind-eq-ok (sha256sum world download arch (with_v version)) _ e in
      let (content, got, same) = fetched download arch (with_v version) sum hashed in
      (content, got, at-put (path_of download arch version) sum s s' set ∙ ap ok same)

  -- The content is that of the path, for a path determines what is downloaded.
  same_sum :
      (download arch v download' arch' v' : String) (content : String) (sum' : Value)
      → world.fetch (url_of download arch v) ≡ ok content
      → sha256sum world download' arch' v' ≡ ok sum'
      → download ≡ download'
      → arch ≡ arch'
      → v ≡ v'
      → str (world.sha256 content) ≡ sum'
  same_sum download arch v download' arch' v' content sum' got hashed d a w =
      let (content', got', same) = fetched download' arch' v' sum' hashed in cc

  kept :
      (download arch version download' arch' version' : String) (s s' : Value)
      → add_version world download' arch' version' s ≡ ok s'
      → HasSum s download arch version
      → HasSum s' download arch version
  unfolding add_version
  kept download arch version download' arch' version' s s' e (content, got, there) =
      let (sum', hashed, set) =
        bind-eq-ok (sha256sum world download' arch' (with_v version')) _ e in
      (
        content,
        got,
        at-put_keeps (path_of download arch version) (path_of download' arch' version') sum'
            (str (world.sha256 content)) s s' set there refl
            (λ same.
              let (d, a, v) = path_parts same in
              same_sum download arch (with_v version) download' arch' (with_v version') content sum'
                got hashed (append_cancel_right download download' "_checksums" d) a v),
      )

  module _ (versions : List String) where
    abbrev ArchDone : String → String → Value → Type 0
    ArchDone download arch s = All (HasSum s download arch) versions

    abbrev DownloadDone : String → Value → Type 0
    DownloadDone download s = All (λ arch. ArchDone download arch s) architectures

    -- How a run ends: with one document written that has the hash of each download, for each
    -- architecture and version, or with an exception that has one of the causes in `Fault`, and nothing
    -- written.
    pub data Ends (before : List Value) (end : Outcome Error ℕ × List Value) : Type 0 where
      saved :
          (updated : Value)
          → end ≡ (returned 0, before ++ (updated ∷ []))
          → All
              (λ download. All (λ arch. All (HasHash updated download arch) versions) machines)
              programs
          → Ends before end
      stopped : (e : Error) → Fault world e → end ≡ (raised e, before) → Ends before end

    abbrev writing : Result (Unit {0}) → Value → List Value → Outcome Error Unit × List Value
    writing opened updated = lift opened >> act updated
