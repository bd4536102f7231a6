-- ===== src/Scripts/DownloadHash.antt =====
-- scripts/download_hash.py. The loaded file, the downloads, the hash and the opening of the file for
-- writing are parameters, the record `World`: a download has the same content each time. The
-- documents that are dumped are the state; what is printed is left out.
pub mod Paths
pub mod Faults
pub mod Hashes
use factory_pattern_design.Base.{ℕ, String, ◌<>◌, List, [], ◌∷◌, if◌then◌else◌, starts_with}
use factory_pattern_design.Base.Result.{Error, Result, ok, bind}
use factory_pattern_design.Base.Exec.{Exec, pure, lift, act, ◌>>◌, ◌>>=◌}
use factory_pattern_design.Yaml.{Value, str, put}

pub record World : Type 0 where
  pub load : Result Value
  pub fetch : String → Result String
  pub sha256 : String → String
  pub open_for_writing : Result (Unit {0})

abbrev pub architectures : List String
architectures = "arm" ∷ "arm64" ∷ "amd64" ∷ "ppc64le" ∷ []

abbrev pub downloads : List String
downloads = "kubelet" ∷ "kubectl" ∷ "kubeadm" ∷ []

-- `for a in items: s = body(a, s)`
unfoldable pub fold : {A S : Type 0} → (A → S → Result S) → List A → S → Result S
fold body [] s = ok s
fold body (a ∷ items) s = bind (body a s) (fold body items)

unfoldable pub with_v : String → String
with_v version = if starts_with version "v" then version else "v" <> version

unfoldable pub url_of : String → String → String → String
url_of download arch version =
    "https://storage.googleapis.com/kubernetes-release/release/" <> version <> "/bin/linux/" <> arch
    <> "/" <> download

module _ (world : World) where
  unfoldable pub sha256sum : String → String → String → Result Value
  unfolding url_of
  sha256sum download arch version =
      bind (world.fetch (url_of download arch version)) λ content. ok (str (world.sha256 content))

  -- One turn of the three loops.
  unfoldable pub add_version : String → String → String → Value → Result Value
  unfolding sha256sum with_v
  add_version download arch version loaded =
      let v = with_v version in
      bind (sha256sum download arch v)
        λ sum. put ((download <> "_checksums") ∷ arch ∷ v ∷ []) sum loaded

  unfoldable pub add_versions : List String → Value → Result Value
  unfolding fold add_version
  add_versions versions =
      fold (λ download. fold (λ arch. fold (add_version download arch) versions) architectures)
        downloads

  unfoldable pub download_hash : List String → Exec Error (List Value) Unit
  unfolding add_versions
  download_hash versions = do
    loaded ← lift world.load
    updated ← lift (add_versions versions loaded)
    lift world.open_for_writing
    act updated

  -- `main(argv)` with the arguments of the program; no list is the empty list.
  unfoldable pub main : List String → List String → Exec Error (List Value) ℕ
  unfolding download_hash
  main [] [] = pure 1
  main [] (v ∷ versions) = download_hash (v ∷ versions) >> pure 0
  main (v ∷ versions) sys_argv = download_hash (v ∷ versions) >> pure 0
