-- ===== src/Client/Fetch.antt =====
-- What the client reads (ociclient/client.go): blobs through the cache, manifests and artifacts.
pub mod Verified
pub mod Reads
use component_cli.Prelude.{
  ℕ, String, Bool, true, false, ◌||◌, Option, none, some, List, [], ◌∷◌, ◌++◌, ◌==◌, if◌then◌else◌,
}
use component_cli.Prelude.Result.{Error, not_found, invalid, wrap, Result, ok, err}
use component_cli.OciRef.{is_multi_arch_image, is_single_arch_image}
use component_cli.Oci.{Formats, Descriptor, Manifest, Index, Json}
use component_cli.Oci.Artifact.{
  ManifestData, IndexData, Artifact, new_manifest_artifact, new_index_artifact,
}
use component_cli.Client.{
  Caches, Remotes, State, Action, pull_scope, pure, raise, from, explain, check, ◌>>=◌, ◌>>◌,
}
use component_cli.Client.Transport.{normalize, get_resolver_for_ref}

abbrev pub is_v1_manifest : String → Bool
is_v1_manifest media_type =
    media_type == "application/vnd.docker.distribution.manifest.v1+json"
    || media_type == "application/vnd.docker.distribution.manifest.v1+prettyjws"

module _ (f : Formats) (c : Caches f) (r : Remotes f) where
  -- The cache's answer for a descriptor, with an error that it is not there where there is no cache.
  abbrev pub cached : Descriptor f → Action f c r (List ℕ)
  cached desc s = elim s.cache [
    | none ↦ (err not_found, s)
    | some cache ↦
        let (answer, cache') = c.get cache desc in (answer, record s { cache = some cache' })
  ]

  -- The end of `getFetchReader`, with the reader that a fetch has opened: it goes through the cache,
  -- and is fetched again where it cannot be added.
  unfoldable pub store_fetched :
      r.Transport → String → Descriptor f → Result (List ℕ) → Action f c r (Result (List ℕ))
  store_fetched trp ref desc reader s = elim s.cache [
    | none ↦ (ok reader, s)
    | some cache ↦
        let (failed, cache') = c.add cache desc reader in
        let (answer, cache'') = c.get cache' desc in
        elim failed [
          | some _ ↦ (r.fetch trp s.registry ref desc, record s { cache = some cache' })
          | none ↦ (
            elim answer [ ok bytes ↦ ok (ok bytes) | err e ↦ err e ],
            record s { cache = some cache'' },
          )
        ]
  ]

  -- `getFetchReader` behind the cache's miss.
  unfoldable pub fetch_remote : String → Descriptor f → Action f c r (Result (List ℕ))
  unfolding get_resolver_for_ref store_fetched
  fetch_remote ref desc = do
    trp ← from (get_resolver_for_ref f r ref (pull_scope ∷ []))
    _ ← check (r.fetcher trp ref)
    reader ← λ s. (r.fetch trp s.registry ref desc, s)
    store_fetched trp ref desc reader

  abbrev is_not_found : Error → Bool
  is_not_found not_found = true
  is_not_found _ = false

  -- `getFetchReader`: a reader, whose reading may fail.
  unfoldable pub get_fetch_reader : String → Descriptor f → Action f c r (Result (List ℕ))
  unfolding fetch_remote
  get_fetch_reader ref desc s =
      let (answer, s') = cached desc s in
      elim answer [
        | ok bytes ↦ (ok (ok bytes), s')
        | err e ↦ if is_not_found e then fetch_remote ref desc s' else (err e, s')
      ]

  -- `Fetch`: what it writes.
  unfoldable pub fetch : String → Descriptor f → Action f c r (List ℕ)
  unfolding normalize get_fetch_reader
  fetch ref desc = do
    name ← from (normalize f r ref)
    reader ← get_fetch_reader name desc
    from reader

  unfoldable pub resolve_ref : String → Action f c r (Descriptor f)
  unfolding get_resolver_for_ref
  resolve_ref ref = do
    trp ← from (get_resolver_for_ref f r ref (pull_scope ∷ []))
    λ s. (r.resolve trp s.registry ref, s)

  -- `Resolve`: the descriptor that it answers with.
  unfoldable pub resolve : String → Action f c r (Descriptor f)
  unfolding normalize resolve_ref
  resolve ref = do name ← from (normalize f r ref); resolve_ref name

  module _ (json : Json f) (convert : String → Descriptor f → Action f c r (Descriptor f)) where
    -- What GetRawManifest and GetOCIArtifact do first: a manifest of schema 1 is converted.
    unfoldable pub resolve_converted : String → Action f c r (Descriptor f)
    unfolding resolve_ref
    resolve_converted ref = do
      desc ← resolve_ref ref
      if is_v1_manifest desc.media_type
          then explain "unable to convert v1 manifest to v2" (convert ref desc)
          else pure desc

    -- `GetRawManifest`
    unfoldable pub get_raw_manifest : String → Action f c r (Descriptor f × List ℕ)
    unfolding normalize resolve_converted fetch
    get_raw_manifest ref = do
      name ← from (normalize f r ref)
      desc ← resolve_converted name
      if is_single_arch_image desc.media_type || is_multi_arch_image desc.media_type
          then (do raw ← fetch name desc; pure (desc, raw))
          else raise (invalid desc.media_type)

    -- `GetManifest`
    unfoldable pub get_manifest : String → Action f c r (Manifest f)
    unfolding get_raw_manifest
    get_manifest ref = do
      found ← explain "unable to get manifest" (get_raw_manifest ref)
      if is_single_arch_image found.0.media_type
          then explain "unable to unmarshal manifest" (from (json.unmarshal_manifest found.1))
          else raise (invalid found.0.media_type)

    fetch_manifest : String → Descriptor f → Action f c r (ManifestData f)
    unfolding fetch
    fetch_manifest ref desc = do
      bytes ← fetch ref desc
      manifest ← from (json.unmarshal_manifest bytes)
      pure (record { descriptor = desc; data' = manifest })

    -- The loop over the manifests of an index.
    unfoldable pub fetch_manifests :
        String → List (Descriptor f) → Action f c r (List (ManifestData f))
    unfolding fetch_manifest
    fetch_manifests ref [] = pure []
    fetch_manifests ref (desc ∷ descs) = do
      m ← fetch_manifest ref desc
      ms ← fetch_manifests ref descs
      pure (m ∷ ms)

    -- `GetOCIArtifact`, with the artifact that the new one is given by.
    unfoldable pub get_oci_artifact : String → Action f c r (Artifact f)
    unfolding normalize resolve_converted fetch_manifests new_manifest_artifact new_index_artifact
    get_oci_artifact ref = do
      name ← from (normalize f r ref)
      desc ← resolve_converted name
      bytes ← fetch name desc
      if is_multi_arch_image desc.media_type
          then (do
            index ← from (json.unmarshal_index bytes)
            manifests ← fetch_manifests name index.manifests
            let made =
                new_index_artifact f
                  (some (record { manifests = manifests; annotations = index.annotations }))
            _ ← check made.0
            pure made.1)
          else if is_single_arch_image desc.media_type
          then (do
            manifest ← from (json.unmarshal_manifest bytes)
            let made =
                new_manifest_artifact f (some (record { descriptor = desc; data' = manifest }))
            _ ← check made.0
            pure made.1)
          else raise (invalid desc.media_type)
