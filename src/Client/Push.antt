-- ===== src/Client/Push.antt =====
-- What the client uploads (ociclient/client.go): blobs, manifests with their config and layers, and
-- image indexes with their manifests.
pub mod Uploads
pub mod Complete
pub mod Indexes
use component_cli.Prelude.{
  ℕ, String, Bool, true, false, ◌||◌, Option, none, some, List, [], ◌∷◌, nat_eq, if◌then◌else◌,
}
use component_cli.Prelude.Result.{Error, invalid, wrap, Result, ok, err}
use component_cli.OciRef.{is_multi_arch_image, is_single_arch_image}
use component_cli.Oci.{Formats, Descriptor, Manifest, Index, Json, describe}
use component_cli.Oci.Artifact.{ManifestData, IndexData, Artifact}
use component_cli.Client.{
  Caches, Remotes, Upload, exists, refused, writing, State, Action, push_scope, pure, raise, from,
  explain, check, ◌>>=◌, ◌>>◌,
}
use component_cli.Client.Transport.{normalize, get_resolver_for_ref}

abbrev dummy_config : List ℕ
dummy_config = b'{' ∷ b'}' ∷ []

-- `CreateDescriptorFromManifest` sets the schema version of its manifest.
abbrev pub with_version : {f : Formats} → Manifest f → Manifest f
with_version m = record m {
  schema_version = if nat_eq m.schema_version 0 then 2 else m.schema_version;
}

module _ (f : Formats) (c : Caches f) (r : Remotes f) where
  -- `Store`: where an upload reads its blobs. `none` of the option is a store that is nil.
  pub data Store : Type 0 where
    client_cache : Store
    temp_cache : Store
    custom : (Descriptor f → Action f c r (List ℕ)) → Store

  abbrev opened : Result (List ℕ) → Result (Result (List ℕ))
  opened (ok bytes) = ok (ok bytes)
  opened (err e) = err e

  -- `Get` of a store: a reader, whose reading may fail. A custom store answers at once with a reader.
  unfoldable pub store_get : Store → Descriptor f → Action f c r (Result (List ℕ))
  store_get client_cache desc s = elim s.cache [
    | none ↦ (err (invalid "no store"), s)
    | some cache ↦
        let (answer, cache') = c.get cache desc in (opened answer, record s { cache = some cache' })
  ]
  store_get temp_cache desc s = elim s.cache [
    | none ↦ let (answer, temp') = c.get s.temp desc in (opened answer, record s { temp = temp' })
    | some cache ↦
        let (answer, cache') = c.get cache desc in (opened answer, record s { cache = some cache' })
  ]
  store_get (custom get) desc s = let (content, s') = get desc s in (ok content, s')

  -- `tempCache.Add`: the client's cache where there is one.
  unfoldable pub temp_add : Descriptor f → List ℕ → Action f c r (Unit {0})
  temp_add desc bytes s = elim s.cache [
    | none ↦
        let (failed, temp') = c.add s.temp desc (ok bytes) in
        check failed (record s { temp = temp' })
    | some cache ↦
        let (failed, cache') = c.add cache desc (ok bytes) in
        check failed (record s { cache = some cache' })
  ]

  -- A push makes a new cache in memory where the client has none.
  abbrev pub new_temp : Action f c r (Unit {0})
  new_temp s = (ok tt, record s { temp = c.new_in_memory })

  -- `opts.Store = c.cache`, which is nil where the client has no cache
  abbrev default_store : State f c r → Option Store
  default_store s = elim s.cache [ none ↦ none | some _ ↦ some client_cache ]

  -- The upload of a blob to the registry.
  unfoldable pub upload :
      r.Transport → String → Descriptor f → Result (List ℕ) → Action f c r (Unit {0})
  upload trp ref desc content s = elim (r.push trp s.registry ref desc) [
    | exists ↦ (ok tt, s)
    | refused e ↦ (err e, s)
    | writing ↦ elim content [
      | err e ↦ (err e, s)
      | ok bytes ↦
          let (failed, registry') = r.commit trp s.registry ref desc bytes in
          check failed (record s { registry = registry' })
    ]
  ]

  -- `pushContent`
  unfoldable pub push_content :
      r.Transport → String → Option Store → Descriptor f → Action f c r (Unit {0})
  unfolding store_get upload
  push_content trp ref none desc = raise (invalid "a store is needed to upload content")
  push_content trp ref (some store) desc = do
    content ← store_get store desc
    upload trp ref desc content

  -- The dummy config of a manifest that has none.
  unfoldable pub push_dummy_config : r.Transport → String → Action f c r (Unit {0})
  unfolding temp_add push_content
  push_dummy_config trp ref = do
    let desc = describe f "application/json" dummy_config
    _ ← explain "unable to add dummy config to cache" (temp_add desc dummy_config)
    explain "unable to push dummy config" (push_content trp ref (some temp_cache) desc)

  unfoldable pub push_config :
      r.Transport → String → Option Store → Manifest f → Action f c r (Unit {0})
  unfolding push_dummy_config
  push_config trp ref store m =
      if nat_eq m.config.size 0
      then push_dummy_config trp ref
      else explain "unable to push config" (push_content trp ref store m.config)

  unfoldable pub push_layers :
      r.Transport → String → Option Store → List (Descriptor f) → Action f c r (Unit {0})
  unfolding push_content
  push_layers trp ref store [] = pure tt
  push_layers trp ref store (layer ∷ layers) = do
    _ ← explain "unable to push layer" (push_content trp ref store layer)
    push_layers trp ref store layers

  -- The end of an upload of a manifest or an index: its bytes go through the temporary cache.
  unfoldable pub push_bytes : r.Transport → String → Descriptor f → List ℕ → Action f c r (Unit {0})
  unfolding temp_add push_content
  push_bytes trp ref desc bytes = do
    _ ← explain "unable to add manifest to cache" (temp_add desc bytes)
    explain "unable to push manifest" (push_content trp ref (some temp_cache) desc)

  -- The resolver and the pusher for a reference.
  unfoldable pub pusher_for : String → Action f c r r.Transport
  unfolding get_resolver_for_ref
  pusher_for ref = do
    trp ← from (get_resolver_for_ref f r ref (push_scope ∷ []))
    _ ← check (r.pusher trp ref)
    pure trp

  -- `PushBlob`: `store` is the option that the caller gives, if it gives one.
  unfoldable pub push_blob : String → Descriptor f → Option Store → Action f c r (Unit {0})
  unfolding normalize pusher_for push_content
  push_blob ref desc store s =
      (do
        name ← from (normalize f r ref)
        trp ← pusher_for name
        push_content trp name (elim store [ none ↦ default_store s | some t ↦ some t ]) desc)
        s

  module _ (json : Json f) where
    -- `CreateDescriptorFromManifest`
    unfoldable pub create_descriptor_from_manifest : Manifest f → Result (Descriptor f)
    create_descriptor_from_manifest m = elim (json.marshal_manifest (with_version m)) [
      | err e ↦ err e
      | ok bytes ↦ ok (describe f "application/vnd.oci.image.manifest.v1+json" bytes)
    ]

    -- The end of `pushManifest`: the manifest is described, encoded and uploaded.
    unfoldable pub push_described : r.Transport → String → Manifest f → Action f c r (Descriptor f)
    unfolding create_descriptor_from_manifest push_bytes
    push_described trp ref m = do
      desc ←
          explain "unable to create manifest descriptor" (from (create_descriptor_from_manifest m))
      bytes ← explain "unable to marshal manifest" (from (json.marshal_manifest (with_version m)))
      _ ← push_bytes trp ref desc bytes
      pure desc

    -- `pushManifest`
    unfoldable pub push_manifest :
        r.Transport → String → Option Store → Manifest f → Action f c r (Descriptor f)
    unfolding push_config push_layers push_described
    push_manifest trp ref store m = do
      _ ← push_config trp ref store m
      _ ← push_layers trp ref store m.layers
      push_described trp ref m

    -- The loop of `pushImageIndex`: the descriptors of the pushed manifests.
    unfoldable pub push_manifests :
        r.Transport
        → String
        → Option Store
        → List (ManifestData f)
        → Action f c r (List (Descriptor f))
    unfolding push_manifest
    push_manifests trp ref store [] = pure []
    push_manifests trp ref store (m ∷ ms) = do
      desc ← explain "unable to upload manifest" (push_manifest trp ref store m.data')
      descs ← push_manifests trp ref store ms
      pure (
          record desc { platform = m.descriptor.platform; annotations = m.descriptor.annotations }
          ∷ descs)

    -- `pushImageIndex`
    unfoldable pub push_image_index :
        r.Transport → String → Option Store → IndexData f → Action f c r (Unit {0})
    unfolding push_manifests temp_add push_content
    push_image_index trp ref store index = do
      descs ← push_manifests trp ref store index.manifests
      bytes ← from (
          json.marshal_index
            (record { schema_version = 2; manifests = descs; annotations = index.annotations }))
      let desc = describe f "application/vnd.oci.image.index.v1+json" bytes
      _ ← temp_add desc bytes
      explain "unable to push image index" (push_content trp ref (some temp_cache) desc)

    -- `PushOCIArtifact`. An artifact that is neither a manifest nor an index makes it panic: `none`.
    unfoldable pub push_oci_artifact :
        String → Artifact f → Option Store → State f c r → Option (Result (Unit {0}) × State f c r)
    unfolding normalize pusher_for push_manifest push_image_index
    push_oci_artifact ref artifact store s =
        let chosen : Option Store = elim store [ none ↦ default_store s | some t ↦ some t ] in
        elim (normalize f r ref) [
          | err e ↦ some (err e, s)
          | ok name ↦
              let (target, s') = pusher_for name (record s { temp = c.new_in_memory }) in
              elim target [
                | err e ↦ some (err e, s')
                | ok trp ↦ elim artifact.manifest [
                  | some m ↦ some ((do _ ← push_manifest trp name chosen m.data'; pure tt) s')
                  | none ↦ elim artifact.index [
                    | some i ↦ some (push_image_index trp name chosen i s')
                    | none ↦ none
                  ]
                ]
              ]
        ]

    -- The part of `PushRawManifest` for a manifest: its config and its layers.
    unfoldable pub push_parts :
        r.Transport → String → Option Store → Descriptor f → List ℕ → Action f c r (Unit {0})
    unfolding push_config push_layers
    push_parts trp ref store desc raw =
        if is_single_arch_image desc.media_type
        then (do
          m ← explain "unable to unmarshal manifest" (from (json.unmarshal_manifest raw))
          _ ← push_config trp ref store m
          push_layers trp ref store m.layers)
        else pure tt

    -- `PushRawManifest`: the store defaults to the temporary cache.
    unfoldable pub push_raw_manifest :
        String → Descriptor f → List ℕ → Option Store → Action f c r (Unit {0})
    unfolding pusher_for push_parts push_bytes
    push_raw_manifest ref desc raw store =
        let chosen : Option Store = elim store [ none ↦ some temp_cache | some t ↦ some t ] in
        if is_single_arch_image desc.media_type || is_multi_arch_image desc.media_type
        then (do
          _ ← new_temp
          trp ← pusher_for ref
          _ ← push_parts trp ref chosen desc raw
          push_bytes trp ref desc raw)
        else raise (invalid desc.media_type)

    -- `PushManifest`
    unfoldable pub push_manifest_to : String → Manifest f → Option Store → Action f c r (Unit {0})
    unfolding push_raw_manifest
    push_manifest_to ref m store = do
      bytes ← explain "unable to marshal manifest" (from (json.marshal_manifest m))
      let desc = record (describe f "application/vnd.oci.image.manifest.v1+json" bytes) {
        annotations = m.annotations;
      }
      push_raw_manifest ref desc bytes store
