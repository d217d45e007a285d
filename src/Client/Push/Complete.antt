-- ===== src/Client/Push/Complete.antt =====
-- A successful upload leaves nothing out: a manifest is in the registry with its config and all its
-- layers, and an index with all its manifests.
use component_cli.Prelude.{
  ℕ, String, ◌≡◌, refl, Option, none, some, inl, inr, List, [], ◌∷◌, ◌++◌, All, map, nat_eq, arith,
  Bool-cases, if◌then◌else◌, ◌||◌,
}
use component_cli.Prelude.Result.{Error, wrap, invalid, ok, err, Result-cases}
use component_cli.OciRef.{is_multi_arch_image, is_single_arch_image}
use component_cli.Oci.{Formats, Descriptor, Manifest, Json, describe}
use component_cli.Client.{Caches, Remotes, State, explain, pure, raise, ◌>>=◌}
use component_cli.Client.Push.{
  Store, temp_cache, push_content, push_dummy_config, push_config, push_layers, push_bytes,
  push_described, push_manifest, pusher_for, new_temp, push_parts, push_raw_manifest,
  push_manifest_to, temp_add, dummy_config, with_version, create_descriptor_from_manifest,
}
use component_cli.Client.Push.Uploads.{
  IsRegistry, Has, IsReading, Uploads, Uploads->>=, Uploads-explain, Uploads-nothing,
  push_content-Uploads, temp_add-Uploads, push_bytes-Uploads,
}

module _ {f : Formats} (json : Json f) where
  -- The config that a manifest is uploaded with.
  abbrev pub config_of : Manifest f → f.images.Digest
  config_of m = if nat_eq m.config.size 0 then f.from_bytes dummy_config else m.config.digest

  -- The blobs of a manifest: its config and its layers.
  abbrev pub blobs_of : Manifest f → List f.images.Digest
  blobs_of m = config_of m ∷ map (λ (d : Descriptor f). d.digest) m.layers

  -- The digest of a manifest, if it can be encoded.
  abbrev pub digest_of : Manifest f → List f.images.Digest
  digest_of m = elim (json.marshal_manifest (with_version m)) [
    | ok bytes ↦ f.from_bytes bytes ∷ []
    | err e ↦ []
  ]

module _ {f : Formats} (c : Caches f) (r : Remotes f) (reg : IsRegistry r) (json : Json f) where
  push_dummy_config-Uploads :
      (trp : r.Transport) (ref : String)
      → Uploads c r reg ref (f.from_bytes dummy_config ∷ []) (push_dummy_config f c r trp ref)
  unfolding push_dummy_config
  push_dummy_config-Uploads trp ref =
      let desc = describe f "application/json" dummy_config in
      Uploads->>= c r reg ref [] (desc.digest ∷ [])
        (explain "unable to add dummy config to cache" (temp_add f c r desc dummy_config))
        (λ _.
          explain "unable to push dummy config" (push_content f c r trp ref (some temp_cache) desc))
        (Uploads-explain c r reg ref [] _ _ (temp_add-Uploads c r reg ref desc dummy_config))
        (λ _.
          Uploads-explain c r reg ref (desc.digest ∷ []) _ _
            (push_content-Uploads c r reg trp ref (some temp_cache) desc tt))

  push_config-Uploads :
      (trp : r.Transport) (ref : String) (store : Option (Store f c r)) (m : Manifest f)
      → IsReading c r reg store
      → Uploads c r reg ref (config_of json m ∷ []) (push_config f c r trp ref store m)
  unfolding push_config
  push_config-Uploads trp ref store m reading = elim (Bool-cases (nat_eq m.config.size 0)) [
    | inl e ↦ rw e (push_dummy_config-Uploads trp ref)
    | inr e ↦ rw e (
        Uploads-explain c r reg ref (m.config.digest ∷ []) _ _
          (push_content-Uploads c r reg trp ref store m.config reading))
  ]

  push_layers-Uploads :
      (trp : r.Transport) (ref : String) (store : Option (Store f c r))
      (layers : List (Descriptor f))
      → IsReading c r reg store
      → Uploads c r reg ref
          (map (λ (d : Descriptor f). d.digest) layers)
          (push_layers f c r trp ref store layers)
  unfolding push_layers
  push_layers-Uploads trp ref store [] reading = Uploads-nothing c r reg ref (pure tt) (λ s. refl)
  push_layers-Uploads trp ref store (layer ∷ layers) reading =
      Uploads->>= c r reg ref (layer.digest ∷ []) (map (λ (d : Descriptor f). d.digest) layers)
        (explain "unable to push layer" (push_content f c r trp ref store layer))
        (λ _. push_layers f c r trp ref store layers)
        (Uploads-explain c r reg ref (layer.digest ∷ []) _ _
          (push_content-Uploads c r reg trp ref store layer reading))
        (λ _. push_layers-Uploads trp ref store layers reading)

  push_described-Uploads :
      (trp : r.Transport) (ref : String) (m : Manifest f)
      → Uploads c r reg ref (digest_of json m) (push_described f c r json trp ref m)
  unfolding push_described create_descriptor_from_manifest
  push_described-Uploads trp ref m = elim (Result-cases (json.marshal_manifest (with_version m))) [
    | inl (bytes, e) ↦
        let desc = describe f "application/vnd.oci.image.manifest.v1+json" bytes in
        rw (digest_of, create_descriptor_from_manifest, e)
          (Uploads->>= c r reg ref (desc.digest ∷ []) [] (push_bytes f c r trp ref desc bytes)
            (λ _. pure desc) (push_bytes-Uploads c r reg trp ref desc bytes)
            (λ _. Uploads-nothing c r reg ref (pure desc) (λ s. refl)))
    | inr (failure, e) ↦
        rw (digest_of, create_descriptor_from_manifest, e)
          (Uploads-nothing c r reg ref _ (λ s. refl))
  ]

  pub push_manifest-Uploads :
      (trp : r.Transport) (ref : String) (store : Option (Store f c r)) (m : Manifest f)
      → IsReading c r reg store
      → Uploads c r reg ref
          (blobs_of json m ++ digest_of json m)
          (push_manifest f c r json trp ref store m)
  unfolding push_manifest
  push_manifest-Uploads trp ref store m reading =
      let layers = map (λ (d : Descriptor f). d.digest) m.layers in
      Uploads->>= c r reg ref (config_of json m ∷ []) (layers ++ digest_of json m)
        (push_config f c r trp ref store m)
        (λ _. push_layers f c r trp ref store m.layers >>= λ _. push_described f c r json trp ref m)
        (push_config-Uploads trp ref store m reading)
        (λ _.
          Uploads->>= c r reg ref layers (digest_of json m)
            (push_layers f c r trp ref store m.layers) (λ _. push_described f c r json trp ref m)
            (push_layers-Uploads trp ref store m.layers reading)
            (λ _. push_described-Uploads trp ref m))

  -- What PushRawManifest has to bring: the digest that it is called with, and for a manifest the blobs.
  abbrev pub raw_blobs : Descriptor f → List ℕ → List f.images.Digest
  raw_blobs desc raw =
      if is_single_arch_image desc.media_type
      then elim (json.unmarshal_manifest raw) [ ok m ↦ blobs_of json m | err e ↦ [] ]
      else []

  push_parts-Uploads :
      (trp : r.Transport) (ref : String) (store : Option (Store f c r)) (desc : Descriptor f)
      (raw : List ℕ)
      → IsReading c r reg store
      → Uploads c r reg ref (raw_blobs desc raw) (push_parts f c r json trp ref store desc raw)
  unfolding push_parts
  push_parts-Uploads trp ref store desc raw reading =
      elim (Bool-cases (is_single_arch_image desc.media_type)) [
        | inr e ↦ rw e (Uploads-nothing c r reg ref (pure tt) (λ s. refl))
        | inl e ↦ elim (Result-cases (json.unmarshal_manifest raw)) [
          | inr (failure, e') ↦ rw (e, e') (Uploads-nothing c r reg ref _ (λ s. refl))
          | inl (m, e') ↦
              rw (e, e')
                (Uploads->>= c r reg ref (config_of json m ∷ [])
                  (map (λ (d : Descriptor f). d.digest) m.layers)
                  (push_config f c r trp ref store m)
                  (λ _. push_layers f c r trp ref store m.layers)
                  (push_config-Uploads trp ref store m reading)
                  (λ _. push_layers-Uploads trp ref store m.layers reading))
        ]
      ]

  pusher_for-registry :
      (ref : String) (s : State f c r) → (pusher_for f c r ref s).1.registry ≡ s.registry
  unfolding pusher_for
  pusher_for-registry ref s = ground arith

  push_checked-Uploads :
      (ref : String) (desc : Descriptor f) (raw : List ℕ) (store : Option (Store f c r))
      → IsReading c r reg store
      → Uploads c r reg ref (raw_blobs desc raw ++ desc.digest ∷ []) (
          new_temp f c r >>= λ _. pusher_for f c r ref >>= λ trp.
          push_parts f c r json trp ref store desc raw >>= λ _. push_bytes f c r trp ref desc raw)
  push_checked-Uploads ref desc raw store reading =
      let whole = raw_blobs desc raw ++ desc.digest ∷ [] in
      Uploads->>= c r reg ref [] whole (new_temp f c r) _
        (Uploads-nothing c r reg ref (new_temp f c r) (λ s. refl))
        (λ _.
          Uploads->>= c r reg ref [] whole (pusher_for f c r ref) _
            (Uploads-nothing c r reg ref (pusher_for f c r ref) (pusher_for-registry ref))
            (λ trp.
              Uploads->>= c r reg ref (raw_blobs desc raw) (desc.digest ∷ []) _ _
                (push_parts-Uploads trp ref store desc raw reading)
                (λ _. push_bytes-Uploads c r reg trp ref desc raw)))

  Uploads-failing :
      (ref : String) (ds : List f.images.Digest) (e : Error)
      → Uploads c r reg ref ds (raise {A = Unit {0}} e)
  Uploads-failing ref ds e = record { keeps = λ s other d h. h; brings = λ s a h. cc }

  pub push_raw_manifest-Uploads :
      (ref : String) (desc : Descriptor f) (raw : List ℕ) (store : Option (Store f c r))
      → IsReading c r reg store
      → Uploads c r reg ref
          (raw_blobs desc raw ++ desc.digest ∷ [])
          (push_raw_manifest f c r json ref desc raw store)
  unfolding push_raw_manifest
  push_raw_manifest-Uploads ref desc raw none reading =
      elim (Bool-cases
        (is_single_arch_image desc.media_type || is_multi_arch_image desc.media_type)) [
          | inl e ↦ rw e (push_checked-Uploads ref desc raw (some temp_cache) tt)
          | inr e ↦ rw e (
              Uploads-failing ref (raw_blobs desc raw ++ desc.digest ∷ [])
                (invalid desc.media_type))
        ]
  push_raw_manifest-Uploads ref desc raw (some store) reading =
      elim (Bool-cases
        (is_single_arch_image desc.media_type || is_multi_arch_image desc.media_type)) [
          | inl e ↦ rw e (push_checked-Uploads ref desc raw (some store) reading)
          | inr e ↦ rw e (
              Uploads-failing ref (raw_blobs desc raw ++ desc.digest ∷ [])
                (invalid desc.media_type))
        ]

  -- The descriptor that PushManifest uploads a manifest's bytes by.
  abbrev pub manifest_desc : Manifest f → List ℕ → Descriptor f
  manifest_desc m bytes = record (describe f "application/vnd.oci.image.manifest.v1+json" bytes) {
    annotations = m.annotations;
  }

  -- What PushManifest has to bring.
  abbrev pub whole_manifest : Manifest f → List f.images.Digest
  whole_manifest m = elim (json.marshal_manifest m) [
    | ok bytes ↦ raw_blobs (manifest_desc m bytes) bytes ++ f.from_bytes bytes ∷ []
    | err e ↦ []
  ]

  pub push_manifest_to-Uploads :
      (ref : String) (m : Manifest f) (store : Option (Store f c r))
      → IsReading c r reg store
      → Uploads c r reg ref (whole_manifest m) (push_manifest_to f c r json ref m store)
  unfolding push_manifest_to
  push_manifest_to-Uploads ref m store reading = elim (Result-cases (json.marshal_manifest m)) [
    | inr (failure, e) ↦
        rw (whole_manifest, push_manifest_to, e)
          (Uploads-failing ref [] (wrap "unable to marshal manifest" failure))
    | inl (bytes, e) ↦
        rw (whole_manifest, push_manifest_to, e)
          (push_raw_manifest-Uploads ref (manifest_desc m bytes) bytes store reading)
  ]

  -- After PushRawManifest has succeeded, with a store whose reading leaves the registries alone, the
  -- registry has the manifest or index and, for a manifest, its config, or the dummy config where it has
  -- none, and every layer.
  pub push_raw_manifest-Complete :
      (ref : String) (desc : Descriptor f) (raw : List ℕ) (store : Option (Store f c r))
      (s : State f c r)
      → IsReading c r reg store
      → (push_raw_manifest f c r json ref desc raw store s).0 ≡ ok tt
      → All
          (λ d. Has c r reg ref (push_raw_manifest f c r json ref desc raw store s).1 d)
          (raw_blobs desc raw ++ desc.digest ∷ [])
  push_raw_manifest-Complete ref desc raw store s reading h =
      (push_raw_manifest-Uploads ref desc raw store reading).brings s tt h
