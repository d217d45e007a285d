-- ===== src/Client/Push/Indexes.antt =====
-- The upload of an image index (ociclient/client.go, pushImageIndex) brings every manifest of it.
use component_cli.Prelude.{
  ℕ, String, ◌≡◌, refl, ◌∙◌, Option, some, inl, inr, List, [], ◌∷◌, ◌++◌, All, arith,
}
use component_cli.Prelude.Result.{Result, ok, err, Result-cases}
use component_cli.Oci.{Formats, Descriptor, Manifest, Index, Json, describe}
use component_cli.Oci.Artifact.{ManifestData, IndexData}
use component_cli.Client.{Caches, Remotes, State, Action, explain, from, pure, ◌>>=◌}
use component_cli.Client.Actions.{>>=-ran, >>=-failed, >>=-ok, explain-ok}
use component_cli.Client.Push.{
  Store, temp_cache, push_content, push_bytes, push_config, push_layers, with_version,
  push_described, push_manifest, push_manifests, push_image_index, temp_add,
  create_descriptor_from_manifest,
}
use component_cli.Client.Push.Uploads.{
  IsRegistry, Has, IsReading, All-keeps, Uploads, Uploads->>=, Uploads-explain, Uploads-nothing,
  push_content-Uploads, temp_add-Uploads,
}
use component_cli.Client.Push.Complete.{blobs_of, digest_of, push_manifest-Uploads}

module _ {f : Formats} (c : Caches f) (r : Remotes f) (json : Json f) where
  -- The descriptors that an index is uploaded with: each manifest as it is encoded, with the platform
  -- and the annotations of its descriptor.
  unfoldable pub entries : List (ManifestData f) → Result (List (Descriptor f))
  entries [] = ok []
  entries (m ∷ ms) =
      let rest = entries ms in
      elim (create_descriptor_from_manifest f c r json m.data') [
        | err e ↦ err e
        | ok desc ↦ elim rest [
          | err e ↦ err e
          | ok descs ↦ ok (
              record desc {
                platform = m.descriptor.platform;
                annotations = m.descriptor.annotations;
              }
              ∷ descs)
        ]
      ]

  -- The blobs of the manifests of an index, and the manifests.
  abbrev pub manifests_of : List (ManifestData f) → List f.images.Digest
  manifests_of [] = []
  manifests_of (m ∷ ms) = (blobs_of json m.data' ++ digest_of json m.data') ++ manifests_of ms

module _ {f : Formats} (c : Caches f) (r : Remotes f) (reg : IsRegistry r) (json : Json f) where
  -- What comes after an upload as a value changes nothing.
  Uploads-pure :
      {A B : Type 0} {ref : String} (ds : List f.images.Digest) (g : A → B) (m : Action f c r A)
      → Uploads c r reg ref ds m
      → Uploads c r reg ref ds (m >>= λ a. pure (g a))
  Uploads-pure ds g m u = record {
    keeps = λ s other d h. elim (Result-cases (m s).0) [
      | inl (a, e) ↦ rw (>>=-ran m (λ x. pure (g x)) s a e) (u.keeps s other d h)
      | inr (failure, e) ↦ rw (>>=-failed m (λ x. pure (g x)) s failure e) (u.keeps s other d h)
    ];
    brings = λ s b h.
        let (a, e, e', same) = >>=-ok m (λ x. pure (g x)) s b h in rw same (u.brings s a e);
  }

  push_manifests-Uploads :
      (trp : r.Transport) (ref : String) (store : Option (Store f c r)) (ms : List (ManifestData f))
      → IsReading c r reg store
      → Uploads c r reg ref (manifests_of c r json ms) (push_manifests f c r json trp ref store ms)
  unfolding push_manifests
  push_manifests-Uploads trp ref store [] reading =
      Uploads-nothing c r reg ref (pure []) (λ s. refl)
  push_manifests-Uploads trp ref store (m ∷ ms) reading =
      let blobs = blobs_of json m.data' ++ digest_of json m.data' in
      let entry = λ (desc : Descriptor f). record desc {
        platform = m.descriptor.platform;
        annotations = m.descriptor.annotations;
      } in
      Uploads->>= c r reg ref blobs (manifests_of c r json ms)
        (explain "unable to upload manifest" (push_manifest f c r json trp ref store m.data')) _
        (Uploads-explain c r reg ref blobs _ _
          (push_manifest-Uploads c r reg json trp ref store m.data' reading))
        (λ desc.
          Uploads-pure (manifests_of c r json ms) (λ descs. entry desc ∷ descs)
            (push_manifests f c r json trp ref store ms)
            (push_manifests-Uploads trp ref store ms reading))

  push_described-describes :
      (trp : r.Transport) (ref : String) (m : Manifest f) (s : State f c r) (desc : Descriptor f)
      → (push_described f c r json trp ref m s).0 ≡ ok desc
      → create_descriptor_from_manifest f c r json m ≡ ok desc
  unfolding push_described
  push_described-describes trp ref m s desc h =
      elim (Result-cases (create_descriptor_from_manifest f c r json m)) [
        | inl (made, e) ↦
            let encoded =
              explain "unable to marshal manifest"
                (from (json.marshal_manifest (with_version m))) in
            let end = λ (bytes : List ℕ). push_bytes f c r trp ref made bytes >>= λ _. pure made in
            let (bytes, _, h1, _) = >>=-ok encoded end s desc (rw (push_described, e) at h) in
            let (_, _, same, _) =
              >>=-ok (push_bytes f c r trp ref made bytes) (λ _. pure made) (encoded s).1 desc h1 in
            e ∙ same
        | inr (failure, e) ↦ absurd (ground arith)
      ]

  push_manifest-describes :
      (trp : r.Transport) (ref : String) (store : Option (Store f c r)) (m : Manifest f)
      (s : State f c r) (desc : Descriptor f)
      → (push_manifest f c r json trp ref store m s).0 ≡ ok desc
      → create_descriptor_from_manifest f c r json m ≡ ok desc
  unfolding push_manifest
  push_manifest-describes trp ref store m s desc h =
      let rest = λ (_ : Unit {0}). push_described f c r json trp ref m in
      let (_, _, h1, _) =
        >>=-ok (push_config f c r trp ref store m)
          (λ _. push_layers f c r trp ref store m.layers >>= rest) s desc h in
      let (_, _, h2, _) = >>=-ok (push_layers f c r trp ref store m.layers) rest _ desc h1 in
      push_described-describes trp ref m _ desc h2

  push_manifests-entries :
      (trp : r.Transport) (ref : String) (store : Option (Store f c r)) (ms : List (ManifestData f))
      (s : State f c r) (descs : List (Descriptor f))
      → (push_manifests f c r json trp ref store ms s).0 ≡ ok descs
      → entries c r json ms ≡ ok descs
  unfolding push_manifests entries
  push_manifests-entries trp ref store [] s descs h = h
  push_manifests-entries trp ref store (m ∷ ms) s descs h =
      let first =
        explain "unable to upload manifest" (push_manifest f c r json trp ref store m.data') in
      let entry = λ (desc : Descriptor f). record desc {
        platform = m.descriptor.platform;
        annotations = m.descriptor.annotations;
      } in
      let rest = λ (desc : Descriptor f).
        push_manifests f c r json trp ref store ms >>= λ descs'. pure (entry desc ∷ descs') in
      let (desc, h1, h2, _) = >>=-ok first rest s descs h in
      let (descs', h3, h4, _) =
        >>=-ok (push_manifests f c r json trp ref store ms) (λ descs'. pure (entry desc ∷ descs'))
          (first s).1 descs h2 in
      let made = push_manifest-describes trp ref store m.data' s desc (
        explain-ok "unable to upload manifest" (push_manifest f c r json trp ref store m.data') s
          desc h1) in
      let rest_made = push_manifests-entries trp ref store ms (first s).1 descs' h3 in
      rw (entries, made, rest_made) h4

  abbrev push_index_bytes : r.Transport → String → List ℕ → Action f c r (Unit {0})
  push_index_bytes trp ref bytes =
      let desc = describe f "application/vnd.oci.image.index.v1+json" bytes in
      temp_add f c r desc bytes >>= λ _.
      explain "unable to push image index" (push_content f c r trp ref (some temp_cache) desc)

  push_index_bytes-Uploads :
      (trp : r.Transport) (ref : String) (bytes : List ℕ)
      → Uploads c r reg ref (f.from_bytes bytes ∷ []) (push_index_bytes trp ref bytes)
  push_index_bytes-Uploads trp ref bytes =
      let desc = describe f "application/vnd.oci.image.index.v1+json" bytes in
      Uploads->>= c r reg ref [] (desc.digest ∷ []) (temp_add f c r desc bytes) _
        (temp_add-Uploads c r reg ref desc bytes)
        (λ _.
          Uploads-explain c r reg ref (desc.digest ∷ []) _ _
            (push_content-Uploads c r reg trp ref (some temp_cache) desc tt))

  -- After pushImageIndex has succeeded, with a store whose reading leaves the registries alone, the
  -- registry has every manifest of the index with its config, or the dummy config, and its layers, and
  -- the index, encoded with the descriptors of exactly these manifests, in order, each with the platform
  -- and the annotations that it had.
  pub push_image_index-Complete :
      (trp : r.Transport) (ref : String) (store : Option (Store f c r)) (index : IndexData f)
      (s : State f c r)
      → IsReading c r reg store
      → (push_image_index f c r json trp ref store index s).0 ≡ ok tt
      → All
          (λ d. Has c r reg ref (push_image_index f c r json trp ref store index s).1 d)
          (manifests_of c r json index.manifests)
        × (descs : List (Descriptor f)) × (bytes : List ℕ) × (entries c r json index.manifests
            ≡ ok descs)
        × (json.marshal_index
              (record { schema_version = 2; manifests = descs; annotations = index.annotations })
            ≡ ok bytes)
        × Has c r reg ref (push_image_index f c r json trp ref store index s).1 (f.from_bytes bytes)
  unfolding push_image_index
  push_image_index-Complete trp ref store index s reading h =
      let ms = index.manifests in
      let made : List (Descriptor f) → Index f = λ descs. record {
        schema_version = 2;
        manifests = descs;
        annotations = index.annotations;
      } in
      let rest = λ (descs : List (Descriptor f)).
        from (json.marshal_index (made descs)) >>= push_index_bytes trp ref in
      let pushing = push_manifests f c r json trp ref store ms in
      let (descs, h1, h2, same1) = >>=-ok pushing rest s tt h in
      let (bytes, h3, h4, same2) =
        >>=-ok (from (json.marshal_index (made descs))) (push_index_bytes trp ref) (pushing s).1 tt
          h2 in
      let desc = describe f "application/vnd.oci.image.index.v1+json" bytes in
      let last = push_index_bytes-Uploads trp ref bytes in
      (
        rw (same1 ∙ same2) (
            All-keeps c r reg ref (desc.digest ∷ []) (manifests_of c r json ms)
              (push_index_bytes trp ref bytes) (pushing s).1 last
              ((push_manifests-Uploads trp ref store ms reading).brings s descs h1)),
        descs,
        bytes,
        push_manifests-entries trp ref store ms s descs h1,
        h3,
        rw (same1 ∙ same2) (last.brings (pushing s).1 tt h4).0,
      )
