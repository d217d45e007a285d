-- ===== src/Copier/Layers.antt =====
-- Which blobs are uploaded as layers (pkg/commands/componentarchive/remote/copy.go).
use component_cli.Strings.{path_join}
use component_cli.Prelude.{
  Bool, String, ◌≡◌, refl, sym, ap, ◌∙◌, ◌⊎◌, inl, inr, true, false, ◌&&◌, some, List, [], ◌∷◌,
  ◌++◌, ◌==◌, if◌then◌else◌,
}
use mathlib.Core.List.{append-nil, append_assoc}
use component_cli.Prelude.Result.{Result, ok, err}
use component_cli.Oci.{Formats, Descriptor}
use component_cli.Client.{Caches, Remotes, State, Action, pure, from, explain, ◌>>=◌}
use component_cli.Client.Actions.{>>=-ok, explain-ok}
use component_cli.Client.Copy.{Run, finish, and_then, wrapped}
use component_cli.Client.Copy.Runs.{and_then-ok, finished-ok}
use component_cli.Copier.{
  local_oci_blob_type, oci_registry_type, relative_oci_reference_type, BlobInfo, Resource,
  Components, Options, Collected, kept,
}
use component_cli.Copier.Resources.{
  layer_of, with_blob, collect_local_blob, target_of, copy_by_value, absolute_access,
  relative_access, collect, collect_all,
}

module _ {f : Formats} {c : Caches f} {r : Remotes f} (k : Components f c r) (o : Options k)
    (copy_artifact : String → String → Run f c r (Unit {0})) where
  -- A resource with a local blob is a layer with the digest, the size and the media type that the source
  -- tells of its blob, and any other resource is none.
  abbrev pub IsLayer : k.Blobs → Resource k.Access → List (Descriptor f) → Type 0
  IsLayer blobs res layers =
      (((k.access_type res.access == local_oci_blob_type) ≡ true)
        × (info : BlobInfo) × (seen : State f c r) × ((k.blob_info blobs res seen).0 ≡ ok info)
        × (digest : f.images.Digest) × (k.parse_digest info.digest ≡ ok digest)
        × (layers
            ≡ record {
              media_type = info.media_type;
              digest = digest;
              size = info.size;
              annotations = k.resource_annotation res.name;
              platform = f.no_platform;
            }
              ∷ []))
      ⊎ (((k.access_type res.access == local_oci_blob_type) ≡ false) × (layers ≡ []))

  -- The layers are those of the resources, in order.
  abbrev pub AreLayers : k.Blobs → List (Resource k.Access) → List (Descriptor f) → Type 0
  AreLayers blobs [] layers = layers ≡ []
  AreLayers blobs (res ∷ ress) layers =
      (first : List (Descriptor f)) × (rest : List (Descriptor f)) × (layers ≡ first ++ rest)
      × IsLayer blobs res first
      × AreLayers blobs ress rest

  found_layers : Result (Collected k) → List (Descriptor f)
  found_layers (ok found) = found.layers
  found_layers (err e) = []

  -- What a step adds to the layers.
  IsAdded : k.Blobs → Resource k.Access → Collected k → Collected k → Type 0
  IsAdded blobs res found found' =
      (more : List (Descriptor f)) × (found'.layers ≡ found.layers ++ more) × IsLayer blobs res more

  collect_local_blob-layers :
      (blobs : k.Blobs) (res : Resource k.Access) (found found' : Collected k) (s : State f c r)
      → (k.access_type res.access == local_oci_blob_type) ≡ true
      → (collect_local_blob k o copy_artifact blobs res found s).0 ≡ ok found'
      → IsAdded blobs res found found'
  unfolding collect_local_blob with_blob found_layers IsAdded
  collect_local_blob-layers blobs res found found' s is_local h =
      let parse : BlobInfo → Action f c r f.images.Digest =
        λ info. explain "unable to parse digest for resource" (from (k.parse_digest info.digest)) in
      let last : BlobInfo → f.images.Digest → Action f c r (Collected k) =
        λ info digest. pure (with_blob k o copy_artifact res found info digest) in
      let (_, e1, h1, _) =
        >>=-ok (explain "unable to decode resource" (from (k.decode_local res.access)))
          (λ _.
            explain "unable to get blob info for resource" (k.blob_info blobs res)
            >>= (λ info. parse info >>= last info))
          s found' h in
      let s1 = (explain "unable to decode resource" (from (k.decode_local res.access)) s).1 in
      let (info, e2, h2, _) =
        >>=-ok (explain "unable to get blob info for resource" (k.blob_info blobs res))
          (λ info. parse info >>= last info) s1 found' h1 in
      let s2 = (explain "unable to get blob info for resource" (k.blob_info blobs res) s1).1 in
      let (digest, e3, h3, _) = >>=-ok (parse info) (last info) s2 found' h2 in
      (
        layer_of k o copy_artifact res info digest ∷ [],
        sym (ap found_layers h3),
        inl (
          is_local,
          info,
          s1,
          explain-ok "unable to get blob info for resource" (k.blob_info blobs res) s1 info e2,
          digest,
          explain-ok "unable to parse digest for resource" (from (k.parse_digest info.digest)) s2
              digest e3,
          refl,
        ),
      )

  copy_by_value-layers :
      (src : String) (access : String → Result k.Access) (res : Resource k.Access)
      (found found' : Collected k) (s t : State f c r)
      → copy_by_value k o copy_artifact src access res found s ≡ some (ok found', t)
      → found'.layers ≡ found.layers
  unfolding copy_by_value found_layers
  copy_by_value-layers src access res found found' s t h =
      let update = λ (target : String).
        finish (explain "unable to marshal updated oci artifact access" (from (access target))) in
      let last : k.Access → Run f c r (Collected k) =
        λ updated. finish (pure (kept k found (record res { access = updated }))) in
      let copying =
        λ (target : String). wrapped "unable to copy oci artifact" (copy_artifact src target) in
      let (target, s1, e1, h1) =
        and_then-ok (finish (from (target_of k o copy_artifact src)))
          (λ target. and_then (copying target) (λ _. and_then (update target) last)) s t found' h in
      let (_, s2, e2, h2) =
        and_then-ok (copying target) (λ _. and_then (update target) last) s1 t found' h1 in
      let (updated, s3, e3, h3) = and_then-ok (update target) last s2 t found' h2 in
      let done =
        finished-ok (pure (kept k found (record res { access = updated }))) s3 t found' h3 in
      sym (ap found_layers done.0)

  -- A run adds no layer.
  Keeps : Collected k → Run f c r (Collected k) → Type 0
  Keeps found m =
      (found' : Collected k) (s t : State f c r)
      → m s ≡ some (ok found', t)
      → found'.layers ≡ found.layers

  Keeps-if :
      (b : Bool) (found : Collected k) (m n : Run f c r (Collected k))
      → Keeps found m
      → Keeps found n
      → Keeps found (if b then m else n)
  Keeps-if true found m n h h' = h
  Keeps-if false found m n h h' = h'

  after_Keeps :
      (found : Collected k) (m : Run f c r String) (n : String → Run f c r (Collected k))
      → ((ref : String) → Keeps found (n ref))
      → Keeps found (and_then m n)
  unfolding Keeps
  after_Keeps found m n h found' s t e =
      let (ref, s1, e1, e2) = and_then-ok m n s t found' e in h ref found' s1 t e2

  by_value-Keeps :
      (found : Collected k) (res : Resource k.Access) (src : String)
      (access : String → Result k.Access)
      → Keeps found (copy_by_value k o copy_artifact src access res found)
  unfolding Keeps
  by_value-Keeps found res src access found' s t =
      copy_by_value-layers src access res found found' s t

  kept-Keeps :
      (found : Collected k) (res : Resource k.Access)
      → Keeps found (finish (pure (kept k found res)))
  unfolding Keeps found_layers
  kept-Keeps found res found' s t h =
      sym (ap found_layers (finished-ok (pure (kept k found res)) s t found' h).0)

  if-IsAdded :
      (b : Bool) (m n : Run f c r (Collected k)) (blobs : k.Blobs) (res : Resource k.Access)
      (found found' : Collected k) (s t : State f c r)
      → (k.access_type res.access == local_oci_blob_type) ≡ b
      → (b ≡ true → m s ≡ some (ok found', t) → IsAdded blobs res found found')
      → Keeps found n
      → (if b then m else n) s ≡ some (ok found', t)
      → IsAdded blobs res found found'
  unfolding Keeps IsAdded
  if-IsAdded true m n blobs res found found' s t e is_local others h = is_local refl h
  if-IsAdded false m n blobs res found found' s t e is_local others h =
      ([], others found' s t h ∙ sym (append-nil found.layers), inr (e, refl))

  collect-layers :
      (blobs : k.Blobs) (res : Resource k.Access) (found found' : Collected k) (s t : State f c r)
      → collect k o copy_artifact blobs res found s ≡ some (ok found', t)
      → IsAdded blobs res found found'
  unfolding collect
  collect-layers blobs res found found' s t h =
      if-IsAdded (k.access_type res.access == local_oci_blob_type)
        (finish (collect_local_blob k o copy_artifact blobs res found)) _ blobs res found found' s t
        refl
        (λ e h'.
          collect_local_blob-layers blobs res found found' s e
            (finished-ok (collect_local_blob k o copy_artifact blobs res found) s t found' h').0)
        (Keeps-if (k.access_type res.access == oci_registry_type && o.copy_by_value) found _ _
          (after_Keeps found
            (finish (explain "unable to decode resource" (from (k.decode_registry res.access)))) _
            (λ src. by_value-Keeps found res src (absolute_access k o copy_artifact res.access)))
          (Keeps-if (k.access_type res.access == relative_oci_reference_type && o.copy_by_value)
            found _ _
            (after_Keeps found
              (finish (explain "unable to decode resource" (from (k.decode_relative res.access)))) _
              (λ ref.
                by_value-Keeps found res (path_join o.source_artifact_repository ref)
                  (relative_access k o copy_artifact res.access)))
            (kept-Keeps found res)))
        h

  pub collect_all-AreLayers :
      (blobs : k.Blobs) (ress : List (Resource k.Access)) (found found' : Collected k)
      (s t : State f c r)
      → collect_all k o copy_artifact blobs ress found s ≡ some (ok found', t)
      → (more : List (Descriptor f)) × (found'.layers ≡ found.layers ++ more)
        × AreLayers blobs ress more
  unfolding collect_all found_layers IsAdded
  collect_all-AreLayers blobs [] found found' s t h = (
    [],
    sym (ap found_layers (finished-ok (pure found) s t found' h).0) ∙ sym (append-nil found.layers),
    refl,
  )
  collect_all-AreLayers blobs (res ∷ ress) found found' s t h =
      let (next, s1, e1, h1) =
        and_then-ok (collect k o copy_artifact blobs res found)
          (λ next. collect_all k o copy_artifact blobs ress next) s t found' h in
      let (first, same, layer) = collect-layers blobs res found next s s1 e1 in
      let (rest, same', layers) = collect_all-AreLayers blobs ress next found' s1 t h1 in
      (
        first ++ rest,
        same'
            ∙ ap (λ (l : List (Descriptor f)). l ++ rest) same
            ∙ append_assoc found.layers first rest,
        (first, rest, refl, layer, layers),
      )
