-- ===== src/Copier/Uploaded.antt =====
-- The upload of a component leaves nothing out (pkg/commands/componentarchive/remote/copy.go).
use mathlib.Core.Path.{subst}
use component_cli.Prelude.{
  ℕ, String, ◌≡◌, refl, sym, ◌∙◌, Option, some, inl, inr, List, [], ◌∷◌, ◌++◌, All, arith,
}
use component_cli.Prelude.Result.{ok, Result-cases}
use component_cli.Oci.{Formats, Manifest, Json}
use component_cli.Client.{Caches, Remotes, State, Action, from, explain, ◌>>=◌}
use component_cli.Client.Actions.{>>=-ok, explain-ok}
use component_cli.Client.Push.{Store, push_manifest_to}
use component_cli.Client.Push.Uploads.{IsRegistry, Has, Uploads}
use component_cli.Client.Push.Complete.{blobs_of, whole_manifest, push_manifest_to-Uploads}
use component_cli.Client.Copy.{Run, finish, and_then}
use component_cli.Client.Copy.Runs.{and_then-ok, finished-ok, explained-ok}
use component_cli.Client.Copy.Grows.{Grows}
use component_cli.Copier.Layers.{AreLayers, collect_all-AreLayers}
use component_cli.Copier.{Resource, Component, Components, Options, Collected, nothing}
use component_cli.Copier.Resources.{collect_all}
use component_cli.Copier.Attempts.{push_component, upload_component}
use component_cli.Copier.Grows.{IsReader, source, component_store-Reads}

module _ {f : Formats} {c : Caches f} {r : Remotes f} (reg : IsRegistry r) (k : Components f c r)
    (o : Options k) (json : Json f) (reader : IsReader k)
    (copy_artifact : String → String → Run f c r (Unit {0}))
    (growing : (a b : String) → Grows reg (copy_artifact a b))
    (back : (m : Manifest f) (raw : List ℕ)
      → json.marshal_manifest m ≡ ok raw
      → json.unmarshal_manifest raw ≡ ok m) where
  -- The registries have, under the reference of a component at the target, the manifest that was built
  -- for it with a layer more for each local blob of its resources, and the blobs of that manifest.
  abbrev pub IsUploaded :
      State f c r → Component k.Access k.Repository → k.Blobs → String → String → Type 0
  IsUploaded t cd blobs name version =
      (cd' : Component k.Access k.Repository) × (k.inject_context o.target_repo_ctx cd ≡ ok cd')
      × (found : Collected k) × (begin : State f c r) × (end : State f c r) × (collect_all k o
            copy_artifact blobs cd'.resources (nothing k) begin
          ≡ some (ok found, end))
      × AreLayers k o copy_artifact blobs cd'.resources found.layers
      × (built : Manifest f) × ((k.build_manifest (record cd' { resources = found.resources })
            end).0
          ≡ ok built)
      × (ref : String) × (k.oci_ref o.target_repo_ctx name version ≡ ok ref)
      × (raw : List ℕ) × (json.marshal_manifest
            (record built { layers = built.layers ++ found.layers })
          ≡ ok raw)
      × All (λ d. Has c r reg ref t d)
          (blobs_of json (record built { layers = built.layers ++ found.layers })
            ++ f.from_bytes raw ∷ [])

  whole_manifest-blobs :
      (m : Manifest f) (raw : List ℕ)
      → json.marshal_manifest m ≡ ok raw
      → whole_manifest c r reg json m ≡ blobs_of json m ++ f.from_bytes raw ∷ []
  whole_manifest-blobs m raw e = rw (whole_manifest, e, back m raw e) refl

  pushed_whole :
      (ref : String) (m : Manifest f) (store : Option (Store f c r)) (s : State f c r)
      → Uploads c r reg ref
          (whole_manifest c r reg json m)
          (push_manifest_to f c r json ref m store)
      → (push_manifest_to f c r json ref m store s).0 ≡ ok tt
      → (raw : List ℕ) × (json.marshal_manifest m ≡ ok raw)
        × All
            (λ d. Has c r reg ref (push_manifest_to f c r json ref m store s).1 d)
            (blobs_of json m ++ f.from_bytes raw ∷ [])
  unfolding push_manifest_to
  pushed_whole ref m store s u h = elim (Result-cases (json.marshal_manifest m)) [
    | inr (failure, e) ↦ absurd (ground arith)
    | inl (raw, e) ↦ (
      raw,
      e,
      subst (λ ds. All (λ d. Has c r reg ref (push_manifest_to f c r json ref m store s).1 d) ds)
          (whole_manifest-blobs m raw e) (u.brings s tt h),
    )
  ]

  push_component-Uploaded :
      (cd : Component k.Access k.Repository) (blobs : k.Blobs) (found : Collected k)
      (name version : String) (s : State f c r)
      → (push_component k o copy_artifact json cd blobs found name version s).0 ≡ ok tt
      → (built : Manifest f) × ((k.build_manifest (record cd { resources = found.resources }) s).0
          ≡ ok built)
        × (ref : String) × (k.oci_ref o.target_repo_ctx name version ≡ ok ref)
        × (raw : List ℕ) × (json.marshal_manifest
              (record built { layers = built.layers ++ found.layers })
            ≡ ok raw)
        × All
            (λ d.
              Has c r reg ref
                (push_component k o copy_artifact json cd blobs found name version s).1
                d)
            (blobs_of json (record built { layers = built.layers ++ found.layers })
              ++ f.from_bytes raw ∷ [])
  unfolding push_component
  push_component-Uploaded cd blobs found name version s h =
      let build = k.build_manifest (record cd { resources = found.resources }) in
      let naming : Action f c r String = from (k.oci_ref o.target_repo_ctx name version) in
      let store = source reg k o reader copy_artifact growing blobs found in
      let whole : Manifest f → Manifest f =
        λ built. record built { layers = built.layers ++ found.layers } in
      let push = λ (built : Manifest f) (ref : String).
        push_manifest_to f c r json ref (whole built) store in
      let rest =
        λ (built : Manifest f). explain "invalid component reference" naming >>= push built in
      let (built, e1, h1, same1) =
        >>=-ok (explain "unable to build oci artifact for component archive" build) rest s tt h in
      let s1 = (explain "unable to build oci artifact for component archive" build s).1 in
      let (ref, e2, h2, same2) =
        >>=-ok (explain "invalid component reference" naming) (push built) s1 tt h1 in
      let s2 = (explain "invalid component reference" naming s1).1 in
      let (raw, e3, there) =
        pushed_whole ref (whole built) store s2
          (push_manifest_to-Uploads c r reg json ref (whole built) store (λ s' desc.
            (component_store-Reads reg k o reader copy_artifact growing blobs found.blob_to_resource
                desc).same
              s'))
          h2 in
      (
        built,
        explain-ok "unable to build oci artifact for component archive" build s built e1,
        ref,
        explain-ok "invalid component reference" naming s1 ref e2,
        raw,
        e3,
        subst
            (λ t.
              All (λ d. Has c r reg ref t d) (blobs_of json (whole built) ++ f.from_bytes raw ∷ []))
            (sym (same1 ∙ same2)) there,
      )

  uploaded_layers :
      (blobs : k.Blobs) (ress : List (Resource k.Access)) (found : Collected k) (s t : State f c r)
      → collect_all k o copy_artifact blobs ress (nothing k) s ≡ some (ok found, t)
      → AreLayers k o copy_artifact blobs ress found.layers
  uploaded_layers blobs ress found s t h =
      let (more, same, layers) =
        collect_all-AreLayers k o copy_artifact blobs ress (nothing k) found s t h in
      subst (AreLayers k o copy_artifact blobs ress) (sym same) layers

  pub upload_component-Uploaded :
      (cd : Component k.Access k.Repository) (blobs : k.Blobs) (name version : String)
      (s t : State f c r)
      → upload_component k o copy_artifact json cd blobs name version s ≡ some (ok tt, t)
      → IsUploaded t cd blobs name version
  unfolding upload_component
  upload_component-Uploaded cd blobs name version s t h =
      let inject = k.inject_context o.target_repo_ctx cd in
      let push = λ (cd' : Component k.Access k.Repository) (found : Collected k).
        push_component k o copy_artifact json cd' blobs found name version in
      let rest : Component k.Access k.Repository → Run f c r (Unit {0}) = λ cd'.
        and_then (collect_all k o copy_artifact blobs cd'.resources (nothing k))
          (λ found. finish (push cd' found)) in
      let (cd', s1, e1, h1) =
        and_then-ok (finish (explain "unable to inject target repository" (from inject))) rest s t
          tt h in
      let (found, s2, e2, h2) =
        and_then-ok (collect_all k o copy_artifact blobs cd'.resources (nothing k))
          (λ found. finish (push cd' found)) s1 t tt h1 in
      let (success, same) = finished-ok (push cd' found) s2 t tt h2 in
      let (built, e3, ref, e4, raw, e5, there) =
        push_component-Uploaded cd' blobs found name version s2 success in
      (
        cd',
        (explained-ok "unable to inject target repository" (from inject) s s1 cd' e1).0,
        found,
        s1,
        s2,
        e2,
        uploaded_layers blobs cd'.resources found s1 s2 e2,
        built,
        e3,
        ref,
        e4,
        raw,
        e5,
        subst
            (λ u.
              All (λ d. Has c r reg ref u d)
                (blobs_of json (record built { layers = built.layers ++ found.layers })
                  ++ f.from_bytes raw ∷ []))
            same there,
      )
