-- ===== src/Copier/Attempts.antt =====
-- The copy of a component, and the attempts at it (pkg/commands/componentarchive/remote/copy.go).
use component_cli.Prelude.{
  ℕ, zero, suc, String, not, ◌&&◌, none, some, List, [], ◌∷◌, ◌++◌, if◌then◌else◌,
}
use component_cli.Prelude.Result.{ok, err}
use component_cli.Prelude.Dict.{Dict, lookup}
use component_cli.Oci.{Formats, Descriptor, Json}
use component_cli.Client.{Caches, Remotes, Action, pure, from, explain, ◌>>=◌}
use component_cli.Client.Push.{custom, push_manifest_to}
use component_cli.Client.Copy
use component_cli.Client.Copy.{Run, finish, and_then, wrapped}
use component_cli.Copier.{Resource, Component, Components, Options, Collected, nothing}
use component_cli.Copier.Resources.{collect_all}

module _ {f : Formats} {c : Caches f} {r : Remotes f} (k : Components f c r) (o : Options k)
    (copy_artifact : String → String → Run f c r (Unit {0})) where
  open k use {Access, Repository, Blobs}

  -- The store that a component is uploaded from: a blob of a resource, or the cache.
  unfoldable pub component_store :
      Blobs → Dict (Resource Access) → Descriptor f → Action f c r (List ℕ)
  unfolding lookup
  component_store blobs blob_to_resource desc =
      elim (lookup (f.images.text desc.digest) blob_to_resource) [
        | none ↦ k.cache_get desc
        | some res ↦ k.resolve_blob blobs res
      ]

  module _ (json : Json f) where
    -- The manifest of a component, with its local blobs as layers, is uploaded.
    unfoldable pub push_component :
        Component Access Repository
        → Blobs
        → Collected k
        → String
        → String
        → Action f c r (Unit {0})
    unfolding push_manifest_to component_store
    push_component cd blobs found name version = do
      m ←
          explain "unable to build oci artifact for component archive"
            (k.build_manifest (record cd { resources = found.resources }))
      ref ← explain "invalid component reference" (from (k.oci_ref o.target_repo_ctx name version))
      push_manifest_to f c r json ref (record m { layers = m.layers ++ found.layers })
          (some (custom (component_store blobs found.blob_to_resource)))

    -- The part of `copy` that copies the component itself.
    unfoldable pub upload_component :
        Component Access Repository → Blobs → String → String → Run f c r (Unit {0})
    unfolding collect_all push_component
    upload_component cd blobs name version =
        and_then
          (finish (
            explain "unable to inject target repository"
              (from (k.inject_context o.target_repo_ctx cd))))
          (λ cd'.
            and_then (collect_all k o copy_artifact blobs cd'.resources (nothing k))
              (λ found. finish (push_component cd' blobs found name version)))

    -- The component is left where it is already at the target.
    unfoldable pub unless_there : String → String → Run f c r (Unit {0}) → Run f c r (Unit {0})
    unless_there name version upload s =
        if not o.force && not o.copy_by_value
        then (let (found, s') = k.resolve o.target_repo_ctx name version s in
            elim found [ ok _ ↦ some (ok tt, s') | err _ ↦ upload s' ])
        else upload s

    unfoldable pub copy_references :
        (String → String → Run f c r (Unit {0})) → List (String × String) → Run f c r (Unit {0})
    copy_references one [] = finish (pure tt)
    copy_references one ((name, version) ∷ refs) =
        and_then (one name version) (λ _. copy_references one refs)

    -- `Copier.copy`, with the copy of a component that is referred to.
    unfoldable pub copy_once :
        (String → String → Run f c r (Unit {0})) → String → String → Run f c r (Unit {0})
    unfolding copy_references unless_there upload_component
    copy_once one name version =
        and_then (finish (k.resolve_with_blobs o.src_repo_ctx name version)) (λ (cd, blobs).
          and_then (if o.recursive then copy_references one cd.references else finish (pure tt))
            (λ _. unless_there name version (upload_component cd blobs name version)))

-- The loop of `Copier.Copy`: so many attempts follow after the first one, until one succeeds.
unfoldable pub retry :
    {f : Formats} {c : Caches f} {r : Remotes f} → ℕ → Run f c r (Unit {0}) → Run f c r (Unit {0})
retry zero m s = wrapped "copy finished with error, max retries exceeded" m s
retry (suc n) m s = elim (m s) [
  | none ↦ none
  | some (a, s') ↦ elim a [ ok _ ↦ some (ok tt, s') | err _ ↦ retry n m s' ]
]

module _ {f : Formats} {c : Caches f} {r : Remotes f} (k : Components f c r) (o : Options k)
    (json : Json f) (convert : String → Descriptor f → Action f c r (Descriptor f)) where
  -- `Copier.Copy`, on fuel for the levels of references, and on fuel for the levels of indexes.
  unfoldable pub copy_component : ℕ → ℕ → String → String → Run f c r (Unit {0})
  unfolding copy_once retry
  copy_component zero levels name version = λ s. none
  copy_component (suc n) levels name version =
      let one = copy_component n levels in
      retry o.max_retries
        (copy_once k o (Copy.copy f c r json convert levels) json one name version)
