-- ===== src/Copier/Resources.antt =====
-- The loop over the resources of a component (pkg/commands/componentarchive/remote/copy.go).
use component_cli.Prelude.{String, ◌&&◌, List, [], ◌∷◌, ◌++◌, ◌==◌, if◌then◌else◌}
use component_cli.Prelude.Result.{wrap, Result, ok, err}
use component_cli.Prelude.Dict.{insert}
use component_cli.Strings.{path_join, trim_prefix}
use component_cli.Oci.{Formats, Descriptor}
use component_cli.Client.{Caches, Remotes, Action, pure, from, explain, ◌>>=◌}
use component_cli.Client.Copy.{Run, finish, and_then, wrapped}
use component_cli.Copier.{
  local_oci_blob_type, oci_registry_type, relative_oci_reference_type, Resource, Components,
  BlobInfo, target_oci_artifact_ref, replaced, Options, Collected, kept,
}

module _ {f : Formats} {c : Caches f} {r : Remotes f} (k : Components f c r) (o : Options k)
    (copy_artifact : String → String → Run f c r (Unit {0})) where
  open k use {Access, Repository, Blobs}

  -- A blob as a layer, which is annotated with the resource's name.
  abbrev pub layer_of : Resource Access → BlobInfo → f.images.Digest → Descriptor f
  layer_of res info digest = record {
    media_type = info.media_type;
    digest = digest;
    size = info.size;
    annotations = k.resource_annotation res.name;
    platform = f.no_platform;
  }

  unfoldable pub with_blob :
      Resource Access → Collected k → BlobInfo → f.images.Digest → Collected k
  unfolding insert
  with_blob res found info digest = record {
    resources = found.resources ++ res ∷ [];
    layers = found.layers ++ layer_of res info digest ∷ [];
    blob_to_resource = insert info.digest res found.blob_to_resource;
  }

  -- The case of a local blob, which is uploaded as a layer.
  unfoldable pub collect_local_blob :
      Blobs → Resource Access → Collected k → Action f c r (Collected k)
  unfolding with_blob
  collect_local_blob blobs res found = do
    _ ← explain "unable to decode resource" (from (k.decode_local res.access))
    info ← explain "unable to get blob info for resource" (k.blob_info blobs res)
    digest ← explain "unable to parse digest for resource" (from (k.parse_digest info.digest))
    pure (with_blob res found info digest)

  -- Where an artifact goes: the target reference, with all replacements.
  unfoldable pub target_of : String → Result String
  unfolding target_oci_artifact_ref replaced
  target_of src =
      elim (target_oci_artifact_ref f.images k.parse_url o.target_artifact_repository src
        o.keep_source_repository) [
          | err e ↦ err (wrap "unable to create target oci artifact reference" e)
          | ok target ↦ ok (replaced o.replace_oci_refs target)
        ]

  -- The copy of an artifact by value, and the access that the resource has then.
  unfoldable pub copy_by_value :
      String → (String → Result Access) → Resource Access → Collected k → Run f c r (Collected k)
  unfolding target_of
  copy_by_value src access res found = and_then (finish (from (target_of src))) (λ target.
      and_then (wrapped "unable to copy oci artifact" (copy_artifact src target)) (λ _.
        and_then
          (finish (explain "unable to marshal updated oci artifact access" (from (access target))))
          (λ updated. finish (pure (kept k found (record res { access = updated }))))))

  -- The new access of an artifact that had an absolute reference, or a relative one.
  unfoldable pub absolute_access : Access → String → Result Access
  unfolding trim_prefix
  absolute_access access target =
      if o.convert_to_relative_oci_references
      then k.new_relative_access (trim_prefix (trim_prefix target o.target_artifact_repository) "/")
      else k.with_reference access target

  abbrev pub relative_access : Access → String → Result Access
  relative_access access target =
      if o.convert_to_relative_oci_references then ok access else k.new_registry_access target

  -- The body of the loop over the resources.
  unfoldable pub collect : Blobs → Resource Access → Collected k → Run f c r (Collected k)
  unfolding collect_local_blob copy_by_value absolute_access path_join
  collect blobs res found =
      if k.access_type res.access == local_oci_blob_type
      then finish (collect_local_blob blobs res found)
      else if k.access_type res.access == oci_registry_type && o.copy_by_value
      then and_then
          (finish (explain "unable to decode resource" (from (k.decode_registry res.access))))
          (λ src. copy_by_value src (absolute_access res.access) res found)
      else if k.access_type res.access == relative_oci_reference_type && o.copy_by_value
      then and_then
          (finish (explain "unable to decode resource" (from (k.decode_relative res.access))))
          (λ ref.
            copy_by_value (path_join o.source_artifact_repository ref) (relative_access res.access)
              res found)
      else finish (pure (kept k found res))

  unfoldable pub collect_all :
      Blobs → List (Resource Access) → Collected k → Run f c r (Collected k)
  unfolding collect
  collect_all blobs [] found = finish (pure found)
  collect_all blobs (res ∷ ress) found =
      and_then (collect blobs res found) (λ found'. collect_all blobs ress found')
