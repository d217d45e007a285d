-- ===== src/Copier.antt =====
-- The copy of components between repositories (pkg/commands/componentarchive/remote/copy.go).
pub mod Resources
pub mod Attempts
pub mod Retries
pub mod Grows
pub mod Layers
pub mod Uploaded
pub mod Complete
use Prim.Native.String.{◌++◌ as ◌<>◌}
use component_cli.Prelude.{
  ℕ, zero, suc, ◌+◌, Char, code, String, Bool, true, false, not, ◌&&◌, ◌||◌, Option, none, some,
  List, [], ◌∷◌, ◌++◌, nat_eq, ◌==◌, if◌then◌else◌,
}
use component_cli.Prelude.Result.{Error, wrap, Result, ok, err}
use component_cli.Prelude.Dict.{Dict, lookup, insert}
use component_cli.Strings.{path_join, trim_prefix, replace_all}
use component_cli.OciRef.{Images, after_protocol, parse_ref, to_string, name}
use component_cli.Keyring.{Url}
use component_cli.Oci.{Formats, Descriptor, Manifest, Json}
use component_cli.Client.{Caches, Remotes, State, Action, pure, from, explain, ◌>>=◌}
use component_cli.Client.Push.{Store, custom, push_manifest_to}
use component_cli.Client.Copy
use component_cli.Client.Copy.{Run, finish, and_then, wrapped}

abbrev pub local_oci_blob_type : String
local_oci_blob_type = "localOciBlob"

abbrev pub oci_registry_type : String
oci_registry_type = "ociRegistry"

abbrev pub relative_oci_reference_type : String
relative_oci_reference_type = "relativeOciReference"

pub record BlobInfo : Type 0 where
  pub media_type : String
  pub digest : String
  pub size : ℕ

pub record Resource (Access : Type 0) : Type 0 where
  pub name : String
  pub access : Access

-- The parts of a component descriptor that the copy reads or sets.
pub record Component (Access Repository : Type 0) : Type 0 where
  pub contexts : List Repository
  pub references : List (String × String)
  pub resources : List (Resource Access)

-- What the copy uses of the libraries of component descriptors: accesses and their encoding, the
-- resolvers of components and of their blobs, and the building of a manifest, which puts blobs into a
-- cache; of urls and digests, and the content of the cache.
pub record Components (f : Formats) (c : Caches f) (r : Remotes f) : Type 1 where
  pub Access : Type 0
  pub access_type : Access → String
  pub decode_local : Access → Result (Unit {0})
  pub decode_registry : Access → Result String
  pub decode_relative : Access → Result String
  pub with_reference : Access → String → Result Access
  pub new_registry_access : String → Result Access
  pub new_relative_access : String → Result Access
  pub Repository : Type 0
  pub inject_context :
      Repository → Component Access Repository → Result (Component Access Repository)
  pub Blobs : Type 0
  pub resolve_with_blobs :
      Repository → String → String → Action f c r (Component Access Repository × Blobs)
  pub resolve : Repository → String → String → Action f c r (Component Access Repository)
  pub blob_info : Blobs → Resource Access → Action f c r BlobInfo
  pub resolve_blob : Blobs → Resource Access → Action f c r (List ℕ)
  pub build_manifest : Component Access Repository → Action f c r (Manifest f)
  pub oci_ref : Repository → String → String → Result String
  pub cache_get : Descriptor f → Action f c r (List ℕ)
  pub parse_url : String → Result Url
  pub parse_digest : String → Result f.images.Digest
  pub resource_annotation : String → f.Annotations

unfoldable pub underscored : String → String
underscored String.[] = ""
underscored (String.◌∷◌ c s) =
    let rest = underscored s in
    if nat_eq (code c) (code ".") || nat_eq (code c) (code ":")
    then String.◌∷◌ "_" rest
    else String.◌∷◌ c rest

-- `targetOCIArtifactRef`
unfoldable pub target_oci_artifact_ref :
    (i : Images) → (String → Result Url) → String → String → Bool → Result String
unfolding after_protocol parse_ref to_string name path_join underscored
target_oci_artifact_ref i parse_url target_repo ref keep_orig_host =
    let url : String = elim (after_protocol target_repo) [
      | none ↦ "http://" <> target_repo
      | some _ ↦ target_repo
    ] in
    elim (parse_url url) [
      | err e ↦ err e
      | ok t ↦ elim (parse_ref i ref) [
        | err e ↦ err e
        | ok parsed ↦
            let repository =
              if keep_orig_host then underscored (name i parsed) else parsed.repository in
            ok (
              to_string i
                (record parsed { host = t.host; repository = path_join t.path repository }))
      ]
    ]

-- The loop over the replace expressions.
unfoldable pub replaced : Dict String → String → String
unfolding replace_all
replaced [] target = target
replaced ((old, new) ∷ refs) target = replaced refs (replace_all target old new)

module _ {f : Formats} {c : Caches f} {r : Remotes f} (k : Components f c r) where
  open k use {Access, Repository, Blobs}

  -- `Copier`, but for the resolver, the client and the cache.
  pub record Options : Type 0 where
    pub src_repo_ctx : Repository
    pub target_repo_ctx : Repository
    pub recursive : Bool
    pub force : Bool
    pub copy_by_value : Bool
    pub keep_source_repository : Bool
    pub source_artifact_repository : String
    pub target_artifact_repository : String
    pub convert_to_relative_oci_references : Bool
    pub replace_oci_refs : Dict String
    pub max_retries : ℕ

  -- What the loop over the resources gives: the resources, and the blobs to upload as layers, with the
  -- resource of each by its digest's text.
  pub record Collected : Type 0 where
    pub resources : List (Resource Access)
    pub layers : List (Descriptor f)
    pub blob_to_resource : Dict (Resource Access)

  abbrev pub nothing : Collected
  nothing = record { resources = []; layers = []; blob_to_resource = [] }

  abbrev pub kept : Collected → Resource Access → Collected
  kept found res = record found { resources = found.resources ++ res ∷ [] }
