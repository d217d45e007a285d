-- ===== src/Oci.antt =====
-- The data of OCI registries that the client handles: descriptors, manifests and image indexes
-- (github.com/opencontainers/image-spec), by the fields that the program reads or sets.
pub mod Artifact
use component_cli.Prelude.{ℕ, String, List, length}
use component_cli.Prelude.Result.{Result}
use component_cli.OciRef.{Images}

-- What formats use of other packages: digests and references, maps of annotations, platforms, and json.
pub record Formats : Type 1 where
  pub images : Images
  pub from_bytes : List ℕ → images.Digest
  pub Annotations : Type 0
  pub no_annotations : Annotations
  pub Platform : Type 0
  pub no_platform : Platform

module _ (f : Formats) where
  pub record Descriptor : Type 0 where
    pub media_type : String
    pub digest : f.images.Digest
    pub size : ℕ
    pub annotations : f.Annotations
    pub platform : f.Platform

  pub record Manifest : Type 0 where
    pub schema_version : ℕ
    pub config : Descriptor
    pub layers : List Descriptor
    pub annotations : f.Annotations

  pub record Index : Type 0 where
    pub schema_version : ℕ
    pub manifests : List Descriptor
    pub annotations : f.Annotations

  -- encoding/json on manifests and indexes
  pub record Json : Type 0 where
    pub marshal_manifest : Manifest → Result (List ℕ)
    pub unmarshal_manifest : List ℕ → Result Manifest
    pub marshal_index : Index → Result (List ℕ)
    pub unmarshal_index : List ℕ → Result Index

  -- A descriptor of bytes, as the program makes it.
  abbrev pub describe : String → List ℕ → Descriptor
  describe media_type bytes = record {
    media_type = media_type;
    digest = f.from_bytes bytes;
    size = length bytes;
    annotations = f.no_annotations;
    platform = f.no_platform;
  }
