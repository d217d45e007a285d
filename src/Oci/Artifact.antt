-- ===== src/Oci/Artifact.antt =====
-- `Artifact` of ociclient/oci/artifact.go: a manifest or an index, never both.
use component_cli.Prelude.{
  ◌≡◌, Bool, true, false, ◌&&◌, Option, none, some, List, arith, if◌then◌else◌,
}
use component_cli.Prelude.Result.{Error, invalid}
use component_cli.Oci.{Formats, Descriptor, Manifest}

module _ (f : Formats) where
  -- `oci.Manifest` and `oci.Index`
  pub record ManifestData : Type 0 where
    pub descriptor : Descriptor f
    pub data' : Manifest f

  pub record IndexData : Type 0 where
    pub manifests : List ManifestData
    pub annotations : f.Annotations

  pub record Artifact : Type 0 where
    pub manifest : Option ManifestData
    pub index : Option IndexData

  abbrev is_some : {A : Type 0} → Option A → Bool
  is_some none = false
  is_some (some _) = true

  abbrev pub is_manifest : Artifact → Bool
  is_manifest a = is_some a.manifest

  abbrev pub is_index : Artifact → Bool
  is_index a = is_some a.index

  -- `SetManifest` and `SetIndex`, of a pointer that may be nil
  unfoldable pub set_manifest : Artifact → Option ManifestData → Option Error × Artifact
  set_manifest a none = (some (invalid "manifest must not be nil"), a)
  set_manifest a (some m) =
      if is_index a
      then (some (invalid "unable to set manifest on index artifact"), a)
      else (none, record a { manifest = some m })

  unfoldable pub set_index : Artifact → Option IndexData → Option Error × Artifact
  set_index a none = (some (invalid "index must not be nil"), a)
  set_index a (some i) =
      if is_manifest a
      then (some (invalid "unable to set index on manifest artifact"), a)
      else (none, record a { index = some i })

  abbrev pub no_artifact : Artifact
  no_artifact = record { manifest = none; index = none }

  -- `NewManifestArtifact` and `NewIndexArtifact`
  unfoldable pub new_manifest_artifact : Option ManifestData → Option Error × Artifact
  unfolding set_manifest
  new_manifest_artifact m = set_manifest no_artifact m

  unfoldable pub new_index_artifact : Option IndexData → Option Error × Artifact
  unfolding set_index
  new_index_artifact i = set_index no_artifact i

  -- An artifact is not a manifest and an index at once.
  abbrev pub IsExclusive : Artifact → Type 0
  IsExclusive a = (is_manifest a && is_index a) ≡ false

  pub set_manifest-IsExclusive :
      (a : Artifact) (m : Option ManifestData) → IsExclusive a → IsExclusive (set_manifest a m).1
  unfolding set_manifest
  set_manifest-IsExclusive a m e = ground arith

  pub set_index-IsExclusive :
      (a : Artifact) (i : Option IndexData) → IsExclusive a → IsExclusive (set_index a i).1
  unfolding set_index
  set_index-IsExclusive a i e = ground arith
