-- ===== src/ManifestV1/Stored.antt =====
-- What a conversion adds to the cache (ociclient/manifest_v1_conversion.go).
use component_cli.Prelude.{ℕ, String, ◌≡◌, List}
use component_cli.Prelude.Result.{ok}
use component_cli.Prelude.Call.{Call, value}
use component_cli.ManifestV1.{Descriptor, Registry, Parsed, parse_v1_manifest, V1Manifest}
use component_cli.ManifestV1.Config.{IsMade}

module _ (r : Registry) where
  -- What a conversion that succeeded has read, made and added to the cache, in the states that the
  -- fetching of the manifest and of the layers has left.
  pub record IsStored (before end : r.State) (ref : String) (source desc : Descriptor r.Digest)
      : Type 0 where
    pub buf : List ℕ
    pub fetched_manifest : (r.fetch before ref source).0 ≡ ok buf
    pub m : V1Manifest r.Digest
    pub unmarshaled : r.unmarshal_manifest buf ≡ ok m
    pub parsed : Parsed r
    pub parses : (parse_v1_manifest r ref m (r.fetch before ref source).1).0 ≡ value parsed
    pub config : Descriptor r.Digest
    pub config_bytes : List ℕ
    pub manifest_bytes : List ℕ
    pub made : IsMade r m parsed config desc config_bytes manifest_bytes
    pub added :
        end
        ≡ (r.add
            (r.add
              (parse_v1_manifest r ref m (r.fetch before ref source).1).1
              config
              config_bytes).1
            desc
            manifest_bytes).1
