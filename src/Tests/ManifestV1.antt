-- ===== src/Tests/ManifestV1.antt =====
-- The conversion of docker manifests of schema 1 at a concrete manifest
-- (ociclient/manifest_v1_conversion.go): a digest is the bytes themselves, and json is kept as it is.
use component_cli.Prelude.{
  ℕ, ◌<◌, ◌≡◌, refl, Bool, true, false, none, some, List, [], ◌∷◌, length, ◌==◌, arith,
}
use component_cli.Prelude.Result.{ok}
use component_cli.Prelude.Dict.{insert, remove}
use component_cli.Prelude.Call.{value, panic}
use component_cli.ManifestV1.{
  gzip, Descriptor, V1Manifest, V1History, Registry, Parsed, parse_v1_manifest, v2_config,
  convert_v1_manifest_to_v2,
}
use component_cli.ManifestV1.Layers.{IsAligned, parse_v1_manifest-IsAligned, short_history_panics}

program : Unit {0}
unfolding parse_v1_manifest v2_config convert_v1_manifest_to_v2 insert remove
program = tt

abbrev entry : Bool → V1History ℕ
entry thrown = record {
  author = "a";
  created = 0;
  comment = "";
  throw_away = some thrown;
  size = none;
  cmd = "run" ∷ "it" ∷ [];
}

abbrev two_layers : V1Manifest (List ℕ)
two_layers = record {
  fs_layers = record { blob_sum = 1 ∷ [] } ∷ record { blob_sum = 2 ∷ [] } ∷ [];
  history = record { v1_compatibility = "empty" } ∷ record { v1_compatibility = "full" } ∷ [];
}

abbrev images : Registry
images = record {
  Digest = List ℕ;
  from_bytes = λ bytes. bytes;
  State = List (List ℕ);
  fetch = λ cache ref desc. (ok (7 ∷ desc.digest), (7 ∷ desc.digest) ∷ cache);
  decompress = λ bytes. ok (gzip, ok (8 ∷ bytes));
  Time = ℕ;
  RawMessage = ℕ;
  unmarshal_manifest = λ bytes. ok two_layers;
  unmarshal_history = λ s. ok (entry (s == "empty"));
  unmarshal_config = λ s. ok (some (("id", 1) ∷ ("os", 2) ∷ []));
  raw_rootfs = λ ds. ok (length ds);
  raw_history = λ hs. ok (length hs);
  marshal_config = λ c. ok (length c ∷ []);
  marshal_manifest = λ m. ok (length m.layers ∷ m.config.size ∷ []);
  add = λ cache desc bytes. (value tt, bytes ∷ cache);
}

abbrev parsed : Parsed images
parsed = record {
  layers =
      record {
        media_type = "application/vnd.oci.image.layer.v1.tar+gzip";
        digest = 2 ∷ [];
        size = 2;
      }
      ∷ [];
  diff_ids = (8 ∷ 7 ∷ 2 ∷ []) ∷ [];
  history =
      record { author = "a"; comment = ""; created = 0; created_by = "run it"; empty_layer = false }
      ∷ record {
        author = "a";
        comment = "";
        created = 0;
        created_by = "run it";
        empty_layer = true;
      }
      ∷ [];
}

parse_v1_manifest-two_layers : (parse_v1_manifest images "r" two_layers []).0 ≡ value parsed
unfolding program
parse_v1_manifest-two_layers = refl

parse_v1_manifest-IsAligned_example :
    IsAligned images parsed × (length parsed.history ≡ length two_layers.fs_layers)
parse_v1_manifest-IsAligned_example =
    parse_v1_manifest-IsAligned images "r" two_layers parsed [] parse_v1_manifest-two_layers

abbrev short : V1Manifest (List ℕ)
short = record { fs_layers = record { blob_sum = 1 ∷ [] } ∷ []; history = [] }

short_history : length short.history < length short.fs_layers
short_history = omega arith

short_history_panics_example : (parse_v1_manifest images "r" short []).0 ≡ panic
short_history_panics_example = short_history_panics images "r" short [] short_history

abbrev source : Descriptor (List ℕ)
source = record { media_type = ""; digest = 9 ∷ []; size = 1 }

abbrev converted : Descriptor (List ℕ)
converted = record {
  media_type = "application/vnd.oci.image.manifest.v1+json";
  digest = 1 ∷ 1 ∷ [];
  size = 2;
}

-- What is fetched, the manifest and the layer with contents, is in the cache before what is added.
stored :
    (convert_v1_manifest_to_v2 images "r" source []).1
    ≡ (1 ∷ 1 ∷ []) ∷ (3 ∷ []) ∷ (7 ∷ 2 ∷ []) ∷ (7 ∷ 9 ∷ []) ∷ []
unfolding program
stored = refl
