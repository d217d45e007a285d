-- ===== src/ManifestV1.antt =====
-- The conversion of docker manifests of schema 1 (ociclient/manifest_v1_conversion.go): the layers and
-- the history, which a manifest of schema 1 lists with the newest first, a new config and a new manifest.
pub mod Layers
pub mod Config
pub mod Stored
use component_cli.Prelude.{
  ℕ, zero, suc, ◌-◌, ◌^◌, Char, String, Bool, true, false, Option, none, some, List, [], ◌∷◌, ◌++◌,
  length, nat_eq, if◌then◌else◌,
}
use component_cli.Prelude.Result.{Error, wrap, Result, ok, err}
use component_cli.Prelude.Dict.{Dict, insert, remove}
use component_cli.Prelude.Call.{Call, value, error, panic, ◌>>=◌, explain, from_result, deref}
use component_cli.Strings.{join}

-- github.com/containerd/containerd/archive/compression
pub data Compression : Type 0 where
  uncompressed gzip zstd : Compression

abbrev pub image_layer_zstd : String
image_layer_zstd = "application/vnd.oci.image.layer.v1.tar+zstd"

abbrev media_type_of : Compression → String
media_type_of uncompressed = "application/vnd.oci.image.layer.v1.tar"
media_type_of gzip = "application/vnd.oci.image.layer.v1.tar+gzip"
media_type_of zstd = image_layer_zstd

pub record Descriptor (Digest : Type 0) : Type 0 where
  pub media_type : String
  pub digest : Digest
  pub size : ℕ

pub record FsLayer (Digest : Type 0) : Type 0 where
  pub blob_sum : Digest

pub record History : Type 0 where
  pub v1_compatibility : String

pub record V1Manifest (Digest : Type 0) : Type 0 where
  pub fs_layers : List (FsLayer Digest)
  pub history : List History

pub record V1History (Time : Type 0) : Type 0 where
  pub author : String
  pub created : Time
  pub comment : String
  pub throw_away : Option Bool
  pub size : Option ℕ
  pub cmd : List String

-- An entry of the history of an OCI image's config, and an OCI manifest.
pub record OciHistory (Time : Type 0) : Type 0 where
  pub author : String
  pub comment : String
  pub created : Time
  pub created_by : String
  pub empty_layer : Bool

pub record Manifest (Digest : Type 0) : Type 0 where
  pub schema_version : ℕ
  pub config : Descriptor Digest
  pub layers : List (Descriptor Digest)

-- What the conversion uses of other packages and of its client: digests, the blobs of a registry, the
-- decompression of a stream, whose reading may fail as well, json, and the cache that it adds to. What
-- is fetched may be put into the same cache, so both go on with one state; adding to a cache that is nil
-- panics. The map that `unmarshal_config` decodes may be nil.
pub record Registry : Type 1 where
  pub Digest : Type 0
  pub from_bytes : List ℕ → Digest
  pub State : Type 0
  pub fetch : State → String → Descriptor Digest → Result (List ℕ) × State
  pub decompress : List ℕ → Result (Compression × Result (List ℕ))
  pub Time : Type 0
  pub RawMessage : Type 0
  pub unmarshal_manifest : List ℕ → Result (V1Manifest Digest)
  pub unmarshal_history : String → Result (V1History Time)
  pub unmarshal_config : String → Result (Option (Dict RawMessage))
  pub raw_rootfs : List Digest → Result RawMessage
  pub raw_history : List (OciHistory Time) → Result RawMessage
  pub marshal_config : Dict RawMessage → Result (List ℕ)
  pub marshal_manifest : Manifest Digest → Result (List ℕ)
  pub add : State → Descriptor Digest → List ℕ → Call (Unit {0}) × State

-- `l[i]`
abbrev pub at {ℓ} : {A : Type ℓ} → List A → ℕ → Call A
at [] i = panic
at (x ∷ xs) zero = value x
at (x ∷ xs) (suc i) = at xs i

-- `isEmptyLayer`
unfoldable pub is_empty_layer : {Time : Type 0} → V1History Time → Bool
is_empty_layer h = elim h.throw_away [
  | some thrown ↦ thrown
  | none ↦ elim h.size [ some size ↦ nat_eq size 0 | none ↦ false ]
]

module _ (r : Registry) where
  open r use {Digest, State, Time, RawMessage}

  -- What follows a call that changes the state, where it answers with a value.
  abbrev pub after : {A B : Type 0} → Call A × State → (A → State → Call B × State) → Call B × State
  after (value a, s) k = k a s
  after (error e, s) k = (error e, s)
  after (panic, s) k = (panic, s)

  -- An error of such a call, explained.
  abbrev pub explained : {A : Type 0} → String → Call A × State → Call A × State
  explained text m = (explain text m.0, m.1)

  -- The results of `ParseV1Manifest` that its loop appends to.
  pub record Parsed : Type 0 where
    pub layers : List (Descriptor Digest)
    pub diff_ids : List Digest
    pub history : List (OciHistory Time)

  unfoldable pub oci_history : V1History Time → OciHistory Time
  unfolding join is_empty_layer
  oci_history h = record {
    author = h.author;
    comment = h.comment;
    created = h.created;
    created_by = join " " h.cmd;
    empty_layer = is_empty_layer h;
  }

  -- `client.Fetch`
  abbrev pub fetched : String → State → String → Descriptor Digest → Call (List ℕ) × State
  fetched text s ref desc =
      let (answer, s') = r.fetch s ref desc in (explain text (from_result answer), s')

  -- What is made of a layer's blob: its descriptor and the digest of its decompressed bytes.
  unfoldable pub describe_layer : FsLayer Digest → List ℕ → Call (Descriptor Digest × Digest)
  describe_layer fs_layer data' = do
    reader ← explain "unable to decompress layer blob" (from_result (r.decompress data'))
    decompressed ← explain "unable to read decompressed layer blob" (from_result reader.1)
    value (
      record {
        media_type = media_type_of reader.0;
        digest = fs_layer.blob_sum;
        size = length data';
      },
      r.from_bytes decompressed,
    )

  -- A layer with contents.
  unfoldable pub parse_layer :
      String → FsLayer Digest → State → Call (Descriptor Digest × Digest) × State
  unfolding describe_layer
  parse_layer ref fs_layer s =
      let desc : Descriptor Digest = record {
        media_type = "";
        digest = fs_layer.blob_sum;
        size = 2 ^ 64 - 1;
      } in
      after (fetched "unable to fetch layer blob" s ref desc)
        (λ data' s'. (describe_layer fs_layer data', s'))

  -- The entry of the history, decoded.
  abbrev pub decode_entry : Call History → Call (V1History Time)
  decode_entry history = do
    entry ← history
    explain "unable to unmarshal v1 history"
        (from_result (r.unmarshal_history entry.v1_compatibility))

  -- The loop's body, for the entry of the history and the layer with the same index.
  unfoldable pub parse_entry :
      String → Call History → Call (FsLayer Digest) → Parsed → State → Call Parsed × State
  unfolding oci_history parse_layer
  parse_entry ref history fs_layer parsed s =
      after (decode_entry history, s)
        (λ h s1.
          let described = record parsed { history = parsed.history ++ oci_history h ∷ [] } in
          let with_layer =
            after (fs_layer, s1)
              (λ layer s2. after (parse_layer ref layer s2) (λ made s3. (
                value (record described {
                  layers = parsed.layers ++ made.0 ∷ [];
                  diff_ids = parsed.diff_ids ++ made.1 ∷ [];
                }),
                s3,
              ))) in
          if is_empty_layer h then (value described, s1) else with_layer)

  -- The loop of `ParseV1Manifest` from the index below `n` down to 0.
  unfoldable pub parse_below : String → V1Manifest Digest → ℕ → Parsed → State → Call Parsed × State
  unfolding parse_entry
  parse_below ref m zero parsed s = (value parsed, s)
  parse_below ref m (suc i) parsed s =
      after (parse_entry ref (at m.history i) (at m.fs_layers i) parsed s)
        (λ next s'. parse_below ref m i next s')

  -- `ParseV1Manifest`
  unfoldable pub parse_v1_manifest : String → V1Manifest Digest → State → Call Parsed × State
  unfolding parse_below
  parse_v1_manifest ref m s =
      parse_below ref m (length m.fs_layers) (record { layers = []; diff_ids = []; history = [] }) s

  -- `CreateV2Manifest`
  unfoldable pub create_v2_manifest :
      Descriptor Digest → List (Descriptor Digest) → Call (Descriptor Digest × List ℕ)
  create_v2_manifest config layers = do
    bytes ← explain "unable to marshal manifest" (
        from_result
          (r.marshal_manifest (record { schema_version = 2; config = config; layers = layers })))
    value (
      record {
        media_type = "application/vnd.oci.image.manifest.v1+json";
        digest = r.from_bytes bytes;
        size = length bytes;
      },
      bytes,
    )

  -- The keys of the old config that `CreateV2Config` deletes.
  unfoldable pub delete_v1_keys : Dict RawMessage → Dict RawMessage
  delete_v1_keys config = remove "throwaway" (
      remove "layer_id" (remove "parent_id" (remove "Size" (remove "parent" (remove "id" config)))))

  unfoldable pub v2_config : Dict RawMessage → RawMessage → RawMessage → Dict RawMessage
  unfolding delete_v1_keys
  v2_config config rootfs history =
      insert "history" history (insert "rootfs" rootfs (delete_v1_keys config))

  -- `CreateV2Config`: an assignment to an entry of a nil map panics.
  unfoldable pub create_v2_config :
      V1Manifest Digest → List Digest → List (OciHistory Time) → Call (Descriptor Digest × List ℕ)
  unfolding v2_config
  create_v2_config m diff_ids history = do
    newest ← at m.history 0
    decoded ←
        explain "unable to unmarshal config from v1 history"
          (from_result (r.unmarshal_config newest.v1_compatibility))
    rootfs ← explain "unable to convert rootfs to JSON" (from_result (r.raw_rootfs diff_ids))
    config ← deref decoded
    raw ← explain "unable to convert history to JSON" (from_result (r.raw_history history))
    bytes ←
        explain "unable to marshal config"
          (from_result (r.marshal_config (v2_config config rootfs raw)))
    value (
      record {
        media_type = "application/vnd.oci.image.config.v1+json";
        digest = r.from_bytes bytes;
        size = length bytes;
      },
      bytes,
    )

  -- The new config and the new manifest, each with its descriptor.
  unfoldable pub build :
      V1Manifest Digest → Parsed → Call (Descriptor Digest × List ℕ × Descriptor Digest × List ℕ)
  unfolding create_v2_config create_v2_manifest
  build m parsed = do
    config ←
        explain "unable to create v2 config" (create_v2_config m parsed.diff_ids parsed.history)
    manifest ← explain "unable to create v2 manifest" (create_v2_manifest config.0 parsed.layers)
    value (config.0, config.1, manifest.0, manifest.1)

  -- `ConvertV1ManifestToV2` up to the decoding of the manifest.
  abbrev pub decode_manifest : String → Descriptor Digest → State → Call (V1Manifest Digest) × State
  decode_manifest ref desc s =
      let (answer, s') = fetched "unable to fetch v1 manifest blob" s ref desc in
      (
        answer >>= (λ buf.
            explain "unable to unmarshal v1 manifest" (from_result (r.unmarshal_manifest buf))),
        s',
      )

  -- `ConvertV1ManifestToV2` from the adding to the cache on.
  unfoldable pub store :
      Descriptor Digest × List ℕ × Descriptor Digest × List ℕ
      → State
      → Call (Descriptor Digest) × State
  store (config, config_bytes, manifest, manifest_bytes) s =
      after (explained "unable to write config blob to cache" (r.add s config config_bytes))
        (λ _ s1.
          after
            (explained "unable to write manifest blob to cache" (r.add s1 manifest manifest_bytes))
            (λ _ s2. (value manifest, s2)))

  -- `ConvertV1ManifestToV2`
  unfoldable pub convert_v1_manifest_to_v2 :
      String → Descriptor Digest → State → Call (Descriptor Digest) × State
  unfolding parse_v1_manifest build store
  convert_v1_manifest_to_v2 ref desc s =
      after (decode_manifest ref desc s)
        (λ m s1. after (parse_v1_manifest ref m s1) (λ parsed s2. after (build m parsed, s2) store))
