-- ===== src/ManifestV1/Config.antt =====
-- What the config and the manifest of a conversion are.
use component_cli.Prelude.{
  ap, ◌∙◌, ℕ, String, ◌≡◌, refl, Bool, ◌||◌, none, some, inl, inr, List, length, ◌==◌, arith,
  if◌then◌else◌,
}
use component_cli.Prelude.Result.{Result, ok, err}
use component_cli.Prelude.Dict.{Dict, lookup, lookup-insert, lookup-remove}
use component_cli.Prelude.Call.{
  Call, explain, from_result, deref, >>=-eq-value, error, panic, value, Call-cases,
}
use component_cli.ManifestV1.{
  History, at, Descriptor, Registry, delete_v1_keys, v2_config, create_v2_manifest,
  create_v2_config, Parsed, build, V1Manifest,
}

-- The keys of a v1 history entry that a config does not have.
unfoldable pub is_v1_key : String → Bool
is_v1_key k =
    "id" == k
    || "parent" == k
    || "Size" == k
    || "parent_id" == k
    || "layer_id" == k
    || "throwaway" == k

result_of : {A : Type 0} → Result A → Call A → Result A
result_of other (value a) = ok a
result_of other (error e) = other
result_of other panic = other

pub from_ok :
    {A : Type 0} (text : String) (m : Result A) (a : A)
    → explain text (from_result m) ≡ value a
    → m ≡ ok a
unfolding result_of
from_ok text (ok b) a h = ap (result_of (ok b)) h
from_ok text (err e) a h = cc

module _ (r : Registry) where
  lookup-delete_v1_keys :
      (k : String) (config : Dict r.RawMessage)
      → lookup k (delete_v1_keys r config) ≡ (if is_v1_key k then none else lookup k config)
  unfolding delete_v1_keys is_v1_key
  lookup-delete_v1_keys k config = simp lookup-remove (ground arith)

  -- The new config has the new root file system and history, none of the keys that only a v1 history
  -- has, and every other key as it was.
  lookup-v2_config :
      (k : String) (config : Dict r.RawMessage) (rootfs history : r.RawMessage)
      → lookup k (v2_config r config rootfs history) ≡ (
          if "history" == k
          then some history
          else if "rootfs" == k
          then some rootfs
          else if is_v1_key k
          then none
          else lookup k config)
  unfolding v2_config
  lookup-v2_config k config rootfs history =
      rw (lookup-insert, lookup-insert, lookup-delete_v1_keys) refl

  -- The bytes of a config: those of a dictionary with the new root file system and history, the digests
  -- of the layers' contents and the history that was read, and else with the old config's keys but for
  -- those that only a v1 history has.
  pub record IsConfig (m : V1Manifest r.Digest) (parsed : Parsed r) (bytes : List ℕ) : Type 0 where
    pub newest : History
    pub first : at m.history 0 ≡ value newest
    pub old : Dict r.RawMessage
    pub decoded : r.unmarshal_config newest.v1_compatibility ≡ ok (some old)
    pub rootfs : r.RawMessage
    pub raw_rootfs : r.raw_rootfs parsed.diff_ids ≡ ok rootfs
    pub history : r.RawMessage
    pub raw_history : r.raw_history parsed.history ≡ ok history
    pub new : Dict r.RawMessage
    pub marshaled : r.marshal_config new ≡ ok bytes
    pub entries :
        (k : String)
        → lookup k new ≡ (
            if "history" == k
            then some history
            else if "rootfs" == k
            then some rootfs
            else if is_v1_key k
            then none
            else lookup k old)

  -- The config and the manifest that are made of a manifest of schema 1: the manifest has the config's
  -- descriptor and the layers that were read, and both descriptors have the digest and the length of the
  -- bytes.
  pub record IsMade (m : V1Manifest r.Digest) (parsed : Parsed r)
      (config manifest : Descriptor r.Digest) (config_bytes manifest_bytes : List ℕ) : Type 0 where
    pub configured : IsConfig m parsed config_bytes
    pub config_digest : config.digest ≡ r.from_bytes config_bytes
    pub config_size : config.size ≡ length config_bytes
    pub marshaled :
        r.marshal_manifest (record { schema_version = 2; config = config; layers = parsed.layers })
        ≡ ok manifest_bytes
    pub manifest_digest : manifest.digest ≡ r.from_bytes manifest_bytes
    pub manifest_size : manifest.size ≡ length manifest_bytes

  config-IsConfig :
      (m : V1Manifest r.Digest) (parsed : Parsed r) (config : Descriptor r.Digest) (bytes : List ℕ)
      → create_v2_config r m parsed.diff_ids parsed.history ≡ value (config, bytes)
      → IsConfig m parsed bytes
        × (config.digest ≡ r.from_bytes bytes)
        × (config.size ≡ length bytes)
  unfolding create_v2_config
  config-IsConfig m parsed config bytes h =
      let (newest, e1, h1) = >>=-eq-value (at m.history 0) _ h in
      let (decoded, e2, h2) =
        >>=-eq-value
          (explain "unable to unmarshal config from v1 history"
            (from_result (r.unmarshal_config newest.v1_compatibility)))
          _ h1 in
      let (rootfs, e3, h3) =
        >>=-eq-value
          (explain "unable to convert rootfs to JSON" (from_result (r.raw_rootfs parsed.diff_ids)))
          _ h2 in
      let (old, e4, h4) = >>=-eq-value (deref decoded) _ h3 in
      let (history, e5, h5) =
        >>=-eq-value
          (explain "unable to convert history to JSON" (from_result (r.raw_history parsed.history)))
          _ h4 in
      let (made, e6, h6) =
        >>=-eq-value
          (explain "unable to marshal config"
            (from_result (r.marshal_config (v2_config r old rootfs history))))
          _ h5 in
      let same : made ≡ bytes = ground arith in
      (
        record {
          newest = newest;
          first = e1;
          old = old;
          decoded = ground (arith, e2, e4);
          rootfs = rootfs;
          raw_rootfs = from_ok _ (r.raw_rootfs parsed.diff_ids) rootfs e3;
          history = history;
          raw_history = from_ok _ (r.raw_history parsed.history) history e5;
          new = v2_config r old rootfs history;
          marshaled =
              from_ok _ (r.marshal_config (v2_config r old rootfs history)) made e6 ∙ ap ok same;
          entries = λ k. lookup-v2_config k old rootfs history;
        },
        ground arith,
        ground arith,
      )

  pub build-IsMade :
      (m : V1Manifest r.Digest) (parsed : Parsed r) (config manifest : Descriptor r.Digest)
      (config_bytes manifest_bytes : List ℕ)
      → build r m parsed ≡ value (config, config_bytes, manifest, manifest_bytes)
      → IsMade m parsed config manifest config_bytes manifest_bytes
  unfolding build create_v2_manifest
  build-IsMade m parsed config manifest config_bytes manifest_bytes h =
      elim (Call-cases (create_v2_config r m parsed.diff_ids parsed.history)) [
        | inl ((config', bytes'), e) ↦
            elim (Call-cases (create_v2_manifest r config' parsed.layers)) [
              | inl ((manifest', made), e') ↦
                  let from_config : create_v2_config r m parsed.diff_ids parsed.history
                      ≡ value (config, config_bytes) =
                    ground arith in
                  let from_layers : create_v2_manifest r config parsed.layers
                      ≡ value (manifest, manifest_bytes) =
                    ground arith in
                  let (is_config, digest, size) =
                    config-IsConfig m parsed config config_bytes from_config in
                  record {
                    configured = is_config;
                    config_digest = digest;
                    config_size = size;
                    marshaled = ground arith;
                    manifest_digest = ground arith;
                    manifest_size = ground arith;
                  }
              | inr (inl (failure, e')) ↦ absurd (ground arith)
              | inr (inr e') ↦ absurd (ground arith)
            ]
        | inr (inl (failure, e)) ↦ absurd (ground arith)
        | inr (inr e) ↦ absurd (ground arith)
      ]
