-- ===== src/Cache/Layered.antt =====
-- `layeredCache` of ociclient/cache/cache.go: a cache on a base file system with an optional overlay
-- in memory, whose blobs are verified against their descriptor whenever they are read.
pub mod Verified
pub mod RoundTrip
use mathlib.Core.Option
use component_cli.Prelude.{
  ℕ, String, Bool, true, false, Option, none, some, List, nat_eq, if◌then◌else◌,
}
use component_cli.Prelude.Result.{
  Error, not_found, wrap, Result, ok, err, ◌>>=◌, context, is_not_exist,
}
use component_cli.Cache.Platform.{Floats, FileInfo, Vfs}
use component_cli.Cache.Index
use component_cli.Cache.FileSystem.{Fs, create, open_file, remove, delete_all, close}

-- Digests (github.com/opencontainers/go-digest): the hexadecimal part by which a blob's file is named,
-- the whole text, and the check of a content against the digest.
pub record Digests : Type 1 where
  pub Digest : Type 0
  pub encoded : Digest → String
  pub text : Digest → String
  pub verifies : Digest → List ℕ → Bool

-- The fields of an OCI descriptor that the cache reads.
pub record Descriptor (Digest : Type 0) : Type 0 where
  pub digest : Digest
  pub size : ℕ

pub record Info : Type 0 where
  pub size : ℕ
  pub current_size : ℕ
  pub items_count : ℕ

module _ (fl : Floats) (v : Vfs) (dg : Digests) where
  open v use {Files}
  open dg use {Digest, encoded, verifies}

  pub record LayeredCache : Type 0 where
    pub base_fs : Fs fl v
    pub overlay_fs : Option (Fs fl v)

  -- `verifyBlob`
  unfoldable pub verify_blob : Files → FileInfo → String → Descriptor Digest → Result Bool
  verify_blob files info dgst desc =
      let content : Result Bool = elim (v.read files dgst) [
        | err e ↦ err e
        | ok bytes ↦ ok (verifies desc.digest bytes)
      ] in
      if nat_eq info.size desc.size then content else ok false

  -- What `get` and `getFromOverlay` do with a blob once its verification has answered.
  unfoldable pub read_verified : Fs fl v → String → Result Bool → Result (List ℕ) × Fs fl v
  read_verified fs dgst (err e) = (err (wrap "unable to verify blob" e), fs)
  read_verified fs dgst (ok false) = (err not_found, (remove fl v fs dgst).1)
  read_verified fs dgst (ok true) = open_file fl v fs dgst

  -- `getFromOverlay` with an overlay.
  unfoldable pub get_from_overlay : Fs fl v → String → Descriptor Digest → Result (List ℕ) × Fs fl v
  unfolding read_verified
  get_from_overlay fs dgst desc = elim (v.stat fs.files dgst) [
    | err e ↦ (err not_found, fs)
    | ok info ↦ read_verified fs dgst (verify_blob fs.files info dgst desc)
  ]

  -- The copy of a blob that was read from the base into the overlay. An error there is only logged,
  -- but for one in setting the base's file back to its beginning.
  unfoldable pub copy_to_overlay :
      Files → Option (Fs fl v) → String → ℕ → List ℕ → ℕ → Option Error × Option (Fs fl v)
  copy_to_overlay base none dgst size bytes now = (none, none)
  copy_to_overlay base (some fs) dgst size bytes now =
      let (e, fs') = create fl v fs dgst size now in
      let written = (v.write fs'.files dgst bytes).1 in
      let failed : Option Error = elim (v.seek base dgst) [
        | none ↦ none
        | some failure ↦ some (wrap "unable to reset the file handle" failure)
      ] in
      elim e [
        | some failure ↦ (none, some fs')
        | none ↦ (failed, some (record fs' { files = written }))
      ]

  -- The branch of `get` that reads the base, at the time `now`.
  unfoldable pub get_from_base :
      LayeredCache → String → Descriptor Digest → ℕ → Result (List ℕ) × LayeredCache
  unfolding read_verified copy_to_overlay
  get_from_base lc dgst desc now = elim (v.stat lc.base_fs.files dgst) [
    | err e ↦ (if is_not_exist e then err not_found else err e, lc)
    | ok info ↦
        let (read, base) =
          read_verified lc.base_fs dgst (verify_blob lc.base_fs.files info dgst desc) in
        elim read [
          | err e ↦ (err e, record lc { base_fs = base })
          | ok bytes ↦
              let (failed, overlay) =
                copy_to_overlay base.files lc.overlay_fs dgst info.size bytes now in
              (
                elim failed [ none ↦ ok bytes | some failure ↦ err failure ],
                record { base_fs = base; overlay_fs = overlay },
              )
        ]
  ]

  abbrev pub with_overlay :
      LayeredCache
      → String
      → Descriptor Digest
      → ℕ
      → Option (Fs fl v)
      → (LayeredCache → Result (List ℕ) × LayeredCache)
      → Result (List ℕ) × LayeredCache
  with_overlay lc dgst desc now none base = base lc
  with_overlay lc dgst desc now (some fs) base =
      let (read, fs') = get_from_overlay fs dgst desc in
      let lc' = record lc { overlay_fs = some fs' } in
      elim read [ ok bytes ↦ (ok bytes, lc') | err e ↦ base lc' ]

  -- `get`, on the file name of the blob: the overlay first, and on any error the base.
  unfoldable pub get_file :
      LayeredCache → String → Descriptor Digest → ℕ → Result (List ℕ) × LayeredCache
  unfolding get_from_overlay
  get_file lc dgst desc now =
      with_overlay lc dgst desc now lc.overlay_fs (λ lc'. get_from_base lc' dgst desc now)

  -- `Get`
  unfoldable pub get : LayeredCache → Descriptor Digest → ℕ → Result (List ℕ) × LayeredCache
  unfolding get_file
  get lc desc now = get_file lc (encoded desc.digest) desc now

  -- `Add` of the content of a reader, at the time `now`.
  unfoldable pub add : LayeredCache → Descriptor Digest → List ℕ → ℕ → Option Error × LayeredCache
  add lc desc content now =
      let path = encoded desc.digest in
      let (e, fs) = create fl v lc.base_fs path desc.size now in
      let (failed, files) = v.write fs.files path content in
      elim e [
        | some failure ↦ (some failure, record lc { base_fs = fs })
        | none ↦ (failed, record lc { base_fs = record fs { files = files } })
      ]

  -- `Info`
  unfoldable pub info : LayeredCache → Info
  info lc = record {
    size = lc.base_fs.size;
    current_size = lc.base_fs.current_size;
    items_count = Index.len lc.base_fs.index;
  }

  -- `Prune`
  unfoldable pub prune : LayeredCache → Option Error × LayeredCache
  prune lc = let (e, fs) = delete_all fl v lc.base_fs in (e, record lc { base_fs = fs })

  -- `Close`: `none` where it never returns.
  unfoldable pub close_cache : LayeredCache → Option LayeredCache
  close_cache lc =
      let overlay : Option (Option (Fs fl v)) = elim lc.overlay_fs [
        | none ↦ some none
        | some fs ↦ Option.map some (close fl v fs)
      ] in
      elim (close fl v lc.base_fs) [
        | none ↦ none
        | some base ↦ Option.map (λ o. record { base_fs = base; overlay_fs = o }) overlay
      ]
