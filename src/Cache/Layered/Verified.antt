-- ===== src/Cache/Layered/Verified.antt =====
-- What a cache hands out was verified, and a blob that does not verify goes.
use component_cli.Prelude.{ℕ, String, ◌≡◌, true, inl, inr, some, List, arith, Option-cases}
use component_cli.Prelude.Result.{ok, Result-cases}
use component_cli.Cache.Platform.{Floats, FileInfo, Vfs}
use component_cli.Cache.FileSystem.{Fs, open_file}
use component_cli.Cache.Layered.{
  Digests, Descriptor, LayeredCache, verify_blob, read_verified, get_from_overlay, get_from_base,
  get_file, get,
}

module _ (fl : Floats) (v : Vfs) (dg : Digests) where
  read_verified_sound :
      (fs : Fs fl v) (info : FileInfo) (dgst : String) (desc : Descriptor dg.Digest)
      (bytes : List ℕ)
      → (read_verified fl v dg fs dgst (verify_blob fl v dg fs.files info dgst desc)).0 ≡ ok bytes
      → dg.verifies desc.digest bytes ≡ true
  unfolding read_verified verify_blob open_file
  read_verified_sound fs info dgst desc bytes h = ground arith

  overlay_sound :
      (fs : Fs fl v) (dgst : String) (desc : Descriptor dg.Digest) (bytes : List ℕ)
      → (get_from_overlay fl v dg fs dgst desc).0 ≡ ok bytes
      → dg.verifies desc.digest bytes ≡ true
  unfolding get_from_overlay
  overlay_sound fs dgst desc bytes h = elim (Result-cases (v.stat fs.files dgst)) [
    | inl (info, e) ↦ read_verified_sound fs info dgst desc bytes (rw (e, get_from_overlay) at h)
    | inr (failure, e) ↦ absurd (ground arith)
  ]

  base_sound :
      (lc : LayeredCache fl v dg) (dgst : String) (desc : Descriptor dg.Digest) (now : ℕ)
      (bytes : List ℕ)
      → (get_from_base fl v dg lc dgst desc now).0 ≡ ok bytes
      → dg.verifies desc.digest bytes ≡ true
  unfolding get_from_base
  base_sound lc dgst desc now bytes h = elim (Result-cases (v.stat lc.base_fs.files dgst)) [
    | inl (info, e) ↦ ground (arith, read_verified_sound lc.base_fs info dgst desc bytes)
    | inr (failure, e) ↦ absurd (ground arith)
  ]

  get_file_sound :
      (lc : LayeredCache fl v dg) (dgst : String) (desc : Descriptor dg.Digest) (now : ℕ)
      (bytes : List ℕ)
      → (get_file fl v dg lc dgst desc now).0 ≡ ok bytes
      → dg.verifies desc.digest bytes ≡ true
  unfolding get_file
  get_file_sound lc dgst desc now bytes h = elim (Option-cases lc.overlay_fs) [
    | inl e ↦ ground (arith, base_sound lc dgst desc now bytes)
    | inr (fs, e) ↦
        let tried = record lc { overlay_fs = some (get_from_overlay fl v dg fs dgst desc).1 } in
        ground (arith, overlay_sound fs dgst desc bytes, base_sound tried dgst desc now bytes)
  ]

  -- Whatever Get returns, from the overlay or from the base, verifies against the descriptor's digest.
  pub get-verifies :
      (lc : LayeredCache fl v dg) (desc : Descriptor dg.Digest) (now : ℕ) (bytes : List ℕ)
      → (get fl v dg lc desc now).0 ≡ ok bytes
      → dg.verifies desc.digest bytes ≡ true
  unfolding get
  get-verifies lc desc now bytes h = get_file_sound lc (dg.encoded desc.digest) desc now bytes h
