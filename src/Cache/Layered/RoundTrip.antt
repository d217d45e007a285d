-- ===== src/Cache/Layered/RoundTrip.antt =====
-- Adding a blob and getting it back, and getting one whose file was damaged. What is asked of the file system is said by `KeepsFiles`.
use component_cli.Prelude.{
  ap, ◌∙◌, Option, some, refl, inl, inr, ◌⊎◌, Option-cases, ℕ, String, ◌≡◌, true, none, List,
  length, nat_eq_iff, arith,
}
use component_cli.Prelude.Result.{Result, Error, Result-cases, not_exist, ok, err}
use component_cli.Cache.Platform.{Floats, FileInfo, Vfs}
use component_cli.Cache.FileSystem.{Fs, create, open_file, remove}
use component_cli.Cache.Layered.Verified.{get-verifies}
use component_cli.Cache.Layered.{
  Digests, Descriptor, LayeredCache, copy_to_overlay, get_from_overlay, get_file, verify_blob,
  get_from_base, get, add,
}

-- A file that was created and written has its content and its size, and one that was removed is gone.
pub record KeepsFiles (v : Vfs) : Type 0 where
  pub read_written :
      (files : v.Files) (path : String) (content : List ℕ)
      → (v.create files path).0 ≡ none
      → (v.write (v.create files path).1 path content).0 ≡ none
      → v.read (v.write (v.create files path).1 path content).1 path ≡ ok content
  pub stat_written :
      (files : v.Files) (path : String) (content : List ℕ)
      → (v.create files path).0 ≡ none
      → (v.write (v.create files path).1 path content).0 ≡ none
      → (info : FileInfo) × (v.stat (v.write (v.create files path).1 path content).1 path ≡ ok info)
        × (info.size ≡ length content)
  pub stat_removed :
      (files : v.Files) (path : String)
      → (v.remove files path).0 ≡ none
      → v.stat (v.remove files path).1 path ≡ err not_exist

module _ (fl : Floats) (v : Vfs) (dg : Digests) (keeps : KeepsFiles v) where
  copy_to_overlay-ok :
      (files : v.Files) (o : Option (Fs fl v)) (path : String) (size : ℕ) (bytes : List ℕ) (now : ℕ)
      → v.seek files path ≡ none
      → (copy_to_overlay fl v dg files o path size bytes now).0 ≡ none
  unfolding copy_to_overlay
  copy_to_overlay-ok files none path size bytes now h = refl
  copy_to_overlay-ok files (some fs) path size bytes now h = ground arith

  -- The base has the blob that was added, with whatever overlay.
  get_from_base-add :
      (lc : LayeredCache fl v dg) (o : Option (Fs fl v)) (desc : Descriptor dg.Digest)
      (content : List ℕ) (now later : ℕ)
      → (add fl v dg lc desc content now).0 ≡ none
      → desc.size ≡ length content
      → dg.verifies desc.digest content ≡ true
      → v.seek (add fl v dg lc desc content now).1.base_fs.files (dg.encoded desc.digest) ≡ none
      → (get_from_base fl v dg
          (record (add fl v dg lc desc content now).1 { overlay_fs = o })
          (dg.encoded desc.digest)
          desc
          later).0
        ≡ ok content
  unfolding add get_from_base create verify_blob open_file
  get_from_base-add lc o desc content now later added size good seek =
      let path = dg.encoded desc.digest in
      let (info, found, sized) =
        keeps.stat_written lc.base_fs.files path content (ground arith) (ground arith) in
      let back = keeps.read_written lc.base_fs.files path content (ground arith) (ground arith) in
      ground (
        arith,
        found,
        back,
        sized,
        nat_eq_iff info.size desc.size,
        copy_to_overlay-ok (v.write (v.create lc.base_fs.files path).1 path content).1 o path
            info.size content later,
      )

  add-overlay :
      (lc : LayeredCache fl v dg) (desc : Descriptor dg.Digest) (content : List ℕ) (now : ℕ)
      → (add fl v dg lc desc content now).1.overlay_fs ≡ lc.overlay_fs
  unfolding add
  add-overlay lc desc content now = ground arith

  get-alone :
      (lc : LayeredCache fl v dg) (desc : Descriptor dg.Digest) (now : ℕ)
      → lc.overlay_fs ≡ none
      → get fl v dg lc desc now
        ≡ get_from_base fl v dg (record lc { overlay_fs = none }) (dg.encoded desc.digest) desc now
  unfolding get get_file
  get-alone lc desc now e = rw (get, get_file, e) refl

  get-overlaid :
      (lc : LayeredCache fl v dg) (fs : Fs fl v) (desc : Descriptor dg.Digest) (now : ℕ)
      (bytes : List ℕ)
      → lc.overlay_fs ≡ some fs
      → (get_from_overlay fl v dg fs (dg.encoded desc.digest) desc).0 ≡ ok bytes
      → (get fl v dg lc desc now).0 ≡ ok bytes
  unfolding get get_file
  get-overlaid lc fs desc now bytes e h = ground arith

  get-below :
      (lc : LayeredCache fl v dg) (fs : Fs fl v) (desc : Descriptor dg.Digest) (now : ℕ)
      (failure : Error)
      → lc.overlay_fs ≡ some fs
      → (get_from_overlay fl v dg fs (dg.encoded desc.digest) desc).0 ≡ err failure
      → get fl v dg lc desc now
        ≡ get_from_base fl v dg
            (record lc {
              overlay_fs = some (get_from_overlay fl v dg fs (dg.encoded desc.digest) desc).1;
            })
            (dg.encoded desc.digest)
            desc
            now
  unfolding get get_file
  get-below lc fs desc now failure e h = ground arith

  -- The overlay has answered with this.
  abbrev pub IsFromOverlay : LayeredCache fl v dg → Descriptor dg.Digest → List ℕ → Type 0
  IsFromOverlay lc desc bytes =
      (o : Fs fl v) × (lc.overlay_fs ≡ some o)
      × ((get_from_overlay fl v dg o (dg.encoded desc.digest) desc).0 ≡ ok bytes)

  -- A blob that was added without an error, and that is what its descriptor says, is got back by the next
  -- call, before any collection removes it: what Get answers with is the blob, or else what an overlay
  -- has under the digest and what verifies against it. It is asked that the file system keeps files, and
  -- that the base's file can be set back to its start.
  pub get-add :
      (lc : LayeredCache fl v dg) (desc : Descriptor dg.Digest) (content : List ℕ) (now later : ℕ)
      → (add fl v dg lc desc content now).0 ≡ none
      → desc.size ≡ length content
      → dg.verifies desc.digest content ≡ true
      → v.seek (add fl v dg lc desc content now).1.base_fs.files (dg.encoded desc.digest) ≡ none
      → (bytes : List ℕ) × ((get fl v dg (add fl v dg lc desc content now).1 desc later).0
          ≡ ok bytes)
        × (dg.verifies desc.digest bytes ≡ true)
        × ((bytes ≡ content) ⊎ IsFromOverlay lc desc bytes)
  unfolding get get_file
  get-add lc desc content now later added size good seek =
      let path = dg.encoded desc.digest in
      let lc' = (add fl v dg lc desc content now).1 in
      let base = λ (o : Option (Fs fl v)).
        get_from_base-add lc o desc content now later added size good seek in
      let kept = add-overlay lc desc content now in
      elim (Option-cases lc.overlay_fs) [
        | inl e ↦ (
          content,
          ap (λ (x : Result (List ℕ) × LayeredCache fl v dg). x.0)
                (get-alone lc' desc later (kept ∙ e))
              ∙ base none,
          good,
          inl refl,
        )
        | inr (fs, e) ↦ elim (Result-cases (get_from_overlay fl v dg fs path desc).0) [
          | inl (bytes, e') ↦
              let there = get-overlaid lc' fs desc later bytes (kept ∙ e) e' in
              (bytes, there, get-verifies fl v dg lc' desc later bytes there, inr (fs, e, e'))
          | inr (failure, e') ↦ (
            content,
            ap (λ (x : Result (List ℕ) × LayeredCache fl v dg). x.0)
                  (get-below lc' fs desc later failure (kept ∙ e) e')
                ∙ base (some (get_from_overlay fl v dg fs path desc).1),
            good,
            inl refl,
          )
        ]
      ]

  -- An overlay that does not have the file.
  abbrev pub Lacks : Option (Fs fl v) → String → Type 0
  Lacks none path = Unit
  Lacks (some fs) path = (e : Error) × (v.stat fs.files path ≡ err e)
