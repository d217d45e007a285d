-- ===== src/Client/Copy.antt =====
-- The copy of an artifact from one reference to another (ociclient/copy.go).
pub mod Runs
pub mod Terminates
pub mod Complete
pub mod Grows
use Prim.Native.String.{◌++◌ as ◌<>◌}
use component_cli.Prelude.{
  ℕ, zero, suc, String, Bool, true, false, Option, none, some, List, [], ◌∷◌, if◌then◌else◌,
}
use component_cli.Prelude.Result.{Error, wrap, Result, ok, err}
use component_cli.OciRef.{parse_image_ref, is_multi_arch_image}
use component_cli.Oci.{Formats, Descriptor, Index, Json}
use component_cli.Client.{Caches, Remotes, State, Action, pure, from, explain}
use component_cli.Client.Fetch.{fetch, get_raw_manifest}
use component_cli.Client.Push.{Store, custom, push_raw_manifest}

-- An action that may not come to an end: `none` where its fuel does not last.
abbrev pub Run : (f : Formats) (c : Caches f) (r : Remotes f) → Type 0 → Type 0
Run f c r A = State f c r → Option (Result A × State f c r)

module _ {f : Formats} {c : Caches f} {r : Remotes f} where
  abbrev pub finish : {A : Type 0} → Action f c r A → Run f c r A
  finish m s = some (m s)

  abbrev pub and_then : {A B : Type 0} → Run f c r A → (A → Run f c r B) → Run f c r B
  and_then m k s = elim (m s) [
    | none ↦ none
    | some (a, s') ↦ elim a [ ok x ↦ k x s' | err e ↦ some (err e, s') ]
  ]

  abbrev pub wrapped : {A : Type 0} → String → Run f c r A → Run f c r A
  wrapped text m s = elim (m s) [
    | none ↦ none
    | some (a, s') ↦ elim a [ ok x ↦ some (ok x, s') | err e ↦ some (err (wrap text e), s') ]
  ]

module _ (f : Formats) (c : Caches f) (r : Remotes f) (json : Json f)
    (convert : String → Descriptor f → Action f c r (Descriptor f)) where
  -- The reference of a manifest of an index.
  abbrev pub sub_manifest : String → Descriptor f → String
  sub_manifest repo desc = repo <> "@" <> f.images.text desc.digest

  -- The loop over the manifests of an index, with the copy of one.
  unfoldable pub copy_each :
      (String → String → Run f c r (Unit {0}))
      → String
      → String
      → List (Descriptor f)
      → Run f c r (Unit {0})
  copy_each one src_repo tgt_repo [] = finish (pure tt)
  copy_each one src_repo tgt_repo (desc ∷ descs) =
      and_then
        (wrapped "unable to copy sub manifest"
          (one (sub_manifest src_repo desc) (sub_manifest tgt_repo desc)))
        (λ _. copy_each one src_repo tgt_repo descs)

  -- The branch of `Copy` for an index, with the copy of a manifest of it.
  unfoldable pub copy_index :
      (String → String → Run f c r (Unit {0})) → String → String → List ℕ → Run f c r (Unit {0})
  unfolding parse_image_ref copy_each
  copy_index one src_ref tgt_ref raw =
      and_then
        (finish (explain "unable to unmarshal image index" (from (json.unmarshal_index raw))))
        (λ index.
          and_then (finish (explain "unable to parse src ref" (from (parse_image_ref src_ref))))
            (λ src.
              and_then (finish (explain "unable to parse tgt ref" (from (parse_image_ref tgt_ref))))
                (λ tgt. copy_each one src.0 tgt.0 index.manifests)))

  -- The end of `Copy`: the manifest is uploaded with a store that fetches from the source.
  unfoldable pub push_copied : String → String → Descriptor f → List ℕ → Action f c r (Unit {0})
  unfolding push_raw_manifest fetch
  push_copied src_ref tgt_ref desc raw =
      explain "unable to push manifest"
        (push_raw_manifest f c r json tgt_ref desc raw (some (custom (fetch f c r src_ref))))

  -- `Copy`, on fuel for the depth of indexes in indexes.
  unfoldable pub copy : ℕ → String → String → Run f c r (Unit {0})
  unfolding get_raw_manifest copy_index push_copied
  copy zero src_ref tgt_ref = λ s. none
  copy (suc n) src_ref tgt_ref =
      let one = copy n in
      and_then
        (finish (explain "unable to get manifest" (get_raw_manifest f c r json convert src_ref)))
        (λ (desc, raw).
          and_then
            (if is_multi_arch_image desc.media_type
              then copy_index one src_ref tgt_ref raw
              else finish (pure tt))
            (λ _. finish (push_copied src_ref tgt_ref desc raw)))
