-- ===== src/Client/Copy/Terminates.antt =====
-- The copy of an artifact comes to an end (ociclient/copy.go).
use component_cli.Prelude.{
  ℕ, zero, suc, String, ◌≡◌, refl, true, some, List, [], ◌∷◌, All, All-mono,
}
use component_cli.Prelude.Result.{Result, ok}
use component_cli.OciRef.{parse_image_ref, is_multi_arch_image}
use component_cli.Oci.{Formats, Descriptor, Index, Json}
use component_cli.Client.{Caches, Remotes, State, Action, pure, from, explain}
use component_cli.Client.Fetch.{get_raw_manifest}
use component_cli.Client.Copy.{Run, finish, copy, copy_index, copy_each, sub_manifest, push_copied}
use component_cli.Client.Copy.Runs.{
  Ends, Ends-if, finish-Ends, explained-ok, and_then-Ends, wrapped-Ends,
}

module _ (f : Formats) (c : Caches f) (r : Remotes f) (json : Json f)
    (convert : String → Descriptor f → Action f c r (Descriptor f)) where
  -- What a reference answers with has at most so many levels of indexes, whenever it is asked.
  abbrev pub IsNested : ℕ → String → Type 0
  IsNested zero ref = ⊥
  IsNested (suc n) ref =
      (s : State f c r) (desc : Descriptor f) (raw : List ℕ) (index : Index f)
      (parts : String × String)
      → (get_raw_manifest f c r json convert ref s).0 ≡ ok (desc, raw)
      → is_multi_arch_image desc.media_type ≡ true
      → json.unmarshal_index raw ≡ ok index
      → parse_image_ref ref ≡ ok parts
      → All (λ m. IsNested n (sub_manifest f c r json convert parts.0 m)) index.manifests

  copy_each-Ends :
      (one : String → String → Run f c r (Unit {0})) (src tgt : String)
      (descs : List (Descriptor f))
      → All
          (λ m.
            Ends
              (one (sub_manifest f c r json convert src m) (sub_manifest f c r json convert tgt m)))
          descs
      → Ends (copy_each f c r json convert one src tgt descs)
  unfolding copy_each
  copy_each-Ends one src tgt [] h = record { ends = λ s. ((ok tt, s), refl) }
  copy_each-Ends one src tgt (desc ∷ descs) h =
      and_then-Ends _ (λ _. copy_each f c r json convert one src tgt descs)
        (wrapped-Ends "unable to copy sub manifest" _ h.0)
        (λ s t a e. copy_each-Ends one src tgt descs h.1)

  copy_index-Ends :
      (one : String → String → Run f c r (Unit {0})) (src tgt : String) (raw : List ℕ)
      → ((index : Index f) (parts goal : String × String)
          → json.unmarshal_index raw ≡ ok index
          → parse_image_ref src ≡ ok parts
          → All
              (λ m. Ends (
                one
                  (sub_manifest f c r json convert parts.0 m)
                  (sub_manifest f c r json convert goal.0 m)))
              index.manifests)
      → Ends (copy_index f c r json convert one src tgt raw)
  unfolding copy_index
  copy_index-Ends one src tgt raw h =
      and_then-Ends _ _
        (finish-Ends (explain "unable to unmarshal image index" (from (json.unmarshal_index raw))))
        (λ s t index e.
          and_then-Ends _ _
            (finish-Ends (explain "unable to parse src ref" (from (parse_image_ref src))))
            (λ s' t' parts e'.
              and_then-Ends _ _
                (finish-Ends (explain "unable to parse tgt ref" (from (parse_image_ref tgt))))
                (λ _ _ goal _. copy_each-Ends one parts.0 goal.0 index.manifests (
                  h index parts goal
                    (explained-ok "unable to unmarshal image index"
                      (from (json.unmarshal_index raw)) s t index e).0
                    (explained-ok "unable to parse src ref" (from (parse_image_ref src)) s' t' parts
                      e').0))))

  copy-Ends : (n : ℕ) (src tgt : String) → IsNested n src → Ends (copy f c r json convert n src tgt)
  unfolding copy
  copy-Ends zero src tgt h = absurd h
  copy-Ends (suc n) src tgt h =
      let reading = get_raw_manifest f c r json convert src in
      and_then-Ends _ _ (finish-Ends (explain "unable to get manifest" reading))
        (λ s t (desc, raw) e.
          and_then-Ends _ _
            (Ends-if (is_multi_arch_image desc.media_type) _ (finish (pure tt))
              (λ multi.
                copy_index-Ends (copy f c r json convert n) src tgt raw (λ index parts goal e' e''.
                  All-mono _ _ (λ m. copy-Ends n _ (sub_manifest f c r json convert goal.0 m))
                    index.manifests
                    (h s desc raw index parts
                      (explained-ok "unable to get manifest" reading s t (desc, raw) e).0 multi e'
                      e'')))
              (finish-Ends (pure tt)))
            (λ _ _ _ _. finish-Ends (push_copied f c r json convert src tgt desc raw)))

  -- Copy comes to an end, with success or an error, with fuel for as many levels of indexes as there
  -- are below the source.
  pub copy-terminates :
      (n : ℕ) (src tgt : String) (s : State f c r)
      → IsNested n src
      → (answer : Result (Unit {0}) × State f c r) × (copy f c r json convert n src tgt s
          ≡ some answer)
  copy-terminates n src tgt s h = (copy-Ends n src tgt h).ends s
