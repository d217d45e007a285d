-- ===== src/Client/Copy/Complete.antt =====
-- A successful copy leaves nothing out (ociclient/copy.go): what the source has is at the target.
use component_cli.Prelude.{
  ℕ, zero, suc, String, ◌≡◌, sym, ◌∙◌, true, Bool-cases, some, inl, inr, List, [], ◌∷◌, ◌++◌, All,
  All-mono, arith, if◌then◌else◌,
}
use component_cli.Prelude.Result.{ok}
use component_cli.OciRef.{parse_image_ref, is_multi_arch_image}
use component_cli.Oci.{Formats, Descriptor, Index, Json}
use component_cli.Client.{Caches, Remotes, State, Action, pure, from, explain}
use component_cli.Client.Fetch.{fetch, get_raw_manifest}
use component_cli.Client.Fetch.Reads.{Reads, fetch-Reads, get_raw_manifest-Reads}
use component_cli.Client.Push.{push_raw_manifest, custom}
use component_cli.Client.Push.Uploads.{IsRegistry, Has, Uploads, Uploads-explain}
use component_cli.Client.Push.Complete.{raw_blobs, push_raw_manifest-Uploads}
use component_cli.Client.Copy.{
  Run, finish, and_then, wrapped, copy, copy_index, copy_each, sub_manifest, push_copied,
}
use component_cli.Client.Copy.Runs.{and_then-ok, wrapped-ok, explained-ok, finished-ok}

module _ (f : Formats) (c : Caches f) (r : Remotes f) (reg : IsRegistry r) (json : Json f)
    (convert : String → Descriptor f → Action f c r (Descriptor f)) where
  abbrev sub : String → Descriptor f → String
  sub repo m = sub_manifest f c r json convert repo m

  -- A relation holds between the references of all manifests of an index.
  abbrev pub IsBelow : (String → String → Type 0) → String → String → List ℕ → Type 0
  IsBelow related src tgt raw =
      (index : Index f) × (parts : String × String) × (goal : String × String)
      × (json.unmarshal_index raw ≡ ok index)
      × (parse_image_ref src ≡ ok parts)
      × (parse_image_ref tgt ≡ ok goal)
      × All (λ m. related (sub parts.0 m) (sub goal.0 m)) index.manifests

  IsBelow-mono :
      (R S : String → String → Type 0)
      → ((a b : String) → R a b → S a b)
      → (src tgt : String) (raw : List ℕ) → IsBelow R src tgt raw
      → IsBelow S src tgt raw
  IsBelow-mono R S h src tgt raw (index, parts, goal, e, e', e'', all) = (
    index,
    parts,
    goal,
    e,
    e',
    e'',
    All-mono _ _ (λ m. h (sub parts.0 m) (sub goal.0 m)) index.manifests all,
  )

  -- The registries of a state have at the target what the source answered with: the manifest or index,
  -- the blobs of a manifest, and of an index all its manifests, up to `n` levels deep.
  abbrev pub IsCopied : ℕ → State f c r → String → String → Type 0
  IsCopied zero t src tgt = ⊥
  IsCopied (suc n) t src tgt =
      (desc : Descriptor f) × (raw : List ℕ) × (seen : State f c r) × ((get_raw_manifest f c r json
          convert src seen).0
        ≡ ok (desc, raw))
      × All (λ d. Has c r reg tgt t d) (raw_blobs c r reg json desc raw ++ desc.digest ∷ [])
      × (is_multi_arch_image desc.media_type ≡ true → IsBelow (IsCopied n t) src tgt raw)

  -- Nothing that was there is gone.
  abbrev Keeps : State f c r → State f c r → Type 0
  Keeps s t = (ref : String) (d : f.images.Digest) → Has c r reg ref s d → Has c r reg ref t d

  IsCopied-Keeps :
      (n : ℕ) (t u : State f c r) (src tgt : String)
      → Keeps t u
      → IsCopied n t src tgt
      → IsCopied n u src tgt
  IsCopied-Keeps zero t u src tgt k h = h
  IsCopied-Keeps (suc n) t u src tgt k (desc, raw, seen, found, there, below) = (
    desc,
    raw,
    seen,
    found,
    All-mono _ _ (k tgt) (raw_blobs c r reg json desc raw ++ desc.digest ∷ []) there,
    λ multi.
        IsBelow-mono (IsCopied n t) (IsCopied n u) (λ a b. IsCopied-Keeps n t u a b k) src tgt raw
          (below multi),
  )

  -- A run that succeeds from `s` to `t` has copied.
  abbrev IsCopying : ℕ → (String → String → Run f c r (Unit {0})) → Type 0
  IsCopying n one =
      (src tgt : String) (s t : State f c r)
      → one src tgt s ≡ some (ok tt, t)
      → Keeps s t × IsCopied n t src tgt

  copy_each-Copied :
      (n : ℕ) (one : String → String → Run f c r (Unit {0})) (src tgt : String)
      (descs : List (Descriptor f)) (s t : State f c r)
      → IsCopying n one
      → copy_each f c r json convert one src tgt descs s ≡ some (ok tt, t)
      → Keeps s t × All (λ m. IsCopied n t (sub src m) (sub tgt m)) descs
  unfolding copy_each
  copy_each-Copied n one src tgt [] s t copying h = (λ ref d there. ground arith, tt)
  copy_each-Copied n one src tgt (desc ∷ descs) s u copying h =
      let first = one (sub src desc) (sub tgt desc) in
      let (_, t, h1, h2) =
        and_then-ok (wrapped "unable to copy sub manifest" first)
          (λ _. copy_each f c r json convert one src tgt descs) s u tt h in
      let (k, copied) =
        copying (sub src desc) (sub tgt desc) s t
          (wrapped-ok "unable to copy sub manifest" first s t tt h1) in
      let (k', rest) = copy_each-Copied n one src tgt descs t u copying h2 in
      (
        λ ref d there. k' ref d (k ref d there),
        (IsCopied-Keeps n t u (sub src desc) (sub tgt desc) k' copied, rest),
      )

  copy_index-Copied :
      (n : ℕ) (one : String → String → Run f c r (Unit {0})) (src tgt : String) (raw : List ℕ)
      (s t : State f c r)
      → IsCopying n one
      → copy_index f c r json convert one src tgt raw s ≡ some (ok tt, t)
      → Keeps s t × IsBelow (IsCopied n t) src tgt raw
  unfolding copy_index
  copy_index-Copied n one src tgt raw s t copying h =
      let decode : Action f c r (Index f) = from (json.unmarshal_index raw) in
      let parse : String → Action f c r (String × String) = λ ref. from (parse_image_ref ref) in
      let each = λ (index : Index f) (parts goal : String × String).
        copy_each f c r json convert one parts.0 goal.0 index.manifests in
      let last = λ (index : Index f) (parts : String × String).
        and_then (finish (explain "unable to parse tgt ref" (parse tgt))) (each index parts) in
      let rest = λ (index : Index f).
        and_then (finish (explain "unable to parse src ref" (parse src))) (last index) in
      let (index, s1, e1, h1) =
        and_then-ok (finish (explain "unable to unmarshal image index" decode)) rest s t tt h in
      let (parts, s2, e2, h2) =
        and_then-ok (finish (explain "unable to parse src ref" (parse src))) (last index) s1 t tt
          h1 in
      let (goal, s3, e3, h3) =
        and_then-ok (finish (explain "unable to parse tgt ref" (parse tgt))) (each index parts) s2 t
          tt h2 in
      let (found, same1) = explained-ok "unable to unmarshal image index" decode s s1 index e1 in
      let (found', same2) = explained-ok "unable to parse src ref" (parse src) s1 s2 parts e2 in
      let (found'', same3) = explained-ok "unable to parse tgt ref" (parse tgt) s2 s3 goal e3 in
      let (k, all) = copy_each-Copied n one parts.0 goal.0 index.manifests s3 t copying h3 in
      (
        λ ref d there. k ref d (rw (same1 ∙ same2 ∙ same3) at there),
        (index, parts, goal, found, found', found'', all),
      )

  copy_kids-Copied :
      (n : ℕ) (one : String → String → Run f c r (Unit {0})) (src tgt : String)
      (desc : Descriptor f) (raw : List ℕ) (s t : State f c r)
      → IsCopying n one
      → (if is_multi_arch_image desc.media_type
            then copy_index f c r json convert one src tgt raw
            else finish (pure tt))
          s
        ≡ some (ok tt, t)
      → Keeps s t
        × (is_multi_arch_image desc.media_type ≡ true → IsBelow (IsCopied n t) src tgt raw)
  copy_kids-Copied n one src tgt desc raw s t copying h =
      elim (Bool-cases (is_multi_arch_image desc.media_type)) [
        | inl e ↦
            let (k, below) = copy_index-Copied n one src tgt raw s t copying (rw e at h) in
            (k, λ _. below)
        | inr e ↦ (λ ref d there. ground arith, λ multi. absurd (ground arith))
      ]

  module _ (reading : (ref : String) (desc : Descriptor f) → Reads c r (convert ref desc)) where
    pub push_copied-Uploads :
        (src tgt : String) (desc : Descriptor f) (raw : List ℕ)
        → Uploads c r reg tgt
            (raw_blobs c r reg json desc raw ++ desc.digest ∷ [])
            (push_copied f c r json convert src tgt desc raw)
    unfolding push_copied
    push_copied-Uploads src tgt desc raw =
        Uploads-explain c r reg tgt (raw_blobs c r reg json desc raw ++ desc.digest ∷ []) _
          (push_raw_manifest f c r json tgt desc raw (some (custom (fetch f c r src))))
          (push_raw_manifest-Uploads c r reg json tgt desc raw (some (custom (fetch f c r src)))
            (λ s d. (fetch-Reads c r src d).same s))

    copy-Copied : (n : ℕ) → IsCopying n (copy f c r json convert n)
    unfolding copy push_copied
    copy-Copied zero src tgt s t h = absurd (ground arith)
    copy-Copied (suc n) src tgt s u h =
        let manifest = get_raw_manifest f c r json convert src in
        let one = copy f c r json convert n in
        let below : Descriptor f → List ℕ → Run f c r (Unit {0}) = λ desc raw.
          if is_multi_arch_image desc.media_type
          then copy_index f c r json convert one src tgt raw
          else finish (pure tt) in
        let rest : Descriptor f × List ℕ → Run f c r (Unit {0}) = λ (desc, raw).
          and_then (below desc raw)
            (λ _. finish (push_copied f c r json convert src tgt desc raw)) in
        let ((desc, raw), s1, e1, h1) =
          and_then-ok (finish (explain "unable to get manifest" manifest)) rest s u tt h in
        let (found, same1) = explained-ok "unable to get manifest" manifest s s1 (desc, raw) e1 in
        let pushing = push_copied f c r json convert src tgt desc raw in
        let (_, s2, e2, h2) = and_then-ok (below desc raw) (λ _. finish pushing) s1 u tt h1 in
        let (k, kids) = copy_kids-Copied n one src tgt desc raw s1 s2 (copy-Copied n) e2 in
        let pushed = push_copied-Uploads src tgt desc raw in
        let (success, same2) = finished-ok pushing s2 u tt h2 in
        let quiet = (get_raw_manifest-Reads c r json convert reading src).same s in
        let begin : Keeps s s1 = λ ref d there. rw (sym same1, quiet) there in
        let end : Keeps s2 u = λ ref d there. rw (sym same2) (pushed.keeps s2 ref d there) in
        (
          λ ref d there. end ref d (k ref d (begin ref d there)),
          (
            desc,
            raw,
            s,
            found,
            rw (sym same2) (pushed.brings s2 tt success),
            λ multi.
                IsBelow-mono (IsCopied n s2) (IsCopied n u) (λ a b. IsCopied-Keeps n s2 u a b end)
                  src tgt raw (kids multi),
          ),
        )

    -- After Copy has succeeded, the target has what the source answered with: the manifest or the index
    -- and, for a manifest, its config, or the dummy config where it has none, and every layer; for an
    -- index, the same of every manifest of it, by the digest in both repositories, all levels down. And
    -- nothing that any registry had is gone.
    pub copy-Complete :
        (n : ℕ) (src tgt : String) (s t : State f c r)
        → copy f c r json convert n src tgt s ≡ some (ok tt, t)
        → ((ref : String) (d : f.images.Digest) → Has c r reg ref s d → Has c r reg ref t d)
          × IsCopied n t src tgt
    copy-Complete n src tgt s t h = copy-Copied n src tgt s t h
