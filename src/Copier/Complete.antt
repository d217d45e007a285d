-- ===== src/Copier/Complete.antt =====
-- A successful copy of a component leaves nothing out (pkg/commands/componentarchive/remote/copy.go).
use component_cli.Prelude.{
  ℕ, zero, suc, String, ◌≡◌, ◌⊎◌, Bool, true, false, not, ◌&&◌, some, inl, inr, List, [], ◌∷◌, ◌++◌,
  All, All-mono, arith, if◌then◌else◌,
}
use component_cli.Prelude.Result.{ok}
use component_cli.Oci.{Formats, Descriptor, Manifest, Json}
use component_cli.Client.{Caches, Remotes, State, Action, pure}
use component_cli.Client.Fetch.Reads.{Reads}
use component_cli.Client.Push.Uploads.{IsRegistry, Has}
use component_cli.Client.Push.Complete.{blobs_of}
use component_cli.Client.Copy
use component_cli.Client.Copy.{Run, finish, and_then}
use component_cli.Client.Copy.Runs.{and_then-ok, finished-ok}
use component_cli.Client.Copy.Grows.{Grows, copy-Grows}
use component_cli.Copier.{Component, Components, Options}
use component_cli.Copier.Attempts.{
  upload_component, unless_there, copy_references, copy_once, copy_component,
}
use component_cli.Copier.Uploaded.{IsUploaded, upload_component-Uploaded}
use component_cli.Copier.Retries.{retry-ok}
use component_cli.Copier.Grows.{
  IsReader, unless_there_ran, unless_there-Grows, upload_component-Grows, copy_references-Grows,
  copy_component-Grows,
}

module _ {f : Formats} {c : Caches f} {r : Remotes f} (reg : IsRegistry r) (k : Components f c r)
    (o : Options k) (json : Json f) (reader : IsReader k)
    (copy_artifact : String → String → Run f c r (Unit {0}))
    (growing : (a b : String) → Grows reg (copy_artifact a b))
    (back : (m : Manifest f) (raw : List ℕ)
      → json.marshal_manifest m ≡ ok raw
      → json.unmarshal_manifest raw ≡ ok m) where
  Keeps : State f c r → State f c r → Type 0
  Keeps s t = (ref : String) (d : f.images.Digest) → Has c r reg ref s d → Has c r reg ref t d

  -- A component has been copied: what the source answered with has been uploaded, or the target has
  -- answered with a component of this name and version; and in a recursive copy, so have been all
  -- components that it refers to, up to `n` levels deep.
  abbrev pub IsCopied : ℕ → State f c r → String → String → Type 0
  IsCopied zero t name version = ⊥
  IsCopied (suc n) t name version =
      (cd : Component k.Access k.Repository) × (blobs : k.Blobs) × (seen : State f c r)
      × ((k.resolve_with_blobs o.src_repo_ctx name version seen).0 ≡ ok (cd, blobs))
      × (o.recursive ≡ true → All (λ ref. IsCopied n t ref.0 ref.1) cd.references)
      × (IsUploaded reg k o json reader copy_artifact growing back t cd blobs name version
          ⊎ (((not o.force && not o.copy_by_value) ≡ true)
              × (at : State f c r) × (there : Component k.Access k.Repository) × ((k.resolve
                    o.target_repo_ctx name version at).0
                  ≡ ok there)))

  IsCopied-Keeps :
      (n : ℕ) (t u : State f c r) (name version : String)
      → Keeps t u
      → IsCopied n t name version
      → IsCopied n u name version
  unfolding Keeps
  IsCopied-Keeps zero t u name version h copied = copied
  IsCopied-Keeps (suc n) t u name version h (cd, blobs, seen, e, below, inr already) = (
    cd,
    blobs,
    seen,
    e,
    λ rec. All-mono _ _ (λ ref. IsCopied-Keeps n t u ref.0 ref.1 h) cd.references (below rec),
    inr already,
  )
  IsCopied-Keeps (suc n) t u name version h
        (
          cd,
          blobs,
          seen,
          e,
          below,
          inl (cd', e1, found, s1, s2, e2, added, built, e3, ref, e4, raw, e5, there),
        ) =
      (
        cd,
        blobs,
        seen,
        e,
        λ rec.
            All-mono _ _ (λ ref'. IsCopied-Keeps n t u ref'.0 ref'.1 h) cd.references (below rec),
        inl (
          cd',
          e1,
          found,
          s1,
          s2,
          e2,
          added,
          built,
          e3,
          ref,
          e4,
          raw,
          e5,
          All-mono _ _ (h ref)
              (blobs_of json (record built { layers = built.layers ++ found.layers })
                ++ f.from_bytes raw ∷ [])
              there,
        ),
      )

  All-Keeps :
      (n : ℕ) (t u : State f c r)
      → Keeps t u
      → (refs : List (String × String)) → All (λ ref. IsCopied n t ref.0 ref.1) refs
      → All (λ ref. IsCopied n u ref.0 ref.1) refs
  All-Keeps n t u h refs = All-mono _ _ (λ ref. IsCopied-Keeps n t u ref.0 ref.1 h) refs

  -- A run that succeeds has copied, and a run keeps what was there.
  IsCopying : ℕ → (String → String → Run f c r (Unit {0})) → Type 0
  IsCopying n one =
      ((a b : String) → Grows reg (one a b))
      × ((name version : String) (s t : State f c r)
          → one name version s ≡ some (ok tt, t)
          → IsCopied n t name version)

  copy_references-Copied :
      (n : ℕ) (one : String → String → Run f c r (Unit {0})) (refs : List (String × String))
      (s t : State f c r)
      → IsCopying n one
      → copy_references k o copy_artifact json one refs s ≡ some (ok tt, t)
      → All (λ ref. IsCopied n t ref.0 ref.1) refs
  unfolding copy_references IsCopying Keeps
  copy_references-Copied n one [] s t copying h = tt
  copy_references-Copied n one ((name, version) ∷ refs) s u copying h =
      let rest = copy_references k o copy_artifact json one refs in
      let (_, t, h1, h2) = and_then-ok (one name version) (λ _. rest) s u tt h in
      let grown =
        copy_references-Grows reg k o reader copy_artifact growing json one refs copying.0 in
      (
        IsCopied-Keeps n t u name version (λ ref d. grown.grows t u (ok tt) ref d h2)
            (copying.1 name version s t h1),
        copy_references-Copied n one refs t u copying h2,
      )

  chosen :
      (b : Bool) (m n : Run f c r (Unit {0})) (s t : State f c r)
      → b ≡ true
      → (if b then m else n) s ≡ some (ok tt, t)
      → m s ≡ some (ok tt, t)
  chosen true m n s t e h = h
  chosen false m n s t e h = absurd (ground (arith, e))

  pub copy_once-Copied :
      (n : ℕ) (one : String → String → Run f c r (Unit {0})) (name version : String)
      (s u : State f c r)
      → ((a b : String) → Grows reg (one a b))
      → ((a b : String) (s' t : State f c r) → one a b s' ≡ some (ok tt, t) → IsCopied n t a b)
      → copy_once k o copy_artifact json one name version s ≡ some (ok tt, u)
      → IsCopied (suc n) u name version
  unfolding copy_once IsCopying Keeps
  copy_once-Copied n one name version s u growing_one copied_one h =
      let resolving = k.resolve_with_blobs o.src_repo_ctx name version in
      let upload = λ (cd : Component k.Access k.Repository) (blobs : k.Blobs).
        upload_component k o copy_artifact json cd blobs name version in
      let references : Component k.Access k.Repository → Run f c r (Unit {0}) = λ cd.
        if o.recursive
        then copy_references k o copy_artifact json one cd.references
        else finish (pure tt) in
      let last = λ (cd : Component k.Access k.Repository) (blobs : k.Blobs).
        unless_there k o copy_artifact json name version (upload cd blobs) in
      let rest : Component k.Access k.Repository × k.Blobs → Run f c r (Unit {0}) =
        λ (cd, blobs). and_then (references cd) (λ _. last cd blobs) in
      let ((cd, blobs), s1, e1, h1) = and_then-ok (finish resolving) rest s u tt h in
      let (_, s2, h2, h3) = and_then-ok (references cd) (λ _. last cd blobs) s1 u tt h1 in
      let grown =
        unless_there-Grows reg k o reader copy_artifact growing json name version (upload cd blobs)
          (upload_component-Grows reg k o reader copy_artifact growing json cd blobs name
            version) in
      let found = (finished-ok resolving s s1 (cd, blobs) e1).0 in
      (
        cd,
        blobs,
        s,
        found,
        λ rec.
            All-Keeps n s2 u (λ ref' d. grown.grows s2 u (ok tt) ref' d h3) cd.references
              (copy_references-Copied n one cd.references s1 s2 (growing_one, copied_one)
                (chosen o.recursive (copy_references k o copy_artifact json one cd.references)
                  (finish (pure tt)) s1 s2 rec h2)),
        elim (unless_there_ran reg k o reader copy_artifact growing json name version
            (upload cd blobs) s2 u (ok tt) h3) [
              | inl (s3, _, ran) ↦ inl (
                  upload_component-Uploaded reg k o json reader copy_artifact growing back cd blobs
                    name version s3 u ran)
              | inr (free, there, resolved, _) ↦ inr (free, s2, there, resolved)
            ],
      )

module _ {f : Formats} {c : Caches f} {r : Remotes f} (reg : IsRegistry r) (k : Components f c r)
    (o : Options k) (json : Json f) (convert : String → Descriptor f → Action f c r (Descriptor f))
    (levels : ℕ) (reading : (ref : String) (desc : Descriptor f) → Reads c r (convert ref desc))
    (reader : IsReader k)
    (back : (m : Manifest f) (raw : List ℕ)
      → json.marshal_manifest m ≡ ok raw
      → json.unmarshal_manifest raw ≡ ok m) where
  -- The copy of artifacts by value.
  abbrev pub artifacts : String → String → Run f c r (Unit {0})
  artifacts src tgt = Copy.copy f c r json convert levels src tgt

  -- After Copy has succeeded, at whatever attempt, what the source answered with for the component is at
  -- the target: the manifest that was built for it, under its reference, with the config and all layers,
  -- and a layer for each of its local blobs, with the digest and size that the source told; or, where
  -- neither an overwriting nor a copy by value is asked for, the target has answered that it has the
  -- component. In a recursive copy this holds of all components below, too. It is asked that encoded
  -- manifests are decoded to what they were, that a registry keeps what is pushed to it and says that a
  -- blob exists only where it has it, and that what reads components, blobs and manifests, and the
  -- conversion of schema 1, push nothing.
  pub copy_component-Complete :
      (n : ℕ) (name version : String) (s t : State f c r)
      → copy_component k o json convert n levels name version s ≡ some (ok tt, t)
      → IsCopied reg k o json reader artifacts
          (copy-Grows f c r reg json convert reading levels)
          back
          n
          t
          name
          version
  unfolding copy_component
  copy_component-Complete zero name version s t h = absurd (ground arith)
  copy_component-Complete (suc n) name version s t h =
      let one = copy_component k o json convert n levels in
      let (s', success) =
        retry-ok (copy_once k o artifacts json one name version) o.max_retries s t h in
      copy_once-Copied reg k o json reader artifacts
        (copy-Grows f c r reg json convert reading levels) back n one name version s' t
        (copy_component-Grows reg k o json convert reading reader n levels)
        (copy_component-Complete n) success
