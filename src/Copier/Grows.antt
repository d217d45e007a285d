-- ===== src/Copier/Grows.antt =====
-- The copy of a component takes nothing away from a registry, whether it succeeds or not
-- (pkg/commands/componentarchive/remote/copy.go).
use component_cli.Prelude.{
  ℕ, zero, suc, String, ◌≡◌, refl, ap, sym, ◌∙◌, ◌⊎◌, Bool-cases, true, not, ◌&&◌, Option, some,
  Option-cases, inl, inr, List, [], ◌∷◌, ◌++◌, ◌==◌, arith,
}
use component_cli.Prelude.Result.{Result, ok, Result-cases}
use component_cli.Prelude.Dict.{Dict, lookup}
use component_cli.Strings.{path_join}
use component_cli.Oci.{Formats, Descriptor, Json}
use component_cli.Client.{Caches, Remotes, State, Action, pure, from, explain}
use component_cli.Client.Fetch.Reads.{Reads, from-Reads, pure-Reads, Reads->>=, Reads-explain}
use component_cli.Client.Push.{Store, custom, push_manifest_to}
use component_cli.Client.Push.Uploads.{IsRegistry}
use component_cli.Client.Push.Complete.{push_manifest_to-Uploads}
use component_cli.Client.Copy
use component_cli.Client.Copy.{Run, finish, and_then, wrapped}
use component_cli.Client.Copy.Grows.{
  Grows, Keeping->>=, Reads-Keeping, Uploads-Keeping, Keeping-Grows, and_then-Grows, wrapped-Grows,
  Reads-Grows, Grows-if, from-Grows, copy-Grows,
}
use component_cli.Copier.{
  Resource, Component, Components, Options, Collected, nothing, kept, local_oci_blob_type,
  oci_registry_type, relative_oci_reference_type,
}
use component_cli.Copier.Resources.{
  with_blob, collect_local_blob, target_of, copy_by_value, absolute_access, relative_access,
  collect, collect_all,
}
use component_cli.Copier.Attempts.{
  component_store, push_component, upload_component, unless_there, copy_references, copy_once,
  retry, copy_component,
}

-- What the copy uses of the libraries of component descriptors leaves the registries as they are.
pub record IsReader {f : Formats} {c : Caches f} {r : Remotes f} (k : Components f c r)
    : Type 0 where
  pub resolving :
      (repo : k.Repository) (name version : String)
      → Reads c r (k.resolve_with_blobs repo name version)
  pub looking :
      (repo : k.Repository) (name version : String) → Reads c r (k.resolve repo name version)
  pub informing : (blobs : k.Blobs) (res : Resource k.Access) → Reads c r (k.blob_info blobs res)
  pub reading : (blobs : k.Blobs) (res : Resource k.Access) → Reads c r (k.resolve_blob blobs res)
  pub building : (cd : Component k.Access k.Repository) → Reads c r (k.build_manifest cd)
  pub caching : (desc : Descriptor f) → Reads c r (k.cache_get desc)

module _ {f : Formats} {c : Caches f} {r : Remotes f} (reg : IsRegistry r) (k : Components f c r)
    (o : Options k) (reader : IsReader k) (copy_artifact : String → String → Run f c r (Unit {0}))
    (growing : (a b : String) → Grows reg (copy_artifact a b)) where
  collect_local_blob-Grows :
      (blobs : k.Blobs) (res : Resource k.Access) (found : Collected k)
      → Grows reg (finish (collect_local_blob k o copy_artifact blobs res found))
  unfolding collect_local_blob
  collect_local_blob-Grows blobs res found =
      Reads-Grows reg (collect_local_blob k o copy_artifact blobs res found) (
        Reads->>= c r _ _
          (Reads-explain c r "unable to decode resource" (from (k.decode_local res.access))
            (from-Reads c r (k.decode_local res.access)))
          (λ _.
            Reads->>= c r _ _
              (Reads-explain c r "unable to get blob info for resource" (k.blob_info blobs res)
                (reader.informing blobs res))
              (λ info.
                Reads->>= c r _ _
                  (Reads-explain c r "unable to parse digest for resource"
                    (from (k.parse_digest info.digest))
                    (from-Reads c r (k.parse_digest info.digest)))
                  (λ digest. pure-Reads c r (with_blob k o copy_artifact res found info digest)))))

  copy_by_value-Grows :
      (src : String) (access : String → Result k.Access) (res : Resource k.Access)
      (found : Collected k)
      → Grows reg (copy_by_value k o copy_artifact src access res found)
  unfolding copy_by_value
  copy_by_value-Grows src access res found =
      and_then-Grows reg _ _
        (Reads-Grows reg (from (target_of k o copy_artifact src))
          (from-Reads c r (target_of k o copy_artifact src)))
        (λ target.
          and_then-Grows reg _ _
            (wrapped-Grows reg "unable to copy oci artifact" _ (growing src target))
            (λ _.
              and_then-Grows reg _ _
                (from-Grows reg "unable to marshal updated oci artifact access" (access target))
                (λ updated.
                  Reads-Grows reg (pure (kept k found (record res { access = updated })))
                    (record { same = λ s. refl }))))

  collect-Grows :
      (blobs : k.Blobs) (res : Resource k.Access) (found : Collected k)
      → Grows reg (collect k o copy_artifact blobs res found)
  unfolding collect
  collect-Grows blobs res found =
      Grows-if reg (k.access_type res.access == local_oci_blob_type) _ _
        (collect_local_blob-Grows blobs res found)
        (Grows-if reg (k.access_type res.access == oci_registry_type && o.copy_by_value) _ _
          (and_then-Grows reg _ _
            (from-Grows reg "unable to decode resource" (k.decode_registry res.access))
            (λ src.
              copy_by_value-Grows src (absolute_access k o copy_artifact res.access) res found))
          (Grows-if reg (k.access_type res.access == relative_oci_reference_type && o.copy_by_value)
            _ _
            (and_then-Grows reg _ _
              (from-Grows reg "unable to decode resource" (k.decode_relative res.access))
              (λ ref.
                copy_by_value-Grows (path_join o.source_artifact_repository ref)
                  (relative_access k o copy_artifact res.access) res found))
            (Reads-Grows reg (pure (kept k found res)) (record { same = λ s. refl }))))

  pub collect_all-Grows :
      (blobs : k.Blobs) (ress : List (Resource k.Access)) (found : Collected k)
      → Grows reg (collect_all k o copy_artifact blobs ress found)
  unfolding collect_all
  collect_all-Grows blobs [] found = Reads-Grows reg (pure found) (record { same = λ s. refl })
  collect_all-Grows blobs (res ∷ ress) found =
      and_then-Grows reg _ _ (collect-Grows blobs res found)
        (λ found'. collect_all-Grows blobs ress found')

  pub component_store-Reads :
      (blobs : k.Blobs) (blob_to_resource : Dict (Resource k.Access)) (desc : Descriptor f)
      → Reads c r (component_store k o copy_artifact blobs blob_to_resource desc)
  unfolding component_store
  component_store-Reads blobs blob_to_resource desc =
      elim (Option-cases (lookup (f.images.text desc.digest) blob_to_resource)) [
        | inl e ↦ rw (component_store, e) (reader.caching desc)
        | inr (res, e) ↦ rw (component_store, e) (reader.reading blobs res)
      ]

  -- The store that a component is uploaded from.
  abbrev pub source : k.Blobs → Collected k → Option (Store f c r)
  source blobs found =
      some (custom (component_store k o copy_artifact blobs found.blob_to_resource))

  module _ (json : Json f) where
    push_component-Grows :
        (cd : Component k.Access k.Repository) (blobs : k.Blobs) (found : Collected k)
        (name version : String)
        → Grows reg (finish (push_component k o copy_artifact json cd blobs found name version))
    unfolding push_component
    push_component-Grows cd blobs found name version =
        let build = k.build_manifest (record cd { resources = found.resources }) in
        let naming = k.oci_ref o.target_repo_ctx name version in
        Keeping-Grows reg (push_component k o copy_artifact json cd blobs found name version) (
          Keeping->>= reg (explain "unable to build oci artifact for component archive" build) _
            (Reads-Keeping reg (explain "unable to build oci artifact for component archive" build)
              (Reads-explain c r "unable to build oci artifact for component archive" build
                (reader.building (record cd { resources = found.resources }))))
            (λ m.
              Keeping->>= reg (explain "invalid component reference" (from naming)) _
                (Reads-Keeping reg (explain "invalid component reference" (from naming)) (
                  Reads-explain c r "invalid component reference" (from naming)
                    (from-Reads c r naming)))
                (λ ref.
                  Uploads-Keeping reg
                    (push_manifest_to f c r json ref
                      (record m { layers = m.layers ++ found.layers }) (source blobs found))
                    (push_manifest_to-Uploads c r reg json ref
                      (record m { layers = m.layers ++ found.layers }) (source blobs found)
                      (λ s desc.
                        (component_store-Reads blobs found.blob_to_resource desc).same s)))))

    pub upload_component-Grows :
        (cd : Component k.Access k.Repository) (blobs : k.Blobs) (name version : String)
        → Grows reg (upload_component k o copy_artifact json cd blobs name version)
    unfolding upload_component
    upload_component-Grows cd blobs name version =
        and_then-Grows reg _ _
          (from-Grows reg "unable to inject target repository"
            (k.inject_context o.target_repo_ctx cd))
          (λ cd'.
            and_then-Grows reg _ _ (collect_all-Grows blobs cd'.resources (nothing k))
              (λ found. push_component-Grows cd' blobs found name version))

    -- The component is at the target, and nothing is changed, or it is uploaded.
    pub unless_there_ran :
        (name version : String) (upload : Run f c r (Unit {0})) (s t : State f c r)
        (a : Result (Unit {0}))
        → unless_there k o copy_artifact json name version upload s ≡ some (a, t)
        → ((s' : State f c r) × (s'.registry ≡ s.registry) × (upload s' ≡ some (a, t)))
          ⊎ (((not o.force && not o.copy_by_value) ≡ true)
              × (cd : Component k.Access k.Repository) × ((k.resolve o.target_repo_ctx name version
                    s).0
                  ≡ ok cd)
              × (t.registry ≡ s.registry))
    unfolding unless_there
    unless_there_ran name version upload s t a h =
        elim (Bool-cases (not o.force && not o.copy_by_value)) [
          | inr e ↦ inl (s, refl, rw (unless_there, e) at h)
          | inl e ↦ elim (Result-cases (k.resolve o.target_repo_ctx name version s).0) [
            | inr (failure, e') ↦ inl (
              (k.resolve o.target_repo_ctx name version s).1,
              (reader.looking o.target_repo_ctx name version).same s,
              rw (unless_there, e, e') at h,
            )
            | inl (cd, e') ↦
                let same : (k.resolve o.target_repo_ctx name version s).1 ≡ t = ground arith in
                inr (
                  e,
                  cd,
                  e',
                  ap (λ x. x.registry) (sym same)
                      ∙ (reader.looking o.target_repo_ctx name version).same s,
                )
          ]
        ]

    pub unless_there-Grows :
        (name version : String) (upload : Run f c r (Unit {0}))
        → Grows reg upload
        → Grows reg (unless_there k o copy_artifact json name version upload)
    unless_there-Grows name version upload g = record {
      grows = λ s t a ref d e there. elim (unless_there_ran name version upload s t a e) [
        | inl (s', same, ran) ↦ g.grows s' t a ref d ran (rw same there)
        | inr (_, cd, resolved, same) ↦ rw same there
      ];
    }

    pub copy_references-Grows :
        (one : String → String → Run f c r (Unit {0})) (refs : List (String × String))
        → ((a b : String) → Grows reg (one a b))
        → Grows reg (copy_references k o copy_artifact json one refs)
    unfolding copy_references
    copy_references-Grows one [] h = Reads-Grows reg (pure tt) (pure-Reads c r tt)
    copy_references-Grows one ((name, version) ∷ refs) h =
        and_then-Grows reg _ (λ _. copy_references k o copy_artifact json one refs) (h name version)
          (λ _. copy_references-Grows one refs h)

    pub copy_once-Grows :
        (one : String → String → Run f c r (Unit {0})) (name version : String)
        → ((a b : String) → Grows reg (one a b))
        → Grows reg (copy_once k o copy_artifact json one name version)
    unfolding copy_once
    copy_once-Grows one name version h =
        and_then-Grows reg _ _
          (Reads-Grows reg (k.resolve_with_blobs o.src_repo_ctx name version)
            (reader.resolving o.src_repo_ctx name version))
          (λ (cd, blobs).
            and_then-Grows reg _ _
              (Grows-if reg o.recursive _ (finish (pure tt))
                (copy_references-Grows one cd.references h)
                (Reads-Grows reg (pure tt) (pure-Reads c r tt)))
              (λ _.
                unless_there-Grows name version _ (upload_component-Grows cd blobs name version)))

module _ {f : Formats} {c : Caches f} {r : Remotes f} (reg : IsRegistry r) where
  retry-Grows : (n : ℕ) (m : Run f c r (Unit {0})) → Grows reg m → Grows reg (retry n m)
  unfolding retry
  retry-Grows zero m g = wrapped-Grows reg "copy finished with error, max retries exceeded" m g
  retry-Grows (suc n) m g = record {
    grows = λ s u b ref d e there. elim (Option-cases (m s)) [
      | inl none_there ↦ absurd (ground arith)
      | inr ((a, t), e') ↦
          let kept = g.grows s t a ref d e' there in
          elim (Result-cases a) [
            | inl (x, e'') ↦ let same : t ≡ u = ground arith in rw (sym same) kept
            | inr (failure, e'') ↦
                (retry-Grows n m g).grows t u b ref d (rw (retry, e', e'') at e) kept
          ]
    ];
  }

  module _ (k : Components f c r) (o : Options k) (json : Json f)
      (convert : String → Descriptor f → Action f c r (Descriptor f))
      (reading : (ref : String) (desc : Descriptor f) → Reads c r (convert ref desc))
      (reader : IsReader k) where
    pub copy_component-Grows :
        (n levels : ℕ) (name version : String)
        → Grows reg (copy_component k o json convert n levels name version)
    unfolding copy_component
    copy_component-Grows zero levels name version = record {
      grows = λ s t a ref d e there. absurd (ground arith);
    }
    copy_component-Grows (suc n) levels name version = retry-Grows o.max_retries _ (
        copy_once-Grows reg k o reader (Copy.copy f c r json convert levels)
          (copy-Grows f c r reg json convert reading levels) json
          (copy_component k o json convert n levels) name version (copy_component-Grows n levels))
