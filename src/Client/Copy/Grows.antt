-- ===== src/Client/Copy/Grows.antt =====
-- A copy takes nothing away from a registry, whether it succeeds or not (ociclient/copy.go).
use component_cli.Prelude.{
  ℕ, zero, suc, String, ◌≡◌, refl, sym, Bool, true, false, some, Option-cases, inl, inr, List, [],
  ◌∷◌, arith, if◌then◌else◌,
}
use component_cli.Prelude.Result.{Result, Result-cases}
use component_cli.OciRef.{parse_image_ref, is_multi_arch_image}
use component_cli.Oci.{Formats, Descriptor, Json}
use component_cli.Client.{Caches, Remotes, State, Action, pure, from, explain, ◌>>=◌}
use component_cli.Client.Actions.{>>=-ran, >>=-failed}
use component_cli.Client.Fetch.{get_raw_manifest}
use component_cli.Client.Fetch.Reads.{Reads, Reads-explain, get_raw_manifest-Reads}
use component_cli.Client.Push.Uploads.{IsRegistry, Has, Uploads}
use component_cli.Client.Copy.{
  Run, finish, and_then, wrapped, copy, copy_index, copy_each, push_copied,
}
use component_cli.Client.Copy.Complete.{push_copied-Uploads}

module _ {f : Formats} {c : Caches f} {r : Remotes f} (reg : IsRegistry r) where
  -- Wherever a run ends, everything is there that was there.
  pub record Grows {A : Type 0} (m : Run f c r A) : Type 0 where
    pub grows :
        (s t : State f c r) (a : Result A) (ref : String) (d : f.images.Digest)
        → m s ≡ some (a, t)
        → Has c r reg ref s d
        → Has c r reg ref t d

  pub and_then-Grows :
      {A B : Type 0} (m : Run f c r A) (k : A → Run f c r B)
      → Grows m
      → ((a : A) → Grows (k a))
      → Grows (and_then m k)
  and_then-Grows m k g h = record {
    grows = λ s u b ref d e there. elim (Option-cases (m s)) [
      | inl none_there ↦ absurd (ground arith)
      | inr ((a, t), e') ↦
          let kept = g.grows s t a ref d e' there in
          elim (Result-cases a) [
            | inl (x, e'') ↦ (h x).grows t u b ref d (rw (and_then, e', e'') at e) kept
            | inr (failure, e'') ↦ let same : t ≡ u = ground arith in rw (sym same) kept
          ]
    ];
  }

  pub wrapped-Grows :
      {A : Type 0} (text : String) (m : Run f c r A) → Grows m → Grows (wrapped text m)
  wrapped-Grows text m g = record {
    grows = λ s u b ref d e there. elim (Option-cases (m s)) [
      | inl none_there ↦ absurd (ground arith)
      | inr ((a, t), e') ↦
          let same : t ≡ u = elim (Result-cases a) [
            | inl (x, e'') ↦ ground arith
            | inr (failure, e'') ↦ ground arith
          ] in
          rw (sym same) (g.grows s t a ref d e' there)
    ];
  }

  -- The same of an action.
  pub record Keeping {A : Type 0} (m : Action f c r A) : Type 0 where
    pub keeps :
        (s : State f c r) (ref : String) (d : f.images.Digest)
        → Has c r reg ref s d
        → Has c r reg ref (m s).1 d

  pub Keeping->>= :
      {A B : Type 0} (m : Action f c r A) (k : A → Action f c r B)
      → Keeping m
      → ((a : A) → Keeping (k a))
      → Keeping (m >>= k)
  Keeping->>= m k g h = record {
    keeps = λ s ref d there. elim (Result-cases (m s).0) [
      | inl (a, e) ↦ rw (>>=-ran m k s a e) ((h a).keeps (m s).1 ref d (g.keeps s ref d there))
      | inr (failure, e) ↦ rw (>>=-failed m k s failure e) (g.keeps s ref d there)
    ];
  }

  pub Reads-Keeping : {A : Type 0} (m : Action f c r A) → Reads c r m → Keeping m
  Reads-Keeping m h = record { keeps = λ s ref d there. rw (h.same s) there }

  pub Uploads-Keeping :
      {A : Type 0} {ref : String} {ds : List f.images.Digest} (m : Action f c r A)
      → Uploads c r reg ref ds m
      → Keeping m
  Uploads-Keeping m u = record { keeps = λ s ref d there. u.keeps s ref d there }

  pub Keeping-Grows : {A : Type 0} (m : Action f c r A) → Keeping m → Grows (finish m)
  Keeping-Grows m h = record {
    grows = λ s t a ref d e there.
        let same : (m s).1 ≡ t = ground arith in rw (sym same) (h.keeps s ref d there);
  }

  pub Uploads-Grows :
      {A : Type 0} {ref : String} {ds : List f.images.Digest} (m : Action f c r A)
      → Uploads c r reg ref ds m
      → Grows (finish m)
  Uploads-Grows m u = Keeping-Grows m (Uploads-Keeping m u)

  pub Reads-Grows : {A : Type 0} (m : Action f c r A) → Reads c r m → Grows (finish m)
  Reads-Grows m h = Keeping-Grows m (Reads-Keeping m h)

  pub Grows-if :
      {A : Type 0} (b : Bool) (m n : Run f c r A) → Grows m → Grows n → Grows (if b then m else n)
  Grows-if true m n g h = g
  Grows-if false m n g h = h

  pub from-Grows :
      {A : Type 0} (text : String) (a : Result A)
      → Grows (finish (explain {f = f} {c = c} {r = r} text (from a)))
  from-Grows text a =
      Reads-Grows (explain text (from a))
        (Reads-explain c r text (from a) (record { same = λ s. refl }))

module _ (f : Formats) (c : Caches f) (r : Remotes f) (reg : IsRegistry r) (json : Json f)
    (convert : String → Descriptor f → Action f c r (Descriptor f))
    (reading : (ref : String) (desc : Descriptor f) → Reads c r (convert ref desc)) where
  copy_each-Grows :
      (one : String → String → Run f c r (Unit {0})) (src tgt : String)
      (descs : List (Descriptor f))
      → ((a b : String) → Grows reg (one a b))
      → Grows reg (copy_each f c r json convert one src tgt descs)
  unfolding copy_each
  copy_each-Grows one src tgt [] h = Reads-Grows reg (pure tt) (record { same = λ s. refl })
  copy_each-Grows one src tgt (desc ∷ descs) h =
      and_then-Grows reg _ (λ _. copy_each f c r json convert one src tgt descs)
        (wrapped-Grows reg "unable to copy sub manifest" _ (h _ _))
        (λ _. copy_each-Grows one src tgt descs h)

  copy_index-Grows :
      (one : String → String → Run f c r (Unit {0})) (src tgt : String) (raw : List ℕ)
      → ((a b : String) → Grows reg (one a b))
      → Grows reg (copy_index f c r json convert one src tgt raw)
  unfolding copy_index
  copy_index-Grows one src tgt raw h =
      and_then-Grows reg _ _
        (from-Grows reg "unable to unmarshal image index" (json.unmarshal_index raw))
        (λ index.
          and_then-Grows reg _ _ (from-Grows reg "unable to parse src ref" (parse_image_ref src))
            (λ parts.
              and_then-Grows reg _ _
                (from-Grows reg "unable to parse tgt ref" (parse_image_ref tgt))
                (λ goal. copy_each-Grows one parts.0 goal.0 index.manifests h)))

  pub copy-Grows : (n : ℕ) (src tgt : String) → Grows reg (copy f c r json convert n src tgt)
  unfolding copy
  copy-Grows zero src tgt = record { grows = λ s t a ref d e there. absurd (ground arith) }
  copy-Grows (suc n) src tgt =
      let manifest = get_raw_manifest f c r json convert src in
      and_then-Grows reg _ _
        (Reads-Grows reg (explain "unable to get manifest" manifest) (
          Reads-explain c r "unable to get manifest" manifest
            (get_raw_manifest-Reads c r json convert reading src)))
        (λ (desc, raw).
          and_then-Grows reg _ _
            (Grows-if reg (is_multi_arch_image desc.media_type) _ (finish (pure tt))
              (copy_index-Grows (copy f c r json convert n) src tgt raw (copy-Grows n))
              (Reads-Grows reg (pure tt) (record { same = λ s. refl })))
            (λ _.
              Uploads-Grows reg (push_copied f c r json convert src tgt desc raw)
                (push_copied-Uploads f c r reg json convert reading src tgt desc raw)))
