-- ===== src/Client/Fetch/Reads.antt =====
-- Reading (ociclient/client.go) leaves the registries as they are.
use component_cli.Prelude.{
  ℕ, String, ◌≡◌, refl, ap, ◌∙◌, ◌||◌, true, inl, inr, List, [], ◌∷◌, Bool, false, Option, none,
  some, arith, if◌then◌else◌,
}
use component_cli.Prelude.Result.{Error, invalid, Result, Result-cases}
use component_cli.OciRef.{is_multi_arch_image, is_single_arch_image}
use component_cli.Oci.{Formats, Descriptor, Json}
use component_cli.Client.{
  Caches, Remotes, State, Action, pull_scope, pure, raise, from, check, explain, ◌>>=◌,
}
use component_cli.Client.Actions.{>>=-ran, >>=-failed, explain-state}
use component_cli.Client.Transport.{normalize, get_resolver_for_ref}
use component_cli.Client.Fetch.{
  cached, store_fetched, fetch_remote, get_fetch_reader, fetch, is_v1_manifest, resolve_ref,
  resolve_converted, get_raw_manifest,
}

module _ {f : Formats} (c : Caches f) (r : Remotes f) where
  -- An action that leaves the registries as they are.
  pub record Reads {A : Type 0} (m : Action f c r A) : Type 0 where
    pub same : (s : State f c r) → (m s).1.registry ≡ s.registry

  pub Reads->>= :
      {A B : Type 0} (m : Action f c r A) (k : A → Action f c r B)
      → Reads m
      → ((a : A) → Reads (k a))
      → Reads (m >>= k)
  Reads->>= m k h h' = record {
    same = λ s. elim (Result-cases (m s).0) [
      | inl (a, e) ↦ rw (>>=-ran m k s a e) ((h' a).same (m s).1 ∙ h.same s)
      | inr (failure, e) ↦ rw (>>=-failed m k s failure e) (h.same s)
    ];
  }

  Reads-if :
      {A : Type 0} (b : Bool) (m n : Action f c r A)
      → Reads m
      → Reads n
      → Reads (if b then m else n)
  Reads-if true m n h h' = h
  Reads-if false m n h h' = h'

  pub Reads-explain :
      {A : Type 0} (text : String) (m : Action f c r A) → Reads m → Reads (explain text m)
  Reads-explain text m h = record {
    same = λ s. ap (λ t. t.registry) (explain-state text m s) ∙ h.same s;
  }

  pub from-Reads : {A : Type 0} (a : Result A) → Reads (from a)
  from-Reads a = record { same = λ s. refl }

  pub pure-Reads : {A : Type 0} (a : A) → Reads (pure a)
  pure-Reads a = record { same = λ s. refl }

  store_fetched-Reads :
      (trp : r.Transport) (ref : String) (desc : Descriptor f) (reader : Result (List ℕ))
      → Reads (store_fetched f c r trp ref desc reader)
  unfolding store_fetched
  store_fetched-Reads trp ref desc reader = record { same = λ s. ground arith }

  check-Reads : (e : Option Error) → Reads (check e)
  check-Reads none = record { same = λ s. refl }
  check-Reads (some e) = record { same = λ s. refl }

  fetch_remote-Reads : (ref : String) (desc : Descriptor f) → Reads (fetch_remote f c r ref desc)
  unfolding fetch_remote
  fetch_remote-Reads ref desc =
      Reads->>= (from (get_resolver_for_ref f r ref (pull_scope ∷ []))) _
        record { same = λ s. refl }
        (λ trp. Reads->>= (check (r.fetcher trp ref)) _ (check-Reads (r.fetcher trp ref)) (λ _.
          Reads->>= (λ s. (r.fetch trp s.registry ref desc, s)) _ record { same = λ s. refl }
            (store_fetched-Reads trp ref desc)))

  get_fetch_reader-Reads :
      (ref : String) (desc : Descriptor f) → Reads (get_fetch_reader f c r ref desc)
  unfolding get_fetch_reader
  get_fetch_reader-Reads ref desc = record {
    same = λ s. ground (
      arith,
      (fetch_remote-Reads ref desc).same s,
      (fetch_remote-Reads ref desc).same (cached f c r desc s).1,
    );
  }

  pub fetch-Reads : (ref : String) (desc : Descriptor f) → Reads (fetch f c r ref desc)
  unfolding fetch
  fetch-Reads ref desc =
      Reads->>= (from (normalize f r ref)) _ record { same = λ s. refl }
        (λ name.
          Reads->>= (get_fetch_reader f c r name desc) from (get_fetch_reader-Reads name desc)
            (λ reader. record { same = λ s. refl }))

  resolve_ref-Reads : (ref : String) → Reads (resolve_ref f c r ref)
  unfolding resolve_ref
  resolve_ref-Reads ref =
      Reads->>= (from (get_resolver_for_ref f r ref (pull_scope ∷ []))) _
        record { same = λ s. refl } (λ trp. record { same = λ s. refl })

  module _ (json : Json f) (convert : String → Descriptor f → Action f c r (Descriptor f))
      (reading : (ref : String) (desc : Descriptor f) → Reads (convert ref desc)) where
    resolve_converted-Reads : (ref : String) → Reads (resolve_converted f c r json convert ref)
    unfolding resolve_converted
    resolve_converted-Reads ref =
        Reads->>= (resolve_ref f c r ref) _ (resolve_ref-Reads ref) (λ desc.
          Reads-if (is_v1_manifest desc.media_type) _ (pure desc)
            (Reads-explain "unable to convert v1 manifest to v2" (convert ref desc)
              (reading ref desc))
            record { same = λ s. refl })

    pub get_raw_manifest-Reads : (ref : String) → Reads (get_raw_manifest f c r json convert ref)
    unfolding get_raw_manifest
    get_raw_manifest-Reads ref =
        Reads->>= (from (normalize f r ref)) _ record { same = λ s. refl }
          (λ name.
            Reads->>= (resolve_converted f c r json convert name) _ (resolve_converted-Reads name)
              (λ desc.
                Reads-if
                  (is_single_arch_image desc.media_type || is_multi_arch_image desc.media_type) _
                  (raise (invalid desc.media_type))
                  (Reads->>= (fetch f c r name desc) (λ raw. pure (desc, raw))
                    (fetch-Reads name desc) (λ raw. record { same = λ s. refl }))
                  record { same = λ s. refl }))
