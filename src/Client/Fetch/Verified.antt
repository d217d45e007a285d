-- ===== src/Client/Fetch/Verified.antt =====
-- What the client fetches through a cache that verifies was verified (ociclient/client.go).
use component_cli.Prelude.{
  ℕ, String, ◌≡◌, refl, ap, ◌∙◌, true, Bool, some, ◌⊎◌, inl, inr, List, [], ◌∷◌, arith,
  Option-cases,
}
use component_cli.Prelude.Result.{Error, Result, ok, Result-cases}
use component_cli.Oci.{Formats, Descriptor}
use component_cli.Client.{Caches, Remotes, State, pull_scope, from, ◌>>=◌}
use component_cli.Client.Actions.{>>=-ok}
use component_cli.Client.Transport.{normalize, get_resolver_for_ref}
use component_cli.Client.Fetch.{store_fetched, fetch_remote, get_fetch_reader, fetch}

module _ {f : Formats} (c : Caches f) (r : Remotes f)
    (verifies : f.images.Digest → List ℕ → Bool) where
  -- A cache that answers only with verified bytes.
  abbrev pub IsVerifying : Type 0
  IsVerifying =
      (cache : c.Cache) (desc : Descriptor f) (bytes : List ℕ)
      → (c.get cache desc).0 ≡ ok bytes
      → verifies desc.digest bytes ≡ true

  -- Bytes that were verified, or that come from a registry since the cache did not take them.
  abbrev pub IsFetched : State f c r → Descriptor f → List ℕ → Type 0
  IsFetched s desc bytes =
      (verifies desc.digest bytes ≡ true)
      ⊎ ((cache : c.Cache) × (reader : Result (List ℕ)) × (e : Error) × ((c.add cache desc reader).0
            ≡ some e)
          × (trp : r.Transport) × (name : String) × (r.fetch trp s.registry name desc
              ≡ ok (ok bytes)))

  module _ (sound : IsVerifying) where
    store_fetched-Fetched :
        (trp : r.Transport) (ref : String) (desc : Descriptor f) (reader : Result (List ℕ))
        (s : State f c r) (cache : c.Cache) (bytes : List ℕ)
        → s.cache ≡ some cache
        → (store_fetched f c r trp ref desc reader s).0 ≡ ok (ok bytes)
        → IsFetched s desc bytes
    unfolding store_fetched
    store_fetched-Fetched trp ref desc reader s cache bytes e h =
        elim (Option-cases (c.add cache desc reader).0) [
          | inl kept ↦ inl (sound (c.add cache desc reader).1 desc bytes (ground arith))
          | inr (failure, failed) ↦ inr (cache, reader, failure, failed, trp, ref, ground arith)
        ]

    fetch_remote-Fetched :
        (ref : String) (desc : Descriptor f) (s : State f c r) (cache : c.Cache) (bytes : List ℕ)
        → s.cache ≡ some cache
        → (fetch_remote f c r ref desc s).0 ≡ ok (ok bytes)
        → IsFetched s desc bytes
    unfolding fetch_remote
    fetch_remote-Fetched ref desc s cache bytes e h =
        elim (Result-cases (get_resolver_for_ref f r ref (pull_scope ∷ []))) [
          | inr (failure, found) ↦ absurd (ground arith)
          | inl (trp, found) ↦ elim (Option-cases (r.fetcher trp ref)) [
            | inr (failure, refused) ↦ absurd (ground arith)
            | inl granted ↦
                let (reader, _, stored, _) =
                  >>=-ok (λ s'. (r.fetch trp s'.registry ref desc, s'))
                    (store_fetched f c r trp ref desc) s (ok bytes)
                    (rw (fetch_remote, found, granted) at h) in
                store_fetched-Fetched trp ref desc reader s cache bytes e stored
          ]
        ]

    get_fetch_reader-Fetched :
        (ref : String) (desc : Descriptor f) (s : State f c r) (cache : c.Cache) (bytes : List ℕ)
        → s.cache ≡ some cache
        → (get_fetch_reader f c r ref desc s).0 ≡ ok (ok bytes)
        → IsFetched s desc bytes
    unfolding get_fetch_reader
    get_fetch_reader-Fetched ref desc s cache bytes e h =
        let missed = record s { cache = some (c.get cache desc).1 } in
        ground (
          arith,
          sound cache desc bytes,
          fetch_remote-Fetched ref desc missed (c.get cache desc).1 bytes refl,
        )

    -- What Fetch answers with, for a client with a cache that hands out only verified bytes, was
    -- verified against the descriptor's digest, unless adding it to the cache failed: then it is what
    -- a registry answers with.
    pub fetch-verifies :
        (ref : String) (desc : Descriptor f) (s : State f c r) (cache : c.Cache) (bytes : List ℕ)
        → s.cache ≡ some cache
        → (fetch f c r ref desc s).0 ≡ ok bytes
        → IsFetched s desc bytes
    unfolding fetch
    fetch-verifies ref desc s cache bytes e h =
        let rest = λ (name : String). get_fetch_reader f c r name desc >>= from in
        let (name, _, h1, _) = >>=-ok (from (normalize f r ref)) rest s bytes h in
        let (reader, h2, h3, _) = >>=-ok (get_fetch_reader f c r name desc) from s bytes h1 in
        get_fetch_reader-Fetched name desc s cache bytes e (h2 ∙ ap ok h3)
