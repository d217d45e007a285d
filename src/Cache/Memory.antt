-- ===== src/Cache/Memory.antt =====
-- `inmemoryCache` of ociclient/cache/inmemory.go: contents by the text of their digests. A content
-- that is there is never overwritten.
use component_cli.Prelude.{ℕ, ◌≡◌, Option, none, some, List, eq_iff, ◌==◌, arith, if◌then◌else◌}
use component_cli.Prelude.Result.{Error, not_found, wrap, Result, ok, err}
use component_cli.Prelude.Dict.{Dict, lookup, insert, lookup-insert}
use component_cli.Cache.Layered.{Digests, Descriptor}

module _ (dg : Digests) where
  open dg use {Digest, text}

  abbrev pub InmemoryCache : Type 0
  InmemoryCache = Dict (List ℕ)

  -- `Get`
  unfoldable pub get_bytes : InmemoryCache → Descriptor Digest → Result (List ℕ)
  get_bytes store desc = elim (lookup (text desc.digest) store) [
    | none ↦ err not_found
    | some bytes ↦ ok bytes
  ]

  -- `Add`: `content` is what the reader gives.
  unfoldable pub add_bytes :
      InmemoryCache → Descriptor Digest → Result (List ℕ) → Option Error × InmemoryCache
  add_bytes store desc content = elim (lookup (text desc.digest) store) [
    | some _ ↦ (none, store)
    | none ↦ elim content [
      | err e ↦ (some (wrap "unable to read data" e), store)
      | ok bytes ↦ (none, insert (text desc.digest) bytes store)
    ]
  ]

  -- After an Add of a readable content, Get of a descriptor with the same digest gives what was there
  -- before, and the new content if nothing was; Get of any other digest gives what it gave.
  get_bytes-add_bytes :
      (store : InmemoryCache) (desc other : Descriptor Digest) (bytes : List ℕ)
      → get_bytes (add_bytes store desc (ok bytes)).1 other ≡ (
          if text desc.digest == text other.digest
          then elim (get_bytes store desc) [ ok old ↦ ok old | err e ↦ ok bytes ]
          else get_bytes store other)
  unfolding get_bytes add_bytes
  get_bytes-add_bytes store desc other bytes = ground (
    arith,
    lookup-insert (text desc.digest) (text other.digest) bytes store,
    eq_iff (text desc.digest) (text other.digest),
  )
