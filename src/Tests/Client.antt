-- ===== src/Tests/Client.antt =====
-- The client at concrete inputs (ociclient/client.go, ociclient/copy.go).
use mathlib.Core.Path.{subst}
use component_cli.Prelude.{
  ℕ, String, ◌≡◌, refl, sym, ap, Bool, true, false, ◌||◌, if◌then◌else◌, Option, none, some, List,
  [], ◌∷◌, ◌++◌, All, arith,
}
use component_cli.Prelude.Result.{invalid, Result, ok, err}
use component_cli.OciRef.{is_single_arch_image, is_multi_arch_image}
use component_cli.Oci.{Descriptor, Index}
use component_cli.Oci.Artifact.{IndexData}
use component_cli.Client.{State, Action, ◌>>=◌, pure, raise}
use component_cli.Client.Actions.{>>=-ok}
use component_cli.Client.Fetch.{fetch, resolve_converted}
use component_cli.Client.Fetch.Reads.{fetch-Reads}
use component_cli.Client.Fetch.Verified.{IsVerifying, IsFetched, fetch-verifies}
use component_cli.Client.Push.{Store, custom, push_raw_manifest, push_image_index}
use component_cli.Client.Push.Uploads.{Has}
use component_cli.Client.Push.Complete.{raw_blobs, push_raw_manifest-Complete}
use component_cli.Client.Push.Indexes.{manifests_of, entries, push_image_index-Complete}
use component_cli.Client.Copy.{copy, sub_manifest}
use component_cli.Client.Copy.Terminates.{IsNested, copy-terminates}
use component_cli.Client.Copy.Complete.{IsCopied, copy-Complete}
use component_cli.Prelude.Dict
use component_cli.Prelude.Dict.{lookup, insert}
use component_cli.Cache.Index
use component_cli.Cache.Index.{deep_copy}
use component_cli.Cache.FileSystem.{create, open_file, remove}
use component_cli.Cache.Layered
use component_cli.Cache.Layered.{verify_blob}
use component_cli.Cache.Layered.Verified.{get-verifies}
use component_cli.Tests.Instances.{fixed, memory, sums}
use component_cli.Tests.Registries.{
  tests, manifest, manifest_desc, index, index_desc, json, caches, remotes, has, remotes-IsRegistry,
  no_conversion, no_conversion-Reads, start,
}

program : Unit {0}
unfolding Layered.get Layered.add Layered.get_from_base verify_blob create open_file remove lookup
    insert Dict.remove Index.add Index.get Index.remove Index.hit Index.len deep_copy has
    push_raw_manifest push_image_index copy fetch
program = tt

abbrev source : Option (Store tests caches remotes)
source = some (custom (fetch tests caches remotes "repo:1.0"))

abbrev pushed : Result (Unit {0}) × State tests caches remotes
pushed =
    push_raw_manifest tests caches remotes json "host/repo:2" manifest_desc (5 ∷ []) source start

pushed_all : pushed.0 ≡ ok tt
unfolding program
pushed_all = refl

push_raw_manifest-Complete_example :
    All
      (λ d. Has caches remotes remotes-IsRegistry "host/repo:2" pushed.1 d)
      (raw_blobs caches remotes remotes-IsRegistry json manifest_desc (5 ∷ [])
        ++ manifest_desc.digest ∷ [])
push_raw_manifest-Complete_example =
    push_raw_manifest-Complete caches remotes remotes-IsRegistry json "host/repo:2" manifest_desc
      (5 ∷ []) source start (λ s d. (fetch-Reads caches remotes "repo:1.0" d).same s) pushed_all

abbrev whole_index : IndexData tests
whole_index = record {
  manifests = record { descriptor = manifest_desc; data' = manifest } ∷ [];
  annotations = "whole";
}

abbrev pushed_index : Result (Unit {0}) × State tests caches remotes
pushed_index =
    push_image_index tests caches remotes json "repo" "host/repo:2" source whole_index start

pushed_index_all : pushed_index.0 ≡ ok tt
unfolding program
pushed_index_all = refl

push_image_index-Complete_example :
    All
      (λ d. Has caches remotes remotes-IsRegistry "host/repo:2" pushed_index.1 d)
      (manifests_of caches remotes json whole_index.manifests)
    × (descs : List (Descriptor tests)) × (bytes : List ℕ) × (entries caches remotes json
          whole_index.manifests
        ≡ ok descs)
    × (json.marshal_index
          (record { schema_version = 2; manifests = descs; annotations = whole_index.annotations })
        ≡ ok bytes)
    × Has caches remotes remotes-IsRegistry "host/repo:2" pushed_index.1 (tests.from_bytes bytes)
push_image_index-Complete_example =
    push_image_index-Complete caches remotes remotes-IsRegistry json "repo" "host/repo:2" source
      whole_index start (λ s d. (fetch-Reads caches remotes "repo:1.0" d).same s) pushed_index_all

-- The cache on a file system hands out only verified bytes.
caches-IsVerifying : IsVerifying caches remotes sums.verifies
caches-IsVerifying cache desc bytes h =
    get-verifies fixed memory sums cache (record { digest = desc.digest; size = desc.size }) 0 bytes
      h

fetched : (fetch tests caches remotes "repo:1.0" index_desc start).0 ≡ ok (7 ∷ [])
unfolding program
fetched = refl

fetch-verifies_example : IsFetched caches remotes sums.verifies start index_desc (7 ∷ [])
fetch-verifies_example =
    fetch-verifies caches remotes sums.verifies caches-IsVerifying "repo:1.0" index_desc start
      caches.new_in_memory (7 ∷ []) refl fetched

-- Without a cache in the client.
abbrev bare : State tests caches remotes
bare = record start { cache = none }

abbrev Answer : Type 0
Answer = Option (Result (Unit {0}) × State tests caches remotes)

abbrev succeeds : Answer → Bool
succeeds none = false
succeeds (some (ok x, t)) = true
succeeds (some (err e, t)) = false

abbrev after : Answer → State tests caches remotes
after none = bare
after (some (a, t)) = t

succeeded : (a : Answer) → succeeds a ≡ true → a ≡ some (ok tt, after a)
succeeded none h = absurd (ground arith)
succeeded (some (ok x, t)) h = refl
succeeded (some (err e, t)) h = absurd (ground arith)

abbrev answer : Answer
answer = copy tests caches remotes json no_conversion 2 "repo:1.0" "other:1.0" bare

copied_all : succeeds answer ≡ true
unfolding program
copied_all = refl

copy-Complete_example :
    ((ref : String) (d : String × ℕ)
      → Has caches remotes remotes-IsRegistry ref bare d
      → Has caches remotes remotes-IsRegistry ref (after answer) d)
    × IsCopied tests caches remotes remotes-IsRegistry json no_conversion 2
        (after answer)
        "repo:1.0"
        "other:1.0"
copy-Complete_example =
    copy-Complete tests caches remotes remotes-IsRegistry json no_conversion no_conversion-Reads 2
      "repo:1.0" "other:1.0" bare (after answer) (succeeded answer copied_all)

abbrev media_type_of : Result (Descriptor tests × List ℕ) → String
media_type_of (ok (d, bytes)) = d.media_type
media_type_of (err e) = ""

-- A manifest of the index is no index.
inner : IsNested tests caches remotes json no_conversion 1 "repo@manifest"
unfolding program
inner s desc raw i parts found multi _ _ =
    let rest : Descriptor tests → Action tests caches remotes (Descriptor tests × List ℕ) = λ d.
      if is_single_arch_image d.media_type || is_multi_arch_image d.media_type
      then (fetch tests caches remotes "host/repo@manifest:1" d >>= λ bytes. pure (d, bytes))
      else raise (invalid d.media_type) in
    let (d, e, e', _) =
      >>=-ok (resolve_converted tests caches remotes json no_conversion "host/repo@manifest:1") rest
        s (desc, raw) found in
    let same : manifest_desc ≡ d = ground arith in
    let (bytes, _, e'', _) =
      >>=-ok (fetch tests caches remotes "host/repo@manifest:1" manifest_desc)
        (λ bytes. pure (manifest_desc, bytes)) s (desc, raw) (rw (sym same) at e') in
    let kind : manifest_desc.media_type ≡ desc.media_type = ap media_type_of e'' in
    let wrong : false ≡ true = rw (sym kind) at multi in absurd (ground (arith, wrong))

nested : IsNested tests caches remotes json no_conversion 2 "repo:1.0"
unfolding program
nested s desc raw i parts found multi e e' =
    let same : i ≡ index = ground arith in
    let same' : parts ≡ ("repo", "1.0") = ground arith in
    subst
      (λ (x : Index tests × (String × String)).
        All
          (λ m.
            IsNested tests caches remotes json no_conversion 1
              (sub_manifest tests caches remotes json no_conversion x.1.0 m))
          x.0.manifests)
      (λ t. (sym same t, sym same' t)) (inner, tt)

copy-terminates_example :
    (a : Result (Unit {0}) × State tests caches remotes) × (copy tests caches remotes json
        no_conversion 2 "repo:1.0" "other:1.0" start
      ≡ some a)
copy-terminates_example =
    copy-terminates tests caches remotes json no_conversion 2 "repo:1.0" "other:1.0" start nested
