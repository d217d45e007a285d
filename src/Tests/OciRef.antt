-- ===== src/Tests/OciRef.antt =====
-- References at concrete texts (ociclient/oci/ref.go, ociclient/utils.go): docker references have a fixed
-- host and tag, and the digest of a text is the text with a mark.
use Prim.Native.String.{◌++◌ as ◌<>◌}
use component_cli.Prelude.{String, ◌≡◌, ◌↔◌, ◌⊎◌, refl, true, none, some}
use component_cli.Prelude.Result.{ok}
use component_cli.Strings.{split, join, contains, path_join}
use component_cli.OciRef.{
  Images, RefSpec, parse_image_ref, parse_ref, to_string, deep_copy, get_layer_by_name,
}
use component_cli.OciRef.Parsing.{parse_image_ref-join, deep_copy-same}

program : Unit {0}
unfolding split join contains path_join parse_image_ref parse_ref to_string deep_copy
    get_layer_by_name
program = tt

abbrev tagged : Images
tagged = record {
  Digest = String;
  text = λ d. d;
  from_string = λ s. "sha256:" <> s;
  is_digest = λ s. true;
  parse_docker_ref =
      λ s. ok (record { domain = "docker.io"; path = s; tag = some "1.0"; digest = none });
}

without_protocol :
    parse_ref tagged "https://repo"
    ≡ ok (record { host = "index.docker.io"; repository = "repo"; tag = some "1.0"; digest = none })
unfolding program
without_protocol = refl

parsed_with_port : parse_image_ref "host:5000/repo:1.0" ≡ ok ("host:5000/repo", "1.0")
unfolding program
parsed_with_port = refl

-- Without a tag, the repository's name behind the port is taken for the version.
parsed_without_tag : parse_image_ref "host:5000/repo" ≡ ok ("host", "5000/repo")
unfolding program
parsed_without_tag = refl

abbrev version : String
version = "1.0"

abbrev with_port : String
with_port = "host:5000/repo"

abbrev with_tag : String
with_tag = "host:5000/repo:1.0"

parse_image_ref-join_example :
    (with_port <> "@1.0" ≡ with_tag)
    ⊎ ((with_port <> ":1.0" ≡ with_tag) ⊎ ((with_port ≡ "") × (version ≡ with_tag)))
parse_image_ref-join_example =
    parse_image_ref-join "host:5000/repo:1.0" "host:5000/repo" "1.0" parsed_with_port

abbrev pinned : RefSpec tagged
pinned = record { host = "host"; repository = "repo"; tag = none; digest = some "sha256:1" }

-- A copy is printed with another digest.
copied_digest : to_string tagged (deep_copy tagged pinned) ≡ "host/repo@sha256:sha256:1"
unfolding program
copied_digest = refl

deep_copy-same_example :
    (deep_copy tagged pinned ≡ pinned)
    ↔ ((d : String) → pinned.digest ≡ some d → "sha256:" <> d ≡ d)
deep_copy-same_example = deep_copy-same tagged pinned
