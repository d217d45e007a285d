-- ===== src/Client/Transport.antt =====
-- The authenticated transport for a reference (ociclient/client.go).
use component_cli.Prelude.{String, Bool, List, [], ◌∷◌, map, ◌==◌}
use component_cli.Prelude.Result.{invalid, Result, ok, err, ◌>>=◌, context}
use component_cli.OciRef.{parse_ref, to_string}
use component_cli.Oci.{Formats}
use component_cli.Client.{HostConfig, Remotes}

module _ (f : Formats) (r : Remotes f) where
  -- `ref = refspec.String()` of the parsed reference, with which the client's methods begin.
  unfoldable pub normalize : String → Result String
  unfolding parse_ref to_string
  normalize ref = do
    spec ← context "unable to parse ref" (parse_ref f.images ref)
    ok (to_string f.images spec)

  abbrev first_host : List HostConfig → Result HostConfig
  first_host [] = err (invalid "no host configuration found")
  first_host (h ∷ hs) = ok h

  unfoldable pub find_host : String → Result HostConfig
  find_host ref = do
    hosts ← context "unable to find registry host" (r.host_config ref)
    first_host hosts

  -- `getRefParserOptions`: whether the registry is insecure.
  unfoldable pub get_ref_parser_options : String → Result Bool
  unfolding find_host
  get_ref_parser_options ref = do host ← find_host ref; ok (host.scheme == "http")

  -- `getTransportForRef`
  unfoldable pub get_transport_for_ref : String → List String → Result r.Transport
  unfolding get_ref_parser_options
  get_transport_for_ref ref scopes = do
    insecure ← context "unable to get ref parser options" (get_ref_parser_options ref)
    repo ← context "unable to parse ref" (r.parse_reference insecure ref)
    auth ← context "unable to get authentication" (r.authenticate repo)
    context "unable to create transport" (r.new_transport repo auth (map (r.scope repo) scopes))

  -- `getResolverForRef`
  unfoldable pub get_resolver_for_ref : String → List String → Result r.Transport
  unfolding get_transport_for_ref
  get_resolver_for_ref ref scopes =
      context "unable to create transport" (get_transport_for_ref ref scopes)
