-- ===== src/Lib.antt =====
-- The OCI side of the component CLI, the cache of blobs and the credentials of registries, and the
-- transport of components.
--
-- The program's parts that are modelled, and how they work together. The OCI client asks a keyring for
-- the credentials of a registry (ociclient/credentials/keyring.go) and keeps the blobs that it fetches in
-- a layered cache (ociclient/cache/cache.go), which stands on one or two size limited file systems with a
-- garbage collection (ociclient/cache/filesystem.go); a simpler cache holds all in memory
-- (ociclient/cache/inmemory.go). A mutex for each key is offered beside them
-- (ociclient/utils/keymutex/keymutex.go). The transport (pkg/transport) selects downloaders, processors
-- and uploaders for each resource by filters, and hands the resource from one processor to the next in
-- messages. Manifests of docker's schema 1 are converted and put into the cache. The client fetches,
-- pushes and copies manifests and indexes with their layers (ociclient/client.go, ociclient/copy.go) and
-- lists the tags and repositories of a registry page by page. The credentials of a registry can come from
-- a secret server (ociclient/credentials/secretserver/secret_server.go). Components are copied from one
-- repository to another with what they refer to (pkg/commands/componentarchive/remote/copy.go), and blobs
-- are read from files and directories (pkg/commands/componentarchive/input/input.go).
--
-- Files:
-- - Prelude and its children: shared names, tests, lists, results, dictionaries for Go's maps, and int64
--   by its bit pattern with the wrap-around written out.
-- - Strings: strings.Split and Join, path.Join with its Clean, HasPrefix, TrimPrefix and ReplaceAll. Strings/Split: join after split.
-- - Keyring: GeneralOciKeyring. Get is get_resource, get is get, Add, AddAuthConfig,
--   AddAuthConfigGetter, Merge and GetCredentials have their names in snake_case. Keyring/Index is
--   IndexNode with Set, FindSegment and Find; Keyring/Index/Segments and its child Lookup read it by
--   lists of words, Keyring/Search states what Set and Find do, Keyring/Getters what adding and merging
--   do.
-- - KeyMutex: Lock, Unlock and Remove as steps of a shared state. KeyMutex/Blocking: what callers get.
-- - Cache/Platform: the parameters of the cache. Cache/Index: Index, IndexEntry and the list by
--   priority. Cache/FileSystem: FileSystem and its configuration. Cache/Layered: layeredCache, where
--   get_file is get, and read_verified, get_from_base and copy_to_overlay are parts of it. Cache/Memory:
--   inmemoryCache. Cache/Options: the options of ociclient/cache/types.go, and NewCache with initBasePath;
--   Cache/Options/Overlay: when there is an overlay.
-- - Transport/Filters: the filters of pkg/transport/filters and FilterFactory.Create.
--   Transport/Filters/Included: what a created filter accepts. Transport/Config: the definitions of
--   pkg/transport/config, ParseTransportConfig and the Match functions; Transport/Config/Rules and
--   Transport/Config/Matching state what they do. Transport/Message: WriteProcessorMessage,
--   ReadProcessorMessage and WriteFileToTARArchive (pkg/utils/utils.go), with their round trip in
--   Transport/Message/RoundTrip. Transport/Pipeline: Process and runProcessor of
--   pkg/transport/process/pipeline.go and the resource labeler, with Transport/Pipeline/Order.
-- - ManifestV1: ConvertV1ManifestToV2, ParseV1Manifest, CreateV2Config, CreateV2Manifest and
--   isEmptyLayer of ociclient/manifest_v1_conversion.go; parse_below is the loop over the layers.
--   ManifestV1/Layers, ManifestV1/Config and ManifestV1/Stored state what the results are.
-- - OciRef: ParseRef, RefSpec with its methods (ociclient/oci/ref.go), ParseImageRef and the selection of
--   layers (ociclient/utils.go). OciRef/Parsing: what they keep.
-- - Oci: descriptors, manifests and indexes; Oci/Artifact: the artifacts of ociclient/oci/artifact.go.
-- - Client: the state of the client of ociclient/client.go. Client/Transport and Client/Actions: requests
--   and the scopes of credentials. Client/Fetch: fetching, with the cache; Client/Fetch/Verified and
--   Client/Fetch/Reads state what is answered. Client/Push: pushing of manifests and indexes, with
--   Client/Push/Uploads, Complete and Indexes. Client/Copy: Copy of ociclient/copy.go, with Runs,
--   Terminates, Grows and Complete. Client/Paging: ListTags and ListRepositories, with Pages and Lists.
-- - SecretServer: the configuration of the secret server, its decryption and newKeyring.
--   SecretServer/Grants: which credentials apply; SecretServer/Blocks: the decryption by blocks.
-- - Copier: Copier of pkg/commands/componentarchive/remote/copy.go, where copy_component is Copy.
--   Copier/Resources: resources and sources; Copier/Attempts and Copier/Retries: repeated attempts;
--   Copier/Layers: the layers of local blobs; Copier/Grows, Uploaded and Complete state what the
--   target has.
-- - BlobInput: BlobInput and TarFileSystem, where read_blob is Read. BlobInput/Included: which paths are
--   included; BlobInput/Described: digest and size of what is read.
-- - Tests: concrete platforms, runs, and each theorem at an input.
--
-- Parameters stand for what the code uses and does not implement: parsing of docker references and urls
-- (Keyring.References), floating point numbers, the virtual file system and sort.Sort (Cache/Platform),
-- digests (Cache.Layered.Digests), the operating system's calls of the set-up (Cache.Options.Os),
-- parsing of quantities (an argument of apply_options), component descriptors, regular expressions and
-- yaml (Transport.Filters.Platform), tar streams, temporary files and the encoding of messages
-- (Transport.Message.Codec), the client and the cache, which share a state, json and decompression of the
-- conversion (ManifestV1.Registry), docker references and digests (OciRef.Images),
-- the formats of manifests (Oci.Formats and Json), the cache and the registry's requests (Client.Caches
-- and Remotes, Client.Paging.Http), the conversion of schema 1 for a client (an argument convert), the
-- services and the block cipher of the secret server (SecretServer.Services and Block), the resolver and
-- the repositories of components (Copier.Components), and the file system, patterns and archives of
-- blobs (BlobInput.Files). What a theorem
-- asks of them it names as a hypothesis. A state that a method changes is passed in and handed back, also
-- beside an error. A map is a list of pairs; as Go leaves the order of a loop over a map open, theorems
-- hold for every order of the list. A call that can dereference nil answers with the panic of
-- Prelude.Call. Texts of errors leave out the names that the source prints in them.
--
-- Bounds and fuel: sizes and hits are int64 by their bit patterns, added modulo 2 ^ 64. Set and Find of
-- the index call themselves on the path behind its first word, with one unit of fuel for each word and
-- one more, which is enough. Copy has fuel for the levels of
-- nested indexes, paging for the pages, copy_component for the levels of references and those of indexes,
-- and add_file_to_tar for the levels of directories and symbolic links: none of these has a bound in the
-- source, so they answer with none where the fuel does not last. The decryption by blocks has the length
-- of its source as fuel. All other loops recur on a list or on their counter.
--
-- Concurrency: every method of the file system is one step, and the garbage collection, which Create
-- starts in a goroutine of its own, is a step of its own; between its copy of the index and its sweep
-- nothing else runs in the model. The goroutine that resets the hits is the step tick. Of the key mutex
-- the steps of all goroutines interleave.
--
-- Not modelled: logging, the set-up of http clients, the waiting between two attempts, the resolver for
-- go-containerregistry, the keyring's builder, and the other parts of the program (component archives, the
-- downloaders and uploaders of the transport, signing, the commands). The pipe of a generic store and its
-- goroutine are the value of the read.
pub mod BlobInput
pub mod Cache
pub mod Client
pub mod Copier
pub mod KeyMutex
pub mod Keyring
pub mod ManifestV1
pub mod Oci
pub mod OciRef
pub mod Prelude
pub mod SecretServer
pub mod Strings
pub mod Tests
pub mod Transport
