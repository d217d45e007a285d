-- ===== src/Transport/Message.antt =====
-- Processor messages (pkg/transport/process/utils/processor_message.go): a tar archive with a component
-- descriptor, a resource and optionally the resource's blob.
pub mod RoundTrip
use component_cli.Prelude.{ℕ, String, Option, none, some, List, [], ◌∷◌, ◌++◌, ◌==◌, if◌then◌else◌}
use component_cli.Prelude.Result.{Error, invalid, wrap, Result, ok, err, ◌>>=◌, context}

-- An entry of a tar archive as its reader sees it: reading its content may fail.
pub record Entry : Type 0 where
  pub name : String
  pub content : Result (List ℕ)

-- What messages use of other packages. `write_header` and `write_content` are the errors of
-- writing the next entry to a tar writer; `entries` is what a tar reader makes of a stream, with the
-- error that ends it, if one does. `temp_file` and `seek` are the errors of a temporary file.
pub record Codec : Type 1 where
  pub ComponentDescriptor : Type 0
  pub Resource : Type 0
  pub no_resource : Resource
  pub marshal_descriptor : ComponentDescriptor → Result (List ℕ)
  pub marshal_resource : Resource → Result (List ℕ)
  pub unmarshal_descriptor : List ℕ → Result ComponentDescriptor
  pub unmarshal_resource : List ℕ → Result Resource
  pub write_header : List (String × List ℕ) → String → List ℕ → Option Error
  pub write_content : List (String × List ℕ) → String → List ℕ → Option Error
  pub Stream : Type 0
  pub archive : List (String × List ℕ) → Stream
  pub entries : Stream → List Entry × Option Error
  pub temp_file : Option Error
  pub seek : Option Error

abbrev pub component_descriptor_file : String
component_descriptor_file = "component-descriptor.yaml"

abbrev pub resource_file : String
resource_file = "resource.yaml"

abbrev pub resource_blob_file : String
resource_blob_file = "resource-blob"

module _ (c : Codec) where
  open c use {ComponentDescriptor, Resource, Stream}

  -- The entries that a tar writer has written.
  abbrev pub TarWriter : Type 0
  TarWriter = List (String × List ℕ)

  abbrev pub fails : Option Error → Result (Unit {0})
  fails none = ok tt
  fails (some e) = err e

  -- `utils.WriteFileToTARArchive`: `none` for a reader that is nil.
  unfoldable pub write_file_to_tar_archive :
      String → Option (Result (List ℕ)) → TarWriter → Result TarWriter
  write_file_to_tar_archive filename none tw =
      if filename == ""
      then err (invalid "filename must not be empty")
      else err (invalid "inputReader must not be nil")
  write_file_to_tar_archive filename (some input) tw =
      if filename == "" then err (invalid "filename must not be empty") else (do
        _ ← context "unable to create tempfile" (fails c.temp_file)
        bytes ← context "unable to copy content to tempfile" input
        _ ← context "unable to seek to beginning of tempfile" (fails c.seek)
        _ ← context "unable to write tar header" (fails (c.write_header tw filename bytes))
        _ ←
            context "unable to write file to tar archive"
              (fails (c.write_content tw filename bytes))
        ok (tw ++ (filename, bytes) ∷ []))

  -- `WriteProcessorMessage`: what it leaves in the stream. Closing the tar writer is deferred, and its
  -- error dropped.
  unfoldable pub write_processor_message :
      ComponentDescriptor → Resource → Option (Result (List ℕ)) → Result Stream
  unfolding write_file_to_tar_archive
  write_processor_message cd res blob = do
    marshaled_cd ← context "unable to marshal component descriptor" (c.marshal_descriptor cd)
    tw1 ←
        context "unable to write component-descriptor.yaml"
          (write_file_to_tar_archive component_descriptor_file (some (ok marshaled_cd)) [])
    marshaled_res ← context "unable to marshal resource" (c.marshal_resource res)
    tw2 ←
        context "unable to write resource.yaml"
          (write_file_to_tar_archive resource_file (some (ok marshaled_res)) tw1)
    elim blob [
      | none ↦ ok (c.archive tw2)
      | some content ↦ do
        tw3 ←
            context "unable to write resource-blob"
              (write_file_to_tar_archive resource_blob_file (some content) tw2)
        ok (c.archive tw3)
    ]

  -- What `ReadProcessorMessage` has read so far; `cd` is nil before the descriptor's entry.
  pub record Message : Type 0 where
    pub cd : Option ComponentDescriptor
    pub res : Resource
    pub blob : Option (List ℕ)

  -- `readResource` and `readComponentDescriptor`
  unfoldable pub read_resource : Result (List ℕ) → Result Resource
  read_resource content = do
    bytes ← context "unable to read from stream" content
    context "unable to unmarshal" (c.unmarshal_resource bytes)

  unfoldable pub read_component_descriptor : Result (List ℕ) → Result ComponentDescriptor
  read_component_descriptor content = do
    bytes ← context "unable to read from stream" content
    context "unable to unmarshal" (c.unmarshal_descriptor bytes)

  -- The switch on the name of an entry; other names are skipped.
  unfoldable pub read_entry : Message → Entry → Result Message
  unfolding read_resource read_component_descriptor
  read_entry m e =
      if e.name == resource_file
      then (do
        res ← context "unable to read resource.yaml" (read_resource e.content)
        ok (record m { res = res }))
      else if e.name == component_descriptor_file
      then (do
        cd ←
            context "unable to read component-descriptor.yaml" (read_component_descriptor e.content)
        ok (record m { cd = some cd }))
      else if e.name == resource_blob_file
      then (do
        _ ← context "unable to create tempfile" (fails c.temp_file)
        bytes ← context "unable to read resource-blob" e.content
        ok (record m { blob = some bytes }))
      else ok m

  unfoldable pub read_entries : Message → List Entry → Result Message
  read_entries m [] = ok m
  read_entries m (e ∷ es) = do m' ← read_entry m e; read_entries m' es

  -- `ReadProcessorMessage`
  unfoldable pub read_processor_message : Stream → Result Message
  unfolding read_entries
  read_processor_message stream = do
    m ← read_entries (record { cd = none; res = c.no_resource; blob = none }) (c.entries stream).0
    _ ← context "unable to read tar header" (fails (c.entries stream).1)
    elim m.blob [
      | none ↦ ok m
      | some _ ↦ do
        _ ← context "unable to seek to beginning of resource blob file" (fails c.seek)
        ok m
    ]
