-- ===== src/Transport/Pipeline.antt =====
-- The pipeline of pkg/transport/process/pipeline.go, which hands a message through temporary files from
-- one processor to the next, and the resource labeler of pkg/transport/process/processors.
pub mod Order
use component_cli.Prelude.{ℕ, Option, none, some, List, [], ◌∷◌, ◌++◌}
use component_cli.Prelude.Result.{Error, wrap, Result}
use component_cli.Prelude.Call.{Call, value, error, panic, ◌>>=◌, explain, from_result, deref}
use component_cli.Transport.Message.{
  Codec, fails, write_processor_message, Message, read_processor_message,
}

-- `ResourceStreamProcessor`: what a processor makes of the bytes of a message. An implementation may be
-- a program of its own.
abbrev pub ResourceStreamProcessor : Codec → Type 0
ResourceStreamProcessor c = c.Stream → Call c.Stream

-- The labels of a resource.
pub record Labels (c : Codec) : Type 1 where
  pub Label : Type 0
  pub labels : c.Resource → List Label
  pub with_labels : c.Resource → List Label → c.Resource

module _ (c : Codec) where
  open c use {ComponentDescriptor, Resource, Stream}

  -- `runProcessor`: the file that the processor wrote.
  unfoldable pub run_processor : Stream → ResourceStreamProcessor c → Call Stream
  run_processor infile process = do
    _ ← explain "unable to seek to beginning of input file" (from_result (fails c c.seek))
    _ ← explain "unable to create temporary outfile" (from_result (fails c c.temp_file))
    explain "unable to process resource" (process infile)

  -- The loop of `Process`.
  unfoldable pub run_processors : Stream → List (ResourceStreamProcessor c) → Call Stream
  unfolding run_processor
  run_processors infile [] = value infile
  run_processors infile (p ∷ ps) = do outfile ← run_processor infile p; run_processors outfile ps

  -- `Process` of the pipeline.
  unfoldable pub process_resource :
      List (ResourceStreamProcessor c)
      → ComponentDescriptor
      → Resource
      → Call (Option ComponentDescriptor × Resource)
  unfolding run_processors
  process_resource processors cd res = do
    _ ← explain "unable to create temporary infile" (from_result (fails c c.temp_file))
    infile ← explain "unable to write" (from_result (write_processor_message c cd res none))
    outfile ← run_processors infile processors
    _ ← explain "unable to seek to beginning of input file" (from_result (fails c c.seek))
    m ← explain "unable to read output data" (from_result (read_processor_message c outfile))
    value (m.cd, m.res)

  -- The reader that ReadProcessorMessage returns for a blob.
  abbrev pub blob_reader : Option (List ℕ) → Option (Result (List ℕ))
  blob_reader none = none
  blob_reader (some bytes) = some (Result.ok bytes)

  -- `Process` of the resource labeler. It dereferences the descriptor.
  unfoldable pub label_resource : (l : Labels c) → List l.Label → ResourceStreamProcessor c
  label_resource l labels stream = do
    m ← explain "unable to read processor message" (from_result (read_processor_message c stream))
    cd ← deref m.cd
    explain "unable to write processor message" (
        from_result (
          write_processor_message c cd (l.with_labels m.res (l.labels m.res ++ labels))
            (blob_reader m.blob)))
