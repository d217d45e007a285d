-- ===== src/Tests/Messages.antt =====
-- Processor messages and the pipeline at concrete inputs: a stream is the list of its entries, a
-- descriptor its text, a resource the list of its labels (pkg/transport/process).
use component_cli.Prelude.{ℕ, String, ◌≡◌, refl, none, some, List, [], ◌∷◌, ◌++◌, map, arith}
use component_cli.Prelude.Result.{ok}
use component_cli.Prelude.Call.{value, panic}
use component_cli.Transport.Message.{
  Codec, write_processor_message, read_processor_message, read_entry,
}
use component_cli.Transport.Message.RoundTrip.{IsFaithful, entry_of, read-write}
use component_cli.Transport.Pipeline.{
  Labels, run_processors, process_resource, label_resource, ResourceStreamProcessor,
}
use component_cli.Transport.Pipeline.Order.{CanWrite, IsField, concat, labelers_in_order}

program : Unit {0}
unfolding read_entry write_processor_message read_processor_message run_processors process_resource
    label_resource concat
program = tt

abbrev plain : Codec
plain = record {
  ComponentDescriptor = List ℕ;
  Resource = List ℕ;
  no_resource = [];
  marshal_descriptor = λ cd. ok cd;
  marshal_resource = λ r. ok r;
  unmarshal_descriptor = λ bytes. ok bytes;
  unmarshal_resource = λ bytes. ok bytes;
  write_header = λ tw name bytes. none;
  write_content = λ tw name bytes. none;
  Stream = List (String × List ℕ);
  archive = λ l. l;
  entries = λ l. (map entry_of l, none);
  temp_file = none;
  seek = none;
}

plain-IsFaithful : IsFaithful plain
plain-IsFaithful = record {
  entries-archive = λ l. refl;
  descriptor_back = λ cd bytes h. ground arith;
  resource_back = λ res bytes h. ground arith;
  temp_files = refl;
  seeks = refl;
}

plain-CanWrite : CanWrite plain
unfolding program
plain-CanWrite = record {
  written = λ cd res. (("component-descriptor.yaml", cd) ∷ ("resource.yaml", res) ∷ [], refl);
}

abbrev numbers : Labels plain
numbers = record { Label = ℕ; labels = λ r. r; with_labels = λ r ls. ls }

numbers-IsField : IsField numbers
numbers-IsField = record {
  labels-with = λ r ls. refl;
  with-with = λ r ls ms. refl;
  with-labels = λ r. refl;
}

abbrev stream : List (String × List ℕ)
stream =
    ("component-descriptor.yaml", 1 ∷ [])
    ∷ ("resource.yaml", 2 ∷ [])
    ∷ ("resource-blob", 7 ∷ 8 ∷ [])
    ∷ []

written_stream :
    write_processor_message plain (1 ∷ []) (2 ∷ []) (some (ok (7 ∷ 8 ∷ []))) ≡ ok stream
unfolding program
written_stream = refl

read-write_example :
    read_processor_message plain stream
    ≡ ok (record { cd = some (1 ∷ []); res = 2 ∷ []; blob = some (7 ∷ 8 ∷ []) })
read-write_example =
    read-write plain plain-IsFaithful (1 ∷ []) (2 ∷ []) (some (ok (7 ∷ 8 ∷ []))) stream
      written_stream

abbrev labeler : ResourceStreamProcessor plain
labeler = label_resource plain numbers (3 ∷ [])

labelers_in_order_example :
    process_resource plain
      (map (label_resource plain numbers) ((3 ∷ []) ∷ (4 ∷ 5 ∷ []) ∷ []))
      (1 ∷ [])
      (2 ∷ [])
    ≡ value (some (1 ∷ []), (2 ∷ []) ++ concat ((3 ∷ []) ∷ (4 ∷ 5 ∷ []) ∷ []))
labelers_in_order_example =
    labelers_in_order plain numbers plain-IsFaithful plain-CanWrite numbers-IsField (1 ∷ [])
      (2 ∷ []) ((3 ∷ []) ∷ (4 ∷ 5 ∷ []) ∷ [])

-- A message without a descriptor makes the labeler panic.
labeler_without_descriptor : labeler (("resource.yaml", 2 ∷ []) ∷ []) ≡ panic
unfolding program
labeler_without_descriptor = refl
