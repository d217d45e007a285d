-- ===== src/Transport/Pipeline/Order.antt =====
-- Labelers put their labels on in the order of the pipeline.
use mathlib.Core.List.{append-nil, append_assoc}
use component_cli.Prelude.{◌≡◌, refl, ap, sym, ◌∙◌, none, some, List, [], ◌∷◌, ◌++◌, map, arith}
use component_cli.Prelude.Result.{ok}
use component_cli.Prelude.Call.{value}
use component_cli.Transport.Message.{Codec, write_processor_message}
use component_cli.Transport.Message.RoundTrip.{IsFaithful, read-write}
use component_cli.Transport.Pipeline.{
  ResourceStreamProcessor, Labels, run_processor, run_processors, process_resource, label_resource,
}

-- Writing a message without a blob does not fail.
pub record CanWrite (c : Codec) : Type 0 where
  pub written :
      (cd : c.ComponentDescriptor) (res : c.Resource)
      → (stream : c.Stream) × (write_processor_message c cd res none ≡ ok stream)

-- Labels are a field of a resource.
pub record IsField {c : Codec} (l : Labels c) : Type 0 where
  pub labels-with : (r : c.Resource) (ls : List l.Label) → l.labels (l.with_labels r ls) ≡ ls
  pub with-with :
      (r : c.Resource) (ls ms : List l.Label)
      → l.with_labels (l.with_labels r ls) ms ≡ l.with_labels r ms
  pub with-labels : (r : c.Resource) → l.with_labels r (l.labels r) ≡ r

unfoldable pub concat : {A : Type 0} → List (List A) → List A
concat [] = []
concat (xs ∷ xss) = xs ++ concat xss

module _ (c : Codec) (l : Labels c) (faithful : IsFaithful c) (can : CanWrite c)
    (field : IsField l) where
  relabeled : c.Resource → List l.Label → c.Resource
  relabeled res ls = l.with_labels res (l.labels res ++ ls)

  label_resource-written :
      (cd : c.ComponentDescriptor) (res : c.Resource) (ls : List l.Label)
      (infile outfile : c.Stream)
      → write_processor_message c cd res none ≡ ok infile
      → write_processor_message c cd (relabeled res ls) none ≡ ok outfile
      → run_processor c infile (label_resource c l ls) ≡ value outfile
  unfolding run_processor label_resource relabeled
  label_resource-written cd res ls infile outfile h e =
      let read = read-write c faithful cd res none infile h in
      ground (arith, read, e, faithful.temp_files, faithful.seeks)

  relabeled-append :
      (res : c.Resource) (ls ms : List l.Label)
      → relabeled (relabeled res ls) ms ≡ relabeled res (ls ++ ms)
  unfolding relabeled
  relabeled-append res ls ms =
      field.with-with res _ _
      ∙ ap (l.with_labels res) (
          ap (λ ns. ns ++ ms) (field.labels-with res (l.labels res ++ ls))
          ∙ append_assoc (l.labels res) ls ms)

  relabeled-nil : (res : c.Resource) → relabeled res [] ≡ res
  unfolding relabeled
  relabeled-nil res = ap (l.with_labels res) (append-nil (l.labels res)) ∙ field.with-labels res

  run_labelers :
      (cd : c.ComponentDescriptor) (lss : List (List l.Label)) (res : c.Resource)
      (infile : c.Stream)
      → write_processor_message c cd res none ≡ ok infile
      → (outfile : c.Stream) × (run_processors c infile (map (label_resource c l) lss)
          ≡ value outfile)
        × (write_processor_message c cd (relabeled res (concat lss)) none ≡ ok outfile)
  unfolding run_processors concat
  run_labelers cd [] res infile h =
      (infile, refl, ap (λ r. write_processor_message c cd r none) (relabeled-nil res) ∙ h)
  run_labelers cd (ls ∷ lss) res infile h =
      let (next, e) = can.written cd (relabeled res ls) in
      let (outfile, runs, w) = run_labelers cd lss (relabeled res ls) next e in
      let first = label_resource-written cd res ls infile next h e in
      (
        outfile,
        rw first runs,
        ap (λ r. write_processor_message c cd r none) (sym (relabeled-append res ls (concat lss)))
            ∙ w,
      )

  process-outfile :
      (ps : List (ResourceStreamProcessor c)) (cd : c.ComponentDescriptor) (res res' : c.Resource)
      (infile outfile : c.Stream)
      → write_processor_message c cd res none ≡ ok infile
      → run_processors c infile ps ≡ value outfile
      → write_processor_message c cd res' none ≡ ok outfile
      → process_resource c ps cd res ≡ value (some cd, res')
  unfolding process_resource
  process-outfile ps cd res res' infile outfile h runs w =
      let read = read-write c faithful cd res' none outfile w in
      ground (arith, h, runs, read, faithful.temp_files, faithful.seeks)

  -- Where messages can be written and read back, and labels are a field of a resource, a pipeline of
  -- labelers answers with the descriptor that it was given and the resource with all labels behind its
  -- own, in the order of the labelers.
  pub labelers_in_order :
      (cd : c.ComponentDescriptor) (res : c.Resource) (lss : List (List l.Label))
      → process_resource c (map (label_resource c l) lss) cd res
        ≡ value (some cd, l.with_labels res (l.labels res ++ concat lss))
  labelers_in_order cd res lss =
      let (infile, h) = can.written cd res in
      let (outfile, runs, w) = run_labelers cd lss res infile h in
      unfold relabeled in
      process-outfile _ cd res (relabeled res (concat lss)) infile outfile h runs w
