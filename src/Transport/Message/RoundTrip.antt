-- ===== src/Transport/Message/RoundTrip.antt =====
-- Reading a message that was written.
use component_cli.Prelude.{
  ℕ, String, ◌≡◌, refl, Option, none, some, inl, inr, List, [], ◌∷◌, map, arith,
}
use component_cli.Prelude.Result.{Result, ok, err, Result-cases}
use component_cli.Transport.Message.{
  Entry, Codec, component_descriptor_file, resource_file, resource_blob_file,
  write_file_to_tar_archive, write_processor_message, Message, read_entry, read_entries,
  read_processor_message,
}

abbrev pub entry_of : String × List ℕ → Entry
entry_of (n, bytes) = record { name = n; content = ok bytes }

-- A tar reader gives the entries that the archive was made of, and what was encoded can be decoded.
-- Temporary files can be used.
pub record IsFaithful (c : Codec) : Type 0 where
  pub entries-archive :
      (l : List (String × List ℕ)) → c.entries (c.archive l) ≡ (map entry_of l, none)
  pub descriptor_back :
      (cd : c.ComponentDescriptor) (bytes : List ℕ)
      → c.marshal_descriptor cd ≡ ok bytes
      → c.unmarshal_descriptor bytes ≡ ok cd
  pub resource_back :
      (res : c.Resource) (bytes : List ℕ)
      → c.marshal_resource res ≡ ok bytes
      → c.unmarshal_resource bytes ≡ ok res
  pub temp_files : c.temp_file ≡ none
  pub seeks : c.seek ≡ none

-- The blob that a reader of `content` gives.
abbrev pub content_of : Option (Result (List ℕ)) → Option (List ℕ)
content_of none = none
content_of (some (ok bytes)) = some bytes
content_of (some (err e)) = none

-- What a successful write left in the stream.
unfoldable pub written : List ℕ → List ℕ → Option (List ℕ) → List (String × List ℕ)
written cd res none = (component_descriptor_file, cd) ∷ (resource_file, res) ∷ []
written cd res (some blob) =
    (component_descriptor_file, cd) ∷ (resource_file, res) ∷ (resource_blob_file, blob) ∷ []

module _ (c : Codec) where
  stream-written :
      (cd : c.ComponentDescriptor) (res : c.Resource) (blob : Option (Result (List ℕ)))
      (cd_bytes res_bytes : List ℕ) (stream : c.Stream)
      → c.marshal_descriptor cd ≡ ok cd_bytes
      → c.marshal_resource res ≡ ok res_bytes
      → write_processor_message c cd res blob ≡ ok stream
      → stream ≡ c.archive (written cd_bytes res_bytes (content_of blob))
  unfolding write_processor_message write_file_to_tar_archive written
  stream-written cd res none cd_bytes res_bytes stream e e' h = ground arith
  stream-written cd res (some (ok bytes)) cd_bytes res_bytes stream e e' h = ground arith
  stream-written cd res (some (err failure)) cd_bytes res_bytes stream e e' h =
      absurd (ground arith)

  write-written :
      (cd : c.ComponentDescriptor) (res : c.Resource) (blob : Option (Result (List ℕ)))
      (stream : c.Stream)
      → write_processor_message c cd res blob ≡ ok stream
      → (cd_bytes : List ℕ) × (res_bytes : List ℕ) × (c.marshal_descriptor cd ≡ ok cd_bytes)
        × (c.marshal_resource res ≡ ok res_bytes)
        × (stream ≡ c.archive (written cd_bytes res_bytes (content_of blob)))
  unfolding write_processor_message
  write-written cd res blob stream h = elim (Result-cases (c.marshal_descriptor cd)) [
    | inl (cd_bytes, e) ↦ elim (Result-cases (c.marshal_resource res)) [
      | inl (res_bytes, e') ↦
          (cd_bytes, res_bytes, e, e', stream-written cd res blob cd_bytes res_bytes stream e e' h)
      | inr (failure, e') ↦ absurd (ground arith)
    ]
    | inr (failure, e) ↦ absurd (ground arith)
  ]

  read-entries :
      (stream : c.Stream) (es : List Entry) (m : Message c)
      → c.entries stream ≡ (es, none)
      → read_entries c (record { cd = none; res = c.no_resource; blob = none }) es ≡ ok m
      → c.seek ≡ none
      → read_processor_message c stream ≡ ok m
  unfolding read_processor_message
  read-entries stream es m h k e = ground arith

  module _ (faithful : IsFaithful c) where
    read_entries-written :
        (cd : c.ComponentDescriptor) (res : c.Resource) (blob : Option (List ℕ))
        (cd_bytes res_bytes : List ℕ)
        → c.unmarshal_descriptor cd_bytes ≡ ok cd
        → c.unmarshal_resource res_bytes ≡ ok res
        → read_entries c
            (record { cd = none; res = c.no_resource; blob = none })
            (map entry_of (written cd_bytes res_bytes blob))
          ≡ ok (record { cd = some cd; res = res; blob = blob })
    unfolding read_entries read_entry written
    read_entries-written cd res none cd_bytes res_bytes h k = rw (h, read_entry, k) refl
    read_entries-written cd res (some blob) cd_bytes res_bytes h k =
        rw (h, read_entry, k, read_entry, faithful.temp_files) refl

    -- Where tar streams and encodings are read back as they were written, and temporary files can be used,
    -- ReadProcessorMessage reads back whatever WriteProcessorMessage writes without an error: the
    -- descriptor, the resource, and the blob if there was one.
    pub read-write :
        (cd : c.ComponentDescriptor) (res : c.Resource) (blob : Option (Result (List ℕ)))
        (stream : c.Stream)
        → write_processor_message c cd res blob ≡ ok stream
        → read_processor_message c stream
          ≡ ok (record { cd = some cd; res = res; blob = content_of blob })
    read-write cd res blob stream h =
        let (cd_bytes, res_bytes, e, e', s) = write-written cd res blob stream h in
        let back : read_entries c (record { cd = none; res = c.no_resource; blob = none })
              (map entry_of (written cd_bytes res_bytes (content_of blob)))
            ≡ ok (record { cd = some cd; res = res; blob = content_of blob }) =
          read_entries-written cd res (content_of blob) cd_bytes res_bytes
            (faithful.descriptor_back cd cd_bytes e) (faithful.resource_back res res_bytes e') in
        rw s (
          read-entries (c.archive (written cd_bytes res_bytes (content_of blob))) _ _
            (faithful.entries-archive _) back faithful.seeks)
