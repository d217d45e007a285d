-- ===== src/BlobInput/Described.antt =====
-- What a blob is described by (pkg/commands/componentarchive/input/input.go).
use mathlib.Core.Path.{subst}
use component_cli.Prelude.{
  none, ℕ, String, ◌≡◌, refl, ap, some, Option-cases, Bool, Bool-cases, ◌==◌, true, false, inl, inr,
  [], arith, if◌then◌else◌, List, length,
}
use component_cli.Prelude.Result.{Result, ok, err, Result-cases}
use component_cli.BlobInput.{
  Files, BlobInput, BlobOutput, compress, output_of, compressed, tar_options, tar_file_system,
  read_again, read_file, read_dir, read_blob, input_path, dir_input_type, file_input_type,
}

module _ (fs : Files) where
  -- The digest and the size are those of the bytes that are handed out.
  abbrev pub IsDescribed : BlobOutput → Type 0
  IsDescribed out =
      (bytes : List ℕ) × (out.content ≡ ok bytes)
      × (out.digest ≡ fs.digest bytes)
      × (out.size ≡ length bytes)

  value : Result BlobOutput → BlobOutput
  value (ok out) = out
  value (err e) = output_of fs []

  ok-Described : (made out : BlobOutput) → IsDescribed made → ok made ≡ ok out → IsDescribed out
  unfolding value
  ok-Described made out d h = subst IsDescribed (ap value h) d

  output_of-Described : (bytes : List ℕ) → IsDescribed (output_of fs bytes)
  output_of-Described bytes = (bytes, refl, refl, refl)

  compressed-Described :
      (bytes : List ℕ) (out : BlobOutput) → compressed fs bytes ≡ ok out → IsDescribed out
  compressed-Described bytes out h = elim (Result-cases (fs.gzip bytes)) [
    | inr (failure, e) ↦ absurd (ground arith)
    | inl (small, e) ↦
        ok-Described (output_of fs small) out (output_of-Described small) (rw (compressed, e) at h)
  ]

  chosen-Described :
      (b : Bool) (bytes : List ℕ) (plain out : BlobOutput)
      → IsDescribed plain
      → (if b then compressed fs bytes else ok plain) ≡ ok out
      → IsDescribed out
  chosen-Described true bytes plain out d h = compressed-Described bytes out h
  chosen-Described false bytes plain out d h = ok-Described plain out d h

  -- A file that is read to its end and set back to its start is read again as it was.
  abbrev pub IsRewound : Type 0
  IsRewound =
      (path : String) (file : fs.Handle) (bytes : List ℕ)
      → fs.open_file path ≡ ok file
      → (fs.read_rest file).0 ≡ ok bytes
      → (fs.seek_start (fs.read_rest file).1).0 ≡ none
      → (fs.read_rest (fs.seek_start (fs.read_rest file).1).1).0 ≡ ok bytes

  read_again-Described :
      (input : BlobInput) (size : ℕ) (hashed : List ℕ) (file : fs.Handle) (out : BlobOutput)
      → (fs.read_rest file).0 ≡ ok hashed
      → size ≡ length hashed
      → (read_again fs input size hashed file).0 ≡ ok out
      → IsDescribed out
  unfolding read_again
  read_again-Described input size hashed file out content sized h =
      let plain : BlobOutput = record {
        digest = fs.digest hashed;
        size = size;
        content = (fs.read_rest file).0;
      } in
      chosen-Described (compress input) hashed plain out (hashed, content, refl, sized)
        (ground arith)

  read_file-Described :
      (input : BlobInput) (path : String) (size : ℕ) (out : BlobOutput)
      → IsRewound
      → ((file : fs.Handle) (bytes : List ℕ)
          → fs.open_file path ≡ ok file
          → (fs.read_rest file).0 ≡ ok bytes
          → size ≡ length bytes)
      → (read_file fs input path size).0 ≡ ok out
      → IsDescribed out
  unfolding read_file
  read_file-Described input path size out rewound sized h =
      elim (Result-cases (fs.open_file path)) [
        | inr (failure, e) ↦ absurd (ground arith)
        | inl (file, e) ↦ elim (Result-cases (fs.read_rest file).0) [
          | inr (failure, e') ↦ absurd (ground arith)
          | inl (bytes, e') ↦ elim (Option-cases (fs.seek_start (fs.read_rest file).1).0) [
            | inr (failure, e'') ↦ absurd (ground arith)
            | inl e'' ↦
                read_again-Described input size bytes (fs.seek_start (fs.read_rest file).1).1 out
                  (rewound path file bytes e e' e'') (sized file bytes e e')
                  (rw (read_file, e, e', e'') at h)
          ]
        ]
      ]

  read_dir-Described :
      (n : ℕ) (input after : BlobInput) (path : String) (out : BlobOutput)
      → read_dir fs n input path ≡ some (ok out, after)
      → IsDescribed out
  unfolding read_dir
  read_dir-Described n input after path out h =
      elim (Option-cases (tar_file_system fs n path (tar_options fs input))) [
        | inl e ↦ absurd (ground arith)
        | inr (answer, e) ↦ elim (Result-cases answer) [
          | inr (failure, e') ↦ absurd (ground arith)
          | inl (bytes, e') ↦
              chosen-Described (compress input) bytes (output_of fs bytes) out
                (output_of-Described bytes) (ground arith)
        ]
      ]

  -- Whatever Read answers with, of a directory or of a file, compressed or not, has the digest and the
  -- size of the bytes that are read from what it hands out, if the size of a file is the length of its
  -- content and a file that is set back to its start is read again as it was.
  pub read_blob-Described :
      (n : ℕ) (input after : BlobInput) (file : String) (out : BlobOutput)
      → IsRewound
      → ((path : String) (size : ℕ) (opened : fs.Handle) (bytes : List ℕ)
          → fs.is_dir path ≡ ok (false, size)
          → fs.open_file path ≡ ok opened
          → (fs.read_rest opened).0 ≡ ok bytes
          → size ≡ length bytes)
      → read_blob fs n input file ≡ some (ok out, after)
      → IsDescribed out
  unfolding read_blob
  read_blob-Described n input after file out rewound sized h =
      elim (Result-cases (input_path fs input file)) [
        | inr (failure, e) ↦ absurd (ground arith)
        | inl (path, e) ↦ elim (Result-cases (fs.is_dir path)) [
          | inr (failure, e') ↦ absurd (ground arith)
          | inl ((is_dir, size), e') ↦ elim (Bool-cases (input.type_name == dir_input_type)) [
            | inl e'' ↦ elim (Bool-cases is_dir) [
              | inl d ↦ read_dir-Described n input after path out (ground arith)
              | inr d ↦ absurd (ground arith)
            ]
            | inr e'' ↦ elim (Bool-cases (input.type_name == file_input_type)) [
              | inl e3 ↦ elim (Bool-cases is_dir) [
                | inl d ↦ absurd (ground arith)
                | inr d ↦
                    read_file-Described input path size out rewound
                      (λ opened bytes. sized path size opened bytes (ground arith)) (ground arith)
              ]
              | inr e3 ↦ absurd (ground arith)
            ]
          ]
        ]
      ]
