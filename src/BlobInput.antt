-- ===== src/BlobInput.antt =====
-- Blobs that are added to a component from files and directories
-- (pkg/commands/componentarchive/input/input.go).
pub mod Included
pub mod Described
use component_cli.Prelude.{
  ℕ, zero, suc, String, Bool, true, false, not, Option, none, some, List, [], ◌∷◌, ◌++◌, length,
  nat_eq, ◌==◌, if◌then◌else◌,
}
use component_cli.Prelude.Result.{Error, invalid, wrap, Result, ok, err, ◌>>=◌, context}
use component_cli.Strings.{path_join, trim_prefix}

abbrev pub media_type_tar : String
media_type_tar = "application/x-tar"

abbrev pub media_type_gzip : String
media_type_gzip = "application/gzip"

abbrev pub file_input_type : String
file_input_type = "file"

abbrev pub dir_input_type : String
dir_input_type = "dir"

pub record BlobInput : Type 0 where
  pub type_name : String
  pub media_type : String
  pub path : String
  pub compress_with_gzip : Option Bool
  pub preserve_dir : Bool
  pub include_files : List String
  pub exclude_files : List String
  pub follow_symlinks : Bool

pub record BlobOutput : Type 0 where
  pub digest : String
  pub size : ℕ
  pub content : Result (List ℕ)

pub record TarOptions : Type 0 where
  pub include_files : List String
  pub exclude_files : List String
  pub preserve_dir : Bool
  pub follow_symlinks : Bool
  pub root : String

pub data Kind : Type 0 where
  directory regular symlink other : Kind

-- An entry of an archive: its name, and the content of a file.
abbrev pub Entry : Type 0
Entry = String × Option (List ℕ)

-- What the input uses of other packages: the file system, where the visits of Walk are the paths behind
-- its root, each with its error, patterns and paths, headers of an archive, which may be refused, the
-- bytes of an archive, compression and digests. An open file is read from its position on, and is at its
-- end then.
pub record Files : Type 1 where
  pub Handle : Type 0
  pub is_dir : String → Result (Bool × ℕ)
  pub lstat : String → Result Kind
  pub walk : String → List (String × Option Error)
  pub read : String → Result (List ℕ)
  pub open_file : String → Result Handle
  pub read_rest : Handle → Result (List ℕ) × Handle
  pub seek_start : Handle → Option Error × Handle
  pub eval_symlinks : String → Result String
  pub matches : String → String → Result Bool
  pub rel : String → String → Result String
  pub base : String → String
  pub dir : String → String
  pub is_abs : String → Bool
  pub getwd : Result String
  pub header : String → Kind → Option Error
  pub archive : List Entry → List ℕ
  pub gzip : List ℕ → Result (List ℕ)
  pub digest : List ℕ → String

-- `Compress`
unfoldable pub compress : BlobInput → Bool
compress input = elim input.compress_with_gzip [ none ↦ false | some b ↦ b ]

-- `SetMediaTypeIfNotDefined`
unfoldable pub set_media_type_if_not_defined : BlobInput → String → BlobInput
set_media_type_if_not_defined input media_type =
    if input.media_type == "" then record input { media_type = media_type } else input

module _ (fs : Files) where
  -- The loops of `Included` over patterns: whether one matches, up to the first one that does.
  unfoldable pub any_match : List String → String → Result Bool
  any_match [] path = ok false
  any_match (pattern ∷ patterns) path =
      let rest = any_match patterns path in
      elim (fs.matches pattern path) [
        | err e ↦ err (invalid pattern)
        | ok b ↦ if b then ok true else rest
      ]

  -- `Included`
  unfoldable pub included : TarOptions → String → Result Bool
  unfolding any_match trim_prefix
  included opts path = do
    let name : String = if opts.root == "" then path else trim_prefix path opts.root
    excluded ← any_match opts.exclude_files name
    if excluded
        then ok false
        else if nat_eq (length opts.include_files) 0
        then ok true
        else any_match opts.include_files name

  -- What a step adds to the archive; `none` where the fuel does not last.
  abbrev pub Added : Type 0
  Added = Option (Result (List Entry))

  abbrev pub failed : Error → Added
  failed e = some (err e)

  abbrev pub followed : Added → Added → Added
  followed none rest = none
  followed (some (err e)) rest = failed e
  followed (some (ok entries)) none = none
  followed (some (ok entries)) (some (err e)) = failed e
  followed (some (ok entries)) (some (ok more)) = some (ok (entries ++ more))

  abbrev pub with_header : String → Kind → Option (List ℕ) → Added
  with_header path kind content = elim (fs.header path kind) [
    | some e ↦ failed (wrap "unable to write header" e)
    | none ↦ some (ok ((path, content) ∷ []))
  ]

  -- The visits of `vfs.Walk`, with the adding of a path; the walk ends at the first error.
  unfoldable pub add_visited :
      (String → String → Added) → String → String → List (String × Option Error) → Added
  unfolding path_join
  add_visited add path real [] = some (ok [])
  add_visited add path real ((sub, failure) ∷ visits) =
      let rest = add_visited add path real visits in
      elim failure [
        | some e ↦ failed e
        | none ↦ elim (fs.rel real sub) [
          | err e ↦ failed (wrap "unable to calculate relative path" e)
          | ok relative ↦ followed (add (path_join path relative) sub) rest
        ]
      ]

  unfoldable pub add_directory : (String → String → Added) → String → String → Added
  unfolding add_visited
  add_directory add path real =
      followed (if path == "" then some (ok []) else with_header path directory none)
        (add_visited add path real (fs.walk real))

  unfoldable pub add_regular : String → String → Added
  add_regular path real = elim (fs.header path regular) [
    | some e ↦ failed (wrap "unable to write header" e)
    | none ↦ elim (fs.read real) [
      | err e ↦ failed (wrap "unable to add file to tar" e)
      | ok bytes ↦ some (ok ((path, some bytes) ∷ []))
    ]
  ]

  -- `addFileToTar` behind the check of the path, by the kind of the file.
  unfoldable pub add_kind : (String → String → Added) → Bool → String → String → Result Kind → Added
  unfolding add_directory add_regular
  add_kind add follow path real (err e) = failed e
  add_kind add follow path real (ok directory) = add_directory add path real
  add_kind add follow path real (ok regular) = add_regular path real
  add_kind add follow path real (ok symlink) =
      if follow
      then elim (fs.eval_symlinks real) [
        | err e ↦ failed (wrap "unable to follow symlink" e)
        | ok target ↦ add path target
      ]
      else some (ok [])
  add_kind add follow path real (ok other) = failed (invalid "unsupported file type")

  -- `addFileToTar`, on fuel for the depth of directories and symbolic links.
  unfoldable pub add_file_to_tar : ℕ → TarOptions → String → String → Added
  unfolding included add_kind
  add_file_to_tar zero opts path real = none
  add_file_to_tar (suc n) opts path real =
      let add = add_file_to_tar n opts in
      let rest = add_kind add opts.follow_symlinks path real (fs.lstat real) in
      if path == ""
      then rest
      else elim (included opts path) [ err e ↦ failed e | ok b ↦ if b then rest else some (ok []) ]

  -- `TarFileSystem`: the bytes that it writes.
  unfoldable pub tar_file_system : ℕ → String → TarOptions → Option (Result (List ℕ))
  unfolding add_file_to_tar
  tar_file_system n root opts =
      let opts' = if opts.preserve_dir then record opts { root = fs.base root } else opts in
      elim (add_file_to_tar n opts' opts'.root root) [
        | none ↦ none
        | some (err e) ↦ some (err e)
        | some (ok entries) ↦ some (ok (fs.archive entries))
      ]

  -- The path of the blob: relative to the input file, or else to the working directory.
  unfoldable pub input_path : BlobInput → String → Result String
  unfolding path_join
  input_path input file = if fs.is_abs input.path then ok input.path else (do
    wd ←
        if file == ""
        then context "unable to read current working directory" fs.getwd
        else ok (fs.dir file)
    ok (path_join wd input.path))

  abbrev pub output_of : List ℕ → BlobOutput
  output_of bytes = record { digest = fs.digest bytes; size = length bytes; content = ok bytes }

  abbrev pub compressed : List ℕ → Result BlobOutput
  compressed bytes = elim (fs.gzip bytes) [
    | err e ↦ err (wrap "unable to compress" e)
    | ok small ↦ ok (output_of small)
  ]

  abbrev pub tar_options : BlobInput → TarOptions
  tar_options input = record {
    include_files = input.include_files;
    exclude_files = input.exclude_files;
    preserve_dir = input.preserve_dir;
    follow_symlinks = input.follow_symlinks;
    root = "";
  }

  -- The branch of `Read` for a directory.
  unfoldable pub read_dir : ℕ → BlobInput → String → Option (Result BlobOutput × BlobInput)
  unfolding compress set_media_type_if_not_defined tar_file_system
  read_dir n input path =
      let input' =
        set_media_type_if_not_defined input
          (if compress input then media_type_gzip else media_type_tar) in
      elim (tar_file_system n path (tar_options input)) [
        | none ↦ none
        | some (err e) ↦ some (err (wrap "unable to tar input artifact" e), input')
        | some (ok bytes) ↦
            some (if compress input then compressed bytes else ok (output_of bytes), input')
      ]

  -- The part of the branch of `Read` for a file behind the reset of the file. The content that is not
  -- compressed is what is read from the file when it is handed out.
  unfoldable pub read_again : BlobInput → ℕ → List ℕ → fs.Handle → Result BlobOutput × BlobInput
  unfolding compress set_media_type_if_not_defined
  read_again input size hashed file =
      let content = (fs.read_rest file).0 in
      let small : Result BlobOutput = elim content [
        | err e ↦ err (wrap "unable to compress input file" e)
        | ok bytes ↦ compressed bytes
      ] in
      if compress input
      then (small, set_media_type_if_not_defined input media_type_gzip)
      else (ok (record { digest = fs.digest hashed; size = size; content = content }), input)

  -- The branch of `Read` for a file of a size.
  unfoldable pub read_file : BlobInput → String → ℕ → Result BlobOutput × BlobInput
  unfolding read_again
  read_file input path size = elim (fs.open_file path) [
    | err e ↦ (err (wrap "unable to read input blob" e), input)
    | ok file ↦
        let (read, at_end) = fs.read_rest file in
        let (failed, at_start) = fs.seek_start at_end in
        elim read [
          | err e ↦ (err (wrap "unable to calculate digest for input blob" e), input)
          | ok bytes ↦ elim failed [
            | some e ↦ (err (wrap "unable to reset input file" e), input)
            | none ↦ read_again input size bytes at_start
          ]
        ]
  ]

  -- `Read`: what it answers, and the input with its media type.
  unfoldable pub read_blob : ℕ → BlobInput → String → Option (Result BlobOutput × BlobInput)
  unfolding input_path read_dir read_file
  read_blob n input file = elim (input_path input file) [
    | err e ↦ some (err e, input)
    | ok path ↦ elim (fs.is_dir path) [
      | err e ↦ some (err (wrap "unable to get info for input blob" e), input)
      | ok (is_dir, size) ↦
          if input.type_name == dir_input_type
          then (if is_dir
              then read_dir n input path
              else some (err (invalid "resource type is dir but a file was provided"), input))
          else if input.type_name == file_input_type
          then (if is_dir
              then some (err (invalid "resource type is file but a directory was provided"), input)
              else some (read_file input path size))
          else some (err (invalid "unknown input type"), input)
    ]
  ]
