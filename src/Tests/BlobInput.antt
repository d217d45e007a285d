-- ===== src/Tests/BlobInput.antt =====
-- Blobs of a small file system (pkg/commands/componentarchive/input/input.go).
use component_cli.Prelude.{
  ℕ, ◌≡◌, refl, sym, ap, ◌∙◌, String, Bool, true, false, ◌==◌, some, none, List, [], ◌∷◌, nat_eq,
  length, arith, inl, inr, Bool-cases, if◌then◌else◌,
}
use component_cli.Prelude.Result.{Result, ok, err, invalid}
use component_cli.Strings.{path_join, trim_prefix}
use component_cli.BlobInput.{
  Files, directory, regular, BlobInput, BlobOutput, TarOptions, compress, included, add_file_to_tar,
  read_blob,
}
use component_cli.BlobInput.Included.{included-any}
use component_cli.BlobInput.Described.{IsDescribed, IsRewound, read_blob-Described}

-- A directory `/d` with a file `/d/f` of three bytes.
abbrev files : Files
files = record {
  is_dir = λ path. if path == "/d/f" then ok (false, 3) else ok (true, 0);
  lstat = λ path. if path == "/d" then ok directory else ok regular;
  walk = λ path. ("/d/f", none) ∷ [];
  read = λ path. ok (1 ∷ 2 ∷ 3 ∷ []);
  Handle = List ℕ × List ℕ;
  open_file = λ path.
      if path == "/d/f" then ok (1 ∷ 2 ∷ 3 ∷ [], 1 ∷ 2 ∷ 3 ∷ []) else err (invalid "no file");
  read_rest = λ file. (ok file.1, (file.0, []));
  seek_start = λ file. (none, (file.0, file.0));
  eval_symlinks = λ path. ok path;
  matches = λ pattern path. ok (pattern == path);
  rel = λ root path. ok "f";
  base = λ path. path;
  dir = λ path. "/d";
  is_abs = λ path. path == "/d";
  getwd = ok "/";
  header = λ path kind. none;
  archive = λ entries. length entries ∷ [];
  gzip = λ bytes. ok (9 ∷ bytes);
  digest = λ bytes. if nat_eq (length bytes) 1 then "one" else "more";
}

abbrev input : String → String → Bool → BlobInput
input type_name path small = record {
  type_name = type_name;
  media_type = "";
  path = path;
  compress_with_gzip = some small;
  preserve_dir = false;
  include_files = [];
  exclude_files = [];
  follow_symlinks = false;
}

program : Unit {0}
unfolding read_blob included compress path_join trim_prefix
program = tt

abbrev opts : TarOptions
opts = record {
  include_files = "a" ∷ "b" ∷ [];
  exclude_files = "x" ∷ [];
  preserve_dir = false;
  follow_symlinks = false;
  root = "";
}

included-any_example : included files opts "b" ≡ ok true
included-any_example =
    included-any files opts "b" "b" (λ p. p == "b") refl (refl, tt) (refl, (refl, tt))

abbrev packed : BlobInput
packed = record (input "dir" "/d" true) { media_type = "application/gzip" }

-- A directory with one file, compressed.
packed_dir :
    read_blob files 2 (input "dir" "/d" true) ""
    ≡ some (ok (record { digest = "more"; size = 2; content = ok (9 ∷ 1 ∷ []) }), packed)
unfolding read_blob
packed_dir = refl

abbrev plain : BlobOutput
plain = record { digest = "more"; size = 3; content = ok (1 ∷ 2 ∷ 3 ∷ []) }

plain_file :
    read_blob files 0 (input "file" "f" false) "/d/c.yaml" ≡ some (ok plain, input "file" "f" false)
unfolding read_blob path_join
plain_file = refl

abbrev size_of : Result (Bool × ℕ) → ℕ
size_of (ok (d, size)) = size
size_of (err e) = 0

abbrev content_of : Result (List ℕ × List ℕ) → List ℕ × List ℕ
content_of (ok file) = file
content_of (err e) = ([], [])

abbrev bytes_of : Result (List ℕ) → List ℕ
bytes_of (ok bytes) = bytes
bytes_of (err e) = []

opened_content :
    (path : String) (file : List ℕ × List ℕ)
    → files.open_file path ≡ ok file
    → file ≡ (1 ∷ 2 ∷ 3 ∷ [], 1 ∷ 2 ∷ 3 ∷ [])
opened_content path file o = elim (Bool-cases (path == "/d/f")) [
  | inl e ↦ sym (ap content_of (rw e at o))
  | inr e ↦ absurd (ground arith)
]

sized :
    (path : String) (size : ℕ) (file : List ℕ × List ℕ) (bytes : List ℕ)
    → files.is_dir path ≡ ok (false, size)
    → files.open_file path ≡ ok file
    → (files.read_rest file).0 ≡ ok bytes
    → size ≡ length bytes
sized path size file bytes h o r = elim (Bool-cases (path == "/d/f")) [
  | inl e ↦
      let same : 3 ≡ size = ap size_of (rw e at h) in
      let rest : file.1 ≡ bytes = ap bytes_of r in
      let content = ap (λ (c : List ℕ × List ℕ). length c.1) (opened_content path file o) in
      sym same ∙ sym content ∙ ap length rest
  | inr e ↦ absurd (ground arith)
]

rewound : IsRewound files
rewound path file bytes o r s =
    ap (λ (c : List ℕ × List ℕ). ok c.0) (opened_content path file o)
    ∙ sym (ap (λ (c : List ℕ × List ℕ). ok c.1) (opened_content path file o))
    ∙ r

read_blob-Described_example : IsDescribed files plain
read_blob-Described_example =
    read_blob-Described files 0 (input "file" "f" false) (input "file" "f" false) "/d/c.yaml" plain
      rewound sized plain_file

-- A root `/r` with a directory `d` that has a file `f`, where Walk visits the whole tree.
abbrev nested : Files
nested = record files {
  lstat = λ path. if path == "/r/d/f" then ok regular else ok directory;
  walk = λ path.
      if path == "/r" then ("/r/d", none) ∷ ("/r/d/f", none) ∷ [] else ("/r/d/f", none) ∷ [];
  rel = λ root path. if root == "/r" then (if path == "/r/d" then ok "d" else ok "d/f") else ok "f";
}

abbrev all : TarOptions
all = record {
  include_files = [];
  exclude_files = [];
  preserve_dir = false;
  follow_symlinks = false;
  root = "";
}

-- The file comes twice.
nested_file :
    add_file_to_tar nested 4 all "" "/r"
    ≡ some (ok (("d", none) ∷ ("d/f", some (1 ∷ 2 ∷ 3 ∷ [])) ∷ ("d/f", some (1 ∷ 2 ∷ 3 ∷ [])) ∷ []))
unfolding add_file_to_tar path_join
nested_file = refl
