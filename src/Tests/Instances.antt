-- ===== src/Tests/Instances.antt =====
-- Concrete platforms for the tests: fixed point numbers, a file system in memory, insertion sort, and
-- references that are taken as they are.
use Prim.Native.String.{len, slice}
use mathlib.Core.List.Perm
use mathlib.Core.List.{Perm}
use component_cli.Prelude.{
  ℕ, ◌+◌, ◌-◌, ◌*◌, ◌/◌, String, ◌≡◌, refl, Bool, false, none, some, List, [], ◌∷◌, inl, inr,
  length, ltb, nat_eq, All, All-mono, Bool-cases, eq_iff, arith, if◌then◌else◌,
}
use component_cli.Prelude.Result.{not_exist, invalid, ok, err}
use component_cli.Prelude.Dict
use component_cli.Prelude.Dict.{Dict, lookup, insert, lookup-insert, lookup-remove}
use component_cli.Keyring.{References}
use component_cli.Cache.Platform.{Floats, FileInfo, Vfs, IsStrictWeak, IsSorted, Sorting}
use component_cli.Cache.Layered.{Digests}
use component_cli.Cache.Layered.RoundTrip.{KeepsFiles}

-- Millionths.
abbrev pub fixed : Floats
fixed = record {
  Float = ℕ;
  of_int = λ n. n * 1_000_000;
  trunc = λ x. x / 1_000_000;
  lit = λ n d. n * 1_000_000 / d;
  add = λ x y. x + y;
  sub = λ x y. x - y;
  mul = λ x y. x * y / 1_000_000;
  div = λ x y. x * 1_000_000 / y;
  lt = ltb;
  eq = nat_eq;
  is_nan = λ x. false;
}

abbrev pub infos : Dict (List ℕ) → List FileInfo
infos [] = []
infos ((n, bytes) ∷ m) = record { name = n; size = length bytes; mod_time = 0 } ∷ infos m

abbrev pub memory : Vfs
memory = record {
  Files = Dict (List ℕ);
  stat = λ files p. elim (lookup p files) [
    | none ↦ err not_exist
    | some bytes ↦ ok (record { name = p; size = length bytes; mod_time = 0 })
  ];
  read = λ files p. elim (lookup p files) [ none ↦ err not_exist | some bytes ↦ ok bytes ];
  seek = λ files p. none;
  read_dir = λ files. ok (infos files);
  create = λ files p. (none, insert p [] files);
  write = λ files p bytes. (none, insert p bytes files);
  remove = λ files p. elim (lookup p files) [
    | none ↦ (some not_exist, files)
    | some _ ↦ (none, Dict.remove p files)
  ];
}

stat_removed_file :
    (files : Dict (List ℕ)) (path : String)
    → (memory.remove files path).0 ≡ none
    → memory.stat (memory.remove files path).1 path ≡ err not_exist
stat_removed_file files path h = ground (arith, lookup-remove path path files, eq_iff path path)

pub memory-KeepsFiles : KeepsFiles memory
memory-KeepsFiles = record {
  read_written = λ files path content _ _.
      ground (arith, lookup-insert path path content (insert path [] files), eq_iff path path);
  stat_written = λ files path content _ _. (
    record { name = path; size = length content; mod_time = 0 },
    ground (arith, lookup-insert path path content (insert path [] files), eq_iff path path),
    refl,
  );
  stat_removed = stat_removed_file;
}

module _ {A : Type 0} (less : A → A → Bool) where
  put : A → List A → List A
  put x [] = x ∷ []
  put x (y ∷ ys) = if less x y then x ∷ y ∷ ys else y ∷ put x ys

  unfoldable pub insertion_sort : List A → List A
  unfolding put
  insertion_sort [] = []
  insertion_sort (x ∷ xs) = put x (insertion_sort xs)

  put-perm : (x : A) (l : List A) → Perm (put x l) (x ∷ l)
  unfolding put
  put-perm x [] = Perm.refl _
  put-perm x (y ∷ ys) = elim (Bool-cases (less x y)) [
    | inl e ↦ rw e (Perm.refl _)
    | inr e ↦ rw e (Perm.trans (Perm.cons y (put-perm x ys)) (Perm.swap x y ys))
  ]

  pub insertion_sort-perm : (l : List A) → Perm (insertion_sort l) l
  unfolding insertion_sort
  insertion_sort-perm [] = Perm.refl _
  insertion_sort-perm (x ∷ xs) =
      Perm.trans (put-perm x (insertion_sort xs)) (Perm.cons x (insertion_sort-perm xs))

  All-put : (P : A → Type 0) (x : A) (l : List A) → P x → All P l → All P (put x l)
  unfolding put
  All-put P x [] h a = (h, tt)
  All-put P x (y ∷ ys) h a = elim (Bool-cases (less x y)) [
    | inl e ↦ rw e (h, a)
    | inr e ↦ rw e (a.0, All-put P x ys h a.1)
  ]

  module _ (weak : IsStrictWeak less) where
    put-IsSorted : (x : A) (l : List A) → IsSorted less l → IsSorted less (put x l)
    unfolding put
    put-IsSorted x [] s = (tt, tt)
    put-IsSorted x (y ∷ ys) s = elim (Bool-cases (less x y)) [
      | inl e ↦ rw e (
        (
          weak.asymm x y e,
          All-mono _ _ (λ z h. weak.trans_false z y x h (weak.asymm x y e)) ys s.0,
        ),
        s,
      )
      | inr e ↦ rw e (All-put _ x ys e s.0, put-IsSorted x ys s.1)
    ]

    pub insertion_sort-IsSorted : (l : List A) → IsSorted less (insertion_sort l)
    unfolding insertion_sort
    insertion_sort-IsSorted [] = tt
    insertion_sort-IsSorted (x ∷ xs) =
        put-IsSorted x (insertion_sort xs) (insertion_sort-IsSorted xs)

abbrev pub by_insertion : Sorting
by_insertion = record {
  sort = λ A less l. insertion_sort less l;
  sort-perm = λ A less l. insertion_sort-perm less l;
  sort-IsSorted = λ A less l weak. insertion_sort-IsSorted less weak l;
}

-- A url is its host, behind the eight characters of "dummy://"; there are no docker references.
abbrev pub hosts : References
hosts = record {
  parse_docker_ref = λ s. err (invalid s);
  parse_url = λ u. ok (record { host = slice u 8 (len u); path = "" });
}

abbrev pub sum : List ℕ → ℕ
sum [] = 0
sum (x ∷ xs) = x + sum xs

-- A digest is a name with the sum of the bytes.
abbrev pub sums : Digests
sums = record {
  Digest = String × ℕ;
  encoded = λ d. d.0;
  text = λ d. d.0;
  verifies = λ d bytes. nat_eq (sum bytes) d.1;
}
