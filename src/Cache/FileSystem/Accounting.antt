-- ===== src/Cache/FileSystem/Accounting.antt =====
-- The size that the file system keeps is the sum of the sizes in its index, modulo 2 ^ 64, and the
-- gauge of the disk usage shows it.
use component_cli.Prelude.{
  ℕ, ◌+◌, ◌%◌, String, ◌≡◌, Option, none, some, List, [], ◌∷◌, inl, inr, Bool-cases, Option-cases,
  arith,
}
use component_cli.Prelude.Result.{Result-cases}
use component_cli.Prelude.Dict.{Distinct, lookup}
use component_cli.Prelude.Int64.{modulus}
use component_cli.Cache.Platform.{Floats, FileInfo, Vfs, Sorting}
use component_cli.Cache.Index
use component_cli.Cache.Index.{Index, IndexEntry, deep_copy, priority_list}
use component_cli.Cache.Index.Sizes.{
  total, total-add, total-remove, total-hit, total-reset, add-Distinct, hit-Distinct,
  reset-Distinct, remove_entry-Distinct,
}
use component_cli.Cache.FileSystem.{
  Fs, create, open_file, remove, remove_each, delete_all, sweep, run_garbage_collection, tick,
  with_metrics, set_gauge, usage, gc_low,
}

module _ (fl : Floats) (v : Vfs) where
  pub record IsAccounted (fs : Fs fl v) : Type 0 where
    pub summed : fs.current_size ≡ total fs.index % modulus
    pub distinct : Distinct fs.index
    pub shown :
        fs.disk_usage_metric ≡ set_gauge fl v fs.disk_usage_metric (fl.of_int fs.current_size)

  -- Creating a file that the index does not have keeps the account, whether the file system allows it
  -- or not.
  pub create-IsAccounted :
      (fs : Fs fl v) (path : String) (size now : ℕ)
      → lookup path fs.index ≡ none
      → IsAccounted fs
      → IsAccounted (create fl v fs path size now).1
  unfolding create Index.get
  create-IsAccounted fs path size now fresh a = record {
    summed = ground (arith, total-add fs.index path size now);
    distinct = ground (arith, add-Distinct fs.index path size now);
    shown = ground arith;
  }

  -- Creating a file again counts its old size and its new one.
  pub create_again_counts_twice :
      (fs : Fs fl v) (path : String) (size now : ℕ) (e : IndexEntry)
      → lookup path fs.index ≡ some e
      → IsAccounted fs
      → (create fl v fs path size now).0 ≡ none
      → (create fl v fs path size now).1.current_size
        ≡ (total (create fl v fs path size now).1.index + e.size) % modulus
  unfolding create Index.get
  create_again_counts_twice fs path size now e old a done =
      ground (arith, total-add fs.index path size now)

  pub open_file-IsAccounted :
      (fs : Fs fl v) (name : String) → IsAccounted fs → IsAccounted (open_file fl v fs name).1
  unfolding open_file
  open_file-IsAccounted fs name a = record {
    summed = omega (arith, total-hit fs.index name);
    distinct = hit-Distinct fs.index name a.distinct;
    shown = a.shown;
  }

  -- Removing keeps the account, also of a file that the index does not have, and where the file system
  -- refuses.
  pub remove-IsAccounted :
      (fs : Fs fl v) (name : String) → IsAccounted fs → IsAccounted (remove fl v fs name).1
  unfolding remove
  remove-IsAccounted fs name a = record {
    summed = ground (arith, total-remove fs.index name a.distinct);
    distinct = ground (arith, remove_entry-Distinct fs.index name);
    shown = ground arith;
  }

  pub tick-IsAccounted : (fs : Fs fl v) → IsAccounted fs → IsAccounted (tick fl v fs)
  unfolding tick
  tick-IsAccounted fs a = record {
    summed = omega (arith, total-reset fl fs.index);
    distinct = reset-Distinct fl fs.index a.distinct;
    shown = a.shown;
  }

  pub with_metrics-IsAccounted :
      (fs : Fs fl v) (items usage hits : Option fl.Float)
      → IsAccounted fs
      → IsAccounted (with_metrics fl v fs items usage hits)
  unfolding with_metrics
  with_metrics-IsAccounted fs items usage hits a = record {
    summed = a.summed;
    distinct = a.distinct;
    shown = ground arith;
  }

  remove_each-IsAccounted :
      (fs : Fs fl v) (files : List FileInfo)
      → IsAccounted fs
      → IsAccounted (remove_each fl v fs files).1
  unfolding remove_each
  remove_each-IsAccounted fs [] a = a
  remove_each-IsAccounted fs (f ∷ files) a =
      let next = remove-IsAccounted fs f.name a in
      elim (Option-cases (remove fl v fs f.name).0) [
        | inl e ↦ rw (e, remove_each) (remove_each-IsAccounted (remove fl v fs f.name).1 files next)
        | inr (failure, e) ↦ rw (e, remove_each) next
      ]

  -- Removing all files keeps the account, also where it stops at an error.
  delete_all-IsAccounted : (fs : Fs fl v) → IsAccounted fs → IsAccounted (delete_all fl v fs).1
  unfolding delete_all
  delete_all-IsAccounted fs a = elim (Result-cases (v.read_dir fs.files)) [
    | inl (files, e) ↦ rw (e, delete_all) (remove_each-IsAccounted fs files a)
    | inr (failure, e) ↦ rw (e, delete_all) a
  ]

  pub sweep-IsAccounted :
      (fs : Fs fl v) (items : List IndexEntry) → IsAccounted fs → IsAccounted (sweep fl v fs items)
  unfolding sweep
  sweep-IsAccounted fs [] a = a
  sweep-IsAccounted fs (item ∷ items) a = elim (Bool-cases (fl.lt (gc_low fl v) (usage fl v fs))) [
    | inl e ↦
        rw (e, sweep)
          (sweep-IsAccounted (remove fl v fs item.name).1 items (remove-IsAccounted fs item.name a))
    | inr e ↦ rw (e, sweep) a
  ]

  -- A collection keeps the account, also where files that it tries cannot be removed.
  pub run_garbage_collection-IsAccounted :
      (so : Sorting) (fs : Fs fl v)
      → IsAccounted fs
      → IsAccounted (run_garbage_collection fl v so fs)
  unfolding run_garbage_collection
  run_garbage_collection-IsAccounted so fs a =
      ground (arith, sweep-IsAccounted fs (priority_list fl so (deep_copy fs.index)))
