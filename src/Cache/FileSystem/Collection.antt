-- ===== src/Cache/FileSystem/Collection.antt =====
-- What the garbage collection removes, and when it stops.
use component_cli.Prelude.{
  String, ◌≡◌, ◌≢◌, refl, ap, ◌⊎◌, inl, inr, Bool, true, false, List, [], ◌∷◌, ◌++◌, nat_eq,
  nat_eq_iff, Bool-cases, Option-cases, arith,
}
use mathlib.Core.List.{Perm}
use component_cli.Prelude.Dict.{Distinct}
use component_cli.Cache.Platform.{Floats, Vfs, Sorting, IsStrictWeak, IsSorted}
use component_cli.Cache.Index.{
  IndexEntry, deep_copy, no_entries, scan, less, calculate_priority, priority_list,
}
use component_cli.Cache.Index.Priority.{
  values, deep_copy-eq, priority_list-perm, priority_list-IsSorted,
}
use component_cli.Cache.FileSystem.{
  Fs, remove, gc_low, gc_high, usage, sweep, run_garbage_collection,
}

module _ (fl : Floats) (v : Vfs) where
  -- The file system after the files were removed one after the other, whether each could be or not.
  unfoldable pub remove_tried : Fs fl v → List IndexEntry → Fs fl v
  remove_tried fs [] = fs
  remove_tried fs (item ∷ items) = remove_tried (remove fl v fs item.name).1 items

  -- The usage is above the lower threshold before each of the removals.
  abbrev pub AboveLow : Fs fl v → List IndexEntry → Type 0
  AboveLow fs [] = Unit
  AboveLow fs (item ∷ items) =
      (fl.lt (gc_low fl v) (usage fl v fs) ≡ true) × AboveLow (remove fl v fs item.name).1 items

  -- What a run over the files amounts to.
  pub record Swept (fs : Fs fl v) (items : List IndexEntry) : Type 0 where
    pub tried : List IndexEntry
    pub left : List IndexEntry
    pub parts : items ≡ tried ++ left
    pub above : AboveLow fs tried
    pub stops : (left ≡ []) ⊎ (fl.lt (gc_low fl v) (usage fl v (remove_tried fs tried)) ≡ false)
    pub result : sweep fl v fs items ≡ remove_tried fs tried

  -- A sweep tries the files from the front as long as the usage is above the lower threshold, and stops
  -- where it is not or where no file is left.
  pub sweep-Swept : (fs : Fs fl v) (items : List IndexEntry) → Swept fs items
  unfolding sweep remove_tried
  sweep-Swept fs [] = record {
    tried = [];
    left = [];
    parts = refl;
    above = tt;
    stops = inl refl;
    result = refl;
  }
  sweep-Swept fs (item ∷ items) = elim (Bool-cases (fl.lt (gc_low fl v) (usage fl v fs))) [
    | inl e ↦
        let s = sweep-Swept (remove fl v fs item.name).1 items in
        record {
          tried = item ∷ s.tried;
          left = s.left;
          parts = ap (◌∷◌ item) s.parts;
          above = (e, s.above);
          stops = s.stops;
          result = rw (e, sweep) s.result;
        }
    | inr e ↦ record {
      tried = [];
      left = item ∷ items;
      parts = refl;
      above = tt;
      stops = inr e;
      result = rw (e, sweep);
    }
  ]

  abbrev pub with_thresholds : Fs fl v → fl.Float → fl.Float → Fs fl v
  with_thresholds fs high low = record fs { gc_high_threshold = high; gc_low_threshold = low }

  remove-with_thresholds :
      (fs : Fs fl v) (high low : fl.Float) (name : String)
      → (remove fl v (with_thresholds fs high low) name).1
        ≡ with_thresholds (remove fl v fs name).1 high low
  unfolding remove
  remove-with_thresholds fs high low name = elim (Option-cases (v.remove fs.files name).0) [
    | inl e ↦ rw (e, remove)
    | inr (failure, e) ↦ rw (e, remove)
  ]

  sweep-with_thresholds :
      (fs : Fs fl v) (high low : fl.Float) (items : List IndexEntry)
      → sweep fl v (with_thresholds fs high low) items
        ≡ with_thresholds (sweep fl v fs items) high low
  unfolding sweep
  sweep-with_thresholds fs high low [] = refl
  sweep-with_thresholds fs high low (item ∷ items) =
      elim (Bool-cases (fl.lt (gc_low fl v) (usage fl v fs))) [
        | inl e ↦
            rw (e, sweep, remove-with_thresholds)
              (sweep-with_thresholds (remove fl v fs item.name).1 high low items)
        | inr e ↦ rw (e, sweep)
      ]

  module _ (so : Sorting) where
    abbrev pub queue : Fs fl v → List IndexEntry
    queue fs = priority_list fl so fs.index

    -- The priority of an entry, with the bounds of the hits and times of the index.
    abbrev pub priority : Fs fl v → IndexEntry → fl.Float
    priority fs e =
        let p = scan no_entries fs.index in
        calculate_priority fl e p.min_hits p.max_hits p.oldest p.newest

    -- One entry has a lower priority than the other.
    abbrev pub lower : Fs fl v → IndexEntry → IndexEntry → Bool
    lower fs a b = fl.lt (priority fs a) (priority fs b)

    queue-IsSorted : (fs : Fs fl v) → IsStrictWeak (lower fs) → IsSorted (lower fs) (queue fs)
    unfolding less
    queue-IsSorted fs weak = priority_list-IsSorted fl so fs.index weak

    -- A collection below the upper threshold, or without a limit, changes nothing; any other removes
    -- files of the index, each once, until the usage is not above the lower threshold or every file was
    -- tried, in an order in which none has a lower priority than one that was tried before it, those
    -- that are left included. It is asked that the names of the index are distinct and that the
    -- comparison of priorities is a strict weak order.
    pub run_garbage_collection-Swept :
        (fs : Fs fl v)
        → Distinct fs.index
        → IsStrictWeak (lower fs)
        → ((((fs.size ≡ 0) ⊎ (fl.lt (usage fl v fs) (gc_high fl v) ≡ true))
              × (run_garbage_collection fl v so fs ≡ fs))
            ⊎ ((fs.size ≢ 0)
                × (fl.lt (usage fl v fs) (gc_high fl v) ≡ false)
                × (s : Swept fs (queue fs)) × (run_garbage_collection fl v so fs
                    ≡ remove_tried fs s.tried)
                × Perm (s.tried ++ s.left) (values fs.index)
                × IsSorted (lower fs) (s.tried ++ s.left)))
    unfolding run_garbage_collection
    run_garbage_collection-Swept fs d weak = elim (Bool-cases (nat_eq fs.size 0)) [
      | inl z ↦ inl (inl ((nat_eq_iff fs.size 0).0 z), rw (z, run_garbage_collection))
      | inr nz ↦ elim (Bool-cases (fl.lt (usage fl v fs) (gc_high fl v))) [
        | inl e ↦ inl (inr e, rw (nz, e, run_garbage_collection))
        | inr e ↦
            let s = sweep-Swept fs (queue fs) in
            inr (
              λ z. cc ((nat_eq_iff fs.size 0).1 z),
              e,
              s,
              rw (nz, e, deep_copy-eq fs.index d, run_garbage_collection) s.result,
              rw (← s.parts) (priority_list-perm fl so fs.index),
              rw s.parts at (queue-IsSorted fs weak),
            )
      ]
    ]

    -- The thresholds that are configured have no part in it.
    pub thresholds_unused :
        (fs : Fs fl v) (high low : fl.Float)
        → run_garbage_collection fl v so (with_thresholds fs high low)
          ≡ with_thresholds (run_garbage_collection fl v so fs) high low
    unfolding run_garbage_collection
    thresholds_unused fs high low =
        ground (arith, sweep-with_thresholds fs high low (priority_list fl so (deep_copy fs.index)))
