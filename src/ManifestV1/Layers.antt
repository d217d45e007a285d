-- ===== src/ManifestV1/Layers.antt =====
-- What the layers and the history of a converted manifest are.
use mathlib.Core.Path.{subst}
use component_cli.Prelude.{
  Bool, ◌⊎◌, ℕ, zero, suc, ◌+◌, ◌<◌, ◌≤◌, String, ◌≡◌, refl, ap, true, false, inl, inr, List, [],
  ◌∷◌, ◌++◌, length, length-append, arith, if◌then◌else◌,
}
use component_cli.Prelude.Call.{Call, value, error, panic}
use component_cli.ManifestV1.{
  Descriptor, FsLayer, History, V1Manifest, OciHistory, Registry, after, decode_entry, at,
  is_empty_layer, Parsed, oci_history, parse_layer, parse_entry, parse_below, parse_v1_manifest,
}

-- The number of entries of a history that have a layer.
unfoldable pub filled : {Time : Type 0} → List (OciHistory Time) → ℕ
filled [] = 0
filled (h ∷ hs) = let rest = filled hs in if h.empty_layer then rest else suc rest

filled-append :
    {Time : Type 0} (hs ks : List (OciHistory Time)) → filled (hs ++ ks) ≡ filled hs + filled ks
unfolding filled
filled-append [] ks = omega arith
filled-append (h ∷ hs) ks = ground (arith, filled-append hs ks)

at-past : {A : Type 0} (l : List A) (i : ℕ) → length l ≤ i → at l i ≡ panic
at-past [] i h = refl
at-past (x ∷ xs) zero h = absurd (omega arith)
at-past (x ∷ xs) (suc i) h = at-past xs i (omega arith)

module _ (r : Registry) where
  -- There are as many layers as digests of their contents, and as entries of the history that have a
  -- layer.
  pub record IsAligned (parsed : Parsed r) : Type 0 where
    pub digests : length parsed.diff_ids ≡ length parsed.layers
    pub histories : filled parsed.history ≡ length parsed.layers

  -- One more layer, one more digest, one more entry of the history.
  abbrev Extends : Parsed r → Parsed r → Type 0
  Extends parsed next =
      IsAligned parsed → IsAligned next × (length next.history ≡ suc (length parsed.history))

  Extends-empty :
      (parsed : Parsed r) (k : OciHistory r.Time)
      → k.empty_layer ≡ true
      → Extends parsed (record parsed { history = parsed.history ++ k ∷ [] })
  unfolding filled
  Extends-empty parsed k e a = (
    record {
      digests = a.digests;
      histories = ground (arith, a.histories, filled-append parsed.history (k ∷ []), e);
    },
    ground (arith, length-append parsed.history (k ∷ [])),
  )

  Extends-filled :
      (parsed : Parsed r) (k : OciHistory r.Time) (d : Descriptor r.Digest) (g : r.Digest)
      → k.empty_layer ≡ false
      → Extends parsed (record {
        layers = parsed.layers ++ d ∷ [];
        diff_ids = parsed.diff_ids ++ g ∷ [];
        history = parsed.history ++ k ∷ [];
      })
  unfolding filled
  Extends-filled parsed k d g e a = (
    record {
      digests = ground (
        arith,
        a.digests,
        length-append parsed.layers (d ∷ []),
        length-append parsed.diff_ids (g ∷ []),
      );
      histories = ground (
        arith,
        a.histories,
        filled-append parsed.history (k ∷ []),
        length-append parsed.layers (d ∷ []),
      );
    },
    ground (arith, length-append parsed.history (k ∷ [])),
  )

  -- What a call that answers with a value did.
  pub after-value :
      {A B : Type 0} (m : Call A × r.State) (k : A → r.State → Call B × r.State) (b : B)
      → (after r m k).0 ≡ value b
      → (a : A) × (m.0 ≡ value a) × (after r m k ≡ k a m.1) × ((k a m.1).0 ≡ value b)
  after-value (value a, s) k b h = (a, refl, refl, h)
  after-value (error e, s) k b h = cc
  after-value (panic, s) k b h = cc

  parsed_of : Parsed r → Call (Parsed r) → Parsed r
  parsed_of other (value parsed) = parsed
  parsed_of other (error e) = other
  parsed_of other panic = other

  parsed_eq : (parsed next : Parsed r) → value parsed ≡ value next → parsed ≡ next
  unfolding parsed_of
  parsed_eq parsed next h = ap (parsed_of parsed) h

  either :
      (b : Bool) (x y : Call (Parsed r) × r.State) (next : Parsed r)
      → (if b then x else y).0 ≡ value next
      → ((b ≡ true) × (x.0 ≡ value next)) ⊎ ((b ≡ false) × (y.0 ≡ value next))
  either true x y next h = inl (refl, h)
  either false x y next h = inr (refl, h)

  parse_entry-Extends :
      (ref : String) (history : Call History) (fs_layer : Call (FsLayer r.Digest))
      (parsed next : Parsed r) (s : r.State)
      → (parse_entry r ref history fs_layer parsed s).0 ≡ value next
      → Extends parsed next
  unfolding parse_entry oci_history
  parse_entry-Extends ref history fs_layer parsed next s h =
      let (decoded, _, _, h1) = after-value (decode_entry r history, s) _ next h in
      elim (either (is_empty_layer decoded) _ _ next h1) [
        | inl (e, h2) ↦
            subst (Extends parsed) (parsed_eq _ next h2)
              (Extends-empty parsed (oci_history r decoded) e)
        | inr (e, h2) ↦
            let (layer, _, _, h3) = after-value (fs_layer, s) _ next h2 in
            let (made, _, _, h4) = after-value (parse_layer r ref layer s) _ next h3 in
            subst (Extends parsed) (parsed_eq _ next h4)
              (Extends-filled parsed (oci_history r decoded) made.0 made.1 e)
      ]

  parse_below-IsAligned :
      (ref : String) (m : V1Manifest r.Digest) (n : ℕ) (parsed result : Parsed r) (s : r.State)
      → (parse_below r ref m n parsed s).0 ≡ value result
      → IsAligned parsed
      → IsAligned result × (length result.history ≡ n + length parsed.history)
  unfolding parse_below
  parse_below-IsAligned ref m zero parsed result s h a =
      subst (λ x. IsAligned x × (length x.history ≡ 0 + length parsed.history))
        (parsed_eq parsed result h) (a, omega arith)
  parse_below-IsAligned ref m (suc i) parsed result s h a =
      let step = parse_entry r ref (at m.history i) (at m.fs_layers i) parsed s in
      let (next, e, _, h1) = after-value step (λ next s'. parse_below r ref m i next s') result h in
      let (a', l) = parse_entry-Extends ref _ _ parsed next s e a in
      let (a'', l') = parse_below-IsAligned ref m i next result step.1 h1 a' in
      (a'', omega (arith, l, l'))

  -- If a manifest of schema 1 can be parsed, then the history has one entry for each of its layers, and
  -- there are as many layers as digests of their contents and as entries that are not empty.
  pub parse_v1_manifest-IsAligned :
      (ref : String) (m : V1Manifest r.Digest) (result : Parsed r) (s : r.State)
      → (parse_v1_manifest r ref m s).0 ≡ value result
      → IsAligned result × (length result.history ≡ length m.fs_layers)
  unfolding parse_v1_manifest filled
  parse_v1_manifest-IsAligned ref m result s h =
      let (a, l) =
        parse_below-IsAligned ref m (length m.fs_layers) _ result s h
          (record { digests = refl; histories = refl }) in
      (a, omega (arith, l))

  below-panic :
      (ref : String) (m : V1Manifest r.Digest) (n : ℕ) (parsed : Parsed r) (s : r.State)
      → length m.history < n
      → (parse_below r ref m n parsed s).0 ≡ panic
  unfolding parse_below parse_entry
  below-panic ref m zero parsed s h = absurd (omega arith)
  below-panic ref m (suc i) parsed s h = rw (at-past m.history i (omega arith)) refl

  -- A manifest with more layers than entries in its history makes ParseV1Manifest panic.
  pub short_history_panics :
      (ref : String) (m : V1Manifest r.Digest) (s : r.State)
      → length m.history < length m.fs_layers
      → (parse_v1_manifest r ref m s).0 ≡ panic
  unfolding parse_v1_manifest
  short_history_panics ref m s h = below-panic ref m (length m.fs_layers) _ s h
