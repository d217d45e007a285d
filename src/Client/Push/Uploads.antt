-- ===== src/Client/Push/Uploads.antt =====
-- What an upload brings into a registry, for actions that run one after the other.
use component_cli.Prelude.{
  ℕ, String, ◌≡◌, Bool, true, Option, none, some, inl, inr, List, [], ◌∷◌, ◌++◌, All, All-mono,
  All-append, arith,
}
use component_cli.Prelude.Result.{Result, ok, err, Result-cases}
use component_cli.Oci.{Formats, Descriptor}
use component_cli.Client.{Caches, Remotes, exists, State, Action, explain, ◌>>=◌}
use component_cli.Client.Actions.{>>=-ran, >>=-failed, >>=-ok, explain-state, explain-ok}
use component_cli.Client.Push.{
  Store, client_cache, temp_cache, custom, store_get, temp_add, upload, push_content, push_bytes,
}

-- What a registry has under a reference. What was committed is there, nothing goes by an upload, and an
-- upload is answered with "exists" only for what is there.
pub record IsRegistry {f : Formats} (r : Remotes f) : Type 0 where
  pub has : r.Registry → String → f.images.Digest → Bool
  pub commit_adds :
      (trp : r.Transport) (reg : r.Registry) (ref : String) (desc : Descriptor f) (bytes : List ℕ)
      → (r.commit trp reg ref desc bytes).0 ≡ none
      → has (r.commit trp reg ref desc bytes).1 ref desc.digest ≡ true
  pub commit_keeps :
      (trp : r.Transport) (reg : r.Registry) (ref : String) (desc : Descriptor f) (bytes : List ℕ)
      (other : String) (d : f.images.Digest)
      → has reg other d ≡ true
      → has (r.commit trp reg ref desc bytes).1 other d ≡ true
  pub exists_has :
      (trp : r.Transport) (reg : r.Registry) (ref : String) (desc : Descriptor f)
      → r.push trp reg ref desc ≡ exists
      → has reg ref desc.digest ≡ true

module _ {f : Formats} (c : Caches f) (r : Remotes f) (reg : IsRegistry r) where
  -- The state has a blob.
  abbrev pub Has : String → State f c r → f.images.Digest → Type 0
  Has ref s d = reg.has s.registry ref d ≡ true

  -- An action takes nothing away from a registry, and where it succeeds, the registry has `ds`.
  pub record Uploads {A : Type 0} (ref : String) (ds : List f.images.Digest) (m : Action f c r A)
      : Type 0 where
    pub keeps :
        (s : State f c r) (other : String) (d : f.images.Digest)
        → Has other s d
        → Has other (m s).1 d
    pub brings : (s : State f c r) (a : A) → (m s).0 ≡ ok a → All (λ d. Has ref (m s).1 d) ds

  pub All-keeps :
      {A : Type 0} (ref : String) (es ds : List f.images.Digest) (m : Action f c r A)
      (s : State f c r)
      → Uploads ref es m
      → All (λ d. Has ref s d) ds
      → All (λ d. Has ref (m s).1 d) ds
  All-keeps ref es ds m s u h = All-mono _ _ (λ d. u.keeps s ref d) ds h

  pub Uploads->>= :
      {A B : Type 0} (ref : String) (ds es : List f.images.Digest) (m : Action f c r A)
      (k : A → Action f c r B)
      → Uploads ref ds m
      → ((a : A) → Uploads ref es (k a))
      → Uploads ref (ds ++ es) (m >>= k)
  Uploads->>= ref ds es m k u v = record {
    keeps = λ s other d h. elim (Result-cases (m s).0) [
      | inl (a, e) ↦ rw (>>=-ran m k s a e) ((v a).keeps (m s).1 other d (u.keeps s other d h))
      | inr (failure, e) ↦ rw (>>=-failed m k s failure e) (u.keeps s other d h)
    ];
    brings = λ s b h.
        let (a, e, e', same) = >>=-ok m k s b h in
        rw same (
          All-append _ ds es (All-keeps ref es ds (k a) (m s).1 (v a) (u.brings s a e))
            ((v a).brings (m s).1 b e'));
  }

  pub Uploads-explain :
      {A : Type 0} (ref : String) (ds : List f.images.Digest) (text : String) (m : Action f c r A)
      → Uploads ref ds m
      → Uploads ref ds (explain text m)
  Uploads-explain ref ds text m u = record {
    keeps = λ s other d h. rw (explain-state text m s) (u.keeps s other d h);
    brings = λ s a h. rw (explain-state text m s) (u.brings s a (explain-ok text m s a h));
  }

  -- An action that leaves the registries as they are.
  pub Uploads-nothing :
      {A : Type 0} (ref : String) (m : Action f c r A)
      → ((s : State f c r) → (m s).1.registry ≡ s.registry)
      → Uploads ref [] m
  Uploads-nothing ref m same = record { keeps = λ s other d h. rw (same s) h; brings = λ s a h. tt }

  -- A store that is read leaves the registries as they are.
  abbrev pub IsReading : Option (Store f c r) → Type 0
  IsReading none = Unit
  IsReading (some client_cache) = Unit
  IsReading (some temp_cache) = Unit
  IsReading (some (custom get)) =
      (s : State f c r) (desc : Descriptor f) → (get desc s).1.registry ≡ s.registry

  store_get-registry :
      (store : Store f c r) (desc : Descriptor f) (s : State f c r)
      → IsReading (some store)
      → (store_get f c r store desc s).1.registry ≡ s.registry
  unfolding store_get
  store_get-registry client_cache desc s h = ground arith
  store_get-registry temp_cache desc s h = ground arith
  store_get-registry (custom get) desc s h = h s desc

  temp_add-registry :
      (desc : Descriptor f) (bytes : List ℕ) (s : State f c r)
      → (temp_add f c r desc bytes s).1.registry ≡ s.registry
  unfolding temp_add
  temp_add-registry desc bytes s = ground arith

  upload-Keeps :
      (trp : r.Transport) (ref : String) (desc : Descriptor f) (content : Result (List ℕ))
      (s : State f c r) (other : String) (d : f.images.Digest)
      → Has other s d
      → Has other (upload f c r trp ref desc content s).1 d
  unfolding upload
  upload-Keeps trp ref desc (err e) s other d h = ground arith
  upload-Keeps trp ref desc (ok bytes) s other d h =
      ground (arith, reg.commit_keeps trp s.registry ref desc bytes other d h)

  upload-Has :
      (trp : r.Transport) (ref : String) (desc : Descriptor f) (content : Result (List ℕ))
      (s : State f c r)
      → (upload f c r trp ref desc content s).0 ≡ ok tt
      → Has ref (upload f c r trp ref desc content s).1 desc.digest
  unfolding upload
  upload-Has trp ref desc (err e) s h = ground (arith, reg.exists_has trp s.registry ref desc)
  upload-Has trp ref desc (ok bytes) s h =
      ground (
        arith,
        reg.exists_has trp s.registry ref desc,
        reg.commit_adds trp s.registry ref desc bytes,
      )

  upload-Uploads :
      (trp : r.Transport) (ref : String) (desc : Descriptor f) (content : Result (List ℕ))
      → Uploads ref (desc.digest ∷ []) (upload f c r trp ref desc content)
  upload-Uploads trp ref desc content = record {
    keeps = upload-Keeps trp ref desc content;
    brings = λ s a h. (upload-Has trp ref desc content s h, tt);
  }

  pub push_content-Uploads :
      (trp : r.Transport) (ref : String) (store : Option (Store f c r)) (desc : Descriptor f)
      → IsReading store
      → Uploads ref (desc.digest ∷ []) (push_content f c r trp ref store desc)
  unfolding push_content
  push_content-Uploads trp ref none desc reading = record {
    keeps = λ s other d h. h;
    brings = λ s a h. cc;
  }
  push_content-Uploads trp ref (some store) desc reading =
      Uploads->>= ref [] (desc.digest ∷ []) (store_get f c r store desc) (upload f c r trp ref desc)
        (Uploads-nothing ref (store_get f c r store desc)
          (λ s. store_get-registry store desc s reading))
        (upload-Uploads trp ref desc)

  pub temp_add-Uploads :
      (ref : String) (desc : Descriptor f) (bytes : List ℕ)
      → Uploads ref [] (temp_add f c r desc bytes)
  temp_add-Uploads ref desc bytes =
      Uploads-nothing ref (temp_add f c r desc bytes) (temp_add-registry desc bytes)

  pub push_bytes-Uploads :
      (trp : r.Transport) (ref : String) (desc : Descriptor f) (bytes : List ℕ)
      → Uploads ref (desc.digest ∷ []) (push_bytes f c r trp ref desc bytes)
  unfolding push_bytes
  push_bytes-Uploads trp ref desc bytes =
      Uploads->>= ref [] (desc.digest ∷ [])
        (explain "unable to add manifest to cache" (temp_add f c r desc bytes))
        (λ _. explain "unable to push manifest" (push_content f c r trp ref (some temp_cache) desc))
        (Uploads-explain ref [] _ _ (temp_add-Uploads ref desc bytes))
        (λ _.
          Uploads-explain ref (desc.digest ∷ []) _ _
            (push_content-Uploads trp ref (some temp_cache) desc tt))
