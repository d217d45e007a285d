-- ===== src/Keyring/Getters.antt =====
-- The keyring as a map from addresses to getters: what `get` finds, and what adding and merging do.
use mathlib.Core.List.{append-nil, append_assoc}
use component_cli.Prelude.{
  String, ◌≡◌, ◌≢◌, refl, sym, ap, ◌∙◌, Option, none, some, List, [], ◌∷◌, ◌++◌, ◌==◌, eq_iff,
  eq_refl, All, All-append, arith, if◌then◌else◌,
}
use component_cli.Prelude.Result.{Error, ok}
use component_cli.Prelude.Dict.{Dict, Distinct, lookup, lookup-insert}
use component_cli.Keyring.Index.Segments.{key, set_at, set-set_at, find-find_at}
use component_cli.Keyring.Index.Segments.Lookup.{
  addresses_at, addresses_at-set_at, known, find_at-known, known_of_node, node_at-set_at,
  words_eq_iff,
}
use component_cli.Keyring.{
  References, AuthConfig, AuthConfigGetter, GeneralOciKeyring, or_else, first_auth, getters_of,
  first_address, get, normalize_host, add_auth_config_getter, add_getters, merge_store, merge,
}

pub first_auth-append :
    (url : String) (gs hs : List AuthConfigGetter)
    → first_auth url (gs ++ hs) ≡ or_else (first_auth url gs) (first_auth url hs)
unfolding first_auth
first_auth-append url [] hs = refl
first_auth-append url (g ∷ gs) hs = ground (arith, first_auth-append url gs hs)

append-ne_nil : (l : List String) (a : String) → l ++ a ∷ [] ≢ []
append-ne_nil [] a = λ e. cc
append-ne_nil (x ∷ l) a = λ e. cc

-- Only the address itself was added for its words.
abbrev pub IsSole : String → GeneralOciKeyring → Type 0
IsSole a o = All (λ b. b ≡ a) (addresses_at (key a) o.index)

-- The index knows every address that has getters.
pub record IsIndexed (o : GeneralOciKeyring) : Type 0 where
  pub indexed : (a : String) → addresses_at (key a) o.index ≡ [] → getters_of o.store a ≡ []

abbrev if_any : List String → Option AuthConfig → Option AuthConfig
if_any [] o = none
if_any (b ∷ addrs) o = o

or_else-if_any : (addrs : List String) (o : Option AuthConfig) → or_else o (if_any addrs o) ≡ o
or_else-if_any [] none = refl
or_else-if_any (b ∷ addrs) none = refl
or_else-if_any addrs (some a) = refl

first_address-sole :
    (url a : String) (store : Dict (List AuthConfigGetter)) (addrs : List String)
    → All (λ b. b ≡ a) addrs
    → first_address url store addrs ≡ if_any addrs (first_auth url (getters_of store a))
unfolding first_address
first_address-sole url a store [] h = refl
first_address-sole url a store (b ∷ addrs) h =
    rw h.0 (rw (first_address-sole url a store addrs h.1) (or_else-if_any addrs _))

-- A url whose words the index knows gets the first credentials that the getters of the address with
-- those words give; an address without getters gives none.
pub get-first_auth :
    (o : GeneralOciKeyring) (a url : String)
    → IsIndexed o
    → IsSole a o
    → key url ≡ key a
    → known (key a) o.index ≡ key a
    → get o url ≡ first_auth url (getters_of o.store a)
unfolding get
get-first_auth o a url ix sole same whole =
    rw (find-find_at, same, find_at-known, whole, first_address-sole url a o.store _ sole)
      (at_key (addresses_at (key a) o.index) refl)
  where
    at_key :
        (addrs : List String)
        → addresses_at (key a) o.index ≡ addrs
        → if_any addrs (first_auth url (getters_of o.store a))
          ≡ first_auth url (getters_of o.store a)
    at_key [] e = rw (ix.indexed a e) (unfold first_auth in refl)
    at_key (b ∷ addrs) e = refl

module _ (refs : References) (o : GeneralOciKeyring) (address a : String) (g : AuthConfigGetter)
    (normal : normalize_host refs address ≡ ok a) where
  -- A getter goes behind the getters of its normalized address.
  pub getters_of-add :
      (b : String)
      → getters_of (add_auth_config_getter refs o address g).1.store b
        ≡ (if a == b then getters_of o.store a ++ g ∷ [] else getters_of o.store b)
  unfolding add_auth_config_getter
  getters_of-add b =
      rw (normal, add_auth_config_getter)
        (ground (arith, lookup-insert a b (getters_of o.store a ++ g ∷ []) o.store))

  index-add : (add_auth_config_getter refs o address g).1.index ≡ set_at (key a) o.index (a ∷ [])
  unfolding add_auth_config_getter
  index-add = rw (normal, add_auth_config_getter) (set-set_at o.index a (a ∷ []))

  known-add : known (key a) (add_auth_config_getter refs o address g).1.index ≡ key a
  known-add = rw index-add (known_of_node (key a) _ (node_at-set_at (key a) o.index (a ∷ [])))

  IsSole-add : IsSole a o → IsSole a (add_auth_config_getter refs o address g).1
  IsSole-add sole =
      rw (index-add, addresses_at-set_at, (words_eq_iff (key a) (key a)).1 refl)
        (All-append _ (addresses_at (key a) o.index) (a ∷ []) sole (refl, tt))

  -- After adding a getter under an address that can be parsed, the index still knows every address that
  -- has getters.
  pub add_auth_config_getter-IsIndexed :
      IsIndexed o → IsIndexed (add_auth_config_getter refs o address g).1
  add_auth_config_getter-IsIndexed ix = record {
    indexed = λ b empty_there. indexed_at b (rw index-add at empty_there);
  }
    where
      grown : (b : String) → addresses_at (key b) (set_at (key a) o.index (a ∷ [])) ≡ [] → a ≢ b
      grown b e same =
          append-ne_nil (addresses_at (key a) o.index) a
            (rw (← same, addresses_at-set_at, (words_eq_iff (key a) (key a)).1 refl) at e)

      indexed_at :
          (b : String)
          → addresses_at (key b) (set_at (key a) o.index (a ∷ [])) ≡ []
          → getters_of (add_auth_config_getter refs o address g).1.store b ≡ []
      indexed_at b e = ground (
        arith,
        getters_of-add b,
        eq_iff a b,
        grown b e,
        addresses_at-set_at (key a) (key b) o.index (a ∷ []),
        words_eq_iff (key a) (key b),
        append-ne_nil (addresses_at (key b) o.index) a,
        ix.indexed b,
      )

  -- Where the address alone stands for its words, a url with these words gets the first credentials of
  -- the getters that the address had, and those of the new getter if they give none.
  pub get-add_auth_config_getter :
      (url : String)
      → IsIndexed o
      → IsSole a o
      → key url ≡ key a
      → get (add_auth_config_getter refs o address g).1 url
        ≡ or_else (first_auth url (getters_of o.store a)) (first_auth url (g ∷ []))
  get-add_auth_config_getter url ix sole same =
      get-first_auth _ a url (add_auth_config_getter-IsIndexed ix) (IsSole-add sole) same known-add
      ∙ (ap (first_auth url) (rw (getters_of-add, eq_refl))
          ∙ first_auth-append url (getters_of o.store a) (g ∷ []))

getters_of-cons :
    (a b : String) (gs : List AuthConfigGetter) (l : Dict (List AuthConfigGetter))
    → getters_of ((a, gs) ∷ l) b ≡ (if a == b then gs else getters_of l b)
unfolding getters_of lookup
getters_of-cons a b gs l = ground arith

getters_of_missing :
    (a : String) (l : Dict (List AuthConfigGetter)) → lookup a l ≡ none → getters_of l a ≡ []
unfolding getters_of
getters_of_missing a l h = ground arith

module _ (refs : References) where
  add_succeeds :
      (o : GeneralOciKeyring) (address a : String) (g : AuthConfigGetter)
      → normalize_host refs address ≡ ok a
      → add_auth_config_getter refs o address g
        ≡ (none, (add_auth_config_getter refs o address g).1)
  unfolding add_auth_config_getter
  add_succeeds o address a g h = rw (h, add_auth_config_getter)

  add_getters-append :
      (o : GeneralOciKeyring) (a : String) (gs : List AuthConfigGetter)
      → normalize_host refs a ≡ ok a
      → ((add_getters refs o a gs).0 ≡ none)
        × ((b : String)
            → getters_of (add_getters refs o a gs).1.store b
              ≡ (if a == b then getters_of o.store a ++ gs else getters_of o.store b))
  unfolding add_getters
  add_getters-append o a [] h =
      (refl, λ b. ground (arith, eq_iff a b, append-nil (getters_of o.store a)))
  add_getters-append o a (g ∷ gs) h =
      let o' = (add_auth_config_getter refs o a g).1 in
      let (done, later) = add_getters-append o' a gs h in
      rw (add_succeeds o a a g h) (
        done,
        λ b. ground (
          arith,
          later b,
          eq_iff a b,
          eq_iff a a,
          getters_of-add refs o a a g h a,
          getters_of-add refs o a a g h b,
          append_assoc (getters_of o.store a) (g ∷ []) gs,
        ),
      )

  merge_store-append :
      (l : Dict (List AuthConfigGetter)) (o : GeneralOciKeyring)
      → Distinct l
      → All (λ e. normalize_host refs e.0 ≡ ok e.0) l
      → ((merge_store refs o l).0 ≡ none)
        × ((b : String)
            → getters_of (merge_store refs o l).1.store b ≡ getters_of o.store b ++ getters_of l b)
  unfolding merge_store
  merge_store-append [] o d h = (refl, λ b. unfold getters_of lookup in sym (append-nil _))
  merge_store-append ((a, gs) ∷ l) o d h =
      let (done, later) = add_getters-append o a gs h.0 in
      let o' = (add_getters refs o a gs).1 in
      let (rest_done, rest) = merge_store-append l o' d.1 h.1 in
      let stops : add_getters refs o a gs ≡ (none, o') = ap (λ (e : Option Error). (e, o')) done in
      rw stops (
        rest_done,
        λ b. ground (
          arith,
          rest b,
          later b,
          eq_iff a b,
          getters_of-cons a b gs l,
          getters_of_missing a l d.0,
          append-nil (getters_of o.store a ++ gs),
        ),
      )

  -- Merging keyrings whose second has each address once, normalized, succeeds, and puts the getters of
  -- the second behind those of the first at every address.
  merge-append :
      (k1 k2 : GeneralOciKeyring)
      → Distinct k2.store
      → All (λ e. normalize_host refs e.0 ≡ ok e.0) k2.store
      → ((merge refs k1 k2).0 ≡ none)
        × ((b : String)
            → getters_of (merge refs k1 k2).1.store b
              ≡ getters_of k1.store b ++ getters_of k2.store b)
  unfolding merge
  merge-append k1 k2 d h = merge_store-append k2.store k1 d h

  -- Where both keyrings have credentials for an address, those of the first are used after a merge of
  -- keyrings whose second has each address once, normalized.
  pub merge_first_wins :
      (k1 k2 : GeneralOciKeyring) (a url : String) (auth : AuthConfig)
      → Distinct k2.store
      → All (λ e. normalize_host refs e.0 ≡ ok e.0) k2.store
      → first_auth url (getters_of k1.store a) ≡ some auth
      → first_auth url (getters_of (merge refs k1 k2).1.store a) ≡ some auth
  merge_first_wins k1 k2 a url auth d h found =
      rw ((merge-append k1 k2 d h).1, first_auth-append, found)
