-- ===== src/SecretServer/Grants.antt =====
-- Only credentials with the privileges that are asked for get into the keyring
-- (ociclient/credentials/secretserver/secret_server.go).
use mathlib.Core.Path.{subst}
use component_cli.Prelude.{
  String, ◌≡◌, ◌≢◌, ◌⊎◌, eq_iff, ◌∙◌, Bool, Bool-cases, true, false, none, some, inl, inr, List, [],
  ◌∷◌, ◌++◌, ◌==◌, All, All-append, arith, Option-cases, if◌then◌else◌,
}
use component_cli.Prelude.Result.{ok, Result-cases}
use component_cli.Prelude.Dict.{lookup}
use component_cli.Keyring.{
  References, AuthConfig, AuthConfigGetter, GeneralOciKeyring, Outcome, empty, first_auth,
  getters_of, first_address, get, normalize_host, add_auth_config_getter, add_auth_config,
  default_auth_config_getter, and_then,
}
use component_cli.Keyring.Index
use component_cli.Keyring.Getters.{getters_of-add}
use component_cli.SecretServer.{
  ContainerRegistryCredentials, SecretServerConfig, auth_of, grants, added, read_only, read_write,
  add_prefixes, add_host, add_credentials, new_keyring,
}

-- The credential has the privileges that are asked for: to write it has to have privileges, and others
-- than to read only.
abbrev pub HasPrivileges : String → ContainerRegistryCredentials → Type 0
HasPrivileges min_priv cred =
    (min_priv ≢ read_write) ⊎ ((cred.privileges ≢ read_only) × (cred.privileges ≢ ""))

module _ (refs : References) (Q : AuthConfig → Type 0) where
  -- What a getter answers has the property.
  abbrev pub Gives : AuthConfigGetter → Type 0
  Gives g = (url : String) (a : AuthConfig) → g url ≡ ok a → Q a

  -- What any getter of a keyring answers has it.
  pub record Holds (o : GeneralOciKeyring) : Type 0 where
    pub all : (address : String) → All Gives (getters_of o.store address)

  first_auth-Holds :
      (url : String) (gs : List AuthConfigGetter) (a : AuthConfig)
      → All Gives gs
      → first_auth url gs ≡ some a
      → Q a
  unfolding first_auth
  first_auth-Holds url [] a h e = absurd (ground arith)
  first_auth-Holds url (g ∷ gs) a h e = elim (Result-cases (g url)) [
    | inr (failure, e') ↦ first_auth-Holds url gs a h.1 (rw (first_auth, e') at e)
    | inl (b, e') ↦ ground (arith, first_auth-Holds url gs a h.1, h.0 url b e')
  ]

  first_address-Holds :
      (url : String) (o : GeneralOciKeyring) (addrs : List String) (a : AuthConfig)
      → Holds o
      → first_address url o.store addrs ≡ some a
      → Q a
  unfolding first_address
  first_address-Holds url o [] a h e = absurd (ground arith)
  first_address-Holds url o (addr ∷ addrs) a h e =
      elim (Option-cases (first_auth url (getters_of o.store addr))) [
        | inl e' ↦ first_address-Holds url o addrs a h (rw (first_address, e') at e)
        | inr (b, e') ↦
            first_auth-Holds url (getters_of o.store addr) a (h.all addr)
              (e' ∙ (rw (first_address, e') at e))
      ]

  pub get-Holds :
      (o : GeneralOciKeyring) (url : String) (a : AuthConfig) → Holds o → get o url ≡ some a → Q a
  unfolding get
  get-Holds o url a h e = elim (Bool-cases (Index.find o.index url).1) [
    | inl e' ↦ first_address-Holds url o (Index.find o.index url).0 a h (rw (get, e') at e)
    | inr e' ↦ absurd (ground arith)
  ]

  All-if :
      (b : Bool) (gs hs : List AuthConfigGetter)
      → All Gives gs
      → All Gives hs
      → All Gives (if b then gs else hs)
  All-if true gs hs h k = h
  All-if false gs hs h k = k

  add_auth_config-Holds :
      (o : GeneralOciKeyring) (address : String) (auth : AuthConfig)
      → Q auth
      → Holds o
      → Holds (add_auth_config refs o address auth).1
  unfolding add_auth_config default_auth_config_getter add_auth_config_getter
  add_auth_config-Holds o address auth q h = elim (Result-cases (normalize_host refs address)) [
    | inr (failure, e) ↦ record { all = λ b. rw (add_auth_config_getter, e) (h.all b) }
    | inl (a, e) ↦ record {
      all = λ b.
          let g = default_auth_config_getter auth in
          let gives : Gives g = λ url c e'. subst Q (ground arith) q in
          rw (getters_of-add refs o address a g e b) (
            All-if (a == b) (getters_of o.store a ++ g ∷ []) (getters_of o.store b)
              (All-append Gives (getters_of o.store a) (g ∷ []) (h.all a) (gives, tt)) (h.all b));
    }
  ]

  -- Adding one thing after the other.
  and_then-Holds :
      (m : Outcome) (k : GeneralOciKeyring → Outcome)
      → Holds m.1
      → ((o : GeneralOciKeyring) → Holds o → Holds (k o).1)
      → Holds (and_then m k).1
  and_then-Holds (none, o) k h h' = h' o h
  and_then-Holds (some e, o) k h h' = h

  added-Holds : (text : String) (m : Outcome) → Holds m.1 → Holds (added refs text m).1
  added-Holds text (none, o) h = h
  added-Holds text (some e, o) h = h

  add_prefixes-Holds :
      (o : GeneralOciKeyring) (auth : AuthConfig) (prefixes : List String)
      → Q auth
      → Holds o
      → Holds (add_prefixes refs o auth prefixes).1
  unfolding add_prefixes
  add_prefixes-Holds o auth [] q h = h
  add_prefixes-Holds o auth (prefix ∷ prefixes) q h =
      and_then-Holds _ (λ k. add_prefixes refs k auth prefixes)
        (added-Holds "unable to add auth config" _ (add_auth_config-Holds o prefix auth q h))
        (λ k h'. add_prefixes-Holds k auth prefixes q h')

  add_host-Holds :
      (o : GeneralOciKeyring) (auth : AuthConfig) (host : String)
      → Q auth
      → Holds o
      → Holds (add_host refs o auth host).1
  unfolding add_host
  add_host-Holds o auth host q h = elim (Bool-cases (host == "")) [
    | inl e ↦ rw (add_host, e) h
    | inr e ↦ elim (Result-cases (refs.parse_url host)) [
      | inr (failure, e') ↦ rw (add_host, e, e') h
      | inl (url, e') ↦
          rw (add_host, e, e')
            (added-Holds "unable to add auth config" _ (add_auth_config-Holds o url.host auth q h))
    ]
  ]

  add_credentials-Holds :
      (o : GeneralOciKeyring) (auth : AuthConfig) (cred : ContainerRegistryCredentials)
      → Q auth
      → Holds o
      → Holds (add_credentials refs o auth cred).1
  unfolding add_credentials
  add_credentials-Holds o auth cred q h =
      and_then-Holds _ (λ k. add_prefixes refs k auth cred.image_reference_prefixes)
        (add_host-Holds o auth cred.host q h)
        (λ k h'. add_prefixes-Holds k auth cred.image_reference_prefixes q h')

  grants-HasPrivileges :
      (min_priv : String) (cred : ContainerRegistryCredentials)
      → grants min_priv cred ≡ true
      → HasPrivileges min_priv cred
  unfolding grants
  grants-HasPrivileges min_priv cred h = elim (Bool-cases (min_priv == read_write)) [
    | inr e ↦ inl (λ same. ground (arith, eq_iff min_priv read_write))
    | inl e ↦ inr (
      λ same. ground (arith, eq_iff cred.privileges read_only),
      λ same. ground (arith, eq_iff cred.privileges ""),
    )
  ]

  -- All credentials of a configuration that have the privileges that are asked for have the property.
  abbrev pub Granted : String → SecretServerConfig → Type 0
  Granted min_priv config = All (λ e. HasPrivileges min_priv e.1 → Q (auth_of e.0 e.1)) config

  new_keyring-Holds :
      (o : GeneralOciKeyring) (config : SecretServerConfig) (min_priv : String)
      → Granted min_priv config
      → Holds o
      → Holds (new_keyring refs o config min_priv).1
  unfolding new_keyring
  new_keyring-Holds o [] min_priv granted h = h
  new_keyring-Holds o ((key, cred) ∷ creds) min_priv granted h =
      and_then-Holds
        (if grants min_priv cred then add_credentials refs o (auth_of key cred) cred else (none, o))
        (λ k. new_keyring refs k creds min_priv)
        (elim (Bool-cases (grants min_priv cred)) [
          | inl e ↦ rw e (
              add_credentials-Holds o (auth_of key cred) cred
                (granted.0 (grants-HasPrivileges min_priv cred e)) h)
          | inr e ↦ rw e h
        ])
        (λ k h'. new_keyring-Holds k creds min_priv granted.1 h')

  -- Whatever credentials the new keyring answers with have every property that all the credentials of
  -- the configuration with the privileges that are asked for have, also where adding stopped at an error:
  -- if writing is asked for, those with no privileges or with the ones to read only are not among them.
  pub get-new_keyring :
      (config : SecretServerConfig) (min_priv url : String) (a : AuthConfig)
      → Granted min_priv config
      → get (new_keyring refs empty config min_priv).1 url ≡ some a
      → Q a
  unfolding getters_of lookup
  get-new_keyring config min_priv url a granted found =
      get-Holds _ url a
        (new_keyring-Holds empty config min_priv granted (record { all = λ address. tt })) found
