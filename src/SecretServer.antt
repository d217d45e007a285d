-- ===== src/SecretServer.antt =====
-- Credentials of a secret server (ociclient/credentials/secretserver/secret_server.go).
pub mod Grants
pub mod Blocks
use component_cli.Prelude.{
  ℕ, zero, suc, ◌%◌, String, Bool, true, false, not, ◌&&◌, ◌||◌, Option, none, some, List, [], ◌∷◌,
  ◌++◌, take, drop, length, ltb, nat_eq, ◌==◌, if◌then◌else◌,
}
use component_cli.Prelude.Result.{Error, invalid, wrap, Result, ok, err, ◌>>=◌, context}
use component_cli.Prelude.Dict.{Dict}
use component_cli.Strings.{path_join}
use component_cli.Keyring.{
  References, AuthConfig, GeneralOciKeyring, Outcome, DockerAuthConfig, empty, and_then,
  from_auth_config, add_auth_config,
}

abbrev pub read_only : String
read_only = "readonly"

abbrev pub read_write : String
read_write = "readwrite"

pub record ContainerRegistryCredentials : Type 0 where
  pub username : String
  pub password : String
  pub privileges : String
  pub host : String
  pub image_reference_prefixes : List String

-- `SecretServerConfig`, by its only field.
abbrev pub SecretServerConfig : Type 0
SecretServerConfig = Dict ContainerRegistryCredentials

-- What is added for a credential, with the key of its configuration as metadata.
unfoldable pub auth_of : String → ContainerRegistryCredentials → AuthConfig
unfolding from_auth_config
auth_of key cred =
    from_auth_config
      (record {
        username = cred.username;
        password = cred.password;
        auth = "";
        identity_token = "";
        registry_token = "";
      })
      ("cc-config-name" ∷ key ∷ [])

-- The credential has the privileges that are asked for.
unfoldable pub grants : String → ContainerRegistryCredentials → Bool
grants min_priv cred =
    not (min_priv == read_write && (cred.privileges == read_only || cred.privileges == ""))

module _ (refs : References) where
  -- An error of adding, explained.
  abbrev pub added : String → Outcome → Outcome
  added text (none, o) = (none, o)
  added text (some e, o) = (some (wrap text e), o)

  unfoldable pub add_prefixes : GeneralOciKeyring → AuthConfig → List String → Outcome
  unfolding add_auth_config
  add_prefixes o auth [] = (none, o)
  add_prefixes o auth (prefix ∷ prefixes) =
      and_then (added "unable to add auth config" (add_auth_config refs o prefix auth))
        (λ k. add_prefixes k auth prefixes)

  -- The host of a credential, if it has one.
  unfoldable pub add_host : GeneralOciKeyring → AuthConfig → String → Outcome
  unfolding add_auth_config
  add_host o auth host = if host == "" then (none, o) else elim (refs.parse_url host) [
    | err e ↦ (some (wrap "unable to parse url" e), o)
    | ok url ↦ added "unable to add auth config" (add_auth_config refs o url.host auth)
  ]

  -- What `newKeyring` adds for one credential.
  unfoldable pub add_credentials :
      GeneralOciKeyring → AuthConfig → ContainerRegistryCredentials → Outcome
  unfolding add_host add_prefixes
  add_credentials o auth cred =
      and_then (add_host o auth cred.host) (λ k. add_prefixes k auth cred.image_reference_prefixes)

  -- `newKeyring`
  unfoldable pub new_keyring : GeneralOciKeyring → SecretServerConfig → String → Outcome
  unfolding auth_of grants add_credentials
  new_keyring o [] min_priv = (none, o)
  new_keyring o ((key, cred) ∷ creds) min_priv =
      and_then
        (if grants min_priv cred then add_credentials o (auth_of key cred) cred else (none, o))
        (λ k. new_keyring k creds min_priv)

-- A cipher on blocks of one size.
pub record Block : Type 0 where
  pub block_size : ℕ
  pub decrypt : List ℕ → List ℕ

-- The loop of `ECBDecrypt`, on fuel for the blocks: the destination as it is left.
unfoldable pub decrypt_blocks : ℕ → Block → List ℕ → List ℕ → List ℕ
decrypt_blocks zero block dst src = dst
decrypt_blocks (suc n) block dst [] = dst
decrypt_blocks (suc n) block dst (x ∷ src) =
    let rest =
      decrypt_blocks n block (drop block.block_size dst) (drop block.block_size (x ∷ src)) in
    block.decrypt (take block.block_size (x ∷ src)) ++ rest

-- `ECBDecrypt`: the destination. A source of that many bytes has no more blocks.
unfoldable pub ecb_decrypt : Block → List ℕ → List ℕ → Result (List ℕ)
unfolding decrypt_blocks
ecb_decrypt block dst src =
    if not (nat_eq (length src % block.block_size) 0)
    then err (invalid "input not full blocks")
    else if ltb (length dst) (length src)
    then err (invalid "output smaller than input")
    else ok (decrypt_blocks (length src) block dst src)

-- `make([]byte, n)`
abbrev pub zeros : ℕ → List ℕ
zeros zero = []
zeros (suc n) = 0 ∷ zeros n

-- What the server uses of other packages: base64, aes, urls and http, where reading the body may fail,
-- json, and files.
pub record Services : Type 0 where
  pub decode_base64 : String → Result (List ℕ)
  pub new_cipher : List ℕ → Result Block
  pub get_config : String → String → Result (Result (List ℕ))
  pub decode : List ℕ → Result SecretServerConfig
  pub open_file : String → Result (Result (List ℕ))

abbrev pub unencrypted_endpoint : String
unencrypted_endpoint = "concourse-secrets/concourse_cfg"

pub record SecretServer : Type 0 where
  pub endpoint : String
  pub config_name : String
  pub cipher_algorithm : String
  pub key : List ℕ

-- The environment variables that the server is made from.
pub record Environment : Type 0 where
  pub secret_key : String
  pub cipher_algorithm : String
  pub endpoint : String
  pub config_name : String

module _ (sv : Services) where
  -- `NewSecretServer`: `ok none` where there is no server configured, NoSecretFoundError.
  unfoldable pub new_secret_server : Environment → Result (Option SecretServer)
  new_secret_server env = do
    key ← context "unable to decode base64 encoded key" (sv.decode_base64 env.secret_key)
    ok (
        if env.endpoint == ""
        then none
        else some (record {
          endpoint = env.endpoint;
          config_name = if env.secret_key == "" then unencrypted_endpoint else env.config_name;
          cipher_algorithm = env.cipher_algorithm;
          key = key;
        }))

  -- `read`: a reader, whose reading may fail.
  unfoldable pub read : SecretServer → Result (Result (List ℕ))
  unfolding ecb_decrypt
  read ss = do
    reader ← sv.get_config ss.endpoint ss.config_name
    if ss.config_name == unencrypted_endpoint
        then ok reader
        else if ss.cipher_algorithm == "AES.ECB"
        then (do
          src ← context "unable to read body from secret server" reader
          block ← context "unable to create cipher" (sv.new_cipher ss.key)
          dst ← ecb_decrypt block (zeros (length src)) src
          ok (ok dst))
        else err (invalid ss.cipher_algorithm)

  -- `json.NewDecoder(reader).Decode`
  unfoldable pub decode_config : Result (List ℕ) → Result SecretServerConfig
  decode_config reader = context "unable to decode config" (reader >>= sv.decode)

  -- `SecretServer.Get`
  unfoldable pub get : SecretServer → Result SecretServerConfig
  unfolding read decode_config
  get ss = do reader ← read ss; decode_config reader

  -- `KeyringBuilder`, by what it is built from.
  pub record KeyringBuilder : Type 0 where
    pub path : String
    pub min_privileges : String

  module _ (refs : References) where
    abbrev configure : GeneralOciKeyring → String → Result SecretServerConfig → Outcome
    configure o min_priv (err e) = (some e, o)
    configure o min_priv (ok config) = new_keyring refs o config min_priv

    -- `Apply`: a server that cannot be set up is only logged.
    unfoldable pub apply : KeyringBuilder → Environment → GeneralOciKeyring → Outcome
    unfolding new_secret_server get decode_config new_keyring
    apply kb env o =
        let min_priv = if kb.min_privileges == "" then read_only else kb.min_privileges in
        if not (kb.path == "")
        then configure o min_priv (do
          reader ← context "unable to load config" (sv.open_file kb.path)
          decode_config reader)
        else elim (new_secret_server env) [
          | err e ↦ (none, o)
          | ok server ↦ elim server [ none ↦ (none, o) | some ss ↦ configure o min_priv (get ss) ]
        ]

    -- `Build`: no keyring where there are no credentials.
    unfoldable pub build : KeyringBuilder → Environment → Result (Option GeneralOciKeyring)
    unfolding apply
    build kb env =
        let (failed, o) = apply kb env empty in
        elim failed [
          | some e ↦ err e
          | none ↦ ok (if nat_eq (length o.store) 0 then none else some o)
        ]
