-- ===== src/Tests/SecretServer.antt =====
-- The secret server at concrete inputs (ociclient/credentials/secretserver/secret_server.go).
use component_cli.Prelude.{
  inl, inr, ℕ, ◌+◌, ◌-◌, ◌≡◌, refl, some, List, [], ◌∷◌, length, map, arith,
}
use component_cli.Prelude.Result.{ok}
use component_cli.Strings.{split, path_join}
use component_cli.Prelude.Dict.{lookup, insert}
use component_cli.Keyring.{
  AuthConfig, empty, get, add_auth_config_getter, normalize_host, first_auth, is_empty_auth_config,
}
use component_cli.Keyring.Index
use component_cli.SecretServer.{
  ContainerRegistryCredentials, SecretServerConfig, Block, auth_of, new_keyring, ecb_decrypt, zeros,
}
use component_cli.SecretServer.Grants.{Granted, get-new_keyring}
use component_cli.SecretServer.Blocks.{concat, ecb_decrypt-encrypted}
use component_cli.Tests.Instances.{hosts}

program : Unit {0}
unfolding new_keyring get ecb_decrypt split path_join lookup insert Index.find Index.find_segment
    Index.set Index.update_segment add_auth_config_getter normalize_host first_auth
    is_empty_auth_config
program = tt

abbrev reader : ContainerRegistryCredentials
reader = record {
  username = "reader";
  password = "r";
  privileges = "readonly";
  host = "";
  image_reference_prefixes = "dummy://gcr.io" ∷ [];
}

abbrev writer : ContainerRegistryCredentials
writer = record {
  username = "writer";
  password = "w";
  privileges = "readwrite";
  host = "dummy://gcr.io";
  image_reference_prefixes = [];
}

abbrev config : SecretServerConfig
config = ("one", reader) ∷ ("two", writer) ∷ []

IsWriter : AuthConfig → Type 0
IsWriter a = a.username ≡ "writer"

granted : Granted hosts IsWriter "readwrite" config
unfolding program IsWriter
granted = (
  λ e. absurd (elim e [ inl other ↦ other refl | inr (some_more, _) ↦ some_more refl ]),
  (λ e. refl, tt),
)

found : get (new_keyring hosts empty config "readwrite").1 "gcr.io" ≡ some (auth_of "two" writer)
unfolding program
found = refl

-- With the privileges to write, the reader's credentials are not found.
get-new_keyring_example : IsWriter (auth_of "two" writer)
get-new_keyring_example =
    get-new_keyring hosts IsWriter config "readwrite" "gcr.io" (auth_of "two" writer) granted found

-- A cipher on blocks of two bytes that adds one to the first byte and swaps them.
encrypt : List ℕ → List ℕ
encrypt (a ∷ b ∷ []) = b ∷ (a + 1) ∷ []
encrypt l = l

unswap : List ℕ → List ℕ
unswap (b ∷ a ∷ []) = (a - 1) ∷ b ∷ []
unswap l = l

abbrev block : Block
block = record { block_size = 2; decrypt = unswap }

keeps : (b : List ℕ) → length b ≡ 2 → length (encrypt b) ≡ 2
unfolding encrypt
keeps (a ∷ b ∷ []) h = refl
keeps [] h = absurd (omega (arith, h))
keeps (a ∷ []) h = absurd (omega (arith, h))
keeps (a ∷ b ∷ c ∷ l) h = absurd (omega (arith, h))

back : (b : List ℕ) → length b ≡ 2 → unswap (encrypt b) ≡ b
unfolding encrypt unswap
back (a ∷ b ∷ []) h = let same : a + 1 - 1 ≡ a = omega arith in rw same refl
back [] h = absurd (omega (arith, h))
back (a ∷ []) h = absurd (omega (arith, h))
back (a ∷ b ∷ c ∷ l) h = absurd (omega (arith, h))

abbrev plain : List (List ℕ)
plain = (1 ∷ 2 ∷ []) ∷ (3 ∷ 4 ∷ []) ∷ []

ecb_decrypt-encrypted_example :
    ecb_decrypt block (zeros (length (concat (map encrypt plain)))) (concat (map encrypt plain))
    ≡ ok (concat plain)
ecb_decrypt-encrypted_example =
    ecb_decrypt-encrypted block encrypt plain (omega arith) (refl, (refl, tt)) keeps back
