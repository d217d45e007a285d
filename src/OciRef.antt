-- ===== src/OciRef.antt =====
-- References of OCI artifacts and the selection of layers (ociclient/oci/ref.go, ociclient/utils.go).
pub mod Parsing
use Prim.Native.String.{◌++◌ as ◌<>◌}
use component_cli.Prelude.{
  ℕ, Char, code, String, Bool, true, false, ◌&&◌, ◌||◌, Option, none, some, List, [], ◌∷◌, length,
  ltb, nat_eq, ◌==◌, if◌then◌else◌,
}
use component_cli.Prelude.Result.{Error, invalid, Result, ok, err, ◌>>=◌}
use component_cli.Prelude.Dict.{Dict, lookup}
use component_cli.Strings.{split, join, contains, path_join}

-- What the references use of other packages: the parts of a parsed docker reference, whose digest it
-- keeps only without a tag, and digests: their text, the digest of a text, and the check of a text.
pub record DockerRef (Digest : Type 0) : Type 0 where
  pub domain : String
  pub path : String
  pub tag : Option String
  pub digest : Option Digest

pub record Images : Type 1 where
  pub Digest : Type 0
  pub text : Digest → String
  pub from_string : String → Digest
  pub is_digest : String → Bool
  pub parse_docker_ref : String → Result (DockerRef Digest)

abbrev pub docker_hub_domain : String
docker_hub_domain = "docker.io"

abbrev pub docker_hub_legacy_domain : String
docker_hub_legacy_domain = "index.docker.io"

is : Char → Char → Bool
is c d = nat_eq (code c) (code d)

-- The text behind the first "://", if there is one.
unfoldable pub after_protocol : String → Option String
unfolding is
after_protocol String.[] = none
after_protocol (String.◌∷◌ c String.[]) = none
after_protocol (String.◌∷◌ c (String.◌∷◌ d String.[])) = none
after_protocol (String.◌∷◌ c (String.◌∷◌ d (String.◌∷◌ e s))) =
    let rest = after_protocol (String.◌∷◌ d (String.◌∷◌ e s)) in
    if is c ":" && is d "/" && is e "/" then some s else rest

-- `words[:len(words)-1]` and `words[len(words)-1]`, of what Split gives, which is never empty.
unfoldable pub but_last : List String → List String
but_last [] = []
but_last (w ∷ []) = []
but_last (w ∷ v ∷ ws) = w ∷ but_last (v ∷ ws)

unfoldable pub last : List String → String
last [] = ""
last (w ∷ []) = w
last (w ∷ v ∷ ws) = last (v ∷ ws)

-- `ParseImageRef`
unfoldable pub parse_image_ref : String → Result (String × String)
unfolding split join contains but_last last
parse_image_ref ref =
    let parts = split "@" ref in
    let words = split ":" ref in
    if contains "@" ref
    then (if nat_eq (length parts) 2
        then ok (join "@" (but_last parts), last parts)
        else err (invalid ref))
    else if ltb 3 (length words)
    then err (invalid ref)
    else ok (join ":" (but_last words), last words)

abbrev pub is_multi_arch_image : String → Bool
is_multi_arch_image media_type =
    media_type == "application/vnd.oci.image.index.v1+json"
    || media_type == "application/vnd.docker.distribution.manifest.list.v2+json"

abbrev pub is_single_arch_image : String → Bool
is_single_arch_image media_type =
    media_type == "application/vnd.oci.image.manifest.v1+json"
    || media_type == "application/vnd.docker.distribution.manifest.v2+json"

module _ (i : Images) where
  open i use {Digest}

  pub record RefSpec : Type 0 where
    pub host : String
    pub repository : String
    pub tag : Option String
    pub digest : Option Digest

  abbrev or_legacy : String → String
  or_legacy host = if host == docker_hub_domain then docker_hub_legacy_domain else host

  -- `ParseRef`
  unfoldable pub parse_ref : String → Result RefSpec
  unfolding after_protocol
  parse_ref ref = do
    let name : String = elim (after_protocol ref) [ none ↦ ref | some rest ↦ rest ]
    parsed ← i.parse_docker_ref name
    ok (record {
      host = or_legacy parsed.domain;
      repository = parsed.path;
      tag = parsed.tag;
      digest = elim parsed.tag [ some _ ↦ none | none ↦ parsed.digest ];
    })

  -- `Name` and `String`
  unfoldable pub name : RefSpec → String
  unfolding path_join
  name r = path_join r.host r.repository

  unfoldable pub to_string : RefSpec → String
  unfolding name
  to_string r = elim r.tag [
    | some tag ↦ name r <> ":" <> tag
    | none ↦ elim r.digest [ some d ↦ name r <> "@" <> i.text d | none ↦ "" ]
  ]

  -- `DeepCopy`
  unfoldable pub deep_copy : RefSpec → RefSpec
  deep_copy r = record {
    host = r.host;
    repository = r.repository;
    tag = r.tag;
    digest = elim r.digest [ none ↦ none | some d ↦ some (i.from_string (i.text d)) ];
  }

  -- The fields of a descriptor that the selection of layers reads.
  pub record LayerDescriptor : Type 0 where
    pub media_type : String
    pub digest : Digest
    pub annotations : Dict String

  has_title : String → LayerDescriptor → Bool
  has_title title desc = elim (lookup "org.opencontainers.image.title" desc.annotations) [
    | none ↦ false
    | some t ↦ t == title
  ]

  -- `GetLayerByName`
  unfoldable pub get_layer_by_name : List LayerDescriptor → String → Option LayerDescriptor
  unfolding has_title
  get_layer_by_name [] title = none
  get_layer_by_name (desc ∷ layers) title =
      if has_title title desc then some desc else get_layer_by_name layers title

  -- `GetLayerByMediaType`
  unfoldable pub get_layer_by_media_type : List LayerDescriptor → String → List LayerDescriptor
  get_layer_by_media_type [] media_type = []
  get_layer_by_media_type (desc ∷ layers) media_type =
      let rest = get_layer_by_media_type layers media_type in
      if desc.media_type == media_type then desc ∷ rest else rest

  -- `GetLayerByDigest`
  unfoldable pub get_layer_by_digest : List LayerDescriptor → String → List LayerDescriptor
  get_layer_by_digest [] digest = []
  get_layer_by_digest (desc ∷ layers) digest =
      let rest = get_layer_by_digest layers digest in
      if i.text desc.digest == digest then desc ∷ rest else rest
