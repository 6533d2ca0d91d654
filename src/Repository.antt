-- ===== src/Repository.antt =====
-- repository/model.go: where a repository is kept, and how the agent reaches it.
-- Texts are lists of code points. A nil backend or credential is a constructor. The parsers of
-- base64 and of Ed25519 keys are arguments, with the network of the egress policy; the copies of
-- host keys that the constructors make are the lists themselves, as lists are never written to.
pub mod Paths
pub mod Document
pub mod RoundTrip
pub mod ConnectionTrip
pub mod Joining
pub mod Cleaning
pub mod Resolving
mod Examples
use backupchief_agent.Base.{
  ℕ, ◌+◌, ◌*◌, Bool, true, false, not, ◌&&◌, ◌||◌, List, [], ◌∷◌, ◌++◌, Option, none, some, ltb,
  leb, ◌==◌, if◌then◌else◌, is_some, length, Text, chars, is_blank, same_text, has_char, has_prefix,
  ends_with, split, join, all, onto_first,
}
use backupchief_agent.Egress.{Network, Target, ok, err, endpoint, authority, is_space}
use backupchief_agent.Repository.Paths.{
  valid_relative_path, safe_prefix, valid_sftp_path, line_safe, is_abs, join_paths, path_dir,
  path_base,
}

-- The errors of the package.
pub data Problem : Type 0 where
  driver_invalid local_settings s3_settings sftp_settings host_keys_invalid : Problem
  method_invalid password_invalid ed25519_invalid unsafe_path local_refused : Problem
  unsupported_driver : Problem

pub data Result {ℓ} (A : Type ℓ) : Type ℓ where
  done : A → Result A
  failed : Problem → Result A

pub record Host : Type 0 where
  pub network : Network
  pub decode_base64 : Text → Option (List ℕ)
  pub parses_ed25519 : Text → Bool

-- `SFTPAuthentication`, by its credential.
pub data Authentication : Type 0 where
  no_credential : Authentication
  password : Text → Authentication
  ed25519 : Text → Authentication

pub record LocalDestination : Type 0 where
  pub root : Text

pub record S3Destination : Type 0 where
  pub endpoint : Text
  pub region : Text
  pub bucket : Text
  pub prefix : Text
  pub access_key : Text
  pub secret_key : Text

pub record SftpDestination : Type 0 where
  pub host : Text
  pub port : ℕ
  pub username : Text
  pub root_path : Text
  pub host_keys : List Text
  pub authentication : Authentication

pub data Destination : Type 0 where
  nowhere : Destination
  at_local : LocalDestination → Destination
  at_s3 : S3Destination → Destination
  at_sftp : SftpDestination → Destination

pub record LocalConnection : Type 0 where
  pub path : Text

pub record S3Connection : Type 0 where
  pub endpoint : Text
  pub bucket : Text
  pub prefix : Text
  pub region : Text
  pub access_key : Text
  pub secret_key : Text

pub record SftpConnection : Type 0 where
  pub host : Text
  pub port : ℕ
  pub username : Text
  pub path : Text
  pub host_keys : List Text
  pub authentication : Authentication

pub data Connection : Type 0 where
  unconnected : Connection
  to_local : LocalConnection → Connection
  to_s3 : S3Connection → Connection
  to_sftp : SftpConnection → Connection

unfoldable pub method : Authentication → Text
method no_credential = []
method (password s) = chars "password"
method (ed25519 s) = chars "ed25519"

unfoldable pub secret : Authentication → Text
secret no_credential = []
secret (password s) = s
secret (ed25519 s) = s

-- `runeLength` counts code points, and `len` the bytes of their UTF-8 encoding.
unfoldable pub byte_length : Text → ℕ
byte_length [] = 0
byte_length (c ∷ cs) =
    (if ltb c 128 then 1 else if ltb c 2048 then 2 else if ltb c 65536 then 3 else 4)
    + byte_length cs

-- `validEd25519PrivateKey`; the decoding of PEM and PKCS #8 is `parses_ed25519`.
unfoldable pub valid_ed25519_private_key : Host → Text → Bool
valid_ed25519_private_key host v =
    not (is_blank v) && leb (byte_length v) 16384 && not (has_char 0 v) && host.parses_ed25519 v

-- `SFTPAuthentication.Validate`.
unfoldable pub validate_authentication : Host → Authentication → Option Problem
validate_authentication host no_credential = some method_invalid
validate_authentication host (password s) = if line_safe s 1000 then none else some password_invalid
validate_authentication host (ed25519 s) =
    if valid_ed25519_private_key host s then none else some ed25519_invalid

unfoldable pub split_spaces : Text → List Text
unfolding onto_first
split_spaces [] = [] ∷ []
split_spaces (c ∷ cs) =
    let rest = split_spaces cs in if is_space c then [] ∷ rest else onto_first c rest

unfoldable pub drop_blanks : List Text → List Text
drop_blanks [] = []
drop_blanks (p ∷ ps) = let rest = drop_blanks ps in if is_blank p then rest else p ∷ rest

-- The two fields of a host key: its type, and its number in base64.
unfoldable pub valid_key_fields : Host → Text → List Text → Bool
valid_key_fields host v (kind ∷ number ∷ []) =
    same_text (kind ++ b' ' ∷ number) v && line_safe kind 255 && (elim (host.decode_base64 number) [
      | none ↦ false
      | some bytes ↦ ltb 0 (length bytes) && leb (length bytes) 2048
    ])
valid_key_fields host v _ = false

-- `validSFTPHostKey`.
unfoldable pub valid_sftp_host_key : Host → Text → Bool
unfolding valid_key_fields split_spaces drop_blanks
valid_sftp_host_key host v =
    not (is_blank v)
    && leb (byte_length v) 4096
    && not (has_char b'\r' v || has_char b'\n' v || has_char 0 v)
    && valid_key_fields host v (drop_blanks (split_spaces v))

unfoldable pub is_among : Text → List Text → Bool
is_among v [] = false
is_among v (w ∷ ws) = same_text v w || is_among v ws

-- `validateHostKeys`, with the keys that were seen.
unfoldable pub host_keys_from : Host → List Text → List Text → Bool
host_keys_from host seen [] = true
host_keys_from host seen (v ∷ vs) =
    let rest = host_keys_from host (v ∷ seen) vs in
    if is_among v seen || not (valid_sftp_host_key host v) then false else rest

abbrev pub validate_host_keys : Host → List Text → Bool
validate_host_keys host values = host_keys_from host [] values

abbrev is_alphanumeric : ℕ → Bool
is_alphanumeric c = leb b'a' c && leb c b'z' || leb b'0' c && leb c b'9'

unfoldable pub ends_well : Text → Bool
ends_well [] = false
ends_well (c ∷ []) = is_alphanumeric c
ends_well (c ∷ d ∷ s) = ends_well (d ∷ s)

abbrev starts_well : Text → Bool
starts_well [] = false
starts_well (c ∷ s) = is_alphanumeric c

-- `bucketPattern`.
unfoldable pub is_bucket : Text → Bool
unfolding ends_well
is_bucket v =
    leb 3 (length v)
    && leb (length v) 63
    && starts_well v
    && ends_well v
    && all (λ c. is_alphanumeric c || c == b'.' || c == b'-') v

abbrev is_region_char : ℕ → Bool
is_region_char c = is_alphanumeric c || c == b'-'

abbrev amazon_host : Text → Text → Text
amazon_host start region = start ++ (region ++ chars ".amazonaws.com:443")

-- The authority of `canonicalS3Endpoint`: a regional endpoint of AWS becomes its dual-stack one. The
-- host names are compared with their port, which does not change whether they are equal.
unfoldable pub canonical_s3_endpoint : Host → Text → Text → Option Text
canonical_s3_endpoint host raw region = elim (endpoint host.network raw) [
  | err e ↦ none
  | ok given ↦
      if not (is_blank region)
        && all is_region_char region
        && (same_text given (amazon_host (chars "s3.") region)
            || same_text given (amazon_host (chars "s3-") region))
      then some (amazon_host (chars "s3.dualstack.") region)
      else some given
]

-- The authority of `canonicalTarget`.
unfoldable pub canonical_target : Host → Text → ℕ → Option Text
canonical_target host name port =
    elim (authority host.network (record { host = name; port = port })) [
      | err e ↦ none
      | ok given ↦ some given
    ]

-- The `validate` methods of the destinations.
unfoldable pub valid_local : LocalDestination → Bool
valid_local d = is_abs d.root && not (has_char 0 d.root) && leb (length d.root) 4096

unfoldable pub valid_s3 : Host → S3Destination → Bool
valid_s3 host d =
    is_some (canonical_s3_endpoint host d.endpoint d.region)
    && is_bucket d.bucket
    && not (is_blank d.region)
    && leb (length d.region) 255
    && (is_blank d.prefix || valid_relative_path d.prefix)
    && leb (length d.prefix) 1024
    && line_safe d.access_key 1000
    && line_safe d.secret_key 1000

abbrev pub well_numbered : List Text → Bool
well_numbered keys = not (length keys == 0) && leb (length keys) 16

unfoldable pub validate_sftp : Host → SftpDestination → Option Problem
validate_sftp host d =
    if is_some (canonical_target host d.host d.port)
      && line_safe d.username 255
      && valid_sftp_path d.root_path
      && well_numbered d.host_keys
    then (if validate_host_keys host d.host_keys
        then validate_authentication host d.authentication
        else some host_keys_invalid)
    else some sftp_settings

-- `Destination.Validate`.
unfoldable pub validate_destination : Host → Destination → Option Problem
unfolding valid_local valid_s3 validate_sftp
validate_destination host nowhere = some driver_invalid
validate_destination host (at_local d) = if valid_local d then none else some local_settings
validate_destination host (at_s3 d) = if valid_s3 host d then none else some s3_settings
validate_destination host (at_sftp d) = validate_sftp host d

-- The `resolve` methods.
unfoldable pub resolve_local : LocalDestination → Text → LocalConnection
resolve_local d p = record { path = join_paths d.root p }

unfoldable pub resolve_s3 : S3Destination → Text → S3Connection
resolve_s3 d p = record {
  endpoint = d.endpoint;
  bucket = d.bucket;
  prefix = if is_blank d.prefix then p else d.prefix ++ b'/' ∷ p;
  region = d.region;
  access_key = d.access_key;
  secret_key = d.secret_key;
}

unfoldable pub resolve_sftp : SftpDestination → Text → SftpConnection
resolve_sftp d p = record {
  host = d.host;
  port = d.port;
  username = d.username;
  path = if same_text d.root_path (b'/' ∷ []) then b'/' ∷ p else d.root_path ++ b'/' ∷ p;
  host_keys = d.host_keys;
  authentication = d.authentication;
}

unfoldable pub resolve_backend : Destination → Text → Result Connection
unfolding resolve_local resolve_s3 resolve_sftp
resolve_backend nowhere p = failed driver_invalid
resolve_backend (at_local d) p = done (to_local (resolve_local d p))
resolve_backend (at_s3 d) p = done (to_s3 (resolve_s3 d p))
resolve_backend (at_sftp d) p = done (to_sftp (resolve_sftp d p))

abbrev pub is_nowhere : Destination → Bool
is_nowhere nowhere = true
is_nowhere (at_local d) = false
is_nowhere (at_s3 d) = false
is_nowhere (at_sftp d) = false

-- `Destination.Resolve`.
unfoldable pub resolve : Destination → Text → Result Connection
unfolding resolve_backend
resolve d p =
    if is_nowhere d
    then failed driver_invalid
    else if not (valid_relative_path p) || ltb 1024 (length p)
    then failed unsafe_path
    else resolve_backend d p

unfoldable pub valid_s3_connection : Host → S3Connection → Bool
valid_s3_connection host c =
    is_some (canonical_s3_endpoint host c.endpoint c.region)
    && is_bucket c.bucket
    && not (is_blank c.region)
    && safe_prefix c.prefix
    && line_safe c.access_key 1000
    && line_safe c.secret_key 1000

unfoldable pub valid_sftp_connection : Host → SftpConnection → Bool
valid_sftp_connection host c =
    is_some (canonical_target host c.host c.port)
    && line_safe c.username 255
    && valid_sftp_path c.path
    && well_numbered c.host_keys
    && validate_host_keys host c.host_keys
    && not (is_some (validate_authentication host c.authentication))

-- `Connection.Validate`.
unfoldable pub validate_connection : Host → Bool → Connection → Option Problem
unfolding valid_s3_connection valid_sftp_connection
validate_connection host allow_local unconnected = some unsupported_driver
validate_connection host allow_local (to_local c) =
    if allow_local && is_abs c.path && not (has_char 0 c.path) then none else some local_refused
validate_connection host allow_local (to_s3 c) =
    if valid_s3_connection host c then none else some s3_settings
validate_connection host allow_local (to_sftp c) =
    if valid_sftp_connection host c then none else some sftp_settings

-- `Decompose` of a connection over S3 or SFTP; that of a local one is left out.
unfoldable pub decompose_s3 : S3Connection → Destination × Text
decompose_s3 c = (
  at_s3 (record {
    endpoint = c.endpoint;
    region = c.region;
    bucket = c.bucket;
    prefix = [];
    access_key = c.access_key;
    secret_key = c.secret_key;
  }),
  c.prefix,
)

unfoldable pub decompose_sftp : SftpConnection → Destination × Text
decompose_sftp c = (
  at_sftp (record {
    host = c.host;
    port = c.port;
    username = c.username;
    root_path = path_dir c.path;
    host_keys = c.host_keys;
    authentication = c.authentication;
  }),
  path_base c.path,
)
