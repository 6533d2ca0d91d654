-- ===== src/Repository/Document.antt =====
-- repository/codec.go: the documents that destinations and connections are written as, and read from.
-- A member that is left out of the JSON text is empty here; the JSON texts themselves are left out.
use backupchief_agent.Base.{
  ℕ, Bool, true, false, not, ◌&&◌, List, [], ◌∷◌, Option, none, some, ◌==◌, if◌then◌else◌, is_some,
  Text, chars, is_blank, same_text,
}
use backupchief_agent.Repository.{
  driver_invalid, local_settings, s3_settings, sftp_settings, method_invalid, password_invalid,
  ed25519_invalid, unsupported_driver, Result, done, failed, Authentication, no_credential,
  password, ed25519, Destination, nowhere, at_local, at_s3, at_sftp, SftpDestination, Connection,
  unconnected, to_local, to_s3, to_sftp, SftpConnection,
}

pub record AuthenticationWire : Type 0 where
  pub wire_method : Text
  pub wire_password : Text
  pub wire_private_key : Text

pub record DestinationDocument : Type 0 where
  pub driver : Text
  pub path : Text
  pub endpoint : Text
  pub region : Text
  pub bucket : Text
  pub prefix : Text
  pub access_key : Text
  pub secret_key : Text
  pub host : Text
  pub port : ℕ
  pub username : Text
  pub root_path : Text
  pub host_keys : List Text
  pub auth : Option AuthenticationWire

pub record ConnectionDocument : Type 0 where
  pub driver : Text
  pub path : Text
  pub endpoint : Text
  pub bucket : Text
  pub prefix : Text
  pub region : Text
  pub access_key : Text
  pub secret_key : Text
  pub host : Text
  pub port : ℕ
  pub username : Text
  pub host_keys : List Text
  pub auth : Option AuthenticationWire

abbrev pub empty_destination : Text → DestinationDocument
empty_destination name = record {
  driver = name;
  path = [];
  endpoint = [];
  region = [];
  bucket = [];
  prefix = [];
  access_key = [];
  secret_key = [];
  host = [];
  port = 0;
  username = [];
  root_path = [];
  host_keys = [];
  auth = none;
}

abbrev pub empty_connection : Text → ConnectionDocument
empty_connection name = record {
  driver = name;
  path = [];
  endpoint = [];
  bucket = [];
  prefix = [];
  region = [];
  access_key = [];
  secret_key = [];
  host = [];
  port = 0;
  username = [];
  host_keys = [];
  auth = none;
}

abbrev pub driver_local : Text
driver_local = chars "local"

abbrev pub driver_s3 : Text
driver_s3 = chars "s3"

abbrev pub driver_sftp : Text
driver_sftp = chars "sftp"

-- `authenticationDocument`.
unfoldable pub authentication_document : Authentication → Result AuthenticationWire
authentication_document no_credential = failed method_invalid
authentication_document (password s) =
    done (record { wire_method = chars "password"; wire_password = s; wire_private_key = [] })
authentication_document (ed25519 s) =
    done (record { wire_method = chars "ed25519"; wire_password = []; wire_private_key = s })

-- `authenticationFromDocument`.
unfoldable pub authentication_from_document : AuthenticationWire → Result Authentication
unfolding same_text
authentication_from_document w =
    if same_text w.wire_method (chars "password")
    then (if is_blank w.wire_private_key
        then done (password w.wire_password)
        else failed password_invalid)
    else if same_text w.wire_method (chars "ed25519")
    then (if is_blank w.wire_password
        then done (ed25519 w.wire_private_key)
        else failed ed25519_invalid)
    else failed method_invalid

abbrev pub no_keys : List Text → Bool
no_keys [] = true
no_keys (k ∷ ks) = false

-- `hasSFTPDocument` and `hasSFTPConnectionDocument`, negated.
unfoldable pub no_sftp_document : DestinationDocument → Bool
no_sftp_document d =
    is_blank d.host
    && d.port == 0
    && is_blank d.username
    && is_blank d.root_path
    && no_keys d.host_keys
    && not (is_some d.auth)

unfoldable pub no_sftp_connection_document : ConnectionDocument → Bool
no_sftp_connection_document d =
    is_blank d.host
    && d.port == 0
    && is_blank d.username
    && no_keys d.host_keys
    && not (is_some d.auth)

-- No member of a document that only S3 has, but for the path, which the callers test.
unfoldable pub no_s3_document : DestinationDocument → Bool
no_s3_document d =
    is_blank d.endpoint
    && is_blank d.region
    && is_blank d.bucket
    && is_blank d.prefix
    && is_blank d.access_key
    && is_blank d.secret_key

unfoldable pub no_s3_connection_document : ConnectionDocument → Bool
no_s3_connection_document d =
    is_blank d.endpoint
    && is_blank d.bucket
    && is_blank d.prefix
    && is_blank d.region
    && is_blank d.access_key
    && is_blank d.secret_key

-- The document of an SFTP backend with its authentication.
unfoldable pub sftp_document :
    SftpDestination → Result AuthenticationWire → Result DestinationDocument
sftp_document d (failed p) = failed p
sftp_document d (done w) = done (record (empty_destination driver_sftp) {
  host = d.host;
  port = d.port;
  username = d.username;
  root_path = d.root_path;
  host_keys = d.host_keys;
  auth = some w;
})

-- `Destination.document`.
unfoldable pub destination_document : Destination → Result DestinationDocument
unfolding sftp_document authentication_document
destination_document nowhere = failed driver_invalid
destination_document (at_local d) = done (record (empty_destination driver_local) { path = d.root })
destination_document (at_s3 d) = done (record (empty_destination driver_s3) {
  endpoint = d.endpoint;
  region = d.region;
  bucket = d.bucket;
  prefix = d.prefix;
  access_key = d.access_key;
  secret_key = d.secret_key;
})
destination_document (at_sftp d) = sftp_document d (authentication_document d.authentication)

unfoldable pub sftp_from_document : DestinationDocument → Result Authentication → Result Destination
sftp_from_document d (failed p) = failed p
sftp_from_document d (done a) = done (
    at_sftp (record {
      host = d.host;
      port = d.port;
      username = d.username;
      root_path = d.root_path;
      host_keys = d.host_keys;
      authentication = a;
    }))

unfoldable pub sftp_of_wire : DestinationDocument → Option AuthenticationWire → Result Destination
unfolding sftp_from_document authentication_from_document
sftp_of_wire d none = failed sftp_settings
sftp_of_wire d (some w) = sftp_from_document d (authentication_from_document w)

-- `destinationFromDocument`.
unfoldable pub destination_from_document : DestinationDocument → Result Destination
unfolding no_sftp_document no_s3_document sftp_of_wire same_text
destination_from_document d =
    if same_text d.driver driver_local
    then (if no_s3_document d && no_sftp_document d
        then done (at_local (record { root = d.path }))
        else failed local_settings)
    else if same_text d.driver driver_s3
    then (if is_blank d.path && no_sftp_document d
        then done (
            at_s3 (record {
              endpoint = d.endpoint;
              region = d.region;
              bucket = d.bucket;
              prefix = d.prefix;
              access_key = d.access_key;
              secret_key = d.secret_key;
            }))
        else failed s3_settings)
    else if same_text d.driver driver_sftp
    then (if is_blank d.path && no_s3_document d
        then sftp_of_wire d d.auth
        else failed sftp_settings)
    else failed driver_invalid

unfoldable pub sftp_connection_document :
    SftpConnection → Result AuthenticationWire → Result ConnectionDocument
sftp_connection_document c (failed p) = failed p
sftp_connection_document c (done w) = done (record (empty_connection driver_sftp) {
  path = c.path;
  host = c.host;
  port = c.port;
  username = c.username;
  host_keys = c.host_keys;
  auth = some w;
})

-- `Connection.document`.
unfoldable pub connection_document : Connection → Result ConnectionDocument
unfolding sftp_connection_document authentication_document
connection_document unconnected = failed unsupported_driver
connection_document (to_local c) = done (record (empty_connection driver_local) { path = c.path })
connection_document (to_s3 c) = done (record (empty_connection driver_s3) {
  endpoint = c.endpoint;
  bucket = c.bucket;
  prefix = c.prefix;
  region = c.region;
  access_key = c.access_key;
  secret_key = c.secret_key;
})
connection_document (to_sftp c) =
    sftp_connection_document c (authentication_document c.authentication)

unfoldable pub sftp_connection_from : ConnectionDocument → Result Authentication → Result Connection
sftp_connection_from d (failed p) = failed p
sftp_connection_from d (done a) = done (
    to_sftp (record {
      host = d.host;
      port = d.port;
      username = d.username;
      path = d.path;
      host_keys = d.host_keys;
      authentication = a;
    }))

unfoldable pub sftp_connection_of_wire :
    ConnectionDocument → Option AuthenticationWire → Result Connection
unfolding sftp_connection_from authentication_from_document
sftp_connection_of_wire d none = failed sftp_settings
sftp_connection_of_wire d (some w) = sftp_connection_from d (authentication_from_document w)

-- `connectionFromDocument`.
unfoldable pub connection_from_document : ConnectionDocument → Result Connection
unfolding no_sftp_connection_document no_s3_connection_document sftp_connection_of_wire same_text
connection_from_document d =
    if same_text d.driver driver_local
    then (if no_s3_connection_document d && no_sftp_connection_document d
        then done (to_local (record { path = d.path }))
        else failed local_settings)
    else if same_text d.driver driver_s3
    then (if is_blank d.path && no_sftp_connection_document d
        then done (
            to_s3 (record {
              endpoint = d.endpoint;
              bucket = d.bucket;
              prefix = d.prefix;
              region = d.region;
              access_key = d.access_key;
              secret_key = d.secret_key;
            }))
        else failed s3_settings)
    else if same_text d.driver driver_sftp
    then (if no_s3_connection_document d
        then sftp_connection_of_wire d d.auth
        else failed sftp_settings)
    else failed unsupported_driver
