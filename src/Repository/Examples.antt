-- ===== src/Repository/Examples.antt =====
-- A repository on an SFTP server, written, read and resolved.
use backupchief_agent.Base.{
  ◌≡◌, ◌↔◌, refl, arith, true, false, [], ◌∷◌, none, some, if◌then◌else◌, Text, chars, same_text,
  has_char, has_prefix, ends_with, trim_first, has_double, split, onto_first, all, leb, ◌+◌, ◌&&◌,
  replicate,
}
use backupchief_agent.Egress.{
  authority, with_port, canonical_host, join_host_port, decimal, trim_space, drop_spaces,
  has_suffix,
}
use backupchief_agent.Repository.{
  Host, done, password, at_sftp, SftpDestination, to_sftp, resolve, resolve_sftp,
  validate_destination, validate_connection, canonical_target, valid_sftp_host_key, host_keys_from,
  is_among, byte_length, validate_authentication,
}
use backupchief_agent.Repository.Paths.{valid_relative_path, valid_sftp_path, line_safe}
use backupchief_agent.Repository.Document.{
  DestinationDocument, ConnectionDocument, destination_document, destination_from_document,
  empty_destination, empty_connection, driver_sftp,
}
use backupchief_agent.Repository.RoundTrip.{destination_document_iff}
use backupchief_agent.Repository.Resolving.{resolve_valid}

abbrev host : Host
host = record {
  network = record {
    to_lower = λ c. if leb b'A' c && leb c b'Z' then c + 32 else c;
    parse_addr = λ s. none;
    addr_text = λ ip. [];
    parse_url = λ s. none;
  };
  decode_base64 = λ s. some (1 ∷ 2 ∷ []);
  parses_ed25519 = λ s. false;
}

abbrev server : SftpDestination
server = record {
  host = chars "backup.example.com";
  port = 22;
  username = chars "agent";
  root_path = chars "/srv";
  host_keys = chars "ssh-ed25519 AAAA" ∷ [];
  authentication = password (chars "secret");
}

abbrev server_document : DestinationDocument
server_document = record (empty_destination driver_sftp) {
  host = server.host;
  port = 22;
  username = server.username;
  root_path = server.root_path;
  host_keys = server.host_keys;
  auth = some (record {
    wire_method = chars "password";
    wire_password = chars "secret";
    wire_private_key = [];
  });
}

destination_document_iff_example :
    (destination_from_document server_document ≡ done (at_sftp server))
    ↔ (destination_document (at_sftp server) ≡ done server_document)
destination_document_iff_example = destination_document_iff (at_sftp server) server_document

reads : destination_from_document server_document ≡ done (at_sftp server)
unfolding destination_document
reads = destination_document_iff_example.1 refl

abbrev folder : Text
folder = chars "web/files"

abbrev connection_record : ConnectionDocument
connection_record = record (empty_connection driver_sftp) {
  path = chars "/srv/web/files";
  host = server.host;
  port = 22;
  username = server.username;
  host_keys = server.host_keys;
  auth = server_document.auth;
}

valid_server : validate_destination host (at_sftp server) ≡ none
unfolding validate_destination canonical_target authority with_port canonical_host join_host_port
    decimal trim_space drop_spaces has_suffix has_prefix has_char ends_with trim_first has_double
    split onto_first all same_text valid_sftp_path line_safe host_keys_from is_among
    valid_sftp_host_key byte_length validate_authentication
valid_server = refl

resolves : resolve (at_sftp server) folder ≡ done (to_sftp (resolve_sftp server folder))
unfolding resolve valid_relative_path split onto_first all same_text has_char has_prefix
resolves = refl

resolve_valid_example : validate_connection host true (to_sftp (resolve_sftp server folder)) ≡ none
unfolding same_text
resolve_valid_example =
    resolve_valid host (at_sftp server) folder (to_sftp (resolve_sftp server folder)) valid_server
      resolves (omega arith)

abbrev deep : Text
deep = replicate 1020 b'a'
