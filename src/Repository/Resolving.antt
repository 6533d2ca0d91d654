-- ===== src/Repository/Resolving.antt =====
-- Which connections the destinations resolve to.
use backupchief_agent.Base.{
  ◌≤◌, ◌<◌, true, false, ◌||◌, ◌≡◌, refl, arith, [], ◌∷◌, ◌++◌, none, some, ltb, if◌then◌else◌,
  length, Text, is_blank, lt→ltb,
}
use backupchief_agent.Repository.{
  Host, done, Destination, at_local, at_s3, at_sftp, nowhere, Connection, to_local, to_s3, to_sftp,
  LocalDestination, S3Destination, SftpDestination, resolve, resolve_backend, resolve_local,
  resolve_s3, resolve_sftp, validate_destination, validate_connection, valid_local, valid_s3,
  validate_sftp, valid_s3_connection, valid_sftp_connection, sftp_settings,
}
use backupchief_agent.Repository.Paths.{valid_relative_path, safe_prefix, valid_sftp_path}
use backupchief_agent.Repository.Joining.{
  below, valid_relative_path-join, valid_sftp_path-below, relative_path_parts,
}
use backupchief_agent.Repository.Cleaning.{join_paths_local}

-- The path of a connection below an SFTP destination is not too long for a server.
abbrev pub Fits : Destination → Text → Type 0
Fits (at_sftp d) p = length (below d.root_path p) ≤ 1024
Fits (at_local d) p = Unit
Fits (at_s3 d) p = Unit
Fits nowhere p = Unit

nonblank_path : (p : Text) → valid_relative_path p ≡ true → is_blank p ≡ false
unfolding valid_relative_path
nonblank_path [] h = cc
nonblank_path (c ∷ cs) h = refl

prefix_below :
    (q p : Text)
    → (is_blank q || valid_relative_path q) ≡ true
    → valid_relative_path p ≡ true
    → safe_prefix (if is_blank q then p else q ++ b'/' ∷ p) ≡ true
prefix_below [] p h safe = rw (nonblank_path p safe) safe
prefix_below (c ∷ cs) p h safe = valid_relative_path-join (c ∷ cs) p h safe

module _ (host : Host) (p : Text) (safe : valid_relative_path p ≡ true) where
  resolve_local_valid :
      (d : LocalDestination)
      → valid_local d ≡ true
      → validate_connection host true (to_local (resolve_local d p)) ≡ none
  unfolding validate_connection resolve_local valid_local
  resolve_local_valid d h =
      let (good, fit) = relative_path_parts p safe in
      let joined = join_paths_local d.root p (ground arith) (ground arith) (ground arith) in
      ground (arith, joined)

  resolve_s3_valid :
      (d : S3Destination)
      → valid_s3 host d ≡ true
      → validate_connection host true (to_s3 (resolve_s3 d p)) ≡ none
  unfolding validate_connection valid_s3_connection resolve_s3 valid_s3
  resolve_s3_valid d h = ground (arith, prefix_below d.prefix p (ground arith) safe)

  resolve_sftp_valid :
      (d : SftpDestination)
      → validate_sftp host d ≡ none
      → length (below d.root_path p) ≤ 1024
      → validate_connection host true (to_sftp (resolve_sftp d p)) ≡ none
  unfolding validate_connection resolve_sftp validate_sftp
  resolve_sftp_valid d h short = ground (arith, valid_sftp_path-below d.root_path p)

resolve_backend_valid :
    (host : Host) (d : Destination) (p : Text) (c : Connection)
    → valid_relative_path p ≡ true
    → validate_destination host d ≡ none
    → Fits d p
    → resolve_backend d p ≡ done c
    → validate_connection host true c ≡ none
unfolding validate_destination resolve_backend
resolve_backend_valid host nowhere p c safe good short h = cc
resolve_backend_valid host (at_local d) p c safe good short h =
    ground (arith, resolve_local_valid host p safe d (ground arith))
resolve_backend_valid host (at_s3 d) p c safe good short h =
    ground (arith, resolve_s3_valid host p safe d (ground arith))
resolve_backend_valid host (at_sftp d) p c safe good short h =
    ground (arith, resolve_sftp_valid host p safe d good short)

-- Where a destination that validates resolves a path, and the path on an SFTP server is not longer
-- than 1024 characters, the connection validates too, if local repositories are allowed.
pub resolve_valid :
    (host : Host) (d : Destination) (p : Text) (c : Connection)
    → validate_destination host d ≡ none
    → resolve d p ≡ done c
    → Fits d p
    → validate_connection host true c ≡ none
unfolding resolve
resolve_valid host d p c good h short =
    resolve_backend_valid host d p c (ground arith) good short (ground arith)

long_path : (v : Text) → 1024 < length v → valid_sftp_path v ≡ false
unfolding valid_sftp_path
long_path v h = let e : ltb 1024 (length v) ≡ true = lt→ltb 1024 (length v) h in ground (arith, e)

-- An SFTP destination resolves a safe path of at most 1024 characters even where the whole path is
-- longer than that, and the connection is then refused.
pub resolve_too_long :
    (host : Host) (d : SftpDestination) (p : Text)
    → valid_relative_path p ≡ true
    → length p ≤ 1024
    → 1024 < length (below d.root_path p)
    → (resolve (at_sftp d) p ≡ done (to_sftp (resolve_sftp d p)))
      × (validate_connection host true (to_sftp (resolve_sftp d p)) ≡ some sftp_settings)
unfolding resolve resolve_sftp validate_connection valid_sftp_connection
resolve_too_long host d p safe short long =
    let late = long_path (below d.root_path p) long in (ground arith, ground (arith, late))
