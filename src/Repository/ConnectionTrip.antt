-- ===== src/Repository/ConnectionTrip.antt =====
-- The same for the documents of connections.
use backupchief_agent.Base.{
  true, false, ◌&&◌, ◌≡◌, ◌↔◌, refl, subst, inl, inr, arith, [], none, some, is_blank, same_text,
  same_text_iff, Bool-cases, Option-cases,
}
use backupchief_agent.Repository.{
  done, Authentication, SftpConnection, Connection, unconnected, to_local, to_s3, to_sftp,
}
use backupchief_agent.Repository.Document.{
  AuthenticationWire, ConnectionDocument, driver_local, driver_s3, driver_sftp,
  authentication_document, authentication_from_document, no_sftp_connection_document,
  no_s3_connection_document, sftp_connection_document, connection_document, sftp_connection_from,
  sftp_connection_of_wire, connection_from_document,
}
use backupchief_agent.Repository.RoundTrip.{
  blank, done-injective, Result-cases, read_authentication, write_authentication, no_keys_lem,
  no_auth,
}

module _ (d : ConnectionDocument) where
  without_sftp :
      no_sftp_connection_document d ≡ true
      → (d.host ≡ []) × (d.port ≡ 0) × (d.username ≡ []) × (d.host_keys ≡ []) × (d.auth ≡ none)
  unfolding no_sftp_connection_document
  without_sftp h = (
    blank d.host (ground arith),
    ground arith,
    blank d.username (ground arith),
    no_keys_lem d.host_keys (ground arith),
    no_auth d.auth (ground arith),
  )

  without_s3 :
      no_s3_connection_document d ≡ true
      → (d.endpoint ≡ [])
        × (d.region ≡ [])
        × (d.bucket ≡ [])
        × (d.prefix ≡ [])
        × (d.access_key ≡ [])
        × (d.secret_key ≡ [])
  unfolding no_s3_connection_document
  without_s3 h = (
    blank d.endpoint (ground arith),
    blank d.region (ground arith),
    blank d.bucket (ground arith),
    blank d.prefix (ground arith),
    blank d.access_key (ground arith),
    blank d.secret_key (ground arith),
  )

  write_local :
      (v : Connection)
      → same_text d.driver driver_local ≡ true
      → connection_from_document d ≡ done v
      → connection_document v ≡ done d
  unfolding connection_from_document connection_document
  write_local v named h =
      elim (Bool-cases (no_s3_connection_document d && no_sftp_connection_document d)) [
        | inl fits ↦
            let e = (same_text_iff d.driver driver_local).0 named in
            ground (arith, e, without_s3 (ground arith), without_sftp (ground arith))
        | inr bad ↦ absurd (ground arith)
      ]

  write_s3 :
      (v : Connection)
      → same_text d.driver driver_local ≡ false
      → same_text d.driver driver_s3 ≡ true
      → connection_from_document d ≡ done v
      → connection_document v ≡ done d
  unfolding connection_from_document connection_document
  write_s3 v other named h = elim (Bool-cases (is_blank d.path && no_sftp_connection_document d)) [
    | inl fits ↦
        let e = (same_text_iff d.driver driver_s3).0 named in
        ground (arith, e, blank d.path (ground arith), without_sftp (ground arith))
    | inr bad ↦ absurd (ground arith)
  ]

  sftp_wire :
      (v : Connection)
      → sftp_connection_of_wire d d.auth ≡ done v
      → (w : AuthenticationWire) × (a : Authentication) × (d.auth ≡ some w)
        × (authentication_from_document w ≡ done a)
        × (sftp_connection_from d (done a) ≡ done v)
  unfolding sftp_connection_of_wire
  sftp_wire v h = elim (Option-cases d.auth) [
    | inl e ↦ absurd (ground arith)
    | inr (w, e) ↦ elim (Result-cases (authentication_from_document w)) [
      | inl (p, bad) ↦ absurd (ground (arith, bad))
      | inr (a, read) ↦ (w, a, e, read, ground (arith, read))
    ]
  ]

  write_sftp :
      (v : Connection)
      → same_text d.driver driver_local ≡ false
      → same_text d.driver driver_s3 ≡ false
      → same_text d.driver driver_sftp ≡ true
      → connection_from_document d ≡ done v
      → connection_document v ≡ done d
  unfolding connection_from_document
  write_sftp v other₁ other₂ named h = elim (Bool-cases (no_s3_connection_document d)) [
    | inl fits ↦
        let e = (same_text_iff d.driver driver_sftp).0 named in
        let (w, a, auth, read, made) = sftp_wire v (ground arith) in
        let written = write_authentication a w read in
        unfold connection_document sftp_connection_document sftp_connection_from in
        ground (arith, e, written, without_s3 (ground arith))
    | inr bad ↦ absurd (ground arith)
  ]

  write_connection :
      (v : Connection) → connection_from_document d ≡ done v → connection_document v ≡ done d
  write_connection v h = elim (Bool-cases (same_text d.driver driver_local)) [
    | inl named ↦ write_local v named h
    | inr other₁ ↦ elim (Bool-cases (same_text d.driver driver_s3)) [
      | inl named ↦ write_s3 v other₁ named h
      | inr other₂ ↦ elim (Bool-cases (same_text d.driver driver_sftp)) [
        | inl named ↦ write_sftp v other₁ other₂ named h
        | inr other₃ ↦ absurd (unfold connection_from_document in ground arith)
      ]
    ]
  ]

read_sftp :
    (v : SftpConnection) (d : ConnectionDocument)
    → connection_document (to_sftp v) ≡ done d
    → connection_from_document d ≡ done (to_sftp v)
unfolding connection_document
read_sftp v d h = elim (Result-cases (authentication_document v.authentication)) [
  | inl (p, bad) ↦ absurd (unfold sftp_connection_document in ground (arith, bad))
  | inr (w, written) ↦
      let read = read_authentication v.authentication w written in
      let made = rw written at h in
      subst (λ z. connection_from_document z ≡ done (to_sftp v)) (done-injective _ d made)
        (unfold connection_from_document in rw read (unfold sftp_connection_from in refl))
]

read_connection :
    (v : Connection) (d : ConnectionDocument)
    → connection_document v ≡ done d
    → connection_from_document d ≡ done v
unfolding connection_document connection_from_document
read_connection unconnected d h = cc
read_connection (to_local v) d h =
    subst (λ z. connection_from_document z ≡ done (to_local v)) (done-injective _ d h) refl
read_connection (to_s3 v) d h =
    subst (λ z. connection_from_document z ≡ done (to_s3 v)) (done-injective _ d h) refl
read_connection (to_sftp v) d h = read_sftp v d h

-- Reading a document gives a connection exactly if writing that connection gives the document, so
-- that every document that is read is written back as it was, and every connection that is written
-- is read back as it was.
pub connection_document_iff :
    (v : Connection) (d : ConnectionDocument)
    → (connection_from_document d ≡ done v) ↔ (connection_document v ≡ done d)
connection_document_iff v d = (write_connection d v, read_connection v d)
