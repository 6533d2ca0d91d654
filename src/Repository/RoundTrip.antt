-- ===== src/Repository/RoundTrip.antt =====
-- Reading a document and writing one undo each other.
use backupchief_agent.Base.{
  true, false, not, ◌&&◌, ◌≡◌, ◌↔◌, ◌⊎◌, refl, subst, inl, inr, arith, List, [], ◌∷◌, Option, none,
  some, is_some, Text, chars, is_blank, same_text, same_text_iff, Bool-cases, Option-cases,
}
use backupchief_agent.Repository.{
  Problem, Result, done, failed, Authentication, no_credential, password, ed25519, Destination,
  nowhere, at_local, at_s3, at_sftp, SftpDestination,
}
use backupchief_agent.Repository.Document.{
  AuthenticationWire, DestinationDocument, driver_local, driver_s3, driver_sftp,
  authentication_document, authentication_from_document, no_keys, no_sftp_document, no_s3_document,
  sftp_document, destination_document, sftp_from_document, sftp_of_wire, destination_from_document,
}

pub blank : (v : Text) → is_blank v ≡ true → v ≡ []
blank [] h = refl
blank (c ∷ cs) h = cc

pub done-injective {ℓ} : {A : Type ℓ} (a b : A) → done a ≡ done b → a ≡ b
done-injective a b h = cc

pub Result-cases {ℓ} :
    {A : Type ℓ} (r : Result A) → ((p : Problem) × (r ≡ failed p)) ⊎ ((a : A) × (r ≡ done a))
Result-cases (failed p) = inl (p, refl)
Result-cases (done a) = inr (a, refl)

pub read_authentication :
    (a : Authentication) (w : AuthenticationWire)
    → authentication_document a ≡ done w
    → authentication_from_document w ≡ done a
unfolding authentication_document authentication_from_document
read_authentication no_credential w h = cc
read_authentication (password s) w h =
    subst (λ z. authentication_from_document z ≡ done (password s)) (done-injective _ w h) refl
read_authentication (ed25519 s) w h =
    subst (λ z. authentication_from_document z ≡ done (ed25519 s)) (done-injective _ w h) refl

pub write_authentication :
    (a : Authentication) (w : AuthenticationWire)
    → authentication_from_document w ≡ done a
    → authentication_document a ≡ done w
unfolding authentication_document authentication_from_document
write_authentication a w h = elim (Bool-cases (same_text w.wire_method (chars "password"))) [
  | inl p ↦
      let e = (same_text_iff w.wire_method (chars "password")).0 p in
      ground (arith, e, blank w.wire_private_key)
  | inr p ↦ elim (Bool-cases (same_text w.wire_method (chars "ed25519"))) [
    | inl q ↦
        let e = (same_text_iff w.wire_method (chars "ed25519")).0 q in
        ground (arith, e, blank w.wire_password)
    | inr q ↦ absurd (ground arith)
  ]
]

pub no_keys_lem : (ks : List Text) → no_keys ks ≡ true → ks ≡ []
no_keys_lem [] h = refl
no_keys_lem (k ∷ ks) h = cc

pub no_auth : (w : Option AuthenticationWire) → not (is_some w) ≡ true → w ≡ none
no_auth none h = refl
no_auth (some w) h = cc

module _ (d : DestinationDocument) where
  without_sftp :
      no_sftp_document d ≡ true
      → (d.host ≡ [])
        × (d.port ≡ 0)
        × (d.username ≡ [])
        × (d.root_path ≡ [])
        × (d.host_keys ≡ [])
        × (d.auth ≡ none)
  unfolding no_sftp_document
  without_sftp h = (
    blank d.host (ground arith),
    ground arith,
    blank d.username (ground arith),
    blank d.root_path (ground arith),
    no_keys_lem d.host_keys (ground arith),
    no_auth d.auth (ground arith),
  )

  without_s3 :
      no_s3_document d ≡ true
      → (d.endpoint ≡ [])
        × (d.region ≡ [])
        × (d.bucket ≡ [])
        × (d.prefix ≡ [])
        × (d.access_key ≡ [])
        × (d.secret_key ≡ [])
  unfolding no_s3_document
  without_s3 h = (
    blank d.endpoint (ground arith),
    blank d.region (ground arith),
    blank d.bucket (ground arith),
    blank d.prefix (ground arith),
    blank d.access_key (ground arith),
    blank d.secret_key (ground arith),
  )

  write_local :
      (v : Destination)
      → same_text d.driver driver_local ≡ true
      → destination_from_document d ≡ done v
      → destination_document v ≡ done d
  unfolding destination_from_document destination_document
  write_local v named h = elim (Bool-cases (no_s3_document d && no_sftp_document d)) [
    | inl fits ↦
        let e = (same_text_iff d.driver driver_local).0 named in
        ground (arith, e, without_s3 (ground arith), without_sftp (ground arith))
    | inr bad ↦ absurd (ground arith)
  ]

  write_s3 :
      (v : Destination)
      → same_text d.driver driver_local ≡ false
      → same_text d.driver driver_s3 ≡ true
      → destination_from_document d ≡ done v
      → destination_document v ≡ done d
  unfolding destination_from_document destination_document
  write_s3 v other named h = elim (Bool-cases (is_blank d.path && no_sftp_document d)) [
    | inl fits ↦
        let e = (same_text_iff d.driver driver_s3).0 named in
        ground (arith, e, blank d.path (ground arith), without_sftp (ground arith))
    | inr bad ↦ absurd (ground arith)
  ]

  sftp_wire :
      (v : Destination)
      → sftp_of_wire d d.auth ≡ done v
      → (w : AuthenticationWire) × (a : Authentication) × (d.auth ≡ some w)
        × (authentication_from_document w ≡ done a)
        × (sftp_from_document d (done a) ≡ done v)
  unfolding sftp_of_wire
  sftp_wire v h = elim (Option-cases d.auth) [
    | inl e ↦ absurd (ground arith)
    | inr (w, e) ↦ elim (Result-cases (authentication_from_document w)) [
      | inl (p, bad) ↦ absurd (ground (arith, bad))
      | inr (a, read) ↦ (w, a, e, read, ground (arith, read))
    ]
  ]

  write_sftp :
      (v : Destination)
      → same_text d.driver driver_local ≡ false
      → same_text d.driver driver_s3 ≡ false
      → same_text d.driver driver_sftp ≡ true
      → destination_from_document d ≡ done v
      → destination_document v ≡ done d
  unfolding destination_from_document
  write_sftp v other₁ other₂ named h = elim (Bool-cases (is_blank d.path && no_s3_document d)) [
    | inl fits ↦
        let e = (same_text_iff d.driver driver_sftp).0 named in
        let (w, a, auth, read, made) = sftp_wire v (ground arith) in
        let written = write_authentication a w read in
        unfold destination_document sftp_document sftp_from_document in
        ground (arith, e, written, blank d.path (ground arith), without_s3 (ground arith))
    | inr bad ↦ absurd (ground arith)
  ]

  write_destination :
      (v : Destination) → destination_from_document d ≡ done v → destination_document v ≡ done d
  write_destination v h = elim (Bool-cases (same_text d.driver driver_local)) [
    | inl named ↦ write_local v named h
    | inr other₁ ↦ elim (Bool-cases (same_text d.driver driver_s3)) [
      | inl named ↦ write_s3 v other₁ named h
      | inr other₂ ↦ elim (Bool-cases (same_text d.driver driver_sftp)) [
        | inl named ↦ write_sftp v other₁ other₂ named h
        | inr other₃ ↦ absurd (unfold destination_from_document in ground arith)
      ]
    ]
  ]

read_sftp :
    (v : SftpDestination) (d : DestinationDocument)
    → destination_document (at_sftp v) ≡ done d
    → destination_from_document d ≡ done (at_sftp v)
unfolding destination_document
read_sftp v d h = elim (Result-cases (authentication_document v.authentication)) [
  | inl (p, bad) ↦ absurd (unfold sftp_document in ground (arith, bad))
  | inr (w, written) ↦
      let read = read_authentication v.authentication w written in
      let made = rw written at h in
      subst (λ z. destination_from_document z ≡ done (at_sftp v)) (done-injective _ d made)
        (unfold destination_from_document in rw read (unfold sftp_from_document in refl))
]

read_destination :
    (v : Destination) (d : DestinationDocument)
    → destination_document v ≡ done d
    → destination_from_document d ≡ done v
unfolding destination_document destination_from_document
read_destination nowhere d h = cc
read_destination (at_local v) d h =
    subst (λ z. destination_from_document z ≡ done (at_local v)) (done-injective _ d h) refl
read_destination (at_s3 v) d h =
    subst (λ z. destination_from_document z ≡ done (at_s3 v)) (done-injective _ d h) refl
read_destination (at_sftp v) d h = read_sftp v d h

-- Reading a document gives a destination exactly if writing that destination gives the document, so
-- that every document that is read is written back as it was, and every destination that is written
-- is read back as it was.
pub destination_document_iff :
    (v : Destination) (d : DestinationDocument)
    → (destination_from_document d ≡ done v) ↔ (destination_document v ≡ done d)
destination_document_iff v d = (write_destination d v, read_destination v d)
