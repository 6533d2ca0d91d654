-- ===== src/Egress/Hosts.antt =====
-- What the authorities that the policy gives are made of.
use backupchief_agent.Base.{
  ℕ, zero, suc, ◌+◌, ◌/◌, ◌%◌, ◌<◌, Bool, true, false, ◌||◌, ◌≡◌, ◌≢◌, refl, inl, inr, ltb, ◌==◌,
  arith, [], ◌∷◌, map, Text, Option-cases, Bool-cases, has_char, all, all-append,
}
use backupchief_agent.Egress.{
  Network, Target, Result, ok, err, public, canonical_host, with_port, authority, decimal,
  join_host_port, is_host_char, is_local_name, Addr,
}

-- A character of a host name, or a bracket round an IPv6 address.
abbrev pub is_authority_char : ℕ → Bool
is_authority_char c = is_host_char c || c == b'[' || c == b']'

host_char_allowed : (c : ℕ) → is_host_char c ≡ true → is_authority_char c ≡ true
host_char_allowed c h = rw h

host_allowed : (s : Text) → all is_host_char s ≡ true → all is_authority_char s ≡ true
unfolding all
host_allowed [] h = refl
host_allowed (c ∷ cs) h = elim (Bool-cases (is_host_char c)) [
  | inl good ↦ rw (host_char_allowed c good) (host_allowed cs (rw good at h))
  | inr bad ↦ absurd (cc (rw bad at h))
]

digit_allowed : (n : ℕ) → n < 10 → is_authority_char (b'0' + n) ≡ true
digit_allowed n h = ground arith

decimal_allowed :
    (fuel n : ℕ) (acc : Text)
    → all is_authority_char acc ≡ true
    → all is_authority_char (decimal fuel n acc) ≡ true
unfolding decimal
decimal_allowed zero n acc h = h
decimal_allowed (suc fuel) n acc h =
    let digits = (b'0' + n % 10) ∷ acc in
    let good : all is_authority_char digits ≡ true =
      unfold all in rw (digit_allowed (n % 10) (omega arith), h) in
    elim (Bool-cases (ltb n 10)) [
      | inl last ↦ rw last good
      | inr more ↦ rw more (decimal_allowed fuel (n / 10) digits good)
    ]

join_host_port_allowed :
    (host : Text) (port : ℕ)
    → all is_authority_char host ≡ true
    → all is_authority_char (join_host_port host port) ≡ true
unfolding join_host_port
join_host_port_allowed host port h =
    let digits = decimal_allowed 5 port [] (unfold all in refl) in
    elim (Bool-cases (has_char b':' host || has_char b'%' host)) [
      | inl brackets ↦ rw brackets (
          unfold all in
          rw (all-append is_authority_char host (b']' ∷ b':' ∷ decimal 5 port []), h, digits))
      | inr plain ↦
          rw (plain, all-append is_authority_char host (b':' ∷ decimal 5 port []), h)
            (unfold all in digits)
    ]

canonical_host_chars :
    (network : Network) (host h : Text)
    → ((ip : Addr) → public ip ≡ true → all is_host_char (network.addr_text ip) ≡ true)
    → all is_host_char host ≡ true
    → canonical_host network host ≡ ok h
    → all is_host_char h ≡ true
unfolding canonical_host
canonical_host_chars network host h printed plain given =
    elim (Option-cases (network.parse_addr host)) [
      | inl name ↦ ground arith
      | inr (ip, parsed) ↦ elim (Bool-cases (public ip)) [
        | inl good ↦ ground (arith, printed ip good)
        | inr bad ↦ absurd (ground arith)
      ]
    ]

module _ (network : Network) (target : Target) (s : Text) where
  lowered : Text
  lowered = map network.to_lower target.host

  with_port_inverse :
      (r : Result Text)
      → with_port target.port r ≡ ok s
      → (h : Text) × (r ≡ ok h) × (s ≡ join_host_port h target.port)
  unfolding with_port
  with_port_inverse (ok h) e = (h, refl, ground arith)
  with_port_inverse (err r) e = absurd (ground arith)

  authority_guards :
      authority network target ≡ ok s
      → (target.port ≢ 0)
        × (is_local_name lowered ≡ false)
        × (all is_host_char lowered ≡ true)
        × (with_port target.port (canonical_host network lowered) ≡ ok s)
  unfolding authority lowered
  authority_guards h = (ground arith, ground arith, ground arith, ground arith)

  -- If the printer of addresses uses the characters of host names for every public address, an
  -- authority is given only for a port other than 0 and a host that is no name of the machine
  -- itself, and consists of letters, digits, dots, dashes, colons and brackets alone.
  pub authority_chars :
      ((ip : Addr) → public ip ≡ true → all is_host_char (network.addr_text ip) ≡ true)
      → authority network target ≡ ok s
      → (target.port ≢ 0)
        × (is_local_name (map network.to_lower target.host) ≡ false)
        × (all is_authority_char s ≡ true)
  unfolding lowered
  authority_chars printed given =
      let (used, named, plain, joined) = authority_guards given in
      let (h, canonical, e) = with_port_inverse (canonical_host network lowered) joined in
      (
        used,
        named,
        rw e (
            join_host_port_allowed h target.port
              (host_allowed h (canonical_host_chars network lowered h printed plain canonical))),
      )
