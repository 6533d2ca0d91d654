-- ===== src/Egress/Examples.antt =====
-- Addresses and hosts, judged.
use backupchief_agent.Base.{
  ◌+◌, not, ◌≡◌, ◌≢◌, refl, arith, leb, ◌&&◌, chars, none, some, if◌then◌else◌, same_text,
  has_prefix, has_char, ends_with, split, all,
}
use backupchief_agent.Egress.{
  Network, Target, v4, dotted, public, authority, ok, with_port, canonical_host, join_host_port,
  decimal, trim_space, drop_spaces, has_suffix,
}
use backupchief_agent.Egress.Addresses.{is_special, public_v4}

public_v4_example : public (v4 (dotted 172 32 0 1)) ≡ not (is_special 172 32 0)
public_v4_example = public_v4 172 32 0 1 (omega arith) (omega arith) (omega arith) (omega arith)

-- A network that knows one address, and the lower-case letters of ASCII.
abbrev network : Network
network = record {
  to_lower = λ c. if leb b'A' c && leb c b'Z' then c + 32 else c;
  parse_addr = λ s. if same_text s (chars "8.8.8.8") then some (v4 (dotted 8 8 8 8)) else none;
  addr_text = λ ip. chars "8.8.8.8";
  parse_url = λ s. none;
}

abbrev storage : Target
storage = record { host = chars "S3.Example.com"; port = 443 }

judged : authority network storage ≡ ok (chars "s3.example.com:443")
unfolding authority with_port canonical_host join_host_port decimal trim_space drop_spaces
    has_suffix has_prefix has_char ends_with split all same_text
judged = refl

localhost_refused :
    authority network (record storage { host = chars "db.localhost" })
    ≢ ok (chars "db.localhost:443")
unfolding authority trim_space drop_spaces has_suffix has_prefix has_char ends_with same_text
localhost_refused e = cc
