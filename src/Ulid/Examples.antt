-- ===== src/Ulid/Examples.antt =====
-- Identifiers made at given times and with given random bytes.
use backupchief_agent.Base.{◌≡◌, refl, ◌↔◌, true, List, ℕ, ◌%◌, ◌^◌, replicate, arith}
use backupchief_agent.Ulid.{new_ulid, is_ulid, char_at, ulid_bytes, set_bytes, encode}
use backupchief_agent.Ulid.Digits.{is_ulid-new_ulid}
use backupchief_agent.Ulid.RoundTrip.{new_ulid-injective}

abbrev zeros : List ℕ
zeros = replicate 10 0

abbrev ones : List ℕ
ones = replicate 10 255

latest : new_ulid 281474976710655 ones ≡ "7zzzzzzzzzzzzzzzzzzzzzzzzz"
unfolding new_ulid encode set_bytes ulid_bytes char_at
latest = refl

is_ulid-new_ulid_example : is_ulid (new_ulid 1780000000000 ones) ≡ true
is_ulid-new_ulid_example = is_ulid-new_ulid 1780000000000 ones

new_ulid-injective_example :
    (new_ulid 5 zeros ≡ new_ulid 6 ones) ↔ ((5 % 2 ^ 48 ≡ 6 % 2 ^ 48) × (zeros ≡ ones))
new_ulid-injective_example = new_ulid-injective 5 6 zeros ones (omega arith) (omega arith)
