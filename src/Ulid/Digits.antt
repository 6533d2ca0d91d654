-- ===== src/Ulid/Digits.antt =====
-- Every identifier that `newULID` makes matches `ulidPattern`.
use Prim.Native.Char.{code}
use backupchief_agent.Base.{
  ℕ, zero, suc, ◌+◌, ◌%◌, ◌/◌, ◌<◌, String, ◌≡◌, refl, Bool, true, ◌&&◌, List, arith,
}
use backupchief_agent.Ulid.{
  alphabet, char_at, encode, is_ulid_char, matches_class, is_ulid, new_ulid, set_bytes, ulid_bytes,
}

-- Whether a test holds of every number below a bound.
unfoldable pub holds_below : (ℕ → Bool) → ℕ → Bool
holds_below test zero = true
holds_below test (suc bound) = holds_below test bound && test bound

pub holds_below_at :
    (test : ℕ → Bool) (bound i : ℕ) → i < bound → holds_below test bound ≡ true → test i ≡ true
unfolding holds_below
holds_below_at test zero i small held = absurd (omega arith)
holds_below_at test (suc bound) i small held = ground (arith, holds_below_at test bound i)

alphabet_table : holds_below (λ i. is_ulid_char (code (char_at alphabet i))) 32 ≡ true
unfolding holds_below char_at
alphabet_table = refl

char_at-alphabet : (i : ℕ) → i < 32 → is_ulid_char (code (char_at alphabet i)) ≡ true
char_at-alphabet i h =
    holds_below_at (λ j. is_ulid_char (code (char_at alphabet j))) 32 i h alphabet_table

encode-matches_class :
    (k n j m : ℕ) (text : String)
    → m ≡ k + j
    → matches_class j text ≡ true
    → matches_class m (encode k n text) ≡ true
unfolding encode matches_class
encode-matches_class zero n j m text e h = rw (let e' : m ≡ j = omega arith in e') h
encode-matches_class (suc k) n j m text e h =
    encode-matches_class k (n / 32) (suc j) m (String.◌∷◌ (char_at alphabet (n % 32)) text)
      (omega arith) (rw (char_at-alphabet (n % 32) (omega arith)) h)

-- Every identifier of `newULID`, at any time and for any random bytes, matches `ulidPattern`.
pub is_ulid-new_ulid : (ms : ℕ) (random : List ℕ) → is_ulid (new_ulid ms random) ≡ true
unfolding is_ulid new_ulid
is_ulid-new_ulid ms random =
    encode-matches_class 26 (set_bytes 0 (ulid_bytes ms random)) 0 26 "" refl
      (unfold matches_class in refl)
