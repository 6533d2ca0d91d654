-- ===== src/Ulid.antt =====
-- `newULID` and `ulidPattern` of agent/types.go: identifiers of 48 bits of time and 80 random bits.
pub mod Digits
pub mod RoundTrip
mod Examples
use Prim.Native.Char.{Char, code}
use backupchief_agent.Base.{
  ℕ, zero, suc, ◌+◌, ◌*◌, ◌/◌, ◌%◌, ◌^◌, String, Bool, true, false, ◌&&◌, ◌||◌, List, [], ◌∷◌, leb,
  ◌==◌,
}

-- The 32 characters of `alphabet`.
abbrev pub alphabet : String
alphabet = "0123456789abcdefghjkmnpqrstvwxyz"

-- `alphabet[i]`; the index is a remainder by 32, so it is never out of range.
unfoldable pub char_at : String → ℕ → Char
char_at String.[] i = "0"
char_at (String.◌∷◌ c s) zero = c
char_at (String.◌∷◌ c s) (suc i) = char_at s i

-- `value[0]` to `value[5]`, and the ten random bytes behind them.
unfoldable pub ulid_bytes : ℕ → List ℕ → List ℕ
ulid_bytes ms random =
    ms / 2 ^ 40 % 256
    ∷ (ms / 2 ^ 32 % 256)
    ∷ (ms / 2 ^ 24 % 256)
    ∷ (ms / 2 ^ 16 % 256)
    ∷ (ms / 2 ^ 8 % 256)
    ∷ (ms % 256)
    ∷ random

-- `big.Int.SetBytes`: the bytes as a big-endian number.
unfoldable pub set_bytes : ℕ → List ℕ → ℕ
set_bytes n [] = n
set_bytes n (b ∷ bs) = set_bytes (n * 256 + b) bs

-- The loop over `encoded`, from its last index down: the remainders by 32, the last one first found.
unfoldable pub encode : ℕ → ℕ → String → String
encode zero number text = text
encode (suc index) number text =
    encode index (number / 32) (String.◌∷◌ (char_at alphabet (number % 32)) text)

-- `newULID` at a time in milliseconds, with what `rand.Read` gave.
unfoldable pub new_ulid : ℕ → List ℕ → String
new_ulid ms random = encode 26 (set_bytes 0 (ulid_bytes ms random)) ""

-- The class `[0-9a-hjkmnp-tv-z]`.
abbrev pub is_ulid_char : ℕ → Bool
is_ulid_char c =
    leb b'0' c && leb c b'9'
    || leb b'a' c && leb c b'h'
    || c == b'j'
    || c == b'k'
    || c == b'm'
    || c == b'n'
    || leb b'p' c && leb c b't'
    || leb b'v' c && leb c b'z'

-- The class, `n` times, and the end.
unfoldable pub matches_class : ℕ → String → Bool
matches_class zero String.[] = true
matches_class (suc n) (String.◌∷◌ c s) = is_ulid_char (code c) && matches_class n s
matches_class _ _ = false

-- `ulidPattern.MatchString`.
unfoldable pub is_ulid : String → Bool
is_ulid s = matches_class 26 s
