-- ===== src/Ulid/RoundTrip.antt =====
-- An identifier determines its time and its random bytes.
use Prim.Native.Char.{code}
use native.Mathlib.Nat.{pow-suc}
use backupchief_agent.Base.{
  ℕ, zero, suc, ◌+◌, ◌*◌, ◌%◌, ◌/◌, ◌^◌, ◌<◌, String, ◌≡◌, refl, ◌↔◌, sym, ap, ◌∙◌, true, List, [],
  ◌∷◌, arith, All, length, if◌then◌else◌, ◌==◌, ==_iff,
}
use backupchief_agent.Ulid.{alphabet, char_at, encode, set_bytes, ulid_bytes, new_ulid}
use backupchief_agent.Ulid.Digits.{holds_below, holds_below_at}

-- The place of a character in a text, by its code.
index_of : String → ℕ → ℕ
index_of String.[] c = 0
index_of (String.◌∷◌ d s) c = if code d == c then 0 else suc (index_of s c)

-- Reading an identifier back as a number.
decode : ℕ → String → ℕ
decode n String.[] = n
decode n (String.◌∷◌ c s) = decode (n * 32 + index_of alphabet (code c)) s

index_table : holds_below (λ i. index_of alphabet (code (char_at alphabet i)) == i) 32 ≡ true
unfolding holds_below char_at index_of
index_table = refl

index_of-char_at : (i : ℕ) → i < 32 → index_of alphabet (code (char_at alphabet i)) ≡ i
index_of-char_at i h =
    (==_iff _ i).0
      (holds_below_at (λ j. index_of alphabet (code (char_at alphabet j)) == j) 32 i h index_table)

decode-encode :
    (k n acc : ℕ) (text : String)
    → n < 32 ^ k
    → decode acc (encode k n text) ≡ decode (acc * 32 ^ k + n) text
unfolding encode decode
decode-encode zero n acc text h = ap (λ (x : ℕ). decode x text) (omega (arith))
decode-encode (suc k) n acc text h =
    let c = char_at alphabet (n % 32) in
    let e : 32 ^ suc k ≡ 32 * 32 ^ k = omega (arith, pow-suc 32 k) in
    let number : (acc * 32 ^ k + n / 32) * 32 + n % 32 ≡ acc * 32 ^ suc k + n =
      rw e (omega arith) in
    decode-encode k (n / 32) acc (String.◌∷◌ c text) (omega (arith, e))
    ∙ rw (index_of-char_at (n % 32) (omega arith)) (ap (λ (x : ℕ). decode x text) number)

set_bytes-lt :
    (bs : List ℕ) (n bound : ℕ)
    → n < bound
    → All (λ b. b < 256) bs
    → set_bytes n bs < bound * 256 ^ length bs
unfolding set_bytes
set_bytes-lt [] n bound h bytes = omega arith
set_bytes-lt (b ∷ bs) n bound h bytes =
    let e : 256 ^ suc (length bs) ≡ 256 * 256 ^ length bs =
      omega (arith, pow-suc 256 (length bs)) in
    let bounded = set_bytes-lt bs (n * 256 + b) (bound * 256) (omega arith) bytes.1 in
    rw e (omega (arith, bounded))

set_bytes-injective :
    (n m : ℕ) (bs cs : List ℕ)
    → length bs ≡ length cs
    → All (λ b. b < 256) bs
    → All (λ b. b < 256) cs
    → set_bytes n bs ≡ set_bytes m cs
    → (n ≡ m) × (bs ≡ cs)
unfolding set_bytes
set_bytes-injective n m [] [] e hb hc h = (h, refl)
set_bytes-injective n m [] (c ∷ cs) e hb hc h = absurd (omega arith)
set_bytes-injective n m (b ∷ bs) [] e hb hc h = absurd (omega arith)
set_bytes-injective n m (b ∷ bs) (c ∷ cs) e hb hc h =
    let (heads, tails) =
      set_bytes-injective (n * 256 + b) (m * 256 + c) bs cs (omega arith) hb.1 hc.1 h in
    (omega arith, ground (arith, tails))

abbrev pub IsRandom : List ℕ → Type 0
IsRandom random = (length random ≡ 10) × All (λ b. b < 256) random

ulid_bytes_range :
    (ms : ℕ) (random : List ℕ)
    → All (λ b. b < 256) random
    → All (λ b. b < 256) (ulid_bytes ms random)
unfolding ulid_bytes
ulid_bytes_range ms random h = ground arith

decode_end : (n : ℕ) → decode (0 * 32 ^ 26 + n) "" ≡ n
unfolding decode
decode_end n = omega arith

decode-new_ulid :
    (ms : ℕ) (random : List ℕ)
    → IsRandom random
    → decode 0 (new_ulid ms random) ≡ set_bytes 0 (ulid_bytes ms random)
unfolding new_ulid
decode-new_ulid ms random h =
    let bytes = ulid_bytes ms random in
    let many : length bytes ≡ 16 = unfold ulid_bytes in omega arith in
    let small = set_bytes-lt bytes 0 1 (omega arith) (ulid_bytes_range ms random h.1) in
    let small' = rw many at small in
    decode-encode 26 (set_bytes 0 bytes) 0 "" (omega arith) ∙ decode_end _

ulid_bytes-injective :
    (ms ms' : ℕ) (random random' : List ℕ)
    → ulid_bytes ms random ≡ ulid_bytes ms' random'
    → (ms % 2 ^ 48 ≡ ms' % 2 ^ 48) × (random ≡ random')
unfolding ulid_bytes
ulid_bytes-injective ms ms' random random' h = ground arith

ulid_bytes_mod : (ms : ℕ) (random : List ℕ) → ulid_bytes ms random ≡ ulid_bytes (ms % 2 ^ 48) random
unfolding ulid_bytes
ulid_bytes_mod ms random = ground arith

length-ulid_bytes : (ms : ℕ) (random : List ℕ) → length (ulid_bytes ms random) ≡ 6 + length random
unfolding ulid_bytes
length-ulid_bytes ms random = omega arith

-- Two identifiers of `newULID`, made with ten random bytes each, are the same text exactly if their
-- times agree modulo 2 ^ 48 milliseconds and their random bytes are the same.
pub new_ulid-injective :
    (ms ms' : ℕ) (random random' : List ℕ)
    → IsRandom random
    → IsRandom random'
    → (new_ulid ms random ≡ new_ulid ms' random')
      ↔ ((ms % 2 ^ 48 ≡ ms' % 2 ^ 48) × (random ≡ random'))
unfolding new_ulid
new_ulid-injective ms ms' random random' h h' = (
  λ e.
      let number =
        sym (decode-new_ulid ms random h) ∙ ap (decode 0) e ∙ decode-new_ulid ms' random' h' in
      let bytes =
        (set_bytes-injective 0 0 (ulid_bytes ms random) (ulid_bytes ms' random')
          (omega (arith, length-ulid_bytes ms random, length-ulid_bytes ms' random'))
          (ulid_bytes_range ms random h.1) (ulid_bytes_range ms' random' h'.1) number).1 in
      ulid_bytes-injective ms ms' random random' bytes,
  λ e.
      ap (λ (bs : List ℕ). encode 26 (set_bytes 0 bs) "")
        (ulid_bytes_mod ms random
          ∙ cc (ap (λ (x : ℕ). ulid_bytes x random) e.0, ap (ulid_bytes (ms' % 2 ^ 48)) e.1)
          ∙ sym (ulid_bytes_mod ms' random')),
)
