-- ===== src/Base/Texts.antt =====
-- Texts as lists of code points, with the functions of Go's `strings` that the program calls on
-- them: `Split`, `HasPrefix`, `HasSuffix`, `ContainsRune`, `TrimPrefix` and `Join`.
use Prim.Native.Nat.{ℕ}
use Prim.Native.String.{String}
use Prim.Native.Char.{code}
use mathlib.Core.Path.{◌≡◌, refl, ap}
use mathlib.Core.Bool.{Bool, true, false, ◌&&◌, ◌||◌}
use mathlib.Core.Logic.{◌↔◌, inl, inr}
use mathlib.Core.List.{List, [], ◌∷◌, ◌++◌}
use native.Mathlib.Omega.{arith}
use backupchief_agent.Base.Tests.{◌==◌, if◌then◌else◌, Bool-cases}

abbrev pub Text : Type 0
Text = List ℕ

-- The code points of a literal.
abbrev pub chars : String → Text
chars String.[] = []
chars (String.◌∷◌ c s) = code c ∷ chars s

abbrev pub is_blank : Text → Bool
is_blank [] = true
is_blank (c ∷ cs) = false

unfoldable pub same_text : Text → Text → Bool
same_text [] [] = true
same_text [] (d ∷ ds) = false
same_text (c ∷ cs) [] = false
same_text (c ∷ cs) (d ∷ ds) = c == d && same_text cs ds

pub same_text_iff : (s t : Text) → (same_text s t ≡ true) ↔ (s ≡ t)
unfolding same_text
same_text_iff [] [] = (λ h. refl, λ h. refl)
same_text_iff [] (d ∷ ds) = (λ h. cc, λ h. cc)
same_text_iff (c ∷ cs) [] = (λ h. cc, λ h. cc)
same_text_iff (c ∷ cs) (d ∷ ds) =
    let ih = same_text_iff cs ds in (λ h. ground (arith, ih), λ h. ground (arith, ih))

pub same_text_refl : (s : Text) → same_text s s ≡ true
same_text_refl s = (same_text_iff s s).1 refl

-- `ContainsRune`.
unfoldable pub has_char : ℕ → Text → Bool
has_char c [] = false
has_char c (d ∷ ds) = c == d || has_char c ds

pub has_char-append : (c : ℕ) (s t : Text) → has_char c (s ++ t) ≡ (has_char c s || has_char c t)
unfolding has_char
has_char-append c [] t = refl
has_char-append c (d ∷ ds) t = ground (arith, has_char-append c ds t)

unfoldable pub has_prefix : Text → Text → Bool
has_prefix s [] = true
has_prefix [] (c ∷ cs) = false
has_prefix (d ∷ ds) (c ∷ cs) = d == c && has_prefix ds cs

-- `HasSuffix` with one character.
unfoldable pub ends_with : ℕ → Text → Bool
ends_with c [] = false
ends_with c (d ∷ []) = d == c
ends_with c (d ∷ e ∷ s) = ends_with c (e ∷ s)

-- `TrimPrefix` with one character.
unfoldable pub trim_first : ℕ → Text → Text
trim_first c [] = []
trim_first c (d ∷ ds) = if d == c then ds else d ∷ ds

-- Whether a character stands twice in a row.
unfoldable pub has_double : ℕ → Text → Bool
has_double c [] = false
has_double c (d ∷ []) = false
has_double c (d ∷ e ∷ s) = (d == c && e == c) || has_double c (e ∷ s)

unfoldable pub onto_first : ℕ → List Text → List Text
onto_first c [] = (c ∷ []) ∷ []
onto_first c (p ∷ ps) = (c ∷ p) ∷ ps

-- `Split` at one character: one part at least.
unfoldable pub split : ℕ → Text → List Text
unfolding onto_first
split sep [] = [] ∷ []
split sep (c ∷ cs) = let rest = split sep cs in if c == sep then [] ∷ rest else onto_first c rest

-- `Join` with one character.
unfoldable pub join : ℕ → List Text → Text
join sep [] = []
join sep (p ∷ []) = p
join sep (p ∷ q ∷ ps) = p ++ sep ∷ join sep (q ∷ ps)

module _ {ℓ} {A : Type ℓ} where
  unfoldable pub all : (A → Bool) → List A → Bool
  all test [] = true
  all test (x ∷ xs) = test x && all test xs

  pub all-append :
      (test : A → Bool) (xs ys : List A) → all test (xs ++ ys) ≡ (all test xs && all test ys)
  unfolding all
  all-append test [] ys = refl
  all-append test (x ∷ xs) ys = ground (arith, all-append test xs ys)

pub split_parts : (sep : ℕ) (s : Text) → (p : Text) × (ps : List Text) × (split sep s ≡ p ∷ ps)
unfolding split
split_parts sep [] = ([], [], refl)
split_parts sep (c ∷ cs) =
    let (p, ps, e) = split_parts sep cs in
    elim (Bool-cases (c == sep)) [
      | inl same ↦ ([], split sep cs, rw same)
      | inr other ↦ (c ∷ p, ps, rw (other, e))
    ]

onto_first-append :
    (c : ℕ) (p : Text) (ps qs : List Text)
    → onto_first c ((p ∷ ps) ++ qs) ≡ onto_first c (p ∷ ps) ++ qs
unfolding onto_first
onto_first-append c p ps qs = refl

pub split-append : (sep : ℕ) (s t : Text) → split sep (s ++ sep ∷ t) ≡ split sep s ++ split sep t
unfolding split
split-append sep [] t = ground arith
split-append sep (c ∷ cs) t =
    let (p, ps, e) = split_parts sep cs in
    elim (Bool-cases (c == sep)) [
      | inl same ↦ rw same (ap (λ (x : List Text). [] ∷ x) (split-append sep cs t))
      | inr other ↦ rw other (rw (split-append sep cs t, e) refl)
    ]
