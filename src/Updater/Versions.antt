-- ===== src/Updater/Versions.antt =====
-- `compareVersions` of updater/updater.go, with what it uses of Go's `strconv.Atoi`.
use backupchief_agent.Base.{
  ℕ, zero, suc, ◌+◌, ◌-◌, ◌*◌, min, Bool, not, ◌&&◌, List, [], ◌∷◌, Option, none, some, ltb, ◌==◌,
  if◌then◌else◌, Text, split, is_blank, all,
}
use Prim.Native.Nat.{Ordering}
use backupchief_agent.Updater.{is_digit}

digits_value : ℕ → Text → ℕ
digits_value n [] = n
digits_value n (c ∷ cs) = digits_value (n * 10 + (c - b'0')) cs

abbrev is_digits : Text → Bool
is_digits t = not (is_blank t) && all is_digit t

-- The value 0 of `atoi`, which gives an int64 with 2 ^ 63 added, so that the order is the one of ℕ.
abbrev pub atoi_zero : ℕ
atoi_zero = 9223372036854775808

-- A text that is no number is 0, and one out of range is the bound.
unfoldable pub atoi : Text → ℕ
unfolding digits_value
atoi [] = atoi_zero
atoi (c ∷ cs) =
    if c == b'-'
    then (if is_digits cs then atoi_zero - min atoi_zero (digits_value 0 cs) else atoi_zero)
    else (let digits = if c == b'+' then cs else c ∷ cs in
        if is_digits digits
        then atoi_zero + min (atoi_zero - 1) (digits_value 0 digits)
        else atoi_zero)

-- The loop of `compareVersions`; an index out of range panics.
unfoldable pub compare_parts : ℕ → List Text → List Text → Option Ordering
compare_parts zero ls rs = some Ordering.eq
compare_parts (suc n) (l ∷ ls) (r ∷ rs) =
    let rest = compare_parts n ls rs in
    if ltb (atoi l) (atoi r)
    then some Ordering.lt
    else if ltb (atoi r) (atoi l)
    then some Ordering.gt
    else rest
compare_parts (suc n) _ _ = none

-- `compareVersions`.
unfoldable pub compare_versions : Text → Text → Option Ordering
unfolding compare_parts
compare_versions l r = compare_parts 3 (split b'.' l) (split b'.' r)
