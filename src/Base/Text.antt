-- ===== src/Base/Text.antt =====
-- Python's `str`, as far as the scripts use it: `strip`, `lower`, slices, and the character
-- classes of their regular expressions.
use Prim.Native.Nat.{ℕ, zero, suc, ◌-◌, ◌/◌, ◌%◌}
use Prim.Native.Char.{Char, code}
use Prim.Native.String.{String, ◌++◌}
use mathlib.Core.Bool.{Bool, true, false, ◌&&◌, ◌||◌}
use opl_flow.Base.Bools.{leb, eqb, if◌then◌else◌}
use opl_flow.Base.Int.{ℤ, pos, negsuc}

abbrev pub is_digit : ℕ → Bool
is_digit n = leb b'0' n && leb n b'9'

abbrev pub is_lower : ℕ → Bool
is_lower n = leb b'a' n && leb n b'z'

abbrev pub is_upper : ℕ → Bool
is_upper n = leb b'A' n && leb n b'Z'

-- `[a-z0-9]`
unfoldable pub is_slug : ℕ → Bool
is_slug n = is_lower n || is_digit n

-- `[a-z0-9-]`
unfoldable pub is_slug_or_dash : ℕ → Bool
unfolding is_slug
is_slug_or_dash n = is_slug n || eqb n b'-'

-- `[0-9a-f]`
unfoldable pub is_hex : ℕ → Bool
is_hex n = is_digit n || (leb b'a' n && leb n b'f')

-- the characters that `str.strip` removes
unfoldable pub is_space : ℕ → Bool
is_space n =
    (leb 9 n && leb n 13)
    || (leb 28 n && leb n 32)
    || eqb n 133
    || eqb n 160
    || eqb n 5760
    || (leb 8192 n && leb n 8202)
    || (leb 8232 n && leb n 8233)
    || eqb n 8239
    || eqb n 8287
    || eqb n 12288

-- `len(s)`
abbrev pub chars : String → ℕ
chars String.[] = 0
chars (String.◌∷◌ c s) = suc (chars s)

abbrev pub all_chars : (ℕ → Bool) → String → Bool
all_chars p String.[] = true
all_chars p (String.◌∷◌ c s) = p (code c) && all_chars p s

abbrev pub any_char : (ℕ → Bool) → String → Bool
any_char p String.[] = false
any_char p (String.◌∷◌ c s) = p (code c) || any_char p s

abbrev pub is_empty_text : String → Bool
is_empty_text String.[] = true
is_empty_text (String.◌∷◌ c s) = false

-- the last character, if there is one, is in the class
abbrev pub ends_in : (ℕ → Bool) → String → Bool
ends_in p String.[] = false
ends_in p (String.◌∷◌ c String.[]) = p (code c)
ends_in p (String.◌∷◌ c (String.◌∷◌ d s)) = ends_in p (String.◌∷◌ d s)

-- `s.lstrip(class)`
unfoldable pub lstrip : (ℕ → Bool) → String → String
lstrip p String.[] = String.[]
lstrip p (String.◌∷◌ c s) = if p (code c) then lstrip p s else String.◌∷◌ c s

abbrev rstrip_cons : (ℕ → Bool) → Char → String → String
rstrip_cons p c String.[] = if p (code c) then String.[] else String.◌∷◌ c String.[]
rstrip_cons p c (String.◌∷◌ d s) = String.◌∷◌ c (String.◌∷◌ d s)

-- `s.rstrip(class)`
unfoldable pub rstrip : (ℕ → Bool) → String → String
rstrip p String.[] = String.[]
rstrip p (String.◌∷◌ c s) = rstrip_cons p c (rstrip p s)

unfoldable pub strip : (ℕ → Bool) → String → String
unfolding lstrip rstrip
strip p s = rstrip p (lstrip p s)

-- `not s.strip()`
unfoldable pub is_blank : String → Bool
unfolding is_space
is_blank s = all_chars is_space s

-- `s[:n]`
unfoldable pub take : ℕ → String → String
take zero s = String.[]
take (suc n) String.[] = String.[]
take (suc n) (String.◌∷◌ c s) = String.◌∷◌ c (take n s)

abbrev nth : String → ℕ → Char → Char
nth String.[] n d = d
nth (String.◌∷◌ c s) zero d = c
nth (String.◌∷◌ c s) (suc n) d = nth s n d

-- The lower case of a character, as far as ASCII shows it: U+0130 becomes `i` and a combining dot,
-- U+212A (the Kelvin sign) becomes `k`. Every other character beyond ASCII stays beyond ASCII.
unfoldable pub lower_char : Char → String
lower_char c =
    let n = code c in
    if is_upper n
    then String.◌∷◌ (nth "abcdefghijklmnopqrstuvwxyz" (n - b'A') c) String.[]
    else if eqb n 0x130
    then "i̇"
    else if eqb n 0x212a
    then "k"
    else String.◌∷◌ c String.[]

unfoldable pub lower : String → String
unfolding lower_char
lower String.[] = String.[]
lower (String.◌∷◌ c s) = lower_char c ++ lower s

-- `text in s`, for a text of two equal characters
unfoldable pub has_pair : ℕ → String → Bool
has_pair n String.[] = false
has_pair n (String.◌∷◌ c String.[]) = false
has_pair n (String.◌∷◌ c (String.◌∷◌ d s)) =
    (eqb (code c) n && eqb (code d) n) || has_pair n (String.◌∷◌ d s)

-- `[0-9a-f]{n}`
unfoldable pub is_hex_of : ℕ → String → Bool
unfolding is_hex
is_hex_of n s = all_chars is_hex s && eqb (chars s) n

-- The decimal digits of a number below the fuel, the last one first taken.
unfoldable pub digits_text : ℕ → ℕ → String
digits_text zero n = String.[]
digits_text (suc fuel) n =
    let digit = String.◌∷◌ (nth "0123456789" (n % 10) "0") String.[] in
    let more = digits_text fuel (n / 10) in if leb 10 n then more ++ digit else digit

-- `f"{value}"` of an integer
unfoldable pub int_text : ℤ → String
unfolding digits_text
int_text (pos n) = digits_text (suc n) n
int_text (negsuc n) = "-" ++ digits_text (suc (suc n)) (suc n)

-- `s.startswith(p)`
unfoldable pub starts_with : String → String → Bool
starts_with String.[] s = true
starts_with (String.◌∷◌ c p) String.[] = false
starts_with (String.◌∷◌ c p) (String.◌∷◌ d s) = eqb (code c) (code d) && starts_with p s

-- `p in s`
unfoldable pub contains : String → String → Bool
contains p String.[] = starts_with p String.[]
contains p (String.◌∷◌ c s) = starts_with p (String.◌∷◌ c s) || contains p s
