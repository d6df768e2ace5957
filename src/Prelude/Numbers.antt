-- ===== src/Prelude/Numbers.antt =====
-- std::stoul and std::from_chars for unsigned numbers in base 10, as the C++ standard has them:
-- stoul skips white space, takes a sign, reads the longest run of digits and throws without one
-- or past ULONG_MAX; from_chars takes digits alone, and the callers ask that all are read.
use Prim.Native.Nat.{ℕ, zero, suc, ◌+◌, ◌-◌, ◌*◌, ◌/◌, ◌%◌, ◌^◌, ◌<◌}
use mathlib.Core.Path.{◌≡◌, refl, ap, ◌∙◌}
use native.Mathlib.Nat.{pow-suc}
use native.Mathlib.Omega.{arith}
use mathlib.Core.Bool.{Bool, true, false, ◌&&◌, ◌||◌}
use mathlib.Core.List.{[], ◌∷◌}
use mathlib.Core.Option.{Option, none, some}
use weechat_xmpp_improved.Prelude.Tests.{ltb, leb, ◌==◌, if◌then◌else◌}
use weechat_xmpp_improved.Prelude.Chars.{Bytes, is_digit, is_space}

abbrev pub u32_mod : ℕ
u32_mod = 2 ^ 32

abbrev pub u64_mod : ℕ
u64_mod = 2 ^ 64

-- The value of the longest prefix of digits, behind those read into `n`, and the rest.
unfoldable pub read_digits : ℕ → Bytes → ℕ × Bytes
read_digits n [] = (n, [])
read_digits n (c ∷ s) =
    let rest = read_digits (n * 10 + (c - b'0')) s in if is_digit c then rest else (n, c ∷ s)

unfoldable pub skip_space : Bytes → Bytes
skip_space [] = []
skip_space (c ∷ s) = let rest = skip_space s in if is_space c then rest else c ∷ s

-- A minus sign negates in the unsigned type.
unfoldable pub signed_value : Bool → ℕ → Option ℕ
signed_value negative n =
    if ltb n u64_mod then some (if negative then (u64_mod - n) % u64_mod else n) else none

unsigned_digits : Bool → Bytes → Option ℕ
unsigned_digits negative [] = none
unsigned_digits negative (c ∷ s) =
    if is_digit c then signed_value negative (read_digits 0 (c ∷ s)).0 else none

stoul_sign : Bytes → Option ℕ
stoul_sign [] = none
stoul_sign (c ∷ s) =
    if c == b'-'
    then unsigned_digits true s
    else if c == b'+'
    then unsigned_digits false s
    else unsigned_digits false (c ∷ s)

-- `none` is an exception.
unfoldable pub stoul : Bytes → Option ℕ
unfolding stoul_sign unsigned_digits signed_value skip_space
stoul s = stoul_sign (skip_space s)

-- stoul in base 16, with "0x" in front or without.
unfoldable pub hex_value : ℕ → Option ℕ
hex_value c =
    if is_digit c
    then some (c - b'0')
    else if leb b'a' c && leb c b'f'
    then some (c - b'a' + 10)
    else if leb b'A' c && leb c b'F'
    then some (c - b'A' + 10)
    else none

unfoldable pub read_hex : ℕ → Bytes → ℕ
read_hex n [] = n
read_hex n (c ∷ s) = elim (hex_value c) [ none ↦ n | some d ↦ read_hex (n * 16 + d) s ]

starts_hex : Bytes → Bool
starts_hex [] = false
starts_hex (c ∷ s) = elim (hex_value c) [ none ↦ false | some d ↦ true ]

hex_prefix : Bytes → Bytes
hex_prefix (z ∷ x ∷ s) =
    if z == b'0' && (x == b'x' || x == b'X') && starts_hex s then s else z ∷ x ∷ s
hex_prefix s = s

unsigned_hex : Bool → Bytes → Option ℕ
unfolding starts_hex hex_prefix
unsigned_hex negative s =
    if starts_hex s then signed_value negative (read_hex 0 (hex_prefix s)) else none

hex_sign : Bytes → Option ℕ
hex_sign [] = none
hex_sign (c ∷ s) =
    if c == b'-'
    then unsigned_hex true s
    else if c == b'+'
    then unsigned_hex false s
    else unsigned_hex false (c ∷ s)

unfoldable pub stoul_hex : Bytes → Option ℕ
unfolding hex_sign unsigned_hex starts_hex hex_prefix skip_space
stoul_hex s = hex_sign (skip_space s)

unfoldable pub print_digits : ℕ → ℕ → Bytes → Bytes
print_digits zero n out = out
print_digits (suc f) n out =
    let rest = print_digits f (n / 10) ((b'0' + n % 10) ∷ out) in
    if ltb n 10 then (b'0' + n % 10) ∷ out else rest

-- std::to_string of an unsigned number below 2 ^ 64, which has at most twenty digits.
unfoldable pub to_string : ℕ → Bytes
to_string n = print_digits 20 n []

read_digits-print_digits :
    (f n : ℕ) (out : Bytes)
    → n < 10 ^ suc f
    → read_digits 0 (print_digits (suc f) n out) ≡ read_digits n out
unfolding read_digits print_digits
read_digits-print_digits zero n out h = ground arith
read_digits-print_digits (suc f) n out h =
    let h' : n < 10 ^ suc f * 10 = rw pow-suc at h in
    ground (arith, read_digits-print_digits f (n / 10) ((b'0' + n % 10) ∷ out))

pub read_digits-to_string : (n : ℕ) → n < u64_mod → read_digits 0 (to_string n) ≡ (n, [])
unfolding to_string
read_digits-to_string n h =
    read_digits-print_digits 19 n [] (omega arith) ∙ unfold read_digits in refl

abbrev pub DigitHead : Bytes → Type 0
DigitHead [] = ⊥
DigitHead (c ∷ s) = is_digit c ≡ true

print_digits_head : (f n : ℕ) (out : Bytes) → DigitHead (print_digits (suc f) n out)
unfolding print_digits
print_digits_head zero n out = ground arith
print_digits_head (suc f) n out =
    ground (arith, print_digits_head f (n / 10) ((b'0' + n % 10) ∷ out))

stoul_digits :
    (s : Bytes) → DigitHead s → (read_digits 0 s).0 < u64_mod → stoul s ≡ some (read_digits 0 s).0
unfolding stoul is_space
stoul_digits [] h fits = absurd h
stoul_digits (c ∷ s) h fits = ground arith

pub to_string-DigitHead : (n : ℕ) → DigitHead (to_string n)
unfolding to_string
to_string-DigitHead n = print_digits_head 19 n []

-- What std::to_string prints, stoul reads back.
pub stoul-to_string : (n : ℕ) → n < u64_mod → stoul (to_string n) ≡ some n
stoul-to_string n h =
    let e = read_digits-to_string n h in
    stoul_digits (to_string n) (to_string-DigitHead n) (rw e h) ∙ ap (λ p. some p.0) e
