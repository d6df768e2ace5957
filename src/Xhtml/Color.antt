-- ===== src/Xhtml/Color.antt =====
-- css_color_to_weechat: a CSS colour as a colour of WeeChat.
use weechat_xmpp_improved.Prelude.{
  ℕ, ◌*◌, ◌%◌, ◌≡◌, ◌↔◌, ◌⊎◌, inl, inr, refl, ap, ◌∙◌, Bool, ◌&&◌, ◌||◌, Option, none, some, List,
  [], ◌∷◌, String, Bytes, codes, lower, bytes_eq, ltb, leb, ◌==◌, if◌then◌else◌, length, take, drop,
  u32_mod, stoul_hex, arith, Bool-cases, Option-cases,
}

unfoldable pub is_gap : ℕ → Bool
is_gap c = c == b' ' || c == b'\t'

unfoldable pub skip_gap : Bytes → Bytes
skip_gap [] = []
skip_gap (c ∷ s) = let rest = skip_gap s in if is_gap c then rest else c ∷ s

unfoldable pub drop_gap : Bytes → Bytes
drop_gap [] = []
drop_gap (c ∷ s) = elim (drop_gap s) [
  | [] ↦ if is_gap c then [] else c ∷ []
  | d ∷ rest ↦ c ∷ d ∷ rest
]

-- Blanks and tabs cut at both ends.
abbrev pub trim : Bytes → Bytes
trim s = drop_gap (skip_gap s)

abbrev k_color_table : List (Bytes × String)
k_color_table =
    (codes "black", "black")
    ∷ (codes "white", "white")
    ∷ (codes "red", "red")
    ∷ (codes "green", "green")
    ∷ (codes "blue", "blue")
    ∷ (codes "yellow", "yellow")
    ∷ (codes "cyan", "cyan")
    ∷ (codes "magenta", "magenta")
    ∷ (codes "orange", "214")
    ∷ (codes "gray", "gray")
    ∷ (codes "grey", "gray")
    ∷ (codes "darkgray", "darkgray")
    ∷ (codes "darkgrey", "darkgray")
    ∷ (codes "purple", "magenta")
    ∷ (codes "pink", "213")
    ∷ (codes "brown", "130")
    ∷ (codes "lime", "46")
    ∷ (codes "teal", "30")
    ∷ (codes "navy", "18")
    ∷ (codes "silver", "250")
    ∷ []

unfoldable pub in_table : Bytes → List (Bytes × String) → Option String
in_table lc [] = none
in_table lc ((name, wc) ∷ table) = if bytes_eq name lc then some wc else in_table lc table

-- The nearest of a few colours; the empty name if none fits.
unfoldable pub bucket : ℕ → ℕ → ℕ → String
bucket r g b =
    if ltb 200 r && ltb g 100 && ltb b 100
    then "red"
    else if ltb r 100 && ltb 150 g && ltb b 100
    then "green"
    else if ltb r 100 && ltb g 100 && ltb 150 b
    then "blue"
    else if ltb 150 r && ltb 150 g && ltb b 100
    then "yellow"
    else if ltb r 100 && ltb 150 g && ltb 150 b
    then "cyan"
    else if ltb 150 r && ltb g 100 && ltb 150 b
    then "magenta"
    else if ltb 180 r && ltb 120 g && ltb b 80
    then "214"
    else if ltb 180 r && ltb 180 g && ltb 180 b
    then "white"
    else if ltb r 80 && ltb g 80 && ltb b 80
    then "black"
    else if ltb 100 r && ltb 100 g && ltb 100 b
    then "gray"
    else ""

-- A channel: stoul in base 16, times `scale`, as an unsigned int; `none` is its exception.
unfoldable pub channel : ℕ → Bytes → Option ℕ
channel scale digits = elim (stoul_hex digits) [ none ↦ none | some n ↦ some (n * scale % u32_mod) ]

-- Three channels of `size` digits each.
unfoldable pub channels : ℕ → ℕ → Bytes → Option String
channels size scale s = elim (channel scale (take size s)) [
  | none ↦ none
  | some r ↦ elim (channel scale (take size (drop size s))) [
    | none ↦ none
    | some g ↦ elim (channel scale (take size (drop size (drop size s)))) [
      | none ↦ none
      | some b ↦ some (bucket r g b)
    ]
  ]
]

unfoldable pub numbered : Bytes → Option String
numbered [] = some ""
numbered (c ∷ s) =
    if leb 3 (length s) && c == b'#'
    then (if length s == 6
        then channels 2 1 s
        else if length s == 3
        then channels 1 17 s
        else some (bucket 0 0 0))
    else some ""

-- `none` is an exception that leaves the function.
unfoldable pub css_color_to_weechat : Bytes → Option String
css_color_to_weechat css = elim (in_table (trim (lower css)) k_color_table) [
  | some wc ↦ some wc
  | none ↦ numbered (trim (lower css))
]

-- One of three parts of `size` characters is no number in base 16.
abbrev pub Unreadable : ℕ → Bytes → Type 0
Unreadable size s =
    (stoul_hex (take size s) ≡ none)
    ⊎ ((stoul_hex (take size (drop size s)) ≡ none)
        ⊎ (stoul_hex (take size (drop size (drop size s))) ≡ none))

channels-none : (size scale : ℕ) (s : Bytes) → (channels size scale s ≡ none) ↔ Unreadable size s
unfolding channels channel
channels-none size scale s = ground arith

-- The colours that throw: "#" with three or six characters that are not all digits in base 16.
abbrev pub Throws : Bytes → Type 0
Throws lc =
    (s : Bytes) × (lc ≡ b'#' ∷ s)
    × (((length s ≡ 6) × Unreadable 2 s) ⊎ ((length s ≡ 3) × Unreadable 1 s))

numbered-Throws : (lc : Bytes) → numbered lc ≡ none → Throws lc
unfolding numbered
numbered-Throws [] e = absurd (ground arith)
numbered-Throws (c ∷ s) e = elim (Bool-cases (length s == 6)) [
  | inl six ↦ (s, ground arith, inl (ground arith, (channels-none 2 1 s).0 (ground arith)))
  | inr other ↦ (s, ground arith, inr (ground arith, (channels-none 1 17 s).0 (ground arith)))
]

number_sign : (s : Bytes) → in_table (b'#' ∷ s) k_color_table ≡ none
unfolding in_table
number_sign s = refl

Throws-numbered : (s : Bytes) → Throws (b'#' ∷ s) → numbered (b'#' ∷ s) ≡ none
unfolding numbered
Throws-numbered s (t, e, inl (six, bad)) =
    let same : s ≡ t = ground arith in
    ground (arith, (channels-none 2 1 t).1 bad, same, ap length same)
Throws-numbered s (t, e, inr (three, bad)) =
    let same : s ≡ t = ground arith in
    ground (arith, (channels-none 1 17 t).1 bad, same, ap length same)

-- A colour throws exactly if it is, without the blanks around it, a "#" with three or six
-- characters which are not all read as numbers in base 16.
pub css_color_to_weechat-Throws :
    (css : Bytes) → (css_color_to_weechat css ≡ none) ↔ Throws (trim (lower css))
unfolding css_color_to_weechat in_table
css_color_to_weechat-Throws css = (forth (trim (lower css)), back (trim (lower css)))
  where
    Colored : Bytes → Option String
    Colored lc = elim (in_table lc k_color_table) [ some wc ↦ some wc | none ↦ numbered lc ]

    forth : (lc : Bytes) → Colored lc ≡ none → Throws lc
    forth lc e = elim (Option-cases (in_table lc k_color_table)) [
      | inl q ↦ numbered-Throws lc (ground arith)
      | inr (wc, q) ↦ absurd (ground arith)
    ]

    back : (lc : Bytes) → Throws lc → Colored lc ≡ none
    back lc (s, e, t) = ap Colored e ∙ Throws-numbered s (s, refl, t)
