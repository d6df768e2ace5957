-- ===== src/Markup.antt =====
-- apply_xep394_markup (src/util.cpp): XEP-0394 markup as WeeChat colour codes. The element is what
-- the accessors of libstrophe return; std::sort is a parameter, since it may order equals freely.
pub mod Weave
pub mod Offsets
mod Tests
use weechat_xmpp_improved.Prelude.{
  ℕ, zero, suc, ◌+◌, ◌-◌, ◌^◌, ◌%◌, ◌≤◌, ◌<◌, ◌⊎◌, ◌≡◌, min, Bool, true, false, not, ◌&&◌, ◌||◌,
  Option, none, some, List, [], ◌∷◌, ◌++◌, String, str_eq, Bytes, codes, is_digit, skip_space,
  read_digits, ltb, leb, ◌==◌, if◌then◌else◌, length, take, drop, get_elem?, All,
}

-- A child of a child: its name and its "start".
pub record Item : Type 0 where
  pub name : Option String
  pub start : Option Bytes

pub record Mark : Type 0 where
  pub name : Option String
  pub start : Option Bytes
  pub stop : Option Bytes
  pub items : List Item

pub data Priority : Type 0 where
  bullet opens closes : Priority

unfoldable pub rank : Priority → ℕ
rank bullet = 0
rank opens = 1
rank closes = 2

pub record Event : Type 0 where
  pub byte_off : ℕ
  pub priority : Priority
  pub code : Bytes

-- The bytes of a code point, by its first byte.
unfoldable pub width : ℕ → ℕ
width c =
    if ltb c 128
    then 1
    else if leb 192 c && ltb c 224
    then 2
    else if leb 224 c && ltb c 240
    then 3
    else if leb 240 c && ltb c 248
    then 4
    else 1

-- cp_to_byte, from byte `b` on with `skip` bytes left of a code point.
unfoldable pub cp_table : ℕ → ℕ → Bytes → List ℕ
cp_table b zero [] = b ∷ []
cp_table b (suc skip) [] = []
cp_table b zero (c ∷ s) = b ∷ cp_table (b + 1) (width c - 1) s
cp_table b (suc skip) (c ∷ s) = cp_table (b + 1) skip s

unfoldable pub cp_byte : Bytes → ℕ → ℕ
cp_byte text cp = elim (get_elem? (cp_table 0 0 text) cp) [ none ↦ length text | some b ↦ b ]

-- The number that std::strtol reads in base 10, if there is one and it is not negative; numbers past
-- LONG_MAX are LONG_MAX.
unsigned_long : Bytes → Option ℕ
unsigned_long [] = none
unsigned_long (c ∷ s) =
    if is_digit c then some (min (read_digits 0 (c ∷ s)).0 (2 ^ 63 - 1)) else none

negative_long : Option ℕ → Option ℕ
negative_long none = none
negative_long (some n) = if n == 0 then some 0 else none

signed_long : Bytes → Option ℕ
signed_long [] = none
signed_long (c ∷ s) =
    if c == b'-'
    then negative_long (unsigned_long s)
    else if c == b'+'
    then unsigned_long s
    else unsigned_long (c ∷ s)

-- `none` for a negative value, which the fallback -1 is.
unfoldable pub get_long_attr : Option Bytes → Option ℕ
unfolding signed_long unsigned_long negative_long
get_long_attr none = none
get_long_attr (some v) = signed_long (skip_space v)

-- The range of a mark, if `start >= 0` and `end > start`.
unfoldable pub range : Mark → Option (ℕ × ℕ)
range m = elim (get_long_attr m.start) [
  | none ↦ none
  | some start ↦ elim (get_long_attr m.stop) [
    | none ↦ none
    | some stop ↦ if ltb start stop then some (start, stop) else none
  ]
]

unfoldable pub newlines : ℕ → ℕ → ℕ → Bytes → Bytes → List Event
newlines b sb eb code [] = []
newlines b sb eb code (c ∷ s) =
    let rest = newlines (b + 1) sb eb code s in
    if leb sb b && ltb b eb && c == b'\n' && ltb (b + 1) eb
    then record { byte_off = b + 1; priority = opens; code = code } ∷ rest
    else rest

module _ (color : String → Bytes) where
  -- The codes of a style's name.
  unfoldable pub style_codes : String → Option (Bytes × Bytes)
  style_codes name =
      if str_eq name "emphasis"
      then some (color "italic", color "-italic")
      else if str_eq name "strong"
      then some (color "bold", color "-bold")
      else if str_eq name "code"
      then some (color "cyan", color "resetcolor")
      else if str_eq name "deleted"
      then some (color "8", color "resetcolor")
      else none

  unfoldable pub style_of_item : Option String → Option (Bytes × Bytes)
  style_of_item none = none
  style_of_item (some name) = style_codes name

  -- The first child whose style has a code wins.
  unfoldable pub span_codes : List Item → Option (Bytes × Bytes)
  unfolding style_of_item
  span_codes [] = none
  span_codes (item ∷ items) =
      let later = span_codes items in
      elim (style_of_item item.name) [
        | none ↦ later
        | some cs ↦ if ltb 0 (length cs.0) then some cs else later
      ]

  -- Codes at the start of a range and at its end.
  unfoldable pub enclose : Bytes → ℕ × ℕ → Bytes → Bytes → List Event → List Event
  enclose text (start, stop) opening closing inner =
      record { byte_off = cp_byte text start; priority = opens; code = opening }
      ∷ (inner ++ (record { byte_off = cp_byte text stop; priority = closes; code = closing } ∷ []))

  unfoldable pub span_events : Bytes → List Item → Option (ℕ × ℕ) → List Event
  span_events text items none = []
  span_events text items (some r) = elim (span_codes items) [
    | none ↦ []
    | some (opening, closing) ↦ enclose text r opening closing []
  ]

  unfoldable pub bcode_events : Bytes → Option (ℕ × ℕ) → List Event
  bcode_events text none = []
  bcode_events text (some r) = enclose text r (color "gray") (color "resetcolor") []

  unfoldable pub bquote_events : Bytes → Option (ℕ × ℕ) → List Event
  bquote_events text none = []
  bquote_events text (some (start, stop)) =
      enclose text (start, stop) (color "green") (color "resetcolor")
        (newlines 0 (cp_byte text start) (cp_byte text stop) (color "green") text)

  -- "• " in front of an item.
  unfoldable pub item_events : Bytes → Item → List Event
  item_events text item = elim item.name [
    | none ↦ []
    | some name ↦
        if str_eq name "li"
        then elim (get_long_attr item.start) [
          | none ↦ []
          | some start ↦
              record {
                byte_off = cp_byte text start;
                priority = bullet;
                code = 226 ∷ 128 ∷ 162 ∷ 32 ∷ [];
              }
              ∷ []
        ]
        else []
  ]

  unfoldable pub list_events : Bytes → List Item → List Event
  list_events text [] = []
  list_events text (item ∷ items) = item_events text item ++ list_events text items

  unfoldable pub named_events : Bytes → String → Mark → List Event
  named_events text name m =
      if str_eq name "span"
      then span_events text m.items (range m)
      else if str_eq name "bcode"
      then bcode_events text (range m)
      else if str_eq name "bquote"
      then bquote_events text (range m)
      else if str_eq name "list"
      then list_events text m.items
      else []

  unfoldable pub mark_events : Bytes → Mark → List Event
  unfolding named_events list_events item_events bquote_events bcode_events span_events
  mark_events text m = elim m.name [ none ↦ [] | some name ↦ named_events text name m ]

  unfoldable pub all_events : Bytes → List Mark → List Event
  all_events text [] = []
  all_events text (m ∷ ms) = mark_events text m ++ all_events text ms

-- The loop over the sorted events, with the text put out up to `pos`.
unfoldable pub build : Bytes → ℕ → List Event → Bytes
build text pos [] = drop pos text
build text pos (ev ∷ evs) =
    let stay = ev.code ++ build text pos evs in
    let move =
      take (ev.byte_off - pos) (drop pos text) ++ (ev.code ++ build text ev.byte_off evs) in
    if ltb pos ev.byte_off && leb ev.byte_off (length text) then move else stay

-- The order of the events, by offset and then by priority.
abbrev pub IsBefore : Event → Event → Type 0
IsBefore a b =
    (a.byte_off < b.byte_off) ⊎ ((a.byte_off ≡ b.byte_off) × (rank a.priority ≤ rank b.priority))

abbrev pub Sorted : List Event → Type 0
Sorted [] = Unit {0}
Sorted (e ∷ es) = All (IsBefore e) es × Sorted es

unfoldable pub built : (List Event → List Event) → Bytes → List Event → Bytes
built sort text [] = text
built sort text (e ∷ es) = build text 0 (sort (e ∷ es))

-- `sort` is std::sort.
unfoldable pub apply_xep394_markup :
    (String → Bytes) → (List Event → List Event) → Bytes → Option (List Mark) → Bytes
unfolding built
apply_xep394_markup color sort [] markup = []
apply_xep394_markup color sort (c ∷ s) none = []
apply_xep394_markup color sort (c ∷ s) (some marks) =
    built sort (c ∷ s) (all_events color (c ∷ s) marks)
