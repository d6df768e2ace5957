-- ===== src/Styling/Relation.antt =====
-- What a styled text may be: the text with colour codes put in, one style at a time, and with
-- nothing dropped but the markers of spans that close on their line and those of code blocks.
use weechat_xmpp_improved.Prelude.{
  ℕ, ◌<◌, ◌≡◌, ◌≢◌, refl, sym, ap, ◌∙◌, Bool, true, false, Option, some, [], ◌∷◌, ◌++◌, String,
  Bytes, length, length-append, All, arith,
}
use mathlib.Core.Path.{ap₂, subst}
use weechat_xmpp_improved.Styling.{
  Style, Span, style_of, until, ends_span, is_newline, end_or, closes, span_at, inline_span,
}

pub data Region : Type 0 where
  outside quote block : Region
  span : ℕ → Style → Region

abbrev pub ticks : Bytes → Bytes
ticks s = b'`' ∷ b'`' ∷ b'`' ∷ s

pub data Styled (color : String → Bytes) : Region → Bytes → Bytes → Type 0 where
  done : Styled color outside [] []
  -- A code block that is never closed runs to the end of the text.
  unclosed : Styled color block [] []
  keep : (c : ℕ) {s r : Bytes} → Styled color outside s r → Styled color outside (c ∷ s) (c ∷ r)
  keep_block : (c : ℕ) {s r : Bytes} → Styled color block s r → Styled color block (c ∷ s) (c ∷ r)
  keep_quote :
      (c : ℕ) {s r : Bytes}
      → c ≢ b'\n'
      → Styled color quote s r
      → Styled color quote (c ∷ s) (c ∷ r)
  keep_span :
      (c : ℕ) {m : ℕ} {st : Style} {s r : Bytes}
      → c ≢ m
      → c ≢ b'\n'
      → Styled color (span m st) s r
      → Styled color (span m st) (c ∷ s) (c ∷ r)
  open_block :
      {s r : Bytes} → Styled color block s r → Styled color outside (ticks s) (color "gray" ++ r)
  close_block :
      {s r : Bytes}
      → Styled color outside s r
      → Styled color block (ticks s) (color "resetcolor" ++ r)
  open_quote :
      {s r : Bytes}
      → Styled color quote s r
      → Styled color outside (b'>' ∷ s) (color "green" ++ (b'>' ∷ r))
  -- A quote ends with its line.
  close_quote :
      {s r : Bytes}
      → end_or is_newline s ≡ true
      → Styled color outside s r
      → Styled color quote s (color "resetcolor" ++ r)
  open_span :
      (m : ℕ) {st : Style} {s r : Bytes}
      → style_of m ≡ some st
      → Styled color (span m st) s r
      → Styled color outside (m ∷ s) (color st.opening ++ r)
  close_span :
      (m : ℕ) {st : Style} {s r : Bytes}
      → Styled color outside s r
      → Styled color (span m st) (m ∷ s) (color st.closing ++ r)

pub until_append : (stop : ℕ → Bool) (s : Bytes) → s ≡ (until stop s).0 ++ (until stop s).1
unfolding until
until_append stop [] = refl
until_append stop (c ∷ s) = ground (arith, until_append stop s)

pub until_none : (stop : ℕ → Bool) (s : Bytes) → All (λ c. stop c ≡ false) (until stop s).0
unfolding until
until_none stop [] = tt
until_none stop (c ∷ s) = ground (arith, until_none stop s)

pub until_end : (stop : ℕ → Bool) (s : Bytes) → end_or stop (until stop s).1 ≡ true
unfolding until
until_end stop [] = refl
until_end stop (c ∷ s) = ground (arith, until_end stop s)

-- A span that is found: its marker has the style, and the text is the inner part, the marker
-- again and what follows, with neither the marker nor a newline in the inner part.
pub record IsSpan (ch : ℕ) (rest : Bytes) (sp : Span) : Type 0 where
  pub styled : style_of ch ≡ some sp.style
  pub splits : rest ≡ sp.inner ++ (ch ∷ sp.after)
  pub inside : All (λ c. ends_span ch c ≡ false) sp.inner

closes_cons :
    (ch : ℕ) (st : Style) (inner tail after : Bytes)
    → closes ch st inner tail ≡ some after
    → tail ≡ ch ∷ after
unfolding closes
closes_cons ch st inner [] after e = cc
closes_cons ch st inner (m ∷ s) after e = ground arith

span_at-parts :
    (ch : ℕ) (rest : Bytes) (sp : Span)
    → span_at ch rest ≡ some sp
    → (style_of ch ≡ some sp.style)
      × (sp.inner ≡ (until (ends_span ch) rest).0)
      × ((until (ends_span ch) rest).1 ≡ ch ∷ sp.after)
unfolding span_at
span_at-parts ch rest sp e =
    ground (arith, closes_cons ch sp.style sp.inner (until (ends_span ch) rest).1 sp.after)

span_at-IsSpan : (ch : ℕ) (rest : Bytes) (sp : Span) → span_at ch rest ≡ some sp → IsSpan ch rest sp
span_at-IsSpan ch rest sp e =
    let (styled, inner, tail) = span_at-parts ch rest sp e in
    record {
      styled = styled;
      splits = until_append (ends_span ch) rest ∙ ap₂ ◌++◌ (sym inner) tail;
      inside =
          subst (All (λ c. ends_span ch c ≡ false)) (sym inner) (until_none (ends_span ch) rest);
    }

pub inline_span-IsSpan :
    (prev : Option ℕ) (ch : ℕ) (rest : Bytes) (sp : Span)
    → inline_span prev ch rest ≡ some sp
    → IsSpan ch rest sp
unfolding inline_span
inline_span-IsSpan prev ch [] sp e = cc
inline_span-IsSpan prev ch (d ∷ rest) sp e = ground (arith, span_at-IsSpan ch (d ∷ rest) sp)

pub length-IsSpan :
    {ch : ℕ} {rest : Bytes} {sp : Span} → IsSpan ch rest sp → length sp.after < length rest
length-IsSpan {ch} {rest} {sp} h =
    omega (arith, ap length h.splits, length-append sp.inner (ch ∷ sp.after))
