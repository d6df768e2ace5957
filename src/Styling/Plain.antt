-- ===== src/Styling/Plain.antt =====
-- What the styling loop returns on text without markers, on a span and on a code block.
use weechat_xmpp_improved.Prelude.{
  ℕ, zero, suc, ◌≤◌, ◌≡◌, refl, ap, ◌∙◌, Bool, true, false, Option, none, some, [], ◌∷◌, ◌++◌,
  String, Bytes, length, length-append, ◌==◌, All, arith, append_assoc, append-nil, is_space,
}
use weechat_xmpp_improved.Styling.{
  Style, style_of, until, ends_span, end_or, span_at, inline_span, fence, closes, style_loop,
  apply_xep393_styling, starts_quote, round, inline, prepend, last_of, is_boundary,
}
use weechat_xmpp_improved.Styling.Relation.{ticks}

-- Not the marker of a span, and not the one of a quote.
abbrev pub IsPlain : ℕ → Type 0
IsPlain c = (style_of c ≡ none) × ((c == b'>') ≡ false)

style_of-tick : (c : ℕ) → style_of c ≡ none → (c == b'`') ≡ false
unfolding style_of
style_of-tick c e = ground arith

fence_other : (c : ℕ) (s : Bytes) → (c == b'`') ≡ false → fence (c ∷ s) ≡ none
unfolding fence
fence_other c (a ∷ b ∷ s) e = ground arith
fence_other c (a ∷ []) e = refl
fence_other c [] e = refl

inline_span_plain :
    (prev : Option ℕ) (c : ℕ) (s : Bytes) → style_of c ≡ none → inline_span prev c s ≡ none
unfolding inline_span span_at
inline_span_plain prev c [] e = refl
inline_span_plain prev c (d ∷ s) e = ground arith

style_loop_plain :
    (color : String → Bytes) (fuel : ℕ) (prev : Option ℕ) (s : Bytes)
    → All IsPlain s
    → length s ≤ fuel
    → style_loop color fuel false prev s ≡ some s
unfolding style_loop starts_quote
style_loop_plain color zero prev [] h le = refl
style_loop_plain color (suc f) prev [] h le = refl
style_loop_plain color zero prev (c ∷ s) h le = absurd (omega arith)
style_loop_plain color (suc f) prev (c ∷ s) ((p, q), h) le = ground (
  arith,
  fence_other c s (style_of-tick c p),
  inline_span_plain prev c s p,
  style_loop_plain color f (some c) s h (omega arith),
)

-- Text that holds no marker of a span and no ">" is returned as it is.
pub apply_xep393_styling_plain :
    (color : String → Bytes) (s : Bytes) → All IsPlain s → apply_xep393_styling color s ≡ some s
unfolding apply_xep393_styling
apply_xep393_styling_plain color s h = style_loop_plain color (length s) none s h (omega arith)

until_stop :
    (stop : ℕ → Bool) (w : Bytes) (m : ℕ) (s : Bytes)
    → All (λ c. stop c ≡ false) w
    → stop m ≡ true
    → until stop (w ++ (m ∷ s)) ≡ (w, m ∷ s)
unfolding until
until_stop stop [] m s h e = ground arith
until_stop stop (c ∷ w) m s (p, h) e = ground (arith, until_stop stop w m s h e)

span_at_word :
    (m : ℕ) (st : Style) (d : ℕ) (w after : Bytes)
    → style_of m ≡ some st
    → All (λ c. ends_span m c ≡ false) (d ∷ w)
    → is_space (last_of d w) ≡ false
    → end_or is_boundary after ≡ true
    → span_at m ((d ∷ w) ++ (m ∷ after))
      ≡ some (record { style = st; inner = d ∷ w; after = after })
unfolding span_at closes
span_at_word m st d w after e h l b =
    ground (arith, until_stop (ends_span m) (d ∷ w) m after h (ground arith))

fence_span : (m : ℕ) (d : ℕ) (s : Bytes) → ends_span m d ≡ false → fence (m ∷ d ∷ s) ≡ none
unfolding fence
fence_span m d [] e = refl
fence_span m d (c ∷ s) e = ground arith

style_of-quote : (m : ℕ) (st : Style) → style_of m ≡ some st → (m == b'>') ≡ false
unfolding style_of
style_of-quote m st e = ground arith

round_span :
    (color : String → Bytes) (next : Bool → Option ℕ → Bytes → Option Bytes) (m : ℕ) (st : Style)
    (d : ℕ) (w after : Bytes)
    → style_of m ≡ some st
    → All (λ c. ends_span m c ≡ false) (d ∷ w)
    → is_space d ≡ false
    → is_space (last_of d w) ≡ false
    → end_or is_boundary after ≡ true
    → round color next false none m ((d ∷ w) ++ (m ∷ after))
      ≡ prepend (color st.opening ++ ((d ∷ w) ++ color st.closing)) (next false (some m) after)
unfolding round inline inline_span starts_quote
round_span color next m st d w after e h p l b = ground (
  arith,
  fence_span m d (w ++ (m ∷ after)) h.0,
  style_of-quote m st e,
  span_at_word m st d w after e h l b,
)

-- A span at the start of the text, on one line, that begins and ends with no space, and after
-- which there is nothing, a space or punctuation: it is put between the codes of its marker, the
-- markers are dropped, and plain text after it is kept.
pub apply_xep393_styling_span :
    (color : String → Bytes) (m : ℕ) (st : Style) (d : ℕ) (w after : Bytes)
    → style_of m ≡ some st
    → All (λ c. ends_span m c ≡ false) (d ∷ w)
    → is_space d ≡ false
    → is_space (last_of d w) ≡ false
    → end_or is_boundary after ≡ true
    → All IsPlain after
    → apply_xep393_styling color (m ∷ ((d ∷ w) ++ (m ∷ after)))
      ≡ some (color st.opening ++ ((d ∷ w) ++ (color st.closing ++ after)))
unfolding apply_xep393_styling style_loop
apply_xep393_styling_span color m st d w after e h p l b q =
    let fuel = length ((d ∷ w) ++ (m ∷ after)) in
    let enough : length after ≤ fuel = omega (arith, length-append (d ∷ w) (m ∷ after)) in
    round_span color (style_loop color fuel) m st d w after e h p l b
    ∙ ap (prepend _) (style_loop_plain color fuel (some m) after q enough)
    ∙ ap some (
        append_assoc (color st.opening) ((d ∷ w) ++ color st.closing) after
        ∙ ap (◌++◌ (color st.opening)) (append_assoc (d ∷ w) (color st.closing) after))

module _ (color : String → Bytes) where
  style_loop_nil :
      (fuel : ℕ) (pre : Bool) (prev : Option ℕ) → style_loop color fuel pre prev [] ≡ some []
  unfolding style_loop
  style_loop_nil zero pre prev = refl
  style_loop_nil (suc f) pre prev = refl

  style_loop_block :
      (fuel : ℕ) (prev : Option ℕ) (body : Bytes)
      → All (λ c. (c == b'`') ≡ false) body
      → length (body ++ ticks []) ≤ fuel
      → style_loop color fuel true prev (body ++ ticks []) ≡ some (body ++ color "resetcolor")
  unfolding style_loop
  style_loop_block zero prev [] h le = absurd (omega arith)
  style_loop_block (suc f) prev [] h le =
      unfold fence in
      ap (prepend (color "resetcolor")) (style_loop_nil f false (some b'`'))
      ∙ ap some (append-nil (color "resetcolor"))
  style_loop_block zero prev (c ∷ body) h le = absurd (omega arith)
  style_loop_block (suc f) prev (c ∷ body) (p, h) le =
      ground (
        arith,
        fence_other c (body ++ ticks []) p,
        style_loop_block f (some c) body h (omega arith),
      )

  -- A code block whose body holds no "`" is returned as it is between the codes.
  pub apply_xep393_styling_block :
      (body : Bytes)
      → All (λ c. (c == b'`') ≡ false) body
      → apply_xep393_styling color (ticks (body ++ ticks []))
        ≡ some (color "gray" ++ (body ++ color "resetcolor"))
  unfolding apply_xep393_styling style_loop fence
  apply_xep393_styling_block body h =
      let n = length (body ++ ticks []) in
      ap (prepend (color "gray")) (style_loop_block (suc (suc n)) (some b'`') body h (omega arith))
