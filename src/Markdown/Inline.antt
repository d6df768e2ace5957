-- ===== src/Markdown/Inline.antt =====
-- The spans of apply_inline (src/util.cpp) and line ends.
use weechat_xmpp_improved.Prelude.{
  ℕ, zero, suc, ◌-◌, refl, not, ◌&&◌, Option, none, some, [], ◌∷◌, ◌++◌, String, Bytes, codes,
  is_space, cut_at, ◌==◌, if-cases, length,
}
use weechat_xmpp_improved.Markdown.Spans.{
  cut_at_two, bracket, is_marker, is_edge, or_else, image_at, link_at, enclosed, bold_at, strike_at,
  starts_tick, code_at, italic_end, italic_at, span_at, inline, apply_inline,
}
use weechat_xmpp_improved.Markdown.OneLine.{
  IsOneLine, one-append, one_line, Parts, Brackets, cut_at-Parts, cut_at_two-Parts,
  bracket-Brackets, italic_end-Parts,
}

-- What a span shows.
abbrev Shows : Option (Bytes × Bytes) → Type 0
Shows none = Unit {0}
Shows (some (shown, rest)) = IsOneLine shown

or_else-Shows : (a b : Option (Bytes × Bytes)) → Shows a → Shows b → Shows (or_else a b)
unfolding or_else
or_else-Shows none b ha hb = hb
or_else-Shows (some a) b ha hb = ha

module _ (color : String → Bytes) (plain : (name : String) → IsOneLine (color name)) where
  enclosed-Shows :
      (on off : String) (o : Option (Bytes × Bytes)) → Parts o → Shows (enclosed color on off o)
  unfolding enclosed
  enclosed-Shows on off none p = tt
  enclosed-Shows on off (some (inner, rest)) (pi, pr) =
      one-append (color on) (inner ++ color off) (plain on)
        (one-append inner (color off) pi (plain off))

  image_at-Shows : (c : ℕ) (s : Bytes) → IsOneLine s → Shows (image_at color c s)
  unfolding image_at
  image_at-Shows c [] h = tt
  image_at-Shows c (d ∷ s) (hd, h) =
      if-cases Shows (c == b'!' && d == b'[') _ none (λ e. go (bracket s) (bracket-Brackets s h))
        (λ e. tt)
    where
      go :
          (o : Option (Bytes × Bytes × Bytes))
          → Brackets o
          → Shows (elim o [
            | none ↦ none
            | some ([], url, rest) ↦
                some (color "darkgray" ++ (codes "[Image]" ++ color "resetcolor"), rest)
            | some (a ∷ alt, url, rest) ↦ some (
              color "darkgray"
                  ++ (codes "[Image: " ++ ((a ∷ alt) ++ (codes "]" ++ color "resetcolor"))),
              rest,
            )
          ])
      go none b = tt
      go (some ([], url, rest)) b =
          one-append (color "darkgray") (codes "[Image]" ++ color "resetcolor") (plain "darkgray") (
            one-append (codes "[Image]") (color "resetcolor") (one_line (codes "[Image]") refl)
              (plain "resetcolor"))
      go (some (a ∷ alt, url, rest)) (bl, bu) =
          one-append (color "darkgray")
            (codes "[Image: " ++ ((a ∷ alt) ++ (codes "]" ++ color "resetcolor")))
            (plain "darkgray")
            (one-append (codes "[Image: ") ((a ∷ alt) ++ (codes "]" ++ color "resetcolor"))
              (one_line (codes "[Image: ") refl)
              (one-append (a ∷ alt) (codes "]" ++ color "resetcolor") bl (
                one-append (codes "]") (color "resetcolor") (one_line (codes "]") refl)
                  (plain "resetcolor"))))

  link_at-Shows : (c : ℕ) (s : Bytes) → IsOneLine s → Shows (link_at color c s)
  unfolding link_at
  link_at-Shows c s h =
      if-cases Shows (c == b'[') _ none (λ e. go (bracket s) (bracket-Brackets s h)) (λ e. tt)
    where
      go :
          (o : Option (Bytes × Bytes × Bytes))
          → Brackets o
          → Shows (elim o [
            | none ↦ none
            | some (label, url, rest) ↦ some (
              label ++ (codes " (" ++ (color "blue" ++ (url ++ (color "resetcolor" ++ codes ")")))),
              rest,
            )
          ])
      go none b = tt
      go (some (label, url, rest)) (bl, bu) = one-append label _ bl (
          one-append (codes " (") _ (one_line (codes " (") refl) (
            one-append (color "blue") _ (plain "blue") (
              one-append url _ bu (
                one-append (color "resetcolor") (codes ")") (plain "resetcolor")
                  (one_line (codes ")") refl)))))

  bold_at-Shows : (c : ℕ) (s : Bytes) → IsOneLine s → Shows (bold_at color c s)
  unfolding bold_at
  bold_at-Shows c [] h = tt
  bold_at-Shows c (d ∷ s) (hd, h) =
      if-cases Shows (is_marker c && d == c) _ none
        (λ e. enclosed-Shows "bold" "-bold" (cut_at_two c s) (cut_at_two-Parts c s h)) (λ e. tt)

  strike_at-Shows : (c : ℕ) (s : Bytes) → IsOneLine s → Shows (strike_at color c s)
  unfolding strike_at
  strike_at-Shows c [] h = tt
  strike_at-Shows c (d ∷ s) (hd, h) =
      if-cases Shows (c == b'~' && d == b'~') _ none
        (λ e.
          enclosed-Shows "darkgray" "resetcolor" (cut_at_two b'~' s) (cut_at_two-Parts b'~' s h))
        (λ e. tt)

  code_at-Shows : (c : ℕ) (s : Bytes) → IsOneLine s → Shows (code_at color c s)
  unfolding code_at
  code_at-Shows c s h =
      if-cases Shows (c == b'`' && not (starts_tick s)) _ none
        (λ e. enclosed-Shows "gray" "resetcolor" (cut_at b'`' s) (cut_at-Parts b'`' s h)) (λ e. tt)

  italic_at-Shows :
      (prev : Option ℕ) (c : ℕ) (s : Bytes) → IsOneLine s → Shows (italic_at color prev c s)
  unfolding italic_at
  italic_at-Shows prev c [] h = tt
  italic_at-Shows prev c (d ∷ s) h =
      if-cases Shows (is_marker c && is_edge prev && not (is_space d)) _ none
        (λ e.
          enclosed-Shows "italic" "-italic" (italic_end c (cut_at c (d ∷ s)))
            (italic_end-Parts c (cut_at c (d ∷ s)) (cut_at-Parts c (d ∷ s) h)))
        (λ e. tt)

  span_at-Shows :
      (prev : Option ℕ) (c : ℕ) (s : Bytes) → IsOneLine s → Shows (span_at color prev c s)
  unfolding span_at
  span_at-Shows prev c s h = or_else-Shows (image_at color c s) _ (image_at-Shows c s h) (
      or_else-Shows (link_at color c s) _ (link_at-Shows c s h) (
        or_else-Shows (bold_at color c s) _ (bold_at-Shows c s h) (
          or_else-Shows (strike_at color c s) _ (strike_at-Shows c s h) (
            or_else-Shows (code_at color c s) (italic_at color prev c s) (code_at-Shows c s h)
              (italic_at-Shows prev c s h)))))

  inline-IsOneLine :
      (prev : Option ℕ) (skip : ℕ) (s : Bytes) → IsOneLine s → IsOneLine (inline color prev skip s)
  unfolding inline
  inline-IsOneLine prev skip [] h = tt
  inline-IsOneLine prev (suc skip) (c ∷ s) (hc, h) = inline-IsOneLine (some c) skip s h
  inline-IsOneLine prev zero (c ∷ s) (hc, h) =
      go (λ k. inline-IsOneLine (some c) k s h) (span_at color prev c s) (span_at-Shows prev c s h)
    where
      go :
          ((k : ℕ) → IsOneLine (inline color (some c) k s))
          → (o : Option (Bytes × Bytes)) → Shows o
          → IsOneLine (elim o [
            | none ↦ c ∷ inline color (some c) 0 s
            | some (shown, rest) ↦ shown ++ inline color (some c) (length s - length rest) s
          ])
      go ih none p = (hc, ih 0)
      go ih (some (shown, rest)) p = one-append shown _ p (ih (length s - length rest))

  pub apply_inline-IsOneLine : (s : Bytes) → IsOneLine s → IsOneLine (apply_inline color s)
  unfolding apply_inline
  apply_inline-IsOneLine s h = inline-IsOneLine none 0 s h
