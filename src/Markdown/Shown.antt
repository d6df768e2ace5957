-- ===== src/Markdown/Shown.antt =====
-- The kinds of lines of apply_markdown_to_weechat (src/util.cpp) and line ends.
use weechat_xmpp_improved.Prelude.{
  ℕ, zero, suc, refl, Bool, Option, none, some, [], ◌∷◌, ◌++◌, String, Bytes, codes, if◌then◌else◌,
  if-cases, drop,
}
use weechat_xmpp_improved.Markdown.Spans.{apply_inline}
use weechat_xmpp_improved.Markdown.Blocks.{
  skip_blank, is_blank, is_rule, heading, quoted, bulleted, numbered, repeated, language,
  show_fence, show_numbered, show_bulleted, show_quoted, show_heading, show_line,
}
use weechat_xmpp_improved.Markdown.OneLine.{IsOneLine, one-append, one_line}
use weechat_xmpp_improved.Markdown.Inline.{apply_inline-IsOneLine}
use weechat_xmpp_improved.Markdown.Lines.{
  Text?, Item?, heading-Text?, quoted-Text?, bulleted-Text?, numbered-Item?,
}

-- Blanks in front go, and the first bytes too.
skip_blank-IsOneLine : (s : Bytes) → IsOneLine s → IsOneLine (skip_blank s)
unfolding skip_blank
skip_blank-IsOneLine [] h = tt
skip_blank-IsOneLine (c ∷ s) (hc, h) =
    if-cases IsOneLine (is_blank c) (skip_blank s) (c ∷ s) (λ e. skip_blank-IsOneLine s h)
      (λ e. (hc, h))

drop-IsOneLine : (n : ℕ) (s : Bytes) → IsOneLine s → IsOneLine (drop n s)
drop-IsOneLine zero s h = h
drop-IsOneLine (suc n) [] h = tt
drop-IsOneLine (suc n) (c ∷ s) (hc, h) = drop-IsOneLine n s h

repeated-IsOneLine : (n : ℕ) (s : Bytes) → IsOneLine s → IsOneLine (repeated n s)
unfolding repeated
repeated-IsOneLine zero s h = tt
repeated-IsOneLine (suc n) s h = one-append s (repeated n s) h (repeated-IsOneLine n s h)

module _ (color : String → Bytes) (plain : (name : String) → IsOneLine (color name)) where
  pub show_fence-IsOneLine : (b : Bool) (s : Bytes) → IsOneLine s → IsOneLine (show_fence color b s)
  unfolding show_fence language
  show_fence-IsOneLine b s h =
      go (if b then "resetcolor" else "gray") (skip_blank (drop 3 s))
        (skip_blank-IsOneLine (drop 3 s) (drop-IsOneLine 3 s h))
    where
      go : (now : String) (l : Bytes) → IsOneLine l → IsOneLine (color now ++ language color now l)
      go now [] p = one-append (color now) [] (plain now) tt
      go now (c ∷ l) p =
          one-append (color now)
            (color "darkgray" ++ (codes "[" ++ ((c ∷ l) ++ (codes "]" ++ color now)))) (plain now)
            (one-append (color "darkgray") (codes "[" ++ ((c ∷ l) ++ (codes "]" ++ color now)))
              (plain "darkgray")
              (one-append (codes "[") ((c ∷ l) ++ (codes "]" ++ color now))
                (one_line (codes "[") refl)
                (one-append (c ∷ l) (codes "]" ++ color now) p
                  (one-append (codes "]") (color now) (one_line (codes "]") refl) (plain now)))))

  show_numbered-IsOneLine :
      (s : Bytes) (o : Option (Bytes × Bytes))
      → IsOneLine s
      → Item? o
      → IsOneLine (show_numbered color s o)
  unfolding show_numbered
  show_numbered-IsOneLine s none h p = apply_inline-IsOneLine color plain s h
  show_numbered-IsOneLine s (some (number, text)) h (pn, pt) =
      one-append number (codes ". " ++ apply_inline color text) pn (
        one-append (codes ". ") (apply_inline color text) (one_line (codes ". ") refl)
          (apply_inline-IsOneLine color plain text pt))

  show_bulleted-IsOneLine :
      (s : Bytes) (o : Option Bytes) → IsOneLine s → Text? o → IsOneLine (show_bulleted color s o)
  unfolding show_bulleted
  show_bulleted-IsOneLine s none h p = show_numbered-IsOneLine s (numbered s) h (numbered-Item? s h)
  show_bulleted-IsOneLine s (some text) h p =
      one-append (226 ∷ 128 ∷ 162 ∷ 32 ∷ []) (apply_inline color text)
        (one_line (226 ∷ 128 ∷ 162 ∷ 32 ∷ []) refl) (apply_inline-IsOneLine color plain text p)

  show_quoted-IsOneLine :
      (s : Bytes) (o : Option Bytes) → IsOneLine s → Text? o → IsOneLine (show_quoted color s o)
  unfolding show_quoted
  show_quoted-IsOneLine s none h p = show_bulleted-IsOneLine s (bulleted s) h (bulleted-Text? s h)
  show_quoted-IsOneLine s (some inner) h p =
      one-append (color "green") (codes "> " ++ (color "resetcolor" ++ apply_inline color inner))
        (plain "green")
        (one-append (codes "> ") (color "resetcolor" ++ apply_inline color inner)
          (one_line (codes "> ") refl)
          (one-append (color "resetcolor") (apply_inline color inner) (plain "resetcolor")
            (apply_inline-IsOneLine color plain inner p)))

  show_heading-IsOneLine :
      (s : Bytes) (o : Option Bytes) → IsOneLine s → Text? o → IsOneLine (show_heading color s o)
  unfolding show_heading
  show_heading-IsOneLine s none h p = show_quoted-IsOneLine s (quoted s) h (quoted-Text? s h)
  show_heading-IsOneLine s (some text) h p =
      one-append (color "bold") (apply_inline color text ++ color "-bold") (plain "bold") (
        one-append (apply_inline color text) (color "-bold")
          (apply_inline-IsOneLine color plain text p) (plain "-bold"))

  pub show_line-IsOneLine : (s : Bytes) → IsOneLine s → IsOneLine (show_line color s)
  unfolding show_line
  show_line-IsOneLine s h =
      if-cases IsOneLine (is_rule s)
        (color "darkgray" ++ (repeated 40 (226 ∷ 148 ∷ 128 ∷ []) ++ color "resetcolor"))
        (show_heading color s (heading s))
        (λ e.
          one-append (color "darkgray") (repeated 40 (226 ∷ 148 ∷ 128 ∷ []) ++ color "resetcolor")
            (plain "darkgray")
            (one-append (repeated 40 (226 ∷ 148 ∷ 128 ∷ [])) (color "resetcolor")
              (repeated-IsOneLine 40 (226 ∷ 148 ∷ 128 ∷ []) (one_line (226 ∷ 148 ∷ 128 ∷ []) refl))
              (plain "resetcolor")))
        (λ e. show_heading-IsOneLine s (heading s) h (heading-Text? s h))
