-- ===== src/Styling/Tests.antt =====
-- Styled texts, and each theorem at an input.
use weechat_xmpp_improved.Prelude.{
  ◌≡◌, refl, some, [], ◌∷◌, ◌++◌, String, Bytes, codes, is_space, is_punct, false,
}
use weechat_xmpp_improved.Styling.{
  style_of, apply_xep393_styling, style_loop, fence, until, starts_quote, closes, span_at,
  inline_span,
}
use weechat_xmpp_improved.Styling.Relation.{Styled, outside}
use weechat_xmpp_improved.Styling.Sound.{apply_xep393_styling-Styled}
use weechat_xmpp_improved.Styling.Plain.{apply_xep393_styling_span}

-- A colour code that can be read: its name in brackets.
abbrev shown : String → Bytes
shown name = b'<' ∷ (codes name ++ (b'>' ∷ []))

styled :
    (apply_xep393_styling shown (codes "a *b c* d") ≡ some (codes "a <bold>b c<-bold> d"))
    × (apply_xep393_styling shown (codes "a*b* c") ≡ some (codes "a*b* c"))
    × (apply_xep393_styling shown (codes "*a\nb*") ≡ some (codes "*a\nb*"))
    × (apply_xep393_styling shown (codes "~~ x") ≡ some (codes "~~ x"))
    × (apply_xep393_styling shown (codes "> q\nr") ≡ some (codes "<green>> q<resetcolor>\nr"))
    × (apply_xep393_styling shown (codes "```*x*") ≡ some (codes "<gray>*x*"))
unfolding apply_xep393_styling style_loop fence until starts_quote closes span_at inline_span
    style_of is_space is_punct
styled = (refl, refl, refl, refl, refl, refl)

apply_xep393_styling-Styled_example :
    (r : Bytes) × (apply_xep393_styling shown (codes "_a_ > *b") ≡ some r)
    × Styled shown outside (codes "_a_ > *b") r
apply_xep393_styling-Styled_example = apply_xep393_styling-Styled shown (codes "_a_ > *b")

apply_xep393_styling_span_example :
    apply_xep393_styling shown (codes "*hi* you") ≡ some (codes "<bold>hi<-bold> you")
unfolding style_of is_space is_punct
apply_xep393_styling_span_example =
    apply_xep393_styling_span shown b'*'
      (record { opening = "bold"; closing = "-bold"; needs_inner = false }) b'h' (codes "i")
      (codes " you") refl (refl, (refl, tt)) refl refl refl
      ((refl, refl), ((refl, refl), ((refl, refl), ((refl, refl), tt))))
