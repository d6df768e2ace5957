-- ===== src/Xhtml/Tests.antt =====
-- Colours, styles and small trees.
use weechat_xmpp_improved.Prelude.{
  ◌≡◌, ◌↔◌, refl, false, none, some, String, Bytes, codes, lower, cut_at,
}
use weechat_xmpp_improved.Xhtml.Color.{
  trim, css_color_to_weechat, Throws, css_color_to_weechat-Throws, is_gap, skip_gap, drop_gap,
}
use weechat_xmpp_improved.Xhtml.Style.{
  Codes, css_style_to_weechat, Nested, css_style_to_weechat-Nested, declarations, declare_all,
  declaration, declare, enclose,
}
use weechat_xmpp_improved.Xhtml.Tree.{Nodes, last, next, text, element, xhtml_to_weechat}
use weechat_xmpp_improved.Xhtml.Errors.{AnyThrows, xhtml_to_weechat-AnyThrows}

abbrev named_color : String → Bytes
named_color c = codes c

abbrev bold : Codes
bold = record { open_codes = codes "bold"; close_codes = codes "-bold" }

abbrev message : Nodes
message =
    next
      (element (some "span")
        (record { style = some (codes "color: #zz0000"); href = none; alt = none })
        (next (text (some (codes "hello"))) last))
      last

css_color_to_weechat-Throws_example :
    (css_color_to_weechat (codes "#zz0000") ≡ none) ↔ Throws (trim (lower (codes "#zz0000")))
css_color_to_weechat-Throws_example = css_color_to_weechat-Throws (codes "#zz0000")

css_style_to_weechat-Nested_example : Nested named_color (codes "bold") (codes "-bold")
unfolding css_style_to_weechat declarations declare_all declaration declare enclose cut_at skip_gap
    drop_gap is_gap
css_style_to_weechat-Nested_example =
    css_style_to_weechat-Nested named_color (some (codes "font-weight: bold")) bold refl

xhtml_to_weechat-AnyThrows_example :
    (xhtml_to_weechat named_color false message ≡ none) ↔ AnyThrows message
xhtml_to_weechat-AnyThrows_example = xhtml_to_weechat-AnyThrows named_color false message
