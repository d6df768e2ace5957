-- ===== src/Markdown/Tests.antt =====
-- A short post, with codes in place of the colours.
use weechat_xmpp_improved.Prelude.{
  ◌≡◌, refl, [], ◌∷◌, ◌++◌, String, Bytes, codes, starts_with, is_space, cut_at,
}
use weechat_xmpp_improved.Markdown.Spans.{
  apply_inline, inline, span_at, or_else, image_at, link_at, bold_at, strike_at, code_at, italic_at,
  italic_end, is_edge, enclosed,
}
use weechat_xmpp_improved.Markdown.Blocks.{
  apply_markdown_to_weechat, trim_end, ends_line, pop_back, show_lines, show_line, show_heading,
  show_bulleted, show_numbered, show_quoted, heading, quoted, bulleted, numbered, after_blank,
  hashes, is_rule, is_fence, lines,
}
use weechat_xmpp_improved.Markdown.OneLine.{one_line}
use weechat_xmpp_improved.Markdown.Count.{line_ends, line_ends-apply_markdown_to_weechat}

abbrev no_color : String → Bytes
no_color name = codes "!"

abbrev post : Bytes
post = codes "# a *b*" ++ (10 ∷ (codes "- c" ++ (10 ∷ [])))

apply_markdown_to_weechat-post :
    apply_markdown_to_weechat no_color post
    ≡ codes "!a !b!!" ++ (10 ∷ 226 ∷ 128 ∷ 162 ∷ 32 ∷ (codes "c" ++ (10 ∷ [])))
unfolding apply_markdown_to_weechat trim_end ends_line pop_back show_lines show_line show_heading
    show_bulleted show_numbered show_quoted heading quoted bulleted numbered after_blank hashes
    is_rule is_fence lines apply_inline inline span_at or_else image_at link_at bold_at strike_at
    code_at italic_at italic_end is_edge enclosed starts_with is_space cut_at
apply_markdown_to_weechat-post = refl

line_ends-apply_markdown_to_weechat_example :
    line_ends (apply_markdown_to_weechat no_color post) ≡ line_ends post
line_ends-apply_markdown_to_weechat_example =
    line_ends-apply_markdown_to_weechat no_color (λ name. one_line (codes "!") refl) post
