-- ===== src/Xhtml/Tree.antt =====
-- xhtml_to_weechat: a stanza tree as text with colour codes. The tree is what the accessors of
-- libstrophe return: names, texts, the three attributes that are read, and the children.
use weechat_xmpp_improved.Prelude.{
  Bool, true, false, ◌||◌, Option, none, some, [], ◌∷◌, ◌++◌, String, str_eq, Bytes, codes,
  bytes_eq, leb, ◌==◌, if◌then◌else◌,
}
use weechat_xmpp_improved.Html.{break_line}
use weechat_xmpp_improved.Xhtml.Style.{Codes, css_style_to_weechat}

pub record Attributes : Type 0 where
  pub style : Option Bytes
  pub href : Option Bytes
  pub alt : Option Bytes

mutual
  pub data Node : Type 0 where
    text : Option Bytes → Node
    element : Option String → Attributes → Nodes → Node

  pub data Nodes : Type 0 where
    last : Nodes
    next : Node → Nodes → Nodes

-- What an element is rendered as; `wrapped` has the codes in front of its children and behind.
pub data Kind : Type 0 where
  line_break blockquote preformatted block styled link image other : Kind
  wrapped : String → String → Kind

unfoldable pub kind_of : String → Kind
kind_of name =
    if str_eq name "br"
    then line_break
    else if str_eq name "blockquote"
    then blockquote
    else if str_eq name "pre"
    then preformatted
    else if str_eq name "p" || str_eq name "div" || str_eq name "li"
    then block
    else if str_eq name "b" || str_eq name "strong"
    then wrapped "bold" "-bold"
    else if str_eq name "i" || str_eq name "em"
    then wrapped "italic" "-italic"
    else if str_eq name "u"
    then wrapped "underline" "-underline"
    else if str_eq name "del" || str_eq name "s" || str_eq name "strike"
    then wrapped "darkgray" "resetcolor"
    else if str_eq name "code" || str_eq name "tt"
    then wrapped "gray" "resetcolor"
    else if str_eq name "span"
    then styled
    else if str_eq name "a"
    then link
    else if str_eq name "img"
    then image
    else other

-- Control characters other than tab and newline are dropped.
unfoldable pub sanitize_url : Bytes → Bytes
sanitize_url [] = []
sanitize_url (c ∷ s) =
    let rest = sanitize_url s in if leb 32 c || c == 9 || c == 10 then c ∷ rest else rest

abbrev text_or : Option Bytes → Bytes → Bytes
text_or none d = d
text_or (some []) d = d
text_or (some (c ∷ s)) d = c ∷ s

abbrev pub after : Option Bytes → (Bytes → Bytes) → Option Bytes
after none f = none
after (some inner) f = some (f inner)

module _ (color : String → Bytes) where
  quote_mark : Bytes
  quote_mark = color "green" ++ (codes "> " ++ color "resetcolor")

  -- The lines of a text in a block quote, with `line` read of the first.
  quote_lines : Bytes → Bytes → Bytes → Bytes
  quote_lines result [] [] = result
  quote_lines result (d ∷ line) [] = result ++ (quote_mark ++ (d ∷ line))
  quote_lines result line (c ∷ s) = elim (c == b'\n') [
    | true ↦ quote_lines (result ++ (quote_mark ++ (line ++ (b'\n' ∷ [])))) [] s
    | false ↦ quote_lines result (line ++ (c ∷ [])) s
  ]

  show_link : Option Bytes → Bytes → Bytes → Bytes
  show_link none result link_text = result ++ link_text
  show_link (some []) result link_text = result ++ link_text
  show_link (some (c ∷ s)) result link_text =
      let safe_href = sanitize_url (c ∷ s) in
      if bytes_eq link_text safe_href
      then result ++ (color "blue" ++ (safe_href ++ color "resetcolor"))
      else result
        ++ (link_text
            ++ (b' ' ∷ (color "blue" ++ (b'(' ∷ (safe_href ++ (b')' ∷ color "resetcolor"))))))

  show_image : Option Bytes → Bytes → Bytes
  show_image alt result =
      result
      ++ (color "darkgray" ++ (b'[' ∷ (text_or alt (codes "image") ++ (b']' ∷ color "resetcolor"))))

  unfoldable pub show_styled : Option Codes → Option Bytes → Bytes → Option Bytes
  show_styled none children result = none
  show_styled (some cs) children result =
      after children (λ i. result ++ (cs.open_codes ++ (i ++ cs.close_codes)))

  -- One element behind `result`; `children in_blockquote` is the rendering of its children.
  unfoldable pub show_kind : Kind → Attributes → Bool → Bytes → (Bool → Option Bytes) → Option Bytes
  unfolding quote_mark show_link show_image show_styled
  show_kind line_break attrs bq result children =
      some (result ++ (b'\n' ∷ (if bq then quote_mark else [])))
  show_kind blockquote attrs bq result children =
      after (children true) (λ i. break_line (break_line result ++ (quote_mark ++ i)))
  show_kind preformatted attrs bq result children =
      after (children bq)
        (λ i. break_line (break_line result ++ (color "gray" ++ (i ++ color "resetcolor"))))
  show_kind block attrs bq result children =
      after (children bq) (λ i. break_line (break_line result ++ i))
  show_kind styled attrs bq result children =
      show_styled (css_style_to_weechat color attrs.style) (children bq) result
  show_kind link attrs bq result children = after (children bq) (λ i. show_link attrs.href result i)
  show_kind image attrs bq result children = some (show_image attrs.alt result)
  show_kind other attrs bq result children = after (children bq) (λ i. result ++ i)
  show_kind (wrapped opening closing) attrs bq result children =
      after (children bq) (λ i. result ++ (color opening ++ (i ++ color closing)))

  unfoldable pub show_text : Bool → Bytes → Bytes → Bytes
  unfolding quote_lines quote_mark
  show_text bq result raw = if bq then quote_lines result [] raw else result ++ raw

  -- `none` is an exception of a style.
  unfoldable mutual
    pub show_node : Bool → Bytes → Node → Option Bytes
    show_node bq result (text none) = some result
    show_node bq result (text (some raw)) = some (show_text bq result raw)
    show_node bq result (element none attrs children) = some result
    show_node bq result (element (some name) attrs children) =
        show_kind (kind_of name) attrs bq result (λ b. show_nodes b [] children)

    pub show_nodes : Bool → Bytes → Nodes → Option Bytes
    show_nodes bq result last = some result
    show_nodes bq result (next n ns) = elim (show_node bq result n) [
      | none ↦ none
      | some r ↦ show_nodes bq r ns
    ]

  unfoldable pub xhtml_to_weechat : Bool → Nodes → Option Bytes
  xhtml_to_weechat in_blockquote children = show_nodes in_blockquote [] children
