-- ===== src/Xhtml/Errors.antt =====
-- When the rendering of XHTML-IM throws: std::stoul leaves css_color_to_weechat by an exception, and
-- nothing on the way up to xhtml_to_weechat catches it.
use weechat_xmpp_improved.Prelude.{
  ◌≡◌, ◌↔◌, ◌⊎◌, inl, inr, refl, Bool, true, Option, none, some, List, [], ◌∷◌, String, Bytes,
  codes, lower, bytes_eq_iff, cut_at, arith, Option-cases,
}
use weechat_xmpp_improved.Xhtml.Color.{
  trim, css_color_to_weechat, Throws, css_color_to_weechat-Throws,
}
use weechat_xmpp_improved.Xhtml.Style.{
  Codes, declarations, declare, declaration, declare_all, no_codes, css_style_to_weechat,
}
use weechat_xmpp_improved.Xhtml.Tree.{
  Attributes, Node, text, element, Nodes, last, next, Kind, line_break, blockquote, preformatted,
  block, styled, link, image, other, wrapped, kind_of, after, show_kind, show_styled, show_node,
  show_nodes, xhtml_to_weechat,
}

-- A declaration of a colour that throws.
pub record IsBadColor (decl : Bytes) : Type 0 where
  pub prop : Bytes
  pub value : Bytes
  pub parts : cut_at b':' decl ≡ some (prop, value)
  pub is_color : lower (trim prop) ≡ codes "color"
  pub throws : Throws (trim (lower (lower (trim value))))

abbrev pub AnyBadColor : List Bytes → Type 0
AnyBadColor [] = ⊥
AnyBadColor (d ∷ ds) = IsBadColor d ⊎ AnyBadColor ds

abbrev pub HasBadColor : Option Bytes → Type 0
HasBadColor none = ⊥
HasBadColor (some style) = AnyBadColor (declarations style)

module _ (color : String → Bytes) where
  declare-none :
      (prop value : Bytes) (cs : Codes)
      → (declare color prop value cs ≡ none)
        ↔ ((prop ≡ codes "color") × (css_color_to_weechat value ≡ none))
  unfolding declare
  declare-none prop value cs = ground (arith, bytes_eq_iff prop (codes "color"))

  declaration-none :
      (decl : Bytes) (cs : Codes) → (declaration color decl cs ≡ none) ↔ IsBadColor decl
  unfolding declaration
  declaration-none decl cs = (forth, back)
    where
      forth : declaration color decl cs ≡ none → IsBadColor decl
      forth e = elim (Option-cases (cut_at b':' decl)) [
        | inl missing ↦ absurd (ground arith)
        | inr (parts, found) ↦
            let bad =
              (declare-none (lower (trim parts.0)) (lower (trim parts.1)) cs).0 (ground arith) in
            record {
              prop = parts.0;
              value = parts.1;
              parts = found;
              is_color = bad.0;
              throws = (css_color_to_weechat-Throws (lower (trim parts.1))).0 bad.1;
            }
      ]

      back : IsBadColor decl → declaration color decl cs ≡ none
      back h =
          rw (h.parts, declaration)
            ((declare-none (lower (trim h.prop)) (lower (trim h.value)) cs).1
              (h.is_color, (css_color_to_weechat-Throws (lower (trim h.value))).1 h.throws))

  declare_all-none :
      (ds : List Bytes) (cs : Codes) → (declare_all color ds cs ≡ none) ↔ AnyBadColor ds
  unfolding declare_all
  declare_all-none [] cs = (λ e. absurd (ground arith), λ h. absurd h)
  declare_all-none (d ∷ ds) cs = elim (Option-cases (declaration color d cs)) [
    | inl bad ↦ (λ e. inl ((declaration-none d cs).0 bad), λ h. ground arith)
    | inr (mid, step) ↦ (
      λ e. inr ((declare_all-none ds mid).0 (ground arith)),
      λ h. rest mid step h (declare_all-none ds mid).1,
    )
  ]
    where
      rest :
          (mid : Codes)
          → declaration color d cs ≡ some mid
          → IsBadColor d ⊎ AnyBadColor ds
          → (AnyBadColor ds → declare_all color ds mid ≡ none)
          → declare_all color (d ∷ ds) cs ≡ none
      rest mid step (inl h) later = absurd (ground (arith, (declaration-none d cs).1 h, step))
      rest mid step (inr h) later = ground (arith, step, later h)

  css_style_none :
      (style : Option Bytes) → (css_style_to_weechat color style ≡ none) ↔ HasBadColor style
  unfolding css_style_to_weechat
  css_style_none none = (λ e. absurd (ground arith), λ h. absurd h)
  css_style_none (some style) = declare_all-none (declarations style) (no_codes color)

-- Whether an element throws, if `inside` tells that of its children.
abbrev pub KindThrows : Kind → Attributes → Type 0 → Type 0
KindThrows line_break attrs inside = ⊥
KindThrows image attrs inside = ⊥
KindThrows styled attrs inside = HasBadColor attrs.style ⊎ inside
KindThrows blockquote attrs inside = inside
KindThrows preformatted attrs inside = inside
KindThrows block attrs inside = inside
KindThrows link attrs inside = inside
KindThrows other attrs inside = inside
KindThrows (wrapped opening closing) attrs inside = inside

-- A span with a colour that throws, among the elements whose children are rendered.
unfoldable mutual
  pub NodeThrows : Node → Type 0
  NodeThrows (text t) = ⊥
  NodeThrows (element none attrs children) = ⊥
  NodeThrows (element (some name) attrs children) =
      KindThrows (kind_of name) attrs (AnyThrows children)

  pub AnyThrows : Nodes → Type 0
  AnyThrows last = ⊥
  AnyThrows (next n ns) = NodeThrows n ⊎ AnyThrows ns

through : {P Q R : Type 0} → Q ↔ R → P ↔ Q → P ↔ R
through (f, g) (h, k) = (λ p. f (h p), λ r. k (g r))

after_none : (o : Option Bytes) (f : Bytes → Bytes) → (after o f ≡ none) ↔ (o ≡ none)
after_none none f = (λ e. e, λ e. e)
after_none (some a) f = (λ e. absurd (ground arith), λ e. absurd (ground arith))

either : {P Q R S : Type 0} → P ↔ R → Q ↔ S → (P ⊎ Q) ↔ (R ⊎ S)
either {P} {Q} {R} {S} (f, g) (h, k) = (forth, back)
  where
    forth : P ⊎ Q → R ⊎ S
    forth (inl p) = inl (f p)
    forth (inr q) = inr (h q)

    back : R ⊎ S → P ⊎ Q
    back (inl r) = inl (g r)
    back (inr s) = inr (k s)

module _ (color : String → Bytes) where
  show_styled-none :
      (o : Option Codes) (children : Option Bytes) (result : Bytes)
      → (show_styled color o children result ≡ none) ↔ ((o ≡ none) ⊎ (children ≡ none))
  unfolding show_styled
  show_styled-none none children result = (λ e. inl refl, λ h. refl)
  show_styled-none (some cs) none result = (λ e. inr refl, λ h. refl)
  show_styled-none (some cs) (some i) result =
      (λ e. absurd (ground arith), λ h. absurd (ground arith))

  show_kind-none :
      (k : Kind) (attrs : Attributes) (bq : Bool) (result : Bytes) (children : Bool → Option Bytes)
      (Inside : Type 0)
      → ((b : Bool) → (children b ≡ none) ↔ Inside)
      → (show_kind color k attrs bq result children ≡ none) ↔ KindThrows k attrs Inside
  unfolding show_kind
  show_kind-none line_break attrs bq result children Inside h =
      (λ e. absurd (ground arith), λ bad. absurd bad)
  show_kind-none image attrs bq result children Inside h =
      (λ e. absurd (ground arith), λ bad. absurd bad)
  show_kind-none blockquote attrs bq result children Inside h = through (h true) (after_none _ _)
  show_kind-none preformatted attrs bq result children Inside h = through (h bq) (after_none _ _)
  show_kind-none block attrs bq result children Inside h = through (h bq) (after_none _ _)
  show_kind-none link attrs bq result children Inside h = through (h bq) (after_none _ _)
  show_kind-none other attrs bq result children Inside h = through (h bq) (after_none _ _)
  show_kind-none (wrapped o c) attrs bq result children Inside h = through (h bq) (after_none _ _)
  show_kind-none styled attrs bq result children Inside h =
      through (either (css_style_none color attrs.style) (h bq))
        (show_styled-none (css_style_to_weechat color attrs.style) (children bq) result)

  mutual
    unfolding show_node NodeThrows

    node_none :
        (n : Node) (bq : Bool) (result : Bytes)
        → (show_node color bq result n ≡ none) ↔ NodeThrows n
    node_none (text none) bq result = (λ e. absurd (ground arith), λ h. absurd h)
    node_none (text (some raw)) bq result = (λ e. absurd (ground arith), λ h. absurd h)
    node_none (element none attrs children) bq result = (λ e. absurd (ground arith), λ h. absurd h)
    node_none (element (some name) attrs children) bq result =
        show_kind-none (kind_of name) attrs bq result (λ b. show_nodes color b [] children)
          (AnyThrows children) (λ b. nodes_none children b [])

    nodes_none :
        (ns : Nodes) (bq : Bool) (result : Bytes)
        → (show_nodes color bq result ns ≡ none) ↔ AnyThrows ns
    nodes_none last bq result = (λ e. absurd (ground arith), λ h. absurd h)
    nodes_none (next n ns) bq result = elim (Option-cases (show_node color bq result n)) [
      | inl bad ↦ (λ e. inl ((node_none n bq result).0 bad), λ h. ground arith)
      | inr (r, fine) ↦ (
        λ e. inr ((nodes_none ns bq r).0 (ground arith)),
        λ h. elim h [
          | inl bad ↦ absurd (ground (arith, (node_none n bq result).1 bad, fine))
          | inr later ↦ ground (arith, fine, (nodes_none ns bq r).1 later)
        ],
      )
    ]

  -- The rendering of a message throws exactly if, among the elements whose children are rendered,
  -- there is a span with a colour that is a "#" and three or six characters which are not all read
  -- as numbers in base 16; every other tree is rendered.
  pub xhtml_to_weechat-AnyThrows :
      (in_blockquote : Bool) (children : Nodes)
      → (xhtml_to_weechat color in_blockquote children ≡ none) ↔ AnyThrows children
  unfolding xhtml_to_weechat
  xhtml_to_weechat-AnyThrows in_blockquote children = nodes_none children in_blockquote []
