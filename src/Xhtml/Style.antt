-- ===== src/Xhtml/Style.antt =====
-- css_style_to_weechat: the declarations of a style attribute as codes to open and to close a text.
use weechat_xmpp_improved.Prelude.{
  ℕ, ◌≡◌, ◌⊎◌, inl, inr, refl, ◌&&◌, Option, none, some, List, [], ◌∷◌, ◌++◌, String, str_eq, Bytes,
  codes, lower, bytes_eq, cut_at, ◌==◌, if◌then◌else◌, arith, Option-cases, if-cases,
}
use mathlib.Core.Path.{subst}
use weechat_xmpp_improved.Xhtml.Color.{trim, css_color_to_weechat}

-- The codes before a text and after it.
pub record Codes : Type 0 where
  pub open_codes : Bytes
  pub close_codes : Bytes

cons_first : ℕ → List Bytes → List Bytes
cons_first c [] = (c ∷ []) ∷ []
cons_first c (d ∷ ds) = (c ∷ d) ∷ ds

-- The parts between the semicolons.
unfoldable pub declarations : Bytes → List Bytes
unfolding cons_first
declarations [] = []
declarations (c ∷ s) = if c == b';' then [] ∷ declarations s else cons_first c (declarations s)

module _ (color : String → Bytes) where
  unfoldable pub enclose : String → String → Codes → Codes
  enclose opening closing cs = record {
    open_codes = cs.open_codes ++ color opening;
    close_codes = color closing ++ cs.close_codes;
  }

  -- The empty name is no colour.
  with_color : String → Codes → Codes
  with_color wc cs = if str_eq wc "" then cs else enclose wc "resetcolor" cs

  -- A property and its value; `none` is an exception of the colour.
  unfoldable pub declare : Bytes → Bytes → Codes → Option Codes
  unfolding with_color
  declare prop value cs =
      if bytes_eq prop (codes "color")
      then elim (css_color_to_weechat value) [ none ↦ none | some wc ↦ some (with_color wc cs) ]
      else if bytes_eq prop (codes "font-weight") && bytes_eq value (codes "bold")
      then some (enclose "bold" "-bold" cs)
      else if bytes_eq prop (codes "font-style") && bytes_eq value (codes "italic")
      then some (enclose "italic" "-italic" cs)
      else if bytes_eq prop (codes "text-decoration") && bytes_eq value (codes "underline")
      then some (enclose "underline" "-underline" cs)
      else some cs

  unfoldable pub declaration : Bytes → Codes → Option Codes
  declaration decl cs = elim (cut_at b':' decl) [
    | none ↦ some cs
    | some (prop, value) ↦ declare (lower (trim prop)) (lower (trim value)) cs
  ]

  unfoldable pub declare_all : List Bytes → Codes → Option Codes
  declare_all [] cs = some cs
  declare_all (d ∷ ds) cs = elim (declaration d cs) [ none ↦ none | some cs' ↦ declare_all ds cs' ]

  abbrev pub no_codes : Codes
  no_codes = record { open_codes = []; close_codes = [] }

  unfoldable pub css_style_to_weechat : Option Bytes → Option Codes
  css_style_to_weechat none = some no_codes
  css_style_to_weechat (some style) = declare_all (declarations style) no_codes

  -- Codes that close what they open, the last first.
  pub data Nested : Bytes → Bytes → Type 0 where
    plain : Nested [] []
    attribute :
        (opening closing : String) {o c : Bytes}
        → (closing ≡ "resetcolor") ⊎ (codes closing ≡ b'-' ∷ codes opening)
        → Nested o c
        → Nested (o ++ color opening) (color closing ++ c)

  abbrev IsNested : Codes → Type 0
  IsNested cs = Nested cs.open_codes cs.close_codes

  abbrev Keeps : Codes → Option Codes → Type 0
  Keeps cs o = (cs' : Codes) → o ≡ some cs' → IsNested cs → IsNested cs'

  Keeps-some : (cs x : Codes) → (IsNested cs → IsNested x) → Keeps cs (some x)
  Keeps-some cs x h = λ cs' e n. subst IsNested (ground arith) (h n)

  color-Keeps :
      (o : Option String) (cs : Codes)
      → Keeps cs (elim o [ none ↦ none | some wc ↦ some (with_color wc cs) ])
  unfolding with_color enclose
  color-Keeps none cs = λ cs' e n. absurd (ground arith)
  color-Keeps (some wc) cs =
      if-cases (λ x. Keeps cs (some x)) (str_eq wc "") _ _ (λ e. Keeps-some cs cs (λ n. n))
        (λ e. Keeps-some cs _ (λ n. attribute wc "resetcolor" (inl refl) n))

  declare-Keeps : (prop value : Bytes) (cs : Codes) → Keeps cs (declare prop value cs)
  unfolding declare enclose
  declare-Keeps prop value cs =
      if-cases (Keeps cs) (bytes_eq prop (codes "color")) _ _
        (λ e. color-Keeps (css_color_to_weechat value) cs)
        (λ e.
          if-cases (Keeps cs) (bytes_eq prop (codes "font-weight") && bytes_eq value (codes "bold"))
            _ _ (λ e. Keeps-some cs _ (λ n. attribute "bold" "-bold" (inr refl) n))
            (λ e.
              if-cases (Keeps cs)
                (bytes_eq prop (codes "font-style") && bytes_eq value (codes "italic")) _ _
                (λ e. Keeps-some cs _ (λ n. attribute "italic" "-italic" (inr refl) n))
                (λ e.
                  if-cases (Keeps cs)
                    (bytes_eq prop (codes "text-decoration") && bytes_eq value (codes "underline"))
                    _ _
                    (λ e. Keeps-some cs _ (λ n. attribute "underline" "-underline" (inr refl) n))
                    (λ e. Keeps-some cs cs (λ n. n)))))

  declaration-Keeps : (decl : Bytes) (cs : Codes) → Keeps cs (declaration decl cs)
  unfolding declaration
  declaration-Keeps decl cs = go (cut_at b':' decl)
    where
      go :
          (o : Option (Bytes × Bytes))
          → Keeps cs (elim o [
            | none ↦ some cs
            | some (prop, value) ↦ declare (lower (trim prop)) (lower (trim value)) cs
          ])
      go none = Keeps-some cs cs (λ n. n)
      go (some (prop, value)) = declare-Keeps (lower (trim prop)) (lower (trim value)) cs

  declare_all-Keeps : (ds : List Bytes) (cs : Codes) → Keeps cs (declare_all ds cs)
  unfolding declare_all
  declare_all-Keeps [] cs = Keeps-some cs cs (λ n. n)
  declare_all-Keeps (d ∷ ds) cs = λ cs' e n. elim (Option-cases (declaration d cs)) [
    | inl bad ↦ absurd (ground arith)
    | inr (mid, step) ↦
        declare_all-Keeps ds mid cs' (ground arith) (declaration-Keeps d cs mid step n)
  ]

  -- Where a style gives codes, those behind the text close those in front of it, the last opened
  -- first: each is "resetcolor" or the opened code with a "-".
  pub css_style_to_weechat-Nested :
      (style : Option Bytes) (cs : Codes)
      → css_style_to_weechat style ≡ some cs
      → Nested cs.open_codes cs.close_codes
  unfolding css_style_to_weechat
  css_style_to_weechat-Nested none cs e = Keeps-some no_codes no_codes (λ n. n) cs e plain
  css_style_to_weechat-Nested (some style) cs e =
      declare_all-Keeps (declarations style) no_codes cs e plain
