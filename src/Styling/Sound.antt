-- ===== src/Styling/Sound.antt =====
-- The styling loop never runs out of fuel, and what it returns is a styled form of its text.
use weechat_xmpp_improved.Prelude.{
  ℕ, zero, suc, ◌≤◌, ◌≡◌, refl, sym, ap, Bool, true, false, not, Option, none, some, [], ◌∷◌, ◌++◌,
  String, Bytes, length, length-append, if◌then◌else◌, All, arith, Bool-cases, inl, inr,
  append_assoc,
}
use mathlib.Core.Path.{subst}
use weechat_xmpp_improved.Styling.{
  Style, Span, until, ends_span, is_newline, inline_span, fence, style_loop, apply_xep393_styling,
  starts_quote, round, inline, quote, copy, after_quote, prepend,
}
use weechat_xmpp_improved.Styling.Relation.{
  Region, outside, block, Styled, done, unclosed, keep, keep_block, keep_quote, keep_span,
  open_block, close_block, open_quote, close_quote, open_span, close_span, inline_span-IsSpan,
  length-IsSpan, ticks, until_append, until_none, until_end,
}

starts_quote-ch :
    (prev : Option ℕ) (ch : ℕ) (rest : Bytes) → starts_quote prev ch rest ≡ true → ch ≡ b'>'
unfolding starts_quote
starts_quote-ch prev ch rest e = ground arith

module _ (color : String → Bytes) where
  keep_inner :
      (m : ℕ) (st : Style) (inner : Bytes) {s r : Bytes}
      → All (λ c. ends_span m c ≡ false) inner
      → Styled color (Region.span m st) s r
      → Styled color (Region.span m st) (inner ++ s) (inner ++ r)
  keep_inner m st [] h d = d
  keep_inner m st (c ∷ inner) (p, h) d =
      keep_span c (ground arith) (ground arith) (keep_inner m st inner h d)

  keep_line :
      (line : Bytes) {s r : Bytes}
      → All (λ c. is_newline c ≡ false) line
      → Styled color Region.quote s r
      → Styled color Region.quote (line ++ s) (line ++ r)
  keep_line [] h d = d
  keep_line (c ∷ line) (p, h) d = keep_quote c (ground arith) (keep_line line h d)

  abbrev region : Bool → Region
  region true = block
  region false = outside

  -- The loop from here on returns a styled form of the rest.
  abbrev Returns : Region → Bytes → Option Bytes → Type 0
  Returns w s o = (r : Bytes) × (o ≡ some r) × Styled color w s r

  prepend-Returns :
      {v w : Region} {s t : Bytes} (out : Bytes) (o : Option Bytes)
      → ((r : Bytes) → Styled color v s r → Styled color w t (out ++ r))
      → Returns v s o
      → Returns w t (prepend out o)
  prepend-Returns out o f (r, e, d) = (out ++ r, ap (prepend out) e, f r d)

  fence-ticks : (s after : Bytes) → fence s ≡ some after → s ≡ ticks after
  unfolding fence
  fence-ticks (a ∷ b ∷ c ∷ rest) after e = ground arith
  fence-ticks _ after e = cc

module _ (color : String → Bytes) (next : Bool → Option ℕ → Bytes → Option Bytes) (n : ℕ)
    (ih : (pre : Bool) (prev : Option ℕ) (s : Bytes)
      → length s ≤ n
      → Returns color (region color pre) s (next pre prev s)) where
  copy-Returns :
      (ch : ℕ) (rest : Bytes)
      → length rest ≤ n
      → Returns color outside (ch ∷ rest) (copy color next ch rest)
  unfolding copy
  copy-Returns ch rest le =
      prepend-Returns color (ch ∷ []) _ (λ r d. keep ch d) (ih false (some ch) rest le)

  after_quote-Returns :
      (tail : Bytes) → length tail ≤ n → Returns color outside tail (after_quote color next tail)
  unfolding after_quote
  after_quote-Returns [] le = ih false none [] le
  after_quote-Returns (c ∷ s) le = copy-Returns c s (omega arith)

  quote-Returns :
      (rest : Bytes) → length rest ≤ n → Returns color outside (b'>' ∷ rest) (quote color next rest)
  unfolding quote
  quote-Returns rest le =
      let (line, tail) = until is_newline rest in
      let splits = until_append is_newline rest in
      let shorter : length tail ≤ n = omega (arith, ap length splits, length-append line tail) in
      prepend-Returns color _ _
        (λ r d.
          rw
            (
              append_assoc (color "green") (b'>' ∷ (line ++ color "resetcolor")) r,
              append_assoc line (color "resetcolor") r,
            )
            (open_quote (
              subst (λ t. Styled color Region.quote t (line ++ (color "resetcolor" ++ r)))
                (sym splits)
                (keep_line color line (until_none is_newline rest)
                  (close_quote (until_end is_newline rest) d)))))
        (after_quote-Returns tail shorter)

  inline-Returns :
      (prev : Option ℕ) (ch : ℕ) (rest : Bytes)
      → length rest ≤ n
      → Returns color outside (ch ∷ rest) (inline color next prev ch rest)
  unfolding inline
  inline-Returns prev ch rest le = go (inline_span prev ch rest) refl
    where
      go :
          (o : Option Span)
          → inline_span prev ch rest ≡ o
          → Returns color outside (ch ∷ rest) (inline color next prev ch rest)
      go none e = rw (e, inline) (copy-Returns ch rest le)
      go (some sp) e =
          let h = inline_span-IsSpan prev ch rest sp e in
          rw (e, inline)
            (prepend-Returns color _ _
              (λ r d.
                rw
                  (
                    append_assoc (color sp.style.opening) (sp.inner ++ color sp.style.closing) r,
                    append_assoc sp.inner (color sp.style.closing) r,
                  )
                  (open_span ch h.styled (
                    subst
                      (λ t.
                        Styled color (Region.span ch sp.style) t
                          (sp.inner ++ (color sp.style.closing ++ r)))
                      (sym h.splits)
                      (keep_inner color ch sp.style sp.inner h.inside (close_span ch d)))))
              (ih false (some ch) sp.after (omega (arith, length-IsSpan h))))

  toggle-Returns :
      (pre : Bool) (ch : ℕ) (rest after : Bytes)
      → ch ∷ rest ≡ ticks after
      → length rest ≤ n
      → Returns color (region color pre) (ch ∷ rest) (
          prepend (color (if pre then "resetcolor" else "gray")) (next (not pre) (some b'`') after))
  toggle-Returns pre ch rest after e le =
      subst
        (λ t. Returns color (region color pre) t (
          prepend (color (if pre then "resetcolor" else "gray"))
            (next (not pre) (some b'`') after)))
        (sym e) (go pre)
    where
      shorter : length after ≤ n
      shorter = omega (arith, ap length e)

      go :
          (p : Bool)
          → Returns color (region color p) (ticks after) (
              prepend (color (if p then "resetcolor" else "gray")) (next (not p) (some b'`') after))
      go true =
          prepend-Returns color _ _ (λ r d. close_block d) (ih false (some b'`') after shorter)
      go false = prepend-Returns color _ _ (λ r d. open_block d) (ih true (some b'`') after shorter)

  line-Returns :
      (prev : Option ℕ) (ch : ℕ) (rest : Bytes)
      → length rest ≤ n
      → Returns color outside (ch ∷ rest) (
          if starts_quote prev ch rest
          then quote color next rest
          else inline color next prev ch rest)
  line-Returns prev ch rest le = elim (Bool-cases (starts_quote prev ch rest)) [
    | inl e ↦ rw (e, starts_quote-ch prev ch rest e) (quote-Returns rest le)
    | inr e ↦ rw e (inline-Returns prev ch rest le)
  ]

  round-Returns :
      (pre : Bool) (prev : Option ℕ) (ch : ℕ) (rest : Bytes)
      → length rest ≤ n
      → Returns color (region color pre) (ch ∷ rest) (round color next pre prev ch rest)
  unfolding round
  round-Returns pre prev ch rest le = go pre (fence (ch ∷ rest)) refl
    where
      go :
          (p : Bool) (o : Option Bytes)
          → fence (ch ∷ rest) ≡ o
          → Returns color (region color p) (ch ∷ rest) (round color next p prev ch rest)
      go true none e =
          rw (e, round)
            (prepend-Returns color (ch ∷ []) _ (λ r d. keep_block ch d) (ih true (some ch) rest le))
      go false none e = rw (e, round) (line-Returns prev ch rest le)
      go p (some after) e =
          rw (e, round) (toggle-Returns p ch rest after (fence-ticks color (ch ∷ rest) after e) le)

style_loop-Returns :
    (color : String → Bytes) (fuel : ℕ) (pre : Bool) (prev : Option ℕ) (s : Bytes)
    → length s ≤ fuel
    → Returns color (region color pre) s (style_loop color fuel pre prev s)
unfolding style_loop
style_loop-Returns color zero true prev [] le = ([], refl, unclosed)
style_loop-Returns color zero false prev [] le = ([], refl, done)
style_loop-Returns color (suc f) true prev [] le = ([], refl, unclosed)
style_loop-Returns color (suc f) false prev [] le = ([], refl, done)
style_loop-Returns color zero pre prev (c ∷ s) le = absurd (omega arith)
style_loop-Returns color (suc f) pre prev (c ∷ s) le =
    round-Returns color (style_loop color f) f (λ p q t h. style_loop-Returns color f p q t h) pre
      prev c s (omega arith)

-- For every text and every choice of colour codes the function returns, and its result is the
-- text with one style at a time opened and closed around spans and quotes that stay on their line
-- and around code blocks, with nothing dropped but their markers; only a code block may be left
-- open, at the end.
pub apply_xep393_styling-Styled :
    (color : String → Bytes) (text : Bytes)
    → (r : Bytes) × (apply_xep393_styling color text ≡ some r) × Styled color outside text r
unfolding apply_xep393_styling
apply_xep393_styling-Styled color text =
    style_loop-Returns color (length text) false none text (omega arith)
