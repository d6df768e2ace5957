-- ===== src/Html/Escape.antt =====
-- Texts written in HTML: what escapes say comes out again.
use weechat_xmpp_improved.Prelude.{
  if-cases, ℕ, zero, suc, ◌≤◌, ◌≡◌, refl, sym, ap, ◌∙◌, false, some, [], ◌∷◌, ◌++◌, append_assoc,
  append-nil, Bytes, codes, cut_at, ◌==◌, if◌then◌else◌, length, length-append, arith,
}
use mathlib.Core.Path.{subst}
use weechat_xmpp_improved.Html.{
  entity_at, put, put_entity, round, strip_loop, html_strip_to_plain, text_mode,
}
use weechat_xmpp_improved.Html.Entity.{decode_entity, by_name}
use weechat_xmpp_improved.Html.Layout.{tidy}

-- A text in HTML, the way a writer of HTML puts it.
abbrev pub escape_char : ℕ → Bytes
escape_char c =
    if c == b'&'
    then codes "&amp;"
    else if c == b'<'
    then codes "&lt;"
    else if c == b'>'
    then codes "&gt;"
    else c ∷ []

abbrev pub escape : Bytes → Bytes
escape [] = []
escape (c ∷ s) = escape_char c ++ escape s

entity_amp : (t : Bytes) → entity_at (codes "amp;" ++ t) ≡ some (b'&' ∷ [], t)
unfolding entity_at decode_entity by_name cut_at
entity_amp t = refl

entity_lt : (t : Bytes) → entity_at (codes "lt;" ++ t) ≡ some (b'<' ∷ [], t)
unfolding entity_at decode_entity by_name cut_at
entity_lt t = refl

entity_gt : (t : Bytes) → entity_at (codes "gt;" ++ t) ≡ some (b'>' ∷ [], t)
unfolding entity_at decode_entity by_name cut_at
entity_gt t = refl

-- The loop reads `s` in front of `t`, and puts `o` out.
abbrev Passes : Bytes → Bytes → Type 0
Passes s o =
    (fuel : ℕ) (out t : Bytes)
    → length (s ++ t) ≤ fuel
    → (f : ℕ) × (length t ≤ f)
      × (strip_loop fuel text_mode out (s ++ t) ≡ strip_loop f text_mode (out ++ o) t)

entity-Passes :
    (name : Bytes) (c : ℕ)
    → ((t : Bytes) → entity_at (name ++ t) ≡ some (c ∷ [], t))
    → Passes (b'&' ∷ name) (c ∷ [])
unfolding strip_loop round put_entity
entity-Passes name c e zero out t h = absurd (omega arith)
entity-Passes name c e (suc fuel) out t h =
    (fuel, omega (arith, length-append name t), ground (arith, e t))

char-Passes : (c : ℕ) → (c == b'&') ≡ false → (c == b'<') ≡ false → Passes (c ∷ []) (c ∷ [])
unfolding strip_loop round put
char-Passes c a l zero out t h = absurd (omega arith)
char-Passes c a l (suc fuel) out t h = (fuel, omega arith, ground arith)

both_pass : (s o s' o' : Bytes) → Passes s o → Passes s' o' → Passes (s ++ s') (o ++ o')
both_pass s o s' o' p q fuel out t h =
    let (f, le, e) = p fuel out (s' ++ t) (omega (arith, ap length (append_assoc s s' t))) in
    let (f', le', e') = q f (out ++ o) t le in
    (
      f',
      le',
      ap (strip_loop fuel text_mode out) (append_assoc s s' t)
          ∙ e
          ∙ e'
          ∙ ap (λ x. strip_loop f' text_mode x t) (append_assoc out o o'),
    )

escape_char-Passes : (c : ℕ) → Passes (escape_char c) (c ∷ [])
escape_char-Passes c =
    if-cases (λ l. Passes l (c ∷ [])) (c == b'&') _ _
      (λ e. of (codes "&amp;") b'&' (ground arith) (entity-Passes (codes "amp;") b'&' entity_amp))
      (λ a.
        if-cases (λ l. Passes l (c ∷ [])) (c == b'<') _ _
          (λ e. of (codes "&lt;") b'<' (ground arith) (entity-Passes (codes "lt;") b'<' entity_lt))
          (λ l.
            if-cases (λ l. Passes l (c ∷ [])) (c == b'>') _ _
              (λ e.
                of (codes "&gt;") b'>' (ground arith) (entity-Passes (codes "gt;") b'>' entity_gt))
              (λ g. char-Passes c a l)))
  where
    of : (s : Bytes) (d : ℕ) → d ≡ c → Passes s (d ∷ []) → Passes s (c ∷ [])
    of s d e p = subst (λ x. Passes s (x ∷ [])) e p

pub escape-Passes : (s : Bytes) → Passes (escape s) s
escape-Passes [] =
    λ fuel out t h. (fuel, h, ap (λ x. strip_loop fuel text_mode x t) (sym (append-nil out)))
escape-Passes (c ∷ s) =
    both_pass (escape_char c) (c ∷ []) (escape s) s (escape_char-Passes c) (escape-Passes s)

-- Any text that is written with its '&', '<' and '>' escaped comes out as it is, but for the white
-- space at its ends and its runs of newlines.
pub html_strip_to_plain-escape : (s : Bytes) → html_strip_to_plain (escape s) ≡ some (tidy s)
unfolding html_strip_to_plain strip_loop
html_strip_to_plain-escape s =
    let whole = append-nil (escape s) in
    let (f, le, e) = escape-Passes s (length (escape s)) [] [] (omega (arith, ap length whole)) in
    let ends : strip_loop (length (escape s)) text_mode [] (escape s) ≡ some s =
      ap (strip_loop (length (escape s)) text_mode []) (sym whole) ∙ e in
    rw (ends, html_strip_to_plain) refl
