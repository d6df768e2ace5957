-- ===== src/Html/Loop.antt =====
-- The loop of html_strip_to_plain ends, whatever the text is, and what its rounds do to the fuel.
use weechat_xmpp_improved.Prelude.{
  ℕ, zero, suc, ◌≤◌, ◌≡◌, inl, inr, refl, some, [], ◌∷◌, Bytes, cut_at, ◌==◌, length, arith,
  Bool-cases, Option-cases,
}
use weechat_xmpp_improved.Html.Layout.{tidy, IsTidy, tidy-IsTidy}
use weechat_xmpp_improved.Html.{
  html_strip_to_plain, text_mode, Mode, State, past_tag, open_tag, entity_at, put, put_entity,
  round, strip_loop,
}

past_tag-le : (s : Bytes) → length (past_tag s) ≤ length s
unfolding past_tag
past_tag-le [] = omega arith
past_tag-le (c ∷ s) = ground (arith, past_tag-le s)

cut_at-le :
    (sep : ℕ) (s before behind : Bytes)
    → cut_at sep s ≡ some (before, behind)
    → length behind ≤ length s
unfolding cut_at
cut_at-le sep [] before behind e = absurd (ground arith)
cut_at-le sep (c ∷ s) before behind e = elim (Bool-cases (c == sep)) [
  | inl same ↦ ground arith
  | inr other ↦ elim (Option-cases (cut_at sep s)) [
    | inl missing ↦ absurd (ground arith)
    | inr (parts, found) ↦ ground (arith, cut_at-le sep s parts.0 parts.1 found)
  ]
]

entity_at-le :
    (rest t behind : Bytes) → entity_at rest ≡ some (t, behind) → length behind ≤ length rest
unfolding entity_at
entity_at-le rest t behind e = elim (Option-cases (cut_at b';' rest)) [
  | inl missing ↦ absurd (ground arith)
  | inr (parts, found) ↦ ground (arith, cut_at-le b';' rest parts.0 parts.1 found)
]

-- A round leaves no more to read than stands behind its character.
Reads : Bytes → State → Type 0
Reads rest st = length st.rest ≤ length rest

open_tag-Reads : (m : Mode) (out rest : Bytes) → Reads rest (open_tag m out rest)
unfolding open_tag Reads
open_tag-Reads m out rest = ground (arith, past_tag-le rest)

put_entity-Reads : (m : Mode) (out rest : Bytes) → Reads rest (put_entity m out rest)
unfolding put_entity Reads put
put_entity-Reads m out rest = elim (Option-cases (entity_at rest)) [
  | inl missing ↦ ground arith
  | inr (parts, found) ↦ ground (arith, entity_at-le rest parts.0 parts.1 found)
]

pub round-Reads :
    (m : Mode) (out : Bytes) (c : ℕ) (rest : Bytes) → length (round m out c rest).rest ≤ length rest
unfolding round Reads put
round-Reads m out c rest = ground (arith, open_tag-Reads m out rest, put_entity-Reads m out rest)

pub strip_loop_total :
    (fuel : ℕ) (m : Mode) (out s : Bytes)
    → length s ≤ fuel
    → (r : Bytes) × (strip_loop fuel m out s ≡ some r)
unfolding strip_loop
strip_loop_total fuel m out [] h = (out, refl)
strip_loop_total zero m out (c ∷ s) h = absurd (omega arith)
strip_loop_total (suc fuel) m out (c ∷ s) h =
    let st = round m out c s in
    strip_loop_total fuel st.mode st.out st.rest (omega (arith, round-Reads m out c s))

-- For every text a plain text is returned; it has no white space at its ends and at most one empty
-- line in a row.
pub html_strip_to_plain-IsTidy :
    (html : Bytes) → (r : Bytes) × (html_strip_to_plain html ≡ some r) × IsTidy r
unfolding html_strip_to_plain
html_strip_to_plain-IsTidy html =
    let (out, e) = strip_loop_total (length html) text_mode [] html (omega arith) in
    (tidy out, ground (arith, e), tidy-IsTidy out)
