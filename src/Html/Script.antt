-- ===== src/Html/Script.antt =====
-- Script elements: the code looks for the end tag behind the '/' of the tag, where it never is.
use weechat_xmpp_improved.Prelude.{
  ℕ, zero, suc, ◌≤◌, ◌≡◌, refl, ap, ◌∙◌, true, false, none, some, [], ◌∷◌, ◌++◌, Bytes, codes, find,
  starts_with, ◌==◌, length, arith, Bool-cases, inl, inr,
}
use weechat_xmpp_improved.Html.{
  Mode, State, istartsw, tag_name, open_tag, enter_tag, round, strip_loop, html_strip_to_plain,
  text_mode,
}
use weechat_xmpp_improved.Html.Layout.{tidy}
use weechat_xmpp_improved.Html.Escape.{escape, escape-Passes}

-- "<//" is the only text in which the code sees the end of an element.
abbrev pub double : Bytes
double = codes "<//"

find_rest : (c : ℕ) (s : Bytes) → find double (c ∷ s) ≡ none → find double s ≡ none
unfolding find
find_rest c s h = ground arith

slash_head :
    (s : Bytes) (ps : Bytes) → istartsw s (b'/' ∷ ps) ≡ true → starts_with (b'/' ∷ []) s ≡ true
unfolding istartsw starts_with
slash_head [] ps h = absurd (ground arith)
slash_head (c ∷ s) ps h = ground arith

-- No end tag is seen in front of `rest`.
not_end :
    (rest ps : Bytes)
    → find double (b'<' ∷ rest) ≡ none
    → istartsw (tag_name rest) (b'/' ∷ ps) ≡ false
unfolding find starts_with tag_name istartsw
not_end [] ps h = refl
not_end (c ∷ s) ps h = elim (Bool-cases (c == b'/')) [
  | inl slash ↦ ground (arith, slash_head s ps)
  | inr other ↦ ground arith
]

-- In a script element, with nothing put out and `rest` to read.
abbrev Inside : Bytes → Bytes → State → Type 0
Inside out rest st = (st.mode.in_script ≡ true) × (st.out ≡ out) × (st.rest ≡ rest)

open_tag-Inside :
    (m : Mode) (out rest : Bytes)
    → m.in_script ≡ true
    → find double (b'<' ∷ rest) ≡ none
    → Inside out rest (open_tag m out rest)
unfolding open_tag enter_tag
open_tag-Inside m out rest on h =
    ground (arith, not_end rest (codes "script") h, not_end rest (codes "style") h)

round-Inside :
    (m : Mode) (out : Bytes) (c : ℕ) (rest : Bytes)
    → m.in_script ≡ true
    → find double (c ∷ rest) ≡ none
    → Inside out rest (round m out c rest)
unfolding round
round-Inside m out c rest on h = elim (Bool-cases (c == b'<')) [
  | inl lt ↦
      let e : b'<' ≡ c = ground arith in
      let h' : find double (b'<' ∷ rest) ≡ none = ap (λ d. find double (d ∷ rest)) e ∙ h in
      ground (arith, open_tag-Inside m out rest on h')
  | inr other ↦ ground arith
]

-- To the end of the text.
inside_loop :
    (fuel : ℕ) (m : Mode) (out s : Bytes)
    → length s ≤ fuel
    → m.in_script ≡ true
    → find double s ≡ none
    → strip_loop fuel m out s ≡ some out
unfolding strip_loop
inside_loop fuel m out [] le on h = refl
inside_loop zero m out (c ∷ s) le on h = absurd (omega arith)
inside_loop (suc fuel) m out (c ∷ s) le on h =
    let st = round m out c s in
    let (on', same, rest) = round-Inside m out c s on h in
    ap (strip_loop fuel st.mode st.out) rest
    ∙ ap (λ o. strip_loop fuel st.mode o s) same
    ∙ inside_loop fuel st.mode out s (omega arith) on' (find_rest c s h)

find_script : (b : Bytes) → find double b ≡ none → find double (codes "script" ++ b) ≡ none
unfolding find starts_with
find_script b h = rw h refl

hidden_from :
    (fuel : ℕ) (a b : Bytes)
    → length (codes "<script" ++ b) ≤ fuel
    → find double b ≡ none
    → strip_loop fuel text_mode a (codes "<script" ++ b) ≡ some a
unfolding strip_loop round open_tag enter_tag tag_name istartsw
hidden_from zero a b le h = absurd (omega arith)
hidden_from (suc fuel) a b le h =
    inside_loop fuel (record { in_tag = true; in_script = true; in_style = false }) a
      (codes "script" ++ b) (omega arith) refl (find_script b h)

-- A script element hides all the text that follows it to the end, behind its end tag as well: as
-- long as "<//" does not occur, the text in front of it is all that comes out.
pub html_strip_to_plain_script :
    (a b : Bytes)
    → find double b ≡ none
    → html_strip_to_plain (escape a ++ (codes "<script" ++ b)) ≡ some (tidy a)
unfolding html_strip_to_plain
html_strip_to_plain_script a b h =
    let html = escape a ++ (codes "<script" ++ b) in
    let (f, le, e) = escape-Passes a (length html) [] (codes "<script" ++ b) (omega arith) in
    let hidden : strip_loop f text_mode a (codes "<script" ++ b) ≡ some a =
      hidden_from f a b le h in
    rw (e ∙ hidden, html_strip_to_plain) refl
