-- ===== src/Preview/Escaped.antt =====
-- decode_html_entities (src/connection/helpers.cpp) and a writer of HTML.
use weechat_xmpp_improved.Prelude.{
  ℕ, ◌≡◌, refl, ap, ◌∙◌, true, false, [], ◌∷◌, ◌++◌, Bytes, codes, cut_at, ◌==◌, if◌then◌else◌,
  if-cases, arith,
}
use weechat_xmpp_improved.Preview.Tags.{entity, entity_at, decode_from, decode_html_entities}

-- A character the way a writer of HTML puts it.
abbrev pub escape_char : ℕ → Bytes
escape_char c =
    if c == b'&'
    then codes "&amp;"
    else if c == b'<'
    then codes "&lt;"
    else if c == b'>'
    then codes "&gt;"
    else if c == b'"'
    then codes "&quot;"
    else if c == b'\''
    then codes "&apos;"
    else c ∷ []

abbrev pub escape : Bytes → Bytes
escape [] = []
escape (c ∷ s) = escape_char c ++ escape s

amp : (t : Bytes) → decode_from 0 (codes "&amp;" ++ t) ≡ b'&' ∷ decode_from 0 t
unfolding decode_from entity_at entity cut_at
amp t = refl

lt : (t : Bytes) → decode_from 0 (codes "&lt;" ++ t) ≡ b'<' ∷ decode_from 0 t
unfolding decode_from entity_at entity cut_at
lt t = refl

gt : (t : Bytes) → decode_from 0 (codes "&gt;" ++ t) ≡ b'>' ∷ decode_from 0 t
unfolding decode_from entity_at entity cut_at
gt t = refl

quot : (t : Bytes) → decode_from 0 (codes "&quot;" ++ t) ≡ b'"' ∷ decode_from 0 t
unfolding decode_from entity_at entity cut_at
quot t = refl

apos : (t : Bytes) → decode_from 0 (codes "&apos;" ++ t) ≡ b'\'' ∷ decode_from 0 t
unfolding decode_from entity_at entity cut_at
apos t = refl

other : (c : ℕ) (t : Bytes) → (c == b'&') ≡ false → decode_from 0 (c ∷ t) ≡ c ∷ decode_from 0 t
unfolding decode_from
other c t e = rw (e, decode_from) refl

same : (c d : ℕ) → (c == d) ≡ true → d ≡ c
same c d e = ground arith

decode_char : (c : ℕ) (t : Bytes) → decode_from 0 (escape_char c ++ t) ≡ c ∷ decode_from 0 t
decode_char c t =
    if-cases (λ w. decode_from 0 (w ++ t) ≡ c ∷ decode_from 0 t) (c == b'&') _ _
      (λ e. amp t ∙ put_back b'&' e)
      (λ not_amp.
        if-cases (λ w. decode_from 0 (w ++ t) ≡ c ∷ decode_from 0 t) (c == b'<') _ _
          (λ e. lt t ∙ put_back b'<' e)
          (λ q.
            if-cases (λ w. decode_from 0 (w ++ t) ≡ c ∷ decode_from 0 t) (c == b'>') _ _
              (λ e. gt t ∙ put_back b'>' e)
              (λ r.
                if-cases (λ w. decode_from 0 (w ++ t) ≡ c ∷ decode_from 0 t) (c == b'"') _ _
                  (λ e. quot t ∙ put_back b'"' e)
                  (λ u.
                    if-cases (λ w. decode_from 0 (w ++ t) ≡ c ∷ decode_from 0 t) (c == b'\'') _ _
                      (λ e. apos t ∙ put_back b'\'' e) (λ v. other c t not_amp)))))
  where
    put_back : (d : ℕ) → (c == d) ≡ true → d ∷ decode_from 0 t ≡ c ∷ decode_from 0 t
    put_back d e = ap (λ x. x ∷ decode_from 0 t) (same c d e)

-- A text that is written with the entities of '&', '<', '>' and the quotes is decoded to itself.
pub decode_html_entities-escape : (s : Bytes) → decode_html_entities (escape s) ≡ s
unfolding decode_html_entities
decode_html_entities-escape [] = unfold decode_from in refl
decode_html_entities-escape (c ∷ s) =
    decode_char c (escape s) ∙ ap (λ t. c ∷ t) (decode_html_entities-escape s)
