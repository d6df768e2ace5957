-- ===== src/Markup/Offsets.antt =====
-- Where the codes of apply_xep394_markup stand: within the text.
use weechat_xmpp_improved.Prelude.{
  ℕ, zero, suc, ◌+◌, ◌-◌, ◌≤◌, ◌≡◌, ◌≢◌, inl, inr, refl, sym, ap, ◌∙◌, ◌&&◌, Option, none, some,
  List, [], ◌∷◌, String, str_eq, Bytes, ltb, leb, ◌==◌, if◌then◌else◌, length, get_elem?, All,
  All-append, All-imp, arith, Option-cases, if-cases,
}
use weechat_xmpp_improved.Markup.{
  Item, Mark, Event, opens, bullet, Sorted, width, cp_table, cp_byte, newlines, range, span_codes,
  enclose, span_events, bcode_events, bquote_events, item_events, list_events, named_events,
  mark_events, all_events, get_long_attr, built, apply_xep394_markup,
}
use weechat_xmpp_improved.Markup.Weave.{weave, weave-nil, build-weave}

cp_table-le :
    (b skip : ℕ) (s : Bytes) (i x : ℕ) → get_elem? (cp_table b skip s) i ≡ some x → x ≤ b + length s
unfolding cp_table
cp_table-le b zero [] zero x e = ground arith
cp_table-le b zero [] (suc i) x e = absurd (ground arith)
cp_table-le b (suc skip) [] i x e = absurd (ground arith)
cp_table-le b zero (c ∷ s) zero x e = ground arith
cp_table-le b zero (c ∷ s) (suc i) x e = omega (arith, cp_table-le (b + 1) (width c - 1) s i x e)
cp_table-le b (suc skip) (c ∷ s) i x e = omega (arith, cp_table-le (b + 1) skip s i x e)

cp_byte-le : (text : Bytes) (cp : ℕ) → cp_byte text cp ≤ length text
unfolding cp_byte
cp_byte-le text cp = elim (Option-cases (get_elem? (cp_table 0 0 text) cp)) [
  | inl past ↦ ground arith
  | inr (b, found) ↦ ground (arith, cp_table-le 0 0 text cp b found)
]

abbrev IsInside : Bytes → Event → Type 0
IsInside text e = e.byte_off ≤ length text

newlines-IsInside :
    (n b sb eb : ℕ) (code s : Bytes)
    → b + length s ≤ n
    → All (λ e. e.byte_off ≤ n) (newlines b sb eb code s)
unfolding newlines
newlines-IsInside n b sb eb code [] h = tt
newlines-IsInside n b sb eb code (c ∷ s) h =
    let rest = newlines-IsInside n (b + 1) sb eb code s (omega arith) in
    if-cases (All (λ e. e.byte_off ≤ n)) (leb sb b && ltb b eb && c == b'\n' && ltb (b + 1) eb)
      (record { byte_off = b + 1; priority = opens; code = code } ∷ newlines (b + 1) sb eb code s)
      (newlines (b + 1) sb eb code s) (λ at. (omega arith, rest)) (λ other. rest)

enclose-IsInside :
    (color : String → Bytes) (text : Bytes) (r : ℕ × ℕ) (opening closing : Bytes)
    (inner : List Event)
    → All (IsInside text) inner
    → All (IsInside text) (enclose color text r opening closing inner)
unfolding enclose
enclose-IsInside color text (start, stop) opening closing inner h =
    (cp_byte-le text start, All-append (IsInside text) inner _ h (cp_byte-le text stop, tt))

module _ (color : String → Bytes) (text : Bytes) where
  abbrev Fine : List Event → Type 0
  Fine = All (IsInside text)

  span_events-IsInside :
      (items : List Item) (r : Option (ℕ × ℕ)) → Fine (span_events color text items r)
  unfolding span_events
  span_events-IsInside items none = tt
  span_events-IsInside items (some r) = go (span_codes color items)
    where
      go :
          (o : Option (Bytes × Bytes))
          → Fine (elim o [
            | none ↦ []
            | some (opening, closing) ↦ enclose color text r opening closing []
          ])
      go none = tt
      go (some (opening, closing)) = enclose-IsInside color text r opening closing [] tt

  bcode_events-IsInside : (r : Option (ℕ × ℕ)) → Fine (bcode_events color text r)
  unfolding bcode_events
  bcode_events-IsInside none = tt
  bcode_events-IsInside (some r) =
      enclose-IsInside color text r (color "gray") (color "resetcolor") [] tt

  bquote_events-IsInside : (r : Option (ℕ × ℕ)) → Fine (bquote_events color text r)
  unfolding bquote_events
  bquote_events-IsInside none = tt
  bquote_events-IsInside (some (start, stop)) =
      enclose-IsInside color text (start, stop) (color "green") (color "resetcolor") _
        (newlines-IsInside (length text) 0 (cp_byte text start) (cp_byte text stop) (color "green")
          text (omega arith))

  item_events-IsInside : (item : Item) → Fine (item_events color text item)
  unfolding item_events
  item_events-IsInside item = go item.name
    where
      at :
          (o : Option ℕ)
          → Fine (elim o [
            | none ↦ []
            | some start ↦
                record {
                  byte_off = cp_byte text start;
                  priority = bullet;
                  code = 226 ∷ 128 ∷ 162 ∷ 32 ∷ [];
                }
                ∷ []
          ])
      at none = tt
      at (some start) = (cp_byte-le text start, tt)

      go :
          (o : Option String)
          → Fine (elim o [
            | none ↦ []
            | some name ↦
                if str_eq name "li"
                then elim (get_long_attr item.start) [
                  | none ↦ []
                  | some start ↦
                      record {
                        byte_off = cp_byte text start;
                        priority = bullet;
                        code = 226 ∷ 128 ∷ 162 ∷ 32 ∷ [];
                      }
                      ∷ []
                ]
                else []
          ])
      go none = tt
      go (some name) =
          if-cases Fine (str_eq name "li") _ [] (λ li. at (get_long_attr item.start)) (λ other. tt)

  list_events-IsInside : (items : List Item) → Fine (list_events color text items)
  unfolding list_events
  list_events-IsInside [] = tt
  list_events-IsInside (item ∷ items) =
      All-append (IsInside text) (item_events color text item) _ (item_events-IsInside item)
        (list_events-IsInside items)

  mark_events-IsInside : (m : Mark) → Fine (mark_events color text m)
  unfolding mark_events named_events
  mark_events-IsInside m = go m.name
    where
      go :
          (o : Option String)
          → Fine (elim o [ none ↦ [] | some name ↦ named_events color text name m ])
      go none = tt
      go (some name) =
          if-cases Fine (str_eq name "span") (span_events color text m.items (range m)) _
            (λ e. span_events-IsInside m.items (range m))
            (λ e.
              if-cases Fine (str_eq name "bcode") (bcode_events color text (range m)) _
                (λ e. bcode_events-IsInside (range m))
                (λ e.
                  if-cases Fine (str_eq name "bquote") (bquote_events color text (range m)) _
                    (λ e. bquote_events-IsInside (range m))
                    (λ e.
                      if-cases Fine (str_eq name "list") (list_events color text m.items) []
                        (λ e. list_events-IsInside m.items) (λ e. tt))))

  all_events-IsInside : (ms : List Mark) → Fine (all_events color text ms)
  unfolding all_events
  all_events-IsInside [] = tt
  all_events-IsInside (m ∷ ms) =
      All-append (IsInside text) (mark_events color text m) _ (mark_events-IsInside m)
        (all_events-IsInside ms)

none_held : (es : List Event) → All (λ e. ⊥) es → es ≡ []
none_held [] h = refl
none_held (e ∷ es) (bad, h) = absurd bad

-- If std::sort puts the codes of the marks in order, by their offsets first, and every property
-- that all of them have holds of all that it returns, then the output is the text, with the codes
-- of each offset in front of the byte there, in the order that std::sort gives them: no byte of the
-- text is lost or doubled, whatever the marks say.
pub apply_xep394_markup-weave :
    (color : String → Bytes) (sort : List Event → List Event) (text : Bytes) (marks : List Mark)
    → text ≢ []
    → Sorted (sort (all_events color text marks))
    → ((P : Event → Type 0)
        → All P (all_events color text marks)
        → All P (sort (all_events color text marks)))
    → apply_xep394_markup color sort text (some marks)
      ≡ weave 0 text (sort (all_events color text marks))
unfolding apply_xep394_markup built
apply_xep394_markup-weave color sort [] marks ne sorted holds = absurd (ne refl)
apply_xep394_markup-weave color sort (c ∷ s) marks ne sorted holds =
    go (all_events color (c ∷ s) marks) sorted (λ P h. holds P h)
      (all_events-IsInside color (c ∷ s) marks)
  where
    go :
        (es : List Event)
        → Sorted (sort es)
        → ((P : Event → Type 0) → All P es → All P (sort es))
        → All (IsInside (c ∷ s)) es
        → built sort (c ∷ s) es ≡ weave 0 (c ∷ s) (sort es)
    go [] sorted holds inside =
        weave-nil 0 (c ∷ s) ∙ ap (weave 0 (c ∷ s)) (sym (none_held (sort []) (holds (λ e. ⊥) tt)))
    go (e ∷ es) sorted holds inside =
        let at = holds (IsInside (c ∷ s)) inside in
        build-weave (c ∷ s) 0 (sort (e ∷ es)) sorted
          (All-imp (sort (e ∷ es)) (λ f w. (omega arith, w)) at)
