-- ===== src/Picker/Keep.antt =====
-- What refilter does to the selection.
use weechat_xmpp_improved.Prelude.{
  ℕ, zero, suc, ◌+◌, ◌-◌, ◌≤◌, ◌≡◌, inl, inr, refl, ap, ◌∙◌, ◌==◌, true, false, some, List, [], ◌∷◌,
  String, Bytes, get_elem?, IsIn, arith, Bool-cases, if-cases,
}
use mathlib.Core.Path.{subst}
use weechat_xmpp_improved.Picker.{
  Entry, Picker, is_match, visible_from, row_of, first_of, restored, selected_entry,
  first_selectable_vis,
}
use weechat_xmpp_improved.Picker.Actions.{refilter, redraw}

row_of-get :
    (row i : ℕ) (vis : List ℕ)
    → IsIn i vis
    → (r : ℕ) × (row_of row i vis ≡ some r) × (row ≤ r) × (get_elem? vis (r - row) ≡ some i)
unfolding row_of
row_of-get row i [] h = absurd h
row_of-get row i (v ∷ vis) h = elim (Bool-cases (v == i)) [
  | inl e ↦
      let first : row - row ≡ 0 = omega arith in
      (row, ground arith, omega arith, ap (get_elem? (v ∷ vis)) first ∙ ground arith)
  | inr e ↦
      let (r, found, le, at) = row_of-get (suc row) i vis (rest h e) in
      let later : r - row ≡ suc (r - suc row) = omega arith in
      (r, ground (arith, found), omega arith, ap (get_elem? (v ∷ vis)) later ∙ at)
]
  where
    rest : IsIn i (v ∷ vis) → (v == i) ≡ false → IsIn i vis
    rest (inl same) e = absurd (ground arith)
    rest (inr k) e = k

visible_from-IsIn :
    {A : Type 0} (filter : Bytes) (i : ℕ) (es : List (Entry A)) (j : ℕ) (e : Entry A)
    → get_elem? es j ≡ some e
    → is_match filter e ≡ true
    → IsIn (i + j) (visible_from filter i es)
unfolding visible_from
visible_from-IsIn filter i [] j e g m = absurd (ground arith)
visible_from-IsIn filter i (x ∷ es) zero e g m =
    if-cases (IsIn (i + 0)) (is_match filter x) _ _ (λ b. inl (omega arith))
      (λ b. absurd (ground arith))
visible_from-IsIn filter i (x ∷ es) (suc j) e g m =
    let shift : suc i + j ≡ i + suc j = omega arith in
    let later =
      subst (λ k. IsIn k (visible_from filter (suc i) es)) shift
        (visible_from-IsIn filter (suc i) es j e g m) in
    if-cases (IsIn (i + suc j)) (is_match filter x) _ _ (λ b. inr later) (λ b. later)

module _ {A : Type 0} (color : String → Bytes) (help : Bytes) where
  redraw-selected_entry : (p : Picker A) → selected_entry (redraw color help p) ≡ selected_entry p
  unfolding redraw
  redraw-selected_entry p =
      if-cases (λ q. selected_entry q ≡ selected_entry p) p.is_open _ p (λ b. refl) (λ b. refl)

  -- When what is typed changes, the selection stays on its entry as long as the entry matches.
  pub selected_entry-refilter :
      (p : Picker A) (i : ℕ) (e : Entry A)
      → selected_entry p ≡ some i
      → get_elem? p.entries i ≡ some e
      → is_match p.filter e ≡ true
      → selected_entry (refilter color help p) ≡ some i
  unfolding refilter restored
  selected_entry-refilter p i e sel at m =
      let vis = visible_from p.filter 0 p.entries in
      let shown : IsIn i vis =
        subst (λ k. IsIn k vis) (omega arith) (visible_from-IsIn p.filter 0 p.entries i e at m) in
      let (r, found, le, got) = row_of-get 0 i vis shown in
      let there : get_elem? vis r ≡ some i = ap (get_elem? vis) (omega arith) ∙ got in
      let kept : restored p.entries vis (selected_entry p) ≡ some r =
        ap (restored p.entries vis) sel
        ∙ ap (λ o. first_of o (first_selectable_vis p.entries vis 0)) found in
      redraw-selected_entry _
      ∙ ap (λ s. selected_entry (record p { visible = vis; selected_vis = s })) kept
      ∙ there
