-- ===== src/Picker/Valid.antt =====
-- What holds of every picker that is reached, and what a choice is.
use weechat_xmpp_improved.Prelude.{
  ℕ, zero, suc, ◌+◌, ◌≤◌, ◌<◌, ◌≡◌, inl, inr, refl, sym, ap, ◌==◌, Bool, true, false, Option, none,
  some, List, [], ◌∷◌, String, Bytes, if◌then◌else◌, length, arith, Option-cases,
}
use mathlib.Core.Path.{subst}
use weechat_xmpp_improved.Picker.{
  Entry, Picker, Direction, up, down, visible_from, first_row, first_selectable_vis, row_of,
  first_of, selectable_at, restored, selected_entry, search_row, move,
}
use weechat_xmpp_improved.Picker.Actions.{
  redraw, refilter, navigate, show_origin, unhook, run_on_close, s_close_cb, close_buffer,
  close_picker, call_on_select, chosen, confirm, by_key, picker_nav_cb, s_signal_cb, text_or_empty,
}
use weechat_xmpp_improved.Picker.Navigate.{InRange, start_of, turned_lt, start_lem}

-- The visible rows are the entries that match what is typed, in their order, and the selection, if
-- there is one, is one of them.
pub record IsValid {A : Type 0} (p : Picker A) : Type 0 where
  pub shows : p.visible ≡ visible_from p.filter 0 p.entries
  pub selects : InRange p.selected_vis (length p.visible)

choose-InRange :
    (b : Bool) (x y : Option ℕ) (n : ℕ) → InRange x n → InRange y n → InRange (if b then x else y) n
choose-InRange true x y n h k = h
choose-InRange false x y n h k = k

later-InRange : (o : Option ℕ) (m n : ℕ) → m ≡ n → InRange o m → InRange o n
later-InRange none m n e h = tt
later-InRange (some r) m n e h = omega arith

row_of-lt : (row i : ℕ) (vis : List ℕ) → InRange (row_of row i vis) (row + length vis)
unfolding row_of
row_of-lt row i [] = tt
row_of-lt row i (v ∷ vis) =
    choose-InRange (v == i) (some row) (row_of (suc row) i vis) (row + length (v ∷ vis))
      (omega arith)
      (later-InRange (row_of (suc row) i vis) (suc row + length vis) (row + length (v ∷ vis))
        (omega arith) (row_of-lt (suc row) i vis))

first_of-InRange : (a b : Option ℕ) (n : ℕ) → InRange a n → InRange b n → InRange (first_of a b) n
first_of-InRange none b n h k = k
first_of-InRange (some r) b n h k = h

module _ {A : Type 0} where
  first_row-lt :
      (es : List (Entry A)) (vis : List ℕ) (row : ℕ) (vs : List ℕ)
      → InRange (first_row es vis row vs) (row + length vs)
  unfolding first_row
  first_row-lt es vis row [] = tt
  first_row-lt es vis row (v ∷ vs) =
      choose-InRange (selectable_at es vis row) (some row) (first_row es vis (suc row) vs)
        (row + length (v ∷ vs)) (omega arith)
        (later-InRange (first_row es vis (suc row) vs) (suc row + length vs) (row + length (v ∷ vs))
          (omega arith) (first_row-lt es vis (suc row) vs))

  restored-InRange :
      (es : List (Entry A)) (vis : List ℕ) (prev : Option ℕ)
      → InRange (restored es vis prev) (length vis)
  unfolding restored first_selectable_vis
  restored-InRange es vis none =
      later-InRange (first_row es vis 0 vis) (0 + length vis) (length vis) (omega arith)
        (first_row-lt es vis 0 vis)
  restored-InRange es vis (some i) =
      later-InRange (first_of (row_of 0 i vis) (first_row es vis 0 vis)) (0 + length vis)
        (length vis) (omega arith)
        (first_of-InRange (row_of 0 i vis) (first_row es vis 0 vis) (0 + length vis)
          (row_of-lt 0 i vis) (first_row-lt es vis 0 vis))

  search_row-InRange :
      (dir : Direction) (es : List (Entry A)) (vis : List ℕ) (steps : ℕ) (next : Option ℕ)
      → 1 ≤ length vis
      → InRange next (length vis)
      → InRange (search_row dir es vis steps next) (length vis)
  unfolding search_row
  search_row-InRange dir es vis zero next h k = k
  search_row-InRange dir es vis (suc steps) next h k =
      let (lt, moved) = start_lem dir next (length vis) h k in
      let row = move dir (length vis) next in
      let lt' : row < length vis =
        omega (arith, moved, turned_lt dir (length vis) (start_of next (length vis)) lt) in
      choose-InRange (selectable_at es vis row) (some row) (search_row dir es vis steps (some row))
        (length vis) lt' (search_row-InRange dir es vis steps (some row) h lt')

-- A picker with the same entries, rows, filter and selection.
pub record Same {A : Type 0} (p q : Picker A) : Type 0 where
  pub entries : q.entries ≡ p.entries
  pub visible : q.visible ≡ p.visible
  pub filter : q.filter ≡ p.filter
  pub selected : q.selected_vis ≡ p.selected_vis

module _ {A : Type 0} where
  pub Same-IsValid : (p q : Picker A) → Same p q → IsValid p → IsValid q
  Same-IsValid p q s v = record {
    shows = ground (arith, s.visible, v.shows, s.filter, s.entries);
    selects =
        subst (λ o. InRange o (length q.visible)) (sym s.selected)
          (later-InRange p.selected_vis (length p.visible) (length q.visible)
            (ap length (sym s.visible)) v.selects);
  }

module _ {A : Type 0} (color : String → Bytes) (help : Bytes) where
  pub close_picker-Same : (p : Picker A) → Same p (close_picker color help p)
  unfolding close_picker s_close_cb show_origin unhook run_on_close close_buffer
  close_picker-Same p = record {
    entries = ground arith;
    visible = ground arith;
    filter = ground arith;
    selected = ground arith;
  }

  pub s_close_cb-Same : (p : Picker A) → Same p (s_close_cb color help p)
  unfolding s_close_cb unhook
  s_close_cb-Same p = record {
    entries = ground arith;
    visible = ground arith;
    filter = ground arith;
    selected = ground arith;
  }

  call_on_select-Same : (v : A) (p q : Picker A) → Same p q → Same p (call_on_select color help v q)
  unfolding call_on_select
  call_on_select-Same v p q s = record {
    entries = ground (arith, s.entries);
    visible = ground (arith, s.visible);
    filter = ground (arith, s.filter);
    selected = ground (arith, s.selected);
  }

  redraw-Same : (p : Picker A) → Same p (redraw color help p)
  unfolding redraw
  redraw-Same p = record {
    entries = ground arith;
    visible = ground arith;
    filter = ground arith;
    selected = ground arith;
  }

  pub refilter-IsValid : (p : Picker A) → IsValid (refilter color help p)
  unfolding refilter
  refilter-IsValid p =
      let vis = visible_from p.filter 0 p.entries in
      Same-IsValid _ _ (redraw-Same _)
        (record { shows = refl; selects = restored-InRange p.entries vis (selected_entry p) })

  confirm-IsValid : (p : Picker A) → IsValid p → IsValid (confirm color help p)
  unfolding confirm
  confirm-IsValid p v = elim (Option-cases (chosen color help p)) [
    | inl e ↦ rw (e, confirm) (Same-IsValid p _ (close_picker-Same p) v)
    | inr (a, e) ↦
        rw (e, confirm) (Same-IsValid p _ (call_on_select-Same a p _ (close_picker-Same p)) v)
  ]

  navigate-IsValid :
      (dir : Direction) (p : Picker A) → IsValid p → IsValid (navigate color help dir p)
  unfolding navigate
  navigate-IsValid dir p v = go p.visible refl
    where
      go : (vis : List ℕ) → p.visible ≡ vis → IsValid (navigate color help dir p)
      go [] e = rw (e, navigate) v
      go (i ∷ vis) e =
          rw (e, navigate)
            (Same-IsValid _ _ (redraw-Same _) (record {
              shows = v.shows;
              selects =
                  search_row-InRange dir p.entries p.visible (length p.visible) p.selected_vis
                    (omega (arith, ap length e)) v.selects;
            }))

  by_key-IsValid : (dir : String) (p : Picker A) → IsValid p → IsValid (by_key color help dir p)
  unfolding by_key
  by_key-IsValid dir p v = ground (
    arith,
    navigate-IsValid up p v,
    navigate-IsValid down p v,
    confirm-IsValid p v,
    Same-IsValid p (close_picker color help p) (close_picker-Same p) v,
    v,
  )

  pub picker_nav_cb-IsValid :
      (argv : List String) (p : Picker A) → IsValid p → IsValid (picker_nav_cb color help argv p)
  unfolding picker_nav_cb
  picker_nav_cb-IsValid [] p v = v
  picker_nav_cb-IsValid (c ∷ []) p v = v
  picker_nav_cb-IsValid (c ∷ dir ∷ argv) p v = ground (arith, by_key-IsValid dir p v, v)

  pub s_signal_cb-IsValid :
      (is_current : Bool) (input : Option Bytes) (p : Picker A)
      → IsValid p
      → IsValid (s_signal_cb color help is_current input p)
  unfolding s_signal_cb
  s_signal_cb-IsValid is_current input p v =
      ground (arith, refilter-IsValid (record p { filter = text_or_empty input }), v)
