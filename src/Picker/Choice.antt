-- ===== src/Picker/Choice.antt =====
-- What on_select is given, over the whole life of a picker.
use weechat_xmpp_improved.Prelude.{
  if-cases, ℕ, ◌≡◌, ◌⊎◌, inl, inr, refl, sym, ap, ◌∙◌, Bool, true, false, not, ◌||◌, Option, some,
  List, [], ◌∷◌, ◌++◌, String, Bytes, bytes_eq, IsIn, arith, Bool-cases, Option-cases,
}
use mathlib.Core.Path.{subst}
use weechat_xmpp_improved.Picker.{Entry, Picker, drawn, on_select, Direction, up, down, is_match}
use weechat_xmpp_improved.Picker.Actions.{
  redraw, refilter, add_entry, navigate, close_picker, call_on_select, chosen, confirm, by_key,
  picker_nav_cb, s_signal_cb, open_picker, initial, text_or_empty,
}
use weechat_xmpp_improved.Picker.Valid.{
  close_picker-Same, Same, IsValid, refilter-IsValid, s_close_cb-Same,
}
use weechat_xmpp_improved.Picker.Runs.{Event, adds, presses, types, closes, step, run, step-IsValid}
use weechat_xmpp_improved.Picker.Ended.{
  choices, choices-append, IsIn-append, logs_quiet, redraw-choices, Ended, s_close_cb-Ended,
  close_picker-Ended, chosen_lem,
}

-- One value has been chosen, that of an entry that can be selected and matches what is typed; the
-- picker listens no more.
pub record HasChosen {A : Type 0} (p : Picker A) : Type 0 where
  pub entry : Entry A
  pub among : IsIn entry p.entries
  pub can_select : entry.selectable ≡ true
  pub matches : is_match p.filter entry ≡ true
  pub only : choices p.log ≡ entry.value ∷ []
  pub unhooked : p.is_hooked ≡ false
  pub inactive : p.is_active ≡ false

abbrev pub AtMostOne : {A : Type 0} → Picker A → Type 0
AtMostOne p = (choices p.log ≡ []) ⊎ HasChosen p

module _ {A : Type 0} (color : String → Bytes) (help : Bytes) where
  redraw-HasChosen : (p : Picker A) → HasChosen p → HasChosen (redraw color help p)
  unfolding redraw
  redraw-HasChosen p h =
      if-cases HasChosen p.is_open _ p
        (λ e. record {
          entry = h.entry;
          among = h.among;
          can_select = h.can_select;
          matches = h.matches;
          only = logs_quiet color help p.log (drawn _) refl ∙ h.only;
          unhooked = h.unhooked;
          inactive = h.inactive;
        })
        (λ e. h)

  -- refilter with entries added behind.
  refilter-AtMostOne :
      (es : List (Entry A)) (p : Picker A)
      → AtMostOne p
      → AtMostOne (refilter color help (record p { entries = p.entries ++ es }))
  unfolding refilter
  refilter-AtMostOne es p (inl none_yet) = inl (redraw-choices color help _ ∙ none_yet)
  refilter-AtMostOne es p (inr h) = inr (
      redraw-HasChosen _ (record {
        entry = h.entry;
        among = IsIn-append h.entry p.entries es h.among;
        can_select = h.can_select;
        matches = h.matches;
        only = h.only;
        unhooked = h.unhooked;
        inactive = h.inactive;
      }))

  Ended-AtMostOne : (p q : Picker A) → Same p q → Ended p q → AtMostOne p → AtMostOne q
  Ended-AtMostOne p q s e (inl none_yet) = inl (e.quiet ∙ none_yet)
  Ended-AtMostOne p q s e (inr h) = inr (record {
    entry = h.entry;
    among = subst (IsIn h.entry) (sym s.entries) h.among;
    can_select = h.can_select;
    matches = ap (λ f. is_match f h.entry) s.filter ∙ h.matches;
    only = e.quiet ∙ h.only;
    unhooked = e.unhooked;
    inactive = e.inactive;
  })

  called :
      (v : A) (p : Picker A)
      → IsValid p
      → choices p.log ≡ []
      → chosen color help p ≡ some v
      → AtMostOne (call_on_select color help v (close_picker color help p))
  unfolding call_on_select
  called v p valid none_yet c =
      let q = close_picker color help p in
      let s = close_picker-Same color help p in
      let ended = close_picker-Ended color help p in
      let (e, among, can_select, matches, value) = chosen_lem color help p v valid c in
      elim (Bool-cases q.has_on_select) [
        | inl on ↦
            rw (on, call_on_select)
              (inr (record {
                entry = e;
                among = subst (IsIn e) (sym s.entries) among;
                can_select = can_select;
                matches = ap (λ f. is_match f e) s.filter ∙ matches;
                only =
                    choices-append q.log (on_select v ∷ [])
                    ∙ ap (λ l. l ++ (v ∷ [])) (ended.quiet ∙ none_yet)
                    ∙ ap (λ x. x ∷ []) (sym value);
                unhooked = ended.unhooked;
                inactive = ended.inactive;
              }))
        | inr off ↦ rw (off, call_on_select) (inl (ended.quiet ∙ none_yet))
      ]

  confirm-AtMostOne :
      (p : Picker A) → IsValid p → choices p.log ≡ [] → AtMostOne (confirm color help p)
  unfolding confirm call_on_select
  confirm-AtMostOne p valid none_yet = elim (Option-cases (chosen color help p)) [
    | inl c ↦ rw (c, confirm) (inl ((close_picker-Ended color help p).quiet ∙ none_yet))
    | inr (v, c) ↦ rw (c, confirm) (called v p valid none_yet c)
  ]

  navigate-choices :
      (dir : Direction) (p : Picker A) → choices (navigate color help dir p).log ≡ choices p.log
  unfolding navigate
  navigate-choices dir p = go p.visible refl
    where
      go :
          (vis : List ℕ) → p.visible ≡ vis → choices (navigate color help dir p).log ≡ choices p.log
      go [] e = rw (e, navigate) refl
      go (i ∷ vis) e = rw (e, navigate) (redraw-choices color help _)

  by_key-AtMostOne :
      (dir : String) (p : Picker A)
      → IsValid p
      → choices p.log ≡ []
      → AtMostOne (by_key color help dir p)
  unfolding by_key
  by_key-AtMostOne dir p valid none_yet =
      let go_up : AtMostOne (navigate color help up p) = inl (navigate-choices up p ∙ none_yet) in
      let go_down : AtMostOne (navigate color help down p) =
        inl (navigate-choices down p ∙ none_yet) in
      let enter = confirm-AtMostOne p valid none_yet in
      let quit : AtMostOne (close_picker color help p) =
        inl ((close_picker-Ended color help p).quiet ∙ none_yet) in
      let same : AtMostOne p = inl none_yet in ground (arith, go_up, go_down, enter, quit, same)

  presses-AtMostOne :
      (argv : List String) (p : Picker A)
      → IsValid p
      → AtMostOne p
      → AtMostOne (picker_nav_cb color help argv p)
  unfolding picker_nav_cb
  presses-AtMostOne [] p valid h = h
  presses-AtMostOne (c ∷ []) p valid h = h
  presses-AtMostOne (c ∷ dir ∷ argv) p valid (inr h) =
      if-cases AtMostOne p.is_active _ p (λ e. absurd (ground (arith, h.inactive))) (λ e. inr h)
  presses-AtMostOne (c ∷ dir ∷ argv) p valid (inl none_yet) =
      if-cases AtMostOne p.is_active (by_key color help dir p) p
        (λ e. by_key-AtMostOne dir p valid none_yet) (λ e. inl none_yet)

  types-AtMostOne :
      (is_current : Bool) (input : Option Bytes) (p : Picker A)
      → AtMostOne p
      → AtMostOne (s_signal_cb color help is_current input p)
  unfolding s_signal_cb refilter
  types-AtMostOne is_current input p (inr h) =
      if-cases AtMostOne
        (not p.is_hooked
          || not p.is_open
          || not is_current
          || bytes_eq (text_or_empty input) p.filter)
        p _ (λ e. inr h) (λ e. absurd (ground (arith, h.unhooked)))
  types-AtMostOne is_current input p (inl none_yet) =
      let q : Picker A = record p { filter = text_or_empty input } in
      let typed : AtMostOne (refilter color help q) =
        inl (redraw-choices color help _ ∙ none_yet) in
      let same : AtMostOne p = inl none_yet in ground (arith, typed, same)

  refilter-none : (p : Picker A) → choices p.log ≡ [] → AtMostOne (refilter color help p)
  unfolding refilter
  refilter-none p none_yet = inl (redraw-choices color help _ ∙ none_yet)

  step-AtMostOne :
      (e : Event A) (p : Picker A) → IsValid p → AtMostOne p → AtMostOne (step color help e p)
  unfolding step add_entry
  step-AtMostOne (adds e) p valid h = refilter-AtMostOne (e ∷ []) p h
  step-AtMostOne (presses argv) p valid h = presses-AtMostOne argv p valid h
  step-AtMostOne (types is_current input) p valid h = types-AtMostOne is_current input p h
  step-AtMostOne closes p valid h =
      Ended-AtMostOne p _ (s_close_cb-Same color help p) (s_close_cb-Ended color help p) h

  runs-AtMostOne :
      (es : List (Event A)) (p : Picker A)
      → IsValid p
      → AtMostOne p
      → AtMostOne (run color help es p)
  unfolding run
  runs-AtMostOne [] p valid h = h
  runs-AtMostOne (e ∷ es) p valid h =
      runs-AtMostOne es (step color help e p) (step-IsValid color help e p valid)
        (step-AtMostOne e p valid h)

  -- From its constructor on, whatever is added, typed or pressed, a picker gives at most one value
  -- to on_select: that of an entry which can be selected and matches what is typed. Afterwards it
  -- is not the active picker and no longer hears what is typed.
  pub run-open_picker-AtMostOne :
      (title : Bytes) (entries : List (Entry A))
      (has_on_select has_on_close has_origin sorts : Bool) (es : List (Event A))
      → AtMostOne (
          run color help es
            (open_picker color help title entries has_on_select has_on_close has_origin sorts))
  unfolding open_picker
  run-open_picker-AtMostOne title entries has_on_select has_on_close has_origin sorts es =
      runs-AtMostOne es _ (refilter-IsValid color help _)
        (refilter-none (initial title entries has_on_select has_on_close has_origin sorts) refl)
