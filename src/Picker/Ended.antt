-- ===== src/Picker/Ended.antt =====
-- What a choice is, and what the end of a picker does to the choices made.
use weechat_xmpp_improved.Prelude.{
  ℕ, ◌≤◌, ◌≡◌, ◌⊎◌, inl, inr, refl, sym, ap, ◌∙◌, Bool, true, false, some, List, [], ◌∷◌, ◌++◌,
  String, Bytes, get_elem?, IsIn, zero, suc, ◌-◌, append-nil, arith, Bool-cases, Option-cases,
}
use mathlib.Core.Path.{subst}
use weechat_xmpp_improved.Picker.{
  Entry, Picker, Effect, drawn, origin_shown, unhooked, on_close, buffer_closed, on_select,
  is_match, visible_from, selected_entry,
}
use weechat_xmpp_improved.Picker.Actions.{
  redraw, show_origin, unhook, run_on_close, s_close_cb, close_buffer, close_picker, chosen,
}
use weechat_xmpp_improved.Picker.Valid.{IsValid}

-- The values given to on_select.
abbrev pub choices : {A : Type 0} → List (Effect A) → List A
choices [] = []
choices (on_select v ∷ log) = v ∷ choices log
choices (drawn rows ∷ log) = choices log
choices (origin_shown ∷ log) = choices log
choices (unhooked ∷ log) = choices log
choices (on_close ∷ log) = choices log
choices (buffer_closed ∷ log) = choices log

pub choices-append :
    {A : Type 0} (xs ys : List (Effect A)) → choices (xs ++ ys) ≡ choices xs ++ choices ys
choices-append [] ys = refl
choices-append (on_select v ∷ xs) ys = ap (◌∷◌ v) (choices-append xs ys)
choices-append (drawn rows ∷ xs) ys = choices-append xs ys
choices-append (origin_shown ∷ xs) ys = choices-append xs ys
choices-append (unhooked ∷ xs) ys = choices-append xs ys
choices-append (on_close ∷ xs) ys = choices-append xs ys
choices-append (buffer_closed ∷ xs) ys = choices-append xs ys

pub IsIn-append : {A : Type 0} (x : A) (xs ys : List A) → IsIn x xs → IsIn x (xs ++ ys)
IsIn-append x [] ys h = absurd h
IsIn-append x (y ∷ xs) ys (inl e) = inl e
IsIn-append x (y ∷ xs) ys (inr h) = inr (IsIn-append x xs ys h)

pub IsIn-get_elem? :
    {A : Type 0} (xs : List A) (i : ℕ) (x : A) → get_elem? xs i ≡ some x → IsIn x xs
IsIn-get_elem? [] i x e = absurd (ground arith)
IsIn-get_elem? (y ∷ xs) zero x e = inl (ground arith)
IsIn-get_elem? (y ∷ xs) (suc i) x e = inr (IsIn-get_elem? xs i x e)

visible_from-cons :
    {A : Type 0} (filter : Bytes) (i : ℕ) (x : Entry A) (es : List (Entry A)) (j : ℕ)
    → IsIn j (visible_from filter i (x ∷ es))
    → ((j ≡ i) × (is_match filter x ≡ true)) ⊎ IsIn j (visible_from filter (suc i) es)
unfolding visible_from
visible_from-cons filter i x es j h = elim (Bool-cases (is_match filter x)) [
  | inl m ↦ split m (rw (m, visible_from) at h)
  | inr m ↦ inr (rw (m, visible_from) at h)
]
  where
    split :
        is_match filter x ≡ true
        → IsIn j (i ∷ visible_from filter (suc i) es)
        → ((j ≡ i) × (is_match filter x ≡ true)) ⊎ IsIn j (visible_from filter (suc i) es)
    split m (inl e) = inl (e, m)
    split m (inr k) = inr k

visible_from-le :
    {A : Type 0} (filter : Bytes) (i : ℕ) (es : List (Entry A)) (j : ℕ)
    → IsIn j (visible_from filter i es)
    → i ≤ j
unfolding visible_from
visible_from-le filter i [] j h = absurd h
visible_from-le filter i (x ∷ es) j h = elim (visible_from-cons filter i x es j h) [
  | inl (e, m) ↦ omega arith
  | inr k ↦ omega (arith, visible_from-le filter (suc i) es j k)
]

visible_from-match :
    {A : Type 0} (filter : Bytes) (i : ℕ) (es : List (Entry A)) (j : ℕ) (e : Entry A)
    → IsIn j (visible_from filter i es)
    → get_elem? es (j - i) ≡ some e
    → is_match filter e ≡ true
visible_from-match filter i [] j e h g = absurd (ground arith)
visible_from-match filter i (x ∷ es) j e h g = elim (visible_from-cons filter i x es j h) [
  | inl (same, m) ↦
      let first : j - i ≡ 0 = omega arith in
      let found : some x ≡ some e = sym (ap (get_elem? (x ∷ es)) first) ∙ g in
      ground (arith, found, m)
  | inr k ↦
      let later : j - i ≡ suc (j - suc i) = omega (arith, visible_from-le filter (suc i) es j k) in
      visible_from-match filter (suc i) es j e k (sym (ap (get_elem? (x ∷ es)) later) ∙ g)
]

-- A change that chooses nothing and lets the picker listen no more.
pub record Ended {A : Type 0} (p q : Picker A) : Type 0 where
  pub quiet : choices q.log ≡ choices p.log
  pub unhooked : q.is_hooked ≡ false
  pub inactive : q.is_active ≡ false

module _ {A : Type 0} (color : String → Bytes) (help : Bytes) where
  pub s_close_cb-Ended : (p : Picker A) → Ended p (s_close_cb color help p)
  unfolding s_close_cb unhook
  s_close_cb-Ended p = record {
    quiet = ground (arith, choices-append p.log (unhooked ∷ []), append-nil (choices p.log));
    unhooked = ground arith;
    inactive = refl;
  }

  pub redraw-choices : (p : Picker A) → choices (redraw color help p).log ≡ choices p.log
  unfolding redraw
  redraw-choices p = elim (Bool-cases p.is_open) [
    | inl e ↦ rw (e, redraw) (choices-append p.log _ ∙ append-nil (choices p.log))
    | inr e ↦ rw (e, redraw) refl
  ]

  pub logs_quiet :
      (log : List (Effect A)) (x : Effect A)
      → choices (x ∷ []) ≡ []
      → choices (log ++ (x ∷ [])) ≡ choices log
  logs_quiet log x e =
      choices-append log (x ∷ []) ∙ ap (λ c. choices log ++ c) e ∙ append-nil (choices log)

  show_origin-quiet : (p : Picker A) → choices (show_origin color help p).log ≡ choices p.log
  unfolding show_origin
  show_origin-quiet p = ground (arith, logs_quiet p.log origin_shown refl)

  unhook-Unhooked :
      (p : Picker A)
      → (choices (unhook color help p).log ≡ choices p.log)
        × ((unhook color help p).is_hooked ≡ false)
        × ((unhook color help p).is_active ≡ p.is_active)
  unfolding unhook
  unhook-Unhooked p = ground (arith, logs_quiet p.log unhooked refl)

  run_on_close-quiet :
      (p : Picker A)
      → (choices (run_on_close color help p).log ≡ choices p.log)
        × ((run_on_close color help p).is_hooked ≡ p.is_hooked)
        × ((run_on_close color help p).is_active ≡ p.is_active)
  unfolding run_on_close
  run_on_close-quiet p = ground (arith, logs_quiet p.log on_close refl)

  close_buffer-Ended :
      (is_open : Bool) (p : Picker A)
      → p.is_hooked ≡ false
      → p.is_active ≡ false
      → Ended p (close_buffer color help is_open p)
  unfolding close_buffer
  close_buffer-Ended false p h k = record { quiet = refl; unhooked = h; inactive = k }
  close_buffer-Ended true p h k =
      let e = s_close_cb-Ended (record p { log = p.log ++ (buffer_closed ∷ []) }) in
      record {
        quiet = e.quiet ∙ logs_quiet p.log buffer_closed refl;
        unhooked = e.unhooked;
        inactive = e.inactive;
      }

  pub close_picker-Ended : (p : Picker A) → Ended p (close_picker color help p)
  unfolding close_picker
  close_picker-Ended p =
      let p1 = record (show_origin color help p) { is_open = false; is_active = false } in
      let p2 = unhook color help p1 in
      let p3 = run_on_close color help p2 in
      let (quiet2, hook2, active2) = unhook-Unhooked p1 in
      let (quiet3, hook3, active3) = run_on_close-quiet p2 in
      let e = close_buffer-Ended p.is_open p3 (hook3 ∙ hook2) (active3 ∙ active2) in
      record {
        quiet = e.quiet ∙ quiet3 ∙ quiet2 ∙ show_origin-quiet p;
        unhooked = e.unhooked;
        inactive = e.inactive;
      }

  row_entry : (p : Picker A) (i : ℕ) → selected_entry p ≡ some i → IsIn i p.visible
  row_entry p i e = elim (Option-cases p.selected_vis) [
    | inl none_left ↦ absurd (ground arith)
    | inr (r, at) ↦ IsIn-get_elem? p.visible r i (ground arith)
  ]

  pub chosen_lem :
      (p : Picker A) (v : A)
      → IsValid p
      → chosen color help p ≡ some v
      → (e : Entry A) × IsIn e p.entries
        × (e.selectable ≡ true)
        × (is_match p.filter e ≡ true)
        × (e.value ≡ v)
  unfolding chosen
  chosen_lem p v valid c = elim (Option-cases (selected_entry p)) [
    | inl none_left ↦ absurd (ground arith)
    | inr (i, at) ↦ elim (Option-cases (get_elem? p.entries i)) [
      | inl none_left ↦ absurd (ground arith)
      | inr (e, found) ↦ (
        e,
        IsIn-get_elem? p.entries i e found,
        ground arith,
        visible_from-match p.filter 0 p.entries i e (subst (IsIn i) valid.shows (row_entry p i at))
            (ap (get_elem? p.entries) (omega arith) ∙ found),
        ground arith,
      )
    ]
  ]
