-- ===== src/Picker/Tests.antt =====
-- Pickers of numbers: a header and three entries.
use weechat_xmpp_improved.Prelude.{
  find, ℕ, ◌≡◌, refl, Bool, true, false, some, List, [], ◌∷◌, String, Bytes, codes, starts_with,
  arith,
}
use weechat_xmpp_improved.Picker.{
  Entry, Picker, down, contains, is_match, selectable_at, selected_entry,
}
use weechat_xmpp_improved.Picker.Sort.{
  sort_entries, HeadersFirst, labelled, sort_entries-HeadersFirst,
}
use weechat_xmpp_improved.Picker.Actions.{open_picker, navigate, refilter, initial}
use weechat_xmpp_improved.Picker.Navigate.{Nearest, navigate-Nearest}
use weechat_xmpp_improved.Picker.Valid.{IsValid}
use weechat_xmpp_improved.Picker.Runs.{Event, presses, types, run, run-open_picker-IsValid}
use weechat_xmpp_improved.Picker.Choice.{AtMostOne, run-open_picker-AtMostOne}
use weechat_xmpp_improved.Picker.Keep.{selected_entry-refilter}

abbrev no_color : String → Bytes
no_color c = []

abbrev row : ℕ → Bytes → Bool → Entry ℕ
row n label selectable = record { value = n; label = label; sublabel = []; selectable = selectable }

abbrev moods : List (Entry ℕ)
moods = row 1 (codes "Sad") true ∷ row 0 (codes "Moods") false ∷ row 2 (codes "happy") true ∷ []

abbrev shown : Picker ℕ
shown = record (initial (codes "Mood") moods true true true false) {
  visible = 0 ∷ 1 ∷ 2 ∷ [];
  selected_vis = some 0;
}

abbrev history : List (Event ℕ)
history =
    types true (some (codes "A"))
    ∷ presses ("/xmpp-picker-nav" ∷ "down" ∷ [])
    ∷ presses ("/xmpp-picker-nav" ∷ "enter" ∷ [])
    ∷ presses ("/xmpp-picker-nav" ∷ "enter" ∷ [])
    ∷ []

navigate-Nearest_example :
    (r : ℕ) × ((navigate no_color [] down shown).selected_vis ≡ some r)
    × Nearest down moods (0 ∷ 1 ∷ 2 ∷ []) 3 0 r
navigate-Nearest_example =
    navigate-Nearest no_color [] down shown 2 (omega arith) (omega arith)
      (unfold selectable_at in refl)

run-open_picker-IsValid_example :
    IsValid
      (run no_color [] history (open_picker no_color [] (codes "Mood") moods true true true true))
run-open_picker-IsValid_example =
    run-open_picker-IsValid no_color [] (codes "Mood") moods true true true true history

run-open_picker-AtMostOne_example :
    AtMostOne
      (run no_color [] history (open_picker no_color [] (codes "Mood") moods true true true true))
run-open_picker-AtMostOne_example =
    run-open_picker-AtMostOne no_color [] (codes "Mood") moods true true true true history

sort_entries-HeadersFirst_example :
    HeadersFirst (sort_entries moods)
    × (labelled (codes "happy") true (sort_entries moods) ≡ labelled (codes "happy") true moods)
sort_entries-HeadersFirst_example = sort_entries-HeadersFirst moods (row 2 (codes "happy") true)

selected_entry-refilter_example :
    selected_entry (refilter no_color [] (record shown { filter = codes "a" })) ≡ some 0
selected_entry-refilter_example =
    selected_entry-refilter no_color [] (record shown { filter = codes "a" }) 0
      (row 1 (codes "Sad") true) refl refl (unfold is_match contains find starts_with in refl)
