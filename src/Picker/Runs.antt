-- ===== src/Picker/Runs.antt =====
-- Sequences of what happens to a picker: entries that are added, keys, typing and the end of its
-- buffer.
use weechat_xmpp_improved.Prelude.{Bool, Option, List, [], ◌∷◌, String, Bytes}
use weechat_xmpp_improved.Picker.{Entry, Picker}
use weechat_xmpp_improved.Picker.Actions.{
  add_entry, s_close_cb, picker_nav_cb, s_signal_cb, open_picker,
}
use weechat_xmpp_improved.Picker.Valid.{
  IsValid, Same-IsValid, refilter-IsValid, s_close_cb-Same, picker_nav_cb-IsValid,
  s_signal_cb-IsValid,
}

pub data Event (A : Type 0) : Type 0 where
  adds : Entry A → Event A
  presses : List String → Event A
  types : Bool → Option Bytes → Event A
  closes : Event A

module _ {A : Type 0} (color : String → Bytes) (help : Bytes) where
  unfoldable pub step : Event A → Picker A → Picker A
  step (adds e) p = add_entry color help e p
  step (presses argv) p = picker_nav_cb color help argv p
  step (types is_current input) p = s_signal_cb color help is_current input p
  step closes p = s_close_cb color help p

  unfoldable pub run : List (Event A) → Picker A → Picker A
  run [] p = p
  run (e ∷ es) p = run es (step e p)

  pub step-IsValid : (e : Event A) (p : Picker A) → IsValid p → IsValid (step e p)
  unfolding step add_entry
  step-IsValid (adds e) p v = refilter-IsValid color help _
  step-IsValid (presses argv) p v = picker_nav_cb-IsValid color help argv p v
  step-IsValid (types is_current input) p v = s_signal_cb-IsValid color help is_current input p v
  step-IsValid closes p v = Same-IsValid p _ (s_close_cb-Same color help p) v

  runs-IsValid : (es : List (Event A)) (p : Picker A) → IsValid p → IsValid (run es p)
  unfolding run
  runs-IsValid [] p v = v
  runs-IsValid (e ∷ es) p v = runs-IsValid es (step e p) (step-IsValid e p v)

  -- From its constructor on, whatever is added, typed or pressed, the rows of a picker are the
  -- indices of the entries that match what is typed, in their order, and the selection is a row.
  pub run-open_picker-IsValid :
      (title : Bytes) (entries : List (Entry A))
      (has_on_select has_on_close has_origin sorts : Bool) (es : List (Event A))
      → IsValid (
          run es (open_picker color help title entries has_on_select has_on_close has_origin sorts))
  unfolding open_picker
  run-open_picker-IsValid title entries has_on_select has_on_close has_origin sorts es =
      runs-IsValid es _ (refilter-IsValid color help _)
