-- ===== src/Picker/Actions.antt =====
-- What the picker does: its constructor, add_entry, the keys, what is typed, and its end.
use weechat_xmpp_improved.Prelude.{
  ℕ, suc, Bool, true, false, not, ◌&&◌, ◌||◌, Option, none, some, List, [], ◌∷◌, ◌++◌, String,
  str_eq, Bytes, codes, bytes_eq, if◌then◌else◌, ◌==◌, length, get_elem?,
}
use weechat_xmpp_improved.Picker.{
  Entry, Picker, drawn, origin_shown, unhooked, on_close, buffer_closed, on_select, Direction, up,
  down, is_empty, highlight_match, visible_from, restored, selected_entry, log_of, search_row,
}
use weechat_xmpp_improved.Picker.Sort.{sort_entries}

unfoldable pub is_row : ℕ → Option ℕ → Bool
is_row row none = false
is_row row (some r) = row == r

-- No input is the empty text.
abbrev pub text_or_empty : Option Bytes → Bytes
text_or_empty none = []
text_or_empty (some s) = s

-- The picker as its constructor sets it up.
abbrev pub initial : {A : Type 0} → Bytes → List (Entry A) → Bool → Bool → Bool → Bool → Picker A
initial title entries has_on_select has_on_close has_origin sorts = record {
  entries = if sorts then sort_entries entries else entries;
  visible = [];
  title = title;
  filter = [];
  selected_vis = none;
  has_origin = has_origin;
  has_on_select = has_on_select;
  has_on_close = has_on_close;
  is_open = true;
  is_hooked = true;
  is_active = true;
  is_deleted = false;
  log = [];
}

-- `color` is weechat_color; the line of instructions is `help`.
module _ (color : String → Bytes) (help : Bytes) where
  unfoldable pub header : Bytes → Bytes → Bytes
  header title filter =
      color "bold"
      ++ (title
          ++ (color "reset"
              ++ ((if is_empty filter
                    then []
                    else codes "  "
                      ++ (color "yellow"
                          ++ (codes "[search: " ++ (filter ++ (codes "]" ++ color "reset")))))
                  ++ (codes "  " ++ (color "darkgray" ++ (help ++ color "reset"))))))

  unfoldable pub no_matches : Bytes
  no_matches = codes "  " ++ (color "darkgray" ++ (codes "(no matches)" ++ color "reset"))

  -- A text with no filter is printed as it is.
  unfoldable pub filtered : Bytes → Bytes → Bool → Bytes
  filtered text filter is_selected =
      if is_empty filter then text else highlight_match color text filter is_selected

  module _ {A : Type 0} where
    unfoldable pub sublabel_text : Entry A → Bytes → Bytes
    sublabel_text e filter =
        if is_empty e.sublabel
        then []
        else codes "  " ++ (color "darkgray" ++ (filtered e.sublabel filter false ++ color "reset"))

    -- A row of the buffer, whether the selection is on it or not.
    unfoldable pub line : Bytes → Entry A → Bool → Bytes
    line filter e here =
        let is_sel = here && e.selectable in
        (if is_sel then color "reverse" else [])
        ++ (if not e.selectable
            then color "darkgray" ++ (codes "  " ++ (e.label ++ color "reset"))
            else codes "  "
              ++ (filtered e.label filter is_sel
                  ++ (sublabel_text e filter ++ (if is_sel then color "reset" else []))))

    unfoldable pub lines_from : Picker A → ℕ → List ℕ → List Bytes
    lines_from p row [] = []
    lines_from p row (i ∷ vis) = elim (get_elem? p.entries i) [
      | none ↦ lines_from p (suc row) vis
      | some e ↦ line p.filter e (is_row row p.selected_vis) ∷ lines_from p (suc row) vis
    ]

    unfoldable pub rows : Picker A → List Bytes
    rows p =
        header p.title p.filter
        ∷ (elim p.visible [ [] ↦ no_matches ∷ [] | i ∷ vis ↦ lines_from p 0 (i ∷ vis) ])

    unfoldable pub redraw : Picker A → Picker A
    redraw p = if p.is_open then log_of (drawn (rows p)) p else p

    unfoldable pub refilter : Picker A → Picker A
    refilter p =
        let vis = visible_from p.filter 0 p.entries in
        redraw
          (record p { visible = vis; selected_vis = restored p.entries vis (selected_entry p) })

    unfoldable pub add_entry : Entry A → Picker A → Picker A
    add_entry e p = refilter (record p { entries = p.entries ++ (e ∷ []) })

    unfoldable pub navigate : Direction → Picker A → Picker A
    navigate dir p = elim p.visible [
      | [] ↦ p
      | i ∷ vis ↦ redraw (record p {
        selected_vis = search_row dir p.entries p.visible (length p.visible) p.selected_vis;
      })
    ]

    -- The parts of close_picker and of what the end of the buffer runs.
    unfoldable pub show_origin : Picker A → Picker A
    show_origin p = if p.has_origin then log_of origin_shown p else p

    unfoldable pub unhook : Picker A → Picker A
    unhook p = if p.is_hooked then log_of unhooked (record p { is_hooked = false }) else p

    unfoldable pub run_on_close : Picker A → Picker A
    run_on_close p = if p.has_on_close then log_of on_close p else p

    -- s_close_cb, and the destructor that it runs.
    unfoldable pub s_close_cb : Picker A → Picker A
    unfolding unhook
    s_close_cb p = record (unhook p) { is_active = false; is_deleted = true }

    unfoldable pub close_buffer : Bool → Picker A → Picker A
    close_buffer is_open p = if is_open then s_close_cb (log_of buffer_closed p) else p

    unfoldable pub close_picker : Picker A → Picker A
    unfolding show_origin unhook run_on_close close_buffer
    close_picker p =
        close_buffer p.is_open
          (run_on_close (unhook (record (show_origin p) { is_open = false; is_active = false })))

    unfoldable pub call_on_select : A → Picker A → Picker A
    call_on_select value p = if p.has_on_select then log_of (on_select value) p else p

    -- The entry of the selected row, if it is in range and can be selected.
    unfoldable pub chosen : Picker A → Option A
    chosen p = elim (selected_entry p) [
      | none ↦ none
      | some i ↦ elim (get_elem? p.entries i) [
        | none ↦ none
        | some e ↦ if e.selectable then some e.value else none
      ]
    ]

    unfoldable pub confirm : Picker A → Picker A
    unfolding call_on_select
    confirm p = elim (chosen p) [
      | none ↦ close_picker p
      | some value ↦ call_on_select value (close_picker p)
    ]

    abbrev pub cancel : Picker A → Picker A
    cancel = close_picker

    unfoldable pub by_key : String → Picker A → Picker A
    by_key dir p =
        if str_eq dir "up"
        then navigate up p
        else if str_eq dir "down"
        then navigate down p
        else if str_eq dir "enter"
        then confirm p
        else if str_eq dir "quit"
        then cancel p
        else p

    -- /xmpp-picker-nav, with argv; without an active picker it does nothing.
    unfoldable pub picker_nav_cb : List String → Picker A → Picker A
    unfolding by_key
    picker_nav_cb (command ∷ dir ∷ _) p = if p.is_active then by_key dir p else p
    picker_nav_cb _ p = p

    -- The signal of a changed input line; it is not hooked after the end of the picker.
    unfoldable pub s_signal_cb : Bool → Option Bytes → Picker A → Picker A
    s_signal_cb is_current input p =
        let new_filter = text_or_empty input in
        if not p.is_hooked || not p.is_open || not is_current || bytes_eq new_filter p.filter
        then p
        else refilter (record p { filter = new_filter })

    -- The constructor, where weechat_buffer_new returns a buffer.
    unfoldable pub open_picker : Bytes → List (Entry A) → Bool → Bool → Bool → Bool → Picker A
    open_picker title entries has_on_select has_on_close has_origin sorts =
        refilter (initial title entries has_on_select has_on_close has_origin sorts)
