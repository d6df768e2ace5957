-- ===== src/Picker.antt =====
-- The picker (src/ui/picker.hh, src/ui/picker.cpp): a list in a buffer, filtered by what is typed,
-- with one row selected by the keys. A picker over entries with a value of type `A` each.
pub mod Sort
pub mod Actions
pub mod Search
pub mod Navigate
pub mod Valid
pub mod Runs
pub mod Ended
pub mod Keep
pub mod Choice
mod Tests
use weechat_xmpp_improved.Prelude.{
  find, ℕ, zero, suc, ◌+◌, ◌-◌, ◌%◌, Bool, true, false, not, ◌&&◌, ◌||◌, Option, none, some, List,
  [], ◌∷◌, ◌++◌, String, Bytes, lower, starts_with, if◌then◌else◌, ◌==◌, length, get_elem?, take,
  drop,
}

pub record Entry (A : Type 0) : Type 0 where
  pub value : A
  pub label : Bytes
  pub sublabel : Bytes
  pub selectable : Bool

-- What the picker asks of WeeChat and of its callbacks, in order; `drawn` holds the rows printed.
pub data Effect (A : Type 0) : Type 0 where
  drawn : List Bytes → Effect A
  origin_shown unhooked on_close buffer_closed : Effect A
  on_select : A → Effect A

-- `selected_vis` is none for -1; `is_open` and `is_hooked` tell whether buf_ and signal_hook_ are
-- set, `is_active` whether s_active is this picker, `is_deleted` that it is gone.
pub record Picker (A : Type 0) : Type 0 where
  pub entries : List (Entry A)
  pub visible : List ℕ
  pub title : Bytes
  pub filter : Bytes
  pub selected_vis : Option ℕ
  pub has_origin : Bool
  pub has_on_select : Bool
  pub has_on_close : Bool
  pub is_open : Bool
  pub is_hooked : Bool
  pub is_active : Bool
  pub is_deleted : Bool
  pub log : List (Effect A)

pub data Direction : Type 0 where
  up down : Direction

abbrev pub is_empty : Bytes → Bool
is_empty [] = true
is_empty (c ∷ s) = false

unfoldable pub contains : Bytes → Bytes → Bool
contains needle s = elim (find needle s) [ none ↦ false | some i ↦ true ]

module _ (color : String → Bytes) where
  when_selected : Bool → String → Bytes
  when_selected is_selected code = if is_selected then color code else []

  unfoldable pub highlight_match : Bytes → Bytes → Bool → Bytes
  unfolding when_selected
  highlight_match text [] is_selected = text
  highlight_match text (c ∷ needle) is_selected = elim (find (lower (c ∷ needle)) (lower text)) [
    | none ↦ text
    | some pos ↦
        take pos text
        ++ (when_selected is_selected "reset"
            ++ (color "yellow"
                ++ (color "bold"
                    ++ (take (length (c ∷ needle)) (drop pos text)
                        ++ (color "reset"
                            ++ (when_selected is_selected "reverse"
                                ++ drop (pos + length (c ∷ needle)) text))))))
  ]

-- The row, from `row` on, that holds this index.
unfoldable pub row_of : ℕ → ℕ → List ℕ → Option ℕ
row_of row i [] = none
row_of row i (v ∷ vs) = let later = row_of (suc row) i vs in if v == i then some row else later

abbrev pub first_of {ℓ} : {B : Type ℓ} → Option B → Option B → Option B
first_of none b = b
first_of (some a) b = some a

-- `(next + delta + n) % n`, for delta -1 and +1, with `next` none for -1; n is at least 1, and
-- for n = 1 the source has -1 % 1 = 0.
unfoldable pub move : Direction → ℕ → Option ℕ → ℕ
move down n none = n % n
move down n (some r) = (r + 1 + n) % n
move up n none = (n - 2) % n
move up n (some r) = (r + n - 1) % n

module _ {A : Type 0} where
  unfoldable pub is_match : Bytes → Entry A → Bool
  is_match filter e =
      is_empty (lower filter)
      || not e.selectable
      || contains (lower filter) (lower e.label)
      || contains (lower filter) (lower e.sublabel)

  -- The loop of refilter over the entries, from index `i` on.
  unfoldable pub visible_from : Bytes → ℕ → List (Entry A) → List ℕ
  visible_from filter i [] = []
  visible_from filter i (e ∷ es) =
      let rest = visible_from filter (suc i) es in if is_match filter e then i ∷ rest else rest

  -- `entries_[visible_[row]].selectable`, which is in range in every picker that is reached.
  unfoldable pub selectable_at : List (Entry A) → List ℕ → ℕ → Bool
  selectable_at es vis row = elim (get_elem? vis row) [
    | none ↦ false
    | some i ↦ elim (get_elem? es i) [ none ↦ false | some e ↦ e.selectable ]
  ]

  unfoldable pub first_row : List (Entry A) → List ℕ → ℕ → List ℕ → Option ℕ
  first_row es vis row [] = none
  first_row es vis row (v ∷ vs) =
      let later = first_row es vis (suc row) vs in
      if selectable_at es vis row then some row else later

  unfoldable pub first_selectable_vis : List (Entry A) → List ℕ → ℕ → Option ℕ
  first_selectable_vis es vis start = first_row es vis start (drop start vis)

  abbrev pub selected_entry : Picker A → Option ℕ
  selected_entry p = elim p.selected_vis [ none ↦ none | some r ↦ get_elem? p.visible r ]

  unfoldable pub restored : List (Entry A) → List ℕ → Option ℕ → Option ℕ
  restored es vis prev =
      first_of (elim prev [ none ↦ none | some i ↦ row_of 0 i vis ]) (first_selectable_vis es vis 0)

  abbrev pub log_of : Effect A → Picker A → Picker A
  log_of x p = record p { log = p.log ++ (x ∷ []) }

  unfoldable pub search_row : Direction → List (Entry A) → List ℕ → ℕ → Option ℕ → Option ℕ
  search_row dir es vis zero next = next
  search_row dir es vis (suc steps) next =
      let r = move dir (length vis) next in
      let rest = search_row dir es vis steps (some r) in
      if selectable_at es vis r then some r else rest
