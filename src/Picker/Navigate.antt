-- ===== src/Picker/Navigate.antt =====
-- The keys up and down: where the search for a row ends, and that it passes every row.
use weechat_xmpp_improved.Prelude.{
  ℕ, zero, suc, ◌+◌, ◌-◌, ◌≤◌, ◌<◌, ◌≡◌, inl, inr, refl, ap, ◌∙◌, ◌==◌, ltb, leb, true, false,
  Option, none, some, List, [], ◌∷◌, String, Bytes, if◌then◌else◌, length, arith, Bool-cases,
}
use native.Mathlib.Nat.{mod-eq_of_lt, add-mod_right, mod_self}
use weechat_xmpp_improved.Picker.{
  Entry, Picker, Direction, up, down, move, search_row, selectable_at,
}
use weechat_xmpp_improved.Picker.Actions.{navigate, redraw}

-- The next row in a ring of `n` rows.
abbrev pub turned : Direction → ℕ → ℕ → ℕ
turned down n r = if r + 1 == n then 0 else r + 1
turned up n r = if r == 0 then n - 1 else r - 1

-- Where `steps` moves from `row` lead.
abbrev pub after_moves : Direction → ℕ → ℕ → ℕ → ℕ
after_moves dir n zero row = row
after_moves dir n (suc steps) row = after_moves dir n steps (turned dir n row)

pub move-turned : (dir : Direction) (n r : ℕ) → r < n → move dir n (some r) ≡ turned dir n r
unfolding move
move-turned down n r h = elim (Bool-cases (r + 1 == n)) [
  | inl e ↦ ground (arith, add-mod_right (r + 1) n, mod_self n)
  | inr e ↦ ground (arith, add-mod_right (r + 1) n, mod-eq_of_lt {n = r + 1} {m = n})
]
move-turned up n zero h = ground (arith, mod-eq_of_lt {n = n - 1} {m = n})
move-turned up n (suc q) h = ground (arith, add-mod_right q n, mod-eq_of_lt {n = q} {m = n})

-- No row, which the code writes -1, is to a move the last row.
move-none : (dir : Direction) (n : ℕ) → 1 ≤ n → move dir n none ≡ turned dir n (n - 1)
unfolding move
move-none down n h = ground (arith, mod_self n)
move-none up n h = ground (arith, mod-eq_of_lt {n = n - 2} {m = n})

pub turned_lt : (dir : Direction) (n r : ℕ) → r < n → turned dir n r < n
turned_lt down n r h = ground arith
turned_lt up n r h = ground arith

after_down :
    (n k r : ℕ)
    → r < n
    → k ≤ n
    → after_moves down n k r ≡ (if ltb (r + k) n then r + k else (r + k) - n)
after_down n zero r h le = ground arith
after_down n (suc k) r h le = elim (Bool-cases (r + 1 == n)) [
  | inl e ↦ ground (arith, after_down n k 0)
  | inr e ↦ ground (arith, after_down n k (r + 1))
]

after_up :
    (n k r : ℕ) → r < n → k ≤ n → after_moves up n k r ≡ (if leb k r then r - k else (r + n) - k)
after_up n zero r h le = ground arith
after_up n (suc k) r h le = elim (Bool-cases (r == 0)) [
  | inl e ↦ ground (arith, after_up n k (n - 1))
  | inr e ↦ ground (arith, after_up n k (r - 1))
]

-- Every row is reached from every row, in at most `n` moves.
reach :
    (dir : Direction) (n r t : ℕ)
    → r < n
    → t < n
    → (k : ℕ) × (1 ≤ k) × (k ≤ n) × (after_moves dir n k r ≡ t)
reach down n r t h l = elim (Bool-cases (ltb r t)) [
  | inl e ↦ (t - r, ground arith, ground arith, ground (arith, after_down n (t - r) r))
  | inr e ↦ ((t + n) - r, ground arith, ground arith, ground (arith, after_down n ((t + n) - r) r))
]
reach up n r t h l = elim (Bool-cases (ltb t r)) [
  | inl e ↦ (r - t, ground arith, ground arith, ground (arith, after_up n (r - t) r))
  | inr e ↦ ((r + n) - t, ground arith, ground arith, ground (arith, after_up n ((r + n) - t) r))
]

module _ {A : Type 0} where
  -- The row that `dir` leads to from `start`: the first one on the way that can be selected, after
  -- `most` moves at most.
  pub record Nearest (dir : Direction) (es : List (Entry A)) (vis : List ℕ) (most start r : ℕ)
      : Type 0 where
    pub steps : ℕ
    pub positive : 1 ≤ steps
    pub at_most : steps ≤ most
    pub leads : after_moves dir (length vis) steps start ≡ r
    pub can_select : selectable_at es vis r ≡ true
    pub passes :
        (j : ℕ)
        → 1 ≤ j
        → j < steps
        → selectable_at es vis (after_moves dir (length vis) j start) ≡ false

  module _ (dir : Direction) (es : List (Entry A)) (vis : List ℕ) where
    abbrev next_row : ℕ → ℕ
    next_row start = turned dir (length vis) start

    Nearest-here :
        (most start : ℕ)
        → selectable_at es vis (next_row start) ≡ true
        → Nearest dir es vis (suc most) start (next_row start)
    Nearest-here most start here = record {
      steps = 1;
      positive = omega arith;
      at_most = omega arith;
      leads = refl;
      can_select = here;
      passes = λ j p q. absurd (omega arith);
    }

    Nearest-later :
        (most start r : ℕ)
        → selectable_at es vis (next_row start) ≡ false
        → Nearest dir es vis most (next_row start) r
        → Nearest dir es vis (suc most) start r
    Nearest-later most start r other h = record {
      steps = suc h.steps;
      positive = omega arith;
      at_most = omega (arith, h.at_most);
      leads = h.leads;
      can_select = h.can_select;
      passes = passed;
    }
      where
        passed :
            (j : ℕ)
            → 1 ≤ j
            → j < suc h.steps
            → selectable_at es vis (after_moves dir (length vis) j start) ≡ false
        passed zero p q = absurd (omega arith)
        passed (suc zero) p q = other
        passed (suc (suc j)) p q = h.passes (suc j) (omega arith) (omega arith)

    abbrev Finds : ℕ → ℕ → Option ℕ → Type 0
    Finds steps start o = (r : ℕ) × (o ≡ some r) × Nearest dir es vis steps start r

    -- What the search returns, if one of the next `steps` rows can be selected.
    search_row_lem :
        (k steps start : ℕ) (next : Option ℕ)
        → start < length vis
        → move dir (length vis) next ≡ next_row start
        → 1 ≤ k
        → k ≤ steps
        → selectable_at es vis (after_moves dir (length vis) k start) ≡ true
        → Finds steps start (search_row dir es vis steps next)
    unfolding search_row
    search_row_lem k zero start next lt moved pos le can = absurd (omega arith)
    search_row_lem zero (suc steps) start next lt moved pos le can = absurd (omega arith)
    search_row_lem (suc zero) (suc steps) start next lt moved pos le can =
        (next_row start, ground (arith, moved), Nearest-here steps start can)
    search_row_lem (suc (suc k)) (suc steps) start next lt moved pos le can =
        elim (Bool-cases (selectable_at es vis (next_row start))) [
          | inl here ↦ (next_row start, ground (arith, moved), Nearest-here steps start here)
          | inr other ↦
              let lt' = turned_lt dir (length vis) start lt in
              let (r, e, h) =
                search_row_lem (suc k) steps (next_row start) (some (next_row start)) lt'
                  (move-turned dir (length vis) (next_row start) lt') (omega arith) (omega arith)
                  can in
              (r, ground (arith, moved, e), Nearest-later steps start r other h)
        ]

-- No row counts as the last one.
abbrev pub start_of : Option ℕ → ℕ → ℕ
start_of none n = n - 1
start_of (some r) n = r

abbrev pub InRange : Option ℕ → ℕ → Type 0
InRange none n = Unit {0}
InRange (some r) n = r < n

pub start_lem :
    (dir : Direction) (sel : Option ℕ) (n : ℕ)
    → 1 ≤ n
    → InRange sel n
    → (start_of sel n < n) × (move dir n sel ≡ turned dir n (start_of sel n))
start_lem dir none n h u = (omega arith, move-none dir n h)
start_lem dir (some r) n h lt = (lt, move-turned dir n r lt)

pub selected_vis-navigate :
    {A : Type 0} (color : String → Bytes) (help : Bytes) (dir : Direction) (p : Picker A)
    → 1 ≤ length p.visible
    → (navigate color help dir p).selected_vis
      ≡ search_row dir p.entries p.visible (length p.visible) p.selected_vis
unfolding navigate redraw
selected_vis-navigate color help dir p h = go p.visible refl
  where
    go :
        (vis : List ℕ)
        → p.visible ≡ vis
        → (navigate color help dir p).selected_vis
          ≡ search_row dir p.entries p.visible (length p.visible) p.selected_vis
    go [] e = absurd (ground arith)
    go (i ∷ vis) e = ground arith

-- If some visible row can be selected, a key selects one: the nearest in its direction, around the
-- end of the list if need be, that can be selected, whatever row was selected before or if none was.
pub navigate-Nearest :
    {A : Type 0} (color : String → Bytes) (help : Bytes) (dir : Direction) (p : Picker A) (t : ℕ)
    → InRange p.selected_vis (length p.visible)
    → t < length p.visible
    → selectable_at p.entries p.visible t ≡ true
    → (r : ℕ) × ((navigate color help dir p).selected_vis ≡ some r)
      × Nearest dir p.entries p.visible
          (length p.visible)
          (start_of p.selected_vis (length p.visible))
          r
navigate-Nearest color help dir p t range lt can =
    let n = length p.visible in
    let (lt', moved) = start_lem dir p.selected_vis n (omega arith) range in
    let (k, pos, le, leads) = reach dir n (start_of p.selected_vis n) t lt' lt in
    let (r, e, h) =
      search_row_lem dir p.entries p.visible k n (start_of p.selected_vis n) p.selected_vis lt'
        moved pos le (ap (selectable_at p.entries p.visible) leads ∙ can) in
    (r, selected_vis-navigate color help dir p (omega arith) ∙ e, h)
