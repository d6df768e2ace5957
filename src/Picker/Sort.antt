-- ===== src/Picker/Sort.antt =====
-- The order of the entries in the constructor of the picker (src/ui/picker.hh). stable_sort is
-- std::ranges::stable_sort of the C++ library, which is documented by its result: any way of sorting
-- that keeps the order of equal elements gives the same list.
use weechat_xmpp_improved.Prelude.{
  if-cases, bytes_eq_iff, ap, ◌∙◌, ◌≡◌, refl, sym, Bool, true, false, not, ◌&&◌, ◌||◌, bytes_eq,
  List, [], ◌∷◌, Bytes, lower, All, arith, if◌then◌else◌, Bool-cases, inl, inr,
}
use weechat_xmpp_improved.Omemo.Store.Lex.{lt_lex, lt_lex_irrefl, lt_lex_trans, lt_lex_total}
use weechat_xmpp_improved.Picker.{Entry}

module _ {A : Type 0} where
  -- Headers first, then by the label in lower case.
  unfoldable pub before : Entry A → Entry A → Bool
  before a b =
      if a.selectable
      then (if b.selectable then lt_lex (lower a.label) (lower b.label) else false)
      else (if b.selectable then true else lt_lex (lower a.label) (lower b.label))

-- An element is put in front of the first that it does not follow.
module _ {A : Type 0} (comes_before : A → A → Bool) where
  unfoldable pub insert_sorted : A → List A → List A
  insert_sorted e [] = e ∷ []
  insert_sorted e (x ∷ xs) =
      let rest = insert_sorted e xs in if comes_before x e then x ∷ rest else e ∷ x ∷ xs

  unfoldable pub stable_sort : List A → List A
  stable_sort [] = []
  stable_sort (e ∷ es) = insert_sorted e (stable_sort es)

-- What the constructor does with the entries if they are to be sorted.
unfoldable pub sort_entries : {A : Type 0} → List (Entry A) → List (Entry A)
sort_entries es = stable_sort before es

lt_lex_asym : (x y : Bytes) → lt_lex x y ≡ true → lt_lex y x ≡ false
lt_lex_asym x y h = elim (Bool-cases (lt_lex y x)) [
  | inl k ↦ absurd (ground (arith, lt_lex_trans x y x h k, lt_lex_irrefl x))
  | inr k ↦ k
]

lt_lex_cotrans : (x y z : Bytes) → lt_lex x y ≡ false → lt_lex y z ≡ false → lt_lex x z ≡ false
lt_lex_cotrans x y z h k = elim (Bool-cases (lt_lex x z)) [
  | inr l ↦ l
  | inl l ↦ elim (Bool-cases (lt_lex y x)) [
    | inl m ↦ absurd (ground (arith, lt_lex_trans y x z m l))
    | inr m ↦
        absurd (ground (arith, ap (λ s. lt_lex s z) ((bytes_eq_iff x y).0 (lt_lex_total x y h m))))
  ]
]

lt_lex_tie : (x y : Bytes) → (not (lt_lex x y) && not (lt_lex y x)) ≡ bytes_eq x y
lt_lex_tie x y = elim (Bool-cases (bytes_eq x y)) [
  | inl e ↦ let same = (bytes_eq_iff x y).0 e in rw (e, same, lt_lex_irrefl y) refl
  | inr e ↦ elim (Bool-cases (lt_lex x y)) [
    | inl h ↦ rw (h, e) refl
    | inr h ↦ elim (Bool-cases (lt_lex y x)) [
      | inl k ↦ rw (h, k, e) refl
      | inr k ↦ absurd (ground (arith, lt_lex_total x y h k, e))
    ]
  ]
]

abbrev same_kind : Bool → Bool → Bool
same_kind a b = if a then b else not b

module _ {A : Type 0} where
  before_asym : (a b : Entry A) → before a b ≡ true → before b a ≡ false
  unfolding before
  before_asym a b h = ground (arith, lt_lex_asym (lower a.label) (lower b.label))

  before_cotrans : (a b c : Entry A) → before a b ≡ false → before b c ≡ false → before a c ≡ false
  unfolding before
  before_cotrans a b c h k =
      ground (arith, lt_lex_cotrans (lower a.label) (lower b.label) (lower c.label))

  -- No entry is to stand before one that it follows.
  abbrev Ordered : List (Entry A) → Type 0
  Ordered [] = Unit
  Ordered (x ∷ xs) = All (λ y. before y x ≡ false) xs × Ordered xs

  -- The entries that neither go before `e` nor after it.
  abbrev alike : Entry A → List (Entry A) → List (Entry A)
  alike e [] = []
  alike e (x ∷ xs) =
      let rest = alike e xs in if not (before x e) && not (before e x) then x ∷ rest else rest

  insert_sorted-All :
      (P : Entry A → Type 0) (e : Entry A) (xs : List (Entry A))
      → P e
      → All P xs
      → All P (insert_sorted before e xs)
  unfolding insert_sorted
  insert_sorted-All P e [] h hs = (h, tt)
  insert_sorted-All P e (x ∷ xs) h (hx, hs) =
      if-cases (All P) (before x e) _ _ (λ b. (hx, insert_sorted-All P e xs h hs))
        (λ b. (h, (hx, hs)))

  All_before_lem :
      (x e : Entry A) (xs : List (Entry A))
      → before x e ≡ false
      → All (λ y. before y x ≡ false) xs
      → All (λ y. before y e ≡ false) xs
  All_before_lem x e [] h hs = tt
  All_before_lem x e (y ∷ xs) h (hy, hs) = (before_cotrans y x e hy h, All_before_lem x e xs h hs)

  insert_sorted-Ordered :
      (e : Entry A) (xs : List (Entry A)) → Ordered xs → Ordered (insert_sorted before e xs)
  unfolding insert_sorted
  insert_sorted-Ordered e [] h = (tt, tt)
  insert_sorted-Ordered e (x ∷ xs) (hx, hs) =
      if-cases Ordered (before x e) _ _
        (λ b. (
          insert_sorted-All (λ y. before y x ≡ false) e xs (before_asym x e b) hx,
          insert_sorted-Ordered e xs hs,
        ))
        (λ b. ((b, All_before_lem x e xs b hx), (hx, hs)))

  alike-insert_sorted :
      (a e : Entry A) (xs : List (Entry A)) → alike a (insert_sorted before e xs) ≡ alike a (e ∷ xs)
  unfolding insert_sorted
  alike-insert_sorted a e [] = refl
  alike-insert_sorted a e (x ∷ xs) =
      if-cases (λ l. alike a l ≡ alike a (e ∷ x ∷ xs)) (before x e) (x ∷ insert_sorted before e xs)
        (e ∷ x ∷ xs) (λ b. ground (arith, alike-insert_sorted a e xs, before_cotrans x a e))
        (λ b. refl)

  sorted-Ordered :
      (es : List (Entry A)) (a : Entry A)
      → Ordered (stable_sort before es) × (alike a (stable_sort before es) ≡ alike a es)
  unfolding stable_sort
  sorted-Ordered [] a = (tt, refl)
  sorted-Ordered (e ∷ es) a =
      let (ordered, same) = sorted-Ordered es a in
      (
        insert_sorted-Ordered e (stable_sort before es) ordered,
        alike-insert_sorted a e (stable_sort before es) ∙ ground (arith, same),
      )

  -- `y` may stand behind `x`: it is no header if `x` is none, and if both are headers or neither is,
  -- its label in lower case is not the lesser one.
  abbrev pub may_follow : Entry A → Entry A → Bool
  may_follow x y =
      if x.selectable
      then y.selectable && not (lt_lex (lower y.label) (lower x.label))
      else y.selectable || not (lt_lex (lower y.label) (lower x.label))

  -- Every entry may stand behind each in front of it.
  abbrev pub HeadersFirst : List (Entry A) → Type 0
  HeadersFirst [] = Unit
  HeadersFirst (x ∷ xs) = All (λ y. may_follow x y ≡ true) xs × HeadersFirst xs

  -- The entries with the label, in lower case, that are headers or not.
  abbrev pub labelled : Bytes → Bool → List (Entry A) → List (Entry A)
  labelled label selectable [] = []
  labelled label selectable (x ∷ xs) =
      let rest = labelled label selectable xs in
      if bytes_eq (lower x.label) label && same_kind x.selectable selectable then x ∷ rest else rest

  follows : (x y : Entry A) → before y x ≡ false → may_follow x y ≡ true
  unfolding before
  follows x y h = ground arith

  All-follow :
      (x : Entry A) (xs : List (Entry A))
      → All (λ y. before y x ≡ false) xs
      → All (λ y. may_follow x y ≡ true) xs
  All-follow x [] h = tt
  All-follow x (y ∷ xs) (hy, h) = (follows x y hy, All-follow x xs h)

  Ordered-HeadersFirst : (xs : List (Entry A)) → Ordered xs → HeadersFirst xs
  Ordered-HeadersFirst [] h = tt
  Ordered-HeadersFirst (x ∷ xs) (hx, h) = (All-follow x xs hx, Ordered-HeadersFirst xs h)

  told_apart :
      (e x : Entry A)
      → (not (before x e) && not (before e x))
        ≡ (bytes_eq (lower x.label) (lower e.label) && same_kind x.selectable e.selectable)
  unfolding before
  told_apart e x = ground (arith, lt_lex_tie (lower x.label) (lower e.label))

  alike-labelled :
      (e : Entry A) (xs : List (Entry A)) → alike e xs ≡ labelled (lower e.label) e.selectable xs
  alike-labelled e [] = refl
  alike-labelled e (x ∷ xs) =
      ap (λ b. if b then x ∷ alike e xs else alike e xs) (told_apart e x)
      ∙ ap
          (λ l.
            if bytes_eq (lower x.label) (lower e.label) && same_kind x.selectable e.selectable
            then x ∷ l
            else l)
          (alike-labelled e xs)

  -- The headers stand in front of the other entries, each of the two by the label in lower case, and
  -- the headers of a label stand as they stood before, as do the other entries of a label.
  pub sort_entries-HeadersFirst :
      (es : List (Entry A)) (e : Entry A)
      → HeadersFirst (sort_entries es)
        × (labelled (lower e.label) e.selectable (sort_entries es)
            ≡ labelled (lower e.label) e.selectable es)
  unfolding sort_entries
  sort_entries-HeadersFirst es e =
      let (ordered, same) = sorted-Ordered es e in
      (
        Ordered-HeadersFirst (stable_sort before es) ordered,
        sym (alike-labelled e (stable_sort before es)) ∙ same ∙ alike-labelled e es,
      )
