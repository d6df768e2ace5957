-- ===== src/Markup/Weave.antt =====
-- The output of apply_xep394_markup: the text with each code in front of the byte at its offset.
use weechat_xmpp_improved.Prelude.{
  All-imp, ℕ, zero, suc, ◌+◌, ◌-◌, ◌≤◌, ◌<◌, ◌≡◌, inl, inr, refl, sym, ap, ◌∙◌, ◌&&◌, List, [], ◌∷◌,
  ◌++◌, Bytes, ltb, leb, ◌==◌, if◌then◌else◌, length, take, drop, drop-drop, length-drop,
  append_assoc, All, arith, if-cases,
}
use weechat_xmpp_improved.Markup.{Event, IsBefore, Sorted, build}

-- Which events stand at `i`, and which after it, of events that are sorted.
abbrev pub codes_at : ℕ → List Event → Bytes
codes_at i [] = []
codes_at i (e ∷ es) = if e.byte_off == i then e.code ++ codes_at i es else codes_at i es

-- The rest of the text from `i` on, with the codes of every offset in front of its byte.
abbrev pub weave : ℕ → Bytes → List Event → Bytes
weave i [] es = codes_at i es
weave i (c ∷ s) es = codes_at i es ++ (c ∷ weave (suc i) s es)

abbrev pub Within : Bytes → ℕ → Event → Type 0
Within text pos e = (pos ≤ e.byte_off) × (e.byte_off ≤ length text)

codes_at-later : (i : ℕ) (es : List Event) → All (λ e. i < e.byte_off) es → codes_at i es ≡ []
codes_at-later i [] h = refl
codes_at-later i (e ∷ es) (p, h) = ground (arith, codes_at-later i es h)

-- An event that is passed counts no more.
weave_passed :
    (i : ℕ) (s : Bytes) (e : Event) (es : List Event)
    → e.byte_off < i
    → weave i s (e ∷ es) ≡ weave i s es
weave_passed i [] e es h = ground arith
weave_passed i (c ∷ s) e es h = ground (arith, weave_passed (suc i) s e es (omega arith))

-- An event at `i` comes first.
weave_here :
    (i : ℕ) (s : Bytes) (e : Event) (es : List Event)
    → e.byte_off ≡ i
    → weave i s (e ∷ es) ≡ e.code ++ weave i s es
weave_here i [] e es h = ground arith
weave_here i (c ∷ s) e es h =
    let later = weave_passed (suc i) s e es (omega arith) in
    let here : codes_at i (e ∷ es) ≡ e.code ++ codes_at i es = ground arith in
    ap (λ x. x ++ (c ∷ weave (suc i) s (e ∷ es))) here
    ∙ append_assoc e.code (codes_at i es) (c ∷ weave (suc i) s (e ∷ es))
    ∙ ap (λ x. e.code ++ (codes_at i es ++ (c ∷ x))) later

-- Bytes in front of the first event stand alone.
weave_skip :
    (n i : ℕ) (s : Bytes) (es : List Event)
    → All (λ e. i + n ≤ e.byte_off) es
    → n ≤ length s
    → weave i s es ≡ take n s ++ weave (i + n) (drop n s) es
weave_skip zero i s es h le = ap (λ j. weave j s es) (omega arith)
weave_skip (suc n) i [] es h le = absurd (omega arith)
weave_skip (suc n) i (c ∷ s) es h le =
    let none_here = codes_at-later i es (All-imp es (λ e p. omega (arith, p)) h) in
    let rest = weave_skip n (suc i) s es (All-imp es (λ e p. omega (arith, p)) h) (omega arith) in
    let same : suc i + n ≡ i + suc n = omega arith in
    ap (λ x. x ++ (c ∷ weave (suc i) s es)) none_here
    ∙ ap (◌∷◌ c) (rest ∙ ap (λ j. take n s ++ weave j (drop n s) es) same)

before_off : (a b : Event) → IsBefore a b → a.byte_off ≤ b.byte_off
before_off a b (inl h) = omega arith
before_off a b (inr (h, k)) = omega arith

pub weave-nil : (i : ℕ) (s : Bytes) → s ≡ weave i s []
weave-nil i [] = refl
weave-nil i (c ∷ s) = ap (◌∷◌ c) (weave-nil (suc i) s)

Within-next :
    (text : Bytes) (pos : ℕ) (e : Event) (es : List Event)
    → All (IsBefore e) es
    → All (Within text pos) es
    → All (Within text e.byte_off) es
Within-next text pos e [] first h = tt
Within-next text pos e (f ∷ es) (b, first) ((ge, le), h) =
    ((before_off e f b, le), Within-next text pos e es first h)

-- The bytes up to the next event.
weave_ahead :
    (text : Bytes) (pos : ℕ) (e : Event) (es : List Event)
    → pos ≤ e.byte_off
    → e.byte_off ≤ length text
    → All (Within text e.byte_off) es
    → take (e.byte_off - pos) (drop pos text) ++ weave e.byte_off (drop e.byte_off text) (e ∷ es)
      ≡ weave pos (drop pos text) (e ∷ es)
weave_ahead text pos e es ge le h =
    let n = e.byte_off - pos in
    let there : pos + n ≡ e.byte_off = omega arith in
    let far : All (λ f. pos + n ≤ f.byte_off) (e ∷ es) =
      (omega arith, All-imp es (λ f w. omega (arith, w.0)) h) in
    let skipped =
      weave_skip n pos (drop pos text) (e ∷ es) far (omega (arith, length-drop pos text)) in
    let tail : drop e.byte_off text ≡ drop n (drop pos text) =
      ap (λ k. drop k text) (sym there) ∙ sym (drop-drop n pos text) in
    ap (λ t. take n (drop pos text) ++ weave e.byte_off t (e ∷ es)) tail
    ∙ ap (λ k. take n (drop pos text) ++ weave k (drop n (drop pos text)) (e ∷ es)) (sym there)
    ∙ sym skipped

pub build-weave :
    (text : Bytes) (pos : ℕ) (es : List Event)
    → Sorted es
    → All (Within text pos) es
    → build text pos es ≡ weave pos (drop pos text) es
unfolding build
build-weave text pos [] sorted h = weave-nil pos (drop pos text)
build-weave text pos (e ∷ es) (first, sorted) ((ge, le), h) =
    let h' = Within-next text pos e es first h in
    if-cases (λ x. x ≡ weave pos (drop pos text) (e ∷ es))
      (ltb pos e.byte_off && leb e.byte_off (length text)) _ _
      (λ ahead.
        ap (λ x. take (e.byte_off - pos) (drop pos text) ++ x)
          (ap (λ x. e.code ++ x) (build-weave text e.byte_off es sorted h')
            ∙ sym (weave_here e.byte_off (drop e.byte_off text) e es refl))
        ∙ weave_ahead text pos e es ge le h')
      (λ here.
        let same : e.byte_off ≡ pos = ground arith in
        ap (λ x. e.code ++ x) (build-weave text pos es sorted h)
        ∙ sym (weave_here pos (drop pos text) e es same))
