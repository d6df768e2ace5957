-- ===== src/Sm/Prune.antt =====
-- The loop that drops acknowledged stanzas, on a queue that is numbered without gaps.
use weechat_xmpp_improved.Prelude.{
  ℕ, suc, ◌+◌, ◌-◌, ◌≤◌, ◌≡◌, refl, sym, ap, ◌∙◌, List, [], ◌∷◌, min, length, drop, length-drop,
  drop-nil, drop-drop, leb, arith, Bool-cases, inl, inr,
}
use weechat_xmpp_improved.Sm.{Stanza, prune, stanzas}
use weechat_xmpp_improved.Sm.Spec.{Ledger, acknowledge, pending, number}

prune_none : (h k : ℕ) (ys : List Stanza) → h ≤ k → prune h (number (suc k) ys) ≡ number (suc k) ys
unfolding prune
prune_none h k [] le = refl
prune_none h k (y ∷ ys) le = ground arith

-- Pruning drops as many stanzas as the count is ahead of the numbering.
prune-number :
    (h k : ℕ) (ys : List Stanza)
    → prune h (number (suc k) ys)
      ≡ number (suc (k + min (h - k) (length ys))) (drop (min (h - k) (length ys)) ys)
unfolding prune
prune-number h k [] = ap (number _) (sym (drop-nil _))
prune-number h k (y ∷ ys) = elim (Bool-cases (leb (suc k) h)) [
  | inl le ↦
      let e : min (h - k) (suc (length ys)) ≡ suc (min (h - suc k) (length ys)) = ground arith in
      let f : suc k + min (h - suc k) (length ys) ≡ k + suc (min (h - suc k) (length ys)) =
        omega arith in
      rw (le, e, prune-number h (suc k) ys, f)
  | inr gt ↦
      let e : min (h - k) (suc (length ys)) ≡ 0 = ground arith in
      let f : k + 0 ≡ k = omega arith in rw (gt, e, f)
]

-- On the queue of a ledger, pruning is an acknowledgement.
pub prune-pending :
    (h : ℕ) (a : Ledger)
    → a.acked ≤ length a.sent
    → prune h (number (suc a.acked) (pending a))
      ≡ number (suc (acknowledge h a).acked) (pending (acknowledge h a))
prune-pending h a le =
    let n = min (h - a.acked) (length (pending a)) in
    let e : a.acked + n ≡ (acknowledge h a).acked = omega (arith, length-drop a.acked a.sent) in
    prune-number h a.acked (pending a)
    ∙ ap (number (suc (a.acked + n))) (drop-drop n a.acked a.sent)
    ∙ ap (λ m. number (suc m) (drop m a.sent)) e

pub stanzas-number : (k : ℕ) (ys : List Stanza) → stanzas (number k ys) ≡ ys
stanzas-number k [] = refl
stanzas-number k (y ∷ ys) = ap (◌∷◌ y) (stanzas-number (suc k) ys)
