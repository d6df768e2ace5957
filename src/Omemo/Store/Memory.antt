-- ===== src/Omemo/Store/Memory.antt =====
-- A database in memory that has the laws of `Kv`: a sorted list of entries.
use weechat_xmpp_improved.Prelude.{
  ◌≡◌, refl, true, none, some, List, [], ◌∷◌, Bytes, bytes_eq, bytes_eq_iff, if◌then◌else◌, All,
  arith,
}
use weechat_xmpp_improved.Omemo.Store.Lex.{
  lt_lex, Sorted, lookup, lt_lex_irrefl, lt_lex_trans, lt_lex_total,
}

abbrev Entries : Type 0
Entries = List (Bytes × Bytes)

unfoldable pub insert : Bytes → Bytes → Entries → Entries
insert k v [] = (k, v) ∷ []
insert k v ((j, w) ∷ es) =
    if lt_lex k j
    then (k, v) ∷ (j, w) ∷ es
    else if lt_lex j k
    then (j, w) ∷ insert k v es
    else (k, v) ∷ es

unfoldable pub erase : Bytes → Entries → Entries
erase k [] = []
erase k ((j, w) ∷ es) = let rest = erase k es in if bytes_eq k j then rest else (j, w) ∷ rest

abbrev Above : Bytes → Entries → Type 0
Above x = All (λ f. lt_lex x f.0 ≡ true)

Above-trans : (x y : Bytes) (es : Entries) → lt_lex x y ≡ true → Above y es → Above x es
Above-trans x y [] h a = tt
Above-trans x y ((j, w) ∷ es) h (aj, a) = (lt_lex_trans x y j h aj, Above-trans x y es h a)

insert-Above :
    (x k v : Bytes) (es : Entries) → lt_lex x k ≡ true → Above x es → Above x (insert k v es)
unfolding insert
insert-Above x k v [] h a = (h, tt)
insert-Above x k v ((j, w) ∷ es) h (aj, a) = ground (arith, insert-Above x k v es h a)

pub insert-Sorted : (k v : Bytes) (es : Entries) → Sorted es → Sorted (insert k v es)
unfolding insert
insert-Sorted k v [] s = (tt, tt)
insert-Sorted k v ((j, w) ∷ es) (aj, s) = ground (
  arith,
  Above-trans k j es,
  insert-Above j k v es,
  insert-Sorted k v es s,
  lt_lex_total k j,
  bytes_eq_iff k j,
)

erase-Above : (x k : Bytes) (es : Entries) → Above x es → Above x (erase k es)
unfolding erase
erase-Above x k [] a = tt
erase-Above x k ((j, w) ∷ es) (aj, a) = ground (arith, erase-Above x k es a)

pub erase-Sorted : (k : Bytes) (es : Entries) → Sorted es → Sorted (erase k es)
unfolding erase
erase-Sorted k [] s = tt
erase-Sorted k ((j, w) ∷ es) (aj, s) = ground (arith, erase-Above j k es aj, erase-Sorted k es s)

lookup-insert :
    (k v : Bytes) (es : Entries) (j : Bytes)
    → lookup j (insert k v es) ≡ (if bytes_eq k j then some v else lookup j es)
unfolding lookup insert
lookup-insert k v [] j = refl
lookup-insert k v ((i, w) ∷ es) j = ground (
  arith,
  bytes_eq_iff k j,
  bytes_eq_iff i j,
  bytes_eq_iff k i,
  lt_lex_total k i,
  lt_lex_irrefl i,
  lookup-insert k v es j,
)

lookup-erase :
    (k : Bytes) (es : Entries) (j : Bytes)
    → lookup j (erase k es) ≡ (if bytes_eq k j then none else lookup j es)
unfolding lookup erase
lookup-erase k [] j = ground arith
lookup-erase k ((i, w) ∷ es) j =
    ground (arith, bytes_eq_iff k j, bytes_eq_iff i j, bytes_eq_iff k i, lookup-erase k es j)

abbrev pub MemoryDb : Type 0
MemoryDb = (es : Entries) × Sorted es

abbrev pub memory_put : Bytes → Bytes → MemoryDb → MemoryDb
memory_put k v d = (insert k v d.0, insert-Sorted k v d.0 d.1)

abbrev pub memory_del : Bytes → MemoryDb → MemoryDb
memory_del k d = (erase k d.0, erase-Sorted k d.0 d.1)

pub memory_get-put :
    (k v : Bytes) (d : MemoryDb) (j : Bytes)
    → lookup j (memory_put k v d).0 ≡ (if bytes_eq k j then some v else lookup j d.0)
memory_get-put k v d j = lookup-insert k v d.0 j

pub memory_get-del :
    (k : Bytes) (d : MemoryDb) (j : Bytes)
    → lookup j (memory_del k d).0 ≡ (if bytes_eq k j then none else lookup j d.0)
memory_get-del k d j = lookup-erase k d.0 j
