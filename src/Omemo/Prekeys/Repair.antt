-- ===== src/Omemo/Prekeys/Repair.antt =====
-- What the repair of a short index does to prekeys behind the first hundred numbers.
use mathlib.Core.Path.{subst}
use weechat_xmpp_improved.Prelude.{
  ℕ, zero, suc, ◌+◌, ◌<◌, ◌≡◌, refl, sym, ap, ◌∙◌, inl, inr, true, false, Option, some, List, [],
  ◌∷◌, Bytes, ltb, length, u32_mod, All, IsIn, Option-cases, arith,
}
use weechat_xmpp_improved.Omemo.Text.{split, join, IsPart, split-join}
use weechat_xmpp_improved.Omemo.Store.{Kv}
use weechat_xmpp_improved.Omemo.Prekeys.{
  Signal, Generation, k_prekeys, k_signed_pre_key_record, k_signed_pre_key_timestamp,
  key_for_prekey_record, value_or, listed_as, should_rotate, recovered, recovered_from,
  repair_prekeys_index, check_index, keep_prekeys, after_rotation, rotate_signed_prekey_if_due,
  ensure_prekeys,
}
use weechat_xmpp_improved.Omemo.Prekeys.Backed.{
  entry, Numbered, index_parts, index_entry-IsPart, get-put_same, get-put_other,
}
use weechat_xmpp_improved.Omemo.Prekeys.Keeps.{recovered_inv}
use weechat_xmpp_improved.Omemo.Prekeys.Reached.{listed_as_entry}

module _ (kv : Kv) (signal : Signal) where
  open kv use {Db, get, put}
  open signal use {PreKey, id, public_key, public_key-Lacks}

  -- An entry of a number below a bound.
  abbrev IsBelow : ℕ → Bytes → Type 0
  IsBelow bound p = (k : PreKey) × (p ≡ entry kv signal k) × (id k < bound)

  recovered_from-IsBelow :
      (n count bound : ℕ) (d : Db)
      → n + count ≡ bound
      → bound < u32_mod
      → Numbered kv signal d
      → All (IsBelow bound) (recovered_from kv signal n count d)
  unfolding recovered_from
  recovered_from-IsBelow n zero bound d e lt num = tt
  recovered_from-IsBelow n (suc count) bound d e lt num =
      let later = recovered_from-IsBelow (n + 1) count bound d (omega arith) lt num in
      elim (Option-cases (recovered kv signal n d)) [
        | inl q ↦ rw (q, recovered_from) later
        | inr (p, q) ↦
            let (r, k, found, read, eq) = recovered_inv kv signal n d p q in
            let ids : id k ≡ n = num n r k (omega arith) found read in
            rw (q, recovered_from) (((k, eq, omega arith), later))
      ]

  not_among :
      (k : PreKey) (bound : ℕ) (ps : List Bytes)
      → bound < suc (id k)
      → All (IsBelow bound) ps
      → ¬ IsIn (entry kv signal k) ps
  not_among k bound [] past h = λ m. m
  not_among k bound (p ∷ ps) past ((o, is, lt), h) = λ m. elim m [
    | inl same ↦
        let e : listed_as (id k) (entry kv signal k) ≡ listed_as (id k) (entry kv signal o) =
          ap (listed_as (id k)) (same ∙ is) in
        absurd (
          ground (arith, listed_as_entry kv signal (id k) k, listed_as_entry kv signal (id k) o, e))
    | inr later ↦ not_among k bound ps past h later
  ]

  IsBelow-IsPart : (bound : ℕ) (ps : List Bytes) → All (IsBelow bound) ps → All (IsPart b';') ps
  IsBelow-IsPart bound [] h = tt
  IsBelow-IsPart bound (p ∷ ps) ((k, is, lt), h) = (
    subst (IsPart b';') (sym is)
        (index_entry-IsPart (id k) (public_key k) (public_key-Lacks k b';' refl)),
    IsBelow-IsPart bound ps h,
  )

  repaired :
      (p : Bytes) (ps : List Bytes) (d : Db)
      → recovered_from kv signal 1 100 d ≡ p ∷ ps
      → repair_prekeys_index kv signal d
        ≡ (put k_prekeys (join (p ∷ ps) (b';' ∷ [])) d, length (p ∷ ps))
  unfolding repair_prekeys_index
  repaired p ps d e = rw (e, repair_prekeys_index) refl

  check_short :
      (index p : Bytes) (ps : List Bytes) (d : Db)
      → ltb (length (split index b';')) 100 ≡ true
      → recovered_from kv signal 1 100 d ≡ p ∷ ps
      → check_index kv signal index d ≡ (
        put k_prekeys (join (p ∷ ps) (b';' ∷ [])) d,
        ltb (length (split index b';')) (length (p ∷ ps)),
      )
  unfolding check_index
  check_short index p ps d short e = rw (short, repaired p ps d e) refl

  keep_present :
      (g : Generation) (generate : ℕ → Option (List PreKey)) (r index : Bytes) (d : Db)
      → get k_signed_pre_key_record d ≡ some r
      → get k_prekeys d ≡ some index
      → keep_prekeys kv signal g generate d ≡ check_index kv signal index d
  unfolding keep_prekeys
  keep_present g generate r index d e f = rw (e, f, keep_prekeys) refl

  not_due :
      (now : ℕ) (g : Generation) (d : Db)
      → should_rotate now (get k_signed_pre_key_timestamp d) ≡ false
      → rotate_signed_prekey_if_due kv signal now g d ≡ (d, false)
  unfolding rotate_signed_prekey_if_due
  not_due now g d e = rw e refl

  ensure_short :
      (now : ℕ) (rotation first : Generation) (generate : ℕ → Option (List PreKey))
      (r index p : Bytes) (ps : List Bytes) (d : Db)
      → should_rotate now (get k_signed_pre_key_timestamp d) ≡ false
      → get k_signed_pre_key_record d ≡ some r
      → get k_prekeys d ≡ some index
      → ltb (length (split index b';')) 100 ≡ true
      → recovered_from kv signal 1 100 d ≡ p ∷ ps
      → ensure_prekeys kv signal now rotation first generate d ≡ (
        put k_prekeys (join (p ∷ ps) (b';' ∷ [])) d,
        ltb (length (split index b';')) (length (p ∷ ps)),
      )
  unfolding ensure_prekeys after_rotation
  ensure_short now rotation first generate r index p ps d fresh record_there there short e =
      ap (after_rotation kv signal first generate) (not_due now rotation d fresh)
      ∙ keep_present first generate r index d record_there there
      ∙ check_short index p ps d short e

  -- With a signed prekey that is not due and an index of fewer than 100 entries, the index is
  -- replaced by what the records of the numbers 1 to 100 give, if they give an entry: a prekey of a
  -- higher number is listed no more, although its record is still stored, and the bundle counts as
  -- new only if the entries are more than before.
  pub ensure_prekeys_forgets :
      (now : ℕ) (rotation first : Generation) (generate : ℕ → Option (List PreKey))
      (r index p : Bytes) (ps : List Bytes) (k : PreKey) (d : Db)
      → Numbered kv signal d
      → should_rotate now (get k_signed_pre_key_timestamp d) ≡ false
      → get k_signed_pre_key_record d ≡ some r
      → get k_prekeys d ≡ some index
      → ltb (length (split index b';')) 100 ≡ true
      → recovered_from kv signal 1 100 d ≡ p ∷ ps
      → 100 < id k
      → let e = ensure_prekeys kv signal now rotation first generate d in
        (index_parts kv signal e.0 ≡ p ∷ ps)
        × (¬ IsIn (entry kv signal k) (index_parts kv signal e.0))
        × (get (key_for_prekey_record (id k)) e.0 ≡ get (key_for_prekey_record (id k)) d)
        × (e.1 ≡ ltb (length (split index b';')) (length (p ∷ ps)))
  ensure_prekeys_forgets now rotation first generate r index p ps k d num fresh record_there there
        short e past =
      let eq =
        ensure_short now rotation first generate r index p ps d fresh record_there there short e in
      let below : All (IsBelow 101) (p ∷ ps) =
        subst (All (IsBelow 101)) e (recovered_from-IsBelow 1 100 101 d refl (omega arith) num) in
      let listed : index_parts kv signal (ensure_prekeys kv signal now rotation first generate d).0
          ≡ p ∷ ps =
        ap (λ x. index_parts kv signal x.0) eq
        ∙ ap (λ o. split (value_or o []) b';')
            (get-put_same kv signal k_prekeys k_prekeys (join (p ∷ ps) (b';' ∷ [])) d refl)
        ∙ split-join b';' (p ∷ ps) (IsBelow-IsPart 101 (p ∷ ps) below) in
      (
        listed,
        subst (λ l. ¬ IsIn (entry kv signal k) l) (sym listed)
            (not_among k 101 (p ∷ ps) (omega arith) below),
        ap (λ x. get (key_for_prekey_record (id k)) x.0) eq
            ∙ get-put_other kv signal k_prekeys (key_for_prekey_record (id k)) _ d refl,
        ap (λ x. x.1) eq,
      )
