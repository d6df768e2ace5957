-- ===== src/Omemo/Sessions/Devices.antt =====
-- Which devices of a name have a session, and the end of all its sessions.
use weechat_xmpp_improved.Prelude.{
  ℕ, ◌≡◌, ◌↔◌, refl, sym, ap, ◌∙◌, inl, inr, true, false, Option, none, some, List, [], ◌∷◌, ◌++◌,
  append_assoc, Bytes, codes, bytes_eq, bytes_eq_iff, starts_with, drop, drop-length, length, IsIn,
  if◌then◌else◌, to_string, Bool-cases, arith,
}
use weechat_xmpp_improved.Omemo.Text.{parse_uint32}
use weechat_xmpp_improved.Omemo.Store.{
  Kv, session_prefix, key_for_session, remove_prefixed_keys_gone, remove_prefixed_keys_other,
  remove_prefixed_keys,
}
use weechat_xmpp_improved.Omemo.Prekeys.{ℤ}
use weechat_xmpp_improved.Omemo.Store.Lex.{Sorted, lookup, lookup_above}
use weechat_xmpp_improved.Omemo.Sessions.{
  is_some, to_int, device_of, devices, session_load, session_get_sub_devices, session_delete_all,
}

starts_with-append : (p t : Bytes) → starts_with p (p ++ t) ≡ true
unfolding starts_with
starts_with-append [] t = refl
starts_with-append (c ∷ p) t = ground (arith, starts_with-append p t)

starts_with-drop : (p k : Bytes) → starts_with p k ≡ true → p ++ drop (length p) k ≡ k
unfolding starts_with
starts_with-drop [] k h = refl
starts_with-drop (c ∷ p) [] h = cc
starts_with-drop (c ∷ p) (d ∷ k) h = ground (arith, starts_with-drop p k)

device_of-some :
    (p k : Bytes) (dev : ℕ)
    → device_of p k ≡ some dev
    → (t : Bytes) × (p ++ t ≡ k) × (parse_uint32 t ≡ some dev)
unfolding device_of
device_of-some p k dev h = elim (Bool-cases (starts_with p k)) [
  | inl e ↦ (drop (length p) k, starts_with-drop p k e, rw e at h)
  | inr e ↦ absurd (ground arith)
]

device_of-append :
    (p t : Bytes) (dev : ℕ) → parse_uint32 t ≡ some dev → device_of p (p ++ t) ≡ some dev
unfolding device_of
device_of-append p t dev h = rw (starts_with-append p t, drop-length p t) h

-- A device is listed exactly if a key of it is there.
devices_found :
    (p : Bytes) (es : List (Bytes × Bytes)) (dev : ℤ)
    → Sorted es
    → IsIn dev (devices p es)
    → (k : Bytes) × (v : Bytes) × (n : ℕ) × (lookup k es ≡ some v)
      × (device_of p k ≡ some n)
      × (to_int n ≡ dev)
unfolding devices lookup
devices_found p [] dev s m = absurd m
devices_found p ((j, w) ∷ es) dev (above, s) m =
    go (devices_found p es dev s) (device_of p j) refl m
  where
    Found : Type 0
    Found =
        (k : Bytes) × (v : Bytes) × (n : ℕ) × ((if bytes_eq j k then some w else lookup k es)
          ≡ some v)
        × (device_of p k ≡ some n)
        × (to_int n ≡ dev)

    Later : Type 0
    Later =
        IsIn dev (devices p es)
        → (k : Bytes) × (v : Bytes) × (n : ℕ) × (lookup k es ≡ some v)
          × (device_of p k ≡ some n)
          × (to_int n ≡ dev)

    later : Later → IsIn dev (devices p es) → Found
    later ih q =
        let (k, v, n, e, h, is) = ih q in (k, v, n, rw (lookup_above j k v es above e) e, h, is)

    go :
        Later
        → (o : Option ℕ) → device_of p j ≡ o
        → IsIn dev (elim o [ none ↦ devices p es | some n ↦ to_int n ∷ devices p es ])
        → Found
    go ih none e q = later ih q
    go ih (some n) e (inl same) = (j, w, n, rw ((bytes_eq_iff j j).1 refl) refl, e, sym same)
    go ih (some n) e (inr q) = later ih q

found_devices :
    (p k v : Bytes) (es : List (Bytes × Bytes)) (n : ℕ)
    → lookup k es ≡ some v
    → device_of p k ≡ some n
    → IsIn (to_int n) (devices p es)
unfolding devices lookup
found_devices p k v [] n e h = cc
found_devices p k v ((j, w) ∷ es) n e h = elim (Bool-cases (bytes_eq j k)) [
  | inl same ↦
      let here : device_of p j ≡ some n = rw ((bytes_eq_iff j k).0 same) h in
      rw (here, devices) (inl refl)
  | inr other ↦ weaken (device_of p j) (found_devices p k v es n (rw other at e) h)
]
  where
    weaken :
        (o : Option ℕ)
        → IsIn (to_int n) (devices p es)
        → IsIn (to_int n) (elim o [ none ↦ devices p es | some m ↦ to_int m ∷ devices p es ])
    weaken none q = q
    weaken (some m) q = inr q

nil_of_none : (l : List ℤ) → ((x : ℤ) → ¬ IsIn x l) → l ≡ []
nil_of_none [] h = refl
nil_of_none (x ∷ l) h = absurd (h x (inl refl))

module _ (kv : Kv) where
  open kv use {Db, get, entries, entries-Sorted, get_lem}

  is_some-some : (o : Option Bytes) → is_some o ≡ true → (v : Bytes) × (o ≡ some v)
  is_some-some none h = cc
  is_some-some (some v) h = (v, refl)

  -- The numbers that session_get_sub_devices lists of a name are exactly those of the keys that are
  -- the name's prefix with the text of a uint32_t behind it, each as the int that the cast makes of
  -- the uint32_t: from 2 ^ 31 on a negative one.
  pub session_get_sub_devices_iff :
      (name : Bytes) (dev : ℤ) (d : Db)
      → IsIn dev (session_get_sub_devices kv name d) ↔ (
          (text : Bytes) × (n : ℕ) × (parse_uint32 text ≡ some n)
          × (to_int n ≡ dev)
          × (is_some (get (session_prefix name ++ text) d) ≡ true))
  unfolding session_get_sub_devices
  session_get_sub_devices_iff name dev d = (
    λ m.
        let (k, v, n, e, h, is_dev) =
          devices_found (session_prefix name) (entries d) dev (entries-Sorted d) m in
        let (t, is, reads) = device_of-some (session_prefix name) k n h in
        (t, n, reads, is_dev, rw is (rw (get_lem k d ∙ e) refl)),
    λ (t, n, reads, is_dev, there).
        let (v, e) = is_some-some (get (session_prefix name ++ t) d) there in
        rw (← is_dev) (
          found_devices (session_prefix name) (session_prefix name ++ t) v (entries d) n
            (sym (get_lem (session_prefix name ++ t) d) ∙ e)
            (device_of-append (session_prefix name) t n reads)),
  )

  key_for_session_lem :
      (name : Bytes) (dev : ℕ) → session_prefix name ++ to_string dev ≡ key_for_session name dev
  key_for_session_lem name dev =
      ap (λ s. codes "session:" ++ s) (append_assoc name (b':' ∷ []) (to_string dev))

  -- session_delete_all leaves no session of the name, so that none is loaded and no device is
  -- listed, and every key without the name's prefix as it was.
  pub session_delete_all_lem :
      (name : Bytes) (d : Db)
      → let d' = (session_delete_all kv name d).0 in
        ((dev : ℕ) → session_load kv name dev d' ≡ none)
        × (session_get_sub_devices kv name d' ≡ [])
        × ((j : Bytes) → starts_with (session_prefix name) j ≡ false → get j d' ≡ get j d)
  unfolding session_delete_all session_load remove_prefixed_keys
  session_delete_all_lem name d = (
    λ dev.
        ap (λ k. get k (session_delete_all kv name d).0) (sym (key_for_session_lem name dev))
        ∙ gone (to_string dev),
    nil_of_none (session_get_sub_devices kv name (session_delete_all kv name d).0) (λ dev m.
        let (t, n, reads, is_dev, there) =
          (session_get_sub_devices_iff name dev (session_delete_all kv name d).0).0 m in
        let nothing : is_some (get (session_prefix name ++ t) (session_delete_all kv name d).0)
            ≡ false =
          ap is_some (gone t) in
        cc),
    λ j h. remove_prefixed_keys_other kv (session_prefix name) j d h,
  )
    where
      gone : (t : Bytes) → get (session_prefix name ++ t) (session_delete_all kv name d).0 ≡ none
      gone t =
          remove_prefixed_keys_gone kv (session_prefix name) (session_prefix name ++ t) d
            (starts_with-append (session_prefix name) t)
