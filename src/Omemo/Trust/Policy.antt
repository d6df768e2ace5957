-- ===== src/Omemo/Trust/Policy.antt =====
-- The policy that the trust functions implement.
use weechat_xmpp_improved.Prelude.{
  starts_with, ℕ, ◌<◌, ◌≡◌, ◌≢◌, ◌↔◌, ◌⊎◌, inl, inr, Bool-cases, Option-cases, refl, sym, ap, ◌∙◌,
  Bool, true, false, not, ◌&&◌, ◌||◌, none, some, [], ◌∷◌, Bytes, bytes_eq, bytes_eq_iff, ◌==◌,
  if◌then◌else◌, to_string, arith,
}
use weechat_xmpp_improved.Omemo.Text.{parse_uint32, parse_uint32-to_string}
use weechat_xmpp_improved.Omemo.Store.{Kv, trust_prefix, key_for_tofu_trust, key_for_identity}
use weechat_xmpp_improved.Omemo.Store.Lex.{
  scan, any_with, scan-skip_below, any_with-lookup, lookup-any_with,
}
use weechat_xmpp_improved.Omemo.Trust.{
  OmemoTrust, untrusted, verified, undecided, blind, trust_code, trust_of, is_empty, is_decisive,
  is_accepted, read_trust, store_tofu_trust, load_tofu_trust, get_default_trust, identity_save,
  identity_is_trusted,
}

trust_of-trust_code : (t : OmemoTrust) → (trust_of (trust_code t) ≡ some t) × (trust_code t < 4)
unfolding trust_of trust_code
trust_of-trust_code untrusted = (refl, omega arith)
trust_of-trust_code verified = (refl, omega arith)
trust_of-trust_code undecided = (refl, omega arith)
trust_of-trust_code blind = (refl, omega arith)

pub read_trust-to_string : (t : OmemoTrust) → read_trust (some (to_string (trust_code t))) ≡ some t
unfolding read_trust
read_trust-to_string t =
    let (e, lt) = trust_of-trust_code t in
    ground (arith, parse_uint32-to_string (trust_code t) (omega arith), e)

decisive_read :
    (v : Bytes)
    → is_decisive v ≡ true
    → (t : OmemoTrust) × (read_trust (some v) ≡ some t) × ((t ≡ verified) ⊎ (t ≡ untrusted))
unfolding is_decisive read_trust trust_of
decisive_read v h = elim (Option-cases (parse_uint32 v)) [
  | inl e ↦ ground arith
  | inr (n, e) ↦ elim (Bool-cases (n == 0)) [
    | inl z ↦ (untrusted, ground arith, inr refl)
    | inr z ↦ (verified, ground arith, inl refl)
  ]
]

read_decisive :
    (v : Bytes) (t : OmemoTrust)
    → read_trust (some v) ≡ some t
    → (t ≡ verified) ⊎ (t ≡ untrusted)
    → is_decisive v ≡ true
unfolding is_decisive read_trust trust_of
read_decisive v verified h k = ground arith
read_decisive v untrusted h k = ground arith
read_decisive v undecided h k = ground arith
read_decisive v blind h k = ground arith

module _ (kv : Kv) where
  open kv use {Db, get, put, seek, entries, entries-Sorted, get_lem, get-put, seek_lem}

  -- A trust record of the JID, of any device, that is VERIFIED or UNTRUSTED.
  abbrev pub HasDecision : Bytes → Db → Type 0
  HasDecision jid d =
      (k : Bytes) × (t : OmemoTrust) × (read_trust (get k d) ≡ some t)
      × (starts_with (trust_prefix jid) k ≡ true)
      × ((t ≡ verified) ⊎ (t ≡ untrusted))

  scan_seek :
      (jid : Bytes) (d : Db)
      → scan is_decisive (trust_prefix jid) (seek (trust_prefix jid) d)
        ≡ any_with is_decisive (trust_prefix jid) (entries d)
  scan_seek jid d =
      ap (scan is_decisive (trust_prefix jid)) (seek_lem (trust_prefix jid) d)
      ∙ scan-skip_below is_decisive (trust_prefix jid) (entries d) (entries-Sorted d)

  scan_found :
      (jid : Bytes) (d : Db)
      → jid ≢ []
      → get_default_trust kv jid d ≡ undecided
      → any_with is_decisive (trust_prefix jid) (entries d) ≡ true
  unfolding get_default_trust
  scan_found [] d ne e = absurd (ne refl)
  scan_found (c ∷ jid) d ne e = ground (arith, scan_seek (c ∷ jid) d)

  default_undecided :
      (jid : Bytes) (d : Db)
      → jid ≢ []
      → any_with is_decisive (trust_prefix jid) (entries d) ≡ true
      → get_default_trust kv jid d ≡ undecided
  unfolding get_default_trust
  default_undecided [] d ne e = absurd (ne refl)
  default_undecided (c ∷ jid) d ne e = ground (arith, scan_seek (c ∷ jid) d)

  decision_found :
      (jid : Bytes) (d : Db)
      → HasDecision jid d
      → any_with is_decisive (trust_prefix jid) (entries d) ≡ true
  unfolding read_trust
  decision_found jid d (k, t, reads, pre, either) = elim (Option-cases (get k d)) [
    | inl e ↦ absurd (ground arith)
    | inr (v, e) ↦
        any_with-lookup is_decisive (trust_prefix jid) k v (entries d) (sym (get_lem k d) ∙ e) pre
          (read_decisive v t (sym (ap read_trust e) ∙ reads) either)
  ]

  -- A new device of a JID is undecided exactly if a trust record of the JID is VERIFIED or
  -- UNTRUSTED: the scan from the prefix on misses none and reads none of another prefix.
  pub get_default_trust_iff :
      (jid : Bytes) (d : Db)
      → jid ≢ []
      → (get_default_trust kv jid d ≡ undecided) ↔ HasDecision jid d
  get_default_trust_iff jid d ne = (
    λ e.
        let (k, v, found, pre, decisive) =
          lookup-any_with is_decisive (trust_prefix jid) (entries d) (entries-Sorted d)
            (scan_found jid d ne e) in
        let (t, reads, either) = decisive_read v decisive in
        (k, t, ap read_trust (get_lem k d ∙ found) ∙ reads, pre, either),
    λ h. default_undecided jid d ne (decision_found jid d h),
  )

  get-put_self : (k v : Bytes) (d : Db) → get k (put k v d) ≡ some v
  get-put_self k v d = get-put k v d k ∙ rw ((bytes_eq_iff k k).1 refl)

  pub load-store :
      (jid : Bytes) (dev : ℕ) (t : OmemoTrust) (d : Db)
      → jid ≢ []
      → dev ≢ 0
      → load_tofu_trust kv jid dev (store_tofu_trust kv jid dev t d) ≡ some t
  unfolding load_tofu_trust store_tofu_trust
  load-store [] dev t d ne pos = absurd (ne refl)
  load-store (c ∷ jid) dev t d ne pos =
      let k = key_for_tofu_trust (c ∷ jid) dev in
      ground (arith, get-put_self k (to_string (trust_code t)) d, read_trust-to_string t)

  -- A write to an identity key leaves trust records alone.
  load_put_identity :
      (jid : Bytes) (dev : ℕ) (key : Bytes) (d : Db)
      → load_tofu_trust kv jid dev (put (key_for_identity jid dev) key d)
        ≡ load_tofu_trust kv jid dev d
  unfolding load_tofu_trust
  load_put_identity jid dev key d =
      let other = get-put (key_for_identity jid dev) key d (key_for_tofu_trust jid dev) in
      ap (λ o. if is_empty jid || dev == 0 then none else read_trust o) other

  saved_new :
      (jid : Bytes) (dev : ℕ) (key : Bytes) (d : Db)
      → get (key_for_identity jid dev) d ≡ none
      → identity_save kv jid dev key d
        ≡ put
            (key_for_identity jid dev)
            key
            (store_tofu_trust kv jid dev (get_default_trust kv jid d) d)
  unfolding identity_save
  saved_new jid dev key d fresh = rw (fresh, identity_save)

  trusted_stored :
      (jid : Bytes) (dev : ℕ) (key other : Bytes) (t : OmemoTrust) (d : Db)
      → get (key_for_identity jid dev) d ≡ some key
      → load_tofu_trust kv jid dev d ≡ some t
      → identity_is_trusted kv jid dev other d ≡ (bytes_eq key other && is_accepted t)
  unfolding identity_is_trusted
  trusted_stored jid dev key other t d stored trust =
      rw (stored, trust, identity_is_trusted) (choose (bytes_eq key other))
    where
      choose : (b : Bool) → (if not b then false else is_accepted t) ≡ (b && is_accepted t)
      choose true = refl
      choose false = refl

  -- A new identity is accepted with its own key exactly if no record of the JID is decisive, and
  -- with no other key.
  pub identity_is_trusted-identity_save :
      (jid : Bytes) (dev : ℕ) (key other : Bytes) (d : Db)
      → jid ≢ []
      → dev ≢ 0
      → get (key_for_identity jid dev) d ≡ none
      → identity_is_trusted kv jid dev other (identity_save kv jid dev key d)
        ≡ (bytes_eq key other && is_accepted (get_default_trust kv jid d))
  identity_is_trusted-identity_save jid dev key other d ne pos fresh =
      let t = get_default_trust kv jid d in
      let d' = store_tofu_trust kv jid dev t d in
      ap (identity_is_trusted kv jid dev other) (saved_new jid dev key d fresh)
      ∙ trusted_stored jid dev key other t _ (get-put_self (key_for_identity jid dev) key d')
          (load_put_identity jid dev key d' ∙ load-store jid dev t d ne pos)
