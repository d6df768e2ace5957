-- ===== src/Omemo/Trust/Distrust.antt =====
-- What distrust_fp and distrust_jid leave in the database.
use weechat_xmpp_improved.Prelude.{
  starts_with, ℕ, ◌≡◌, ◌≢◌, ◌⊎◌, inl, inr, refl, sym, ap, ◌∙◌, true, false, Option, none, some,
  List, [], ◌∷◌, ◌++◌, Bytes, codes, bytes_eq_iff, to_string, arith, Option-cases, IsIn,
}
use weechat_xmpp_improved.Omemo.Text.{split, parse_uint32, is_valid_omemo_device_id}
use weechat_xmpp_improved.Omemo.Store.{
  Kv, trust_prefix, key_for_tofu_trust, key_for_identity, key_for_axolotl_devicelist,
  remove_prefixed_keys_other,
}
use weechat_xmpp_improved.Omemo.Trust.{
  untrusted, trust_code, is_accepted, read_trust, store_tofu_trust, load_tofu_trust,
  identity_is_trusted, marked_id, mark, distrust_fp, distrust_jid,
}
use weechat_xmpp_improved.Omemo.Trust.Policy.{get_default_trust_iff, read_trust-to_string}

starts_with-append :
    (s : Bytes) (c : ℕ) (t : Bytes) → starts_with (s ++ (c ∷ [])) (s ++ (c ∷ t)) ≡ true
unfolding starts_with
starts_with-append [] c t = ground arith
starts_with-append (d ∷ s) c t = ground (arith, starts_with-append s c t)

trust_prefix-key :
    (jid : Bytes) (n : ℕ) → starts_with (trust_prefix jid) (key_for_tofu_trust jid n) ≡ true
unfolding starts_with
trust_prefix-key jid n = starts_with-append jid b':' (to_string n)

valid_pos : (n : ℕ) → is_valid_omemo_device_id n ≡ true → n ≢ 0
unfolding is_valid_omemo_device_id
valid_pos n h = ground arith

-- The text of UNTRUSTED.
abbrev zero_text : Bytes
zero_text = to_string (trust_code untrusted)

module _ (kv : Kv) where
  open kv use {Db, get, put, get-put}

  abbrev IsMarked : Bytes → ℕ → Db → Type 0
  IsMarked jid n d = get (key_for_tofu_trust jid n) d ≡ some zero_text

  store_marks :
      (jid : Bytes) (n : ℕ) (d : Db)
      → jid ≢ []
      → n ≢ 0
      → IsMarked jid n (store_tofu_trust kv jid n untrusted d)
  unfolding store_tofu_trust
  store_marks [] n d ne pos = absurd (ne refl)
  store_marks (c ∷ jid) n d ne pos =
      let k = key_for_tofu_trust (c ∷ jid) n in
      ground (arith, get-put k zero_text d k, bytes_eq_iff k k)

  store_keeps :
      (jid : Bytes) (m n : ℕ) (d : Db)
      → IsMarked jid n d
      → IsMarked jid n (store_tofu_trust kv jid m untrusted d)
  unfolding store_tofu_trust
  store_keeps jid m n d h =
      ground (arith, get-put (key_for_tofu_trust jid m) zero_text d (key_for_tofu_trust jid n))

  mark_keeps :
      (jid : Bytes) (wanted : Option ℕ) (devs : List Bytes) (n : ℕ) (d : Db)
      → IsMarked jid n d
      → IsMarked jid n (mark kv jid wanted devs d)
  unfolding mark
  mark_keeps jid wanted [] n d h = h
  mark_keeps jid wanted (dev ∷ devs) n d h = elim (Option-cases (marked_id kv wanted dev)) [
    | inl e ↦ rw e (mark_keeps jid wanted devs n d h)
    | inr (m, e) ↦ rw e (mark_keeps jid wanted devs n _ (store_keeps jid m n d h))
  ]

  mark_marks :
      (jid : Bytes) (wanted : Option ℕ) (devs : List Bytes) (dev : Bytes) (n : ℕ) (d : Db)
      → jid ≢ []
      → n ≢ 0
      → marked_id kv wanted dev ≡ some n
      → IsIn dev devs
      → IsMarked jid n (mark kv jid wanted devs d)
  unfolding mark
  mark_marks jid wanted [] dev n d ne pos e h = absurd h
  mark_marks jid wanted (x ∷ devs) dev n d ne pos e (inl same) =
      rw (ap (marked_id kv wanted) (sym same) ∙ e)
        (mark_keeps jid wanted devs n _ (store_marks jid n d ne pos))
  mark_marks jid wanted (x ∷ devs) dev n d ne pos e (inr later) =
      mark_marks jid wanted devs dev n _ ne pos e later

  marked_lem :
      (wanted : Option ℕ) (dev : Bytes) (n : ℕ)
      → (wanted ≡ none) ⊎ (wanted ≡ some n)
      → parse_uint32 dev ≡ some n
      → is_valid_omemo_device_id n ≡ true
      → marked_id kv wanted dev ≡ some n
  unfolding marked_id
  marked_lem wanted dev n w p v = ground arith

  marked_rejected :
      (jid : Bytes) (n : ℕ) (key : Bytes) (d : Db)
      → jid ≢ []
      → n ≢ 0
      → IsMarked jid n d
      → identity_is_trusted kv jid n key d ≡ false
  unfolding identity_is_trusted load_tofu_trust is_accepted
  marked_rejected jid n key d ne pos h =
      let fallback = (get_default_trust_iff kv jid d ne).1 (
        key_for_tofu_trust jid n,
        untrusted,
        ap read_trust h ∙ read_trust-to_string untrusted,
        trust_prefix-key jid n,
        inr refl,
      ) in
      ground (arith, fallback, read_trust-to_string untrusted)

  -- After distrust_fp, for one device or for all, no key of a device that the stored list of the
  -- JID names, and that is meant, is accepted, whether an identity of it is stored or not.
  pub distrust_fp_rejects :
      (jid devlist dev : Bytes) (wanted : Option ℕ) (n : ℕ) (key : Bytes) (d : Db)
      → jid ≢ []
      → get (key_for_axolotl_devicelist jid) d ≡ some devlist
      → IsIn dev (split devlist b';')
      → parse_uint32 dev ≡ some n
      → is_valid_omemo_device_id n ≡ true
      → (wanted ≡ none) ⊎ (wanted ≡ some n)
      → identity_is_trusted kv jid n key (distrust_fp kv jid wanted d) ≡ false
  unfolding distrust_fp
  distrust_fp_rejects jid devlist dev wanted n key d ne list here p v w =
      rw (list, distrust_fp)
        (marked_rejected jid n key _ ne (valid_pos n v) (
          mark_marks jid wanted (split devlist b';') dev n d ne (valid_pos n v)
            (marked_lem wanted dev n w p v) here))

  distrust_jid_other :
      (jid j : Bytes) (d : Db)
      → starts_with (codes "identity_key:" ++ jid) j ≡ false
      → starts_with (codes "bundle:" ++ (jid ++ (b':' ∷ []))) j ≡ false
      → starts_with (codes "session:" ++ (jid ++ (b':' ∷ []))) j ≡ false
      → get j (distrust_jid kv jid d) ≡ get j d
  unfolding distrust_jid
  distrust_jid_other jid j d a b c =
      remove_prefixed_keys_other kv _ j _ c
      ∙ remove_prefixed_keys_other kv _ j _ b
      ∙ remove_prefixed_keys_other kv _ j d a

  -- distrust_jid leaves every identity and every trust record that is stored under the JID, for each
  -- of its devices: a device with a stored identity is accepted and refused as before.
  pub distrust_jid_keeps :
      (jid : Bytes) (n : ℕ) (stored key : Bytes) (d : Db)
      → get (key_for_identity jid n) d ≡ some stored
      → let d' = distrust_jid kv jid d in
        ((m : ℕ) → get (key_for_identity jid m) d' ≡ get (key_for_identity jid m) d)
        × ((m : ℕ) → get (key_for_tofu_trust jid m) d' ≡ get (key_for_tofu_trust jid m) d)
        × (identity_is_trusted kv jid n key d' ≡ identity_is_trusted kv jid n key d)
  unfolding identity_is_trusted load_tofu_trust starts_with
  distrust_jid_keeps jid n stored key d h =
      let identity = distrust_jid_other jid (key_for_identity jid n) d refl refl refl in
      let trust = distrust_jid_other jid (key_for_tofu_trust jid n) d refl refl refl in
      (
        λ m. distrust_jid_other jid (key_for_identity jid m) d refl refl refl,
        λ m. distrust_jid_other jid (key_for_tofu_trust jid m) d refl refl refl,
        ground (arith, identity, trust, h),
      )
