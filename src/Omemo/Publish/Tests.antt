-- ===== src/Omemo/Publish/Tests.antt =====
-- The prekeys and the bundle over a database in memory and a toy in place of libsignal.
use weechat_xmpp_improved.Prelude.{
  ℕ, zero, suc, ◌+◌, ◌%◌, ◌≤◌, ◌<◌, ◌≡◌, ◌≢◌, refl, false, Option, none, some, List, [], ◌∷◌, map,
  Bytes, codes, ltb, IsIn, length, u32_mod, to_string, print_digits, All, arith, read_digits,
}
use weechat_xmpp_improved.Omemo.Text.{Lacks, is_valid_omemo_device_id, parse_uint32, split, join}
use weechat_xmpp_improved.Omemo.Bundle.{BundleMetadata}
use weechat_xmpp_improved.Omemo.Store.{memory}
use weechat_xmpp_improved.Omemo.Store.Lex.{lookup, lt_lex}
use weechat_xmpp_improved.Omemo.Store.Memory.{MemoryDb, memory_put, insert}
use weechat_xmpp_improved.Omemo.Prekeys.{
  Signal, Generation, k_identity_public_key, is_base64, should_rotate, stored_number, next_spk_id,
  start_id, ensure_prekeys, key_for_prekey_record, key_for_signed_prekey_record, after_rotation,
  rotate_signed_prekey_if_due, parse_int64, generate_and_store_spk, store_spk, generate_first,
  regenerate, regenerate_from, store_prekeys, index_entry, recovered, recovered_from,
  replace_used_prekey,
}
use weechat_xmpp_improved.Omemo.Prekeys.Backed.{Distinct, IsBacked, index_parts, entry}
use weechat_xmpp_improved.Omemo.Prekeys.Batch.{AllSerialize, Off}
use weechat_xmpp_improved.Omemo.Prekeys.Repair.{ensure_prekeys_forgets}
use weechat_xmpp_improved.Omemo.Trust.{is_empty}
use weechat_xmpp_improved.Omemo.Prekeys.Keeps.{MakesDistinct}
use weechat_xmpp_improved.Omemo.Prekeys.Reached.{
  IsFresh, here, next, ensure, removes, replaces, Reach-IsBacked,
}
use weechat_xmpp_improved.Omemo.Sessions.{pre_key_remove}
use weechat_xmpp_improved.Omemo.Publish.{
  base64_encode_raw, get_axolotl_bundle, load_bundle, k_min_pre_key_count,
}
use weechat_xmpp_improved.Omemo.Publish.Fields.{WritesBase64}
use weechat_xmpp_improved.Omemo.Publish.Listed.{pair, get_axolotl_bundle-listed}
use weechat_xmpp_improved.Omemo.Publish.Rotation.{next_number, ensure_prekeys-keeps}
use weechat_xmpp_improved.Omemo.Publish.Renewed.{get_axolotl_bundle_rotation}

toy_read : Bytes → Option ℕ
toy_read (k ∷ []) = some k
toy_read s = none

toy_read_write : (k : ℕ) (r : Bytes) → some (k ∷ []) ≡ some r → toy_read r ≡ some k
unfolding toy_read
toy_read_write k r e = let e' : k ∷ [] ≡ r = cc in rw (← e') refl

toy_id_lt : (k : ℕ) → k % u32_mod < u32_mod
toy_id_lt k = omega arith

letter-Lacks : (c : ℕ) → is_base64 c ≡ false → Lacks c (codes "A")
letter-Lacks c h = (ground arith, tt)

abbrev toy : Signal
toy = record {
  PreKey = ℕ;
  id = λ k. k % u32_mod;
  serialize = λ k. some (k ∷ []);
  deserialize = toy_read;
  public_key = λ k. codes "A";
  id_lt = toy_id_lt;
  public_key-Lacks = λ k c h. letter-Lacks c h;
  deserialize-serialize = toy_read_write;
}

abbrev numbers : ℕ → ℕ → List ℕ
numbers n zero = []
numbers n (suc count) = n ∷ numbers (n + 1) count

abbrev thirty : ℕ → Option (List ℕ)
thirty n = some (numbers 1 30)

abbrev signer : Generation
signer = record {
  now = 5;
  signed = λ n. some (record { bytes = codes "R"; public_key = codes "P"; signature = codes "S" });
}

abbrev letter : Bytes → Bytes
letter s = codes "A"

abbrev with_identity : MemoryDb
with_identity = memory_put k_identity_public_key (codes "I") ([], tt)

thirty-Distinct : Distinct memory toy (numbers 1 30)
thirty-Distinct = omega arith

thirty-MakesDistinct : MakesDistinct memory toy thirty
thirty-MakesDistinct n ks e = let e' : numbers 1 30 ≡ ks = cc in rw (← e') thirty-Distinct

toy_serializes : (ks : List ℕ) → AllSerialize memory toy ks
toy_serializes [] = tt
toy_serializes (k ∷ ks) = ((k ∷ [], refl), toy_serializes ks)

toy_full : (ks : List ℕ) → All (λ (k : ℕ). is_empty (codes "A") ≡ false) ks
toy_full [] = tt
toy_full (k ∷ ks) = (refl, toy_full ks)

get_axolotl_bundle_rotation_example :
    (get_axolotl_bundle memory letter toy 7 5 signer signer thirty with_identity).1
    ≡ some (record {
      signed_pre_key_id = to_string (next_number memory with_identity);
      signed_pre_key = base64_encode_raw letter (codes "P");
      signed_pre_key_signature = base64_encode_raw letter (codes "S");
      identity_key = base64_encode_raw letter (codes "I");
      prekeys = map (pair memory letter toy) (numbers 1 30);
    })
unfolding should_rotate lookup insert lt_lex base64_encode_raw is_valid_omemo_device_id
get_axolotl_bundle_rotation_example =
    get_axolotl_bundle_rotation memory letter toy 7 5 signer signer thirty with_identity
      (record { bytes = codes "R"; public_key = codes "P"; signature = codes "S" }) (codes "I")
      (numbers 1 30) refl refl refl thirty-Distinct (toy_serializes (numbers 1 30))
      (toy_full (numbers 1 30)) (omega arith) refl refl refl refl refl

abbrev empty : MemoryDb
empty = ([], tt)

empty-IsFresh : IsFresh memory toy empty
unfolding lookup
empty-IsFresh = record { no_index = refl; no_record = λ n. refl }

identity-IsFresh : IsFresh memory toy with_identity
unfolding lookup insert
identity-IsFresh = record { no_index = refl; no_record = λ n. refl }

-- Two prekeys, of the numbers 101 and 1.
abbrev pair_of : ℕ → Option (List ℕ)
pair_of n = some (101 ∷ 1 ∷ [])

pair_of-MakesDistinct : MakesDistinct memory toy pair_of
pair_of-MakesDistinct n ks e =
    let e' : 101 ∷ 1 ∷ [] ≡ ks = cc in
    let d : Distinct memory toy (101 ∷ 1 ∷ []) = omega arith in rw (← e') d

abbrev two : MemoryDb
two = (ensure_prekeys memory toy 5 signer signer pair_of empty).0

-- The prekey 1 is used and replaced, the prekey 101 is used only.
Reach-IsBacked_example : IsBacked memory toy (101 ∷ []) (
    pre_key_remove memory 101
      (replace_used_prekey memory toy (some 1) 1 (pre_key_remove memory 1 two)).0)
Reach-IsBacked_example = Reach-IsBacked memory toy empty-IsFresh (
    next
      (next
        (next (next here (ensure [] 5 signer signer pair_of empty pair_of-MakesDistinct))
          (removes [] 1 two (omega arith)))
        (replaces (1 ∷ []) 1 (1 ∷ []) (pre_key_remove memory 1 two) refl))
      (removes [] 101 (replace_used_prekey memory toy (some 1) 1 (pre_key_remove memory 1 two)).0
        (omega arith)))

two-IsBacked : IsBacked memory toy [] two
two-IsBacked =
    Reach-IsBacked memory toy empty-IsFresh
      (next here (ensure [] 5 signer signer pair_of empty pair_of-MakesDistinct))

letter-WritesBase64 : WritesBase64 letter
letter-WritesBase64 s c h = letter-Lacks c h

abbrev new_bundle : BundleMetadata
new_bundle = record {
  signed_pre_key_id = to_string (next_number memory with_identity);
  signed_pre_key = base64_encode_raw letter (codes "P");
  signed_pre_key_signature = base64_encode_raw letter (codes "S");
  identity_key = base64_encode_raw letter (codes "I");
  prekeys = map (pair memory letter toy) (numbers 1 30);
}

get_axolotl_bundle-listed_example :
    (h : IsBacked memory toy []
      (get_axolotl_bundle memory letter toy 7 5 signer signer thirty with_identity).0)
    × (new_bundle.prekeys ≡ map (pair memory letter toy) h.keys)
    × (k_min_pre_key_count ≤ length new_bundle.prekeys)
    × (load_bundle memory letter
          (codes "self")
          7
          (get_axolotl_bundle memory letter toy 7 5 signer signer thirty with_identity).0
        ≡ some new_bundle)
get_axolotl_bundle-listed_example =
    get_axolotl_bundle-listed memory letter toy 7 5 signer signer thirty with_identity new_bundle
      identity-IsFresh here thirty-MakesDistinct letter-WritesBase64
      get_axolotl_bundle_rotation_example

ensure_prekeys_forgets_example :
    let e = ensure_prekeys memory toy 6 signer signer pair_of two in
    (index_parts memory toy e.0 ≡ codes "1,A" ∷ [])
    × (¬ IsIn (entry memory toy 101) (index_parts memory toy e.0))
    × (lookup (key_for_prekey_record 101) e.0.0 ≡ lookup (key_for_prekey_record 101) two.0)
    × (e.1 ≡ ltb (length (split (codes "101,A;1,A") b';')) 1)
unfolding ensure_prekeys after_rotation rotate_signed_prekey_if_due should_rotate parse_int64
    generate_and_store_spk store_spk generate_first regenerate regenerate_from store_prekeys
    stored_number next_spk_id start_id index_entry join lookup insert lt_lex to_string print_digits
    recovered recovered_from toy_read split parse_uint32 read_digits
ensure_prekeys_forgets_example =
    ensure_prekeys_forgets memory toy 6 signer signer pair_of (codes "R") (codes "101,A;1,A")
      (codes "1,A") [] 101 two two-IsBacked.numbered refl refl refl refl refl (omega arith)

-- A week later the prekeys 102 and 103 are made.
abbrev later_pair : ℕ → Option (List ℕ)
later_pair n = some (n ∷ (n + 1) ∷ [])

ensure_prekeys-keeps_example :
    let e = ensure_prekeys memory toy 604805 signer signer later_pair two in
    ((m : ℕ)
      → m < u32_mod
      → Off memory toy m (102 ∷ 103 ∷ [])
      → lookup (key_for_prekey_record m) e.0.0 ≡ lookup (key_for_prekey_record m) two.0)
    × ((m : ℕ)
        → m < u32_mod
        → m ≢ next_number memory two
        → lookup (key_for_signed_prekey_record m) e.0.0
          ≡ lookup (key_for_signed_prekey_record m) two.0)
    × (lookup (key_for_signed_prekey_record (next_number memory two)) e.0.0 ≡ some (codes "R"))
unfolding ensure_prekeys after_rotation rotate_signed_prekey_if_due should_rotate parse_int64
    generate_and_store_spk store_spk generate_first regenerate regenerate_from store_prekeys
    stored_number next_spk_id start_id index_entry join lookup insert lt_lex to_string print_digits
    parse_uint32 read_digits
ensure_prekeys-keeps_example =
    ensure_prekeys-keeps memory toy 604805 signer signer later_pair two
      (record { bytes = codes "R"; public_key = codes "P"; signature = codes "S" }) (102 ∷ 103 ∷ [])
      refl refl refl
