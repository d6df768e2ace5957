-- ===== src/Omemo/Bundle.antt =====
-- bundle_metadata, and serialize_bundle and deserialize_bundle (src/omemo/internal_crypto.inl and
-- src/omemo/internal_signal_store.inl).
use mathlib.Core.List.{cons-ne-nil}
use weechat_xmpp_improved.Prelude.{
  cut_at, ℕ, ◌≡◌, refl, sym, ap, ◌∙◌, false, Option, none, some, List, [], ◌∷◌, ◌++◌, map, Bytes,
  codes, ◌==◌, if◌then◌else◌, All, All-append, arith, append_assoc, append-nil,
}
use weechat_xmpp_improved.Omemo.Text.{split, join, Lacks, IsPart, split-join}

pub record BundleMetadata : Type 0 where
  pub signed_pre_key_id : Bytes
  pub signed_pre_key : Bytes
  pub signed_pre_key_signature : Bytes
  pub identity_key : Bytes
  pub prekeys : List (Bytes × Bytes)

prekey_line : Bytes × Bytes → Bytes
prekey_line (id, key) = codes "pk=" ++ (id ++ (b',' ∷ key))

entries : BundleMetadata → List Bytes
unfolding prekey_line
entries b =
    (codes "spk_id=" ++ b.signed_pre_key_id)
    ∷ (codes "spk=" ++ b.signed_pre_key)
    ∷ (codes "spks=" ++ b.signed_pre_key_signature)
    ∷ (codes "ik=" ++ b.identity_key)
    ∷ map prekey_line b.prekeys

unfoldable pub serialize_bundle : BundleMetadata → Bytes
unfolding entries
serialize_bundle b = join (entries b) (b'\n' ∷ [])

-- `line.rfind(prefix, 0) == 0`, with the rest of the line.
unfoldable pub strip_prefix : Bytes → Bytes → Option Bytes
strip_prefix [] line = some line
strip_prefix (p ∷ ps) [] = none
strip_prefix (p ∷ ps) (c ∷ line) = let rest = strip_prefix ps line in if c == p then rest else none

read_prekey : Bytes → BundleMetadata → BundleMetadata
read_prekey payload b = elim (cut_at b',' payload) [
  | none ↦ b
  | some (id, key) ↦ record b { prekeys = b.prekeys ++ ((id, key) ∷ []) }
]

read_line : Bytes → BundleMetadata → BundleMetadata
unfolding strip_prefix
read_line line b = elim (strip_prefix (codes "spk_id=") line) [
  | some v ↦ record b { signed_pre_key_id = v }
  | none ↦ elim (strip_prefix (codes "spk=") line) [
    | some v ↦ record b { signed_pre_key = v }
    | none ↦ elim (strip_prefix (codes "spks=") line) [
      | some v ↦ record b { signed_pre_key_signature = v }
      | none ↦ elim (strip_prefix (codes "ik=") line) [
        | some v ↦ record b { identity_key = v }
        | none ↦ elim (strip_prefix (codes "pk=") line) [
          | some payload ↦ read_prekey payload b
          | none ↦ b
        ]
      ]
    ]
  ]
]

read_lines : List Bytes → BundleMetadata → BundleMetadata
read_lines [] b = b
read_lines (line ∷ lines) b = read_lines lines (read_line line b)

abbrev pub empty_bundle : BundleMetadata
empty_bundle = record {
  signed_pre_key_id = [];
  signed_pre_key = [];
  signed_pre_key_signature = [];
  identity_key = [];
  prekeys = [];
}

unfoldable pub deserialize_bundle : Bytes → BundleMetadata
unfolding read_lines read_line read_prekey
deserialize_bundle serialized = read_lines (split serialized b'\n') empty_bundle

-- One line to a field, and no comma in the number of a prekey.
abbrev pub IsPrekey : Bytes × Bytes → Type 0
IsPrekey (id, key) = Lacks b'\n' id × Lacks b',' id × Lacks b'\n' key

pub record IsPrintable (b : BundleMetadata) : Type 0 where
  pub id : Lacks b'\n' b.signed_pre_key_id
  pub key : Lacks b'\n' b.signed_pre_key
  pub signature : Lacks b'\n' b.signed_pre_key_signature
  pub identity : Lacks b'\n' b.identity_key
  pub prekeys : All IsPrekey b.prekeys

pub cut_at-append :
    (sep : ℕ) (id key : Bytes) → Lacks sep id → cut_at sep (id ++ (sep ∷ key)) ≡ some (id, key)
unfolding cut_at
cut_at-append sep [] key h = ground arith
cut_at-append sep (c ∷ id) key (e, h) = ground (arith, cut_at-append sep id key h)

read_prekey_lem :
    (id key : Bytes) (b : BundleMetadata)
    → Lacks b',' id
    → read_prekey (id ++ (b',' ∷ key)) b ≡ record b { prekeys = b.prekeys ++ ((id, key) ∷ []) }
unfolding read_prekey
read_prekey_lem id key b l = rw (cut_at-append b',' id key l, read_prekey)

read_prekey_line :
    (p : Bytes × Bytes) (b : BundleMetadata)
    → IsPrekey p
    → read_line (prekey_line p) b ≡ record b { prekeys = b.prekeys ++ (p ∷ []) }
unfolding read_line prekey_line
read_prekey_line (id, key) b (_, l, _) = read_prekey_lem id key b l

read_prekey_lines :
    (ps : List (Bytes × Bytes)) (b : BundleMetadata)
    → All IsPrekey ps
    → read_lines (map prekey_line ps) b ≡ record b { prekeys = b.prekeys ++ ps }
unfolding read_lines
read_prekey_lines [] b h = ap (λ l. record b { prekeys = l }) (sym (append-nil b.prekeys))
read_prekey_lines (p ∷ ps) b (hp, hs) =
    ap (read_lines (map prekey_line ps)) (read_prekey_line p b hp)
    ∙ read_prekey_lines ps (record b { prekeys = b.prekeys ++ (p ∷ []) }) hs
    ∙ ap (λ l. record b { prekeys = l }) (append_assoc b.prekeys (p ∷ []) ps)

prekey_line-IsPart : (p : Bytes × Bytes) → IsPrekey p → IsPart b'\n' (prekey_line p)
unfolding prekey_line
prekey_line-IsPart (id, key) (hi, _, hk) = (
  cons-ne-nil _ _,
  (refl, (refl, (refl, All-append (λ c. (c == b'\n') ≡ false) id (b',' ∷ key) hi (refl, hk)))),
)

prekey_lines-IsPart :
    (ps : List (Bytes × Bytes)) → All IsPrekey ps → All (IsPart b'\n') (map prekey_line ps)
prekey_lines-IsPart [] h = tt
prekey_lines-IsPart (p ∷ ps) (hp, hs) = (prekey_line-IsPart p hp, prekey_lines-IsPart ps hs)

entries-IsPart : (b : BundleMetadata) → IsPrintable b → All (IsPart b'\n') (entries b)
unfolding entries
entries-IsPart b h = (
  (cons-ne-nil _ _, (refl, (refl, (refl, (refl, (refl, (refl, (refl, h.id)))))))),
  (
    (cons-ne-nil _ _, (refl, (refl, (refl, (refl, h.key))))),
    (
      (cons-ne-nil _ _, (refl, (refl, (refl, (refl, (refl, h.signature)))))),
      (
        (cons-ne-nil _ _, (refl, (refl, (refl, h.identity)))),
        prekey_lines-IsPart b.prekeys h.prekeys,
      ),
    ),
  ),
)

-- A bundle whose fields fit their lines is read back as it was stored, its prekeys in order.
pub deserialize_bundle-serialize_bundle :
    (b : BundleMetadata) → IsPrintable b → deserialize_bundle (serialize_bundle b) ≡ b
unfolding deserialize_bundle serialize_bundle
deserialize_bundle-serialize_bundle b h =
    ap (λ lines. read_lines lines empty_bundle) (split-join b'\n' (entries b) (entries-IsPart b h))
    ∙ read_prekey_lines b.prekeys (record b { prekeys = [] }) h.prekeys
