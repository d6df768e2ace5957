-- ===== src/Omemo/Padding.antt =====
-- pkcs7_pad (src/omemo/internal_prelude.inl) and pkcs7_unpad (src/omemo/internal_crypto.inl).
use mathlib.Core.Path.{ap₂}
use native.Mathlib.Nat.{mod-lt, mod-add-mod, mod_self}
use weechat_xmpp_improved.Prelude.{
  take-append-drop, take-length, drop-length, ℕ, zero, suc, ◌+◌, ◌-◌, ◌%◌, ◌≤◌, ◌≡◌, ◌↔◌, refl, sym,
  ap, ◌∙◌, Bool, true, ◌&&◌, ◌||◌, Option, none, some, [], ◌∷◌, ◌++◌, Bytes, length, ◌==◌, ltb,
  if◌then◌else◌, arith, take, drop, replicate, length-append, length-replicate, length-drop,
}

unfoldable pub padding_size : ℕ → ℕ → ℕ
padding_size size block_size =
    if size % block_size == 0 then block_size else block_size - size % block_size

-- The padding byte is a uint8_t.
unfoldable pub pkcs7_pad : Bytes → ℕ → Bytes
pkcs7_pad plaintext block_size =
    let n = padding_size (length plaintext) block_size in plaintext ++ replicate n (n % 256)

unfoldable pub back : Bytes → Option ℕ
back [] = none
back (c ∷ []) = some c
back (c ∷ d ∷ s) = back (d ∷ s)

unfoldable pub all_are : ℕ → Bytes → Bool
all_are k [] = true
all_are k (c ∷ s) = c == k && all_are k s

unfoldable pub pkcs7_unpad : Bytes → Option Bytes
pkcs7_unpad padded = elim (back padded) [
  | none ↦ none
  | some padding ↦
      let start = length padded - padding in
      if padding == 0 || ltb 16 padding || ltb (length padded) padding
      then none
      else if all_are padding (drop start padded)
      then some (take start padded)
      else none
]

replicate_of_all_are : (k : ℕ) (s : Bytes) → all_are k s ≡ true → s ≡ replicate (length s) k
unfolding all_are
replicate_of_all_are k [] h = refl
replicate_of_all_are k (c ∷ s) h = ground (arith, replicate_of_all_are k s)

all_are-replicate : (k n : ℕ) → all_are k (replicate n k) ≡ true
unfolding all_are
all_are-replicate k zero = refl
all_are-replicate k (suc n) = ground (arith, all_are-replicate k n)

back-replicate : (k n : ℕ) → back (replicate (suc n) k) ≡ some k
unfolding back
back-replicate k zero = refl
back-replicate k (suc n) = back-replicate k n

back-append : (s : Bytes) (c : ℕ) (t : Bytes) → back (s ++ (c ∷ t)) ≡ back (c ∷ t)
unfolding back
back-append [] c t = refl
back-append (d ∷ []) c t = refl
back-append (d ∷ e ∷ s) c t = back-append (e ∷ s) c t

-- A text with padding of one to sixteen bytes, each the length of the padding.
pub record IsPadded (padded s : Bytes) : Type 0 where
  pub size : ℕ
  pub positive : 1 ≤ size
  pub small : size ≤ 16
  pub splits : padded ≡ s ++ replicate size size

unpad_padded : (s : Bytes) (k : ℕ) → 1 ≤ k → k ≤ 16 → pkcs7_unpad (s ++ replicate k k) ≡ some s
unfolding pkcs7_unpad
unpad_padded s zero h le = absurd (omega arith)
unpad_padded s (suc k) h le =
    let n = suc k in
    let e : length (s ++ replicate n n) - n ≡ length s =
      omega (arith, length-append s (replicate n n), length-replicate n n) in
    ground (
      arith,
      back-append s n (replicate k n),
      back-replicate n k,
      e,
      drop-length s (replicate n n),
      take-length s (replicate n n),
      all_are-replicate n n,
      length-append s (replicate n n),
      length-replicate n n,
    )

unpad_parts :
    (padded s : Bytes) (k : ℕ)
    → back padded ≡ some k
    → pkcs7_unpad padded ≡ some s
    → let start = length padded - k in
      (1 ≤ k)
      × (k ≤ 16)
      × (k ≤ length padded)
      × (all_are k (drop start padded) ≡ true)
      × (take start padded ≡ s)
unfolding pkcs7_unpad
unpad_parts padded s k last e = ground arith

unpad_IsPadded : (padded s : Bytes) → pkcs7_unpad padded ≡ some s → IsPadded padded s
unpad_IsPadded padded s e = go (back padded) refl
  where
    go : (o : Option ℕ) → back padded ≡ o → IsPadded padded s
    go none last = absurd (unfold pkcs7_unpad in ground arith)
    go (some k) last =
        let (positive, small, fits, same, front) = unpad_parts padded s k last e in
        let start = length padded - k in
        let size : length (drop start padded) ≡ k = omega (arith, length-drop start padded) in
        record {
          size = k;
          positive = positive;
          small = small;
          splits =
              sym (take-append-drop start padded)
              ∙ ap₂ ◌++◌ front
                  (replicate_of_all_are k (drop start padded) same ∙ ap (λ n. replicate n k) size);
        }

-- Unpadding succeeds exactly on padded texts, and returns what stands before the padding.
pub pkcs7_unpad_iff : (padded s : Bytes) → (pkcs7_unpad padded ≡ some s) ↔ IsPadded padded s
pkcs7_unpad_iff padded s = (
  unpad_IsPadded padded s,
  λ p. ap pkcs7_unpad p.splits ∙ unpad_padded s p.size p.positive p.small,
)

padding_size_bounds :
    (size b : ℕ) → 1 ≤ b → b ≤ 16 → (1 ≤ padding_size size b) × (padding_size size b ≤ b)
unfolding padding_size
padding_size_bounds size b h le = ground (arith, mod-lt size h)

padding_size_fills : (size b : ℕ) → 1 ≤ b → (size + padding_size size b) % b ≡ 0
unfolding padding_size
padding_size_fills size b h =
    let whole : size % b + padding_size size b ≡ b = ground (arith, mod-lt size h) in
    sym (mod-add-mod size b (padding_size size b)) ∙ ap (λ m. m % b) whole ∙ mod_self b

-- Padding to a block of one to sixteen bytes fills the last block, and unpadding takes it off.
pub pkcs7_unpad-pkcs7_pad :
    (s : Bytes) (block_size : ℕ)
    → 1 ≤ block_size
    → block_size ≤ 16
    → (length (pkcs7_pad s block_size) % block_size ≡ 0)
      × (pkcs7_unpad (pkcs7_pad s block_size) ≡ some s)
unfolding pkcs7_pad
pkcs7_unpad-pkcs7_pad s b h le =
    let n = padding_size (length s) b in
    let (low, high) = padding_size_bounds (length s) b h le in
    let e : n % 256 ≡ n = omega arith in
    rw e (
      ap (λ m. m % b)
            (length-append s (replicate n n) ∙ ap (λ m. length s + m) (length-replicate n n))
          ∙ padding_size_fills (length s) b h,
      unpad_padded s n low (omega arith),
    )
