-- ===== src/Crc/Detection.antt =====
-- The checksum tells apart two messages that differ in one byte, wherever that byte stands.
use gomodbus.Prelude.{ℕ, suc, ◌+◌, ◌*◌, ◌<◌, ◌≡◌, ◌≢◌, ◌⊎◌, inl, inr, refl, sym, ap, ◌∙◌, arith}
use gomodbus.Prelude.{List, [], ◌∷◌, ◌++◌, All, IsByte, bit_xor}
use gomodbus.Prelude.{equal_below, equal_at}
use gomodbus.Prelude.{◌==◌, if◌then◌else◌}
use gomodbus.Bits.Xor.{xor_undo, xor_cancel_left, xor-lt}
use gomodbus.Crc.{Crc, reset, push_byte, push_bytes, value}
use gomodbus.Crc.Table.{crc_low_bytes, crc_high_bytes}
use gomodbus.Crc.Equivalence.{
  IsCrc, low_at, high_at, push_byte-IsCrc, push_bytes-IsCrc, reset-IsCrc, value-eq-remainder,
}

-- Where a byte stands in the table of low bytes.
position : ℕ → List ℕ → ℕ
position x [] = 0
position x (y ∷ ys) = if x == y then 0 else suc (position x ys)

found : (i : ℕ) → i < 256 → position (low_at i) crc_low_bytes ≡ i
unfolding equal_below position low_at crc_low_bytes
found i h = equal_at (λ i. position (low_at i) crc_low_bytes) (λ i. i) 256 i refl h

low_at-injective : (i j : ℕ) → i < 256 → j < 256 → low_at i ≡ low_at j → i ≡ j
low_at-injective i j hi hj e = sym (found i hi) ∙ ap (λ t. position t crc_low_bytes) e ∙ found j hj

xor_cancel_right : (a b c : ℕ) → bit_xor a c ≡ bit_xor b c → a ≡ b
xor_cancel_right a b c e = sym (xor_undo a c) ∙ ap (λ t. bit_xor t c) e ∙ xor_undo b c

-- Equal remainders after one byte had equal high bytes and equal table indices before it.
push_byte-injective :
    (c d : Crc) (b b' : ℕ)
    → IsCrc c
    → IsCrc d
    → IsByte b
    → IsByte b'
    → push_byte c b ≡ push_byte d b'
    → (c.high ≡ d.high) × (bit_xor c.low b ≡ bit_xor d.low b')
unfolding push_byte low_at high_at crc_high_bytes
push_byte-injective c d b b' hc hd hb hb' e =
    let i = bit_xor c.low b in
    let j = bit_xor d.low b' in
    let same : i ≡ j =
      low_at-injective i j (xor-lt 8 c.low b hc.1 hb) (xor-lt 8 d.low b' hd.1 hb')
        (ap (λ (t : Crc). t.high) e) in
    let lows : bit_xor c.high (high_at i) ≡ bit_xor d.high (high_at i) =
      rw (← same) at (ap (λ (t : Crc). t.low) e) in
    (xor_cancel_right c.high d.high (high_at i) lows, same)

Crc-ext : (c d : Crc) → c.high ≡ d.high → c.low ≡ d.low → c ≡ d
Crc-ext c d p q = λ i. record { high = p i; low = q i }

-- The bytes that follow keep different remainders different.
push_bytes-injective :
    (bs : List ℕ) (c d : Crc)
    → IsCrc c
    → IsCrc d
    → All IsByte bs
    → push_bytes c bs ≡ push_bytes d bs
    → c ≡ d
unfolding push_bytes
push_bytes-injective [] c d hc hd hb e = e
push_bytes-injective (b ∷ bs) c d hc hd hb e =
    let next =
      push_bytes-injective bs (push_byte c b) (push_byte d b) (push_byte-IsCrc c b hc hb.0)
        (push_byte-IsCrc d b hd hb.0) hb.1 e in
    let (highs, indices) = push_byte-injective c d b b hc hd hb.0 hb.0 next in
    Crc-ext c d highs (xor_cancel_right c.low d.low b indices)

pub push_bytes-append :
    (xs bs : List ℕ) (c : Crc) → push_bytes c (xs ++ bs) ≡ push_bytes (push_bytes c xs) bs
unfolding push_bytes
push_bytes-append [] bs c = refl
push_bytes-append (x ∷ xs) bs c = push_bytes-append xs bs (push_byte c x)

remainder-injective :
    (h l h' l' : ℕ) → l < 256 → l' < 256 → h * 256 + l ≡ h' * 256 + l' → (h ≡ h') × (l ≡ l')
remainder-injective h l h' l' hl hl' e = (omega arith, omega arith)

value-injective : (c d : Crc) → IsCrc c → IsCrc d → value c ≡ value d → c ≡ d
value-injective c d hc hd e =
    let (highs, lows) =
      remainder-injective c.high c.low d.high d.low hc.1 hd.1
        (sym (value-eq-remainder c hc) ∙ e ∙ value-eq-remainder d hd) in
    Crc-ext c d highs lows

-- Two steps from one remainder to one remainder took the same two bytes.
two_bytes-injective :
    (c : Crc) (x y x' y' : ℕ)
    → IsCrc c
    → (IsByte x × IsByte y) × (IsByte x' × IsByte y')
    → push_byte (push_byte c x) y ≡ push_byte (push_byte c x') y'
    → (x ≡ x') × (y ≡ y')
two_bytes-injective c x y x' y' hc ((hx, hy), (hx', hy')) e =
    let (highs, seconds) =
      push_byte-injective (push_byte c x) (push_byte c x') y y' (push_byte-IsCrc c x hc hx)
        (push_byte-IsCrc c x' hc hx') hy hy' e in
    let first = first_byte highs in (first, xor_cancel_left _ y y' (rw (← first) at seconds))
  where
    first_byte : (push_byte c x).high ≡ (push_byte c x').high → x ≡ x'
    first_byte e =
        unfold push_byte low_at in
        xor_cancel_left c.low x x'
          (low_at-injective _ _ (xor-lt 8 c.low x hc.1 hx) (xor-lt 8 c.low x' hc.1 hx') e)

-- Two messages that differ at most in two neighbouring bytes, and have one checksum, are equal.
burst_same :
    (before : List ℕ) (x y x' y' : ℕ) (after : List ℕ)
    → All IsByte before
    → (IsByte x × IsByte y) × (IsByte x' × IsByte y')
    → All IsByte after
    → value (push_bytes (push_byte (push_byte (push_bytes reset before) x) y) after)
      ≡ value (push_bytes (push_byte (push_byte (push_bytes reset before) x') y') after)
    → (x ≡ x') × (y ≡ y')
burst_same before x y x' y' after hp h hs e =
    let start = push_bytes reset before in
    let hc : IsCrc start = push_bytes-IsCrc before reset reset-IsCrc hp in
    let c : IsCrc (push_byte (push_byte start x) y) =
      push_byte-IsCrc _ y (push_byte-IsCrc start x hc h.0.0) h.0.1 in
    let d : IsCrc (push_byte (push_byte start x') y') =
      push_byte-IsCrc _ y' (push_byte-IsCrc start x' hc h.1.0) h.1.1 in
    two_bytes-injective start x y x' y' hc h (
      push_bytes-injective after _ _ c d hs
        (value-injective _ _ (push_bytes-IsCrc after _ c hs) (push_bytes-IsCrc after _ d hs) e))

-- Two messages of bytes that agree but for two neighbouring bytes, of which at least one differs,
-- have different checksums, whatever stands before and after.
pub checksum-ne_of_burst :
    (before : List ℕ) (x y x' y' : ℕ) (after : List ℕ)
    → All IsByte before
    → (IsByte x × IsByte y) × (IsByte x' × IsByte y')
    → All IsByte after
    → (x ≢ x') ⊎ (y ≢ y')
    → value (push_bytes reset (before ++ (x ∷ y ∷ after)))
      ≢ value (push_bytes reset (before ++ (x' ∷ y' ∷ after)))
checksum-ne_of_burst before x y x' y' after hp h hs differ e =
    let same =
      burst_same before x y x' y' after hp h hs (rw (both_split x y, both_split x' y') at e) in
    elim differ [ inl other ↦ other same.0 | inr other ↦ other same.1 ]
  where
    both_split :
        (a b : ℕ)
        → push_bytes reset (before ++ (a ∷ b ∷ after))
          ≡ push_bytes (push_byte (push_byte (push_bytes reset before) a) b) after
    both_split a b = unfold push_bytes in push_bytes-append before (a ∷ b ∷ after) reset
