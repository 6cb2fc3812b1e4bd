-- ===== src/Ascii/Checked.antt =====
-- asciiclient.go: what `Verify` and the checksum rule out.
use gomodbus.Prelude.{ℕ, ◌+◌, ◌%◌, ◌<◌, ◌≡◌, ◌≢◌, refl, ◌∙◌, arith}
use gomodbus.Prelude.{List, [], ◌∷◌, ◌++◌, u8, ne→!=}
use gomodbus.Go.{err, Error}
use gomodbus.Pdu.{Pdu}
use gomodbus.Lrc.{Lrc, reset, push_byte, push_bytes, value}
use gomodbus.Ascii.{lrc_of, decode}
use gomodbus.Ascii.Frame.{IsBytes, frame, decode-frame, value-IsByte}

abbrev pub sum : List ℕ → ℕ
sum [] = 0
sum (x ∷ xs) = x + sum xs

sum-append : (xs ys : List ℕ) → sum (xs ++ ys) ≡ sum xs + sum ys
sum-append [] ys = omega arith
sum-append (x ∷ xs) ys = omega (arith, sum-append xs ys)

push_bytes-sum :
    (bs : List ℕ) (lrc : Lrc) → lrc.sum < 256 → (push_bytes lrc bs).sum ≡ (lrc.sum + sum bs) % 256
unfolding push_bytes
push_bytes-sum [] lrc h = omega arith
push_bytes-sum (b ∷ bs) lrc h =
    push_bytes-sum bs (record { sum = u8 (lrc.sum + b) }) (omega arith) ∙ omega arith

-- The checksum makes the sum of all bytes a multiple of 256.
pub lrc_of-sum :
    (slave : ℕ) (pdu : Pdu)
    → (slave + pdu.function_code + sum pdu.payload + lrc_of slave pdu) % 256 ≡ 0
unfolding value push_byte
lrc_of-sum slave pdu =
    let total =
      push_bytes-sum pdu.payload (push_byte (push_byte reset slave) pdu.function_code)
        (omega arith) in
    omega (arith, total)

-- A frame of which one byte of the data arrived as another byte is rejected with the two checksums.
-- The parts of the unit and the slave address are bytes.
pub decode-changed :
    (slave function x y : ℕ) (front back : List ℕ)
    → IsBytes slave (record { function_code = function; payload = front ++ (x ∷ back) })
    → IsBytes slave (record { function_code = function; payload = front ++ (y ∷ back) })
    → x < 256
    → y < 256
    → x ≢ y
    → decode (
        frame slave function
          (front ++ (y ∷ back))
          (lrc_of slave (record { function_code = function; payload = front ++ (x ∷ back) })))
      ≡ err (
          Error.checksum_mismatch
            (lrc_of slave (record { function_code = function; payload = front ++ (x ∷ back) }))
            (lrc_of slave (record { function_code = function; payload = front ++ (y ∷ back) })))
decode-changed slave function x y front back hx hy bx by n =
    let sent : Pdu = record { function_code = function; payload = front ++ (x ∷ back) } in
    let received : Pdu = record { function_code = function; payload = front ++ (y ∷ back) } in
    let differ : lrc_of slave sent ≢ lrc_of slave received = λ e. n (
      omega (
        arith,
        e,
        lrc_of-sum slave sent,
        lrc_of-sum slave received,
        sum-append front (x ∷ back),
        sum-append front (y ∷ back),
      )) in
    decode-frame slave received (lrc_of slave sent) hy (value-IsByte slave sent)
    ∙ rw (ne→!= (lrc_of slave sent) (lrc_of slave received) differ) refl
