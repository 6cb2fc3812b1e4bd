-- ===== src/Client/Responses.antt =====
-- Which responses the checks of the client accept, and with which result.
use gomodbus.Prelude.{ℕ, ◌+◌, ◌*◌, ◌≤◌, ◌<◌, ◌≡◌, arith}
use gomodbus.Prelude.{List, [], ◌∷◌, ◌++◌, length, All, IsByte, IsWord}
use gomodbus.Go.{ok, err, Error, index, slice_from, uint16, put_uint16}
use gomodbus.Pdu.{Pdu}
use gomodbus.Client.Payload.{counted, echoed, echoed_masks, fifo_values}

module _ (f : ℕ) where
  abbrev pub with_payload : List ℕ → Pdu
  with_payload xs = record { function_code = f; payload = xs }

  pub counted_back :
      (xs values : List ℕ) → counted (with_payload xs) ≡ ok values → xs ≡ length values ∷ values
  unfolding counted index slice_from
  counted_back [] values e = cc
  counted_back (x ∷ xs) values e = ground arith

  pub counted_there :
      (values : List ℕ) → counted (with_payload (length values ∷ values)) ≡ ok values
  unfolding counted index slice_from
  counted_there values = ground arith

  pub echoed_back :
      (a v : ℕ) (xs results : List ℕ)
      → All IsByte xs
      → echoed a v (with_payload xs) ≡ ok results
      → (xs ≡ put_uint16 a ++ put_uint16 v) × (results ≡ put_uint16 v)
  unfolding echoed slice_from uint16
  echoed_back a v [] results h e = cc
  echoed_back a v (x ∷ []) results h e = cc
  echoed_back a v (x ∷ y ∷ []) results h e = cc
  echoed_back a v (x ∷ y ∷ z ∷ []) results h e = cc
  echoed_back a v (x ∷ y ∷ z ∷ w ∷ []) results h e = (ground arith, ground arith)
  echoed_back a v (x ∷ y ∷ z ∷ w ∷ u ∷ xs) results h e = absurd (ground arith)

  pub echoed_there :
      (a v : ℕ)
      → IsWord a
      → IsWord v
      → echoed a v (with_payload (put_uint16 a ++ put_uint16 v)) ≡ ok (put_uint16 v)
  unfolding echoed slice_from uint16
  echoed_there a v ha hv = ground arith

  pub masks_back :
      (a m n : ℕ) (xs results : List ℕ)
      → All IsByte xs
      → echoed_masks a m n (with_payload xs) ≡ ok results
      → (xs ≡ put_uint16 a ++ results) × (results ≡ put_uint16 m ++ put_uint16 n)
  unfolding echoed_masks slice_from uint16
  masks_back a m n [] results h e = cc
  masks_back a m n (x ∷ []) results h e = cc
  masks_back a m n (x ∷ y ∷ []) results h e = cc
  masks_back a m n (x ∷ y ∷ z ∷ []) results h e = cc
  masks_back a m n (x ∷ y ∷ z ∷ w ∷ []) results h e = cc
  masks_back a m n (x ∷ y ∷ z ∷ w ∷ u ∷ []) results h e = cc
  masks_back a m n (x ∷ y ∷ z ∷ w ∷ u ∷ t ∷ []) results h e = (ground arith, ground arith)
  masks_back a m n (x ∷ y ∷ z ∷ w ∷ u ∷ t ∷ r ∷ xs) results h e = absurd (ground arith)

  pub fifo_back :
      (xs results : List ℕ)
      → All IsByte xs
      → fifo_values (with_payload xs) ≡ ok results
      → (length results + 3 < 65536)
        × ((n : ℕ) × (n ≤ 31) × (xs ≡ put_uint16 (length results + 3) ++ (put_uint16 n ++ results)))
  unfolding fifo_values slice_from uint16
  fifo_back [] results h e = cc
  fifo_back (x ∷ []) results h e = cc
  fifo_back (x ∷ y ∷ []) results h e = cc
  fifo_back (x ∷ y ∷ z ∷ []) results h e = cc
  fifo_back (x ∷ y ∷ z ∷ w ∷ xs) results h e =
      (ground arith, (z * 256 + w, ground arith, ground arith))

  pub masks_there :
      (a m n : ℕ)
      → IsWord a
      → IsWord m
      → IsWord n
      → echoed_masks a m n (with_payload (put_uint16 a ++ (put_uint16 m ++ put_uint16 n)))
        ≡ ok (put_uint16 m ++ put_uint16 n)
  unfolding echoed_masks slice_from uint16
  masks_there a m n ha hm hn = ground arith

  pub fifo_there :
      (n : ℕ) (results : List ℕ)
      → length results + 3 < 65536
      → n ≤ 31
      → fifo_values (with_payload (put_uint16 (length results + 3) ++ (put_uint16 n ++ results)))
        ≡ ok results
  unfolding fifo_values slice_from uint16
  fifo_there n results h k = ground arith

  -- A queue of `n` registers, as the protocol answers it: the number of the bytes that follow the
  -- byte count, the number of registers, and two bytes for each.
  pub fifo_rejected :
      (n : ℕ) (values : List ℕ)
      → n ≤ 31
      → length values ≡ 2 * n
      → fifo_values (with_payload (put_uint16 (2 * n + 2) ++ (put_uint16 n ++ values)))
        ≡ err (Error.count_mismatch (2 * n + 3) (2 * n + 2))
  unfolding fifo_values slice_from uint16
  fifo_rejected n values h k = ground arith
