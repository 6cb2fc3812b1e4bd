-- ===== src/Ascii/Delivery.antt =====
-- asciiclient.go: a frame is received however the port cuts it.
use gomodbus.Prelude.{
  ℕ, suc, zero, ◌+◌, ◌-◌, ◌≤◌, ◌<◌, ◌≡◌, refl, sym, ap, ◌∙◌, arith, true, false, Bool-cases, inl,
  inr,
}
use gomodbus.Prelude.{
  List, [], ◌∷◌, ◌++◌, append_assoc, append-nil, flat, length, length-append, take, drop, All,
}
use gomodbus.Prelude.{some, leb, if◌then◌else◌}
use gomodbus.Go.{Outcome, ok, err, Error}
use gomodbus.Ascii.{ascii_max_size}
use gomodbus.Ascii.Transport.{Port, is_ended, is_complete, read_loop, send}

-- A port that has some chunks of bytes to read and then nothing more; a chunk that is longer than
-- the buffer is cut.
pub record Chunks : Type 0 where
  pub incoming : List (List ℕ)
  pub outgoing : List ℕ

abbrev chunk_read : ℕ → List (List ℕ) → List ℕ → Outcome (List ℕ) × Chunks
chunk_read n [] out = (err (Error.io_error n), record { incoming = []; outgoing = out })
chunk_read n (c ∷ cs) out =
    if leb (length c) n
    then (ok c, record { incoming = cs; outgoing = out })
    else (ok (take n c), record { incoming = drop n c ∷ cs; outgoing = out })

abbrev pub chunk_port : Port Chunks
chunk_port = record {
  connect = λ s. (ok tt, s);
  write = λ bytes s. (ok tt, record s { outgoing = s.outgoing ++ bytes });
  read = λ n s. chunk_read n s.incoming s.outgoing;
}

-- A text that the loop knows the end of: no shorter part of it ends in the same way.
pub record IsMessage (xs : List ℕ) : Type 0 where
  pub long : 4 ≤ length xs
  pub short : length xs ≤ 513
  pub ended : is_ended xs ≡ true
  pub early : (front back : List ℕ) → xs ≡ front ++ back → is_ended front ≡ true → back ≡ []

abbrev pub IsFilled : List ℕ → Type 0
IsFilled [] = ⊥
IsFilled (x ∷ xs) = Unit {0}

filled-length : (c : List ℕ) → IsFilled c → 1 ≤ length c
filled-length [] h = absurd h
filled-length (x ∷ xs) h = omega arith

-- As many rounds are enough as there are chunks, and none of them is empty.
length-flat : (cs : List (List ℕ)) → All IsFilled cs → length cs ≤ length (flat cs)
length-flat [] h = omega arith
length-flat (c ∷ cs) (hc, h) =
    omega (arith, length-append c (flat cs), filled-length c hc, length-flat cs h)

read_loop-whole :
    (xs : List ℕ) (c : List ℕ) (cs later : List (List ℕ)) (fuel : ℕ) (bytes out : List ℕ)
    → IsMessage xs
    → xs ≡ bytes ++ (c ++ flat cs)
    → All IsFilled (c ∷ cs)
    → length cs < fuel
    → read_loop chunk_port fuel bytes (record { incoming = c ∷ (cs ++ later); outgoing = out })
      ≡ some (ok xs, record { incoming = later; outgoing = out })
unfolding read_loop is_complete
read_loop-whole xs c cs later zero bytes out h e hc enough = absurd (omega arith)
read_loop-whole xs c [] later (suc fuel) bytes out h e (hc, _) enough =
    let all : xs ≡ bytes ++ c = e ∙ ap (λ t. bytes ++ t) (append-nil c) in
    let size : length xs ≡ length bytes + length c = ap length all ∙ length-append bytes c in
    let room : leb (length c) (513 - length bytes) ≡ true = ground (arith, size, h.short) in
    let ended : is_ended (bytes ++ c) ≡ true = ap is_ended (sym all) ∙ h.ended in
    let done : is_complete (bytes ++ c) (length c) ≡ true =
      ground (arith, ended, size, h.long, length-append bytes c) in
    rw (room, done, all) refl
read_loop-whole xs c (d ∷ ds) later (suc fuel) bytes out h e (hc, (hd, hds)) enough =
    let all : xs ≡ (bytes ++ c) ++ (d ++ flat ds) = e ∙ sym (append_assoc bytes c (d ++ flat ds)) in
    let size : length xs ≡ length (bytes ++ c) + (length d + length (flat ds)) =
      ap length all
      ∙ length-append (bytes ++ c) (d ++ flat ds)
      ∙ ap (λ n. length (bytes ++ c) + n) (length-append d (flat ds)) in
    let room : leb (length c) (513 - length bytes) ≡ true =
      ground (arith, size, h.short, length-append bytes c) in
    let unended : is_ended (bytes ++ c) ≡ false =
      not_ended (d ++ flat ds) all (omega (arith, length-append d (flat ds), filled-length d hd)) in
    let going : is_complete (bytes ++ c) (length c) ≡ false =
      ground (arith, unended, size, h.short, filled-length d hd, filled-length c hc) in
    rw (room, going)
      (read_loop-whole xs d ds later fuel (bytes ++ c) out h all (hd, hds) (omega arith))
  where
    not_ended :
        (back : List ℕ)
        → xs ≡ (bytes ++ c) ++ back
        → 1 ≤ length back
        → is_ended (bytes ++ c) ≡ false
    not_ended back all some_left = elim (Bool-cases (is_ended (bytes ++ c))) [
      | inl x ↦ absurd (omega (arith, ap length (h.early (bytes ++ c) back all x)))
      | inr x ↦ x
    ]

-- `Send` returns a message whole, however it is cut into chunks that are not empty, and leaves what
-- comes after the chunk that ends it.
pub send-whole :
    (adu_request : List ℕ) (c : List ℕ) (cs later : List (List ℕ)) (out : List ℕ)
    → IsMessage (c ++ flat cs)
    → All IsFilled (c ∷ cs)
    → send chunk_port adu_request (record { incoming = c ∷ (cs ++ later); outgoing = out })
      ≡ some (ok (c ++ flat cs), record { incoming = later; outgoing = out ++ adu_request })
unfolding send
send-whole adu_request c cs later out h hc =
    read_loop-whole (c ++ flat cs) c cs later ascii_max_size [] (out ++ adu_request) h refl hc
      (omega (arith, h.short, length-append c (flat cs), length-flat cs hc.1, filled-length c hc.0))
