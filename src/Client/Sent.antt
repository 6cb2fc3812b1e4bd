-- ===== src/Client/Sent.antt =====
-- What a successful `send` went through.
use gomodbus.Prelude.{
  ℕ, ◌≡◌, ◌≢◌, refl, ap, ◌∙◌, arith, Bool, true, false, List, [], ◌∷◌, length, ◌==◌, ◌!=◌,
}
use gomodbus.Go.{Outcome, ok, err, panic, Error}
use gomodbus.Pdu.{Pdu}
use gomodbus.Client.Backend.{Action, Link, pure, lift, check, continue, ◌>>=◌, ◌>>◌}
use gomodbus.Client.Payload.{response_error}
use gomodbus.Client.{send}

continue-ok :
    {S A B : Type 0} (k : A → Action S B) (o : Outcome A) (s t : S) (b : B)
    → continue k o s ≡ (ok b, t)
    → (a : A) × (o ≡ ok a) × (k a s ≡ (ok b, t))
continue-ok k (ok a) s t b h = (a, refl, h)
continue-ok k (err e) s t b h = cc
continue-ok k panic s t b h = cc

pub bind-ok :
    {S A B : Type 0} (m : Action S A) (k : A → Action S B) (s t : S) (b : B)
    → (m >>= k) s ≡ (ok b, t)
    → (a : A) × (m s ≡ (ok a, (m s).1)) × (k a (m s).1 ≡ (ok b, t))
unfolding ◌>>=◌
bind-ok m k s t b h =
    let (a, e, r) = continue-ok k (m s).0 (m s).1 t b h in (a, (λ i. (e i, (m s).1)), r)

-- The checks at the end of `send`, on the outcomes of `Verify` and `Decode`.
unfoldable pub settle : {S : Type 0} → Pdu → Outcome (Unit {0}) → Outcome Pdu → Action S Pdu
settle request v d = do
  lift v
  response ← lift d
  check (response.function_code != request.function_code) (response_error response)
  check (length response.payload == 0) Error.empty_data
  pure response

nonempty_of_length : (xs : List ℕ) → (length xs == 0) ≡ false → xs ≢ []
nonempty_of_length [] h = λ e. cc
nonempty_of_length (x ∷ xs) h = λ e. cc

length_of_nonempty : (xs : List ℕ) → xs ≢ [] → (length xs == 0) ≡ false
length_of_nonempty [] h = absurd (h refl)
length_of_nonempty (x ∷ xs) h = ground arith

ok_inverse : (r response : Pdu) → ◌≡◌ {A = Outcome Pdu} (ok r) (ok response) → r ≡ response
ok_inverse r response h = cc

two_checks :
    {S : Type 0} (b c : Bool) (e f : Error) (r response : Pdu) (s t : S)
    → (check b e >> (check c f >> pure r)) s ≡ (ok response, t)
    → (b ≡ false) × (c ≡ false) × (r ≡ response) × (s ≡ t)
unfolding ◌>>=◌ check
two_checks true c e f r response s t h = cc
two_checks false true e f r response s t h = cc
two_checks false false e f r response s t h =
    (refl, refl, ok_inverse r response (ap (λ p. p.0) h), ap (λ p. p.1) h)

settle-ok :
    {S : Type 0} (request : Pdu) (v : Outcome (Unit {0})) (d : Outcome Pdu) (s t : S)
    (response : Pdu)
    → settle request v d s ≡ (ok response, t)
    → (v ≡ ok tt)
      × (d ≡ ok response)
      × (response.function_code ≡ request.function_code)
      × (response.payload ≢ [])
      × (s ≡ t)
unfolding settle ◌>>=◌
settle-ok request (ok u) (ok r) s t response h =
    let (b, c, e, p) =
      two_checks (r.function_code != request.function_code) (length r.payload == 0)
        (response_error r) Error.empty_data r response s t h in
    (refl, ap ok e, rw (← e) (ground arith), rw (← e) (nonempty_of_length r.payload c), p)
settle-ok request (ok u) (err e) s t response h = cc
settle-ok request (ok u) panic s t response h = cc
settle-ok request (err e) d s t response h = cc
settle-ok request panic d s t response h = cc

module _ {S : Type 0} (mb : Link S) where
  -- What a successful `send` went through.
  pub record Sent (request response : Pdu) (s t : S) : Type 0 where
    pub adu_request : List ℕ
    pub adu_response : List ℕ
    pub middle : S
    pub encoded : mb.encode request s ≡ (ok adu_request, middle)
    pub transmitted : mb.transmit adu_request middle ≡ (ok adu_response, t)
    pub verified : mb.verify adu_request adu_response ≡ ok tt
    pub decoded : mb.decode adu_response ≡ ok response
    pub same_function : response.function_code ≡ request.function_code
    pub nonempty : response.payload ≢ []

  pub send-Sent :
      (request response : Pdu) (s t : S)
      → send mb request s ≡ (ok response, t)
      → Sent request response s t
  unfolding send settle
  send-Sent request response s t e =
      let (adu_request, encoded, rest) = bind-ok (mb.encode request) _ s t response e in
      let (adu_response, transmitted, checks) =
        bind-ok (mb.transmit adu_request) _ (mb.encode request s).1 t response rest in
      let (verified, decoded, same, nonempty, state) =
        settle-ok request (mb.verify adu_request adu_response) (mb.decode adu_response) _ t response
          checks in
      record {
        adu_request = adu_request;
        adu_response = adu_response;
        middle = (mb.encode request s).1;
        encoded = encoded;
        transmitted = transmitted ∙ ap (λ x. (ok adu_response, x)) state;
        verified = verified;
        decoded = decoded;
        same_function = same;
        nonempty = nonempty;
      }

  -- An exchange that goes through all of it succeeds.
  pub Sent-send :
      (request response : Pdu) (s t : S)
      → Sent request response s t
      → send mb request s ≡ (ok response, t)
  unfolding send ◌>>=◌ check
  Sent-send request response s t x =
      let same : (response.function_code != request.function_code) ≡ false =
        ground (arith, x.same_function) in
      let some_data : (length response.payload == 0) ≡ false = length_of_nonempty _ x.nonempty in
      rw (x.encoded, x.transmitted, x.verified, x.decoded, same, some_data) refl
