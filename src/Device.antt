-- ===== src/Device.antt =====
-- A device that holds registers, as the protocol describes it, and what a client does with it. The
-- device is given; `IsServer` is what the protocol says of its answers.
pub mod Session
pub mod Tcp
pub mod Rtu
pub mod Grouped
use gomodbus.Prelude.{
  zero, suc, IsByte, ◌/◌, ◌%◌, refl, arith, ◌≢◌, ℕ, ◌+◌, ◌*◌, ◌≤◌, ◌≡◌, List, [], ◌∷◌, length, All,
  IsWord, ◌==◌, if◌then◌else◌,
}
use gomodbus.Pdu.{Pdu}
use gomodbus.Client.Payload.{data_block}
use gomodbus.Client.Total.{Request}
use gomodbus.Client.Exchange.{request_pdu}
use gomodbus.Group.Values.{image, length-image}

abbrev pub Memory : Type 0
Memory = ℕ → ℕ

abbrev pub stored : Memory → ℕ → List ℕ → Memory
stored m a [] = m
stored m a (v ∷ vs) = stored (λ i. if i == a then v else m i) (a + 1) vs

-- The requests on registers that are read and written back.
pub data Command : Type 0 where
  read write : ℕ → ℕ → Command
  write_many : ℕ → List ℕ → Command

-- The method of the client, with its arguments.
abbrev pub to_request : Command → Request
to_request (read a q) = Request.holding_registers a q
to_request (write a v) = Request.single_register a v
to_request (write_many a vs) = Request.multiple_registers a (length vs) (data_block vs)

-- Addresses and values of 16 bits, and the quantities that the protocol allows.
abbrev pub IsValid : Command → Type 0
IsValid (read a q) = (1 ≤ q) × (q ≤ 125) × (a + q ≤ 65536)
IsValid (write a v) = IsWord a × IsWord v
IsValid (write_many a vs) =
    (1 ≤ length vs) × (length vs ≤ 123) × (a + length vs ≤ 65536) × All IsWord vs

-- What a command does to the registers, and what it returns.
abbrev pub after : Command → Memory → Memory
after (read a q) m = m
after (write a v) m = stored m a (v ∷ [])
after (write_many a vs) m = stored m a vs

abbrev pub result : Command → Memory → List ℕ
result (read a q) m = image m a q
result (write a v) m = data_block (v ∷ [])
result (write_many a vs) m = data_block (length vs ∷ [])

-- The response of a device with these registers.
abbrev pub response : Command → Memory → Pdu
response (read a q) m = record { function_code = 3; payload = 2 * q ∷ image m a q }
response (write a v) m = record { function_code = 6; payload = data_block (a ∷ v ∷ []) }
response (write_many a vs) m = record {
  function_code = 16;
  payload = data_block (a ∷ length vs ∷ []);
}

abbrev pub command_pdu : Command → Pdu
command_pdu c = request_pdu (to_request c)

-- The registers of a device, which answers a valid command and carries it out.
pub record IsServer {D : Type 0} (answer : Pdu → D → Pdu × D) (memory : D → Memory) : Type 0 where
  pub serves :
      (c : Command) (d : D)
      → IsValid c
      → (d' : D) × (answer (command_pdu c) d ≡ (response c (memory d), d'))
        × (memory d' ≡ after c (memory d))

-- Commands one after the other, on the registers alone.
abbrev pub all_results : List Command → Memory → List (List ℕ)
all_results [] m = []
all_results (c ∷ cs) m = result c m ∷ all_results cs (after c m)

abbrev pub all_after : List Command → Memory → Memory
all_after [] m = m
all_after (c ∷ cs) m = all_after cs (after c m)

-- The response to a valid command is one, with at most 251 bytes of data.
pub same_function :
    (c : Command) (m : Memory) → (response c m).function_code ≡ (command_pdu c).function_code
same_function (read a q) m = refl
same_function (write a v) m = refl
same_function (write_many a vs) m = refl

pub has_payload : (c : Command) (m : Memory) → (response c m).payload ≢ []
unfolding data_block
has_payload (read a q) m = λ p. cc
has_payload (write a v) m = λ p. cc
has_payload (write_many a vs) m = λ p. cc

pub length-response : (c : Command) (m : Memory) → IsValid c → length (response c m).payload ≤ 251
unfolding data_block
length-response (read a q) m (low, high, fits) = omega (arith, length-image m a q)
length-response (write a v) m h = omega arith
length-response (write_many a vs) m h = omega arith

-- The data of a response are bytes, and a response to a read counts them.
image-IsByte : (m : Memory) (a n : ℕ) → All IsByte (image m a n)
image-IsByte m a zero = tt
image-IsByte m a (suc n) = (omega arith, (omega arith, image-IsByte m (a + 1) n))

data_block-IsByte : (vs : List ℕ) → All IsByte (data_block vs)
unfolding data_block
data_block-IsByte [] = tt
data_block-IsByte (v ∷ vs) = (omega arith, (omega arith, data_block-IsByte vs))

pub response-IsByte :
    (c : Command) (m : Memory)
    → IsValid c
    → IsByte (response c m).function_code × All IsByte (response c m).payload
response-IsByte (read a q) m (low, high, fits) = (omega arith, (omega arith, image-IsByte m a q))
response-IsByte (write a v) m h = (omega arith, data_block-IsByte (a ∷ v ∷ []))
response-IsByte (write_many a vs) m h = (omega arith, data_block-IsByte (a ∷ length vs ∷ []))
