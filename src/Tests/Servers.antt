-- ===== src/Tests/Servers.antt =====
-- A device whose state is its registers, behind a TCP connection and behind a serial line.
use gomodbus.Prelude.{
  ℕ, ◌+◌, ◌*◌, ◌≡◌, ◌≢◌, refl, arith, List, [], ◌∷◌, All, IsWord, ◌==◌, if◌then◌else◌,
}
use gomodbus.Go.{ok, panic}
use gomodbus.Go.Word.{word_of_bytes}
use gomodbus.Pdu.{Pdu}
use gomodbus.Client.Payload.{data_block, data_block_suffix}
use gomodbus.Handler.{unpack_words}
use gomodbus.Group.Values.{image}
use gomodbus.Tcp.{TcpPackager}
use gomodbus.Rtu.{RtuPackager}
use gomodbus.Device.{
  Memory, stored, Command, read, write, write_many, IsValid, after, response, command_pdu, IsServer,
  all_results, all_after,
}
use gomodbus.Device.Session.{run_commands}
use gomodbus.Device.Tcp.{Peer, served, run_commands-refines_tcp}
use gomodbus.Rtu.Total.{IsTotalPort, rtu_link, run_rtu-ne-panic}
use gomodbus.Rtu.Delivery.{parts_port}
use gomodbus.Device.Rtu.{Line, line_port, run_commands-refines_rtu}
use gomodbus.Tcp.Total.{tcp_link}
use gomodbus.Client.Total.{Request, run}

-- The answers to the data of a request: the registers that it reads, or the echo of what it writes.
abbrev pub read_answer : List ℕ → Memory → Pdu × Memory
read_answer (a ∷ b ∷ c ∷ d ∷ []) m =
    let n = c * 256 + d in
    (record { function_code = 3; payload = 2 * n ∷ image m (a * 256 + b) n }, m)
read_answer xs m = (record { function_code = 0x83; payload = 3 ∷ [] }, m)

abbrev pub write_answer : List ℕ → Memory → Pdu × Memory
write_answer (a ∷ b ∷ c ∷ d ∷ []) m = (
  record { function_code = 6; payload = a ∷ b ∷ c ∷ d ∷ [] },
  stored m (a * 256 + b) ((c * 256 + d) ∷ []),
)
write_answer xs m = (record { function_code = 0x86; payload = 3 ∷ [] }, m)

abbrev pub write_many_answer : List ℕ → Memory → Pdu × Memory
write_many_answer (a ∷ b ∷ c ∷ d ∷ n ∷ xs) m = (
  record { function_code = 16; payload = a ∷ b ∷ c ∷ d ∷ [] },
  stored m (a * 256 + b) (unpack_words xs),
)
write_many_answer xs m = (record { function_code = 0x90; payload = 3 ∷ [] }, m)

abbrev pub registers : Pdu → Memory → Pdu × Memory
registers pdu m =
    if pdu.function_code == 3
    then read_answer pdu.payload m
    else if pdu.function_code == 6
    then write_answer pdu.payload m
    else write_many_answer pdu.payload m

unpack_words-data_block : (vs : List ℕ) → All IsWord vs → unpack_words (data_block vs) ≡ vs
unfolding unpack_words data_block
unpack_words-data_block [] h = refl
unpack_words-data_block (v ∷ vs) (hv, h) =
    rw (word_of_bytes v hv, unpack_words-data_block vs h) refl

pub registers-IsServer : IsServer registers (λ m. m)
unfolding data_block data_block_suffix
registers-IsServer = record { serves = serves }
  where
    serves :
        (c : Command) (m : Memory)
        → IsValid c
        → (d : Memory) × (registers (command_pdu c) m ≡ (response c m, d)) × (d ≡ after c m)
    serves (read a q) m (low, high, fits) =
        (m, rw (word_of_bytes a (omega arith), word_of_bytes q (omega arith)) refl, refl)
    serves (write a v) m (ha, hv) =
        (stored m a (v ∷ []), rw (word_of_bytes a ha, word_of_bytes v hv) refl, refl)
    serves (write_many a vs) m (low, high, fits, words) = (
      stored m a vs,
      rw (word_of_bytes a (omega arith), unpack_words-data_block vs words) refl,
      refl,
    )

abbrev commands : List Command
commands = write 5 258 ∷ write_many 6 (1027 ∷ 7 ∷ []) ∷ read 4 4 ∷ []

commands-IsValid : All IsValid commands
commands-IsValid = (
  (omega arith, omega arith),
  (
    (omega arith, omega arith, omega arith, (omega arith, (omega arith, tt))),
    ((omega arith, omega arith, omega arith), tt),
  ),
)

commands_run :
    all_results commands (λ i. 0)
    ≡ (1 ∷ 2 ∷ []) ∷ (0 ∷ 2 ∷ []) ∷ (0 ∷ 0 ∷ 1 ∷ 2 ∷ 4 ∷ 3 ∷ 0 ∷ 7 ∷ []) ∷ []
unfolding data_block
commands_run = refl

abbrev on_tcp : TcpPackager × Peer Memory
on_tcp =
    (record { transaction_id = 65535; slave_id = 1 }, record { device = λ i. 0; incoming = [] })

run_commands-refines_tcp_example :
    (t : TcpPackager × Peer Memory) × (run_commands (tcp_link (served registers)) commands on_tcp
      ≡ (ok (all_results commands (λ i. 0)), t))
    × (t.1.incoming ≡ [])
    × (t.1.device ≡ all_after commands (λ i. 0))
run_commands-refines_tcp_example =
    run_commands-refines_tcp registers (λ m. m) commands on_tcp registers-IsServer commands-IsValid
      refl

abbrev on_line : RtuPackager × Line Memory
on_line = (record { slave_id = 17 }, record { device = λ i. 0; incoming = [] })

run_commands-refines_rtu_example :
    (t : RtuPackager × Line Memory) × (run_commands
        (rtu_link (line_port registers 2))
        commands
        on_line
      ≡ (ok (all_results commands (λ i. 0)), t))
    × (t.1.incoming ≡ [])
    × (t.1.device ≡ all_after commands (λ i. 0))
run_commands-refines_rtu_example =
    run_commands-refines_rtu registers 2 (λ m. m) commands on_line registers-IsServer
      commands-IsValid refl (omega arith)

parts_total : IsTotalPort parts_port
parts_total = record {
  connect_total = λ s p. cc;
  write_total = λ xs s p. cc;
  delay_total = λ n s p. cc;
  read_at_least_total = λ n m s p. ground arith;
  read_full_total = λ n s p. ground arith;
}

-- A port that delivers three bytes of an answer and no more.
run_rtu-ne-panic_example :
    (run
      (rtu_link parts_port)
      (Request.holding_registers 7 1)
      (record { slave_id = 1 }, record { first = 1 ∷ 3 ∷ 2 ∷ []; second = []; written = [] })).0
    ≢ panic
run_rtu-ne-panic_example =
    run_rtu-ne-panic parts_port parts_total (Request.holding_registers 7 1)
      (record { slave_id = 1 }, record { first = 1 ∷ 3 ∷ 2 ∷ []; second = []; written = [] })
