-- ===== src/Device/Grouped.antt =====
-- Registers that are grouped and read through the client from a device: the whole way of the values.
use mathlib.Core.List.{Perm}
use gomodbus.Prelude.{ℕ, ◌≡◌, refl, ap, ◌∙◌, List, [], map, All, flat}
use gomodbus.Go.{ok}
use gomodbus.Pdu.{Pdu}
use gomodbus.Client.Backend.{Link}
use gomodbus.Register.{DeviceRegister}
use gomodbus.Group.{Runtime, group_device_register}
use gomodbus.Group.Split.{IsRegister}
use gomodbus.Group.Blocks.{IsRuntime}
use gomodbus.Group.Read.{read_grouped_data_sequential}
use gomodbus.Group.Values.{image, loaded}
use gomodbus.Group.Pipeline.{IsFaithful, IsReadable, client_reader, read_grouped-loaded}
use gomodbus.Tcp.{TcpPackager, set_slaver_id}
use gomodbus.Tcp.Total.{tcp_link}
use gomodbus.Device.{Memory, read, IsServer}
use gomodbus.Device.Session.{Wire, run-response}
use gomodbus.Device.Tcp.{Peer, served, tcp_wire}

-- A wire whose connection stays as it is when the slave of the client is set.
pub record KeepsWire {S D : Type 0} {mb : Link S} {answer : Pdu → D → Pdu × D}
    (wire : Wire mb answer) (set_slave_id : ℕ → S → S) : Type 0 where
  pub keeps_ready : (slave : ℕ) (s : S) → wire.IsReady s → wire.IsReady (set_slave_id slave s)
  pub keeps_device : (slave : ℕ) (s : S) → wire.device (set_slave_id slave s) ≡ wire.device s

module _ {S D : Type 0} (mb : Link S) (answer : Pdu → D → Pdu × D) (memory : D → Memory) where
  -- The reads of a client over a wire return the registers of the device.
  pub wire-IsFaithful :
      (wire : Wire mb answer) (set_slave_id : ℕ → S → S) (m : Memory)
      → IsServer answer memory
      → KeepsWire wire set_slave_id
      → IsFaithful
          (client_reader mb set_slave_id)
          m
          (λ s. wire.IsReady s × (memory (wire.device s) ≡ m))
  unfolding gomodbus.Client.Total.run
  wire-IsFaithful wire set_slave_id m server keeps = record {
    reads = λ slave a q s ready low high fits.
        let s' = set_slave_id slave s in
        let same : memory (wire.device s') ≡ m = ap memory (keeps.keeps_device slave s) ∙ ready.1 in
        let (d, answered, changed) = server.serves (read a q) (wire.device s') (low, high, fits) in
        let (t, e, k, at) =
          wire.exchange (read a q) (memory (wire.device s')) s' d (low, high, fits)
            (keeps.keeps_ready slave s ready.0) answered in
        (
          t,
          run-response mb (read a q) (memory (wire.device s')) s' t (low, high, fits) e
              ∙ ap (λ (n : Memory). (ok (image n a q), t)) same,
          (k, ap memory at ∙ changed ∙ same),
        );
  }

abbrev pub set_tcp : {D : Type 0} → ℕ → TcpPackager × Peer D → TcpPackager × Peer D
set_tcp slave s = (set_slaver_id s.0 slave, s.1)

-- Registers are grouped, and all their blocks are read in turn through the client over TCP from a
-- device: there is no error, and the registers of the result are those that were given, each once,
-- with the words that the device holds at their own addresses. Each block is one that a request can
-- read, its first register being a holding register, and sort.Slice and the order of a map do what is
-- documented of them.
pub read_grouped_tcp :
    {F D : Type 0} (go : Runtime F) (answer : Pdu → D → Pdu × D) (memory : D → Memory)
    (rs : List (DeviceRegister F)) (s : TcpPackager × Peer D)
    → IsRuntime go
    → IsServer answer memory
    → All IsRegister rs
    → All IsReadable (group_device_register go rs)
    → s.1.incoming ≡ []
    → (result : List (List (DeviceRegister F))) × (t : TcpPackager × Peer D)
      × (read_grouped_data_sequential
            (client_reader (tcp_link (served answer)) set_tcp)
            (group_device_register go rs)
            s
          ≡ (ok (result, []), t))
      × Perm (flat result) (map (loaded (memory s.1.device)) rs)
read_grouped_tcp go answer memory rs s laws server words readable idle =
    read_grouped-loaded (client_reader (tcp_link (served answer)) set_tcp) go (memory s.1.device) _
      rs s laws
      (wire-IsFaithful (tcp_link (served answer)) answer memory (tcp_wire answer) set_tcp
        (memory s.1.device) server
        (record { keeps_ready = λ slave t r. r; keeps_device = λ slave t. refl }))
      words readable (idle, refl)
