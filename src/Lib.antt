-- ===== src/Lib.antt =====
-- A model of the Go package gomodbus, a client library for the Modbus protocol, and the properties
-- that make it correct.
--
-- A client builds a protocol data unit for a request, a packager wraps it into a frame, a
-- transporter exchanges the frame with the device, and the packager verifies and unwraps the
-- response, whose payload the client checks.
--
-- Crc - the table-driven checksum of crc.go and, in Crc/BitLoop, CRC16 of enhancement-utils.go.
-- Pdu - ProtocolDataUnit of modbus.go.
-- Rtu - the packager of rtuclient.go (Encode, Verify, Decode, which is real_length followed by
--   decode_frame). Rtu/Frame, Rtu/Cut and Rtu/Size describe the parts of a frame.
-- Rtu/Length and Rtu/Transport - calculateResponseLength and Send of rtuclient.go, over the operations
--   of a port. Rtu/Delivery is about both, Rtu/Total about the client over them,
--   and Rtu/Delay has calculateDelay, whose result Send sleeps.
-- Tcp - the packager of tcpclient.go, and in Tcp/Transport its Send over the operations of a
--   connection: connecting, the deadline, writing, io.ReadFull and flushing. A law about them
--   (IsConn) is named where a theorem needs it.
-- Register - the registers of enhancement-register.go: byte orders, sizes and DecodeValue, whose
--   floating point operations are given. Names of types and orders are those that the code
--   compares with, and one constructor for any other string.
-- Handler - the requests of enhancement_handler.go over the transport of the mode of the handler, which
--   sends a unit to a slave and receives one; Handler/Checks has the checks of what was received,
--   and Handler/Scan the requests without a fixed response and the scan.
--   What the handler logs, and the text that wraps an error, are left out.
-- Group - the blocks of enhancement-group.go; Group/Read has readGroup over the reads of a client. A map is a
--   list of keys with their values; sort.Slice and the order of a map are given, and IsRuntime is
--   what is documented of them. Group/Split, Group/Blocks and Group/Values are about the blocks.
-- Manager - loading of the register manager and of the scheduler of enhancement-poller.go. Manager/Queue
--   has ReadGroupedData, Start and Stop as steps that interleave, Manager/Deadlock a run of them.
-- Poller - the streams of enhancement-poller.go and the goroutines of the poller and its managers, with Stop,
--   as steps that interleave; what a read gives and when the ticker fires is open. Poller/Order is
--   about the groups on their way, Poller/Stop about the end.
-- Logger - enhancement-logger.go over an output; the level is a data type of the five constants.
-- Enhanced - the packagers of enhancement-tcp_packager.go and enhancement-rtu_packager.go, and in
--   Enhanced/Tcp and Enhanced/Rtu the transporters, over the operations of a connection. Enhanced/Scan is
--   about the scan of the handler over a serial port.
-- Group/Concurrent and Group/Collect - ReadGroupedDataConcurrently as steps that interleave: the first has
--   what its goroutines do to the client that they share, the second what is done with their
--   results, which are given there. A goroutine that panics is left out.
-- Lrc and Ascii - the checksum of lrc.go and the packager of asciiclient.go. Ascii/Transport has its Send: the
--   loop of reads is recursion on fuel, and 513 rounds are enough, one for each byte of the buffer.
--   Ascii/Frame, Ascii/Message and Ascii/Checked are about frames, Ascii/Delivery about ports that cut them.
-- Client - the requests of client.go over a Link, which stands for the Packager and the Transporter
--   interfaces of modbus.go with a state of their own. Client/Payload has the payloads of requests
--   and the checks of those of responses, which the requests share. Client/Total lists the twelve
--   requests that read and write data, which Client/Exchange and Client/Accepted are about.
-- Rtu/OverTcp and Ascii/OverTcp - the same exchanges over TCP, and the raw exchanges.
-- Connection - Connect, Close and the idle timer of serial.go and tcpclient.go; Connection/Lifecycle is about
--   any sequence of them.
-- Client/Objects and Client/Identification - ReadDeviceIdentification of client.go. Its loops are recursion
--   on fuel, which a device can exhaust; Client/Identified says which devices are identified.
-- Device - a device that holds registers, over which the parts are put together. The device is given, and
--   IsServer is what the protocol says of its answers. Device/Session has the client over any
--   connection that delivers them, Device/Tcp and Device/Rtu the two packagers and transporters of it.
--   Device/Grouped adds the blocks of registers, and Group/Pipeline the reads of a client in general.
-- Go - what the code uses of Go. A slice is a list of numbers, a byte is a number below 256, and
--   conversions to a narrower integer are written out (u8, u16). An index or a slice expression out of
--   range is the outcome panic, an error is the outcome err with what its message prints. The
--   loops over slices are structural recursion, so no fuel is needed.
-- Prelude and Bits - the numbers, lists and bit operations that the parts share.
--
-- Tests has runs on concrete inputs, and each theorem with hypotheses at one.
--
-- Not modelled: the devices and sockets, deadlines and locks, which belong to the operating
-- system and the Go library; a transporter is what it does to a state and the bytes that it returns.
-- Nor are the wording of error messages, the JSON text and the rounding of register values, the defaults
-- that the constructors of handlers fill in, and the interface declarations of api.go and
-- enhancement-types.go, whose methods are modelled where they are implemented.
pub mod Prelude
pub mod Bits
pub mod Crc
pub mod Go
pub mod Pdu
pub mod Poller
pub mod Logger
pub mod Rtu
pub mod Tcp
pub mod Client
pub mod Register
pub mod Group
pub mod Manager
pub mod Handler
pub mod Enhanced
pub mod Lrc
pub mod Ascii
pub mod Device
pub mod Connection
pub mod Tests
