-- ===== src/Lib.antt =====
-- astits, a library that demuxes and muxes MPEG transport streams: packets of 188 bytes, which carry
-- tables (PSI) and elementary streams (PES). A demuxer reads packets (packet.go), collects those of a
-- PID into units (packet_pool.go), and parses a unit as a table or as a PES packet; a muxer goes the
-- other way.
--
-- Files, and the code that they are about:
-- - Base, with Base/Tests, Lists, Results, Int and Maps: shared names, results of Go calls, Go's
--   `int` where it goes below zero, and maps. A result is a value, an error, a panic, or that a
--   loop on fuel is unfinished.
-- - Bits, Bits/Step: Go's bit operations on unsigned numbers as arithmetic.
-- - Astikit/Iterator, Astikit/Writer: `BytesIterator` and `BitsWriter` of
--   github.com/asticode/go-astikit, which is not in the repository: records of operations, and of
--   the laws that the code relies on. Astikit/Lists has an iterator over a list and a writer into
--   one that fulfil the laws.
-- - Codec: `Reads` and `Writes` relate a parser and a writer to the bytes they stand for.
-- - Clock (parsePCR and writePCR of packet.go; parsePTSOrDTS, writePTSOrDTS, parseESCR and
--   writeESCR of data_pes.go; ClockReference of clock_reference.go), Clock/RoundTrip: layouts.
-- - Packet, Packet/Parse, Packet/Write: packet.go. Packet/Header, Parts, Extension, Field and Layout
--   give the layout of each piece; Packet/Body and RoundTrip that of a whole packet.
-- - Crc32: crc32.go. WrappingCounter: wrapping_counter.go. ProgramMap: program_map.go.
-- - PacketPool: packet_pool.go, and the loop of NextData in demuxer.go that feeds it.
-- - Pat: data_pat.go.
-- - Pes, Pes/Parse, Pes/Write: data_pes.go; Pes/TrickMode, Length and Crc are about its parts.
-- - Psi, Psi/SyntaxHeader, Psi/Section, Psi/Data: data_psi.go, the kinds of tables, the syntax
--   header, a section with its lengths and CRC, and the payload of sections. Psi/Section/Tables:
--   the two tables that can be written, as instances of what the sections' lemmas ask of one.
-- - Pmt, Pmt/StreamType: data_pmt.go.
-- - Cursor, Cursor/Reads: the loops over an iterator that the descriptors and tables share.
-- - Descriptor, with Frame, Audio, Fixed, Text, Lists and LocalTime for the groups of kinds:
--   descriptor.go. Descriptor/Kind is the descriptor as one tagged union, Dispatch the code that
--   goes by the tag. What each group's RoundTrip shows of its kinds is collected in
--   Dispatch/RoundTrip, by `Described`.
-- - Dvb, Dvb/Durations: the durations of dvb.go. Dvb/Dates: parseDVBTime and writeDVBTime, with
--   what they take of package time; Dvb/Dates/RoundTrip and Late are about the dates that are read
--   back and not.
-- - Muxer (the state, the streams), Muxer/Tables, Muxer/Data: muxer.go. Muxer/Monad has the calls of
--   methods: a call gives its outcome and the muxer behind it, which an error leaves as it stands.
--   Muxer/Invariant and Reach are about all calls, Streams about adding and removing streams, and
--   TooLong about a PES header that does not fit into a packet.
-- - RoundTrips: parsers and writers against each other. RoundTrips/Descriptors and Sections put the
--   lemmas of descriptors, program maps and sections together with the times of dvb.go. Tests: runs
--   at concrete inputs.
--
-- How the code is written: a function keeps its name, in snake case. A call that reads or writes
-- takes the iterator or the writer and gives the next one. Numbers are natural numbers; a width is
-- written out where the code can leave it. A pointer that may be nil is an option, and a
-- dereference of nil panics. A batch writer that has failed passes over what follows; here the do
-- block stops. The numbers of bytes that a function returns beside an error are left out. A Go map
-- is a list of keys and values in which a key stands once, and the order in which it is ranged over
-- is an argument. A mutex is held for the whole of each operation, so an operation is one step.
--
-- A time is a number of nanoseconds since the start of the year 1, in UTC. The floats with which
-- dvb.go computes a date are taken as exact: no quotient of theirs is so near to a whole number
-- that rounding would change its whole part. The descriptors and tables take the reader and the
-- writer of times as parameters; `IsDvbTimes` is what their lemmas ask of these, and `dvb_times` fills it with those of
-- dvb.go, for the times that they read back. A write whose error the code does not look at puts nothing out where it
-- fails. The readers of the tables that are only read (NIT, SDT, EIT and TOT) are the parameter
-- `parse_other` of the sections. The callback by which writePSISection follows what is written is
-- taken as the bytes of the buffer behind the writer since the section's start, for which a writer
-- comes with a `Buffer`.
--
-- Fuel: a loop up to an offset, as in `parsePATSection` and in the lists of descriptors, runs on as
-- many turns as there are bytes up to its end, enough where a turn takes a byte or more. A loop
-- without turns left, of which a turn took nothing, is unfinished, which is neither an error nor a
-- panic. The loop of `WriteData` has as many turns as there are bytes of data and two more, for a
-- packet lost to a long adaptation field and for one that the header fills; without turns left it
-- is unfinished. Other loops are recursion on a list or a number.
--
-- Not modelled: the tables that are only read (data_eit.go, data_nit.go, data_sdt.go, data_tot.go),
-- the choice of a parser for a unit (data.go), and the demuxer around it (demuxer.go but for the
-- loop that feeds the pool, and packet_buffer.go). The names of stream and table types are for
-- printing only. The tools under cmd/ print what the library gives.
pub mod Base
pub mod Bits
pub mod Astikit
pub mod Codec
pub mod Cursor
pub mod Clock
pub mod Packet
pub mod Crc32
pub mod Pat
pub mod ProgramMap
pub mod WrappingCounter
pub mod PacketPool
pub mod RoundTrips
pub mod Tests
pub mod Pes
pub mod Descriptor
pub mod Pmt
pub mod Muxer
pub mod Dvb
pub mod Psi
