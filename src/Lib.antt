-- ===== src/Lib.antt =====
-- A model of the J1939 library in J1939/, with the time stamps of Common/: CAN frames with 29-bit
-- identifiers, the parameters that their data carries, and the broadcast protocol for messages longer
-- than eight bytes; of the address claimer in j1939AddressClaimer/; and of the periodic sender, the
-- filters, the sniffer, the registry of interfaces and the trace files in CAN/.
--
-- A frame is a header and the payload of one class. The header turns into an identifier, the payload
-- into bytes; the factory decodes an identifier and bytes with the prototype of their PGN. A message
-- longer than eight bytes is cut by the fragmenter into a connection management frame and numbered
-- data frames, and put together again by the reassembler, which asks the factory for the frame. The
-- claimer sends and receives address claim frames, and compares NAMEs, to get a source address. The
-- sender repeats CAN frames with a period, and the sniffer hands on the frames that the receivers of
-- the interfaces receive and that pass their filters. A history keeps the values of a parameter over
-- time. A trace file keeps frames as text, one line each.
--
-- Files:
--   Base, Base/*: tests, lists, words, bits and ordered maps that all parts share.
--   Common: J1939/include/J1939Common.h, the constants, and results that may be an exception.
--   Header, Header/*: J1939/J1939Frame.cpp, the members and the identifier.
--   Addressing, Addressing/*: J1939/Addressing/AddressClaimFrame.cpp, NAMEs.
--   Request: J1939/Frames/RequestFrame.cpp.
--   Transport/Tpcm, Transport/Tpdt: J1939/Transport/TPCMFrame.cpp and TPDTFrame.cpp.
--   Spn, Spn/Codec, Spn/Codec/*: J1939/SPN, numeric, status and string parameters.
--   Generic, Generic/*: J1939/GenericFrame.cpp, a frame as a map of parameters.
--   Diagnosis, Diagnosis/Codes: J1939/Diagnosis, trouble codes and the DM1 frame.
--   Fms, Fms/Block: J1939/FMS/TellTale, the FMS1 frame.
--   Frame, Frame/Encoding: encode and decode of J1939/J1939Frame.cpp over all classes.
--   Factory, Factory/Registry: J1939/J1939Factory.cpp.
--   Bam/Fragmenter, Bam/Reassembler: J1939/Transport/BAM.
--   Bam/Packets, Bam/Sessions, Bam/Delivery, Bam/Rebuilt: the two ends of the protocol against each
--     other.
--   TimeStamp, TimeStamp/Micros: the time stamps of Common/Utils.cpp.
--   History, History/*: J1939/SPN/SPNHistory.cpp, and the map of histories in
--     GUI_WEB/backend/src/graph.cpp.
--   Database, Database/*: J1939/J1939DataBase.cpp, the reading and the writing of a
--     file of frames.
--   Claimer, Claimer/*: j1939AddressClaimer/AddressClaimer.cpp.
--   Can, Can/Filter: CAN/include/CanFrame.h and CanFilter.h, CAN/CommonCanReceiver.cpp.
--   Can/Sender, Can/Sender/*: CAN/CommonCanSender.cpp.
--   Can/Sniffer, Can/Sniffer/*: CAN/CanSniffer.cpp, and the filters of
--     CAN/Backends/Sockets/SocketCanReceiver.cpp.
--   Can/Helpers: CAN/ICanHelper.cpp, the registry of helpers.
--   Can/Easy, Can/Easy/*: CAN/CanEasy.cpp, senders and receivers of the process.
--   Trc/Stream, Trc/Reader, Trc/Files: CAN/TRCReader.cpp; the stream, the state machine for a line, and
--     the operations on a file.
--   Trc/Writer: CAN/TRCWriter.cpp.
--   Trc/Digits, Trc/Extract, Trc/Tokens, Trc/Octets, Trc/Lines: what is written against what is read.
--   Trc/Moves, Trc/Termination, Trc/Loops, Trc/Totals: the loops of the reader.
--   Trc/Reading, Trc/Traces, Trc/Seeking, Trc/Refusals: the reader on lines and files of the writer.
--   Examples, Examples/*: runs on concrete frames.
--
-- State and operations. An object is a record of its members and a member function a function from
-- the record to the new record and the result, with the name of the source in snake_case. A virtual
-- call is a case distinction on the payload (`Frame`) or on the parameter (`Spn`). A `std::map` is an
-- association list in the order of its keys (`Base/Dict`). An exception is an `err` with the class of
-- the exception and its reason; an access behind a buffer is the error `fault`, where the source has
-- undefined behaviour. A failed assertion is `none`. What `new u8[n]` finds in memory is a parameter
-- of the reassembler, of which only the length is assumed.
--
-- Integers are natural numbers with the cut to the width written out where the source stores into a
-- narrower type. The loop of the fragmenter runs on the number of bytes as fuel, and every round takes
-- one byte at least, so that it always ends with the data used up. Apart from the loop of `getWindow`,
-- all others run over a list or over the places of one.
--
-- The loop of `getWindow` runs on fuel, one unit for each sample of the window; fuel for two rounds more
-- than the window has milliseconds is enough when the period is at least one millisecond. Values of
-- parameters that are doubles, with their equality, are parameters of the histories. What the JSON
-- library answers about a document is a record (`Json`) that the database is given, and what it builds is
-- another (`Builder`).
--
-- The loop over the characters of a line runs on fuel, one unit for each character that is left and two
-- more; the loops over lines on one unit for each character of the file and two more. A file is the list
-- of its characters, shorter than 2^31 of them; a stream is what is ahead of the cursor, with the bits
-- for the end and for a failure. Arithmetic on double, and its reading and printing, are a parameter
-- (`Doubles`), and so is what backends, `select`, `setsockopt` and receivers
-- answer.
--
-- Concurrency. The thread of the claimer stops only in `read`, so a state stands between two calls of
-- it (`Claimer.Place`); a step is a frame that another thread hands over, or a `read` that returns
-- after any time, also without a frame. The sender's calls and the rounds of its thread exclude one
-- another by its mutex, so each is one step; the time of a round is chosen from outside.
--
-- Not modelled: the conversion of numeric parameters to and from floating point, printing, the
-- starting and joining of threads, the backends of CAN/ but for the filters of SocketCAN, which are
-- system calls, and the tools and user interfaces, which are input and output.
mod Base
mod Examples
pub mod Common
pub mod Header
pub mod Addressing
pub mod Request
pub mod Transport
pub mod Spn
pub mod Generic
pub mod Diagnosis
pub mod Fms
pub mod Frame
pub mod Factory
pub mod Bam
pub mod TimeStamp
pub mod Trc
pub mod History
pub mod Database
pub mod Can
pub mod Claimer
