-- ===== src/Lib.antt =====
-- libtvnet: the pickle format for messages, and what encodes and decodes it.
--
-- A process turns a printf call into a message: `tvnp_fmt_parse` (tvnet/fmt_parser.c) finds the
-- types of the arguments, `tvnp_vlength` says how many bytes they take, and `tvnp_vencode`
-- (tvnet/pickle_stdarg_encoder.c) stores them, one token each, with the encoders of
-- tvnet/pickle_encoder.h. The receiver reads tokens with tvnet/pickle_decoder.h, through
-- `tvnp_vdecode` (tvnet/pickle_stdarg_decoder.c), or prints a message with tvnet/pickle_print.c.
-- Identifiers of users, sessions and transactions are drawn with `tvn_cuid` (tvnet/cuid.h). A log
-- call (tvnet/log.c) stores such a message, behind a header, into a ring buffer in shared memory; the
-- log daemon (tvlogd/loop.c) takes it from there, decodes the header, prints the message and writes a
-- line into a file; tvlog (tvlog/main.c) logs its arguments. tvnet/service.h names the sockets of
-- services and clients by numbers. The Python extension (pyext/tvnetmodule.c) encodes and decodes
-- objects, and sends them over such sockets. `tvn_init`
-- (tvnet/common.c) attaches a process to the shared memory of the log ring and of `tvn_cuid`.
--
-- Base        names of the libraries, numbers, lists, integers of C, and lemmas that all parts share
-- Tvutils     the parameter for what the code takes from the tvutils library and from floating-point
--             arithmetic: big-endian accessors, sign extension, casts, with the laws relied on;
--             Tvutils.Sample is an instance to run the model
-- Buffer      `tvu_buffer_t`: memory, offset and size, with loads and stores that fault outside
-- Pickle      one token. Length, Encoder and Decoder are pickle_length.h, pickle_encoder.h and
--             pickle_decoder.h, one function for each function or macro; Bytes is the format by
--             itself; Encoding and Storage relate the encoders to it; At, RoundTrip and Safety are
--             about the decoder, Items about sequences of anything that a token holds
-- Fmt         fmt_parser.c; Grammar and Render describe printf formats, Count bounds the result
-- Stdarg      pickle_stdarg_encoder.c and pickle_stdarg_decoder.c: Args is a `va_list`, Encoder and
--             Decoder are the code, Spec, Size and RoundTrip relate them, Safety is about the decoder
--             on any bytes
-- Print       pickle_print.c: Encoder makes a message of a printf call and Decoder a printf call of a
--             message; Arguments, RoundTrip, Size and Overflow are about the two together, Typing,
--             Calling and Untrusted about messages of any bytes
-- Init        common.c: `tvn_init`; Once and Attach are about any number of processes that call it
-- Cuid        cuid.h: threads interleaved at their atomic operations; Invariant and Order are about
--             the identifiers, Wait is about the steps of a call
-- Daemon      tvlogd/main.c: the options of the log daemon and what its main function does
-- Pyext       pyext/tvnetmodule.c: Objects, Encoder and Decoder are the code; Bytes is the format of an
--             object by itself; Encoding, Leaves, RoundTrip and Message relate them; Ends and Total are
--             about arbitrary bytes, Truncated about messages that are cut off; Sockets is the rest of
--             the extension, Exchange is about two programs that send objects
-- Log         Client is tvnet/log.c, Severity tvnet/log.h; Files, Daemon and Loop are tvlogd/loop.c;
--             Storing is about the client, Reading and Delivery about both together, Malformed about
--             packets of any bytes, Runs, Descriptors, Reopening and Marks about the daemon over time
-- Service     tvnet/service.h without TIPC: Libc is what it takes from libc, Unix the addresses, Calls the
--             functions for sockets; Addresses and Numbers are about them; Kernel is a parameter for
--             files that name sockets, Registry and Refinement are about the functions over time on
--             such files, with Names for its lemmas
-- Tool        tvlog/main.c; Message is about what it logs
--
-- State and faults. A buffer is passed on explicitly. `none` is undefined behaviour, a store or a load
-- outside the memory, or `abort()`; errors that the code reports are values. The macro
-- TVNP_DECODE_BOUND_CHECK is `past_end`, with its 64-bit sum; offsets and sizes are 64 bits wide, and
-- `size_t` sums keep `% 2 ^ 64`. The value that `tvnp_decode_container` leaves unset on its error path
-- is the parameter `junk`. Integers are two's complement (`to_signed`, `to_unsigned`); doubles are bit
-- patterns, and what they compute is a parameter with laws. The encoders cast each double with
-- `floor(x) == x` to `int64_t`, also 1e300 and infinity, where the cast is undefined: `cast_i64` gives
-- `none` where the parameter `fits_int` says so, and the predicate `IsF64` excludes these doubles from
-- the theorems about what is encoded. The casts of tvnp_pickle_to_va are undefined likewise
-- (`cast_fits`); those of `tvnp_vdecode` store some value of the type. The recursion and the loop of
-- the Python decoder take fuel, one unit for each level and round; two units more than there are bytes
-- are enough for any input. No other definition takes fuel: the loops go over texts and lists of
-- inputs.
--
-- `getopt_long` and `tvu_daemon` are inputs and parameters of Daemon; `vprintf`, which may be
-- undefined on a call, `tvu_buffer_alloc` and what a frame gives to its arrays (`VaFrame`: the bytes
-- of an array, and whether the buffer for the arguments has room) are parameters of Print; CPython is
-- the parameter `Python` of Pyext, and the results of `PyArg_ParseTuple` are inputs; the packets of
-- the ring, the clock, the signals and `open` are inputs of Log, and the results of system calls
-- inputs of Service and Init, as is what the uninitialised `address_len` of `tvns_recvfrom` holds.
-- Closing a socket is taken to close its only descriptor: no name reaches it any more. The contents of
-- the shared segment with the functions of its ring are the parameter `Segment` of Init, and calls of
-- `tvn_init` do not overlap. In Cuid a schedule says which thread runs next and what the clock shows;
-- each step is one atomic operation, and 2 ^ 49 steps keep the word below 2 ^ 63.
--
-- Not modelled: the TIPC variant of tvnet/service.h, which does not compile, `tvns_socket`, the ring
-- buffer and the daemon functions of tvutils, calls of `tvn_init` that overlap, the flags of `sendto`
-- and `recvfrom`, the table of methods of the Python extension, allocations of CPython that fail and
-- its reference counts, the texts of usage messages, and the build files.
pub mod Base
pub mod Tvutils
pub mod Buffer
pub mod Pickle
pub mod Fmt
pub mod Stdarg
pub mod Print
pub mod Init
pub mod Cuid
pub mod Daemon
pub mod Pyext
pub mod Log
pub mod Service
pub mod Tool
