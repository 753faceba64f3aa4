-- ===== src/Lib.antt =====
-- The C code that the logoguess app is built with.
--
-- The app itself is a Flutter quiz in Dart (lib/). The C files of the repository stand in the pods
-- that its iOS build compiles (ios/Pods): nanopb, with which GoogleDataTransport and
-- FirebaseCoreDiagnostics encode and decode protocol buffers, and the base64 routines of
-- FirebaseDatabase. This library models those two.
--
-- The parts, and the files that model them:
--   * ios/Pods/nanopb/pb_decode.c, input streams (Nanopb/IStream): pb_istream_t is the record
--     IStream, and a function that reads is a Decoder, from a stream to an Outcome: `done` with
--     what it stores and the stream after it for `true`, `failed` with the stream for `false`.
--     `fault` is an access outside a buffer, or a loop that runs out of fuel, and is proved not to
--     occur. Nanopb/IStream/Safe says what a run on any buffer keeps.
--   * pb_decode.c, the wire format (Nanopb/Wire): varints, tags, pb_skip_field, read_raw_value,
--     pb_make_string_substream and pb_close_string_substream.
--   * pb_decode.c, the field decoders (Nanopb/DecodeScalar): the pb_dec_ functions of the scalar
--     types and of fixed_length_bytes. They may store a value and return false, so they leave a
--     pair of an Outcome and of what was stored.
--   * pb_decode.c, strings and bytes (Nanopb/DecodeString, Nanopb/DecodeBytes): pb_dec_string and
--     pb_dec_bytes, into the bytes of a field in the struct or into the block that allocate_field
--     gives.
--   * pb_decode.c, the allocation of pointer fields (Nanopb/Allocate): allocate_field, for a build
--     with PB_ENABLE_MALLOC. pb_realloc is a parameter.
--   * pb_encode.c, output streams (Nanopb/OStream): pb_ostream_t is the record OStream, with the
--     bytes stored so far and the room that the caller's buffer has left.
--   * pb_encode.c, encoders of values and of fields (Nanopb/Encode, Nanopb/EncodeScalar).
--   * pb.h, field descriptors (Nanopb/Field), and pb_common.c, the iterator over them
--     (Nanopb/FieldIter); its child Layout describes the places of fields in a struct.
--   * Nanopb/RoundTrip relates encoders and decoders.
--   * The message level works on the message structs of the program, arrays behind pointers and
--     extensions: bytes in objects of a Memory (Nanopb/Memory). Descriptor tables are constants of
--     generated code, and callbacks are the user's: the records EncodeProgram (Nanopb/Program) and
--     DecodeProgram (Nanopb/DecodeMessage/Actions) say what stands at such addresses.
--   * pb_encode.c, messages (Nanopb/EncodeMessage): the encoders of fields, extensions, pb_encode
--     and its variants; encode_array is in its child Arrays, the table PB_ENCODERS and
--     pb_encode_submessage are in Values, pb_check_proto3_default_value in Default. An Encoder reads
--     the memory and does not change it. Counts compares runs on a sizing stream with runs that
--     write; Depth is about the nesting of descriptor tables.
--   * pb_decode.c, messages (Nanopb/DecodeMessage): pb_decode_noinit, pb_decode and the delimited
--     variants. A function that reads the stream and changes the memory is an Action, whose Result
--     is what it returns with both, a fault for an access outside of an object, or `overrun`. Its
--     children: the default values (Defaults), pb_release (Release), the table PB_DECODERS and
--     pb_dec_submessage (Values), static and callback fields (Fields), pointer fields (Pointers),
--     unions and extensions (Extensions), the bitmap of required fields (Required, with Bitmap and
--     Seen on the set that it stands for), and the loop of pb_decode_noinit (Rounds). Safe is about
--     the reads from the stream and the rounds of the loops, on the lemmas of Wire/Consumes;
--     Release/Twice is about releasing again, on those of Memory/Stored.
--   * ios/Pods/FirebaseDatabase/FirebaseDatabase/Sources/third_party/SocketRocket/fbase64.c
--     (Fbase64): f_b64_ntop and f_b64_pton. Encode/Text describes base64 as RFC 4648 does.
-- Common holds what all of them use: lists over native numbers, bits, two's complement. The
-- modules named Examples, FieldExamples, StringExamples, SafeExamples, MessageExamples, SizeExamples
-- and SafeMessageExamples run the theorems on concrete inputs.
--
-- Encoders and decoders meet in the bytes of a stream: an encoder adds a list of bytes to an OStream,
-- and a decoder takes a list of bytes off the front of an IStream.
--
-- Numbers are those of the build of the pods: size_t and addresses have 64 bits, pb_size_t has 32
-- (PB_FIELD_32BIT), uint_fast8_t has 8, error messages are kept, PB_BUFFER_ONLY is off. Wrap-around
-- is written out. A stream's memory is the list of bytes from its pointer on. A user's callback of a
-- stream is a function of its private state. In a Memory numbers are little-endian, and no access
-- reaches from one object into another. A user's encoding callback is a function of the field, of
-- `arg` and of the stream, and leaves the memory as it is; a decoding callback may change it. The
-- local `fixed_count_size` of pb_decode_noinit, of which pointers are taken, is an object at an
-- address that the DecodeProgram gives.
--
-- Fuel: pb_decode_varint has eleven rounds, since `bitpos` passes 63 in the tenth; the loops that
-- read a byte a round have one more than `bytes_left`; the skipping loop of pb_read has one more
-- than `count`; the loop of read_raw_value has one more than `max_size`; pb_field_iter_find has as
-- many rounds as there are descriptors with the terminator.
-- The message level recurses on the nesting depth of submessages and extensions, which its first
-- argument bounds. Its loops over descriptors have as many rounds as there are descriptors, those
-- over a list of extensions one more than the memory has bytes, and those over a stream one more
-- than it has bytes, since each round reads one. A user's decoding callback that reads nothing makes
-- the C code loop for ever, and ends in `overrun` here.
--
-- Not modelled: the generated descriptor tables and pb_realloc, pb_free and the user's callbacks,
-- which are parameters; everything that is not C. In fbase64.c, isspace and strchr are those of the
-- C library, isspace in the C locale.
pub mod Common
pub mod Fbase64
pub mod Nanopb
