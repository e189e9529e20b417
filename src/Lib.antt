-- ===== src/Lib.antt =====
-- LeagueRanker is an iOS app that keeps the rankings of a league: a SwiftUI program under
-- ScoreSender/ScoreSender, and the pods that it is built with under ScoreSender/Pods. This library
-- models the core of the app and the C code of the build.
--
-- In the app a league (Models/League/League.swift) holds its players (LeaguePlayers.swift), which
-- the database reports one after the other, each with the values of its record (PlayerForm.swift).
-- After every report the players are sorted and ranked by sortPlayers. A game (Game.swift) is
-- between two teams of two; Functions.swift passes its players, scores and ratings to the
-- calculator of TrueskillSwift, whose new ratings getDictionary writes and the database then
-- reports again. The C code is nanopb, the codec for protocol buffers under
-- ScoreSender/Pods/nanopb, with which the diagnostics and the transport of the app are encoded, and
-- the base 64 codec of the database client's web socket,
-- ScoreSender/Pods/FirebaseDatabase/Firebase/Database/third_party/SocketRocket/fbase64.c.
--
-- The files and the code that they model:
--
--   Prelude                 the names and lemmas that the other files share: Boolean tests and lists
--                           over the native numbers, and bit operations as arithmetic
--   Swift                   what the app uses of Swift's standard library: Int, Dictionary and
--                           sorted(by:), with their laws
--   TrueSkill/RankSorter    RankSorter.Sort (ScoreSender/ScoreSender/TrueskillSwift/RankSorter.swift)
--   TrueSkill/Double        the operations of Double, arguments of the model
--   TrueSkill/Gaussian, Correction
--                           GaussianDistribution.swift, DrawMargin.swift and
--                           TruncatedGaussianCorrectionFunctions.swift
--   TrueSkill/Range, Rating Range.swift with the check of SkillCalculator.swift; Rating.swift,
--                           GameInfo.swift, PairwiseComparison.swift and Team.swift
--   TrueSkill/TwoTeam, Calculator
--                           TwoTeamTrueskillCalculator.swift and getNewRatings (Functions.swift)
--   TrueSkill/Calculator/Exact, Game, Traps
--                           theorems on them
--   League/PlayerForm       the fields of a player (ScoreSender/ScoreSender/Models/PlayerForm.swift)
--   League/Players          sortPlayers (Models/League/LeaguePlayers.swift)
--   League/Players/Standings, Order, Ranks, Ranked
--                           ranks by counting who is better, and the theorem on sortPlayers
--   League/Directory        the handlers of LeaguePlayers.swift, buildSelf (PlayerForm.swift), and the
--                           lookups of League.swift
--   League/Directory/Reach  the runs of the handlers, as a step relation
--   League/Directory/Sorted, Found, Events, Invariant
--                           theorems on them
--   League/Autocomplete     datasourceForAutocomplete (League.swift)
--   League/Games            toAnyObject and init?(gameDict:id:) (Game.swift)
--   League/Report           getDictionary(forGame:) (LeaguePlayers.swift)
--   League/Report/Fields, Rows, Exact
--                           theorems on it
--   Base64                  f_b64_ntop and f_b64_pton (fbase64.c)
--   Base64/Format           the encoding of RFC 1521, which theorems refer to
--   Base64/Encode, Decode, RoundTrip, Bounds
--                           theorems on them
--   Nanopb/Types            size_t, wire types and error messages (pb.h)
--   Nanopb/Ostream          pb_ostream_t, pb_write and buf_write (pb_encode.c, pb_encode.h)
--   Nanopb/Encode           pb_encode_varint to pb_encode_string (pb_encode.c)
--   Nanopb/Istream          pb_istream_t, pb_read and pb_readbyte (pb_decode.c, pb_decode.h)
--   Nanopb/Decode           pb_decode_varint to pb_skip_field, pb_decode_svarint and the fixed-width
--                           decoders (pb_decode.c)
--   Nanopb/Substream        pb_make_string_substream, pb_close_string_substream, read_raw_value
--   Nanopb/Iter             pb_field_iter_t and its functions (pb_common.c, pb_common.h, pb.h)
--   Nanopb/Fields           pb_enc_varint, pb_enc_uvarint, pb_enc_svarint and their pb_dec_ counterparts
--   Nanopb/Store            the memory that the encoder reads: structures, pointers and descriptors (pb.h)
--   Nanopb/Message          pb_encode and the encoders under it, pb_encode_delimited,
--                           pb_encode_nullterminated, pb_get_encoded_size (pb_encode.c)
--   Nanopb/Message/Default, Presence, Values
--                           pb_check_proto3_default_value, the tests of encode_basic_field, and
--                           pb_encode_tag_for_field, pb_encode_submessage, pb_enc_bytes to
--                           pb_enc_fixed_length_bytes with the loops of encode_array
--   Nanopb/Message/Contents, Format
--                           what a structure holds and the bytes of its message, told apart from the
--                           code and without streams, which theorems refer to
--   Nanopb/Message/Outcome, Submessage, Refines
--                           what it is for an encoder to come to such bytes, and the theorems
--   Nanopb/World            the memory that the message decoder changes, the functions on it, and
--                           allocate_field (pb_decode.c)
--   Nanopb/Parse            the message decoder (pb_decode.c):
--     Values                pb_dec_varint to pb_dec_fixed_length_bytes, with their stores
--     Defaults, Release     pb_message_set_to_defaults, pb_release and what is under them
--     Fields                decode_field, and the decoders of static, pointer and callback fields
--     Whole                 extensions, pb_decode_noinit, pb_decode and its variants
--     Bounds, Confined, Strings, Required, Arrays
--                           theorems on them
--   Nanopb/RoundTrip        theorems on what the encoders write and the decoders read back
--
-- In the Swift code `none` is a trap: an index out of range, a missing key, a cast or a `try!` that
-- fails, a key twice in a literal. A string, a player's key and an id are any type with an `==`, of
-- which theorems suppose that it is equality. A dictionary is the list of its entries; the order in
-- which Swift hands them out and the algorithm of sorted(by:) are arguments of the model, of which
-- theorems suppose that they rearrange the entries and, for a strict weak order, put them in order.
-- Insertion sort is one such algorithm. The arithmetic of Double, with exp, log, sqrt, pow and
-- round, is an argument as well: the rating theorems hold for any, and those on ranks suppose of
-- the comparison and of rounding what IEEE 754 says of numbers. A literal is its digits and how
-- many of them stand behind the point. Sums of Int, which trap beyond 2 ^ 63, are taken to stay far
-- below. The sorted players are told by their ids, since the array shares the objects of the
-- dictionary. The paths that getDictionary writes to are told by the player and the field that they
-- name. A key of a game's dictionary is a string that is one of two words or stands for an Int.
--
-- An output stream holds a callback, the memory that `state` points to with the position in it,
-- `max_size`, `bytes_written` and the first error message. An encoder is a function from a stream
-- to the C function's Boolean result and the stream as it is afterwards, also where the result is
-- false. An input stream holds its source (buf_read, or a user's function), the bytes from the read
-- position on, `bytes_left` and the first error message. A decoder gives `none` where the C
-- function returns false, again with the stream as it is then. User callbacks are arguments of the
-- model: any function that gives a status, the bytes and a new state.
--
-- The message encoder reads a memory with a byte at every address, in which a structure, its
-- pointers and its callbacks stand as C lays them out on a 64-bit machine; the output buffer is
-- apart from it. The array of fields at an address is an argument of the model, and so are the
-- functions at an address that encode a callback field or an extension: the theorems rely on that
-- such a function writes the same bytes on every stream that counts or is over a buffer. Where the
-- C code calls an entry of PB_ENCODERS or PB_DECODERS that is not there, and where it reads a
-- pb_size_t from a bool (a oneof field without a size_offset), its behaviour is undefined: the
-- model fails there, or reads 0 or 1. It fails too where the C code divides by a data_size of 0.
--
-- The message decoder changes such a memory. realloc and free of the C library are functions from a
-- world, the memory with its blocks, to the world after the call; the local variable
-- fixed_count_size, to which the iterator's pSize can point, stands at an address for each nesting.
-- The bytes that the input stream reads are apart from this memory. Whether a size or a count fits
-- is computed with 32 or 64 bits as in the source.
--
-- The build modelled is the app's: 64-bit size_t, PB_FIELD_32BIT, PB_ENABLE_MALLOC, error messages
-- kept, and a uint_fast8_t of eight bits as on Apple's platforms. Bytes and integers are native
-- numbers, with their wrap-around written out.
--
-- The base 64 functions take the source as a list of its bytes, or of the characters before the
-- NUL, and the target as a list; they give the `int` that the C function returns, as a pattern of
-- 32 bits, and the target as it is then. A target that is NULL is `none`.
--
-- Loops that are not structural run on fuel. `varint_loop` of pb_decode_varint has eleven rounds,
-- since its bit position passes 64 by then; the loop of pb_decode_varint32_eof and that of
-- pb_skip_varint have one round more than the stream has bytes left, and each round takes a byte;
-- the loop of pb_read over a null buffer has one round more than the bytes to skip; the loop of
-- pb_encode_varint has ten rounds, the size of its buffer; the loop of pb_field_iter_find has one
-- round more than there are fields, and is back at its start after as many rounds as fields. The
-- encoder of messages takes a bound of the nesting of submessages, which also bounds chains of
-- extensions; past it the encoding fails. The loop over the fields of a message has one round more
-- than there are fields. The decoder's bound of the nesting is alike. Its loop over the input has
-- one round more than the stream has bytes left, and each round takes a tag; the loops over a
-- packed array in a pointer field and over a callback's value have one round more than the
-- substream has bytes, which a callback that reads nothing would exceed in an endless loop; the
-- loop over a packed array in a static field has one round more than the array has places.
--
-- Not modelled: the calculators for two players and over a factor graph, which the app does not
-- call, and what only they use of GaussianDistribution; the calls of the remote database and its
-- storage, whose answers are the events of League/Directory; the views and the Core Data store; the
-- generated descriptors of messages; and the other pods.
pub mod Prelude
pub mod Swift
pub mod TrueSkill
pub mod League
pub mod Base64
pub mod Nanopb
