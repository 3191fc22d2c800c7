-- ===== src/Lib.antt =====
-- libambix: the library that reads and writes ambiX files, Ambisonics audio in a CAF container.
--
-- An ambiX file holds a full set of ambisonics channels (BASIC) or a reduced set with an adaptor
-- matrix that expands it (EXTENDED), beside extra channels. The library keeps a handle, stores the
-- matrix in a UUID chunk of the file, and converts each block of frames between the channels of the
-- file and those of the caller by an adaptor. Standard matrices convert the SID, N3D and FuMa
-- conventions to the one of ambiX.
--
-- The parts and their files, with paths from the repository's root:
--   Words     the byte order helpers: swap4 and swap8 of libambix/src/private.h, the array swaps of
--             libambix/src/utils.c, and the stores and loads of words in memory (Words/Bytes).
--   Channels  ambix_order2channels, ambix_channels2order and ambix_is_fullset of libambix/src/utils.c.
--   Sid       _matrix_sid2acn of libambix/src/adaptor_acn.c.
--   Matrix    ambix_matrix_t and libambix/src/matrix.c; Matrix/Routes the diagonal, routing and
--             permuting matrices, Matrix/Fill ambix_matrix_fill and the functions that copy data into
--             a matrix, Matrix/Fuma libambix/src/adaptor_fuma.c, Matrix/Invert the inversion of
--             libambix/src/matrix_invert.c and the pseudo-inverse.
--   Adaptor   the splitting and merging of frames, with and without a matrix, of
--             libambix/src/adaptor.c: one definition for each macro, generic in the sample type;
--             Adaptor/Data the multiplication of floating point data of libambix/src/matrix.c.
--   Uuid      the UUID chunk, libambix/src/uuid_chunk.c.
--   Chunks    the chunks of markers, regions and names, libambix/src/marker_region_chunk.c: Chunks/Fields
--             the structures as bytes, Chunks/Write the writer, Chunks/Read the reader; Chunks/Persist
--             the two together, Chunks/Safety the reader on any bytes.
--   Handle    ambix_t of libambix/src/private.h, the markers and regions of libambix/src/libambix.c,
--             opening a handle (Handle/Open), the interface of the backend (Handle/Backend), the
--             adaptor matrix of a handle (Handle/Adaptormatrix), and the buffer of libambix/src/adaptor.c.
--   Session   a handle in use, libambix/src/libambix.c: the header, ambix_readf_ and ambix_writef_, seeking
--             and closing; Session/Steps the calls on a handle as steps, Session/Invariant what they
--             keep, Session/Frames, Mixed, Reduced and Roundtrip the frames, Session/Buffer the adaptor buffer.
--   Sndfile   the backend of libambix/src/sndfile.c: opening a file and reading its chunks.
--             Sndfile/Formats the formats there and back, Sndfile/Reading a file with a matrix.
--   AmbixRead the Pure Data object of samples/pd/ambix_read~.c: AmbixRead/Child its thread, Callback the audio
--             callback and the messages, Steps the events in an order of one's choice; Ring, Playing,
--             Order, Playback, Filling and Heard what is heard of a file, Bounds, Safety and Events the
--             safety of its ring, Idle the end of a file, Waiting and Failures where the threads wait and what goes wrong.
--   Interleave the tool of utils/ambix-interleave.c: Rows its two loops, Block and Copy the copying, Written the
--             copying into the handle of a session, Format the predefined matrices, the frames
--             and the channels of the file that is written.
--   Null      the backend of libambix/src/null.c.
--   Base      shared lists, tests, loops and results.
--
-- How the code is read. A machine word is a number with its wrap-around written out. A loop over a
-- counter is `for_loop`, by recursion on the rounds left. A result is `done`, `null` (the NULL or the
-- error that the function returns), or `fault`, an access outside of what was allocated; theorems that
-- end in `done` show that there is none. A pointer that moves over an array is the list that is left.
-- float32_t is a type with the constants 0 and 1; the arithmetic of a sum of products is an
-- `Accumulator`, with all its conversions and roundings, and the theorems on exact samples assume of it
-- that adding 0 times a sample changes nothing and that 1 times a sample alone is the sample, for the
-- samples that `Exact` admits. The inverse of a matrix is stated in an arithmetic
-- without roundings, a field. A float32_t is linked to its 32 bits by `Bits`. The C library's square root is a parameter that is the root rounded down for counts below 2 ^ 32. The entries of the SID ordering are the integers that the conversion to float32_t
-- gives. Negative numbers of channels of ambix_read~ become large words, and what the theorems say of the
-- object is for others. The host stores the low
-- byte of a word first. Every loop is bounded by its counter, and a loop over the chunks of a file by their list,
-- which has fewer than 2 ^ 32 entries. Only the blocks of ambix-interleave run on fuel, one round more than there
-- are frames: each block copies a frame at least.
--
-- The two threads of ambix_read~ are a list of events: each is all that a thread does while it holds the mutex, the
-- reading of the file, or the copying of one frame. A thread that waits for a condition may test it again at any
-- time, so the conditions themselves are left out, and with them x_sigcountdown and x_sigperiod.
--
-- Not modelled: allocation that fails, the writing of chunks and the calls of libambix/src/sndfile.c that are
-- passed on to libsndfile, the backend coreaudio.m, the two
-- Cholesky routines of libambix/src/matrix_invert.c, which are copied from the survival package for R and
-- are a parameter, the multiplication of integer data by a matrix, the
-- printing functions, the JACK tools' shared code, the other programs of utils, the command line and the opening
-- of files of ambix-interleave, and samples/pd/ambix_write~.c.
pub mod Base
pub mod Words
pub mod Channels
pub mod Sid
pub mod Matrix
pub mod Adaptor
pub mod Uuid
pub mod Chunks
pub mod Handle
pub mod AmbixRead
pub mod Interleave
pub mod Null
pub mod Session
pub mod Sndfile
