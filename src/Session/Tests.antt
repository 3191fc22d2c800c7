-- ===== src/Session/Tests.antt =====
-- A file in memory, written and read.
use libambix.Base.{
  subst, ℕ, ◌+◌, ◌-◌, ◌*◌, ◌<◌, ◌≤◌, ◌≡◌, refl, arith, Bool, true, false, if◌then◌else◌, none, some,
  List, [], ◌∷◌, ◌++◌, length, ◌⊎◌, inl, ℤ, pos, negsuc, Outcome, done, null, frames_from, table,
  get_or,
}
use libambix.Channels.{is_fullset}
use libambix.Channels.Tests.{floor_sqrt}
use libambix.Matrix.{Accumulator, Matrix, create}
use libambix.Adaptor.{merge_adaptor}
use libambix.Adaptor.Mixed.{mixed}
use libambix.Uuid.{uuid_v1, matrix_to_uuid1}
use libambix.Uuid.Tests.{unit_float, unit_bits}
use libambix.Handle.{
  Ambix, Info, extended, success, adaptorbuffer_resize, add_marker, appended, max_u64,
}
use libambix.Handle.Tests.{intro, full_set_of_four, expansion, reduction, invert, basic_writer}
use libambix.Handle.Adaptormatrix.{set_adaptormatrix}
use libambix.Session.Reduced.{set_adaptormatrix-merge_frames}
use libambix.Matrix.Tests.{number_sums, number_float}
use libambix.Matrix.Writes.{IsFilled}
use libambix.Handle.Backend.{Backend, Stream}
use libambix.Session.{check_write, write_header, write_matrix, readf, writef, seek, merge_frames}
use libambix.Session.Buffer.{transferred, resize-room}
use libambix.Session.Roundtrip.{readf-writef}
use libambix.Session.Mixed.{readf-mixed}
use libambix.Session.Steps.{int16, Samples, Step, Reach}
use libambix.Session.Invariant.{IsSound, Reach-IsSound}

-- The UUID chunk of the file, and its samples.
abbrev pub File : Type 0
File = List ℕ × List ℕ

abbrev pub memory : Backend Bool File
memory = record {
  open_file = λ mode info. null;
  close_file = λ file. (file, success);
  seek_file = λ file frames whence. (file, frames);
  chunks = λ file id. [];
  write_chunk = λ file id bytes. (file, success);
  write_uuidchunk = λ file bytes. ((bytes, file.1), success);
}

abbrev words : Stream File ℕ
words = record {
  itemsize = 4;
  read_frames = λ file frames. (file, file.1, frames);
  write_frames = λ file buffer frames. ((file.0, buffer), frames);
}

abbrev pub selection : Accumulator Bool ℕ ℕ
selection = record { start = 0; step = λ s m x. if m then s + x else s; finish = λ s. s }

abbrev any_of : Accumulator Bool Bool Bool
any_of = record { start = false; step = λ s m x. if m then x else s; finish = λ s. s }

abbrev samples : Samples Bool File
samples = record { Sample = λ t. ℕ; Sum = λ t. ℕ; arithmetic = λ t. selection; stream = λ t. words }

-- Two ambisonics channels and an extra one in the file, and a matrix that expands the two.
abbrev three_channels : Info
three_channels = record {
  frames = 0;
  samplerate = 48000;
  sampleformat = 2;
  fileformat = extended;
  extrachannels = 1;
  ambichannels = 2;
}

abbrev expanding : Matrix Bool
expanding = record { rows = 4; cols = 2; cell = λ r c. true }

abbrev pub session : Ambix Bool File
session = record {
  private_data = ([], []);
  is_ambix = true;
  format = extended;
  filemode = record { reads = false; writes = true };
  byteswap = true;
  channels = 3;
  info = three_channels;
  realinfo = three_channels;
  matrix = expanding;
  matrix2 = create;
  use_matrix = 0;
  adaptorbuffersize = 0;
  ambisonics_order = 1;
  num_markers = 0;
  markers = none;
  num_regions = 0;
  regions = none;
  started_reading = false;
  started_writing = false;
  pending_headers = false;
}

abbrev started : Ambix Bool File
started = record session { started_writing = true }

accepted : check_write memory floor_sqrt session ≡ done (started, success)
unfolding check_write is_fullset floor_sqrt
accepted = refl

readf-writef_example :
    (w : Ambix Bool File) × (r : ℤ) × (writef selection memory words floor_sqrt session
        (1 ∷ 2 ∷ 3 ∷ 4 ∷ [])
        (5 ∷ 6 ∷ [])
        (pos 2)
      ≡ done (w, r))
    × (d : Ambix Bool File) × (readf selection memory words
          (record session { private_data = w.private_data })
          (pos 2)
        ≡ done (d, (1 ∷ 2 ∷ 3 ∷ 4 ∷ [], 5 ∷ 6 ∷ []), pos 2))
unfolding max_u64
readf-writef_example =
    readf-writef selection memory words floor_sqrt (λ file. file) session started session 2
      (1 ∷ 2 ∷ 3 ∷ 4 ∷ []) (5 ∷ 6 ∷ []) accepted
      (record {
        writer_roomy = (omega arith, omega arith, omega arith);
        reader_roomy = (omega arith, omega arith, omega arith);
        writer_plain = refl;
        reader_plain = refl;
        ambichannels_same = refl;
        extrachannels_same = refl;
        info_small = omega arith;
        realinfo_small = omega arith;
        reader_small = omega arith;
      })
      (λ buffer size. (_, refl)) refl refl

-- The handle, on a file of two frames.
abbrev recorded : Ambix Bool File
recorded = record session { private_data = ([], 1 ∷ 2 ∷ 5 ∷ 3 ∷ 4 ∷ 6 ∷ []) }

abbrev as_basic : Ambix Bool File
as_basic = record recorded { use_matrix = 1 }

readf-mixed_example :
    (size : ℕ) × (readf selection memory words as_basic (pos 2)
      ≡ done (
        record (transferred as_basic size as_basic.private_data) { started_reading = true },
        (
          frames_from 2 0 (λ f. mixed selection expanding 0 as_basic.private_data.1 (3 * f)),
          frames_from 2 0 (λ f. table 1 2 (λ c. get_or as_basic.private_data.1 (3 * f + c) 0)),
        ),
        pos 2,
      ))
unfolding max_u64
readf-mixed_example =
    readf-mixed selection memory words as_basic 2 2 as_basic.private_data as_basic.private_data.1 0
      (omega arith, omega arith, omega arith) refl (omega arith) (omega arith) (omega arith)
      (omega arith) refl refl

-- A matrix of three rows.
abbrev lacking : Ambix Bool File
lacking = record session { matrix = record { rows = 3; cols = 2; cell = λ r c. true } }

resize-room_example :
    (n : ℕ) × (adaptorbuffer_resize session 64 4
      ≡ (record session { adaptorbuffersize = n }, success))
    × (768 ≤ n)
    × (768 ≤ n)
    × (0 ≤ n)
resize-room_example =
    resize-room session (omega arith) (omega arith) 64 4 (omega arith) (omega arith)

abbrev with_marker : Ambix Bool File
with_marker = record session {
  num_markers = 1;
  markers = some (intro ∷ []);
  pending_headers = true;
}

marked : (add_marker session (some intro)).0 ≡ with_marker
unfolding add_marker appended
marked = refl

-- The chunk of the matrix, in the order of the file.
abbrev one : List ℕ
one = 0x3f ∷ 0x80 ∷ 0 ∷ 0 ∷ []

abbrev chunk : List ℕ
chunk =
    uuid_v1
    ++ (0 ∷ 0 ∷ 0 ∷ 4 ∷ 0 ∷ 0 ∷ 0 ∷ 2 ∷ []
        ++ (one ++ (one ++ (one ++ (one ++ (one ++ (one ++ (one ++ one))))))))

-- After two frames are written.
abbrev written : Ambix Bool File
written = record with_marker {
  private_data = (chunk, 1 ∷ 2 ∷ 5 ∷ 3 ∷ 4 ∷ 6 ∷ []);
  adaptorbuffersize = 24;
  started_writing = true;
  pending_headers = false;
}

writing :
    writef selection memory words floor_sqrt with_marker (1 ∷ 2 ∷ 3 ∷ 4 ∷ []) (5 ∷ 6 ∷ []) (pos 2)
    ≡ done (written, pos 2)
unfolding writef check_write write_header write_matrix is_fullset floor_sqrt
    libambix.Chunks.Write.write_markersregions libambix.Chunks.Write.chunks_of
    libambix.Chunks.Write.marker_data libambix.Chunks.Write.write_markers
    libambix.Chunks.Write.buffer libambix.Chunks.Fields.put4 libambix.Words.Bytes.store4
    libambix.Chunks.Fields.put_marker libambix.Chunks.Fields.put8 libambix.Chunks.Fields.store8
    libambix.Chunks.Write.region_data libambix.Chunks.Write.strings_data
    libambix.Chunks.Write.add_string_to_data libambix.Chunks.Fields.put_stringid
    libambix.Uuid.uuid1_size merge_adaptor libambix.Adaptor.transfer libambix.Base.collect
    libambix.Channels.channels2order libambix.Channels.order2channels adaptorbuffer_resize max_u64
    libambix.Matrix.read merge_frames libambix.Uuid.get_uuid matrix_to_uuid1 libambix.Uuid.row_words
    libambix.Words.Bytes.store_words libambix.Words.swap4 libambix.Words.swap4array
    libambix.Words.swap8
writing = refl

Reach-IsSound_example :
    IsSound any_of floor_sqrt
      (λ m. null)
      memory
      samples
      (λ file saved. file.0 ≡ saved)
      expanding
      (seek memory written (pos 0) 0).0
Reach-IsSound_example =
    Reach-IsSound any_of floor_sqrt (λ m. null) memory samples (λ file saved. file.0 ≡ saved)
      expanding
      (
        (λ file saved ok. refl),
        (λ file saved frames whence e. e),
        (λ t file saved frames e. e),
        (λ t file saved buffer frames e. e),
      )
      (Reach.next
        (Reach.next
          (subst (Reach any_of floor_sqrt (λ m. null) memory samples session) marked
            (Reach.next Reach.here (Step.marker_added session (some intro))))
          (Step.frames_written int16 with_marker written (pos 2) (pos 2) (1 ∷ 2 ∷ 3 ∷ 4 ∷ [])
            (5 ∷ 6 ∷ []) writing))
        (Step.sought written (pos 0) 0))
      ((λ on. absurd cc), (λ on ext. absurd cc), (λ ext clean. inl refl))

set_adaptormatrix-merge_frames_example :
    (b : Ambix ℕ (Unit {0})) × (set_adaptormatrix number_sums floor_sqrt invert basic_writer
        expansion
      ≡ done (b, success))
    × (b.realinfo.fileformat ≡ extended)
    × (b.pending_headers ≡ true)
    × (b.info.ambichannels ≡ 4)
    × IsFilled 4 2 (λ r c. r + c) b.matrix
    × (used : Matrix ℕ) × IsFilled 2 4 (λ r c. r * c) used
    × (merge_frames number_sums b (1 ∷ 2 ∷ 3 ∷ 4 ∷ 5 ∷ 6 ∷ 7 ∷ 8 ∷ []) [] 2
        ≡ done (
            frames_from 2 0 (λ f.
              mixed number_sums used 0 (1 ∷ 2 ∷ 3 ∷ 4 ∷ 5 ∷ 6 ∷ 7 ∷ 8 ∷ []) (used.cols * f)
              ++ table 0 0 (λ c. get_or [] (0 * f + c) 0))))
set_adaptormatrix-merge_frames_example =
    set_adaptormatrix-merge_frames number_sums number_sums floor_sqrt invert basic_writer expansion
      reduction (1 ∷ 2 ∷ 3 ∷ 4 ∷ 5 ∷ 6 ∷ 7 ∷ 8 ∷ []) [] 0 2 refl refl refl refl full_set_of_four
      refl refl (omega arith) (omega arith)
