-- ===== src/Handle/Tests.antt =====
-- A handle at concrete markers.
use libambix.Base.{
  negsuc, ◌*◌, ◌+◌, ◌==◌, if◌then◌else◌, Outcome, done, null, ℕ, ◌≡◌, refl, arith, false, true,
  none, some, List, [], ◌∷◌, ◌++◌,
}
use libambix.Channels.{is_fullset}
use libambix.Channels.Tests.{floor_sqrt}
use libambix.Matrix.{Matrix, create}
use libambix.Handle.Adaptormatrix.{set_adaptormatrix, set_for_writing}
use libambix.Matrix.Tests.{number_sums, number_float}
use libambix.Handle.{
  success, basic, invalid_dimension, Ambix, Info, Marker, Region, extended, add_marker, add_region,
  delete_markers, appended,
}
use libambix.Handle.Backend.{Backend}
use libambix.Uuid.{same_bytes}
use libambix.Chunks.Fields.{put4, put_marker}
use libambix.Chunks.Write.{mark_id, caf_marker}
use libambix.Chunks.Read.{read_chunks}
use libambix.Handle.Open.{ambix_open}
use libambix.Handle.Open.Reading.{ambix_open-IsDivided}
use libambix.Handle.Markers.{
  Edit, marker_added, region_added, markers_deleted, perform_all, Holds, marker_list,
  perform_all-Holds,
}

abbrev four_channels : Info
four_channels = record {
  frames = 0;
  samplerate = 48000;
  sampleformat = 2;
  fileformat = extended;
  extrachannels = 0;
  ambichannels = 4;
}

-- A handle for writing, with one marker.
abbrev pub intro : Marker
intro = record { position = 0; name = b'a' ∷ [] }

abbrev pub coda : Marker
coda = record { position = 9000; name = b'b' ∷ [] }

abbrev pub verse : Region
verse = record { start_position = 10; end_position = 20; name = [] }

abbrev pub handle : Ambix ℕ (Unit {0})
handle = record {
  private_data = tt;
  is_ambix = true;
  format = extended;
  filemode = record { reads = false; writes = true };
  byteswap = true;
  channels = 4;
  info = four_channels;
  realinfo = four_channels;
  matrix = create;
  matrix2 = create;
  use_matrix = 0;
  adaptorbuffersize = 1024;
  ambisonics_order = 0;
  num_markers = 1;
  markers = some (intro ∷ []);
  num_regions = 0;
  regions = none;
  started_reading = false;
  started_writing = false;
  pending_headers = false;
}

abbrev edits : List Edit
edits = marker_added coda ∷ region_added verse ∷ markers_deleted ∷ marker_added coda ∷ []

edited : marker_list (perform_all edits handle) ≡ coda ∷ []
unfolding add_marker delete_markers add_region appended
edited = refl

perform_all-Holds_example : Holds (perform_all edits handle) (coda ∷ [], verse ∷ [])
perform_all-Holds_example =
    perform_all-Holds edits handle (intro ∷ [], []) (refl, (refl, refl), refl, refl) (omega arith)
      (omega arith)

pub full_set_of_four : is_fullset floor_sqrt 4 ≡ true
unfolding is_fullset floor_sqrt
full_set_of_four = refl

-- An expansion of two channels to the full set of order 1, and a reduction.
abbrev pub expansion : Matrix ℕ
expansion = record { rows = 4; cols = 2; cell = λ r c. r + c }

abbrev pub reduction : Matrix ℕ
reduction = record { rows = 2; cols = 4; cell = λ r c. r * c }

abbrev pub invert : Matrix ℕ → Outcome (Matrix ℕ)
invert m = if m.cols == 2 then done reduction else null

-- The handle as BASIC, for writing, with two channels in the file, and for reading.
abbrev basic_two : Info
basic_two = record four_channels { fileformat = basic; ambichannels = 2 }

abbrev pub basic_writer : Ambix ℕ (Unit {0})
basic_writer = record handle { info = basic_two; realinfo = basic_two }

abbrev pub basic_reader : Ambix ℕ (Unit {0})
basic_reader = record basic_writer { filemode = record { reads = true; writes = false } }

abbrev extended_reader : Ambix ℕ (Unit {0})
extended_reader = record basic_reader { realinfo = four_channels; matrix = reduction }

refused_by_size :
    set_adaptormatrix number_sums floor_sqrt invert handle reduction
    ≡ done (handle, invalid_dimension)
unfolding set_adaptormatrix set_for_writing is_fullset floor_sqrt
refused_by_size = refl

-- A backend with one file, of four channels, no matrix, and a chunk of one marker without a name.
abbrev four_channel_file : Backend ℕ (Unit {0})
four_channel_file = record {
  open_file = λ mode info. done basic_reader;
  close_file = λ file. (file, success);
  seek_file = λ file frames whence. (file, negsuc 0);
  chunks = λ file id.
      if same_bytes id mark_id
      then (put4 true 0 ++ (put4 true 1 ++ put_marker true (caf_marker 0 9 1))) ∷ []
      else [];
  write_chunk = λ file id bytes. (file, success);
  write_uuidchunk = λ file bytes. (file, success);
}

ambix_open-IsDivided_example :
    (b : Ambix ℕ (Unit {0})) × (ambix_open floor_sqrt four_channel_file
        (record { reads = true; writes = false })
        basic_two
      ≡ done b)
    × (b.realinfo.ambichannels + b.realinfo.extrachannels ≡ 4)
    × (b.filemode ≡ record { reads = true; writes = false })
unfolding same_bytes read_chunks
ambix_open-IsDivided_example =
    ambix_open-IsDivided floor_sqrt four_channel_file (record { reads = true; writes = false })
      basic_two basic_reader [] refl refl refl (omega arith)
