-- ===== src/Handle/Backend.antt =====
-- The operations of a backend, as libambix/src/private.h declares them: opening a file, its chunks, its
-- frames, seeking and closing. `B` is the backend's private data, the only part of a handle that is open
-- that its operations use, and the state of the file.
use libambix.Base.{ℕ, ℤ, List, Outcome}
use libambix.Handle.{Ambix, Err, FileMode, Info}

pub record Backend (F B : Type 0) : Type 0 where
  -- `_ambix_open`: the new handle, or an error.
  pub open_file : FileMode → Info → Outcome (Ambix F B)
  -- `_ambix_close`
  pub close_file : B → B × Err
  -- `_ambix_seek`
  pub seek_file : B → (frames : ℤ) → (whence : ℕ) → B × ℤ
  -- The chunks with an id, of which `_ambix_read_chunk` gives the one at an index, or NULL and size 0
  -- behind the last one and for a chunk with no data.
  pub chunks : B → (id : List ℕ) → List (List ℕ)
  -- `_ambix_write_chunk` and `_ambix_write_uuidchunk`
  pub write_chunk : B → (id : List ℕ) → List ℕ → B × Err
  pub write_uuidchunk : B → List ℕ → B × Err

-- The frames of samples of one type.
pub record Stream (B T : Type 0) : Type 0 where
  -- `sizeof(type)`
  pub itemsize : ℕ
  -- `_ambix_readf_`: the samples that are stored in the buffer, and what it returns.
  pub read_frames : B → (frames : ℤ) → B × List T × ℤ
  -- `_ambix_writef_`, which gets the buffer.
  pub write_frames : B → List T → (frames : ℤ) → B × ℤ
