-- ===== src/Null.antt =====
-- The backend that opens no file: libambix/src/null.c. It has no operation for chunks other than the UUID
-- chunk, which are parameters here.
use libambix.Base.{ℕ, ◌≡◌, List, [], ℤ, negsuc, Outcome, null, arith}
use libambix.Matrix.{Float}
use libambix.Handle.{Ambix, Err, FileMode, Info, unknown, invalid_file}
use libambix.Handle.Backend.{Backend}
use libambix.Handle.Open.{open_as, ambix_open}

abbrev null_open : {F B : Type 0} → FileMode → Info → Outcome (Ambix F B)
null_open mode info = null

abbrev null_close : {B : Type 0} → B → B × Err
null_close file = (file, invalid_file)

abbrev null_seek : {B : Type 0} → B → (frames : ℤ) → (whence : ℕ) → B × ℤ
null_seek file frames whence = (file, negsuc 0)

abbrev null_readf : {B T : Type 0} → B → (frames : ℤ) → B × List T × ℤ
null_readf file frames = (file, [], negsuc 0)

abbrev null_writef : {B T : Type 0} → B → List T → (frames : ℤ) → B × ℤ
null_writef file buffer frames = (file, negsuc 0)

abbrev null_write_uuidchunk : {B : Type 0} → B → List ℕ → B × Err
null_write_uuidchunk file bytes = (file, unknown)

module _ {F B : Type 0} (chunks : B → List ℕ → List (List ℕ))
    (write_chunk : B → List ℕ → List ℕ → B × Err) where
  abbrev null_backend : Backend F B
  null_backend = record {
    open_file = null_open;
    close_file = null_close;
    seek_file = null_seek;
    chunks = chunks;
    write_chunk = write_chunk;
    write_uuidchunk = null_write_uuidchunk;
  }

  -- With this backend `ambix_open` returns NULL, whatever it is called with.
  ambix_open-null :
      ⦃fl : Float F⦄ (sqrt : ℕ → ℕ) (mode : FileMode) (info : Info)
      → ambix_open sqrt null_backend mode info ≡ null
  unfolding ambix_open open_as
  ambix_open-null sqrt mode info = ground arith
