-- ===== src/Glacier.antt =====
-- The bucket files of src/glacier.c and the state in which they are written: `struct
-- evr_glacier_write_ctx` together with the files of the bucket directory, the index database
-- and a schedule that says which of the coming system calls fail.
-- `evr_ok` is `done`, and every other result is `failed`, with the state that the call leaves.
pub mod Frame
mod Steps
mod Data
mod EndOffset
pub mod Chunks
mod OnStdout
mod NextFile
mod NextBucket
pub mod WriteBlob
pub mod Appended
pub mod Append
pub mod AppendBlob
pub mod ReadBack
pub mod Walk
pub mod ListBlobs
pub mod ReadBlob
pub mod ReadShown
pub mod OpenWrite
pub mod Directory
pub mod Reindex
pub mod Check
mod OpenTests
mod ReadBackTests
pub mod Tables
mod Tests
use everarch.Prelude.{
  ℕ, zero, suc, ◌+◌, ◌-◌, ◌<◌, min, Bool, true, false, not, ◌||◌, Option, none, some, List, [], ◌∷◌,
  ◌++◌, if◌then◌else◌, is_zero, ltb, ◌==◌, length, take, drop, replicate,
}
use everarch.Bytes.{u64, push_u8, push_be, push_checksum}
use everarch.Errors.{Status, is_ok}
use everarch.Files.{Grant, Sink, write_n}

-- What `ctx->current_bucket_f` names: nothing (-1), file descriptor 1, or a bucket's file.
pub data Fd : Type 0 where
  closed stdout : Fd
  bucket : ℕ → Fd

pub record Glacier (Db : Type 0) : Type 0 where
  pub files : ℕ → Option (List ℕ)
  pub db : Db
  pub fails : List Bool
  pub grants : List Grant
  pub max_bucket_size : ℕ
  pub current_bucket_index : ℕ
  pub current_bucket_f : Fd
  pub f_pos : ℕ
  pub current_bucket_pos : ℕ
  pub current_bucket_sync : Bool

pub data Exec (Db : Type 0) : Type 0 where
  done : Glacier Db → Exec Db
  failed : Glacier Db → Exec Db

infixl 5 ◌|>◌
abbrev pub ◌|>◌ : {Db : Type 0} → Exec Db → (Glacier Db → Exec Db) → Exec Db
done w |> next = next w
failed w |> next = failed w

abbrev pub exec_when : {Db : Type 0} → Bool → Glacier Db → Exec Db
exec_when true w = done w
exec_when false w = failed w

-- the row of the table `blob_position`
pub record BlobPosition : Type 0 where
  pub key : List ℕ
  pub flags : ℕ
  pub bucket_index : ℕ
  pub bucket_blob_offset : ℕ
  pub blob_size : ℕ
  pub last_modified : ℕ

pub data StepResult : Type 0 where
  step_done constraint_primarykey step_error : StepResult

-- The prepared statements of the write context, which sqlite runs.
pub record IndexDb (Db : Type 0) : Type 0 where
  pub insert_blob : Db → BlobPosition → StepResult × Db
  pub insert_bucket : Db → ℕ → StepResult × Db
  pub update_bucket_end_offset : Db → ℕ → ℕ → StepResult × Db
  pub find_blob : Db → List ℕ → Option BlobPosition

abbrev pub magic_number : List ℕ
magic_number = 69 ∷ 86 ∷ 66 ∷ []

abbrev pub bucket_end_offset_size : ℕ
bucket_end_offset_size = 4

abbrev pub bucket_header_size : ℕ
bucket_header_size = 7

abbrev pub bucket_blob_header_size : ℕ
bucket_blob_header_size = 28 + 1 + 8 + 4 + 1

abbrev pub chunk_size : ℕ
chunk_size = 1048576

pub record WritingBlob : Type 0 where
  pub key : List ℕ
  pub flags : ℕ
  pub size : ℕ
  pub sync_per_blob : Bool
  pub chunks : List (List ℕ)

-- a file's bytes once `out` is written at `pos`; a gap in front of it reads as zeros
abbrev pub write_at : List ℕ → ℕ → List ℕ → List ℕ
write_at bs pos out =
    take pos bs ++ replicate (pos - length bs) 0 ++ out ++ drop (pos + length out) bs

abbrev pub store : (ℕ → Option (List ℕ)) → ℕ → List ℕ → ℕ → Option (List ℕ)
store files i bs j = if j == i then some bs else files j

abbrev pub contents : Option (List ℕ) → List ℕ
contents none = []
contents (some bs) = bs

abbrev pub is_some : Option (List ℕ) → Bool
is_some none = false
is_some (some bs) = true

module _ {Db : Type 0} where
  -- a system call that has no effect of its own when it fails
  abbrev pub syscall_next : (Glacier Db → Exec Db) → Glacier Db → List Bool → Exec Db
  syscall_next next w [] = next w
  syscall_next next w (false ∷ fs) = next (record w { fails = fs })
  syscall_next next w (true ∷ fs) = failed (record w { fails = fs })

  abbrev pub syscall : (Glacier Db → Exec Db) → Glacier Db → Exec Db
  syscall next w = syscall_next next w w.fails

  abbrev pub lseek_fd : Fd → ℕ → Glacier Db → Exec Db
  lseek_fd closed pos w = failed w
  lseek_fd _ pos w = syscall (λ v. done (record v { f_pos = pos })) w

  -- `lseek(ctx->current_bucket_f, pos, SEEK_SET)`
  unfoldable pub lseek : ℕ → Glacier Db → Exec Db
  lseek pos w = lseek_fd w.current_bucket_f pos w

  abbrev pub wrote_bucket : Glacier Db → ℕ → List ℕ → Status × Sink → Exec Db
  wrote_bucket w i bs (s, f) = exec_when (is_ok s) (record w {
    files = store w.files i (write_at bs w.f_pos f.out);
    f_pos = w.f_pos + length f.out;
    grants = f.grants;
  })

  abbrev pub wrote_stdout : Glacier Db → Status × Sink → Exec Db
  wrote_stdout w (s, f) =
      exec_when (is_ok s) (record w { f_pos = w.f_pos + length f.out; grants = f.grants })

  abbrev pub write_fd : Fd → List ℕ → Glacier Db → Exec Db
  write_fd closed buf w = failed w
  write_fd stdout buf w = wrote_stdout w (write_n (record { out = []; grants = w.grants }) buf)
  write_fd (bucket i) buf w =
      wrote_bucket w i (contents (w.files i)) (write_n (record { out = []; grants = w.grants }) buf)

  -- `write_n(&current_bucket_f, buf, …)` on the file bound to `ctx->current_bucket_f`
  unfoldable pub write_current : List ℕ → Glacier Db → Exec Db
  write_current buf w = write_fd w.current_bucket_f buf w

  -- `fdatasync(ctx->current_bucket_f)`
  unfoldable pub fdatasync : Glacier Db → Exec Db
  fdatasync w = syscall done w

  abbrev pub sync_when : Bool → Glacier Db → Exec Db
  sync_when true w = fdatasync w
  sync_when false w = done w

  unfoldable pub write_bucket_magic_number : Glacier Db → Exec Db
  unfolding lseek write_current
  write_bucket_magic_number w = lseek 0 w |> write_current magic_number

  unfoldable pub write_bucket_end_offset : ℕ → Bool → Glacier Db → Exec Db
  unfolding lseek write_current fdatasync
  write_bucket_end_offset end_offset sync w =
      lseek 3 w |> write_current (push_be 4 end_offset) |> sync_when sync

  abbrev pub close_fd : Fd → Bool → Glacier Db → Exec Db
  close_fd closed sync w = done w
  close_fd _ sync w =
      sync_when (not sync) w
      |> (λ v. syscall done (record v { current_bucket_sync = true }))
      |> (λ v. done (record v { current_bucket_f = closed }))

  unfoldable pub close_current_bucket : Glacier Db → Exec Db
  unfolding fdatasync
  close_current_bucket w = close_fd w.current_bucket_f w.current_bucket_sync w
