-- ===== src/Wire/Attr.antt =====
-- struct.go and the portable codec struct.gen.go: the structs that other structs hold.
-- `x_bytes` is the wire format of a struct, `IsX` says that its fields have their Go types.
pub mod Laws
use wsfs_core.Prelude.{ℕ, ◌+◌, List, [], ◌∷◌, ◌++◌, length}
use wsfs_core.Prelude.Int.{ℤ, IsInt64}
use wsfs_core.Wire.Bytes.{
  Bytes, IsU8, IsU32, IsU64, put_u8, put_u32, put_u64, put_i64, u8_at, u32_at, u64_at, i64_at,
}
use wsfs_core.Wire.Source.{Decoder, ◌>>=◌, pure, read_full, read_all, read_all_to_buffer}
use wsfs_core.Wire.Sink.{Writer, Put, ◌>>◌}
use wsfs_core.Wire.Str.{IsStr, str_bytes, write_str_to_writer, read_str_from_reader}

pub record Timespec : Type 0 where
  pub seconds : ℤ
  pub nanoseconds : ℤ

abbrev pub IsTimespec : Timespec → Type 0
IsTimespec d = IsInt64 d.seconds × IsInt64 d.nanoseconds

unfoldable pub get_timespec_required_size : Timespec → ℕ
get_timespec_required_size d = 16

unfoldable pub write_timespec : {W : Type 0} → Writer W → Timespec → Put W
write_timespec o d = o.write (put_i64 d.seconds ++ put_i64 d.nanoseconds)

abbrev pub timespec_bytes : Timespec → Bytes
timespec_bytes d = (put_i64 d.seconds ++ put_i64 d.nanoseconds)

unfoldable pub read_timespec : Decoder Timespec
read_timespec = do
  buf ← read_full 16
  pure (record { seconds = i64_at buf 0; nanoseconds = i64_at buf 8 })

pub record FileInfo : Type 0 where
  pub size : ℕ
  pub mtime : Timespec
  pub mode : ℕ
  pub owner : ℕ

abbrev pub IsFileInfo : FileInfo → Type 0
IsFileInfo d = IsU64 d.size × IsTimespec d.mtime × IsU32 d.mode × IsU8 d.owner

unfoldable pub get_file_info_required_size : FileInfo → ℕ
unfolding get_timespec_required_size
get_file_info_required_size d = get_timespec_required_size d.mtime + 13

unfoldable pub write_file_info : {W : Type 0} → Writer W → FileInfo → Put W
write_file_info o d = do
  o.write (put_u64 d.size)
  write_timespec o d.mtime
  o.write (put_u32 d.mode ++ put_u8 d.owner)

abbrev pub file_info_bytes : FileInfo → Bytes
file_info_bytes d =
    (put_u64 d.size) ++ (timespec_bytes d.mtime ++ (put_u32 d.mode ++ put_u8 d.owner))

unfoldable pub read_file_info : Decoder FileInfo
read_file_info = do
  buf ← read_full 8
  mtime ← read_timespec
  buf2 ← read_full 5
  pure (record { size = u64_at buf 0; mtime = mtime; mode = u32_at buf2 0; owner = u8_at buf2 4 })

pub record Dirent : Type 0 where
  pub name : Bytes
  pub size : ℕ
  pub mtime : Timespec
  pub mode : ℕ
  pub owner : ℕ

abbrev pub IsDirent : Dirent → Type 0
IsDirent d = IsStr d.name × IsU64 d.size × IsTimespec d.mtime × IsU32 d.mode × IsU8 d.owner

unfoldable pub get_dirent_required_size : Dirent → ℕ
unfolding get_timespec_required_size
get_dirent_required_size d = length d.name + get_timespec_required_size d.mtime + 15

unfoldable pub write_dirent : {W : Type 0} → Writer W → Dirent → Put W
write_dirent o d = do
  write_str_to_writer o d.name
  o.write (put_u64 d.size)
  write_timespec o d.mtime
  o.write (put_u32 d.mode ++ put_u8 d.owner)

abbrev pub dirent_bytes : Dirent → Bytes
dirent_bytes d =
    str_bytes d.name
    ++ ((put_u64 d.size) ++ (timespec_bytes d.mtime ++ (put_u32 d.mode ++ put_u8 d.owner)))

unfoldable pub read_dirent : Decoder Dirent
read_dirent = do
  name ← read_str_from_reader
  buf ← read_full 8
  mtime ← read_timespec
  buf2 ← read_full 5
  pure (record {
    name = name;
    size = u64_at buf 0;
    mtime = mtime;
    mode = u32_at buf2 0;
    owner = u8_at buf2 4;
  })

pub record FileLockInfo : Type 0 where
  pub lock_type : ℕ
  pub whence : ℕ
  pub start : ℕ
  pub size : ℕ

abbrev pub IsFileLockInfo : FileLockInfo → Type 0
IsFileLockInfo d = IsU8 d.lock_type × IsU8 d.whence × IsU64 d.start × IsU64 d.size

unfoldable pub get_file_lock_info_required_size : FileLockInfo → ℕ
get_file_lock_info_required_size d = 18

unfoldable pub write_file_lock_info : {W : Type 0} → Writer W → FileLockInfo → Put W
write_file_lock_info o d =
    o.write (put_u8 d.lock_type ++ put_u8 d.whence ++ put_u64 d.start ++ put_u64 d.size)

abbrev pub file_lock_info_bytes : FileLockInfo → Bytes
file_lock_info_bytes d =
    (put_u8 d.lock_type ++ put_u8 d.whence ++ put_u64 d.start ++ put_u64 d.size)

unfoldable pub read_file_lock_info : Decoder FileLockInfo
read_file_lock_info = do
  buf ← read_full 18
  pure (record {
    lock_type = u8_at buf 0;
    whence = u8_at buf 1;
    start = u64_at buf 2;
    size = u64_at buf 10;
  })
