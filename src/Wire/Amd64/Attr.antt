-- ===== src/Wire/Amd64/Attr.antt =====
-- The codec for amd64, struct_amd64.gen.go: the structs that other structs hold.
pub mod Laws
use wsfs_core.Wire.Bytes.{put_u8, put_u32, put_u64, put_i64, u8_at, u32_at, u64_at, i64_at}
use wsfs_core.Wire.Source.{Decoder, ◌>>=◌, pure, read_full}
use wsfs_core.Wire.Sink.{Writer, Put, ◌>>◌}
use wsfs_core.Wire.Str.{write_str_to_writer, read_str_from_reader}
use wsfs_core.Wire.Attr.{Timespec, FileInfo, Dirent, FileLockInfo}

unfoldable pub write_timespec_amd64 : {W : Type 0} → Writer W → Timespec → Put W
write_timespec_amd64 o d = do o.write (put_i64 d.seconds); o.write (put_i64 d.nanoseconds)

unfoldable pub read_timespec_amd64 : Decoder Timespec
read_timespec_amd64 = do
  seconds_bytes ← read_full 8
  nanoseconds_bytes ← read_full 8
  pure (record { seconds = i64_at seconds_bytes 0; nanoseconds = i64_at nanoseconds_bytes 0 })

unfoldable pub write_file_info_amd64 : {W : Type 0} → Writer W → FileInfo → Put W
write_file_info_amd64 o d = do
  o.write (put_u64 d.size)
  write_timespec_amd64 o d.mtime
  o.write (put_u32 d.mode)
  o.write (put_u8 d.owner)

unfoldable pub read_file_info_amd64 : Decoder FileInfo
read_file_info_amd64 = do
  size_bytes ← read_full 8
  mtime ← read_timespec_amd64
  mode_bytes ← read_full 4
  owner_bytes ← read_full 1
  pure (record {
    size = u64_at size_bytes 0;
    mtime = mtime;
    mode = u32_at mode_bytes 0;
    owner = u8_at owner_bytes 0;
  })

unfoldable pub write_dirent_amd64 : {W : Type 0} → Writer W → Dirent → Put W
write_dirent_amd64 o d = do
  write_str_to_writer o d.name
  o.write (put_u64 d.size)
  write_timespec_amd64 o d.mtime
  o.write (put_u32 d.mode)
  o.write (put_u8 d.owner)

unfoldable pub read_dirent_amd64 : Decoder Dirent
read_dirent_amd64 = do
  name ← read_str_from_reader
  size_bytes ← read_full 8
  mtime ← read_timespec_amd64
  mode_bytes ← read_full 4
  owner_bytes ← read_full 1
  pure (record {
    name = name;
    size = u64_at size_bytes 0;
    mtime = mtime;
    mode = u32_at mode_bytes 0;
    owner = u8_at owner_bytes 0;
  })

unfoldable pub write_file_lock_info_amd64 : {W : Type 0} → Writer W → FileLockInfo → Put W
write_file_lock_info_amd64 o d = do
  o.write (put_u8 d.lock_type)
  o.write (put_u8 d.whence)
  o.write (put_u64 d.start)
  o.write (put_u64 d.size)

unfoldable pub read_file_lock_info_amd64 : Decoder FileLockInfo
read_file_lock_info_amd64 = do
  lock_type_bytes ← read_full 1
  whence_bytes ← read_full 1
  start_bytes ← read_full 8
  size_bytes ← read_full 8
  pure (record {
    lock_type = u8_at lock_type_bytes 0;
    whence = u8_at whence_bytes 0;
    start = u64_at start_bytes 0;
    size = u64_at size_bytes 0;
  })
