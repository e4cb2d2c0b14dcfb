-- ===== src/Wire/IoCmd.antt =====
-- struct.go and the portable codec struct.gen.go: the requests on an open file: reads, writes, seeks and write streams.
-- `x_bytes` is the wire format of a struct, `IsX` says that its fields have their Go types.
pub mod Laws
use wsfs_core.Prelude.{ℕ, ◌+◌, List, [], ◌∷◌, ◌++◌, length}
use wsfs_core.Prelude.Int.{ℤ, IsInt64}
use wsfs_core.Wire.Bytes.{
  Bytes, IsU8, IsU32, IsU64, put_u8, put_u32, put_u64, put_i64, u8_at, u32_at, u64_at, i64_at,
}
use wsfs_core.Wire.Source.{Decoder, ◌>>=◌, pure, read_full, read_all, read_all_to_buffer}
use wsfs_core.Wire.Sink.{Writer, Put, ◌>>◌}
use wsfs_core.Wire.Str.{IsStr, str_bytes, write_str_to_writer, read_str_from_reader}
use wsfs_core.Wire.Attr.{
  Timespec, IsTimespec, get_timespec_required_size, write_timespec, timespec_bytes, read_timespec,
  FileInfo, IsFileInfo, get_file_info_required_size, write_file_info, file_info_bytes,
  read_file_info, Dirent, IsDirent, get_dirent_required_size, write_dirent, dirent_bytes,
  read_dirent, FileLockInfo, IsFileLockInfo, get_file_lock_info_required_size, write_file_lock_info,
  file_lock_info_bytes, read_file_lock_info,
}

pub record CmdCloseStruct : Type 0 where
  pub fd : ℕ

abbrev pub IsCmdCloseStruct : CmdCloseStruct → Type 0
IsCmdCloseStruct d = IsU32 d.fd

unfoldable pub get_cmd_close_struct_required_size : CmdCloseStruct → ℕ
get_cmd_close_struct_required_size d = 4

unfoldable pub write_cmd_close_struct : {W : Type 0} → Writer W → CmdCloseStruct → Put W
write_cmd_close_struct o d = o.write (put_u32 d.fd)

abbrev pub cmd_close_struct_bytes : CmdCloseStruct → Bytes
cmd_close_struct_bytes d = (put_u32 d.fd)

unfoldable pub read_cmd_close_struct : Decoder CmdCloseStruct
read_cmd_close_struct = do buf ← read_full 4; pure (record { fd = u32_at buf 0 })

pub record CmdReadStruct : Type 0 where
  pub fd : ℕ
  pub size : ℕ

abbrev pub IsCmdReadStruct : CmdReadStruct → Type 0
IsCmdReadStruct d = IsU32 d.fd × IsU64 d.size

unfoldable pub get_cmd_read_struct_required_size : CmdReadStruct → ℕ
get_cmd_read_struct_required_size d = 12

unfoldable pub write_cmd_read_struct : {W : Type 0} → Writer W → CmdReadStruct → Put W
write_cmd_read_struct o d = o.write (put_u32 d.fd ++ put_u64 d.size)

abbrev pub cmd_read_struct_bytes : CmdReadStruct → Bytes
cmd_read_struct_bytes d = (put_u32 d.fd ++ put_u64 d.size)

unfoldable pub read_cmd_read_struct : Decoder CmdReadStruct
read_cmd_read_struct = do
  buf ← read_full 12
  pure (record { fd = u32_at buf 0; size = u64_at buf 4 })

pub record CmdWriteStruct : Type 0 where
  pub fd : ℕ
  pub payload : Bytes

abbrev pub IsCmdWriteStruct : CmdWriteStruct → Type 0
IsCmdWriteStruct d = IsU32 d.fd

unfoldable pub get_cmd_write_struct_required_size : CmdWriteStruct → ℕ
get_cmd_write_struct_required_size d = length d.payload + 4

unfoldable pub write_cmd_write_struct : {W : Type 0} → Writer W → CmdWriteStruct → Put W
write_cmd_write_struct o d = do o.write (put_u32 d.fd); o.write d.payload

abbrev pub cmd_write_struct_bytes : CmdWriteStruct → Bytes
cmd_write_struct_bytes d = (put_u32 d.fd) ++ d.payload

unfoldable pub read_cmd_write_struct_with_buffer : ℕ → Decoder CmdWriteStruct
read_cmd_write_struct_with_buffer size = do
  buf ← read_full 4
  payload ← read_all_to_buffer size
  pure (record { fd = u32_at buf 0; payload = payload })

pub record CmdSeekStruct : Type 0 where
  pub fd : ℕ
  pub whence : ℕ
  pub offset : ℤ

abbrev pub IsCmdSeekStruct : CmdSeekStruct → Type 0
IsCmdSeekStruct d = IsU32 d.fd × IsU8 d.whence × IsInt64 d.offset

unfoldable pub get_cmd_seek_struct_required_size : CmdSeekStruct → ℕ
get_cmd_seek_struct_required_size d = 13

unfoldable pub write_cmd_seek_struct : {W : Type 0} → Writer W → CmdSeekStruct → Put W
write_cmd_seek_struct o d = o.write (put_u32 d.fd ++ put_u8 d.whence ++ put_i64 d.offset)

abbrev pub cmd_seek_struct_bytes : CmdSeekStruct → Bytes
cmd_seek_struct_bytes d = (put_u32 d.fd ++ put_u8 d.whence ++ put_i64 d.offset)

unfoldable pub read_cmd_seek_struct : Decoder CmdSeekStruct
read_cmd_seek_struct = do
  buf ← read_full 13
  pure (record { fd = u32_at buf 0; whence = u8_at buf 4; offset = i64_at buf 5 })

pub record CmdAllocateStruct : Type 0 where
  pub fd : ℕ
  pub flag : ℕ
  pub offset : ℕ
  pub size : ℕ

abbrev pub IsCmdAllocateStruct : CmdAllocateStruct → Type 0
IsCmdAllocateStruct d = IsU32 d.fd × IsU32 d.flag × IsU64 d.offset × IsU64 d.size

unfoldable pub get_cmd_allocate_struct_required_size : CmdAllocateStruct → ℕ
get_cmd_allocate_struct_required_size d = 24

unfoldable pub write_cmd_allocate_struct : {W : Type 0} → Writer W → CmdAllocateStruct → Put W
write_cmd_allocate_struct o d =
    o.write (put_u32 d.fd ++ put_u32 d.flag ++ put_u64 d.offset ++ put_u64 d.size)

abbrev pub cmd_allocate_struct_bytes : CmdAllocateStruct → Bytes
cmd_allocate_struct_bytes d = (put_u32 d.fd ++ put_u32 d.flag ++ put_u64 d.offset ++ put_u64 d.size)

unfoldable pub read_cmd_allocate_struct : Decoder CmdAllocateStruct
read_cmd_allocate_struct = do
  buf ← read_full 24
  pure (record {
    fd = u32_at buf 0;
    flag = u32_at buf 4;
    offset = u64_at buf 8;
    size = u64_at buf 16;
  })

pub record CmdSyncStruct : Type 0 where
  pub fd : ℕ

abbrev pub IsCmdSyncStruct : CmdSyncStruct → Type 0
IsCmdSyncStruct d = IsU32 d.fd

unfoldable pub get_cmd_sync_struct_required_size : CmdSyncStruct → ℕ
get_cmd_sync_struct_required_size d = 4

unfoldable pub write_cmd_sync_struct : {W : Type 0} → Writer W → CmdSyncStruct → Put W
write_cmd_sync_struct o d = o.write (put_u32 d.fd)

abbrev pub cmd_sync_struct_bytes : CmdSyncStruct → Bytes
cmd_sync_struct_bytes d = (put_u32 d.fd)

unfoldable pub read_cmd_sync_struct : Decoder CmdSyncStruct
read_cmd_sync_struct = do buf ← read_full 4; pure (record { fd = u32_at buf 0 })

pub record CmdReadAtStruct : Type 0 where
  pub fd : ℕ
  pub offset : ℕ
  pub size : ℕ

abbrev pub IsCmdReadAtStruct : CmdReadAtStruct → Type 0
IsCmdReadAtStruct d = IsU32 d.fd × IsU64 d.offset × IsU64 d.size

unfoldable pub get_cmd_read_at_struct_required_size : CmdReadAtStruct → ℕ
get_cmd_read_at_struct_required_size d = 20

unfoldable pub write_cmd_read_at_struct : {W : Type 0} → Writer W → CmdReadAtStruct → Put W
write_cmd_read_at_struct o d = o.write (put_u32 d.fd ++ put_u64 d.offset ++ put_u64 d.size)

abbrev pub cmd_read_at_struct_bytes : CmdReadAtStruct → Bytes
cmd_read_at_struct_bytes d = (put_u32 d.fd ++ put_u64 d.offset ++ put_u64 d.size)

unfoldable pub read_cmd_read_at_struct : Decoder CmdReadAtStruct
read_cmd_read_at_struct = do
  buf ← read_full 20
  pure (record { fd = u32_at buf 0; offset = u64_at buf 4; size = u64_at buf 12 })

pub record CmdWriteAtStruct : Type 0 where
  pub fd : ℕ
  pub offset : ℕ
  pub payload : Bytes

abbrev pub IsCmdWriteAtStruct : CmdWriteAtStruct → Type 0
IsCmdWriteAtStruct d = IsU32 d.fd × IsU64 d.offset

unfoldable pub get_cmd_write_at_struct_required_size : CmdWriteAtStruct → ℕ
get_cmd_write_at_struct_required_size d = length d.payload + 12

unfoldable pub write_cmd_write_at_struct : {W : Type 0} → Writer W → CmdWriteAtStruct → Put W
write_cmd_write_at_struct o d = do o.write (put_u32 d.fd ++ put_u64 d.offset); o.write d.payload

abbrev pub cmd_write_at_struct_bytes : CmdWriteAtStruct → Bytes
cmd_write_at_struct_bytes d = (put_u32 d.fd ++ put_u64 d.offset) ++ d.payload

unfoldable pub read_cmd_write_at_struct_with_buffer : ℕ → Decoder CmdWriteAtStruct
read_cmd_write_at_struct_with_buffer size = do
  buf ← read_full 12
  payload ← read_all_to_buffer size
  pure (record { fd = u32_at buf 0; offset = u64_at buf 4; payload = payload })

pub record CmdWriteStreamOpenStruct : Type 0 where
  pub fd : ℕ
  pub offset : ℕ
  pub payload : Bytes

abbrev pub IsCmdWriteStreamOpenStruct : CmdWriteStreamOpenStruct → Type 0
IsCmdWriteStreamOpenStruct d = IsU32 d.fd × IsU64 d.offset

unfoldable pub get_cmd_write_stream_open_struct_required_size : CmdWriteStreamOpenStruct → ℕ
get_cmd_write_stream_open_struct_required_size d = length d.payload + 12

unfoldable pub write_cmd_write_stream_open_struct :
    {W : Type 0} → Writer W → CmdWriteStreamOpenStruct → Put W
write_cmd_write_stream_open_struct o d = do
  o.write (put_u32 d.fd ++ put_u64 d.offset)
  o.write d.payload

abbrev pub cmd_write_stream_open_struct_bytes : CmdWriteStreamOpenStruct → Bytes
cmd_write_stream_open_struct_bytes d = (put_u32 d.fd ++ put_u64 d.offset) ++ d.payload

unfoldable pub read_cmd_write_stream_open_struct_with_buffer : ℕ → Decoder CmdWriteStreamOpenStruct
read_cmd_write_stream_open_struct_with_buffer size = do
  buf ← read_full 12
  payload ← read_all_to_buffer size
  pure (record { fd = u32_at buf 0; offset = u64_at buf 4; payload = payload })

pub record CmdWriteStreamDataStruct : Type 0 where
  pub is_end : ℕ
  pub payload : Bytes

abbrev pub IsCmdWriteStreamDataStruct : CmdWriteStreamDataStruct → Type 0
IsCmdWriteStreamDataStruct d = IsU8 d.is_end

unfoldable pub get_cmd_write_stream_data_struct_required_size : CmdWriteStreamDataStruct → ℕ
get_cmd_write_stream_data_struct_required_size d = length d.payload + 1

unfoldable pub write_cmd_write_stream_data_struct :
    {W : Type 0} → Writer W → CmdWriteStreamDataStruct → Put W
write_cmd_write_stream_data_struct o d = do o.write (put_u8 d.is_end); o.write d.payload

abbrev pub cmd_write_stream_data_struct_bytes : CmdWriteStreamDataStruct → Bytes
cmd_write_stream_data_struct_bytes d = (put_u8 d.is_end) ++ d.payload

unfoldable pub read_cmd_write_stream_data_struct_with_buffer : ℕ → Decoder CmdWriteStreamDataStruct
read_cmd_write_stream_data_struct_with_buffer size = do
  buf ← read_full 1
  payload ← read_all_to_buffer size
  pure (record { is_end = u8_at buf 0; payload = payload })
