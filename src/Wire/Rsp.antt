-- ===== src/Wire/Rsp.antt =====
-- struct.go and the portable codec struct.gen.go: the responses that carry a payload of fixed shape.
-- `x_bytes` is the wire format of a struct, `IsX` says that its fields have their Go types.
pub mod Laws
use wsfs_core.Prelude.{ℕ, ◌+◌, List, [], ◌∷◌, ◌++◌, length}
use wsfs_core.Prelude.Int.{ℤ, IsInt64}
use wsfs_core.Wire.Bytes.{
  Bytes, IsU8, IsU32, IsU64, put_u8, put_u32, put_u64, put_i64, u8_at, u32_at, u64_at, i64_at,
}
use wsfs_core.Wire.Source.{Decoder, ◌>>=◌, pure, read_full, read_all, read_all_to_buffer}
use wsfs_core.Wire.Sink.{Writer, Put, ◌>>◌}
use wsfs_core.Wire.Str.{IsStr, str_bytes, write_str_to_writer, read_str_from_reader}
use wsfs_core.Wire.Attr.{
  Timespec, IsTimespec, get_timespec_required_size, write_timespec, timespec_bytes, read_timespec,
  FileInfo, IsFileInfo, get_file_info_required_size, write_file_info, file_info_bytes,
  read_file_info, Dirent, IsDirent, get_dirent_required_size, write_dirent, dirent_bytes,
  read_dirent, FileLockInfo, IsFileLockInfo, get_file_lock_info_required_size, write_file_lock_info,
  file_lock_info_bytes, read_file_lock_info,
}

pub record RspError : Type 0 where
  pub desc : Bytes

abbrev pub IsRspError : RspError → Type 0
IsRspError d = IsStr d.desc

unfoldable pub get_rsp_error_required_size : RspError → ℕ
get_rsp_error_required_size d = length d.desc + 2

unfoldable pub write_rsp_error : {W : Type 0} → Writer W → RspError → Put W
write_rsp_error o d = write_str_to_writer o d.desc

abbrev pub rsp_error_bytes : RspError → Bytes
rsp_error_bytes d = str_bytes d.desc

unfoldable pub read_rsp_error : Decoder RspError
read_rsp_error = do desc ← read_str_from_reader; pure (record { desc = desc })

pub record RspOpen : Type 0 where
  pub fd : ℕ

abbrev pub IsRspOpen : RspOpen → Type 0
IsRspOpen d = IsU32 d.fd

unfoldable pub get_rsp_open_required_size : RspOpen → ℕ
get_rsp_open_required_size d = 4

unfoldable pub write_rsp_open : {W : Type 0} → Writer W → RspOpen → Put W
write_rsp_open o d = o.write (put_u32 d.fd)

abbrev pub rsp_open_bytes : RspOpen → Bytes
rsp_open_bytes d = (put_u32 d.fd)

unfoldable pub read_rsp_open : Decoder RspOpen
read_rsp_open = do buf ← read_full 4; pure (record { fd = u32_at buf 0 })

pub record RspReadLink : Type 0 where
  pub target_path : Bytes

abbrev pub IsRspReadLink : RspReadLink → Type 0
IsRspReadLink d = IsStr d.target_path

unfoldable pub get_rsp_read_link_required_size : RspReadLink → ℕ
get_rsp_read_link_required_size d = length d.target_path + 2

unfoldable pub write_rsp_read_link : {W : Type 0} → Writer W → RspReadLink → Put W
write_rsp_read_link o d = write_str_to_writer o d.target_path

abbrev pub rsp_read_link_bytes : RspReadLink → Bytes
rsp_read_link_bytes d = str_bytes d.target_path

unfoldable pub read_rsp_read_link : Decoder RspReadLink
read_rsp_read_link = do
  target_path ← read_str_from_reader
  pure (record { target_path = target_path })

pub record RspWrite : Type 0 where
  pub written : ℕ

abbrev pub IsRspWrite : RspWrite → Type 0
IsRspWrite d = IsU64 d.written

unfoldable pub get_rsp_write_required_size : RspWrite → ℕ
get_rsp_write_required_size d = 8

unfoldable pub write_rsp_write : {W : Type 0} → Writer W → RspWrite → Put W
write_rsp_write o d = o.write (put_u64 d.written)

abbrev pub rsp_write_bytes : RspWrite → Bytes
rsp_write_bytes d = (put_u64 d.written)

unfoldable pub read_rsp_write : Decoder RspWrite
read_rsp_write = do buf ← read_full 8; pure (record { written = u64_at buf 0 })

pub record RspSeek : Type 0 where
  pub offset : ℕ

abbrev pub IsRspSeek : RspSeek → Type 0
IsRspSeek d = IsU64 d.offset

unfoldable pub get_rsp_seek_required_size : RspSeek → ℕ
get_rsp_seek_required_size d = 8

unfoldable pub write_rsp_seek : {W : Type 0} → Writer W → RspSeek → Put W
write_rsp_seek o d = o.write (put_u64 d.offset)

abbrev pub rsp_seek_bytes : RspSeek → Bytes
rsp_seek_bytes d = (put_u64 d.offset)

unfoldable pub read_rsp_seek : Decoder RspSeek
read_rsp_seek = do buf ← read_full 8; pure (record { offset = u64_at buf 0 })

pub record RspGetAttr : Type 0 where
  pub fi : FileInfo

abbrev pub IsRspGetAttr : RspGetAttr → Type 0
IsRspGetAttr d = IsFileInfo d.fi

unfoldable pub get_rsp_get_attr_required_size : RspGetAttr → ℕ
unfolding get_file_info_required_size
get_rsp_get_attr_required_size d = get_file_info_required_size d.fi + 0

unfoldable pub write_rsp_get_attr : {W : Type 0} → Writer W → RspGetAttr → Put W
write_rsp_get_attr o d = write_file_info o d.fi

abbrev pub rsp_get_attr_bytes : RspGetAttr → Bytes
rsp_get_attr_bytes d = file_info_bytes d.fi

unfoldable pub read_rsp_get_attr : Decoder RspGetAttr
read_rsp_get_attr = do fi ← read_file_info; pure (record { fi = fi })

pub record RspFsStat : Type 0 where
  pub total : ℕ
  pub free : ℕ
  pub available : ℕ

abbrev pub IsRspFsStat : RspFsStat → Type 0
IsRspFsStat d = IsU64 d.total × IsU64 d.free × IsU64 d.available

unfoldable pub get_rsp_fs_stat_required_size : RspFsStat → ℕ
get_rsp_fs_stat_required_size d = 24

unfoldable pub write_rsp_fs_stat : {W : Type 0} → Writer W → RspFsStat → Put W
write_rsp_fs_stat o d = o.write (put_u64 d.total ++ put_u64 d.free ++ put_u64 d.available)

abbrev pub rsp_fs_stat_bytes : RspFsStat → Bytes
rsp_fs_stat_bytes d = (put_u64 d.total ++ put_u64 d.free ++ put_u64 d.available)

unfoldable pub read_rsp_fs_stat : Decoder RspFsStat
read_rsp_fs_stat = do
  buf ← read_full 24
  pure (record { total = u64_at buf 0; free = u64_at buf 8; available = u64_at buf 16 })

pub record RspWriteAt : Type 0 where
  pub written : ℕ

abbrev pub IsRspWriteAt : RspWriteAt → Type 0
IsRspWriteAt d = IsU64 d.written

unfoldable pub get_rsp_write_at_required_size : RspWriteAt → ℕ
get_rsp_write_at_required_size d = 8

unfoldable pub write_rsp_write_at : {W : Type 0} → Writer W → RspWriteAt → Put W
write_rsp_write_at o d = o.write (put_u64 d.written)

abbrev pub rsp_write_at_bytes : RspWriteAt → Bytes
rsp_write_at_bytes d = (put_u64 d.written)

unfoldable pub read_rsp_write_at : Decoder RspWriteAt
read_rsp_write_at = do buf ← read_full 8; pure (record { written = u64_at buf 0 })

pub record RspCopyFileRange : Type 0 where
  pub copied : ℕ

abbrev pub IsRspCopyFileRange : RspCopyFileRange → Type 0
IsRspCopyFileRange d = IsU64 d.copied

unfoldable pub get_rsp_copy_file_range_required_size : RspCopyFileRange → ℕ
get_rsp_copy_file_range_required_size d = 8

unfoldable pub write_rsp_copy_file_range : {W : Type 0} → Writer W → RspCopyFileRange → Put W
write_rsp_copy_file_range o d = o.write (put_u64 d.copied)

abbrev pub rsp_copy_file_range_bytes : RspCopyFileRange → Bytes
rsp_copy_file_range_bytes d = (put_u64 d.copied)

unfoldable pub read_rsp_copy_file_range : Decoder RspCopyFileRange
read_rsp_copy_file_range = do buf ← read_full 8; pure (record { copied = u64_at buf 0 })

pub record RspWriteStreamClose : Type 0 where
  pub written : ℕ

abbrev pub IsRspWriteStreamClose : RspWriteStreamClose → Type 0
IsRspWriteStreamClose d = IsU64 d.written

unfoldable pub get_rsp_write_stream_close_required_size : RspWriteStreamClose → ℕ
get_rsp_write_stream_close_required_size d = 8

unfoldable pub write_rsp_write_stream_close : {W : Type 0} → Writer W → RspWriteStreamClose → Put W
write_rsp_write_stream_close o d = o.write (put_u64 d.written)

abbrev pub rsp_write_stream_close_bytes : RspWriteStreamClose → Bytes
rsp_write_stream_close_bytes d = (put_u64 d.written)

unfoldable pub read_rsp_write_stream_close : Decoder RspWriteStreamClose
read_rsp_write_stream_close = do buf ← read_full 8; pure (record { written = u64_at buf 0 })

pub record RspGetFileLock : Type 0 where
  pub file_lock : FileLockInfo

abbrev pub IsRspGetFileLock : RspGetFileLock → Type 0
IsRspGetFileLock d = IsFileLockInfo d.file_lock

unfoldable pub get_rsp_get_file_lock_required_size : RspGetFileLock → ℕ
unfolding get_file_lock_info_required_size
get_rsp_get_file_lock_required_size d = get_file_lock_info_required_size d.file_lock + 0

unfoldable pub write_rsp_get_file_lock : {W : Type 0} → Writer W → RspGetFileLock → Put W
write_rsp_get_file_lock o d = write_file_lock_info o d.file_lock

abbrev pub rsp_get_file_lock_bytes : RspGetFileLock → Bytes
rsp_get_file_lock_bytes d = file_lock_info_bytes d.file_lock

unfoldable pub read_rsp_get_file_lock : Decoder RspGetFileLock
read_rsp_get_file_lock = do file_lock ← read_file_lock_info; pure (record { file_lock = file_lock })
