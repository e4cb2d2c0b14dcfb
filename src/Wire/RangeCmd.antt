-- ===== src/Wire/RangeCmd.antt =====
-- struct.go and the portable codec struct.gen.go: the requests on file ranges, attributes by descriptor, and locks.
-- `x_bytes` is the wire format of a struct, `IsX` says that its fields have their Go types.
pub mod Laws
use wsfs_core.Prelude.{ℕ, ◌+◌, List, [], ◌∷◌, ◌++◌, length}
use wsfs_core.Prelude.Int.{ℤ, IsInt64}
use wsfs_core.Wire.Bytes.{
  Bytes, IsU8, IsU32, IsU64, put_u8, put_u32, put_u64, put_i64, u8_at, u32_at, u64_at, i64_at,
}
use wsfs_core.Wire.Source.{Decoder, ◌>>=◌, pure, read_full, read_all, read_all_to_buffer}
use wsfs_core.Wire.Sink.{Writer, Put, ◌>>◌}
use wsfs_core.Wire.Str.{IsStr, str_bytes, write_str_to_writer, read_str_from_reader}
use wsfs_core.Wire.Attr.{
  Timespec, IsTimespec, get_timespec_required_size, write_timespec, timespec_bytes, read_timespec,
  FileInfo, IsFileInfo, get_file_info_required_size, write_file_info, file_info_bytes,
  read_file_info, Dirent, IsDirent, get_dirent_required_size, write_dirent, dirent_bytes,
  read_dirent, FileLockInfo, IsFileLockInfo, get_file_lock_info_required_size, write_file_lock_info,
  file_lock_info_bytes, read_file_lock_info,
}

pub record CmdCopyFileRangeStruct : Type 0 where
  pub src_fd : ℕ
  pub dst_fd : ℕ
  pub src_offset : ℕ
  pub dst_offset : ℕ
  pub size : ℕ

abbrev pub IsCmdCopyFileRangeStruct : CmdCopyFileRangeStruct → Type 0
IsCmdCopyFileRangeStruct d =
    IsU32 d.src_fd × IsU32 d.dst_fd × IsU64 d.src_offset × IsU64 d.dst_offset × IsU64 d.size

unfoldable pub get_cmd_copy_file_range_struct_required_size : CmdCopyFileRangeStruct → ℕ
get_cmd_copy_file_range_struct_required_size d = 32

unfoldable pub write_cmd_copy_file_range_struct :
    {W : Type 0} → Writer W → CmdCopyFileRangeStruct → Put W
write_cmd_copy_file_range_struct o d = o.write (
    put_u32 d.src_fd
    ++ put_u32 d.dst_fd
    ++ put_u64 d.src_offset
    ++ put_u64 d.dst_offset
    ++ put_u64 d.size)

abbrev pub cmd_copy_file_range_struct_bytes : CmdCopyFileRangeStruct → Bytes
cmd_copy_file_range_struct_bytes d =
    (put_u32 d.src_fd
      ++ put_u32 d.dst_fd
      ++ put_u64 d.src_offset
      ++ put_u64 d.dst_offset
      ++ put_u64 d.size)

unfoldable pub read_cmd_copy_file_range_struct : Decoder CmdCopyFileRangeStruct
read_cmd_copy_file_range_struct = do
  buf ← read_full 32
  pure (record {
    src_fd = u32_at buf 0;
    dst_fd = u32_at buf 4;
    src_offset = u64_at buf 8;
    dst_offset = u64_at buf 16;
    size = u64_at buf 24;
  })

pub record CmdCloneFileRangeStruct : Type 0 where
  pub src_fd : ℕ
  pub dst_fd : ℕ
  pub src_offset : ℕ
  pub dst_offset : ℕ
  pub size : ℕ

abbrev pub IsCmdCloneFileRangeStruct : CmdCloneFileRangeStruct → Type 0
IsCmdCloneFileRangeStruct d =
    IsU32 d.src_fd × IsU32 d.dst_fd × IsU64 d.src_offset × IsU64 d.dst_offset × IsU64 d.size

unfoldable pub get_cmd_clone_file_range_struct_required_size : CmdCloneFileRangeStruct → ℕ
get_cmd_clone_file_range_struct_required_size d = 32

unfoldable pub write_cmd_clone_file_range_struct :
    {W : Type 0} → Writer W → CmdCloneFileRangeStruct → Put W
write_cmd_clone_file_range_struct o d = o.write (
    put_u32 d.src_fd
    ++ put_u32 d.dst_fd
    ++ put_u64 d.src_offset
    ++ put_u64 d.dst_offset
    ++ put_u64 d.size)

abbrev pub cmd_clone_file_range_struct_bytes : CmdCloneFileRangeStruct → Bytes
cmd_clone_file_range_struct_bytes d =
    (put_u32 d.src_fd
      ++ put_u32 d.dst_fd
      ++ put_u64 d.src_offset
      ++ put_u64 d.dst_offset
      ++ put_u64 d.size)

unfoldable pub read_cmd_clone_file_range_struct : Decoder CmdCloneFileRangeStruct
read_cmd_clone_file_range_struct = do
  buf ← read_full 32
  pure (record {
    src_fd = u32_at buf 0;
    dst_fd = u32_at buf 4;
    src_offset = u64_at buf 8;
    dst_offset = u64_at buf 16;
    size = u64_at buf 24;
  })

pub record CmdSetAttrByFdStruct : Type 0 where
  pub fd : ℕ
  pub flag : ℕ
  pub fi : FileInfo

abbrev pub IsCmdSetAttrByFdStruct : CmdSetAttrByFdStruct → Type 0
IsCmdSetAttrByFdStruct d = IsU32 d.fd × IsU8 d.flag × IsFileInfo d.fi

unfoldable pub get_cmd_set_attr_by_fd_struct_required_size : CmdSetAttrByFdStruct → ℕ
unfolding get_file_info_required_size
get_cmd_set_attr_by_fd_struct_required_size d = get_file_info_required_size d.fi + 5

unfoldable pub write_cmd_set_attr_by_fd_struct :
    {W : Type 0} → Writer W → CmdSetAttrByFdStruct → Put W
write_cmd_set_attr_by_fd_struct o d = do
  o.write (put_u32 d.fd ++ put_u8 d.flag)
  write_file_info o d.fi

abbrev pub cmd_set_attr_by_fd_struct_bytes : CmdSetAttrByFdStruct → Bytes
cmd_set_attr_by_fd_struct_bytes d = (put_u32 d.fd ++ put_u8 d.flag) ++ file_info_bytes d.fi

unfoldable pub read_cmd_set_attr_by_fd_struct : Decoder CmdSetAttrByFdStruct
read_cmd_set_attr_by_fd_struct = do
  buf ← read_full 5
  fi ← read_file_info
  pure (record { fd = u32_at buf 0; flag = u8_at buf 4; fi = fi })

pub record CmdGetFileLockStruct : Type 0 where
  pub fd : ℕ
  pub file_lock : FileLockInfo

abbrev pub IsCmdGetFileLockStruct : CmdGetFileLockStruct → Type 0
IsCmdGetFileLockStruct d = IsU32 d.fd × IsFileLockInfo d.file_lock

unfoldable pub get_cmd_get_file_lock_struct_required_size : CmdGetFileLockStruct → ℕ
unfolding get_file_lock_info_required_size
get_cmd_get_file_lock_struct_required_size d = get_file_lock_info_required_size d.file_lock + 4

unfoldable pub write_cmd_get_file_lock_struct :
    {W : Type 0} → Writer W → CmdGetFileLockStruct → Put W
write_cmd_get_file_lock_struct o d = do o.write (put_u32 d.fd); write_file_lock_info o d.file_lock

abbrev pub cmd_get_file_lock_struct_bytes : CmdGetFileLockStruct → Bytes
cmd_get_file_lock_struct_bytes d = (put_u32 d.fd) ++ file_lock_info_bytes d.file_lock

unfoldable pub read_cmd_get_file_lock_struct : Decoder CmdGetFileLockStruct
read_cmd_get_file_lock_struct = do
  buf ← read_full 4
  file_lock ← read_file_lock_info
  pure (record { fd = u32_at buf 0; file_lock = file_lock })

pub record CmdSetFileLockStruct : Type 0 where
  pub fd : ℕ
  pub file_lock : FileLockInfo

abbrev pub IsCmdSetFileLockStruct : CmdSetFileLockStruct → Type 0
IsCmdSetFileLockStruct d = IsU32 d.fd × IsFileLockInfo d.file_lock

unfoldable pub get_cmd_set_file_lock_struct_required_size : CmdSetFileLockStruct → ℕ
unfolding get_file_lock_info_required_size
get_cmd_set_file_lock_struct_required_size d = get_file_lock_info_required_size d.file_lock + 4

unfoldable pub write_cmd_set_file_lock_struct :
    {W : Type 0} → Writer W → CmdSetFileLockStruct → Put W
write_cmd_set_file_lock_struct o d = do o.write (put_u32 d.fd); write_file_lock_info o d.file_lock

abbrev pub cmd_set_file_lock_struct_bytes : CmdSetFileLockStruct → Bytes
cmd_set_file_lock_struct_bytes d = (put_u32 d.fd) ++ file_lock_info_bytes d.file_lock

unfoldable pub read_cmd_set_file_lock_struct : Decoder CmdSetFileLockStruct
read_cmd_set_file_lock_struct = do
  buf ← read_full 4
  file_lock ← read_file_lock_info
  pure (record { fd = u32_at buf 0; file_lock = file_lock })

pub record CmdSetFileLockWaitStruct : Type 0 where
  pub fd : ℕ
  pub file_lock : FileLockInfo

abbrev pub IsCmdSetFileLockWaitStruct : CmdSetFileLockWaitStruct → Type 0
IsCmdSetFileLockWaitStruct d = IsU32 d.fd × IsFileLockInfo d.file_lock

unfoldable pub get_cmd_set_file_lock_wait_struct_required_size : CmdSetFileLockWaitStruct → ℕ
unfolding get_file_lock_info_required_size
get_cmd_set_file_lock_wait_struct_required_size d = get_file_lock_info_required_size d.file_lock + 4

unfoldable pub write_cmd_set_file_lock_wait_struct :
    {W : Type 0} → Writer W → CmdSetFileLockWaitStruct → Put W
write_cmd_set_file_lock_wait_struct o d = do
  o.write (put_u32 d.fd)
  write_file_lock_info o d.file_lock

abbrev pub cmd_set_file_lock_wait_struct_bytes : CmdSetFileLockWaitStruct → Bytes
cmd_set_file_lock_wait_struct_bytes d = (put_u32 d.fd) ++ file_lock_info_bytes d.file_lock

unfoldable pub read_cmd_set_file_lock_wait_struct : Decoder CmdSetFileLockWaitStruct
read_cmd_set_file_lock_wait_struct = do
  buf ← read_full 4
  file_lock ← read_file_lock_info
  pure (record { fd = u32_at buf 0; file_lock = file_lock })
