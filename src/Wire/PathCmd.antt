-- ===== src/Wire/PathCmd.antt =====
-- struct.go and the portable codec struct.gen.go: the requests that name one path.
-- `x_bytes` is the wire format of a struct, `IsX` says that its fields have their Go types.
pub mod Laws
use wsfs_core.Prelude.{ℕ, ◌+◌, List, [], ◌∷◌, ◌++◌, length}
use wsfs_core.Prelude.Int.{ℤ, IsInt64}
use wsfs_core.Wire.Bytes.{
  Bytes, IsU8, IsU32, IsU64, put_u8, put_u32, put_u64, put_i64, u8_at, u32_at, u64_at, i64_at,
}
use wsfs_core.Wire.Source.{Decoder, ◌>>=◌, pure, read_full, read_all, read_all_to_buffer}
use wsfs_core.Wire.Sink.{Writer, Put, ◌>>◌}
use wsfs_core.Wire.Str.{IsStr, str_bytes, write_str_to_writer, read_str_from_reader}
use wsfs_core.Wire.Attr.{
  Timespec, IsTimespec, get_timespec_required_size, write_timespec, timespec_bytes, read_timespec,
  FileInfo, IsFileInfo, get_file_info_required_size, write_file_info, file_info_bytes,
  read_file_info, Dirent, IsDirent, get_dirent_required_size, write_dirent, dirent_bytes,
  read_dirent, FileLockInfo, IsFileLockInfo, get_file_lock_info_required_size, write_file_lock_info,
  file_lock_info_bytes, read_file_lock_info,
}

pub record CmdOpenStruct : Type 0 where
  pub path : Bytes
  pub oflag : ℕ
  pub fmode : ℕ

abbrev pub IsCmdOpenStruct : CmdOpenStruct → Type 0
IsCmdOpenStruct d = IsStr d.path × IsU32 d.oflag × IsU32 d.fmode

unfoldable pub get_cmd_open_struct_required_size : CmdOpenStruct → ℕ
get_cmd_open_struct_required_size d = length d.path + 10

unfoldable pub write_cmd_open_struct : {W : Type 0} → Writer W → CmdOpenStruct → Put W
write_cmd_open_struct o d = do
  write_str_to_writer o d.path
  o.write (put_u32 d.oflag ++ put_u32 d.fmode)

abbrev pub cmd_open_struct_bytes : CmdOpenStruct → Bytes
cmd_open_struct_bytes d = str_bytes d.path ++ (put_u32 d.oflag ++ put_u32 d.fmode)

unfoldable pub read_cmd_open_struct : Decoder CmdOpenStruct
read_cmd_open_struct = do
  path ← read_str_from_reader
  buf ← read_full 8
  pure (record { path = path; oflag = u32_at buf 0; fmode = u32_at buf 4 })

pub record CmdReadDirStruct : Type 0 where
  pub path : Bytes

abbrev pub IsCmdReadDirStruct : CmdReadDirStruct → Type 0
IsCmdReadDirStruct d = IsStr d.path

unfoldable pub get_cmd_read_dir_struct_required_size : CmdReadDirStruct → ℕ
get_cmd_read_dir_struct_required_size d = length d.path + 2

unfoldable pub write_cmd_read_dir_struct : {W : Type 0} → Writer W → CmdReadDirStruct → Put W
write_cmd_read_dir_struct o d = write_str_to_writer o d.path

abbrev pub cmd_read_dir_struct_bytes : CmdReadDirStruct → Bytes
cmd_read_dir_struct_bytes d = str_bytes d.path

unfoldable pub read_cmd_read_dir_struct : Decoder CmdReadDirStruct
read_cmd_read_dir_struct = do path ← read_str_from_reader; pure (record { path = path })

pub record CmdReadDirPlusStruct : Type 0 where
  pub path : Bytes

abbrev pub IsCmdReadDirPlusStruct : CmdReadDirPlusStruct → Type 0
IsCmdReadDirPlusStruct d = IsStr d.path

unfoldable pub get_cmd_read_dir_plus_struct_required_size : CmdReadDirPlusStruct → ℕ
get_cmd_read_dir_plus_struct_required_size d = length d.path + 2

unfoldable pub write_cmd_read_dir_plus_struct :
    {W : Type 0} → Writer W → CmdReadDirPlusStruct → Put W
write_cmd_read_dir_plus_struct o d = write_str_to_writer o d.path

abbrev pub cmd_read_dir_plus_struct_bytes : CmdReadDirPlusStruct → Bytes
cmd_read_dir_plus_struct_bytes d = str_bytes d.path

unfoldable pub read_cmd_read_dir_plus_struct : Decoder CmdReadDirPlusStruct
read_cmd_read_dir_plus_struct = do path ← read_str_from_reader; pure (record { path = path })

pub record CmdReadLinkStruct : Type 0 where
  pub path : Bytes

abbrev pub IsCmdReadLinkStruct : CmdReadLinkStruct → Type 0
IsCmdReadLinkStruct d = IsStr d.path

unfoldable pub get_cmd_read_link_struct_required_size : CmdReadLinkStruct → ℕ
get_cmd_read_link_struct_required_size d = length d.path + 2

unfoldable pub write_cmd_read_link_struct : {W : Type 0} → Writer W → CmdReadLinkStruct → Put W
write_cmd_read_link_struct o d = write_str_to_writer o d.path

abbrev pub cmd_read_link_struct_bytes : CmdReadLinkStruct → Bytes
cmd_read_link_struct_bytes d = str_bytes d.path

unfoldable pub read_cmd_read_link_struct : Decoder CmdReadLinkStruct
read_cmd_read_link_struct = do path ← read_str_from_reader; pure (record { path = path })

pub record CmdGetAttrStruct : Type 0 where
  pub path : Bytes

abbrev pub IsCmdGetAttrStruct : CmdGetAttrStruct → Type 0
IsCmdGetAttrStruct d = IsStr d.path

unfoldable pub get_cmd_get_attr_struct_required_size : CmdGetAttrStruct → ℕ
get_cmd_get_attr_struct_required_size d = length d.path + 2

unfoldable pub write_cmd_get_attr_struct : {W : Type 0} → Writer W → CmdGetAttrStruct → Put W
write_cmd_get_attr_struct o d = write_str_to_writer o d.path

abbrev pub cmd_get_attr_struct_bytes : CmdGetAttrStruct → Bytes
cmd_get_attr_struct_bytes d = str_bytes d.path

unfoldable pub read_cmd_get_attr_struct : Decoder CmdGetAttrStruct
read_cmd_get_attr_struct = do path ← read_str_from_reader; pure (record { path = path })

pub record CmdSetAttrStruct : Type 0 where
  pub path : Bytes
  pub flag : ℕ
  pub fi : FileInfo

abbrev pub IsCmdSetAttrStruct : CmdSetAttrStruct → Type 0
IsCmdSetAttrStruct d = IsStr d.path × IsU8 d.flag × IsFileInfo d.fi

unfoldable pub get_cmd_set_attr_struct_required_size : CmdSetAttrStruct → ℕ
unfolding get_file_info_required_size
get_cmd_set_attr_struct_required_size d = length d.path + get_file_info_required_size d.fi + 3

unfoldable pub write_cmd_set_attr_struct : {W : Type 0} → Writer W → CmdSetAttrStruct → Put W
write_cmd_set_attr_struct o d = do
  write_str_to_writer o d.path
  o.write (put_u8 d.flag)
  write_file_info o d.fi

abbrev pub cmd_set_attr_struct_bytes : CmdSetAttrStruct → Bytes
cmd_set_attr_struct_bytes d = str_bytes d.path ++ ((put_u8 d.flag) ++ file_info_bytes d.fi)

unfoldable pub read_cmd_set_attr_struct : Decoder CmdSetAttrStruct
read_cmd_set_attr_struct = do
  path ← read_str_from_reader
  buf ← read_full 1
  fi ← read_file_info
  pure (record { path = path; flag = u8_at buf 0; fi = fi })

pub record CmdMkdirStruct : Type 0 where
  pub path : Bytes
  pub mode : ℕ

abbrev pub IsCmdMkdirStruct : CmdMkdirStruct → Type 0
IsCmdMkdirStruct d = IsStr d.path × IsU32 d.mode

unfoldable pub get_cmd_mkdir_struct_required_size : CmdMkdirStruct → ℕ
get_cmd_mkdir_struct_required_size d = length d.path + 6

unfoldable pub write_cmd_mkdir_struct : {W : Type 0} → Writer W → CmdMkdirStruct → Put W
write_cmd_mkdir_struct o d = do write_str_to_writer o d.path; o.write (put_u32 d.mode)

abbrev pub cmd_mkdir_struct_bytes : CmdMkdirStruct → Bytes
cmd_mkdir_struct_bytes d = str_bytes d.path ++ (put_u32 d.mode)

unfoldable pub read_cmd_mkdir_struct : Decoder CmdMkdirStruct
read_cmd_mkdir_struct = do
  path ← read_str_from_reader
  buf ← read_full 4
  pure (record { path = path; mode = u32_at buf 0 })

pub record CmdRemoveStruct : Type 0 where
  pub path : Bytes

abbrev pub IsCmdRemoveStruct : CmdRemoveStruct → Type 0
IsCmdRemoveStruct d = IsStr d.path

unfoldable pub get_cmd_remove_struct_required_size : CmdRemoveStruct → ℕ
get_cmd_remove_struct_required_size d = length d.path + 2

unfoldable pub write_cmd_remove_struct : {W : Type 0} → Writer W → CmdRemoveStruct → Put W
write_cmd_remove_struct o d = write_str_to_writer o d.path

abbrev pub cmd_remove_struct_bytes : CmdRemoveStruct → Bytes
cmd_remove_struct_bytes d = str_bytes d.path

unfoldable pub read_cmd_remove_struct : Decoder CmdRemoveStruct
read_cmd_remove_struct = do path ← read_str_from_reader; pure (record { path = path })

pub record CmdRmDirStruct : Type 0 where
  pub path : Bytes

abbrev pub IsCmdRmDirStruct : CmdRmDirStruct → Type 0
IsCmdRmDirStruct d = IsStr d.path

unfoldable pub get_cmd_rm_dir_struct_required_size : CmdRmDirStruct → ℕ
get_cmd_rm_dir_struct_required_size d = length d.path + 2

unfoldable pub write_cmd_rm_dir_struct : {W : Type 0} → Writer W → CmdRmDirStruct → Put W
write_cmd_rm_dir_struct o d = write_str_to_writer o d.path

abbrev pub cmd_rm_dir_struct_bytes : CmdRmDirStruct → Bytes
cmd_rm_dir_struct_bytes d = str_bytes d.path

unfoldable pub read_cmd_rm_dir_struct : Decoder CmdRmDirStruct
read_cmd_rm_dir_struct = do path ← read_str_from_reader; pure (record { path = path })

pub record CmdFsStatStruct : Type 0 where
  pub path : Bytes

abbrev pub IsCmdFsStatStruct : CmdFsStatStruct → Type 0
IsCmdFsStatStruct d = IsStr d.path

unfoldable pub get_cmd_fs_stat_struct_required_size : CmdFsStatStruct → ℕ
get_cmd_fs_stat_struct_required_size d = length d.path + 2

unfoldable pub write_cmd_fs_stat_struct : {W : Type 0} → Writer W → CmdFsStatStruct → Put W
write_cmd_fs_stat_struct o d = write_str_to_writer o d.path

abbrev pub cmd_fs_stat_struct_bytes : CmdFsStatStruct → Bytes
cmd_fs_stat_struct_bytes d = str_bytes d.path

unfoldable pub read_cmd_fs_stat_struct : Decoder CmdFsStatStruct
read_cmd_fs_stat_struct = do path ← read_str_from_reader; pure (record { path = path })
