-- ===== src/Wire/LinkCmd.antt =====
-- struct.go and the portable codec struct.gen.go: the requests that name two paths, and those on extended attributes.
-- `x_bytes` is the wire format of a struct, `IsX` says that its fields have their Go types.
pub mod Laws
use wsfs_core.Prelude.{ℕ, ◌+◌, List, [], ◌∷◌, ◌++◌, length}
use wsfs_core.Prelude.Int.{ℤ, IsInt64}
use wsfs_core.Wire.Bytes.{
  Bytes, IsU8, IsU32, IsU64, put_u8, put_u32, put_u64, put_i64, u8_at, u32_at, u64_at, i64_at,
}
use wsfs_core.Wire.Source.{Decoder, ◌>>=◌, pure, read_full, read_all, read_all_to_buffer}
use wsfs_core.Wire.Sink.{Writer, Put, ◌>>◌}
use wsfs_core.Wire.Str.{IsStr, str_bytes, write_str_to_writer, read_str_from_reader}
use wsfs_core.Wire.Attr.{
  Timespec, IsTimespec, get_timespec_required_size, write_timespec, timespec_bytes, read_timespec,
  FileInfo, IsFileInfo, get_file_info_required_size, write_file_info, file_info_bytes,
  read_file_info, Dirent, IsDirent, get_dirent_required_size, write_dirent, dirent_bytes,
  read_dirent, FileLockInfo, IsFileLockInfo, get_file_lock_info_required_size, write_file_lock_info,
  file_lock_info_bytes, read_file_lock_info,
}

pub record CmdSymLinkStruct : Type 0 where
  pub target_path : Bytes
  pub file_path : Bytes

abbrev pub IsCmdSymLinkStruct : CmdSymLinkStruct → Type 0
IsCmdSymLinkStruct d = IsStr d.target_path × IsStr d.file_path

unfoldable pub get_cmd_sym_link_struct_required_size : CmdSymLinkStruct → ℕ
get_cmd_sym_link_struct_required_size d = length d.target_path + length d.file_path + 4

unfoldable pub write_cmd_sym_link_struct : {W : Type 0} → Writer W → CmdSymLinkStruct → Put W
write_cmd_sym_link_struct o d = do
  write_str_to_writer o d.target_path
  write_str_to_writer o d.file_path

abbrev pub cmd_sym_link_struct_bytes : CmdSymLinkStruct → Bytes
cmd_sym_link_struct_bytes d = str_bytes d.target_path ++ str_bytes d.file_path

unfoldable pub read_cmd_sym_link_struct : Decoder CmdSymLinkStruct
read_cmd_sym_link_struct = do
  target_path ← read_str_from_reader
  file_path ← read_str_from_reader
  pure (record { target_path = target_path; file_path = file_path })

pub record CmdRenameStruct : Type 0 where
  pub old_path : Bytes
  pub new_path : Bytes
  pub flag : ℕ

abbrev pub IsCmdRenameStruct : CmdRenameStruct → Type 0
IsCmdRenameStruct d = IsStr d.old_path × IsStr d.new_path × IsU32 d.flag

unfoldable pub get_cmd_rename_struct_required_size : CmdRenameStruct → ℕ
get_cmd_rename_struct_required_size d = length d.old_path + length d.new_path + 8

unfoldable pub write_cmd_rename_struct : {W : Type 0} → Writer W → CmdRenameStruct → Put W
write_cmd_rename_struct o d = do
  write_str_to_writer o d.old_path
  write_str_to_writer o d.new_path
  o.write (put_u32 d.flag)

abbrev pub cmd_rename_struct_bytes : CmdRenameStruct → Bytes
cmd_rename_struct_bytes d = str_bytes d.old_path ++ (str_bytes d.new_path ++ (put_u32 d.flag))

unfoldable pub read_cmd_rename_struct : Decoder CmdRenameStruct
read_cmd_rename_struct = do
  old_path ← read_str_from_reader
  new_path ← read_str_from_reader
  buf ← read_full 4
  pure (record { old_path = old_path; new_path = new_path; flag = u32_at buf 0 })

pub record CmdLinkStruct : Type 0 where
  pub target_path : Bytes
  pub file_path : Bytes

abbrev pub IsCmdLinkStruct : CmdLinkStruct → Type 0
IsCmdLinkStruct d = IsStr d.target_path × IsStr d.file_path

unfoldable pub get_cmd_link_struct_required_size : CmdLinkStruct → ℕ
get_cmd_link_struct_required_size d = length d.target_path + length d.file_path + 4

unfoldable pub write_cmd_link_struct : {W : Type 0} → Writer W → CmdLinkStruct → Put W
write_cmd_link_struct o d = do
  write_str_to_writer o d.target_path
  write_str_to_writer o d.file_path

abbrev pub cmd_link_struct_bytes : CmdLinkStruct → Bytes
cmd_link_struct_bytes d = str_bytes d.target_path ++ str_bytes d.file_path

unfoldable pub read_cmd_link_struct : Decoder CmdLinkStruct
read_cmd_link_struct = do
  target_path ← read_str_from_reader
  file_path ← read_str_from_reader
  pure (record { target_path = target_path; file_path = file_path })

pub record CmdSetXAttrStruct : Type 0 where
  pub path : Bytes
  pub flag : ℕ
  pub key : Bytes
  pub value : Bytes

abbrev pub IsCmdSetXAttrStruct : CmdSetXAttrStruct → Type 0
IsCmdSetXAttrStruct d = IsStr d.path × IsU32 d.flag × IsStr d.key

unfoldable pub get_cmd_set_xattr_struct_required_size : CmdSetXAttrStruct → ℕ
get_cmd_set_xattr_struct_required_size d = length d.path + length d.key + length d.value + 8

unfoldable pub write_cmd_set_xattr_struct : {W : Type 0} → Writer W → CmdSetXAttrStruct → Put W
write_cmd_set_xattr_struct o d = do
  write_str_to_writer o d.path
  o.write (put_u32 d.flag)
  write_str_to_writer o d.key
  o.write d.value

abbrev pub cmd_set_xattr_struct_bytes : CmdSetXAttrStruct → Bytes
cmd_set_xattr_struct_bytes d =
    str_bytes d.path ++ ((put_u32 d.flag) ++ (str_bytes d.key ++ d.value))

unfoldable pub read_cmd_set_xattr_struct_with_buffer : ℕ → Decoder CmdSetXAttrStruct
read_cmd_set_xattr_struct_with_buffer size = do
  path ← read_str_from_reader
  buf ← read_full 4
  key ← read_str_from_reader
  value ← read_all_to_buffer size
  pure (record { path = path; flag = u32_at buf 0; key = key; value = value })

pub record CmdGetXAttrStruct : Type 0 where
  pub path : Bytes
  pub key : Bytes
  pub mode : ℕ

abbrev pub IsCmdGetXAttrStruct : CmdGetXAttrStruct → Type 0
IsCmdGetXAttrStruct d = IsStr d.path × IsStr d.key × IsU32 d.mode

unfoldable pub get_cmd_get_xattr_struct_required_size : CmdGetXAttrStruct → ℕ
get_cmd_get_xattr_struct_required_size d = length d.path + length d.key + 8

unfoldable pub write_cmd_get_xattr_struct : {W : Type 0} → Writer W → CmdGetXAttrStruct → Put W
write_cmd_get_xattr_struct o d = do
  write_str_to_writer o d.path
  write_str_to_writer o d.key
  o.write (put_u32 d.mode)

abbrev pub cmd_get_xattr_struct_bytes : CmdGetXAttrStruct → Bytes
cmd_get_xattr_struct_bytes d = str_bytes d.path ++ (str_bytes d.key ++ (put_u32 d.mode))

unfoldable pub read_cmd_get_xattr_struct : Decoder CmdGetXAttrStruct
read_cmd_get_xattr_struct = do
  path ← read_str_from_reader
  key ← read_str_from_reader
  buf ← read_full 4
  pure (record { path = path; key = key; mode = u32_at buf 0 })

pub record CmdListXAttrStruct : Type 0 where
  pub path : Bytes
  pub mode : ℕ

abbrev pub IsCmdListXAttrStruct : CmdListXAttrStruct → Type 0
IsCmdListXAttrStruct d = IsStr d.path × IsU32 d.mode

unfoldable pub get_cmd_list_xattr_struct_required_size : CmdListXAttrStruct → ℕ
get_cmd_list_xattr_struct_required_size d = length d.path + 6

unfoldable pub write_cmd_list_xattr_struct : {W : Type 0} → Writer W → CmdListXAttrStruct → Put W
write_cmd_list_xattr_struct o d = do write_str_to_writer o d.path; o.write (put_u32 d.mode)

abbrev pub cmd_list_xattr_struct_bytes : CmdListXAttrStruct → Bytes
cmd_list_xattr_struct_bytes d = str_bytes d.path ++ (put_u32 d.mode)

unfoldable pub read_cmd_list_xattr_struct : Decoder CmdListXAttrStruct
read_cmd_list_xattr_struct = do
  path ← read_str_from_reader
  buf ← read_full 4
  pure (record { path = path; mode = u32_at buf 0 })

pub record CmdRemoveXAttrStruct : Type 0 where
  pub path : Bytes
  pub key : Bytes
  pub mode : ℕ

abbrev pub IsCmdRemoveXAttrStruct : CmdRemoveXAttrStruct → Type 0
IsCmdRemoveXAttrStruct d = IsStr d.path × IsStr d.key × IsU32 d.mode

unfoldable pub get_cmd_remove_xattr_struct_required_size : CmdRemoveXAttrStruct → ℕ
get_cmd_remove_xattr_struct_required_size d = length d.path + length d.key + 8

unfoldable pub write_cmd_remove_xattr_struct :
    {W : Type 0} → Writer W → CmdRemoveXAttrStruct → Put W
write_cmd_remove_xattr_struct o d = do
  write_str_to_writer o d.path
  write_str_to_writer o d.key
  o.write (put_u32 d.mode)

abbrev pub cmd_remove_xattr_struct_bytes : CmdRemoveXAttrStruct → Bytes
cmd_remove_xattr_struct_bytes d = str_bytes d.path ++ (str_bytes d.key ++ (put_u32 d.mode))

unfoldable pub read_cmd_remove_xattr_struct : Decoder CmdRemoveXAttrStruct
read_cmd_remove_xattr_struct = do
  path ← read_str_from_reader
  key ← read_str_from_reader
  buf ← read_full 4
  pure (record { path = path; key = key; mode = u32_at buf 0 })
