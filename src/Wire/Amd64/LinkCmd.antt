-- ===== src/Wire/Amd64/LinkCmd.antt =====
-- The codec for amd64, struct_amd64.gen.go: the requests that name two paths or a key.
pub mod Laws
use wsfs_core.Prelude.{ℕ}
use wsfs_core.Wire.Bytes.{put_u32, u32_at}
use wsfs_core.Wire.Source.{Decoder, ◌>>=◌, pure, read_full, read_all_to_buffer}
use wsfs_core.Wire.Sink.{Writer, Put, ◌>>◌}
use wsfs_core.Wire.Str.{write_str_to_writer, read_str_from_reader}
use wsfs_core.Wire.LinkCmd.{
  CmdSymLinkStruct, CmdRenameStruct, CmdLinkStruct, CmdSetXAttrStruct, CmdGetXAttrStruct,
  CmdListXAttrStruct, CmdRemoveXAttrStruct,
}

unfoldable pub write_cmd_sym_link_struct_amd64 : {W : Type 0} → Writer W → CmdSymLinkStruct → Put W
write_cmd_sym_link_struct_amd64 o d = do
  write_str_to_writer o d.target_path
  write_str_to_writer o d.file_path

unfoldable pub read_cmd_sym_link_struct_amd64 : Decoder CmdSymLinkStruct
read_cmd_sym_link_struct_amd64 = do
  target_path ← read_str_from_reader
  file_path ← read_str_from_reader
  pure (record { target_path = target_path; file_path = file_path })

unfoldable pub write_cmd_rename_struct_amd64 : {W : Type 0} → Writer W → CmdRenameStruct → Put W
write_cmd_rename_struct_amd64 o d = do
  write_str_to_writer o d.old_path
  write_str_to_writer o d.new_path
  o.write (put_u32 d.flag)

unfoldable pub read_cmd_rename_struct_amd64 : Decoder CmdRenameStruct
read_cmd_rename_struct_amd64 = do
  old_path ← read_str_from_reader
  new_path ← read_str_from_reader
  flag_bytes ← read_full 4
  pure (record { old_path = old_path; new_path = new_path; flag = u32_at flag_bytes 0 })

unfoldable pub write_cmd_link_struct_amd64 : {W : Type 0} → Writer W → CmdLinkStruct → Put W
write_cmd_link_struct_amd64 o d = do
  write_str_to_writer o d.target_path
  write_str_to_writer o d.file_path

unfoldable pub read_cmd_link_struct_amd64 : Decoder CmdLinkStruct
read_cmd_link_struct_amd64 = do
  target_path ← read_str_from_reader
  file_path ← read_str_from_reader
  pure (record { target_path = target_path; file_path = file_path })

unfoldable pub write_cmd_set_xattr_struct_amd64 :
    {W : Type 0} → Writer W → CmdSetXAttrStruct → Put W
write_cmd_set_xattr_struct_amd64 o d = do
  write_str_to_writer o d.path
  o.write (put_u32 d.flag)
  write_str_to_writer o d.key
  o.write d.value

unfoldable pub read_cmd_set_xattr_struct_with_buffer_amd64 : ℕ → Decoder CmdSetXAttrStruct
read_cmd_set_xattr_struct_with_buffer_amd64 size = do
  path ← read_str_from_reader
  flag_bytes ← read_full 4
  key ← read_str_from_reader
  value ← read_all_to_buffer size
  pure (record { path = path; flag = u32_at flag_bytes 0; key = key; value = value })

unfoldable pub write_cmd_get_xattr_struct_amd64 :
    {W : Type 0} → Writer W → CmdGetXAttrStruct → Put W
write_cmd_get_xattr_struct_amd64 o d = do
  write_str_to_writer o d.path
  write_str_to_writer o d.key
  o.write (put_u32 d.mode)

unfoldable pub read_cmd_get_xattr_struct_amd64 : Decoder CmdGetXAttrStruct
read_cmd_get_xattr_struct_amd64 = do
  path ← read_str_from_reader
  key ← read_str_from_reader
  mode_bytes ← read_full 4
  pure (record { path = path; key = key; mode = u32_at mode_bytes 0 })

unfoldable pub write_cmd_list_xattr_struct_amd64 :
    {W : Type 0} → Writer W → CmdListXAttrStruct → Put W
write_cmd_list_xattr_struct_amd64 o d = do write_str_to_writer o d.path; o.write (put_u32 d.mode)

unfoldable pub read_cmd_list_xattr_struct_amd64 : Decoder CmdListXAttrStruct
read_cmd_list_xattr_struct_amd64 = do
  path ← read_str_from_reader
  mode_bytes ← read_full 4
  pure (record { path = path; mode = u32_at mode_bytes 0 })

unfoldable pub write_cmd_remove_xattr_struct_amd64 :
    {W : Type 0} → Writer W → CmdRemoveXAttrStruct → Put W
write_cmd_remove_xattr_struct_amd64 o d = do
  write_str_to_writer o d.path
  write_str_to_writer o d.key
  o.write (put_u32 d.mode)

unfoldable pub read_cmd_remove_xattr_struct_amd64 : Decoder CmdRemoveXAttrStruct
read_cmd_remove_xattr_struct_amd64 = do
  path ← read_str_from_reader
  key ← read_str_from_reader
  mode_bytes ← read_full 4
  pure (record { path = path; key = key; mode = u32_at mode_bytes 0 })
