-- ===== src/Wire/Amd64/PathCmd.antt =====
-- The codec for amd64, struct_amd64.gen.go: the requests that name one path.
pub mod Laws
use wsfs_core.Wire.Bytes.{put_u8, put_u32, u8_at, u32_at}
use wsfs_core.Wire.Source.{Decoder, ◌>>=◌, pure, read_full}
use wsfs_core.Wire.Sink.{Writer, Put, ◌>>◌}
use wsfs_core.Wire.Str.{write_str_to_writer, read_str_from_reader}
use wsfs_core.Wire.PathCmd.{
  CmdOpenStruct, CmdReadDirStruct, CmdReadDirPlusStruct, CmdReadLinkStruct, CmdGetAttrStruct,
  CmdSetAttrStruct, CmdMkdirStruct, CmdRemoveStruct, CmdRmDirStruct, CmdFsStatStruct,
}
use wsfs_core.Wire.Amd64.Attr.{write_file_info_amd64, read_file_info_amd64}

unfoldable pub write_cmd_open_struct_amd64 : {W : Type 0} → Writer W → CmdOpenStruct → Put W
write_cmd_open_struct_amd64 o d = do
  write_str_to_writer o d.path
  o.write (put_u32 d.oflag)
  o.write (put_u32 d.fmode)

unfoldable pub read_cmd_open_struct_amd64 : Decoder CmdOpenStruct
read_cmd_open_struct_amd64 = do
  path ← read_str_from_reader
  oflag_bytes ← read_full 4
  fmode_bytes ← read_full 4
  pure (record { path = path; oflag = u32_at oflag_bytes 0; fmode = u32_at fmode_bytes 0 })

unfoldable pub write_cmd_read_dir_struct_amd64 : {W : Type 0} → Writer W → CmdReadDirStruct → Put W
write_cmd_read_dir_struct_amd64 o d = do write_str_to_writer o d.path

unfoldable pub read_cmd_read_dir_struct_amd64 : Decoder CmdReadDirStruct
read_cmd_read_dir_struct_amd64 = do path ← read_str_from_reader; pure (record { path = path })

unfoldable pub write_cmd_read_dir_plus_struct_amd64 :
    {W : Type 0} → Writer W → CmdReadDirPlusStruct → Put W
write_cmd_read_dir_plus_struct_amd64 o d = do write_str_to_writer o d.path

unfoldable pub read_cmd_read_dir_plus_struct_amd64 : Decoder CmdReadDirPlusStruct
read_cmd_read_dir_plus_struct_amd64 = do path ← read_str_from_reader; pure (record { path = path })

unfoldable pub write_cmd_read_link_struct_amd64 :
    {W : Type 0} → Writer W → CmdReadLinkStruct → Put W
write_cmd_read_link_struct_amd64 o d = do write_str_to_writer o d.path

unfoldable pub read_cmd_read_link_struct_amd64 : Decoder CmdReadLinkStruct
read_cmd_read_link_struct_amd64 = do path ← read_str_from_reader; pure (record { path = path })

unfoldable pub write_cmd_get_attr_struct_amd64 : {W : Type 0} → Writer W → CmdGetAttrStruct → Put W
write_cmd_get_attr_struct_amd64 o d = do write_str_to_writer o d.path

unfoldable pub read_cmd_get_attr_struct_amd64 : Decoder CmdGetAttrStruct
read_cmd_get_attr_struct_amd64 = do path ← read_str_from_reader; pure (record { path = path })

unfoldable pub write_cmd_set_attr_struct_amd64 : {W : Type 0} → Writer W → CmdSetAttrStruct → Put W
write_cmd_set_attr_struct_amd64 o d = do
  write_str_to_writer o d.path
  o.write (put_u8 d.flag)
  write_file_info_amd64 o d.fi

unfoldable pub read_cmd_set_attr_struct_amd64 : Decoder CmdSetAttrStruct
read_cmd_set_attr_struct_amd64 = do
  path ← read_str_from_reader
  flag_bytes ← read_full 1
  fi ← read_file_info_amd64
  pure (record { path = path; flag = u8_at flag_bytes 0; fi = fi })

unfoldable pub write_cmd_mkdir_struct_amd64 : {W : Type 0} → Writer W → CmdMkdirStruct → Put W
write_cmd_mkdir_struct_amd64 o d = do write_str_to_writer o d.path; o.write (put_u32 d.mode)

unfoldable pub read_cmd_mkdir_struct_amd64 : Decoder CmdMkdirStruct
read_cmd_mkdir_struct_amd64 = do
  path ← read_str_from_reader
  mode_bytes ← read_full 4
  pure (record { path = path; mode = u32_at mode_bytes 0 })

unfoldable pub write_cmd_remove_struct_amd64 : {W : Type 0} → Writer W → CmdRemoveStruct → Put W
write_cmd_remove_struct_amd64 o d = do write_str_to_writer o d.path

unfoldable pub read_cmd_remove_struct_amd64 : Decoder CmdRemoveStruct
read_cmd_remove_struct_amd64 = do path ← read_str_from_reader; pure (record { path = path })

unfoldable pub write_cmd_rm_dir_struct_amd64 : {W : Type 0} → Writer W → CmdRmDirStruct → Put W
write_cmd_rm_dir_struct_amd64 o d = do write_str_to_writer o d.path

unfoldable pub read_cmd_rm_dir_struct_amd64 : Decoder CmdRmDirStruct
read_cmd_rm_dir_struct_amd64 = do path ← read_str_from_reader; pure (record { path = path })

unfoldable pub write_cmd_fs_stat_struct_amd64 : {W : Type 0} → Writer W → CmdFsStatStruct → Put W
write_cmd_fs_stat_struct_amd64 o d = do write_str_to_writer o d.path

unfoldable pub read_cmd_fs_stat_struct_amd64 : Decoder CmdFsStatStruct
read_cmd_fs_stat_struct_amd64 = do path ← read_str_from_reader; pure (record { path = path })
