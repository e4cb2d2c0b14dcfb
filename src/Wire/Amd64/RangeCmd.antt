-- ===== src/Wire/Amd64/RangeCmd.antt =====
-- The codec for amd64, struct_amd64.gen.go: the requests on ranges, attributes and locks of open files.
pub mod Laws
use wsfs_core.Wire.Bytes.{put_u8, put_u32, put_u64, u8_at, u32_at, u64_at}
use wsfs_core.Wire.Source.{Decoder, ◌>>=◌, pure, read_full}
use wsfs_core.Wire.Sink.{Writer, Put, ◌>>◌}
use wsfs_core.Wire.RangeCmd.{
  CmdCopyFileRangeStruct, CmdCloneFileRangeStruct, CmdSetAttrByFdStruct, CmdGetFileLockStruct,
  CmdSetFileLockStruct, CmdSetFileLockWaitStruct,
}
use wsfs_core.Wire.Amd64.Attr.{
  write_file_info_amd64, read_file_info_amd64, write_file_lock_info_amd64,
  read_file_lock_info_amd64,
}

unfoldable pub write_cmd_copy_file_range_struct_amd64 :
    {W : Type 0} → Writer W → CmdCopyFileRangeStruct → Put W
write_cmd_copy_file_range_struct_amd64 o d = do
  o.write (put_u32 d.src_fd)
  o.write (put_u32 d.dst_fd)
  o.write (put_u64 d.src_offset)
  o.write (put_u64 d.dst_offset)
  o.write (put_u64 d.size)

unfoldable pub read_cmd_copy_file_range_struct_amd64 : Decoder CmdCopyFileRangeStruct
read_cmd_copy_file_range_struct_amd64 = do
  src_fd_bytes ← read_full 4
  dst_fd_bytes ← read_full 4
  src_offset_bytes ← read_full 8
  dst_offset_bytes ← read_full 8
  size_bytes ← read_full 8
  pure (record {
    src_fd = u32_at src_fd_bytes 0;
    dst_fd = u32_at dst_fd_bytes 0;
    src_offset = u64_at src_offset_bytes 0;
    dst_offset = u64_at dst_offset_bytes 0;
    size = u64_at size_bytes 0;
  })

unfoldable pub write_cmd_clone_file_range_struct_amd64 :
    {W : Type 0} → Writer W → CmdCloneFileRangeStruct → Put W
write_cmd_clone_file_range_struct_amd64 o d = do
  o.write (put_u32 d.src_fd)
  o.write (put_u32 d.dst_fd)
  o.write (put_u64 d.src_offset)
  o.write (put_u64 d.dst_offset)
  o.write (put_u64 d.size)

unfoldable pub read_cmd_clone_file_range_struct_amd64 : Decoder CmdCloneFileRangeStruct
read_cmd_clone_file_range_struct_amd64 = do
  src_fd_bytes ← read_full 4
  dst_fd_bytes ← read_full 4
  src_offset_bytes ← read_full 8
  dst_offset_bytes ← read_full 8
  size_bytes ← read_full 8
  pure (record {
    src_fd = u32_at src_fd_bytes 0;
    dst_fd = u32_at dst_fd_bytes 0;
    src_offset = u64_at src_offset_bytes 0;
    dst_offset = u64_at dst_offset_bytes 0;
    size = u64_at size_bytes 0;
  })

unfoldable pub write_cmd_set_attr_by_fd_struct_amd64 :
    {W : Type 0} → Writer W → CmdSetAttrByFdStruct → Put W
write_cmd_set_attr_by_fd_struct_amd64 o d = do
  o.write (put_u32 d.fd)
  o.write (put_u8 d.flag)
  write_file_info_amd64 o d.fi

unfoldable pub read_cmd_set_attr_by_fd_struct_amd64 : Decoder CmdSetAttrByFdStruct
read_cmd_set_attr_by_fd_struct_amd64 = do
  fd_bytes ← read_full 4
  flag_bytes ← read_full 1
  fi ← read_file_info_amd64
  pure (record { fd = u32_at fd_bytes 0; flag = u8_at flag_bytes 0; fi = fi })

unfoldable pub write_cmd_get_file_lock_struct_amd64 :
    {W : Type 0} → Writer W → CmdGetFileLockStruct → Put W
write_cmd_get_file_lock_struct_amd64 o d = do
  o.write (put_u32 d.fd)
  write_file_lock_info_amd64 o d.file_lock

unfoldable pub read_cmd_get_file_lock_struct_amd64 : Decoder CmdGetFileLockStruct
read_cmd_get_file_lock_struct_amd64 = do
  fd_bytes ← read_full 4
  file_lock ← read_file_lock_info_amd64
  pure (record { fd = u32_at fd_bytes 0; file_lock = file_lock })

unfoldable pub write_cmd_set_file_lock_struct_amd64 :
    {W : Type 0} → Writer W → CmdSetFileLockStruct → Put W
write_cmd_set_file_lock_struct_amd64 o d = do
  o.write (put_u32 d.fd)
  write_file_lock_info_amd64 o d.file_lock

unfoldable pub read_cmd_set_file_lock_struct_amd64 : Decoder CmdSetFileLockStruct
read_cmd_set_file_lock_struct_amd64 = do
  fd_bytes ← read_full 4
  file_lock ← read_file_lock_info_amd64
  pure (record { fd = u32_at fd_bytes 0; file_lock = file_lock })

unfoldable pub write_cmd_set_file_lock_wait_struct_amd64 :
    {W : Type 0} → Writer W → CmdSetFileLockWaitStruct → Put W
write_cmd_set_file_lock_wait_struct_amd64 o d = do
  o.write (put_u32 d.fd)
  write_file_lock_info_amd64 o d.file_lock

unfoldable pub read_cmd_set_file_lock_wait_struct_amd64 : Decoder CmdSetFileLockWaitStruct
read_cmd_set_file_lock_wait_struct_amd64 = do
  fd_bytes ← read_full 4
  file_lock ← read_file_lock_info_amd64
  pure (record { fd = u32_at fd_bytes 0; file_lock = file_lock })
