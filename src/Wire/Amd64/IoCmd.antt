-- ===== src/Wire/Amd64/IoCmd.antt =====
-- The codec for amd64, struct_amd64.gen.go: the requests on an open file: reads, writes, seeks and write streams.
pub mod Laws
use wsfs_core.Prelude.{ℕ}
use wsfs_core.Wire.Bytes.{put_u8, put_u32, put_u64, put_i64, u8_at, u32_at, u64_at, i64_at}
use wsfs_core.Wire.Source.{Decoder, ◌>>=◌, pure, read_full, read_all_to_buffer}
use wsfs_core.Wire.Sink.{Writer, Put, ◌>>◌}
use wsfs_core.Wire.IoCmd.{
  CmdCloseStruct, CmdReadStruct, CmdWriteStruct, CmdSeekStruct, CmdAllocateStruct, CmdSyncStruct,
  CmdReadAtStruct, CmdWriteAtStruct, CmdWriteStreamOpenStruct, CmdWriteStreamDataStruct,
}

unfoldable pub write_cmd_close_struct_amd64 : {W : Type 0} → Writer W → CmdCloseStruct → Put W
write_cmd_close_struct_amd64 o d = do o.write (put_u32 d.fd)

unfoldable pub read_cmd_close_struct_amd64 : Decoder CmdCloseStruct
read_cmd_close_struct_amd64 = do fd_bytes ← read_full 4; pure (record { fd = u32_at fd_bytes 0 })

unfoldable pub write_cmd_read_struct_amd64 : {W : Type 0} → Writer W → CmdReadStruct → Put W
write_cmd_read_struct_amd64 o d = do o.write (put_u32 d.fd); o.write (put_u64 d.size)

unfoldable pub read_cmd_read_struct_amd64 : Decoder CmdReadStruct
read_cmd_read_struct_amd64 = do
  fd_bytes ← read_full 4
  size_bytes ← read_full 8
  pure (record { fd = u32_at fd_bytes 0; size = u64_at size_bytes 0 })

unfoldable pub write_cmd_write_struct_amd64 : {W : Type 0} → Writer W → CmdWriteStruct → Put W
write_cmd_write_struct_amd64 o d = do o.write (put_u32 d.fd); o.write d.payload

unfoldable pub read_cmd_write_struct_with_buffer_amd64 : ℕ → Decoder CmdWriteStruct
read_cmd_write_struct_with_buffer_amd64 size = do
  fd_bytes ← read_full 4
  payload ← read_all_to_buffer size
  pure (record { fd = u32_at fd_bytes 0; payload = payload })

unfoldable pub write_cmd_seek_struct_amd64 : {W : Type 0} → Writer W → CmdSeekStruct → Put W
write_cmd_seek_struct_amd64 o d = do
  o.write (put_u32 d.fd)
  o.write (put_u8 d.whence)
  o.write (put_i64 d.offset)

unfoldable pub read_cmd_seek_struct_amd64 : Decoder CmdSeekStruct
read_cmd_seek_struct_amd64 = do
  fd_bytes ← read_full 4
  whence_bytes ← read_full 1
  offset_bytes ← read_full 8
  pure (record {
    fd = u32_at fd_bytes 0;
    whence = u8_at whence_bytes 0;
    offset = i64_at offset_bytes 0;
  })

unfoldable pub write_cmd_allocate_struct_amd64 : {W : Type 0} → Writer W → CmdAllocateStruct → Put W
write_cmd_allocate_struct_amd64 o d = do
  o.write (put_u32 d.fd)
  o.write (put_u32 d.flag)
  o.write (put_u64 d.offset)
  o.write (put_u64 d.size)

unfoldable pub read_cmd_allocate_struct_amd64 : Decoder CmdAllocateStruct
read_cmd_allocate_struct_amd64 = do
  fd_bytes ← read_full 4
  flag_bytes ← read_full 4
  offset_bytes ← read_full 8
  size_bytes ← read_full 8
  pure (record {
    fd = u32_at fd_bytes 0;
    flag = u32_at flag_bytes 0;
    offset = u64_at offset_bytes 0;
    size = u64_at size_bytes 0;
  })

unfoldable pub write_cmd_sync_struct_amd64 : {W : Type 0} → Writer W → CmdSyncStruct → Put W
write_cmd_sync_struct_amd64 o d = do o.write (put_u32 d.fd)

unfoldable pub read_cmd_sync_struct_amd64 : Decoder CmdSyncStruct
read_cmd_sync_struct_amd64 = do fd_bytes ← read_full 4; pure (record { fd = u32_at fd_bytes 0 })

unfoldable pub write_cmd_read_at_struct_amd64 : {W : Type 0} → Writer W → CmdReadAtStruct → Put W
write_cmd_read_at_struct_amd64 o d = do
  o.write (put_u32 d.fd)
  o.write (put_u64 d.offset)
  o.write (put_u64 d.size)

unfoldable pub read_cmd_read_at_struct_amd64 : Decoder CmdReadAtStruct
read_cmd_read_at_struct_amd64 = do
  fd_bytes ← read_full 4
  offset_bytes ← read_full 8
  size_bytes ← read_full 8
  pure (record {
    fd = u32_at fd_bytes 0;
    offset = u64_at offset_bytes 0;
    size = u64_at size_bytes 0;
  })

unfoldable pub write_cmd_write_at_struct_amd64 : {W : Type 0} → Writer W → CmdWriteAtStruct → Put W
write_cmd_write_at_struct_amd64 o d = do
  o.write (put_u32 d.fd)
  o.write (put_u64 d.offset)
  o.write d.payload

unfoldable pub read_cmd_write_at_struct_with_buffer_amd64 : ℕ → Decoder CmdWriteAtStruct
read_cmd_write_at_struct_with_buffer_amd64 size = do
  fd_bytes ← read_full 4
  offset_bytes ← read_full 8
  payload ← read_all_to_buffer size
  pure (record { fd = u32_at fd_bytes 0; offset = u64_at offset_bytes 0; payload = payload })

unfoldable pub write_cmd_write_stream_open_struct_amd64 :
    {W : Type 0} → Writer W → CmdWriteStreamOpenStruct → Put W
write_cmd_write_stream_open_struct_amd64 o d = do
  o.write (put_u32 d.fd)
  o.write (put_u64 d.offset)
  o.write d.payload

unfoldable pub read_cmd_write_stream_open_struct_with_buffer_amd64 :
    ℕ → Decoder CmdWriteStreamOpenStruct
read_cmd_write_stream_open_struct_with_buffer_amd64 size = do
  fd_bytes ← read_full 4
  offset_bytes ← read_full 8
  payload ← read_all_to_buffer size
  pure (record { fd = u32_at fd_bytes 0; offset = u64_at offset_bytes 0; payload = payload })

unfoldable pub write_cmd_write_stream_data_struct_amd64 :
    {W : Type 0} → Writer W → CmdWriteStreamDataStruct → Put W
write_cmd_write_stream_data_struct_amd64 o d = do o.write (put_u8 d.is_end); o.write d.payload

unfoldable pub read_cmd_write_stream_data_struct_with_buffer_amd64 :
    ℕ → Decoder CmdWriteStreamDataStruct
read_cmd_write_stream_data_struct_with_buffer_amd64 size = do
  is_end_bytes ← read_full 1
  payload ← read_all_to_buffer size
  pure (record { is_end = u8_at is_end_bytes 0; payload = payload })
