-- ===== src/Wire/Amd64/Rsp.antt =====
-- The codec for amd64, struct_amd64.gen.go: the responses.
pub mod Laws
use wsfs_core.Wire.Bytes.{put_u32, put_u64, u32_at, u64_at}
use wsfs_core.Wire.Source.{Decoder, ◌>>=◌, pure, read_full}
use wsfs_core.Wire.Sink.{Writer, Put, ◌>>◌}
use wsfs_core.Wire.Str.{write_str_to_writer, read_str_from_reader}
use wsfs_core.Wire.Rsp.{
  RspError, RspOpen, RspReadLink, RspWrite, RspSeek, RspGetAttr, RspFsStat, RspWriteAt,
  RspCopyFileRange, RspWriteStreamClose, RspGetFileLock,
}
use wsfs_core.Wire.Amd64.Attr.{
  write_file_info_amd64, read_file_info_amd64, write_file_lock_info_amd64,
  read_file_lock_info_amd64,
}

unfoldable pub write_rsp_error_amd64 : {W : Type 0} → Writer W → RspError → Put W
write_rsp_error_amd64 o d = do write_str_to_writer o d.desc

unfoldable pub read_rsp_error_amd64 : Decoder RspError
read_rsp_error_amd64 = do desc ← read_str_from_reader; pure (record { desc = desc })

unfoldable pub write_rsp_open_amd64 : {W : Type 0} → Writer W → RspOpen → Put W
write_rsp_open_amd64 o d = do o.write (put_u32 d.fd)

unfoldable pub read_rsp_open_amd64 : Decoder RspOpen
read_rsp_open_amd64 = do fd_bytes ← read_full 4; pure (record { fd = u32_at fd_bytes 0 })

unfoldable pub write_rsp_read_link_amd64 : {W : Type 0} → Writer W → RspReadLink → Put W
write_rsp_read_link_amd64 o d = do write_str_to_writer o d.target_path

unfoldable pub read_rsp_read_link_amd64 : Decoder RspReadLink
read_rsp_read_link_amd64 = do
  target_path ← read_str_from_reader
  pure (record { target_path = target_path })

unfoldable pub write_rsp_write_amd64 : {W : Type 0} → Writer W → RspWrite → Put W
write_rsp_write_amd64 o d = do o.write (put_u64 d.written)

unfoldable pub read_rsp_write_amd64 : Decoder RspWrite
read_rsp_write_amd64 = do
  written_bytes ← read_full 8
  pure (record { written = u64_at written_bytes 0 })

unfoldable pub write_rsp_seek_amd64 : {W : Type 0} → Writer W → RspSeek → Put W
write_rsp_seek_amd64 o d = do o.write (put_u64 d.offset)

unfoldable pub read_rsp_seek_amd64 : Decoder RspSeek
read_rsp_seek_amd64 = do
  offset_bytes ← read_full 8
  pure (record { offset = u64_at offset_bytes 0 })

unfoldable pub write_rsp_get_attr_amd64 : {W : Type 0} → Writer W → RspGetAttr → Put W
write_rsp_get_attr_amd64 o d = do write_file_info_amd64 o d.fi

unfoldable pub read_rsp_get_attr_amd64 : Decoder RspGetAttr
read_rsp_get_attr_amd64 = do fi ← read_file_info_amd64; pure (record { fi = fi })

unfoldable pub write_rsp_fs_stat_amd64 : {W : Type 0} → Writer W → RspFsStat → Put W
write_rsp_fs_stat_amd64 o d = do
  o.write (put_u64 d.total)
  o.write (put_u64 d.free)
  o.write (put_u64 d.available)

unfoldable pub read_rsp_fs_stat_amd64 : Decoder RspFsStat
read_rsp_fs_stat_amd64 = do
  total_bytes ← read_full 8
  free_bytes ← read_full 8
  available_bytes ← read_full 8
  pure (record {
    total = u64_at total_bytes 0;
    free = u64_at free_bytes 0;
    available = u64_at available_bytes 0;
  })

unfoldable pub write_rsp_write_at_amd64 : {W : Type 0} → Writer W → RspWriteAt → Put W
write_rsp_write_at_amd64 o d = do o.write (put_u64 d.written)

unfoldable pub read_rsp_write_at_amd64 : Decoder RspWriteAt
read_rsp_write_at_amd64 = do
  written_bytes ← read_full 8
  pure (record { written = u64_at written_bytes 0 })

unfoldable pub write_rsp_copy_file_range_amd64 : {W : Type 0} → Writer W → RspCopyFileRange → Put W
write_rsp_copy_file_range_amd64 o d = do o.write (put_u64 d.copied)

unfoldable pub read_rsp_copy_file_range_amd64 : Decoder RspCopyFileRange
read_rsp_copy_file_range_amd64 = do
  copied_bytes ← read_full 8
  pure (record { copied = u64_at copied_bytes 0 })

unfoldable pub write_rsp_write_stream_close_amd64 :
    {W : Type 0} → Writer W → RspWriteStreamClose → Put W
write_rsp_write_stream_close_amd64 o d = do o.write (put_u64 d.written)

unfoldable pub read_rsp_write_stream_close_amd64 : Decoder RspWriteStreamClose
read_rsp_write_stream_close_amd64 = do
  written_bytes ← read_full 8
  pure (record { written = u64_at written_bytes 0 })

unfoldable pub write_rsp_get_file_lock_amd64 : {W : Type 0} → Writer W → RspGetFileLock → Put W
write_rsp_get_file_lock_amd64 o d = do write_file_lock_info_amd64 o d.file_lock

unfoldable pub read_rsp_get_file_lock_amd64 : Decoder RspGetFileLock
read_rsp_get_file_lock_amd64 = do
  file_lock ← read_file_lock_info_amd64
  pure (record { file_lock = file_lock })
