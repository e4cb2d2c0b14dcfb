-- ===== src/Wire/Amd64/Answers.antt =====
-- All answers in the codec for amd64, and that it keeps to the wire format.
use wsfs_core.Prelude.{refl}
use wsfs_core.Wire.Source.{Decoder, ReadsAll, ◌>>=◌, pure}
use wsfs_core.Wire.Source.Laws.{Reads-ReadsAll, ReadsAll-end}
use wsfs_core.Wire.Sink.{Writer, Put, Emits}
use wsfs_core.Wire.Response.{
  Response, IsResponse, response_bytes, error_rsp, open_rsp, read_link_rsp, write_rsp, seek_rsp,
  get_attr_rsp, fs_stat_rsp, write_at_rsp, copy_file_range_rsp, write_stream_close_rsp,
  get_file_lock_rsp,
}
use wsfs_core.Wire.Amd64.Rsp.{
  write_rsp_error_amd64, read_rsp_error_amd64, write_rsp_open_amd64, read_rsp_open_amd64,
  write_rsp_read_link_amd64, read_rsp_read_link_amd64, write_rsp_write_amd64, read_rsp_write_amd64,
  write_rsp_seek_amd64, read_rsp_seek_amd64, write_rsp_get_attr_amd64, read_rsp_get_attr_amd64,
  write_rsp_fs_stat_amd64, read_rsp_fs_stat_amd64, write_rsp_write_at_amd64,
  read_rsp_write_at_amd64, write_rsp_copy_file_range_amd64, read_rsp_copy_file_range_amd64,
  write_rsp_write_stream_close_amd64, read_rsp_write_stream_close_amd64,
  write_rsp_get_file_lock_amd64, read_rsp_get_file_lock_amd64,
}
use wsfs_core.Wire.Amd64.Rsp.Laws.{
  write_rsp_error_amd64-Emits, read_rsp_error_amd64-Reads, write_rsp_open_amd64-Emits,
  read_rsp_open_amd64-Reads, write_rsp_read_link_amd64-Emits, read_rsp_read_link_amd64-Reads,
  write_rsp_write_amd64-Emits, read_rsp_write_amd64-Reads, write_rsp_seek_amd64-Emits,
  read_rsp_seek_amd64-Reads, write_rsp_get_attr_amd64-Emits, read_rsp_get_attr_amd64-Reads,
  write_rsp_fs_stat_amd64-Emits, read_rsp_fs_stat_amd64-Reads, write_rsp_write_at_amd64-Emits,
  read_rsp_write_at_amd64-Reads, write_rsp_copy_file_range_amd64-Emits,
  read_rsp_copy_file_range_amd64-Reads, write_rsp_write_stream_close_amd64-Emits,
  read_rsp_write_stream_close_amd64-Reads, write_rsp_get_file_lock_amd64-Emits,
  read_rsp_get_file_lock_amd64-Reads,
}

unfoldable pub write_response_amd64 : {W : Type 0} → Writer W → Response → Put W
write_response_amd64 o (error_rsp d) = write_rsp_error_amd64 o d
write_response_amd64 o (open_rsp d) = write_rsp_open_amd64 o d
write_response_amd64 o (read_link_rsp d) = write_rsp_read_link_amd64 o d
write_response_amd64 o (write_rsp d) = write_rsp_write_amd64 o d
write_response_amd64 o (seek_rsp d) = write_rsp_seek_amd64 o d
write_response_amd64 o (get_attr_rsp d) = write_rsp_get_attr_amd64 o d
write_response_amd64 o (fs_stat_rsp d) = write_rsp_fs_stat_amd64 o d
write_response_amd64 o (write_at_rsp d) = write_rsp_write_at_amd64 o d
write_response_amd64 o (copy_file_range_rsp d) = write_rsp_copy_file_range_amd64 o d
write_response_amd64 o (write_stream_close_rsp d) = write_rsp_write_stream_close_amd64 o d
write_response_amd64 o (get_file_lock_rsp d) = write_rsp_get_file_lock_amd64 o d

-- The decoder for messages of the same kind as the given one.
unfoldable pub read_response_amd64 : Response → Decoder Response
read_response_amd64 (error_rsp d) = do payload ← read_rsp_error_amd64; pure (error_rsp payload)
read_response_amd64 (open_rsp d) = do payload ← read_rsp_open_amd64; pure (open_rsp payload)
read_response_amd64 (read_link_rsp d) = do
  payload ← read_rsp_read_link_amd64
  pure (read_link_rsp payload)
read_response_amd64 (write_rsp d) = do payload ← read_rsp_write_amd64; pure (write_rsp payload)
read_response_amd64 (seek_rsp d) = do payload ← read_rsp_seek_amd64; pure (seek_rsp payload)
read_response_amd64 (get_attr_rsp d) = do
  payload ← read_rsp_get_attr_amd64
  pure (get_attr_rsp payload)
read_response_amd64 (fs_stat_rsp d) = do
  payload ← read_rsp_fs_stat_amd64
  pure (fs_stat_rsp payload)
read_response_amd64 (write_at_rsp d) = do
  payload ← read_rsp_write_at_amd64
  pure (write_at_rsp payload)
read_response_amd64 (copy_file_range_rsp d) = do
  payload ← read_rsp_copy_file_range_amd64
  pure (copy_file_range_rsp payload)
read_response_amd64 (write_stream_close_rsp d) = do
  payload ← read_rsp_write_stream_close_amd64
  pure (write_stream_close_rsp payload)
read_response_amd64 (get_file_lock_rsp d) = do
  payload ← read_rsp_get_file_lock_amd64
  pure (get_file_lock_rsp payload)

pub write_response_amd64-Emits :
    {W : Type 0} (o : Writer W) (c : Response)
    → IsResponse c
    → Emits o (write_response_amd64 o c) (response_bytes c)
unfolding write_response_amd64
write_response_amd64-Emits o (error_rsp d) v = write_rsp_error_amd64-Emits o d v
write_response_amd64-Emits o (open_rsp d) v = write_rsp_open_amd64-Emits o d v
write_response_amd64-Emits o (read_link_rsp d) v = write_rsp_read_link_amd64-Emits o d v
write_response_amd64-Emits o (write_rsp d) v = write_rsp_write_amd64-Emits o d v
write_response_amd64-Emits o (seek_rsp d) v = write_rsp_seek_amd64-Emits o d v
write_response_amd64-Emits o (get_attr_rsp d) v = write_rsp_get_attr_amd64-Emits o d v
write_response_amd64-Emits o (fs_stat_rsp d) v = write_rsp_fs_stat_amd64-Emits o d v
write_response_amd64-Emits o (write_at_rsp d) v = write_rsp_write_at_amd64-Emits o d v
write_response_amd64-Emits o (copy_file_range_rsp d) v = write_rsp_copy_file_range_amd64-Emits o d v
write_response_amd64-Emits o (write_stream_close_rsp d) v =
    write_rsp_write_stream_close_amd64-Emits o d v
write_response_amd64-Emits o (get_file_lock_rsp d) v = write_rsp_get_file_lock_amd64-Emits o d v

pub read_response_amd64-ReadsAll :
    (c : Response) → IsResponse c → ReadsAll (read_response_amd64 c) (response_bytes c) c
unfolding read_response_amd64
read_response_amd64-ReadsAll (error_rsp d) v =
    ReadsAll-end error_rsp (Reads-ReadsAll (read_rsp_error_amd64-Reads d v)) refl
read_response_amd64-ReadsAll (open_rsp d) v =
    ReadsAll-end open_rsp (Reads-ReadsAll (read_rsp_open_amd64-Reads d v)) refl
read_response_amd64-ReadsAll (read_link_rsp d) v =
    ReadsAll-end read_link_rsp (Reads-ReadsAll (read_rsp_read_link_amd64-Reads d v)) refl
read_response_amd64-ReadsAll (write_rsp d) v =
    ReadsAll-end write_rsp (Reads-ReadsAll (read_rsp_write_amd64-Reads d v)) refl
read_response_amd64-ReadsAll (seek_rsp d) v =
    ReadsAll-end seek_rsp (Reads-ReadsAll (read_rsp_seek_amd64-Reads d v)) refl
read_response_amd64-ReadsAll (get_attr_rsp d) v =
    ReadsAll-end get_attr_rsp (Reads-ReadsAll (read_rsp_get_attr_amd64-Reads d v)) refl
read_response_amd64-ReadsAll (fs_stat_rsp d) v =
    ReadsAll-end fs_stat_rsp (Reads-ReadsAll (read_rsp_fs_stat_amd64-Reads d v)) refl
read_response_amd64-ReadsAll (write_at_rsp d) v =
    ReadsAll-end write_at_rsp (Reads-ReadsAll (read_rsp_write_at_amd64-Reads d v)) refl
read_response_amd64-ReadsAll (copy_file_range_rsp d) v =
    ReadsAll-end copy_file_range_rsp (Reads-ReadsAll (read_rsp_copy_file_range_amd64-Reads d v))
      refl
read_response_amd64-ReadsAll (write_stream_close_rsp d) v =
    ReadsAll-end write_stream_close_rsp
      (Reads-ReadsAll (read_rsp_write_stream_close_amd64-Reads d v)) refl
read_response_amd64-ReadsAll (get_file_lock_rsp d) v =
    ReadsAll-end get_file_lock_rsp (Reads-ReadsAll (read_rsp_get_file_lock_amd64-Reads d v)) refl
