-- ===== src/Wire/Response.antt =====
-- The answers that carry a struct: the server writes them with the encoder of the struct, and the
-- client, who knows what it asked for, reads them with its decoder.
use wsfs_core.Prelude.{◌≡◌, ◌<◌, ◌++◌, [], none, refl, length}
use wsfs_core.Wire.Bytes.{Bytes}
use wsfs_core.Wire.Source.{Decoder, ◌>>=◌, pure, ReadsAll, message, ok, Grain}
use wsfs_core.Wire.Source.Laws.{Reads-ReadsAll, ReadsAll-end}
use wsfs_core.Wire.Sink.{Writer, Put, Emits}
use wsfs_core.Wire.Rsp.{
  RspError, IsRspError, write_rsp_error, rsp_error_bytes, read_rsp_error, RspOpen, IsRspOpen,
  write_rsp_open, rsp_open_bytes, read_rsp_open, RspReadLink, IsRspReadLink, write_rsp_read_link,
  rsp_read_link_bytes, read_rsp_read_link, RspWrite, IsRspWrite, write_rsp_write, rsp_write_bytes,
  read_rsp_write, RspSeek, IsRspSeek, write_rsp_seek, rsp_seek_bytes, read_rsp_seek, RspGetAttr,
  IsRspGetAttr, write_rsp_get_attr, rsp_get_attr_bytes, read_rsp_get_attr, RspFsStat, IsRspFsStat,
  write_rsp_fs_stat, rsp_fs_stat_bytes, read_rsp_fs_stat, RspWriteAt, IsRspWriteAt,
  write_rsp_write_at, rsp_write_at_bytes, read_rsp_write_at, RspCopyFileRange, IsRspCopyFileRange,
  write_rsp_copy_file_range, rsp_copy_file_range_bytes, read_rsp_copy_file_range,
  RspWriteStreamClose, IsRspWriteStreamClose, write_rsp_write_stream_close,
  rsp_write_stream_close_bytes, read_rsp_write_stream_close, RspGetFileLock, IsRspGetFileLock,
  write_rsp_get_file_lock, rsp_get_file_lock_bytes, read_rsp_get_file_lock,
}
use wsfs_core.Wire.Rsp.Laws.{
  write_rsp_error-Emits, read_rsp_error-Reads, write_rsp_open-Emits, read_rsp_open-Reads,
  write_rsp_read_link-Emits, read_rsp_read_link-Reads, write_rsp_write-Emits, read_rsp_write-Reads,
  write_rsp_seek-Emits, read_rsp_seek-Reads, write_rsp_get_attr-Emits, read_rsp_get_attr-Reads,
  write_rsp_fs_stat-Emits, read_rsp_fs_stat-Reads, write_rsp_write_at-Emits,
  read_rsp_write_at-Reads, write_rsp_copy_file_range-Emits, read_rsp_copy_file_range-Reads,
  write_rsp_write_stream_close-Emits, read_rsp_write_stream_close-Reads,
  write_rsp_get_file_lock-Emits, read_rsp_get_file_lock-Reads,
}

pub data Response : Type 0 where
  error_rsp : RspError → Response
  open_rsp : RspOpen → Response
  read_link_rsp : RspReadLink → Response
  write_rsp : RspWrite → Response
  seek_rsp : RspSeek → Response
  get_attr_rsp : RspGetAttr → Response
  fs_stat_rsp : RspFsStat → Response
  write_at_rsp : RspWriteAt → Response
  copy_file_range_rsp : RspCopyFileRange → Response
  write_stream_close_rsp : RspWriteStreamClose → Response
  get_file_lock_rsp : RspGetFileLock → Response

abbrev pub IsResponse : Response → Type 0
IsResponse (error_rsp d) = IsRspError d
IsResponse (open_rsp d) = IsRspOpen d
IsResponse (read_link_rsp d) = IsRspReadLink d
IsResponse (write_rsp d) = IsRspWrite d
IsResponse (seek_rsp d) = IsRspSeek d
IsResponse (get_attr_rsp d) = IsRspGetAttr d
IsResponse (fs_stat_rsp d) = IsRspFsStat d
IsResponse (write_at_rsp d) = IsRspWriteAt d
IsResponse (copy_file_range_rsp d) = IsRspCopyFileRange d
IsResponse (write_stream_close_rsp d) = IsRspWriteStreamClose d
IsResponse (get_file_lock_rsp d) = IsRspGetFileLock d

abbrev pub response_bytes : Response → Bytes
response_bytes (error_rsp d) = rsp_error_bytes d
response_bytes (open_rsp d) = rsp_open_bytes d
response_bytes (read_link_rsp d) = rsp_read_link_bytes d
response_bytes (write_rsp d) = rsp_write_bytes d
response_bytes (seek_rsp d) = rsp_seek_bytes d
response_bytes (get_attr_rsp d) = rsp_get_attr_bytes d
response_bytes (fs_stat_rsp d) = rsp_fs_stat_bytes d
response_bytes (write_at_rsp d) = rsp_write_at_bytes d
response_bytes (copy_file_range_rsp d) = rsp_copy_file_range_bytes d
response_bytes (write_stream_close_rsp d) = rsp_write_stream_close_bytes d
response_bytes (get_file_lock_rsp d) = rsp_get_file_lock_bytes d

unfoldable pub write_response : {W : Type 0} → Writer W → Response → Put W
write_response o (error_rsp d) = write_rsp_error o d
write_response o (open_rsp d) = write_rsp_open o d
write_response o (read_link_rsp d) = write_rsp_read_link o d
write_response o (write_rsp d) = write_rsp_write o d
write_response o (seek_rsp d) = write_rsp_seek o d
write_response o (get_attr_rsp d) = write_rsp_get_attr o d
write_response o (fs_stat_rsp d) = write_rsp_fs_stat o d
write_response o (write_at_rsp d) = write_rsp_write_at o d
write_response o (copy_file_range_rsp d) = write_rsp_copy_file_range o d
write_response o (write_stream_close_rsp d) = write_rsp_write_stream_close o d
write_response o (get_file_lock_rsp d) = write_rsp_get_file_lock o d

-- The decoder for answers of the same kind as the given one.
unfoldable pub read_response_like : Response → Decoder Response
read_response_like (error_rsp d) = do rsp ← read_rsp_error; pure (error_rsp rsp)
read_response_like (open_rsp d) = do rsp ← read_rsp_open; pure (open_rsp rsp)
read_response_like (read_link_rsp d) = do rsp ← read_rsp_read_link; pure (read_link_rsp rsp)
read_response_like (write_rsp d) = do rsp ← read_rsp_write; pure (write_rsp rsp)
read_response_like (seek_rsp d) = do rsp ← read_rsp_seek; pure (seek_rsp rsp)
read_response_like (get_attr_rsp d) = do rsp ← read_rsp_get_attr; pure (get_attr_rsp rsp)
read_response_like (fs_stat_rsp d) = do rsp ← read_rsp_fs_stat; pure (fs_stat_rsp rsp)
read_response_like (write_at_rsp d) = do rsp ← read_rsp_write_at; pure (write_at_rsp rsp)
read_response_like (copy_file_range_rsp d) = do
  rsp ← read_rsp_copy_file_range
  pure (copy_file_range_rsp rsp)
read_response_like (write_stream_close_rsp d) = do
  rsp ← read_rsp_write_stream_close
  pure (write_stream_close_rsp rsp)
read_response_like (get_file_lock_rsp d) = do
  rsp ← read_rsp_get_file_lock
  pure (get_file_lock_rsp rsp)

pub write_response-Emits :
    {W : Type 0} (o : Writer W) (r : Response)
    → IsResponse r
    → Emits o (write_response o r) (response_bytes r)
unfolding write_response
write_response-Emits o (error_rsp d) v = write_rsp_error-Emits o d v
write_response-Emits o (open_rsp d) v = write_rsp_open-Emits o d v
write_response-Emits o (read_link_rsp d) v = write_rsp_read_link-Emits o d v
write_response-Emits o (write_rsp d) v = write_rsp_write-Emits o d v
write_response-Emits o (seek_rsp d) v = write_rsp_seek-Emits o d v
write_response-Emits o (get_attr_rsp d) v = write_rsp_get_attr-Emits o d v
write_response-Emits o (fs_stat_rsp d) v = write_rsp_fs_stat-Emits o d v
write_response-Emits o (write_at_rsp d) v = write_rsp_write_at-Emits o d v
write_response-Emits o (copy_file_range_rsp d) v = write_rsp_copy_file_range-Emits o d v
write_response-Emits o (write_stream_close_rsp d) v = write_rsp_write_stream_close-Emits o d v
write_response-Emits o (get_file_lock_rsp d) v = write_rsp_get_file_lock-Emits o d v

pub read_response_like-ReadsAll :
    (r : Response) → IsResponse r → ReadsAll (read_response_like r) (response_bytes r) r
unfolding read_response_like
read_response_like-ReadsAll (error_rsp d) v =
    ReadsAll-end error_rsp (Reads-ReadsAll (read_rsp_error-Reads d v)) refl
read_response_like-ReadsAll (open_rsp d) v =
    ReadsAll-end open_rsp (Reads-ReadsAll (read_rsp_open-Reads d v)) refl
read_response_like-ReadsAll (read_link_rsp d) v =
    ReadsAll-end read_link_rsp (Reads-ReadsAll (read_rsp_read_link-Reads d v)) refl
read_response_like-ReadsAll (write_rsp d) v =
    ReadsAll-end write_rsp (Reads-ReadsAll (read_rsp_write-Reads d v)) refl
read_response_like-ReadsAll (seek_rsp d) v =
    ReadsAll-end seek_rsp (Reads-ReadsAll (read_rsp_seek-Reads d v)) refl
read_response_like-ReadsAll (get_attr_rsp d) v =
    ReadsAll-end get_attr_rsp (Reads-ReadsAll (read_rsp_get_attr-Reads d v)) refl
read_response_like-ReadsAll (fs_stat_rsp d) v =
    ReadsAll-end fs_stat_rsp (Reads-ReadsAll (read_rsp_fs_stat-Reads d v)) refl
read_response_like-ReadsAll (write_at_rsp d) v =
    ReadsAll-end write_at_rsp (Reads-ReadsAll (read_rsp_write_at-Reads d v)) refl
read_response_like-ReadsAll (copy_file_range_rsp d) v =
    ReadsAll-end copy_file_range_rsp (Reads-ReadsAll (read_rsp_copy_file_range-Reads d v)) refl
read_response_like-ReadsAll (write_stream_close_rsp d) v =
    ReadsAll-end write_stream_close_rsp (Reads-ReadsAll (read_rsp_write_stream_close-Reads d v))
      refl
read_response_like-ReadsAll (get_file_lock_rsp d) v =
    ReadsAll-end get_file_lock_rsp (Reads-ReadsAll (read_rsp_get_file_lock-Reads d v)) refl

-- An answer whose struct is well formed and has room in the writer is written without an error behind
-- what the writer holds, and the client's decoder reads it back from those bytes, however they arrive,
-- with nothing left.
pub response_arrives :
    {W : Type 0} (o : Writer W) (w : W) (r : Response) (grain : Grain)
    → IsResponse r
    → length (response_bytes r) < o.room w
    → ((write_response o r w).1 ≡ none)
      × (o.content (write_response o r w).0 ≡ o.content w ++ response_bytes r)
      × (read_response_like r (message (response_bytes r) grain) ≡ ok r (message [] grain))
response_arrives o w r grain v fits =
    let e = write_response-Emits o r v in
    let sent = (e.completes w fits).0 in
    (sent, e.appends w sent, (read_response_like-ReadsAll r v).run_all grain)
