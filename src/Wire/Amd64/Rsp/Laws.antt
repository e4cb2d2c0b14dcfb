-- ===== src/Wire/Amd64/Rsp/Laws.antt =====
-- The codec for amd64 against the wire format: the responses.
use wsfs_core.Wire.Bytes.{put_u32, put_u64, u32_at, u64_at, get-put_u32, get-put_u64}
use wsfs_core.Wire.Source.{Reads}
use wsfs_core.Wire.Source.Laws.{Reads-bind, Reads-end, read_full-Reads}
use wsfs_core.Wire.Sink.{Writer, Emits, write-Emits, >>-Emits}
use wsfs_core.Wire.Str.{write_str-Emits, read_str-Reads}
use wsfs_core.Wire.Rsp.{
  RspError, RspOpen, RspReadLink, RspWrite, RspSeek, RspGetAttr, RspFsStat, RspWriteAt,
  RspCopyFileRange, RspWriteStreamClose, RspGetFileLock, IsRspError, IsRspOpen, IsRspReadLink,
  IsRspWrite, IsRspSeek, IsRspGetAttr, IsRspFsStat, IsRspWriteAt, IsRspCopyFileRange,
  IsRspWriteStreamClose, IsRspGetFileLock, rsp_error_bytes, rsp_open_bytes, rsp_read_link_bytes,
  rsp_write_bytes, rsp_seek_bytes, rsp_get_attr_bytes, rsp_fs_stat_bytes, rsp_write_at_bytes,
  rsp_copy_file_range_bytes, rsp_write_stream_close_bytes, rsp_get_file_lock_bytes,
}
use wsfs_core.Wire.Amd64.Attr.Laws.{
  write_file_info_amd64-Emits, read_file_info_amd64-Reads, write_file_lock_info_amd64-Emits,
  read_file_lock_info_amd64-Reads,
}
use wsfs_core.Wire.Amd64.Rsp.{
  write_rsp_error_amd64, read_rsp_error_amd64, write_rsp_open_amd64, read_rsp_open_amd64,
  write_rsp_read_link_amd64, read_rsp_read_link_amd64, write_rsp_write_amd64, read_rsp_write_amd64,
  write_rsp_seek_amd64, read_rsp_seek_amd64, write_rsp_get_attr_amd64, read_rsp_get_attr_amd64,
  write_rsp_fs_stat_amd64, read_rsp_fs_stat_amd64, write_rsp_write_at_amd64,
  read_rsp_write_at_amd64, write_rsp_copy_file_range_amd64, read_rsp_copy_file_range_amd64,
  write_rsp_write_stream_close_amd64, read_rsp_write_stream_close_amd64,
  write_rsp_get_file_lock_amd64, read_rsp_get_file_lock_amd64,
}

pub write_rsp_error_amd64-Emits :
    {W : Type 0} (o : Writer W) (d : RspError)
    → IsRspError d
    → Emits o (write_rsp_error_amd64 o d) (rsp_error_bytes d)
unfolding write_rsp_error_amd64
write_rsp_error_amd64-Emits o d v = write_str-Emits o d.desc v

pub read_rsp_error_amd64-Reads :
    (d : RspError) → IsRspError d → Reads read_rsp_error_amd64 (rsp_error_bytes d) d
unfolding read_rsp_error_amd64
read_rsp_error_amd64-Reads d v =
    Reads-end (λ desc. record { desc = desc }) (read_str-Reads d.desc v)
      (λ i. record { desc = d.desc })

pub write_rsp_open_amd64-Emits :
    {W : Type 0} (o : Writer W) (d : RspOpen)
    → IsRspOpen d
    → Emits o (write_rsp_open_amd64 o d) (rsp_open_bytes d)
unfolding write_rsp_open_amd64
write_rsp_open_amd64-Emits o d v = write-Emits o _

pub read_rsp_open_amd64-Reads :
    (d : RspOpen) → IsRspOpen d → Reads read_rsp_open_amd64 (rsp_open_bytes d) d
unfolding read_rsp_open_amd64
read_rsp_open_amd64-Reads d v =
    Reads-end (λ fd_bytes. record { fd = u32_at fd_bytes 0 }) (read_full-Reads (put_u32 d.fd))
      (λ i. record { fd = get-put_u32 d.fd v i })

pub write_rsp_read_link_amd64-Emits :
    {W : Type 0} (o : Writer W) (d : RspReadLink)
    → IsRspReadLink d
    → Emits o (write_rsp_read_link_amd64 o d) (rsp_read_link_bytes d)
unfolding write_rsp_read_link_amd64
write_rsp_read_link_amd64-Emits o d v = write_str-Emits o d.target_path v

pub read_rsp_read_link_amd64-Reads :
    (d : RspReadLink) → IsRspReadLink d → Reads read_rsp_read_link_amd64 (rsp_read_link_bytes d) d
unfolding read_rsp_read_link_amd64
read_rsp_read_link_amd64-Reads d v =
    Reads-end (λ target_path. record { target_path = target_path }) (read_str-Reads d.target_path v)
      (λ i. record { target_path = d.target_path })

pub write_rsp_write_amd64-Emits :
    {W : Type 0} (o : Writer W) (d : RspWrite)
    → IsRspWrite d
    → Emits o (write_rsp_write_amd64 o d) (rsp_write_bytes d)
unfolding write_rsp_write_amd64
write_rsp_write_amd64-Emits o d v = write-Emits o _

pub read_rsp_write_amd64-Reads :
    (d : RspWrite) → IsRspWrite d → Reads read_rsp_write_amd64 (rsp_write_bytes d) d
unfolding read_rsp_write_amd64
read_rsp_write_amd64-Reads d v =
    Reads-end (λ written_bytes. record { written = u64_at written_bytes 0 })
      (read_full-Reads (put_u64 d.written)) (λ i. record { written = get-put_u64 d.written v i })

pub write_rsp_seek_amd64-Emits :
    {W : Type 0} (o : Writer W) (d : RspSeek)
    → IsRspSeek d
    → Emits o (write_rsp_seek_amd64 o d) (rsp_seek_bytes d)
unfolding write_rsp_seek_amd64
write_rsp_seek_amd64-Emits o d v = write-Emits o _

pub read_rsp_seek_amd64-Reads :
    (d : RspSeek) → IsRspSeek d → Reads read_rsp_seek_amd64 (rsp_seek_bytes d) d
unfolding read_rsp_seek_amd64
read_rsp_seek_amd64-Reads d v =
    Reads-end (λ offset_bytes. record { offset = u64_at offset_bytes 0 })
      (read_full-Reads (put_u64 d.offset)) (λ i. record { offset = get-put_u64 d.offset v i })

pub write_rsp_get_attr_amd64-Emits :
    {W : Type 0} (o : Writer W) (d : RspGetAttr)
    → IsRspGetAttr d
    → Emits o (write_rsp_get_attr_amd64 o d) (rsp_get_attr_bytes d)
unfolding write_rsp_get_attr_amd64
write_rsp_get_attr_amd64-Emits o d v = write_file_info_amd64-Emits o d.fi v

pub read_rsp_get_attr_amd64-Reads :
    (d : RspGetAttr) → IsRspGetAttr d → Reads read_rsp_get_attr_amd64 (rsp_get_attr_bytes d) d
unfolding read_rsp_get_attr_amd64
read_rsp_get_attr_amd64-Reads d v =
    Reads-end (λ fi. record { fi = fi }) (read_file_info_amd64-Reads d.fi v)
      (λ i. record { fi = d.fi })

pub write_rsp_fs_stat_amd64-Emits :
    {W : Type 0} (o : Writer W) (d : RspFsStat)
    → IsRspFsStat d
    → Emits o (write_rsp_fs_stat_amd64 o d) (rsp_fs_stat_bytes d)
unfolding write_rsp_fs_stat_amd64
write_rsp_fs_stat_amd64-Emits o d v =
    >>-Emits o (write-Emits o _) (>>-Emits o (write-Emits o _) (write-Emits o _))

pub read_rsp_fs_stat_amd64-Reads :
    (d : RspFsStat) → IsRspFsStat d → Reads read_rsp_fs_stat_amd64 (rsp_fs_stat_bytes d) d
unfolding read_rsp_fs_stat_amd64
read_rsp_fs_stat_amd64-Reads d v = Reads-bind _ (read_full-Reads (put_u64 d.total)) (
    Reads-bind _ (read_full-Reads (put_u64 d.free)) (
      Reads-end
        (λ available_bytes. record {
          total = u64_at (put_u64 d.total) 0;
          free = u64_at (put_u64 d.free) 0;
          available = u64_at available_bytes 0;
        })
        (read_full-Reads (put_u64 d.available))
        (λ i. record {
          total = get-put_u64 d.total v.0 i;
          free = get-put_u64 d.free v.1 i;
          available = get-put_u64 d.available v.2 i;
        })))

pub write_rsp_write_at_amd64-Emits :
    {W : Type 0} (o : Writer W) (d : RspWriteAt)
    → IsRspWriteAt d
    → Emits o (write_rsp_write_at_amd64 o d) (rsp_write_at_bytes d)
unfolding write_rsp_write_at_amd64
write_rsp_write_at_amd64-Emits o d v = write-Emits o _

pub read_rsp_write_at_amd64-Reads :
    (d : RspWriteAt) → IsRspWriteAt d → Reads read_rsp_write_at_amd64 (rsp_write_at_bytes d) d
unfolding read_rsp_write_at_amd64
read_rsp_write_at_amd64-Reads d v =
    Reads-end (λ written_bytes. record { written = u64_at written_bytes 0 })
      (read_full-Reads (put_u64 d.written)) (λ i. record { written = get-put_u64 d.written v i })

pub write_rsp_copy_file_range_amd64-Emits :
    {W : Type 0} (o : Writer W) (d : RspCopyFileRange)
    → IsRspCopyFileRange d
    → Emits o (write_rsp_copy_file_range_amd64 o d) (rsp_copy_file_range_bytes d)
unfolding write_rsp_copy_file_range_amd64
write_rsp_copy_file_range_amd64-Emits o d v = write-Emits o _

pub read_rsp_copy_file_range_amd64-Reads :
    (d : RspCopyFileRange)
    → IsRspCopyFileRange d
    → Reads read_rsp_copy_file_range_amd64 (rsp_copy_file_range_bytes d) d
unfolding read_rsp_copy_file_range_amd64
read_rsp_copy_file_range_amd64-Reads d v =
    Reads-end (λ copied_bytes. record { copied = u64_at copied_bytes 0 })
      (read_full-Reads (put_u64 d.copied)) (λ i. record { copied = get-put_u64 d.copied v i })

pub write_rsp_write_stream_close_amd64-Emits :
    {W : Type 0} (o : Writer W) (d : RspWriteStreamClose)
    → IsRspWriteStreamClose d
    → Emits o (write_rsp_write_stream_close_amd64 o d) (rsp_write_stream_close_bytes d)
unfolding write_rsp_write_stream_close_amd64
write_rsp_write_stream_close_amd64-Emits o d v = write-Emits o _

pub read_rsp_write_stream_close_amd64-Reads :
    (d : RspWriteStreamClose)
    → IsRspWriteStreamClose d
    → Reads read_rsp_write_stream_close_amd64 (rsp_write_stream_close_bytes d) d
unfolding read_rsp_write_stream_close_amd64
read_rsp_write_stream_close_amd64-Reads d v =
    Reads-end (λ written_bytes. record { written = u64_at written_bytes 0 })
      (read_full-Reads (put_u64 d.written)) (λ i. record { written = get-put_u64 d.written v i })

pub write_rsp_get_file_lock_amd64-Emits :
    {W : Type 0} (o : Writer W) (d : RspGetFileLock)
    → IsRspGetFileLock d
    → Emits o (write_rsp_get_file_lock_amd64 o d) (rsp_get_file_lock_bytes d)
unfolding write_rsp_get_file_lock_amd64
write_rsp_get_file_lock_amd64-Emits o d v = write_file_lock_info_amd64-Emits o d.file_lock v

pub read_rsp_get_file_lock_amd64-Reads :
    (d : RspGetFileLock)
    → IsRspGetFileLock d
    → Reads read_rsp_get_file_lock_amd64 (rsp_get_file_lock_bytes d) d
unfolding read_rsp_get_file_lock_amd64
read_rsp_get_file_lock_amd64-Reads d v =
    Reads-end (λ file_lock. record { file_lock = file_lock })
      (read_file_lock_info_amd64-Reads d.file_lock v) (λ i. record { file_lock = d.file_lock })
