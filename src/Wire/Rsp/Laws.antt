-- ===== src/Wire/Rsp/Laws.antt =====
-- The size, the encoding and the decoding of the responses that carry a payload of fixed shape.
use wsfs_core.Prelude.{◌≡◌, ◌++◌, length, arith}
use wsfs_core.Wire.Bytes.{put_u32, put_u64, u32_at, u64_at, get-put_u32, get-put_u64}
use wsfs_core.Wire.Source.{Reads}
use wsfs_core.Wire.Source.Laws.{Reads-end, read_full-Reads}
use wsfs_core.Wire.Sink.{Writer, Emits, write-Emits}
use wsfs_core.Wire.Str.{write_str-Emits, read_str-Reads}
use wsfs_core.Wire.Rsp.{
  RspError, IsRspError, get_rsp_error_required_size, write_rsp_error, rsp_error_bytes,
  read_rsp_error, RspOpen, IsRspOpen, get_rsp_open_required_size, write_rsp_open, rsp_open_bytes,
  read_rsp_open, RspReadLink, IsRspReadLink, get_rsp_read_link_required_size, write_rsp_read_link,
  rsp_read_link_bytes, read_rsp_read_link, RspWrite, IsRspWrite, get_rsp_write_required_size,
  write_rsp_write, rsp_write_bytes, read_rsp_write, RspSeek, IsRspSeek, get_rsp_seek_required_size,
  write_rsp_seek, rsp_seek_bytes, read_rsp_seek, RspGetAttr, IsRspGetAttr,
  get_rsp_get_attr_required_size, write_rsp_get_attr, rsp_get_attr_bytes, read_rsp_get_attr,
  RspFsStat, IsRspFsStat, get_rsp_fs_stat_required_size, write_rsp_fs_stat, rsp_fs_stat_bytes,
  read_rsp_fs_stat, RspWriteAt, IsRspWriteAt, get_rsp_write_at_required_size, write_rsp_write_at,
  rsp_write_at_bytes, read_rsp_write_at, RspCopyFileRange, IsRspCopyFileRange,
  get_rsp_copy_file_range_required_size, write_rsp_copy_file_range, rsp_copy_file_range_bytes,
  read_rsp_copy_file_range, RspWriteStreamClose, IsRspWriteStreamClose,
  get_rsp_write_stream_close_required_size, write_rsp_write_stream_close,
  rsp_write_stream_close_bytes, read_rsp_write_stream_close, RspGetFileLock, IsRspGetFileLock,
  get_rsp_get_file_lock_required_size, write_rsp_get_file_lock, rsp_get_file_lock_bytes,
  read_rsp_get_file_lock,
}
use wsfs_core.Wire.Attr.Laws.{
  write_file_info-Emits, read_file_info-Reads, write_file_lock_info-Emits,
  read_file_lock_info-Reads,
}

pub length-rsp_error_bytes :
    (d : RspError) → length (rsp_error_bytes d) ≡ get_rsp_error_required_size d
unfolding get_rsp_error_required_size
length-rsp_error_bytes d = omega arith

pub write_rsp_error-Emits :
    {W : Type 0} (o : Writer W) (d : RspError)
    → IsRspError d
    → Emits o (write_rsp_error o d) (rsp_error_bytes d)
unfolding write_rsp_error
write_rsp_error-Emits o d v = write_str-Emits o d.desc v

pub read_rsp_error-Reads :
    (d : RspError) → IsRspError d → Reads (read_rsp_error) (rsp_error_bytes d) d
unfolding read_rsp_error
read_rsp_error-Reads d v =
    Reads-end (λ desc. record { desc = desc }) (read_str-Reads d.desc v)
      (λ i. record { desc = d.desc })

pub length-rsp_open_bytes : (d : RspOpen) → length (rsp_open_bytes d) ≡ get_rsp_open_required_size d
unfolding get_rsp_open_required_size
length-rsp_open_bytes d = omega arith

pub write_rsp_open-Emits :
    {W : Type 0} (o : Writer W) (d : RspOpen)
    → IsRspOpen d
    → Emits o (write_rsp_open o d) (rsp_open_bytes d)
unfolding write_rsp_open
write_rsp_open-Emits o d v = write-Emits o _

pub read_rsp_open-Reads : (d : RspOpen) → IsRspOpen d → Reads (read_rsp_open) (rsp_open_bytes d) d
unfolding read_rsp_open
read_rsp_open-Reads d v =
    Reads-end (λ buf. record { fd = u32_at buf 0 }) (read_full-Reads (put_u32 d.fd))
      (λ i. record { fd = get-put_u32 d.fd v i })

pub length-rsp_read_link_bytes :
    (d : RspReadLink) → length (rsp_read_link_bytes d) ≡ get_rsp_read_link_required_size d
unfolding get_rsp_read_link_required_size
length-rsp_read_link_bytes d = omega arith

pub write_rsp_read_link-Emits :
    {W : Type 0} (o : Writer W) (d : RspReadLink)
    → IsRspReadLink d
    → Emits o (write_rsp_read_link o d) (rsp_read_link_bytes d)
unfolding write_rsp_read_link
write_rsp_read_link-Emits o d v = write_str-Emits o d.target_path v

pub read_rsp_read_link-Reads :
    (d : RspReadLink) → IsRspReadLink d → Reads (read_rsp_read_link) (rsp_read_link_bytes d) d
unfolding read_rsp_read_link
read_rsp_read_link-Reads d v =
    Reads-end (λ target_path. record { target_path = target_path }) (read_str-Reads d.target_path v)
      (λ i. record { target_path = d.target_path })

pub length-rsp_write_bytes :
    (d : RspWrite) → length (rsp_write_bytes d) ≡ get_rsp_write_required_size d
unfolding get_rsp_write_required_size
length-rsp_write_bytes d = omega arith

pub write_rsp_write-Emits :
    {W : Type 0} (o : Writer W) (d : RspWrite)
    → IsRspWrite d
    → Emits o (write_rsp_write o d) (rsp_write_bytes d)
unfolding write_rsp_write
write_rsp_write-Emits o d v = write-Emits o _

pub read_rsp_write-Reads :
    (d : RspWrite) → IsRspWrite d → Reads (read_rsp_write) (rsp_write_bytes d) d
unfolding read_rsp_write
read_rsp_write-Reads d v =
    Reads-end (λ buf. record { written = u64_at buf 0 }) (read_full-Reads (put_u64 d.written))
      (λ i. record { written = get-put_u64 d.written v i })

pub length-rsp_seek_bytes : (d : RspSeek) → length (rsp_seek_bytes d) ≡ get_rsp_seek_required_size d
unfolding get_rsp_seek_required_size
length-rsp_seek_bytes d = omega arith

pub write_rsp_seek-Emits :
    {W : Type 0} (o : Writer W) (d : RspSeek)
    → IsRspSeek d
    → Emits o (write_rsp_seek o d) (rsp_seek_bytes d)
unfolding write_rsp_seek
write_rsp_seek-Emits o d v = write-Emits o _

pub read_rsp_seek-Reads : (d : RspSeek) → IsRspSeek d → Reads (read_rsp_seek) (rsp_seek_bytes d) d
unfolding read_rsp_seek
read_rsp_seek-Reads d v =
    Reads-end (λ buf. record { offset = u64_at buf 0 }) (read_full-Reads (put_u64 d.offset))
      (λ i. record { offset = get-put_u64 d.offset v i })

pub length-rsp_get_attr_bytes :
    (d : RspGetAttr) → length (rsp_get_attr_bytes d) ≡ get_rsp_get_attr_required_size d
unfolding get_rsp_get_attr_required_size
length-rsp_get_attr_bytes d = omega arith

pub write_rsp_get_attr-Emits :
    {W : Type 0} (o : Writer W) (d : RspGetAttr)
    → IsRspGetAttr d
    → Emits o (write_rsp_get_attr o d) (rsp_get_attr_bytes d)
unfolding write_rsp_get_attr
write_rsp_get_attr-Emits o d v = write_file_info-Emits o d.fi v

pub read_rsp_get_attr-Reads :
    (d : RspGetAttr) → IsRspGetAttr d → Reads (read_rsp_get_attr) (rsp_get_attr_bytes d) d
unfolding read_rsp_get_attr
read_rsp_get_attr-Reads d v =
    Reads-end (λ fi. record { fi = fi }) (read_file_info-Reads d.fi v) (λ i. record { fi = d.fi })

pub length-rsp_fs_stat_bytes :
    (d : RspFsStat) → length (rsp_fs_stat_bytes d) ≡ get_rsp_fs_stat_required_size d
unfolding get_rsp_fs_stat_required_size
length-rsp_fs_stat_bytes d = omega arith

pub write_rsp_fs_stat-Emits :
    {W : Type 0} (o : Writer W) (d : RspFsStat)
    → IsRspFsStat d
    → Emits o (write_rsp_fs_stat o d) (rsp_fs_stat_bytes d)
unfolding write_rsp_fs_stat
write_rsp_fs_stat-Emits o d v = write-Emits o _

pub read_rsp_fs_stat-Reads :
    (d : RspFsStat) → IsRspFsStat d → Reads (read_rsp_fs_stat) (rsp_fs_stat_bytes d) d
unfolding read_rsp_fs_stat
read_rsp_fs_stat-Reads d v =
    Reads-end
      (λ buf. record { total = u64_at buf 0; free = u64_at buf 8; available = u64_at buf 16 })
      (read_full-Reads (put_u64 d.total ++ put_u64 d.free ++ put_u64 d.available))
      (λ i. record {
        total = get-put_u64 d.total v.0 i;
        free = get-put_u64 d.free v.1 i;
        available = get-put_u64 d.available v.2 i;
      })

pub length-rsp_write_at_bytes :
    (d : RspWriteAt) → length (rsp_write_at_bytes d) ≡ get_rsp_write_at_required_size d
unfolding get_rsp_write_at_required_size
length-rsp_write_at_bytes d = omega arith

pub write_rsp_write_at-Emits :
    {W : Type 0} (o : Writer W) (d : RspWriteAt)
    → IsRspWriteAt d
    → Emits o (write_rsp_write_at o d) (rsp_write_at_bytes d)
unfolding write_rsp_write_at
write_rsp_write_at-Emits o d v = write-Emits o _

pub read_rsp_write_at-Reads :
    (d : RspWriteAt) → IsRspWriteAt d → Reads (read_rsp_write_at) (rsp_write_at_bytes d) d
unfolding read_rsp_write_at
read_rsp_write_at-Reads d v =
    Reads-end (λ buf. record { written = u64_at buf 0 }) (read_full-Reads (put_u64 d.written))
      (λ i. record { written = get-put_u64 d.written v i })

pub length-rsp_copy_file_range_bytes :
    (d : RspCopyFileRange)
    → length (rsp_copy_file_range_bytes d) ≡ get_rsp_copy_file_range_required_size d
unfolding get_rsp_copy_file_range_required_size
length-rsp_copy_file_range_bytes d = omega arith

pub write_rsp_copy_file_range-Emits :
    {W : Type 0} (o : Writer W) (d : RspCopyFileRange)
    → IsRspCopyFileRange d
    → Emits o (write_rsp_copy_file_range o d) (rsp_copy_file_range_bytes d)
unfolding write_rsp_copy_file_range
write_rsp_copy_file_range-Emits o d v = write-Emits o _

pub read_rsp_copy_file_range-Reads :
    (d : RspCopyFileRange)
    → IsRspCopyFileRange d
    → Reads (read_rsp_copy_file_range) (rsp_copy_file_range_bytes d) d
unfolding read_rsp_copy_file_range
read_rsp_copy_file_range-Reads d v =
    Reads-end (λ buf. record { copied = u64_at buf 0 }) (read_full-Reads (put_u64 d.copied))
      (λ i. record { copied = get-put_u64 d.copied v i })

pub length-rsp_write_stream_close_bytes :
    (d : RspWriteStreamClose)
    → length (rsp_write_stream_close_bytes d) ≡ get_rsp_write_stream_close_required_size d
unfolding get_rsp_write_stream_close_required_size
length-rsp_write_stream_close_bytes d = omega arith

pub write_rsp_write_stream_close-Emits :
    {W : Type 0} (o : Writer W) (d : RspWriteStreamClose)
    → IsRspWriteStreamClose d
    → Emits o (write_rsp_write_stream_close o d) (rsp_write_stream_close_bytes d)
unfolding write_rsp_write_stream_close
write_rsp_write_stream_close-Emits o d v = write-Emits o _

pub read_rsp_write_stream_close-Reads :
    (d : RspWriteStreamClose)
    → IsRspWriteStreamClose d
    → Reads (read_rsp_write_stream_close) (rsp_write_stream_close_bytes d) d
unfolding read_rsp_write_stream_close
read_rsp_write_stream_close-Reads d v =
    Reads-end (λ buf. record { written = u64_at buf 0 }) (read_full-Reads (put_u64 d.written))
      (λ i. record { written = get-put_u64 d.written v i })

pub length-rsp_get_file_lock_bytes :
    (d : RspGetFileLock)
    → length (rsp_get_file_lock_bytes d) ≡ get_rsp_get_file_lock_required_size d
unfolding get_rsp_get_file_lock_required_size
length-rsp_get_file_lock_bytes d = omega arith

pub write_rsp_get_file_lock-Emits :
    {W : Type 0} (o : Writer W) (d : RspGetFileLock)
    → IsRspGetFileLock d
    → Emits o (write_rsp_get_file_lock o d) (rsp_get_file_lock_bytes d)
unfolding write_rsp_get_file_lock
write_rsp_get_file_lock-Emits o d v = write_file_lock_info-Emits o d.file_lock v

pub read_rsp_get_file_lock-Reads :
    (d : RspGetFileLock)
    → IsRspGetFileLock d
    → Reads (read_rsp_get_file_lock) (rsp_get_file_lock_bytes d) d
unfolding read_rsp_get_file_lock
read_rsp_get_file_lock-Reads d v =
    Reads-end (λ file_lock. record { file_lock = file_lock })
      (read_file_lock_info-Reads d.file_lock v) (λ i. record { file_lock = d.file_lock })
