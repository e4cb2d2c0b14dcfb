-- ===== src/Wire/Amd64/Attr/Laws.antt =====
-- The codec for amd64 against the wire format: the structs that other structs hold.
use wsfs_core.Wire.Bytes.{
  put_u8, put_u32, put_u64, put_i64, u8_at, u32_at, u64_at, i64_at, get-put_u8, get-put_u32,
  get-put_u64, get-put_i64,
}
use wsfs_core.Wire.Source.{Reads}
use wsfs_core.Wire.Source.Laws.{Reads-bind, Reads-end, read_full-Reads}
use wsfs_core.Wire.Sink.{Writer, Emits, write-Emits, >>-Emits}
use wsfs_core.Wire.Str.{write_str-Emits, read_str-Reads}
use wsfs_core.Wire.Attr.{
  Timespec, FileInfo, Dirent, FileLockInfo, IsTimespec, IsFileInfo, IsDirent, IsFileLockInfo,
  timespec_bytes, file_info_bytes, dirent_bytes, file_lock_info_bytes,
}
use wsfs_core.Wire.Amd64.Attr.{
  write_timespec_amd64, read_timespec_amd64, write_file_info_amd64, read_file_info_amd64,
  write_dirent_amd64, read_dirent_amd64, write_file_lock_info_amd64, read_file_lock_info_amd64,
}

pub write_timespec_amd64-Emits :
    {W : Type 0} (o : Writer W) (d : Timespec)
    → IsTimespec d
    → Emits o (write_timespec_amd64 o d) (timespec_bytes d)
unfolding write_timespec_amd64
write_timespec_amd64-Emits o d v = >>-Emits o (write-Emits o _) (write-Emits o _)

pub read_timespec_amd64-Reads :
    (d : Timespec) → IsTimespec d → Reads read_timespec_amd64 (timespec_bytes d) d
unfolding read_timespec_amd64
read_timespec_amd64-Reads d v = Reads-bind _ (read_full-Reads (put_i64 d.seconds)) (
    Reads-end
      (λ nanoseconds_bytes. record {
        seconds = i64_at (put_i64 d.seconds) 0;
        nanoseconds = i64_at nanoseconds_bytes 0;
      })
      (read_full-Reads (put_i64 d.nanoseconds))
      (λ i. record {
        seconds = get-put_i64 d.seconds v.0 i;
        nanoseconds = get-put_i64 d.nanoseconds v.1 i;
      }))

pub write_file_info_amd64-Emits :
    {W : Type 0} (o : Writer W) (d : FileInfo)
    → IsFileInfo d
    → Emits o (write_file_info_amd64 o d) (file_info_bytes d)
unfolding write_file_info_amd64
write_file_info_amd64-Emits o d v = >>-Emits o (write-Emits o _) (
    >>-Emits o (write_timespec_amd64-Emits o d.mtime v.1)
      (>>-Emits o (write-Emits o _) (write-Emits o _)))

pub read_file_info_amd64-Reads :
    (d : FileInfo) → IsFileInfo d → Reads read_file_info_amd64 (file_info_bytes d) d
unfolding read_file_info_amd64
read_file_info_amd64-Reads d v = Reads-bind _ (read_full-Reads (put_u64 d.size)) (
    Reads-bind _ (read_timespec_amd64-Reads d.mtime v.1) (
      Reads-bind _ (read_full-Reads (put_u32 d.mode)) (
        Reads-end
          (λ owner_bytes. record {
            size = u64_at (put_u64 d.size) 0;
            mtime = d.mtime;
            mode = u32_at (put_u32 d.mode) 0;
            owner = u8_at owner_bytes 0;
          })
          (read_full-Reads (put_u8 d.owner))
          (λ i. record {
            size = get-put_u64 d.size v.0 i;
            mtime = d.mtime;
            mode = get-put_u32 d.mode v.2 i;
            owner = get-put_u8 d.owner v.3 i;
          }))))

pub write_dirent_amd64-Emits :
    {W : Type 0} (o : Writer W) (d : Dirent)
    → IsDirent d
    → Emits o (write_dirent_amd64 o d) (dirent_bytes d)
unfolding write_dirent_amd64
write_dirent_amd64-Emits o d v = >>-Emits o (write_str-Emits o d.name v.0) (
    >>-Emits o (write-Emits o _) (
      >>-Emits o (write_timespec_amd64-Emits o d.mtime v.2)
        (>>-Emits o (write-Emits o _) (write-Emits o _))))

pub read_dirent_amd64-Reads : (d : Dirent) → IsDirent d → Reads read_dirent_amd64 (dirent_bytes d) d
unfolding read_dirent_amd64
read_dirent_amd64-Reads d v = Reads-bind _ (read_str-Reads d.name v.0) (
    Reads-bind _ (read_full-Reads (put_u64 d.size)) (
      Reads-bind _ (read_timespec_amd64-Reads d.mtime v.2) (
        Reads-bind _ (read_full-Reads (put_u32 d.mode)) (
          Reads-end
            (λ owner_bytes. record {
              name = d.name;
              size = u64_at (put_u64 d.size) 0;
              mtime = d.mtime;
              mode = u32_at (put_u32 d.mode) 0;
              owner = u8_at owner_bytes 0;
            })
            (read_full-Reads (put_u8 d.owner))
            (λ i. record {
              name = d.name;
              size = get-put_u64 d.size v.1 i;
              mtime = d.mtime;
              mode = get-put_u32 d.mode v.3 i;
              owner = get-put_u8 d.owner v.4 i;
            })))))

pub write_file_lock_info_amd64-Emits :
    {W : Type 0} (o : Writer W) (d : FileLockInfo)
    → IsFileLockInfo d
    → Emits o (write_file_lock_info_amd64 o d) (file_lock_info_bytes d)
unfolding write_file_lock_info_amd64
write_file_lock_info_amd64-Emits o d v =
    >>-Emits o (write-Emits o _)
      (>>-Emits o (write-Emits o _) (>>-Emits o (write-Emits o _) (write-Emits o _)))

pub read_file_lock_info_amd64-Reads :
    (d : FileLockInfo)
    → IsFileLockInfo d
    → Reads read_file_lock_info_amd64 (file_lock_info_bytes d) d
unfolding read_file_lock_info_amd64
read_file_lock_info_amd64-Reads d v = Reads-bind _ (read_full-Reads (put_u8 d.lock_type)) (
    Reads-bind _ (read_full-Reads (put_u8 d.whence)) (
      Reads-bind _ (read_full-Reads (put_u64 d.start)) (
        Reads-end
          (λ size_bytes. record {
            lock_type = u8_at (put_u8 d.lock_type) 0;
            whence = u8_at (put_u8 d.whence) 0;
            start = u64_at (put_u64 d.start) 0;
            size = u64_at size_bytes 0;
          })
          (read_full-Reads (put_u64 d.size))
          (λ i. record {
            lock_type = get-put_u8 d.lock_type v.0 i;
            whence = get-put_u8 d.whence v.1 i;
            start = get-put_u64 d.start v.2 i;
            size = get-put_u64 d.size v.3 i;
          }))))
