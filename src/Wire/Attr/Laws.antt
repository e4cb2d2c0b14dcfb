-- ===== src/Wire/Attr/Laws.antt =====
-- The size, the encoding and the decoding of the structs that other structs hold.
use wsfs_core.Prelude.{◌≡◌, ◌++◌, length, length-append, arith}
use wsfs_core.Wire.Bytes.{
  put_u8, put_u32, put_u64, put_i64, u8_at, u32_at, u64_at, i64_at, get-put_u8, get-put_u32,
  get-put_u64, get-put_i64,
}
use wsfs_core.Wire.Source.{Reads}
use wsfs_core.Wire.Source.Laws.{Reads-bind, Reads-end, read_full-Reads}
use wsfs_core.Wire.Sink.{Writer, Emits, write-Emits, >>-Emits}
use wsfs_core.Wire.Str.{write_str-Emits, read_str-Reads}
use wsfs_core.Wire.Attr.{
  Timespec, IsTimespec, get_timespec_required_size, write_timespec, timespec_bytes, read_timespec,
  FileInfo, IsFileInfo, get_file_info_required_size, write_file_info, file_info_bytes,
  read_file_info, Dirent, IsDirent, get_dirent_required_size, write_dirent, dirent_bytes,
  read_dirent, FileLockInfo, IsFileLockInfo, get_file_lock_info_required_size, write_file_lock_info,
  file_lock_info_bytes, read_file_lock_info,
}

pub length-timespec_bytes :
    (d : Timespec) → length (timespec_bytes d) ≡ get_timespec_required_size d
unfolding get_timespec_required_size
length-timespec_bytes d = omega arith

pub write_timespec-Emits :
    {W : Type 0} (o : Writer W) (d : Timespec)
    → IsTimespec d
    → Emits o (write_timespec o d) (timespec_bytes d)
unfolding write_timespec
write_timespec-Emits o d v = write-Emits o _

pub read_timespec-Reads : (d : Timespec) → IsTimespec d → Reads (read_timespec) (timespec_bytes d) d
unfolding read_timespec
read_timespec-Reads d v =
    Reads-end (λ buf. record { seconds = i64_at buf 0; nanoseconds = i64_at buf 8 })
      (read_full-Reads (put_i64 d.seconds ++ put_i64 d.nanoseconds))
      (λ i. record {
        seconds = get-put_i64 d.seconds v.0 i;
        nanoseconds = get-put_i64 d.nanoseconds v.1 i;
      })

pub length-file_info_bytes :
    (d : FileInfo) → length (file_info_bytes d) ≡ get_file_info_required_size d
unfolding get_file_info_required_size
length-file_info_bytes d = omega arith

pub write_file_info-Emits :
    {W : Type 0} (o : Writer W) (d : FileInfo)
    → IsFileInfo d
    → Emits o (write_file_info o d) (file_info_bytes d)
unfolding write_file_info
write_file_info-Emits o d v =
    >>-Emits o (write-Emits o _) (>>-Emits o (write_timespec-Emits o d.mtime v.1) (write-Emits o _))

pub read_file_info-Reads :
    (d : FileInfo) → IsFileInfo d → Reads (read_file_info) (file_info_bytes d) d
unfolding read_file_info
read_file_info-Reads d v = Reads-bind _ (read_full-Reads (put_u64 d.size)) (
    Reads-bind _ (read_timespec-Reads d.mtime v.1) (
      Reads-end
        (λ buf2. record {
          size = u64_at (put_u64 d.size) 0;
          mtime = d.mtime;
          mode = u32_at buf2 0;
          owner = u8_at buf2 4;
        })
        (read_full-Reads (put_u32 d.mode ++ put_u8 d.owner))
        (λ i. record {
          size = get-put_u64 d.size v.0 i;
          mtime = d.mtime;
          mode = get-put_u32 d.mode v.2 i;
          owner = get-put_u8 d.owner v.3 i;
        })))

pub length-dirent_bytes : (d : Dirent) → length (dirent_bytes d) ≡ get_dirent_required_size d
unfolding get_dirent_required_size
length-dirent_bytes d = omega (
  arith,
  length-append d.name
      ((put_u64 d.size) ++ (timespec_bytes d.mtime ++ ((put_u32 d.mode ++ put_u8 d.owner)))),
)

pub write_dirent-Emits :
    {W : Type 0} (o : Writer W) (d : Dirent)
    → IsDirent d
    → Emits o (write_dirent o d) (dirent_bytes d)
unfolding write_dirent
write_dirent-Emits o d v = >>-Emits o (write_str-Emits o d.name v.0) (
    >>-Emits o (write-Emits o _)
      (>>-Emits o (write_timespec-Emits o d.mtime v.2) (write-Emits o _)))

pub read_dirent-Reads : (d : Dirent) → IsDirent d → Reads (read_dirent) (dirent_bytes d) d
unfolding read_dirent
read_dirent-Reads d v = Reads-bind _ (read_str-Reads d.name v.0) (
    Reads-bind _ (read_full-Reads (put_u64 d.size)) (
      Reads-bind _ (read_timespec-Reads d.mtime v.2) (
        Reads-end
          (λ buf2. record {
            name = d.name;
            size = u64_at (put_u64 d.size) 0;
            mtime = d.mtime;
            mode = u32_at buf2 0;
            owner = u8_at buf2 4;
          })
          (read_full-Reads (put_u32 d.mode ++ put_u8 d.owner))
          (λ i. record {
            name = d.name;
            size = get-put_u64 d.size v.1 i;
            mtime = d.mtime;
            mode = get-put_u32 d.mode v.3 i;
            owner = get-put_u8 d.owner v.4 i;
          }))))

pub length-file_lock_info_bytes :
    (d : FileLockInfo) → length (file_lock_info_bytes d) ≡ get_file_lock_info_required_size d
unfolding get_file_lock_info_required_size
length-file_lock_info_bytes d = omega arith

pub write_file_lock_info-Emits :
    {W : Type 0} (o : Writer W) (d : FileLockInfo)
    → IsFileLockInfo d
    → Emits o (write_file_lock_info o d) (file_lock_info_bytes d)
unfolding write_file_lock_info
write_file_lock_info-Emits o d v = write-Emits o _

pub read_file_lock_info-Reads :
    (d : FileLockInfo) → IsFileLockInfo d → Reads (read_file_lock_info) (file_lock_info_bytes d) d
unfolding read_file_lock_info
read_file_lock_info-Reads d v =
    Reads-end
      (λ buf. record {
        lock_type = u8_at buf 0;
        whence = u8_at buf 1;
        start = u64_at buf 2;
        size = u64_at buf 10;
      })
      (read_full-Reads (put_u8 d.lock_type ++ put_u8 d.whence ++ put_u64 d.start ++ put_u64 d.size))
      (λ i. record {
        lock_type = get-put_u8 d.lock_type v.0 i;
        whence = get-put_u8 d.whence v.1 i;
        start = get-put_u64 d.start v.2 i;
        size = get-put_u64 d.size v.3 i;
      })
