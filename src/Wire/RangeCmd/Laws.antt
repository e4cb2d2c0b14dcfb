-- ===== src/Wire/RangeCmd/Laws.antt =====
-- The size, the encoding and the decoding of the requests on file ranges, attributes by descriptor, and locks.
use wsfs_core.Prelude.{◌≡◌, ◌++◌, length, arith}
use wsfs_core.Wire.Bytes.{
  put_u8, put_u32, put_u64, u8_at, u32_at, u64_at, get-put_u8, get-put_u32, get-put_u64,
}
use wsfs_core.Wire.Source.{Reads}
use wsfs_core.Wire.Source.Laws.{Reads-bind, Reads-end, read_full-Reads}
use wsfs_core.Wire.Sink.{Writer, Emits, write-Emits, >>-Emits}
use wsfs_core.Wire.RangeCmd.{
  CmdCopyFileRangeStruct, IsCmdCopyFileRangeStruct, get_cmd_copy_file_range_struct_required_size,
  write_cmd_copy_file_range_struct, cmd_copy_file_range_struct_bytes,
  read_cmd_copy_file_range_struct, CmdCloneFileRangeStruct, IsCmdCloneFileRangeStruct,
  get_cmd_clone_file_range_struct_required_size, write_cmd_clone_file_range_struct,
  cmd_clone_file_range_struct_bytes, read_cmd_clone_file_range_struct, CmdSetAttrByFdStruct,
  IsCmdSetAttrByFdStruct, get_cmd_set_attr_by_fd_struct_required_size,
  write_cmd_set_attr_by_fd_struct, cmd_set_attr_by_fd_struct_bytes, read_cmd_set_attr_by_fd_struct,
  CmdGetFileLockStruct, IsCmdGetFileLockStruct, get_cmd_get_file_lock_struct_required_size,
  write_cmd_get_file_lock_struct, cmd_get_file_lock_struct_bytes, read_cmd_get_file_lock_struct,
  CmdSetFileLockStruct, IsCmdSetFileLockStruct, get_cmd_set_file_lock_struct_required_size,
  write_cmd_set_file_lock_struct, cmd_set_file_lock_struct_bytes, read_cmd_set_file_lock_struct,
  CmdSetFileLockWaitStruct, IsCmdSetFileLockWaitStruct,
  get_cmd_set_file_lock_wait_struct_required_size, write_cmd_set_file_lock_wait_struct,
  cmd_set_file_lock_wait_struct_bytes, read_cmd_set_file_lock_wait_struct,
}
use wsfs_core.Wire.Attr.Laws.{
  write_file_info-Emits, read_file_info-Reads, write_file_lock_info-Emits,
  read_file_lock_info-Reads,
}

pub length-cmd_copy_file_range_struct_bytes :
    (d : CmdCopyFileRangeStruct)
    → length (cmd_copy_file_range_struct_bytes d) ≡ get_cmd_copy_file_range_struct_required_size d
unfolding get_cmd_copy_file_range_struct_required_size
length-cmd_copy_file_range_struct_bytes d = omega arith

pub write_cmd_copy_file_range_struct-Emits :
    {W : Type 0} (o : Writer W) (d : CmdCopyFileRangeStruct)
    → IsCmdCopyFileRangeStruct d
    → Emits o (write_cmd_copy_file_range_struct o d) (cmd_copy_file_range_struct_bytes d)
unfolding write_cmd_copy_file_range_struct
write_cmd_copy_file_range_struct-Emits o d v = write-Emits o _

pub read_cmd_copy_file_range_struct-Reads :
    (d : CmdCopyFileRangeStruct)
    → IsCmdCopyFileRangeStruct d
    → Reads (read_cmd_copy_file_range_struct) (cmd_copy_file_range_struct_bytes d) d
unfolding read_cmd_copy_file_range_struct
read_cmd_copy_file_range_struct-Reads d v =
    Reads-end
      (λ buf. record {
        src_fd = u32_at buf 0;
        dst_fd = u32_at buf 4;
        src_offset = u64_at buf 8;
        dst_offset = u64_at buf 16;
        size = u64_at buf 24;
      })
      (read_full-Reads (
        put_u32 d.src_fd
        ++ put_u32 d.dst_fd
        ++ put_u64 d.src_offset
        ++ put_u64 d.dst_offset
        ++ put_u64 d.size))
      (λ i. record {
        src_fd = get-put_u32 d.src_fd v.0 i;
        dst_fd = get-put_u32 d.dst_fd v.1 i;
        src_offset = get-put_u64 d.src_offset v.2 i;
        dst_offset = get-put_u64 d.dst_offset v.3 i;
        size = get-put_u64 d.size v.4 i;
      })

pub length-cmd_clone_file_range_struct_bytes :
    (d : CmdCloneFileRangeStruct)
    → length (cmd_clone_file_range_struct_bytes d) ≡ get_cmd_clone_file_range_struct_required_size d
unfolding get_cmd_clone_file_range_struct_required_size
length-cmd_clone_file_range_struct_bytes d = omega arith

pub write_cmd_clone_file_range_struct-Emits :
    {W : Type 0} (o : Writer W) (d : CmdCloneFileRangeStruct)
    → IsCmdCloneFileRangeStruct d
    → Emits o (write_cmd_clone_file_range_struct o d) (cmd_clone_file_range_struct_bytes d)
unfolding write_cmd_clone_file_range_struct
write_cmd_clone_file_range_struct-Emits o d v = write-Emits o _

pub read_cmd_clone_file_range_struct-Reads :
    (d : CmdCloneFileRangeStruct)
    → IsCmdCloneFileRangeStruct d
    → Reads (read_cmd_clone_file_range_struct) (cmd_clone_file_range_struct_bytes d) d
unfolding read_cmd_clone_file_range_struct
read_cmd_clone_file_range_struct-Reads d v =
    Reads-end
      (λ buf. record {
        src_fd = u32_at buf 0;
        dst_fd = u32_at buf 4;
        src_offset = u64_at buf 8;
        dst_offset = u64_at buf 16;
        size = u64_at buf 24;
      })
      (read_full-Reads (
        put_u32 d.src_fd
        ++ put_u32 d.dst_fd
        ++ put_u64 d.src_offset
        ++ put_u64 d.dst_offset
        ++ put_u64 d.size))
      (λ i. record {
        src_fd = get-put_u32 d.src_fd v.0 i;
        dst_fd = get-put_u32 d.dst_fd v.1 i;
        src_offset = get-put_u64 d.src_offset v.2 i;
        dst_offset = get-put_u64 d.dst_offset v.3 i;
        size = get-put_u64 d.size v.4 i;
      })

pub length-cmd_set_attr_by_fd_struct_bytes :
    (d : CmdSetAttrByFdStruct)
    → length (cmd_set_attr_by_fd_struct_bytes d) ≡ get_cmd_set_attr_by_fd_struct_required_size d
unfolding get_cmd_set_attr_by_fd_struct_required_size
length-cmd_set_attr_by_fd_struct_bytes d = omega arith

pub write_cmd_set_attr_by_fd_struct-Emits :
    {W : Type 0} (o : Writer W) (d : CmdSetAttrByFdStruct)
    → IsCmdSetAttrByFdStruct d
    → Emits o (write_cmd_set_attr_by_fd_struct o d) (cmd_set_attr_by_fd_struct_bytes d)
unfolding write_cmd_set_attr_by_fd_struct
write_cmd_set_attr_by_fd_struct-Emits o d v =
    >>-Emits o (write-Emits o _) (write_file_info-Emits o d.fi v.2)

pub read_cmd_set_attr_by_fd_struct-Reads :
    (d : CmdSetAttrByFdStruct)
    → IsCmdSetAttrByFdStruct d
    → Reads (read_cmd_set_attr_by_fd_struct) (cmd_set_attr_by_fd_struct_bytes d) d
unfolding read_cmd_set_attr_by_fd_struct
read_cmd_set_attr_by_fd_struct-Reads d v =
    Reads-bind _ (read_full-Reads (put_u32 d.fd ++ put_u8 d.flag)) (
      Reads-end
        (λ fi. record {
          fd = u32_at (put_u32 d.fd ++ put_u8 d.flag) 0;
          flag = u8_at (put_u32 d.fd ++ put_u8 d.flag) 4;
          fi = fi;
        })
        (read_file_info-Reads d.fi v.2)
        (λ i. record { fd = get-put_u32 d.fd v.0 i; flag = get-put_u8 d.flag v.1 i; fi = d.fi }))

pub length-cmd_get_file_lock_struct_bytes :
    (d : CmdGetFileLockStruct)
    → length (cmd_get_file_lock_struct_bytes d) ≡ get_cmd_get_file_lock_struct_required_size d
unfolding get_cmd_get_file_lock_struct_required_size
length-cmd_get_file_lock_struct_bytes d = omega arith

pub write_cmd_get_file_lock_struct-Emits :
    {W : Type 0} (o : Writer W) (d : CmdGetFileLockStruct)
    → IsCmdGetFileLockStruct d
    → Emits o (write_cmd_get_file_lock_struct o d) (cmd_get_file_lock_struct_bytes d)
unfolding write_cmd_get_file_lock_struct
write_cmd_get_file_lock_struct-Emits o d v =
    >>-Emits o (write-Emits o _) (write_file_lock_info-Emits o d.file_lock v.1)

pub read_cmd_get_file_lock_struct-Reads :
    (d : CmdGetFileLockStruct)
    → IsCmdGetFileLockStruct d
    → Reads (read_cmd_get_file_lock_struct) (cmd_get_file_lock_struct_bytes d) d
unfolding read_cmd_get_file_lock_struct
read_cmd_get_file_lock_struct-Reads d v = Reads-bind _ (read_full-Reads (put_u32 d.fd)) (
    Reads-end (λ file_lock. record { fd = u32_at (put_u32 d.fd) 0; file_lock = file_lock })
      (read_file_lock_info-Reads d.file_lock v.1)
      (λ i. record { fd = get-put_u32 d.fd v.0 i; file_lock = d.file_lock }))

pub length-cmd_set_file_lock_struct_bytes :
    (d : CmdSetFileLockStruct)
    → length (cmd_set_file_lock_struct_bytes d) ≡ get_cmd_set_file_lock_struct_required_size d
unfolding get_cmd_set_file_lock_struct_required_size
length-cmd_set_file_lock_struct_bytes d = omega arith

pub write_cmd_set_file_lock_struct-Emits :
    {W : Type 0} (o : Writer W) (d : CmdSetFileLockStruct)
    → IsCmdSetFileLockStruct d
    → Emits o (write_cmd_set_file_lock_struct o d) (cmd_set_file_lock_struct_bytes d)
unfolding write_cmd_set_file_lock_struct
write_cmd_set_file_lock_struct-Emits o d v =
    >>-Emits o (write-Emits o _) (write_file_lock_info-Emits o d.file_lock v.1)

pub read_cmd_set_file_lock_struct-Reads :
    (d : CmdSetFileLockStruct)
    → IsCmdSetFileLockStruct d
    → Reads (read_cmd_set_file_lock_struct) (cmd_set_file_lock_struct_bytes d) d
unfolding read_cmd_set_file_lock_struct
read_cmd_set_file_lock_struct-Reads d v = Reads-bind _ (read_full-Reads (put_u32 d.fd)) (
    Reads-end (λ file_lock. record { fd = u32_at (put_u32 d.fd) 0; file_lock = file_lock })
      (read_file_lock_info-Reads d.file_lock v.1)
      (λ i. record { fd = get-put_u32 d.fd v.0 i; file_lock = d.file_lock }))

pub length-cmd_set_file_lock_wait_struct_bytes :
    (d : CmdSetFileLockWaitStruct)
    → length (cmd_set_file_lock_wait_struct_bytes d)
      ≡ get_cmd_set_file_lock_wait_struct_required_size d
unfolding get_cmd_set_file_lock_wait_struct_required_size
length-cmd_set_file_lock_wait_struct_bytes d = omega arith

pub write_cmd_set_file_lock_wait_struct-Emits :
    {W : Type 0} (o : Writer W) (d : CmdSetFileLockWaitStruct)
    → IsCmdSetFileLockWaitStruct d
    → Emits o (write_cmd_set_file_lock_wait_struct o d) (cmd_set_file_lock_wait_struct_bytes d)
unfolding write_cmd_set_file_lock_wait_struct
write_cmd_set_file_lock_wait_struct-Emits o d v =
    >>-Emits o (write-Emits o _) (write_file_lock_info-Emits o d.file_lock v.1)

pub read_cmd_set_file_lock_wait_struct-Reads :
    (d : CmdSetFileLockWaitStruct)
    → IsCmdSetFileLockWaitStruct d
    → Reads (read_cmd_set_file_lock_wait_struct) (cmd_set_file_lock_wait_struct_bytes d) d
unfolding read_cmd_set_file_lock_wait_struct
read_cmd_set_file_lock_wait_struct-Reads d v = Reads-bind _ (read_full-Reads (put_u32 d.fd)) (
    Reads-end (λ file_lock. record { fd = u32_at (put_u32 d.fd) 0; file_lock = file_lock })
      (read_file_lock_info-Reads d.file_lock v.1)
      (λ i. record { fd = get-put_u32 d.fd v.0 i; file_lock = d.file_lock }))
