-- ===== src/Wire/Amd64/RangeCmd/Laws.antt =====
-- The codec for amd64 against the wire format: the requests on ranges, attributes and locks of open files.
use wsfs_core.Wire.Bytes.{
  put_u8, put_u32, put_u64, u8_at, u32_at, u64_at, get-put_u8, get-put_u32, get-put_u64,
}
use wsfs_core.Wire.Source.{Reads}
use wsfs_core.Wire.Source.Laws.{Reads-bind, Reads-end, read_full-Reads}
use wsfs_core.Wire.Sink.{Writer, Emits, write-Emits, >>-Emits}
use wsfs_core.Wire.RangeCmd.{
  CmdCopyFileRangeStruct, CmdCloneFileRangeStruct, CmdSetAttrByFdStruct, CmdGetFileLockStruct,
  CmdSetFileLockStruct, CmdSetFileLockWaitStruct, IsCmdCopyFileRangeStruct,
  IsCmdCloneFileRangeStruct, IsCmdSetAttrByFdStruct, IsCmdGetFileLockStruct, IsCmdSetFileLockStruct,
  IsCmdSetFileLockWaitStruct, cmd_copy_file_range_struct_bytes, cmd_clone_file_range_struct_bytes,
  cmd_set_attr_by_fd_struct_bytes, cmd_get_file_lock_struct_bytes, cmd_set_file_lock_struct_bytes,
  cmd_set_file_lock_wait_struct_bytes,
}
use wsfs_core.Wire.Amd64.Attr.Laws.{
  write_file_info_amd64-Emits, read_file_info_amd64-Reads, write_file_lock_info_amd64-Emits,
  read_file_lock_info_amd64-Reads,
}
use wsfs_core.Wire.Amd64.RangeCmd.{
  write_cmd_copy_file_range_struct_amd64, read_cmd_copy_file_range_struct_amd64,
  write_cmd_clone_file_range_struct_amd64, read_cmd_clone_file_range_struct_amd64,
  write_cmd_set_attr_by_fd_struct_amd64, read_cmd_set_attr_by_fd_struct_amd64,
  write_cmd_get_file_lock_struct_amd64, read_cmd_get_file_lock_struct_amd64,
  write_cmd_set_file_lock_struct_amd64, read_cmd_set_file_lock_struct_amd64,
  write_cmd_set_file_lock_wait_struct_amd64, read_cmd_set_file_lock_wait_struct_amd64,
}

pub write_cmd_copy_file_range_struct_amd64-Emits :
    {W : Type 0} (o : Writer W) (d : CmdCopyFileRangeStruct)
    → IsCmdCopyFileRangeStruct d
    → Emits o (write_cmd_copy_file_range_struct_amd64 o d) (cmd_copy_file_range_struct_bytes d)
unfolding write_cmd_copy_file_range_struct_amd64
write_cmd_copy_file_range_struct_amd64-Emits o d v = >>-Emits o (write-Emits o _) (
    >>-Emits o (write-Emits o _)
      (>>-Emits o (write-Emits o _) (>>-Emits o (write-Emits o _) (write-Emits o _))))

pub read_cmd_copy_file_range_struct_amd64-Reads :
    (d : CmdCopyFileRangeStruct)
    → IsCmdCopyFileRangeStruct d
    → Reads read_cmd_copy_file_range_struct_amd64 (cmd_copy_file_range_struct_bytes d) d
unfolding read_cmd_copy_file_range_struct_amd64
read_cmd_copy_file_range_struct_amd64-Reads d v =
    Reads-bind _ (read_full-Reads (put_u32 d.src_fd)) (
      Reads-bind _ (read_full-Reads (put_u32 d.dst_fd)) (
        Reads-bind _ (read_full-Reads (put_u64 d.src_offset)) (
          Reads-bind _ (read_full-Reads (put_u64 d.dst_offset)) (
            Reads-end
              (λ size_bytes. record {
                src_fd = u32_at (put_u32 d.src_fd) 0;
                dst_fd = u32_at (put_u32 d.dst_fd) 0;
                src_offset = u64_at (put_u64 d.src_offset) 0;
                dst_offset = u64_at (put_u64 d.dst_offset) 0;
                size = u64_at size_bytes 0;
              })
              (read_full-Reads (put_u64 d.size))
              (λ i. record {
                src_fd = get-put_u32 d.src_fd v.0 i;
                dst_fd = get-put_u32 d.dst_fd v.1 i;
                src_offset = get-put_u64 d.src_offset v.2 i;
                dst_offset = get-put_u64 d.dst_offset v.3 i;
                size = get-put_u64 d.size v.4 i;
              })))))

pub write_cmd_clone_file_range_struct_amd64-Emits :
    {W : Type 0} (o : Writer W) (d : CmdCloneFileRangeStruct)
    → IsCmdCloneFileRangeStruct d
    → Emits o (write_cmd_clone_file_range_struct_amd64 o d) (cmd_clone_file_range_struct_bytes d)
unfolding write_cmd_clone_file_range_struct_amd64
write_cmd_clone_file_range_struct_amd64-Emits o d v = >>-Emits o (write-Emits o _) (
    >>-Emits o (write-Emits o _)
      (>>-Emits o (write-Emits o _) (>>-Emits o (write-Emits o _) (write-Emits o _))))

pub read_cmd_clone_file_range_struct_amd64-Reads :
    (d : CmdCloneFileRangeStruct)
    → IsCmdCloneFileRangeStruct d
    → Reads read_cmd_clone_file_range_struct_amd64 (cmd_clone_file_range_struct_bytes d) d
unfolding read_cmd_clone_file_range_struct_amd64
read_cmd_clone_file_range_struct_amd64-Reads d v =
    Reads-bind _ (read_full-Reads (put_u32 d.src_fd)) (
      Reads-bind _ (read_full-Reads (put_u32 d.dst_fd)) (
        Reads-bind _ (read_full-Reads (put_u64 d.src_offset)) (
          Reads-bind _ (read_full-Reads (put_u64 d.dst_offset)) (
            Reads-end
              (λ size_bytes. record {
                src_fd = u32_at (put_u32 d.src_fd) 0;
                dst_fd = u32_at (put_u32 d.dst_fd) 0;
                src_offset = u64_at (put_u64 d.src_offset) 0;
                dst_offset = u64_at (put_u64 d.dst_offset) 0;
                size = u64_at size_bytes 0;
              })
              (read_full-Reads (put_u64 d.size))
              (λ i. record {
                src_fd = get-put_u32 d.src_fd v.0 i;
                dst_fd = get-put_u32 d.dst_fd v.1 i;
                src_offset = get-put_u64 d.src_offset v.2 i;
                dst_offset = get-put_u64 d.dst_offset v.3 i;
                size = get-put_u64 d.size v.4 i;
              })))))

pub write_cmd_set_attr_by_fd_struct_amd64-Emits :
    {W : Type 0} (o : Writer W) (d : CmdSetAttrByFdStruct)
    → IsCmdSetAttrByFdStruct d
    → Emits o (write_cmd_set_attr_by_fd_struct_amd64 o d) (cmd_set_attr_by_fd_struct_bytes d)
unfolding write_cmd_set_attr_by_fd_struct_amd64
write_cmd_set_attr_by_fd_struct_amd64-Emits o d v =
    >>-Emits o (write-Emits o _)
      (>>-Emits o (write-Emits o _) (write_file_info_amd64-Emits o d.fi v.2))

pub read_cmd_set_attr_by_fd_struct_amd64-Reads :
    (d : CmdSetAttrByFdStruct)
    → IsCmdSetAttrByFdStruct d
    → Reads read_cmd_set_attr_by_fd_struct_amd64 (cmd_set_attr_by_fd_struct_bytes d) d
unfolding read_cmd_set_attr_by_fd_struct_amd64
read_cmd_set_attr_by_fd_struct_amd64-Reads d v = Reads-bind _ (read_full-Reads (put_u32 d.fd)) (
    Reads-bind _ (read_full-Reads (put_u8 d.flag)) (
      Reads-end
        (λ fi. record { fd = u32_at (put_u32 d.fd) 0; flag = u8_at (put_u8 d.flag) 0; fi = fi })
        (read_file_info_amd64-Reads d.fi v.2)
        (λ i. record { fd = get-put_u32 d.fd v.0 i; flag = get-put_u8 d.flag v.1 i; fi = d.fi })))

pub write_cmd_get_file_lock_struct_amd64-Emits :
    {W : Type 0} (o : Writer W) (d : CmdGetFileLockStruct)
    → IsCmdGetFileLockStruct d
    → Emits o (write_cmd_get_file_lock_struct_amd64 o d) (cmd_get_file_lock_struct_bytes d)
unfolding write_cmd_get_file_lock_struct_amd64
write_cmd_get_file_lock_struct_amd64-Emits o d v =
    >>-Emits o (write-Emits o _) (write_file_lock_info_amd64-Emits o d.file_lock v.1)

pub read_cmd_get_file_lock_struct_amd64-Reads :
    (d : CmdGetFileLockStruct)
    → IsCmdGetFileLockStruct d
    → Reads read_cmd_get_file_lock_struct_amd64 (cmd_get_file_lock_struct_bytes d) d
unfolding read_cmd_get_file_lock_struct_amd64
read_cmd_get_file_lock_struct_amd64-Reads d v = Reads-bind _ (read_full-Reads (put_u32 d.fd)) (
    Reads-end (λ file_lock. record { fd = u32_at (put_u32 d.fd) 0; file_lock = file_lock })
      (read_file_lock_info_amd64-Reads d.file_lock v.1)
      (λ i. record { fd = get-put_u32 d.fd v.0 i; file_lock = d.file_lock }))

pub write_cmd_set_file_lock_struct_amd64-Emits :
    {W : Type 0} (o : Writer W) (d : CmdSetFileLockStruct)
    → IsCmdSetFileLockStruct d
    → Emits o (write_cmd_set_file_lock_struct_amd64 o d) (cmd_set_file_lock_struct_bytes d)
unfolding write_cmd_set_file_lock_struct_amd64
write_cmd_set_file_lock_struct_amd64-Emits o d v =
    >>-Emits o (write-Emits o _) (write_file_lock_info_amd64-Emits o d.file_lock v.1)

pub read_cmd_set_file_lock_struct_amd64-Reads :
    (d : CmdSetFileLockStruct)
    → IsCmdSetFileLockStruct d
    → Reads read_cmd_set_file_lock_struct_amd64 (cmd_set_file_lock_struct_bytes d) d
unfolding read_cmd_set_file_lock_struct_amd64
read_cmd_set_file_lock_struct_amd64-Reads d v = Reads-bind _ (read_full-Reads (put_u32 d.fd)) (
    Reads-end (λ file_lock. record { fd = u32_at (put_u32 d.fd) 0; file_lock = file_lock })
      (read_file_lock_info_amd64-Reads d.file_lock v.1)
      (λ i. record { fd = get-put_u32 d.fd v.0 i; file_lock = d.file_lock }))

pub write_cmd_set_file_lock_wait_struct_amd64-Emits :
    {W : Type 0} (o : Writer W) (d : CmdSetFileLockWaitStruct)
    → IsCmdSetFileLockWaitStruct d
    → Emits o
        (write_cmd_set_file_lock_wait_struct_amd64 o d)
        (cmd_set_file_lock_wait_struct_bytes d)
unfolding write_cmd_set_file_lock_wait_struct_amd64
write_cmd_set_file_lock_wait_struct_amd64-Emits o d v =
    >>-Emits o (write-Emits o _) (write_file_lock_info_amd64-Emits o d.file_lock v.1)

pub read_cmd_set_file_lock_wait_struct_amd64-Reads :
    (d : CmdSetFileLockWaitStruct)
    → IsCmdSetFileLockWaitStruct d
    → Reads read_cmd_set_file_lock_wait_struct_amd64 (cmd_set_file_lock_wait_struct_bytes d) d
unfolding read_cmd_set_file_lock_wait_struct_amd64
read_cmd_set_file_lock_wait_struct_amd64-Reads d v = Reads-bind _ (read_full-Reads (put_u32 d.fd)) (
    Reads-end (λ file_lock. record { fd = u32_at (put_u32 d.fd) 0; file_lock = file_lock })
      (read_file_lock_info_amd64-Reads d.file_lock v.1)
      (λ i. record { fd = get-put_u32 d.fd v.0 i; file_lock = d.file_lock }))
