-- ===== src/Wire/Amd64/IoCmd/Laws.antt =====
-- The codec for amd64 against the wire format: the requests on an open file: reads, writes, seeks and write streams.
use wsfs_core.Prelude.{ℕ, ◌≤◌, length}
use wsfs_core.Wire.Bytes.{
  put_u8, put_u32, put_u64, put_i64, u8_at, u32_at, u64_at, i64_at, get-put_u8, get-put_u32,
  get-put_u64, get-put_i64,
}
use wsfs_core.Wire.Source.{Reads, ReadsAll}
use wsfs_core.Wire.Source.Laws.{
  Reads-bind, Reads-end, ReadsAll-bind, ReadsAll-end, read_full-Reads, read_all_to_buffer-ReadsAll,
}
use wsfs_core.Wire.Sink.{Writer, Emits, write-Emits, >>-Emits}
use wsfs_core.Wire.IoCmd.{
  CmdCloseStruct, CmdReadStruct, CmdWriteStruct, CmdSeekStruct, CmdAllocateStruct, CmdSyncStruct,
  CmdReadAtStruct, CmdWriteAtStruct, CmdWriteStreamOpenStruct, CmdWriteStreamDataStruct,
  IsCmdCloseStruct, IsCmdReadStruct, IsCmdWriteStruct, IsCmdSeekStruct, IsCmdAllocateStruct,
  IsCmdSyncStruct, IsCmdReadAtStruct, IsCmdWriteAtStruct, IsCmdWriteStreamOpenStruct,
  IsCmdWriteStreamDataStruct, cmd_close_struct_bytes, cmd_read_struct_bytes, cmd_write_struct_bytes,
  cmd_seek_struct_bytes, cmd_allocate_struct_bytes, cmd_sync_struct_bytes, cmd_read_at_struct_bytes,
  cmd_write_at_struct_bytes, cmd_write_stream_open_struct_bytes, cmd_write_stream_data_struct_bytes,
}
use wsfs_core.Wire.Amd64.IoCmd.{
  write_cmd_close_struct_amd64, read_cmd_close_struct_amd64, write_cmd_read_struct_amd64,
  read_cmd_read_struct_amd64, write_cmd_write_struct_amd64, read_cmd_write_struct_with_buffer_amd64,
  write_cmd_seek_struct_amd64, read_cmd_seek_struct_amd64, write_cmd_allocate_struct_amd64,
  read_cmd_allocate_struct_amd64, write_cmd_sync_struct_amd64, read_cmd_sync_struct_amd64,
  write_cmd_read_at_struct_amd64, read_cmd_read_at_struct_amd64, write_cmd_write_at_struct_amd64,
  read_cmd_write_at_struct_with_buffer_amd64, write_cmd_write_stream_open_struct_amd64,
  read_cmd_write_stream_open_struct_with_buffer_amd64, write_cmd_write_stream_data_struct_amd64,
  read_cmd_write_stream_data_struct_with_buffer_amd64,
}

pub write_cmd_close_struct_amd64-Emits :
    {W : Type 0} (o : Writer W) (d : CmdCloseStruct)
    → IsCmdCloseStruct d
    → Emits o (write_cmd_close_struct_amd64 o d) (cmd_close_struct_bytes d)
unfolding write_cmd_close_struct_amd64
write_cmd_close_struct_amd64-Emits o d v = write-Emits o _

pub read_cmd_close_struct_amd64-Reads :
    (d : CmdCloseStruct)
    → IsCmdCloseStruct d
    → Reads read_cmd_close_struct_amd64 (cmd_close_struct_bytes d) d
unfolding read_cmd_close_struct_amd64
read_cmd_close_struct_amd64-Reads d v =
    Reads-end (λ fd_bytes. record { fd = u32_at fd_bytes 0 }) (read_full-Reads (put_u32 d.fd))
      (λ i. record { fd = get-put_u32 d.fd v i })

pub write_cmd_read_struct_amd64-Emits :
    {W : Type 0} (o : Writer W) (d : CmdReadStruct)
    → IsCmdReadStruct d
    → Emits o (write_cmd_read_struct_amd64 o d) (cmd_read_struct_bytes d)
unfolding write_cmd_read_struct_amd64
write_cmd_read_struct_amd64-Emits o d v = >>-Emits o (write-Emits o _) (write-Emits o _)

pub read_cmd_read_struct_amd64-Reads :
    (d : CmdReadStruct)
    → IsCmdReadStruct d
    → Reads read_cmd_read_struct_amd64 (cmd_read_struct_bytes d) d
unfolding read_cmd_read_struct_amd64
read_cmd_read_struct_amd64-Reads d v = Reads-bind _ (read_full-Reads (put_u32 d.fd)) (
    Reads-end (λ size_bytes. record { fd = u32_at (put_u32 d.fd) 0; size = u64_at size_bytes 0 })
      (read_full-Reads (put_u64 d.size))
      (λ i. record { fd = get-put_u32 d.fd v.0 i; size = get-put_u64 d.size v.1 i }))

pub write_cmd_write_struct_amd64-Emits :
    {W : Type 0} (o : Writer W) (d : CmdWriteStruct)
    → IsCmdWriteStruct d
    → Emits o (write_cmd_write_struct_amd64 o d) (cmd_write_struct_bytes d)
unfolding write_cmd_write_struct_amd64
write_cmd_write_struct_amd64-Emits o d v = >>-Emits o (write-Emits o _) (write-Emits o d.payload)

pub read_cmd_write_struct_with_buffer_amd64-ReadsAll :
    (size : ℕ) (d : CmdWriteStruct)
    → IsCmdWriteStruct d
    → length d.payload ≤ size
    → ReadsAll (read_cmd_write_struct_with_buffer_amd64 size) (cmd_write_struct_bytes d) d
unfolding read_cmd_write_struct_with_buffer_amd64
read_cmd_write_struct_with_buffer_amd64-ReadsAll size d v h =
    ReadsAll-bind _ (read_full-Reads (put_u32 d.fd)) (
      ReadsAll-end (λ payload. record { fd = u32_at (put_u32 d.fd) 0; payload = payload })
        (read_all_to_buffer-ReadsAll size d.payload h)
        (λ i. record { fd = get-put_u32 d.fd v i; payload = d.payload }))

pub write_cmd_seek_struct_amd64-Emits :
    {W : Type 0} (o : Writer W) (d : CmdSeekStruct)
    → IsCmdSeekStruct d
    → Emits o (write_cmd_seek_struct_amd64 o d) (cmd_seek_struct_bytes d)
unfolding write_cmd_seek_struct_amd64
write_cmd_seek_struct_amd64-Emits o d v =
    >>-Emits o (write-Emits o _) (>>-Emits o (write-Emits o _) (write-Emits o _))

pub read_cmd_seek_struct_amd64-Reads :
    (d : CmdSeekStruct)
    → IsCmdSeekStruct d
    → Reads read_cmd_seek_struct_amd64 (cmd_seek_struct_bytes d) d
unfolding read_cmd_seek_struct_amd64
read_cmd_seek_struct_amd64-Reads d v = Reads-bind _ (read_full-Reads (put_u32 d.fd)) (
    Reads-bind _ (read_full-Reads (put_u8 d.whence)) (
      Reads-end
        (λ offset_bytes. record {
          fd = u32_at (put_u32 d.fd) 0;
          whence = u8_at (put_u8 d.whence) 0;
          offset = i64_at offset_bytes 0;
        })
        (read_full-Reads (put_i64 d.offset))
        (λ i. record {
          fd = get-put_u32 d.fd v.0 i;
          whence = get-put_u8 d.whence v.1 i;
          offset = get-put_i64 d.offset v.2 i;
        })))

pub write_cmd_allocate_struct_amd64-Emits :
    {W : Type 0} (o : Writer W) (d : CmdAllocateStruct)
    → IsCmdAllocateStruct d
    → Emits o (write_cmd_allocate_struct_amd64 o d) (cmd_allocate_struct_bytes d)
unfolding write_cmd_allocate_struct_amd64
write_cmd_allocate_struct_amd64-Emits o d v =
    >>-Emits o (write-Emits o _)
      (>>-Emits o (write-Emits o _) (>>-Emits o (write-Emits o _) (write-Emits o _)))

pub read_cmd_allocate_struct_amd64-Reads :
    (d : CmdAllocateStruct)
    → IsCmdAllocateStruct d
    → Reads read_cmd_allocate_struct_amd64 (cmd_allocate_struct_bytes d) d
unfolding read_cmd_allocate_struct_amd64
read_cmd_allocate_struct_amd64-Reads d v = Reads-bind _ (read_full-Reads (put_u32 d.fd)) (
    Reads-bind _ (read_full-Reads (put_u32 d.flag)) (
      Reads-bind _ (read_full-Reads (put_u64 d.offset)) (
        Reads-end
          (λ size_bytes. record {
            fd = u32_at (put_u32 d.fd) 0;
            flag = u32_at (put_u32 d.flag) 0;
            offset = u64_at (put_u64 d.offset) 0;
            size = u64_at size_bytes 0;
          })
          (read_full-Reads (put_u64 d.size))
          (λ i. record {
            fd = get-put_u32 d.fd v.0 i;
            flag = get-put_u32 d.flag v.1 i;
            offset = get-put_u64 d.offset v.2 i;
            size = get-put_u64 d.size v.3 i;
          }))))

pub write_cmd_sync_struct_amd64-Emits :
    {W : Type 0} (o : Writer W) (d : CmdSyncStruct)
    → IsCmdSyncStruct d
    → Emits o (write_cmd_sync_struct_amd64 o d) (cmd_sync_struct_bytes d)
unfolding write_cmd_sync_struct_amd64
write_cmd_sync_struct_amd64-Emits o d v = write-Emits o _

pub read_cmd_sync_struct_amd64-Reads :
    (d : CmdSyncStruct)
    → IsCmdSyncStruct d
    → Reads read_cmd_sync_struct_amd64 (cmd_sync_struct_bytes d) d
unfolding read_cmd_sync_struct_amd64
read_cmd_sync_struct_amd64-Reads d v =
    Reads-end (λ fd_bytes. record { fd = u32_at fd_bytes 0 }) (read_full-Reads (put_u32 d.fd))
      (λ i. record { fd = get-put_u32 d.fd v i })

pub write_cmd_read_at_struct_amd64-Emits :
    {W : Type 0} (o : Writer W) (d : CmdReadAtStruct)
    → IsCmdReadAtStruct d
    → Emits o (write_cmd_read_at_struct_amd64 o d) (cmd_read_at_struct_bytes d)
unfolding write_cmd_read_at_struct_amd64
write_cmd_read_at_struct_amd64-Emits o d v =
    >>-Emits o (write-Emits o _) (>>-Emits o (write-Emits o _) (write-Emits o _))

pub read_cmd_read_at_struct_amd64-Reads :
    (d : CmdReadAtStruct)
    → IsCmdReadAtStruct d
    → Reads read_cmd_read_at_struct_amd64 (cmd_read_at_struct_bytes d) d
unfolding read_cmd_read_at_struct_amd64
read_cmd_read_at_struct_amd64-Reads d v = Reads-bind _ (read_full-Reads (put_u32 d.fd)) (
    Reads-bind _ (read_full-Reads (put_u64 d.offset)) (
      Reads-end
        (λ size_bytes. record {
          fd = u32_at (put_u32 d.fd) 0;
          offset = u64_at (put_u64 d.offset) 0;
          size = u64_at size_bytes 0;
        })
        (read_full-Reads (put_u64 d.size))
        (λ i. record {
          fd = get-put_u32 d.fd v.0 i;
          offset = get-put_u64 d.offset v.1 i;
          size = get-put_u64 d.size v.2 i;
        })))

pub write_cmd_write_at_struct_amd64-Emits :
    {W : Type 0} (o : Writer W) (d : CmdWriteAtStruct)
    → IsCmdWriteAtStruct d
    → Emits o (write_cmd_write_at_struct_amd64 o d) (cmd_write_at_struct_bytes d)
unfolding write_cmd_write_at_struct_amd64
write_cmd_write_at_struct_amd64-Emits o d v =
    >>-Emits o (write-Emits o _) (>>-Emits o (write-Emits o _) (write-Emits o d.payload))

pub read_cmd_write_at_struct_with_buffer_amd64-ReadsAll :
    (size : ℕ) (d : CmdWriteAtStruct)
    → IsCmdWriteAtStruct d
    → length d.payload ≤ size
    → ReadsAll (read_cmd_write_at_struct_with_buffer_amd64 size) (cmd_write_at_struct_bytes d) d
unfolding read_cmd_write_at_struct_with_buffer_amd64
read_cmd_write_at_struct_with_buffer_amd64-ReadsAll size d v h =
    ReadsAll-bind _ (read_full-Reads (put_u32 d.fd)) (
      ReadsAll-bind _ (read_full-Reads (put_u64 d.offset)) (
        ReadsAll-end
          (λ payload. record {
            fd = u32_at (put_u32 d.fd) 0;
            offset = u64_at (put_u64 d.offset) 0;
            payload = payload;
          })
          (read_all_to_buffer-ReadsAll size d.payload h)
          (λ i. record {
            fd = get-put_u32 d.fd v.0 i;
            offset = get-put_u64 d.offset v.1 i;
            payload = d.payload;
          })))

pub write_cmd_write_stream_open_struct_amd64-Emits :
    {W : Type 0} (o : Writer W) (d : CmdWriteStreamOpenStruct)
    → IsCmdWriteStreamOpenStruct d
    → Emits o (write_cmd_write_stream_open_struct_amd64 o d) (cmd_write_stream_open_struct_bytes d)
unfolding write_cmd_write_stream_open_struct_amd64
write_cmd_write_stream_open_struct_amd64-Emits o d v =
    >>-Emits o (write-Emits o _) (>>-Emits o (write-Emits o _) (write-Emits o d.payload))

pub read_cmd_write_stream_open_struct_with_buffer_amd64-ReadsAll :
    (size : ℕ) (d : CmdWriteStreamOpenStruct)
    → IsCmdWriteStreamOpenStruct d
    → length d.payload ≤ size
    → ReadsAll
        (read_cmd_write_stream_open_struct_with_buffer_amd64 size)
        (cmd_write_stream_open_struct_bytes d)
        d
unfolding read_cmd_write_stream_open_struct_with_buffer_amd64
read_cmd_write_stream_open_struct_with_buffer_amd64-ReadsAll size d v h =
    ReadsAll-bind _ (read_full-Reads (put_u32 d.fd)) (
      ReadsAll-bind _ (read_full-Reads (put_u64 d.offset)) (
        ReadsAll-end
          (λ payload. record {
            fd = u32_at (put_u32 d.fd) 0;
            offset = u64_at (put_u64 d.offset) 0;
            payload = payload;
          })
          (read_all_to_buffer-ReadsAll size d.payload h)
          (λ i. record {
            fd = get-put_u32 d.fd v.0 i;
            offset = get-put_u64 d.offset v.1 i;
            payload = d.payload;
          })))

pub write_cmd_write_stream_data_struct_amd64-Emits :
    {W : Type 0} (o : Writer W) (d : CmdWriteStreamDataStruct)
    → IsCmdWriteStreamDataStruct d
    → Emits o (write_cmd_write_stream_data_struct_amd64 o d) (cmd_write_stream_data_struct_bytes d)
unfolding write_cmd_write_stream_data_struct_amd64
write_cmd_write_stream_data_struct_amd64-Emits o d v =
    >>-Emits o (write-Emits o _) (write-Emits o d.payload)

pub read_cmd_write_stream_data_struct_with_buffer_amd64-ReadsAll :
    (size : ℕ) (d : CmdWriteStreamDataStruct)
    → IsCmdWriteStreamDataStruct d
    → length d.payload ≤ size
    → ReadsAll
        (read_cmd_write_stream_data_struct_with_buffer_amd64 size)
        (cmd_write_stream_data_struct_bytes d)
        d
unfolding read_cmd_write_stream_data_struct_with_buffer_amd64
read_cmd_write_stream_data_struct_with_buffer_amd64-ReadsAll size d v h =
    ReadsAll-bind _ (read_full-Reads (put_u8 d.is_end)) (
      ReadsAll-end (λ payload. record { is_end = u8_at (put_u8 d.is_end) 0; payload = payload })
        (read_all_to_buffer-ReadsAll size d.payload h)
        (λ i. record { is_end = get-put_u8 d.is_end v i; payload = d.payload }))
