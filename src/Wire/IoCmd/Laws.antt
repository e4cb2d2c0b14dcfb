-- ===== src/Wire/IoCmd/Laws.antt =====
-- The size, the encoding and the decoding of the requests on an open file: reads, writes, seeks and write streams.
use wsfs_core.Prelude.{ℕ, ◌≤◌, ◌≡◌, ◌++◌, length, arith}
use wsfs_core.Wire.Bytes.{
  put_u8, put_u32, put_u64, put_i64, u8_at, u32_at, u64_at, i64_at, get-put_u8, get-put_u32,
  get-put_u64, get-put_i64,
}
use wsfs_core.Wire.Source.{Reads, ReadsAll}
use wsfs_core.Wire.Source.Laws.{
  Reads-end, ReadsAll-bind, ReadsAll-end, read_full-Reads, read_all_to_buffer-ReadsAll,
}
use wsfs_core.Wire.Sink.{Writer, Emits, write-Emits, >>-Emits}
use wsfs_core.Wire.IoCmd.{
  CmdCloseStruct, IsCmdCloseStruct, get_cmd_close_struct_required_size, write_cmd_close_struct,
  cmd_close_struct_bytes, read_cmd_close_struct, CmdReadStruct, IsCmdReadStruct,
  get_cmd_read_struct_required_size, write_cmd_read_struct, cmd_read_struct_bytes,
  read_cmd_read_struct, CmdWriteStruct, IsCmdWriteStruct, get_cmd_write_struct_required_size,
  write_cmd_write_struct, cmd_write_struct_bytes, read_cmd_write_struct_with_buffer, CmdSeekStruct,
  IsCmdSeekStruct, get_cmd_seek_struct_required_size, write_cmd_seek_struct, cmd_seek_struct_bytes,
  read_cmd_seek_struct, CmdAllocateStruct, IsCmdAllocateStruct,
  get_cmd_allocate_struct_required_size, write_cmd_allocate_struct, cmd_allocate_struct_bytes,
  read_cmd_allocate_struct, CmdSyncStruct, IsCmdSyncStruct, get_cmd_sync_struct_required_size,
  write_cmd_sync_struct, cmd_sync_struct_bytes, read_cmd_sync_struct, CmdReadAtStruct,
  IsCmdReadAtStruct, get_cmd_read_at_struct_required_size, write_cmd_read_at_struct,
  cmd_read_at_struct_bytes, read_cmd_read_at_struct, CmdWriteAtStruct, IsCmdWriteAtStruct,
  get_cmd_write_at_struct_required_size, write_cmd_write_at_struct, cmd_write_at_struct_bytes,
  read_cmd_write_at_struct_with_buffer, CmdWriteStreamOpenStruct, IsCmdWriteStreamOpenStruct,
  get_cmd_write_stream_open_struct_required_size, write_cmd_write_stream_open_struct,
  cmd_write_stream_open_struct_bytes, read_cmd_write_stream_open_struct_with_buffer,
  CmdWriteStreamDataStruct, IsCmdWriteStreamDataStruct,
  get_cmd_write_stream_data_struct_required_size, write_cmd_write_stream_data_struct,
  cmd_write_stream_data_struct_bytes, read_cmd_write_stream_data_struct_with_buffer,
}

pub length-cmd_close_struct_bytes :
    (d : CmdCloseStruct) → length (cmd_close_struct_bytes d) ≡ get_cmd_close_struct_required_size d
unfolding get_cmd_close_struct_required_size
length-cmd_close_struct_bytes d = omega arith

pub write_cmd_close_struct-Emits :
    {W : Type 0} (o : Writer W) (d : CmdCloseStruct)
    → IsCmdCloseStruct d
    → Emits o (write_cmd_close_struct o d) (cmd_close_struct_bytes d)
unfolding write_cmd_close_struct
write_cmd_close_struct-Emits o d v = write-Emits o _

pub read_cmd_close_struct-Reads :
    (d : CmdCloseStruct)
    → IsCmdCloseStruct d
    → Reads (read_cmd_close_struct) (cmd_close_struct_bytes d) d
unfolding read_cmd_close_struct
read_cmd_close_struct-Reads d v =
    Reads-end (λ buf. record { fd = u32_at buf 0 }) (read_full-Reads (put_u32 d.fd))
      (λ i. record { fd = get-put_u32 d.fd v i })

pub length-cmd_read_struct_bytes :
    (d : CmdReadStruct) → length (cmd_read_struct_bytes d) ≡ get_cmd_read_struct_required_size d
unfolding get_cmd_read_struct_required_size
length-cmd_read_struct_bytes d = omega arith

pub write_cmd_read_struct-Emits :
    {W : Type 0} (o : Writer W) (d : CmdReadStruct)
    → IsCmdReadStruct d
    → Emits o (write_cmd_read_struct o d) (cmd_read_struct_bytes d)
unfolding write_cmd_read_struct
write_cmd_read_struct-Emits o d v = write-Emits o _

pub read_cmd_read_struct-Reads :
    (d : CmdReadStruct)
    → IsCmdReadStruct d
    → Reads (read_cmd_read_struct) (cmd_read_struct_bytes d) d
unfolding read_cmd_read_struct
read_cmd_read_struct-Reads d v =
    Reads-end (λ buf. record { fd = u32_at buf 0; size = u64_at buf 4 })
      (read_full-Reads (put_u32 d.fd ++ put_u64 d.size))
      (λ i. record { fd = get-put_u32 d.fd v.0 i; size = get-put_u64 d.size v.1 i })

pub length-cmd_write_struct_bytes :
    (d : CmdWriteStruct) → length (cmd_write_struct_bytes d) ≡ get_cmd_write_struct_required_size d
unfolding get_cmd_write_struct_required_size
length-cmd_write_struct_bytes d = omega arith

pub write_cmd_write_struct-Emits :
    {W : Type 0} (o : Writer W) (d : CmdWriteStruct)
    → IsCmdWriteStruct d
    → Emits o (write_cmd_write_struct o d) (cmd_write_struct_bytes d)
unfolding write_cmd_write_struct
write_cmd_write_struct-Emits o d v = >>-Emits o (write-Emits o _) (write-Emits o d.payload)

pub read_cmd_write_struct_with_buffer-ReadsAll :
    (size : ℕ) (d : CmdWriteStruct)
    → IsCmdWriteStruct d
    → length d.payload ≤ size
    → ReadsAll (read_cmd_write_struct_with_buffer size) (cmd_write_struct_bytes d) d
unfolding read_cmd_write_struct_with_buffer
read_cmd_write_struct_with_buffer-ReadsAll size d v h =
    ReadsAll-bind _ (read_full-Reads (put_u32 d.fd)) (
      ReadsAll-end (λ payload. record { fd = u32_at (put_u32 d.fd) 0; payload = payload })
        (read_all_to_buffer-ReadsAll size d.payload h)
        (λ i. record { fd = get-put_u32 d.fd v i; payload = d.payload }))

pub length-cmd_seek_struct_bytes :
    (d : CmdSeekStruct) → length (cmd_seek_struct_bytes d) ≡ get_cmd_seek_struct_required_size d
unfolding get_cmd_seek_struct_required_size
length-cmd_seek_struct_bytes d = omega arith

pub write_cmd_seek_struct-Emits :
    {W : Type 0} (o : Writer W) (d : CmdSeekStruct)
    → IsCmdSeekStruct d
    → Emits o (write_cmd_seek_struct o d) (cmd_seek_struct_bytes d)
unfolding write_cmd_seek_struct
write_cmd_seek_struct-Emits o d v = write-Emits o _

pub read_cmd_seek_struct-Reads :
    (d : CmdSeekStruct)
    → IsCmdSeekStruct d
    → Reads (read_cmd_seek_struct) (cmd_seek_struct_bytes d) d
unfolding read_cmd_seek_struct
read_cmd_seek_struct-Reads d v =
    Reads-end (λ buf. record { fd = u32_at buf 0; whence = u8_at buf 4; offset = i64_at buf 5 })
      (read_full-Reads (put_u32 d.fd ++ put_u8 d.whence ++ put_i64 d.offset))
      (λ i. record {
        fd = get-put_u32 d.fd v.0 i;
        whence = get-put_u8 d.whence v.1 i;
        offset = get-put_i64 d.offset v.2 i;
      })

pub length-cmd_allocate_struct_bytes :
    (d : CmdAllocateStruct)
    → length (cmd_allocate_struct_bytes d) ≡ get_cmd_allocate_struct_required_size d
unfolding get_cmd_allocate_struct_required_size
length-cmd_allocate_struct_bytes d = omega arith

pub write_cmd_allocate_struct-Emits :
    {W : Type 0} (o : Writer W) (d : CmdAllocateStruct)
    → IsCmdAllocateStruct d
    → Emits o (write_cmd_allocate_struct o d) (cmd_allocate_struct_bytes d)
unfolding write_cmd_allocate_struct
write_cmd_allocate_struct-Emits o d v = write-Emits o _

pub read_cmd_allocate_struct-Reads :
    (d : CmdAllocateStruct)
    → IsCmdAllocateStruct d
    → Reads (read_cmd_allocate_struct) (cmd_allocate_struct_bytes d) d
unfolding read_cmd_allocate_struct
read_cmd_allocate_struct-Reads d v =
    Reads-end
      (λ buf. record {
        fd = u32_at buf 0;
        flag = u32_at buf 4;
        offset = u64_at buf 8;
        size = u64_at buf 16;
      })
      (read_full-Reads (put_u32 d.fd ++ put_u32 d.flag ++ put_u64 d.offset ++ put_u64 d.size))
      (λ i. record {
        fd = get-put_u32 d.fd v.0 i;
        flag = get-put_u32 d.flag v.1 i;
        offset = get-put_u64 d.offset v.2 i;
        size = get-put_u64 d.size v.3 i;
      })

pub length-cmd_sync_struct_bytes :
    (d : CmdSyncStruct) → length (cmd_sync_struct_bytes d) ≡ get_cmd_sync_struct_required_size d
unfolding get_cmd_sync_struct_required_size
length-cmd_sync_struct_bytes d = omega arith

pub write_cmd_sync_struct-Emits :
    {W : Type 0} (o : Writer W) (d : CmdSyncStruct)
    → IsCmdSyncStruct d
    → Emits o (write_cmd_sync_struct o d) (cmd_sync_struct_bytes d)
unfolding write_cmd_sync_struct
write_cmd_sync_struct-Emits o d v = write-Emits o _

pub read_cmd_sync_struct-Reads :
    (d : CmdSyncStruct)
    → IsCmdSyncStruct d
    → Reads (read_cmd_sync_struct) (cmd_sync_struct_bytes d) d
unfolding read_cmd_sync_struct
read_cmd_sync_struct-Reads d v =
    Reads-end (λ buf. record { fd = u32_at buf 0 }) (read_full-Reads (put_u32 d.fd))
      (λ i. record { fd = get-put_u32 d.fd v i })

pub length-cmd_read_at_struct_bytes :
    (d : CmdReadAtStruct)
    → length (cmd_read_at_struct_bytes d) ≡ get_cmd_read_at_struct_required_size d
unfolding get_cmd_read_at_struct_required_size
length-cmd_read_at_struct_bytes d = omega arith

pub write_cmd_read_at_struct-Emits :
    {W : Type 0} (o : Writer W) (d : CmdReadAtStruct)
    → IsCmdReadAtStruct d
    → Emits o (write_cmd_read_at_struct o d) (cmd_read_at_struct_bytes d)
unfolding write_cmd_read_at_struct
write_cmd_read_at_struct-Emits o d v = write-Emits o _

pub read_cmd_read_at_struct-Reads :
    (d : CmdReadAtStruct)
    → IsCmdReadAtStruct d
    → Reads (read_cmd_read_at_struct) (cmd_read_at_struct_bytes d) d
unfolding read_cmd_read_at_struct
read_cmd_read_at_struct-Reads d v =
    Reads-end (λ buf. record { fd = u32_at buf 0; offset = u64_at buf 4; size = u64_at buf 12 })
      (read_full-Reads (put_u32 d.fd ++ put_u64 d.offset ++ put_u64 d.size))
      (λ i. record {
        fd = get-put_u32 d.fd v.0 i;
        offset = get-put_u64 d.offset v.1 i;
        size = get-put_u64 d.size v.2 i;
      })

pub length-cmd_write_at_struct_bytes :
    (d : CmdWriteAtStruct)
    → length (cmd_write_at_struct_bytes d) ≡ get_cmd_write_at_struct_required_size d
unfolding get_cmd_write_at_struct_required_size
length-cmd_write_at_struct_bytes d = omega arith

pub write_cmd_write_at_struct-Emits :
    {W : Type 0} (o : Writer W) (d : CmdWriteAtStruct)
    → IsCmdWriteAtStruct d
    → Emits o (write_cmd_write_at_struct o d) (cmd_write_at_struct_bytes d)
unfolding write_cmd_write_at_struct
write_cmd_write_at_struct-Emits o d v = >>-Emits o (write-Emits o _) (write-Emits o d.payload)

pub read_cmd_write_at_struct_with_buffer-ReadsAll :
    (size : ℕ) (d : CmdWriteAtStruct)
    → IsCmdWriteAtStruct d
    → length d.payload ≤ size
    → ReadsAll (read_cmd_write_at_struct_with_buffer size) (cmd_write_at_struct_bytes d) d
unfolding read_cmd_write_at_struct_with_buffer
read_cmd_write_at_struct_with_buffer-ReadsAll size d v h =
    ReadsAll-bind _ (read_full-Reads (put_u32 d.fd ++ put_u64 d.offset)) (
      ReadsAll-end
        (λ payload. record {
          fd = u32_at (put_u32 d.fd ++ put_u64 d.offset) 0;
          offset = u64_at (put_u32 d.fd ++ put_u64 d.offset) 4;
          payload = payload;
        })
        (read_all_to_buffer-ReadsAll size d.payload h)
        (λ i. record {
          fd = get-put_u32 d.fd v.0 i;
          offset = get-put_u64 d.offset v.1 i;
          payload = d.payload;
        }))

pub length-cmd_write_stream_open_struct_bytes :
    (d : CmdWriteStreamOpenStruct)
    → length (cmd_write_stream_open_struct_bytes d)
      ≡ get_cmd_write_stream_open_struct_required_size d
unfolding get_cmd_write_stream_open_struct_required_size
length-cmd_write_stream_open_struct_bytes d = omega arith

pub write_cmd_write_stream_open_struct-Emits :
    {W : Type 0} (o : Writer W) (d : CmdWriteStreamOpenStruct)
    → IsCmdWriteStreamOpenStruct d
    → Emits o (write_cmd_write_stream_open_struct o d) (cmd_write_stream_open_struct_bytes d)
unfolding write_cmd_write_stream_open_struct
write_cmd_write_stream_open_struct-Emits o d v =
    >>-Emits o (write-Emits o _) (write-Emits o d.payload)

pub read_cmd_write_stream_open_struct_with_buffer-ReadsAll :
    (size : ℕ) (d : CmdWriteStreamOpenStruct)
    → IsCmdWriteStreamOpenStruct d
    → length d.payload ≤ size
    → ReadsAll
        (read_cmd_write_stream_open_struct_with_buffer size)
        (cmd_write_stream_open_struct_bytes d)
        d
unfolding read_cmd_write_stream_open_struct_with_buffer
read_cmd_write_stream_open_struct_with_buffer-ReadsAll size d v h =
    ReadsAll-bind _ (read_full-Reads (put_u32 d.fd ++ put_u64 d.offset)) (
      ReadsAll-end
        (λ payload. record {
          fd = u32_at (put_u32 d.fd ++ put_u64 d.offset) 0;
          offset = u64_at (put_u32 d.fd ++ put_u64 d.offset) 4;
          payload = payload;
        })
        (read_all_to_buffer-ReadsAll size d.payload h)
        (λ i. record {
          fd = get-put_u32 d.fd v.0 i;
          offset = get-put_u64 d.offset v.1 i;
          payload = d.payload;
        }))

pub length-cmd_write_stream_data_struct_bytes :
    (d : CmdWriteStreamDataStruct)
    → length (cmd_write_stream_data_struct_bytes d)
      ≡ get_cmd_write_stream_data_struct_required_size d
unfolding get_cmd_write_stream_data_struct_required_size
length-cmd_write_stream_data_struct_bytes d = omega arith

pub write_cmd_write_stream_data_struct-Emits :
    {W : Type 0} (o : Writer W) (d : CmdWriteStreamDataStruct)
    → IsCmdWriteStreamDataStruct d
    → Emits o (write_cmd_write_stream_data_struct o d) (cmd_write_stream_data_struct_bytes d)
unfolding write_cmd_write_stream_data_struct
write_cmd_write_stream_data_struct-Emits o d v =
    >>-Emits o (write-Emits o _) (write-Emits o d.payload)

pub read_cmd_write_stream_data_struct_with_buffer-ReadsAll :
    (size : ℕ) (d : CmdWriteStreamDataStruct)
    → IsCmdWriteStreamDataStruct d
    → length d.payload ≤ size
    → ReadsAll
        (read_cmd_write_stream_data_struct_with_buffer size)
        (cmd_write_stream_data_struct_bytes d)
        d
unfolding read_cmd_write_stream_data_struct_with_buffer
read_cmd_write_stream_data_struct_with_buffer-ReadsAll size d v h =
    ReadsAll-bind _ (read_full-Reads (put_u8 d.is_end)) (
      ReadsAll-end (λ payload. record { is_end = u8_at (put_u8 d.is_end) 0; payload = payload })
        (read_all_to_buffer-ReadsAll size d.payload h)
        (λ i. record { is_end = get-put_u8 d.is_end v i; payload = d.payload }))
