-- ===== src/Wire/PathCmd/Laws.antt =====
-- The size, the encoding and the decoding of the requests that name one path.
use wsfs_core.Prelude.{◌≡◌, ◌++◌, length, length-append, arith}
use wsfs_core.Wire.Bytes.{put_u8, put_u32, u8_at, u32_at, get-put_u8, get-put_u32}
use wsfs_core.Wire.Source.{Reads}
use wsfs_core.Wire.Source.Laws.{Reads-bind, Reads-end, read_full-Reads}
use wsfs_core.Wire.Sink.{Writer, Emits, write-Emits, >>-Emits}
use wsfs_core.Wire.Str.{write_str-Emits, read_str-Reads}
use wsfs_core.Wire.PathCmd.{
  CmdOpenStruct, IsCmdOpenStruct, get_cmd_open_struct_required_size, write_cmd_open_struct,
  cmd_open_struct_bytes, read_cmd_open_struct, CmdReadDirStruct, IsCmdReadDirStruct,
  get_cmd_read_dir_struct_required_size, write_cmd_read_dir_struct, cmd_read_dir_struct_bytes,
  read_cmd_read_dir_struct, CmdReadDirPlusStruct, IsCmdReadDirPlusStruct,
  get_cmd_read_dir_plus_struct_required_size, write_cmd_read_dir_plus_struct,
  cmd_read_dir_plus_struct_bytes, read_cmd_read_dir_plus_struct, CmdReadLinkStruct,
  IsCmdReadLinkStruct, get_cmd_read_link_struct_required_size, write_cmd_read_link_struct,
  cmd_read_link_struct_bytes, read_cmd_read_link_struct, CmdGetAttrStruct, IsCmdGetAttrStruct,
  get_cmd_get_attr_struct_required_size, write_cmd_get_attr_struct, cmd_get_attr_struct_bytes,
  read_cmd_get_attr_struct, CmdSetAttrStruct, IsCmdSetAttrStruct,
  get_cmd_set_attr_struct_required_size, write_cmd_set_attr_struct, cmd_set_attr_struct_bytes,
  read_cmd_set_attr_struct, CmdMkdirStruct, IsCmdMkdirStruct, get_cmd_mkdir_struct_required_size,
  write_cmd_mkdir_struct, cmd_mkdir_struct_bytes, read_cmd_mkdir_struct, CmdRemoveStruct,
  IsCmdRemoveStruct, get_cmd_remove_struct_required_size, write_cmd_remove_struct,
  cmd_remove_struct_bytes, read_cmd_remove_struct, CmdRmDirStruct, IsCmdRmDirStruct,
  get_cmd_rm_dir_struct_required_size, write_cmd_rm_dir_struct, cmd_rm_dir_struct_bytes,
  read_cmd_rm_dir_struct, CmdFsStatStruct, IsCmdFsStatStruct, get_cmd_fs_stat_struct_required_size,
  write_cmd_fs_stat_struct, cmd_fs_stat_struct_bytes, read_cmd_fs_stat_struct,
}
use wsfs_core.Wire.Attr.{file_info_bytes}
use wsfs_core.Wire.Attr.Laws.{write_file_info-Emits, read_file_info-Reads}

pub length-cmd_open_struct_bytes :
    (d : CmdOpenStruct) → length (cmd_open_struct_bytes d) ≡ get_cmd_open_struct_required_size d
unfolding get_cmd_open_struct_required_size
length-cmd_open_struct_bytes d =
    omega (arith, length-append d.path ((put_u32 d.oflag ++ put_u32 d.fmode)))

pub write_cmd_open_struct-Emits :
    {W : Type 0} (o : Writer W) (d : CmdOpenStruct)
    → IsCmdOpenStruct d
    → Emits o (write_cmd_open_struct o d) (cmd_open_struct_bytes d)
unfolding write_cmd_open_struct
write_cmd_open_struct-Emits o d v = >>-Emits o (write_str-Emits o d.path v.0) (write-Emits o _)

pub read_cmd_open_struct-Reads :
    (d : CmdOpenStruct)
    → IsCmdOpenStruct d
    → Reads (read_cmd_open_struct) (cmd_open_struct_bytes d) d
unfolding read_cmd_open_struct
read_cmd_open_struct-Reads d v = Reads-bind _ (read_str-Reads d.path v.0) (
    Reads-end (λ buf. record { path = d.path; oflag = u32_at buf 0; fmode = u32_at buf 4 })
      (read_full-Reads (put_u32 d.oflag ++ put_u32 d.fmode))
      (λ i. record {
        path = d.path;
        oflag = get-put_u32 d.oflag v.1 i;
        fmode = get-put_u32 d.fmode v.2 i;
      }))

pub length-cmd_read_dir_struct_bytes :
    (d : CmdReadDirStruct)
    → length (cmd_read_dir_struct_bytes d) ≡ get_cmd_read_dir_struct_required_size d
unfolding get_cmd_read_dir_struct_required_size
length-cmd_read_dir_struct_bytes d = omega arith

pub write_cmd_read_dir_struct-Emits :
    {W : Type 0} (o : Writer W) (d : CmdReadDirStruct)
    → IsCmdReadDirStruct d
    → Emits o (write_cmd_read_dir_struct o d) (cmd_read_dir_struct_bytes d)
unfolding write_cmd_read_dir_struct
write_cmd_read_dir_struct-Emits o d v = write_str-Emits o d.path v

pub read_cmd_read_dir_struct-Reads :
    (d : CmdReadDirStruct)
    → IsCmdReadDirStruct d
    → Reads (read_cmd_read_dir_struct) (cmd_read_dir_struct_bytes d) d
unfolding read_cmd_read_dir_struct
read_cmd_read_dir_struct-Reads d v =
    Reads-end (λ path. record { path = path }) (read_str-Reads d.path v)
      (λ i. record { path = d.path })

pub length-cmd_read_dir_plus_struct_bytes :
    (d : CmdReadDirPlusStruct)
    → length (cmd_read_dir_plus_struct_bytes d) ≡ get_cmd_read_dir_plus_struct_required_size d
unfolding get_cmd_read_dir_plus_struct_required_size
length-cmd_read_dir_plus_struct_bytes d = omega arith

pub write_cmd_read_dir_plus_struct-Emits :
    {W : Type 0} (o : Writer W) (d : CmdReadDirPlusStruct)
    → IsCmdReadDirPlusStruct d
    → Emits o (write_cmd_read_dir_plus_struct o d) (cmd_read_dir_plus_struct_bytes d)
unfolding write_cmd_read_dir_plus_struct
write_cmd_read_dir_plus_struct-Emits o d v = write_str-Emits o d.path v

pub read_cmd_read_dir_plus_struct-Reads :
    (d : CmdReadDirPlusStruct)
    → IsCmdReadDirPlusStruct d
    → Reads (read_cmd_read_dir_plus_struct) (cmd_read_dir_plus_struct_bytes d) d
unfolding read_cmd_read_dir_plus_struct
read_cmd_read_dir_plus_struct-Reads d v =
    Reads-end (λ path. record { path = path }) (read_str-Reads d.path v)
      (λ i. record { path = d.path })

pub length-cmd_read_link_struct_bytes :
    (d : CmdReadLinkStruct)
    → length (cmd_read_link_struct_bytes d) ≡ get_cmd_read_link_struct_required_size d
unfolding get_cmd_read_link_struct_required_size
length-cmd_read_link_struct_bytes d = omega arith

pub write_cmd_read_link_struct-Emits :
    {W : Type 0} (o : Writer W) (d : CmdReadLinkStruct)
    → IsCmdReadLinkStruct d
    → Emits o (write_cmd_read_link_struct o d) (cmd_read_link_struct_bytes d)
unfolding write_cmd_read_link_struct
write_cmd_read_link_struct-Emits o d v = write_str-Emits o d.path v

pub read_cmd_read_link_struct-Reads :
    (d : CmdReadLinkStruct)
    → IsCmdReadLinkStruct d
    → Reads (read_cmd_read_link_struct) (cmd_read_link_struct_bytes d) d
unfolding read_cmd_read_link_struct
read_cmd_read_link_struct-Reads d v =
    Reads-end (λ path. record { path = path }) (read_str-Reads d.path v)
      (λ i. record { path = d.path })

pub length-cmd_get_attr_struct_bytes :
    (d : CmdGetAttrStruct)
    → length (cmd_get_attr_struct_bytes d) ≡ get_cmd_get_attr_struct_required_size d
unfolding get_cmd_get_attr_struct_required_size
length-cmd_get_attr_struct_bytes d = omega arith

pub write_cmd_get_attr_struct-Emits :
    {W : Type 0} (o : Writer W) (d : CmdGetAttrStruct)
    → IsCmdGetAttrStruct d
    → Emits o (write_cmd_get_attr_struct o d) (cmd_get_attr_struct_bytes d)
unfolding write_cmd_get_attr_struct
write_cmd_get_attr_struct-Emits o d v = write_str-Emits o d.path v

pub read_cmd_get_attr_struct-Reads :
    (d : CmdGetAttrStruct)
    → IsCmdGetAttrStruct d
    → Reads (read_cmd_get_attr_struct) (cmd_get_attr_struct_bytes d) d
unfolding read_cmd_get_attr_struct
read_cmd_get_attr_struct-Reads d v =
    Reads-end (λ path. record { path = path }) (read_str-Reads d.path v)
      (λ i. record { path = d.path })

pub length-cmd_set_attr_struct_bytes :
    (d : CmdSetAttrStruct)
    → length (cmd_set_attr_struct_bytes d) ≡ get_cmd_set_attr_struct_required_size d
unfolding get_cmd_set_attr_struct_required_size
length-cmd_set_attr_struct_bytes d =
    omega (arith, length-append d.path ((put_u8 d.flag) ++ (file_info_bytes d.fi)))

pub write_cmd_set_attr_struct-Emits :
    {W : Type 0} (o : Writer W) (d : CmdSetAttrStruct)
    → IsCmdSetAttrStruct d
    → Emits o (write_cmd_set_attr_struct o d) (cmd_set_attr_struct_bytes d)
unfolding write_cmd_set_attr_struct
write_cmd_set_attr_struct-Emits o d v =
    >>-Emits o (write_str-Emits o d.path v.0)
      (>>-Emits o (write-Emits o _) (write_file_info-Emits o d.fi v.2))

pub read_cmd_set_attr_struct-Reads :
    (d : CmdSetAttrStruct)
    → IsCmdSetAttrStruct d
    → Reads (read_cmd_set_attr_struct) (cmd_set_attr_struct_bytes d) d
unfolding read_cmd_set_attr_struct
read_cmd_set_attr_struct-Reads d v = Reads-bind _ (read_str-Reads d.path v.0) (
    Reads-bind _ (read_full-Reads (put_u8 d.flag)) (
      Reads-end (λ fi. record { path = d.path; flag = u8_at (put_u8 d.flag) 0; fi = fi })
        (read_file_info-Reads d.fi v.2)
        (λ i. record { path = d.path; flag = get-put_u8 d.flag v.1 i; fi = d.fi })))

pub length-cmd_mkdir_struct_bytes :
    (d : CmdMkdirStruct) → length (cmd_mkdir_struct_bytes d) ≡ get_cmd_mkdir_struct_required_size d
unfolding get_cmd_mkdir_struct_required_size
length-cmd_mkdir_struct_bytes d = omega (arith, length-append d.path ((put_u32 d.mode)))

pub write_cmd_mkdir_struct-Emits :
    {W : Type 0} (o : Writer W) (d : CmdMkdirStruct)
    → IsCmdMkdirStruct d
    → Emits o (write_cmd_mkdir_struct o d) (cmd_mkdir_struct_bytes d)
unfolding write_cmd_mkdir_struct
write_cmd_mkdir_struct-Emits o d v = >>-Emits o (write_str-Emits o d.path v.0) (write-Emits o _)

pub read_cmd_mkdir_struct-Reads :
    (d : CmdMkdirStruct)
    → IsCmdMkdirStruct d
    → Reads (read_cmd_mkdir_struct) (cmd_mkdir_struct_bytes d) d
unfolding read_cmd_mkdir_struct
read_cmd_mkdir_struct-Reads d v = Reads-bind _ (read_str-Reads d.path v.0) (
    Reads-end (λ buf. record { path = d.path; mode = u32_at buf 0 })
      (read_full-Reads (put_u32 d.mode))
      (λ i. record { path = d.path; mode = get-put_u32 d.mode v.1 i }))

pub length-cmd_remove_struct_bytes :
    (d : CmdRemoveStruct)
    → length (cmd_remove_struct_bytes d) ≡ get_cmd_remove_struct_required_size d
unfolding get_cmd_remove_struct_required_size
length-cmd_remove_struct_bytes d = omega arith

pub write_cmd_remove_struct-Emits :
    {W : Type 0} (o : Writer W) (d : CmdRemoveStruct)
    → IsCmdRemoveStruct d
    → Emits o (write_cmd_remove_struct o d) (cmd_remove_struct_bytes d)
unfolding write_cmd_remove_struct
write_cmd_remove_struct-Emits o d v = write_str-Emits o d.path v

pub read_cmd_remove_struct-Reads :
    (d : CmdRemoveStruct)
    → IsCmdRemoveStruct d
    → Reads (read_cmd_remove_struct) (cmd_remove_struct_bytes d) d
unfolding read_cmd_remove_struct
read_cmd_remove_struct-Reads d v =
    Reads-end (λ path. record { path = path }) (read_str-Reads d.path v)
      (λ i. record { path = d.path })

pub length-cmd_rm_dir_struct_bytes :
    (d : CmdRmDirStruct)
    → length (cmd_rm_dir_struct_bytes d) ≡ get_cmd_rm_dir_struct_required_size d
unfolding get_cmd_rm_dir_struct_required_size
length-cmd_rm_dir_struct_bytes d = omega arith

pub write_cmd_rm_dir_struct-Emits :
    {W : Type 0} (o : Writer W) (d : CmdRmDirStruct)
    → IsCmdRmDirStruct d
    → Emits o (write_cmd_rm_dir_struct o d) (cmd_rm_dir_struct_bytes d)
unfolding write_cmd_rm_dir_struct
write_cmd_rm_dir_struct-Emits o d v = write_str-Emits o d.path v

pub read_cmd_rm_dir_struct-Reads :
    (d : CmdRmDirStruct)
    → IsCmdRmDirStruct d
    → Reads (read_cmd_rm_dir_struct) (cmd_rm_dir_struct_bytes d) d
unfolding read_cmd_rm_dir_struct
read_cmd_rm_dir_struct-Reads d v =
    Reads-end (λ path. record { path = path }) (read_str-Reads d.path v)
      (λ i. record { path = d.path })

pub length-cmd_fs_stat_struct_bytes :
    (d : CmdFsStatStruct)
    → length (cmd_fs_stat_struct_bytes d) ≡ get_cmd_fs_stat_struct_required_size d
unfolding get_cmd_fs_stat_struct_required_size
length-cmd_fs_stat_struct_bytes d = omega arith

pub write_cmd_fs_stat_struct-Emits :
    {W : Type 0} (o : Writer W) (d : CmdFsStatStruct)
    → IsCmdFsStatStruct d
    → Emits o (write_cmd_fs_stat_struct o d) (cmd_fs_stat_struct_bytes d)
unfolding write_cmd_fs_stat_struct
write_cmd_fs_stat_struct-Emits o d v = write_str-Emits o d.path v

pub read_cmd_fs_stat_struct-Reads :
    (d : CmdFsStatStruct)
    → IsCmdFsStatStruct d
    → Reads (read_cmd_fs_stat_struct) (cmd_fs_stat_struct_bytes d) d
unfolding read_cmd_fs_stat_struct
read_cmd_fs_stat_struct-Reads d v =
    Reads-end (λ path. record { path = path }) (read_str-Reads d.path v)
      (λ i. record { path = d.path })
