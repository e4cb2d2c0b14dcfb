-- ===== src/Wire/Amd64/PathCmd/Laws.antt =====
-- The codec for amd64 against the wire format: the requests that name one path.
use wsfs_core.Wire.Bytes.{put_u8, put_u32, u8_at, u32_at, get-put_u8, get-put_u32}
use wsfs_core.Wire.Source.{Reads}
use wsfs_core.Wire.Source.Laws.{Reads-bind, Reads-end, read_full-Reads}
use wsfs_core.Wire.Sink.{Writer, Emits, write-Emits, >>-Emits}
use wsfs_core.Wire.Str.{write_str-Emits, read_str-Reads}
use wsfs_core.Wire.PathCmd.{
  CmdOpenStruct, CmdReadDirStruct, CmdReadDirPlusStruct, CmdReadLinkStruct, CmdGetAttrStruct,
  CmdSetAttrStruct, CmdMkdirStruct, CmdRemoveStruct, CmdRmDirStruct, CmdFsStatStruct,
  IsCmdOpenStruct, IsCmdReadDirStruct, IsCmdReadDirPlusStruct, IsCmdReadLinkStruct,
  IsCmdGetAttrStruct, IsCmdSetAttrStruct, IsCmdMkdirStruct, IsCmdRemoveStruct, IsCmdRmDirStruct,
  IsCmdFsStatStruct, cmd_open_struct_bytes, cmd_read_dir_struct_bytes,
  cmd_read_dir_plus_struct_bytes, cmd_read_link_struct_bytes, cmd_get_attr_struct_bytes,
  cmd_set_attr_struct_bytes, cmd_mkdir_struct_bytes, cmd_remove_struct_bytes,
  cmd_rm_dir_struct_bytes, cmd_fs_stat_struct_bytes,
}
use wsfs_core.Wire.Amd64.Attr.Laws.{write_file_info_amd64-Emits, read_file_info_amd64-Reads}
use wsfs_core.Wire.Amd64.PathCmd.{
  write_cmd_open_struct_amd64, read_cmd_open_struct_amd64, write_cmd_read_dir_struct_amd64,
  read_cmd_read_dir_struct_amd64, write_cmd_read_dir_plus_struct_amd64,
  read_cmd_read_dir_plus_struct_amd64, write_cmd_read_link_struct_amd64,
  read_cmd_read_link_struct_amd64, write_cmd_get_attr_struct_amd64, read_cmd_get_attr_struct_amd64,
  write_cmd_set_attr_struct_amd64, read_cmd_set_attr_struct_amd64, write_cmd_mkdir_struct_amd64,
  read_cmd_mkdir_struct_amd64, write_cmd_remove_struct_amd64, read_cmd_remove_struct_amd64,
  write_cmd_rm_dir_struct_amd64, read_cmd_rm_dir_struct_amd64, write_cmd_fs_stat_struct_amd64,
  read_cmd_fs_stat_struct_amd64,
}

pub write_cmd_open_struct_amd64-Emits :
    {W : Type 0} (o : Writer W) (d : CmdOpenStruct)
    → IsCmdOpenStruct d
    → Emits o (write_cmd_open_struct_amd64 o d) (cmd_open_struct_bytes d)
unfolding write_cmd_open_struct_amd64
write_cmd_open_struct_amd64-Emits o d v =
    >>-Emits o (write_str-Emits o d.path v.0) (>>-Emits o (write-Emits o _) (write-Emits o _))

pub read_cmd_open_struct_amd64-Reads :
    (d : CmdOpenStruct)
    → IsCmdOpenStruct d
    → Reads read_cmd_open_struct_amd64 (cmd_open_struct_bytes d) d
unfolding read_cmd_open_struct_amd64
read_cmd_open_struct_amd64-Reads d v = Reads-bind _ (read_str-Reads d.path v.0) (
    Reads-bind _ (read_full-Reads (put_u32 d.oflag)) (
      Reads-end
        (λ fmode_bytes. record {
          path = d.path;
          oflag = u32_at (put_u32 d.oflag) 0;
          fmode = u32_at fmode_bytes 0;
        })
        (read_full-Reads (put_u32 d.fmode))
        (λ i. record {
          path = d.path;
          oflag = get-put_u32 d.oflag v.1 i;
          fmode = get-put_u32 d.fmode v.2 i;
        })))

pub write_cmd_read_dir_struct_amd64-Emits :
    {W : Type 0} (o : Writer W) (d : CmdReadDirStruct)
    → IsCmdReadDirStruct d
    → Emits o (write_cmd_read_dir_struct_amd64 o d) (cmd_read_dir_struct_bytes d)
unfolding write_cmd_read_dir_struct_amd64
write_cmd_read_dir_struct_amd64-Emits o d v = write_str-Emits o d.path v

pub read_cmd_read_dir_struct_amd64-Reads :
    (d : CmdReadDirStruct)
    → IsCmdReadDirStruct d
    → Reads read_cmd_read_dir_struct_amd64 (cmd_read_dir_struct_bytes d) d
unfolding read_cmd_read_dir_struct_amd64
read_cmd_read_dir_struct_amd64-Reads d v =
    Reads-end (λ path. record { path = path }) (read_str-Reads d.path v)
      (λ i. record { path = d.path })

pub write_cmd_read_dir_plus_struct_amd64-Emits :
    {W : Type 0} (o : Writer W) (d : CmdReadDirPlusStruct)
    → IsCmdReadDirPlusStruct d
    → Emits o (write_cmd_read_dir_plus_struct_amd64 o d) (cmd_read_dir_plus_struct_bytes d)
unfolding write_cmd_read_dir_plus_struct_amd64
write_cmd_read_dir_plus_struct_amd64-Emits o d v = write_str-Emits o d.path v

pub read_cmd_read_dir_plus_struct_amd64-Reads :
    (d : CmdReadDirPlusStruct)
    → IsCmdReadDirPlusStruct d
    → Reads read_cmd_read_dir_plus_struct_amd64 (cmd_read_dir_plus_struct_bytes d) d
unfolding read_cmd_read_dir_plus_struct_amd64
read_cmd_read_dir_plus_struct_amd64-Reads d v =
    Reads-end (λ path. record { path = path }) (read_str-Reads d.path v)
      (λ i. record { path = d.path })

pub write_cmd_read_link_struct_amd64-Emits :
    {W : Type 0} (o : Writer W) (d : CmdReadLinkStruct)
    → IsCmdReadLinkStruct d
    → Emits o (write_cmd_read_link_struct_amd64 o d) (cmd_read_link_struct_bytes d)
unfolding write_cmd_read_link_struct_amd64
write_cmd_read_link_struct_amd64-Emits o d v = write_str-Emits o d.path v

pub read_cmd_read_link_struct_amd64-Reads :
    (d : CmdReadLinkStruct)
    → IsCmdReadLinkStruct d
    → Reads read_cmd_read_link_struct_amd64 (cmd_read_link_struct_bytes d) d
unfolding read_cmd_read_link_struct_amd64
read_cmd_read_link_struct_amd64-Reads d v =
    Reads-end (λ path. record { path = path }) (read_str-Reads d.path v)
      (λ i. record { path = d.path })

pub write_cmd_get_attr_struct_amd64-Emits :
    {W : Type 0} (o : Writer W) (d : CmdGetAttrStruct)
    → IsCmdGetAttrStruct d
    → Emits o (write_cmd_get_attr_struct_amd64 o d) (cmd_get_attr_struct_bytes d)
unfolding write_cmd_get_attr_struct_amd64
write_cmd_get_attr_struct_amd64-Emits o d v = write_str-Emits o d.path v

pub read_cmd_get_attr_struct_amd64-Reads :
    (d : CmdGetAttrStruct)
    → IsCmdGetAttrStruct d
    → Reads read_cmd_get_attr_struct_amd64 (cmd_get_attr_struct_bytes d) d
unfolding read_cmd_get_attr_struct_amd64
read_cmd_get_attr_struct_amd64-Reads d v =
    Reads-end (λ path. record { path = path }) (read_str-Reads d.path v)
      (λ i. record { path = d.path })

pub write_cmd_set_attr_struct_amd64-Emits :
    {W : Type 0} (o : Writer W) (d : CmdSetAttrStruct)
    → IsCmdSetAttrStruct d
    → Emits o (write_cmd_set_attr_struct_amd64 o d) (cmd_set_attr_struct_bytes d)
unfolding write_cmd_set_attr_struct_amd64
write_cmd_set_attr_struct_amd64-Emits o d v =
    >>-Emits o (write_str-Emits o d.path v.0)
      (>>-Emits o (write-Emits o _) (write_file_info_amd64-Emits o d.fi v.2))

pub read_cmd_set_attr_struct_amd64-Reads :
    (d : CmdSetAttrStruct)
    → IsCmdSetAttrStruct d
    → Reads read_cmd_set_attr_struct_amd64 (cmd_set_attr_struct_bytes d) d
unfolding read_cmd_set_attr_struct_amd64
read_cmd_set_attr_struct_amd64-Reads d v = Reads-bind _ (read_str-Reads d.path v.0) (
    Reads-bind _ (read_full-Reads (put_u8 d.flag)) (
      Reads-end (λ fi. record { path = d.path; flag = u8_at (put_u8 d.flag) 0; fi = fi })
        (read_file_info_amd64-Reads d.fi v.2)
        (λ i. record { path = d.path; flag = get-put_u8 d.flag v.1 i; fi = d.fi })))

pub write_cmd_mkdir_struct_amd64-Emits :
    {W : Type 0} (o : Writer W) (d : CmdMkdirStruct)
    → IsCmdMkdirStruct d
    → Emits o (write_cmd_mkdir_struct_amd64 o d) (cmd_mkdir_struct_bytes d)
unfolding write_cmd_mkdir_struct_amd64
write_cmd_mkdir_struct_amd64-Emits o d v =
    >>-Emits o (write_str-Emits o d.path v.0) (write-Emits o _)

pub read_cmd_mkdir_struct_amd64-Reads :
    (d : CmdMkdirStruct)
    → IsCmdMkdirStruct d
    → Reads read_cmd_mkdir_struct_amd64 (cmd_mkdir_struct_bytes d) d
unfolding read_cmd_mkdir_struct_amd64
read_cmd_mkdir_struct_amd64-Reads d v = Reads-bind _ (read_str-Reads d.path v.0) (
    Reads-end (λ mode_bytes. record { path = d.path; mode = u32_at mode_bytes 0 })
      (read_full-Reads (put_u32 d.mode))
      (λ i. record { path = d.path; mode = get-put_u32 d.mode v.1 i }))

pub write_cmd_remove_struct_amd64-Emits :
    {W : Type 0} (o : Writer W) (d : CmdRemoveStruct)
    → IsCmdRemoveStruct d
    → Emits o (write_cmd_remove_struct_amd64 o d) (cmd_remove_struct_bytes d)
unfolding write_cmd_remove_struct_amd64
write_cmd_remove_struct_amd64-Emits o d v = write_str-Emits o d.path v

pub read_cmd_remove_struct_amd64-Reads :
    (d : CmdRemoveStruct)
    → IsCmdRemoveStruct d
    → Reads read_cmd_remove_struct_amd64 (cmd_remove_struct_bytes d) d
unfolding read_cmd_remove_struct_amd64
read_cmd_remove_struct_amd64-Reads d v =
    Reads-end (λ path. record { path = path }) (read_str-Reads d.path v)
      (λ i. record { path = d.path })

pub write_cmd_rm_dir_struct_amd64-Emits :
    {W : Type 0} (o : Writer W) (d : CmdRmDirStruct)
    → IsCmdRmDirStruct d
    → Emits o (write_cmd_rm_dir_struct_amd64 o d) (cmd_rm_dir_struct_bytes d)
unfolding write_cmd_rm_dir_struct_amd64
write_cmd_rm_dir_struct_amd64-Emits o d v = write_str-Emits o d.path v

pub read_cmd_rm_dir_struct_amd64-Reads :
    (d : CmdRmDirStruct)
    → IsCmdRmDirStruct d
    → Reads read_cmd_rm_dir_struct_amd64 (cmd_rm_dir_struct_bytes d) d
unfolding read_cmd_rm_dir_struct_amd64
read_cmd_rm_dir_struct_amd64-Reads d v =
    Reads-end (λ path. record { path = path }) (read_str-Reads d.path v)
      (λ i. record { path = d.path })

pub write_cmd_fs_stat_struct_amd64-Emits :
    {W : Type 0} (o : Writer W) (d : CmdFsStatStruct)
    → IsCmdFsStatStruct d
    → Emits o (write_cmd_fs_stat_struct_amd64 o d) (cmd_fs_stat_struct_bytes d)
unfolding write_cmd_fs_stat_struct_amd64
write_cmd_fs_stat_struct_amd64-Emits o d v = write_str-Emits o d.path v

pub read_cmd_fs_stat_struct_amd64-Reads :
    (d : CmdFsStatStruct)
    → IsCmdFsStatStruct d
    → Reads read_cmd_fs_stat_struct_amd64 (cmd_fs_stat_struct_bytes d) d
unfolding read_cmd_fs_stat_struct_amd64
read_cmd_fs_stat_struct_amd64-Reads d v =
    Reads-end (λ path. record { path = path }) (read_str-Reads d.path v)
      (λ i. record { path = d.path })
