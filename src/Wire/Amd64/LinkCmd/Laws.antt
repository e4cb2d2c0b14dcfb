-- ===== src/Wire/Amd64/LinkCmd/Laws.antt =====
-- The codec for amd64 against the wire format: the requests that name two paths or a key.
use wsfs_core.Prelude.{ℕ, ◌≤◌, length}
use wsfs_core.Wire.Bytes.{put_u32, u32_at, get-put_u32}
use wsfs_core.Wire.Source.{Reads, ReadsAll}
use wsfs_core.Wire.Source.Laws.{
  Reads-bind, Reads-end, ReadsAll-bind, ReadsAll-end, read_full-Reads, read_all_to_buffer-ReadsAll,
}
use wsfs_core.Wire.Sink.{Writer, Emits, write-Emits, >>-Emits}
use wsfs_core.Wire.Str.{write_str-Emits, read_str-Reads}
use wsfs_core.Wire.LinkCmd.{
  CmdSymLinkStruct, CmdRenameStruct, CmdLinkStruct, CmdSetXAttrStruct, CmdGetXAttrStruct,
  CmdListXAttrStruct, CmdRemoveXAttrStruct, IsCmdSymLinkStruct, IsCmdRenameStruct, IsCmdLinkStruct,
  IsCmdSetXAttrStruct, IsCmdGetXAttrStruct, IsCmdListXAttrStruct, IsCmdRemoveXAttrStruct,
  cmd_sym_link_struct_bytes, cmd_rename_struct_bytes, cmd_link_struct_bytes,
  cmd_set_xattr_struct_bytes, cmd_get_xattr_struct_bytes, cmd_list_xattr_struct_bytes,
  cmd_remove_xattr_struct_bytes,
}
use wsfs_core.Wire.Amd64.LinkCmd.{
  write_cmd_sym_link_struct_amd64, read_cmd_sym_link_struct_amd64, write_cmd_rename_struct_amd64,
  read_cmd_rename_struct_amd64, write_cmd_link_struct_amd64, read_cmd_link_struct_amd64,
  write_cmd_set_xattr_struct_amd64, read_cmd_set_xattr_struct_with_buffer_amd64,
  write_cmd_get_xattr_struct_amd64, read_cmd_get_xattr_struct_amd64,
  write_cmd_list_xattr_struct_amd64, read_cmd_list_xattr_struct_amd64,
  write_cmd_remove_xattr_struct_amd64, read_cmd_remove_xattr_struct_amd64,
}

pub write_cmd_sym_link_struct_amd64-Emits :
    {W : Type 0} (o : Writer W) (d : CmdSymLinkStruct)
    → IsCmdSymLinkStruct d
    → Emits o (write_cmd_sym_link_struct_amd64 o d) (cmd_sym_link_struct_bytes d)
unfolding write_cmd_sym_link_struct_amd64
write_cmd_sym_link_struct_amd64-Emits o d v =
    >>-Emits o (write_str-Emits o d.target_path v.0) (write_str-Emits o d.file_path v.1)

pub read_cmd_sym_link_struct_amd64-Reads :
    (d : CmdSymLinkStruct)
    → IsCmdSymLinkStruct d
    → Reads read_cmd_sym_link_struct_amd64 (cmd_sym_link_struct_bytes d) d
unfolding read_cmd_sym_link_struct_amd64
read_cmd_sym_link_struct_amd64-Reads d v = Reads-bind _ (read_str-Reads d.target_path v.0) (
    Reads-end (λ file_path. record { target_path = d.target_path; file_path = file_path })
      (read_str-Reads d.file_path v.1)
      (λ i. record { target_path = d.target_path; file_path = d.file_path }))

pub write_cmd_rename_struct_amd64-Emits :
    {W : Type 0} (o : Writer W) (d : CmdRenameStruct)
    → IsCmdRenameStruct d
    → Emits o (write_cmd_rename_struct_amd64 o d) (cmd_rename_struct_bytes d)
unfolding write_cmd_rename_struct_amd64
write_cmd_rename_struct_amd64-Emits o d v =
    >>-Emits o (write_str-Emits o d.old_path v.0)
      (>>-Emits o (write_str-Emits o d.new_path v.1) (write-Emits o _))

pub read_cmd_rename_struct_amd64-Reads :
    (d : CmdRenameStruct)
    → IsCmdRenameStruct d
    → Reads read_cmd_rename_struct_amd64 (cmd_rename_struct_bytes d) d
unfolding read_cmd_rename_struct_amd64
read_cmd_rename_struct_amd64-Reads d v = Reads-bind _ (read_str-Reads d.old_path v.0) (
    Reads-bind _ (read_str-Reads d.new_path v.1) (
      Reads-end
        (λ flag_bytes. record {
          old_path = d.old_path;
          new_path = d.new_path;
          flag = u32_at flag_bytes 0;
        })
        (read_full-Reads (put_u32 d.flag))
        (λ i. record {
          old_path = d.old_path;
          new_path = d.new_path;
          flag = get-put_u32 d.flag v.2 i;
        })))

pub write_cmd_link_struct_amd64-Emits :
    {W : Type 0} (o : Writer W) (d : CmdLinkStruct)
    → IsCmdLinkStruct d
    → Emits o (write_cmd_link_struct_amd64 o d) (cmd_link_struct_bytes d)
unfolding write_cmd_link_struct_amd64
write_cmd_link_struct_amd64-Emits o d v =
    >>-Emits o (write_str-Emits o d.target_path v.0) (write_str-Emits o d.file_path v.1)

pub read_cmd_link_struct_amd64-Reads :
    (d : CmdLinkStruct)
    → IsCmdLinkStruct d
    → Reads read_cmd_link_struct_amd64 (cmd_link_struct_bytes d) d
unfolding read_cmd_link_struct_amd64
read_cmd_link_struct_amd64-Reads d v = Reads-bind _ (read_str-Reads d.target_path v.0) (
    Reads-end (λ file_path. record { target_path = d.target_path; file_path = file_path })
      (read_str-Reads d.file_path v.1)
      (λ i. record { target_path = d.target_path; file_path = d.file_path }))

pub write_cmd_set_xattr_struct_amd64-Emits :
    {W : Type 0} (o : Writer W) (d : CmdSetXAttrStruct)
    → IsCmdSetXAttrStruct d
    → Emits o (write_cmd_set_xattr_struct_amd64 o d) (cmd_set_xattr_struct_bytes d)
unfolding write_cmd_set_xattr_struct_amd64
write_cmd_set_xattr_struct_amd64-Emits o d v = >>-Emits o (write_str-Emits o d.path v.0) (
    >>-Emits o (write-Emits o _) (>>-Emits o (write_str-Emits o d.key v.2) (write-Emits o d.value)))

pub read_cmd_set_xattr_struct_with_buffer_amd64-ReadsAll :
    (size : ℕ) (d : CmdSetXAttrStruct)
    → IsCmdSetXAttrStruct d
    → length d.value ≤ size
    → ReadsAll (read_cmd_set_xattr_struct_with_buffer_amd64 size) (cmd_set_xattr_struct_bytes d) d
unfolding read_cmd_set_xattr_struct_with_buffer_amd64
read_cmd_set_xattr_struct_with_buffer_amd64-ReadsAll size d v h =
    ReadsAll-bind _ (read_str-Reads d.path v.0) (
      ReadsAll-bind _ (read_full-Reads (put_u32 d.flag)) (
        ReadsAll-bind _ (read_str-Reads d.key v.2) (
          ReadsAll-end
            (λ value. record {
              path = d.path;
              flag = u32_at (put_u32 d.flag) 0;
              key = d.key;
              value = value;
            })
            (read_all_to_buffer-ReadsAll size d.value h)
            (λ i. record {
              path = d.path;
              flag = get-put_u32 d.flag v.1 i;
              key = d.key;
              value = d.value;
            }))))

pub write_cmd_get_xattr_struct_amd64-Emits :
    {W : Type 0} (o : Writer W) (d : CmdGetXAttrStruct)
    → IsCmdGetXAttrStruct d
    → Emits o (write_cmd_get_xattr_struct_amd64 o d) (cmd_get_xattr_struct_bytes d)
unfolding write_cmd_get_xattr_struct_amd64
write_cmd_get_xattr_struct_amd64-Emits o d v =
    >>-Emits o (write_str-Emits o d.path v.0)
      (>>-Emits o (write_str-Emits o d.key v.1) (write-Emits o _))

pub read_cmd_get_xattr_struct_amd64-Reads :
    (d : CmdGetXAttrStruct)
    → IsCmdGetXAttrStruct d
    → Reads read_cmd_get_xattr_struct_amd64 (cmd_get_xattr_struct_bytes d) d
unfolding read_cmd_get_xattr_struct_amd64
read_cmd_get_xattr_struct_amd64-Reads d v = Reads-bind _ (read_str-Reads d.path v.0) (
    Reads-bind _ (read_str-Reads d.key v.1) (
      Reads-end (λ mode_bytes. record { path = d.path; key = d.key; mode = u32_at mode_bytes 0 })
        (read_full-Reads (put_u32 d.mode))
        (λ i. record { path = d.path; key = d.key; mode = get-put_u32 d.mode v.2 i })))

pub write_cmd_list_xattr_struct_amd64-Emits :
    {W : Type 0} (o : Writer W) (d : CmdListXAttrStruct)
    → IsCmdListXAttrStruct d
    → Emits o (write_cmd_list_xattr_struct_amd64 o d) (cmd_list_xattr_struct_bytes d)
unfolding write_cmd_list_xattr_struct_amd64
write_cmd_list_xattr_struct_amd64-Emits o d v =
    >>-Emits o (write_str-Emits o d.path v.0) (write-Emits o _)

pub read_cmd_list_xattr_struct_amd64-Reads :
    (d : CmdListXAttrStruct)
    → IsCmdListXAttrStruct d
    → Reads read_cmd_list_xattr_struct_amd64 (cmd_list_xattr_struct_bytes d) d
unfolding read_cmd_list_xattr_struct_amd64
read_cmd_list_xattr_struct_amd64-Reads d v = Reads-bind _ (read_str-Reads d.path v.0) (
    Reads-end (λ mode_bytes. record { path = d.path; mode = u32_at mode_bytes 0 })
      (read_full-Reads (put_u32 d.mode))
      (λ i. record { path = d.path; mode = get-put_u32 d.mode v.1 i }))

pub write_cmd_remove_xattr_struct_amd64-Emits :
    {W : Type 0} (o : Writer W) (d : CmdRemoveXAttrStruct)
    → IsCmdRemoveXAttrStruct d
    → Emits o (write_cmd_remove_xattr_struct_amd64 o d) (cmd_remove_xattr_struct_bytes d)
unfolding write_cmd_remove_xattr_struct_amd64
write_cmd_remove_xattr_struct_amd64-Emits o d v =
    >>-Emits o (write_str-Emits o d.path v.0)
      (>>-Emits o (write_str-Emits o d.key v.1) (write-Emits o _))

pub read_cmd_remove_xattr_struct_amd64-Reads :
    (d : CmdRemoveXAttrStruct)
    → IsCmdRemoveXAttrStruct d
    → Reads read_cmd_remove_xattr_struct_amd64 (cmd_remove_xattr_struct_bytes d) d
unfolding read_cmd_remove_xattr_struct_amd64
read_cmd_remove_xattr_struct_amd64-Reads d v = Reads-bind _ (read_str-Reads d.path v.0) (
    Reads-bind _ (read_str-Reads d.key v.1) (
      Reads-end (λ mode_bytes. record { path = d.path; key = d.key; mode = u32_at mode_bytes 0 })
        (read_full-Reads (put_u32 d.mode))
        (λ i. record { path = d.path; key = d.key; mode = get-put_u32 d.mode v.2 i })))
