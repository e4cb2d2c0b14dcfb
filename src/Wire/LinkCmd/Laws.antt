-- ===== src/Wire/LinkCmd/Laws.antt =====
-- The size, the encoding and the decoding of the requests that name two paths, and those on extended attributes.
use wsfs_core.Prelude.{ℕ, ◌≤◌, ◌≡◌, ◌++◌, length, length-append, arith}
use wsfs_core.Wire.Bytes.{put_u32, u32_at, get-put_u32}
use wsfs_core.Wire.Source.{Reads, ReadsAll}
use wsfs_core.Wire.Source.Laws.{
  Reads-bind, Reads-end, ReadsAll-bind, ReadsAll-end, read_full-Reads, read_all_to_buffer-ReadsAll,
}
use wsfs_core.Wire.Sink.{Writer, Emits, write-Emits, >>-Emits}
use wsfs_core.Wire.Str.{str_bytes, write_str-Emits, read_str-Reads}
use wsfs_core.Wire.LinkCmd.{
  CmdSymLinkStruct, IsCmdSymLinkStruct, get_cmd_sym_link_struct_required_size,
  write_cmd_sym_link_struct, cmd_sym_link_struct_bytes, read_cmd_sym_link_struct, CmdRenameStruct,
  IsCmdRenameStruct, get_cmd_rename_struct_required_size, write_cmd_rename_struct,
  cmd_rename_struct_bytes, read_cmd_rename_struct, CmdLinkStruct, IsCmdLinkStruct,
  get_cmd_link_struct_required_size, write_cmd_link_struct, cmd_link_struct_bytes,
  read_cmd_link_struct, CmdSetXAttrStruct, IsCmdSetXAttrStruct,
  get_cmd_set_xattr_struct_required_size, write_cmd_set_xattr_struct, cmd_set_xattr_struct_bytes,
  read_cmd_set_xattr_struct_with_buffer, CmdGetXAttrStruct, IsCmdGetXAttrStruct,
  get_cmd_get_xattr_struct_required_size, write_cmd_get_xattr_struct, cmd_get_xattr_struct_bytes,
  read_cmd_get_xattr_struct, CmdListXAttrStruct, IsCmdListXAttrStruct,
  get_cmd_list_xattr_struct_required_size, write_cmd_list_xattr_struct, cmd_list_xattr_struct_bytes,
  read_cmd_list_xattr_struct, CmdRemoveXAttrStruct, IsCmdRemoveXAttrStruct,
  get_cmd_remove_xattr_struct_required_size, write_cmd_remove_xattr_struct,
  cmd_remove_xattr_struct_bytes, read_cmd_remove_xattr_struct,
}

pub length-cmd_sym_link_struct_bytes :
    (d : CmdSymLinkStruct)
    → length (cmd_sym_link_struct_bytes d) ≡ get_cmd_sym_link_struct_required_size d
unfolding get_cmd_sym_link_struct_required_size
length-cmd_sym_link_struct_bytes d =
    omega (arith, length-append d.target_path (str_bytes d.file_path))

pub write_cmd_sym_link_struct-Emits :
    {W : Type 0} (o : Writer W) (d : CmdSymLinkStruct)
    → IsCmdSymLinkStruct d
    → Emits o (write_cmd_sym_link_struct o d) (cmd_sym_link_struct_bytes d)
unfolding write_cmd_sym_link_struct
write_cmd_sym_link_struct-Emits o d v =
    >>-Emits o (write_str-Emits o d.target_path v.0) (write_str-Emits o d.file_path v.1)

pub read_cmd_sym_link_struct-Reads :
    (d : CmdSymLinkStruct)
    → IsCmdSymLinkStruct d
    → Reads (read_cmd_sym_link_struct) (cmd_sym_link_struct_bytes d) d
unfolding read_cmd_sym_link_struct
read_cmd_sym_link_struct-Reads d v = Reads-bind _ (read_str-Reads d.target_path v.0) (
    Reads-end (λ file_path. record { target_path = d.target_path; file_path = file_path })
      (read_str-Reads d.file_path v.1)
      (λ i. record { target_path = d.target_path; file_path = d.file_path }))

pub length-cmd_rename_struct_bytes :
    (d : CmdRenameStruct)
    → length (cmd_rename_struct_bytes d) ≡ get_cmd_rename_struct_required_size d
unfolding get_cmd_rename_struct_required_size
length-cmd_rename_struct_bytes d = omega (
  arith,
  length-append d.old_path (str_bytes d.new_path ++ ((put_u32 d.flag))),
  length-append d.new_path ((put_u32 d.flag)),
)

pub write_cmd_rename_struct-Emits :
    {W : Type 0} (o : Writer W) (d : CmdRenameStruct)
    → IsCmdRenameStruct d
    → Emits o (write_cmd_rename_struct o d) (cmd_rename_struct_bytes d)
unfolding write_cmd_rename_struct
write_cmd_rename_struct-Emits o d v =
    >>-Emits o (write_str-Emits o d.old_path v.0)
      (>>-Emits o (write_str-Emits o d.new_path v.1) (write-Emits o _))

pub read_cmd_rename_struct-Reads :
    (d : CmdRenameStruct)
    → IsCmdRenameStruct d
    → Reads (read_cmd_rename_struct) (cmd_rename_struct_bytes d) d
unfolding read_cmd_rename_struct
read_cmd_rename_struct-Reads d v = Reads-bind _ (read_str-Reads d.old_path v.0) (
    Reads-bind _ (read_str-Reads d.new_path v.1) (
      Reads-end
        (λ buf. record { old_path = d.old_path; new_path = d.new_path; flag = u32_at buf 0 })
        (read_full-Reads (put_u32 d.flag))
        (λ i. record {
          old_path = d.old_path;
          new_path = d.new_path;
          flag = get-put_u32 d.flag v.2 i;
        })))

pub length-cmd_link_struct_bytes :
    (d : CmdLinkStruct) → length (cmd_link_struct_bytes d) ≡ get_cmd_link_struct_required_size d
unfolding get_cmd_link_struct_required_size
length-cmd_link_struct_bytes d = omega (arith, length-append d.target_path (str_bytes d.file_path))

pub write_cmd_link_struct-Emits :
    {W : Type 0} (o : Writer W) (d : CmdLinkStruct)
    → IsCmdLinkStruct d
    → Emits o (write_cmd_link_struct o d) (cmd_link_struct_bytes d)
unfolding write_cmd_link_struct
write_cmd_link_struct-Emits o d v =
    >>-Emits o (write_str-Emits o d.target_path v.0) (write_str-Emits o d.file_path v.1)

pub read_cmd_link_struct-Reads :
    (d : CmdLinkStruct)
    → IsCmdLinkStruct d
    → Reads (read_cmd_link_struct) (cmd_link_struct_bytes d) d
unfolding read_cmd_link_struct
read_cmd_link_struct-Reads d v = Reads-bind _ (read_str-Reads d.target_path v.0) (
    Reads-end (λ file_path. record { target_path = d.target_path; file_path = file_path })
      (read_str-Reads d.file_path v.1)
      (λ i. record { target_path = d.target_path; file_path = d.file_path }))

pub length-cmd_set_xattr_struct_bytes :
    (d : CmdSetXAttrStruct)
    → length (cmd_set_xattr_struct_bytes d) ≡ get_cmd_set_xattr_struct_required_size d
unfolding get_cmd_set_xattr_struct_required_size
length-cmd_set_xattr_struct_bytes d = omega (
  arith,
  length-append d.path ((put_u32 d.flag) ++ (str_bytes d.key ++ (d.value))),
  length-append d.key (d.value),
)

pub write_cmd_set_xattr_struct-Emits :
    {W : Type 0} (o : Writer W) (d : CmdSetXAttrStruct)
    → IsCmdSetXAttrStruct d
    → Emits o (write_cmd_set_xattr_struct o d) (cmd_set_xattr_struct_bytes d)
unfolding write_cmd_set_xattr_struct
write_cmd_set_xattr_struct-Emits o d v = >>-Emits o (write_str-Emits o d.path v.0) (
    >>-Emits o (write-Emits o _) (>>-Emits o (write_str-Emits o d.key v.2) (write-Emits o d.value)))

pub read_cmd_set_xattr_struct_with_buffer-ReadsAll :
    (size : ℕ) (d : CmdSetXAttrStruct)
    → IsCmdSetXAttrStruct d
    → length d.value ≤ size
    → ReadsAll (read_cmd_set_xattr_struct_with_buffer size) (cmd_set_xattr_struct_bytes d) d
unfolding read_cmd_set_xattr_struct_with_buffer
read_cmd_set_xattr_struct_with_buffer-ReadsAll size d v h =
    ReadsAll-bind _ (read_str-Reads d.path v.0) (
      ReadsAll-bind _ (read_full-Reads (put_u32 d.flag)) (
        ReadsAll-bind _ (read_str-Reads d.key v.2) (
          ReadsAll-end
            (λ value. record {
              path = d.path;
              flag = u32_at (put_u32 d.flag) 0;
              key = d.key;
              value = value;
            })
            (read_all_to_buffer-ReadsAll size d.value h)
            (λ i. record {
              path = d.path;
              flag = get-put_u32 d.flag v.1 i;
              key = d.key;
              value = d.value;
            }))))

pub length-cmd_get_xattr_struct_bytes :
    (d : CmdGetXAttrStruct)
    → length (cmd_get_xattr_struct_bytes d) ≡ get_cmd_get_xattr_struct_required_size d
unfolding get_cmd_get_xattr_struct_required_size
length-cmd_get_xattr_struct_bytes d = omega (
  arith,
  length-append d.path (str_bytes d.key ++ ((put_u32 d.mode))),
  length-append d.key ((put_u32 d.mode)),
)

pub write_cmd_get_xattr_struct-Emits :
    {W : Type 0} (o : Writer W) (d : CmdGetXAttrStruct)
    → IsCmdGetXAttrStruct d
    → Emits o (write_cmd_get_xattr_struct o d) (cmd_get_xattr_struct_bytes d)
unfolding write_cmd_get_xattr_struct
write_cmd_get_xattr_struct-Emits o d v =
    >>-Emits o (write_str-Emits o d.path v.0)
      (>>-Emits o (write_str-Emits o d.key v.1) (write-Emits o _))

pub read_cmd_get_xattr_struct-Reads :
    (d : CmdGetXAttrStruct)
    → IsCmdGetXAttrStruct d
    → Reads (read_cmd_get_xattr_struct) (cmd_get_xattr_struct_bytes d) d
unfolding read_cmd_get_xattr_struct
read_cmd_get_xattr_struct-Reads d v = Reads-bind _ (read_str-Reads d.path v.0) (
    Reads-bind _ (read_str-Reads d.key v.1) (
      Reads-end (λ buf. record { path = d.path; key = d.key; mode = u32_at buf 0 })
        (read_full-Reads (put_u32 d.mode))
        (λ i. record { path = d.path; key = d.key; mode = get-put_u32 d.mode v.2 i })))

pub length-cmd_list_xattr_struct_bytes :
    (d : CmdListXAttrStruct)
    → length (cmd_list_xattr_struct_bytes d) ≡ get_cmd_list_xattr_struct_required_size d
unfolding get_cmd_list_xattr_struct_required_size
length-cmd_list_xattr_struct_bytes d = omega (arith, length-append d.path ((put_u32 d.mode)))

pub write_cmd_list_xattr_struct-Emits :
    {W : Type 0} (o : Writer W) (d : CmdListXAttrStruct)
    → IsCmdListXAttrStruct d
    → Emits o (write_cmd_list_xattr_struct o d) (cmd_list_xattr_struct_bytes d)
unfolding write_cmd_list_xattr_struct
write_cmd_list_xattr_struct-Emits o d v =
    >>-Emits o (write_str-Emits o d.path v.0) (write-Emits o _)

pub read_cmd_list_xattr_struct-Reads :
    (d : CmdListXAttrStruct)
    → IsCmdListXAttrStruct d
    → Reads (read_cmd_list_xattr_struct) (cmd_list_xattr_struct_bytes d) d
unfolding read_cmd_list_xattr_struct
read_cmd_list_xattr_struct-Reads d v = Reads-bind _ (read_str-Reads d.path v.0) (
    Reads-end (λ buf. record { path = d.path; mode = u32_at buf 0 })
      (read_full-Reads (put_u32 d.mode))
      (λ i. record { path = d.path; mode = get-put_u32 d.mode v.1 i }))

pub length-cmd_remove_xattr_struct_bytes :
    (d : CmdRemoveXAttrStruct)
    → length (cmd_remove_xattr_struct_bytes d) ≡ get_cmd_remove_xattr_struct_required_size d
unfolding get_cmd_remove_xattr_struct_required_size
length-cmd_remove_xattr_struct_bytes d = omega (
  arith,
  length-append d.path (str_bytes d.key ++ ((put_u32 d.mode))),
  length-append d.key ((put_u32 d.mode)),
)

pub write_cmd_remove_xattr_struct-Emits :
    {W : Type 0} (o : Writer W) (d : CmdRemoveXAttrStruct)
    → IsCmdRemoveXAttrStruct d
    → Emits o (write_cmd_remove_xattr_struct o d) (cmd_remove_xattr_struct_bytes d)
unfolding write_cmd_remove_xattr_struct
write_cmd_remove_xattr_struct-Emits o d v =
    >>-Emits o (write_str-Emits o d.path v.0)
      (>>-Emits o (write_str-Emits o d.key v.1) (write-Emits o _))

pub read_cmd_remove_xattr_struct-Reads :
    (d : CmdRemoveXAttrStruct)
    → IsCmdRemoveXAttrStruct d
    → Reads (read_cmd_remove_xattr_struct) (cmd_remove_xattr_struct_bytes d) d
unfolding read_cmd_remove_xattr_struct
read_cmd_remove_xattr_struct-Reads d v = Reads-bind _ (read_str-Reads d.path v.0) (
    Reads-bind _ (read_str-Reads d.key v.1) (
      Reads-end (λ buf. record { path = d.path; key = d.key; mode = u32_at buf 0 })
        (read_full-Reads (put_u32 d.mode))
        (λ i. record { path = d.path; key = d.key; mode = get-put_u32 d.mode v.2 i })))
