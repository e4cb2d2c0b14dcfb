-- ===== src/Wire/Command.antt =====
-- const.go: the commands by their codes, and the request of each. `send_command` is what a client
-- writes for a request: the header of beginRequest and the struct.
pub mod Decode
pub mod RoundTrip
pub mod Size
use wsfs_core.Prelude.{ℕ, ◌+◌, ◌≤◌, List, [], ◌∷◌, ◌++◌, length}
use wsfs_core.Wire.Bytes.{Bytes}
use wsfs_core.Wire.Sink.{Writer, Put, ◌>>◌}
use wsfs_core.Wire.IoCmd.{
  CmdCloseStruct, IsCmdCloseStruct, write_cmd_close_struct, cmd_close_struct_bytes,
  get_cmd_close_struct_required_size, CmdReadStruct, IsCmdReadStruct, write_cmd_read_struct,
  cmd_read_struct_bytes, get_cmd_read_struct_required_size, CmdWriteStruct, IsCmdWriteStruct,
  write_cmd_write_struct, cmd_write_struct_bytes, get_cmd_write_struct_required_size, CmdSeekStruct,
  IsCmdSeekStruct, write_cmd_seek_struct, cmd_seek_struct_bytes, get_cmd_seek_struct_required_size,
  CmdAllocateStruct, IsCmdAllocateStruct, write_cmd_allocate_struct, cmd_allocate_struct_bytes,
  get_cmd_allocate_struct_required_size, CmdSyncStruct, IsCmdSyncStruct, write_cmd_sync_struct,
  cmd_sync_struct_bytes, get_cmd_sync_struct_required_size, CmdReadAtStruct, IsCmdReadAtStruct,
  write_cmd_read_at_struct, cmd_read_at_struct_bytes, get_cmd_read_at_struct_required_size,
  CmdWriteAtStruct, IsCmdWriteAtStruct, write_cmd_write_at_struct, cmd_write_at_struct_bytes,
  get_cmd_write_at_struct_required_size, CmdWriteStreamOpenStruct, IsCmdWriteStreamOpenStruct,
  write_cmd_write_stream_open_struct, cmd_write_stream_open_struct_bytes,
  get_cmd_write_stream_open_struct_required_size, CmdWriteStreamDataStruct,
  IsCmdWriteStreamDataStruct, write_cmd_write_stream_data_struct,
  cmd_write_stream_data_struct_bytes, get_cmd_write_stream_data_struct_required_size,
}
use wsfs_core.Wire.RangeCmd.{
  CmdCopyFileRangeStruct, IsCmdCopyFileRangeStruct, write_cmd_copy_file_range_struct,
  cmd_copy_file_range_struct_bytes, get_cmd_copy_file_range_struct_required_size,
  CmdCloneFileRangeStruct, IsCmdCloneFileRangeStruct, write_cmd_clone_file_range_struct,
  cmd_clone_file_range_struct_bytes, get_cmd_clone_file_range_struct_required_size,
  CmdSetAttrByFdStruct, IsCmdSetAttrByFdStruct, write_cmd_set_attr_by_fd_struct,
  cmd_set_attr_by_fd_struct_bytes, get_cmd_set_attr_by_fd_struct_required_size,
  CmdGetFileLockStruct, IsCmdGetFileLockStruct, write_cmd_get_file_lock_struct,
  cmd_get_file_lock_struct_bytes, get_cmd_get_file_lock_struct_required_size, CmdSetFileLockStruct,
  IsCmdSetFileLockStruct, write_cmd_set_file_lock_struct, cmd_set_file_lock_struct_bytes,
  get_cmd_set_file_lock_struct_required_size, CmdSetFileLockWaitStruct, IsCmdSetFileLockWaitStruct,
  write_cmd_set_file_lock_wait_struct, cmd_set_file_lock_wait_struct_bytes,
  get_cmd_set_file_lock_wait_struct_required_size,
}
use wsfs_core.Wire.PathCmd.{
  CmdOpenStruct, IsCmdOpenStruct, write_cmd_open_struct, cmd_open_struct_bytes,
  get_cmd_open_struct_required_size, CmdReadDirStruct, IsCmdReadDirStruct,
  write_cmd_read_dir_struct, cmd_read_dir_struct_bytes, get_cmd_read_dir_struct_required_size,
  CmdReadDirPlusStruct, IsCmdReadDirPlusStruct, write_cmd_read_dir_plus_struct,
  cmd_read_dir_plus_struct_bytes, get_cmd_read_dir_plus_struct_required_size, CmdReadLinkStruct,
  IsCmdReadLinkStruct, write_cmd_read_link_struct, cmd_read_link_struct_bytes,
  get_cmd_read_link_struct_required_size, CmdGetAttrStruct, IsCmdGetAttrStruct,
  write_cmd_get_attr_struct, cmd_get_attr_struct_bytes, get_cmd_get_attr_struct_required_size,
  CmdSetAttrStruct, IsCmdSetAttrStruct, write_cmd_set_attr_struct, cmd_set_attr_struct_bytes,
  get_cmd_set_attr_struct_required_size, CmdMkdirStruct, IsCmdMkdirStruct, write_cmd_mkdir_struct,
  cmd_mkdir_struct_bytes, get_cmd_mkdir_struct_required_size, CmdRemoveStruct, IsCmdRemoveStruct,
  write_cmd_remove_struct, cmd_remove_struct_bytes, get_cmd_remove_struct_required_size,
  CmdRmDirStruct, IsCmdRmDirStruct, write_cmd_rm_dir_struct, cmd_rm_dir_struct_bytes,
  get_cmd_rm_dir_struct_required_size, CmdFsStatStruct, IsCmdFsStatStruct, write_cmd_fs_stat_struct,
  cmd_fs_stat_struct_bytes, get_cmd_fs_stat_struct_required_size,
}
use wsfs_core.Wire.LinkCmd.{
  CmdSymLinkStruct, IsCmdSymLinkStruct, write_cmd_sym_link_struct, cmd_sym_link_struct_bytes,
  get_cmd_sym_link_struct_required_size, CmdRenameStruct, IsCmdRenameStruct,
  write_cmd_rename_struct, cmd_rename_struct_bytes, get_cmd_rename_struct_required_size,
  CmdLinkStruct, IsCmdLinkStruct, write_cmd_link_struct, cmd_link_struct_bytes,
  get_cmd_link_struct_required_size, CmdSetXAttrStruct, IsCmdSetXAttrStruct,
  write_cmd_set_xattr_struct, cmd_set_xattr_struct_bytes, get_cmd_set_xattr_struct_required_size,
  CmdGetXAttrStruct, IsCmdGetXAttrStruct, write_cmd_get_xattr_struct, cmd_get_xattr_struct_bytes,
  get_cmd_get_xattr_struct_required_size, CmdListXAttrStruct, IsCmdListXAttrStruct,
  write_cmd_list_xattr_struct, cmd_list_xattr_struct_bytes, get_cmd_list_xattr_struct_required_size,
  CmdRemoveXAttrStruct, IsCmdRemoveXAttrStruct, write_cmd_remove_xattr_struct,
  cmd_remove_xattr_struct_bytes, get_cmd_remove_xattr_struct_required_size,
}

abbrev pub max_msg_size : ℕ
max_msg_size = 8192

abbrev pub max_command_length : ℕ
max_command_length = max_msg_size

pub data Command : Type 0 where
  open_file : CmdOpenStruct → Command
  close_file : CmdCloseStruct → Command
  read_file : CmdReadStruct → Command
  read_dir : CmdReadDirStruct → Command
  read_link : CmdReadLinkStruct → Command
  write_file : CmdWriteStruct → Command
  seek : CmdSeekStruct → Command
  allocate : CmdAllocateStruct → Command
  get_attr : CmdGetAttrStruct → Command
  set_attr : CmdSetAttrStruct → Command
  sync : CmdSyncStruct → Command
  mkdir : CmdMkdirStruct → Command
  sym_link : CmdSymLinkStruct → Command
  remove : CmdRemoveStruct → Command
  rm_dir : CmdRmDirStruct → Command
  fs_stat : CmdFsStatStruct → Command
  read_at : CmdReadAtStruct → Command
  write_at : CmdWriteAtStruct → Command
  copy_file_range : CmdCopyFileRangeStruct → Command
  rename : CmdRenameStruct → Command
  set_attr_by_fd : CmdSetAttrByFdStruct → Command
  read_dir_plus : CmdReadDirPlusStruct → Command
  write_stream_open : CmdWriteStreamOpenStruct → Command
  write_stream_data : CmdWriteStreamDataStruct → Command
  clone_file_range : CmdCloneFileRangeStruct → Command
  get_file_lock : CmdGetFileLockStruct → Command
  set_file_lock : CmdSetFileLockStruct → Command
  set_file_lock_wait : CmdSetFileLockWaitStruct → Command
  link : CmdLinkStruct → Command
  set_xattr : CmdSetXAttrStruct → Command
  get_xattr : CmdGetXAttrStruct → Command
  list_xattr : CmdListXAttrStruct → Command
  remove_xattr : CmdRemoveXAttrStruct → Command

abbrev pub cmd_code : Command → ℕ
cmd_code (open_file d) = 1
cmd_code (close_file d) = 2
cmd_code (read_file d) = 3
cmd_code (read_dir d) = 4
cmd_code (read_link d) = 5
cmd_code (write_file d) = 6
cmd_code (seek d) = 7
cmd_code (allocate d) = 8
cmd_code (get_attr d) = 9
cmd_code (set_attr d) = 10
cmd_code (sync d) = 11
cmd_code (mkdir d) = 12
cmd_code (sym_link d) = 13
cmd_code (remove d) = 14
cmd_code (rm_dir d) = 15
cmd_code (fs_stat d) = 16
cmd_code (read_at d) = 17
cmd_code (write_at d) = 18
cmd_code (copy_file_range d) = 19
cmd_code (rename d) = 20
cmd_code (set_attr_by_fd d) = 21
cmd_code (read_dir_plus d) = 22
cmd_code (write_stream_open d) = 23
cmd_code (write_stream_data d) = 24
cmd_code (clone_file_range d) = 25
cmd_code (get_file_lock d) = 26
cmd_code (set_file_lock d) = 27
cmd_code (set_file_lock_wait d) = 28
cmd_code (link d) = 29
cmd_code (set_xattr d) = 30
cmd_code (get_xattr d) = 31
cmd_code (list_xattr d) = 32
cmd_code (remove_xattr d) = 33

-- The fields have their Go types, and data fits the buffer that the server reads it into.
abbrev pub IsCommand : Command → Type 0
IsCommand (open_file d) = IsCmdOpenStruct d
IsCommand (close_file d) = IsCmdCloseStruct d
IsCommand (read_file d) = IsCmdReadStruct d
IsCommand (read_dir d) = IsCmdReadDirStruct d
IsCommand (read_link d) = IsCmdReadLinkStruct d
IsCommand (write_file d) = IsCmdWriteStruct d × (length d.payload ≤ max_command_length)
IsCommand (seek d) = IsCmdSeekStruct d
IsCommand (allocate d) = IsCmdAllocateStruct d
IsCommand (get_attr d) = IsCmdGetAttrStruct d
IsCommand (set_attr d) = IsCmdSetAttrStruct d
IsCommand (sync d) = IsCmdSyncStruct d
IsCommand (mkdir d) = IsCmdMkdirStruct d
IsCommand (sym_link d) = IsCmdSymLinkStruct d
IsCommand (remove d) = IsCmdRemoveStruct d
IsCommand (rm_dir d) = IsCmdRmDirStruct d
IsCommand (fs_stat d) = IsCmdFsStatStruct d
IsCommand (read_at d) = IsCmdReadAtStruct d
IsCommand (write_at d) = IsCmdWriteAtStruct d × (length d.payload ≤ max_command_length)
IsCommand (copy_file_range d) = IsCmdCopyFileRangeStruct d
IsCommand (rename d) = IsCmdRenameStruct d
IsCommand (set_attr_by_fd d) = IsCmdSetAttrByFdStruct d
IsCommand (read_dir_plus d) = IsCmdReadDirPlusStruct d
IsCommand (write_stream_open d) =
    IsCmdWriteStreamOpenStruct d × (length d.payload ≤ max_command_length)
IsCommand (write_stream_data d) =
    IsCmdWriteStreamDataStruct d × (length d.payload ≤ max_command_length)
IsCommand (clone_file_range d) = IsCmdCloneFileRangeStruct d
IsCommand (get_file_lock d) = IsCmdGetFileLockStruct d
IsCommand (set_file_lock d) = IsCmdSetFileLockStruct d
IsCommand (set_file_lock_wait d) = IsCmdSetFileLockWaitStruct d
IsCommand (link d) = IsCmdLinkStruct d
IsCommand (set_xattr d) = IsCmdSetXAttrStruct d × (length d.value ≤ max_command_length)
IsCommand (get_xattr d) = IsCmdGetXAttrStruct d
IsCommand (list_xattr d) = IsCmdListXAttrStruct d
IsCommand (remove_xattr d) = IsCmdRemoveXAttrStruct d

abbrev pub command_bytes : Command → Bytes
command_bytes (open_file d) = cmd_open_struct_bytes d
command_bytes (close_file d) = cmd_close_struct_bytes d
command_bytes (read_file d) = cmd_read_struct_bytes d
command_bytes (read_dir d) = cmd_read_dir_struct_bytes d
command_bytes (read_link d) = cmd_read_link_struct_bytes d
command_bytes (write_file d) = cmd_write_struct_bytes d
command_bytes (seek d) = cmd_seek_struct_bytes d
command_bytes (allocate d) = cmd_allocate_struct_bytes d
command_bytes (get_attr d) = cmd_get_attr_struct_bytes d
command_bytes (set_attr d) = cmd_set_attr_struct_bytes d
command_bytes (sync d) = cmd_sync_struct_bytes d
command_bytes (mkdir d) = cmd_mkdir_struct_bytes d
command_bytes (sym_link d) = cmd_sym_link_struct_bytes d
command_bytes (remove d) = cmd_remove_struct_bytes d
command_bytes (rm_dir d) = cmd_rm_dir_struct_bytes d
command_bytes (fs_stat d) = cmd_fs_stat_struct_bytes d
command_bytes (read_at d) = cmd_read_at_struct_bytes d
command_bytes (write_at d) = cmd_write_at_struct_bytes d
command_bytes (copy_file_range d) = cmd_copy_file_range_struct_bytes d
command_bytes (rename d) = cmd_rename_struct_bytes d
command_bytes (set_attr_by_fd d) = cmd_set_attr_by_fd_struct_bytes d
command_bytes (read_dir_plus d) = cmd_read_dir_plus_struct_bytes d
command_bytes (write_stream_open d) = cmd_write_stream_open_struct_bytes d
command_bytes (write_stream_data d) = cmd_write_stream_data_struct_bytes d
command_bytes (clone_file_range d) = cmd_clone_file_range_struct_bytes d
command_bytes (get_file_lock d) = cmd_get_file_lock_struct_bytes d
command_bytes (set_file_lock d) = cmd_set_file_lock_struct_bytes d
command_bytes (set_file_lock_wait d) = cmd_set_file_lock_wait_struct_bytes d
command_bytes (link d) = cmd_link_struct_bytes d
command_bytes (set_xattr d) = cmd_set_xattr_struct_bytes d
command_bytes (get_xattr d) = cmd_get_xattr_struct_bytes d
command_bytes (list_xattr d) = cmd_list_xattr_struct_bytes d
command_bytes (remove_xattr d) = cmd_remove_xattr_struct_bytes d

unfoldable pub write_command : {W : Type 0} → Writer W → Command → Put W
write_command o (open_file d) = write_cmd_open_struct o d
write_command o (close_file d) = write_cmd_close_struct o d
write_command o (read_file d) = write_cmd_read_struct o d
write_command o (read_dir d) = write_cmd_read_dir_struct o d
write_command o (read_link d) = write_cmd_read_link_struct o d
write_command o (write_file d) = write_cmd_write_struct o d
write_command o (seek d) = write_cmd_seek_struct o d
write_command o (allocate d) = write_cmd_allocate_struct o d
write_command o (get_attr d) = write_cmd_get_attr_struct o d
write_command o (set_attr d) = write_cmd_set_attr_struct o d
write_command o (sync d) = write_cmd_sync_struct o d
write_command o (mkdir d) = write_cmd_mkdir_struct o d
write_command o (sym_link d) = write_cmd_sym_link_struct o d
write_command o (remove d) = write_cmd_remove_struct o d
write_command o (rm_dir d) = write_cmd_rm_dir_struct o d
write_command o (fs_stat d) = write_cmd_fs_stat_struct o d
write_command o (read_at d) = write_cmd_read_at_struct o d
write_command o (write_at d) = write_cmd_write_at_struct o d
write_command o (copy_file_range d) = write_cmd_copy_file_range_struct o d
write_command o (rename d) = write_cmd_rename_struct o d
write_command o (set_attr_by_fd d) = write_cmd_set_attr_by_fd_struct o d
write_command o (read_dir_plus d) = write_cmd_read_dir_plus_struct o d
write_command o (write_stream_open d) = write_cmd_write_stream_open_struct o d
write_command o (write_stream_data d) = write_cmd_write_stream_data_struct o d
write_command o (clone_file_range d) = write_cmd_clone_file_range_struct o d
write_command o (get_file_lock d) = write_cmd_get_file_lock_struct o d
write_command o (set_file_lock d) = write_cmd_set_file_lock_struct o d
write_command o (set_file_lock_wait d) = write_cmd_set_file_lock_wait_struct o d
write_command o (link d) = write_cmd_link_struct o d
write_command o (set_xattr d) = write_cmd_set_xattr_struct o d
write_command o (get_xattr d) = write_cmd_get_xattr_struct o d
write_command o (list_xattr d) = write_cmd_list_xattr_struct o d
write_command o (remove_xattr d) = write_cmd_remove_xattr_struct o d

-- The message of a request: client mark, command code, struct.
abbrev pub frame : ℕ → Command → Bytes
frame mark c = mark ∷ cmd_code c ∷ command_bytes c

unfoldable pub begin_request : {W : Type 0} → Writer W → ℕ → ℕ → Put W
begin_request o mark cmd = o.write (mark ∷ cmd ∷ [])

unfoldable pub send_command : {W : Type 0} → Writer W → ℕ → Command → Put W
unfolding begin_request
send_command o mark c = do begin_request o mark (cmd_code c); write_command o c
