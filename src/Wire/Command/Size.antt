-- ===== src/Wire/Command/Size.antt =====
-- The sizes that the Get…RequiredSize functions of struct.gen.go announce.
use wsfs_core.Prelude.{ℕ, ◌≡◌, length}
use wsfs_core.Wire.IoCmd.{
  get_cmd_close_struct_required_size, get_cmd_read_struct_required_size,
  get_cmd_write_struct_required_size, get_cmd_seek_struct_required_size,
  get_cmd_allocate_struct_required_size, get_cmd_sync_struct_required_size,
  get_cmd_read_at_struct_required_size, get_cmd_write_at_struct_required_size,
  get_cmd_write_stream_open_struct_required_size, get_cmd_write_stream_data_struct_required_size,
}
use wsfs_core.Wire.IoCmd.Laws.{
  length-cmd_close_struct_bytes, length-cmd_read_struct_bytes, length-cmd_write_struct_bytes,
  length-cmd_seek_struct_bytes, length-cmd_allocate_struct_bytes, length-cmd_sync_struct_bytes,
  length-cmd_read_at_struct_bytes, length-cmd_write_at_struct_bytes,
  length-cmd_write_stream_open_struct_bytes, length-cmd_write_stream_data_struct_bytes,
}
use wsfs_core.Wire.RangeCmd.{
  get_cmd_copy_file_range_struct_required_size, get_cmd_set_attr_by_fd_struct_required_size,
  get_cmd_clone_file_range_struct_required_size, get_cmd_get_file_lock_struct_required_size,
  get_cmd_set_file_lock_struct_required_size, get_cmd_set_file_lock_wait_struct_required_size,
}
use wsfs_core.Wire.RangeCmd.Laws.{
  length-cmd_copy_file_range_struct_bytes, length-cmd_set_attr_by_fd_struct_bytes,
  length-cmd_clone_file_range_struct_bytes, length-cmd_get_file_lock_struct_bytes,
  length-cmd_set_file_lock_struct_bytes, length-cmd_set_file_lock_wait_struct_bytes,
}
use wsfs_core.Wire.PathCmd.{
  get_cmd_open_struct_required_size, get_cmd_read_dir_struct_required_size,
  get_cmd_read_link_struct_required_size, get_cmd_get_attr_struct_required_size,
  get_cmd_set_attr_struct_required_size, get_cmd_mkdir_struct_required_size,
  get_cmd_remove_struct_required_size, get_cmd_rm_dir_struct_required_size,
  get_cmd_fs_stat_struct_required_size, get_cmd_read_dir_plus_struct_required_size,
}
use wsfs_core.Wire.PathCmd.Laws.{
  length-cmd_open_struct_bytes, length-cmd_read_dir_struct_bytes, length-cmd_read_link_struct_bytes,
  length-cmd_get_attr_struct_bytes, length-cmd_set_attr_struct_bytes, length-cmd_mkdir_struct_bytes,
  length-cmd_remove_struct_bytes, length-cmd_rm_dir_struct_bytes, length-cmd_fs_stat_struct_bytes,
  length-cmd_read_dir_plus_struct_bytes,
}
use wsfs_core.Wire.LinkCmd.{
  get_cmd_sym_link_struct_required_size, get_cmd_rename_struct_required_size,
  get_cmd_link_struct_required_size, get_cmd_set_xattr_struct_required_size,
  get_cmd_get_xattr_struct_required_size, get_cmd_list_xattr_struct_required_size,
  get_cmd_remove_xattr_struct_required_size,
}
use wsfs_core.Wire.LinkCmd.Laws.{
  length-cmd_sym_link_struct_bytes, length-cmd_rename_struct_bytes, length-cmd_link_struct_bytes,
  length-cmd_set_xattr_struct_bytes, length-cmd_get_xattr_struct_bytes,
  length-cmd_list_xattr_struct_bytes, length-cmd_remove_xattr_struct_bytes,
}
use wsfs_core.Wire.Command.{
  Command, command_bytes, open_file, close_file, read_file, read_dir, read_link, write_file, seek,
  allocate, get_attr, set_attr, sync, mkdir, sym_link, remove, rm_dir, fs_stat, read_at, write_at,
  copy_file_range, rename, set_attr_by_fd, read_dir_plus, write_stream_open, write_stream_data,
  clone_file_range, get_file_lock, set_file_lock, set_file_lock_wait, link, set_xattr, get_xattr,
  list_xattr, remove_xattr,
}

abbrev pub command_required_size : Command → ℕ
command_required_size (open_file d) = get_cmd_open_struct_required_size d
command_required_size (close_file d) = get_cmd_close_struct_required_size d
command_required_size (read_file d) = get_cmd_read_struct_required_size d
command_required_size (read_dir d) = get_cmd_read_dir_struct_required_size d
command_required_size (read_link d) = get_cmd_read_link_struct_required_size d
command_required_size (write_file d) = get_cmd_write_struct_required_size d
command_required_size (seek d) = get_cmd_seek_struct_required_size d
command_required_size (allocate d) = get_cmd_allocate_struct_required_size d
command_required_size (get_attr d) = get_cmd_get_attr_struct_required_size d
command_required_size (set_attr d) = get_cmd_set_attr_struct_required_size d
command_required_size (sync d) = get_cmd_sync_struct_required_size d
command_required_size (mkdir d) = get_cmd_mkdir_struct_required_size d
command_required_size (sym_link d) = get_cmd_sym_link_struct_required_size d
command_required_size (remove d) = get_cmd_remove_struct_required_size d
command_required_size (rm_dir d) = get_cmd_rm_dir_struct_required_size d
command_required_size (fs_stat d) = get_cmd_fs_stat_struct_required_size d
command_required_size (read_at d) = get_cmd_read_at_struct_required_size d
command_required_size (write_at d) = get_cmd_write_at_struct_required_size d
command_required_size (copy_file_range d) = get_cmd_copy_file_range_struct_required_size d
command_required_size (rename d) = get_cmd_rename_struct_required_size d
command_required_size (set_attr_by_fd d) = get_cmd_set_attr_by_fd_struct_required_size d
command_required_size (read_dir_plus d) = get_cmd_read_dir_plus_struct_required_size d
command_required_size (write_stream_open d) = get_cmd_write_stream_open_struct_required_size d
command_required_size (write_stream_data d) = get_cmd_write_stream_data_struct_required_size d
command_required_size (clone_file_range d) = get_cmd_clone_file_range_struct_required_size d
command_required_size (get_file_lock d) = get_cmd_get_file_lock_struct_required_size d
command_required_size (set_file_lock d) = get_cmd_set_file_lock_struct_required_size d
command_required_size (set_file_lock_wait d) = get_cmd_set_file_lock_wait_struct_required_size d
command_required_size (link d) = get_cmd_link_struct_required_size d
command_required_size (set_xattr d) = get_cmd_set_xattr_struct_required_size d
command_required_size (get_xattr d) = get_cmd_get_xattr_struct_required_size d
command_required_size (list_xattr d) = get_cmd_list_xattr_struct_required_size d
command_required_size (remove_xattr d) = get_cmd_remove_xattr_struct_required_size d

-- The announced size of every request is the number of bytes that its encoding takes.
pub length-command_bytes : (c : Command) → length (command_bytes c) ≡ command_required_size c
length-command_bytes (open_file d) = length-cmd_open_struct_bytes d
length-command_bytes (close_file d) = length-cmd_close_struct_bytes d
length-command_bytes (read_file d) = length-cmd_read_struct_bytes d
length-command_bytes (read_dir d) = length-cmd_read_dir_struct_bytes d
length-command_bytes (read_link d) = length-cmd_read_link_struct_bytes d
length-command_bytes (write_file d) = length-cmd_write_struct_bytes d
length-command_bytes (seek d) = length-cmd_seek_struct_bytes d
length-command_bytes (allocate d) = length-cmd_allocate_struct_bytes d
length-command_bytes (get_attr d) = length-cmd_get_attr_struct_bytes d
length-command_bytes (set_attr d) = length-cmd_set_attr_struct_bytes d
length-command_bytes (sync d) = length-cmd_sync_struct_bytes d
length-command_bytes (mkdir d) = length-cmd_mkdir_struct_bytes d
length-command_bytes (sym_link d) = length-cmd_sym_link_struct_bytes d
length-command_bytes (remove d) = length-cmd_remove_struct_bytes d
length-command_bytes (rm_dir d) = length-cmd_rm_dir_struct_bytes d
length-command_bytes (fs_stat d) = length-cmd_fs_stat_struct_bytes d
length-command_bytes (read_at d) = length-cmd_read_at_struct_bytes d
length-command_bytes (write_at d) = length-cmd_write_at_struct_bytes d
length-command_bytes (copy_file_range d) = length-cmd_copy_file_range_struct_bytes d
length-command_bytes (rename d) = length-cmd_rename_struct_bytes d
length-command_bytes (set_attr_by_fd d) = length-cmd_set_attr_by_fd_struct_bytes d
length-command_bytes (read_dir_plus d) = length-cmd_read_dir_plus_struct_bytes d
length-command_bytes (write_stream_open d) = length-cmd_write_stream_open_struct_bytes d
length-command_bytes (write_stream_data d) = length-cmd_write_stream_data_struct_bytes d
length-command_bytes (clone_file_range d) = length-cmd_clone_file_range_struct_bytes d
length-command_bytes (get_file_lock d) = length-cmd_get_file_lock_struct_bytes d
length-command_bytes (set_file_lock d) = length-cmd_set_file_lock_struct_bytes d
length-command_bytes (set_file_lock_wait d) = length-cmd_set_file_lock_wait_struct_bytes d
length-command_bytes (link d) = length-cmd_link_struct_bytes d
length-command_bytes (set_xattr d) = length-cmd_set_xattr_struct_bytes d
length-command_bytes (get_xattr d) = length-cmd_get_xattr_struct_bytes d
length-command_bytes (list_xattr d) = length-cmd_list_xattr_struct_bytes d
length-command_bytes (remove_xattr d) = length-cmd_remove_xattr_struct_bytes d
