-- ===== src/Wire/Amd64/Requests.antt =====
-- All requests in the codec for amd64, and that it keeps to the wire format.
use wsfs_core.Prelude.{refl}
use wsfs_core.Wire.Source.{Decoder, ReadsAll, ◌>>=◌, pure}
use wsfs_core.Wire.Source.Laws.{Reads-ReadsAll, ReadsAll-end}
use wsfs_core.Wire.Sink.{Writer, Put, Emits}
use wsfs_core.Wire.Command.{
  Command, IsCommand, command_bytes, open_file, close_file, read_file, read_dir, read_link,
  write_file, seek, allocate, get_attr, set_attr, sync, mkdir, sym_link, remove, rm_dir, fs_stat,
  read_at, write_at, copy_file_range, rename, set_attr_by_fd, read_dir_plus, write_stream_open,
  write_stream_data, clone_file_range, get_file_lock, set_file_lock, set_file_lock_wait, link,
  set_xattr, get_xattr, list_xattr, remove_xattr, max_command_length,
}
use wsfs_core.Wire.Amd64.PathCmd.{
  write_cmd_open_struct_amd64, read_cmd_open_struct_amd64, write_cmd_read_dir_struct_amd64,
  read_cmd_read_dir_struct_amd64, write_cmd_read_link_struct_amd64, read_cmd_read_link_struct_amd64,
  write_cmd_get_attr_struct_amd64, read_cmd_get_attr_struct_amd64, write_cmd_set_attr_struct_amd64,
  read_cmd_set_attr_struct_amd64, write_cmd_mkdir_struct_amd64, read_cmd_mkdir_struct_amd64,
  write_cmd_remove_struct_amd64, read_cmd_remove_struct_amd64, write_cmd_rm_dir_struct_amd64,
  read_cmd_rm_dir_struct_amd64, write_cmd_fs_stat_struct_amd64, read_cmd_fs_stat_struct_amd64,
  write_cmd_read_dir_plus_struct_amd64, read_cmd_read_dir_plus_struct_amd64,
}
use wsfs_core.Wire.Amd64.PathCmd.Laws.{
  write_cmd_open_struct_amd64-Emits, read_cmd_open_struct_amd64-Reads,
  write_cmd_read_dir_struct_amd64-Emits, read_cmd_read_dir_struct_amd64-Reads,
  write_cmd_read_link_struct_amd64-Emits, read_cmd_read_link_struct_amd64-Reads,
  write_cmd_get_attr_struct_amd64-Emits, read_cmd_get_attr_struct_amd64-Reads,
  write_cmd_set_attr_struct_amd64-Emits, read_cmd_set_attr_struct_amd64-Reads,
  write_cmd_mkdir_struct_amd64-Emits, read_cmd_mkdir_struct_amd64-Reads,
  write_cmd_remove_struct_amd64-Emits, read_cmd_remove_struct_amd64-Reads,
  write_cmd_rm_dir_struct_amd64-Emits, read_cmd_rm_dir_struct_amd64-Reads,
  write_cmd_fs_stat_struct_amd64-Emits, read_cmd_fs_stat_struct_amd64-Reads,
  write_cmd_read_dir_plus_struct_amd64-Emits, read_cmd_read_dir_plus_struct_amd64-Reads,
}
use wsfs_core.Wire.Amd64.IoCmd.{
  write_cmd_close_struct_amd64, read_cmd_close_struct_amd64, write_cmd_read_struct_amd64,
  read_cmd_read_struct_amd64, write_cmd_write_struct_amd64, read_cmd_write_struct_with_buffer_amd64,
  write_cmd_seek_struct_amd64, read_cmd_seek_struct_amd64, write_cmd_allocate_struct_amd64,
  read_cmd_allocate_struct_amd64, write_cmd_sync_struct_amd64, read_cmd_sync_struct_amd64,
  write_cmd_read_at_struct_amd64, read_cmd_read_at_struct_amd64, write_cmd_write_at_struct_amd64,
  read_cmd_write_at_struct_with_buffer_amd64, write_cmd_write_stream_open_struct_amd64,
  read_cmd_write_stream_open_struct_with_buffer_amd64, write_cmd_write_stream_data_struct_amd64,
  read_cmd_write_stream_data_struct_with_buffer_amd64,
}
use wsfs_core.Wire.Amd64.IoCmd.Laws.{
  write_cmd_close_struct_amd64-Emits, read_cmd_close_struct_amd64-Reads,
  write_cmd_read_struct_amd64-Emits, read_cmd_read_struct_amd64-Reads,
  write_cmd_write_struct_amd64-Emits, read_cmd_write_struct_with_buffer_amd64-ReadsAll,
  write_cmd_seek_struct_amd64-Emits, read_cmd_seek_struct_amd64-Reads,
  write_cmd_allocate_struct_amd64-Emits, read_cmd_allocate_struct_amd64-Reads,
  write_cmd_sync_struct_amd64-Emits, read_cmd_sync_struct_amd64-Reads,
  write_cmd_read_at_struct_amd64-Emits, read_cmd_read_at_struct_amd64-Reads,
  write_cmd_write_at_struct_amd64-Emits, read_cmd_write_at_struct_with_buffer_amd64-ReadsAll,
  write_cmd_write_stream_open_struct_amd64-Emits,
  read_cmd_write_stream_open_struct_with_buffer_amd64-ReadsAll,
  write_cmd_write_stream_data_struct_amd64-Emits,
  read_cmd_write_stream_data_struct_with_buffer_amd64-ReadsAll,
}
use wsfs_core.Wire.Amd64.LinkCmd.{
  write_cmd_sym_link_struct_amd64, read_cmd_sym_link_struct_amd64, write_cmd_rename_struct_amd64,
  read_cmd_rename_struct_amd64, write_cmd_link_struct_amd64, read_cmd_link_struct_amd64,
  write_cmd_set_xattr_struct_amd64, read_cmd_set_xattr_struct_with_buffer_amd64,
  write_cmd_get_xattr_struct_amd64, read_cmd_get_xattr_struct_amd64,
  write_cmd_list_xattr_struct_amd64, read_cmd_list_xattr_struct_amd64,
  write_cmd_remove_xattr_struct_amd64, read_cmd_remove_xattr_struct_amd64,
}
use wsfs_core.Wire.Amd64.LinkCmd.Laws.{
  write_cmd_sym_link_struct_amd64-Emits, read_cmd_sym_link_struct_amd64-Reads,
  write_cmd_rename_struct_amd64-Emits, read_cmd_rename_struct_amd64-Reads,
  write_cmd_link_struct_amd64-Emits, read_cmd_link_struct_amd64-Reads,
  write_cmd_set_xattr_struct_amd64-Emits, read_cmd_set_xattr_struct_with_buffer_amd64-ReadsAll,
  write_cmd_get_xattr_struct_amd64-Emits, read_cmd_get_xattr_struct_amd64-Reads,
  write_cmd_list_xattr_struct_amd64-Emits, read_cmd_list_xattr_struct_amd64-Reads,
  write_cmd_remove_xattr_struct_amd64-Emits, read_cmd_remove_xattr_struct_amd64-Reads,
}
use wsfs_core.Wire.Amd64.RangeCmd.{
  write_cmd_copy_file_range_struct_amd64, read_cmd_copy_file_range_struct_amd64,
  write_cmd_set_attr_by_fd_struct_amd64, read_cmd_set_attr_by_fd_struct_amd64,
  write_cmd_clone_file_range_struct_amd64, read_cmd_clone_file_range_struct_amd64,
  write_cmd_get_file_lock_struct_amd64, read_cmd_get_file_lock_struct_amd64,
  write_cmd_set_file_lock_struct_amd64, read_cmd_set_file_lock_struct_amd64,
  write_cmd_set_file_lock_wait_struct_amd64, read_cmd_set_file_lock_wait_struct_amd64,
}
use wsfs_core.Wire.Amd64.RangeCmd.Laws.{
  write_cmd_copy_file_range_struct_amd64-Emits, read_cmd_copy_file_range_struct_amd64-Reads,
  write_cmd_set_attr_by_fd_struct_amd64-Emits, read_cmd_set_attr_by_fd_struct_amd64-Reads,
  write_cmd_clone_file_range_struct_amd64-Emits, read_cmd_clone_file_range_struct_amd64-Reads,
  write_cmd_get_file_lock_struct_amd64-Emits, read_cmd_get_file_lock_struct_amd64-Reads,
  write_cmd_set_file_lock_struct_amd64-Emits, read_cmd_set_file_lock_struct_amd64-Reads,
  write_cmd_set_file_lock_wait_struct_amd64-Emits, read_cmd_set_file_lock_wait_struct_amd64-Reads,
}

unfoldable pub write_command_amd64 : {W : Type 0} → Writer W → Command → Put W
write_command_amd64 o (open_file d) = write_cmd_open_struct_amd64 o d
write_command_amd64 o (close_file d) = write_cmd_close_struct_amd64 o d
write_command_amd64 o (read_file d) = write_cmd_read_struct_amd64 o d
write_command_amd64 o (read_dir d) = write_cmd_read_dir_struct_amd64 o d
write_command_amd64 o (read_link d) = write_cmd_read_link_struct_amd64 o d
write_command_amd64 o (write_file d) = write_cmd_write_struct_amd64 o d
write_command_amd64 o (seek d) = write_cmd_seek_struct_amd64 o d
write_command_amd64 o (allocate d) = write_cmd_allocate_struct_amd64 o d
write_command_amd64 o (get_attr d) = write_cmd_get_attr_struct_amd64 o d
write_command_amd64 o (set_attr d) = write_cmd_set_attr_struct_amd64 o d
write_command_amd64 o (sync d) = write_cmd_sync_struct_amd64 o d
write_command_amd64 o (mkdir d) = write_cmd_mkdir_struct_amd64 o d
write_command_amd64 o (sym_link d) = write_cmd_sym_link_struct_amd64 o d
write_command_amd64 o (remove d) = write_cmd_remove_struct_amd64 o d
write_command_amd64 o (rm_dir d) = write_cmd_rm_dir_struct_amd64 o d
write_command_amd64 o (fs_stat d) = write_cmd_fs_stat_struct_amd64 o d
write_command_amd64 o (read_at d) = write_cmd_read_at_struct_amd64 o d
write_command_amd64 o (write_at d) = write_cmd_write_at_struct_amd64 o d
write_command_amd64 o (copy_file_range d) = write_cmd_copy_file_range_struct_amd64 o d
write_command_amd64 o (rename d) = write_cmd_rename_struct_amd64 o d
write_command_amd64 o (set_attr_by_fd d) = write_cmd_set_attr_by_fd_struct_amd64 o d
write_command_amd64 o (read_dir_plus d) = write_cmd_read_dir_plus_struct_amd64 o d
write_command_amd64 o (write_stream_open d) = write_cmd_write_stream_open_struct_amd64 o d
write_command_amd64 o (write_stream_data d) = write_cmd_write_stream_data_struct_amd64 o d
write_command_amd64 o (clone_file_range d) = write_cmd_clone_file_range_struct_amd64 o d
write_command_amd64 o (get_file_lock d) = write_cmd_get_file_lock_struct_amd64 o d
write_command_amd64 o (set_file_lock d) = write_cmd_set_file_lock_struct_amd64 o d
write_command_amd64 o (set_file_lock_wait d) = write_cmd_set_file_lock_wait_struct_amd64 o d
write_command_amd64 o (link d) = write_cmd_link_struct_amd64 o d
write_command_amd64 o (set_xattr d) = write_cmd_set_xattr_struct_amd64 o d
write_command_amd64 o (get_xattr d) = write_cmd_get_xattr_struct_amd64 o d
write_command_amd64 o (list_xattr d) = write_cmd_list_xattr_struct_amd64 o d
write_command_amd64 o (remove_xattr d) = write_cmd_remove_xattr_struct_amd64 o d

-- The decoder for messages of the same kind as the given one.
unfoldable pub read_command_amd64 : Command → Decoder Command
read_command_amd64 (open_file d) = do payload ← read_cmd_open_struct_amd64; pure (open_file payload)
read_command_amd64 (close_file d) = do
  payload ← read_cmd_close_struct_amd64
  pure (close_file payload)
read_command_amd64 (read_file d) = do payload ← read_cmd_read_struct_amd64; pure (read_file payload)
read_command_amd64 (read_dir d) = do
  payload ← read_cmd_read_dir_struct_amd64
  pure (read_dir payload)
read_command_amd64 (read_link d) = do
  payload ← read_cmd_read_link_struct_amd64
  pure (read_link payload)
read_command_amd64 (write_file d) = do
  payload ← read_cmd_write_struct_with_buffer_amd64 max_command_length
  pure (write_file payload)
read_command_amd64 (seek d) = do payload ← read_cmd_seek_struct_amd64; pure (seek payload)
read_command_amd64 (allocate d) = do
  payload ← read_cmd_allocate_struct_amd64
  pure (allocate payload)
read_command_amd64 (get_attr d) = do
  payload ← read_cmd_get_attr_struct_amd64
  pure (get_attr payload)
read_command_amd64 (set_attr d) = do
  payload ← read_cmd_set_attr_struct_amd64
  pure (set_attr payload)
read_command_amd64 (sync d) = do payload ← read_cmd_sync_struct_amd64; pure (sync payload)
read_command_amd64 (mkdir d) = do payload ← read_cmd_mkdir_struct_amd64; pure (mkdir payload)
read_command_amd64 (sym_link d) = do
  payload ← read_cmd_sym_link_struct_amd64
  pure (sym_link payload)
read_command_amd64 (remove d) = do payload ← read_cmd_remove_struct_amd64; pure (remove payload)
read_command_amd64 (rm_dir d) = do payload ← read_cmd_rm_dir_struct_amd64; pure (rm_dir payload)
read_command_amd64 (fs_stat d) = do payload ← read_cmd_fs_stat_struct_amd64; pure (fs_stat payload)
read_command_amd64 (read_at d) = do payload ← read_cmd_read_at_struct_amd64; pure (read_at payload)
read_command_amd64 (write_at d) = do
  payload ← read_cmd_write_at_struct_with_buffer_amd64 max_command_length
  pure (write_at payload)
read_command_amd64 (copy_file_range d) = do
  payload ← read_cmd_copy_file_range_struct_amd64
  pure (copy_file_range payload)
read_command_amd64 (rename d) = do payload ← read_cmd_rename_struct_amd64; pure (rename payload)
read_command_amd64 (set_attr_by_fd d) = do
  payload ← read_cmd_set_attr_by_fd_struct_amd64
  pure (set_attr_by_fd payload)
read_command_amd64 (read_dir_plus d) = do
  payload ← read_cmd_read_dir_plus_struct_amd64
  pure (read_dir_plus payload)
read_command_amd64 (write_stream_open d) = do
  payload ← read_cmd_write_stream_open_struct_with_buffer_amd64 max_command_length
  pure (write_stream_open payload)
read_command_amd64 (write_stream_data d) = do
  payload ← read_cmd_write_stream_data_struct_with_buffer_amd64 max_command_length
  pure (write_stream_data payload)
read_command_amd64 (clone_file_range d) = do
  payload ← read_cmd_clone_file_range_struct_amd64
  pure (clone_file_range payload)
read_command_amd64 (get_file_lock d) = do
  payload ← read_cmd_get_file_lock_struct_amd64
  pure (get_file_lock payload)
read_command_amd64 (set_file_lock d) = do
  payload ← read_cmd_set_file_lock_struct_amd64
  pure (set_file_lock payload)
read_command_amd64 (set_file_lock_wait d) = do
  payload ← read_cmd_set_file_lock_wait_struct_amd64
  pure (set_file_lock_wait payload)
read_command_amd64 (link d) = do payload ← read_cmd_link_struct_amd64; pure (link payload)
read_command_amd64 (set_xattr d) = do
  payload ← read_cmd_set_xattr_struct_with_buffer_amd64 max_command_length
  pure (set_xattr payload)
read_command_amd64 (get_xattr d) = do
  payload ← read_cmd_get_xattr_struct_amd64
  pure (get_xattr payload)
read_command_amd64 (list_xattr d) = do
  payload ← read_cmd_list_xattr_struct_amd64
  pure (list_xattr payload)
read_command_amd64 (remove_xattr d) = do
  payload ← read_cmd_remove_xattr_struct_amd64
  pure (remove_xattr payload)

pub write_command_amd64-Emits :
    {W : Type 0} (o : Writer W) (c : Command)
    → IsCommand c
    → Emits o (write_command_amd64 o c) (command_bytes c)
unfolding write_command_amd64
write_command_amd64-Emits o (open_file d) v = write_cmd_open_struct_amd64-Emits o d v
write_command_amd64-Emits o (close_file d) v = write_cmd_close_struct_amd64-Emits o d v
write_command_amd64-Emits o (read_file d) v = write_cmd_read_struct_amd64-Emits o d v
write_command_amd64-Emits o (read_dir d) v = write_cmd_read_dir_struct_amd64-Emits o d v
write_command_amd64-Emits o (read_link d) v = write_cmd_read_link_struct_amd64-Emits o d v
write_command_amd64-Emits o (write_file d) v = write_cmd_write_struct_amd64-Emits o d v.0
write_command_amd64-Emits o (seek d) v = write_cmd_seek_struct_amd64-Emits o d v
write_command_amd64-Emits o (allocate d) v = write_cmd_allocate_struct_amd64-Emits o d v
write_command_amd64-Emits o (get_attr d) v = write_cmd_get_attr_struct_amd64-Emits o d v
write_command_amd64-Emits o (set_attr d) v = write_cmd_set_attr_struct_amd64-Emits o d v
write_command_amd64-Emits o (sync d) v = write_cmd_sync_struct_amd64-Emits o d v
write_command_amd64-Emits o (mkdir d) v = write_cmd_mkdir_struct_amd64-Emits o d v
write_command_amd64-Emits o (sym_link d) v = write_cmd_sym_link_struct_amd64-Emits o d v
write_command_amd64-Emits o (remove d) v = write_cmd_remove_struct_amd64-Emits o d v
write_command_amd64-Emits o (rm_dir d) v = write_cmd_rm_dir_struct_amd64-Emits o d v
write_command_amd64-Emits o (fs_stat d) v = write_cmd_fs_stat_struct_amd64-Emits o d v
write_command_amd64-Emits o (read_at d) v = write_cmd_read_at_struct_amd64-Emits o d v
write_command_amd64-Emits o (write_at d) v = write_cmd_write_at_struct_amd64-Emits o d v.0
write_command_amd64-Emits o (copy_file_range d) v =
    write_cmd_copy_file_range_struct_amd64-Emits o d v
write_command_amd64-Emits o (rename d) v = write_cmd_rename_struct_amd64-Emits o d v
write_command_amd64-Emits o (set_attr_by_fd d) v = write_cmd_set_attr_by_fd_struct_amd64-Emits o d v
write_command_amd64-Emits o (read_dir_plus d) v = write_cmd_read_dir_plus_struct_amd64-Emits o d v
write_command_amd64-Emits o (write_stream_open d) v =
    write_cmd_write_stream_open_struct_amd64-Emits o d v.0
write_command_amd64-Emits o (write_stream_data d) v =
    write_cmd_write_stream_data_struct_amd64-Emits o d v.0
write_command_amd64-Emits o (clone_file_range d) v =
    write_cmd_clone_file_range_struct_amd64-Emits o d v
write_command_amd64-Emits o (get_file_lock d) v = write_cmd_get_file_lock_struct_amd64-Emits o d v
write_command_amd64-Emits o (set_file_lock d) v = write_cmd_set_file_lock_struct_amd64-Emits o d v
write_command_amd64-Emits o (set_file_lock_wait d) v =
    write_cmd_set_file_lock_wait_struct_amd64-Emits o d v
write_command_amd64-Emits o (link d) v = write_cmd_link_struct_amd64-Emits o d v
write_command_amd64-Emits o (set_xattr d) v = write_cmd_set_xattr_struct_amd64-Emits o d v.0
write_command_amd64-Emits o (get_xattr d) v = write_cmd_get_xattr_struct_amd64-Emits o d v
write_command_amd64-Emits o (list_xattr d) v = write_cmd_list_xattr_struct_amd64-Emits o d v
write_command_amd64-Emits o (remove_xattr d) v = write_cmd_remove_xattr_struct_amd64-Emits o d v

pub read_command_amd64-ReadsAll :
    (c : Command) → IsCommand c → ReadsAll (read_command_amd64 c) (command_bytes c) c
unfolding read_command_amd64
read_command_amd64-ReadsAll (open_file d) v =
    ReadsAll-end open_file (Reads-ReadsAll (read_cmd_open_struct_amd64-Reads d v)) refl
read_command_amd64-ReadsAll (close_file d) v =
    ReadsAll-end close_file (Reads-ReadsAll (read_cmd_close_struct_amd64-Reads d v)) refl
read_command_amd64-ReadsAll (read_file d) v =
    ReadsAll-end read_file (Reads-ReadsAll (read_cmd_read_struct_amd64-Reads d v)) refl
read_command_amd64-ReadsAll (read_dir d) v =
    ReadsAll-end read_dir (Reads-ReadsAll (read_cmd_read_dir_struct_amd64-Reads d v)) refl
read_command_amd64-ReadsAll (read_link d) v =
    ReadsAll-end read_link (Reads-ReadsAll (read_cmd_read_link_struct_amd64-Reads d v)) refl
read_command_amd64-ReadsAll (write_file d) v =
    ReadsAll-end write_file
      (read_cmd_write_struct_with_buffer_amd64-ReadsAll max_command_length d v.0 v.1) refl
read_command_amd64-ReadsAll (seek d) v =
    ReadsAll-end seek (Reads-ReadsAll (read_cmd_seek_struct_amd64-Reads d v)) refl
read_command_amd64-ReadsAll (allocate d) v =
    ReadsAll-end allocate (Reads-ReadsAll (read_cmd_allocate_struct_amd64-Reads d v)) refl
read_command_amd64-ReadsAll (get_attr d) v =
    ReadsAll-end get_attr (Reads-ReadsAll (read_cmd_get_attr_struct_amd64-Reads d v)) refl
read_command_amd64-ReadsAll (set_attr d) v =
    ReadsAll-end set_attr (Reads-ReadsAll (read_cmd_set_attr_struct_amd64-Reads d v)) refl
read_command_amd64-ReadsAll (sync d) v =
    ReadsAll-end sync (Reads-ReadsAll (read_cmd_sync_struct_amd64-Reads d v)) refl
read_command_amd64-ReadsAll (mkdir d) v =
    ReadsAll-end mkdir (Reads-ReadsAll (read_cmd_mkdir_struct_amd64-Reads d v)) refl
read_command_amd64-ReadsAll (sym_link d) v =
    ReadsAll-end sym_link (Reads-ReadsAll (read_cmd_sym_link_struct_amd64-Reads d v)) refl
read_command_amd64-ReadsAll (remove d) v =
    ReadsAll-end remove (Reads-ReadsAll (read_cmd_remove_struct_amd64-Reads d v)) refl
read_command_amd64-ReadsAll (rm_dir d) v =
    ReadsAll-end rm_dir (Reads-ReadsAll (read_cmd_rm_dir_struct_amd64-Reads d v)) refl
read_command_amd64-ReadsAll (fs_stat d) v =
    ReadsAll-end fs_stat (Reads-ReadsAll (read_cmd_fs_stat_struct_amd64-Reads d v)) refl
read_command_amd64-ReadsAll (read_at d) v =
    ReadsAll-end read_at (Reads-ReadsAll (read_cmd_read_at_struct_amd64-Reads d v)) refl
read_command_amd64-ReadsAll (write_at d) v =
    ReadsAll-end write_at
      (read_cmd_write_at_struct_with_buffer_amd64-ReadsAll max_command_length d v.0 v.1) refl
read_command_amd64-ReadsAll (copy_file_range d) v =
    ReadsAll-end copy_file_range (Reads-ReadsAll (read_cmd_copy_file_range_struct_amd64-Reads d v))
      refl
read_command_amd64-ReadsAll (rename d) v =
    ReadsAll-end rename (Reads-ReadsAll (read_cmd_rename_struct_amd64-Reads d v)) refl
read_command_amd64-ReadsAll (set_attr_by_fd d) v =
    ReadsAll-end set_attr_by_fd (Reads-ReadsAll (read_cmd_set_attr_by_fd_struct_amd64-Reads d v))
      refl
read_command_amd64-ReadsAll (read_dir_plus d) v =
    ReadsAll-end read_dir_plus (Reads-ReadsAll (read_cmd_read_dir_plus_struct_amd64-Reads d v)) refl
read_command_amd64-ReadsAll (write_stream_open d) v =
    ReadsAll-end write_stream_open
      (read_cmd_write_stream_open_struct_with_buffer_amd64-ReadsAll max_command_length d v.0 v.1)
      refl
read_command_amd64-ReadsAll (write_stream_data d) v =
    ReadsAll-end write_stream_data
      (read_cmd_write_stream_data_struct_with_buffer_amd64-ReadsAll max_command_length d v.0 v.1)
      refl
read_command_amd64-ReadsAll (clone_file_range d) v =
    ReadsAll-end clone_file_range
      (Reads-ReadsAll (read_cmd_clone_file_range_struct_amd64-Reads d v)) refl
read_command_amd64-ReadsAll (get_file_lock d) v =
    ReadsAll-end get_file_lock (Reads-ReadsAll (read_cmd_get_file_lock_struct_amd64-Reads d v)) refl
read_command_amd64-ReadsAll (set_file_lock d) v =
    ReadsAll-end set_file_lock (Reads-ReadsAll (read_cmd_set_file_lock_struct_amd64-Reads d v)) refl
read_command_amd64-ReadsAll (set_file_lock_wait d) v =
    ReadsAll-end set_file_lock_wait
      (Reads-ReadsAll (read_cmd_set_file_lock_wait_struct_amd64-Reads d v)) refl
read_command_amd64-ReadsAll (link d) v =
    ReadsAll-end link (Reads-ReadsAll (read_cmd_link_struct_amd64-Reads d v)) refl
read_command_amd64-ReadsAll (set_xattr d) v =
    ReadsAll-end set_xattr
      (read_cmd_set_xattr_struct_with_buffer_amd64-ReadsAll max_command_length d v.0 v.1) refl
read_command_amd64-ReadsAll (get_xattr d) v =
    ReadsAll-end get_xattr (Reads-ReadsAll (read_cmd_get_xattr_struct_amd64-Reads d v)) refl
read_command_amd64-ReadsAll (list_xattr d) v =
    ReadsAll-end list_xattr (Reads-ReadsAll (read_cmd_list_xattr_struct_amd64-Reads d v)) refl
read_command_amd64-ReadsAll (remove_xattr d) v =
    ReadsAll-end remove_xattr (Reads-ReadsAll (read_cmd_remove_xattr_struct_amd64-Reads d v)) refl
