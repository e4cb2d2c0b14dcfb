-- ===== src/Wire/Command/Decode.antt =====
-- The server takes requests off a message: doCommandCall of the generated commandCalls.go, in three
-- runs of its switch, and dispatchCommand of commands.go around it. What a request does is not here.
use wsfs_core.Prelude.{ℕ, Option, none, some, [], ◌==◌, if◌then◌else◌}
use wsfs_core.Wire.Bytes.{u8_at}
use wsfs_core.Wire.Source.{Source, Decoder, ok, err, eof, ◌>>=◌, pure, read_full}
use wsfs_core.Wire.Command.{
  Command, max_command_length, open_file, close_file, read_file, read_dir, read_link, write_file,
  seek, allocate, get_attr, set_attr, sync, mkdir, sym_link, remove, rm_dir, fs_stat, read_at,
  write_at, copy_file_range, rename, set_attr_by_fd, read_dir_plus, write_stream_open,
  write_stream_data, clone_file_range, get_file_lock, set_file_lock, set_file_lock_wait, link,
  set_xattr, get_xattr, list_xattr, remove_xattr,
}
use wsfs_core.Wire.IoCmd.{
  read_cmd_close_struct, read_cmd_read_struct, read_cmd_write_struct_with_buffer,
  read_cmd_seek_struct, read_cmd_allocate_struct, read_cmd_sync_struct, read_cmd_read_at_struct,
  read_cmd_write_at_struct_with_buffer, read_cmd_write_stream_open_struct_with_buffer,
  read_cmd_write_stream_data_struct_with_buffer,
}
use wsfs_core.Wire.RangeCmd.{
  read_cmd_copy_file_range_struct, read_cmd_clone_file_range_struct, read_cmd_set_attr_by_fd_struct,
  read_cmd_get_file_lock_struct, read_cmd_set_file_lock_struct, read_cmd_set_file_lock_wait_struct,
}
use wsfs_core.Wire.PathCmd.{
  read_cmd_open_struct, read_cmd_read_dir_struct, read_cmd_read_dir_plus_struct,
  read_cmd_read_link_struct, read_cmd_get_attr_struct, read_cmd_set_attr_struct,
  read_cmd_mkdir_struct, read_cmd_remove_struct, read_cmd_rm_dir_struct, read_cmd_fs_stat_struct,
}
use wsfs_core.Wire.LinkCmd.{
  read_cmd_sym_link_struct, read_cmd_rename_struct, read_cmd_link_struct,
  read_cmd_set_xattr_struct_with_buffer, read_cmd_get_xattr_struct, read_cmd_list_xattr_struct,
  read_cmd_remove_xattr_struct,
}

-- The decoder of a command code; `none` is the default case of the switch.
unfoldable pub streams_and_locks : ℕ → Option (Decoder Command)
streams_and_locks cmd =
    if cmd == 23
    then some (do
      req ← read_cmd_write_stream_open_struct_with_buffer max_command_length
      pure (write_stream_open req))
    else (if cmd == 24
        then some (do
          req ← read_cmd_write_stream_data_struct_with_buffer max_command_length
          pure (write_stream_data req))
        else (if cmd == 25
            then some (do req ← read_cmd_clone_file_range_struct; pure (clone_file_range req))
            else (if cmd == 26
                then some (do req ← read_cmd_get_file_lock_struct; pure (get_file_lock req))
                else (if cmd == 27
                    then some (do req ← read_cmd_set_file_lock_struct; pure (set_file_lock req))
                    else (if cmd == 28
                        then some (do
                          req ← read_cmd_set_file_lock_wait_struct
                          pure (set_file_lock_wait req))
                        else (if cmd == 29
                            then some (do req ← read_cmd_link_struct; pure (link req))
                            else (if cmd == 30
                                then some (do
                                  req ← read_cmd_set_xattr_struct_with_buffer max_command_length
                                  pure (set_xattr req))
                                else (if cmd == 31
                                    then some
                                        (do req ← read_cmd_get_xattr_struct; pure (get_xattr req))
                                    else (if cmd == 32
                                        then some (do
                                          req ← read_cmd_list_xattr_struct
                                          pure (list_xattr req))
                                        else (if cmd == 33
                                            then some (do
                                              req ← read_cmd_remove_xattr_struct
                                              pure (remove_xattr req))
                                            else none))))))))))

unfoldable pub trees_and_ranges : ℕ → Option (Decoder Command)
trees_and_ranges cmd =
    if cmd == 12
    then some (do req ← read_cmd_mkdir_struct; pure (mkdir req))
    else (if cmd == 13
        then some (do req ← read_cmd_sym_link_struct; pure (sym_link req))
        else (if cmd == 14
            then some (do req ← read_cmd_remove_struct; pure (remove req))
            else (if cmd == 15
                then some (do req ← read_cmd_rm_dir_struct; pure (rm_dir req))
                else (if cmd == 16
                    then some (do req ← read_cmd_fs_stat_struct; pure (fs_stat req))
                    else (if cmd == 17
                        then some (do req ← read_cmd_read_at_struct; pure (read_at req))
                        else (if cmd == 18
                            then some (do
                              req ← read_cmd_write_at_struct_with_buffer max_command_length
                              pure (write_at req))
                            else (if cmd == 19
                                then some (do
                                  req ← read_cmd_copy_file_range_struct
                                  pure (copy_file_range req))
                                else (if cmd == 20
                                    then some (do req ← read_cmd_rename_struct; pure (rename req))
                                    else (if cmd == 21
                                        then some (do
                                          req ← read_cmd_set_attr_by_fd_struct
                                          pure (set_attr_by_fd req))
                                        else (if cmd == 22
                                            then some (do
                                              req ← read_cmd_read_dir_plus_struct
                                              pure (read_dir_plus req))
                                            else streams_and_locks cmd))))))))))

unfoldable pub read_command : ℕ → Option (Decoder Command)
read_command cmd =
    if cmd == 1
    then some (do req ← read_cmd_open_struct; pure (open_file req))
    else (if cmd == 2
        then some (do req ← read_cmd_close_struct; pure (close_file req))
        else (if cmd == 3
            then some (do req ← read_cmd_read_struct; pure (read_file req))
            else (if cmd == 4
                then some (do req ← read_cmd_read_dir_struct; pure (read_dir req))
                else (if cmd == 5
                    then some (do req ← read_cmd_read_link_struct; pure (read_link req))
                    else (if cmd == 6
                        then some (do
                          req ← read_cmd_write_struct_with_buffer max_command_length
                          pure (write_file req))
                        else (if cmd == 7
                            then some (do req ← read_cmd_seek_struct; pure (seek req))
                            else (if cmd == 8
                                then some (do req ← read_cmd_allocate_struct; pure (allocate req))
                                else (if cmd == 9
                                    then some
                                        (do req ← read_cmd_get_attr_struct; pure (get_attr req))
                                    else (if cmd == 10
                                        then some
                                            (do req ← read_cmd_set_attr_struct; pure (set_attr req))
                                        else (if cmd == 11
                                            then some
                                                (do req ← read_cmd_sync_struct; pure (sync req))
                                            else trees_and_ranges cmd))))))))))

pub data Dispatched : Type 0 where
  call : Command → Dispatched
  bad_format unknown : Dispatched

-- doCommandCall: a request, or one of the two errors that it answers.
unfoldable pub do_command_call : ℕ → Source → Dispatched × Source
do_command_call cmd s = elim (read_command cmd) [
  | none ↦ (unknown, s)
  | some decode ↦ elim (decode s) [ ok c s' ↦ (call c, s') | err e s' ↦ (bad_format, s') ]
]

-- io.Copy(io.Discard, r): the rest of the message must end by EOF.
unfoldable pub drain : Decoder (Unit {0})
drain s = elim s.tail [
  | eof ↦ ok tt (record s { left = [] })
  | other ↦ err other (record s { left = [] })
]

-- dispatchCommand: the mark of the client and what was asked for, or the error that ends the
-- connection. The handler has run by the time that the rest of the message fails to drain.
unfoldable pub dispatch_command : Decoder (ℕ × Dispatched)
unfolding drain
dispatch_command = do
  header ← read_full 2
  asked ← λ s. let (d, s') = do_command_call (u8_at header 1) s in ok (u8_at header 0, d) s'
  drained ← drain
  pure asked
