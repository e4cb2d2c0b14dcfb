-- ===== src/Wire/Command/RoundTrip.antt =====
-- Requests from the client's writer to the server's switch.
use wsfs_core.Prelude.{length, ℕ, ◌<◌, ◌≡◌, refl, ◌⊎◌, ◌↔◌, none, some, [], ◌∷◌, arith}
use wsfs_core.Wire.Source.{ReadsAll, message, ok, Decoder, ◌>>=◌, Grain}
use wsfs_core.Wire.Source.Laws.{Reads-ReadsAll, ReadsAll-end, read_full-Reads}
use wsfs_core.Wire.Sink.{Writer, Emits, write-Emits, >>-Emits}
use wsfs_core.Wire.Command.{
  Command, IsCommand, command_bytes, cmd_code, frame, write_command, begin_request, send_command,
  max_command_length, open_file, close_file, read_file, read_dir, read_link, write_file, seek,
  allocate, get_attr, set_attr, sync, mkdir, sym_link, remove, rm_dir, fs_stat, read_at, write_at,
  copy_file_range, rename, set_attr_by_fd, read_dir_plus, write_stream_open, write_stream_data,
  clone_file_range, get_file_lock, set_file_lock, set_file_lock_wait, link, set_xattr, get_xattr,
  list_xattr, remove_xattr,
}
use wsfs_core.Wire.Command.Decode.{
  read_command, trees_and_ranges, streams_and_locks, do_command_call, dispatch_command, call,
}
use wsfs_core.Wire.IoCmd.Laws.{
  write_cmd_close_struct-Emits, read_cmd_close_struct-Reads, write_cmd_read_struct-Emits,
  read_cmd_read_struct-Reads, write_cmd_write_struct-Emits,
  read_cmd_write_struct_with_buffer-ReadsAll, write_cmd_seek_struct-Emits,
  read_cmd_seek_struct-Reads, write_cmd_allocate_struct-Emits, read_cmd_allocate_struct-Reads,
  write_cmd_sync_struct-Emits, read_cmd_sync_struct-Reads, write_cmd_read_at_struct-Emits,
  read_cmd_read_at_struct-Reads, write_cmd_write_at_struct-Emits,
  read_cmd_write_at_struct_with_buffer-ReadsAll, write_cmd_write_stream_open_struct-Emits,
  read_cmd_write_stream_open_struct_with_buffer-ReadsAll, write_cmd_write_stream_data_struct-Emits,
  read_cmd_write_stream_data_struct_with_buffer-ReadsAll,
}
use wsfs_core.Wire.RangeCmd.Laws.{
  write_cmd_copy_file_range_struct-Emits, read_cmd_copy_file_range_struct-Reads,
  write_cmd_clone_file_range_struct-Emits, read_cmd_clone_file_range_struct-Reads,
  write_cmd_set_attr_by_fd_struct-Emits, read_cmd_set_attr_by_fd_struct-Reads,
  write_cmd_get_file_lock_struct-Emits, read_cmd_get_file_lock_struct-Reads,
  write_cmd_set_file_lock_struct-Emits, read_cmd_set_file_lock_struct-Reads,
  write_cmd_set_file_lock_wait_struct-Emits, read_cmd_set_file_lock_wait_struct-Reads,
}
use wsfs_core.Wire.PathCmd.Laws.{
  write_cmd_open_struct-Emits, read_cmd_open_struct-Reads, write_cmd_read_dir_struct-Emits,
  read_cmd_read_dir_struct-Reads, write_cmd_read_dir_plus_struct-Emits,
  read_cmd_read_dir_plus_struct-Reads, write_cmd_read_link_struct-Emits,
  read_cmd_read_link_struct-Reads, write_cmd_get_attr_struct-Emits, read_cmd_get_attr_struct-Reads,
  write_cmd_set_attr_struct-Emits, read_cmd_set_attr_struct-Reads, write_cmd_mkdir_struct-Emits,
  read_cmd_mkdir_struct-Reads, write_cmd_remove_struct-Emits, read_cmd_remove_struct-Reads,
  write_cmd_rm_dir_struct-Emits, read_cmd_rm_dir_struct-Reads, write_cmd_fs_stat_struct-Emits,
  read_cmd_fs_stat_struct-Reads,
}
use wsfs_core.Wire.LinkCmd.Laws.{
  write_cmd_sym_link_struct-Emits, read_cmd_sym_link_struct-Reads, write_cmd_rename_struct-Emits,
  read_cmd_rename_struct-Reads, write_cmd_link_struct-Emits, read_cmd_link_struct-Reads,
  write_cmd_set_xattr_struct-Emits, read_cmd_set_xattr_struct_with_buffer-ReadsAll,
  write_cmd_get_xattr_struct-Emits, read_cmd_get_xattr_struct-Reads,
  write_cmd_list_xattr_struct-Emits, read_cmd_list_xattr_struct-Reads,
  write_cmd_remove_xattr_struct-Emits, read_cmd_remove_xattr_struct-Reads,
}

-- The decoder that the switch picks for a request's code reads the request back.
decodes :
    (c : Command)
    → IsCommand c
    → (decode : Decoder Command) × (read_command (cmd_code c) ≡ some decode)
      × ReadsAll decode (command_bytes c) c
unfolding read_command trees_and_ranges streams_and_locks
decodes (open_file d) v =
    (_, refl, ReadsAll-end open_file (Reads-ReadsAll (read_cmd_open_struct-Reads d v)) refl)
decodes (close_file d) v =
    (_, refl, ReadsAll-end close_file (Reads-ReadsAll (read_cmd_close_struct-Reads d v)) refl)
decodes (read_file d) v =
    (_, refl, ReadsAll-end read_file (Reads-ReadsAll (read_cmd_read_struct-Reads d v)) refl)
decodes (read_dir d) v =
    (_, refl, ReadsAll-end read_dir (Reads-ReadsAll (read_cmd_read_dir_struct-Reads d v)) refl)
decodes (read_link d) v =
    (_, refl, ReadsAll-end read_link (Reads-ReadsAll (read_cmd_read_link_struct-Reads d v)) refl)
decodes (write_file d) v = (
  _,
  refl,
  ReadsAll-end write_file (read_cmd_write_struct_with_buffer-ReadsAll max_command_length d v.0 v.1)
      refl,
)
decodes (seek d) v =
    (_, refl, ReadsAll-end seek (Reads-ReadsAll (read_cmd_seek_struct-Reads d v)) refl)
decodes (allocate d) v =
    (_, refl, ReadsAll-end allocate (Reads-ReadsAll (read_cmd_allocate_struct-Reads d v)) refl)
decodes (get_attr d) v =
    (_, refl, ReadsAll-end get_attr (Reads-ReadsAll (read_cmd_get_attr_struct-Reads d v)) refl)
decodes (set_attr d) v =
    (_, refl, ReadsAll-end set_attr (Reads-ReadsAll (read_cmd_set_attr_struct-Reads d v)) refl)
decodes (sync d) v =
    (_, refl, ReadsAll-end sync (Reads-ReadsAll (read_cmd_sync_struct-Reads d v)) refl)
decodes (mkdir d) v =
    (_, refl, ReadsAll-end mkdir (Reads-ReadsAll (read_cmd_mkdir_struct-Reads d v)) refl)
decodes (sym_link d) v =
    (_, refl, ReadsAll-end sym_link (Reads-ReadsAll (read_cmd_sym_link_struct-Reads d v)) refl)
decodes (remove d) v =
    (_, refl, ReadsAll-end remove (Reads-ReadsAll (read_cmd_remove_struct-Reads d v)) refl)
decodes (rm_dir d) v =
    (_, refl, ReadsAll-end rm_dir (Reads-ReadsAll (read_cmd_rm_dir_struct-Reads d v)) refl)
decodes (fs_stat d) v =
    (_, refl, ReadsAll-end fs_stat (Reads-ReadsAll (read_cmd_fs_stat_struct-Reads d v)) refl)
decodes (read_at d) v =
    (_, refl, ReadsAll-end read_at (Reads-ReadsAll (read_cmd_read_at_struct-Reads d v)) refl)
decodes (write_at d) v = (
  _,
  refl,
  ReadsAll-end write_at (read_cmd_write_at_struct_with_buffer-ReadsAll max_command_length d v.0 v.1)
      refl,
)
decodes (copy_file_range d) v = (
  _,
  refl,
  ReadsAll-end copy_file_range (Reads-ReadsAll (read_cmd_copy_file_range_struct-Reads d v)) refl,
)
decodes (rename d) v =
    (_, refl, ReadsAll-end rename (Reads-ReadsAll (read_cmd_rename_struct-Reads d v)) refl)
decodes (set_attr_by_fd d) v = (
  _,
  refl,
  ReadsAll-end set_attr_by_fd (Reads-ReadsAll (read_cmd_set_attr_by_fd_struct-Reads d v)) refl,
)
decodes (read_dir_plus d) v = (
  _,
  refl,
  ReadsAll-end read_dir_plus (Reads-ReadsAll (read_cmd_read_dir_plus_struct-Reads d v)) refl,
)
decodes (write_stream_open d) v = (
  _,
  refl,
  ReadsAll-end write_stream_open
      (read_cmd_write_stream_open_struct_with_buffer-ReadsAll max_command_length d v.0 v.1) refl,
)
decodes (write_stream_data d) v = (
  _,
  refl,
  ReadsAll-end write_stream_data
      (read_cmd_write_stream_data_struct_with_buffer-ReadsAll max_command_length d v.0 v.1) refl,
)
decodes (clone_file_range d) v = (
  _,
  refl,
  ReadsAll-end clone_file_range (Reads-ReadsAll (read_cmd_clone_file_range_struct-Reads d v)) refl,
)
decodes (get_file_lock d) v = (
  _,
  refl,
  ReadsAll-end get_file_lock (Reads-ReadsAll (read_cmd_get_file_lock_struct-Reads d v)) refl,
)
decodes (set_file_lock d) v = (
  _,
  refl,
  ReadsAll-end set_file_lock (Reads-ReadsAll (read_cmd_set_file_lock_struct-Reads d v)) refl,
)
decodes (set_file_lock_wait d) v = (
  _,
  refl,
  ReadsAll-end set_file_lock_wait (Reads-ReadsAll (read_cmd_set_file_lock_wait_struct-Reads d v))
      refl,
)
decodes (link d) v =
    (_, refl, ReadsAll-end link (Reads-ReadsAll (read_cmd_link_struct-Reads d v)) refl)
decodes (set_xattr d) v = (
  _,
  refl,
  ReadsAll-end set_xattr
      (read_cmd_set_xattr_struct_with_buffer-ReadsAll max_command_length d v.0 v.1) refl,
)
decodes (get_xattr d) v =
    (_, refl, ReadsAll-end get_xattr (Reads-ReadsAll (read_cmd_get_xattr_struct-Reads d v)) refl)
decodes (list_xattr d) v =
    (_, refl, ReadsAll-end list_xattr (Reads-ReadsAll (read_cmd_list_xattr_struct-Reads d v)) refl)
decodes (remove_xattr d) v = (
  _,
  refl,
  ReadsAll-end remove_xattr (Reads-ReadsAll (read_cmd_remove_xattr_struct-Reads d v)) refl,
)

pub write_command-Emits :
    {W : Type 0} (o : Writer W) (c : Command)
    → IsCommand c
    → Emits o (write_command o c) (command_bytes c)
unfolding write_command
write_command-Emits o (open_file d) v = write_cmd_open_struct-Emits o d v
write_command-Emits o (close_file d) v = write_cmd_close_struct-Emits o d v
write_command-Emits o (read_file d) v = write_cmd_read_struct-Emits o d v
write_command-Emits o (read_dir d) v = write_cmd_read_dir_struct-Emits o d v
write_command-Emits o (read_link d) v = write_cmd_read_link_struct-Emits o d v
write_command-Emits o (write_file d) v = write_cmd_write_struct-Emits o d v.0
write_command-Emits o (seek d) v = write_cmd_seek_struct-Emits o d v
write_command-Emits o (allocate d) v = write_cmd_allocate_struct-Emits o d v
write_command-Emits o (get_attr d) v = write_cmd_get_attr_struct-Emits o d v
write_command-Emits o (set_attr d) v = write_cmd_set_attr_struct-Emits o d v
write_command-Emits o (sync d) v = write_cmd_sync_struct-Emits o d v
write_command-Emits o (mkdir d) v = write_cmd_mkdir_struct-Emits o d v
write_command-Emits o (sym_link d) v = write_cmd_sym_link_struct-Emits o d v
write_command-Emits o (remove d) v = write_cmd_remove_struct-Emits o d v
write_command-Emits o (rm_dir d) v = write_cmd_rm_dir_struct-Emits o d v
write_command-Emits o (fs_stat d) v = write_cmd_fs_stat_struct-Emits o d v
write_command-Emits o (read_at d) v = write_cmd_read_at_struct-Emits o d v
write_command-Emits o (write_at d) v = write_cmd_write_at_struct-Emits o d v.0
write_command-Emits o (copy_file_range d) v = write_cmd_copy_file_range_struct-Emits o d v
write_command-Emits o (rename d) v = write_cmd_rename_struct-Emits o d v
write_command-Emits o (set_attr_by_fd d) v = write_cmd_set_attr_by_fd_struct-Emits o d v
write_command-Emits o (read_dir_plus d) v = write_cmd_read_dir_plus_struct-Emits o d v
write_command-Emits o (write_stream_open d) v = write_cmd_write_stream_open_struct-Emits o d v.0
write_command-Emits o (write_stream_data d) v = write_cmd_write_stream_data_struct-Emits o d v.0
write_command-Emits o (clone_file_range d) v = write_cmd_clone_file_range_struct-Emits o d v
write_command-Emits o (get_file_lock d) v = write_cmd_get_file_lock_struct-Emits o d v
write_command-Emits o (set_file_lock d) v = write_cmd_set_file_lock_struct-Emits o d v
write_command-Emits o (set_file_lock_wait d) v = write_cmd_set_file_lock_wait_struct-Emits o d v
write_command-Emits o (link d) v = write_cmd_link_struct-Emits o d v
write_command-Emits o (set_xattr d) v = write_cmd_set_xattr_struct-Emits o d v.0
write_command-Emits o (get_xattr d) v = write_cmd_get_xattr_struct-Emits o d v
write_command-Emits o (list_xattr d) v = write_cmd_list_xattr_struct-Emits o d v
write_command-Emits o (remove_xattr d) v = write_cmd_remove_xattr_struct-Emits o d v

send_command-Emits :
    {W : Type 0} (o : Writer W) (mark : ℕ) (c : Command)
    → IsCommand c
    → Emits o (send_command o mark c) (frame mark c)
unfolding send_command begin_request
send_command-Emits o mark c v = >>-Emits o (write-Emits o _) (write_command-Emits o c v)

do_command_call-frame :
    (c : Command) (grain : Grain)
    → IsCommand c
    → do_command_call (cmd_code c) (message (command_bytes c) grain) ≡ (call c, message [] grain)
unfolding do_command_call
do_command_call-frame c grain v =
    let (decode, found, reads) = decodes c v in rw (do_command_call, found, reads.run_all grain)

pub dispatch_command-frame :
    (mark : ℕ) (c : Command) (grain : Grain)
    → IsCommand c
    → dispatch_command (message (frame mark c) grain) ≡ ok (mark, call c) (message [] grain)
unfolding dispatch_command
dispatch_command-frame mark c grain v =
    rw (◌>>=◌, (read_full-Reads (mark ∷ cmd_code c ∷ [])).run (message [] grain) (command_bytes c))
      (ground (arith, do_command_call-frame c grain v))

-- A valid request that has been written without an error to a writer that held nothing is the request
-- that the server runs, under the same mark, however the bytes arrive, and nothing of the message is
-- left.
pub request_received :
    {W : Type 0} (o : Writer W) (w : W) (mark : ℕ) (c : Command) (grain : Grain)
    → IsCommand c
    → o.content w ≡ []
    → (send_command o mark c w).1 ≡ none
    → dispatch_command (message (o.content (send_command o mark c w).0) grain)
      ≡ ok (mark, call c) (message [] grain)
request_received o w mark c grain v fresh sent =
    rw ((send_command-Emits o mark c v).appends w sent, fresh)
      (dispatch_command-frame mark c grain v)

-- A valid request whose message has room in a writer that holds nothing is written without an error,
-- and is the request that the server runs, under the same mark, however the bytes arrive.
pub request_arrives :
    {W : Type 0} (o : Writer W) (w : W) (mark : ℕ) (c : Command) (grain : Grain)
    → IsCommand c
    → o.content w ≡ []
    → length (frame mark c) < o.room w
    → ((send_command o mark c w).1 ≡ none)
      × (dispatch_command (message (o.content (send_command o mark c w).0) grain)
          ≡ ok (mark, call c) (message [] grain))
request_arrives o w mark c grain v fresh fits =
    let sent = ((send_command-Emits o mark c v).completes w fits).0 in
    (sent, request_received o w mark c grain v fresh sent)

streams_and_locks-none : (cmd : ℕ) → (streams_and_locks cmd ≡ none) ↔ ((cmd < 23) ⊎ (33 < cmd))
unfolding streams_and_locks
streams_and_locks-none cmd = ground arith

trees_and_ranges-none : (cmd : ℕ) → (trees_and_ranges cmd ≡ none) ↔ ((cmd < 12) ⊎ (33 < cmd))
unfolding trees_and_ranges
trees_and_ranges-none cmd = ground (arith, streams_and_locks-none cmd)

-- The switch knows the codes 1 to 33 and no other.
pub read_command-none : (cmd : ℕ) → (read_command cmd ≡ none) ↔ ((cmd ≡ 0) ⊎ (33 < cmd))
unfolding read_command
read_command-none cmd = ground (arith, trees_and_ranges-none cmd)
