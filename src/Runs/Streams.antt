-- ===== src/Runs/Streams.antt =====
-- A write stream on a system that has one file, which can be written.
use wsfs_core.Prelude.{
  ℕ, ◌≡◌, ap, refl, some, none, [], ◌∷◌, length, take_all, arith, true, false, sym,
}
use wsfs_core.Prelude.Int.{ℤ, pos, negsuc}
use wsfs_core.Wire.Bytes.{Bytes, put_u64}
use wsfs_core.Wire.Text.{text}
use wsfs_core.Wire.Codes.{error_ok}
use wsfs_core.Wire.IoCmd.{CmdWriteStreamOpenStruct}
use wsfs_core.Server.Errno.{Sys, SysResult, failed, eio, einval}
use wsfs_core.Server.Os.{Os}
use wsfs_core.Server.Conn.Laws.{IsHealthy}
use wsfs_core.Server.Streams.{Streams, load_stream, cmd_write_stream_open}
use wsfs_core.Server.Streams.File.{patched}
use wsfs_core.Server.Streams.Writes.{WritesFile}
use wsfs_core.Server.Streams.Whole.{send_parts, send_end, write_stream_lem}

-- The world is the content of the file.
abbrev Content : Type 0
Content = ℕ → ℕ

abbrev write_at_offset : ℕ → Bytes → ℤ → Sys Content ℕ
write_at_offset fd d (pos off) w = (patched off d w, SysResult.done (length d))
write_at_offset fd d (negsuc off) w = (w, failed einval)

abbrev refused : {A : Type 0} → Sys Content A
refused w = (w, failed eio)

abbrev one_file_system : Os Content
one_file_system = record {
  eintr_limit = 3;
  open_flag_to_unix = λ flag. some flag;
  whence_to_unix = λ whence. some whence;
  syscall_mode = λ mode. mode;
  open_path = λ path flag mode. refused;
  close = λ fd. refused;
  read = λ fd size w. (w, failed eio);
  pread = λ fd size off w. (w, failed eio);
  write = λ fd data'. refused;
  pwrite = write_at_offset;
  seek = λ fd off whence. refused;
  fallocate = λ fd flag off size. refused;
  fsync = λ fd. refused;
  truncate = λ path size. refused;
  set_path_mtime = λ path t. refused;
  chmod = λ path mode w. (w, failed eio);
  chown = λ path uid gid. refused;
  ftruncate = λ fd size. refused;
  set_fd_mtime = λ fd t. refused;
  fchmod = λ fd mode. refused;
  fchown = λ fd uid gid. refused;
  mkdir = λ path mode. refused;
  symlink = λ old new. refused;
  unlink = λ path. refused;
  rmdir = λ path. refused;
  link = λ old new. refused;
  rename = λ old new. refused;
  fs_size = λ path. refused;
  copy_file_range = λ fd1 off1 fd2 off2 size. refused;
  clone_file_range = λ fd1 fd2 off1 off2 size. refused;
  get_lock = λ fd lock. refused;
  set_lock = λ fd lock blocking. refused;
  set_xattr = λ path key value flag. refused;
  get_xattr = λ path key mode w. (w, failed eio);
  list_xattr = λ path mode. refused;
  remove_xattr = λ path key mode. refused;
  dir_of = λ path. path;
  o_directory = 0;
  renameat2 = λ fd1 old fd2 new flag. refused;
}

write_at_offset-WritesFile : WritesFile one_file_system 5 (λ w. w)
write_at_offset-WritesFile off d w small some_left = (
  patched off d w,
  length d,
  refl,
  some_left,
  omega arith,
  λ i. ap (λ d. patched off d w i) (sym (take_all (length d) d (omega arith))),
)

abbrev no_streams : Streams Content
no_streams = record {
  session = record {
    conn = record {
      up = true;
      faults = [];
      down = false;
      error_set = false;
      writer = none;
      sent = [];
    };
    world = λ i. 0;
    storage = text "/srv";
    fs_ids = record { uid = 1; gid = 2; other_uid = 3; other_gid = 4 };
    enable_link = false;
    xattr_prefixes = [];
    fds = (1, 5) ∷ [];
    fd_last = 1;
  };
  opened = [];
}

abbrev the_opening : CmdWriteStreamOpenStruct
the_opening = record { fd = 1; offset = 3; payload = text "Hel" }

abbrev ended : Streams Content
ended = send_end one_file_system 9 (text "wsfs") (
    send_parts one_file_system 9 (text "lo" ∷ text ", " ∷ [])
      (cmd_write_stream_open one_file_system 9 the_opening no_streams))

write_stream_lem_example :
    ((i : ℕ) → ended.session.world i ≡ patched 3 (text "Hello, wsfs") (λ i. 0) i)
    × (ended.session.conn.sent ≡ (9 ∷ error_ok ∷ put_u64 11) ∷ [])
    × (load_stream 9 ended.opened ≡ none)
    × (ended.session.fds ≡ no_streams.session.fds)
    × IsHealthy ended.session.conn
unfolding wsfs_core.Server.Session.load load_stream
write_stream_lem_example =
    write_stream_lem one_file_system (λ w. w) 9 the_opening (text "lo" ∷ text ", " ∷ [])
      (text "wsfs") 5 no_streams refl refl write_at_offset-WritesFile (omega arith)
      (refl, refl, refl)
