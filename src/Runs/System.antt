-- ===== src/Runs/System.antt =====
-- A small system: one file of twelve bytes that no one writes, and a count of the other calls made.
use wsfs_core.Prelude.{
  ℕ, suc, ◌≤◌, ◌≡◌, some, [], ◌∷◌, take, drop, length, length-take, arith, true, false, none,
}
use wsfs_core.Prelude.Int.{ℤ, pos, negsuc}
use wsfs_core.Wire.Bytes.{Bytes}
use wsfs_core.Wire.Text.{text}
use wsfs_core.Server.Errno.{Sys, SysResult, failed, einval, enodata, enoent}
use wsfs_core.Server.Os.{Os}
use wsfs_core.Server.Session.{Session}
use wsfs_core.Server.Run.Promise.{ReadsShort}

abbrev pub the_file : Bytes
the_file = text "Hello, wsfs!"

abbrev pub read_at_offset : ℕ → ℕ → ℤ → Sys ℕ Bytes
read_at_offset fd size (pos off) calls = (calls, SysResult.done (take size (drop off the_file)))
read_at_offset fd size (negsuc off) calls = (calls, failed einval)

abbrev counted : {A : Type 0} → A → Sys ℕ A
counted a calls = (suc calls, SysResult.done a)

abbrev pub small_system : Os ℕ
small_system = record {
  eintr_limit = 3;
  open_flag_to_unix = λ flag. some flag;
  whence_to_unix = λ whence. some whence;
  syscall_mode = λ mode. mode;
  open_path = λ path flag mode. counted 5;
  close = λ fd. counted tt;
  read = λ fd size calls. (calls, SysResult.done (take size the_file));
  pread = read_at_offset;
  write = λ fd data'. counted (length data');
  pwrite = λ fd data' off. counted (length data');
  seek = λ fd off whence. counted off;
  fallocate = λ fd flag off size. counted tt;
  fsync = λ fd. counted tt;
  truncate = λ path size. counted tt;
  set_path_mtime = λ path t. counted tt;
  chmod = λ path mode calls. (calls, failed enoent);
  chown = λ path uid gid. counted tt;
  ftruncate = λ fd size. counted tt;
  set_fd_mtime = λ fd t. counted tt;
  fchmod = λ fd mode. counted tt;
  fchown = λ fd uid gid. counted tt;
  mkdir = λ path mode. counted tt;
  symlink = λ old new. counted tt;
  unlink = λ path. counted tt;
  rmdir = λ path. counted tt;
  link = λ old new. counted tt;
  rename = λ old new. counted tt;
  fs_size = λ path. counted (record { total = 1; free = 1; available = 1 });
  copy_file_range = λ fd1 off1 fd2 off2 size. counted size;
  clone_file_range = λ fd1 fd2 off1 off2 size. counted tt;
  get_lock = λ fd lock. counted lock;
  set_lock = λ fd lock blocking. counted tt;
  set_xattr = λ path key value flag. counted tt;
  get_xattr = λ path key mode calls. (calls, failed enodata);
  list_xattr = λ path mode. counted [];
  remove_xattr = λ path key mode. counted tt;
  dir_of = λ path. path;
  o_directory = 0;
  renameat2 = λ fd1 old fd2 new flag. counted tt;
}

read_offset_short :
    (fd size : ℕ) (off : ℤ) (w : ℕ) (got : Bytes)
    → (read_at_offset fd size off w).1 ≡ SysResult.done got
    → length got ≤ size
read_offset_short fd size (pos off) w got e = ground (arith, length-take size (drop off the_file))
read_offset_short fd size (negsuc off) w got e = absurd (ground arith)

pub small_system-ReadsShort : ReadsShort small_system
small_system-ReadsShort = record {
  read_short = λ fd size w got e. ground (arith, length-take size the_file);
  pread_short = read_offset_short;
}

-- A session with descriptor 1 open on the file, on a connection that works.
abbrev pub one_file : Session ℕ
one_file = record {
  conn = record {
    up = true;
    faults = [];
    down = false;
    error_set = false;
    writer = none;
    sent = [];
  };
  world = 0;
  storage = text "/srv";
  fs_ids = record { uid = 1; gid = 2; other_uid = 3; other_gid = 4 };
  enable_link = false;
  xattr_prefixes = text "user." ∷ [];
  fds = (1, 5) ∷ [];
  fd_last = 1;
}
