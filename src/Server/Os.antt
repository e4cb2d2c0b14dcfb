-- ===== src/Server/Os.antt =====
-- The operating system as the server's command handlers call it: package syscall, the platform
-- packages below internal/server/wsfs, and the flag tables of internal/share/wsfsunixconv, which
-- hold the platform's constants. All of it is a parameter of the handlers.
use wsfs_core.Prelude.{ℕ, Bool, Option}
use wsfs_core.Prelude.Int.{ℤ}
use wsfs_core.Wire.Bytes.{Bytes}
use wsfs_core.Wire.Attr.{Timespec, FileLockInfo}
use wsfs_core.Wire.Rsp.{RspFsStat}
use wsfs_core.Server.Errno.{Sys}

pub record Os (World : Type 0) : Type 0 where
  -- How often in a row a call may be interrupted.
  pub eintr_limit : ℕ
  pub open_flag_to_unix : ℕ → Option ℕ
  pub whence_to_unix : ℕ → Option ℕ
  -- syscallMode: the file mode of Go as that of the system.
  pub syscall_mode : ℕ → ℕ
  pub open_path : Bytes → ℕ → ℕ → Sys World ℕ
  pub close : ℕ → Sys World (Unit {0})
  pub read : ℕ → ℕ → Sys World Bytes
  pub pread : ℕ → ℕ → ℤ → Sys World Bytes
  pub write : ℕ → Bytes → Sys World ℕ
  pub pwrite : ℕ → Bytes → ℤ → Sys World ℕ
  pub seek : ℕ → ℤ → ℕ → Sys World ℤ
  pub fallocate : ℕ → ℕ → ℤ → ℤ → Sys World (Unit {0})
  pub fsync : ℕ → Sys World (Unit {0})
  pub truncate : Bytes → ℤ → Sys World (Unit {0})
  pub set_path_mtime : Bytes → Timespec → Sys World (Unit {0})
  pub chmod : Bytes → ℕ → Sys World (Unit {0})
  pub chown : Bytes → ℕ → ℕ → Sys World (Unit {0})
  pub ftruncate : ℕ → ℤ → Sys World (Unit {0})
  pub set_fd_mtime : ℕ → Timespec → Sys World (Unit {0})
  pub fchmod : ℕ → ℕ → Sys World (Unit {0})
  pub fchown : ℕ → ℕ → ℕ → Sys World (Unit {0})
  pub mkdir : Bytes → ℕ → Sys World (Unit {0})
  pub symlink : Bytes → Bytes → Sys World (Unit {0})
  pub unlink : Bytes → Sys World (Unit {0})
  pub rmdir : Bytes → Sys World (Unit {0})
  pub link : Bytes → Bytes → Sys World (Unit {0})
  pub rename : Bytes → Bytes → Sys World (Unit {0})
  pub fs_size : Bytes → Sys World RspFsStat
  pub copy_file_range : ℕ → ℤ → ℕ → ℤ → ℕ → Sys World ℕ
  pub clone_file_range : ℕ → ℕ → ℕ → ℕ → ℕ → Sys World (Unit {0})
  pub get_lock : ℕ → FileLockInfo → Sys World FileLockInfo
  pub set_lock : ℕ → FileLockInfo → Bool → Sys World (Unit {0})
  -- Package xattr: what the modes mean is decided there.
  pub set_xattr : Bytes → Bytes → Bytes → ℕ → Sys World (Unit {0})
  pub get_xattr : Bytes → Bytes → ℕ → Sys World Bytes
  pub list_xattr : Bytes → ℕ → Sys World Bytes
  pub remove_xattr : Bytes → Bytes → ℕ → Sys World (Unit {0})
  -- filepath.Dir, O_DIRECTORY and renameat2, of which cmdRename makes a flagged rename.
  pub dir_of : Bytes → Bytes
  pub o_directory : ℕ
  pub renameat2 : ℕ → Bytes → ℕ → Bytes → ℕ → Sys World (Unit {0})
