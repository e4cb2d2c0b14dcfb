-- ===== src/Server/Errno.antt =====
-- What a system call answers, and the response code of an error: errorCodeMap and wsfsErrCode of
-- internal/server/wsfs/commands-unix.go.
pub mod Interrupts
use wsfs_core.Prelude.{ℕ, zero, suc}
use wsfs_core.Wire.Codes.{
  error_access_restricted, error_state_blocked, error_busy, error_exists, error_cross_device,
  error_too_long, error_invalid, error_invalid_fd, error_not_exists, error_loop, error_no_space,
  error_not_empty, error_type, error_io, error_not_support, error_special_file_blocked, error_range,
  error_unknown,
}

-- The error numbers that the server tells apart, by syscall's names.
pub data Errno : Type 0 where
  eintr eacces erofs eperm ebusy eexist exdev enametoolong einval ebadf enoent : Errno
  eloop edquot enospc enotempty enotdir eio enotsup etxtbsy erange enodata other : Errno

pub data SysResult (A : Type 0) : Type 0 where
  done : A → SysResult A
  failed : Errno → SysResult A

-- A system call: a step of the world with an answer.
abbrev pub Sys : Type 0 → Type 0 → Type 0
Sys World A = World → World × SysResult A

unfoldable pub wsfs_err_code : Errno → ℕ
wsfs_err_code eacces = error_access_restricted
wsfs_err_code erofs = error_access_restricted
wsfs_err_code eperm = error_state_blocked
wsfs_err_code ebusy = error_busy
wsfs_err_code eexist = error_exists
wsfs_err_code exdev = error_cross_device
wsfs_err_code enametoolong = error_too_long
wsfs_err_code einval = error_invalid
wsfs_err_code ebadf = error_invalid_fd
wsfs_err_code enoent = error_not_exists
wsfs_err_code eloop = error_loop
wsfs_err_code edquot = error_no_space
wsfs_err_code enospc = error_no_space
wsfs_err_code enotempty = error_not_empty
wsfs_err_code enotdir = error_type
wsfs_err_code eio = error_io
wsfs_err_code enotsup = error_not_support
wsfs_err_code etxtbsy = error_special_file_blocked
wsfs_err_code erange = error_range
wsfs_err_code _ = error_unknown

-- ignoringEINTR: the call is made again while it answers EINTR, here at most `limit` times more.
unfoldable pub ignoring_eintr : {World A : Type 0} → ℕ → Sys World A → Sys World A
ignoring_eintr zero op w = op w
ignoring_eintr (suc limit) op w =
    let (w', r) = op w in
    let again = ignoring_eintr limit op w' in
    elim r [ done a ↦ (w', done a) | failed e ↦ elim e [ eintr ↦ again | x ↦ (w', failed x) ] ]
