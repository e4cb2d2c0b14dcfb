-- ===== src/Server/Session.antt =====
-- The state of internal/server/wsfs/session.go that command handlers work on, and their answers.
pub mod Fds
use wsfs_core.Prelude.{
  ℕ, zero, suc, ◌+◌, ◌%◌, ◌^◌, Bool, true, false, Option, none, some, List, [], ◌∷◌, ◌==◌,
  if◌then◌else◌, take, length, ltb,
}
use wsfs_core.Wire.Bytes.{Bytes}
use wsfs_core.Wire.Text.{text}
use wsfs_core.Wire.Codes.{error_ok, error_invalid, error_invalid_fd, max_error_desc_length}
use wsfs_core.Wire.Sink.{Put, done}
use wsfs_core.Wire.Rsp.{RspError, write_rsp_error}
use wsfs_core.Server.Conn.{Conn, respond}
use wsfs_core.Server.Conn.Laws.{conn_writer}
use wsfs_core.Server.Errno.{SysResult, failed, wsfs_err_code}

pub record FsIds : Type 0 where
  pub uid : ℕ
  pub gid : ℕ
  pub other_uid : ℕ
  pub other_gid : ℕ

-- `fds` maps the descriptors that the client knows to those of the system.
pub record Session (World : Type 0) : Type 0 where
  pub conn : Conn
  pub world : World
  pub storage : Bytes
  pub fs_ids : FsIds
  pub enable_link : Bool
  pub xattr_prefixes : List Bytes
  pub fds : List (ℕ × ℕ)
  pub fd_last : ℕ

unfoldable pub load : ℕ → List (ℕ × ℕ) → Option ℕ
load fd [] = none
load fd ((k, sfd) ∷ m) = if k == fd then some sfd else load fd m

unfoldable pub delete : ℕ → List (ℕ × ℕ) → List (ℕ × ℕ)
delete fd [] = []
delete fd ((k, sfd) ∷ m) = if k == fd then delete fd m else ((k, sfd) ∷ delete fd m)

-- The loop of newFD from the counter's value on; the counter wraps.
unfoldable pub free_fd : ℕ → ℕ → List (ℕ × ℕ) → ℕ
unfolding load
free_fd zero last fds = (last + 1) % 2 ^ 32
free_fd (suc tries) last fds =
    let fd = (last + 1) % 2 ^ 32 in
    let next = free_fd tries fd fds in elim (load fd fds) [ none ↦ fd | some sfd ↦ next ]

-- `if len(desc) > limit { desc = desc[:limit] }`
unfoldable pub cut : ℕ → Bytes → Bytes
cut limit desc = if ltb limit (length desc) then take limit desc else desc

module _ {World : Type 0} where
  -- Of length fds + 1 candidates one is free.
  unfoldable pub new_fd : ℕ → Session World → ℕ × Session World
  unfolding free_fd
  new_fd sfd s =
      let fd = free_fd (length s.fds) s.fd_last s.fds in
      (fd, record s { fds = (fd, sfd) ∷ s.fds; fd_last = fd })

  unfoldable pub reply : ℕ → ℕ → Put Conn → Session World → Session World
  reply mark code put s = record s { conn = respond mark code put s.conn }

  unfoldable pub reply_ok : ℕ → Session World → Session World
  unfolding reply
  reply_ok mark s = reply mark error_ok done s

  -- writeRspError: the description is cut to what a message holds.
  unfoldable pub reply_error : ℕ → ℕ → Bytes → Session World → Session World
  unfolding reply
  reply_error mark code desc s =
      reply mark code
        (write_rsp_error conn_writer (record { desc = cut max_error_desc_length desc })) s

  unfoldable pub reply_errno : ℕ → SysResult (Unit {0}) → Session World → Session World
  unfolding reply_ok reply_error
  reply_errno mark (SysResult.done u) s = reply_ok mark s
  reply_errno mark (failed e) s = reply_error mark (wsfs_err_code e) (text "syscall error") s
