-- ===== src/Server/Answers/Closes.antt =====
-- Closing a descriptor.
use wsfs_core.Prelude.{ℕ, ◌≡◌, ◌≢◌, refl, none, some}
use wsfs_core.Wire.IoCmd.{CmdCloseStruct}
use wsfs_core.Server.Errno.{SysResult, failed}
use wsfs_core.Server.Os.{Os}
use wsfs_core.Server.Session.{Session, load, delete}
use wsfs_core.Server.Session.Fds.{load-delete_self, load-delete_other}
use wsfs_core.Server.Handler.{with_fd, calling}
use wsfs_core.Server.FileCmds.{cmd_close}
use wsfs_core.Server.Session.{reply_errno, reply_ok, reply_error, reply}

module _ {World : Type 0} where
  reply_errno-fds : (mark : ℕ) (r : _) (s : Session World) → (reply_errno mark r s).fds ≡ s.fds
  unfolding reply_errno reply_ok reply_error reply
  reply_errno-fds mark (SysResult.done u) s = refl
  reply_errno-fds mark (failed e) s = refl

  reply_errno-world :
      (mark : ℕ) (r : _) (s : Session World) → (reply_errno mark r s).world ≡ s.world
  unfolding reply_errno reply_ok reply_error reply
  reply_errno-world mark (SysResult.done u) s = refl
  reply_errno-world mark (failed e) s = refl

-- A close of a known descriptor closes the file that it stands for, once, and whether or not that
-- succeeds the descriptor is not known any more. The others stay as they are.
pub cmd_close_lem :
    {World : Type 0} (os : Os World) (mark sfd : ℕ) (d : CmdCloseStruct) (s : Session World)
    → load d.fd s.fds ≡ some sfd
    → let s' = cmd_close os mark d s in
      (s'.world ≡ (os.close sfd s.world).0)
      × (load d.fd s'.fds ≡ none)
      × ((x : ℕ) → x ≢ d.fd → load x s'.fds ≡ load x s.fds)
unfolding cmd_close with_fd calling
cmd_close_lem os mark sfd d s e =
    let r = (os.close sfd s.world).1 in
    let gone = record s { fds = delete d.fd s.fds; world = (os.close sfd s.world).0 } in
    rw (cmd_close, with_fd, e)
      (
        reply_errno-world mark r gone,
        rw (reply_errno-fds mark r gone) (load-delete_self d.fd s.fds),
        λ x ne. rw (reply_errno-fds mark r gone) (load-delete_other x d.fd s.fds ne),
      )
