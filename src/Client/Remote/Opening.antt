-- ===== src/Client/Remote/Opening.antt =====
-- CmdOpen of the client, and the descriptor that it gets.
use wsfs_core.Wire.Source.{Grain, whole}
use wsfs_core.Prelude.{
  ℕ, ◌+◌, ◌^◌, ◌<◌, ◌≡◌, refl, true, none, some, [], ◌∷◌, ◌++◌, length, length-append, arith, ◌≤◌,
}
use wsfs_core.Wire.Bytes.{Bytes, put_u32}
use wsfs_core.Wire.Codes.{error_ok, error_io, open_flags}
use wsfs_core.Wire.Command.{Command, open_file}
use wsfs_core.Wire.PathCmd.{CmdOpenStruct, IsCmdOpenStruct}
use wsfs_core.Wire.Sink.{write-Emits}
use wsfs_core.Wire.Source.Laws.{Reads-ReadsAll}
use wsfs_core.Wire.Rsp.{read_rsp_open, write_rsp_open}
use wsfs_core.Wire.Rsp.Laws.{read_rsp_open-Reads}
use wsfs_core.Util.Url.{is_url_valid}
use wsfs_core.Server.Conn.Laws.{IsHealthy, conn_writer, respond_sends}
use wsfs_core.Server.Errno.{SysResult, ignoring_eintr}
use wsfs_core.Server.Os.{Os}
use wsfs_core.Server.Session.{new_fd, load, reply}
use wsfs_core.Server.Session.Fds.{new_fd_lem}
use wsfs_core.Server.Handler.{with_path, calling}
use wsfs_core.Server.PathCmds.{access_flag, add_flags, opened}
use wsfs_core.Server.Run.{run_command}
use wsfs_core.Client.Session.{Session}
use wsfs_core.Client.Request.{value_of}
use wsfs_core.Client.PathCmds.{cmd_open}
use wsfs_core.Client.Remote.{ServerSession, server, max_command_length, frame}
use wsfs_core.Client.Remote.Calls.{CanAsk, request_command-server}
use wsfs_core.Client.Remote.Results.{responses_for-one}

-- The server opens a file: the flags are ones that the system has, and its call gives a descriptor.
pub record Opens {World : Type 0} (os : Os World) (req : CmdOpenStruct) (srv : ServerSession World)
    (w : World) (sfd : ℕ) : Type 0 where
  pub valid : is_url_valid req.path ≡ true
  pub access : ℕ
  pub access_lem : access_flag os req.oflag ≡ some access
  pub flags : ℕ
  pub flags_lem : add_flags os req.oflag open_flags access ≡ some flags
  pub call :
      ignoring_eintr os.eintr_limit
        (os.open_path (srv.storage ++ req.path) flags (os.syscall_mode req.fmode))
        srv.world
      ≡ (w, SysResult.done sfd)

module _ {World : Type 0} (os : Os World)
    (rest : ℕ → Command → ServerSession World → ServerSession World) where
  open-opened :
      (mark sfd : ℕ) (req : CmdOpenStruct) (srv : ServerSession World) (w : World)
      → Opens os req srv w sfd
      → run_command os rest mark (open_file req) srv
        ≡ opened os mark (SysResult.done sfd) (record srv { world = w })
  unfolding run_command wsfs_core.Server.PathCmds.cmd_open with_path calling
  open-opened mark sfd req srv w o =
      rw (with_path, o.valid, o.access_lem, o.flags_lem, calling, o.call) refl

  open_sends :
      (mark sfd : ℕ) (srv : ServerSession World)
      → IsHealthy srv.conn
      → let srv' = opened os mark (SysResult.done sfd) srv in
        let fd : ℕ = (new_fd sfd srv).0 in
        (srv'.conn.up ≡ true)
        × (srv'.conn.sent ≡ srv.conn.sent ++ ((mark ∷ error_ok ∷ put_u32 fd) ∷ []))
        × (srv'.fds ≡ (new_fd sfd srv).1.fds)
        × (srv'.world ≡ srv.world)
  unfolding opened reply new_fd write_rsp_open
  open_sends mark sfd srv h =
      let fd : ℕ = (new_fd sfd srv).0 in
      let sent =
        respond_sends mark error_ok (write_rsp_open conn_writer (record { fd = fd })) (put_u32 fd)
          srv.conn (write-Emits conn_writer (put_u32 fd)) (omega arith) h in
      (sent.0.0, sent.1, refl, refl)

  -- On connections that work, CmdOpen of a file that the system opens returns without an error a
  -- descriptor that the server did not know, and that the server now knows for the system's; the system
  -- has made the one call. The server has fewer than 2^32 - 1 files open, and the request
  -- is within its read limit.
  pub cmd_open-server :
      (grain : Grain) (path : Bytes) (oflag fmode sfd : ℕ) (w : World)
      (s : Session (ServerSession World))
      → let req : CmdOpenStruct = record { path = path; oflag = oflag; fmode = fmode } in
        IsCmdOpenStruct req
        → length path + 12 ≤ max_command_length
        → CanAsk s
        → IsHealthy s.peer.conn
        → length s.peer.fds + 1 < 2 ^ 32
        → Opens os req s.peer w sfd
        → (fd : ℕ) × (s' : Session (ServerSession World)) × (cmd_open
              (server os rest grain)
              path
              oflag
              fmode
              s
            ≡ some ((fd, error_ok), s'))
          × (load fd s.peer.fds ≡ none)
          × (load fd s'.peer.fds ≡ some sfd)
          × (s'.peer.world ≡ w)
          × CanAsk s'
  unfolding cmd_open value_of
  cmd_open-server grain path oflag fmode sfd w s v short k h few o =
      let req : CmdOpenStruct = record { path = path; oflag = oflag; fmode = fmode } in
      let c = open_file req in
      let asked = record s.peer { world = w } in
      let fd : ℕ = (new_fd sfd asked).0 in
      let made = new_fd_lem sfd asked few in
      let ran = λ (mark : ℕ). open-opened mark sfd req s.peer w o in
      let up : (mark : ℕ) → (run_command os rest mark c s.peer).conn.up ≡ true =
        λ mark. rw (ran mark) ((open_sends mark sfd asked h).0) in
      let room : length (frame 0 c) ≤ max_command_length =
        omega (arith, length-append path (put_u32 oflag ++ put_u32 fmode)) in
      let (mark, bound, s', called, answers) =
        request_command-server os rest grain c (0, error_io) (0, error_io)
          (value_of read_rsp_open (λ rsp. rsp.fd) 0) s v room k up in
      let (fine, sent, fds, world) = open_sends mark sfd asked h in
      let one =
        responses_for-one mark error_ok (put_u32 fd) s.peer.conn.sent
          (run_command os rest mark c s.peer).conn.sent (rw (ran mark) sent) (omega arith) in
      let read = Reads-ReadsAll (read_rsp_open-Reads (record { fd = fd }) made.1) in
      (
        fd,
        s',
        answers (fd, error_ok) (rw (one, read.run_all whole) refl),
        made.0,
        rw (called.ran, ran mark, fds) (made.2),
        rw (called.ran, ran mark) world,
        called.can_ask,
      )
