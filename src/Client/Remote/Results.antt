-- ===== src/Client/Remote/Results.antt =====
-- What commands of the client return from the server: reads, opens and refusals.
use wsfs_core.Wire.Source.{Grain}
use wsfs_core.Prelude.{
  ℕ, ◌+◌, ◌^◌, ◌<◌, ◌≤◌, ◌≡◌, refl, ap, ◌∙◌, true, false, Option, some, List, [], ◌∷◌, ◌++◌, ◌==◌,
  ltb, length, take, drop, arith, drop-length_append,
}
use wsfs_core.Prelude.Int.{to_int64}
use wsfs_core.Server.ReadCmds.{read_all_of}
use wsfs_core.Server.Handler.{with_fd}
use wsfs_core.Server.Session.{load}
use wsfs_core.Server.Errno.{Sys}
use wsfs_core.Wire.IoCmd.{CmdReadAtStruct}
use wsfs_core.Server.Answers.Contents.{ReadsFile, read_all_of-Delivers}
use wsfs_core.Client.{read_answer}
use wsfs_core.Client.Reassembly.{read_arrives}
use wsfs_core.Client.FileCmds.{cmd_read_at}
use wsfs_core.Wire.Bytes.{Bytes, IsU32}
use wsfs_core.Wire.Text.{text}
use wsfs_core.Wire.Codes.{error_ok, error_io, error_invalid_fd}
use wsfs_core.Wire.Command.{Command, IsCommand, max_msg_size, read_at}
use wsfs_core.Wire.Rsp.{rsp_error_bytes}
use wsfs_core.Server.Conn.Laws.{IsHealthy}
use wsfs_core.Server.Os.{Os}
use wsfs_core.Server.Run.{run_command}
use wsfs_core.Server.Run.Refusals.{names_bad_fd, bad_fd-Refused, bad_fd_refused}
use wsfs_core.Client.{responses_for}
use wsfs_core.Client.Session.{Session}
use wsfs_core.Client.Request.{request_command}
use wsfs_core.Client.Remote.{ServerSession, server, frame, max_command_length}
use wsfs_core.Client.Remote.Calls.{CanAsk, answer_of, request_command-server}
use wsfs_core.Server.Answers.Replies.{reply_error-Answers}

-- The messages of a server that sends one.
pub responses_for-one :
    (mark code : ℕ) (d : Bytes) (before after : List Bytes)
    → after ≡ before ++ ((mark ∷ code ∷ d) ∷ [])
    → length d + 2 ≤ max_msg_size
    → responses_for mark (drop (length before) after) ≡ (mark ∷ code ∷ d) ∷ []
unfolding responses_for
responses_for-one mark code d before after e fits =
    let short : ltb max_msg_size (length (mark ∷ code ∷ d)) ≡ false = ground arith in
    let own : (mark == mark) ≡ true = ground arith in
    rw (e, drop-length_append before ((mark ∷ code ∷ d) ∷ []), short, own) refl

read_at-known :
    {World : Type 0} (os : Os World)
    (rest : ℕ → Command → ServerSession World → ServerSession World) (mark sfd : ℕ)
    (req : CmdReadAtStruct) (srv : ServerSession World)
    → load req.fd srv.fds ≡ some sfd
    → run_command os rest mark (read_at req) srv
      ≡ read_all_of mark (λ off size. os.pread sfd size (to_int64 off)) req.offset req.size srv
unfolding run_command wsfs_core.Server.ReadCmds.cmd_read_at with_fd
read_at-known os rest mark sfd req srv e = rw (with_fd, e) refl

module _ {World : Type 0} (os : Os World)
    (rest : ℕ → Command → ServerSession World → ServerSession World) (grain : Grain) where
  -- On connections that work, a valid command within the server's read limit, on a descriptor that the
  -- server does not know, is answered by the error for that: the client returns what it makes of the code, no system call is made, and
  -- both sessions can go on. What the client makes of an error does not depend on its description.
  pub bad_fd-server :
      {A : Type 0} (c : Command) (refused failed a : A) (receive : List Bytes → Option A)
      (s : Session (ServerSession World))
      → IsCommand c
      → length (frame 0 c) ≤ max_command_length
      → CanAsk s
      → IsHealthy s.peer.conn
      → names_bad_fd s.peer c ≡ true
      → ((mark : ℕ) (d : Bytes) → receive ((mark ∷ error_invalid_fd ∷ d) ∷ []) ≡ some a)
      → (s' : Session (ServerSession World)) × (request_command
            (server os rest grain)
            c
            refused
            failed
            receive
            s
          ≡ some (a, s'))
        × (s'.peer.world ≡ s.peer.world)
        × (s'.peer.fds ≡ s.peer.fds)
        × CanAsk s'
  bad_fd-server c refused failed a receive s v room k h bad made =
      let desc = text "bad fd" in
      let up : (mark : ℕ) → (run_command os rest mark c s.peer).conn.up ≡ true = λ mark.
        rw (bad_fd_refused os rest mark c s.peer bad)
          ((reply_error-Answers mark error_invalid_fd desc s.peer (ground arith) h).healthy.0) in
      let (mark, small, s', called, answers) =
        request_command-server os rest grain c refused failed receive s v room k up in
      let r = bad_fd-Refused os rest mark c s.peer bad h in
      let one =
        responses_for-one mark error_invalid_fd (rsp_error_bytes (record { desc = desc }))
          s.peer.conn.sent _ r.sent (omega arith) in
      (
        s',
        answers a (rw one (made mark _)),
        rw (called.ran) r.same_world,
        rw (called.ran) r.same_fds,
        called.can_ask,
      )

  -- On connections that work, CmdReadAt of an open descriptor reads the file: it returns without an
  -- error as many bytes as were asked for or as the file has from the offset on, in the front of the
  -- destination, whose rest is as it was. The system's reads give the bytes of the file, and the end of
  -- the read is below 2^63.
  pub cmd_read_at-server :
      (fd sfd offset : ℕ) (dest file : Bytes) (s : Session (ServerSession World))
      → IsU32 fd
      → offset + length dest < 2 ^ 63
      → CanAsk s
      → IsHealthy s.peer.conn
      → load fd s.peer.fds ≡ some sfd
      → ReadsFile file (λ off size. os.pread sfd size (to_int64 off))
      → let bytes : Bytes = take (length dest) (drop offset file) in
        (s' : Session (ServerSession World)) × (cmd_read_at (server os rest grain) fd offset dest s
          ≡ some ((length bytes, error_ok, bytes ++ drop (length bytes) dest), s'))
        × CanAsk s'
  unfolding cmd_read_at
  cmd_read_at-server fd sfd offset dest file s v small k h known reads =
      let bytes : Bytes = take (length dest) (drop offset file) in
      let call : ℕ → ℕ → Sys World Bytes = λ off size. os.pread sfd size (to_int64 off) in
      let req : CmdReadAtStruct = record { fd = fd; offset = offset; size = length dest } in
      let c = read_at req in
      let ran : (mark : ℕ)
          → run_command os rest mark c s.peer ≡ read_all_of mark call offset (length dest) s.peer =
        λ mark. read_at-known os rest mark sfd req s.peer known in
      let up : (mark : ℕ) → (run_command os rest mark c s.peer).conn.up ≡ true = λ mark.
        rw (ran mark) (
          (read_all_of-Delivers mark file call offset (length dest) s.peer reads small
            h).healthy.0) in
      let missing : ℕ × ℕ × Bytes = (0, error_io, dest) in
      let (mark, bound, s', called, answers) =
        request_command-server os rest grain c missing missing (read_answer 0 dest) s
          (v, omega arith, omega arith) (omega arith) k up in
      let (ms, sent, read) = read_arrives mark offset file dest call s.peer reads small h in
      let got : answer_of os rest grain mark c s.peer ≡ responses_for mark ms =
        ap (responses_for mark) (
          ap (λ ran. drop (length s.peer.conn.sent) ran.conn.sent) (ran mark)
          ∙ ap (drop (length s.peer.conn.sent)) sent
          ∙ drop-length_append s.peer.conn.sent ms) in
      (s', answers _ (rw got read), called.can_ask)
