-- ===== src/Runs/Server.antt =====
-- The server's theorems on the small system.
use wsfs_core.Prelude.{
  zero, suc, ℕ, zero, suc, ◌≡◌, ◌≢◌, ◌<◌, ◌^◌, refl, arith, none, some, true, false, [], ◌∷◌, ◌++◌,
  ◌⊎◌, take, drop,
}
use wsfs_core.Prelude.Int.{to_int64, pos}
use wsfs_core.Util.Url.{is_url_valid}
use wsfs_core.Util.Strings.{contains, has_suffix}
use wsfs_core.Wire.Bytes.{Bytes}
use wsfs_core.Wire.Text.{text}
use wsfs_core.Wire.Codes.{error_invalid, error_invalid_fd, error_ok}
use wsfs_core.Wire.Source.{message, pieces}
use wsfs_core.Wire.Sink.{done, done-Emits}
use wsfs_core.Wire.Attr.{FileInfo}
use wsfs_core.Wire.IoCmd.{CmdCloseStruct}
use wsfs_core.Wire.Command.{Command, frame, remove, sync, read_at}
use wsfs_core.Server.Conn.{Conn, respond}
use wsfs_core.Server.Conn.Laws.{conn_writer}
use wsfs_core.Server.Conn.Faults.{respond_lem}
use wsfs_core.Server.Errno.{Sys, SysResult, failed, eintr, ignoring_eintr}
use wsfs_core.Server.Errno.Interrupts.{at_last, once_more, ignoring_eintr_lem}
use wsfs_core.Server.Session.{Session, load, new_fd}
use wsfs_core.Server.Session.Fds.{new_fd_lem}
use wsfs_core.Server.FileCmds.{cmd_close}
use wsfs_core.Server.ReadCmds.{read_all_of}
use wsfs_core.Server.AttrCmds.{set_path_attrs}
use wsfs_core.Server.AttrCmds.Order.{set_path_attrs-run_asked, run_asked, path_calls}
use wsfs_core.Server.Answers.{Answers}
use wsfs_core.Server.Answers.Closes.{cmd_close_lem}
use wsfs_core.Server.Answers.Contents.{ReadsFile, Delivers, read_all_of-Delivers}
use wsfs_core.Server.Run.{run_command, serve}
use wsfs_core.Server.Run.Promise.{serve-Answers}
use wsfs_core.Server.Run.Refusals.{Refused, bad_path-Refused, bad_fd-Refused}
use wsfs_core.Runs.System.{
  small_system, small_system-ReadsShort, one_file, the_file, read_at_offset,
}

abbrev ignored : ℕ → Command → Session ℕ → Session ℕ
ignored mark c s = s

abbrev long_read : Command
long_read = read_at (record { fd = 1; offset = 2; size = 20000 })

serve-Answers_example :
    (s' : Session ℕ) × (serve small_system ignored (message (frame 9 long_read) (pieces 1)) one_file
      ≡ some s')
    × Answers 9 one_file.conn s'.conn
serve-Answers_example =
    serve-Answers small_system small_system-ReadsShort ignored 9 long_read (pieces 1) one_file
      (omega arith, omega arith, omega arith) (omega arith) refl (refl, refl, refl)

-- A connection that takes the request for a message and then fails.
abbrev breaking : Conn
breaking = record {
  up = true;
  faults = false ∷ true ∷ [];
  down = false;
  error_set = false;
  writer = none;
  sent = [];
}

respond_lem_example :
    let r = respond 7 error_ok done breaking in
    ((breaking.up ≡ false) × (r ≡ breaking))
    ⊎ ((r.up ≡ true) × (r.sent ≡ breaking.sent ++ ((7 ∷ error_ok ∷ []) ∷ [])))
    ⊎ ((r.up ≡ false) × (r.error_set ≡ true))
respond_lem_example = respond_lem 7 error_ok done [] breaking (done-Emits conn_writer)

abbrev reading : ℕ → ℕ → Sys ℕ Bytes
reading off size = read_at_offset 5 size (to_int64 off)

reading-ReadsFile : ReadsFile the_file reading
unfolding to_int64
reading-ReadsFile off size w small = ground arith

read_all_of-Delivers_example :
    Delivers 9 one_file (read_all_of 9 reading 2 20000 one_file) (take 20000 (drop 2 the_file))
read_all_of-Delivers_example =
    read_all_of-Delivers 9 the_file reading 2 20000 one_file reading-ReadsFile (omega arith)
      (refl, refl, refl)

abbrev escape : Command
escape = remove (record { path = text "/../x" })

bad_path-Refused_example :
    Refused 9 error_invalid
      (text "bad path")
      one_file
      (run_command small_system ignored 9 escape one_file)
unfolding is_url_valid contains has_suffix
bad_path-Refused_example =
    bad_path-Refused small_system ignored 9 escape one_file refl (refl, refl, refl)

abbrev stray : Command
stray = sync (record { fd = 2 })

bad_fd-Refused_example :
    Refused 9 error_invalid_fd
      (text "bad fd")
      one_file
      (run_command small_system ignored 9 stray one_file)
unfolding load
bad_fd-Refused_example =
    bad_fd-Refused small_system ignored 9 stray one_file refl (refl, refl, refl)

new_fd_lem_example :
    let (fd, s') = new_fd 6 one_file in
    (load fd one_file.fds ≡ none)
    × (fd < 2 ^ 32)
    × (load fd s'.fds ≡ some 6)
    × ((x : ℕ) → x ≢ fd → load x s'.fds ≡ load x one_file.fds)
new_fd_lem_example = new_fd_lem 6 one_file (omega arith)

abbrev close_one : CmdCloseStruct
close_one = record { fd = 1 }

cmd_close_lem_example :
    let s' = cmd_close small_system 9 close_one one_file in
    (s'.world ≡ (small_system.close 5 one_file.world).0)
    × (load 1 s'.fds ≡ none)
    × ((x : ℕ) → x ≢ 1 → load x s'.fds ≡ load x one_file.fds)
unfolding load
cmd_close_lem_example = cmd_close_lem small_system 9 5 close_one one_file refl

-- A call that is interrupted until the world is 2.
abbrev busy : Sys ℕ ℕ
busy zero = (1, failed eintr)
busy (suc zero) = (2, failed eintr)
busy (suc (suc w)) = (suc (suc w), SysResult.done 7)

abbrev ended : ℕ × SysResult ℕ
ended = (2, SysResult.done 7)

not_interrupted : (busy 2).1 ≢ failed eintr
not_interrupted e = absurd (ground arith)

ignoring_eintr_lem_example : (ignoring_eintr 3 busy 0 ≡ ended) × (ended.1 ≢ failed eintr)
ignoring_eintr_lem_example =
    ignoring_eintr_lem busy 2 3 0 ended (once_more refl (once_more refl (at_last not_interrupted)))
      (omega arith)

abbrev new_info : FileInfo
new_info = record {
  size = 3;
  mtime = record { seconds = pos 1; nanoseconds = pos 0 };
  mode = 0o644;
  owner = 0;
}

set_path_attrs-run_asked_example :
    set_path_attrs small_system one_file.fs_ids (text "/a") 15 new_info 0
    ≡ run_asked (path_calls small_system one_file.fs_ids (text "/a") 15 new_info) 0
set_path_attrs-run_asked_example =
    set_path_attrs-run_asked small_system one_file.fs_ids (text "/a") 15 new_info 0
