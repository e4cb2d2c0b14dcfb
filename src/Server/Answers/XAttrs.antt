-- ===== src/Server/Answers/XAttrs.antt =====
-- The answers of the handlers for extended attributes.
use wsfs_core.Server.Session.{reply_error}
use wsfs_core.Server.Handler.{calling}
use wsfs_core.Server.Errno.{wsfs_err_code}
use wsfs_core.Prelude.{
  Bool, true, false, if◌then◌else◌, ℕ, ◌≢◌, arith, Option-cases, inl, inr, length, ◌==◌, not,
}
use wsfs_core.Wire.Bytes.{Bytes}
use wsfs_core.Wire.Text.{text}
use wsfs_core.Wire.Codes.{error_partial_response, error_invalid, error_state_blocked, error_io}
use wsfs_core.Server.Conn.Laws.{IsHealthy}
use wsfs_core.Server.Errno.{Errno, SysResult, failed}
use wsfs_core.Server.Os.{Os}
use wsfs_core.Server.Session.{Session}
use wsfs_core.Server.Answers.{Answers}
use wsfs_core.Server.Answers.Replies.{
  with_path-Answers, reply_error-Answers, reply_ok-Answers, calling-Answers,
}
use wsfs_core.Server.XAttr.{
  is_xattr_key_allowed, index_zero, filter_xattr_list, xattr_error_code, xattr_done, xattr_got,
  xattr_listed, with_key, cmd_set_xattr, cmd_get_xattr, cmd_list_xattr, cmd_remove_xattr,
}
use wsfs_core.Server.XAttr.Data.{write_xattr_data_lem}

xattr_error_code-ne_partial : (e : Errno) → xattr_error_code e ≢ error_partial_response
unfolding xattr_error_code wsfs_err_code
xattr_error_code-ne_partial e = ground arith

module _ {World : Type 0} (mark : ℕ) where
  xattr_failed :
      (e : Errno) (s : Session World)
      → IsHealthy s.conn
      → Answers mark s.conn
          (reply_error mark (xattr_error_code e) (text "xattr syscall error") s).conn
  xattr_failed e s h =
      reply_error-Answers mark (xattr_error_code e) (text "xattr syscall error") s
        (xattr_error_code-ne_partial e) h

  xattr_done-Answers :
      (r : SysResult (Unit {0})) (s : Session World)
      → IsHealthy s.conn
      → Answers mark s.conn (xattr_done mark r s).conn
  unfolding xattr_done
  xattr_done-Answers (SysResult.done u) s h = reply_ok-Answers mark s h
  xattr_done-Answers (failed e) s h = xattr_failed e s h

  xattr_got-Answers :
      (r : SysResult Bytes) (s : Session World)
      → IsHealthy s.conn
      → Answers mark s.conn (xattr_got mark r s).conn
  unfolding xattr_got
  xattr_got-Answers (SysResult.done d) s h = (write_xattr_data_lem mark d s h).0
  xattr_got-Answers (failed e) s h = xattr_failed e s h

  xattr_listed-Answers :
      (r : SysResult Bytes) (s : Session World)
      → IsHealthy s.conn
      → Answers mark s.conn (xattr_listed mark r s).conn
  unfolding xattr_listed
  xattr_listed-Answers (SysResult.done d) s h =
      elim (Option-cases (filter_xattr_list s.xattr_prefixes d)) [
        | inl bad ↦
            rw (xattr_listed, bad)
              (reply_error-Answers mark error_io (text "bad xattr list") s (ground arith) h)
        | inr (filtered, e) ↦ rw (xattr_listed, e) (write_xattr_data_lem mark filtered s h).0
      ]
  xattr_listed-Answers (failed e) s h = xattr_failed e s h

  either-Answers :
      (test : Bool) (s s1 s2 : Session World)
      → Answers mark s.conn s1.conn
      → Answers mark s.conn s2.conn
      → Answers mark s.conn (if test then s1 else s2).conn
  either-Answers true s s1 s2 a b = a
  either-Answers false s s1 s2 a b = b

  with_key-Answers :
      (key : Bytes) (run : Session World → Session World) (s : Session World)
      → IsHealthy s.conn
      → Answers mark s.conn (run s).conn
      → Answers mark s.conn (with_key mark key run s).conn
  unfolding with_key
  with_key-Answers key run s h k =
      let bad = reply_error-Answers mark error_invalid (text "bad xattr key") s (ground arith) h in
      let blocked =
        reply_error-Answers mark error_state_blocked (text "xattr key is not allowed") s
          (ground arith) h in
      either-Answers (length key == 0) s _ _ bad (elim (Option-cases (index_zero key)) [
        | inr (n, e) ↦ rw e bad
        | inl e ↦
            rw e (either-Answers (not (is_xattr_key_allowed s.xattr_prefixes key)) s _ _ blocked k)
      ])

module _ {World : Type 0} (os : Os World) (mark : ℕ) (s : Session World)
    (h : IsHealthy s.conn) where
  pub cmd_set_xattr-Answers : (d : _) → Answers mark s.conn (cmd_set_xattr os mark d s).conn
  unfolding cmd_set_xattr
  cmd_set_xattr-Answers d = with_path-Answers mark d.path _ s h λ path.
      with_key-Answers mark d.key
        (calling (os.set_xattr path d.key d.value d.flag) (xattr_done mark)) s h
        (calling-Answers mark (os.set_xattr path d.key d.value d.flag) (xattr_done mark) s
          λ w r. xattr_done-Answers mark r _ h)

  pub cmd_get_xattr-Answers : (d : _) → Answers mark s.conn (cmd_get_xattr os mark d s).conn
  unfolding cmd_get_xattr
  cmd_get_xattr-Answers d = with_path-Answers mark d.path _ s h λ path.
      with_key-Answers mark d.key (calling (os.get_xattr path d.key d.mode) (xattr_got mark)) s h (
        calling-Answers mark (os.get_xattr path d.key d.mode) (xattr_got mark) s
          λ w r. xattr_got-Answers mark r _ h)

  pub cmd_list_xattr-Answers : (d : _) → Answers mark s.conn (cmd_list_xattr os mark d s).conn
  unfolding cmd_list_xattr
  cmd_list_xattr-Answers d = with_path-Answers mark d.path _ s h λ path.
      calling-Answers mark (os.list_xattr path d.mode) (xattr_listed mark) s
        λ w r. xattr_listed-Answers mark r _ h

  pub cmd_remove_xattr-Answers : (d : _) → Answers mark s.conn (cmd_remove_xattr os mark d s).conn
  unfolding cmd_remove_xattr
  cmd_remove_xattr-Answers d = with_path-Answers mark d.path _ s h λ path.
      with_key-Answers mark d.key (calling (os.remove_xattr path d.key d.mode) (xattr_done mark)) s
        h
        (calling-Answers mark (os.remove_xattr path d.key d.mode) (xattr_done mark) s
          λ w r. xattr_done-Answers mark r _ h)
