-- ===== src/Server/Handler.antt =====
-- What the handlers of internal/server/wsfs/commands-unix.go begin with: the check of a path, the
-- lookup of a descriptor, and a chain of system calls that stops at the first error.
use wsfs_core.Prelude.{ℕ, Bool, not, none, some, ◌==◌, if◌then◌else◌, bit_and, ◌++◌}
use wsfs_core.Wire.Bytes.{Bytes}
use wsfs_core.Wire.Text.{text}
use wsfs_core.Wire.Codes.{error_invalid, error_invalid_fd}
use wsfs_core.Util.Url.{is_url_valid}
use wsfs_core.Server.Errno.{Sys, SysResult, failed}
use wsfs_core.Server.Session.{Session, load, reply_error}

-- `flag&mask != 0`
abbrev pub has_flag : ℕ → ℕ → Bool
has_flag flag mask = not (bit_and flag mask == 0)

unfoldable pub and_then : {World A B : Type 0} → Sys World A → (A → Sys World B) → Sys World B
and_then m f w =
    let (w', r) = m w in elim r [ SysResult.done a ↦ f a w' | failed e ↦ (w', failed e) ]

abbrev pub return : {World A : Type 0} → A → Sys World A
return a w = (w, SysResult.done a)

unfoldable pub when : {World : Type 0} → Bool → Sys World (Unit {0}) → Sys World (Unit {0})
when test m = if test then m else return tt

module _ {World : Type 0} where
  unfoldable pub with_fd :
      ℕ → ℕ → (ℕ → Session World → Session World) → Session World → Session World
  with_fd mark fd run s = elim (load fd s.fds) [
    | none ↦ reply_error mark error_invalid_fd (text "bad fd") s
    | some sfd ↦ run sfd s
  ]

  unfoldable pub with_path :
      ℕ → Bytes → (Bytes → Session World → Session World) → Session World → Session World
  with_path mark path run s =
      if not (is_url_valid path)
      then reply_error mark error_invalid (text "bad path") s
      else run (s.storage ++ path) s

  -- A system call at the world of the session, and what its answer leads to.
  unfoldable pub calling :
      {A : Type 0}
      → Sys World A
      → (SysResult A → Session World → Session World)
      → Session World
      → Session World
  calling m reply s = let (w, r) = m s.world in reply r (record s { world = w })
