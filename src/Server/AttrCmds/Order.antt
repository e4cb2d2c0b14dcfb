-- ===== src/Server/AttrCmds/Order.antt =====
-- Setting attributes against a list of calls.
use wsfs_core.Prelude.{ℕ, ◌≡◌, refl, Bool, true, false, List, [], ◌∷◌, arith}
use wsfs_core.Prelude.Int.{to_int64}
use wsfs_core.Wire.Bytes.{Bytes}
use wsfs_core.Wire.Codes.{setattr_size, setattr_mtime, setattr_mode, setattr_owner}
use wsfs_core.Wire.Attr.{FileInfo}
use wsfs_core.Server.Errno.{Sys, SysResult, failed}
use wsfs_core.Server.Os.{Os}
use wsfs_core.Server.Session.{FsIds}
use wsfs_core.Server.Handler.{has_flag, and_then, when}
use wsfs_core.Server.AttrCmds.{set_path_attrs, owner_uid, owner_gid}

module _ {World : Type 0} where
  -- The calls that were asked for, in order, up to the first that fails, whose error is the result.
  abbrev pub run_asked : List (Bool × Sys World (Unit {0})) → Sys World (Unit {0})
  run_asked [] w = (w, SysResult.done tt)
  run_asked ((false, m) ∷ ms) w = run_asked ms w
  run_asked ((true, m) ∷ ms) w = elim (m w).1 [
    | SysResult.done u ↦ run_asked ms (m w).0
    | failed e ↦ ((m w).0, failed e)
  ]

  when-asked :
      (b : Bool) (m : Sys World (Unit {0})) (k : Unit {0} → Sys World (Unit {0}))
      (ms : List (Bool × Sys World (Unit {0}))) (w : World)
      → ((w : World) → k tt w ≡ run_asked ms w)
      → and_then (when b m) k w ≡ run_asked ((b, m) ∷ ms) w
  unfolding and_then when
  when-asked false m k ms w h = h w
  when-asked true m k ms w h = ground (arith, h (m w).0)

  last-asked :
      (b : Bool) (m : Sys World (Unit {0})) (w : World) → when b m w ≡ run_asked ((b, m) ∷ []) w
  unfolding when
  last-asked false m w = refl
  last-asked true m w = ground arith

  abbrev pub path_calls :
      Os World → FsIds → Bytes → ℕ → FileInfo → List (Bool × Sys World (Unit {0}))
  path_calls os ids apath flag fi =
      (has_flag flag setattr_size, os.truncate apath (to_int64 fi.size))
      ∷ (has_flag flag setattr_mtime, os.set_path_mtime apath fi.mtime)
      ∷ (has_flag flag setattr_mode, os.chmod apath (os.syscall_mode fi.mode))
      ∷ (
        has_flag flag setattr_owner,
        os.chown apath (owner_uid ids fi.owner) (owner_gid ids fi.owner),
      )
      ∷ []

  -- The attributes that the flag asks for are set in the order size, time, mode, owner up to
  -- the first call that fails, whose error is the result; the others are left as they are.
  pub set_path_attrs-run_asked :
      (os : Os World) (ids : FsIds) (apath : Bytes) (flag : ℕ) (fi : FileInfo) (w : World)
      → set_path_attrs os ids apath flag fi w ≡ run_asked (path_calls os ids apath flag fi) w
  unfolding set_path_attrs
  set_path_attrs-run_asked os ids apath flag fi w =
      when-asked _ _ _ _ w λ w. when-asked _ _ _ _ w λ w. when-asked _ _ _ _ w λ w. last-asked _ _ w
