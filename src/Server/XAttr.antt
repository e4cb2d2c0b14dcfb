-- ===== src/Server/XAttr.antt =====
-- The extended attributes of commands.go: which names the server lets through, lists of names, and
-- the handlers.
pub mod Filter
pub mod Data
use wsfs_core.Prelude.{
  ℕ, zero, suc, Bool, true, false, not, ◌||◌, Option, none, some, List, [], ◌∷◌, ◌++◌, ◌==◌, ◌-◌,
  if◌then◌else◌, length, take, drop, ltb,
}
use wsfs_core.Wire.Bytes.{Bytes}
use wsfs_core.Wire.Text.{text}
use wsfs_core.Wire.Codes.{
  error_ok, error_partial_response, error_invalid, error_state_blocked, error_no_xattr, error_io,
}
use wsfs_core.Wire.Command.{max_msg_size}
use wsfs_core.Wire.LinkCmd.{
  CmdSetXAttrStruct, CmdGetXAttrStruct, CmdListXAttrStruct, CmdRemoveXAttrStruct,
}
use wsfs_core.Util.Strings.{has_prefix}
use wsfs_core.Server.Conn.{write}
use wsfs_core.Server.Errno.{Errno, enodata, SysResult, failed, wsfs_err_code}
use wsfs_core.Server.Os.{Os}
use wsfs_core.Server.Session.{Session, reply_ok, reply_error}
use wsfs_core.Server.Handler.{with_path, calling}

-- normalizeXAttrPrefixes of handler.go.
unfoldable pub normalize_xattr_prefixes : List Bytes → List Bytes
normalize_xattr_prefixes [] = []
normalize_xattr_prefixes (p ∷ ps) =
    if length p == 0 then normalize_xattr_prefixes ps else (p ∷ normalize_xattr_prefixes ps)

unfoldable pub is_xattr_key_allowed : List Bytes → Bytes → Bool
is_xattr_key_allowed [] key = false
is_xattr_key_allowed (p ∷ ps) key = if has_prefix key p then true else is_xattr_key_allowed ps key

-- bytes.IndexByte(d, 0)
unfoldable pub index_zero : Bytes → Option ℕ
index_zero [] = none
index_zero (b ∷ d) =
    if b == 0 then some 0 else elim (index_zero d) [ none ↦ none | some n ↦ some (suc n) ]

unfoldable pub last_is_zero : Bytes → Bool
last_is_zero [] = false
last_is_zero (b ∷ []) = b == 0
last_is_zero (b ∷ c ∷ d) = last_is_zero (c ∷ d)

-- The loop; a round takes a byte at least.
unfoldable pub filter_loop : List Bytes → ℕ → Bytes → Bytes → Option Bytes
filter_loop prefixes zero d filtered = some filtered
filter_loop prefixes (suc fuel) d filtered =
    if length d == 0 then some filtered else elim (index_zero d) [
      | none ↦ none
      | some end ↦
          let next =
            if is_xattr_key_allowed prefixes (take end d)
            then filtered ++ take (suc end) d
            else filtered in
          let more = filter_loop prefixes fuel (drop (suc end) d) next in
          if end == 0 then none else more
    ]

unfoldable pub filter_xattr_list : List Bytes → Bytes → Option Bytes
unfolding last_is_zero filter_loop
filter_xattr_list prefixes d =
    if length d == 0
    then some d
    else (if not (last_is_zero d) then none else filter_loop prefixes (length d) d [])

unfoldable pub xattr_error_code : Errno → ℕ
xattr_error_code enodata = error_no_xattr
xattr_error_code e = wsfs_err_code e

abbrev pub max_xattr_response_payload : ℕ
max_xattr_response_payload = max_msg_size - 2

module _ {World : Type 0} where
  -- The loop that sends full parts while more than one message is left. A round takes a byte at least.
  unfoldable pub write_chunks : ℕ → ℕ → Bytes → Session World → Session World
  write_chunks zero mark d s = record s { conn = write (mark ∷ error_ok ∷ d) s.conn }
  write_chunks (suc fuel) mark d s =
      let sent = record s {
        conn = write (mark ∷ error_partial_response ∷ take max_xattr_response_payload d) s.conn;
      } in
      let more = write_chunks fuel mark (drop max_xattr_response_payload d) sent in
      if ltb max_xattr_response_payload (length d)
      then more
      else record s { conn = write (mark ∷ error_ok ∷ d) s.conn }

  unfoldable pub write_xattr_data : ℕ → Bytes → Session World → Session World
  write_xattr_data mark d s =
      if length d == 0 then reply_ok mark s else write_chunks (length d) mark d s

  unfoldable pub xattr_done : ℕ → SysResult (Unit {0}) → Session World → Session World
  xattr_done mark (SysResult.done u) s = reply_ok mark s
  xattr_done mark (failed e) s =
      reply_error mark (xattr_error_code e) (text "xattr syscall error") s

  -- What the handlers check of a name.
  unfoldable pub with_key :
      ℕ → Bytes → (Session World → Session World) → Session World → Session World
  unfolding is_xattr_key_allowed index_zero
  with_key mark key run s =
      if length key == 0
      then reply_error mark error_invalid (text "bad xattr key") s
      else elim (index_zero key) [
        | some n ↦ reply_error mark error_invalid (text "bad xattr key") s
        | none ↦
            if not (is_xattr_key_allowed s.xattr_prefixes key)
            then reply_error mark error_state_blocked (text "xattr key is not allowed") s
            else run s
      ]

  unfoldable pub xattr_got : ℕ → SysResult Bytes → Session World → Session World
  xattr_got mark (SysResult.done d) s = write_xattr_data mark d s
  xattr_got mark (failed e) s = reply_error mark (xattr_error_code e) (text "xattr syscall error") s

  unfoldable pub xattr_listed : ℕ → SysResult Bytes → Session World → Session World
  xattr_listed mark (SysResult.done d) s = elim (filter_xattr_list s.xattr_prefixes d) [
    | none ↦ reply_error mark error_io (text "bad xattr list") s
    | some filtered ↦ write_xattr_data mark filtered s
  ]
  xattr_listed mark (failed e) s =
      reply_error mark (xattr_error_code e) (text "xattr syscall error") s

module _ {World : Type 0} (os : Os World) where
  unfoldable pub cmd_set_xattr : ℕ → CmdSetXAttrStruct → Session World → Session World
  unfolding with_key
  cmd_set_xattr mark req = with_path mark req.path λ path.
      with_key mark req.key
        (calling (os.set_xattr path req.key req.value req.flag) (xattr_done mark))

  unfoldable pub cmd_get_xattr : ℕ → CmdGetXAttrStruct → Session World → Session World
  unfolding with_key
  cmd_get_xattr mark req =
      with_path mark req.path λ path.
        with_key mark req.key (calling (os.get_xattr path req.key req.mode) (xattr_got mark))

  unfoldable pub cmd_list_xattr : ℕ → CmdListXAttrStruct → Session World → Session World
  cmd_list_xattr mark req =
      with_path mark req.path λ path. calling (os.list_xattr path req.mode) (xattr_listed mark)

  unfoldable pub cmd_remove_xattr : ℕ → CmdRemoveXAttrStruct → Session World → Session World
  unfolding with_key
  cmd_remove_xattr mark req = with_path mark req.path λ path.
      with_key mark req.key (calling (os.remove_xattr path req.key req.mode) (xattr_done mark))
