-- ===== src/Client/XAttrCmds.antt =====
-- The commands of internal/client/session/commands.go on extended attributes: which names and modes
-- they take, and how a value that does not fit into one message is put together on the server.
pub mod Chunks
use wsfs_core.Prelude.{
  ℕ, zero, suc, ◌+◌, ◌-◌, ◌*◌, ◌/◌, ◌^◌, bit_and, ◌==◌, ◌&&◌, ◌||◌, not, Bool, true, false, Option,
  none, some, List, [], ◌∷◌, length, take, drop, ltb, leb, if◌then◌else◌, bit_or,
}
use wsfs_core.Wire.Bytes.{Bytes}
use wsfs_core.Wire.Codes.{
  error_ok, error_io, error_invalid, error_range, error_state_blocked, error_no_xattr,
}
use wsfs_core.Wire.Command.{max_command_length, set_xattr, get_xattr, list_xattr, remove_xattr}
use wsfs_core.Wire.LinkCmd.{get_cmd_set_xattr_struct_required_size}
use wsfs_core.Util.Buffer.{zeros}
use wsfs_core.Util.Url.{is_url_valid}
use wsfs_core.Server.XAttr.{is_xattr_key_allowed, index_zero, filter_loop}
use wsfs_core.Client.{read_xattr_data}
use wsfs_core.Client.Session.{Session, Remote, Client}
use wsfs_core.Client.Request.{request_command, status}

abbrev pub setxattr_append : ℕ
setxattr_append = 1

abbrev pub xattr_nofollow : ℕ
xattr_nofollow = 0x80000000

-- `mode & XATTR_NOFOLLOW` and `mode &^ XATTR_NOFOLLOW` of a mode of 32 bits.
abbrev pub nofollow_of : ℕ → ℕ
nofollow_of mode = bit_and mode xattr_nofollow

abbrev pub kind_of : ℕ → ℕ
kind_of mode = bit_and mode 0x7fffffff

-- `SETXATTR_APPEND | mode&XATTR_NOFOLLOW`
abbrev pub append_mode : ℕ → ℕ
append_mode mode = bit_or setxattr_append (nofollow_of mode)

-- The four modes of SETXATTR are the numbers up to 3.
unfoldable pub validate_xattr : List Bytes → Bytes → ℕ → Bool → ℕ
validate_xattr prefixes key mode is_set =
    let named : Bool = elim (index_zero key) [ none ↦ not (length key == 0) | some n ↦ false ] in
    let known = if is_set then ltb (kind_of mode) 4 else kind_of mode == 0 in
    if not (named && known)
    then error_invalid
    else (if is_xattr_key_allowed prefixes key then error_ok else error_state_blocked)

-- The loop of the server's filter, here also on a list without an end.
unfoldable pub client_filter : List Bytes → Bytes → Option Bytes
client_filter prefixes d = filter_loop prefixes (length d) d []

unfoldable pub set_xattr_fits : Bytes → Bytes → Bytes → ℕ → Bool
set_xattr_fits path key value mode =
    leb
      (2
        + get_cmd_set_xattr_struct_required_size
            (record { path = path; flag = mode; key = key; value = value }))
      max_command_length

-- The search between `low` and `high`; a round makes the gap smaller.
unfoldable pub search : ℕ → Bytes → Bytes → ℕ → ℕ → ℕ → ℕ
unfolding set_xattr_fits zeros
search zero path key mode low high = low
search (suc fuel) path key mode low high =
    let mid = low + (high - low + 1) / 2 in
    let upper = search fuel path key mode mid high in
    let lower = search fuel path key mode low (mid - 1) in
    if ltb low high
    then (if set_xattr_fits path key (zeros mid) mode then upper else lower)
    else low

unfoldable pub max_xattr_chunk_size : Bytes → Bytes → ℕ → ℕ
unfolding search
max_xattr_chunk_size path key mode =
    if set_xattr_fits path key [] mode
    then search max_command_length path key mode 0 max_command_length
    else 0

module _ {Peer : Type 0} (remote : Remote Peer) where
  unfoldable pub send_set_xattr : Bytes → Bytes → Bytes → ℕ → Client Peer ℕ
  send_set_xattr path key value mode =
      request_command remote
        (set_xattr (record { path = path; flag = mode; key = key; value = value })) error_io
        error_io status

  -- The loop of the parts that are appended. A round takes a byte at least.
  unfoldable pub append_chunks : ℕ → Bytes → Bytes → Bytes → ℕ → Client Peer ℕ
  unfolding max_xattr_chunk_size send_set_xattr
  append_chunks zero path key value mode s = some (error_ok, s)
  append_chunks (suc fuel) path key value mode s =
      let size = max_xattr_chunk_size path key mode in
      if length value == 0
      then some (error_ok, s)
      else (if size == 0
          then some (error_range, s)
          else (elim (send_set_xattr path key (take size value) mode s) [
            | none ↦ none
            | some (code, s') ↦
                let more = append_chunks fuel path key (drop size value) mode s' in
                if code == error_ok then more else some (code, s')
          ]))

  unfoldable pub send_split_xattr : Bytes → Bytes → Bytes → ℕ → Client Peer ℕ
  unfolding max_xattr_chunk_size send_set_xattr append_chunks
  send_split_xattr path key value mode s =
      let size = max_xattr_chunk_size path key mode in
      if size == 0
      then some (error_range, s)
      else (elim (send_set_xattr path key (take size value) mode s) [
        | none ↦ none
        | some (code, s') ↦
            let rest = drop size value in
            let more = append_chunks (length rest) path key rest (append_mode mode) s' in
            if code == error_ok then more else some (code, s')
      ])

  unfoldable pub cmd_remove_xattr : Bytes → Bytes → ℕ → Client Peer ℕ
  unfolding validate_xattr
  cmd_remove_xattr path key mode s =
      let code = validate_xattr s.xattr_prefixes key mode false in
      if not (code == error_ok)
      then some (code, s)
      else request_command remote (remove_xattr (record { path = path; key = key; mode = mode }))
          error_io error_io status s

  unfoldable pub cmd_get_xattr : Bytes → Bytes → ℕ → Client Peer (Bytes × ℕ)
  unfolding validate_xattr read_xattr_data
  cmd_get_xattr path key mode s =
      let code = validate_xattr s.xattr_prefixes key mode false in
      if not (code == error_ok)
      then some (([], code), s)
      else request_command remote (get_xattr (record { path = path; key = key; mode = mode }))
          ([], error_io) ([], error_io) (read_xattr_data []) s

  unfoldable pub cmd_list_xattr : Bytes → ℕ → Client Peer (Bytes × ℕ)
  unfolding client_filter read_xattr_data
  cmd_list_xattr path mode s =
      if not (is_url_valid path && (kind_of mode == 0))
      then some (([], error_invalid), s)
      else (elim (request_command remote (list_xattr (record { path = path; mode = mode }))
          ([], error_io) ([], error_io) (read_xattr_data []) s) [
            | none ↦ none
            | some ((d, code), s') ↦
                if not (code == error_ok)
                then some (([], code), s')
                else (elim (client_filter s.xattr_prefixes d) [
                  | none ↦ some (([], error_io), s')
                  | some kept ↦ some ((kept, error_ok), s')
                ])
          ])

  unfoldable pub restore_xattr : Bytes → Bytes → Bytes → Bool → ℕ → Client Peer ℕ
  unfolding cmd_remove_xattr send_set_xattr send_split_xattr set_xattr_fits
  restore_xattr path key old old_exists mode s =
      let nofollow = nofollow_of mode in
      if not old_exists
      then cmd_remove_xattr path key nofollow s
      else (if set_xattr_fits path key old nofollow
          then send_set_xattr path key old nofollow s
          else send_split_xattr path key old nofollow s)

  -- Once a part has failed, the value from before is put back.
  unfoldable pub split_or_restore : Bytes → Bytes → Bytes → ℕ → Bytes → Bool → Client Peer ℕ
  unfolding send_split_xattr restore_xattr
  split_or_restore path key value mode old old_exists s =
      elim (send_split_xattr path key value mode s) [
        | none ↦ none
        | some (code, s') ↦
            let restored = restore_xattr path key old old_exists mode s' in
            if code == error_ok
            then some (code, s')
            else (elim restored [ none ↦ none | some (rollback, s'') ↦ some (code, s'') ])
      ]

  unfoldable pub cmd_set_xattr : Bytes → Bytes → Bytes → ℕ → Client Peer ℕ
  unfolding validate_xattr set_xattr_fits send_set_xattr cmd_get_xattr split_or_restore
  cmd_set_xattr path key value mode s =
      let code = validate_xattr s.xattr_prefixes key mode true in
      if not (code == error_ok)
      then some (code, s)
      else (if set_xattr_fits path key value mode
          then send_set_xattr path key value mode s
          else (if not s.auto_xattr_append
              then some (error_range, s)
              else (elim (cmd_get_xattr path key (nofollow_of mode) s) [
                | none ↦ none
                | some ((old, old_code), s') ↦
                    let exists = old_code == error_ok in
                    if not exists && not (old_code == error_no_xattr)
                    then some (old_code, s')
                    else split_or_restore path key value mode old exists s'
              ])))
