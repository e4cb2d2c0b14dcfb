-- ===== src/Client.antt =====
-- How the client puts answers together: readLoop of internal/client/session/session.go, which sorts
-- messages by their marks, and the loops of CmdRead, CmdReadAt and readXAttrData of commands.go.
pub mod Reassembly
pub mod Session
pub mod Request
pub mod LifeCycle
pub mod FileCmds
pub mod PathCmds
pub mod WriteStream
pub mod WriteCmds
pub mod XAttrCmds
pub mod Remote
pub mod Listing
use wsfs_core.Prelude.{
  ℕ, ◌+◌, ◌-◌, Bool, true, false, not, ◌||◌, Option, none, some, List, [], ◌∷◌, ◌++◌, ◌==◌,
  if◌then◌else◌, length, take, drop, ltb,
}
use wsfs_core.Wire.Bytes.{Bytes}
use wsfs_core.Wire.Codes.{error_ok, error_partial_response}
use wsfs_core.Wire.Command.{max_msg_size}

-- A message of less than two bytes is for no one.
unfoldable pub is_for : ℕ → Bytes → Bool
is_for mark [] = false
is_for mark (m ∷ []) = false
is_for mark (m ∷ code ∷ d) = m == mark

-- The messages that readLoop hands to the channel of a mark. One longer than the buffer ends the loop.
unfoldable pub responses_for : ℕ → List Bytes → List Bytes
unfolding is_for
responses_for mark [] = []
responses_for mark (m ∷ ms) =
    let rest = responses_for mark ms in
    if ltb max_msg_size (length m) then [] else (if is_for mark m then (m ∷ rest) else rest)

-- `copy(dest[off:], data)` for an `off` within `dest`.
unfoldable pub copy_at : ℕ → Bytes → Bytes → Bytes
copy_at off dest d = take off dest ++ (take (length dest - off) d ++ drop (off + length d) dest)

-- The loop of CmdRead and CmdReadAt over the mark's channel: how much was read, the code, and the
-- destination. `none` waits for a message that does not come, or panics on a bad one.
unfoldable pub read_answer : ℕ → Bytes → List Bytes → Option (ℕ × ℕ × Bytes)
unfolding copy_at
read_answer off dest [] = none
read_answer off dest ([] ∷ ms) = none
read_answer off dest ((mark ∷ []) ∷ ms) = none
read_answer off dest ((mark ∷ code ∷ d) ∷ ms) =
    let more = read_answer (off + length d) (copy_at off dest d) ms in
    if ltb (length dest) off
    then none
    else (if code == error_partial_response
        then more
        else some (off + length d, code, copy_at off dest d))

-- readXAttrData from the data so far on: the data, nil on an error, and the code.
unfoldable pub read_xattr_data : Bytes → List Bytes → Option (Bytes × ℕ)
read_xattr_data got [] = none
read_xattr_data got ([] ∷ ms) = none
read_xattr_data got ((mark ∷ []) ∷ ms) = none
read_xattr_data got ((mark ∷ code ∷ d) ∷ ms) =
    let more = read_xattr_data (got ++ d) ms in
    if not (code == error_ok || code == error_partial_response)
    then some ([], code)
    else (if code == error_ok then some (got ++ d, code) else more)
