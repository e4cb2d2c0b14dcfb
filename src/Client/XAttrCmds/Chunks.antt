-- ===== src/Client/XAttrCmds/Chunks.antt =====
-- How large the parts of an attribute's value are.
use wsfs_core.Prelude.{
  ℕ, zero, suc, ◌+◌, ◌-◌, ◌/◌, ◌≤◌, ◌≡◌, ◌↔◌, if_true, ◌∙◌, true, [], length, arith,
}
use wsfs_core.Wire.Bytes.{Bytes}
use wsfs_core.Wire.Command.{max_command_length}
use wsfs_core.Wire.LinkCmd.{get_cmd_set_xattr_struct_required_size}
use wsfs_core.Util.Buffer.{zeros}
use wsfs_core.Util.Buffer.Laws.{length-zeros}
use wsfs_core.Client.XAttrCmds.{set_xattr_fits, search, max_xattr_chunk_size}

-- What a request takes besides the value.
abbrev overhead : Bytes → Bytes → ℕ
overhead path key = 2 + (length path + length key + 8)

set_xattr_fits_iff :
    (path key value : Bytes) (mode : ℕ)
    → (set_xattr_fits path key value mode ≡ true)
      ↔ (overhead path key + length value ≤ max_command_length)
unfolding set_xattr_fits get_cmd_set_xattr_struct_required_size
set_xattr_fits_iff path key value mode = ground arith

-- The search keeps the limit between its bounds.
search_lem :
    (fuel : ℕ) (path key : Bytes) (mode low high : ℕ)
    → high ≤ low + fuel
    → low ≤ max_command_length - overhead path key
    → max_command_length - overhead path key ≤ high
    → overhead path key ≤ max_command_length
    → search fuel path key mode low high ≡ max_command_length - overhead path key
unfolding search
search_lem zero path key mode low high f a b c = omega arith
search_lem (suc fuel) path key mode low high f a b c =
    let mid = low + (high - low + 1) / 2 in
    let tested = set_xattr_fits_iff path key (zeros mid) mode in
    ground (
      arith,
      tested,
      length-zeros mid,
      search_lem fuel path key mode mid high,
      search_lem fuel path key mode low (mid - 1),
    )

room_left : (limit o n : ℕ) → o ≤ limit → o + n ≤ limit → n ≤ limit - o
room_left limit o n h i = omega arith

room_taken : (limit o n : ℕ) → o ≤ limit → n ≤ limit - o → o + n ≤ limit
room_taken limit o n h i = omega arith

-- A value fits into one request exactly if it is no longer than the size that the search finds, where
-- an empty value fits.
pub max_xattr_chunk_size_lem :
    (path key value : Bytes) (mode : ℕ)
    → set_xattr_fits path key [] mode ≡ true
    → (set_xattr_fits path key value mode ≡ true)
      ↔ (length value ≤ max_xattr_chunk_size path key mode)
unfolding max_xattr_chunk_size
max_xattr_chunk_size_lem path key value mode e =
    let empty = (set_xattr_fits_iff path key [] mode).0 e in
    let size : max_xattr_chunk_size path key mode ≡ max_command_length - overhead path key =
      if_true (set_xattr_fits path key [] mode) 0 e
      ∙ search_lem max_command_length path key mode 0 max_command_length (omega arith) (omega arith)
          (omega arith) (omega arith) in
    let fits = set_xattr_fits_iff path key value mode in
    (
      λ h. rw size (room_left max_command_length _ (length value) (omega arith) (fits.0 h)),
      λ h. fits.1 (room_taken max_command_length _ (length value) (omega arith) (rw (← size) h)),
    )
