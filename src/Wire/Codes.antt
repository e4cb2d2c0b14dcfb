-- ===== src/Wire/Codes.antt =====
-- wsfsprotocol/const.go: response codes, flags and limits.
use wsfs_core.Prelude.{ℕ, ◌-◌, ◌*◌, ◌^◌, List, [], ◌∷◌}
use wsfs_core.Wire.Command.{max_msg_size}

abbrev pub error_ok : ℕ
error_ok = 0

abbrev pub error_partial_response : ℕ
error_partial_response = 1

abbrev pub error_unknown : ℕ
error_unknown = 2

abbrev pub error_busy : ℕ
error_busy = 3

abbrev pub error_exists : ℕ
error_exists = 4

abbrev pub error_not_exists : ℕ
error_not_exists = 5

abbrev pub error_loop : ℕ
error_loop = 6

abbrev pub error_no_space : ℕ
error_no_space = 7

abbrev pub error_not_empty : ℕ
error_not_empty = 8

abbrev pub error_invalid : ℕ
error_invalid = 9

abbrev pub error_invalid_fd : ℕ
error_invalid_fd = 10

abbrev pub error_type : ℕ
error_type = 11

abbrev pub error_io : ℕ
error_io = 12

abbrev pub error_not_support : ℕ
error_not_support = 13

abbrev pub error_access_restricted : ℕ
error_access_restricted = 14

abbrev pub error_too_long : ℕ
error_too_long = 15

abbrev pub error_state_blocked : ℕ
error_state_blocked = 16

abbrev pub error_special_file_blocked : ℕ
error_special_file_blocked = 17

abbrev pub error_cross_device : ℕ
error_cross_device = 18

abbrev pub error_no_xattr : ℕ
error_no_xattr = 19

abbrev pub error_range : ℕ
error_range = 20

abbrev pub o_rdonly : ℕ
o_rdonly = 0x0

abbrev pub o_wronly : ℕ
o_wronly = 0x1

abbrev pub o_rdwr : ℕ
o_rdwr = 0x2

abbrev pub o_accmode : ℕ
o_accmode = 0x3

abbrev pub o_trunc : ℕ
o_trunc = 0x200

abbrev pub o_excl : ℕ
o_excl = 0x80

abbrev pub o_creat : ℕ
o_creat = 0x40

abbrev pub o_directory : ℕ
o_directory = 0x10000

abbrev pub o_append : ℕ
o_append = 0x400

abbrev pub o_sync : ℕ
o_sync = 0x101000

abbrev pub o_dsync : ℕ
o_dsync = 0x1000

abbrev pub o_nofollow : ℕ
o_nofollow = 0x20000

abbrev pub o_noatime : ℕ
o_noatime = 0x40000

abbrev pub o_direct : ℕ
o_direct = 0x4000

abbrev pub owner_nn : ℕ
owner_nn = 0

abbrev pub owner_un : ℕ
owner_un = 1

abbrev pub owner_ng : ℕ
owner_ng = 2

abbrev pub owner_ug : ℕ
owner_ug = 3

abbrev pub setattr_size : ℕ
setattr_size = 0b0001

abbrev pub setattr_mtime : ℕ
setattr_mtime = 0b0010

abbrev pub setattr_mode : ℕ
setattr_mode = 0b0100

abbrev pub setattr_owner : ℕ
setattr_owner = 0b1000

abbrev pub readdirplus_indicator_continue : ℕ
readdirplus_indicator_continue = 1

abbrev pub readdirplus_indicator_prefetch : ℕ
readdirplus_indicator_prefetch = 2

abbrev pub readdirplus_indicator_prefetch_skip : ℕ
readdirplus_indicator_prefetch_skip = 3

abbrev pub max_error_desc_length : ℕ
max_error_desc_length = max_msg_size - 4

abbrev pub max_copy_file_range_chunk : ℕ
max_copy_file_range_chunk = 32 * 2 ^ 20

-- The flags in the order in which cmdOpen goes through them.
abbrev pub open_flags : List ℕ
open_flags =
    o_rdonly ∷ o_wronly ∷ o_rdwr ∷ o_trunc ∷ o_excl ∷ o_creat ∷ o_directory ∷ o_append ∷ o_sync
    ∷ o_dsync ∷ o_nofollow ∷ o_noatime ∷ o_direct ∷ []
