-- ===== src/Runs/XAttr.antt =====
-- The theorems on extended attributes on the small system, which lets names with "user." through.
use wsfs_core.Prelude.{ℕ, ◌≡◌, refl, arith, some, List, [], ◌∷◌, All}
use wsfs_core.Wire.Bytes.{Bytes}
use wsfs_core.Wire.Text.{text}
use wsfs_core.Wire.Codes.{error_state_blocked}
use wsfs_core.Wire.Command.{Command, get_xattr}
use wsfs_core.Util.Url.{is_url_valid}
use wsfs_core.Util.Strings.{contains, has_suffix, has_prefix}
use wsfs_core.Server.Session.{Session}
use wsfs_core.Server.Answers.{Answers}
use wsfs_core.Server.Answers.Contents.{Delivers}
use wsfs_core.Server.XAttr.{filter_xattr_list, write_xattr_data, index_zero, is_xattr_key_allowed}
use wsfs_core.Server.XAttr.Filter.{
  IsName, name_list, keep, filter_xattr_list-name_list, filter_xattr_list_lem,
}
use wsfs_core.Server.XAttr.Data.{write_xattr_data_lem}
use wsfs_core.Server.Run.{run_command}
use wsfs_core.Server.Run.Refusals.{Refused}
use wsfs_core.Server.Run.Blocked.{blocked_key-Refused}
use wsfs_core.Runs.System.{small_system, one_file, the_file}

abbrev two_names : List Bytes
two_names = text "user.a" ∷ text "trusted.b" ∷ []

two_names-IsName : All IsName two_names
unfolding index_zero
two_names-IsName = ((omega arith, refl), ((omega arith, refl), tt))

filter_xattr_list-name_list_example :
    filter_xattr_list one_file.xattr_prefixes (name_list two_names)
    ≡ some (name_list (keep one_file.xattr_prefixes two_names))
filter_xattr_list-name_list_example =
    filter_xattr_list-name_list one_file.xattr_prefixes two_names two_names-IsName

abbrev kept_names : Bytes
kept_names = name_list (keep one_file.xattr_prefixes two_names)

filter_xattr_list_lem_example :
    (ks : List Bytes) × All IsName ks
    × (name_list two_names ≡ name_list ks)
    × (kept_names ≡ name_list (keep one_file.xattr_prefixes ks))
filter_xattr_list_lem_example =
    filter_xattr_list_lem one_file.xattr_prefixes (name_list two_names) kept_names
      filter_xattr_list-name_list_example

write_xattr_data_lem_example :
    Answers 9 one_file.conn (write_xattr_data 9 the_file one_file).conn
    × Delivers 9 one_file (write_xattr_data 9 the_file one_file) the_file
write_xattr_data_lem_example = write_xattr_data_lem 9 the_file one_file (refl, refl, refl)

abbrev ignored : ℕ → Command → Session ℕ → Session ℕ
ignored mark c s = s

abbrev get_trusted : Command
get_trusted = get_xattr (record { path = text "/a"; key = text "trusted.b"; mode = 0 })

blocked_key-Refused_example :
    Refused 9 error_state_blocked
      (text "xattr key is not allowed")
      one_file
      (run_command small_system ignored 9 get_trusted one_file)
unfolding is_url_valid contains has_suffix index_zero is_xattr_key_allowed has_prefix
blocked_key-Refused_example =
    blocked_key-Refused small_system ignored 9 get_trusted (text "trusted.b") one_file refl refl
      (omega arith, refl) refl (refl, refl, refl)
