-- ===== src/Tests/MapFiles.antt =====
-- A file for --map-passwd, on two names of which one is known.
use bindfs.Base.{◌≡◌, refl, List, [], ◌∷◌, Option, some, false}
use bindfs.Base.Maybe.{◌>>=◌}
use bindfs.Base.Text.{Bytes, codes, bytes_eq}
use bindfs.Userinfo.Names.{user_uid}
use bindfs.Options.Maps.{names_ids, read_line, parse_map_file}
use bindfs.Options.Maps.Lines.{apply_lines, ids_of, adding, parse_map_file_lem}
use bindfs.Tests.Mounts.{names, no_maps}

abbrev passwd_file : Bytes → Option (List Bytes)
passwd_file file =
    some (codes "joe:x:1000:100:Joe\n" ∷ codes "bob:x:5:5\n" ∷ codes "joe::1000:100\n" ∷ [])

parse_map_file_lem_example :
    parse_map_file names passwd_file no_maps (codes "/etc/passwd") false ≡ (
      passwd_file (codes "/etc/passwd") >>= λ lines.
      apply_lines (ids_of names false) (adding false) lines no_maps)
parse_map_file_lem_example =
    parse_map_file_lem names passwd_file no_maps (codes "/etc/passwd") false

-- With an empty password the id of the group is read as that of the user.
empty_password :
    (read_line (λ name. user_uid names name) (codes "joe:x:1000:100\n") ≡ names_ids 1000 1001)
    × (read_line (λ name. user_uid names name) (codes "joe::1000:100\n") ≡ names_ids 100 1001)
unfolding read_line user_uid bytes_eq
empty_password = (refl, refl)
