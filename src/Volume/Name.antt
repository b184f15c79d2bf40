-- ===== src/Volume/Name.antt =====
-- cli/src/driver/windows/volume/mod.rs, the volume behind a drive letter.
use wisp_disk.Base.{◌∷◌}
use wisp_disk.Base.Text.{Text, text}
use wisp_disk.Args.{DriveLetter}
use wisp_disk.Errors.{context}
use wisp_disk.Machine.{Windows, Io}
use wisp_disk.Machine.Io.{call_for, map_err, of_result, ◌>>=◌}
use wisp_disk.Volume.Finder.{wide_from_buffer}

-- A drive letter is no NUL, so that its encoding does not fail.
unfoldable pub mount_point : DriveLetter → Text
mount_point letter = letter.char ∷ text ":\\"

unfoldable pub get_volume_name : {W : Windows} → Text → Io W Text
get_volume_name {W} point = do
  units ← call_for (text "resolve drive letter to a volume") (W.volume_name_for_mount_point point)
  map_err (context (text "unterminated volume name for drive letter"))
      (of_result (wide_from_buffer W units))
