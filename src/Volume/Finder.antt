-- ===== src/Volume/Finder.antt =====
-- cli/src/driver/windows/volume/finder.rs, the enumeration of volume names, with `wide_from_buffer` of
-- cli/src/driver/windows/win32.rs.
use wisp_disk.Base.{ℕ, Bool, true, false, Option, none, some, List, ◌==◌, if◌then◌else◌, replicate}
use wisp_disk.Base.Text.{Text, text}
use wisp_disk.Errors.{os_error, context, Result, ok, err}
use wisp_disk.Machine.{Windows, Process, Api, returned, failed, Io}
use wisp_disk.Machine.Io.{answer_result, contextual, call_for, pure, ◌>>=◌}

-- `ERROR_NO_MORE_FILES`.
abbrev error_no_more_files : ℕ
error_no_more_files = 18

-- The size of the name buffer.
abbrev name_units : ℕ
name_units = 1024

pub record VolumeFinder (W : Windows) : Type 0 where
  pub handle : W.Handle
  pub name : List ℕ
  pub first : Bool
  pub finished : Bool

unfoldable pub wide_from_buffer : (W : Windows) → List ℕ → Result Text
wide_from_buffer W buffer = answer_result (W.from_slice_truncate buffer)

-- What the iterator yields.
abbrev pub Item : Type 0
Item = Option (Result Text)

module _ {W : Windows} where
  -- `VolumeFinder::new`. The call writes the first name into the buffer.
  unfoldable pub new_finder : Io W (VolumeFinder W)
  new_finder = do
    found ← call_for (text "enumerate volumes") W.find_first_volume
    pure (record { handle = found.0; name = found.1; first = true; finished = false })

  -- The end of `next`, with the name in the buffer.
  named : VolumeFinder W → Result Text → Item × VolumeFinder W
  named finder (ok name) = (some (ok name), finder)
  named finder (err e) = (some (err e), record finder { finished = true })

  yielded : VolumeFinder W → Item × VolumeFinder W
  unfolding named
  yielded finder =
      named finder
        (contextual (context (text "unterminated volume name")) (wide_from_buffer W finder.name))

  advanced : VolumeFinder W → Api (List ℕ) → Item × VolumeFinder W
  unfolding yielded
  advanced finder (returned name) = yielded (record finder { name = name })
  advanced finder (failed code) =
      let ended = record finder { name = replicate name_units 0; finished = true } in
      if code == error_no_more_files
      then (none, ended)
      else (some (err (context (text "enumerate next volume") (os_error code))), ended)

  beside : Item × VolumeFinder W → Process W → Item × VolumeFinder W × Process W
  beside (item, finder) p = (item, finder, p)

  moved : VolumeFinder W → Bool → Process W → Item × VolumeFinder W × Process W
  unfolding beside yielded advanced
  moved finder true p = beside (yielded (record finder { first = false })) p
  moved finder false p =
      let (answer, os) = W.find_next_volume finder.handle p.os in
      beside (advanced finder answer) (record p { os = os })

  unless_finished : VolumeFinder W → Bool → Process W → Item × VolumeFinder W × Process W
  unfolding moved
  unless_finished finder true p = (none, finder, p)
  unless_finished finder false p = moved finder finder.first p

  -- `VolumeFinder::next`.
  unfoldable pub next : VolumeFinder W → Process W → Item × VolumeFinder W × Process W
  unfolding unless_finished
  next finder p = unless_finished finder finder.finished p
