-- ===== src/Volume/Discovery.antt =====
-- cli/src/driver/windows/volume/discovery.rs, the volumes of a disk and their mount points, with
-- `multisz_entries` of cli/src/driver/windows/win32.rs. The enumeration runs on fuel, a count of the
-- volumes.
pub mod Found
pub mod Entries
use wisp_disk.Base.{
  ℕ, zero, suc, Bool, true, false, not, ◌||◌, Option, none, some, List, [], ◌∷◌, ◌++◌, ◌==◌,
  if◌then◌else◌, replicate,
}
use wisp_disk.Base.Text.{Text, text}
use wisp_disk.Errors.{Error, os_error, context, downcast_os_error, Result, ok, err}
use wisp_disk.Machine.{Windows, Process, PathNames, Io, M}
use wisp_disk.Machine.Io.{
  answer_result, contextual, call_for, map_err, ask, outcome, refuse_if, of_result, fail, pure,
  ◌>>=◌, ◌>>◌,
}
use wisp_disk.Volume.{VolumeInfo}
use wisp_disk.Volume.Identity.{disk_number, volume_device_path, with_handle}
use wisp_disk.Volume.Finder.{VolumeFinder, Item, new_finder, next}

-- `ERROR_MORE_DATA`, and the codes of a volume without disk extents: `ERROR_INVALID_FUNCTION` and
-- `ERROR_NOT_READY`.
abbrev error_more_data : ℕ
error_more_data = 234

-- The entry that a unit stands before; `entries` are those from that unit on.
pushed : ℕ → List Text → List Text
pushed unit [] = (unit ∷ []) ∷ []
pushed unit (entry ∷ entries) = (unit ∷ entry) ∷ entries

-- `buffer.split(|unit| *unit == 0)`.
unfoldable pub split_at_nul : List ℕ → List Text
unfolding pushed
split_at_nul [] = [] ∷ []
split_at_nul (unit ∷ units) =
    let rest = split_at_nul units in if unit == 0 then [] ∷ rest else pushed unit rest

-- `take_while(|entry| !entry.is_empty())`.
unfoldable pub take_non_empty : List Text → List Text
take_non_empty [] = []
take_non_empty ([] ∷ entries) = []
take_non_empty ((unit ∷ entry) ∷ entries) = (unit ∷ entry) ∷ take_non_empty entries

unfoldable pub multisz_entries : List ℕ → List Text
multisz_entries buffer = take_non_empty (split_at_nul buffer)

-- `matches!(error.raw_os_error(), Some(1 | 21))`.
unfoldable pub has_no_extents : Option ℕ → Bool
has_no_extents none = false
has_no_extents (some code) = code == 1 || code == 21

encoded_path : (W : Windows) → Text → Result Text
encoded_path W path =
    contextual (context (text "encode volume mount point")) (answer_result (W.from_ustr path))

joined_paths : Result Text → Result (List Text) → Result (List Text)
joined_paths (ok path) (ok paths) = ok (path ∷ paths)
joined_paths (ok path) (err e) = err e
joined_paths (err e) paths = err e

-- The `collect` into a result.
encoded_paths : (W : Windows) → List Text → Result (List Text)
unfolding joined_paths encoded_path
encoded_paths W [] = ok []
encoded_paths W (path ∷ paths) = joined_paths (encoded_path W path) (encoded_paths W paths)

collected : List VolumeInfo → Option VolumeInfo → List VolumeInfo
collected volumes none = volumes
collected volumes (some info) = volumes ++ (info ∷ [])

module _ {W : Windows} where
  -- The third call, with a buffer of the size that the second asked for.
  reread : Text → ℕ → Io W (List ℕ)
  reread name required = do
    again ← ask (W.volume_path_names name required)
    refuse_if (not again.succeeded)
        (context (text "reread volume mount points") (os_error again.last_error))
    pure again.units

  -- What the second call comes to.
  read_units : Text → PathNames → Io W (List ℕ)
  unfolding reread
  read_units name reply =
      if reply.succeeded
      then pure reply.units
      else if not (reply.last_error == error_more_data)
      then fail (context (text "read volume mount points") (os_error reply.last_error))
      else reread name reply.required

  unfoldable pub volume_paths : Text → Io W (List Text)
  unfolding read_units encoded_paths
  volume_paths name = do
    asked ← ask (W.volume_path_names name 0)
    refuse_if (asked.required == 0)
        (context (text "query volume mount points") (os_error asked.last_error))
    reply ← ask (W.volume_path_names name asked.required)
    units ← read_units name reply
    of_result (encoded_paths W (multisz_entries units))

  info_of : Text → Io W (Option VolumeInfo)
  info_of name = do
    mount_points ← volume_paths name
    pure (some (record { name = name; mount_points = mount_points }))

  -- The `match` on the disk number of a volume.
  sorted : ℕ → Text → Result ℕ → Io W (Option VolumeInfo)
  unfolding info_of
  sorted number name (ok actual) = if actual == number then info_of name else pure none
  sorted number name (err e) = if has_no_extents (downcast_os_error e) then pure none else fail e

  -- The body of the loop for one volume.
  unfoldable pub examine : ℕ → Text → Io W (Option VolumeInfo)
  unfolding sorted
  examine number name = do
    device_path ← of_result (volume_device_path name)
    volume ← call_for (text "open volume for disk identity query") (W.create_file device_path 0)
    with_handle (λ handle. do actual ← outcome (disk_number handle); sorted number name actual)
        volume

  -- What a round makes of the volume that it examined; `again` is the rest of the loop.
  gathered :
      List VolumeInfo
      → (List VolumeInfo → M W (List VolumeInfo))
      → Result (Option VolumeInfo) × Process W
      → Option (Result (List VolumeInfo) × Process W)
  unfolding collected
  gathered volumes again (ok info, p) = again (collected volumes info) p
  gathered volumes again (err e, p) = some (err e, p)

  visited :
      ℕ
      → List VolumeInfo
      → (List VolumeInfo → VolumeFinder W → M W (List VolumeInfo))
      → Item × VolumeFinder W × Process W
      → Option (Result (List VolumeInfo) × Process W)
  unfolding gathered
  visited number volumes again (none, finder, p) = some (ok volumes, p)
  visited number volumes again (some (err e), finder, p) = some (err e, p)
  visited number volumes again (some (ok name), finder, p) =
      gathered volumes (λ vs. again vs finder) (examine number name p)

  unfoldable pub volume_rounds : ℕ → ℕ → List VolumeInfo → VolumeFinder W → M W (List VolumeInfo)
  unfolding visited
  volume_rounds number zero volumes finder p = none
  volume_rounds number (suc fuel) volumes finder p =
      visited number volumes (volume_rounds number fuel) (next finder p)

  -- The finder is dropped behind the loop.
  closing_finder :
      W.Handle
      → Option (Result (List VolumeInfo) × Process W)
      → Option (Result (List VolumeInfo) × Process W)
  closing_finder handle none = none
  closing_finder handle (some (r, p)) = some (r, record p { os = W.find_volume_close handle p.os })

  enumerated :
      ℕ → ℕ → Result (VolumeFinder W) × Process W → Option (Result (List VolumeInfo) × Process W)
  unfolding closing_finder
  enumerated fuel number (ok finder, p) =
      closing_finder finder.handle (volume_rounds number fuel [] finder p)
  enumerated fuel number (err e, p) = some (err e, p)

  unfoldable pub volumes_for_disk : ℕ → ℕ → M W (List VolumeInfo)
  unfolding enumerated
  volumes_for_disk fuel number p = enumerated fuel number (new_finder p)
