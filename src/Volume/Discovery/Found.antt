-- ===== src/Volume/Discovery/Found.antt =====
-- cli/src/driver/windows/volume/discovery.rs, what `volumes_for_disk` yields.
use wisp_disk.Base.{
  ℕ, zero, suc, ◌≡◌, refl, Option, none, some, List, [], ◌∷◌, ◌++◌, ◌==◌, Each, Each-append,
  Bool-cases, inl, inr, arith,
}
use wisp_disk.Base.Text.{Text, text}
use wisp_disk.Errors.{Result, ok, err}
use wisp_disk.Machine.{returned, Windows, Process, M}
use wisp_disk.Machine.Io.{call_for, of_result, pure, >>=-eq_ok, call_for-eq_ok}
use wisp_disk.Volume.{VolumeInfo}
use wisp_disk.Volume.Identity.{disk_number, volume_device_path}
use wisp_disk.Volume.Finder.{VolumeFinder, Item, new_finder, next}
use wisp_disk.Volume.Discovery.{
  examine, sorted, info_of, collected, gathered, visited, volume_rounds, enumerated, closing_finder,
  volumes_for_disk, volume_paths,
}
use mathlib.Core.Path.{subst}

-- The volume of that name was opened, and answered that it lies on the disk.
pub record WasOnDisk (W : Windows) (number : ℕ) (info : VolumeInfo) : Type 0 where
  pub path : Text
  pub named : volume_device_path info.name ≡ ok path
  pub handle : W.Handle
  pub before : Process W
  pub opened : (W.create_file path 0 before.os).0 ≡ returned handle
  pub asked : Process W
  pub answered : (disk_number handle asked).0 ≡ ok number

module _ {W : Windows} (number : ℕ) where
  sorted-eq_ok :
      (name : Text) (actual : Result ℕ) (p : Process W) {info : VolumeInfo}
      → (sorted number name actual p).0 ≡ ok (some info)
      → (actual ≡ ok number) × (info.name ≡ name)
  unfolding sorted info_of
  sorted-eq_ok name (ok actual) p {info} h = elim (Bool-cases (actual == number)) [
    | inl e ↦
        let (paths, found, rest) =
          >>=-eq_ok (volume_paths name)
            (λ mount_points. pure (some (record { name = name; mount_points = mount_points }))) p
            {b = some info} {p' = (sorted number name (ok actual) p).1} (ground arith) in
        (ground arith, ground arith)
    | inr e ↦ absurd (ground arith)
  ]
  sorted-eq_ok name (err e) p {info} h = ground (arith, h)

  examine-WasOnDisk :
      (name : Text) (p : Process W) {info : VolumeInfo}
      → (examine number name p).0 ≡ ok (some info)
      → WasOnDisk W number info
  unfolding examine
  examine-WasOnDisk name p {info} h =
      let whole : examine number name p ≡ (ok (some info), (examine number name p).1) =
        ground arith in
      let (path, named, h1) = >>=-eq_ok (of_result (volume_device_path name)) _ p whole in
      let create = call_for (text "open volume for disk identity query") (W.create_file path 0) in
      let (handle, opened, h2) = >>=-eq_ok create _ p h1 in
      let looked = disk_number handle (create p).1 in
      let (matched, same) = sorted-eq_ok name looked.0 looked.1 {info = info} (ground arith) in
      record {
        path = path;
        named = ground arith;
        handle = handle;
        before = p;
        opened =
            call_for-eq_ok (text "open volume for disk identity query") (W.create_file path 0) p
              opened;
        asked = (create p).1;
        answered = matched;
      }

  gathered-Each :
      (volumes : List VolumeInfo) (again : List VolumeInfo → M W (List VolumeInfo))
      (r : Result (Option VolumeInfo) × Process W) {vs : List VolumeInfo} {p' : Process W}
      → Each (WasOnDisk W number) volumes
      → ((info : VolumeInfo) → r.0 ≡ ok (some info) → WasOnDisk W number info)
      → ((more : List VolumeInfo) (q : Process W)
          → Each (WasOnDisk W number) more
          → again more q ≡ some (ok vs, p')
          → Each (WasOnDisk W number) vs)
      → gathered volumes again r ≡ some (ok vs, p')
      → Each (WasOnDisk W number) vs
  unfolding gathered collected
  gathered-Each volumes again (err e, p) k f rest h = cc
  gathered-Each volumes again (ok none, p) k f rest h = rest volumes p k h
  gathered-Each volumes again (ok (some info), p) k f rest h =
      rest (volumes ++ (info ∷ [])) p
        (Each-append (WasOnDisk W number) volumes (info ∷ []) k (f info refl, tt)) h

  visited-Each :
      (volumes : List VolumeInfo) (again : List VolumeInfo → VolumeFinder W → M W (List VolumeInfo))
      (r : Item × VolumeFinder W × Process W) {vs : List VolumeInfo} {p' : Process W}
      → Each (WasOnDisk W number) volumes
      → ((more : List VolumeInfo) (finder : VolumeFinder W) (q : Process W)
          → Each (WasOnDisk W number) more
          → again more finder q ≡ some (ok vs, p')
          → Each (WasOnDisk W number) vs)
      → visited number volumes again r ≡ some (ok vs, p')
      → Each (WasOnDisk W number) vs
  unfolding visited
  visited-Each volumes again (none, finder, p) k rest h =
      subst (Each (WasOnDisk W number)) (ground arith) k
  visited-Each volumes again (some (err e), finder, p) k rest h = cc
  visited-Each volumes again (some (ok name), finder, p) k rest h =
      gathered-Each volumes (λ vs. again vs finder) (examine number name p) k
        (λ info e. examine-WasOnDisk name p e) (λ more q. rest more finder q) h

  volume_rounds-Each :
      (fuel : ℕ) (volumes : List VolumeInfo) (finder : VolumeFinder W) (p : Process W)
      {vs : List VolumeInfo} {p' : Process W}
      → Each (WasOnDisk W number) volumes
      → volume_rounds number fuel volumes finder p ≡ some (ok vs, p')
      → Each (WasOnDisk W number) vs
  unfolding volume_rounds
  volume_rounds-Each zero volumes finder p k h = cc
  volume_rounds-Each (suc fuel) volumes finder p k h =
      visited-Each volumes (volume_rounds number fuel) (next finder p) k
        (λ more finder q k h. volume_rounds-Each fuel more finder q k h) h

  closing_finder-eq_ok :
      (handle : W.Handle) (o : Option (Result (List VolumeInfo) × Process W)) {vs : List VolumeInfo}
      {p' : Process W}
      → closing_finder handle o ≡ some (ok vs, p')
      → (q : Process W) × (o ≡ some (ok vs, q))
  unfolding closing_finder
  closing_finder-eq_ok handle none h = cc
  closing_finder-eq_ok handle (some (r, q)) h = (q, ground arith)

  enumerated-Each :
      (fuel : ℕ) (r : Result (VolumeFinder W) × Process W) {vs : List VolumeInfo} {p' : Process W}
      → enumerated fuel number r ≡ some (ok vs, p')
      → Each (WasOnDisk W number) vs
  unfolding enumerated
  enumerated-Each fuel (ok finder, p) h =
      let (q, rounds) =
        closing_finder-eq_ok finder.handle (volume_rounds number fuel [] finder p) h in
      volume_rounds-Each fuel [] finder p tt rounds
  enumerated-Each fuel (err e, p) h = cc

  -- Each volume that `volumes_for_disk` yields answered that it lies on the disk.
  pub volumes_for_disk-WasOnDisk :
      (fuel : ℕ) (p : Process W) {vs : List VolumeInfo} {p' : Process W}
      → volumes_for_disk fuel number p ≡ some (ok vs, p')
      → Each (WasOnDisk W number) vs
  unfolding volumes_for_disk
  volumes_for_disk-WasOnDisk fuel p h = enumerated-Each fuel (new_finder p) h
