-- ===== src/Disk/Opening/Opened.antt =====
-- cli/src/driver/windows/disk/deletion.rs, what `DiskDeletion::open` ascertains.
use wisp_disk.Base.{ℕ, ◌≡◌, true, some, List, [], ◌∷◌, arith}
use wisp_disk.Errors.{ok}
use wisp_disk.Machine.{Windows, Process}
use mathlib.Core.Path.{subst}
use wisp_disk.Machine.Io
use wisp_disk.Machine.Io.{pure}
use wisp_disk.Machine.Loops
use wisp_disk.Machine.Loops.{run}
use wisp_disk.Volume.{VolumeInfo, Volume}
use wisp_disk.Volume.Identity.{
  ScsiLocation, same_location, physical_disk_address, open_volume, verify_physical_disk_location,
}
use wisp_disk.Volume.Identity.Opened.{
  IsOnDisk, open_volume-IsOnDisk, verify_physical_disk_location-eq_ok,
}
use wisp_disk.Volume.Discovery.{volumes_for_disk}
use wisp_disk.Disk.Deletion.{open_all, verified}
use wisp_disk.Disk.Opening.{open_deletion}

-- Volume by volume: each is the one that was found, opened, and on the disk.
pub data AreOnDisk {W : Windows} (number : ℕ) : List VolumeInfo → List (Volume W) → Type 0 where
  none_open : AreOnDisk number [] []
  one_open :
      {info : VolumeInfo} {v : Volume W} {infos : List VolumeInfo} {vs : List (Volume W)}
      → IsOnDisk info number v
      → AreOnDisk number infos vs
      → AreOnDisk number (info ∷ infos) (v ∷ vs)

module _ {W : Windows} (number : ℕ) where
  open_all-AreOnDisk :
      (infos : List VolumeInfo) (p p' : Process W) (vs : List (Volume W))
      → open_all number infos p ≡ (ok vs, p')
      → AreOnDisk number infos vs
  unfolding open_all
  open_all-AreOnDisk [] p p' vs h =
      let same : [] ≡ vs = ground arith in subst (λ vs. AreOnDisk number [] vs) same none_open
  open_all-AreOnDisk (info ∷ infos) p p' vs h =
      let (v, opened, h1) = Io.>>=-eq_ok (open_volume info number) _ p h in
      let q = (open_volume info number p).1 in
      let (more, others, h2) =
        Io.>>=-eq_ok (open_all number infos) (λ volumes. pure (v ∷ volumes)) q h1 in
      let r = (open_all number infos q).1 in
      let same : v ∷ more ≡ vs = ground arith in
      subst (λ vs. AreOnDisk number (info ∷ infos) vs) same
        (one_open (open_volume-IsOnDisk info number v p q (ground arith))
          (open_all-AreOnDisk infos q r more (ground arith)))

  -- DiskDeletion::open yields the volumes that the enumeration found on the disk, each opened and
  -- on this disk by the answer of Windows, and behind that the disk answered at its SCSI address.
  pub open_deletion-AreOnDisk :
      (fuel : ℕ) (location : ScsiLocation) (p p' : Process W) (vs : List (Volume W))
      → open_deletion fuel number location p ≡ some (ok vs, p')
      → (infos : List VolumeInfo) × (q : Process W) × (volumes_for_disk fuel number p
          ≡ some (ok infos, q))
        × AreOnDisk number infos vs
        × (before : Process W) × (actual : ScsiLocation) × (physical_disk_address number before
            ≡ (ok actual, p'))
        × (same_location actual location ≡ true)
  unfolding open_deletion verified
  open_deletion-AreOnDisk fuel location p p' vs h =
      let (infos, q, found, h1) = Loops.>>=-eq_ok (volumes_for_disk fuel number) _ p h in
      let (volumes, r, opened, h2) =
        Loops.>>=-eq_ok (run (open_all number infos))
          (λ volumes. run (verified number location volumes)) q h1 in
      let (_, checked, h3) =
        Io.>>=-eq_ok (verify_physical_disk_location number location) (λ _. pure volumes) r {b = vs}
          {p' = p'} (ground arith) in
      let (actual, asked, same) =
        verify_physical_disk_location-eq_ok number location r p' (ground arith) in
      let equal : volumes ≡ vs = ground arith in
      (
        infos,
        q,
        found,
        subst (λ vs. AreOnDisk number infos vs) equal
            (open_all-AreOnDisk infos q r volumes (ground arith)),
        r,
        actual,
        asked,
        same,
      )
