-- ===== src/Args.antt =====
-- cli/src/args.rs, the parsed command line `Cli` and its validation by `into_command`.
-- The children model the other parts of the file: `Parse` the `FromStr` implementations, `Display`
-- the printed forms, `Normalize` the Windows slash options. `Validation` and the modules below
-- them hold the proofs.
pub mod Parse
pub mod Display
pub mod Normalize
pub mod Validation
use wisp_disk.Base.{
  ℕ, ◌*◌, ◌%◌, ◌≤◌, ◌≡◌, Bool, true, false, not, ◌&&◌, ◌||◌, Option, none, some, ltb, ◌==◌,
  if◌then◌else◌, is_some,
}

abbrev pub min_disk_size : ℕ
min_disk_size = 16 * 1024 * 1024

abbrev pub min_fat32_disk_size : ℕ
min_fat32_disk_size = 64 * 1024 * 1024

abbrev pub max_disk_size : ℕ
max_disk_size = 256 * 1024 * 1024

abbrev pub logical_sector_size : ℕ
logical_sector_size = 512

pub data FileSystem : Type 0 where
  fat fat32 ntfs : FileSystem

pub data MediaKind : Type 0 where
  fixed removable : MediaKind

-- A `char`, by its code point.
pub record DriveLetter : Type 0 where
  pub char : ℕ

-- A `u64`.
pub record ByteSize : Type 0 where
  pub bytes : ℕ

-- `tracing::level_filters::LevelFilter`.
pub data LevelFilter : Type 0 where
  off error warn info debug trace : LevelFilter

pub record Cli : Type 0 where
  pub add : Bool
  pub delete : Bool
  pub force : Bool
  pub list : Bool
  pub json : Bool
  pub id : Option ℕ
  pub adapter : Option ℕ
  pub hdd : Bool
  pub removable : Bool
  pub letter : Option DriveLetter
  pub size : Option ByteSize
  pub file_system : Option FileSystem
  pub log : Option LevelFilter

pub data Command : Type 0 where
  list : (json : Bool) → Command
  delete_id : (adapter id : ℕ) (force : Bool) → Command
  add : DriveLetter → MediaKind → (size_bytes : ℕ) → FileSystem → Command
  delete : DriveLetter → (force : Bool) → Command

pub data ValidationError : Type 0 where
  unexpected_options force_without_delete delete_identity missing_letter missing_media :
      ValidationError
  missing_size media_on_delete size_on_delete file_system_on_delete size_too_small : ValidationError
  fat32_size_too_small size_too_large unaligned_size : ValidationError

pub data Validated : Type 0 where
  ok : Command → Validated
  err : ValidationError → Validated

-- `FileSystem::default()`.
abbrev pub default_file_system : FileSystem
default_file_system = ntfs

abbrev pub is_fat32 : FileSystem → Bool
is_fat32 fat32 = true
is_fat32 _ = false

-- The size checks of the `/add` branch, in their order.
check_size : DriveLetter → MediaKind → ℕ → FileSystem → Validated
check_size letter media size file_system =
    if is_fat32 file_system && ltb size min_fat32_disk_size
    then err fat32_size_too_small
    else if ltb size min_disk_size
    then err size_too_small
    else if ltb max_disk_size size
    then err size_too_large
    else if not (size % logical_sector_size == 0)
    then err unaligned_size
    else ok (add letter media size file_system)

add_size : DriveLetter → MediaKind → Option ByteSize → Option FileSystem → Validated
unfolding check_size
add_size letter media none file_system = err missing_size
add_size letter media (some size) none = check_size letter media size.bytes default_file_system
add_size letter media (some size) (some file_system) =
    check_size letter media size.bytes file_system

add_media : DriveLetter → Bool → Bool → Option ByteSize → Option FileSystem → Validated
unfolding add_size
add_media letter true false size file_system = add_size letter fixed size file_system
add_media letter false true size file_system = add_size letter removable size file_system
add_media letter _ _ size file_system = err missing_media

add_command : Cli → Option DriveLetter → Validated
unfolding add_media
add_command cli none = err missing_letter
add_command cli (some letter) = add_media letter cli.hdd cli.removable cli.size cli.file_system

-- The last `match` of the `/del` branch.
delete_target : Option DriveLetter → Option ℕ → Option ℕ → Bool → Validated
delete_target (some letter) none none force = ok (delete letter force)
delete_target none (some id) (some adapter) force =
    if not (id == 0) && not (adapter == 0)
    then ok (delete_id adapter id force)
    else err delete_identity
delete_target none none none force = err missing_letter
delete_target _ _ _ force = err delete_identity

delete_command : Cli → Validated
unfolding delete_target
delete_command cli =
    if cli.hdd || cli.removable
    then err media_on_delete
    else if is_some cli.size
    then err size_on_delete
    else if is_some cli.file_system
    then err file_system_on_delete
    else delete_target cli.letter cli.id cli.adapter cli.force

list_command : Cli → Validated
list_command cli =
    if is_some cli.letter
      || is_some cli.size
      || is_some cli.file_system
      || cli.hdd
      || cli.removable
      || is_some cli.id
      || is_some cli.adapter
    then err unexpected_options
    else ok (list cli.json)

unfoldable pub into_command : Cli → Validated
unfolding add_command delete_command list_command
into_command cli =
    if cli.force && not cli.delete
    then err force_without_delete
    else if cli.list
    then list_command cli
    else if cli.json || (cli.add && (is_some cli.id || is_some cli.adapter))
    then err unexpected_options
    else if cli.add
    then add_command cli cli.letter
    else delete_command cli

-- What clap's argument groups establish before `into_command` runs: `operation` is required and
-- exclusive, `media` is exclusive.
pub record FollowsGroups (cli : Cli) : Type 0 where
  pub one_operation :
      ((cli.add && not cli.delete && not cli.list)
        || (not cli.add && cli.delete && not cli.list)
        || (not cli.add && not cli.delete && cli.list))
      ≡ true
  pub one_medium : (cli.hdd && cli.removable) ≡ false
