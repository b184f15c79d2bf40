-- ===== src/Args/Display.antt =====
-- cli/src/args.rs, the `Display` implementations.
use wisp_disk.Base.{Bool, ◌++◌, [], ◌∷◌, if◌then◌else◌}
use wisp_disk.Base.Text.{Text, text, decimal}
use wisp_disk.Args.{
  FileSystem, fat, fat32, ntfs, MediaKind, fixed, removable, DriveLetter, Command, ValidationError,
  unexpected_options, force_without_delete, delete_identity, missing_letter, missing_media,
  missing_size, media_on_delete, size_on_delete, file_system_on_delete, size_too_small,
  fat32_size_too_small, size_too_large, unaligned_size,
}

unfoldable pub show_file_system : FileSystem → Text
unfolding text
show_file_system fat = text "FAT"
show_file_system fat32 = text "FAT32"
show_file_system ntfs = text "NTFS"

unfoldable pub show_media : MediaKind → Text
unfolding text
show_media fixed = text "fixed"
show_media removable = text "removable"

unfoldable pub show_drive_letter : DriveLetter → Text
show_drive_letter letter = letter.char ∷ b':' ∷ []

abbrev show_force : Bool → Text
show_force force = if force then text " (force)" else []

unfoldable pub show_command : Command → Text
unfolding show_file_system show_media show_drive_letter text decimal
show_command (Command.list json) = text "list WispDisk allocations"
show_command (Command.delete_id adapter id force) =
    text "delete WispDisk device "
    ++ (decimal id ++ (text " on adapter instance " ++ (decimal adapter ++ show_force force)))
show_command (Command.add letter media size_bytes file_system) =
    text "add "
    ++ (show_media media
        ++ (text " disk at "
            ++ (show_drive_letter letter
                ++ (text " with "
                    ++ (decimal size_bytes
                        ++ (text " bytes formatted as " ++ show_file_system file_system))))))
show_command (Command.delete letter force) =
    text "delete virtual disk at " ++ (show_drive_letter letter ++ show_force force)

unfoldable pub show_validation_error : ValidationError → Text
unfolding text
show_validation_error unexpected_options = text "options are not valid for the selected operation"
show_validation_error force_without_delete = text "/force is only valid with /del"
show_validation_error delete_identity =
    text "delete requires either /letter or both nonzero /adapter and /id"
show_validation_error missing_letter = text "/letter is required"
show_validation_error missing_media = text "exactly one of /hdd or /rem is required with /add"
show_validation_error missing_size = text "/size is required with /add"
show_validation_error media_on_delete = text "/hdd and /rem are only valid with /add"
show_validation_error size_on_delete = text "/size is only valid with /add"
show_validation_error file_system_on_delete = text "/fs is only valid with /add"
show_validation_error size_too_small = text "disk size must be at least 16 MiB"
show_validation_error fat32_size_too_small =
    text "disk size must be at least 64 MiB for FAT32 formatting"
show_validation_error size_too_large = text "disk size must not exceed 256 MiB in this release"
show_validation_error unaligned_size = text "disk size must be a multiple of 512 bytes"
