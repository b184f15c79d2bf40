-- ===== src/Args/Validation.antt =====
-- cli/src/args.rs, what `Cli::into_command` accepts.
use wisp_disk.Base.{
  ℕ, ◌%◌, ◌≤◌, ◌≡◌, ◌≢◌, ◌⊎◌, ◌↔◌, true, false, ◌||◌, none, some, arith, if◌then◌else◌,
}
use wisp_disk.Args.{
  Cli, FileSystem, Command, FollowsGroups, ok, fat32, fixed, removable, into_command, min_disk_size,
  min_fat32_disk_size, max_disk_size, logical_sector_size, default_file_system,
}

-- The size limits that the README states for a new disk.
abbrev pub smallest_size : FileSystem → ℕ
smallest_size fat32 = min_fat32_disk_size
smallest_size _ = min_disk_size

abbrev pub IsDiskSize : FileSystem → ℕ → Type 0
IsDiskSize file_system size =
    (smallest_size file_system ≤ size) × (size ≤ max_disk_size) × (size % logical_sector_size ≡ 0)

-- The command line that asks for `command`, option by option.
abbrev pub Requests : Cli → Command → Type 0
Requests cli (Command.list json) =
    (cli.list ≡ true)
    × (cli.json ≡ json)
    × (cli.force ≡ false)
    × (cli.letter ≡ none)
    × (cli.size ≡ none)
    × (cli.file_system ≡ none)
    × (cli.hdd ≡ false)
    × (cli.removable ≡ false)
    × (cli.id ≡ none)
    × (cli.adapter ≡ none)
Requests cli (Command.add letter media size file_system) =
    (cli.add ≡ true)
    × (cli.json ≡ false)
    × (cli.force ≡ false)
    × (cli.letter ≡ some letter)
    × (cli.size ≡ some (record { bytes = size }))
    × ((cli.file_system ≡ some file_system)
        ⊎ ((cli.file_system ≡ none) × (file_system ≡ default_file_system)))
    × (media ≡ (if cli.hdd then fixed else removable))
    × ((cli.hdd || cli.removable) ≡ true)
    × (cli.id ≡ none)
    × (cli.adapter ≡ none)
    × IsDiskSize file_system size
Requests cli (Command.delete letter force) =
    (cli.delete ≡ true)
    × (cli.json ≡ false)
    × (cli.force ≡ force)
    × (cli.letter ≡ some letter)
    × (cli.size ≡ none)
    × (cli.file_system ≡ none)
    × (cli.hdd ≡ false)
    × (cli.removable ≡ false)
    × (cli.id ≡ none)
    × (cli.adapter ≡ none)
Requests cli (Command.delete_id adapter id force) =
    (cli.delete ≡ true)
    × (cli.json ≡ false)
    × (cli.force ≡ force)
    × (cli.letter ≡ none)
    × (cli.size ≡ none)
    × (cli.file_system ≡ none)
    × (cli.hdd ≡ false)
    × (cli.removable ≡ false)
    × (cli.id ≡ some id)
    × (cli.adapter ≡ some adapter)
    × (id ≢ 0)
    × (adapter ≢ 0)

-- An accepted command line asked for exactly the command that it yields.
pub into_command_sound :
    (cli : Cli) (command : Command)
    → FollowsGroups cli
    → into_command cli ≡ ok command
    → Requests cli command
unfolding into_command
into_command_sound cli (Command.list json) g h = ground arith
into_command_sound cli (Command.add letter media size file_system) g h = ground arith
into_command_sound cli (Command.delete letter force) g h = ground arith
into_command_sound cli (Command.delete_id adapter id force) g h = ground arith

pub into_command_complete :
    (cli : Cli) (command : Command)
    → FollowsGroups cli
    → Requests cli command
    → into_command cli ≡ ok command
unfolding into_command
into_command_complete cli (Command.list json) g h = ground arith
into_command_complete cli (Command.add letter media size file_system) g h = ground arith
into_command_complete cli (Command.delete letter force) g h = ground arith
into_command_complete cli (Command.delete_id adapter id force) g h = ground arith

-- On command lines that follow clap's groups, `into_command` yields a command exactly when the
-- options ask for that command and, for a new disk, its size is in the range of its file system
-- and a multiple of the sector.
pub into_command_iff :
    (cli : Cli) (command : Command)
    → FollowsGroups cli
    → (into_command cli ≡ ok command) ↔ Requests cli command
into_command_iff cli command g =
    (into_command_sound cli command g, into_command_complete cli command g)
