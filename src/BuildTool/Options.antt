-- ===== src/BuildTool/Options.antt =====
-- scripts/build-tool/src/main.rs, `Configuration`, `Platform` and `Options`. An argument is the text
-- that `to_string_lossy` makes of it.
use wisp_disk.Base.{ℕ, ◌||◌, Option, none, some, List, [], ◌∷◌, ◌++◌, if◌then◌else◌}
use wisp_disk.Base.Text.{Text, text, text_eq}
use wisp_disk.BuildTool.{BuildResult, built, refused, lowercase, and_then}

pub data Configuration : Type 0 where
  debug release : Configuration

pub data Platform : Type 0 where
  x64 arm64 : Platform

pub record Options : Type 0 where
  pub configuration : Configuration
  pub platform : Platform

unfoldable pub parse_configuration : Text → BuildResult Configuration
parse_configuration value =
    if text_eq (lowercase value) (text "debug")
    then built Configuration.debug
    else if text_eq (lowercase value) (text "release")
    then built Configuration.release
    else refused
        (text "unsupported configuration '" ++ (value ++ text "'; expected Debug or Release"))

unfoldable pub parse_platform : Text → BuildResult Platform
parse_platform value =
    if text_eq (lowercase value) (text "x64") || text_eq (lowercase value) (text "amd64")
    then built Platform.x64
    else if text_eq (lowercase value) (text "arm64") || text_eq (lowercase value) (text "aarch64")
    then built Platform.arm64
    else refused (text "unsupported platform '" ++ (value ++ text "'; expected x64 or ARM64"))

unfoldable pub cargo_profile : Configuration → Text
cargo_profile debug = text "debug"
cargo_profile release = text "release"

unfoldable pub platform_as_msbuild : Platform → Text
platform_as_msbuild x64 = text "x64"
platform_as_msbuild arm64 = text "ARM64"

unfoldable pub configuration_as_msbuild : Configuration → Text
configuration_as_msbuild debug = text "Debug"
configuration_as_msbuild release = text "Release"

unfoldable pub rust_target : Platform → Text
rust_target x64 = text "x86_64-pc-windows-msvc"
rust_target arm64 = text "aarch64-pc-windows-msvc"

unfoldable pub inf2cat_os : Platform → Text
inf2cat_os x64 = text "10_X64"
inf2cat_os arm64 = text "10_RS3_ARM64"

unfoldable pub platform_machine_type : Platform → ℕ
platform_machine_type x64 = 0x8664
platform_machine_type arm64 = 0xaa64

unfoldable pub pe_machine_type_name : Platform → Text
pe_machine_type_name x64 = text "AMD64"
pe_machine_type_name arm64 = text "ARM64"

unfoldable pub spectre_library_platform : Platform → Text
spectre_library_platform x64 = text "x64"
spectre_library_platform arm64 = text "arm64"

unfoldable pub spectre_component : Platform → Text
spectre_component x64 = text "Microsoft.VisualStudio.Component.VC.Runtimes.x86.x64.Spectre"
spectre_component arm64 = text "Microsoft.VisualStudio.Component.VC.Runtimes.ARM64.Spectre"

unfoldable pub usage : Text
usage = text "usage: wispdisk-build build --configuration <Debug|Release> --platform <x64|ARM64>"

-- The two variables of the loop.
pub record Chosen : Type 0 where
  pub configuration : Option Configuration
  pub platform : Option Platform

unfoldable pub required : {A : Type 0} → Text → Option A → BuildResult A
required e none = refused e
required e (some a) = built a

-- The end of `Options::parse`.
unfoldable pub options_of : Chosen → BuildResult Options
options_of chosen =
    and_then (required (text "missing required --configuration option") chosen.configuration)
      (λ configuration.
        and_then (required (text "missing required --platform option") chosen.platform)
          (λ platform. built (record { configuration = configuration; platform = platform })))

unknown_argument : Text → Text
unknown_argument argument = text "unknown argument '" ++ (argument ++ (text "'\n" ++ usage))

-- The loop over the arguments behind the command.
unfoldable pub parse_arguments : List Text → Chosen → BuildResult Chosen
unfolding unknown_argument
parse_arguments [] chosen = built chosen
parse_arguments (argument ∷ []) chosen =
    if text_eq argument (text "--configuration")
    then refused (text "--configuration requires a value")
    else if text_eq argument (text "--platform")
    then refused (text "--platform requires a value")
    else refused (unknown_argument argument)
parse_arguments (argument ∷ value ∷ arguments) chosen =
    let rest = parse_arguments arguments in
    if text_eq argument (text "--configuration")
    then and_then (parse_configuration value) (λ c. rest (record chosen { configuration = some c }))
    else if text_eq argument (text "--platform")
    then and_then (parse_platform value) (λ p. rest (record chosen { platform = some p }))
    else refused (unknown_argument argument)

-- `Options::parse`.
unfoldable pub parse_options : List Text → BuildResult Options
parse_options [] = refused usage
parse_options (command ∷ arguments) =
    if text_eq (lowercase command) (text "build")
    then and_then (parse_arguments arguments (record { configuration = none; platform = none }))
        options_of
    else refused (text "unsupported command '" ++ (lowercase command ++ (text "'\n" ++ usage)))
