-- ===== src/BuildTool.antt =====
-- scripts/build-tool/src/main.rs, the command line of the build tool, and the checks that it makes of
-- texts and of files that it has read. Running the other tools is not modelled.
pub mod Options
pub mod Digests
pub mod Images
use wisp_disk.Base.{ℕ, Bool, ◌||◌, List, [], ◌∷◌, ◌++◌, map, if◌then◌else◌}
use wisp_disk.Base.Text.{Text, text, text_eq, to_ascii_lowercase}

-- `Result<T, String>`.
pub data BuildResult (A : Type 0) : Type 0 where
  built : A → BuildResult A
  refused : (error : Text) → BuildResult A

abbrev pub lowercase : Text → Text
lowercase s = map to_ascii_lowercase s

-- The `?` operator.
unfoldable pub and_then : {A B : Type 0} → BuildResult A → (A → BuildResult B) → BuildResult B
and_then (built a) f = f a
and_then (refused e) f = refused e
