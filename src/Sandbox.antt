-- ===== src/Sandbox.antt =====
-- crates/tttt-sandbox: capabilities and profiles. A path is the list of its components, "/" the
-- first of an absolute one. The file system is a parameter: what `canonicalize` returns, and
-- whether a path is a file.
pub mod Profile
mod Samples
use tttt.Base.{
  ℕ, Bool, true, false, ◌&&◌, Option, none, some, List, [], ◌∷◌, ◌++◌, any, Result, ok, err,
  if◌then◌else◌,
}
use tttt.Base.Text.{Text, text_eq}

pub data AccessMode : Type 0 where
  read write read_write : AccessMode

unfoldable pub contains : AccessMode → AccessMode → Bool
contains read_write required = true
contains read read = true
contains write write = true
contains _ _ = false

abbrev pub FilePath : Type 0
FilePath = List Text

pub data SandboxError : Type 0 where
  path_not_found : FilePath → SandboxError
  canonicalize_failed apply_failed : Text → SandboxError
  not_supported : SandboxError

pub record FsCapability : Type 0 where
  pub original : FilePath
  pub resolved : FilePath
  pub access : AccessMode
  pub is_file : Bool

pub record CapabilitySet : Type 0 where
  pub fs_capabilities : List FsCapability
  pub network_blocked : Bool

pub record FileSystem : Type 0 where
  pub canonicalize : FilePath → Option FilePath
  pub is_file : FilePath → Bool

unfoldable pub new : CapabilitySet
new = record { fs_capabilities = []; network_blocked = false }

-- `Path::starts_with`, by whole components: the path, and then the base.
unfoldable pub starts_with : FilePath → FilePath → Bool
starts_with path [] = true
starts_with [] (b ∷ base) = false
starts_with (p ∷ path) (b ∷ base) = text_eq p b && starts_with path base

unfoldable pub allow_path_unchecked : FilePath → AccessMode → CapabilitySet → CapabilitySet
allow_path_unchecked path access caps = record caps {
  fs_capabilities =
      caps.fs_capabilities
      ++ (record { original = path; resolved = path; access = access; is_file = false } ∷ []);
}

unfoldable pub block_network : CapabilitySet → CapabilitySet
block_network caps = record caps { network_blocked = true }

module _ (fs : FileSystem) where
  unfoldable pub allow_path :
      FilePath → AccessMode → CapabilitySet → Result SandboxError CapabilitySet
  allow_path path access caps = elim (fs.canonicalize path) [
    | none ↦ err (path_not_found path)
    | some resolved ↦ ok (record caps {
      fs_capabilities =
          caps.fs_capabilities
          ++ (record {
            original = path;
            resolved = resolved;
            access = access;
            is_file = fs.is_file resolved;
          }
              ∷ []);
    })
  ]

  abbrev or_itself : FilePath → Option FilePath → FilePath
  or_itself path none = path
  or_itself path (some resolved) = resolved

  unfoldable pub canonical : FilePath → FilePath
  canonical path = or_itself path (fs.canonicalize path)

  unfoldable pub path_covered : FilePath → CapabilitySet → Bool
  path_covered path caps =
      any (λ cap. starts_with (canonical path) cap.resolved) caps.fs_capabilities

  unfoldable pub path_covered_with_access : FilePath → AccessMode → CapabilitySet → Bool
  path_covered_with_access path required caps =
      any (λ cap. starts_with (canonical path) cap.resolved && contains cap.access required)
        caps.fs_capabilities
