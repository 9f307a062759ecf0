-- ===== src/Sandbox/Profile.antt =====
-- `SandboxProfile` of crates/tttt-sandbox/src/profile.rs, and what the profiles grant.
use tttt.Base.{true, false, ◌≡◌, some, [], ◌∷◌, Result, ok, ◌>>=◌, arith, inl, inr, Option-cases}
use tttt.Base.Text.{Text, codes}
use tttt.Sandbox.{
  read, write, read_write, contains, FilePath, SandboxError, CapabilitySet, FileSystem, new,
  starts_with, allow_path, allow_path_unchecked, block_network, canonical, path_covered_with_access,
}

pub data SandboxProfile : Type 0 where
  read_only_worktree read_write_worktree own_worktree : FilePath → SandboxProfile
  custom : CapabilitySet → SandboxProfile

abbrev top : Text → FilePath
top name = codes "/" ∷ name ∷ []

-- The four `allow_path_unchecked` calls of each profile.
unfoldable pub allow_system : CapabilitySet → CapabilitySet
allow_system caps = allow_path_unchecked (top (codes "sbin")) read (
    allow_path_unchecked (top (codes "bin")) read (
      allow_path_unchecked (top (codes "lib")) read
        (allow_path_unchecked (top (codes "usr")) read caps)))

module _ (fs : FileSystem) where
  unfoldable pub to_capability_set : SandboxProfile → Result SandboxError CapabilitySet
  to_capability_set (read_only_worktree worktree) = do
    caps ← allow_path fs worktree read new
    ok (block_network (allow_system caps))
  to_capability_set (read_write_worktree worktree) = do
    caps ← allow_path fs worktree read_write new
    ok (allow_system caps)
  to_capability_set (own_worktree worktree) = do
    caps ← allow_path fs worktree read_write new
    ok (allow_system caps)
  to_capability_set (custom caps) = ok caps

  -- A read-only profile whose worktree exists blocks the network and grants writing nowhere.
  pub read_only_grants_no_write :
      (worktree path : FilePath) (caps : CapabilitySet)
      → to_capability_set (read_only_worktree worktree) ≡ ok caps
      → (caps.network_blocked ≡ true)
        × (path_covered_with_access fs path write caps ≡ false)
        × (path_covered_with_access fs path read_write caps ≡ false)
  unfolding to_capability_set path_covered_with_access allow_path allow_system allow_path_unchecked
      block_network new contains
  read_only_grants_no_write worktree path caps h = elim (Option-cases (fs.canonicalize worktree)) [
    | inl missing ↦ absurd (ground arith)
    | inr (resolved, there) ↦ ground arith
  ]

  -- The read-write profile of a worktree that exists grants writing exactly below the resolved
  -- worktree.
  pub read_write_grants_worktree :
      (worktree path resolved : FilePath) (caps : CapabilitySet)
      → fs.canonicalize worktree ≡ some resolved
      → to_capability_set (read_write_worktree worktree) ≡ ok caps
      → path_covered_with_access fs path write caps ≡ starts_with (canonical fs path) resolved
  unfolding to_capability_set path_covered_with_access allow_path allow_system allow_path_unchecked
      new contains
  read_write_grants_worktree worktree path resolved caps e h = ground arith
