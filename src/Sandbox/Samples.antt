-- ===== src/Sandbox/Samples.antt =====
-- Profiles on a file system without symbolic links.
use tttt.Base.{◌≡◌, refl, true, false, some, [], ◌∷◌, Result, ok, err}
use tttt.Base.Text.{codes}
use tttt.Sandbox.{
  SandboxError, write, read_write, FilePath, CapabilitySet, FileSystem, new, starts_with, canonical,
  allow_path, path_covered_with_access,
}
use tttt.Sandbox.Profile.{
  read_only_worktree, read_write_worktree, to_capability_set, read_only_grants_no_write,
  read_write_grants_worktree,
}

abbrev plain_files : FileSystem
plain_files = record { canonicalize = λ path. some path; is_file = λ path. false }

abbrev worktree : FilePath
worktree = codes "/" ∷ codes "work" ∷ []

abbrev inside : FilePath
inside = codes "/" ∷ codes "work" ∷ codes "a" ∷ []

abbrev or_new : Result SandboxError CapabilitySet → CapabilitySet
or_new (ok caps) = caps
or_new (err e) = new

abbrev read_only : CapabilitySet
read_only = or_new (to_capability_set plain_files (read_only_worktree worktree))

abbrev writable : CapabilitySet
writable = or_new (to_capability_set plain_files (read_write_worktree worktree))

read_only_grants_no_write_example :
    (read_only.network_blocked ≡ true)
    × (path_covered_with_access plain_files inside write read_only ≡ false)
    × (path_covered_with_access plain_files inside read_write read_only ≡ false)
read_only_grants_no_write_example =
    read_only_grants_no_write plain_files worktree inside read_only
      (unfold to_capability_set allow_path in refl)

read_write_grants_worktree_example :
    path_covered_with_access plain_files inside write writable
    ≡ starts_with (canonical plain_files inside) worktree
read_write_grants_worktree_example =
    read_write_grants_worktree plain_files worktree inside worktree writable refl
      (unfold to_capability_set allow_path in refl)
