-- ===== src/Protocol/Layout.antt =====
-- The tree on the sandbox: Tree and Maildir of internal/wire/wire.go, and EnsureTree and
-- IsBootstrapped of internal/protocol/maildir.go over the commands of a Runner.
pub mod Blobs
use iceclimber.Common.{Option, none, some, List, [], ◌∷◌, ◌++◌, Bool, true, false}
use iceclimber.Common.Result.{Result, ok, err}
use iceclimber.Common.Text.{Text, codes, trim_prefix}
use iceclimber.Common.Slash.{join}
use iceclimber.Remote.Exec.{Runner, ExecError, not_connected, not_exist, bad_size, exited}
use iceclimber.Remote.Exec

-- path.Join of two parts
abbrev pub below : Text → Text → Text
below dir name = join (dir ∷ name ∷ [])

unfoldable pub protocol_dir : Text → Text
unfolding join
protocol_dir root = below root (codes "protocol")

unfoldable pub outbox_base : Text → Text
unfolding protocol_dir join
outbox_base root = below (protocol_dir root) (codes "outbox")

unfoldable pub inbox_base : Text → Text
unfolding protocol_dir join
inbox_base root = below (protocol_dir root) (codes "inbox")

unfoldable pub blobs_dir : Text → Text
unfolding protocol_dir join
blobs_dir root = below (protocol_dir root) (codes "blobs")

unfoldable pub state_dir : Text → Text
unfolding join
state_dir root = below root (codes "state")

unfoldable pub skill_dir : Text → Text
unfolding join
skill_dir root = below root (codes "skill")

unfoldable pub skill_file : Text → Text
unfolding skill_dir join
skill_file root = below (skill_dir root) (codes "NANA.md")

-- Tmp, New and Cur of a Maildir
unfoldable pub maildir_dirs : Text → List Text
unfolding join
maildir_dirs base =
    below base (codes "tmp") ∷ below base (codes "new") ∷ below base (codes "cur") ∷ []

unfoldable pub blob_path : Text → Text → Text
unfolding blobs_dir join
blob_path root name = below (blobs_dir root) name

unfoldable pub blob_ref : Text → Text → Text
unfolding blob_path trim_prefix
blob_ref root name = trim_prefix (blob_path root name) (root ++ codes "/")

unfoldable pub tree_dirs : Text → List Text
unfolding maildir_dirs outbox_base inbox_base blobs_dir state_dir skill_dir
tree_dirs root =
    maildir_dirs (outbox_base root)
    ++ maildir_dirs (inbox_base root)
    ++ blobs_dir root ∷ state_dir root ∷ skill_dir root ∷ []

module _ (r : Runner) where
  unfoldable pub make_dirs : List Text → r.World → Option ExecError × r.World
  unfolding Exec.mkdir
  make_dirs [] w = (none, w)
  make_dirs (d ∷ ds) w =
      let (e, w') = Exec.mkdir r d w in
      let rest = make_dirs ds w' in elim e [ some x ↦ (some x, w') | none ↦ rest ]

  unfoldable pub ensure_tree : Text → r.World → Option ExecError × r.World
  unfolding make_dirs tree_dirs
  ensure_tree root = make_dirs (tree_dirs root)

  unfoldable pub provisioned : Result ExecError Text → Result ExecError Bool
  provisioned (ok s) = ok true
  provisioned (err not_exist) = ok false
  provisioned (err not_connected) = err not_connected
  provisioned (err (bad_size s)) = err (bad_size s)
  provisioned (err (exited n s)) = err (exited n s)

  unfoldable pub is_bootstrapped : Text → r.World → Result ExecError Bool × r.World
  unfolding provisioned skill_file Exec.exec_read
  is_bootstrapped root w = let (s, w') = Exec.exec_read r (skill_file root) w in (provisioned s, w')
