-- ===== src/Protocol/Mail.antt =====
-- The maildir tree over a filesystem that can fail: internal/protocol/maildir.go, with the methods
-- of remotefs.FS that the protocol calls (internal/remotefs/fs.go).
pub mod Laws
pub mod Untouched
use iceclimber.Common.{
  take, ℕ, ◌==◌, Bool, true, false, Option, none, some, List, [], ◌∷◌, if◌then◌else◌,
}
use iceclimber.Common.Result.{Result, ok, err}
use iceclimber.Common.Text.{Text}
use iceclimber.Common.Boxes.{Box, lookup, put, remove, names}

-- tmp, new and cur of the outbox (requests) and the inbox (responses)
pub data Folder : Type 0 where
  outbox_tmp outbox_new outbox_cur inbox_tmp inbox_new inbox_cur : Folder

-- One box of files for each folder of the tree.
abbrev pub Tree : Type 0
Tree = Folder → Box

pub data Slot : Type 0 where
  outbox inbox : Slot

abbrev pub tmp_of : Slot → Folder
tmp_of outbox = outbox_tmp
tmp_of inbox = inbox_tmp

abbrev pub new_of : Slot → Folder
new_of outbox = outbox_new
new_of inbox = inbox_new

abbrev pub cur_of : Slot → Folder
cur_of outbox = outbox_cur
cur_of inbox = inbox_cur

abbrev pub folder_no : Folder → ℕ
folder_no outbox_tmp = 0
folder_no outbox_new = 1
folder_no outbox_cur = 2
folder_no inbox_tmp = 3
folder_no inbox_new = 4
folder_no inbox_cur = 5

abbrev pub same_folder : Folder → Folder → Bool
same_folder f g = folder_no f == folder_no g

-- The tree with one box replaced.
abbrev pub set_box : Folder → Box → Tree → Tree
set_box f b t g = if same_folder f g then b else t g

-- A transport error, an absent file, or a response that json.Marshal refuses.
pub data FsError : Type 0 where
  transport missing unencodable : FsError

-- What becomes of one call: it passes; it fails and has changed nothing; it is carried out, but its
-- answer is lost and it reports an error; or, for a write, it fails and has left this many bytes of
-- the file.
pub data Fate : Type 0 where
  passes lost unanswered : Fate
  torn : ℕ → Fate

-- The tree, and what becomes of the next calls. With no fate left all calls pass.
pub record Link : Type 0 where
  pub tree : Tree
  pub fates : List Fate

abbrev pub Call : Type 0 → Type 0
Call A = Link → Result FsError A × Link

unfoldable pub carry_out :
    {A : Type 0} → List Fate → (Tree → Result FsError A × Tree) → Tree → Result FsError A × Link
carry_out ds body t = let (r, t') = body t in (r, record { tree = t'; fates = ds })

unfoldable pub attempt_with :
    {A : Type 0} → List Fate → (Tree → Result FsError A × Tree) → Tree → Result FsError A × Link
unfolding carry_out
attempt_with [] body t = carry_out [] body t
attempt_with (lost ∷ ds) body t = (err transport, record { tree = t; fates = ds })
attempt_with (unanswered ∷ ds) body t = (err transport, record { tree = (body t).1; fates = ds })
attempt_with (torn n ∷ ds) body t = (err transport, record { tree = t; fates = ds })
attempt_with (passes ∷ ds) body t = carry_out ds body t

-- One call of remotefs.FS that is not a write: `body` on the tree unless the link drops the call,
-- and its result unless the link drops the answer.
unfoldable pub attempt : {A : Type 0} → (Tree → Result FsError A × Tree) → Call A
unfolding attempt_with
attempt body l = attempt_with l.fates body l.tree

abbrev pub after_write : Folder → Text → Text → Tree → Tree
after_write f name s t = set_box f (put name s (t f)) t

unfoldable pub write_with :
    List Fate → Folder → Text → Text → Tree → Result {0, 0} FsError Unit × Link
write_with [] f name s t = (ok tt, record { tree = after_write f name s t; fates = [] })
write_with (lost ∷ ds) f name s t = (err transport, record { tree = t; fates = ds })
write_with (unanswered ∷ ds) f name s t =
    (err transport, record { tree = after_write f name s t; fates = ds })
write_with (torn n ∷ ds) f name s t =
    (err transport, record { tree = after_write f name (take n s) t; fates = ds })
write_with (passes ∷ ds) f name s t = (ok tt, record { tree = after_write f name s t; fates = ds })

-- FS.List: the sorted basenames
unfoldable pub list : Folder → Call (List Text)
unfolding attempt
list f = attempt (λ t. (ok (names (t f)), t))

-- FS.ReadFile
unfoldable pub read_file : Folder → Text → Call Text
unfolding attempt
read_file f name =
    attempt (λ t. (elim (lookup name (t f)) [ none ↦ err missing | some s ↦ ok s ], t))

-- FS.WriteFile
unfoldable pub write_file : Folder → Text → Text → Call Unit
unfolding write_with
write_file f name s l = write_with l.fates f name s l.tree

-- FS.Rename between two folders, under one name
unfoldable pub move : Folder → Folder → Text → Call Unit
unfolding attempt
move from to name = attempt (λ t. elim (lookup name (t from)) [
  | none ↦ (err missing, t)
  | some s ↦ (ok tt, set_box to (put name s (t to)) (set_box from (remove name (t from)) t))
])

-- FS.RemoveAll
unfoldable pub remove_all : Folder → Text → Call Unit
unfolding attempt
remove_all f name = attempt (λ t. (ok tt, set_box f (remove name (t f)) t))

infixl 5 ◌>>=◌ ◌>>◌
abbrev pub ◌>>=◌ : {A B : Type 0} → Call A → (A → Call B) → Call B
◌>>=◌ m f l = let (r, l') = m l in elim r [ ok a ↦ f a l' | err e ↦ (err e, l') ]

abbrev pub ◌>>◌ : {B : Type 0} → Call Unit → Call B → Call B
m >> k = m >>= λ _. k

abbrev pub pure : {A : Type 0} → A → Call A
pure a l = (ok a, l)

-- Deliver: write to tmp, then rename into new
unfoldable pub deliver : Slot → Text → Text → Call Unit
unfolding write_file move
deliver m name s = do write_file (tmp_of m) name s; move (tmp_of m) (new_of m) name

-- PickUp of the outbox, and AckResponse of the inbox: new to cur
unfoldable pub pick_up : Slot → Text → Call Unit
unfolding move
pick_up m name = move (new_of m) (cur_of m) name

-- `_ = call`: the error is dropped
unfoldable pub ignore : Call Unit → Call Unit
ignore m l = let (r, l') = m l in (ok tt, l')

-- The outcome of a call as a value, for code that goes on after an error.
unfoldable pub caught : {A : Type 0} → Call A → Call (Option A)
caught m l = let (r, l') = m l in (elim r [ ok a ↦ ok (some a) | err _ ↦ ok none ], l')
