-- ===== src/Egress/Store/Files.antt =====
-- The files behind the store: load, loadPending, flockFile and writeJSONAtomic of
-- internal/egress/store.go. Package encoding/json is a parameter.
use mathlib.Core.List.{tail}
use iceclimber.Common.{
  ◌≡◌, Bool, true, false, Option, none, some, List, [], ◌∷◌, ◌++◌, if◌then◌else◌,
}
use iceclimber.Common.Result.{Result, ok, err}
use iceclimber.Common.Text.{Text}

-- What os.ReadFile finds at a path.
pub data Content : Type 0 where
  absent : Content
  unreadable : Content
  bytes : Text → Content

-- A target file and the temporary files beside it, the newest first, with what they hold.
pub record File : Type 0 where
  pub content : Content
  pub temps : List Text

-- json.MarshalIndent and json.Unmarshal at one type. A value whose strings are valid UTF-8
-- (`Faithful`) is read back from its own encoding.
pub record Json (A : Type 0) : Type 1 where
  pub encode : A → Text
  pub decode : Text → Option A
  pub Faithful : A → Type 0
  pub decode-encode : (a : A) → Faithful a → decode (encode a ++ b'\n' ∷ []) ≡ some a

-- The calls of writeJSONAtomic that may fail; os.Remove, whose error is dropped, among them.
pub data WriteStep : Type 0 where
  mkdir marshal create_temp write close chmod rename remove : WriteStep

pub data StoreError (E : Type 0) : Type 0 where
  lock_failed : StoreError E
  read_failed : StoreError E
  corrupt : StoreError E
  refused : E → StoreError E
  write_failed : WriteStep → StoreError E

-- What the operating system does in one call of the store: whether flockFile succeeds, and
-- which steps of a write would fail.
pub record Env : Type 0 where
  pub locks : Bool
  pub fails : WriteStep → Bool

abbrev pub calm : Env
calm = record { locks = true; fails = λ _. false }

-- os.CreateTemp, tmp.Write, os.Remove(tmpName) and os.Rename(tmpName, path)
unfoldable pub create_temp_file : File → File
create_temp_file f = record f { temps = [] ∷ f.temps }

unfoldable pub write_temp : Text → File → File
write_temp s f = record f { temps = s ∷ tail f.temps }

unfoldable pub remove_temp : File → File
remove_temp f = record f { temps = tail f.temps }

unfoldable pub rename_temp : File → File
rename_temp f = elim f.temps [ [] ↦ f | s ∷ rest ↦ record { content = bytes s; temps = rest } ]

-- os.Remove(tmpName) with its error dropped. (A temporary file whose write failed stands as empty:
-- nothing reads it.)
unfoldable pub clean_up : (WriteStep → Bool) → File → File
unfolding remove_temp
clean_up fails f = if fails remove then f else remove_temp f

module _ {A : Type 0} (json : Json A) where
  -- An absent or an empty file is the zero value; anything else must parse.
  unfoldable pub load : {E : Type 0} → A → File → Result (StoreError E) A
  load zero_value f = elim f.content [
    | absent ↦ ok zero_value
    | unreadable ↦ err read_failed
    | bytes [] ↦ ok zero_value
    | bytes (c ∷ s) ↦ elim (json.decode (c ∷ s)) [ none ↦ err corrupt | some a ↦ ok a ]
  ]

  -- os.Remove follows each failure between CreateTemp and Rename, and not the one of Rename.
  unfoldable pub write_json_atomic : (WriteStep → Bool) → A → File → Option WriteStep × File
  unfolding create_temp_file write_temp clean_up rename_temp
  write_json_atomic fails v f =
      if fails mkdir
      then (some mkdir, f)
      else if fails marshal
      then (some marshal, f)
      else if fails create_temp
      then (some create_temp, f)
      else (let opened = create_temp_file f in
          if fails write
          then (some write, clean_up fails opened)
          else (let written = write_temp (json.encode v ++ b'\n' ∷ []) opened in
              if fails close
              then (some close, clean_up fails written)
              else if fails chmod
              then (some chmod, clean_up fails written)
              else if fails rename
              then (some rename, written)
              else (none, rename_temp written)))
