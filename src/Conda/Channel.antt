-- ===== src/Conda/Channel.antt =====
-- downloadChannel of internal/conda/relay.go: each package of a solve goes into a directory of its
-- own channel, a pinned one by way of the shared cache of internal/relay. ToLower is modelled on
-- ASCII, and the directories that MkdirAll makes are left out.
pub mod Staged
pub mod Placed
use iceclimber.Common.{
  Bool, true, false, not, Option, none, some, List, [], ◌∷◌, ◌++◌, if◌then◌else◌,
}
use iceclimber.Common.Result.{Result, ok, err}
use iceclimber.Common.Text.{Text, codes, text_eq, has_prefix, ascii_lower}
use iceclimber.Common.Boxes.{Box, lookup, put}
use iceclimber.Common.Slash.{join}
use iceclimber.Relay.{Host, FetchError, fetch}
use iceclimber.Conda.{CondaRecord, fn_of, subdir_of, safe_path_component, scheme_of}

-- What becomes of a file that is created at a path.
pub data Created : Type 0 where
  whole not_created : Created
  stopped : Text → Created

-- The host of the cache, with the directories that can be made and what becomes of the files that
-- are written to the channel.
pub record Disk : Type 0 where
  pub host : Host
  pub makes : Text → Bool
  pub creates_at : Text → Created

pub data ChannelError : Type 0 where
  no_url not_https : Text → ChannelError
  unsafe_component : Text → ChannelError
  no_dir no_http : ChannelError
  not_fetched : FetchError → ChannelError
  not_staged : Text → ChannelError

-- The cache's files, and those of the channel by their paths.
pub record Files : Type 0 where
  pub cache : Box
  pub channel : Box

-- The hash of a record's file or an error, and the files.
abbrev pub Download : Type 0
Download = Result ChannelError Text × Files

-- os.Create, then io.Copy of the body
unfoldable pub create : Created → Text → Text → Text → Files → Download
unfolding put
create whole dest body sum files = (ok sum, record files { channel = put dest body files.channel })
create not_created dest body sum files = (err (not_staged dest), files)
create (stopped part) dest body sum files =
    (err (not_staged dest), record files { channel = put dest part files.channel })

module _ (d : Disk) where
  -- copyFile of a file of the cache
  unfoldable pub copy_file : Text → Text → Text → Files → Download
  unfolding create lookup
  copy_file cached dest pin files = elim (lookup cached files.cache) [
    | none ↦ (err (not_staged dest), files)
    | some body ↦ create (d.creates_at dest) dest body pin files
  ]

  unfoldable pub copy_fetched : Result FetchError Text → Text → Text → Files → Download
  unfolding copy_file
  copy_fetched (err e) dest pin files = (err (not_fetched e), files)
  copy_fetched (ok cached) dest pin files = copy_file cached dest pin files

  unfoldable pub stage_pinned : CondaRecord → Text → Text → Text → Files → Download
  unfolding copy_fetched fetch ascii_lower
  stage_pinned r sub fn dest files =
      let pin = ascii_lower r.sha256 in
      let (out, cache) =
        fetch d.host (record { name = sub ++ (codes "-" ++ fn); url = r.url; sha256 = pin })
          files.cache in
      copy_fetched out dest pin (record files { cache = cache })

  -- downloadFile
  unfoldable pub download_file : Text → Text → Files → Download
  unfolding create
  download_file url dest files = elim (d.host.get url) [
    | none ↦ (err no_http, files)
    | some body ↦ create (d.creates_at dest) dest body (d.host.hash body) files
  ]

  unfoldable pub stage : CondaRecord → Text → Text → Text → Files → Download
  unfolding stage_pinned download_file text_eq
  stage r sub fn dest files =
      if not (text_eq r.sha256 [])
      then stage_pinned r sub fn dest files
      else download_file r.url dest files

  module _ (local_chan : Text) where
    unfoldable pub stage_at : CondaRecord → Text → Text → Files → Download
    unfolding stage join
    stage_at r sub fn files =
        let dir = join (local_chan ∷ sub ∷ []) in
        if d.makes dir then stage r sub fn (join (dir ∷ fn ∷ [])) files else (err no_dir, files)

    -- one round of the loop
    unfoldable pub download_record : CondaRecord → Files → Download
    unfolding stage_at fn_of subdir_of safe_path_component has_prefix text_eq scheme_of
    download_record r files =
        if text_eq r.url []
        then (err (no_url r.name), files)
        else if not (has_prefix r.url (codes "https://"))
        then (err (not_https (scheme_of r.url)), files)
        else if not (safe_path_component (fn_of r))
        then (err (unsafe_component (fn_of r)), files)
        else if not (safe_path_component (subdir_of r))
        then (err (unsafe_component (subdir_of r)), files)
        else stage_at r (subdir_of r) (fn_of r) files

    -- shas, by package names
    unfoldable pub download_rest : List CondaRecord → Box → Files → Result ChannelError Box × Files
    unfolding download_record put
    download_rest [] shas files = (ok shas, files)
    download_rest (r ∷ recs) shas files =
        let (out, files') = download_record r files in
        elim out [
          | err e ↦ (err e, files')
          | ok sum ↦ download_rest recs (put r.name sum shas) files'
        ]

    unfoldable pub download_channel : List CondaRecord → Files → Result ChannelError Box × Files
    unfolding download_rest
    download_channel recs files = download_rest recs [] files
