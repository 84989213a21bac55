-- ===== src/Tests/Conda.antt =====
-- internal/conda at concrete inputs.
use iceclimber.Common.{
  ◌≡◌, ◌⊎◌, AnyOf, refl, true, false, not, ◌||◌, Option, none, some, List, [], ◌∷◌, map, ◌==◌,
  if◌then◌else◌,
}
use iceclimber.Common.Result.{Result, ok, err}
use iceclimber.Common.Text.{
  Text, codes, text_eq, contains_byte, has_prefix, ascii_lower, split, trim_right_byte,
}
use iceclimber.Common.Slash.{
  base, after_slash, last_of, join, non_empty, join_slash, clean, clean_elements, clean_step,
}
use iceclimber.Common.Slash.Components.{Component, path_of}
use iceclimber.Remote.Shell.{word, tokens}
use iceclimber.Remote.Exec.{RunResult}
use iceclimber.Conda.{CondaRecord, fn_of, subdir_of, safe_path_component}
use iceclimber.Conda.Solve.{synthesize_repodata, is_conda}
use iceclimber.Conda.Solve.Indexed.{last_named, synthesize_repodata-at}
use iceclimber.Common.Boxes.{Box, lookup, put, remove}
use iceclimber.Relay.{
  is_cached, publish, store_body, download_to, fetch_locked, fetch_pinned, fetch,
}
use iceclimber.Conda.Channel.{
  Disk, ChannelError, whole, Files, create, copy_file, copy_fetched, stage_pinned, stage, stage_at,
  download_record, download_rest, download_channel,
}
use iceclimber.Conda.Channel.Staged.{Succeeds}
use iceclimber.Conda.Channel.Placed.{FromRecord, download_channel-Placed}
use iceclimber.Conda.Command.{
  Spec, install_cmd, offline_env_cmd, controller_channel_args, is_channel_flag, is_kept_alone,
  is_inline_channel,
}
use iceclimber.Conda.Command.Read.{install_words, offline_words, commands-Words}
use iceclimber.Conda.Report.{
  CondaJson, Outcome, ReportError, trim_to_json, result_outcome, Complete, result_outcome-Complete,
}
use iceclimber.Tests.Cache.{small_host}

-- A record of a channel that tries to leave the directory.
abbrev hostile : CondaRecord
hostile = record {
  name = codes "zlib";
  version = codes "1.3";
  build = codes "h0";
  build_number = 0;
  subdir = codes "../..";
  fn = codes "../.bashrc";
  url = codes "https://x/linux-64/zlib.conda";
  depends = [];
  constrains = [];
  md5 = [];
  sha256 = codes "body";
  size = 4;
  license = [];
  timestamp = 0;
}

abbrev zlib : CondaRecord
zlib = record hostile { subdir = codes "linux-64"; fn = [] }

abbrev bare : CondaRecord
bare = record zlib { url = []; sha256 = [] }

abbrev zlib_file : Text
zlib_file = codes "zlib.conda"

synthesize_repodata-at_example :
    ((synthesize_repodata (codes "linux-64") (zlib ∷ [])).packages_conda zlib_file ≡ (
      if is_conda zlib_file
      then last_named (codes "linux-64") zlib_file (zlib ∷ []) none
      else none))
    × ((synthesize_repodata (codes "linux-64") (zlib ∷ [])).packages zlib_file ≡ (
        if is_conda zlib_file
        then none
        else last_named (codes "linux-64") zlib_file (zlib ∷ []) none))
synthesize_repodata-at_example = synthesize_repodata-at (codes "linux-64") zlib_file (zlib ∷ [])

-- The names that a hostile record stands for.
hostile_file : fn_of hostile ≡ codes ".bashrc"
unfolding fn_of text_eq base trim_right_byte after_slash last_of split
hostile_file = refl

hostile_refused : safe_path_component (subdir_of hostile) ≡ false
unfolding safe_path_component subdir_of text_eq base trim_right_byte after_slash last_of split
hostile_refused = refl

abbrev disk : Disk
disk = record { host = small_host; makes = λ _. true; creates_at = λ _. whole }

abbrev empty : Files
empty = record { cache = []; channel = [] }

tmp-Component : Component (codes "tmp")
tmp-Component = record {
  not_empty = λ e. cc;
  not_dot = λ e. cc;
  not_dot_dot = λ e. cc;
  no_slash = unfold contains_byte in refl;
}

abbrev staged : Result ChannelError Box × Files
staged = download_channel disk (path_of (codes "tmp" ∷ [])) (zlib ∷ []) empty

abbrev zlib_path : Text
zlib_path = codes "/tmp/linux-64/zlib.conda"

zlib-staged : lookup zlib_path staged.1.channel ≡ some (codes "body")
unfolding download_channel download_rest download_record stage_at stage stage_pinned copy_fetched
    copy_file create fetch fetch_pinned fetch_locked is_cached download_to store_body publish lookup
    put remove text_eq has_prefix safe_path_component contains_byte fn_of subdir_of base
    trim_right_byte after_slash last_of split join non_empty join_slash clean clean_elements
    clean_step ascii_lower
zlib-staged = refl

download_channel-Placed_example :
    (lookup zlib_path [] ≡ some (codes "body"))
    ⊎ AnyOf
        (FromRecord disk
          (codes "tmp")
          []
          (tmp-Component, tt)
          (Succeeds staged.0)
          zlib_path
          (codes "body"))
        (zlib ∷ [])
download_channel-Placed_example =
    download_channel-Placed disk (codes "tmp") [] (tmp-Component, tt) (zlib ∷ []) empty zlib_path
      (codes "body") zlib-staged

abbrev specs : List Spec
specs = record { name = codes "numpy; rm -rf /"; version = codes ">=1.2" } ∷ []

commands-Words_example :
    (tokens (install_cmd (codes "/r/conda") (codes "/r/e") (codes "-c" ∷ codes "a b" ∷ []) specs)
      ≡ some (
          map word (
            install_words (codes "/r/conda") (codes "/r/e") (codes "-c" ∷ codes "a b" ∷ []) specs)))
    × (tokens (
          offline_env_cmd
            (codes "/r/conda")
            (codes "/r/e")
            (codes "file:///c")
            (codes "3.12")
            specs
            false)
        ≡ some (
            map word (
              offline_words
                (codes "/r/conda")
                (codes "/r/e")
                (codes "file:///c")
                (codes "3.12")
                specs
                false)))
commands-Words_example =
    commands-Words (codes "/r/conda") (codes "/r/e") (codes "file:///c") (codes "3.12")
      (codes "-c" ∷ codes "a b" ∷ []) specs false

channels_kept :
    controller_channel_args
      (codes "--offline" ∷ codes "-c" ∷ codes "x" ∷ codes "--override-channels" ∷ [])
    ≡ codes "-c" ∷ codes "x" ∷ codes "--override-channels" ∷ []
unfolding controller_channel_args is_channel_flag is_kept_alone is_inline_channel text_eq
channels_kept = refl

abbrev unmarshal : Text → Option CondaJson
unmarshal _ = some (record { success = true; message = []; error = []; link = [] })

abbrev finished : RunResult
finished = record { stdout = codes "{}"; stderr = []; exit_code = 0 }

result_outcome-Complete_example :
    ((unmarshal (trim_to_json finished.stdout) ≡ none)
      × (e : ReportError) × (result_outcome unmarshal finished specs (codes "mirror") ≡ err e))
    ⊎ ((cr : CondaJson) × (unmarshal (trim_to_json finished.stdout) ≡ some cr)
        × (o : Outcome) × (result_outcome unmarshal finished specs (codes "mirror") ≡ ok o)
        × Complete o specs (not (not (finished.exit_code == 0) || not cr.success)))
result_outcome-Complete_example = result_outcome-Complete unmarshal finished specs (codes "mirror")
