-- ===== src/Conda/Command/Read.antt =====
-- What a shell is told by the commands of internal/conda.
use Prim.Native.String.{String}
use iceclimber.Common.{◌≡◌, refl, Bool, true, false, some, List, [], ◌∷◌, ◌++◌, map}
use iceclimber.Common.Text.{Text, codes}
use iceclimber.Remote.Shell.{word, class, shell_quote, tokens}
use iceclimber.Remote.Line.{
  OneWord, Words, done, next, is_plain, shell_quote-OneWord, is_plain-OneWord, tokens-join_words,
  Words-append, shell_quote-Words,
}
use iceclimber.Conda.Command.{
  Spec, conda_spec, quoted_specs, quoted_extra_args, install_cmd, verb, python_arg, offline_env_cmd,
}

abbrev pub python_word : Text → Bool → List Text
python_word minor true = []
python_word minor false = (codes "python=" ++ minor) ∷ []

-- The words of the two commands.
abbrev pub install_words : Text → Text → List Text → List Spec → List Text
install_words conda_bin env_prefix extra specs =
    conda_bin
    ∷ codes "install"
    ∷ codes "-y"
    ∷ codes "--json"
    ∷ codes "-p"
    ∷ env_prefix
    ∷ (extra ++ map conda_spec specs)

abbrev pub offline_words : Text → Text → Text → Text → List Spec → Bool → List Text
offline_words conda_bin prefix chan_url minor specs env_exists =
    conda_bin
    ∷ verb env_exists
    ∷ codes "-y"
    ∷ codes "--json"
    ∷ codes "-p"
    ∷ prefix
    ∷ codes "--offline"
    ∷ codes "--override-channels"
    ∷ codes "--solver"
    ∷ codes "classic"
    ∷ codes "-c"
    ∷ chan_url
    ∷ (python_word minor env_exists ++ map conda_spec specs)

specs-Words : (specs : List Spec) → Words (quoted_specs specs) (map conda_spec specs)
unfolding quoted_specs
specs-Words [] = done
specs-Words (s ∷ specs) = next (shell_quote-OneWord (conda_spec s)) (specs-Words specs)

python-Words : (minor : Text) (b : Bool) → Words (python_arg minor b) (python_word minor b)
unfolding python_arg
python-Words minor true = done
python-Words minor false = next (shell_quote-OneWord (codes "python=" ++ minor)) done

-- A word of the program's own.
abbrev own : (s : String) → is_plain (codes s) ≡ true → OneWord (codes s) (codes s)
own s h = is_plain-OneWord (codes s) h

verb-OneWord : (b : Bool) → OneWord (verb b) (verb b)
unfolding verb class
verb-OneWord true = own "install" refl
verb-OneWord false = own "create" refl

-- The environment and the packages behind the program's own words.
install-Words :
    (conda_bin env_prefix : Text) (args ws : List Text)
    → Words args ws
    → Words
        (shell_quote conda_bin
          ∷ codes "install"
          ∷ codes "-y"
          ∷ codes "--json"
          ∷ codes "-p"
          ∷ shell_quote env_prefix
          ∷ args)
        (conda_bin ∷ codes "install" ∷ codes "-y" ∷ codes "--json" ∷ codes "-p" ∷ env_prefix ∷ ws)
unfolding class
install-Words conda_bin env_prefix args ws h = next (shell_quote-OneWord conda_bin) (
    next (own "install" refl) (
      next (own "-y" refl) (
        next (own "--json" refl) (next (own "-p" refl) (next (shell_quote-OneWord env_prefix) h)))))

offline-Words :
    (conda_bin prefix chan_url : Text) (b : Bool) (args ws : List Text)
    → Words args ws
    → Words
        (shell_quote conda_bin
          ∷ verb b
          ∷ codes "-y"
          ∷ codes "--json"
          ∷ codes "-p"
          ∷ shell_quote prefix
          ∷ codes "--offline"
          ∷ codes "--override-channels"
          ∷ codes "--solver"
          ∷ codes "classic"
          ∷ codes "-c"
          ∷ shell_quote chan_url
          ∷ args)
        (conda_bin
          ∷ verb b
          ∷ codes "-y"
          ∷ codes "--json"
          ∷ codes "-p"
          ∷ prefix
          ∷ codes "--offline"
          ∷ codes "--override-channels"
          ∷ codes "--solver"
          ∷ codes "classic"
          ∷ codes "-c"
          ∷ chan_url
          ∷ ws)
unfolding class
offline-Words conda_bin prefix chan_url b args ws h = next (shell_quote-OneWord conda_bin) (
    next (verb-OneWord b) (
      next (own "-y" refl) (
        next (own "--json" refl) (
          next (own "-p" refl) (
            next (shell_quote-OneWord prefix) (
              next (own "--offline" refl) (
                next (own "--override-channels" refl) (
                  next (own "--solver" refl) (
                    next (own "classic" refl)
                      (next (own "-c" refl) (next (shell_quote-OneWord chan_url) h)))))))))))

-- Whatever the agent asks for, a shell reads conda's two commands as their own words with each
-- path, channel, extra argument and package spec as one word: nothing of a spec is taken for an
-- operator, an expansion or a second word.
pub commands-Words :
    (conda_bin prefix chan_url minor : Text) (extra : List Text) (specs : List Spec) (b : Bool)
    → (tokens (install_cmd conda_bin prefix extra specs)
        ≡ some (map word (install_words conda_bin prefix extra specs)))
      × (tokens (offline_env_cmd conda_bin prefix chan_url minor specs b)
          ≡ some (map word (offline_words conda_bin prefix chan_url minor specs b)))
unfolding install_cmd offline_env_cmd quoted_extra_args
commands-Words conda_bin prefix chan_url minor extra specs b = (
  tokens-join_words _ _ (
      install-Words conda_bin prefix _ _
        (Words-append (shell_quote-Words extra) (specs-Words specs))),
  tokens-join_words _ _ (
      offline-Words conda_bin prefix chan_url b _ _
        (Words-append (python-Words minor b) (specs-Words specs))),
)
