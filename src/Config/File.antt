-- ===== src/Config/File.antt =====
-- parseConfigFile and fatalSyntaxError. Both end the process on an error: log.Fatal does not
-- return. What the process ends with is the lines that it logs from the error on.
use hawk_apiserver.Prelude.{ℕ, List, [], ◌∷◌, ◌++◌}
use hawk_apiserver.Text.{Text, codes}
use hawk_apiserver.Outcome.{Outcome, done, panic}
use hawk_apiserver.Server.Env.{Config}
use hawk_apiserver.Config.Offset.{error_lines}

-- How far the process comes: a value and the code behind it, log.Fatal, or a panic.
pub data Process {ℓ} (A : Type ℓ) : Type ℓ where
  runs : A → Process A
  exits : List Text → Process A
  crashes : Process A

-- The results of ioutil.ReadFile, and of json.Unmarshal into a configuration: an error is a
-- json.SyntaxError with its offset, or another one.
pub data FileRead : Type 0 where
  contents : Text → FileRead
  unreadable : Text → FileRead

pub data Unmarshalled : Type 0 where
  filled : Config → Unmarshalled
  syntax_error : Text → ℕ → Unmarshalled
  other_error : Text → Unmarshalled

abbrev pub logged : (ℕ → Text) → Text → Outcome (ℕ × Text × Text) → Process Config
logged decimal msg panic = crashes
logged decimal msg (done (line, text, mark)) =
    exits ((codes "Error in line " ++ (decimal line ++ (codes ": " ++ msg))) ∷ text ∷ mark ∷ [])

-- `decimal` is the verb %d.
unfoldable pub unmarshalled : (ℕ → Text) → Text → Unmarshalled → Process Config
unfolding error_lines
unmarshalled decimal js (filled c) = runs c
unmarshalled decimal js (syntax_error msg offset) = logged decimal msg (error_lines js offset)
unmarshalled decimal js (other_error msg) = exits (msg ∷ [])

unfoldable pub read_config :
    (ℕ → Text) → (Text → Config → Unmarshalled) → Config → FileRead → Process Config
unfolding unmarshalled
read_config decimal unmarshal target (unreadable msg) = exits (msg ∷ [])
read_config decimal unmarshal target (contents raw) =
    unmarshalled decimal raw (unmarshal raw target)

unfoldable pub parse_config_file :
    (ℕ → Text) → (Text → FileRead) → (Text → Config → Unmarshalled) → Text → Config → Process Config
unfolding read_config
parse_config_file decimal read_file unmarshal cfgfile target =
    read_config decimal unmarshal target (read_file cfgfile)
