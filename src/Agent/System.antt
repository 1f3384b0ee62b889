-- ===== src/Agent/System.antt =====
-- What pkg/agent/handlers/task_handler.go uses of the node it runs on: its files, the commands that
-- it starts, and the server's API. How they answer is their own choice, so it is a parameter.
use wireguard_babeld_igp.Base.{String, Option, none, some, List, ◌∷◌, string_key}
use wireguard_babeld_igp.Base.Int.{ℤ}
use wireguard_babeld_igp.Data.Map.{Map, put}
use wireguard_babeld_igp.Errors.{Error, Result, ok, err, wrap}
use wireguard_babeld_igp.Types.{NodeConfig}

abbrev pub Command : Type 0
Command = List String

abbrev pub Files : Type 0
Files = Map String String

-- The answer to a request: it could not be made, it was not answered, or the answer's status and body.
pub data Response : Type 0 where
  not_made not_answered : Error → Response
  answered : ℤ → String → Response

-- A write that fails leaves the files that come with its error. Whether a command fails may depend on
-- those before it.
pub record System : Type 0 where
  pub fetch : String → String → Response
  pub decode_config : String → Result NodeConfig
  pub decode_texts : String → Result (List (String × String))
  pub encode_base64 : String → String
  pub join : String → String → String
  pub read_error : String → Option Error
  pub write_error : String → String → Files → Option (Error × Files)
  pub run_error : List Command → Command → Option Error
  pub text_of : Error → String

pub record Report : Type 0 where
  pub task_id : String
  pub status : String
  pub error : String

-- `runs` and `reports` list the commands that were started and the calls of UpdateTaskStatus that were
-- made, whatever came of them, the last first.
pub record Agent : Type 0 where
  pub files : Files
  pub runs : List Command
  pub reports : List Report

-- The error that a function on a state returns, or nil, and the state after it.
abbrev pub Outcome : Type 0 → Type 0
Outcome S = Result (Unit {0}) × S

abbrev pub Done : Type 0
Done = Outcome Agent

-- A handler that ends, or the exit of the whole agent by log.Fatal.
pub data Handled (A : Type 0) : Type 0 where
  handled : A → Handled A
  exits : Error → Handled A

-- `if err := ...; err != nil { return err }`, then the rest
unfoldable pub and_then : {S : Type 0} → Outcome S → (S → Outcome S) → Outcome S
and_then (ok _, a) k = k a
and_then (err e, a) k = (err e, a)

-- `fmt.Errorf("s: %w", err)`
unfoldable pub wrapped_in : {S : Type 0} → String → Outcome S → Outcome S
wrapped_in s (ok u, a) = (ok u, a)
wrapped_in s (err e, a) = (err (wrap s e), a)

unfoldable pub ran : Agent → Option Error → Done
ran a none = (ok tt, a)
ran a (some e) = (err e, a)

unfoldable pub run : System → Command → Agent → Done
run sys c a = ran (record a { runs = c ∷ a.runs }) (sys.run_error a.runs c)

unfoldable pub written : String → String → Option (Error × Files) → Agent → Done
written path text none a = (ok tt, record a { files = put a.files path text })
written path text (some (e, files)) a = (err e, record a { files = files })

unfoldable pub write_file : System → String → String → Agent → Done
write_file sys path text a = written path text (sys.write_error path text a.files) a
