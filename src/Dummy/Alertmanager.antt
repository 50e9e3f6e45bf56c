-- ===== src/Dummy/Alertmanager.antt =====
-- plugins/transport/dummy-alertmanager: its configuration, and its answer to a request. The HTTP server and
-- the file are arguments.
use Prim.Native.String.{String, ◌++◌}
use sg_core.Prelude.{
  List, [], ◌∷◌, ◌++◌ as ◌+++◌, Option, none, some, ℤ, pos, ◌⊎◌, inl, inr, Outcome,
}
use sg_core.Config.Parse.{Packages, parse_config}

pub record ConfigT : Type 0 where
  pub port : ℤ
  pub output : String

-- What it has written to its output, and the errors that it has logged.
pub record DummyAm : Type 0 where
  pub conf : ConfigT
  pub written : List String
  pub errors : List String

unfoldable pub new_dummy_am : DummyAm
new_dummy_am = record {
  conf = record { port = pos 16661; output = "/dev/stdout" };
  written = [];
  errors = [];
}

unfoldable pub configure : Packages ConfigT → String → ConfigT → Outcome (ConfigT × Option String)
unfolding parse_config
configure p c conf = parse_config p (inr c) conf

unfoldable pub open_output : Option String → DummyAm → DummyAm
open_output none dam = dam
open_output (some err) dam = record dam {
  errors = dam.errors +++ "failed to open output file" ∷ [];
}

-- A message that was read; to a file that is not open nothing is written.
unfoldable pub write_request : Option String → String ⊎ String → DummyAm → DummyAm
write_request opening (inl err) dam = record dam {
  errors = dam.errors +++ "failed to read request" ∷ [];
}
write_request none (inr msg) dam = record dam { written = dam.written +++ (msg ++ "\n") ∷ [] }
write_request (some err) (inr msg) dam = dam

-- The function for a request, with what opening the output and reading the request give.
unfoldable pub handle_request : (String → Option String) → String ⊎ String → DummyAm → DummyAm
unfolding open_output write_request
handle_request open_file body dam =
    let opening = open_file dam.conf.output in write_request opening body (open_output opening dam)
