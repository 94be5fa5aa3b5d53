-- ===== src/Driver/Main/Program.antt =====
-- ycsbc.cc: `main` from the command line on.
use ycsb_lsm.Base.{
  ℕ, ◌≡◌, refl, false, List, ◌∷◌, Option, none, some, Bytes, codes, Run, ok, fault, exit, ◌>>=◌,
}
use ycsb_lsm.Properties.{Properties, no_properties, index}
use ycsb_lsm.Properties.Loading.{set_all}
use ycsb_lsm.Platform.{Platform}
use ycsb_lsm.Db.{Db}
use ycsb_lsm.DbFactory.{NewDb, create_db}
use ycsb_lsm.DbFactory.Names.{known_names, is_one_of, create_db_unknown}
use ycsb_lsm.Client.{System}
use ycsb_lsm.Driver.{parse_command_line}
use ycsb_lsm.Driver.Options.{Setting, arguments, settings_of, parse_command_line-arguments}
use ycsb_lsm.Driver.Reports.{Requests}
use ycsb_lsm.Driver.Main.{Setup, main_run}

-- A class of databases: its operations, its requests, and what its constructor makes.
pub record Database : Type 1 where
  pub db : Db
  pub requests : Requests db
  pub construct : Run db.State

module _ (P : Platform) (S : System P.World) (setup : Setup) (databases : NewDb → Database)
    (files : Bytes → Option Bytes) where
  -- `main`, with the classes of databases, what the files hold that can be opened, and the arguments after the
  -- name of the program. It returns the records that were loaded and the sums of the runs.
  unfoldable pub run_program : List Bytes → P.World → Run ((ℕ × List ℕ) × P.World)
  unfolding parse_command_line create_db main_run
  run_program args w = do
    (file_name, props) ← parse_command_line files args no_properties
    (made, props') ← create_db props
    elim made [
      | none ↦ fault (exit 0)
      | some class ↦ do
        db ← (databases class).construct
        main_run P (databases class).db (databases class).requests S setup props' db w
    ]

  -- On arguments that give settings, at least one, the program ends with status 0 if the name of the database that
  -- they set is none that is known; no database is made then.
  pub run_program_unknown :
      (s : Setting) (rest : List Setting) (w : P.World)
      → is_one_of
          (index (set_all no_properties (settings_of (s ∷ rest))) (codes "dbname")).0
          known_names
        ≡ false
      → run_program (arguments (s ∷ rest)) w ≡ fault (exit 0)
  unfolding run_program
  run_program_unknown s rest w unknown =
      let props = set_all no_properties (settings_of (s ∷ rest)) in
      rw
        (
          run_program,
          parse_command_line-arguments files s rest no_properties,
          create_db_unknown props unknown,
        )
        refl

  -- Otherwise the class that `CreateDB` chooses is constructed, and `main` runs on it with the properties that the
  -- arguments set.
  pub run_program_known :
      (s : Setting) (rest : List Setting) (class : NewDb) (props : Properties) (w : P.World)
      → create_db (set_all no_properties (settings_of (s ∷ rest))) ≡ ok (some class, props)
      → run_program (arguments (s ∷ rest)) w ≡ (
          (databases class).construct >>= λ db.
          main_run P (databases class).db (databases class).requests S setup props db w)
  unfolding run_program
  run_program_known s rest class props w made =
      rw (run_program, parse_command_line-arguments files s rest no_properties, made) refl
